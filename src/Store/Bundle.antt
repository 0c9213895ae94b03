-- ===== src/Store/Bundle.antt =====
-- artifact_store.py: the verification of a replay bundle. Every artifact must be there with its
-- hash, and one of a high-assurance level must be in a signed envelope of its producer.
pub mod Laws
use attestation_layer.Prelude.{
  String, Bool, true, false, not, ◌&&◌, ◌||◌, ◌==◌, Option, none, some, List, [], ◌∷◌, ◌++◌, any,
  is_empty, Dict, lookup, insert, sorted, join, concat, or_else, Result, ok, err, if◌then◌else◌,
}
use attestation_layer.Models.Json.{Value, Fields, get}
use attestation_layer.Signed.{
  ProducerKeyRegistry, SignedEvidenceEnvelope, SignatureResult, SignatureVerificationReport,
  Primitives, verify_signed_evidence,
}
use attestation_layer.Store.{
  FileSystem, ArtifactRecord, ArtifactStoreManifest, ArtifactLookupResult, LookupStatus,
  ReplayBundleManifestV2, ReplayCommandMetadata, ReplayCategory, artifact_category,
  signature_category, producer_category, command_category, ReplayVerificationFinding,
  ReplayVerificationReport, check_manifest, lookup_artifact, is_found,
}

-- `_requires_high_assurance_signature`
pub requires_high_assurance_signature : ArtifactRecord → Bool → Bool
requires_high_assurance_signature r required =
    required && elim (lookup "evidence_level" r.metadata) [
      | none ↦ false
      | some level ↦ level == "BOUNDED_CHECKED" || level == "PROVEN_INDUCTIVE"
    ]

-- `if isinstance(artifact_hash, str): indexed[artifact_hash] = envelope`
abbrev pub index_envelope :
    Value → SignedEvidenceEnvelope → Dict SignedEvidenceEnvelope → Dict SignedEvidenceEnvelope
index_envelope (Value.str h) e indexed = insert h e indexed
index_envelope _ e indexed = indexed

-- the loop of `_envelopes_by_artifact`
pub index_envelopes :
    Dict SignedEvidenceEnvelope → List SignedEvidenceEnvelope → Dict SignedEvidenceEnvelope
index_envelopes indexed [] = indexed
index_envelopes indexed (e ∷ es) =
    index_envelopes (index_envelope (get "artifact_hash" e.payload) e indexed) es

-- `_envelopes_by_artifact`
abbrev pub envelopes_by_artifact : List SignedEvidenceEnvelope → Dict SignedEvidenceEnvelope
envelopes_by_artifact envelopes = index_envelopes [] envelopes

abbrev finding : ReplayCategory → String → Option String → String → ReplayVerificationFinding
finding category h envelope_id message = record {
  category = category;
  artifact_hash = some h;
  envelope_id = envelope_id;
  blocking = true;
  message = message;
}

abbrev status_text : LookupStatus → String
status_text LookupStatus.found = "found"
status_text LookupStatus.missing = "missing"
status_text LookupStatus.hash_mismatch = "hash_mismatch"

abbrev result_text : SignatureResult → String
result_text SignatureResult.valid = "valid"
result_text SignatureResult.invalid = "invalid"
result_text SignatureResult.untrusted_key = "untrusted_key"
result_text SignatureResult.unknown_key = "unknown_key"

abbrev pub is_valid_result : SignatureResult → Bool
is_valid_result SignatureResult.valid = true
is_valid_result _ = false

-- `x or y`, of texts
abbrev text_or : String → String → String
text_or x y = if x == "" then y else x

-- What the run of the loop for one record appends: to the artifacts, the missing artifacts, the
-- envelopes and the findings.
pub record Verdict : Type 0 where
  pub verified : List String
  pub missing : List String
  pub envelope_ids : List String
  pub findings : List ReplayVerificationFinding

-- The exceptions: of the manifest, and of a signature that is not ASCII.
pub data BundleError : Type 0 where
  hashes_not_unique signature_not_ascii : BundleError

abbrev rejected : String → ReplayVerificationFinding → Verdict
rejected h f = record { verified = h ∷ []; missing = []; envelope_ids = []; findings = f ∷ [] }

abbrev accepted : String → List String → Verdict
accepted h ids = record { verified = h ∷ []; missing = []; envelope_ids = ids; findings = [] }

module _ (P : Primitives) (registry : ProducerKeyRegistry) (secrets : Dict String) where
  -- the tests on the envelope of an artifact
  pub judge_envelope : String → String → SignedEvidenceEnvelope → Result BundleError Verdict
  judge_envelope h producer_id e =
      if not (e.producer_id == producer_id)
      then ok (
          rejected h (
            finding producer_category h (some e.envelope_id)
              "signed envelope producer does not match artifact metadata"))
      else elim (verify_signed_evidence P e registry secrets true) [
        | none ↦ err signature_not_ascii
        | some signature ↦ ok (
            if not (is_valid_result signature.result)
            then rejected h (
                finding signature_category h (some e.envelope_id)
                  (text_or (join "; " signature.reasons) (result_text signature.result)))
            else accepted h (e.envelope_id ∷ []))
      ]

  -- the tests on an artifact that needs a signature
  pub judge_producer : Dict SignedEvidenceEnvelope → ArtifactRecord → Result BundleError Verdict
  unfolding judge_envelope
  judge_producer indexed r =
      let producer_id = or_else (lookup "producer_id" r.metadata) "" in
      if producer_id == ""
      then ok (
          rejected r.artifact_hash (
            finding producer_category r.artifact_hash none
              "high-assurance replay artifact is missing producer_id metadata"))
      else elim (lookup r.artifact_hash indexed) [
        | none ↦ ok (
            rejected r.artifact_hash (
              finding signature_category r.artifact_hash none
                "high-assurance replay artifact is missing signed envelope"))
        | some e ↦ judge_envelope r.artifact_hash producer_id e
      ]

  module _ (F : FileSystem) where
    -- the run of the loop for one record
    pub judge_record :
        F.State
        → String
        → ArtifactStoreManifest
        → Dict SignedEvidenceEnvelope
        → Bool
        → ArtifactRecord
        → Result BundleError Verdict
    unfolding judge_producer requires_high_assurance_signature
    judge_record s bundle_root m indexed required r =
        let found = lookup_artifact F s bundle_root m r.artifact_hash in
        if not (is_found F found)
        then ok (record {
          verified = [];
          missing = r.artifact_hash ∷ [];
          envelope_ids = [];
          findings =
              finding artifact_category r.artifact_hash none
                (text_or (or_else found.reason "") (status_text found.status))
              ∷ [];
        })
        else if requires_high_assurance_signature r required
        then judge_producer indexed r
        else ok (accepted r.artifact_hash [])

    pub judge_records :
        F.State
        → String
        → ArtifactStoreManifest
        → Dict SignedEvidenceEnvelope
        → Bool
        → List ArtifactRecord
        → Result BundleError Verdict
    unfolding judge_record
    judge_records s bundle_root m indexed required [] =
        ok (record { verified = []; missing = []; envelope_ids = []; findings = [] })
    judge_records s bundle_root m indexed required (r ∷ rs) =
        elim (judge_record s bundle_root m indexed required r) [
          | err e ↦ err e
          | ok v ↦ elim (judge_records s bundle_root m indexed required rs) [
            | err e ↦ err e
            | ok w ↦ ok (record {
              verified = v.verified ++ w.verified;
              missing = v.missing ++ w.missing;
              envelope_ids = v.envelope_ids ++ w.envelope_ids;
              findings = v.findings ++ w.findings;
            })
          ]
        ]

    -- the findings before the loop
    abbrev pub command_findings : ReplayBundleManifestV2 → List ReplayVerificationFinding
    command_findings bundle =
        if is_empty bundle.command.command
        then (record {
          category = command_category;
          artifact_hash = none;
          envelope_id = none;
          blocking = true;
          message = "replay command metadata is missing";
        })
          ∷ []
        else []

    unfoldable pub verify_replay_bundle :
        F.State
        → String
        → ReplayBundleManifestV2
        → Bool
        → Result BundleError ReplayVerificationReport
    unfolding judge_records index_envelopes
    verify_replay_bundle s bundle_root bundle required =
        let m : ArtifactStoreManifest = record {
          store_id = bundle.source_store_id;
          records = bundle.records;
        } in
        elim (check_manifest m) [
          | none ↦ err hashes_not_unique
          | some m' ↦
              elim (judge_records s bundle_root m' (envelopes_by_artifact bundle.signed_envelopes)
                required bundle.records) [
                  | err e ↦ err e
                  | ok v ↦
                      (let findings = command_findings bundle ++ v.findings in
                        ok (record {
                          bundle_id = bundle.bundle_id;
                          is_valid = not (any (λ f. ReplayVerificationFinding.blocking f) findings);
                          verified_artifact_hashes = sorted v.verified;
                          missing_artifact_hashes = sorted v.missing;
                          verified_envelope_ids = sorted v.envelope_ids;
                          findings = findings;
                        }))
                ]
        ]
