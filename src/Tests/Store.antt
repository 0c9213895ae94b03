-- ===== src/Tests/Store.antt =====
-- artifact_store.py and signed_evidence.py on concrete inputs.
use Prim.Native.String.{count}
use Prim.Native.String
use mathlib.Core.Bool.{false≢true}
use text.Mathlib.TextLemmas.{append_inj}
use attestation_layer.Prelude.{
  ◌==◌, String, ◌≡◌, ◌≢◌, ◌↔◌, refl, true, false, none, some, [], ◌∷◌, Memᴰ, Dict, arith, ok,
  Bool-cases, inl, inr, if◌then◌else◌, are_unique, dedupe, concat, sorted, ◌∙◌, eq_iff, sym,
}
use attestation_layer.Models.Json.{Value, Fields, get}
use attestation_layer.Signed.{
  ProducerKey, ProducerKeyRegistry, SignedEvidenceEnvelope, Primitives, is_ascii, check_registry,
  sign_evidence_payload, verify_signed_evidence,
}
use attestation_layer.Signed.Laws.{
  IsValid, IsAuthentic, verify_signed_evidence-iff-IsAuthentic,
  verify_signed_evidence-sign_evidence_payload,
}
use attestation_layer.Store.{
  ArtifactRecord, ArtifactStoreManifest, LookupStatus, ReplayBundleManifestV2, check_manifest,
  record_of, sha256_bytes, object_path, path_for_hash, write_absent, ReplayVerificationReport,
  put_artifact, lookup_artifact, is_found,
}
use attestation_layer.Store.Memory.{memory, memory-IsLawful}
use attestation_layer.Store.Laws.{IsWellFormed, lookup_artifact-put_artifact, put_artifact-keeps}
use attestation_layer.Store.Bundle.{verify_replay_bundle}
use attestation_layer.Store.Bundle.Laws.{IsReplayable, verify_replay_bundle-IsReplayable}

-- Digests that tell one secret from the others.
abbrev primitives : Primitives
primitives = record {
  dumps = λ payload. "{}";
  sha256_hex = λ text. "ab";
  hmac_hex = λ secret message. if secret == "s3cret" then "cd" else "ef";
}

abbrev key : ProducerKey
key = record { key_id = "k1"; producer_id = "tlc"; trusted_for_high_assurance = true }

abbrev registry : ProducerKeyRegistry
registry = record { keys = key ∷ [] }

abbrev secrets : Dict String
secrets = ("k1", "s3cret") ∷ []

abbrev payload : Fields
payload =
    Fields.field "artifact_hash"
      (Value.str "sha256:1111111111111111111111111111111111111111111111111111111111111111")
      Fields.done

abbrev envelope : SignedEvidenceEnvelope
envelope = record {
  envelope_id = "env";
  producer_id = "tlc";
  key_id = "k1";
  payload_hash = "sha256:ab";
  payload = payload;
  signature = "hmac-sha256:cd";
}

verify_signed_evidence-iff-IsAuthentic_example :
    IsValid (verify_signed_evidence primitives envelope registry secrets true)
    ↔ IsAuthentic primitives envelope registry secrets true
verify_signed_evidence-iff-IsAuthentic_example =
    verify_signed_evidence-iff-IsAuthentic primitives envelope registry secrets true

hex-ascii : (secret message : String) → is_ascii (primitives.hmac_hex secret message) ≡ true
hex-ascii secret message = elim (Bool-cases (secret == "s3cret")) [
  | inl e ↦ rw e refl
  | inr e ↦ rw e refl
]

registry-checked : check_registry registry ≡ some registry
unfolding check_registry dedupe
registry-checked = refl

verify_signed_evidence-sign_evidence_payload_example : IsValid (
    verify_signed_evidence primitives
      (sign_evidence_payload primitives payload "tlc" "k1" "s3cret" "env")
      registry
      secrets
      true)
verify_signed_evidence-sign_evidence_payload_example =
    verify_signed_evidence-sign_evidence_payload primitives payload key "s3cret" "env" registry
      secrets true registry-checked (Memᴰ.head refl) refl (λ t. refl) hex-ascii

-- A directory with one source and no object.
abbrev files : Dict String
files = ("in/proof.json", "proof") ∷ []

abbrev artifact : ArtifactRecord
artifact = record_of memory "in/proof.json" "proof" "proof" "application/json" false true []

abbrev manifest : ArtifactStoreManifest
manifest = record { store_id = "s"; records = artifact ∷ [] }

manifest-checked : check_manifest manifest ≡ some manifest
unfolding check_manifest dedupe
manifest-checked = refl

-- Paths under roots of one length differ where the roots do.
roots_differ :
    (r t x y : String) → count r ≡ count t → (r == t) ≡ false → String.◌++◌ r x ≢ String.◌++◌ t y
roots_differ r t x y c d e = absurd (false≢true (sym d ∙ (eq_iff r t).1 (append_inj e c).0))

-- No object is there yet.
files-IsWellFormed : IsWellFormed memory "store/" files
files-IsWellFormed b c p e = absurd (
    ground (
      arith,
      e,
      eq_iff "in/proof.json" (String.◌++◌ "store/" (object_path memory b p)),
      roots_differ "in/pro" "store/" "of.json" (object_path memory b p) refl refl,
    ))

lookup_artifact-put_artifact_example :
    ((put_artifact memory files "store/" "in/proof.json" "proof" "application/json" false true []).1
      ≡ ok artifact)
    × (lookup_artifact memory
          (put_artifact memory files "store/" "in/proof.json" "proof" "application/json" false true
            []).0
          "store/"
          manifest
          (sha256_bytes memory "proof")
        ≡ record {
          status = LookupStatus.found;
          artifact_hash = sha256_bytes memory "proof";
          path = some (memory.join "store/" artifact.store_path);
          artifact = some artifact;
          reason = none;
        })
lookup_artifact-put_artifact_example =
    lookup_artifact-put_artifact memory memory-IsLawful "store/" "in/proof.json" "proof"
      "application/json" false true [] files "proof" manifest files-IsWellFormed refl
      manifest-checked (Memᴰ.head refl)

-- The store once the source is in it.
abbrev stored : Dict String
stored =
    write_absent memory files (memory.join "store/" (object_path memory "proof" "in/proof.json"))
      "proof"

stored-found :
    is_found memory (lookup_artifact memory stored "store/" manifest (sha256_bytes memory "proof"))
    ≡ true
unfolding lookup_artifact path_for_hash concat
stored-found = refl

-- The first put, into a store that is still empty.
put_artifact-keeps_example :
    IsWellFormed memory "store/"
      (put_artifact memory files "store/" "in/proof.json" "proof" "application/json" false true
        []).0
    × ((m : ArtifactStoreManifest) (h : String)
        → is_found memory (lookup_artifact memory files "store/" m h) ≡ true
        → lookup_artifact memory
            (put_artifact memory files "store/" "in/proof.json" "proof" "application/json" false
              true []).0
            "store/"
            m
            h
          ≡ lookup_artifact memory files "store/" m h)
put_artifact-keeps_example =
    put_artifact-keeps memory memory-IsLawful "store/" "in/proof.json" "proof" "application/json"
      false true [] files files-IsWellFormed

-- A bundle with a signed artifact of a high-assurance level.
abbrev bounded : ArtifactRecord
bounded = record {
  artifact_hash = "sha256:1111111111111111111111111111111111111111111111111111111111111111";
  logical_name = "proof";
  media_type = "application/json";
  store_path = "objects/11/proof.json";
  size_bytes = 5;
  retained = true;
  raw = false;
  normalized = true;
  metadata = ("evidence_level", "BOUNDED_CHECKED") ∷ ("producer_id", "tlc") ∷ [];
}

abbrev bundle : ReplayBundleManifestV2
bundle = record {
  bundle_id = "b";
  source_store_id = "s";
  command = record { command = "make" ∷ [] };
  records = bounded ∷ [];
  signed_envelopes = envelope ∷ [];
}

abbrev shared : Dict String
shared = ("share/objects/11/proof.json", "proof") ∷ []

abbrev valid_report : ReplayVerificationReport
valid_report = record {
  bundle_id = "b";
  is_valid = true;
  verified_artifact_hashes = bounded.artifact_hash ∷ [];
  missing_artifact_hashes = [];
  verified_envelope_ids = "env" ∷ [];
  findings = [];
}

bundle-verified :
    verify_replay_bundle primitives registry secrets memory shared "share/" bundle true
    ≡ ok valid_report
unfolding verify_replay_bundle check_manifest dedupe lookup_artifact concat verify_signed_evidence
    sorted get
bundle-verified = refl

verify_replay_bundle-IsReplayable_example :
    (bundle.command.command ≢ [])
    × (are_unique (λ r. ArtifactRecord.artifact_hash r) bundle.records ≡ true)
    × ((r : ArtifactRecord)
        → Memᴰ r bundle.records
        → IsReplayable primitives registry secrets memory shared "share/"
            (record { store_id = "s"; records = bounded ∷ [] })
            (envelope ∷ [])
            true
            r)
verify_replay_bundle-IsReplayable_example =
    verify_replay_bundle-IsReplayable primitives registry secrets memory shared "share/" bundle true
      valid_report bundle-verified refl
