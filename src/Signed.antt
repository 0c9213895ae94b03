-- ===== src/Signed.antt =====
-- signed_evidence.py with the digests of jsonutil.py: an envelope that binds a payload to a producer
-- and a key, and its verification against the registered keys. `json.dumps`, SHA-256 and HMAC are
-- parameters.
pub mod Laws
use attestation_layer.Prelude.{
  ℕ, String, Bool, true, false, not, ◌&&◌, ◌==◌, Option, none, some, List, [], ◌∷◌, ◌++◌, map, all,
  is_empty, are_unique, by_key, mem, dedupe, length, num_eq, ltb, codes, concat, Dict, lookup,
  if◌then◌else◌,
}
use attestation_layer.Models.Json.{Value, Fields}

pub record ProducerKey : Type 0 where
  pub key_id : String
  pub producer_id : String
  pub trusted_for_high_assurance : Bool

pub record ProducerKeyRegistry : Type 0 where
  pub keys : List ProducerKey

pub record SignedEvidenceEnvelope : Type 0 where
  pub envelope_id : String
  pub producer_id : String
  pub key_id : String
  pub payload_hash : String
  pub payload : Fields
  pub signature : String

pub data SignatureResult : Type 0 where
  valid invalid untrusted_key unknown_key : SignatureResult

pub record SignatureVerificationReport : Type 0 where
  pub envelope_id : String
  pub result : SignatureResult
  pub reasons : List String

-- What the signatures are made with: `json.dumps(value, indent=2, sort_keys=True)`, and the hex
-- digests of SHA-256 and HMAC-SHA256 over UTF-8.
pub record Primitives : Type 0 where
  pub dumps : Fields → String
  pub sha256_hex : String → String
  pub hmac_hex : String → String → String

-- `ProducerKeyRegistry.validate_unique_keys`
unfoldable pub check_registry : ProducerKeyRegistry → Option ProducerKeyRegistry
check_registry registry =
    if not (are_unique (λ k. ProducerKey.key_id k) registry.keys) then none else some registry

abbrev pub is_ascii : String → Bool
is_ascii s = all (λ c. ltb c 128) (codes s)

-- `hmac.compare_digest` of two texts, which raises unless both are ASCII
pub compare_digest : String → String → Option Bool
compare_digest a b = if is_ascii a && is_ascii b then some (a == b) else none

abbrev report : SignedEvidenceEnvelope → SignatureResult → List String → SignatureVerificationReport
report e result reasons = record { envelope_id = e.envelope_id; result = result; reasons = reasons }

-- `reasons.append(...)` under a test
abbrev pub reason_if : Bool → String → List String
reason_if test message = if test then message ∷ [] else []

-- the tests on the hash of the payload, computed anew, and on the expected signature
pub judge_signature : SignedEvidenceEnvelope → String → String → Option SignatureVerificationReport
unfolding compare_digest
judge_signature e payload_hash expected = elim (compare_digest expected e.signature) [
  | none ↦ none
  | some same ↦
      (let reasons =
          reason_if (not (payload_hash == e.payload_hash)) "payload hash does not match envelope"
          ++ reason_if (not same) "signature mismatch" in
        some (report e (if is_empty reasons then valid else invalid) reasons))
]

module _ (P : Primitives) where
  abbrev pub canonical_json : Fields → String
  canonical_json value = concat (P.dumps value ∷ "\n" ∷ [])

  abbrev pub sha256_text : String → String
  sha256_text text = concat ("sha256:" ∷ P.sha256_hex text ∷ [])

  abbrev pub sha256_json : Fields → String
  sha256_json value = sha256_text (canonical_json value)

  -- the message of `_signature`
  abbrev pub message_of : String → String → String → Fields
  message_of payload_hash producer_id key_id =
      Fields.field "payload_hash" (Value.str payload_hash) (
        Fields.field "producer_id" (Value.str producer_id)
          (Fields.field "key_id" (Value.str key_id) Fields.done))

  -- `_signature`
  pub signature_of : String → String → String → String → String
  signature_of payload_hash producer_id key_id secret = concat (
      "hmac-sha256:"
      ∷ P.hmac_hex secret (canonical_json (message_of payload_hash producer_id key_id))
      ∷ [])

  unfoldable pub sign_evidence_payload :
      Fields → String → String → String → String → SignedEvidenceEnvelope
  unfolding signature_of
  sign_evidence_payload payload producer_id key_id secret envelope_id =
      let payload_hash = sha256_json payload in
      record {
        envelope_id = envelope_id;
        producer_id = producer_id;
        key_id = key_id;
        payload_hash = payload_hash;
        payload = payload;
        signature = signature_of payload_hash producer_id key_id secret;
      }

  -- what follows once the secret is known
  abbrev pub check_signature : SignedEvidenceEnvelope → String → Option SignatureVerificationReport
  check_signature e secret =
      let payload_hash = sha256_json e.payload in
      judge_signature e payload_hash (signature_of payload_hash e.producer_id e.key_id secret)

  -- the tests on a registered key
  pub check_key :
      SignedEvidenceEnvelope → ProducerKey → Dict String → Bool → Option SignatureVerificationReport
  unfolding judge_signature
  check_key e key secrets require_trust =
      if require_trust && not key.trusted_for_high_assurance
      then some (report e untrusted_key ("key is not trusted for high-assurance evidence" ∷ []))
      else if not (key.producer_id == e.producer_id)
      then some (report e invalid ("envelope producer does not match key registry" ∷ []))
      else elim (lookup e.key_id secrets) [
        | none ↦ some (report e unknown_key ("verification secret is unavailable" ∷ []))
        | some secret ↦ check_signature e secret
      ]

  -- `none` is the raise of `hmac.compare_digest`
  unfoldable pub verify_signed_evidence :
      SignedEvidenceEnvelope
      → ProducerKeyRegistry
      → Dict String
      → Bool
      → Option SignatureVerificationReport
  unfolding check_key signature_of
  verify_signed_evidence e registry secrets require_trust =
      elim (by_key (λ k. ProducerKey.key_id k) e.key_id registry.keys) [
        | none ↦ some (report e unknown_key ("key is not registered" ∷ []))
        | some key ↦ check_key e key secrets require_trust
      ]
