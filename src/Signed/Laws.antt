-- ===== src/Signed/Laws.antt =====
-- What a valid signature vouches for, and that a signed payload verifies.
use mathlib.Core.List.Memᴰ
use mathlib.Core.Logic.{⊎_elim}
use attestation_layer.Prelude.{
  ◌∷◌, codes-concat-all, String, ◌≡◌, ◌↔◌, refl, inl, inr, Bool, true, false, not, ◌&&◌, ◌==◌,
  eq_iff, eq_refl, Option, some, Option-cases, [], Memᴰ, arith, are_unique, by_key, by_key-mem, ltb,
  Dict, lookup,
}
use attestation_layer.Models.Json.{Fields}
use attestation_layer.Signed.{
  ProducerKey, ProducerKeyRegistry, check_registry, SignedEvidenceEnvelope,
  SignatureVerificationReport, valid, Primitives, is_ascii, compare_digest, canonical_json,
  message_of, sha256_json, signature_of, sign_evidence_payload, judge_signature, check_key,
  verify_signed_evidence,
}

registry_unique :
    (registry : ProducerKeyRegistry)
    → check_registry registry ≡ some registry
    → are_unique (λ k. ProducerKey.key_id k) registry.keys ≡ true
unfolding check_registry
registry_unique registry c = ground (arith, c)

-- Whether the verification ends in a report, and that report is valid.
abbrev pub IsValid : Option SignatureVerificationReport → Type 0
IsValid o = (r : SignatureVerificationReport) × (o ≡ some r) × (r.result ≡ valid)

compare_digest_same : (s t : String) → is_ascii t ≡ true → s ≡ t → compare_digest s t ≡ some true
unfolding compare_digest
compare_digest_same s t a q = rw q (rw (a, eq_refl t) refl)

judge_signature_iff :
    (e : SignedEvidenceEnvelope) (h expected : String)
    → IsValid (judge_signature e h expected)
      ↔ ((is_ascii e.signature ≡ true) × (h ≡ e.payload_hash) × (expected ≡ e.signature))
unfolding judge_signature compare_digest
judge_signature_iff e h expected = (
  λ v. ground (arith, v.1, v.2, eq_iff h e.payload_hash, eq_iff expected e.signature),
  λ a.
      (rw (judge_signature, compare_digest_same expected e.signature a.0 a.2)
        (rw (a.1, eq_refl e.payload_hash)
          (record { envelope_id = e.envelope_id; result = valid; reasons = [] }, refl, refl))),
)

module _ (P : Primitives) where
  -- The key and the secret by which an envelope is authentic.
  pub record IsAuthentic (e : SignedEvidenceEnvelope) (registry : ProducerKeyRegistry)
      (secrets : Dict String) (require_trust : Bool) : Type 0 where
    pub key : ProducerKey
    pub secret : String
    pub registered : by_key (λ k. ProducerKey.key_id k) e.key_id registry.keys ≡ some key
    pub trusted : (require_trust ≡ true) → key.trusted_for_high_assurance ≡ true
    pub producer : key.producer_id ≡ e.producer_id
    pub known : lookup e.key_id secrets ≡ some secret
    pub ascii : is_ascii e.signature ≡ true
    pub unchanged : sha256_json P e.payload ≡ e.payload_hash
    pub signed :
        signature_of P (sha256_json P e.payload) e.producer_id e.key_id secret ≡ e.signature

  check_key_iff :
      (e : SignedEvidenceEnvelope) (registry : ProducerKeyRegistry) (secrets : Dict String)
      (require_trust : Bool) (key : ProducerKey)
      → by_key (λ k. ProducerKey.key_id k) e.key_id registry.keys ≡ some key
      → IsValid (check_key P e key secrets require_trust)
        ↔ IsAuthentic e registry secrets require_trust
  unfolding check_key
  check_key_iff e registry secrets require_trust key found =
      elim (Option-cases (lookup e.key_id secrets)) [
        | inl n ↦ (λ v. absurd (ground (arith, v.1, v.2, n)), λ a. absurd (cc (n, a.known)))
        | inr (secret, k) ↦ (
          λ v.
              let t : require_trust && not key.trusted_for_high_assurance ≡ false =
                ground (arith, v.1, v.2) in
              let p : (key.producer_id == e.producer_id) ≡ true = ground (arith, v.1, v.2) in
              let a = (judge_signature_iff e _ _).0 (rw (t, p, k) at v) in
              record {
                key = key;
                secret = secret;
                registered = found;
                trusted = λ r. ground (arith, t, r);
                producer = (eq_iff key.producer_id e.producer_id).0 p;
                known = k;
                ascii = a.0;
                unchanged = a.1;
                signed = a.2;
              },
          λ a.
              let same : a.key ≡ key = cc (found, a.registered) in
              let trusted : (require_trust ≡ true) → key.trusted_for_high_assurance ≡ true =
                rw same at a.trusted in
              let t : require_trust && not key.trusted_for_high_assurance ≡ false =
                ground (arith, trusted) in
              let p : (key.producer_id == e.producer_id) ≡ true =
                (eq_iff key.producer_id e.producer_id).1 (rw same at a.producer) in
              let known : a.secret ≡ secret = cc (k, a.known) in
              rw (check_key, t, p, k)
                ((judge_signature_iff e _ _).1 (a.ascii, a.unchanged, rw known at a.signed)),
        )
      ]

  -- A signature is valid exactly if the key of the envelope is registered, trusted where that is
  -- required and of the producer, its secret is at hand, the payload has the recorded hash, and the
  -- signature is the ASCII text that this secret gives for the hash, the producer and the key.
  pub verify_signed_evidence-iff-IsAuthentic :
      (e : SignedEvidenceEnvelope) (registry : ProducerKeyRegistry) (secrets : Dict String)
      (require_trust : Bool)
      → IsValid (verify_signed_evidence P e registry secrets require_trust)
        ↔ IsAuthentic e registry secrets require_trust
  unfolding verify_signed_evidence
  verify_signed_evidence-iff-IsAuthentic e registry secrets require_trust =
      elim (Option-cases (by_key (λ k. ProducerKey.key_id k) e.key_id registry.keys)) [
        | inl n ↦ (λ v. absurd (ground (arith, v.1, v.2, n)), λ a. absurd (cc (n, a.registered)))
        | inr (key, found) ↦
            rw (verify_signed_evidence, found)
              (check_key_iff e registry secrets require_trust key found)
      ]

  signature_of-ascii :
      (payload_hash producer_id key_id secret : String)
      → ((k m : String) → is_ascii (P.hmac_hex k m) ≡ true)
      → is_ascii (signature_of P payload_hash producer_id key_id secret) ≡ true
  unfolding signature_of
  signature_of-ascii payload_hash producer_id key_id secret h =
      let hex =
        P.hmac_hex secret (canonical_json P (message_of P payload_hash producer_id key_id)) in
      codes-concat-all (λ c. ltb c 128) ("hmac-sha256:" ∷ hex ∷ [])
        (λ s m.
          (⊎_elim (λ e. rw e refl) (λ r. let q : s ≡ hex = Memᴰ.eq_of_singleton r in rw q (h _ _))
            (Memᴰ.cases_cons m)))

  -- Whoever signs with the secret of the registered key of that name, as its producer, gets an
  -- envelope that verifies, if the key has the trust that is required and the digest is ASCII.
  pub verify_signed_evidence-sign_evidence_payload :
      (payload : Fields) (key : ProducerKey) (secret envelope_id : String)
      (registry : ProducerKeyRegistry) (secrets : Dict String) (require_trust : Bool)
      → check_registry registry ≡ some registry
      → Memᴰ key registry.keys
      → lookup key.key_id secrets ≡ some secret
      → ((require_trust ≡ true) → key.trusted_for_high_assurance ≡ true)
      → ((k m : String) → is_ascii (P.hmac_hex k m) ≡ true)
      → IsValid (
          verify_signed_evidence P
            (sign_evidence_payload P payload key.producer_id key.key_id secret envelope_id)
            registry
            secrets
            require_trust)
  unfolding sign_evidence_payload
  verify_signed_evidence-sign_evidence_payload payload key secret id registry secrets trust c m l t
        h =
      (verify_signed_evidence-iff-IsAuthentic _ registry secrets trust).1 (record {
        key = key;
        secret = secret;
        registered =
            by_key-mem (λ k. ProducerKey.key_id k) registry.keys key (registry_unique registry c) m;
        trusted = t;
        producer = refl;
        known = l;
        ascii = signature_of-ascii (sha256_json P payload) key.producer_id key.key_id secret h;
        unchanged = refl;
        signed = refl;
      })
