-- ===== src/Store/Bundle/Laws.antt =====
-- What a valid verification of a bundle vouches for.
use mathlib.Core.List.Memᴰ
use mathlib.Core.Logic.{⊎_elim}
use mathlib.Core.Path.{Path}
use mathlib.Core.Bool.{true≢false}
use attestation_layer.Prelude.{
  String, ◌≡◌, ◌≢◌, ◌⊎◌, refl, sym, ap, subst, ◌∙◌, inl, inr, Bool, true, false, ◌==◌, eq_iff, none,
  some, List, [], ◌∷◌, ◌++◌, Memᴰ, any, any-append-false, Result-cases, lookup-insert, Dict, lookup,
  Result, ok, arith, Bool-cases, Option-cases, are_unique,
}
use attestation_layer.Models.Json.{Value, get}
use attestation_layer.Signed.{
  ProducerKeyRegistry, SignedEvidenceEnvelope, Primitives, verify_signed_evidence,
}
use attestation_layer.Signed.Laws.{IsAuthentic, verify_signed_evidence-iff-IsAuthentic}
use attestation_layer.Store.{
  FileSystem, ArtifactRecord, ArtifactStoreManifest, ReplayBundleManifestV2,
  ReplayVerificationFinding, ReplayVerificationReport, check_manifest, lookup_artifact, is_found,
}
use attestation_layer.Store.Bundle.{
  requires_high_assurance_signature, index_envelope, index_envelopes, envelopes_by_artifact,
  Verdict, BundleError, judge_envelope, judge_producer, judge_record, judge_records,
  command_findings, verify_replay_bundle,
}

abbrev blocks : ReplayVerificationFinding → Bool
blocks f = f.blocking

check_unique :
    (m : ArtifactStoreManifest)
    → are_unique (λ r. ArtifactRecord.artifact_hash r) m.records ≡ true
    → check_manifest m ≡ some m
unfolding check_manifest
check_unique m u = rw (check_manifest, u) refl

refused_unless_unique :
    (m : ArtifactStoreManifest)
    → are_unique (λ r. ArtifactRecord.artifact_hash r) m.records ≡ false
    → check_manifest m ≡ none
unfolding check_manifest
refused_unless_unique m u = rw (check_manifest, u) refl

-- The envelope names the artifact.
abbrev pub Names : String → SignedEvidenceEnvelope → Type 0
Names h e = get "artifact_hash" e.payload ≡ Value.str h

ok-inj : {a b : Verdict} → Path (Result BundleError Verdict) (ok a) (ok b) → a ≡ b
ok-inj q = cc q

index_envelope_source :
    (value : Value) (x e : SignedEvidenceEnvelope) (indexed : Dict SignedEvidenceEnvelope)
    (h : String)
    → lookup h (index_envelope value x indexed) ≡ some e
    → (lookup h indexed ≡ some e) ⊎ ((e ≡ x) × (value ≡ Value.str h))
index_envelope_source (Value.str g) x e indexed h k = elim (Bool-cases (g == h)) [
  | inl q ↦ inr (ground (arith, k, q, lookup-insert g h x indexed), ap Value.str ((eq_iff g h).0 q))
  | inr q ↦ inl (ground (arith, k, q, lookup-insert g h x indexed))
]
index_envelope_source Value.null x e indexed h k = inl k
index_envelope_source (Value.bool b) x e indexed h k = inl k
index_envelope_source (Value.num n) x e indexed h k = inl k
index_envelope_source (Value.arr vs) x e indexed h k = inl k
index_envelope_source (Value.obj fs) x e indexed h k = inl k

-- An envelope in the index is one of those indexed before, or names its artifact and is listed.
index_envelopes_source :
    (indexed : Dict SignedEvidenceEnvelope) (es : List SignedEvidenceEnvelope) (h : String)
    (e : SignedEvidenceEnvelope)
    → lookup h (index_envelopes indexed es) ≡ some e
    → (lookup h indexed ≡ some e) ⊎ (Memᴰ e es × Names h e)
unfolding index_envelopes
index_envelopes_source indexed [] h e k = inl k
index_envelopes_source indexed (x ∷ xs) h e k =
    ⊎_elim
      (λ (q : lookup h (index_envelope (get "artifact_hash" x.payload) x indexed) ≡ some e).
        ⊎_elim inl
          (λ (p : (e ≡ x) × (get "artifact_hash" x.payload ≡ Value.str h)).
            inr (Memᴰ.head p.0, subst (Names h) (sym p.0) p.1))
          (index_envelope_source (get "artifact_hash" x.payload) x e indexed h q))
      (λ (p : Memᴰ e xs × Names h e). inr (Memᴰ.tail p.0, p.1))
      (index_envelopes_source (index_envelope (get "artifact_hash" x.payload) x indexed) xs h e k)

module _ (P : Primitives) (registry : ProducerKeyRegistry) (secrets : Dict String) where
  -- The producer of an artifact signed for it.
  pub record IsSigned (r : ArtifactRecord) (e : SignedEvidenceEnvelope) : Type 0 where
    pub producer : lookup "producer_id" r.metadata ≡ some e.producer_id
    pub names : Names r.artifact_hash e
    pub authentic : IsAuthentic P e registry secrets true

  judge_envelope-IsAuthentic :
      (h producer_id : String) (e : SignedEvidenceEnvelope) (v : Verdict)
      → judge_envelope P registry secrets h producer_id e ≡ ok v
      → any blocks v.findings ≡ false
      → (e.producer_id ≡ producer_id) × IsAuthentic P e registry secrets true
  unfolding judge_envelope
  judge_envelope-IsAuthentic h producer_id e v q n =
      elim (Option-cases (verify_signed_evidence P e registry secrets true)) [
        | inl z ↦ absurd (ground (arith, q, n, z))
        | inr (rep, z) ↦ (
          (eq_iff e.producer_id producer_id).0 (ground (arith, q, n, z)),
          (verify_signed_evidence-iff-IsAuthentic P e registry secrets true).0
              (rep, z, ground (arith, q, n, z)),
        )
      ]

  judge_producer-IsSigned :
      (envelopes : List SignedEvidenceEnvelope) (r : ArtifactRecord) (v : Verdict)
      → judge_producer P registry secrets (envelopes_by_artifact envelopes) r ≡ ok v
      → any blocks v.findings ≡ false
      → (e : SignedEvidenceEnvelope) × Memᴰ e envelopes × IsSigned r e
  unfolding judge_producer
  judge_producer-IsSigned envelopes r v q n =
      elim (Option-cases (lookup r.artifact_hash (envelopes_by_artifact envelopes))) [
        | inl z ↦ absurd (ground (arith, q, n, z))
        | inr (e, z) ↦ elim (Option-cases (lookup "producer_id" r.metadata)) [
          | inl y ↦ absurd (ground (arith, rw y at q, n, z))
          | inr (id, y) ↦
              (let unset : (id == "") ≡ false = ground (arith, rw y at q, n, z) in
                let (p, a) =
                  judge_envelope-IsAuthentic r.artifact_hash id e v (rw (y, unset, z, y) at q) n in
                let (i, names) =
                  ⊎_elim (λ w. absurd (cc w)) (λ w. w)
                    (index_envelopes_source [] envelopes r.artifact_hash e z) in
                (e, i, record { producer = y ∙ ap some (sym p); names = names; authentic = a }))
        ]
      ]

  module _ (F : FileSystem) (s : F.State) (bundle_root : String) (m : ArtifactStoreManifest)
      (envelopes : List SignedEvidenceEnvelope) (required : Bool) where
    -- The artifact is there with its hash, and signed for where its level asks for that.
    pub record IsReplayable (r : ArtifactRecord) : Type 0 where
      pub there : is_found F (lookup_artifact F s bundle_root m r.artifact_hash) ≡ true
      pub signed :
          (requires_high_assurance_signature r required ≡ true)
          → (e : SignedEvidenceEnvelope) × Memᴰ e envelopes × IsSigned r e

    judge_record-IsReplayable :
        (r : ArtifactRecord) (v : Verdict)
        → judge_record P registry secrets F s bundle_root m
            (envelopes_by_artifact envelopes)
            required
            r
          ≡ ok v
        → any blocks v.findings ≡ false
        → IsReplayable r
    unfolding judge_record
    judge_record-IsReplayable r v q n =
        let there : is_found F (lookup_artifact F s bundle_root m r.artifact_hash) ≡ true =
          ground (arith, q, n) in
        record {
          there = there;
          signed = λ h. judge_producer-IsSigned envelopes r v (rw (there, h) at q) n;
        }

    judge_records-IsReplayable :
        (rs : List ArtifactRecord) (v : Verdict)
        → judge_records P registry secrets F s bundle_root m
            (envelopes_by_artifact envelopes)
            required
            rs
          ≡ ok v
        → any blocks v.findings ≡ false
        → (r : ArtifactRecord) → Memᴰ r rs
        → IsReplayable r
    unfolding judge_records
    judge_records-IsReplayable [] v q n r i = elim i [ ]
    judge_records-IsReplayable (x ∷ xs) v q n r i =
        elim (Result-cases (
          judge_record P registry secrets F s bundle_root m (envelopes_by_artifact envelopes)
            required x)) [
              | inl (e, z) ↦ absurd (ground (arith, rw (judge_records, z) at q))
              | inr (a, z) ↦
                  elim (Result-cases (
                    judge_records P registry secrets F s bundle_root m
                      (envelopes_by_artifact envelopes) required xs)) [
                        | inl (e, y) ↦ absurd (ground (arith, rw (judge_records, z, y) at q))
                        | inr (b, y) ↦
                            (let joined : v.findings ≡ a.findings ++ b.findings =
                                sym
                                  (ap Verdict.findings (ok-inj (rw (judge_records, z, y) at q))) in
                              let (na, nb) =
                                any-append-false blocks a.findings b.findings
                                  (subst (λ fs. any blocks fs ≡ false) joined n) in
                              ⊎_elim (λ (p : r ≡ x). rw p (judge_record-IsReplayable x a z na))
                                (λ (p : Memᴰ r xs). judge_records-IsReplayable xs b y nb r p)
                                (Memᴰ.cases_cons i))
                      ]
            ]

  -- A valid report means that the bundle has a command, its artifacts have distinct hashes, each of
  -- them is there with its hash, and for each that needs it, some envelope of the bundle names its
  -- hash and is signed by its producer with a registered key trusted for high assurance.
  pub verify_replay_bundle-IsReplayable :
      (F : FileSystem) (s : F.State) (bundle_root : String) (bundle : ReplayBundleManifestV2)
      (required : Bool) (report : ReplayVerificationReport)
      → verify_replay_bundle P registry secrets F s bundle_root bundle required ≡ ok report
      → report.is_valid ≡ true
      → (bundle.command.command ≢ [])
        × (are_unique (λ r. ArtifactRecord.artifact_hash r) bundle.records ≡ true)
        × ((r : ArtifactRecord)
            → Memᴰ r bundle.records
            → IsReplayable F s bundle_root
                (record { store_id = bundle.source_store_id; records = bundle.records })
                bundle.signed_envelopes
                required
                r)
  unfolding verify_replay_bundle
  verify_replay_bundle-IsReplayable F s bundle_root bundle required report q v =
      let m : ArtifactStoreManifest = record {
        store_id = bundle.source_store_id;
        records = bundle.records;
      } in
      elim (Bool-cases (are_unique (λ r. ArtifactRecord.artifact_hash r) bundle.records)) [
        | inl u ↦
            (let c : check_manifest m ≡ some m = check_unique m u in
              elim (Result-cases (
                judge_records P registry secrets F s bundle_root m
                  (envelopes_by_artifact bundle.signed_envelopes) required bundle.records)) [
                    | inl (e, z) ↦ absurd (ground (arith, rw (verify_replay_bundle, c, z) at q))
                    | inr (w, z) ↦
                        (let free : any blocks
                                (command_findings P registry secrets F bundle ++ w.findings)
                              ≡ false =
                            ground (arith, rw (verify_replay_bundle, c, z) at q, v) in
                          let (commands, rest) =
                            any-append-false blocks (command_findings P registry secrets F bundle)
                              w.findings free in
                          (
                            λ e. absurd (true≢false (rw e at commands)),
                            u,
                            judge_records-IsReplayable F s bundle_root m bundle.signed_envelopes
                                required bundle.records w z rest,
                          ))
                  ])
        | inr u ↦ absurd (ground (arith, rw (verify_replay_bundle, refused_unless_unique m u) at q))
      ]
