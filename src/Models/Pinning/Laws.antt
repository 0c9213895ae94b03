-- ===== src/Models/Pinning/Laws.antt =====
-- What an accepted pinning is backed by.
use attestation_layer.Prelude.{
  String, ◌≡◌, ◌≢◌, ◌↔◌, Bool, true, false, Option, none, some, List, [], ◌∷◌, map, Memᴰ, Distinct,
  Distinct-of_length, dedupe_two, is_empty, is_empty-eq-nil, length, ltb, ok, arith, mem_iff,
  dedupe, mem-dedupe, mem-filter, filter, Bool-cases, Option-cases, mem, not, inl, inr, sym, refl,
}
use mathlib.Core.Logic.{⊎_elim}
use mathlib.Core.Bool.{false≢true}
use mathlib.Core.List.Memᴰ
use attestation_layer.Models.Formats.{is_content_hash}
use attestation_layer.Models.Pinning.{
  ReviewArtifact, Origin, Decision, EnsembleMember, EnsembleAuditVerdict, EnsembleEvidence, PinKind,
  PinningProvenance, check_ensemble, check_pinning, check_kind, check_event, has_duplicates,
  family_of, id_of, judged, difference,
}

-- An ensemble of members from two families, each with one verdict of its own, which passed.
pub record IsCrossProvider (e : EnsembleEvidence) : Type 0 where
  pub two_families :
      (a : EnsembleMember) × (b : EnsembleMember) × Memᴰ a e.members
      × Memᴰ b e.members
      × (a.provider_family ≢ b.provider_family)
  pub distinct_members : Distinct (map id_of e.members)
  pub distinct_verdicts : Distinct (map judged e.audit_verdicts)
  pub judged_by :
      (a : EnsembleMember)
      → Memᴰ a e.members
      → (v : EnsembleAuditVerdict) × Memᴰ v e.audit_verdicts
        × (v.member_id ≡ a.member_id)
        × (v.passed ≡ true)
  pub verdict_of :
      (v : EnsembleAuditVerdict)
      → Memᴰ v e.audit_verdicts
      → (a : EnsembleMember) × Memᴰ a e.members × (v.member_id ≡ a.member_id)
  pub hashed : is_content_hash e.policy_hash ≡ true

no_duplicates : (xs : List String) → has_duplicates xs ≡ false → Distinct xs
no_duplicates xs h = Distinct-of_length xs (ground arith)

covered :
    (xs ys : List String) {x : String} → is_empty (difference xs ys) ≡ true → Memᴰ x xs → Memᴰ x ys
covered xs ys {x} h m = elim (Bool-cases (mem x ys)) [
  | inl e ↦ (mem_iff x ys).0 e
  | inr e ↦ absurd (
      Memᴰ.not-nil (
        rw (is_empty-eq-nil (difference xs ys) h) at
          (mem-filter (λ z. not (mem z ys)) (dedupe xs) ((mem-dedupe x xs).1 m) (rw e))))
]

check_ensemble_facts :
    (e : EnsembleEvidence)
    → check_ensemble e ≡ ok e
    → (ltb (length (dedupe (map family_of e.members))) 2 ≡ false)
      × (has_duplicates (map id_of e.members) ≡ false)
      × (has_duplicates (map judged e.audit_verdicts) ≡ false)
      × (is_empty (difference (map id_of e.members) (map judged e.audit_verdicts)) ≡ true)
      × (is_empty (difference (map judged e.audit_verdicts) (map id_of e.members)) ≡ true)
      × (is_empty (map judged (filter (λ v. not (EnsembleAuditVerdict.passed v)) e.audit_verdicts))
          ≡ true)
      × (is_content_hash e.policy_hash ≡ true)
unfolding check_ensemble
check_ensemble_facts e h = ground arith

abbrev is_passed : EnsembleAuditVerdict → Bool
is_passed v = v.passed

none_failed :
    (vs : List EnsembleAuditVerdict) {v : EnsembleAuditVerdict}
    → is_empty (map judged (filter (λ w. not (EnsembleAuditVerdict.passed w)) vs)) ≡ true
    → Memᴰ v vs
    → v.passed ≡ true
none_failed [] h m = elim m [ ]
none_failed (w ∷ vs) {v} h m = elim (Bool-cases w.passed) [
  | inr e ↦ absurd (false≢true (rw e at h))
  | inl e ↦
      ⊎_elim (λ (q : v ≡ w). rw q e) (λ (q : Memᴰ v vs). none_failed vs (rw e at h) q)
        (Memᴰ.cases_cons m)
]

-- An ensemble that the guard accepts is cross-provider, and every member's audit passed.
pub check_ensemble-IsCrossProvider :
    (e : EnsembleEvidence) → check_ensemble e ≡ ok e → IsCrossProvider e
check_ensemble-IsCrossProvider e h =
    let f = check_ensemble_facts e h in
    record {
      two_families =
          (let (x, y, mx, my, ne) = dedupe_two (map family_of e.members) (ground (arith, f)) in
            let (a, ma, ea) = Memᴰ.of_map family_of e.members mx in
            let (b, mb, eb) = Memᴰ.of_map family_of e.members my in
            (a, b, ma, mb, λ q. ne (cc (ea, eb, q))));
      distinct_members = no_duplicates (map id_of e.members) f.1;
      distinct_verdicts = no_duplicates (map judged e.audit_verdicts) f.2;
      judged_by = λ a m.
          (let c =
              covered (map id_of e.members) (map judged e.audit_verdicts) f.3 (Memᴰ.map id_of m) in
            let (v, mv, ev) = Memᴰ.of_map judged e.audit_verdicts c in
            (v, mv, ev, none_failed e.audit_verdicts f.5 mv));
      verdict_of = λ v m.
          (let c =
              covered (map judged e.audit_verdicts) (map id_of e.members) f.4 (Memᴰ.map judged m) in
            let (a, ma, ea) = Memᴰ.of_map id_of e.members c in (a, ma, sym ea));
      hashed = f.6;
    }

-- What backs a pinning of each kind.
pub data IsBacked (p : PinningProvenance) : Type 0 where
  by_ensemble :
      (e : EnsembleEvidence)
      → p.kind ≡ PinKind.machine_agreement
      → p.ensemble ≡ some e
      → p.review_event ≡ none
      → IsBacked p
  by_review :
      (r : ReviewArtifact)
      → p.kind ≡ PinKind.human_review
      → p.review_event ≡ some r
      → r.review_origin ≡ Origin.human
      → r.decision ≡ Decision.approved
      → p.ensemble ≡ none
      → IsBacked p

check_event-IsBacked :
    (p : PinningProvenance) (o : Option ReviewArtifact)
    → p.kind ≡ PinKind.human_review
    → p.review_event ≡ o
    → p.ensemble ≡ none
    → check_event p o ≡ ok p
    → IsBacked p
unfolding check_event
check_event-IsBacked p none k o n h = cc
check_event-IsBacked p (some r) k o n h = by_review r k o (ground arith) (ground arith) n

check_kind-IsBacked :
    (k : PinKind) (p : PinningProvenance) → p.kind ≡ k → check_kind k p ≡ ok p → IsBacked p
unfolding check_kind
check_kind-IsBacked PinKind.machine_agreement p k h = elim (Option-cases p.ensemble) [
  | inl e ↦ absurd (ground arith)
  | inr (e, q) ↦ by_ensemble e k q (ground arith)
]
check_kind-IsBacked PinKind.human_review p k h =
    let n : p.ensemble ≡ none = ground arith in
    check_event-IsBacked p p.review_event k refl n (ground arith)

-- The guard accepts a pinning exactly if it is a machine agreement with an ensemble and no review,
-- or a human review with an approved review of human origin and no ensemble.
pub check_pinning-iff-IsBacked : (p : PinningProvenance) → (check_pinning p ≡ ok p) ↔ IsBacked p
unfolding check_pinning check_kind check_event
check_pinning-iff-IsBacked p = (check_kind-IsBacked p.kind p refl, accepted)
  where
    accepted : IsBacked p → check_kind p.kind p ≡ ok p
    accepted (by_ensemble e k s n) = ground arith
    accepted (by_review r k s o d n) = ground arith
