-- ===== src/Status/Laws.antt =====
-- When a requirement is accepted, and that a machine pinning never accepts one.
use attestation_layer.Prelude.{
  String, ◌≡◌, ◌↔◌, Bool, true, false, not, Option, some, List, [], Memᴰ, arith, is_empty,
  is_empty-eq-nil, Bool-cases, Option-cases, inl, inr, refl, ap, map-filter-eq-nil, ◌&&◌,
  if◌then◌else◌,
}
use mathlib.Core.Bool.{false≢true}
use attestation_layer.Models.Evidence.{FinalStatus, EvidenceClaim, EvidenceObject, same_level_iff}
use attestation_layer.Models.Pinning.{PinningProvenance}
use attestation_layer.Status.{
  member, is_human_accepted, is_machine, is_missing, missing_evidence, settle, decide_status,
}

-- No signal that makes the decision a refusal.
pub record IsClean (e : EvidenceObject) : Type 0 where
  pub unambiguous : e.ambiguous ≡ false
  pub no_ambiguous : e.ambiguous_symbols ≡ []
  pub all_bound : e.unbound_symbols ≡ []
  pub all_supported : e.unsupported_claims ≡ []
  pub none_failed : e.failed_checks ≡ []
  pub none_timed_out : e.timeouts ≡ []
  pub covered : e.needs_coverage ≡ false

-- Every claim has reached exactly the level it requires, and no review is pending.
pub record IsSatisfied (e : EvidenceObject) : Type 0 where
  pub achieved :
      (c : EvidenceClaim) → Memᴰ c e.claims → c.achieved_evidence ≡ some c.required_evidence
  pub reviewed : e.pending_reviews ≡ []

missing_test :
    (c : EvidenceClaim) → (is_missing c ≡ false) ↔ (c.achieved_evidence ≡ some c.required_evidence)
unfolding is_missing
missing_test c = elim (Option-cases c.achieved_evidence) [
  | inl n ↦ (λ h. ground arith, λ h. cc)
  | inr (l, e) ↦ (
    λ h. rw e (ap some ((same_level_iff l c.required_evidence).0 (ground arith))),
    λ h.
        rw (h, is_missing) (ground (arith, same_level_iff c.required_evidence c.required_evidence)),
  )
]

satisfied :
    (e : EvidenceObject)
    → (missing_evidence e ≡ [])
      ↔ ((c : EvidenceClaim) → Memᴰ c e.claims → c.achieved_evidence ≡ some c.required_evidence)
unfolding missing_evidence
satisfied e = (
  λ h c m. (missing_test c).0 ((map-filter-eq-nil _ is_missing e.claims).0 h c m),
  λ h. (map-filter-eq-nil _ is_missing e.claims).1 (λ c m. (missing_test c).1 (h c m)),
)

abbrev is_clean : EvidenceObject → Bool
is_clean e =
    not e.ambiguous
    && is_empty e.ambiguous_symbols
    && is_empty e.unbound_symbols
    && is_empty e.unsupported_claims
    && is_empty e.failed_checks
    && is_empty e.timeouts
    && not e.needs_coverage

is_clean_lem : (e : EvidenceObject) → (is_clean e ≡ true) ↔ IsClean e
is_clean_lem e = (λ h. ground arith, λ h. ground arith)

-- A clean object leads to the last branches.
clean_settles :
    (e : EvidenceObject) (p : Option PinningProvenance)
    → is_clean e ≡ true
    → decide_status e p ≡ settle (is_machine p) (missing_evidence e) e.pending_reviews
unfolding decide_status
clean_settles e p c = ground arith

-- The refusals.
abbrev pub is_refused : FinalStatus → Bool
is_refused FinalStatus.accepted_with_evidence = false
is_refused FinalStatus.accepted_for_implementation_with_review = false
is_refused FinalStatus.machine_pinned_pending_review = false
is_refused _ = true

-- Any other object is refused, whoever pinned it.
unclean_refused :
    (e : EvidenceObject) (p q : Option PinningProvenance)
    → is_clean e ≡ false
    → (decide_status e p ≡ decide_status e q) × (is_refused (decide_status e p).status ≡ true)
unfolding decide_status
unclean_refused e p q c = ground arith

-- The two accepted statuses are the ones that count as human acceptance.
abbrev accepts : FinalStatus → Bool
accepts FinalStatus.accepted_with_evidence = true
accepts FinalStatus.accepted_for_implementation_with_review = true
accepts _ = false

accepted_member : (s : FinalStatus) → is_human_accepted (member s) ≡ accepts s
unfolding is_human_accepted
accepted_member FinalStatus.accepted_with_evidence = refl
accepted_member _ = refl

settle_status :
    (m : Bool) (missing reviews : List String)
    → (settle m missing reviews).status ≡ (
        if m
        then FinalStatus.machine_pinned_pending_review
        else if is_empty missing && is_empty reviews
        then FinalStatus.accepted_with_evidence
        else FinalStatus.accepted_for_implementation_with_review)
unfolding settle
settle_status m missing reviews = ground arith

not_refused : (s : FinalStatus) → is_refused s ≡ true → accepts s ≡ false
not_refused FinalStatus.accepted_with_evidence h = cc
not_refused FinalStatus.accepted_for_implementation_with_review h = cc
not_refused FinalStatus.machine_pinned_pending_review h = cc
not_refused _ h = refl

accepted_not_refused :
    {s : FinalStatus} → is_refused s ≡ true → s ≡ FinalStatus.accepted_with_evidence → ⊥
accepted_not_refused {s} h e = false≢true (rw e at h)

accepts-settle :
    (m : Bool) (missing reviews : List String) → accepts (settle m missing reviews).status ≡ not m
accepts-settle m missing reviews = rw settle_status (ground arith)

-- A status counts as human acceptance exactly if no signal refuses the requirement and no machine
-- pinned its meaning.
pub decide_status-accepts_iff :
    (e : EvidenceObject) (p : Option PinningProvenance)
    → (is_human_accepted (member (decide_status e p).status) ≡ true)
      ↔ (IsClean e × (is_machine p ≡ false))
decide_status-accepts_iff e p = elim (Bool-cases (is_clean e)) [
  | inl c ↦
      rw (accepted_member, clean_settles e p c, accepts-settle)
        (λ h. ((is_clean_lem e).0 c, ground arith), λ h. ground arith)
  | inr c ↦
      rw (accepted_member, not_refused _ (unclean_refused e p p c).1)
        (λ h. cc, λ h. absurd (ground (arith, (is_clean_lem e).1 h.0)))
]

nil-is_empty : (xs : List String) → (is_empty xs ≡ true) ↔ (xs ≡ [])
nil-is_empty xs = (is_empty-eq-nil xs, λ h. rw h)

settled_with_evidence :
    (m : Bool) (missing reviews : List String)
    → ((settle m missing reviews).status ≡ FinalStatus.accepted_with_evidence)
      ↔ ((m ≡ false) × (is_empty missing ≡ true) × (is_empty reviews ≡ true))
settled_with_evidence m missing reviews = rw settle_status (λ h. ground arith, λ h. ground arith)

-- The status is ACCEPTED_WITH_EVIDENCE exactly if no signal refuses the requirement, every claim has
-- achieved exactly the level it requires, no review is pending, and no machine pinned the meaning.
pub decide_status-with_evidence_iff :
    (e : EvidenceObject) (p : Option PinningProvenance)
    → ((decide_status e p).status ≡ FinalStatus.accepted_with_evidence)
      ↔ (IsClean e × IsSatisfied e × (is_machine p ≡ false))
decide_status-with_evidence_iff e p = elim (Bool-cases (is_clean e)) [
  | inl c ↦ rw (clean_settles e p c) (
    λ h.
        (let f = (settled_with_evidence _ _ _).0 h in
          (
            (is_clean_lem e).0 c,
            record {
              achieved = (satisfied e).0 ((nil-is_empty _).0 f.1);
              reviewed = (nil-is_empty _).0 f.2;
            },
            f.0,
          )),
    λ h.
        (settled_with_evidence _ _ _).1
          (h.2, (nil-is_empty _).1 ((satisfied e).1 h.1.achieved), (nil-is_empty _).1 h.1.reviewed),
  )
  | inr c ↦ (
    λ h. absurd (accepted_not_refused (unclean_refused e p p c).1 h),
    λ h. absurd (ground (arith, (is_clean_lem e).1 h.0)),
  )
]

-- A requirement that some signal refuses gets a refusal, and the same one under any pinning.
pub decide_status-refused :
    (e : EvidenceObject) (p q : Option PinningProvenance)
    → ¬ IsClean e
    → (is_refused (decide_status e p).status ≡ true) × (decide_status e p ≡ decide_status e q)
decide_status-refused e p q h = elim (Bool-cases (is_clean e)) [
  | inl c ↦ absurd (h ((is_clean_lem e).0 c))
  | inr c ↦ let r = unclean_refused e p q c in (r.1, r.0)
]
