-- ===== src/Agreement/Conflict.antt =====
-- When two observations of backend_agreement.py disagree.
use mathlib.Core.Logic.{⊎_elim}
use attestation_layer.Prelude.{
  String, ◌≡◌, ◌≢◌, ◌↔◌, ◌⊎◌, inl, inr, refl, sym, ap, true, false, ◌||◌, Option, none, some, arith,
  is_empty, eq_iff, ◌==◌, Bool-cases,
}
use attestation_layer.Models.Evidence.{EvidenceLevel, same_level_iff}
use attestation_layer.Models.Result.{BackendStatus}
use attestation_layer.Models.Json.{Items}
use attestation_layer.Agreement.Values.{same_items, same_fields}
use attestation_layer.Agreement.Observation.{BackendAgreementObservation}
use attestation_layer.Agreement.Comparison.{
  BackendAgreementMode, same_status_iff, same_levels, is_decided, has_items, compare_observations,
  compare_verdicts, compare_bounded, compare_on, compare_keys, bounded_reasons,
}
use attestation_layer.Agreement.{disagrees}

-- Two observations agree in all that a bounded comparison reads.
record Alike (a b : BackendAgreementObservation) : Type 0 where
  status : a.status ≡ b.status
  level : a.evidence_level ≡ b.evidence_level
  bounds : same_fields a.bounds b.bounds ≡ true
  constructs : same_items a.unsupported_constructs b.unsupported_constructs ≡ true
  counterexamples : same_items a.counterexamples b.counterexamples ≡ true

IsDecided : BackendStatus → Type 0
IsDecided s = (s ≡ BackendStatus.valid) ⊎ (s ≡ BackendStatus.invalid)

abbrev Opposed :
    BackendAgreementMode → BackendAgreementObservation → BackendAgreementObservation → Type 0
Opposed BackendAgreementMode.verdict a b =
    IsDecided a.status × IsDecided b.status × (a.status ≢ b.status)
Opposed BackendAgreementMode.bounded a b = ¬ Alike a b

-- Both declare one overlap key and are opposed under the mode.
pub Conflict :
    BackendAgreementMode → BackendAgreementObservation → BackendAgreementObservation → Type 0
Conflict mode a b =
    (k : String) × (a.overlap_key ≡ some k) × (b.overlap_key ≡ some k) × Opposed mode a b

is_decided_iff : (s : BackendStatus) → (is_decided s ≡ true) ↔ IsDecided s
unfolding is_decided IsDecided
is_decided_iff BackendStatus.valid = (λ h. inl refl, λ h. refl)
is_decided_iff BackendStatus.invalid = (λ h. inr refl, λ h. refl)
is_decided_iff BackendStatus.counterexample = (λ h. cc, λ h. ⊎_elim (λ e. cc) (λ e. cc) h)
is_decided_iff BackendStatus.timeout = (λ h. cc, λ h. ⊎_elim (λ e. cc) (λ e. cc) h)
is_decided_iff BackendStatus.unsupported = (λ h. cc, λ h. ⊎_elim (λ e. cc) (λ e. cc) h)
is_decided_iff BackendStatus.needs_review = (λ h. cc, λ h. ⊎_elim (λ e. cc) (λ e. cc) h)

same_levels_iff : (a b : Option EvidenceLevel) → (same_levels a b ≡ true) ↔ (a ≡ b)
unfolding same_levels
same_levels_iff none none = (λ h. refl, λ h. refl)
same_levels_iff none (some l) = (λ h. cc, λ h. cc)
same_levels_iff (some k) none = (λ h. cc, λ h. cc)
same_levels_iff (some k) (some l) =
    (λ h. ap some ((same_level_iff k l).0 h), λ h. (same_level_iff k l).1 cc)

verdicts_iff :
    (a b : BackendAgreementObservation)
    → (disagrees (compare_verdicts a b) ≡ true)
      ↔ (IsDecided a.status × IsDecided b.status × (a.status ≢ b.status))
unfolding compare_verdicts
verdicts_iff a b = (
  λ h. ground (
    arith,
    h,
    is_decided_iff a.status,
    is_decided_iff b.status,
    same_status_iff a.status b.status,
  ),
  λ h. ground (
    arith,
    h.0,
    h.1,
    h.2,
    is_decided_iff a.status,
    is_decided_iff b.status,
    same_status_iff a.status b.status,
  ),
)

-- Where neither side has a counterexample there is nothing to compare.
no_items : (xs ys : Items) → (has_items xs || has_items ys) ≡ false → same_items xs ys ≡ true
unfolding same_items
no_items Items.nil Items.nil h = refl
no_items Items.nil (Items.item w ws) h = cc
no_items (Items.item v vs) ys h = cc

bounded_reasons_nil :
    (a b : BackendAgreementObservation) → (is_empty (bounded_reasons a b) ≡ true) ↔ Alike a b
unfolding bounded_reasons
bounded_reasons_nil a b = (
  λ h. record {
    status = ground (arith, same_status_iff a.status b.status);
    level = ground (arith, same_levels_iff a.evidence_level b.evidence_level);
    bounds = ground arith;
    constructs = ground arith;
    counterexamples = ground (arith, no_items a.counterexamples b.counterexamples);
  },
  λ h. ground (
    arith,
    h.status,
    h.level,
    h.bounds,
    h.constructs,
    h.counterexamples,
    same_status_iff a.status b.status,
    same_levels_iff a.evidence_level b.evidence_level,
  ),
)

bounded_iff :
    (a b : BackendAgreementObservation) → (disagrees (compare_bounded a b) ≡ true) ↔ ¬ Alike a b
unfolding compare_bounded
bounded_iff a b = elim (Bool-cases (is_empty (bounded_reasons a b))) [
  | inl e ↦ rw e (λ h. cc, λ h. elim (h ((bounded_reasons_nil a b).0 e)) [ ])
  | inr e ↦ rw e (λ h alike. ground (arith, e, (bounded_reasons_nil a b).1 alike), λ h. refl)
]

compare_on_iff :
    (mode : BackendAgreementMode) (a b : BackendAgreementObservation)
    → (disagrees (compare_on a b mode) ≡ true) ↔ Opposed mode a b
compare_on_iff BackendAgreementMode.verdict a b = verdicts_iff a b
compare_on_iff BackendAgreementMode.bounded a b = bounded_iff a b

compare_keys_iff :
    (mode : BackendAgreementMode) (a b : BackendAgreementObservation) (p q : Option String)
    → (disagrees (compare_keys a b mode p q) ≡ true)
      ↔ ((k : String) × (p ≡ some k) × (q ≡ some k) × Opposed mode a b)
compare_keys_iff mode a b none q = (λ h. cc, λ (k, e, f, o). cc)
compare_keys_iff mode a b (some k) none = (λ h. cc, λ (j, e, f, o). cc)
compare_keys_iff mode a b (some k) (some j) = elim (Bool-cases (k == j)) [
  | inl e ↦ rw e (
    λ h. (k, refl, ap some (sym ((eq_iff k j).0 e)), (compare_on_iff mode a b).0 h),
    λ (i, p, q, o). (compare_on_iff mode a b).1 o,
  )
  | inr e ↦ rw e (λ h. cc, λ (i, p, q, o). ground (arith, eq_iff k j, p, q, e))
]

-- Two observations disagree exactly if they are in conflict.
pub compare_observations_iff :
    (mode : BackendAgreementMode) (a b : BackendAgreementObservation)
    → (disagrees (compare_observations a b mode) ≡ true) ↔ Conflict mode a b
unfolding compare_observations Conflict
compare_observations_iff mode a b = compare_keys_iff mode a b a.overlap_key b.overlap_key
