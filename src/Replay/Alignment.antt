-- ===== src/Replay/Alignment.antt =====
-- trace_validation.py: `classify_spec_code_alignment`, which folds the observations of a replay into
-- one classification. The reason holds the counts that the source prints.
use mathlib.Core.Bool.{true≢false, decide, decide_iff}
use attestation_layer.Prelude.{
  ℕ, String, ◌≡◌, ◌≢◌, ◌↔◌, ◌∙◌, refl, sym, ap, Bool, true, false, not, ◌&&◌, List, [], ◌∷◌, Memᴰ,
  arith, map, filter, length, is_empty, Bool-cases, inl, inr, if◌then◌else◌, filter-eq-nil,
  is_empty-eq-nil, mem-filter, mem-map-intro, mem-map-source,
}
use attestation_layer.Models.Json.{Value, Fields}
use attestation_layer.Replay.{
  NormalizedTrace, ExpectationKind, SpecTraceExpectation, SpecTraceContract, Outcome,
  SpecTraceObservation, replay_expectation, pooled, replay_spec_against_traces,
}
use attestation_layer.Replay.Witness.{IsWitnessed, first, nonempty, replay_expectation-IsWitnessed}

Outcome-discrete : Discrete Outcome
Outcome-discrete = hlevel

-- `obs.outcome == o`
unfoldable pub same_outcome : Outcome → Outcome → Bool
unfolding Outcome-discrete decide
same_outcome a b = decide (Outcome-discrete a b)

same_outcome_iff : (a b : Outcome) → (same_outcome a b ≡ true) ↔ (a ≡ b)
unfolding same_outcome
same_outcome_iff a b = decide_iff (Outcome-discrete a b)

pub record SpecCodeDelta : Type 0 where
  pub expectation_id : String
  pub kind : ExpectationKind
  pub target : String
  pub expected : Fields
  pub actual : Fields
  pub reason : String

pub data Classification : Type 0 where
  satisfies violates_with_delta uncovered : Classification

pub data AlignmentEffect : Type 0 where
  allow block review : AlignmentEffect

pub data AlignmentReason : Type 0 where
  contradicts : ℕ → AlignmentReason
  reproduces none_witnessed : AlignmentReason
  partial : ℕ → ℕ → AlignmentReason

pub record SpecCodeAlignmentReport : Type 0 where
  pub spec_id : String
  pub trace_ids : List String
  pub classification : Classification
  pub closure_effect : AlignmentEffect
  pub observations : List SpecTraceObservation
  pub deltas : List SpecCodeDelta
  pub reason : AlignmentReason

abbrev delta_of : SpecTraceObservation → SpecCodeDelta
delta_of o = record {
  expectation_id = o.expectation_id;
  kind = o.kind;
  target = o.target;
  expected = o.expected;
  actual = o.actual;
  reason = o.reason;
}

-- `[obs for obs in replay.observations if obs.outcome == o]`
abbrev with_outcome : Outcome → List SpecTraceObservation → List SpecTraceObservation
with_outcome o os = filter (λ x. same_outcome (SpecTraceObservation.outcome x) o) os

-- the `if` chain, over the three lists
abbrev verdict :
    List SpecTraceObservation
    → List SpecTraceObservation
    → List SpecTraceObservation
    → Classification × AlignmentEffect × AlignmentReason
verdict violated satisfied missed =
    if not (is_empty violated)
    then (violates_with_delta, block, contradicts (length violated))
    else if not (is_empty satisfied) && is_empty missed
    then (satisfies, allow, reproduces)
    else if not (is_empty satisfied)
    then (uncovered, review, partial (length satisfied) (length missed))
    else (uncovered, review, none_witnessed)

unfoldable pub classify_spec_code_alignment :
    (Value → String) → SpecTraceContract → List NormalizedTrace → SpecCodeAlignmentReport
unfolding replay_spec_against_traces same_outcome
classify_spec_code_alignment str_of contract traces =
    let replay = replay_spec_against_traces str_of contract traces in
    let violated = with_outcome Outcome.violated replay.observations in
    let satisfied = with_outcome Outcome.satisfied replay.observations in
    let missed = with_outcome Outcome.no_coverage replay.observations in
    let v = verdict violated satisfied missed in
    record {
      spec_id = contract.spec_id;
      trace_ids = replay.trace_ids;
      classification = v.0;
      closure_effect = v.1;
      observations = replay.observations;
      deltas = map delta_of violated;
      reason = v.2;
    }

verdict-allow_iff :
    (v s m : List SpecTraceObservation)
    → ((verdict v s m).1 ≡ allow)
      ↔ ((is_empty v ≡ true) × (is_empty s ≡ false) × (is_empty m ≡ true))
verdict-allow_iff v s m = ground arith

outcome_left :
    (o : Outcome) → o ≢ Outcome.violated → o ≢ Outcome.no_coverage → o ≡ Outcome.satisfied
outcome_left Outcome.satisfied n k = refl
outcome_left Outcome.violated n k = absurd (n refl)
outcome_left Outcome.no_coverage n k = absurd (k refl)

-- No observation has an outcome.
lacks_iff :
    (o : Outcome) (os : List SpecTraceObservation)
    → (is_empty (with_outcome o os) ≡ true)
      ↔ ((x : SpecTraceObservation) → Memᴰ x os → x.outcome ≢ o)
lacks_iff o os =
    let nil = filter-eq-nil (λ x. same_outcome (SpecTraceObservation.outcome x) o) os in
    (
      λ h x m q.
          true≢false (sym ((same_outcome_iff x.outcome o).1 q) ∙ nil.0 (is_empty-eq-nil _ h) x m),
      λ h. ap is_empty (
          nil.1 (λ x m. elim (Bool-cases (same_outcome x.outcome o)) [
            | inl e ↦ absurd (h x m ((same_outcome_iff x.outcome o).0 e))
            | inr e ↦ e
          ])),
    )

filter-nonempty :
    {A : Type 0} (p : A → Bool) (xs : List A) → is_empty (filter p xs) ≡ false → is_empty xs ≡ false
filter-nonempty p [] h = h
filter-nonempty p (x ∷ xs) h = refl

map-nonempty : {A B : Type 0} (f : A → B) (xs : List A) → xs ≢ [] → is_empty (map f xs) ≡ false
map-nonempty f [] n = absurd (n refl)
map-nonempty f (x ∷ xs) n = refl

-- A list that is not empty, of satisfied observations only.
all_satisfied_iff :
    (os : List SpecTraceObservation)
    → ((is_empty (with_outcome Outcome.violated os) ≡ true)
        × (is_empty (with_outcome Outcome.satisfied os) ≡ false)
        × (is_empty (with_outcome Outcome.no_coverage os) ≡ true))
      ↔ ((is_empty os ≡ false)
          × ((x : SpecTraceObservation) → Memᴰ x os → x.outcome ≡ Outcome.satisfied))
all_satisfied_iff os = (
  λ (v, s, m). (
    filter-nonempty _ os s,
    λ x i. outcome_left x.outcome ((lacks_iff _ os).0 v x i) ((lacks_iff _ os).0 m x i),
  ),
  λ (n, h). (
    (lacks_iff _ os).1 (λ x i q. cc (h x i, q)),
    (let (x, i) = first os n in
        nonempty _ (
          mem-filter (λ o. same_outcome (SpecTraceObservation.outcome o) Outcome.satisfied) os i
            ((same_outcome_iff _ _).1 (h x i)))),
    (lacks_iff _ os).1 (λ x i q. cc (h x i, q)),
  ),
)

-- The alignment closes exactly when the contract has an expectation and the pooled events of the
-- traces witness every one of them.
pub classify_spec_code_alignment-allow_iff :
    (str_of : Value → String) (contract : SpecTraceContract) (traces : List NormalizedTrace)
    → ((classify_spec_code_alignment str_of contract traces).closure_effect ≡ allow) ↔ (
        (contract.expectations ≢ [])
        × ((e : SpecTraceExpectation)
            → Memᴰ e contract.expectations
            → IsWitnessed str_of e (pooled traces)))
unfolding classify_spec_code_alignment replay_spec_against_traces
classify_spec_code_alignment-allow_iff str_of contract traces =
    let run = λ (e : SpecTraceExpectation). replay_expectation str_of e (pooled traces) in
    let os = map run contract.expectations in
    let state =
      verdict-allow_iff (with_outcome Outcome.violated os) (with_outcome Outcome.satisfied os)
        (with_outcome Outcome.no_coverage os) in
    let fold = all_satisfied_iff os in
    (
      λ h.
          let (n, s) = fold.0 (state.0 h) in
          (
            λ q. true≢false (sym (ap (λ es. is_empty (map run es)) q) ∙ n),
            λ e m.
                (replay_expectation-IsWitnessed str_of e (pooled traces)).0
                  (s (run e) (mem-map-intro run contract.expectations m)),
          ),
      λ (n, w). state.1 (
          fold.1 (
            map-nonempty run contract.expectations n,
            λ x m.
                let (e, i, q) = mem-map-source run contract.expectations m in
                ap (λ o. SpecTraceObservation.outcome o) q
                ∙ (replay_expectation-IsWitnessed str_of e (pooled traces)).1 (w e i),
          )),
    )
