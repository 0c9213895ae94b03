-- ===== src/Agreement/Comparison.antt =====
-- backend_agreement.py: the comparison of two observations. A reason is kept as what its text prints.
use mathlib.Core.Bool.{decide, decide_iff}
use attestation_layer.Prelude.{
  String, ◌≡◌, ◌↔◌, Bool, true, false, ◌&&◌, ◌||◌, ◌==◌, not, Option, none, some, List, [], ◌∷◌,
  ◌++◌, is_empty, if◌then◌else◌,
}
use attestation_layer.Models.Evidence.{EvidenceLevel, same_level}
use attestation_layer.Models.Result.{BackendStatus}
use attestation_layer.Models.Json.{Items}
use attestation_layer.Agreement.Values.{same_items, same_fields}
use attestation_layer.Agreement.Observation.{BackendAgreementObservation}

pub data BackendAgreementMode : Type 0 where
  bounded verdict : BackendAgreementMode

pub data ComparisonStatus : Type 0 where
  agreed disagreed non_overlap : ComparisonStatus

-- The entries of `reasons`, in the order of the source.
pub data Reason : Type 0 where
  key_undeclared : Reason
  key_differs : String → String → Reason
  status_differs : BackendStatus → BackendStatus → Reason
  level_differs : Option EvidenceLevel → Option EvidenceLevel → Reason
  bounds_differ constructs_differ counterexamples_differ : Reason
  verdict_differs undecided : BackendStatus → BackendStatus → Reason

pub record BackendAgreementComparison : Type 0 where
  pub left_backend : String
  pub right_backend : String
  pub status : ComparisonStatus
  pub overlap_key : Option String
  pub reasons : List Reason
  pub compared_fields : List String

BackendStatus-discrete : Discrete BackendStatus
BackendStatus-discrete = hlevel

-- `a == b` on statuses
unfoldable pub same_status : BackendStatus → BackendStatus → Bool
unfolding BackendStatus-discrete decide
same_status a b = decide (BackendStatus-discrete a b)

pub same_status_iff : (a b : BackendStatus) → (same_status a b ≡ true) ↔ (a ≡ b)
unfolding same_status
same_status_iff a b = decide_iff (BackendStatus-discrete a b)

-- `a == b` on levels that may be missing
unfoldable pub same_levels : Option EvidenceLevel → Option EvidenceLevel → Bool
unfolding same_level
same_levels none none = true
same_levels none (some l) = false
same_levels (some k) none = false
same_levels (some k) (some l) = same_level k l

-- `status in _DECIDED_VERDICTS`
unfoldable pub is_decided : BackendStatus → Bool
is_decided BackendStatus.valid = true
is_decided BackendStatus.invalid = true
is_decided _ = false

abbrev pub has_items : Items → Bool
has_items Items.nil = false
has_items (Items.item v vs) = true

module _ (left right : BackendAgreementObservation) where
  abbrev outcome :
      ComparisonStatus → Option String → List Reason → List String → BackendAgreementComparison
  outcome status key reasons compared = record {
    left_backend = left.backend;
    right_backend = right.backend;
    status = status;
    overlap_key = key;
    reasons = reasons;
    compared_fields = compared;
  }

  -- `_compare_verdicts`
  unfoldable pub compare_verdicts : BackendAgreementComparison
  unfolding is_decided same_status
  compare_verdicts =
      if is_decided left.status && is_decided right.status
      then if same_status left.status right.status
        then outcome ComparisonStatus.agreed left.overlap_key [] ("status" ∷ [])
        else outcome ComparisonStatus.disagreed left.overlap_key
            (verdict_differs left.status right.status ∷ []) ("status" ∷ [])
      else outcome ComparisonStatus.non_overlap left.overlap_key
          (undecided left.status right.status ∷ []) ("status" ∷ [])

  abbrev compares_counterexamples : Bool
  compares_counterexamples = has_items left.counterexamples || has_items right.counterexamples

  -- the list `reasons` of the bounded comparison
  unfoldable pub bounded_reasons : List Reason
  unfolding same_status same_levels same_items same_fields
  bounded_reasons =
      (if same_status left.status right.status
        then []
        else status_differs left.status right.status ∷ [])
      ++ ((if same_levels left.evidence_level right.evidence_level
            then []
            else level_differs left.evidence_level right.evidence_level ∷ [])
          ++ ((if same_fields left.bounds right.bounds then [] else bounds_differ ∷ [])
              ++ ((if same_items left.unsupported_constructs right.unsupported_constructs
                    then []
                    else constructs_differ ∷ [])
                  ++ (if compares_counterexamples
                        && not (same_items left.counterexamples right.counterexamples)
                      then counterexamples_differ ∷ []
                      else []))))

  unfoldable pub compare_bounded : BackendAgreementComparison
  unfolding bounded_reasons
  compare_bounded =
      outcome
        (if is_empty bounded_reasons then ComparisonStatus.agreed else ComparisonStatus.disagreed)
        left.overlap_key bounded_reasons
        ("status"
          ∷ "evidence_level"
          ∷ "bounds"
          ∷ "unsupported_constructs"
          ∷ (if compares_counterexamples then "counterexamples" ∷ [] else []))

  abbrev pub compare_on : BackendAgreementMode → BackendAgreementComparison
  compare_on BackendAgreementMode.verdict = compare_verdicts
  compare_on BackendAgreementMode.bounded = compare_bounded

  abbrev pub compare_keys :
      BackendAgreementMode → Option String → Option String → BackendAgreementComparison
  compare_keys mode (some k) (some j) =
      if k == j
      then compare_on mode
      else outcome ComparisonStatus.non_overlap none (key_differs k j ∷ []) []
  compare_keys mode _ _ = outcome ComparisonStatus.non_overlap none (key_undeclared ∷ []) []

  -- `_compare_observations`
  unfoldable pub compare_observations : BackendAgreementMode → BackendAgreementComparison
  unfolding compare_verdicts compare_bounded
  compare_observations mode = compare_keys mode left.overlap_key right.overlap_key
