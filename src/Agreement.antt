-- ===== src/Agreement.antt =====
-- backend_agreement.py: do the results of several backends on one question agree? Observation
-- records what is compared, Values is the equality of JSON values, Comparison compares two results.
pub mod Values
pub mod Observation
pub mod Comparison
pub mod Conflict
pub mod Laws
use attestation_layer.Prelude.{
  String, Bool, true, false, Option, List, [], ◌∷◌, ◌++◌, map, filter, is_empty, not, if◌then◌else◌,
}
use attestation_layer.Models.Result.{BackendResult}
use attestation_layer.Agreement.Observation.{BackendAgreementObservation, observation}
use attestation_layer.Agreement.Comparison.{
  BackendAgreementMode, BackendAgreementComparison, ComparisonStatus, Reason, compare_observations,
}

pub data BackendAgreementPolicy : Type 0 where
  blocking report_only : BackendAgreementPolicy

pub data AgreementStatus : Type 0 where
  agreed disagreed non_overlap needs_review : AgreementStatus

pub data AgreementEffect : Type 0 where
  allow block report_only : AgreementEffect

-- A blocker, whose text names the two backends and joins the reasons.
pub record Blocker : Type 0 where
  pub left_backend : String
  pub right_backend : String
  pub reasons : List Reason

pub record BackendAgreementReport : Type 0 where
  pub policy : BackendAgreementPolicy
  pub status : AgreementStatus
  pub closure_effect : AgreementEffect
  pub observations : List BackendAgreementObservation
  pub comparisons : List BackendAgreementComparison
  pub blockers : List Blocker

-- `_closure_effect`
unfoldable pub closure_effect : BackendAgreementPolicy → Bool → AgreementEffect
closure_effect policy false = AgreementEffect.allow
closure_effect BackendAgreementPolicy.report_only true = AgreementEffect.report_only
closure_effect BackendAgreementPolicy.blocking true = AgreementEffect.block

-- the comparisons with `left`, over `combinations(observations, 2)`
abbrev pub compare_with :
    BackendAgreementMode
    → BackendAgreementObservation
    → List BackendAgreementObservation
    → List BackendAgreementComparison
compare_with mode left [] = []
compare_with mode left (right ∷ rest) =
    compare_observations left right mode ∷ compare_with mode left rest

abbrev pub compare_all :
    BackendAgreementMode → List BackendAgreementObservation → List BackendAgreementComparison
compare_all mode [] = []
compare_all mode (left ∷ rest) = compare_with mode left rest ++ compare_all mode rest

abbrev is_disagreed : ComparisonStatus → Bool
is_disagreed ComparisonStatus.disagreed = true
is_disagreed _ = false

abbrev is_non_overlap : ComparisonStatus → Bool
is_non_overlap ComparisonStatus.non_overlap = true
is_non_overlap _ = false

abbrev pub disagrees : BackendAgreementComparison → Bool
disagrees c = is_disagreed c.status

abbrev overlaps : BackendAgreementComparison → Bool
overlaps c = not (is_non_overlap c.status)

abbrev blocker_of : BackendAgreementComparison → Blocker
blocker_of c = record {
  left_backend = c.left_backend;
  right_backend = c.right_backend;
  reasons = c.reasons;
}

unfoldable pub status_of : List BackendAgreementComparison → AgreementStatus
status_of comparisons =
    if not (is_empty (filter disagrees comparisons))
    then AgreementStatus.disagreed
    else if not (is_empty (filter overlaps comparisons))
    then AgreementStatus.agreed
    else AgreementStatus.non_overlap

-- the report when there are at least two observations
abbrev pub report_of :
    BackendAgreementPolicy
    → List BackendAgreementObservation
    → List BackendAgreementComparison
    → BackendAgreementReport
report_of policy observations comparisons = record {
  policy = policy;
  status = status_of comparisons;
  closure_effect = closure_effect policy (not (is_empty (filter disagrees comparisons)));
  observations = observations;
  comparisons = comparisons;
  blockers = map blocker_of (filter disagrees comparisons);
}

abbrev pub report_on :
    BackendAgreementPolicy
    → BackendAgreementMode
    → List BackendAgreementObservation
    → BackendAgreementReport
report_on policy mode (a ∷ b ∷ rest) =
    report_of policy (a ∷ b ∷ rest) (compare_all mode (a ∷ b ∷ rest))
report_on policy mode observations = record {
  policy = policy;
  status = AgreementStatus.needs_review;
  closure_effect = closure_effect policy false;
  observations = observations;
  comparisons = [];
  blockers = [];
}

-- `build_backend_agreement_report`, from the digest of a result
unfoldable pub build_backend_agreement_report :
    (BackendResult → String)
    → List BackendResult
    → BackendAgreementPolicy
    → Option String
    → BackendAgreementMode
    → BackendAgreementReport
unfolding observation compare_observations closure_effect status_of
build_backend_agreement_report hash backend_results policy overlap_key mode =
    report_on policy mode (map (observation hash overlap_key) backend_results)
