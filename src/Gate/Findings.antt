-- ===== src/Gate/Findings.antt =====
-- gate.py: the findings on the referenced packages, before the policy judges them.
use text.Mathlib.Text.{find?}
use attestation_layer.Prelude.{
  String, Bool, false, not, ◌&&◌, ◌==◌, Option, none, some, List, [], ◌∷◌, ◌++◌, map, filter, any,
  mem, is_empty, is_some, Dict, lookup, join, concat, sorted, dedupe, if◌then◌else◌,
}
use attestation_layer.Models.Evidence.{EvidenceLevel}
use attestation_layer.Status.{StatusView, value_of}
use attestation_layer.PinGate.{machine_pin_accepts}
use attestation_layer.Gate.Records.{GatePolicy, PackageSummary, GateFinding}

-- `EvidenceLevel.X.value`
unfoldable pub level_value : EvidenceLevel → String
level_value EvidenceLevel.type_checked = "TYPE_CHECKED"
level_value EvidenceLevel.consistency_checked = "CONSISTENCY_CHECKED"
level_value EvidenceLevel.statically_resolved = "STATICALLY_RESOLVED"
level_value EvidenceLevel.smt_checked = "SMT_CHECKED"
level_value EvidenceLevel.test_validated = "TEST_VALIDATED"
level_value EvidenceLevel.trace_validated = "TRACE_VALIDATED"
level_value EvidenceLevel.bounded_checked = "BOUNDED_CHECKED"
level_value EvidenceLevel.proven_inductive = "PROVEN_INDUCTIVE"
level_value EvidenceLevel.reviewed = "REVIEWED"

-- `_finding`
abbrev pub finding_of : String → Option String → String → String → GateFinding
finding_of category requirement_id path message = record {
  category = category;
  requirement_id = requirement_id;
  path = path;
  message = message;
}

abbrev pub stale_markers : List String
stale_markers =
    "does not match" ∷ "hash" ∷ "stale" ∷ "evidence.json" ∷ "status.json"
    ∷ "verification-tasks.json" ∷ "review.json" ∷ []

-- `_validation_category`
abbrev pub validation_category : String → String
validation_category message =
    if any (λ marker. is_some (find? message marker)) stale_markers
    then "stale_evidence"
    else "package_validity"

-- the levels that some claim achieved
abbrev pub achieved_of : List (Option String) → List String
achieved_of [] = []
achieved_of (none ∷ cs) = achieved_of cs
achieved_of (some level ∷ cs) =
    let rest = achieved_of cs in if level == "" then rest else level ∷ rest

-- `_missing_required_evidence`
unfoldable pub missing_required_evidence : PackageSummary → List EvidenceLevel → List String
unfolding level_value
missing_required_evidence summary required_levels =
    let required = dedupe (map level_value required_levels) in
    sorted (filter (λ l. not (mem l (achieved_of summary.achieved_evidence))) required)

-- `findings.append(...)` under a test
abbrev pub finding_if : Bool → GateFinding → List GateFinding
finding_if test f = if test then f ∷ [] else []

abbrev pub is_approved : Option String → Bool
is_approved none = false
is_approved (some d) = d == "approved"

-- `x or y`, of texts
abbrev text_or : String → String → String
text_or x y = if x == "" then y else x

-- the view of a status, a text
abbrev pub status_view : Option String → Option StatusView
status_view none = none
status_view (some s) = some (StatusView.text s)

module _ (fnmatch : String → String → Bool) (normalize : String → String) where
  -- `machine_pin_accepted`
  abbrev pub is_pin_accepted : PackageSummary → GatePolicy → List String → Bool
  is_pin_accepted p policy changed_paths =
      machine_pin_accepts fnmatch normalize (status_view p.status) changed_paths policy.machine_pin

  -- the message of the finding on the validation
  abbrev pub validation_message : PackageSummary → String
  validation_message p =
      text_or (join "; " p.validation_errors)
        (concat ("package validation status is " ∷ p.validation_status ∷ []))

  -- the finding on the validation
  abbrev pub validation_findings : String → PackageSummary → List GateFinding
  validation_findings id p =
      let message = validation_message p in
      finding_if (not (p.validation_status == "valid"))
        (finding_of (validation_category message) (some id) p.path message)

  -- the finding on the status
  abbrev pub status_findings : String → PackageSummary → GatePolicy → List String → List GateFinding
  status_findings id p policy changed_paths = elim p.status [
    | none ↦ finding_of "status" (some id) p.path "referenced package has no status" ∷ []
    | some s ↦
        finding_if
          (not (mem s (map value_of policy.rules.allowed_statuses))
            && not (is_pin_accepted p policy changed_paths))
          (finding_of "status" (some id) p.path (concat ("referenced package status is " ∷ s ∷ [])))
  ]

  -- the finding on the review
  abbrev pub review_findings : String → PackageSummary → GatePolicy → List String → List GateFinding
  review_findings id p policy changed_paths =
      finding_if
        (policy.rules.require_approved_review
          && not (is_approved p.review_decision)
          && not (is_pin_accepted p policy changed_paths))
        (finding_of "pending_reviews" (some id) p.path
          "referenced package review decision is not approved")

  -- the finding on pending reviews
  abbrev pub pending_findings : String → PackageSummary → List GateFinding
  pending_findings id p = finding_if (not (is_empty p.pending_reviews)) (
      finding_of "pending_reviews" (some id) p.path
        (concat ("pending reviews: " ∷ join ", " p.pending_reviews ∷ [])))

  -- the finding on unsupported claims
  abbrev pub unsupported_findings : String → PackageSummary → List GateFinding
  unsupported_findings id p = finding_if (not (is_empty p.unsupported_claims)) (
      finding_of "unsupported_claims" (some id) p.path
        (concat ("unsupported claims: " ∷ join ", " p.unsupported_claims ∷ [])))

  -- the finding on the required levels
  abbrev pub minimum_findings : String → PackageSummary → GatePolicy → List GateFinding
  minimum_findings id p policy =
      let missing = missing_required_evidence p policy.rules.minimum_evidence in
      finding_if (not (is_empty missing)) (
        finding_of "minimum_evidence" (some id) p.path
          (concat ("missing required evidence levels: " ∷ join ", " missing ∷ [])))

  -- the run of the loop for one referenced requirement
  unfoldable pub findings_on :
      Dict PackageSummary → GatePolicy → List String → String → List GateFinding
  findings_on packages policy changed_paths id = elim (lookup id packages) [
    | none ↦
        finding_of "unknown_requirement_reference" (some id) ""
          "referenced requirement package was not found"
        ∷ []
    | some p ↦
        validation_findings id p
        ++ (status_findings id p policy changed_paths
            ++ (review_findings id p policy changed_paths
                ++ (pending_findings id p
                    ++ (unsupported_findings id p ++ minimum_findings id p policy))))
  ]

  unfoldable pub findings_on_all :
      Dict PackageSummary → GatePolicy → List String → List String → List GateFinding
  unfolding findings_on
  findings_on_all packages policy changed_paths [] = []
  findings_on_all packages policy changed_paths (id ∷ ids) =
      findings_on packages policy changed_paths id
      ++ findings_on_all packages policy changed_paths ids

  -- `_raw_hard_gate_findings`
  unfoldable pub raw_hard_gate_findings :
      List String → Dict PackageSummary → GatePolicy → List String → List GateFinding
  unfolding findings_on_all
  raw_hard_gate_findings [] packages policy changed_paths =
      finding_of "missing_requirement_reference" none ""
        "implementation change does not reference a requirement package"
      ∷ []
  raw_hard_gate_findings (id ∷ ids) packages policy changed_paths =
      findings_on_all packages policy changed_paths (id ∷ ids)
