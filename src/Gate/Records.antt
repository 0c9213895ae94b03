-- ===== src/Gate/Records.antt =====
-- gate.py: the policy of the hard gate, its waivers and its findings, and of adoption.py the summary
-- of a package that the gate reads.
use attestation_layer.Prelude.{
  ℕ, String, Bool, not, ◌&&◌, ◌==◌, Option, none, some, List, [], ◌∷◌, any, is_empty, Dict,
  if◌then◌else◌,
}
use attestation_layer.Models.Evidence.{EvidenceLevel, FinalStatus}
use attestation_layer.PinGate.{GateMachinePinRules, is_pinned_member}

-- `COMMON_BLOCKING_FINDINGS`
abbrev pub common_blocking_findings : List String
common_blocking_findings =
    "missing_requirement_reference" ∷ "unknown_requirement_reference" ∷ "package_validity"
    ∷ "stale_evidence" ∷ "status" ∷ "pending_reviews" ∷ []

pub record GatePolicyScope : Type 0 where
  pub adapters : List String
  pub changed_path_patterns : List String
  pub package_roots : List String
  pub requirement_id_patterns : List String

pub record GatePolicyRules : Type 0 where
  pub allowed_statuses : List FinalStatus
  pub block_findings : List String
  pub minimum_evidence : List EvidenceLevel
  pub require_approved_review : Bool
  pub report_only_findings : List String

pub record GatePolicyWaiverRules : Type 0 where
  pub allow_waivers : Bool
  pub max_duration_days : Option ℕ
  pub require_reviewed_hashes : Bool

-- A policy; its mode is a constant.
pub record GatePolicy : Type 0 where
  pub policy_id : String
  pub schema_version : String
  pub scope : GatePolicyScope
  pub rules : GatePolicyRules
  pub waivers : GatePolicyWaiverRules
  pub machine_pin : GateMachinePinRules

-- A waiver, with an aware datetime.
pub record GateWaiver (Time : Type 0) : Type 0 where
  pub waiver_id : String
  pub schema_version : String
  pub requirement_ids : List String
  pub package_paths : List String
  pub reviewer : String
  pub reason : String
  pub expires_at : Time
  pub reviewed_hashes : Dict String
  pub linked_issue : String
  pub may_satisfy_hard_gate : Bool

-- `GatePolicyRules._reject_machine_pinned_status_in_allowed_statuses`
unfoldable pub check_rules : GatePolicyRules → Option GatePolicyRules
check_rules rules = if any is_pinned_member rules.allowed_statuses then none else some rules

-- `GatePolicy.validate_schema_version`, after the guard on the rules
unfoldable pub check_policy : GatePolicy → Option GatePolicy
unfolding check_rules
check_policy p = elim (check_rules p.rules) [
  | none ↦ none
  | some rules ↦ if not (p.schema_version == "0.1") then none else some p
]

-- `GateWaiver.validate_waiver`; the expiry is aware by its type
unfoldable pub check_waiver : {Time : Type 0} → GateWaiver Time → Option (GateWaiver Time)
check_waiver w =
    if not (w.schema_version == "0.1")
    then none
    else if is_empty w.requirement_ids && is_empty w.package_paths
    then none
    else some w

-- The fields of the summary of a package that the gate reads; of each claim, its achieved level.
pub record PackageSummary : Type 0 where
  pub requirement_id : Option String
  pub path : String
  pub adapter : String
  pub validation_status : String
  pub validation_errors : List String
  pub status : Option String
  pub review_decision : Option String
  pub pending_reviews : List String
  pub unsupported_claims : List String
  pub achieved_evidence : List (Option String)
  pub artifacts : Dict String

-- the result of `_finding`
pub record GateFinding : Type 0 where
  pub category : String
  pub requirement_id : Option String
  pub path : String
  pub message : String

pub data GateEnforcement : Type 0 where
  report_only_finding out_of_scope waived blocked : GateEnforcement

-- A finding with its enforcement, from which its severity and its scope follow.
pub record EvaluatedFinding : Type 0 where
  pub finding : GateFinding
  pub enforcement : GateEnforcement
  pub waiver_id : Option String

pub data DecisionKind : Type 0 where
  applied not_allowed lapsed duration_exceeds_policy stale : DecisionKind

pub record WaiverDecision : Type 0 where
  pub waiver_id : String
  pub requirement_id : Option String
  pub path : String
  pub category : String
  pub decision : DecisionKind
  pub reason : String

-- The report without the package index, whose summary it repeats.
pub record HardGateReport : Type 0 where
  pub passed : Bool
  pub policy_id : String
  pub changed_paths : List String
  pub references : List String
  pub hard_blocking_findings : ℕ
  pub waived_findings : ℕ
  pub report_only_findings : ℕ
  pub out_of_scope_findings : ℕ
  pub findings : List EvaluatedFinding
  pub waiver_decisions : List WaiverDecision
  pub referenced_packages : List PackageSummary
