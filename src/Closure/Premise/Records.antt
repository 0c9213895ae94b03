-- ===== src/Closure/Premise/Records.antt =====
-- proof_closure.py: the premise of a proof object and its blockers.
use attestation_layer.Prelude.{String, Option}
use attestation_layer.Models.Evidence.{EvidenceLevel}
use attestation_layer.Models.Result.{BackendStatus}
use attestation_layer.Closure.Plan.{Role}

pub data PremiseStatus : Type 0 where
  discharged opened blocked : PremiseStatus

pub record ProofPremise : Type 0 where
  pub premise_id : String
  pub node_id : String
  pub node_kind : String
  pub role : Role
  pub required_evidence : EvidenceLevel
  pub routed_backend : String
  pub status : PremiseStatus
  pub achieved_evidence : Option EvidenceLevel
  pub producer_id : Option String
  pub backend_status : Option BackendStatus
  pub reason : Option String

pub data Category : Type 0 where
  missing_context coverage trace_alignment producer_mapping : Category
  backend_result backend_agreement premise : Category

pub record Blocker : Type 0 where
  pub category : Category
  pub message : String
  pub premise_id : Option String
  pub backend : Option String
  pub evidence_level : Option EvidenceLevel

-- `EvidenceLevel.value`
abbrev pub level_text : EvidenceLevel → String
level_text EvidenceLevel.type_checked = "TYPE_CHECKED"
level_text EvidenceLevel.consistency_checked = "CONSISTENCY_CHECKED"
level_text EvidenceLevel.statically_resolved = "STATICALLY_RESOLVED"
level_text EvidenceLevel.smt_checked = "SMT_CHECKED"
level_text EvidenceLevel.test_validated = "TEST_VALIDATED"
level_text EvidenceLevel.trace_validated = "TRACE_VALIDATED"
level_text EvidenceLevel.bounded_checked = "BOUNDED_CHECKED"
level_text EvidenceLevel.proven_inductive = "PROVEN_INDUCTIVE"
level_text EvidenceLevel.reviewed = "REVIEWED"

abbrev pub status_text : BackendStatus → String
status_text BackendStatus.valid = "valid"
status_text BackendStatus.invalid = "invalid"
status_text BackendStatus.counterexample = "counterexample"
status_text BackendStatus.timeout = "timeout"
status_text BackendStatus.unsupported = "unsupported"
status_text BackendStatus.needs_review = "needs_review"
