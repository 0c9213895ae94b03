-- ===== src/Closure/Proof/Records.antt =====
-- proof_closure.py: the proof object and the reports that it is made from. A report is read for its
-- result alone, and carries its digest.
use attestation_layer.Prelude.{String, Option, List, Dict}
use attestation_layer.Models.Result.{BackendResult}
use attestation_layer.Models.Semantic.{RequirementIr}
use attestation_layer.Closure.Producers.{ProducerMapping}
use attestation_layer.Closure.Plan.{DispatchPlan}
use attestation_layer.Closure.Premise.{ProofPremise, Blocker}

pub data ReportResult : Type 0 where
  passed blocked : ReportResult

-- A coverage or an alignment report: its `result`, and `sha256_json` of the whole report.
pub record Report : Type 0 where
  pub result : ReportResult
  pub digest : String

pub data ClosureEffect : Type 0 where
  allow block report_only : ClosureEffect

pub record BackendAgreement : Type 0 where
  pub closure_effect : ClosureEffect
  pub blockers : List String
  pub digest : String

pub data ContextResult : Type 0 where
  passed blocked missing : ContextResult

pub data ProofStatus : Type 0 where
  closed opened blocked : ProofStatus

-- `sha256_json` on the other artifacts that the proof object hashes
pub record Digests : Type 0 where
  pub requirement : RequirementIr → String
  pub dispatch : DispatchPlan → String
  pub producers : ProducerMapping → String
  pub results : List BackendResult → String

pub record ProofObject : Type 0 where
  pub proof_id : String
  pub requirement_id : String
  pub requirement_ir_hash : String
  pub status : ProofStatus
  pub dispatch : DispatchPlan
  pub premises : List ProofPremise
  pub backend_results : List BackendResult
  pub backend_agreement : Option BackendAgreement
  pub producer_mapping : ProducerMapping
  pub coverage_result : ContextResult
  pub trace_alignment_result : ContextResult
  pub blockers : List Blocker
  pub input_hashes : Dict String
