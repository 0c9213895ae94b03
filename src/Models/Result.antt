-- ===== src/Models/Result.antt =====
-- models.py: the result of one backend, and the guard that its construction runs.
pub mod Guard
use attestation_layer.Prelude.{
  String, Bool, true, false, ◌&&◌, not, Option, none, some, is_none, if◌then◌else◌, List, [], ◌∷◌,
  ◌++◌, Result, ok, err,
}
use attestation_layer.Models.Evidence.{EvidenceLevel, same_level}
use attestation_layer.Models.Json.{Fields}
use attestation_layer.Models.Backing.{
  has_proof_artifact, has_proof_assistant_identity, has_command, has_recorded_bounds,
  recorded_tool_version, bounded_evidence_backing_complete, has_trace_mapping,
}

pub data BackendStatus : Type 0 where
  valid invalid counterexample timeout unsupported needs_review : BackendStatus

pub record BackendResult : Type 0 where
  pub backend : String
  pub status : BackendStatus
  pub evidence_level : Option EvidenceLevel
  pub details : Fields

abbrev pub is_valid : BackendStatus → Bool
is_valid BackendStatus.valid = true
is_valid _ = false

-- `result.evidence_level == level`
unfoldable pub claims_level : Option EvidenceLevel → EvidenceLevel → Bool
unfolding same_level
claims_level none l = false
claims_level (some k) l = same_level k l

-- What a bounded result may fail to record.
pub data Missing : Type 0 where
  bounds command tool_version : Missing

-- The raises of `BackendResult._validate_evidence_backing`.
pub data BackingError : Type 0 where
  proof_not_valid no_proof_artifact no_proof_assistant no_proof_command : BackingError
  bounded_unbacked : List Missing → BackingError
  no_trace_mapping : BackingError

-- the list `missing` of the bounded guard
missing_backing : Fields → List Missing
missing_backing d =
    (if has_recorded_bounds d then [] else Missing.bounds ∷ [])
    ++ (if has_command d then [] else Missing.command ∷ [])
    ++ (if is_none (recorded_tool_version d) then Missing.tool_version ∷ [] else [])

trace_guard : BackendResult → Result BackingError BackendResult
trace_guard r =
    if claims_level r.evidence_level EvidenceLevel.trace_validated
      && not (has_trace_mapping r.details)
    then err no_trace_mapping
    else ok r

bounded_guard : BackendResult → Result BackingError BackendResult
unfolding missing_backing trace_guard
bounded_guard r =
    if claims_level r.evidence_level EvidenceLevel.bounded_checked
      && not (bounded_evidence_backing_complete r.details)
    then err (bounded_unbacked (missing_backing r.details))
    else trace_guard r

-- `BackendResult._validate_evidence_backing`
pub check_backing : BackendResult → Result BackingError BackendResult
unfolding bounded_guard claims_level
check_backing r =
    if claims_level r.evidence_level EvidenceLevel.proven_inductive
    then if not (is_valid r.status)
      then err proof_not_valid
      else if not (has_proof_artifact r.details)
      then err no_proof_artifact
      else if not (has_proof_assistant_identity r.details)
      then err no_proof_assistant
      else if not (has_command r.details)
      then err no_proof_command
      else bounded_guard r
    else bounded_guard r
