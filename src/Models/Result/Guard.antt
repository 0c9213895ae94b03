-- ===== src/Models/Result/Guard.antt =====
-- Which results can be constructed, level by level.
use attestation_layer.Prelude.{
  String, ◌≡◌, ◌↔◌, true, Option, some, arith, ok, Option-cases, inl, inr, refl,
}
use attestation_layer.Models.Evidence.{EvidenceLevel, same_level}
use attestation_layer.Models.Json.{Fields}
use attestation_layer.Models.Backing.{
  has_proof_artifact, has_proof_assistant_identity, has_command, has_recorded_bounds,
  recorded_tool_version, bounded_evidence_backing_complete, has_trace_mapping,
}
use attestation_layer.Models.Result.{BackendStatus, BackendResult, check_backing}

-- A checked proof: the run was valid, and the artifact, the assistant and the command are recorded.
pub record IsProof (s : BackendStatus) (d : Fields) : Type 0 where
  pub checked : s ≡ BackendStatus.valid
  pub artifact : has_proof_artifact d ≡ true
  pub assistant : has_proof_assistant_identity d ≡ true
  pub invoked : has_command d ≡ true

-- A bounded check: its bounds, its command and the version that ran are recorded.
pub record IsBounded (d : Fields) : Type 0 where
  pub bounded : has_recorded_bounds d ≡ true
  pub invoked : has_command d ≡ true
  pub version : String
  pub recorded : recorded_tool_version d ≡ some version

-- What each level asks of the result that claims it.
abbrev pub Backs : Option EvidenceLevel → BackendStatus → Fields → Type 0
Backs (some EvidenceLevel.proven_inductive) s d = IsProof s d
Backs (some EvidenceLevel.bounded_checked) s d = IsBounded d
Backs (some EvidenceLevel.trace_validated) s d = has_trace_mapping d ≡ true
Backs _ s d = Unit

complete-IsBounded : (d : Fields) → (bounded_evidence_backing_complete d ≡ true) ↔ IsBounded d
unfolding bounded_evidence_backing_complete
complete-IsBounded d = elim (Option-cases (recorded_tool_version d)) [
  | inl n ↦ (λ h. absurd (ground arith), λ h. absurd (cc (n, h.recorded)))
  | inr (v, e) ↦ (
    λ h. record { bounded = ground arith; invoked = ground arith; version = v; recorded = e },
    λ h. ground arith,
  )
]

check_level :
    (l : Option EvidenceLevel) (r : BackendResult)
    → r.evidence_level ≡ l
    → (check_backing r ≡ ok r) ↔ Backs l r.status r.details
unfolding check_backing same_level
check_level (some EvidenceLevel.proven_inductive) r e = (λ h. ground arith, λ h. ground arith)
check_level (some EvidenceLevel.bounded_checked) r e = (
  λ h. (complete-IsBounded r.details).0 (ground arith),
  λ h. ground (arith, (complete-IsBounded r.details).1 h),
)
check_level (some EvidenceLevel.trace_validated) r e = (λ h. ground arith, λ h. ground arith)
check_level _ r e = (λ h. tt, λ h. ground arith)

-- A result can be constructed exactly if it records what the level that it claims asks for.
pub check_backing_iff :
    (r : BackendResult) → (check_backing r ≡ ok r) ↔ Backs r.evidence_level r.status r.details
check_backing_iff r = check_level r.evidence_level r refl
