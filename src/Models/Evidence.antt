-- ===== src/Models/Evidence.antt =====
-- models.py: evidence levels, final statuses, and the evidence object a status is decided from.
use mathlib.Core.Bool.{decide, decide_iff}
use attestation_layer.Prelude.{
  ℕ, String, ◌≡◌, ◌↔◌, Bool, true, Option, none, some, List, Dict, ltb, if◌then◌else◌,
}

pub data EvidenceLevel : Type 0 where
  type_checked consistency_checked statically_resolved smt_checked test_validated : EvidenceLevel
  trace_validated bounded_checked proven_inductive reviewed : EvidenceLevel

pub data FinalStatus : Type 0 where
  accepted_with_evidence accepted_for_implementation_with_review : FinalStatus
  machine_pinned_pending_review : FinalStatus
  refused_ambiguous refused_unbound_symbols refused_unsupported_claim : FinalStatus
  refused_failed_check refused_timeout needs_spec_coverage : FinalStatus

EvidenceLevel-discrete : Discrete EvidenceLevel
EvidenceLevel-discrete = hlevel

-- `a == b` on levels
unfoldable pub same_level : EvidenceLevel → EvidenceLevel → Bool
unfolding EvidenceLevel-discrete decide
same_level a b = decide (EvidenceLevel-discrete a b)

pub same_level_iff : (a b : EvidenceLevel) → (same_level a b ≡ true) ↔ (a ≡ b)
unfolding same_level
same_level_iff a b = decide_iff (EvidenceLevel-discrete a b)

pub record SourceSpan : Type 0 where
  pub document : String
  pub start_char : ℕ
  pub end_char : ℕ
  pub text : String

-- `SourceSpan.validate_range`; `none` where the validator raises
pub validate_range : SourceSpan → Option SourceSpan
validate_range s = if ltb s.end_char s.start_char then none else some s

-- A claim as `decide_status` reads it; its backend results stay with the closure.
pub record EvidenceClaim : Type 0 where
  pub id : String
  pub description : String
  pub required_evidence : EvidenceLevel
  pub achieved_evidence : Option EvidenceLevel

pub record EvidenceObject : Type 0 where
  pub requirement_id : String
  pub claims : List EvidenceClaim
  pub ambiguous : Bool
  pub ambiguous_symbols : List String
  pub ambiguous_symbol_spans : Dict SourceSpan
  pub unbound_symbols : List String
  pub unbound_symbol_spans : Dict SourceSpan
  pub unsupported_claims : List String
  pub failed_checks : List String
  pub timeouts : List String
  pub needs_coverage : Bool
  pub pending_reviews : List String

pub record StatusDecision : Type 0 where
  pub status : FinalStatus
  pub reason : String
  pub next_actions : List String
  pub source_span : Option SourceSpan
