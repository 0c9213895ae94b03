-- ===== src/Review/Records.antt =====
-- review_workflow.py: the records of a review.
use mathlib.Core.Bool.{decide, decide_iff}
use attestation_layer.Prelude.{ℕ, String, Bool, true, Option, List, Dict, ◌≡◌, ◌↔◌}

pub data ReviewerRole : Type 0 where
  author requirement_reviewer formal_reviewer adapter_evidence_reviewer self_audit_reviewer :
      ReviewerRole

ReviewerRole-discrete : Discrete ReviewerRole
ReviewerRole-discrete = hlevel

-- `a == b` on roles
unfoldable pub same_role : ReviewerRole → ReviewerRole → Bool
unfolding ReviewerRole-discrete decide
same_role a b = decide (ReviewerRole-discrete a b)

pub same_role_iff : (a b : ReviewerRole) → (same_role a b ≡ true) ↔ (a ≡ b)
unfolding same_role
same_role_iff a b = decide_iff (ReviewerRole-discrete a b)

pub record ArtifactReviewRef : Type 0 where
  pub name : String
  pub path : String
  pub content_hash : String

-- "pass", "fail" and "n/a"
pub data Mark : Type 0 where
  pass fail not_applicable : Mark

pub record ReviewChecklist : Type 0 where
  pub controlled_form_matches_intent : Mark
  pub semantic_diff_reviewed : Mark
  pub source_spans_present : Mark
  pub translator_disagreement_resolved : Mark
  pub evidence_labels_appropriate : Mark
  pub refusal_actions_actionable : Mark

-- `ReviewChecklist()`
abbrev pub default_checklist : ReviewChecklist
default_checklist = record {
  controlled_form_matches_intent = pass;
  semantic_diff_reviewed = pass;
  source_spans_present = pass;
  translator_disagreement_resolved = not_applicable;
  evidence_labels_appropriate = pass;
  refusal_actions_actionable = pass;
}

pub data Verdict : Type 0 where
  approve ask_review reject : Verdict

Verdict-discrete : Discrete Verdict
Verdict-discrete = hlevel

-- `a == b` on decisions
unfoldable pub same_verdict : Verdict → Verdict → Bool
unfolding Verdict-discrete decide
same_verdict a b = decide (Verdict-discrete a b)

pub same_verdict_iff : (a b : Verdict) → (same_verdict a b ≡ true) ↔ (a ≡ b)
unfolding same_verdict
same_verdict_iff a b = decide_iff (Verdict-discrete a b)

-- Whole numbers: `pos n` is n and `negsuc n` is -(n + 1).
pub data ℤ : Type 0 where
  pos negsuc : ℕ → ℤ

pub record ReviewApprovalRecord : Type 0 where
  pub role : ReviewerRole
  pub reviewer : String
  pub decision : Verdict
  pub artifact_hashes : Dict String
  pub checklist : ReviewChecklist
  pub approved_at : String
  pub self_audit : Bool
  pub self_audit_delay_hours : Option ℤ

pub data ReviewState : Type 0 where
  opened approved needs_review rejected stale : ReviewState

pub record ApprovalWorkflowArtifact : Type 0 where
  pub review_id : String
  pub requirement_id : String
  pub status : ReviewState
  pub artifact_refs : List ArtifactReviewRef
  pub approvals : List ReviewApprovalRecord

pub record ReviewStatusReport : Type 0 where
  pub review_id : String
  pub status : ReviewState
  pub stale_artifacts : List String
  pub missing_roles : List ReviewerRole
