-- ===== src/Review.antt =====
-- review_workflow.py: the review of a set of artifacts by roles, each approval pinned to the content
-- hashes that were current when it was given. `artifact_ref_from_path` reads a file and is left out.
pub mod Records
pub mod Laws
pub mod Approval
unfoldable pub use Records.*
use mathlib.Core.Bool.{decide, decide_iff}
use attestation_layer.Prelude.{
  ℕ, String, Bool, true, false, not, ◌||◌, Option, none, some, List, [], ◌∷◌, ◌++◌, map, filter,
  any, Dict, lookup, ◌≡◌, ◌↔◌, dict_of, ◌==◌, if◌then◌else◌, is_empty, sorted, sorted_set, Result,
  ok, err, or_else,
}

unfoldable pub open_review : String → String → List ArtifactReviewRef → ApprovalWorkflowArtifact
open_review review requirement refs = record {
  review_id = review;
  requirement_id = requirement;
  status = opened;
  artifact_refs = refs;
  approvals = [];
}

-- `xs or d`, where an empty list counts as absent
abbrev pub list_or {ℓ} : {A : Type ℓ} → Option (List A) → List A → List A
list_or none d = d
list_or (some []) d = d
list_or (some (x ∷ xs)) d = x ∷ xs

-- `{ref.name: ref.content_hash for ref in refs}`
abbrev pub hashes_of : List ArtifactReviewRef → Dict String
hashes_of refs =
    dict_of (map (λ r. (ArtifactReviewRef.name r, ArtifactReviewRef.content_hash r)) refs)

-- `current.get(name) == approved_hash`
abbrev pub is_current : Dict String → String × String → Bool
is_current current (name, approved_hash) = elim (lookup name current) [
  | none ↦ false
  | some h ↦ h == approved_hash
]

-- the generator in `stale = sorted(...)`
pub stale_names : Dict String → List ReviewApprovalRecord → List String
stale_names current [] = []
stale_names current (a ∷ rest) =
    map (λ e. e.0) (filter (λ e. not (is_current current e)) a.artifact_hashes)
    ++ stale_names current rest

abbrev pub is_approval : ReviewApprovalRecord → Bool
is_approval a = same_verdict a.decision approve

abbrev pub is_rejection : ReviewApprovalRecord → Bool
is_rejection a = same_verdict a.decision reject

-- `role in approved_roles`
abbrev pub has_approved : List ReviewApprovalRecord → ReviewerRole → Bool
has_approved approvals role =
    any (λ a. same_role (ReviewApprovalRecord.role a) role) (filter is_approval approvals)

-- the roles of `missing`
abbrev pub missing_of : List ReviewApprovalRecord → List ReviewerRole → List ReviewerRole
missing_of approvals required = filter (λ r. not (has_approved approvals r)) required

abbrev pub default_roles : List ReviewerRole
default_roles = requirement_reviewer ∷ []

-- the `if` chain that sets `status`, over its tests
abbrev pub state_of : Bool → Bool → Bool → Bool → ReviewState
state_of no_stale some_rejected none_missing no_approvals =
    if not no_stale
    then stale
    else (if some_rejected
        then rejected
        else (if not none_missing
            then (if no_approvals then opened else needs_review)
            else approved))

unfoldable pub review_status :
    ApprovalWorkflowArtifact
    → Option (List ArtifactReviewRef)
    → Option (List ReviewerRole)
    → ReviewStatusReport
unfolding stale_names same_role same_verdict dict_of sorted_set
review_status workflow current_refs required_roles =
    let refs = list_or current_refs workflow.artifact_refs in
    let stale_list = stale_names (hashes_of refs) workflow.approvals in
    let missing = missing_of workflow.approvals (list_or required_roles default_roles) in
    record {
      review_id = workflow.review_id;
      status =
          state_of (is_empty stale_list) (any is_rejection workflow.approvals) (is_empty missing)
            (is_empty workflow.approvals);
      stale_artifacts = sorted_set stale_list;
      missing_roles = missing;
    }

-- `[name] if value == "fail" else []`
abbrev failing : String → Mark → List String
failing name fail = name ∷ []
failing name pass = []
failing name not_applicable = []

-- `_failing_checklist_items`
unfoldable pub failing_checklist_items : ReviewChecklist → List String
failing_checklist_items c =
    failing "controlled_form_matches_intent" c.controlled_form_matches_intent
    ++ failing "semantic_diff_reviewed" c.semantic_diff_reviewed
    ++ failing "source_spans_present" c.source_spans_present
    ++ failing "translator_disagreement_resolved" c.translator_disagreement_resolved
    ++ failing "evidence_labels_appropriate" c.evidence_labels_appropriate
    ++ failing "refusal_actions_actionable" c.refusal_actions_actionable

-- The keyword arguments of `approve_review`; the checklist is the default one where none is given.
pub record ApproveRequest : Type 0 where
  pub role : ReviewerRole
  pub reviewer : String
  pub decision : Verdict
  pub approved_at : String
  pub current_artifact_refs : Option (List ArtifactReviewRef)
  pub checklist : Option ReviewChecklist
  pub self_audit : Bool
  pub self_audit_delay_hours : Option ℤ

pub data ApproveError : Type 0 where
  failed_items : List String → ApproveError
  negative_delay : ApproveError

-- a self audit without a delay waits for 24 hours
abbrev pub delay_of : Bool → Option ℤ → Option ℤ
delay_of true none = some (pos 24)
delay_of true (some d) = some d
delay_of false d = d

-- the field constraint `ge=0`
abbrev pub is_negative : Option ℤ → Bool
is_negative (some (negsuc n)) = true
is_negative (some (pos n)) = false
is_negative none = false

abbrev pub checklist_of : ApproveRequest → ReviewChecklist
checklist_of q = or_else (ApproveRequest.checklist q) default_checklist

-- the record that an approval adds
abbrev pub record_of : List ArtifactReviewRef → ApproveRequest → ReviewApprovalRecord
record_of refs q = record {
  role = q.role;
  reviewer = q.reviewer;
  decision = q.decision;
  artifact_hashes = hashes_of refs;
  checklist = checklist_of q;
  approved_at = q.approved_at;
  self_audit = q.self_audit;
  self_audit_delay_hours = delay_of q.self_audit q.self_audit_delay_hours;
}

-- the items that stop an approval: those that fail, if the decision is to approve
abbrev pub refused_items : ApproveRequest → List String
refused_items q = elim (ApproveRequest.decision q) [
  | approve ↦ failing_checklist_items (checklist_of q)
  | ask_review ↦ []
  | reject ↦ []
]

-- the workflow after the approval, with its status worked out again
abbrev pub approved_with : ApprovalWorkflowArtifact → ApproveRequest → ApprovalWorkflowArtifact
approved_with w q =
    let refs = list_or (ApproveRequest.current_artifact_refs q) w.artifact_refs in
    let updated : ApprovalWorkflowArtifact = record {
      review_id = w.review_id;
      requirement_id = w.requirement_id;
      status = w.status;
      artifact_refs = refs;
      approvals =
          filter (λ a. not (same_role (ReviewApprovalRecord.role a) q.role)) w.approvals
          ++ (record_of refs q ∷ []);
    } in
    record {
      review_id = w.review_id;
      requirement_id = w.requirement_id;
      status = (review_status updated none none).status;
      artifact_refs = updated.artifact_refs;
      approvals = updated.approvals;
    }

unfoldable pub approve_review :
    ApprovalWorkflowArtifact → ApproveRequest → Result ApproveError ApprovalWorkflowArtifact
unfolding review_status failing_checklist_items same_role same_verdict
approve_review w q =
    let items = refused_items q in
    if not (is_empty items)
    then err (failed_items items)
    else (if is_negative (delay_of q.self_audit q.self_audit_delay_hours)
        then err negative_delay
        else ok (approved_with w q))
