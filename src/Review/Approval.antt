-- ===== src/Review/Approval.antt =====
-- What one approval changes in a workflow.
use mathlib.Core.List.Memᴰ
use mathlib.Core.Bool.{true≢false}
use mathlib.Core.Logic.{⊎_elim}
use attestation_layer.Prelude.{
  String, ◌≡◌, ◌≢◌, ◌↔◌, ◌⊎◌, ◌∙◌, refl, sym, ap, subst, Bool, true, false, not, Option, none, some,
  or_else, lookup, last_value, lookup-dict_of_last, if◌then◌else◌, List, [], ◌∷◌, ◌++◌, Memᴰ, arith,
  map, filter, lookup-dict_of, is_empty, ok, not-true_elim, Bool-cases, inl, inr, mem-filter,
  of_mem-filter,
}
use attestation_layer.Review.{
  ReviewerRole, same_role, same_role_iff, ArtifactReviewRef, ReviewChecklist, Verdict,
  ReviewApprovalRecord, ReviewState, ApprovalWorkflowArtifact, open_review, list_or, hashes_of,
  default_roles, failing_checklist_items, ApproveRequest, record_of, refused_items, approved_with,
  is_negative, delay_of, approve_review, default_checklist, review_status, ℤ, pos,
}
use attestation_layer.Review.Laws.{IsApproved, review_status-approved_iff-IsApproved}

-- An approval is taken where no item stops it and the delay is not negative.
approve_review-taken :
    (w : ApprovalWorkflowArtifact) (q : ApproveRequest) (w' : ApprovalWorkflowArtifact)
    → approve_review w q ≡ ok w'
    → (is_empty (refused_items q) ≡ true) × (approved_with w q ≡ w')
unfolding approve_review
approve_review-taken w q w' h = elim (Bool-cases (is_empty (refused_items q))) [
  | inr e ↦ ground (arith, rw e at h)
  | inl e ↦ elim (Bool-cases (is_negative (delay_of q.self_audit q.self_audit_delay_hours))) [
    | inl f ↦ ground (arith, h, e, f)
    | inr f ↦ (e, ground (arith, h, e, f))
  ]
]

mem-snoc : {A : Type 0} (xs : List A) (x a : A) → Memᴰ a (xs ++ (x ∷ [])) ↔ ((a ≡ x) ⊎ Memᴰ a xs)
mem-snoc [] x a = (λ m. Memᴰ.cases_cons m, λ c. ⊎_elim (λ e. Memᴰ.head e) (λ m. elim m [ ]) c)
mem-snoc (y ∷ ys) x a = (
  λ m.
      ⊎_elim (λ (e : a ≡ y). inr (Memᴰ.head e))
        (λ (k : Memᴰ a (ys ++ (x ∷ []))).
          ⊎_elim inl (λ (i : Memᴰ a ys). inr (Memᴰ.tail i)) ((mem-snoc ys x a).0 k))
        (Memᴰ.cases_cons m),
  λ c.
      ⊎_elim (λ e. Memᴰ.tail ((mem-snoc ys x a).1 (inl e)))
        (λ m.
          ⊎_elim (λ (e : a ≡ y). Memᴰ.head e)
            (λ (i : Memᴰ a ys). Memᴰ.tail ((mem-snoc ys x a).1 (inr i))) (Memᴰ.cases_cons m))
        c,
)

same_role-eq-false : {a b : ReviewerRole} → a ≢ b → same_role a b ≡ false
same_role-eq-false {a} {b} n = elim (Bool-cases (same_role a b)) [
  | inl e ↦ absurd (n ((same_role_iff a b).0 e))
  | inr e ↦ e
]

-- The approvals after an approval.
mem-approved_with :
    (w : ApprovalWorkflowArtifact) (q : ApproveRequest) (a : ReviewApprovalRecord)
    → Memᴰ a (approved_with w q).approvals ↔ (
        (a ≡ record_of (approved_with w q).artifact_refs q)
        ⊎ (Memᴰ a w.approvals × (a.role ≢ q.role)))
mem-approved_with w q a =
    let other : ReviewApprovalRecord → Bool =
      λ b. not (same_role (ReviewApprovalRecord.role b) q.role) in
    let last =
      mem-snoc (filter other w.approvals) (record_of (approved_with w q).artifact_refs q) a in
    (
      λ m.
          ⊎_elim inl
            (λ k.
              let (i, e) = of_mem-filter other w.approvals k in
              inr (i, λ r. true≢false (sym ((same_role_iff _ _).1 r) ∙ not-true_elim e)))
            (last.0 m),
      λ c. last.1 (
          ⊎_elim inl
            (λ (i, n). inr (mem-filter other w.approvals i (ap not (same_role-eq-false n)))) c),
    )

-- The references that are given, or those that stand where none are.
abbrev pub refs_after :
    Option (List ArtifactReviewRef) → List ArtifactReviewRef → List ArtifactReviewRef
refs_after (some (r ∷ rs)) old = r ∷ rs
refs_after _ old = old

-- The record of a request, which pins the hash of each reference; the last of one name counts.
pub record IsRecordOf (refs : List ArtifactReviewRef) (q : ApproveRequest)
    (a : ReviewApprovalRecord) : Type 0 where
  pub role : a.role ≡ q.role
  pub reviewer : a.reviewer ≡ q.reviewer
  pub decision : a.decision ≡ q.decision
  pub checklist : a.checklist ≡ or_else q.checklist default_checklist
  pub time : a.approved_at ≡ q.approved_at
  pub self_audit : a.self_audit ≡ q.self_audit
  pub delay : a.self_audit_delay_hours ≡ (
      if q.self_audit
      then some (or_else q.self_audit_delay_hours (pos 24))
      else q.self_audit_delay_hours)
  pub hashes :
      (name : String)
      → lookup name a.artifact_hashes
        ≡ last_value name (map (λ (r : ArtifactReviewRef). (r.name, r.content_hash)) refs)

delay_of_lem :
    (self_audit : Bool) (delay : Option ℤ)
    → delay_of self_audit delay ≡ (if self_audit then some (or_else delay (pos 24)) else delay)
delay_of_lem true none = refl
delay_of_lem true (some d) = refl
delay_of_lem false d = refl

refs_after-eq-list_or :
    (given : Option (List ArtifactReviewRef)) (old : List ArtifactReviewRef)
    → list_or given old ≡ refs_after given old
refs_after-eq-list_or none old = refl
refs_after-eq-list_or (some []) old = refl
refs_after-eq-list_or (some (r ∷ rs)) old = refl

record_of-IsRecordOf :
    (refs : List ArtifactReviewRef) (q : ApproveRequest) → IsRecordOf refs q (record_of refs q)
record_of-IsRecordOf refs q = record {
  role = refl;
  reviewer = refl;
  decision = refl;
  checklist = refl;
  time = refl;
  self_audit = refl;
  delay = delay_of_lem q.self_audit q.self_audit_delay_hours;
  hashes = λ name. lookup-dict_of_last name _;
}

-- The workflow after an approval: its references, the approvals with one that is added, its status.
pub record IsReplaced (w : ApprovalWorkflowArtifact) (q : ApproveRequest)
    (w' : ApprovalWorkflowArtifact) : Type 0 where
  pub added : ReviewApprovalRecord
  pub of_request : IsRecordOf w'.artifact_refs q added
  pub refs : w'.artifact_refs ≡ refs_after q.current_artifact_refs w.artifact_refs
  pub approvals :
      (a : ReviewApprovalRecord)
      → Memᴰ a w'.approvals ↔ ((a ≡ added) ⊎ (Memᴰ a w.approvals × (a.role ≢ q.role)))
  pub status : w'.status ≡ (review_status w' none none).status
  pub review : w'.review_id ≡ w.review_id
  pub requirement : w'.requirement_id ≡ w.requirement_id

-- An approval that is taken adds the record of its request: its role, reviewer, decision and time,
-- the checklist and delay with their defaults, and the hash of each reference under its name, the
-- last of one name. The other approvals are those that stood before and are of other roles. The
-- references are those given, or the old ones where none are, the status is that of the new
-- workflow, and its ids are the old ones.
pub approve_review-replaces :
    (w : ApprovalWorkflowArtifact) (q : ApproveRequest) (w' : ApprovalWorkflowArtifact)
    → approve_review w q ≡ ok w'
    → IsReplaced w q w'
unfolding review_status
approve_review-replaces w q w' h =
    subst (IsReplaced w q) (approve_review-taken w q w' h).1 (record {
      added = record_of (approved_with w q).artifact_refs q;
      of_request = record_of-IsRecordOf (approved_with w q).artifact_refs q;
      refs = refs_after-eq-list_or q.current_artifact_refs w.artifact_refs;
      approvals = mem-approved_with w q;
      status = refl;
      review = refl;
      requirement = refl;
    })

-- It is taken where no item stops it and the delay is not negative.
approve_review-ok :
    (w : ApprovalWorkflowArtifact) (q : ApproveRequest)
    → refused_items q ≡ []
    → is_negative (delay_of q.self_audit q.self_audit_delay_hours) ≡ false
    → approve_review w q ≡ ok (approved_with w q)
unfolding approve_review
approve_review-ok w q h d = rw (h, d) refl

-- A single approval that approves, for the role that is asked for, with the current hashes.
single-IsApproved :
    (refs : List ArtifactReviewRef) (a : ReviewApprovalRecord)
    → a.artifact_hashes ≡ hashes_of refs
    → a.role ≡ ReviewerRole.requirement_reviewer
    → a.decision ≡ Verdict.approve
    → IsApproved (hashes_of refs) (a ∷ []) default_roles
single-IsApproved refs a hashes role decision =
    let only = λ (b : ReviewApprovalRecord) (m : Memᴰ b (a ∷ [])). Memᴰ.eq_of_singleton m in
    let asked = λ (r : ReviewerRole) (m : Memᴰ r default_roles). Memᴰ.eq_of_singleton m in
    record {
      fresh = λ b m. rw (only b m) (λ name k i.
          lookup-dict_of
            (map (λ r. (ArtifactReviewRef.name r, ArtifactReviewRef.content_hash r)) refs) name k
            (subst (λ d. Memᴰ (name, k) d) hashes i));
      unrejected = λ b m e. cc (only b m, e, decision);
      complete = λ r m. (a, Memᴰ.head refl, role ∙ sym (asked r m), decision);
    }

-- On a review just opened, the requirement reviewer's approval under a checklist without a failed
-- item, and with no delay, is taken and makes the review approved, whatever the references are, two of
-- one name included.
pub approve_review-opened :
    (review requirement reviewer time : String) (refs : List ArtifactReviewRef)
    (c : ReviewChecklist)
    → failing_checklist_items c ≡ []
    → (w' : ApprovalWorkflowArtifact) × (approve_review
          (open_review review requirement refs)
          (record {
            role = ReviewerRole.requirement_reviewer;
            reviewer = reviewer;
            decision = Verdict.approve;
            approved_at = time;
            current_artifact_refs = none;
            checklist = some c;
            self_audit = false;
            self_audit_delay_hours = none;
          })
        ≡ ok w')
      × (w'.status ≡ ReviewState.approved)
unfolding open_review
approve_review-opened review requirement reviewer time refs c h =
    let w = open_review review requirement refs in
    let q : ApproveRequest = record {
      role = ReviewerRole.requirement_reviewer;
      reviewer = reviewer;
      decision = Verdict.approve;
      approved_at = time;
      current_artifact_refs = none;
      checklist = some c;
      self_audit = false;
      self_audit_delay_hours = none;
    } in
    (
      approved_with w q,
      approve_review-ok w q h refl,
      (review_status-approved_iff-IsApproved
            (record {
              review_id = review;
              requirement_id = requirement;
              status = ReviewState.opened;
              artifact_refs = refs;
              approvals = record_of refs q ∷ [];
            })
            none none).1
          (single-IsApproved refs (record_of refs q) refl refl refl),
    )
