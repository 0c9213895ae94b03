-- ===== src/Review/Laws.antt =====
-- What each status of a review says, and what an approval changes.
use mathlib.Core.List.Memᴰ
use mathlib.Core.Bool.{true≢false}
use mathlib.Core.Logic.{⊎_elim}
use attestation_layer.Prelude.{
  String, ◌≡◌, ◌≢◌, ◌↔◌, ◌∙◌, refl, sym, ap, Bool, true, false, not, Option, some, List, [], ◌∷◌,
  Memᴰ, arith, filter, any, Dict, lookup, eq_iff, is_empty, not-false_elim, Bool-cases,
  Option-cases, inl, inr, map-filter-eq-nil, filter-eq-nil, append-eq-nil, is_empty-eq-nil,
  any-witness, any-of_mem, any-false_at, any-eq-false, mem-filter, of_mem-filter,
}
use attestation_layer.Review.{
  ReviewerRole, same_role, same_role_iff, same_verdict_iff, ArtifactReviewRef, Verdict,
  ReviewApprovalRecord, ReviewState, ApprovalWorkflowArtifact, list_or, hashes_of, is_current,
  stale_names, is_approval, is_rejection, has_approved, missing_of, default_roles, state_of,
  review_status,
}

-- An approval whose every recorded hash is the one that the artifact of that name has now.
abbrev pub IsFresh : Dict String → ReviewApprovalRecord → Type 0
IsFresh current a =
    (name approved_hash : String)
    → Memᴰ (name, approved_hash) a.artifact_hashes
    → lookup name current ≡ some approved_hash

-- What the status "approved" asks of a workflow: nothing is stale, nobody rejects, and every
-- required role has approved.
pub record IsApproved (current : Dict String) (approvals : List ReviewApprovalRecord)
    (required : List ReviewerRole) : Type 0 where
  pub fresh : (a : ReviewApprovalRecord) → Memᴰ a approvals → IsFresh current a
  pub unrejected : (a : ReviewApprovalRecord) → Memᴰ a approvals → a.decision ≢ Verdict.reject
  pub complete :
      (r : ReviewerRole)
      → Memᴰ r required
      → (a : ReviewApprovalRecord) × Memᴰ a approvals
        × (a.role ≡ r)
        × (a.decision ≡ Verdict.approve)

is_current_iff :
    (current : Dict String) (name h : String)
    → (is_current current (name, h) ≡ true) ↔ (lookup name current ≡ some h)
is_current_iff current name h = elim (Option-cases (lookup name current)) [
  | inl e ↦ ground (arith, e)
  | inr (k, e) ↦ ground (arith, e, eq_iff k h)
]

stale_names-eq-nil :
    (current : Dict String) (approvals : List ReviewApprovalRecord)
    → (stale_names current approvals ≡ [])
      ↔ ((a : ReviewApprovalRecord) → Memᴰ a approvals → IsFresh current a)
unfolding stale_names
stale_names-eq-nil current [] = (λ h a m. elim m [ ], λ h. refl)
stale_names-eq-nil current (b ∷ bs) =
    let ih = stale_names-eq-nil current bs in
    let here = map-filter-eq-nil (λ e. e.0) (λ e. not (is_current current e)) b.artifact_hashes in
    (
      λ h a m.
          let parts = (append-eq-nil _ _).0 h in
          ⊎_elim
            (λ (q : a ≡ b). rw q (λ name k i.
              (is_current_iff current name k).0 (not-false_elim (here.0 parts.0 (name, k) i))))
            (λ (q : Memᴰ a bs). ih.0 parts.1 a q) (Memᴰ.cases_cons m),
      λ h. (append-eq-nil _ _).1 (
        here.1
            (λ e i. ap not ((is_current_iff current e.0 e.1).1 (h b (Memᴰ.head refl) e.0 e.1 i))),
        ih.1 (λ a m. h a (Memᴰ.tail m)),
      ),
    )

has_approved_iff :
    (approvals : List ReviewApprovalRecord) (r : ReviewerRole)
    → (has_approved approvals r ≡ true) ↔ (
        (a : ReviewApprovalRecord) × Memᴰ a approvals
        × (a.role ≡ r)
        × (a.decision ≡ Verdict.approve))
has_approved_iff approvals r = (
  λ h.
      let (a, m, e) =
        any-witness (λ a. same_role (ReviewApprovalRecord.role a) r) (filter is_approval approvals)
          h in
      let p = of_mem-filter is_approval approvals m in
      (a, p.0, (same_role_iff _ _).0 e, (same_verdict_iff _ _).0 p.1),
  λ (a, m, e, d).
      any-of_mem (λ b. same_role (ReviewApprovalRecord.role b) r) (filter is_approval approvals)
        (mem-filter is_approval approvals m ((same_verdict_iff _ _).1 d)) ((same_role_iff _ _).1 e),
)

missing-eq-nil :
    (approvals : List ReviewApprovalRecord) (required : List ReviewerRole)
    → (missing_of approvals required ≡ []) ↔ (
        (r : ReviewerRole)
        → Memᴰ r required
        → (a : ReviewApprovalRecord) × Memᴰ a approvals
          × (a.role ≡ r)
          × (a.decision ≡ Verdict.approve))
missing-eq-nil approvals required =
    let nil = filter-eq-nil (λ r. not (has_approved approvals r)) required in
    (
      λ h r m. (has_approved_iff approvals r).0 (not-false_elim (nil.0 h r m)),
      λ h. nil.1 (λ r m. ap not ((has_approved_iff approvals r).1 (h r m))),
    )

state_of-approved_iff :
    (s r m n : Bool)
    → (state_of s r m n ≡ ReviewState.approved) ↔ ((s ≡ true) × (r ≡ false) × (m ≡ true))
state_of-approved_iff s r m n = ground arith

unrejected-eq-false :
    (a : ReviewApprovalRecord) → a.decision ≢ Verdict.reject → is_rejection a ≡ false
unrejected-eq-false a n = elim (Bool-cases (is_rejection a)) [
  | inl e ↦ absurd (n ((same_verdict_iff _ _).0 e))
  | inr e ↦ e
]

-- The status is "approved" exactly when no approval records a hash other than the current one of
-- its artifact, no approval rejects, and each required role has an approval that approves; the
-- references and the roles are the caller's, or where it gives none the workflow's references and
-- the requirement reviewer.
pub review_status-approved_iff-IsApproved :
    (w : ApprovalWorkflowArtifact) (refs : Option (List ArtifactReviewRef))
    (required : Option (List ReviewerRole))
    → ((review_status w refs required).status ≡ ReviewState.approved)
      ↔ IsApproved
          (hashes_of (list_or refs w.artifact_refs))
          w.approvals
          (list_or required default_roles)
unfolding review_status
review_status-approved_iff-IsApproved w refs required =
    let current = hashes_of (list_or refs w.artifact_refs) in
    let roles = list_or required default_roles in
    let stale_nil = stale_names-eq-nil current w.approvals in
    let missing_nil = missing-eq-nil w.approvals roles in
    let state =
      state_of-approved_iff (is_empty (stale_names current w.approvals))
        (any is_rejection w.approvals) (is_empty (missing_of w.approvals roles))
        (is_empty w.approvals) in
    (
      λ h.
          let (s, r, m) = state.0 h in
          record {
            fresh = stale_nil.0 (is_empty-eq-nil _ s);
            unrejected = λ a i e. true≢false (
                sym ((same_verdict_iff a.decision Verdict.reject).1 e)
                ∙ any-false_at is_rejection w.approvals i r);
            complete = missing_nil.0 (is_empty-eq-nil _ m);
          },
      λ ok. state.1 (
        ap is_empty (stale_nil.1 ok.fresh),
        any-eq-false is_rejection w.approvals (λ a i. unrejected-eq-false a (ok.unrejected a i)),
        ap is_empty (missing_nil.1 ok.complete),
      ),
    )
