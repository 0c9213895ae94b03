-- ===== src/Budget/Laws.antt =====
-- What it takes for an outcome to approve.
use attestation_layer.Prelude.{
  String, ◌≡◌, ◌↔◌, ◌∙◌, sym, ap, Bool, true, not, Option, none, some, List, [], ◌∷◌, Memᴰ, arith,
  is_empty, is_empty-eq-nil, map-filter-eq-nil, Option-cases, inl, inr, or_else, concat,
  not-false_elim,
}
use attestation_layer.Models.Result.{BackendStatus}
use attestation_layer.Budget.{
  AbstractionAssumption, RequirementClassBudget, VerificationBudgetReport, OutcomeEffect,
  default_policy, budget_for_class, blockers_of, build_verification_budget_report, classify,
  classify_budgeted_outcome,
}

ready_iff :
    (assumptions : List AbstractionAssumption)
    → (is_empty (blockers_of assumptions) ≡ true)
      ↔ ((a : AbstractionAssumption) → Memᴰ a assumptions → a.reviewed ≡ true)
unfolding blockers_of
ready_iff assumptions =
    let nil =
      map-filter-eq-nil
        (λ a.
          concat ("assumption " ∷ AbstractionAssumption.assumption_id a ∷ " requires review" ∷ []))
        (λ a. not (AbstractionAssumption.reviewed a)) assumptions in
    (
      λ h a m. not-false_elim (nil.0 (is_empty-eq-nil _ h) a m),
      λ h. ap is_empty (nil.1 (λ a m. ap not (h a m))),
    )

classify-approving_iff :
    (s : BackendStatus) (ready : Bool)
    → ((classify s ready).1 ≡ true) ↔ ((s ≡ BackendStatus.valid) × (ready ≡ true))
unfolding classify
classify-approving_iff s ready = ground arith

classify-allow_iff :
    (s : BackendStatus) (ready : Bool)
    → ((classify s ready).2 ≡ OutcomeEffect.allow) ↔ ((classify s ready).1 ≡ true)
unfolding classify
classify-allow_iff s ready = ground arith

-- A report that was built is ready exactly as its assumptions are.
abbrev is_ready : Option VerificationBudgetReport → Bool → Bool
is_ready none d = d
is_ready (some r) d = r.ready

ready_of :
    (digest : List AbstractionAssumption → String) (requirement class : String)
    (policy : Option (List RequirementClassBudget)) (assumptions : List AbstractionAssumption)
    (report : VerificationBudgetReport)
    → build_verification_budget_report digest requirement class policy assumptions ≡ some report
    → report.ready ≡ is_empty (blockers_of assumptions)
unfolding build_verification_budget_report
ready_of digest requirement class policy assumptions report h =
    elim (Option-cases (budget_for_class (or_else policy default_policy) class)) [
      | inl e ↦ ground (arith, e, h)
      | inr (b, e) ↦
          sym (ap (λ o. is_ready o (is_empty (blockers_of assumptions))) h) ∙ ground (arith, e)
    ]

-- Under a report that was built, an outcome approves exactly when the backend's status is valid and
-- every assumption of the report was reviewed; and the closure is allowed exactly when it approves.
pub classify_budgeted_outcome-approving_iff :
    (digest : List AbstractionAssumption → String) (hash : VerificationBudgetReport → String)
    (requirement class : String) (policy : Option (List RequirementClassBudget))
    (assumptions : List AbstractionAssumption) (report : VerificationBudgetReport)
    (status : BackendStatus)
    → build_verification_budget_report digest requirement class policy assumptions ≡ some report
    → (((classify_budgeted_outcome hash requirement report status).approving ≡ true) ↔ (
        (status ≡ BackendStatus.valid)
        × ((a : AbstractionAssumption) → Memᴰ a assumptions → a.reviewed ≡ true)))
      × (((classify_budgeted_outcome hash requirement report status).closure_effect
            ≡ OutcomeEffect.allow)
          ↔ ((classify_budgeted_outcome hash requirement report status).approving ≡ true))
unfolding build_verification_budget_report classify_budgeted_outcome
classify_budgeted_outcome-approving_iff digest hash requirement class policy assumptions report
      status h =
    let approving = classify-approving_iff status report.ready in
    let ready = ready_iff assumptions in
    let built = ready_of digest requirement class policy assumptions report h in
    (
      (
        λ e. let (v, r) = approving.0 e in (v, ready.0 (sym built ∙ r)),
        λ (v, r). approving.1 (v, built ∙ ready.1 r),
      ),
      classify-allow_iff status report.ready,
    )
