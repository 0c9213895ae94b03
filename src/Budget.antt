-- ===== src/Budget.antt =====
-- verification_budget.py: the budget of a class of requirements, the assumptions under which it is
-- run, and how the outcome of a backend counts under that budget. Hashing is a parameter.
pub mod Laws
use attestation_layer.Prelude.{
  ℕ, String, Bool, true, false, not, ◌&&◌, ◌||◌, ◌==◌, Option, none, some, List, [], ◌∷◌, map,
  filter, find, is_empty, concat, or_else, Dict, if◌then◌else◌,
}
use attestation_layer.Models.Result.{BackendStatus}

pub record AbstractionAssumption : Type 0 where
  pub assumption_id : String
  pub statement : String
  pub scope : String
  pub reviewed : Bool

pub data AbstractionLevel : Type 0 where
  no_abstraction local compositional abstract : AbstractionLevel

-- The class is one of the four texts that the default policy lists.
pub record RequirementClassBudget : Type 0 where
  pub requirement_class : String
  pub timeout_seconds : ℕ
  pub max_depth : Option ℕ
  pub max_states : Option ℕ
  pub finite_domains : Dict ℕ
  pub abstraction_level : AbstractionLevel

pub record VerificationBudgetReport : Type 0 where
  pub requirement_id : String
  pub requirement_class : String
  pub budget : RequirementClassBudget
  pub assumptions : List AbstractionAssumption
  pub assumptions_hash : Option String
  pub ready : Bool
  pub blockers : List String

pub data OutcomeKind : Type 0 where
  valid counterexample timeout unknown inconclusive : OutcomeKind

pub data OutcomeEffect : Type 0 where
  allow block review : OutcomeEffect

pub record BudgetedVerificationOutcome : Type 0 where
  pub requirement_id : String
  pub outcome : OutcomeKind
  pub budget_hash : String
  pub backend_status : BackendStatus
  pub approving : Bool
  pub closure_effect : OutcomeEffect
  pub reason : Option String

-- `default_verification_budget_policy`
unfoldable pub default_policy : List RequirementClassBudget
default_policy =
    (record {
      requirement_class = "safety";
      timeout_seconds = 120;
      max_depth = some 20;
      max_states = some 10000;
      finite_domains = ("actors", 3) ∷ ("resources", 3) ∷ [];
      abstraction_level = local;
    })
    ∷ (record {
      requirement_class = "liveness";
      timeout_seconds = 180;
      max_depth = some 30;
      max_states = some 20000;
      finite_domains = ("steps", 30) ∷ [];
      abstraction_level = compositional;
    })
    ∷ (record {
      requirement_class = "trace_grounded";
      timeout_seconds = 60;
      max_depth = some 10;
      max_states = none;
      finite_domains = ("traces", 10) ∷ [];
      abstraction_level = local;
    })
    ∷ (record {
      requirement_class = "system_compatibility";
      timeout_seconds = 180;
      max_depth = some 25;
      max_states = some 50000;
      finite_domains = ("modules", 10) ∷ [];
      abstraction_level = compositional;
    })
    ∷ []

-- `_budget_for_class`; `none` where it raises
pub budget_for_class : List RequirementClassBudget → String → Option RequirementClassBudget
budget_for_class budgets class =
    find (λ b. RequirementClassBudget.requirement_class b == class) budgets

-- the comprehension `blockers`
pub blockers_of : List AbstractionAssumption → List String
blockers_of assumptions =
    map
      (λ a.
        concat ("assumption " ∷ AbstractionAssumption.assumption_id a ∷ " requires review" ∷ []))
      (filter (λ a. not (AbstractionAssumption.reviewed a)) assumptions)

module _ (digest : List AbstractionAssumption → String) where
  abbrev report_for :
      String
      → String
      → List AbstractionAssumption
      → RequirementClassBudget
      → VerificationBudgetReport
  report_for requirement class assumptions budget = record {
    requirement_id = requirement;
    requirement_class = class;
    budget = budget;
    assumptions = assumptions;
    assumptions_hash = if is_empty assumptions then none else some (digest assumptions);
    ready = is_empty (blockers_of assumptions);
    blockers = blockers_of assumptions;
  }

  -- `none` where it raises; an absent list of assumptions is an empty one
  unfoldable pub build_verification_budget_report :
      String
      → String
      → Option (List RequirementClassBudget)
      → List AbstractionAssumption
      → Option VerificationBudgetReport
  unfolding budget_for_class blockers_of default_policy
  build_verification_budget_report requirement class policy assumptions =
      elim (budget_for_class (or_else policy default_policy) class) [
        | none ↦ none
        | some budget ↦ some (report_for requirement class assumptions budget)
      ]

-- the branches of `classify_budgeted_outcome`, over the status and `result == "ready"`
pub classify : BackendStatus → Bool → OutcomeKind × Bool × OutcomeEffect × Option String
classify BackendStatus.valid true = (valid, true, allow, none)
classify BackendStatus.counterexample ready =
    (counterexample, false, block, some "backend produced a counterexample")
classify BackendStatus.timeout ready =
    (timeout, false, block, some "verification budget was exhausted")
classify BackendStatus.unsupported ready = (
  inconclusive,
  false,
  review,
  some "verification is inconclusive under current budget or assumptions",
)
classify BackendStatus.needs_review ready = (
  inconclusive,
  false,
  review,
  some "verification is inconclusive under current budget or assumptions",
)
classify BackendStatus.valid false = (
  inconclusive,
  false,
  review,
  some "verification is inconclusive under current budget or assumptions",
)
classify BackendStatus.invalid ready =
    if not ready
    then (
      inconclusive,
      false,
      review,
      some "verification is inconclusive under current budget or assumptions",
    )
    else (unknown, false, block, some "backend status is unknown for budget classification")

unfoldable pub classify_budgeted_outcome :
    (VerificationBudgetReport → String)
    → String
    → VerificationBudgetReport
    → BackendStatus
    → BudgetedVerificationOutcome
unfolding classify
classify_budgeted_outcome digest requirement report status =
    let c = classify status report.ready in
    record {
      requirement_id = requirement;
      outcome = c.0;
      budget_hash = digest report;
      backend_status = status;
      approving = c.1;
      closure_effect = c.2;
      reason = c.3;
    }
