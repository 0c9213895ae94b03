-- ===== src/Closure/Proof/Gate.antt =====
-- When the closure gate passes, and what a passing gate rests on.
use mathlib.Core.List.Memᴰ
use mathlib.Core.List.{cons≢nil}
use mathlib.Core.Logic.{⊎_elim}
use attestation_layer.Prelude.{
  ◌≡◌, ◌≢◌, ◌↔◌, true, false, Option, none, some, List, [], ◌∷◌, Memᴰ, arith, refl, sym, subst,
  append-eq-nil, Bool-cases, inl, inr,
}
use attestation_layer.Models.Result.{BackendResult}
use attestation_layer.Models.Semantic.{RequirementIr}
use attestation_layer.Closure.Producers.{ProducerMapping}
use attestation_layer.Closure.Plan.{Route}
use attestation_layer.Closure.Premise.{
  ProofPremise, PremiseStatus, discharged, evaluate_premise, is_discharged,
}
use attestation_layer.Closure.Premise.Laws.{evaluate_premise-blockers}
use attestation_layer.Closure.Proof.{
  Report, ReportResult, ClosureEffect, BackendAgreement, Evidence, mapping_of, plan_of,
  all_blockers, judge_all, coverage_blockers, alignment_blockers, agreement_blockers,
  premise_blockers, is_done, is_block, is_passed,
}
use attestation_layer.Closure.Proof.Accounts.{IsAccounted, producer_nil}

-- What a passing gate asks of a requirement and its evidence.
pub record Closes (r : RequirementIr) (e : Evidence) : Type 0 where
  pub coverage : Report
  pub covered : e.coverage ≡ some coverage
  pub coverage_passed : coverage.result ≡ ReportResult.passed
  pub alignment : Report
  pub aligned : e.alignment ≡ some alignment
  pub alignment_passed : alignment.result ≡ ReportResult.passed
  pub agreed :
      (a : BackendAgreement) → e.agreement ≡ some a → a.closure_effect ≢ ClosureEffect.block
  pub accounted : (x : BackendResult) → Memᴰ x e.results → IsAccounted (mapping_of e) x
  pub discharges :
      (route : Route)
      → Memᴰ route (plan_of r e).routes
      → (evaluate_premise route e.results (mapping_of e)).0.status ≡ discharged

abbrev HasPassed : Option Report → Type 0
HasPassed o = (x : Report) × (o ≡ some x) × (x.result ≡ ReportResult.passed)

passed_result : (x : ReportResult) → is_passed x ≡ true → x ≡ ReportResult.passed
passed_result ReportResult.passed h = refl
passed_result ReportResult.blocked h = cc

coverage_nil : (o : Option Report) → (coverage_blockers o ≡ []) ↔ HasPassed o
unfolding coverage_blockers
coverage_nil none = (λ h. absurd (cons≢nil h), λ h. absurd (cc (h.1)))
coverage_nil (some x) =
    (λ h. (x, refl, passed_result x.result (ground arith)), λ h. ground (arith, h.1, h.2))

alignment_nil : (o : Option Report) → (alignment_blockers o ≡ []) ↔ HasPassed o
unfolding alignment_blockers
alignment_nil none = (λ h. absurd (cons≢nil h), λ h. absurd (cc (h.1)))
alignment_nil (some x) =
    (λ h. (x, refl, passed_result x.result (ground arith)), λ h. ground (arith, h.1, h.2))

effect_block : (x : ClosureEffect) → (is_block x ≡ false) ↔ (x ≢ ClosureEffect.block)
effect_block ClosureEffect.block = (λ h. cc, λ h. absurd (h refl))
effect_block ClosureEffect.allow = (λ h e. cc, λ h. refl)
effect_block ClosureEffect.report_only = (λ h e. cc, λ h. refl)

agreement_some :
    (a : BackendAgreement)
    → (agreement_blockers (some a) ≡ []) ↔ (is_block a.closure_effect ≡ false)
unfolding agreement_blockers
agreement_some a = (λ h. ground arith, λ h. ground arith)

agreement_nil :
    (o : Option BackendAgreement)
    → (agreement_blockers o ≡ [])
      ↔ ((a : BackendAgreement) → o ≡ some a → a.closure_effect ≢ ClosureEffect.block)
unfolding agreement_blockers
agreement_nil none = (λ h a e. cc, λ h. refl)
agreement_nil (some x) = (
  λ h a e.
      (let q : x ≡ a = ground arith in
        (effect_block a.closure_effect).0 (
          subst (λ y. is_block (BackendAgreement.closure_effect y) ≡ false) q
            ((agreement_some x).0 h))),
  λ h. (agreement_some x).1 ((effect_block x.closure_effect).1 (h x refl)),
)

discharged_status : (s : PremiseStatus) → is_discharged s ≡ true → s ≡ discharged
discharged_status PremiseStatus.discharged h = refl
discharged_status _ h = cc

premise_cons :
    (p : ProofPremise) (ps : List ProofPremise)
    → (premise_blockers (p ∷ ps) ≡ []) ↔ ((p.status ≡ discharged) × (premise_blockers ps ≡ []))
unfolding premise_blockers
premise_cons p ps = elim (Bool-cases (is_done p)) [
  | inl d ↦ rw d (λ h. (discharged_status p.status d, h), λ h. h.1)
  | inr d ↦ rw d (λ h. absurd (cons≢nil h), λ h. absurd (ground arith))
]

no_premises : premise_blockers [] ≡ []
unfolding premise_blockers
no_premises = refl

module _ (results : List BackendResult) (mapping : ProducerMapping) where
  abbrev pub IsDone : Route → Type 0
  IsDone route = (evaluate_premise route results mapping).0.status ≡ discharged

  pub premises_nil :
      (routes : List Route)
      → (premise_blockers (judge_all routes results mapping).0 ≡ [])
        ↔ ((route : Route) → Memᴰ route routes → IsDone route)
  unfolding judge_all
  premises_nil [] = (λ h y m. elim m [ ], λ h. no_premises)
  premises_nil (x ∷ xs) = (
    λ h y m.
        (let f = (premise_cons _ _).0 h in
          ⊎_elim (λ (q : y ≡ x). subst IsDone (sym q) f.0) ((premises_nil xs).0 f.1 y)
            (Memᴰ.cases_cons m)),
    λ h.
        (premise_cons _ _).1 (h x (Memᴰ.head refl), (premises_nil xs).1 (λ y m. h y (Memᴰ.tail m))),
  )

  judged_nil :
      (routes : List Route)
      → ((route : Route) → Memᴰ route routes → IsDone route)
      → (judge_all routes results mapping).1 ≡ []
  unfolding judge_all
  judged_nil [] h = refl
  judged_nil (x ∷ xs) h = (append-eq-nil _ _).1 (
    evaluate_premise-blockers x results mapping (h x (Memᴰ.head refl)),
    judged_nil xs (λ y m. h y (Memᴰ.tail m)),
  )

pub all_blockers_nil : (r : RequirementIr) (e : Evidence) → (all_blockers r e ≡ []) ↔ Closes r e
unfolding all_blockers
all_blockers_nil r e = (
  λ h.
      (let a = (append-eq-nil _ _).0 h in
        let b = (append-eq-nil _ _).0 a.1 in
        let c = (append-eq-nil _ _).0 b.1 in
        let d = (append-eq-nil _ _).0 c.1 in
        let f = (append-eq-nil _ _).0 d.1 in
        let (x, ex, px) = (coverage_nil e.coverage).0 a.0 in
        let (y, ey, py) = (alignment_nil e.alignment).0 b.0 in
        record {
          coverage = x;
          covered = ex;
          coverage_passed = px;
          alignment = y;
          aligned = ey;
          alignment_passed = py;
          agreed = (agreement_nil e.agreement).0 c.0;
          accounted = (producer_nil (mapping_of e) e.results).0 d.0;
          discharges = (premises_nil e.results (mapping_of e) (plan_of r e).routes).0 f.1;
        }),
  λ h. (append-eq-nil _ _).1 (
    (coverage_nil e.coverage).1 (h.coverage, h.covered, h.coverage_passed),
    (append-eq-nil _ _).1 (
      (alignment_nil e.alignment).1 (h.alignment, h.aligned, h.alignment_passed),
      (append-eq-nil _ _).1 (
        (agreement_nil e.agreement).1 h.agreed,
        (append-eq-nil _ _).1 (
          (producer_nil (mapping_of e) e.results).1 h.accounted,
          (append-eq-nil _ _).1 (
            judged_nil e.results (mapping_of e) (plan_of r e).routes h.discharges,
            (premises_nil e.results (mapping_of e) (plan_of r e).routes).1 h.discharges,
          ),
        ),
      ),
    ),
  ),
)
