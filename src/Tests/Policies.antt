-- ===== src/Tests/Policies.antt =====
-- trace_replay.py, trace_validation.py, policy_governance.py, verification_budget.py and gate.py on
-- concrete inputs.
use attestation_layer.Models.Evidence.{FinalStatus}
use attestation_layer.Status.{StatusView}
use attestation_layer.PinGate.{GateMachinePinRules, machine_pin_accepts}
use attestation_layer.PinGate.Laws.{IsPinned, IsLowRisk, machine_pin_accepts-iff-IsLowRisk}
use attestation_layer.Prelude.{
  ◌==◌, ℕ, ◌+◌, String, ◌≡◌, ◌≢◌, ◌↔◌, refl, true, false, leb, none, some, List, [], ◌∷◌, Memᴰ,
  Option,
}
use attestation_layer.Models.Json.{Value, Fields}
use attestation_layer.Models.Result.{BackendStatus}
use attestation_layer.Replay.{
  TraceEvent, NormalizedTrace, ExpectationKind, SpecTraceExpectation, SpecTraceContract, Outcome,
  pooled, replay_expectation,
}
use attestation_layer.Replay.Witness.{IsWitnessed, replay_expectation-IsWitnessed}
use attestation_layer.Replay.Alignment.{
  AlignmentEffect, classify_spec_code_alignment, classify_spec_code_alignment-allow_iff,
}
use attestation_layer.Gate.{GatePolicy, GateWaiver}
use attestation_layer.Waivers.{
  WaiverAuditReport, GateMode, Enforcement, CiResult, ExtendedCiPrGateReport,
  build_waiver_audit_report, build_ci_policy_governance_report,
}
use attestation_layer.Waivers.Audit.{IsActive, build_waiver_audit_report-iff-IsActive}
use attestation_layer.Waivers.Governance.{
  IsGoverned, build_ci_policy_governance_report-iff-IsGoverned,
}
use attestation_layer.Budget.{
  AbstractionAssumption, VerificationBudgetReport, OutcomeEffect, default_policy,
  build_verification_budget_report, classify_budgeted_outcome, AbstractionLevel,
}
use attestation_layer.Budget.Laws.{classify_budgeted_outcome-approving_iff}

-- A `str` that prints texts only.
abbrev str_of : Value → String
str_of (Value.str s) = s
str_of _ = ""

abbrev read : TraceEvent
read = record {
  event_id = "e1";
  action = "total()";
  metadata = Fields.field "decoded_output" (Value.str "7") Fields.done;
}

abbrev expectation : SpecTraceExpectation
expectation = record {
  expectation_id = "x1";
  kind = ExpectationKind.state_value_reached;
  target = "total";
  value = some "7";
  description = "";
}

replay_expectation-IsWitnessed_example :
    ((replay_expectation str_of expectation (read ∷ [])).outcome ≡ Outcome.satisfied)
    ↔ IsWitnessed str_of expectation (read ∷ [])
replay_expectation-IsWitnessed_example =
    replay_expectation-IsWitnessed str_of expectation (read ∷ [])

abbrev contract : SpecTraceContract
contract = record { spec_id = "s"; module_ids = []; expectations = expectation ∷ [] }

abbrev traces : List NormalizedTrace
traces = (record { trace_id = "t"; events = read ∷ [] }) ∷ []

classify_spec_code_alignment-allow_iff_example :
    ((classify_spec_code_alignment str_of contract traces).closure_effect ≡ AlignmentEffect.allow)
    ↔ ((contract.expectations ≢ [])
        × ((e : SpecTraceExpectation)
            → Memᴰ e contract.expectations
            → IsWitnessed str_of e (pooled traces)))
classify_spec_code_alignment-allow_iff_example =
    classify_spec_code_alignment-allow_iff str_of contract traces

-- Days as natural numbers.
abbrev plus_days : ℕ → ℕ → Option ℕ
plus_days now days = some (now + days)

abbrev policy : GatePolicy
policy = record {
  policy_id = "p";
  schema_version = "0.1";
  scope = record {
    adapters = [];
    changed_path_patterns = [];
    package_roots = [];
    requirement_id_patterns = [];
  };
  rules = record {
    allowed_statuses = FinalStatus.accepted_with_evidence ∷ [];
    block_findings = "status" ∷ [];
    minimum_evidence = [];
    require_approved_review = true;
    report_only_findings = [];
  };
  machine_pin = record {
    enabled = false;
    allowed_changed_path_patterns = [];
    block_changed_path_patterns = [];
  };
  waivers = record {
    allow_waivers = true;
    max_duration_days = some 30;
    require_reviewed_hashes = false;
  };
}

abbrev waivers : List (GateWaiver ℕ)
waivers =
    (record {
      waiver_id = "w";
      schema_version = "0.1";
      requirement_ids = "REQ-1" ∷ [];
      package_paths = [];
      reviewer = "ana";
      reason = "known gap";
      linked_issue = "17";
      expires_at = 120;
      reviewed_hashes = [];
      may_satisfy_hard_gate = true;
    })
    ∷ []

build_waiver_audit_report-iff-IsActive_example :
    ((report : WaiverAuditReport) × (build_waiver_audit_report ℕ leb plus_days policy waivers 100
        ≡ some report)
      × (report.passed ≡ true))
    ↔ ((w : GateWaiver ℕ) → Memᴰ w waivers → IsActive ℕ leb plus_days policy.waivers 100 w)
build_waiver_audit_report-iff-IsActive_example =
    build_waiver_audit_report-iff-IsActive ℕ leb plus_days policy waivers 100

abbrev ci : ExtendedCiPrGateReport
ci = record {
  mode = GateMode.hard_gate;
  result = CiResult.ci_passed;
  enforcement = Enforcement.blocking_enforcement;
  stable_json_hash = "sha256:c";
  waiver_ids = "w" ∷ [];
}

abbrev audit : WaiverAuditReport
audit = record { policy_id = "p"; passed = true; findings = [] }

build_ci_policy_governance_report-iff-IsGoverned_example :
    ((build_ci_policy_governance_report "g" ci audit ("nlreq" ∷ []) [] "nlreq" true).passed ≡ true)
    ↔ IsGoverned ci audit ("nlreq" ∷ []) [] "nlreq" true
build_ci_policy_governance_report-iff-IsGoverned_example =
    build_ci_policy_governance_report-iff-IsGoverned "g" ci audit ("nlreq" ∷ []) [] "nlreq" true

abbrev assumptions : List AbstractionAssumption
assumptions =
    (record {
      assumption_id = "a";
      statement = "three actors are enough";
      scope = "safety";
      reviewed = true;
    })
    ∷ []

abbrev budget : VerificationBudgetReport
budget = record {
  requirement_id = "REQ-1";
  requirement_class = "safety";
  budget = record {
    requirement_class = "safety";
    timeout_seconds = 120;
    max_depth = some 20;
    max_states = some 10000;
    finite_domains = ("actors", 3) ∷ ("resources", 3) ∷ [];
    abstraction_level = AbstractionLevel.local;
  };
  assumptions = assumptions;
  assumptions_hash = some "sha256:a";
  ready = true;
  blockers = [];
}

classify_budgeted_outcome-approving_iff_example :
    (((classify_budgeted_outcome (λ r. "sha256:b") "REQ-1" budget BackendStatus.valid).approving
        ≡ true)
      ↔ ((BackendStatus.valid ≡ BackendStatus.valid)
          × ((a : AbstractionAssumption) → Memᴰ a assumptions → a.reviewed ≡ true)))
    × (((classify_budgeted_outcome
            (λ r. "sha256:b")
            "REQ-1"
            budget
            BackendStatus.valid).closure_effect
          ≡ OutcomeEffect.allow)
        ↔ ((classify_budgeted_outcome
              (λ r. "sha256:b")
              "REQ-1"
              budget
              BackendStatus.valid).approving
            ≡ true))
unfolding build_verification_budget_report default_policy
classify_budgeted_outcome-approving_iff_example =
    classify_budgeted_outcome-approving_iff (λ as_. "sha256:a") (λ r. "sha256:b") "REQ-1" "safety"
      none assumptions budget BackendStatus.valid refl

abbrev pin_rules : GateMachinePinRules
pin_rules = record {
  enabled = true;
  allowed_changed_path_patterns = "docs/a.md" ∷ [];
  block_changed_path_patterns = "src/auth" ∷ [];
}

abbrev changed : List String
changed = "docs/a.md" ∷ []

-- Patterns without a wildcard match the path itself.
machine_pin_accepts-iff-IsLowRisk_example :
    (machine_pin_accepts
        (λ v p. v == p)
        (λ p. p)
        (some (StatusView.member FinalStatus.machine_pinned_pending_review))
        changed
        pin_rules
      ≡ true)
    ↔ ((s : StatusView) × (some (StatusView.member FinalStatus.machine_pinned_pending_review)
          ≡ some s)
        × IsPinned s
        × (pin_rules.enabled ≡ true)
        × (changed ≢ [])
        × ((p : String) → Memᴰ p changed → IsLowRisk (λ v p. v == p) (λ p. p) pin_rules p))
machine_pin_accepts-iff-IsLowRisk_example =
    machine_pin_accepts-iff-IsLowRisk (λ v p. v == p) (λ p. p)
      (some (StatusView.member FinalStatus.machine_pinned_pending_review)) changed pin_rules
