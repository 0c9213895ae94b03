-- ===== src/Tests/Gate.antt =====
-- gate.py on concrete inputs: a package that is clear, and one whose finding is waived.
use attestation_layer.Prelude.{
  ℕ, ◌+◌, String, ◌≡◌, ◌≢◌, ◌↔◌, refl, Bool, true, false, ◌==◌, leb, Option, none, some, List, [],
  ◌∷◌, Memᴰ, lookup, dict_of, sorted, dedupe,
}
use attestation_layer.Models.Evidence.{FinalStatus, EvidenceLevel}
use attestation_layer.Status.{value_of, is_human_accepted}
use attestation_layer.PinGate.{machine_pin_accepts}
use attestation_layer.Gate.{
  GatePolicy, GateWaiver, PackageSummary, GateFinding, HardGateReport, common_blocking_findings,
  build_hard_gate_report, raw_hard_gate_findings, packages_by_id, waiver_decision,
  stale_waiver_hashes, findings_on, judge_hashes, path_within_root, findings_on_all, level_value,
  missing_required_evidence, finding_blocks,
}
use attestation_layer.Gate.Laws.{HasLimit}
use attestation_layer.Gate.Verdict.{IsTolerated, build_hard_gate_report-passed_iff}
use attestation_layer.Gate.Clear.{IsStrict, IsCleared}
use attestation_layer.Gate.Sound.{build_hard_gate_report-IsCleared}

abbrev same : String → String → Bool
same value pattern = value == pattern

abbrev as_posix : String → String
as_posix path = path

-- Days as natural numbers.
abbrev plus_days : ℕ → ℕ → Option ℕ
plus_days now days = some (now + days)

abbrev cleared : PackageSummary
cleared = record {
  requirement_id = some "REQ-1";
  path = "packages/one";
  adapter = "generic";
  validation_status = "valid";
  validation_errors = [];
  status = some "ACCEPTED_WITH_EVIDENCE";
  review_decision = some "approved";
  pending_reviews = [];
  unsupported_claims = [];
  achieved_evidence = some "SMT_CHECKED" ∷ [];
  artifacts = ("review.json", "h1") ∷ [];
}

-- The same package before its review.
abbrev pending : PackageSummary
pending = record {
  requirement_id = some "REQ-1";
  path = "packages/one";
  adapter = "generic";
  validation_status = "valid";
  validation_errors = [];
  status = some "ACCEPTED_WITH_EVIDENCE";
  review_decision = some "needs_review";
  pending_reviews = "ana" ∷ [];
  unsupported_claims = [];
  achieved_evidence = some "SMT_CHECKED" ∷ [];
  artifacts = ("review.json", "h1") ∷ [];
}

abbrev policy_with : Bool → GatePolicy
policy_with allow = record {
  policy_id = "default";
  schema_version = "0.1";
  scope = record {
    adapters = [];
    changed_path_patterns = [];
    package_roots = [];
    requirement_id_patterns = [];
  };
  rules = record {
    allowed_statuses = FinalStatus.accepted_with_evidence ∷ [];
    block_findings = common_blocking_findings;
    minimum_evidence = EvidenceLevel.smt_checked ∷ [];
    require_approved_review = true;
    report_only_findings = [];
  };
  waivers = record {
    allow_waivers = allow;
    max_duration_days = some 30;
    require_reviewed_hashes = true;
  };
  machine_pin = record {
    enabled = false;
    allowed_changed_path_patterns = [];
    block_changed_path_patterns = [];
  };
}

abbrev waivers : List (GateWaiver ℕ)
waivers =
    (record {
      waiver_id = "w";
      schema_version = "0.1";
      requirement_ids = "REQ-1" ∷ [];
      package_paths = [];
      reviewer = "ana";
      reason = "review is scheduled";
      expires_at = 120;
      reviewed_hashes = ("review", "h1") ∷ [];
      linked_issue = "17";
      may_satisfy_hard_gate = true;
    })
    ∷ []

any_limit : (allow : Bool) → HasLimit ℕ leb plus_days (policy_with allow) 100
any_limit allow days e n = cc n

policy-IsStrict : IsStrict (policy_with false)
policy-IsStrict = record {
  all_adapters = refl;
  all_paths = refl;
  all_roots = refl;
  all_ids = refl;
  no_waivers = refl;
  blocks_common = refl;
  blocks_all = refl;
}

abbrev clear_report : HardGateReport
clear_report = record {
  passed = true;
  policy_id = "default";
  changed_paths = "src/a.py" ∷ [];
  references = "REQ-1" ∷ [];
  hard_blocking_findings = 0;
  waived_findings = 0;
  report_only_findings = 0;
  out_of_scope_findings = 0;
  findings = [];
  waiver_decisions = [];
  referenced_packages = cleared ∷ [];
}

clear_report-built :
    build_hard_gate_report same as_posix ℕ leb plus_days
      (cleared ∷ [])
      "packages"
      ("REQ-1" ∷ "REQ-1" ∷ [])
      (policy_with false)
      []
      ("src/a.py" ∷ [])
      100
    ≡ some clear_report
unfolding build_hard_gate_report raw_hard_gate_findings missing_required_evidence dict_of sorted
    dedupe machine_pin_accepts finding_blocks waiver_decision stale_waiver_hashes findings_on
    findings_on_all value_of level_value
clear_report-built = refl

abbrev references : List String
references = "REQ-1" ∷ "REQ-1" ∷ []

build_hard_gate_report-IsCleared_example :
    (references ≢ [])
    × ((id : String)
        → Memᴰ id ("REQ-1" ∷ "REQ-1" ∷ [])
        → (p : PackageSummary) × (lookup id (packages_by_id (cleared ∷ [])) ≡ some p)
          × IsCleared same as_posix (policy_with false) ("src/a.py" ∷ []) p)
build_hard_gate_report-IsCleared_example =
    build_hard_gate_report-IsCleared same as_posix ℕ leb plus_days (cleared ∷ []) "packages"
      ("REQ-1" ∷ "REQ-1" ∷ []) (policy_with false) [] ("src/a.py" ∷ []) 100 clear_report
      (any_limit false) policy-IsStrict clear_report-built refl

-- The two findings on the pending review are waived.
waived-passes :
    elim (build_hard_gate_report same as_posix ℕ leb plus_days
        (pending ∷ [])
        "packages"
        ("REQ-1" ∷ [])
        (policy_with true)
        waivers
        []
        100)
      as (λ r. Bool × ℕ) [ none ↦ (false, 0) | some r ↦ (r.passed, r.waived_findings) ]
    ≡ (true, 2)
unfolding build_hard_gate_report raw_hard_gate_findings missing_required_evidence dict_of sorted
    dedupe machine_pin_accepts finding_blocks waiver_decision stale_waiver_hashes judge_hashes
    path_within_root findings_on findings_on_all value_of level_value is_human_accepted
waived-passes = refl

build_hard_gate_report-passed_iff_example :
    (report : HardGateReport) × (build_hard_gate_report same as_posix ℕ leb plus_days
        (pending ∷ [])
        "packages"
        ("REQ-1" ∷ [])
        (policy_with true)
        waivers
        []
        100
      ≡ some report)
    × ((report.passed ≡ true) ↔ (
        (f : GateFinding)
        → Memᴰ f (
            raw_hard_gate_findings same as_posix
              ("REQ-1" ∷ [])
              (packages_by_id (pending ∷ []))
              (policy_with true)
              [])
        → IsTolerated same as_posix ℕ leb plus_days
            (policy_with true)
            100
            "packages"
            []
            waivers
            (packages_by_id (pending ∷ []))
            f))
build_hard_gate_report-passed_iff_example =
    build_hard_gate_report-passed_iff same as_posix ℕ leb plus_days (pending ∷ []) "packages"
      ("REQ-1" ∷ []) (policy_with true) waivers [] 100 (any_limit true)
