-- ===== src/Gate.antt =====
-- gate.py: the findings of the hard gate on the referenced packages, their evaluation under a policy
-- and its waivers, and the report. The package index of adoption.py is an argument;
-- `fnmatchcase`, `Path(...).as_posix()` and datetimes are parameters.
pub mod Records
pub mod Paths
pub mod Findings
pub mod Waiving
unfoldable pub use Records.*
unfoldable pub use Paths.*
unfoldable pub use Findings.*
unfoldable pub use Waiving.*
pub mod Laws
pub mod Verdict
pub mod Clear
pub mod Sound
use attestation_layer.Prelude.{
  ℕ, ◌+◌, String, Bool, true, false, not, ◌&&◌, ◌||◌, ◌==◌, Option, none, some, List, [], ◌∷◌, ◌++◌,
  map, filter, any, mem, length, is_empty, is_some, Dict, lookup, insert, dict_of, join, concat,
  or_else, if◌then◌else◌,
}
use attestation_layer.PinGate.{matches_any}

-- `_finding_blocks`
unfoldable pub finding_blocks : GatePolicy → String → Bool
finding_blocks policy category =
    if mem category policy.rules.report_only_findings
    then false
    else if category == "minimum_evidence" && not (is_empty policy.rules.minimum_evidence)
    then true
    else mem category policy.rules.block_findings

-- the dict comprehension `packages_by_id`
abbrev pub entries_of : List PackageSummary → List (String × PackageSummary)
entries_of [] = []
entries_of (p ∷ ps) =
    let rest = entries_of ps in
    elim p.requirement_id [ none ↦ rest | some id ↦ if id == "" then rest else (id, p) ∷ rest ]

abbrev pub packages_by_id : List PackageSummary → Dict PackageSummary
packages_by_id index = dict_of (entries_of index)

-- `referenced_packages`
abbrev found_packages : Dict PackageSummary → List String → List PackageSummary
found_packages packages [] = []
found_packages packages (id ∷ ids) =
    let rest = found_packages packages ids in
    elim (lookup id packages) [ none ↦ rest | some p ↦ p ∷ rest ]

-- the last branches of `_evaluate_finding`
abbrev pub enforce :
    GateFinding
    → Option (Option String × List WaiverDecision)
    → Option (EvaluatedFinding × List WaiverDecision)
enforce f none = none
enforce f (some (some id, ds)) =
    some (record { finding = f; enforcement = waived; waiver_id = some id }, ds)
enforce f (some (none, ds)) =
    some (record { finding = f; enforcement = blocked; waiver_id = none }, ds)

-- `evaluated_findings.append(...)` and `waiver_decisions.extend(...)`
abbrev pub add_finding :
    Option (EvaluatedFinding × List WaiverDecision)
    → Option (List EvaluatedFinding × List WaiverDecision)
    → Option (List EvaluatedFinding × List WaiverDecision)
add_finding none rest = none
add_finding (some e) none = none
add_finding (some (e, ds)) (some (es, later)) = some (e ∷ es, ds ++ later)

-- `package["path"] if package is not None else d`
abbrev pub path_or : Option PackageSummary → String → String
path_or none d = d
path_or (some p) d = p.path

-- `finding["enforcement"] == ...`
abbrev pub same_enforcement : GateEnforcement → GateEnforcement → Bool
same_enforcement report_only_finding report_only_finding = true
same_enforcement out_of_scope out_of_scope = true
same_enforcement waived waived = true
same_enforcement blocked blocked = true
same_enforcement _ _ = false

-- `packages_by_id.get(...)`
abbrev pub summary_of : Dict PackageSummary → GateFinding → Option PackageSummary
summary_of packages f = elim f.requirement_id [ none ↦ none | some id ↦ lookup id packages ]

-- the report on evaluated findings
abbrev pub assemble :
    GatePolicy
    → List String
    → List String
    → Dict PackageSummary
    → List EvaluatedFinding
    → List WaiverDecision
    → HardGateReport
assemble policy changed_paths references packages findings decisions =
    let count = λ (k : GateEnforcement).
      length (filter (λ e. same_enforcement k (EvaluatedFinding.enforcement e)) findings) in
    record {
      passed = not (any (λ e. same_enforcement blocked (EvaluatedFinding.enforcement e)) findings);
      policy_id = policy.policy_id;
      changed_paths = changed_paths;
      references = references;
      hard_blocking_findings = count blocked;
      waived_findings = count waived;
      report_only_findings = count report_only_finding + count out_of_scope;
      out_of_scope_findings = count out_of_scope;
      findings = findings;
      waiver_decisions = decisions;
      referenced_packages = found_packages packages references;
    }

module _ (fnmatch : String → String → Bool) (normalize : String → String) where
  -- the last two tests of `_finding_matches_scope`
  pub matches_paths : GatePolicyScope → Option PackageSummary → String → List String → Bool
  matches_paths scope summary packages_dir changed_paths =
      let path = path_or summary (normalize packages_dir) in
      if not (is_empty scope.package_roots)
        && not (any (λ root. path_within_root normalize path root) scope.package_roots)
      then false
      else if not (is_empty scope.changed_path_patterns) && not (is_empty changed_paths)
      then any (λ p. matches_any fnmatch normalize p scope.changed_path_patterns) changed_paths
      else true

  -- `_finding_matches_scope`
  pub finding_matches_scope :
      GateFinding → Option PackageSummary → String → GatePolicy → List String → Bool
  unfolding matches_paths
  finding_matches_scope f summary packages_dir policy changed_paths =
      let scope = policy.scope in
      if not (is_empty scope.requirement_id_patterns) && elim f.requirement_id [
        | none ↦ false
        | some id ↦ not (matches_any fnmatch normalize id scope.requirement_id_patterns)
      ]
      then false
      else if not (is_empty scope.adapters)
          && elim summary [ none ↦ false | some p ↦ not (mem p.adapter scope.adapters) ]
      then false
      else matches_paths scope summary packages_dir changed_paths

  module _ (Time : Type 0) (le : Time → Time → Bool) (plus_days : Time → ℕ → Option Time) where
    -- `_waiver_covers`
    pub waiver_covers : GateWaiver Time → GateFinding → Option PackageSummary → Bool
    waiver_covers w f summary =
        let package_path = path_or summary f.path in
        if elim f.requirement_id [ none ↦ false | some id ↦ mem id w.requirement_ids ]
        then true
        else not (package_path == "")
          && any (λ p. path_within_root normalize package_path p) w.package_paths

    -- `_waiver_result`: the waiver that applies, if one does, and the decisions up to it
    pub waiver_result :
        GateFinding
        → Option PackageSummary
        → GatePolicy
        → Time
        → List (GateWaiver Time)
        → Option (Option String × List WaiverDecision)
    unfolding waiver_decision waiver_covers
    waiver_result f summary policy now [] = some (none, [])
    waiver_result f summary policy now (w ∷ ws) =
        let rest = waiver_result f summary policy now ws in
        next_result (waiver_covers w f summary)
          (waiver_decision Time le plus_days w summary policy now) f w.waiver_id rest

    -- `_evaluate_finding`
    pub evaluate_finding :
        GateFinding
        → Option PackageSummary
        → String
        → GatePolicy
        → List (GateWaiver Time)
        → List String
        → Time
        → Option (EvaluatedFinding × List WaiverDecision)
    unfolding waiver_result finding_matches_scope finding_blocks
    evaluate_finding f summary packages_dir policy waivers changed_paths now =
        if not (finding_matches_scope f summary packages_dir policy changed_paths)
        then some (record { finding = f; enforcement = out_of_scope; waiver_id = none }, [])
        else if not (finding_blocks policy f.category)
        then some (record { finding = f; enforcement = report_only_finding; waiver_id = none }, [])
        else enforce f (waiver_result f summary policy now waivers)

    -- the loop over the raw findings
    pub evaluate_findings :
        Dict PackageSummary
        → String
        → GatePolicy
        → List (GateWaiver Time)
        → List String
        → Time
        → List GateFinding
        → Option (List EvaluatedFinding × List WaiverDecision)
    unfolding evaluate_finding
    evaluate_findings packages packages_dir policy waivers changed_paths now [] = some ([], [])
    evaluate_findings packages packages_dir policy waivers changed_paths now (f ∷ fs) =
        add_finding
          (evaluate_finding f (summary_of packages f) packages_dir policy waivers changed_paths now)
          (evaluate_findings packages packages_dir policy waivers changed_paths now fs)

    -- `build_hard_gate_report`, from the packages of the index; `none` where the latest expiry that
    -- the policy allows overflows
    unfoldable pub build_hard_gate_report :
        List PackageSummary
        → String
        → List String
        → GatePolicy
        → List (GateWaiver Time)
        → List String
        → Time
        → Option HardGateReport
    unfolding evaluate_findings evaluate_finding waiver_result waiver_covers finding_matches_scope
        matches_paths
    build_hard_gate_report index packages_dir requirement_ids policy waivers changed now =
        let references = stable_unique requirement_ids in
        let packages = packages_by_id index in
        let changed_paths = map normalize changed in
        elim (evaluate_findings packages packages_dir policy waivers changed_paths now
          (raw_hard_gate_findings fnmatch normalize references packages policy changed_paths)) [
            | none ↦ none
            | some (findings, decisions) ↦
                some (assemble policy changed_paths references packages findings decisions)
          ]
