-- ===== src/Coverage.antt =====
-- coverage_alignment.py: the coverage manifest of version 2 and the gate on it. The floats of the
-- ratios are a parameter, by their `<` and the quotient of two counts.
pub mod Records
pub mod Judgement
pub mod Laws
use attestation_layer.Prelude.{
  ℕ, zero, suc, ◌+◌, String, Bool, true, false, not, ◌&&◌, ◌||◌, Option, none, some, List, [], ◌∷◌,
  map, filter, any, all, length, Dict, lookup, dict_of, mem, is_empty, are_unique, if◌then◌else◌,
}
use attestation_layer.Coverage.Records.{
  ReviewStatus, CoverageLevel, Freshness, CoverageStatus, CoverageEffect, CoverageResult,
  CodeSpecCoverageManifestEntryV2, CoverageGateModuleStatusV2, CodeSpecCoverageGateReportV2, Floats,
}

abbrev pub is_allow : CoverageEffect → Bool
is_allow CoverageEffect.allow = true
is_allow _ = false

abbrev pub is_block : CoverageEffect → Bool
is_block CoverageEffect.block = true
is_block _ = false

abbrev pub is_review : CoverageEffect → Bool
is_review CoverageEffect.review = true
is_review _ = false

abbrev is_covered : CoverageStatus → Bool
is_covered CoverageStatus.covered = true
is_covered _ = false

abbrev pub is_stale : Freshness → Bool
is_stale Freshness.stale = true
is_stale _ = false

abbrev pub result_of : CoverageEffect → CoverageResult
result_of CoverageEffect.allow = CoverageResult.passed
result_of CoverageEffect.block = CoverageResult.blocked
result_of CoverageEffect.review = CoverageResult.needs_review

module _ {F : Type 0} (floats : Floats F) where
  abbrev Entry : Type 0
  Entry = CodeSpecCoverageManifestEntryV2 F

  abbrev Status : Type 0
  Status = CoverageGateModuleStatusV2 F

  abbrev Report : Type 0
  Report = CodeSpecCoverageGateReportV2 F

  -- `CodeSpecCoverageManifestV2.validate_unique_modules`; `none` where it raises
  unfoldable pub check_manifest : List Entry → Option (List Entry)
  check_manifest entries =
      if are_unique (λ (e : Entry). e.module_id) entries then some entries else none

  -- `{entry.module_id: entry for entry in manifest.entries}`
  unfoldable pub entries_by_module : List Entry → Dict Entry
  entries_by_module entries = dict_of (map (λ (e : Entry). (e.module_id, e)) entries)

  -- a status with the fields of `base`
  abbrev pub based : String → Entry → CoverageStatus → CoverageEffect → Option String → Status
  based module_id e status effect reason = record {
    module_id = module_id;
    status = status;
    closure_effect = effect;
    spec_ids = e.spec_ids;
    dependency_module_ids = e.dependency_module_ids;
    gap_dependency_module_ids = [];
    trace_ids = e.trace_ids;
    review_status = some e.review_status;
    freshness = some e.freshness;
    coverage_ratio = e.coverage_ratio;
    reason = reason;
  }

  abbrev pub judge_level : F → String → Entry → CoverageLevel → Status
  judge_level threshold m e CoverageLevel.unsupported =
      based m e CoverageStatus.unsupported CoverageEffect.block
        (some "coverage manifest declares unsupported requirement fragments")
  judge_level threshold m e CoverageLevel.full =
      if floats.below e.coverage_ratio threshold
      then based m e CoverageStatus.partial CoverageEffect.block
          (some "coverage ratio is below threshold")
      else based m e CoverageStatus.covered CoverageEffect.allow none
  judge_level threshold m e _ =
      based m e CoverageStatus.partial CoverageEffect.block
        (some "coverage ratio is below threshold")

  abbrev pub judge_review : F → String → Entry → ReviewStatus → Status
  judge_review threshold m e ReviewStatus.reviewed =
      if is_stale e.freshness
      then based m e CoverageStatus.stale CoverageEffect.block (some "covered spec is stale")
      else judge_level threshold m e e.coverage_level
  judge_review threshold m e ReviewStatus.rejected =
      based m e CoverageStatus.rejected CoverageEffect.block (some "coverage entry was rejected")
  judge_review threshold m e ReviewStatus.missing =
      based m e CoverageStatus.missing CoverageEffect.block (some "coverage is not reviewed")
  judge_review threshold m e _ =
      based m e CoverageStatus.candidate CoverageEffect.block (some "coverage is not reviewed")

  -- `_coverage_status_for_module`
  unfoldable pub coverage_status_for_module : F → String → Option Entry → Status
  coverage_status_for_module threshold m none = record {
    module_id = m;
    status = CoverageStatus.missing;
    closure_effect = CoverageEffect.block;
    spec_ids = [];
    dependency_module_ids = [];
    gap_dependency_module_ids = [];
    trace_ids = [];
    review_status = none;
    freshness = none;
    coverage_ratio = floats.nothing;
    reason = some "affected module is absent from coverage manifest v2";
  }
  coverage_status_for_module threshold m (some e) = judge_review threshold m e e.review_status

  abbrev pub module_of : Status → String
  module_of s = s.module_id

  abbrev pub allows : Status → Bool
  allows s = is_allow s.closure_effect

  -- `module_id in blocked_modules or module_id not in by_module`
  unfoldable pub is_gap : List Status → String → Bool
  is_gap statuses m =
      mem m (map module_of (filter (λ s. not (allows s)) statuses))
      || not (mem m (map module_of statuses))

  abbrev pub with_gaps : Status → List String → Status
  with_gaps s gaps = record {
    module_id = s.module_id;
    status = CoverageStatus.dependency_gap;
    closure_effect = CoverageEffect.block;
    spec_ids = s.spec_ids;
    dependency_module_ids = s.dependency_module_ids;
    gap_dependency_module_ids = gaps;
    trace_ids = s.trace_ids;
    review_status = s.review_status;
    freshness = s.freshness;
    coverage_ratio = s.coverage_ratio;
    reason = some "dependency coverage gap propagates to affected module";
  }

  -- the body of the loop of `_propagate_coverage_dependency_gaps`
  unfoldable pub propagate : List Status → Status → Status
  unfolding is_gap
  propagate statuses s =
      let gaps = filter (is_gap statuses) s.dependency_module_ids in
      if allows s && not (is_empty gaps) then with_gaps s gaps else s

  -- `_propagate_coverage_dependency_gaps`
  unfoldable pub propagate_coverage_dependency_gaps : List Status → List Status
  unfolding propagate
  propagate_coverage_dependency_gaps statuses = map (propagate statuses) statuses

  -- `_coverage_closure_effect`
  unfoldable pub coverage_closure_effect : List Status → CoverageEffect
  coverage_closure_effect statuses =
      if any (λ (s : Status). is_block s.closure_effect) statuses
      then CoverageEffect.block
      else if any (λ (s : Status). is_review s.closure_effect) statuses
      then CoverageEffect.review
      else CoverageEffect.allow

  abbrev ratio_of : ℕ → ℕ → F
  ratio_of n zero = floats.whole
  ratio_of n (suc total) = floats.divide n (suc total)

  unfoldable pub report_of : F → List Status → Report
  unfolding coverage_closure_effect
  report_of threshold statuses =
      let count = length (filter (λ (s : Status). is_covered s.status) statuses) in
      let effect = coverage_closure_effect statuses in
      record {
        result = result_of effect;
        closure_effect = effect;
        threshold = threshold;
        covered_modules = count;
        total_modules = length statuses;
        coverage_ratio = ratio_of count (length statuses);
        modules = statuses;
      }

  unfoldable pub statuses_of : F → List Entry → List String → List Status
  unfolding coverage_status_for_module entries_by_module
  statuses_of threshold entries affected =
      map (λ m. coverage_status_for_module threshold m (lookup m (entries_by_module entries)))
        affected

  -- `build_code_spec_coverage_gate_report_v2`, for the affected modules of the impact
  unfoldable pub build_code_spec_coverage_gate_report_v2 : F → List Entry → List String → Report
  unfolding report_of statuses_of propagate_coverage_dependency_gaps
  build_code_spec_coverage_gate_report_v2 threshold entries affected =
      report_of threshold
        (propagate_coverage_dependency_gaps (statuses_of threshold entries affected))
