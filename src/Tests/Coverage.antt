-- ===== src/Tests/Coverage.antt =====
-- A module and its dependency, both covered; the ratios are percentages.
use Prim.Native.Nat.{◌/◌}
use attestation_layer.Prelude.{ℕ, ◌*◌, String, ◌≡◌, refl, List, [], ◌∷◌, ltb, dict_of}
use attestation_layer.Coverage.Records.{
  ReviewStatus, CoverageLevel, Freshness, CoverageEffect, CodeSpecCoverageManifestEntryV2, Floats,
}
use attestation_layer.Coverage.{build_code_spec_coverage_gate_report_v2}

abbrev percents : Floats ℕ
percents = record { below = ltb; divide = λ n total. (n * 100) / total; nothing = 0; whole = 100 }

abbrev covered_entry : String → List String → CodeSpecCoverageManifestEntryV2 ℕ
covered_entry m dependencies = record {
  module_id = m;
  spec_ids = "S" ∷ [];
  review_status = ReviewStatus.reviewed;
  coverage_level = CoverageLevel.full;
  coverage_ratio = 100;
  freshness = Freshness.fresh;
  dependency_module_ids = dependencies;
  trace_ids = [];
}

abbrev entries : List (CodeSpecCoverageManifestEntryV2 ℕ)
entries = covered_entry "app" ("db" ∷ []) ∷ covered_entry "db" [] ∷ []

-- A dependency that is covered but not affected is a gap.
unaffected_dependency_blocks :
    (build_code_spec_coverage_gate_report_v2 percents 90 entries ("app" ∷ [])).closure_effect
    ≡ CoverageEffect.block
unfolding build_code_spec_coverage_gate_report_v2 dict_of
unaffected_dependency_blocks = refl

both_pass :
    (build_code_spec_coverage_gate_report_v2 percents 90 entries ("app" ∷ "db" ∷ [])).closure_effect
    ≡ CoverageEffect.allow
unfolding build_code_spec_coverage_gate_report_v2 dict_of
both_pass = refl
