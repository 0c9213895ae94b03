-- ===== src/Coverage/Records.antt =====
-- coverage_alignment.py: the manifest of version 2 and the report on it.
use attestation_layer.Prelude.{ℕ, String, Bool, Option, List}

pub data ReviewStatus : Type 0 where
  reviewed candidate draft rejected missing : ReviewStatus

pub data CoverageLevel : Type 0 where
  full partial none_level unsupported : CoverageLevel

pub data Freshness : Type 0 where
  fresh stale unknown : Freshness

pub data CoverageStatus : Type 0 where
  covered missing partial candidate rejected unsupported stale dependency_gap : CoverageStatus

pub data CoverageEffect : Type 0 where
  allow block review : CoverageEffect

pub data CoverageResult : Type 0 where
  passed blocked needs_review : CoverageResult

-- The fields that only pass through are left out of an entry: paths, symbols, fragments, metadata.
pub record CodeSpecCoverageManifestEntryV2 (F : Type 0) : Type 0 where
  pub module_id : String
  pub spec_ids : List String
  pub review_status : ReviewStatus
  pub coverage_level : CoverageLevel
  pub coverage_ratio : F
  pub freshness : Freshness
  pub dependency_module_ids : List String
  pub trace_ids : List String

pub record CoverageGateModuleStatusV2 (F : Type 0) : Type 0 where
  pub module_id : String
  pub status : CoverageStatus
  pub closure_effect : CoverageEffect
  pub spec_ids : List String
  pub dependency_module_ids : List String
  pub gap_dependency_module_ids : List String
  pub trace_ids : List String
  pub review_status : Option ReviewStatus
  pub freshness : Option Freshness
  pub coverage_ratio : F
  pub reason : Option String

pub record CodeSpecCoverageGateReportV2 (F : Type 0) : Type 0 where
  pub result : CoverageResult
  pub closure_effect : CoverageEffect
  pub threshold : F
  pub covered_modules : ℕ
  pub total_modules : ℕ
  pub coverage_ratio : F
  pub modules : List (CoverageGateModuleStatusV2 F)

-- The operations on floats: `<`, the quotient of counts, 0.0 and 1.0.
pub record Floats (F : Type 0) : Type 0 where
  pub below : F → F → Bool
  pub divide : ℕ → ℕ → F
  pub nothing : F
  pub whole : F
