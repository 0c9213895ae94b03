-- ===== src/Coverage/Laws.antt =====
-- When the coverage gate of coverage_alignment.py allows closure.
use attestation_layer.Prelude.{String, ◌≡◌, Option, some, List, Memᴰ, lookup}
use attestation_layer.Coverage.Records.{
  CodeSpecCoverageManifestEntryV2, CoverageGateModuleStatusV2, Floats,
}
use attestation_layer.Coverage.{entries_by_module, coverage_status_for_module}
use attestation_layer.Coverage.Judgement.{IsCovered}

module _ {F : Type 0} (floats : Floats F) (threshold : F) where
  abbrev Entry : Type 0
  Entry = CodeSpecCoverageManifestEntryV2 F

  abbrev Status : Type 0
  Status = CoverageGateModuleStatusV2 F

  module _ (entries : List Entry) where
    -- the entry of a module, as `entries_by_module.get` finds it
    abbrev pub entry_of : String → Option Entry
    entry_of m = lookup m (entries_by_module floats entries)

    abbrev judge : String → Status
    judge m = coverage_status_for_module floats threshold m (entry_of m)

    -- Every module has a covered entry, whose dependencies are among the modules.
    pub AreCovered : List String → Type 0
    AreCovered affected =
        (m : String)
        → Memᴰ m affected
        → (e : Entry) × (entry_of m ≡ some e)
          × IsCovered floats threshold e
          × ((d : String) → Memᴰ d e.dependency_module_ids → Memᴰ d affected)
