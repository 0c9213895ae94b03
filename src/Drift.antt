-- ===== src/Drift.antt =====
-- spec_drift.py: which modules' specifications are out of date, by the hashes of their sources and
-- by their dependencies, and the marking of the specifications of system_spec.py. Reading and
-- hashing a file is a parameter: the hash of the file at a path, `none` where there is no file.
pub mod Direct
pub mod Laws
pub mod Marking
use mathlib.Core.Bool.{decide, decide_iff}
use attestation_layer.Prelude.{
  String, ◌≡◌, ◌↔◌, Bool, true, false, not, ◌&&◌, ◌||◌, Option, none, some, List, [], ◌∷◌, ◌++◌,
  map, filter, any, Dict, lookup, insert, ◌==◌, if◌then◌else◌, is_empty, mem, concat, join,
}

pub record CodeSpecManifestEntry : Type 0 where
  pub module_id : String
  pub source_paths : List String
  pub spec_ids : List String
  pub dependency_module_ids : List String
  pub recorded_source_hashes : Dict String

pub data Freshness : Type 0 where
  fresh stale missing_source : Freshness

Freshness-discrete : Discrete Freshness
Freshness-discrete = hlevel

-- `a == b` on these
unfoldable pub same_freshness : Freshness → Freshness → Bool
unfolding Freshness-discrete decide
same_freshness a b = decide (Freshness-discrete a b)

pub same_freshness_iff : (a b : Freshness) → (same_freshness a b ≡ true) ↔ (a ≡ b)
unfolding same_freshness
same_freshness_iff a b = decide_iff (Freshness-discrete a b)

pub record SpecDriftStatus : Type 0 where
  pub module_id : String
  pub status : Freshness
  pub spec_ids : List String
  pub changed_paths : List String
  pub dependency_module_ids : List String
  pub stale_due_to_dependencies : List String
  pub recorded_source_hashes : Dict String
  pub current_source_hashes : Dict String
  pub required_refresh_actions : List String

pub record SpecDriftReport : Type 0 where
  pub passed : Bool
  pub statuses : List SpecDriftStatus

-- What the loop of `_direct_status` collects.
pub record Scan : Type 0 where
  pub current_hashes : Dict String
  pub changed_paths : List String
  pub missing_paths : List String

-- `recorded.get(path) == current`
abbrev pub is_recorded : Dict String → String → String → Bool
is_recorded recorded path current = elim (lookup path recorded) [
  | none ↦ false
  | some h ↦ h == current
]

-- one step of the loop
abbrev pub scan_path : (String → Option String) → Dict String → Scan → String → Scan
scan_path hash_at recorded s path = elim (hash_at path) [
  | none ↦ record {
    current_hashes = Scan.current_hashes s;
    changed_paths = Scan.changed_paths s;
    missing_paths = Scan.missing_paths s ++ (path ∷ []);
  }
  | some current ↦ record {
    current_hashes = insert path current (Scan.current_hashes s);
    changed_paths =
        if is_recorded recorded path current
        then Scan.changed_paths s
        else Scan.changed_paths s ++ (path ∷ []);
    missing_paths = Scan.missing_paths s;
  }
]

pub scan : (String → Option String) → Dict String → Scan → List String → Scan
scan hash_at recorded s [] = s
scan hash_at recorded s (path ∷ rest) =
    scan hash_at recorded (scan_path hash_at recorded s path) rest

abbrev status_with :
    CodeSpecManifestEntry → Dict String → Freshness → List String → List String → SpecDriftStatus
status_with e current status changed actions = record {
  module_id = e.module_id;
  status = status;
  spec_ids = e.spec_ids;
  changed_paths = changed;
  dependency_module_ids = e.dependency_module_ids;
  stale_due_to_dependencies = [];
  recorded_source_hashes = e.recorded_source_hashes;
  current_source_hashes = current;
  required_refresh_actions = actions;
}

-- `_direct_status`
pub direct_status : (String → Option String) → CodeSpecManifestEntry → SpecDriftStatus
direct_status hash_at e =
    let nothing : Scan = record { current_hashes = []; changed_paths = []; missing_paths = [] } in
    let s = scan hash_at e.recorded_source_hashes nothing e.source_paths in
    if not (is_empty s.missing_paths)
    then status_with e s.current_hashes missing_source s.missing_paths
        (concat ("restore or re-map missing source paths for module " ∷ e.module_id ∷ []) ∷ [])
    else (if not (is_empty s.changed_paths)
        then status_with e s.current_hashes stale s.changed_paths
            (concat ("refresh specs " ∷ join ", " e.spec_ids ∷ " for changed source" ∷ []) ∷ [])
        else status_with e s.current_hashes fresh [] [])

abbrev pub is_fresh : SpecDriftStatus → Bool
is_fresh s = same_freshness s.status fresh

-- `stale_modules`
pub stale_modules : List SpecDriftStatus → List String
stale_modules statuses =
    map (λ s. SpecDriftStatus.module_id s) (filter (λ s. not (is_fresh s)) statuses)

-- the `dependencies` of a status that are in the set
abbrev pub stale_dependencies : List String → SpecDriftStatus → List String
stale_dependencies drifted s = filter (λ m. mem m drifted) s.dependency_module_ids

-- the body of the second loop
pub propagate : List String → SpecDriftStatus → SpecDriftStatus
propagate drifted s =
    if is_fresh s && not (is_empty (stale_dependencies drifted s))
    then record {
      module_id = s.module_id;
      status = stale;
      spec_ids = s.spec_ids;
      changed_paths = s.changed_paths;
      dependency_module_ids = s.dependency_module_ids;
      stale_due_to_dependencies = stale_dependencies drifted s;
      recorded_source_hashes = s.recorded_source_hashes;
      current_source_hashes = s.current_source_hashes;
      required_refresh_actions =
          concat ("refresh specs " ∷ join ", " s.spec_ids ∷ " after dependency drift" ∷ []) ∷ [];
    }
    else s

unfoldable pub build_spec_drift_report :
    (String → Option String) → List CodeSpecManifestEntry → SpecDriftReport
unfolding direct_status stale_modules propagate scan same_freshness
build_spec_drift_report hash_at entries =
    let statuses = map (direct_status hash_at) entries in
    let propagated = map (propagate (stale_modules statuses)) statuses in
    record { passed = not (any (λ s. not (is_fresh s)) propagated); statuses = propagated }

pub data SpecFreshness : Type 0 where
  spec_fresh spec_stale unknown : SpecFreshness

pub data Formalism : Type 0 where
  tla smt ltl alloy lean other : Formalism

pub data SpecReview : Type 0 where
  draft reviewed rejected : SpecReview

pub record SystemSpecEntry : Type 0 where
  pub spec_id : String
  pub module_ids : List String
  pub formalism : Formalism
  pub path : String
  pub version : String
  pub review_status : SpecReview
  pub freshness : SpecFreshness
  pub recorded_hash : Option String
  pub init_op : Option String
  pub next_op : Option String
  pub invariants : List String
  pub metadata : Dict String

-- `spec.model_copy(update={"freshness": "stale"})`
abbrev pub as_stale : SystemSpecEntry → SystemSpecEntry
as_stale s = record {
  spec_id = s.spec_id;
  module_ids = s.module_ids;
  formalism = s.formalism;
  path = s.path;
  version = s.version;
  review_status = s.review_status;
  freshness = spec_stale;
  recorded_hash = s.recorded_hash;
  init_op = s.init_op;
  next_op = s.next_op;
  invariants = s.invariants;
  metadata = s.metadata;
}

-- `stale_spec_ids`
pub stale_spec_ids : List SpecDriftStatus → List String
stale_spec_ids [] = []
stale_spec_ids (s ∷ rest) = (if is_fresh s then [] else s.spec_ids) ++ stale_spec_ids rest

unfoldable pub mark_stale_specs : List SystemSpecEntry → SpecDriftReport → List SystemSpecEntry
unfolding stale_spec_ids
mark_stale_specs specs report =
    map
      (λ s.
        if mem (SystemSpecEntry.spec_id s) (stale_spec_ids report.statuses) then as_stale s else s)
      specs
