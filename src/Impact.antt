-- ===== src/Impact.antt =====
-- impact.py: which modules a requirement touches, along the call graph, and the cross-validation of
-- that set against an untrusted estimate. The call graph comes from a language adapter and is an
-- argument.
pub mod Closure
pub mod Estimate
use Prim.Native.Char.{code}
use Prim.Native.String
use attestation_layer.Prelude.{
  ℕ, zero, suc, String, Bool, true, false, not, ◌&&◌, ◌||◌, Option, none, some, List, [], ◌∷◌, map,
  filter, ◌++◌, any, length, mem, dedupe, sorted, sorted_set, concat, num_eq, if◌then◌else◌,
  is_empty,
}

pub record SourceModule : Type 0 where
  pub module_id : String
  pub symbols : List String

pub record Edge : Type 0 where
  pub caller : String
  pub callee : String

-- `name.split(":", 1)[0]`
unfoldable pub module_of : String → String
module_of String.[] = ""
module_of (String.◌∷◌ c s) =
    let rest = module_of s in if num_eq (code c) 58 then "" else String.◌∷◌ c rest

abbrev pub caller_module : Edge → String
caller_module e = module_of e.caller

abbrev pub callee_module : Edge → String
callee_module e = module_of e.callee

-- the set comprehension `direct_modules`
abbrev pub direct_modules : List SourceModule → List String → List String
direct_modules modules symbols = dedupe (
    map (λ m. SourceModule.module_id m)
      (filter (λ m. any (λ s. mem s (SourceModule.symbols m)) symbols) modules))

-- One run of the `for` loop: the set, and the flag `changed`.
pub pass : List Edge → List String → List String × Bool
pass [] affected = (affected, false)
pass (e ∷ es) affected =
    let hit = mem (caller_module e) affected && not (mem (callee_module e) affected) in
    let (b, changed) = pass es (if hit then callee_module e ∷ affected else affected) in
    (b, hit || changed)

-- the `while changed` loop on fuel; `none` means that the fuel ran out
pub saturate : ℕ → List Edge → List String → Option (List String)
saturate zero edges affected = none
saturate (suc fuel) edges affected =
    let (b, changed) = pass edges affected in
    elim changed [ true ↦ saturate fuel edges b | false ↦ some b ]

pub record ImpactArtifact : Type 0 where
  pub adapter_id : String
  pub language : String
  pub input_symbols : List String
  pub affected_modules : List String
  pub call_graph_edges : List Edge

-- `analyze_source_impact`; each run that changes the set reaches one more callee, so one run more
-- than there are edges is enough.
unfoldable pub analyze_source_impact :
    String → String → List SourceModule → List Edge → List String → Option ImpactArtifact
unfolding saturate pass module_of dedupe sorted sorted_set
analyze_source_impact adapter language modules edges symbols =
    elim (saturate (suc (length edges)) edges (direct_modules modules symbols)) [
      | none ↦ none
      | some affected ↦ some (record {
        adapter_id = adapter;
        language = language;
        input_symbols = sorted symbols;
        affected_modules = sorted affected;
        call_graph_edges = edges;
      })
    ]

pub data FlagCategory : Type 0 where
  call_graph_only semantic_only : FlagCategory

pub data FlagSeverity : Type 0 where
  review info : FlagSeverity

pub record ImpactFlag : Type 0 where
  pub severity : FlagSeverity
  pub category : FlagCategory
  pub module_id : String
  pub message : String

pub data EstimateSource : Type 0 where
  llm manual no_estimate : EstimateSource

pub record CrossValidation : Type 0 where
  pub adapter_id : String
  pub language : String
  pub input_symbols : List String
  pub affected_modules : List String
  pub call_graph_modules : List String
  pub semantic_modules : List String
  pub agreed_modules : List String
  pub call_graph_only_modules : List String
  pub semantic_only_modules : List String
  pub flags : List ImpactFlag
  pub semantic_estimate_source : EstimateSource
  pub disagreement : Bool

abbrev flag_message : FlagCategory → String
flag_message call_graph_only = concat (
    "call-graph reachability flagged this module but the semantic estimate omitted "
    ∷ "it; review whether the requirement truly impacts it" ∷ [])
flag_message semantic_only = concat (
    "the semantic estimate named this module but call-graph reachability did not "
    ∷ "reach it; it is NOT in the gateable affected set until evidenced" ∷ [])

abbrev flag : FlagCategory → String → ImpactFlag
flag c m = record { severity = review; category = c; module_id = m; message = flag_message c }

-- `a & b` and `a - b` on sets
abbrev intersection : List String → List String → List String
intersection a b = filter (λ x. mem x b) (dedupe a)

abbrev minus : List String → List String → List String
minus a b = filter (λ x. not (mem x b)) (dedupe a)

-- `cross_validate_impact`
pub cross_validate_impact : ImpactArtifact → List String → EstimateSource → CrossValidation
cross_validate_impact artifact estimate source =
    let graph = artifact.affected_modules in
    let graph_only = minus graph estimate in
    let estimate_only = minus estimate graph in
    record {
      adapter_id = artifact.adapter_id;
      language = artifact.language;
      input_symbols = artifact.input_symbols;
      affected_modules = sorted_set graph;
      call_graph_modules = sorted_set graph;
      semantic_modules = sorted_set estimate;
      agreed_modules = sorted (intersection graph estimate);
      call_graph_only_modules = sorted graph_only;
      semantic_only_modules = sorted estimate_only;
      flags =
          map (flag call_graph_only) (sorted graph_only)
          ++ map (flag semantic_only) (sorted estimate_only);
      semantic_estimate_source = source;
      disagreement = not (is_empty graph_only) || not (is_empty estimate_only);
    }
