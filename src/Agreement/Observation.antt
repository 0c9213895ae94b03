-- ===== src/Agreement/Observation.antt =====
-- backend_agreement.py: what an observation records of a result.
use attestation_layer.Prelude.{
  String, Bool, ◌==◌, Option, none, some, List, [], ◌∷◌, mem, sorted, if◌then◌else◌,
}
use attestation_layer.Models.Evidence.{EvidenceLevel}
use attestation_layer.Models.Result.{BackendStatus, BackendResult}
use attestation_layer.Models.Json.{Value, Items, Fields, get, has_key}

-- `unsupported_constructs` and `counterexamples` hold dicts only.
pub record BackendAgreementObservation : Type 0 where
  pub backend : String
  pub result_hash : String
  pub status : BackendStatus
  pub evidence_level : Option EvidenceLevel
  pub overlap_key : Option String
  pub target : Option String
  pub bounds : Fields
  pub unsupported_constructs : Items
  pub counterexamples : Items

abbrev nonempty_text : Value → Option String
nonempty_text (Value.str s) = if s == "" then none else some s
nonempty_text _ = none

-- `_string_detail`
unfoldable pub string_detail : Fields → String → Option String
string_detail details key = nonempty_text (get key details)

-- `d[k] = v`
unfoldable pub set_field : String → Value → Fields → Fields
set_field k v Fields.done = Fields.field k v Fields.done
set_field k v (Fields.field j w d) =
    let rest = set_field k v d in if j == k then Fields.field j v d else Fields.field j w rest

-- `bounds.update(nested)`
unfoldable pub update : Fields → Fields → Fields
unfolding set_field
update bounds Fields.done = bounds
update bounds (Fields.field k v d) = update (set_field k v bounds) d

abbrev field_keys : Fields → List String
field_keys Fields.done = []
field_keys (Fields.field k v d) = k ∷ field_keys d

abbrev bound_keys : List String
bound_keys = "timeout_seconds" ∷ "max_states" ∷ "max_depth" ∷ "memory_budget_mb" ∷ []

-- `for key in keys: if ...: bounds[key] = source[key]`
unfoldable pub copy_keys : (String → Bool) → List String → Fields → Fields → Fields
unfolding set_field
copy_keys p [] source bounds = bounds
copy_keys p (key ∷ keys) source bounds =
    copy_keys p keys source (if p key then set_field key (get key source) bounds else bounds)

abbrev nested_bounds : Value → Fields
nested_bounds (Value.obj nested) = update Fields.done nested
nested_bounds _ = Fields.done

abbrev budget_bounds : Value → Fields → Fields
budget_bounds (Value.obj budget) bounds =
    copy_keys (λ k. mem k bound_keys) (sorted (field_keys budget)) budget bounds
budget_bounds _ bounds = bounds

-- `_bounds`
unfoldable pub bounds_of : Fields → Fields
unfolding update copy_keys
bounds_of details =
    copy_keys (λ k. has_key k details) bound_keys details
      (budget_bounds (get "budget" details) (nested_bounds (get "bounds" details)))

abbrev keep_dict : Value → Items → Items
keep_dict (Value.obj d) rest = Items.item (Value.obj d) rest
keep_dict _ rest = rest

unfoldable pub keep_dicts : Items → Items
keep_dicts Items.nil = Items.nil
keep_dicts (Items.item v vs) = keep_dict v (keep_dicts vs)

-- `_dict_list`
unfoldable pub dict_list : Value → Items
unfolding keep_dicts
dict_list (Value.arr xs) = keep_dicts xs
dict_list _ = Items.nil

abbrev of_trace : Value → Items
of_trace (Value.arr trace) =
    Items.item (Value.obj (Fields.field "trace" (Value.arr trace) Fields.done)) Items.nil
of_trace _ = Items.nil

abbrev of_single : Value → Value → Items
of_single (Value.obj single) trace = Items.item (Value.obj single) Items.nil
of_single _ trace = of_trace trace

abbrev of_explicit : Value → Value → Value → Items
of_explicit (Value.arr xs) single trace = dict_list (Value.arr xs)
of_explicit _ single trace = of_single single trace

-- `_counterexamples`
unfoldable pub counterexamples_of : Fields → Items
unfolding dict_list
counterexamples_of d =
    of_explicit (get "counterexamples" d) (get "counterexample" d) (get "counterexample_trace" d)

-- `a or b` on texts
unfoldable pub or_text : Option String → Option String → Option String
or_text none b = b
or_text (some s) b = if s == "" then b else some s

-- `_observation`, from the digest of the result
unfoldable pub observation :
    (BackendResult → String) → Option String → BackendResult → BackendAgreementObservation
unfolding string_detail bounds_of dict_list counterexamples_of or_text
observation hash override_overlap_key r = record {
  backend = r.backend;
  result_hash = hash r;
  status = r.status;
  evidence_level = r.evidence_level;
  overlap_key = or_text override_overlap_key (string_detail r.details "overlap_key");
  target = or_text (string_detail r.details "target") (string_detail r.details "formal_target");
  bounds = bounds_of r.details;
  unsupported_constructs = dict_list (get "unsupported_constructs" r.details);
  counterexamples = counterexamples_of r.details;
}
