-- ===== src/Models/Backing.antt =====
-- models.py: the tests on a result's `details` that back a high-assurance evidence level.
use attestation_layer.Prelude.{
  String, Bool, true, false, ◌&&◌, not, Option, none, some, ◌==◌, if◌then◌else◌, is_some,
}
use attestation_layer.Models.Json.{Value, Items, Fields, get, all_items, any_item}
use attestation_layer.Models.Formats.{is_blank, is_content_hash}

-- `isinstance(v, str)` and its text
abbrev pub text_of : Value → Option String
text_of (Value.str s) = some s
text_of _ = none

-- `_is_checked_proof_hash`
pub is_checked_proof_hash : Value → Bool
is_checked_proof_hash (Value.str s) = is_content_hash s
is_checked_proof_hash _ = false

is_checked_proof : Value → Bool
unfolding is_checked_proof_hash
is_checked_proof (Value.obj d) =
    elim (text_of (get "kind" d)) [ none ↦ false | some k ↦ k == "checked_proof" ]
    && is_checked_proof_hash (get "sha256" d)
is_checked_proof _ = false

has_checked_item : Value → Bool
unfolding is_checked_proof
has_checked_item (Value.arr xs) = any_item is_checked_proof xs
has_checked_item _ = false

-- `_has_proof_artifact`
pub has_proof_artifact : Fields → Bool
unfolding has_checked_item
has_proof_artifact d =
    if is_checked_proof_hash (get "proof_artifact_sha256" d)
    then true
    else has_checked_item (get "proof_artifacts" d)

-- `_is_nonempty_str`
pub is_nonempty_str : Value → Bool
is_nonempty_str (Value.str s) = not (is_blank s)
is_nonempty_str _ = false

-- `_has_proof_assistant_identity`
pub has_proof_assistant_identity : Fields → Bool
unfolding is_nonempty_str
has_proof_assistant_identity d = is_nonempty_str (get "proof_assistant" d)

-- a non-empty list or text
pub is_command : Value → Bool
is_command (Value.str s) = not (s == "")
is_command (Value.arr Items.nil) = false
is_command (Value.arr (Items.item v vs)) = true
is_command _ = false

-- `_has_proof_check_command`, and `_has_command_metadata`, which has the same body
pub has_command : Fields → Bool
unfolding is_command
has_command d = is_command (get "command" d)

-- a dict with at least one entry
pub is_nonempty_dict : Value → Bool
is_nonempty_dict (Value.obj Fields.done) = false
is_nonempty_dict (Value.obj (Fields.field k v d)) = true
is_nonempty_dict _ = false

-- `_has_recorded_bounds`
pub has_recorded_bounds : Fields → Bool
unfolding is_nonempty_dict
has_recorded_bounds d = is_nonempty_dict (get "bounds" d)

-- the value as a version, where it is a text other than the empty one
pub version : Value → Option String
version (Value.str s) = if s == "" then none else some s
version _ = none

nested_version : Value → Option String
unfolding version
nested_version (Value.obj d) = version (get "tool_version" d)
nested_version _ = none

-- `_recorded_tool_version`
pub recorded_tool_version : Fields → Option String
unfolding version nested_version
recorded_tool_version d = elim (version (get "tool_version" d)) [
  | some v ↦ some v
  | none ↦ nested_version (get "reproducibility" d)
]

-- `bounded_evidence_backing_complete`
unfoldable pub bounded_evidence_backing_complete : Fields → Bool
bounded_evidence_backing_complete d =
    has_recorded_bounds d && has_command d && is_some (recorded_tool_version d)

all_nonempty : Value → Bool
unfolding is_nonempty_str
all_nonempty (Value.arr xs) = all_items is_nonempty_str xs
all_nonempty _ = false

is_mapping : Value → Bool
unfolding is_nonempty_str is_nonempty_dict all_nonempty
is_mapping (Value.obj m) =
    if not (is_nonempty_str (get "validator_id" m))
    then false
    else if not (is_nonempty_str (get "requirement_id" m))
    then false
    else if not (is_nonempty_str (get "trace_hash" m))
    then false
    else if not (is_nonempty_str (get "trace_source_hash" m))
    then false
    else if not (all_nonempty (get "observed_event_ids" m))
    then false
    else is_nonempty_dict (get "fragment" m)
is_mapping _ = false

-- `_has_trace_mapping`
pub has_trace_mapping : Fields → Bool
unfolding is_mapping
has_trace_mapping d = is_mapping (get "trace_mapping" d)
