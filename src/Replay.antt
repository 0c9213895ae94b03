-- ===== src/Replay.antt =====
-- trace_replay.py (the replay of a specification's expectations) and the classification of
-- trace_validation.py: do the traces of the code reproduce what a specification claims?
-- `str` of a JSON value is a parameter.
pub mod Witness
pub mod Alignment
use attestation_layer.Prelude.{
  String, Bool, true, false, not, ◌&&◌, ◌||◌, ◌==◌, Option, none, some, List, [], ◌∷◌, ◌++◌, map,
  filter, mem, is_empty, is_some, concat, codes, if◌then◌else◌,
}
use attestation_layer.Models.Json.{Value, Items, Fields, get, is_true}
use attestation_layer.Models.Formats.{after}

-- The fields of an event that the replay reads.
pub record TraceEvent : Type 0 where
  pub event_id : String
  pub action : String
  pub metadata : Fields

pub record NormalizedTrace : Type 0 where
  pub trace_id : String
  pub events : List TraceEvent

pub data ExpectationKind : Type 0 where
  event_emitted state_value_reached action_reverts action_never : ExpectationKind

pub record SpecTraceExpectation : Type 0 where
  pub expectation_id : String
  pub kind : ExpectationKind
  pub target : String
  pub value : Option String
  pub description : String

pub record SpecTraceContract : Type 0 where
  pub spec_id : String
  pub module_ids : List String
  pub expectations : List SpecTraceExpectation

pub data Outcome : Type 0 where
  satisfied violated no_coverage : Outcome

pub record SpecTraceObservation : Type 0 where
  pub expectation_id : String
  pub kind : ExpectationKind
  pub target : String
  pub outcome : Outcome
  pub expected : Fields
  pub actual : Fields
  pub matched_event_ids : List String
  pub reason : String

pub record SpecTraceReplayReport : Type 0 where
  pub spec_id : String
  pub trace_ids : List String
  pub observations : List SpecTraceObservation

-- `_matches_target`
unfoldable pub matches_target : String → String → Bool
unfolding after
matches_target action target =
    action == target || is_some (after (codes (concat (target ∷ "(" ∷ []))) (codes action))

-- `v is not None`
abbrev is_set : Value → Bool
is_set Value.null = false
is_set _ = true

-- a list of texts as a JSON value
abbrev texts : List String → Items
texts [] = Items.nil
texts (s ∷ ss) = Items.item (Value.str s) (texts ss)

abbrev text_or_null : Option String → Value
text_or_null none = Value.null
text_or_null (some s) = Value.str s

abbrev entry : String → Value → Fields
entry k v = Fields.field k v Fields.done

-- `_observation`
pub observation :
    SpecTraceExpectation → Outcome → List String → String → Fields → Fields → SpecTraceObservation
observation e outcome ids reason expected actual = record {
  expectation_id = e.expectation_id;
  kind = e.kind;
  target = e.target;
  outcome = outcome;
  expected = expected;
  actual = actual;
  matched_event_ids = ids;
  reason = reason;
}

abbrev ids_of : List TraceEvent → List String
ids_of events = map (λ e. TraceEvent.event_id e) events

-- `matched`, `reads` and `reverts`
abbrev pub matched_of : SpecTraceExpectation → List TraceEvent → List TraceEvent
matched_of e events = filter (λ ev. matches_target (TraceEvent.action ev) e.target) events

abbrev pub is_read : TraceEvent → Bool
is_read ev = is_set (get "decoded_output" ev.metadata)

abbrev pub is_reverted : TraceEvent → Bool
is_reverted ev = is_true (get "reverted" ev.metadata)

-- `value in texts`, where the value may be `None`
abbrev pub is_among : Option String → List String → Bool
is_among none ss = false
is_among (some v) ss = mem v ss

-- `[event for trace in traces.root for event in trace.events]`
pub pooled : List NormalizedTrace → List TraceEvent
pooled [] = []
pooled (t ∷ ts) = t.events ++ pooled ts

module _ (str_of : Value → String) where
  -- `str(event.metadata.get("decoded_output"))`
  abbrev pub read_value : TraceEvent → String
  read_value ev = str_of (get "decoded_output" ev.metadata)

  abbrev pub revert_reason : TraceEvent → String
  revert_reason ev = str_of (get "revert_reason" ev.metadata)

  pub replay_emitted : SpecTraceExpectation → List TraceEvent → SpecTraceObservation
  unfolding observation
  replay_emitted e matched =
      if not (is_empty matched)
      then observation e satisfied (ids_of matched) "event was emitted in the real traces"
          Fields.done Fields.done
      else observation e no_coverage [] "event was not observed in the real traces" Fields.done
          Fields.done

  pub replay_read : SpecTraceExpectation → List TraceEvent → SpecTraceObservation
  unfolding observation
  replay_read e matched =
      let reads = filter is_read matched in
      let observed = map read_value reads in
      let seen = entry "observed_values" (Value.arr (texts observed)) in
      let claim = entry "value" (text_or_null e.value) in
      if is_empty reads
      then observation e no_coverage [] "state read was never observed in the real traces"
          Fields.done seen
      else if is_among e.value observed
      then observation e satisfied
          (ids_of (filter (λ ev. is_among e.value (read_value ev ∷ [])) reads))
          "state read reached the spec's claimed value" claim seen
      else observation e violated (ids_of reads) "state read never reached the spec's claimed value"
          claim seen

  pub replay_reverts : SpecTraceExpectation → List TraceEvent → SpecTraceObservation
  unfolding observation
  replay_reverts e matched =
      let reverts = filter is_reverted matched in
      let reasons = map revert_reason reverts in
      let seen = entry "revert_reasons" (Value.arr (texts reasons)) in
      if is_empty matched
      then observation e no_coverage [] "action was never observed in the real traces" Fields.done
          Fields.done
      else if is_empty reverts
      then observation e violated (ids_of matched) "action was observed but never reverted"
          (entry "reverts" (Value.bool true)) (entry "reverted" (Value.bool false))
      else if is_some e.value && not (is_among e.value reasons)
      then observation e violated (ids_of reverts)
          "action reverted with a different reason than the spec claims"
          (entry "revert_reason" (text_or_null e.value)) seen
      else observation e satisfied (ids_of reverts) "action reverted as the spec claims" Fields.done
          seen

  pub replay_never : SpecTraceExpectation → List TraceEvent → SpecTraceObservation
  unfolding observation
  replay_never e matched =
      if not (is_empty matched)
      then observation e violated (ids_of matched)
          "forbidden action was observed in the real traces"
          (entry "forbidden" (Value.str e.target))
          (entry "observed_event_ids" (Value.arr (texts (ids_of matched))))
      else observation e satisfied [] "forbidden action was absent from the real traces" Fields.done
          Fields.done

  -- the `if` chain on the kind
  pub replay_kind : ExpectationKind → SpecTraceExpectation → List TraceEvent → SpecTraceObservation
  replay_kind event_emitted e matched = replay_emitted e matched
  replay_kind state_value_reached e matched = replay_read e matched
  replay_kind action_reverts e matched = replay_reverts e matched
  replay_kind action_never e matched = replay_never e matched

  -- `_replay_expectation`
  unfoldable pub replay_expectation : SpecTraceExpectation → List TraceEvent → SpecTraceObservation
  unfolding replay_kind replay_emitted replay_read replay_reverts replay_never
  replay_expectation e events = replay_kind e.kind e (matched_of e events)

  unfoldable pub replay_spec_against_traces :
      SpecTraceContract → List NormalizedTrace → SpecTraceReplayReport
  unfolding pooled
  replay_spec_against_traces contract traces = record {
    spec_id = contract.spec_id;
    trace_ids = map (λ t. NormalizedTrace.trace_id t) traces;
    observations = map (λ e. replay_expectation e (pooled traces)) contract.expectations;
  }
