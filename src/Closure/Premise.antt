-- ===== src/Closure/Premise.antt =====
-- proof_closure.py: `_evaluate_premise`, which judges one route against the backend results.
pub mod Records
pub mod Laws
pub use Records.*
use text.Mathlib.Text.{find?}
use attestation_layer.Prelude.{
  String, Bool, true, false, Option, none, some, List, [], ◌∷◌, ◌++◌, not, ◌&&◌, ◌||◌, ◌==◌, concat,
  join, if◌then◌else◌, filter, find, is_some, is_none, is_empty,
}
use attestation_layer.Models.Evidence.{EvidenceLevel, same_level}
use attestation_layer.Models.Json.{Value, Items, Fields, get, has_key, any_item}
use attestation_layer.Models.Backing.{
  has_recorded_bounds, has_command, recorded_tool_version, text_of,
}
use attestation_layer.Models.Result.{BackendStatus, BackendResult, is_valid, claims_level}
use attestation_layer.Closure.Producers.{
  EvidenceProducer, ProducerMapping, producer_by_id, allows, is_high_assurance,
}
use attestation_layer.Closure.Plan.{Role, Route, RoutingMode}

-- `bounded_backing_problems`
pub bounded_backing_problems : BackendResult → List String
unfolding claims_level
bounded_backing_problems r =
    if not (claims_level r.evidence_level EvidenceLevel.bounded_checked)
    then []
    else (if has_recorded_bounds r.details then [] else "recorded bounds are missing" ∷ [])
      ++ (if has_command r.details then [] else "command metadata is missing" ∷ [])
      ++ (if is_none (recorded_tool_version r.details) then "tool version is missing" ∷ [] else [])

is_text : String → Value → Bool
is_text s v = elim (text_of v) [ none ↦ false | some t ↦ t == s ]

-- `s in v`; a value that is no list, text or dict raises, see `raises`
pub is_in : String → Value → Bool
unfolding is_text
is_in s (Value.arr xs) = any_item (is_text s) xs
is_in s (Value.str t) = is_some (find? t s)
is_in s (Value.obj d) = has_key s d
is_in s _ = false

abbrev is_container : Value → Bool
is_container (Value.arr xs) = true
is_container (Value.str t) = true
is_container (Value.obj d) = true
is_container _ = false

abbrev covered_key : String
covered_key = "covered_fragment_ids"

-- The membership test of the comprehensions meets a value that is no container.
unfoldable pub raises : Route → BackendResult → Bool
raises route r =
    r.backend == route.backend_id
    && has_key covered_key r.details
    && not (is_container (get covered_key r.details))

-- `result.details["covered_fragment_ids"]` is there and names the premise.
pub declares : Route → BackendResult → Bool
unfolding is_in
declares route r =
    has_key covered_key r.details && is_in route.premise_id (get covered_key r.details)

covers : RoutingMode → Route → BackendResult → Bool
unfolding declares
covers RoutingMode.formal_claim route r = declares route r
covers RoutingMode.semantic_node route r =
    not (has_key covered_key r.details) || is_in route.premise_id (get covered_key r.details)

-- the condition of the comprehension `matching`
pub is_matching : Route → BackendResult → Bool
unfolding covers
is_matching route r = r.backend == route.backend_id && covers route.routing_mode route r

-- `_premise_from_route`
pub premise_from :
    Route
    → PremiseStatus
    → Option EvidenceLevel
    → Option String
    → Option BackendStatus
    → Option String
    → ProofPremise
premise_from route status achieved producer backend_status reason = record {
  premise_id = route.premise_id;
  node_id = route.node_id;
  node_kind = route.node_kind;
  role = route.role;
  required_evidence = route.required_evidence;
  routed_backend = route.backend_id;
  status = status;
  achieved_evidence = achieved;
  producer_id = producer;
  backend_status = backend_status;
  reason = reason;
}

-- The blockers come back beside the premise: the source appends them to the caller's list.
abbrev pub Judged : Type 0
Judged = ProofPremise × List Blocker

refused : Route → BackendResult → PremiseStatus → String → ProofPremise
refused route r status reason =
    premise_from route status r.evidence_level (some r.backend) (some r.status) (some reason)

real_producer_message : String
real_producer_message = "high-assurance evidence requires a real producer"

-- the last tests, once the producer is known
judge_producer : Route → BackendResult → EvidenceLevel → EvidenceProducer → Judged
judge_producer route r level producer =
    let backing = bounded_backing_problems r in
    if not (allows producer level)
    then (refused route r blocked "producer is not allowed to emit this evidence level", [])
    else if is_high_assurance level && not producer.real_producer
    then (
      refused route r blocked real_producer_message,
      (record {
        category = producer_mapping;
        message = real_producer_message;
        premise_id = none;
        backend = some r.backend;
        evidence_level = some level;
      })
          ∷ [],
    )
    else if not (is_empty backing)
    then (
      refused route r blocked
          (concat ("bounded evidence is not backed: " ∷ join "; " backing ∷ [])),
      [],
    )
    else (premise_from route discharged (some level) (some r.backend) (some r.status) none, [])

judge_registered : Route → BackendResult → EvidenceLevel → Option EvidenceProducer → Judged
judge_registered route r level none =
    (refused route r blocked "backend result producer is not registered", [])
judge_registered route r level (some producer) = judge_producer route r level producer

-- the tests on a valid result
judge_level : Route → BackendResult → ProducerMapping → Option EvidenceLevel → Judged
judge_level route r mapping none = (
  premise_from route opened none (some r.backend) (some r.status)
      (some "backend result did not declare an evidence level"),
  [],
)
judge_level route r mapping (some level) =
    if not (same_level level route.required_evidence)
    then (
      refused route r blocked (
          concat (
            "backend result evidence "
            ∷ level_text level
            ∷ " does not satisfy required "
            ∷ level_text route.required_evidence
            ∷ [])),
      [],
    )
    else judge_registered route r level (producer_by_id r.backend mapping)

abbrev open_or_blocked : BackendStatus → PremiseStatus
open_or_blocked BackendStatus.needs_review = opened
open_or_blocked _ = blocked

-- the tests on the chosen result
judge : Route → ProducerMapping → BackendResult → Judged
judge route mapping r =
    if not (is_valid r.status)
    then (
      refused route r (open_or_blocked r.status)
          (concat ("backend result status is " ∷ status_text r.status ∷ [])),
      [],
    )
    else judge_level route r mapping r.evidence_level

-- `next((item for item in matching if item.status == "valid"), matching[0])`, none of no result
pub choose : List BackendResult → Option BackendResult
choose [] = none
choose (r ∷ rs) = elim (find (λ x. is_valid (BackendResult.status x)) (r ∷ rs)) [
  | some v ↦ some v
  | none ↦ some r
]

judge_chosen : Route → ProducerMapping → Option BackendResult → Judged
judge_chosen route mapping none = (
  premise_from route opened none none none
      (some "no backend result was supplied for routed premise"),
  [],
)
judge_chosen route mapping (some r) = judge route mapping r

-- `_evaluate_premise`; the raise on `covered_fragment_ids` that is no container is put back by
-- `raises`, which `build_proof_object` asks first.
unfoldable pub evaluate_premise : Route → List BackendResult → ProducerMapping → Judged
unfolding judge_chosen judge judge_level judge_registered judge_producer is_matching choose refused
    premise_from allows same_level producer_by_id real_producer_message bounded_backing_problems
evaluate_premise route results mapping =
    judge_chosen route mapping (choose (filter (is_matching route) results))

abbrev pub is_discharged : PremiseStatus → Bool
is_discharged discharged = true
is_discharged _ = false
