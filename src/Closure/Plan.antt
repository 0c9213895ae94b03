-- ===== src/Closure/Plan.antt =====
-- proof_closure.py: which backend each premise of a requirement is routed to, and at which level.
pub mod Laws
use attestation_layer.Prelude.{
  String, Bool, true, false, Option, none, some, List, [], ◌∷◌, ◌++◌, map, mem, is_empty, not, ◌&&◌,
  ◌==◌, concat, if◌then◌else◌,
}
use attestation_layer.Models.Evidence.{EvidenceLevel}
use attestation_layer.Models.Semantic.{
  Node, Slot, absent, present, RequirementIr, info_of, premise_of, obligation_of, children_of,
}

pub data Role : Type 0 where
  premise obligation : Role

pub data RoutingMode : Type 0 where
  formal_claim semantic_node : RoutingMode

pub record Route : Type 0 where
  pub premise_id : String
  pub node_id : String
  pub node_kind : String
  pub role : Role
  pub backend_id : String
  pub required_evidence : EvidenceLevel
  pub reason : String
  pub routing_mode : RoutingMode

pub record DispatchPlan : Type 0 where
  pub policy_id : String
  pub routes : List Route

smt_theory_kinds : List String
smt_theory_kinds =
    "comparison" ∷ "eq" ∷ "neq" ∷ "lt" ∷ "lte" ∷ "gt" ∷ "gte" ∷ "increase" ∷ "decrease" ∷ []

state_temporal_kinds : List String
state_temporal_kinds =
    "transition" ∷ "pre_state" ∷ "post_state" ∷ "invariant" ∷ "state_delta" ∷ "state_ref" ∷ "always"
    ∷ "eventually" ∷ "until" ∷ "before" ∷ "within" ∷ []

-- `backend_for_proof_node`; the role plays no part
pub backend_for : Role → String → String
backend_for role kind =
    if mem kind smt_theory_kinds
    then "smt-theories"
    else if mem kind ("membership" ∷ [])
    then "cvc5"
    else if mem kind state_temporal_kinds
    then "apalache"
    else if mem kind ("trace_ref" ∷ [])
    then "trace_validation"
    else "core_smt"

-- `_REQUIRED_EVIDENCE_FOR_BACKEND.get(backend, CONSISTENCY_CHECKED)`
pub level_for_backend : String → EvidenceLevel
level_for_backend b =
    if b == "core_smt"
    then EvidenceLevel.smt_checked
    else if b == "smt-theories"
    then EvidenceLevel.smt_checked
    else if b == "cvc5"
    then EvidenceLevel.smt_checked
    else if b == "apalache"
    then EvidenceLevel.bounded_checked
    else if b == "trace_validation"
    then EvidenceLevel.trace_validated
    else EvidenceLevel.consistency_checked

-- `required_evidence_for_proof_node`
pub required_evidence_for : Role → String → EvidenceLevel
unfolding level_for_backend
required_evidence_for role kind = level_for_backend (backend_for role kind)

-- the children of an `and` node that has any, else the node itself
abbrev pub conjuncts : Node → List Node
conjuncts n =
    if (info_of n).kind == "and" && not (is_empty (children_of n)) then children_of n else n ∷ []

abbrev premise_nodes : Slot → List (Role × Node)
premise_nodes absent = []
premise_nodes (present p) = map (λ n. (Role.premise, n)) (conjuncts p)

abbrev obligation_nodes : Slot → List (Role × Node)
obligation_nodes absent = []
obligation_nodes (present o) = (Role.obligation, o) ∷ []

or_root : Node → List (Role × Node) → List (Role × Node)
or_root root [] = (Role.obligation, root) ∷ []
or_root root (n ∷ ns) = n ∷ ns

-- `_proof_nodes`
pub proof_nodes : Node → List (Role × Node)
unfolding or_root
proof_nodes root =
    or_root root (premise_nodes (premise_of root) ++ obligation_nodes (obligation_of root))

abbrev role_text : Role → String
role_text Role.premise = "premise"
role_text Role.obligation = "obligation"

pub premise_id_of : RequirementIr → Role × Node → String
premise_id_of r (role, n) =
    concat (r.requirement_id ∷ ":" ∷ role_text role ∷ ":" ∷ (info_of n).node_id ∷ [])

-- one route of `build_proof_dispatch_plan`
pub kind_route : RequirementIr → Role × Node → Route
unfolding premise_id_of
kind_route r (role, n) = record {
  premise_id = premise_id_of r (role, n);
  node_id = (info_of n).node_id;
  node_kind = (info_of n).kind;
  role = role;
  backend_id = backend_for role (info_of n).kind;
  required_evidence = required_evidence_for role (info_of n).kind;
  reason = concat ("routed by fragment kind '" ∷ (info_of n).kind ∷ "'" ∷ []);
  routing_mode = semantic_node;
}

abbrev pub default_policy : String
default_policy = "default-system-consistency"

-- `build_proof_dispatch_plan`
unfoldable pub build_proof_dispatch_plan : RequirementIr → String → DispatchPlan
unfolding kind_route proof_nodes
build_proof_dispatch_plan r policy = record {
  policy_id = policy;
  routes = map (kind_route r) (proof_nodes r.semantic_ir);
}

-- one route of `build_single_backend_dispatch_plan`
pub single_route : String → EvidenceLevel → RequirementIr → Role × Node → Route
unfolding premise_id_of
single_route backend level r (role, n) = record {
  premise_id = premise_id_of r (role, n);
  node_id = (info_of n).node_id;
  node_kind = (info_of n).kind;
  role = role;
  backend_id = backend;
  required_evidence = level;
  reason = "single-backend route for compositional proof fragment";
  routing_mode = semantic_node;
}

-- `build_single_backend_dispatch_plan`
pub build_single_backend_dispatch_plan :
    RequirementIr → String → EvidenceLevel → String → DispatchPlan
unfolding single_route proof_nodes
build_single_backend_dispatch_plan r backend level policy = record {
  policy_id = policy;
  routes = map (single_route backend level r) (proof_nodes r.semantic_ir);
}

guard_nodes : Node → Slot → List (Role × Node)
unfolding proof_nodes
guard_nodes root absent = proof_nodes root
guard_nodes root (present o) = map (λ n. (Role.obligation, n)) (conjuncts o)

-- `cross_language_guard_nodes`
pub cross_language_guard_nodes : Node → List (Role × Node)
unfolding guard_nodes
cross_language_guard_nodes root = guard_nodes root (obligation_of root)

-- `node.name or node.node_id`
abbrev label : Node → String
label n = elim (info_of n).name [
  | none ↦ (info_of n).node_id
  | some s ↦ if s == "" then (info_of n).node_id else s
]

-- one route of `build_cross_language_dispatch_plan`
pub guard_route : String → EvidenceLevel → RequirementIr → Role × Node → Route
unfolding premise_id_of
guard_route backend level r (role, n) = record {
  premise_id = premise_id_of r (role, n);
  node_id = (info_of n).node_id;
  node_kind = (info_of n).kind;
  role = role;
  backend_id = backend;
  required_evidence = level;
  reason = concat ("per-language S ∧ R premise for guard '" ∷ label n ∷ "'" ∷ []);
  routing_mode = formal_claim;
}

-- `build_cross_language_dispatch_plan`
pub build_cross_language_dispatch_plan :
    RequirementIr → String → EvidenceLevel → String → DispatchPlan
unfolding guard_route cross_language_guard_nodes
build_cross_language_dispatch_plan r backend level policy = record {
  policy_id = policy;
  routes = map (guard_route backend level r) (cross_language_guard_nodes r.semantic_ir);
}
