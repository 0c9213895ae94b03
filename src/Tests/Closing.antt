-- ===== src/Tests/Closing.antt =====
-- proof_closure.py on one requirement with one premise and one obligation.
use attestation_layer.Prelude.{String, ◌≡◌, ◌≢◌, ◌↔◌, refl, true, none, some, List, [], ◌∷◌, Memᴰ}
use attestation_layer.Models.Evidence.{EvidenceLevel}
use attestation_layer.Models.Json.{Fields, has_key}
use attestation_layer.Models.Backing.{bounded_evidence_backing_complete}
use attestation_layer.Models.Result.{BackendStatus, BackendResult}
use attestation_layer.Models.Semantic.{
  NodeInfo, Node, Slot, Operand, Nodes, RequirementIr, premise_of, obligation_of, check_root,
}
use attestation_layer.Closure.Producers.{default_producers}
use attestation_layer.Closure.Plan.{Role, RoutingMode, Route, kind_route, build_proof_dispatch_plan}
use attestation_layer.Closure.Plan.Laws.{
  IsSoleLevel, build_proof_dispatch_plan-IsSoleLevel, build_proof_dispatch_plan-routes,
  AreConjuncts, AreRouted,
}
use attestation_layer.Closure.Premise.{bounded_backing_problems, evaluate_premise, raises}
use attestation_layer.Closure.Premise.Laws.{
  Discharges, bounded_backing_problems_iff, evaluate_premise-Discharges,
}
use attestation_layer.Closure.Proof.{
  Report, ReportResult, ProofStatus, Digests, ProofObject, Evidence, mapping_of, assemble,
  build_proof_object, evaluate_closure_gate,
}
use attestation_layer.Closure.Proof.Gate.{Closes}
use attestation_layer.Closure.Proof.Verdict.{
  build_proof_object-ne-opened, evaluate_closure_gate-iff-Closes, evaluate_closure_gate-Discharges,
}

abbrev info : String → String → NodeInfo
info id kind = record {
  node_id = id;
  kind = kind;
  name = some "balance_ok";
  target = none;
  args = [];
  value = none;
  temporal_bound = none;
  metadata = Fields.done;
}

abbrev leaf : String → Node
leaf id =
    Node.node (info id "predicate") Slot.absent Slot.absent Slot.absent Slot.absent
      Operand.no_operand Operand.no_operand Nodes.no_nodes Nodes.no_nodes

abbrev requirement : RequirementIr
requirement = record {
  requirement_id = "REQ-1";
  title = "t";
  source = record { original_text = none; controlled_text = "t"; controlled_text_approval = none };
  bindings = [];
  assumptions = [];
  required_evidence = [];
  semantic_ir =
      Node.node (info "root" "rule") (Slot.present (leaf "p")) (Slot.present (leaf "o")) Slot.absent
        Slot.absent Operand.no_operand Operand.no_operand Nodes.no_nodes Nodes.no_nodes;
}

build_proof_dispatch_plan-IsSoleLevel_example :
    IsSoleLevel
      (kind_route requirement (Role.premise, leaf "p")).backend_id
      (kind_route requirement (Role.premise, leaf "p")).required_evidence
unfolding build_proof_dispatch_plan
build_proof_dispatch_plan-IsSoleLevel_example =
    build_proof_dispatch_plan-IsSoleLevel requirement "policy"
      (kind_route requirement (Role.premise, leaf "p")) (Memᴰ.head refl)

abbrev pair_of : Node → Node → Node
pair_of x y =
    Node.node (info "both" "and") Slot.absent Slot.absent Slot.absent Slot.absent Operand.no_operand
      Operand.no_operand (Nodes.node_and x (Nodes.node_and y Nodes.no_nodes)) Nodes.no_nodes

-- A premise of two conjuncts.
abbrev two_premises : RequirementIr
two_premises = record requirement {
  semantic_ir =
      Node.node (info "root" "rule") (Slot.present (pair_of (leaf "p") (leaf "q")))
        (Slot.present (leaf "o")) Slot.absent Slot.absent Operand.no_operand Operand.no_operand
        Nodes.no_nodes Nodes.no_nodes;
}

build_proof_dispatch_plan-routes_example :
    (p : Node) × (o : Node) × (ns : List Node) × (premise_of two_premises.semantic_ir
      ≡ Slot.present p)
    × (obligation_of two_premises.semantic_ir ≡ Slot.present o)
    × AreConjuncts p ns
    × AreRouted two_premises ns o (build_proof_dispatch_plan two_premises "policy").routes
unfolding check_root
build_proof_dispatch_plan-routes_example =
    build_proof_dispatch_plan-routes two_premises "policy" refl

abbrev checked : BackendResult
checked = record {
  backend = "core_smt";
  status = BackendStatus.valid;
  evidence_level = some EvidenceLevel.smt_checked;
  details = Fields.done;
}

bounded_backing_problems_iff_example : (bounded_backing_problems checked ≡ []) ↔ (
    (checked.evidence_level ≡ some EvidenceLevel.bounded_checked)
    → bounded_evidence_backing_complete checked.details ≡ true)
bounded_backing_problems_iff_example = bounded_backing_problems_iff checked

abbrev route : Route
route = record {
  premise_id = "REQ-1:premise:p";
  node_id = "p";
  node_kind = "predicate";
  role = Role.premise;
  backend_id = "core_smt";
  required_evidence = EvidenceLevel.smt_checked;
  reason = "solver";
  routing_mode = RoutingMode.semantic_node;
}

evaluate_premise-Discharges_example : Discharges route (checked ∷ []) default_producers
unfolding evaluate_premise default_producers has_key
evaluate_premise-Discharges_example =
    evaluate_premise-Discharges route (checked ∷ []) default_producers refl

abbrev digests : Digests
digests = record {
  requirement = λ r. "sha256:r";
  dispatch = λ p. "sha256:d";
  producers = λ m. "sha256:m";
  results = λ rs. "sha256:b";
}

abbrev passing : Report
passing = record { result = ReportResult.passed; digest = "sha256:p" }

abbrev given : Evidence
given = record {
  results = checked ∷ [];
  coverage = some passing;
  alignment = some passing;
  agreement = none;
  producer_mapping = none;
  dispatch = some (record { policy_id = "policy"; routes = route ∷ [] });
}

abbrev proof : ProofObject
proof = assemble digests requirement given

build_proof_object-ne-opened_example : proof.status ≢ ProofStatus.opened
unfolding build_proof_object has_key raises
build_proof_object-ne-opened_example =
    build_proof_object-ne-opened digests requirement given proof refl

evaluate_closure_gate-iff-Closes_example :
    ((evaluate_closure_gate proof "merge").result ≡ ReportResult.passed) ↔ Closes requirement given
unfolding build_proof_object has_key raises
evaluate_closure_gate-iff-Closes_example =
    evaluate_closure_gate-iff-Closes digests requirement given proof "merge" refl

evaluate_closure_gate-Discharges_example : Discharges route given.results (mapping_of given)
unfolding build_proof_object evaluate_closure_gate evaluate_premise default_producers has_key raises
evaluate_closure_gate-Discharges_example =
    evaluate_closure_gate-Discharges digests requirement given proof "merge" refl refl route
      (Memᴰ.head refl)
