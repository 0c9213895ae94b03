-- ===== src/Closure/Plan/Laws.antt =====
-- Every kind-routed premise asks its backend for the one level which that backend may emit, and a
-- plan has one route for each conjunct of the premise and one for the obligation.
use attestation_layer.Prelude.{
  String, ◌≡◌, Bool, true, false, some, List, [], ◌∷◌, ◌++◌, map, refl, Memᴰ, if◌then◌else◌, subst,
  ◌≢◌, sym, ◌∙◌, concat, ◌==◌, eq_iff, Bool-cases, inl, inr, ◌⊎◌, arith,
}
use mathlib.Core.List.Memᴰ
use mathlib.Core.List.{cons≢nil, map-append, map-map}
use attestation_layer.Models.Semantic.Laws.{rule_slots}
use attestation_layer.Models.Evidence.{EvidenceLevel}
use attestation_layer.Models.Semantic.{
  Node, present, RequirementIr, info_of, premise_of, obligation_of, children_of, check_root,
}
use attestation_layer.Closure.Producers.{EvidenceProducer, producer_by_id, default_producers}
use attestation_layer.Closure.Plan.{
  Role, Route, backend_for, level_for_backend, required_evidence_for, conjuncts, or_root,
  proof_nodes, kind_route, premise_id_of, build_proof_dispatch_plan,
}

-- The backend is a real producer whose only level is the required one.
pub record IsSoleLevel (backend : String) (l : EvidenceLevel) : Type 0 where
  pub producer : EvidenceProducer
  pub registered : producer_by_id backend default_producers ≡ some producer
  pub is_real : producer.real_producer ≡ true
  pub sole : producer.allowed_evidence_levels ≡ l ∷ []

abbrev Sole : String → Type 0
Sole b = IsSoleLevel b (level_for_backend b)

Sole-core_smt : Sole "core_smt"
unfolding level_for_backend producer_by_id default_producers
Sole-core_smt = record { producer = _; registered = refl; is_real = refl; sole = refl }

Sole-smt_theories : Sole "smt-theories"
unfolding level_for_backend producer_by_id default_producers
Sole-smt_theories = record { producer = _; registered = refl; is_real = refl; sole = refl }

Sole-cvc5 : Sole "cvc5"
unfolding level_for_backend producer_by_id default_producers
Sole-cvc5 = record { producer = _; registered = refl; is_real = refl; sole = refl }

Sole-apalache : Sole "apalache"
unfolding level_for_backend producer_by_id default_producers
Sole-apalache = record { producer = _; registered = refl; is_real = refl; sole = refl }

Sole-trace_validation : Sole "trace_validation"
unfolding level_for_backend producer_by_id default_producers
Sole-trace_validation = record { producer = _; registered = refl; is_real = refl; sole = refl }

-- A property of both branches is one of the conditional.
if_both : {A : Type 0} (P : A → Type 0) (b : Bool) {x y : A} → P x → P y → P (if b then x else y)
if_both P true px py = px
if_both P false px py = py

backend_for-Sole : (role : Role) (kind : String) → Sole (backend_for role kind)
unfolding backend_for
backend_for-Sole role kind = if_both Sole _ Sole-smt_theories (
    if_both Sole _ Sole-cvc5
      (if_both Sole _ Sole-apalache (if_both Sole _ Sole-trace_validation Sole-core_smt)))

kind_route-IsSoleLevel :
    (r : RequirementIr) (n : Role × Node)
    → IsSoleLevel (kind_route r n).backend_id (kind_route r n).required_evidence
unfolding kind_route required_evidence_for
kind_route-IsSoleLevel r (role, n) = backend_for-Sole role (info_of n).kind

-- Every route of the kind-routed plan names a real producer of the default catalog, and requires the
-- one level which that producer may emit.
pub build_proof_dispatch_plan-IsSoleLevel :
    (r : RequirementIr) (policy : String) (route : Route)
    → Memᴰ route (build_proof_dispatch_plan r policy).routes
    → IsSoleLevel route.backend_id route.required_evidence
unfolding build_proof_dispatch_plan
build_proof_dispatch_plan-IsSoleLevel r policy route m =
    let (n, _, e) = Memᴰ.of_map (kind_route r) (proof_nodes r.semantic_ir) m in
    subst (λ x. IsSoleLevel (Route.backend_id x) (Route.required_evidence x)) e
      (kind_route-IsSoleLevel r n)

-- The conjuncts of a premise: the children of an `and` that has any, else the premise itself.
pub data AreConjuncts (p : Node) : List Node → Type 0 where
  split : (info_of p).kind ≡ "and" → children_of p ≢ [] → AreConjuncts p (children_of p)
  plain : (info_of p).kind ≢ "and" → AreConjuncts p (p ∷ [])
  childless : children_of p ≡ [] → AreConjuncts p (p ∷ [])

-- A route is on a node: it has the node's id and kind, the role, and an id made of the three.
pub record IsRouteOf (r : RequirementIr) (role : Role) (text : String) (n : Node) (x : Route)
    : Type 0 where
  pub node_id : x.node_id ≡ (info_of n).node_id
  pub node_kind : x.node_kind ≡ (info_of n).kind
  pub same_role : x.role ≡ role
  pub premise_id :
      x.premise_id ≡ concat (r.requirement_id ∷ ":" ∷ text ∷ ":" ∷ (info_of n).node_id ∷ [])

-- The routes are on the conjuncts, one on each and in their order, and a last one on the obligation.
abbrev pub AreRouted : RequirementIr → List Node → Node → List Route → Type 0
AreRouted r ns o [] = ⊥
AreRouted r [] o (x ∷ xs) = IsRouteOf r Role.obligation "obligation" o x × (xs ≡ [])
AreRouted r (n ∷ ns) o (x ∷ xs) = IsRouteOf r Role.premise "premise" n x × AreRouted r ns o xs

conjuncts-AreConjuncts : (p : Node) → AreConjuncts p (conjuncts p)
conjuncts-AreConjuncts p = go (Bool-cases ((info_of p).kind == "and")) (children_of p) refl
  where
    go :
        (((info_of p).kind == "and") ≡ true) ⊎ (((info_of p).kind == "and") ≡ false)
        → (ns : List Node) → children_of p ≡ ns
        → AreConjuncts p (conjuncts p)
    go (inr e) ns q = rw e (plain (ground (arith, e, eq_iff (info_of p).kind "and")))
    go (inl e) [] q = rw (e, q) (childless q)
    go (inl e) (m ∷ ms) q =
        let all_of : conjuncts p ≡ children_of p = rw (e, q) refl in
        subst (AreConjuncts p) (sym all_of) (split ((eq_iff _ _).0 e) (λ z. cons≢nil (sym q ∙ z)))

or_root-append :
    (root : Node) (ns : List (Role × Node)) (n : Role × Node)
    → or_root root (ns ++ n ∷ []) ≡ ns ++ n ∷ []
unfolding or_root
or_root-append root [] n = refl
or_root-append root (m ∷ ms) n = refl

nodes_of_slots :
    (root p o : Node)
    → premise_of root ≡ present p
    → obligation_of root ≡ present o
    → proof_nodes root ≡ map (λ n. (Role.premise, n)) (conjuncts p) ++ (Role.obligation, o) ∷ []
unfolding proof_nodes
nodes_of_slots root p o ep eo = rw (ep, eo) (or_root-append root _ _)

kind_route-IsRouteOf :
    (r : RequirementIr) (n : Node)
    → IsRouteOf r Role.premise "premise" n (kind_route r (Role.premise, n))
      × IsRouteOf r Role.obligation "obligation" n (kind_route r (Role.obligation, n))
unfolding kind_route premise_id_of
kind_route-IsRouteOf r n = (
  record { node_id = refl; node_kind = refl; same_role = refl; premise_id = refl },
  record { node_id = refl; node_kind = refl; same_role = refl; premise_id = refl },
)

routes-AreRouted :
    (r : RequirementIr) (ns : List Node) (o : Node)
    → AreRouted r ns o
        (map (λ n. kind_route r (Role.premise, n)) ns ++ kind_route r (Role.obligation, o) ∷ [])
routes-AreRouted r [] o = ((kind_route-IsRouteOf r o).1, refl)
routes-AreRouted r (n ∷ ns) o = ((kind_route-IsRouteOf r n).0, routes-AreRouted r ns o)

-- In the plan of a constructed requirement every conjunct of its premise, which are the children of
-- an `and` that has any and else the premise itself, has its own route, in their order, and after
-- these the obligation has one. Each has the id and kind of its node, and the premise id is made of
-- the requirement, the role and the node.
pub build_proof_dispatch_plan-routes :
    (r : RequirementIr) (policy : String)
    → check_root r ≡ some r
    → (p : Node) × (o : Node) × (ns : List Node) × (premise_of r.semantic_ir ≡ present p)
      × (obligation_of r.semantic_ir ≡ present o)
      × AreConjuncts p ns
      × AreRouted r ns o (build_proof_dispatch_plan r policy).routes
unfolding build_proof_dispatch_plan
build_proof_dispatch_plan-routes r policy h =
    let (p, o, ep, eo) = rule_slots r h in
    let same : map (kind_route r) (proof_nodes r.semantic_ir)
        ≡ map (λ n. kind_route r (Role.premise, n)) (conjuncts p)
          ++ kind_route r (Role.obligation, o) ∷ [] =
      rw (nodes_of_slots r.semantic_ir p o ep eo, map-append) (rw map-map) in
    (
      p,
      o,
      conjuncts p,
      ep,
      eo,
      conjuncts-AreConjuncts p,
      subst (AreRouted r (conjuncts p) o) (sym same) (routes-AreRouted r (conjuncts p) o),
    )
