-- ===== src/Closure/Proof/Verdict.antt =====
-- The status of a proof object and the verdict of the closure gate.
use attestation_layer.Prelude.{
  String, ◌≡◌, ◌≢◌, ◌↔◌, Bool, true, false, some, List, [], ◌∷◌, ◌++◌, Memᴰ, arith, refl, sym, ◌∙◌,
  ◌&&◌, subst, ap, all, is_empty, is_empty-eq-nil, if◌then◌else◌,
}
use attestation_layer.Models.Result.{BackendResult}
use attestation_layer.Models.Semantic.{RequirementIr}
use attestation_layer.Closure.Plan.{Route}
use attestation_layer.Closure.Premise.{ProofPremise, Blocker}
use attestation_layer.Closure.Premise.Laws.{Discharges, evaluate_premise-Discharges}
use attestation_layer.Closure.Proof.{
  ReportResult, ProofStatus, ProofObject, Evidence, Digests, mapping_of, plan_of, all_blockers,
  judge_all, status_of, assemble, build_proof_object, evaluate_closure_gate, is_done, is_closed,
}
use attestation_layer.Closure.Proof.Gate.{Closes, IsDone, all_blockers_nil}
use attestation_layer.Closure.Producers.{ProducerMapping}

all_done :
    (routes : List Route) (results : List BackendResult) (mapping : ProducerMapping)
    → ((route : Route) → Memᴰ route routes → IsDone results mapping route)
    → all is_done (judge_all routes results mapping).0 ≡ true
unfolding judge_all
all_done [] results mapping h = refl
all_done (x ∷ xs) results mapping h =
    ground (arith, h x (Memᴰ.head refl), all_done xs results mapping (λ y m. h y (Memᴰ.tail m)))

built :
    (d : Digests) (r : RequirementIr) (e : Evidence) {proof : ProofObject}
    → build_proof_object d r e ≡ some proof
    → assemble d r e ≡ proof
unfolding build_proof_object
built d r e h = ground arith

status_of_closed :
    (ps : List ProofPremise) → all is_done ps ≡ true → status_of [] ps ≡ ProofStatus.closed
unfolding status_of
status_of_closed ps h = rw h

status_of_blocked :
    (b : Blocker) (bs : List Blocker) (ps : List ProofPremise)
    → status_of (b ∷ bs) ps ≡ ProofStatus.blocked
unfolding status_of
status_of_blocked b bs ps = refl

-- The status is `closed` without blockers and `blocked` with them.
assembled_status :
    (d : Digests) (r : RequirementIr) (e : Evidence)
    → (assemble d r e).status
      ≡ (if is_empty (all_blockers r e) then ProofStatus.closed else ProofStatus.blocked)
unfolding assemble
assembled_status d r e = go (all_blockers r e) refl
  where
    go :
        (bs : List Blocker)
        → all_blockers r e ≡ bs
        → status_of bs (judge_all (plan_of r e).routes e.results (mapping_of e)).0
          ≡ (if is_empty bs then ProofStatus.closed else ProofStatus.blocked)
    go [] q = status_of_closed _ (all_done _ _ _ ((all_blockers_nil r e).0 q).discharges)
    go (b ∷ bs) q = status_of_blocked b bs _

assembled_blockers :
    (d : Digests) (r : RequirementIr) (e : Evidence) → (assemble d r e).blockers ≡ all_blockers r e
unfolding assemble
assembled_blockers d r e = refl

blocked_or_closed :
    (b : Bool) → (if b then ProofStatus.closed else ProofStatus.blocked) ≡ ProofStatus.opened → ⊥
blocked_or_closed true h = cc
blocked_or_closed false h = cc

-- The branch `open` of the proof object's status is never taken.
pub build_proof_object-ne-opened :
    (d : Digests) (r : RequirementIr) (e : Evidence) (proof : ProofObject)
    → build_proof_object d r e ≡ some proof
    → proof.status ≢ ProofStatus.opened
build_proof_object-ne-opened d r e proof h s =
    blocked_or_closed (is_empty (all_blockers r e))
      (sym (assembled_status d r e) ∙ ap (λ x. ProofObject.status x) (built d r e h) ∙ s)

gate_list :
    (bs : List Blocker) (b : Bool) (x : Blocker)
    → is_empty (bs ++ (if b then [] else x ∷ [])) ≡ (is_empty bs && b)
gate_list [] true x = refl
gate_list [] false x = refl
gate_list (y ∷ ys) b x = refl

gate_passes :
    (proof : ProofObject) (action : String)
    → ((evaluate_closure_gate proof action).result ≡ ReportResult.passed)
      ↔ ((is_empty proof.blockers ≡ true) × (is_closed proof.status ≡ true))
unfolding evaluate_closure_gate
gate_passes proof action = rw gate_list (λ h. ground arith, λ h. ground arith)

assembled_passes :
    (d : Digests) (r : RequirementIr) (e : Evidence) (action : String)
    → ((evaluate_closure_gate (assemble d r e) action).result ≡ ReportResult.passed) ↔ Closes r e
assembled_passes d r e action = (
  λ h. (all_blockers_nil r e).0 (
      is_empty-eq-nil (all_blockers r e)
        (rw (assembled_blockers d r e) at ((gate_passes (assemble d r e) action).0 h).0)),
  λ h. (gate_passes (assemble d r e) action).1 (
      let n = (all_blockers_nil r e).1 h in
      (rw (assembled_blockers d r e, n) refl, rw (assembled_status d r e, n) refl)),
)

-- The gate on a proof object passes exactly if the coverage and the alignment report passed, no
-- agreement report blocks, each result claims only what its registered producer may emit, and every
-- routed premise is discharged.
pub evaluate_closure_gate-iff-Closes :
    (d : Digests) (r : RequirementIr) (e : Evidence) (proof : ProofObject) (action : String)
    → build_proof_object d r e ≡ some proof
    → ((evaluate_closure_gate proof action).result ≡ ReportResult.passed) ↔ Closes r e
evaluate_closure_gate-iff-Closes d r e proof action h =
    subst (λ x. ((evaluate_closure_gate x action).result ≡ ReportResult.passed) ↔ Closes r e)
      (built d r e h) (assembled_passes d r e action)

-- Behind a passing gate, every route of the plan in force has a valid supplied result of its backend
-- at exactly its level, from a producer that may emit it.
pub evaluate_closure_gate-Discharges :
    (d : Digests) (r : RequirementIr) (e : Evidence) (proof : ProofObject) (action : String)
    → build_proof_object d r e ≡ some proof
    → (evaluate_closure_gate proof action).result ≡ ReportResult.passed
    → (route : Route) → Memᴰ route (plan_of r e).routes
    → Discharges route e.results (mapping_of e)
evaluate_closure_gate-Discharges d r e proof action h p route m =
    evaluate_premise-Discharges route e.results (mapping_of e)
      (((evaluate_closure_gate-iff-Closes d r e proof action h).0 p).discharges route m)
