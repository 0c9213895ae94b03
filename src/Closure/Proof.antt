-- ===== src/Closure/Proof.antt =====
-- proof_closure.py: the proof object that gathers the verdicts, and the gate that reads it.
pub mod Records
pub mod Accounts
pub mod Gate
pub mod Verdict
pub use Records.*
use attestation_layer.Prelude.{
  String, Bool, true, false, Option, none, some, List, [], ◌∷◌, ◌++◌, map, not, ◌&&◌, any, all,
  filter, is_empty, concat, if◌then◌else◌, or_else, Dict,
}
use attestation_layer.Models.Evidence.{EvidenceLevel}
use attestation_layer.Models.Result.{BackendResult}
use attestation_layer.Models.Semantic.{RequirementIr}
use attestation_layer.Closure.Producers.{
  EvidenceProducer, ProducerMapping, producer_by_id, allows, is_high_assurance, default_producers,
}
use attestation_layer.Closure.Plan.{Route, DispatchPlan, build_proof_dispatch_plan, default_policy}
use attestation_layer.Closure.Premise.{
  ProofPremise, Blocker, Category, Judged, evaluate_premise, bounded_backing_problems, raises,
  is_discharged,
}

abbrev plain : Category → String → Blocker
plain c m = record {
  category = c;
  message = m;
  premise_id = none;
  backend = none;
  evidence_level = none;
}

-- what `_coverage_result` and `_trace_alignment_result` return
abbrev result_as_context : ReportResult → ContextResult
result_as_context ReportResult.passed = ContextResult.passed
result_as_context ReportResult.blocked = ContextResult.blocked

abbrev context_result : Option Report → ContextResult
context_result none = ContextResult.missing
context_result (some report) = result_as_context report.result

abbrev pub is_passed : ReportResult → Bool
is_passed ReportResult.passed = true
is_passed ReportResult.blocked = false

-- what `_coverage_result` appends
coverage_blockers : Option Report → List Blocker
coverage_blockers none =
    plain Category.missing_context "spec coverage report is required for proof closure" ∷ []
coverage_blockers (some report) =
    if not (is_passed report.result)
    then plain Category.coverage "spec coverage report did not pass" ∷ []
    else []

-- what `_trace_alignment_result` appends
alignment_blockers : Option Report → List Blocker
alignment_blockers none =
    plain Category.missing_context "trace alignment report is required for proof closure" ∷ []
alignment_blockers (some report) =
    if not (is_passed report.result)
    then plain Category.trace_alignment "trace alignment report did not pass" ∷ []
    else []

abbrev pub is_block : ClosureEffect → Bool
is_block ClosureEffect.block = true
is_block _ = false

-- `messages or [default]`
abbrev messages_of : List String → List String
messages_of [] = "backend agreement report blocked closure" ∷ []
messages_of (m ∷ ms) = m ∷ ms

-- `_backend_agreement_result`
agreement_blockers : Option BackendAgreement → List Blocker
agreement_blockers none = []
agreement_blockers (some a) =
    if not (is_block a.closure_effect)
    then []
    else map (plain Category.backend_agreement) (messages_of a.blockers)

abbrev about : BackendResult → EvidenceLevel → String → Blocker
about r level m = record {
  category = Category.producer_mapping;
  message = m;
  premise_id = none;
  backend = some r.backend;
  evidence_level = some level;
}

registered_blockers : BackendResult → EvidenceLevel → Option EvidenceProducer → List Blocker
registered_blockers r level none = about r level "backend result producer is not registered" ∷ []
registered_blockers r level (some p) =
    (if not (allows p level)
      then about r level "producer is not allowed to emit this evidence level" ∷ []
      else [])
    ++ ((if is_high_assurance level && not p.real_producer
          then about r level "high-assurance evidence requires a real producer" ∷ []
          else [])
        ++ map (λ s. about r level (concat ("bounded evidence is not backed: " ∷ s ∷ [])))
            (bounded_backing_problems r))

level_blockers : ProducerMapping → BackendResult → Option EvidenceLevel → List Blocker
level_blockers mapping r none = []
level_blockers mapping r (some level) =
    registered_blockers r level (producer_by_id r.backend mapping)

-- `_producer_blockers`
pub producer_blockers : ProducerMapping → List BackendResult → List Blocker
producer_blockers mapping [] = []
producer_blockers mapping (r ∷ rs) =
    level_blockers mapping r r.evidence_level ++ producer_blockers mapping rs

-- the list of premises, and what judging them appended to the blockers
pub judge_all : List Route → List BackendResult → ProducerMapping → List ProofPremise × List Blocker
judge_all [] results mapping = ([], [])
judge_all (route ∷ rest) results mapping =
    let (p, bs) = evaluate_premise route results mapping in
    let (ps, cs) = judge_all rest results mapping in (p ∷ ps, bs ++ cs)

undischarged : ProofPremise → Blocker
undischarged p = record {
  category = Category.premise;
  message = or_else p.reason "premise is not discharged";
  premise_id = some p.premise_id;
  backend = some p.routed_backend;
  evidence_level = some p.required_evidence;
}

abbrev pub is_done : ProofPremise → Bool
is_done p = is_discharged p.status

-- one blocker for each premise that is not discharged
pub premise_blockers : List ProofPremise → List Blocker
premise_blockers ps = map undischarged (filter (λ p. not (is_done p)) ps)

pub status_of : List Blocker → List ProofPremise → ProofStatus
status_of blockers premises =
    if not (is_empty blockers)
    then ProofStatus.blocked
    else if all is_done premises
    then ProofStatus.closed
    else ProofStatus.opened

pub record Evidence : Type 0 where
  pub results : List BackendResult
  pub coverage : Option Report
  pub alignment : Option Report
  pub agreement : Option BackendAgreement
  pub producer_mapping : Option ProducerMapping
  pub dispatch : Option DispatchPlan

-- the mapping and the plan in force
abbrev pub mapping_of : Evidence → ProducerMapping
mapping_of e = or_else e.producer_mapping default_producers

abbrev pub plan_of : RequirementIr → Evidence → DispatchPlan
plan_of r e = or_else e.dispatch (build_proof_dispatch_plan r default_policy)

-- all blockers, in the order in which they are appended
pub all_blockers : RequirementIr → Evidence → List Blocker
all_blockers r e =
    let (premises, judged) = judge_all (plan_of r e).routes e.results (mapping_of e) in
    coverage_blockers e.coverage
    ++ (alignment_blockers e.alignment
        ++ (agreement_blockers e.agreement
            ++ (producer_blockers (mapping_of e) e.results
                ++ (judged ++ premise_blockers premises))))

-- `{key: f(x)}` where `x is not None`
abbrev optional {ℓ} : {A : Type ℓ} → String → (A → String) → Option A → Dict String
optional key f none = []
optional key f (some a) = (key, f a) ∷ []

pub input_hashes_of : Digests → RequirementIr → Evidence → Dict String
input_hashes_of d r e =
    ("requirement_ir", d.requirement r)
    ∷ ("dispatch", d.dispatch (plan_of r e))
    ∷ ("producer_mapping", d.producers (mapping_of e))
    ∷ ("backend_results", d.results e.results)
    ∷ (optional "spec_coverage" (λ x. Report.digest x) e.coverage
        ++ (optional "trace_alignment" (λ x. Report.digest x) e.alignment
            ++ optional "backend_agreement" (λ x. BackendAgreement.digest x) e.agreement))

unfoldable pub assemble : Digests → RequirementIr → Evidence → ProofObject
assemble d r e =
    let premises = (judge_all (plan_of r e).routes e.results (mapping_of e)).0 in
    let blockers = all_blockers r e in
    record {
      proof_id = concat ("proof:" ∷ r.requirement_id ∷ []);
      requirement_id = r.requirement_id;
      requirement_ir_hash = d.requirement r;
      status = status_of blockers premises;
      dispatch = plan_of r e;
      premises = premises;
      backend_results = e.results;
      backend_agreement = e.agreement;
      producer_mapping = mapping_of e;
      coverage_result = context_result e.coverage;
      trace_alignment_result = context_result e.alignment;
      blockers = blockers;
      input_hashes = input_hashes_of d r e;
    }

-- a membership test of some route raises `TypeError`
pub any_raises : RequirementIr → Evidence → Bool
any_raises r e = any (λ route. any (raises route) e.results) (plan_of r e).routes

-- `build_proof_object`; `none` where it raises
unfoldable pub build_proof_object : Digests → RequirementIr → Evidence → Option ProofObject
unfolding assemble all_blockers judge_all status_of coverage_blockers alignment_blockers
    agreement_blockers producer_blockers level_blockers registered_blockers premise_blockers
    undischarged input_hashes_of any_raises
build_proof_object d r e = if any_raises r e then none else some (assemble d r e)

pub record GateReport : Type 0 where
  pub result : ReportResult
  pub downstream_action : String
  pub proof_id : String
  pub requirement_id : String
  pub proof_status : ProofStatus
  pub blockers : List Blocker

abbrev is_closed : ProofStatus → Bool
is_closed ProofStatus.closed = true
is_closed _ = false

-- `evaluate_closure_gate`
unfoldable pub evaluate_closure_gate : ProofObject → String → GateReport
evaluate_closure_gate proof action =
    let blockers =
      proof.blockers
      ++ (if is_closed proof.status
          then []
          else plain Category.premise "downstream action requires a closed proof object" ∷ []) in
    record {
      result = if is_empty blockers then ReportResult.passed else ReportResult.blocked;
      downstream_action = action;
      proof_id = proof.proof_id;
      requirement_id = proof.requirement_id;
      proof_status = proof.status;
      blockers = blockers;
    }
