-- ===== src/Closure/Producers.antt =====
-- proof_closure.py: the registered evidence producers and the levels that each may emit.
use attestation_layer.Prelude.{
  String, Bool, true, false, Option, none, some, List, [], ◌∷◌, map, Dict, lookup, dict_of, any,
  length, dedupe, num_eq, not, if◌then◌else◌,
}
use attestation_layer.Models.Evidence.{EvidenceLevel, same_level}

pub data ProducerKind : Type 0 where
  formal_backend model_checker proof_assistant smt_solver system_checker : ProducerKind
  trace_validator test_runner review coverage_checker formal_boundary other : ProducerKind

pub record EvidenceProducer : Type 0 where
  pub producer_id : String
  pub producer_kind : ProducerKind
  pub real_producer : Bool
  pub allowed_evidence_levels : List EvidenceLevel
  pub tool : String
  pub tool_version : Option String
  pub command : Option String
  pub reproducibility : Dict String

abbrev pub ProducerMapping : Type 0
ProducerMapping = List EvidenceProducer

-- `EvidenceProducerMapping.validate_unique_producers`
pub check_unique_producers : ProducerMapping → Option ProducerMapping
check_unique_producers ps =
    let ids = map (λ p. EvidenceProducer.producer_id p) ps in
    if not (num_eq (length ids) (length (dedupe ids))) then none else some ps

-- `_producer_by_id(mapping).get(backend)`
unfoldable pub producer_by_id : String → ProducerMapping → Option EvidenceProducer
unfolding dict_of
producer_by_id b ps = lookup b (dict_of (map (λ p. (EvidenceProducer.producer_id p, p)) ps))

-- `level in producer.allowed_evidence_levels`
unfoldable pub allows : EvidenceProducer → EvidenceLevel → Bool
unfolding same_level
allows p l = any (same_level l) p.allowed_evidence_levels

-- `level in HIGH_ASSURANCE_LEVELS`
abbrev pub is_high_assurance : EvidenceLevel → Bool
is_high_assurance EvidenceLevel.bounded_checked = true
is_high_assurance EvidenceLevel.proven_inductive = true
is_high_assurance _ = false

-- a real producer, with its tool and version
abbrev real : String → ProducerKind → List EvidenceLevel → String → Option String → EvidenceProducer
real id kind levels tool version = record {
  producer_id = id;
  producer_kind = kind;
  real_producer = true;
  allowed_evidence_levels = levels;
  tool = tool;
  tool_version = version;
  command = none;
  reproducibility = [];
}

abbrev one : EvidenceLevel → List EvidenceLevel
one l = l ∷ []

-- `default_evidence_producer_mapping`
unfoldable pub default_producers : ProducerMapping
default_producers =
    real "system_checker" system_checker (one EvidenceLevel.consistency_checked)
      "nlreq.system_checker" (some "0.1")
    ∷ real "solver_system_checker" system_checker
        (EvidenceLevel.smt_checked ∷ EvidenceLevel.bounded_checked ∷ [])
        "nlreq.system_checker.check_solver_backed_system_consistency" (some "0.1")
    ∷ real "core_smt" smt_solver (one EvidenceLevel.smt_checked) "nlreq.smt" (some "0.1")
    ∷ real "smt-theories" smt_solver (one EvidenceLevel.smt_checked) "nlreq.formal_claim_smt"
        (some "0.1")
    ∷ real "cvc5" smt_solver (one EvidenceLevel.smt_checked) "cvc5" none
    ∷ real "tla" model_checker (one EvidenceLevel.bounded_checked) "nlreq.tla_adapter" (some "0.1")
    ∷ real "tla-runner" model_checker (one EvidenceLevel.bounded_checked)
        "nlreq.formal_backend.TlaRunnerBackend" (some "0.1")
    ∷ real "apalache" model_checker (one EvidenceLevel.bounded_checked)
        "nlreq.formal_backend.ApalacheBackend" (some "0.1")
    ∷ real "tlc" model_checker (one EvidenceLevel.bounded_checked)
        "nlreq.formal_backend.TlcProductionBackend" (some "0.1")
    ∷ real "tlaps" proof_assistant (one EvidenceLevel.proven_inductive) "tlapm" none
    ∷ (record {
      producer_id = "tla-boundary";
      producer_kind = formal_boundary;
      real_producer = false;
      allowed_evidence_levels = [];
      tool = "nlreq.formal_backend.TlaBoundaryBackend";
      tool_version = some "0.1";
      command = none;
      reproducibility = [];
    })
    ∷ real "trace_validation" trace_validator (one EvidenceLevel.trace_validated)
        "nlreq.trace_validation" (some "0.1")
    ∷ real "command" test_runner (one EvidenceLevel.test_validated) "nlreq.command_adapter"
        (some "0.1")
    ∷ real "human_review" review (one EvidenceLevel.reviewed) "human_review" none
    ∷ real "coverage_alignment" coverage_checker [] "nlreq.coverage_alignment" (some "0.1")
    ∷ []
