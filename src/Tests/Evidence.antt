-- ===== src/Tests/Evidence.antt =====
-- status.py and the guards of models.py on concrete inputs.
use attestation_layer.Prelude.{
  String, ◌≡◌, ◌↔◌, refl, true, false, none, some, List, [], ◌∷◌, ok, dedupe,
}
use attestation_layer.Models.Evidence.{EvidenceLevel, FinalStatus, EvidenceObject}
use attestation_layer.Models.Json.{Fields, Value}
use attestation_layer.Models.Formats.{is_content_hash}
use attestation_layer.Models.Result.{BackendStatus, BackendResult, check_backing}
use attestation_layer.Models.Result.Guard.{Backs, check_backing_iff}
use attestation_layer.Models.Pinning.{
  EnsembleEvidence, check_ensemble, PinKind, PinningProvenance, check_pinning,
}
use attestation_layer.Models.Pinning.Laws.{
  IsCrossProvider, IsBacked, check_ensemble-IsCrossProvider, check_pinning-iff-IsBacked,
}
use attestation_layer.Status.{member, is_human_accepted, is_machine, decide_status}
use attestation_layer.Status.Laws.{
  IsClean, IsSatisfied, is_refused, decide_status-accepts_iff, decide_status-with_evidence_iff,
  decide_status-refused,
}

abbrev evidence_with : List String → EvidenceObject
evidence_with timeouts = record {
  requirement_id = "REQ-1";
  claims =
      (record {
        id = "c";
        description = "the claim";
        required_evidence = EvidenceLevel.smt_checked;
        achieved_evidence = some EvidenceLevel.smt_checked;
      })
      ∷ [];
  ambiguous = false;
  ambiguous_symbols = [];
  ambiguous_symbol_spans = [];
  unbound_symbols = [];
  unbound_symbol_spans = [];
  unsupported_claims = [];
  failed_checks = [];
  timeouts = timeouts;
  needs_coverage = false;
  pending_reviews = [];
}

abbrev evidence : EvidenceObject
evidence = evidence_with []

abbrev timed_out : EvidenceObject
timed_out = evidence_with ("tlc" ∷ [])

abbrev digest : String
digest = "sha256:0123456789abcdef0123456789abcdef0123456789abcdef0123456789abcdef"

abbrev ensemble : EnsembleEvidence
ensemble = record {
  members =
      (record { member_id = "a"; resolved_model_id = "m1"; provider_family = "f" })
      ∷ (record { member_id = "b"; resolved_model_id = "m2"; provider_family = "g" })
      ∷ [];
  agreement = record { agreed = true; agreement_hash = digest };
  audit_verdicts =
      (record { member_id = "a"; passed = true; detail = none })
      ∷ (record { member_id = "b"; passed = true; detail = none })
      ∷ [];
  policy_hash = digest;
}

abbrev pinning : PinningProvenance
pinning = record {
  kind = PinKind.machine_agreement;
  review_event = none;
  ensemble = some ensemble;
  timestamp = "2026-01-01";
}

decide_status-accepts_iff_example :
    (is_human_accepted (member (decide_status evidence (some pinning)).status) ≡ true)
    ↔ (IsClean evidence × (is_machine (some pinning) ≡ false))
decide_status-accepts_iff_example = decide_status-accepts_iff evidence (some pinning)

decide_status-with_evidence_iff_example :
    ((decide_status evidence none).status ≡ FinalStatus.accepted_with_evidence)
    ↔ (IsClean evidence × IsSatisfied evidence × (is_machine none ≡ false))
decide_status-with_evidence_iff_example = decide_status-with_evidence_iff evidence none

timed_out-not-IsClean : ¬ IsClean timed_out
timed_out-not-IsClean c = cc (IsClean.none_timed_out c)

decide_status-refused_example :
    (is_refused (decide_status timed_out none).status ≡ true)
    × (decide_status timed_out none ≡ decide_status timed_out (some pinning))
decide_status-refused_example =
    decide_status-refused timed_out none (some pinning) timed_out-not-IsClean

abbrev bounded : BackendResult
bounded = record {
  backend = "tlc";
  status = BackendStatus.valid;
  evidence_level = some EvidenceLevel.bounded_checked;
  details = Fields.field "command" (Value.str "tlc Spec.tla") Fields.done;
}

check_backing_iff_example :
    (check_backing bounded ≡ ok bounded)
    ↔ Backs bounded.evidence_level bounded.status bounded.details
check_backing_iff_example = check_backing_iff bounded

check_ensemble-IsCrossProvider_example : IsCrossProvider ensemble
unfolding check_ensemble is_content_hash dedupe
check_ensemble-IsCrossProvider_example = check_ensemble-IsCrossProvider ensemble refl

check_pinning-iff-IsBacked_example : (check_pinning pinning ≡ ok pinning) ↔ IsBacked pinning
check_pinning-iff-IsBacked_example = check_pinning-iff-IsBacked pinning
