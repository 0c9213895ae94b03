-- ===== src/Tests/Agreement.antt =====
-- Two solvers that answer one question with opposite verdicts.
use attestation_layer.Prelude.{String, ◌≡◌, refl, true, false, none, some, List, [], ◌∷◌, sorted}
use attestation_layer.Models.Evidence.{EvidenceLevel}
use attestation_layer.Models.Result.{BackendStatus, BackendResult}
use attestation_layer.Models.Json.{Value, Number, Items, Fields, get, has_key}
use attestation_layer.Agreement.Values.{same_value, same_number, keys_within}
use attestation_layer.Agreement.Observation.{bounds_of, counterexamples_of}
use attestation_layer.Agreement.Comparison.{BackendAgreementMode}
use attestation_layer.Agreement.{
  BackendAgreementPolicy, AgreementEffect, build_backend_agreement_report,
}

abbrev whole : Number → Value
whole n = Value.num n

abbrev six : Number
six = record { negative = false; numerator = 6; denominator_pred = 0 }

abbrev twelve_halves : Number
twelve_halves = record { negative = false; numerator = 12; denominator_pred = 1 }

-- Dicts are equal in any order, and 6 is 12/2.
same_value_any_order :
    same_value
      (Value.obj (Fields.field "a" (whole six) (Fields.field "b" Value.null Fields.done)))
      (Value.obj (Fields.field "b" Value.null (Fields.field "a" (whole twelve_halves) Fields.done)))
    ≡ true
unfolding same_value has_key get same_number keys_within
same_value_any_order = refl

-- The top level wins over the budget, and the budget over the nested bounds.
bounds_of_layers :
    bounds_of (
      Fields.field "max_depth" (whole six) (
        Fields.field "budget" (Value.obj (Fields.field "max_depth" Value.null Fields.done)) (
          Fields.field "bounds" (Value.obj (Fields.field "k" Value.null Fields.done)) Fields.done)))
    ≡ Fields.field "k" Value.null (Fields.field "max_depth" (whole six) Fields.done)
unfolding bounds_of has_key get sorted
bounds_of_layers = refl

counterexamples_of_trace :
    counterexamples_of (Fields.field "counterexample_trace" (Value.arr Items.nil) Fields.done)
    ≡ Items.item (Value.obj (Fields.field "trace" (Value.arr Items.nil) Fields.done)) Items.nil
unfolding counterexamples_of get
counterexamples_of_trace = refl

abbrev answer : String → BackendStatus → BackendResult
answer backend status = record {
  backend = backend;
  status = status;
  evidence_level = some EvidenceLevel.smt_checked;
  details = Fields.field "overlap_key" (Value.str "question") Fields.done;
}

abbrev answers : List BackendResult
answers = answer "z3" BackendStatus.valid ∷ answer "cvc5" BackendStatus.invalid ∷ []

abbrev hash : BackendResult → String
hash r = "sha256:r"

opposite_verdicts_block :
    (build_backend_agreement_report hash answers BackendAgreementPolicy.blocking none
      BackendAgreementMode.verdict).closure_effect
    ≡ AgreementEffect.block
unfolding build_backend_agreement_report get
opposite_verdicts_block = refl
