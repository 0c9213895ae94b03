-- ===== src/Status.antt =====
-- status.py: the final status of a requirement, decided from its evidence and from who pinned its
-- meaning. The laws stand in `Status/Laws`.
pub mod Laws
use attestation_layer.Prelude.{
  String, Bool, true, false, not, ◌&&◌, ◌||◌, Option, none, some, List, [], ◌∷◌, ◌++◌, map, filter,
  is_empty, concat, join, lookup, mem, if◌then◌else◌,
}
use attestation_layer.Models.Pinning.{PinKind, PinningProvenance}
use attestation_layer.Models.Evidence.{
  EvidenceLevel, FinalStatus, SourceSpan, EvidenceClaim, EvidenceObject, StatusDecision, same_level,
}

-- A status as a consumer sees it: a member of the enum, a plain text, or another object.
pub data StatusView : Type 0 where
  member : FinalStatus → StatusView
  text : String → StatusView
  other : StatusView

-- `FinalStatus.X.value`
unfoldable pub value_of : FinalStatus → String
value_of FinalStatus.accepted_with_evidence = "ACCEPTED_WITH_EVIDENCE"
value_of FinalStatus.accepted_for_implementation_with_review =
    "ACCEPTED_FOR_IMPLEMENTATION_WITH_REVIEW"
value_of FinalStatus.machine_pinned_pending_review = "MACHINE_PINNED_PENDING_REVIEW"
value_of FinalStatus.refused_ambiguous = "REFUSED_AMBIGUOUS"
value_of FinalStatus.refused_unbound_symbols = "REFUSED_UNBOUND_SYMBOLS"
value_of FinalStatus.refused_unsupported_claim = "REFUSED_UNSUPPORTED_CLAIM"
value_of FinalStatus.refused_failed_check = "REFUSED_FAILED_CHECK"
value_of FinalStatus.refused_timeout = "REFUSED_TIMEOUT"
value_of FinalStatus.needs_spec_coverage = "NEEDS_SPEC_COVERAGE"

abbrev human_accepted_statuses : List String
human_accepted_statuses = "ACCEPTED_WITH_EVIDENCE" ∷ "ACCEPTED_FOR_IMPLEMENTATION_WITH_REVIEW" ∷ []

unfoldable pub is_human_accepted : StatusView → Bool
unfolding value_of
is_human_accepted (StatusView.member s) = mem (value_of s) human_accepted_statuses
is_human_accepted (StatusView.text s) = mem s human_accepted_statuses
is_human_accepted StatusView.other = false

-- `pinning is not None and pinning.kind == "machine_agreement"`
abbrev is_machine_kind : PinKind → Bool
is_machine_kind PinKind.machine_agreement = true
is_machine_kind PinKind.human_review = false

pub is_machine : Option PinningProvenance → Bool
is_machine none = false
is_machine (some p) = is_machine_kind p.kind

review_action : String
review_action = concat (
    "A human may review this machine-pinned rule to promote it to human_review (promotion is "
    ∷ "upward only; a human review never reverts to machine pinning)." ∷ [])

-- a refusal, with no span
abbrev refuse : FinalStatus → String → String → StatusDecision
refuse s r a = record { status = s; reason = r; next_actions = a ∷ []; source_span = none }

-- `spans.get(symbols[0])`, for a list that is not empty
abbrev span_of_first : List String → List (String × SourceSpan) → Option SourceSpan
span_of_first [] spans = none
span_of_first (x ∷ xs) spans = lookup x spans

-- `f"{head} {', '.join(xs)}."`
abbrev listing : String → List String → String
listing head xs = concat (head ∷ " " ∷ join ", " xs ∷ "." ∷ [])

-- the test of the comprehension `missing_evidence`
pub is_missing : EvidenceClaim → Bool
unfolding same_level
is_missing c = elim c.achieved_evidence [
  | none ↦ true
  | some l ↦ not (same_level l c.required_evidence)
]

pub missing_evidence : EvidenceObject → List String
missing_evidence e = map (λ c. EvidenceClaim.id c) (filter is_missing e.claims)

-- the list `actions` before the machine-pinned entry
gap_actions : List String → List String → List String
gap_actions missing reviews =
    (if is_empty missing then [] else listing "Provide required evidence for claims:" missing ∷ [])
    ++ (if is_empty reviews then [] else listing "Resolve pending reviews:" reviews ∷ [])

-- the branches behind the refusals
pub settle : Bool → List String → List String → StatusDecision
unfolding gap_actions review_action
settle machine_pinned missing reviews =
    if not (is_empty missing) || not (is_empty reviews)
    then if machine_pinned
      then record {
        status = FinalStatus.machine_pinned_pending_review;
        reason = concat (
            "Machine-pinned package has evidence or review gaps; machine pinning never "
            ∷ "substitutes for a deterministic proof level. Pending human review." ∷ []);
        next_actions = gap_actions missing reviews ++ review_action ∷ [];
        source_span = none;
      }
      else record {
        status = FinalStatus.accepted_for_implementation_with_review;
        reason = "Package is structurally usable but has evidence or review gaps.";
        next_actions = gap_actions missing reviews;
        source_span = none;
      }
    else if machine_pinned
    then record {
      status = FinalStatus.machine_pinned_pending_review;
      reason = concat (
          "All required evidence levels are satisfied and the controlled meaning was "
          ∷ "machine-pinned by a cross-provider ensemble; pending human review." ∷ []);
      next_actions = review_action ∷ [];
      source_span = none;
    }
    else record {
      status = FinalStatus.accepted_with_evidence;
      reason = "All required evidence levels are satisfied.";
      next_actions = [];
      source_span = none;
    }

unfoldable pub decide_status : EvidenceObject → Option PinningProvenance → StatusDecision
unfolding is_machine missing_evidence settle
decide_status e pinning =
    if e.ambiguous || not (is_empty e.ambiguous_symbols)
    then if not (is_empty e.ambiguous_symbols)
      then record {
        status = FinalStatus.refused_ambiguous;
        reason = listing "Ambiguous symbols:" e.ambiguous_symbols;
        next_actions =
            "Choose one binding for each ambiguous symbol or rewrite the requirement." ∷ [];
        source_span = span_of_first e.ambiguous_symbols e.ambiguous_symbol_spans;
      }
      else refuse FinalStatus.refused_ambiguous "Requirement is ambiguous."
          "Rewrite the controlled requirement to remove ambiguity."
    else if not (is_empty e.unbound_symbols)
    then record {
      status = FinalStatus.refused_unbound_symbols;
      reason = listing "Unbound symbols:" e.unbound_symbols;
      next_actions = "Add bindings for missing symbols or rewrite using approved vocabulary." ∷ [];
      source_span = span_of_first e.unbound_symbols e.unbound_symbol_spans;
    }
    else if not (is_empty e.unsupported_claims)
    then refuse FinalStatus.refused_unsupported_claim
        (listing "Unsupported claims:" e.unsupported_claims)
        "Rewrite using supported Phase 0 claim kinds."
    else if not (is_empty e.failed_checks)
    then refuse FinalStatus.refused_failed_check (listing "Failed checks:" e.failed_checks)
        "Inspect backend evidence and revise the requirement or assumptions."
    else if not (is_empty e.timeouts)
    then refuse FinalStatus.refused_timeout (listing "Timed out checks:" e.timeouts)
        "Reduce scope, increase budget, or lower required evidence."
    else if e.needs_coverage
    then refuse FinalStatus.needs_spec_coverage
        "Requirement touches a target with insufficient spec coverage."
        "Add or review spec coverage for the target."
    else settle (is_machine pinning) (missing_evidence e) e.pending_reviews
