-- ===== src/Tests/Changes.antt =====
-- impact.py, review_workflow.py, spec_drift.py and numeric_literal.py on concrete inputs.
use attestation_layer.Prelude.{
  String, ◌≡◌, ◌↔◌, refl, Bool, true, false, Option, none, some, List, [], ◌∷◌, Memᴰ, ok,
}
use attestation_layer.Impact.{
  SourceModule, Edge, ImpactArtifact, analyze_source_impact, direct_modules,
}
use attestation_layer.Impact.Closure.{Reaches, analyze_source_impact-iff-Reaches}
use attestation_layer.Review.{
  ReviewerRole, ArtifactReviewRef, Verdict, ReviewState, ApprovalWorkflowArtifact, open_review,
  hashes_of, list_or, default_roles, default_checklist, review_status, ApproveRequest,
  approved_with, approve_review, failing_checklist_items,
}
use attestation_layer.Review.Laws.{IsApproved, review_status-approved_iff-IsApproved}
use attestation_layer.Review.Approval.{IsReplaced, approve_review-replaces, approve_review-opened}
use attestation_layer.Drift.{
  CodeSpecManifestEntry, Freshness, SpecDriftStatus, SystemSpecEntry, SpecFreshness, Formalism,
  SpecReview, build_spec_drift_report, mark_stale_specs,
}
use attestation_layer.Drift.Direct.{IsCurrent}
use attestation_layer.Drift.Laws.{
  build_spec_drift_report-fresh_iff, build_spec_drift_report-passed_iff,
}
use attestation_layer.Drift.Marking.{mark_stale_specs-IsCurrent}
use attestation_layer.Bounds.{Bound, numeric_bounds_conflict}
use attestation_layer.Bounds.Order.{Ratio, ratios}
use attestation_layer.Bounds.Interval.{MeetsAll, numeric_bounds_conflict_iff}

-- Two modules that call each other, the first declaring the symbol `pay`.
abbrev modules : List SourceModule
modules =
    (record { module_id = "wallet"; symbols = "pay" ∷ [] })
    ∷ (record { module_id = "ledger"; symbols = "post" ∷ [] })
    ∷ []

abbrev calls : List Edge
calls =
    (record { caller = "wallet:pay"; callee = "ledger:post" })
    ∷ (record { caller = "ledger:post"; callee = "wallet:pay" })
    ∷ []

analyze_source_impact-iff-Reaches_example :
    (art : ImpactArtifact) × (analyze_source_impact "py" "python" modules calls ("pay" ∷ [])
      ≡ some art)
    × (art.call_graph_edges ≡ calls)
    × ((m : String)
        → Memᴰ m art.affected_modules ↔ Reaches calls (direct_modules modules ("pay" ∷ [])) m)
analyze_source_impact-iff-Reaches_example =
    analyze_source_impact-iff-Reaches "py" "python" modules calls ("pay" ∷ [])

abbrev artifact : ImpactArtifact
artifact = record {
  adapter_id = "py";
  language = "python";
  input_symbols = "pay" ∷ [];
  affected_modules = "ledger" ∷ "wallet" ∷ [];
  call_graph_edges = calls;
}

abbrev refs : List ArtifactReviewRef
refs = (record { name = "ir"; path = "requirement.ir.json"; content_hash = "sha256:1" }) ∷ []

abbrev approval : ApproveRequest
approval = record {
  role = ReviewerRole.requirement_reviewer;
  reviewer = "ada";
  decision = Verdict.approve;
  approved_at = "2026-01-01";
  current_artifact_refs = none;
  checklist = some default_checklist;
  self_audit = false;
  self_audit_delay_hours = none;
}

abbrev workflow : ApprovalWorkflowArtifact
workflow = open_review "review" "REQ-1" refs

review_status-approved_iff-IsApproved_example :
    ((review_status workflow none none).status ≡ ReviewState.approved)
    ↔ IsApproved
        (hashes_of (list_or none workflow.artifact_refs))
        workflow.approvals
        (list_or none default_roles)
review_status-approved_iff-IsApproved_example =
    review_status-approved_iff-IsApproved workflow none none

approve_review-replaces_example : IsReplaced workflow approval (approved_with workflow approval)
unfolding approve_review
approve_review-replaces_example =
    approve_review-replaces workflow approval (approved_with workflow approval) refl

approve_review-opened_example :
    (w' : ApprovalWorkflowArtifact) × (approve_review workflow approval ≡ ok w')
    × (w'.status ≡ ReviewState.approved)
unfolding failing_checklist_items
approve_review-opened_example =
    approve_review-opened "review" "REQ-1" "ada" "2026-01-01" refs default_checklist refl

-- `app` names `lib` as a dependency, and the source of `lib` has changed.
abbrev hash_at : String → Option String
hash_at path = some "sha256:2"

abbrev app : CodeSpecManifestEntry
app = record {
  module_id = "app";
  source_paths = "app.py" ∷ [];
  spec_ids = "spec-app" ∷ [];
  dependency_module_ids = "lib" ∷ [];
  recorded_source_hashes = ("app.py", "sha256:2") ∷ [];
}

abbrev lib : CodeSpecManifestEntry
lib = record {
  module_id = "lib";
  source_paths = "lib.py" ∷ [];
  spec_ids = "spec-lib" ∷ [];
  dependency_module_ids = [];
  recorded_source_hashes = ("lib.py", "sha256:1") ∷ [];
}

abbrev manifest : List CodeSpecManifestEntry
manifest = app ∷ lib ∷ []

build_spec_drift_report-fresh_iff_example :
    (s : SpecDriftStatus) × Memᴰ s (build_spec_drift_report hash_at manifest).statuses
    × (s.module_id ≡ app.module_id)
    × ((s.status ≡ Freshness.fresh) ↔ (
        IsCurrent hash_at app
        × ((d : CodeSpecManifestEntry)
            → Memᴰ d manifest
            → Memᴰ d.module_id app.dependency_module_ids
            → IsCurrent hash_at d)))
build_spec_drift_report-fresh_iff_example =
    build_spec_drift_report-fresh_iff hash_at manifest app (Memᴰ.head refl)

build_spec_drift_report-passed_iff_example :
    ((build_spec_drift_report hash_at manifest).passed ≡ true)
    ↔ ((e : CodeSpecManifestEntry) → Memᴰ e manifest → IsCurrent hash_at e)
build_spec_drift_report-passed_iff_example = build_spec_drift_report-passed_iff hash_at manifest

abbrev steady : List CodeSpecManifestEntry
steady =
    (record {
      module_id = "app";
      source_paths = "app.py" ∷ [];
      spec_ids = "spec-app" ∷ [];
      dependency_module_ids = [];
      recorded_source_hashes = ("app.py", "sha256:2") ∷ [];
    })
    ∷ []

abbrev spec : SystemSpecEntry
spec = record {
  spec_id = "spec-app";
  module_ids = "app" ∷ [];
  formalism = Formalism.tla;
  path = "App.tla";
  version = "1";
  review_status = SpecReview.reviewed;
  freshness = SpecFreshness.spec_fresh;
  recorded_hash = none;
  init_op = none;
  next_op = none;
  invariants = [];
  metadata = [];
}

mark_stale_specs-IsCurrent_example :
    Memᴰ spec (spec ∷ [])
    × ((e : CodeSpecManifestEntry)
        → Memᴰ e steady
        → Memᴰ spec.spec_id e.spec_ids
        → IsCurrent hash_at e
          × ((d : CodeSpecManifestEntry)
              → Memᴰ d steady
              → Memᴰ d.module_id e.dependency_module_ids
              → IsCurrent hash_at d))
unfolding mark_stale_specs build_spec_drift_report
mark_stale_specs-IsCurrent_example =
    mark_stale_specs-IsCurrent hash_at steady (spec ∷ []) spec (Memᴰ.head refl) refl

-- At least 1/2 and less than 2/1.
abbrev half : Bound Ratio
half = ((1, 1), true)

abbrev two : Bound Ratio
two = ((2, 0), false)

numeric_bounds_conflict_iff_example :
    (b : Bool) × (numeric_bounds_conflict ratios (half ∷ []) (two ∷ []) ≡ some b)
    × ((b ≡ false) ↔ ((x : Ratio) × MeetsAll ratios (half ∷ []) (two ∷ []) x))
numeric_bounds_conflict_iff_example = numeric_bounds_conflict_iff ratios half two [] []
