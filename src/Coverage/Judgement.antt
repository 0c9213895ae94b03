-- ===== src/Coverage/Judgement.antt =====
-- What the judgement of one module in coverage_alignment.py gives.
use attestation_layer.Prelude.{
  String, ◌≡◌, ◌≢◌, ◌↔◌, inl, inr, refl, sym, subst, true, false, Option, none, some, Bool-cases,
}
use attestation_layer.Coverage.Records.{
  ReviewStatus, CoverageLevel, Freshness, CodeSpecCoverageManifestEntryV2,
  CoverageGateModuleStatusV2, Floats,
}
use attestation_layer.Coverage.{
  is_stale, judge_level, judge_review, coverage_status_for_module, allows,
}

module _ {F : Type 0} (floats : Floats F) (threshold : F) where
  abbrev Entry : Type 0
  Entry = CodeSpecCoverageManifestEntryV2 F

  abbrev Status : Type 0
  Status = CoverageGateModuleStatusV2 F

  -- An entry that is reviewed, not stale, full, and not below the threshold.
  pub record IsCovered (e : Entry) : Type 0 where
    reviewed : e.review_status ≡ ReviewStatus.reviewed
    current : e.freshness ≢ Freshness.stale
    full : e.coverage_level ≡ CoverageLevel.full
    enough : floats.below e.coverage_ratio threshold ≡ false

  level_allows :
      (m : String) (e : Entry) (l : CoverageLevel)
      → (allows floats (judge_level floats threshold m e l) ≡ true)
        ↔ ((l ≡ CoverageLevel.full) × (floats.below e.coverage_ratio threshold ≡ false))
  level_allows m e CoverageLevel.full =
      elim (Bool-cases (floats.below e.coverage_ratio threshold)) [
        | inl h ↦ rw h (λ k. cc, λ k. cc)
        | inr h ↦ rw h (λ k. (refl, refl), λ k. refl)
      ]
  level_allows m e CoverageLevel.partial = (λ h. cc, λ h. cc)
  level_allows m e CoverageLevel.none_level = (λ h. cc, λ h. cc)
  level_allows m e CoverageLevel.unsupported = (λ h. cc, λ h. cc)

  stale_iff : (f : Freshness) → (is_stale f ≡ false) ↔ (f ≢ Freshness.stale)
  stale_iff Freshness.fresh = (λ h e. cc, λ h. refl)
  stale_iff Freshness.unknown = (λ h e. cc, λ h. refl)
  stale_iff Freshness.stale = (λ h. cc, λ h. elim (h refl) [ ])

  review_allows :
      (m : String) (e : Entry) (r : ReviewStatus)
      → (allows floats (judge_review floats threshold m e r) ≡ true) ↔ (
          (r ≡ ReviewStatus.reviewed)
          × (is_stale e.freshness ≡ false)
          × (e.coverage_level ≡ CoverageLevel.full)
          × (floats.below e.coverage_ratio threshold ≡ false))
  review_allows m e ReviewStatus.reviewed = elim (Bool-cases (is_stale e.freshness)) [
    | inl h ↦ rw h (λ k. cc, λ k. cc)
    | inr h ↦ rw h (
      λ k. (
        refl,
        refl,
        ((level_allows m e e.coverage_level).0 k).0,
        ((level_allows m e e.coverage_level).0 k).1,
      ),
      λ k. (level_allows m e e.coverage_level).1 (k.2, k.3),
    )
  ]
  review_allows m e ReviewStatus.candidate = (λ h. cc, λ h. cc)
  review_allows m e ReviewStatus.draft = (λ h. cc, λ h. cc)
  review_allows m e ReviewStatus.rejected = (λ h. cc, λ h. cc)
  review_allows m e ReviewStatus.missing = (λ h. cc, λ h. cc)

  pub status_allows :
      (m : String) (o : Option Entry)
      → (allows floats (coverage_status_for_module floats threshold m o) ≡ true)
        ↔ ((e : Entry) × (o ≡ some e) × IsCovered e)
  unfolding coverage_status_for_module
  status_allows m none = (λ h. cc, λ h. cc)
  status_allows m (some e) = (
    λ h.
        let r = (review_allows m e e.review_status).0 h in
        (
          e,
          refl,
          record {
            reviewed = r.0;
            current = (stale_iff e.freshness).0 r.1;
            full = r.2;
            enough = r.3;
          },
        ),
    λ h.
        subst (λ o. allows floats (coverage_status_for_module floats threshold m o) ≡ true)
          (sym h.1)
          ((review_allows m h.0 h.0.review_status).1
            (h.2.reviewed, (stale_iff h.0.freshness).1 h.2.current, h.2.full, h.2.enough)),
  )

  -- A status keeps the module and, where there is an entry, its dependencies.
  abbrev Keeps : String → Entry → Status → Type 0
  Keeps m e s = (s.module_id ≡ m) × (s.dependency_module_ids ≡ e.dependency_module_ids)

  judge_level-Keeps :
      (m : String) (e : Entry) (l : CoverageLevel) → Keeps m e (judge_level floats threshold m e l)
  judge_level-Keeps m e CoverageLevel.full =
      elim (Bool-cases (floats.below e.coverage_ratio threshold)) [
        | inl h ↦ rw h (refl, refl)
        | inr h ↦ rw h (refl, refl)
      ]
  judge_level-Keeps m e CoverageLevel.partial = (refl, refl)
  judge_level-Keeps m e CoverageLevel.none_level = (refl, refl)
  judge_level-Keeps m e CoverageLevel.unsupported = (refl, refl)

  judge_review-Keeps :
      (m : String) (e : Entry) (r : ReviewStatus) → Keeps m e (judge_review floats threshold m e r)
  judge_review-Keeps m e ReviewStatus.reviewed = elim (Bool-cases (is_stale e.freshness)) [
    | inl h ↦ rw h (refl, refl)
    | inr h ↦ rw h (judge_level-Keeps m e e.coverage_level)
  ]
  judge_review-Keeps m e ReviewStatus.candidate = (refl, refl)
  judge_review-Keeps m e ReviewStatus.draft = (refl, refl)
  judge_review-Keeps m e ReviewStatus.rejected = (refl, refl)
  judge_review-Keeps m e ReviewStatus.missing = (refl, refl)

  pub status_module :
      (m : String) (o : Option Entry)
      → (coverage_status_for_module floats threshold m o).module_id ≡ m
  unfolding coverage_status_for_module
  status_module m none = refl
  status_module m (some e) = (judge_review-Keeps m e e.review_status).0

  pub status_dependencies :
      (m : String) (o : Option Entry) (e : Entry)
      → o ≡ some e
      → (coverage_status_for_module floats threshold m o).dependency_module_ids
        ≡ e.dependency_module_ids
  unfolding coverage_status_for_module
  status_dependencies m o e q = rw q (judge_review-Keeps m e e.review_status).1
