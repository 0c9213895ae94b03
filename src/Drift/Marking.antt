-- ===== src/Drift/Marking.antt =====
-- What is left fresh in the registry of system_spec.py once a drift report has marked it.
use mathlib.Core.Bool.{true≢false}
use attestation_layer.Prelude.{
  String, ◌≡◌, ◌∙◌, sym, ap, subst, false, Option, List, [], ◌∷◌, ◌++◌, Memᴰ, map, if◌then◌else◌,
  mem, mem_iff, Bool-cases, inl, inr, mem-map-intro, mem-map-source,
}
use attestation_layer.Drift.{
  CodeSpecManifestEntry, SpecDriftStatus, SpecDriftReport, direct_status, is_fresh, stale_modules,
  propagate, build_spec_drift_report, SystemSpecEntry, SpecFreshness, as_stale, stale_spec_ids,
  mark_stale_specs,
}
use attestation_layer.Drift.Direct.{IsCurrent, direct_status-keeps, propagate-is_fresh}
use attestation_layer.Drift.Laws.{propagated_iff}

mem-append-left : (xs ys : List String) (x : String) → Memᴰ x xs → Memᴰ x (xs ++ ys)
mem-append-left [] ys x m = elim m [ ]
mem-append-left (z ∷ zs) ys x (Memᴰ.head e) = Memᴰ.head e
mem-append-left (z ∷ zs) ys x (Memᴰ.tail m) = Memᴰ.tail (mem-append-left zs ys x m)

mem-append-right : (xs ys : List String) (x : String) → Memᴰ x ys → Memᴰ x (xs ++ ys)
mem-append-right [] ys x m = m
mem-append-right (z ∷ zs) ys x m = Memᴰ.tail (mem-append-right zs ys x m)

mem-stale_spec_ids :
    (ss : List SpecDriftStatus) (s : SpecDriftStatus) (n : String)
    → Memᴰ s ss
    → is_fresh s ≡ false
    → Memᴰ n s.spec_ids
    → Memᴰ n (stale_spec_ids ss)
unfolding stale_spec_ids
mem-stale_spec_ids [] s n m f i = elim m [ ]
mem-stale_spec_ids (t ∷ ts) s n (Memᴰ.head e) f i =
    rw (← e) (rw f (mem-append-left s.spec_ids (stale_spec_ids ts) n i))
mem-stale_spec_ids (t ∷ ts) s n (Memᴰ.tail m) f i =
    mem-append-right _ (stale_spec_ids ts) n (mem-stale_spec_ids ts s n m f i)

-- An entry that is left fresh was fresh before, and no drifted module lists it.
mark_stale_specs-fresh :
    (specs : List SystemSpecEntry) (report : SpecDriftReport) (t : SystemSpecEntry)
    → Memᴰ t (mark_stale_specs specs report)
    → t.freshness ≡ SpecFreshness.spec_fresh
    → Memᴰ t specs × (mem t.spec_id (stale_spec_ids report.statuses) ≡ false)
unfolding mark_stale_specs
mark_stale_specs-fresh specs report t m f =
    let (s, i, e) =
      mem-map-source
        (λ s.
          if mem (SystemSpecEntry.spec_id s) (stale_spec_ids report.statuses)
          then as_stale s
          else s)
        specs m in
    elim (Bool-cases (mem s.spec_id (stale_spec_ids report.statuses))) [
      | inl h ↦ cc (f, ap (λ v. SystemSpecEntry.freshness v) (rw h at e))
      | inr h ↦ let q : t ≡ s = rw h at e in (subst (λ v. Memᴰ v specs) (sym q) i, rw q h)
    ]

-- A specification that is still fresh once the registry is marked by a drift report was fresh
-- before, and every module of the manifest that lists it has the sources that were recorded, as
-- have the modules that module depends on directly.
pub mark_stale_specs-IsCurrent :
    (hash_at : String → Option String) (entries : List CodeSpecManifestEntry)
    (specs : List SystemSpecEntry) (t : SystemSpecEntry)
    → Memᴰ t (mark_stale_specs specs (build_spec_drift_report hash_at entries))
    → t.freshness ≡ SpecFreshness.spec_fresh
    → Memᴰ t specs
      × ((e : CodeSpecManifestEntry)
          → Memᴰ e entries
          → Memᴰ t.spec_id e.spec_ids
          → IsCurrent hash_at e
            × ((d : CodeSpecManifestEntry)
                → Memᴰ d entries
                → Memᴰ d.module_id e.dependency_module_ids
                → IsCurrent hash_at d))
unfolding build_spec_drift_report
mark_stale_specs-IsCurrent hash_at entries specs t m f =
    let statuses = map (direct_status hash_at) entries in
    let push = propagate (stale_modules statuses) in
    let (i, unlisted) =
      mark_stale_specs-fresh specs (build_spec_drift_report hash_at entries) t m f in
    (
      i,
      λ e j k. elim (Bool-cases (is_fresh (push (direct_status hash_at e)))) [
        | inl h ↦ (propagated_iff hash_at entries e).0 h
        | inr h ↦
            let ids : (push (direct_status hash_at e)).spec_ids ≡ e.spec_ids =
              (propagate-is_fresh (stale_modules statuses) (direct_status hash_at e)).2
              ∙ (direct_status-keeps hash_at e).2 in
            absurd (
              true≢false (
                sym (
                  (mem_iff t.spec_id (stale_spec_ids (map push statuses))).1 (
                    mem-stale_spec_ids (map push statuses) (push (direct_status hash_at e))
                      t.spec_id
                      (mem-map-intro push statuses
                        (mem-map-intro (direct_status hash_at) entries j))
                      h (subst (λ ns. Memᴰ t.spec_id ns) (sym ids) k)))
                ∙ unlisted))
      ],
    )
