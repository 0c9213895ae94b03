-- ===== src/Drift/Laws.antt =====
-- Which modules a drift report calls fresh, and which specifications it makes stale.
use mathlib.Core.Bool.{true≢false}
use attestation_layer.Prelude.{
  String, ◌≡◌, ◌↔◌, ◌∙◌, refl, sym, ap, subst, Bool, true, false, not, ◌&&◌, Option, List, Memᴰ,
  arith, map, filter, is_empty, mem, mem_iff, not-true_elim, not-false_elim, Bool-cases, inl, inr,
  filter-eq-nil, is_empty-eq-nil, mem-filter, of_mem-filter, any-eq-false, any-false_at,
  mem-map-intro, mem-map-source,
}
use attestation_layer.Drift.{
  CodeSpecManifestEntry, Freshness, same_freshness_iff, SpecDriftStatus, direct_status, is_fresh,
  stale_modules, stale_dependencies, propagate, build_spec_drift_report,
}
use attestation_layer.Drift.Direct.{
  IsCurrent, direct_status-iff-IsCurrent, direct_status-keeps, propagate-is_fresh,
}

-- A module is drifted when an entry of that name is not current.
mem-stale_modules :
    (hash_at : String → Option String) (entries : List CodeSpecManifestEntry) (m : String)
    → Memᴰ m (stale_modules (map (direct_status hash_at) entries)) ↔ (
        (e : CodeSpecManifestEntry) × Memᴰ e entries
        × (e.module_id ≡ m)
        × (is_fresh (direct_status hash_at e) ≡ false))
unfolding stale_modules
mem-stale_modules hash_at entries m =
    let statuses = map (direct_status hash_at) entries in
    let drifted : SpecDriftStatus → Bool = λ s. not (is_fresh s) in
    (
      λ i.
          let (s, j, f) =
            mem-map-source (λ s. SpecDriftStatus.module_id s) (filter drifted statuses) i in
          let (k, g) = of_mem-filter drifted statuses j in
          let (e, l, q) = mem-map-source (direct_status hash_at) entries k in
          (
            e,
            l,
            sym (direct_status-keeps hash_at e).0
                ∙ sym (ap (λ s. SpecDriftStatus.module_id s) q)
                ∙ sym f,
            ap is_fresh (sym q) ∙ not-true_elim g,
          ),
      λ (e, l, q, f).
          subst (λ n. Memᴰ n (stale_modules statuses)) ((direct_status-keeps hash_at e).0 ∙ q)
            (mem-map-intro (λ s. SpecDriftStatus.module_id s) (filter drifted statuses)
              (mem-filter drifted statuses (mem-map-intro (direct_status hash_at) entries l)
                (ap not f))),
    )

and_iff : {a b : Bool} → ((a && b) ≡ true) ↔ ((a ≡ true) × (b ≡ true))
and_iff {a} {b} = ground arith

-- No dependency of a status is drifted.
stale_dependencies-eq-nil :
    (drifted : List String) (s : SpecDriftStatus)
    → (is_empty (stale_dependencies drifted s) ≡ true)
      ↔ ((m : String) → Memᴰ m s.dependency_module_ids → mem m drifted ≡ false)
stale_dependencies-eq-nil drifted s =
    let nil = filter-eq-nil (λ m. mem m drifted) s.dependency_module_ids in
    (λ h. nil.0 (is_empty-eq-nil _ h), λ h. ap is_empty (nil.1 h))

pub propagated_iff :
    (hash_at : String → Option String) (entries : List CodeSpecManifestEntry)
    (e : CodeSpecManifestEntry)
    → (is_fresh (
          propagate (stale_modules (map (direct_status hash_at) entries)) (direct_status hash_at e))
        ≡ true)
      ↔ (IsCurrent hash_at e
          × ((d : CodeSpecManifestEntry)
              → Memᴰ d entries
              → Memᴰ d.module_id e.dependency_module_ids
              → IsCurrent hash_at d))
propagated_iff hash_at entries e =
    let t = direct_status hash_at e in
    let drifted = stale_modules (map (direct_status hash_at) entries) in
    let step = (propagate-is_fresh drifted t).0 in
    let keeps = (direct_status-keeps hash_at e).1 in
    let here = direct_status-iff-IsCurrent hash_at e in
    let none_drifted = stale_dependencies-eq-nil drifted t in
    (
      λ h.
          let (f, g) = and_iff.0 (sym step ∙ h) in
          (
            here.0 f,
            λ d i j. elim (Bool-cases (is_fresh (direct_status hash_at d))) [
              | inl k ↦ (direct_status-iff-IsCurrent hash_at d).0 k
              | inr k ↦ absurd (
                  true≢false (
                    sym (
                      (mem_iff d.module_id drifted).1
                        ((mem-stale_modules hash_at entries d.module_id).1 (d, i, refl, k)))
                    ∙ none_drifted.0 g d.module_id
                        (subst (λ ms. Memᴰ d.module_id ms) (sym keeps) j)))
            ],
          ),
      λ (c, ds).
          step
          ∙ and_iff.1 (
            here.1 c,
            none_drifted.1 (λ m i. elim (Bool-cases (mem m drifted)) [
              | inr k ↦ k
              | inl k ↦
                  let (d, j, q, f) =
                    (mem-stale_modules hash_at entries m).0 ((mem_iff m drifted).0 k) in
                  let own : Memᴰ d.module_id e.dependency_module_ids =
                    subst (λ ms. Memᴰ d.module_id ms) keeps
                      (subst (λ n. Memᴰ n t.dependency_module_ids) (sym q) i) in
                  absurd
                    (true≢false (sym ((direct_status-iff-IsCurrent hash_at d).1 (ds d j own)) ∙ f))
            ]),
          ),
    )

-- A reported module is fresh exactly when its own sources and those of every module that it names
-- as a dependency are as recorded. The dependencies of a dependency do not count: their drift does
-- not make the module stale.
pub build_spec_drift_report-fresh_iff :
    (hash_at : String → Option String) (entries : List CodeSpecManifestEntry)
    (e : CodeSpecManifestEntry)
    → Memᴰ e entries
    → (s : SpecDriftStatus) × Memᴰ s (build_spec_drift_report hash_at entries).statuses
      × (s.module_id ≡ e.module_id)
      × ((s.status ≡ Freshness.fresh) ↔ (
          IsCurrent hash_at e
          × ((d : CodeSpecManifestEntry)
              → Memᴰ d entries
              → Memᴰ d.module_id e.dependency_module_ids
              → IsCurrent hash_at d)))
unfolding build_spec_drift_report
build_spec_drift_report-fresh_iff hash_at entries e i =
    let statuses = map (direct_status hash_at) entries in
    let t = direct_status hash_at e in
    let drifted = stale_modules statuses in
    let own = propagated_iff hash_at entries e in
    (
      propagate drifted t,
      mem-map-intro (propagate drifted) statuses (mem-map-intro (direct_status hash_at) entries i),
      (propagate-is_fresh drifted t).1 ∙ (direct_status-keeps hash_at e).0,
      (λ h. own.0 ((same_freshness_iff _ _).1 h), λ c. (same_freshness_iff _ _).0 (own.1 c)),
    )

-- A report passes exactly when the sources of every module of the manifest are as recorded.
pub build_spec_drift_report-passed_iff :
    (hash_at : String → Option String) (entries : List CodeSpecManifestEntry)
    → ((build_spec_drift_report hash_at entries).passed ≡ true)
      ↔ ((e : CodeSpecManifestEntry) → Memᴰ e entries → IsCurrent hash_at e)
unfolding build_spec_drift_report
build_spec_drift_report-passed_iff hash_at entries =
    let statuses = map (direct_status hash_at) entries in
    let push = propagate (stale_modules statuses) in
    let drifted : SpecDriftStatus → Bool = λ s. not (is_fresh s) in
    (
      λ h e i.
          ((propagated_iff hash_at entries e).0 (
            not-false_elim (
              any-false_at drifted (map push statuses)
                (mem-map-intro push statuses (mem-map-intro (direct_status hash_at) entries i))
                (not-true_elim h)))).0,
      λ c. ap not (
          any-eq-false drifted (map push statuses) (λ s i.
            let (t, j, p) = mem-map-source push statuses i in
            let (e, k, q) = mem-map-source (direct_status hash_at) entries j in
            ap not (
              ap is_fresh (p ∙ ap push q)
              ∙ (propagated_iff hash_at entries e).1 (c e k, λ d l n. c d l)))),
    )
