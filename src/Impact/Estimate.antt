-- ===== src/Impact/Estimate.antt =====
-- An untrusted estimate of the impact is compared with the call graph's, and never changes it.
use attestation_layer.Prelude.{
  String, ◌≡◌, ◌↔◌, true, false, not, List, refl, subst, ap, Memᴰ, arith, mem, mem_iff, is_empty,
  mem-sorted_set, Bool-cases, inl, inr, mem-dedupe, dedupe, mem-filter, filter-eq-nil,
  is_empty-eq-nil,
}
use attestation_layer.Impact.{ImpactArtifact, EstimateSource, cross_validate_impact, minus}

-- A difference of sets is empty when the first is a part of the second.
minus-eq-nil :
    (a b : List String) → is_empty (minus a b) ≡ true ↔ ((m : String) → Memᴰ m a → Memᴰ m b)
minus-eq-nil a b = (
  λ h m k. elim (Bool-cases (mem m b)) [
    | inl t ↦ (mem_iff m b).0 t
    | inr t ↦
        elim (subst (λ zs. Memᴰ m zs) (is_empty-eq-nil _ h)
          (mem-filter (λ x. not (mem x b)) (dedupe a) ((mem-dedupe m a).1 k) (rw t refl))) [ ]
  ],
  λ sub. ap is_empty (
      (filter-eq-nil (λ x. not (mem x b)) (dedupe a)).1
        (λ m k. ap not ((mem_iff m b).1 (sub m ((mem-dedupe m a).0 k))))),
)

-- For every estimate and whatever its source, the modules that the cross-validation reports as
-- affected are those of the call graph's artifact; and it reports no disagreement exactly when the
-- estimate has the same modules.
cross_validate_impact-disagreement_iff :
    (artifact : ImpactArtifact) (estimate : List String) (source : EstimateSource)
    → ((m : String)
        → Memᴰ m (cross_validate_impact artifact estimate source).affected_modules
          ↔ Memᴰ m artifact.affected_modules)
      × ((cross_validate_impact artifact estimate source).disagreement ≡ false
          ↔ ((m : String) → Memᴰ m artifact.affected_modules ↔ Memᴰ m estimate))
unfolding cross_validate_impact
cross_validate_impact-disagreement_iff artifact estimate source =
    let p = minus-eq-nil artifact.affected_modules estimate in
    let q = minus-eq-nil estimate artifact.affected_modules in
    (
      (λ m. mem-sorted_set m artifact.affected_modules),
      (
        (λ h m. (p.0 (ground (arith, h)) m, q.0 (ground (arith, h)) m)),
        λ s. let e = p.1 (λ m. (s m).0) in let f = q.1 (λ m. (s m).1) in ground (arith, e, f),
      ),
    )
