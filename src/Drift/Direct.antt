-- ===== src/Drift/Direct.antt =====
-- The status of one module: by its own sources, and after the propagation.
use attestation_layer.Prelude.{
  String, ◌≡◌, ◌↔◌, ◌∙◌, refl, sym, ap, Bool, true, false, not, ◌&&◌, Option, none, some, List, [],
  ◌∷◌, ◌++◌, Memᴰ, arith, all, Dict, lookup, eq_iff, is_empty, Bool-cases, Option-cases, inl, inr,
  all-at, all-intro,
}
use attestation_layer.Drift.{
  CodeSpecManifestEntry, same_freshness, SpecDriftStatus, Scan, is_recorded, scan_path, scan,
  direct_status, is_fresh, stale_dependencies, propagate,
}

-- Every source of the module is a file whose hash is the recorded one.
abbrev pub IsCurrent : (String → Option String) → CodeSpecManifestEntry → Type 0
IsCurrent hash_at e =
    (path : String)
    → Memᴰ path e.source_paths
    → (h : String) × (hash_at path ≡ some h) × (lookup path e.recorded_source_hashes ≡ some h)

path_ok : (String → Option String) → Dict String → String → Bool
path_ok hash_at recorded path = elim (hash_at path) [
  | none ↦ false
  | some h ↦ is_recorded recorded path h
]

is_clean : Scan → Bool
is_clean s = is_empty (Scan.missing_paths s) && is_empty (Scan.changed_paths s)

is_empty-snoc : (xs : List String) (x : String) → is_empty (xs ++ (x ∷ [])) ≡ false
is_empty-snoc [] x = refl
is_empty-snoc (y ∷ ys) x = refl

scan_path-is_clean :
    (hash_at : String → Option String) (recorded : Dict String) (s : Scan) (path : String)
    → is_clean (scan_path hash_at recorded s path) ≡ (is_clean s && path_ok hash_at recorded path)
unfolding is_clean path_ok
scan_path-is_clean hash_at recorded s path = elim (Option-cases (hash_at path)) [
  | inl e ↦ ground (arith, e, is_empty-snoc s.missing_paths path)
  | inr (h, e) ↦ ground (arith, e, is_empty-snoc s.changed_paths path)
]

scan-is_clean :
    (hash_at : String → Option String) (recorded : Dict String) (s : Scan) (paths : List String)
    → is_clean (scan hash_at recorded s paths)
      ≡ (is_clean s && all (path_ok hash_at recorded) paths)
unfolding scan
scan-is_clean hash_at recorded s [] = ground arith
scan-is_clean hash_at recorded s (p ∷ ps) = ground (
  arith,
  scan-is_clean hash_at recorded (scan_path hash_at recorded s p) ps,
  scan_path-is_clean hash_at recorded s p,
)

path_ok_iff :
    (hash_at : String → Option String) (recorded : Dict String) (path : String)
    → (path_ok hash_at recorded path ≡ true)
      ↔ ((h : String) × (hash_at path ≡ some h) × (lookup path recorded ≡ some h))
unfolding path_ok
path_ok_iff hash_at recorded path = elim (Option-cases (hash_at path)) [
  | inl e ↦ (λ t. ground (arith, e, t), λ (h, f, g). ground (arith, e, f))
  | inr (h, e) ↦ elim (Option-cases (lookup path recorded)) [
    | inl f ↦ (λ t. ground (arith, e, f, t), λ (k, q, g). ground (arith, f, g))
    | inr (k, f) ↦ (
      λ t. (h, e, f ∙ ap some (ground (arith, e, f, t, eq_iff k h))),
      λ (j, q, g). ground (arith, e, f, q, g, eq_iff k h),
    )
  ]
]

direct_status-is_fresh :
    (hash_at : String → Option String) (e : CodeSpecManifestEntry)
    → is_fresh (direct_status hash_at e)
      ≡ all (path_ok hash_at e.recorded_source_hashes) e.source_paths
unfolding direct_status same_freshness is_clean
direct_status-is_fresh hash_at e =
    let nothing : Scan = record { current_hashes = []; changed_paths = []; missing_paths = [] } in
    let s = scan hash_at e.recorded_source_hashes nothing e.source_paths in
    let clean = scan-is_clean hash_at e.recorded_source_hashes nothing e.source_paths in
    elim (Bool-cases (is_empty s.missing_paths)) [
      | inr f ↦ rw f (ground (arith, clean, f))
      | inl f ↦ elim (Bool-cases (is_empty s.changed_paths)) [
        | inr g ↦ rw (f, g) (ground (arith, clean, f, g))
        | inl g ↦ rw (f, g) (ground (arith, clean, f, g))
      ]
    ]

pub direct_status-iff-IsCurrent :
    (hash_at : String → Option String) (e : CodeSpecManifestEntry)
    → (is_fresh (direct_status hash_at e) ≡ true) ↔ IsCurrent hash_at e
direct_status-iff-IsCurrent hash_at e =
    let q = direct_status-is_fresh hash_at e in
    let test = path_ok hash_at e.recorded_source_hashes in
    (
      λ h path m. (path_ok_iff _ _ path).0 (all-at test e.source_paths m (sym q ∙ h)),
      λ c. q ∙ all-intro test e.source_paths (λ path m. (path_ok_iff _ _ path).1 (c path m)),
    )

pub direct_status-keeps :
    (hash_at : String → Option String) (e : CodeSpecManifestEntry)
    → ((direct_status hash_at e).module_id ≡ e.module_id)
      × ((direct_status hash_at e).dependency_module_ids ≡ e.dependency_module_ids)
      × ((direct_status hash_at e).spec_ids ≡ e.spec_ids)
unfolding direct_status
direct_status-keeps hash_at e = (ground arith, ground arith, ground arith)

pub propagate-is_fresh :
    (drifted : List String) (s : SpecDriftStatus)
    → (is_fresh (propagate drifted s) ≡ (is_fresh s && is_empty (stale_dependencies drifted s)))
      × ((propagate drifted s).module_id ≡ s.module_id)
      × ((propagate drifted s).spec_ids ≡ s.spec_ids)
unfolding propagate same_freshness
propagate-is_fresh drifted s =
    elim (Bool-cases (is_fresh s && not (is_empty (stale_dependencies drifted s)))) [
      | inl h ↦ rw (propagate, h) (ground (arith, h), refl, refl)
      | inr h ↦ rw (propagate, h) (ground (arith, h), refl, refl)
    ]
