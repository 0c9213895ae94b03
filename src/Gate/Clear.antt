-- ===== src/Gate/Clear.antt =====
-- A package on which no finding blocks is clear, under the default block list.
use mathlib.Core.List.Memᴰ
use text.Mathlib.Text.{find?}
use attestation_layer.Prelude.{
  String, ◌≡◌, ◌⊎◌, ◌∙◌, refl, sym, ap, subst, Bool, true, false, not, ◌==◌, eq_iff, Option, some,
  List, [], ◌∷◌, ◌++◌, map, Memᴰ, arith, any, any-append-false, is_empty, is_empty-eq-nil, mem,
  mem-sorted, mem-dedupe, mem-map-intro, dedupe, is_some, Option-cases, Bool-cases, inl, inr, Dict,
  lookup, not-false_elim, mem-filter,
}
use attestation_layer.Models.Evidence.{EvidenceLevel}
use attestation_layer.Status.{value_of}
use attestation_layer.Gate.{
  GatePolicy, PackageSummary, GateFinding, common_blocking_findings, finding_of, finding_if,
  finding_blocks, finding_matches_scope, findings_on, unique_from, is_pin_accepted,
  validation_category, stale_markers, validation_findings, status_findings, review_findings,
  pending_findings, unsupported_findings, minimum_findings, missing_required_evidence,
  validation_message, level_value, achieved_of,
}

-- The findings of the default policy block everywhere, without exception.
pub record IsStrict (policy : GatePolicy) : Type 0 where
  pub all_adapters : policy.scope.adapters ≡ []
  pub all_paths : policy.scope.changed_path_patterns ≡ []
  pub all_roots : policy.scope.package_roots ≡ []
  pub all_ids : policy.scope.requirement_id_patterns ≡ []
  pub no_waivers : policy.waivers.allow_waivers ≡ false
  pub blocks_common : policy.rules.block_findings ≡ common_blocking_findings
  pub blocks_all : policy.rules.report_only_findings ≡ []

pub finding_blocks-common :
    (policy : GatePolicy) (category : String)
    → IsStrict policy
    → mem category common_blocking_findings ≡ true
    → finding_blocks policy category ≡ true
unfolding finding_blocks
finding_blocks-common policy category s h = ground (arith, s.blocks_all, s.blocks_common, h)

finding_blocks-minimum :
    (policy : GatePolicy)
    → IsStrict policy
    → is_empty policy.rules.minimum_evidence ≡ false
    → finding_blocks policy "minimum_evidence" ≡ true
unfolding finding_blocks
finding_blocks-minimum policy s h = ground (arith, s.blocks_all, h)

pub unique_from-mem :
    (seen vs : List String) (v : String)
    → Memᴰ v vs
    → mem v seen ≡ false
    → Memᴰ v (unique_from seen vs)
unique_from-mem seen [] v m h = elim m [ ]
unique_from-mem seen (x ∷ xs) v (Memᴰ.head e) h =
    let unseen : mem x seen ≡ false = rw e at h in rw unseen (Memᴰ.head e)
unique_from-mem seen (x ∷ xs) v (Memᴰ.tail m) h = elim (Bool-cases (mem x seen)) [
  | inl e ↦ rw e (unique_from-mem seen xs v m h)
  | inr e ↦ elim (Bool-cases (x == v)) [
    | inl same ↦ rw e (Memᴰ.head (sym ((eq_iff x v).0 same)))
    | inr other ↦ rw e (Memᴰ.tail (unique_from-mem (x ∷ seen) xs v m (ground (arith, other, h))))
  ]
]

is_empty-of_mem : {A : Type 0} {x : A} {xs : List A} → Memᴰ x xs → is_empty xs ≡ false
is_empty-of_mem {xs = []} m = elim m [ ]
is_empty-of_mem {xs = x ∷ xs} m = refl

-- A test whose finding would block failed, where none blocks.
finding_if-clear :
    (p : GateFinding → Bool) (test : Bool) (f : GateFinding)
    → p f ≡ true
    → any p (finding_if test f) ≡ false
    → test ≡ false
finding_if-clear p test f h n = ground (arith, h, n)

validation_category-common :
    (message : String) → mem (validation_category message) common_blocking_findings ≡ true
validation_category-common message =
    elim (Bool-cases (any (λ marker. is_some (find? message marker)) stale_markers)) [
      | inl e ↦ rw e refl
      | inr e ↦ rw e refl
    ]

missing-none :
    (p : PackageSummary) (levels : List EvidenceLevel) (l : EvidenceLevel)
    → missing_required_evidence p levels ≡ []
    → Memᴰ l levels
    → mem (level_value l) (achieved_of p.achieved_evidence) ≡ true
unfolding missing_required_evidence
missing-none p levels l e m =
    let required = dedupe (map level_value levels) in
    let there : Memᴰ (level_value l) required =
      (mem-dedupe (level_value l) (map level_value levels)).1
        (mem-map-intro level_value levels m) in
    elim (Bool-cases (mem (level_value l) (achieved_of p.achieved_evidence))) [
      | inl h ↦ h
      | inr h ↦ absurd (
          Memᴰ.not-nil (
            subst (λ xs. Memᴰ (level_value l) xs) e
              ((mem-sorted (level_value l) _).1 (
                mem-filter (λ x. not (mem x (achieved_of p.achieved_evidence))) required there
                  (ap not h)))))
    ]

module _ (fnmatch : String → String → Bool) (normalize : String → String) where
  pub matches-strict :
      (policy : GatePolicy) (f : GateFinding) (summary : Option PackageSummary) (dir : String)
      (changed : List String)
      → IsStrict policy
      → finding_matches_scope fnmatch normalize f summary dir policy changed ≡ true
  unfolding finding_matches_scope
  matches-strict policy f summary dir changed s =
      ground (arith, s.all_adapters, s.all_paths, s.all_roots, s.all_ids)

  -- A package that nothing speaks against.
  pub record IsCleared (policy : GatePolicy) (changed : List String) (p : PackageSummary)
      : Type 0 where
    pub valid : p.validation_status ≡ "valid"
    pub has_status :
        (s : String) × (p.status ≡ some s)
        × ((mem s (map value_of policy.rules.allowed_statuses) ≡ true)
            ⊎ (is_pin_accepted fnmatch normalize p policy changed ≡ true))
    pub reviewed :
        (policy.rules.require_approved_review ≡ true)
        → (p.review_decision ≡ some "approved")
          ⊎ (is_pin_accepted fnmatch normalize p policy changed ≡ true)
    pub settled : p.pending_reviews ≡ []
    pub evidenced :
        (l : EvidenceLevel)
        → Memᴰ l policy.rules.minimum_evidence
        → mem (level_value l) (achieved_of p.achieved_evidence) ≡ true

  module _ (policy : GatePolicy) (strict : IsStrict policy) (changed : List String)
      (id : String) where
    abbrev pub blocking : GateFinding → Bool
    blocking f = finding_blocks policy f.category

    validation-clear :
        (p : PackageSummary)
        → any blocking (validation_findings fnmatch normalize id p) ≡ false
        → p.validation_status ≡ "valid"
    validation-clear p n =
        let message = validation_message fnmatch normalize p in
        let h =
          finding_blocks-common policy (validation_category message) strict
            (validation_category-common message) in
        (eq_iff p.validation_status "valid").0 (
          not-false_elim (
            finding_if-clear blocking (not (p.validation_status == "valid"))
              (finding_of (validation_category message) (some id) p.path message) h n))

    status-clear :
        (p : PackageSummary)
        → any blocking (status_findings fnmatch normalize id p policy changed) ≡ false
        → (s : String) × (p.status ≡ some s)
          × ((mem s (map value_of policy.rules.allowed_statuses) ≡ true)
              ⊎ (is_pin_accepted fnmatch normalize p policy changed ≡ true))
    status-clear p n =
        let h = finding_blocks-common policy "status" strict refl in
        elim (Option-cases p.status) [
          | inl none_there ↦ absurd (ground (arith, n, none_there, h))
          | inr (s, e) ↦ (
            s,
            e,
            (elim (Bool-cases (mem s (map value_of policy.rules.allowed_statuses))) [
              | inl m ↦ inl m
              | inr m ↦ inr (ground (arith, n, e, h, m))
            ]),
          )
        ]

    review-clear :
        (p : PackageSummary)
        → any blocking (review_findings fnmatch normalize id p policy changed) ≡ false
        → (policy.rules.require_approved_review ≡ true)
        → (p.review_decision ≡ some "approved")
          ⊎ (is_pin_accepted fnmatch normalize p policy changed ≡ true)
    review-clear p n required =
        let h = finding_blocks-common policy "pending_reviews" strict refl in
        elim (Option-cases p.review_decision) [
          | inl none_there ↦ inr (ground (arith, n, none_there, h, required))
          | inr (d, e) ↦ elim (Bool-cases (d == "approved")) [
            | inl same ↦ inl (e ∙ ap some ((eq_iff d "approved").0 same))
            | inr other ↦ inr (ground (arith, n, e, h, required, other))
          ]
        ]

    pending-clear :
        (p : PackageSummary)
        → any blocking (pending_findings fnmatch normalize id p) ≡ false
        → p.pending_reviews ≡ []
    pending-clear p n =
        let h = finding_blocks-common policy "pending_reviews" strict refl in
        is_empty-eq-nil p.pending_reviews (ground (arith, n, h))

    minimum-clear :
        (p : PackageSummary)
        → any blocking (minimum_findings fnmatch normalize id p policy) ≡ false
        → (l : EvidenceLevel) → Memᴰ l policy.rules.minimum_evidence
        → mem (level_value l) (achieved_of p.achieved_evidence) ≡ true
    minimum-clear p n l m =
        let asked : is_empty policy.rules.minimum_evidence ≡ false = is_empty-of_mem m in
        let h = finding_blocks-minimum policy strict asked in
        missing-none p policy.rules.minimum_evidence l (is_empty-eq-nil _ (ground (arith, n, h))) m

    pub findings_on-clear :
        (packages : Dict PackageSummary)
        → any blocking (findings_on fnmatch normalize packages policy changed id) ≡ false
        → (p : PackageSummary) × (lookup id packages ≡ some p) × IsCleared policy changed p
    unfolding findings_on
    findings_on-clear packages n = elim (Option-cases (lookup id packages)) [
      | inl unknown ↦
          (let h = finding_blocks-common policy "unknown_requirement_reference" strict refl in
            absurd (ground (arith, rw (findings_on, unknown) at n, h)))
      | inr (p, e) ↦
          (let validation = validation_findings fnmatch normalize id p in
            let status = status_findings fnmatch normalize id p policy changed in
            let review = review_findings fnmatch normalize id p policy changed in
            let pending = pending_findings fnmatch normalize id p in
            let unsupported = unsupported_findings fnmatch normalize id p in
            let minimum = minimum_findings fnmatch normalize id p policy in
            let (v, n1) =
              any-append-false blocking validation
                (status ++ (review ++ (pending ++ (unsupported ++ minimum))))
                (rw (findings_on, e) at n) in
            let (s, n2) =
              any-append-false blocking status (review ++ (pending ++ (unsupported ++ minimum)))
                n1 in
            let (r, n3) =
              any-append-false blocking review (pending ++ (unsupported ++ minimum)) n2 in
            let (w, n4) = any-append-false blocking pending (unsupported ++ minimum) n3 in
            let (u, m) = any-append-false blocking unsupported minimum n4 in
            (
              p,
              e,
              record {
                valid = validation-clear p v;
                has_status = status-clear p s;
                reviewed = review-clear p r;
                settled = pending-clear p w;
                evidenced = minimum-clear p m;
              },
            ))
    ]
