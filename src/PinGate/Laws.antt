-- ===== src/PinGate/Laws.antt =====
-- What the rule for machine pins lets through.
use mathlib.Core.List.Memᴰ
use mathlib.Core.Logic.{⊎_elim}
use mathlib.Core.Bool.{true≢false}
use attestation_layer.Prelude.{
  String, ◌≡◌, ◌≢◌, ◌↔◌, ◌⊎◌, inl, inr, refl, sym, ap, ◌∙◌, subst, Bool, true, false, eq_iff,
  Option, none, some, List, [], ◌∷◌, Memᴰ, arith, is_empty,
}
use attestation_layer.Models.Evidence.{FinalStatus}
use attestation_layer.Status.{StatusView, is_human_accepted}
use attestation_layer.PinGate.{
  GateMachinePinRules, is_machine_status, is_pinned_member, matches_any, is_listed, accepts_paths,
  accepts_status, machine_pin_accepts,
}

-- The status is the machine-pinned one, as a member or as its text.
abbrev pub IsPinned : StatusView → Type 0
IsPinned status =
    (status ≡ StatusView.member FinalStatus.machine_pinned_pending_review)
    ⊎ (status ≡ StatusView.text "MACHINE_PINNED_PENDING_REVIEW")

pinned_member_iff :
    (s : FinalStatus)
    → (is_pinned_member s ≡ true) ↔ (s ≡ FinalStatus.machine_pinned_pending_review)
pinned_member_iff s = ground arith

is_machine_status_iff : (s : StatusView) → (is_machine_status s ≡ true) ↔ IsPinned s
unfolding is_machine_status
is_machine_status_iff (StatusView.member s) = (
  λ h. inl (ap StatusView.member ((pinned_member_iff s).0 h)),
  λ p. ⊎_elim (λ e. (pinned_member_iff s).1 (cc e)) (λ e. absurd (cc e)) p,
)
is_machine_status_iff (StatusView.text s) = (
  λ h. inr (ap StatusView.text ((eq_iff s "MACHINE_PINNED_PENDING_REVIEW").0 h)),
  λ p. ⊎_elim (λ e. absurd (cc e)) (λ e. (eq_iff s "MACHINE_PINNED_PENDING_REVIEW").1 (cc e)) p,
)
is_machine_status_iff StatusView.other =
    (λ h. absurd (cc h), λ p. ⊎_elim (λ e. absurd (cc e)) (λ e. absurd (cc e)) p)

pinned-not-human : (s : StatusView) → IsPinned s → is_human_accepted s ≡ false
unfolding is_human_accepted
pinned-not-human s p = ⊎_elim (λ e. rw e refl) (λ e. rw e refl) p

nonempty : (paths : List String) → paths ≢ [] → is_empty paths ≡ false
nonempty [] n = absurd (n refl)
nonempty (p ∷ ps) n = refl

some-inj : {s t : StatusView} → some s ≡ some t → t ≡ s
some-inj q = cc q

module _ (fnmatch : String → String → Bool) (normalize : String → String) where
  -- The path is on the allow-list and on no block-list.
  pub record IsLowRisk (rules : GateMachinePinRules) (path : String) : Type 0 where
    pub unblocked :
        matches_any fnmatch normalize (normalize path) rules.block_changed_path_patterns ≡ false
    pub listed :
        is_listed fnmatch normalize (normalize path) rules.allowed_changed_path_patterns ≡ true

  accepts_paths_iff :
      (rules : GateMachinePinRules) (paths : List String)
      → (accepts_paths fnmatch normalize rules paths ≡ true)
        ↔ ((p : String) → Memᴰ p paths → IsLowRisk rules p)
  unfolding accepts_paths
  accepts_paths_iff rules [] = (λ h p m. elim m [ ], λ h. refl)
  accepts_paths_iff rules (q ∷ qs) = (
    λ h p m.
        ⊎_elim
          (λ (e : p ≡ q).
            rw e (record { unblocked = ground (arith, h); listed = ground (arith, h) }))
          (λ (i : Memᴰ p qs). (accepts_paths_iff rules qs).0 (ground (arith, h)) p i)
          (Memᴰ.cases_cons m),
    λ h.
        let here = h q (Memᴰ.head refl) in
        let later = (accepts_paths_iff rules qs).1 (λ p m. h p (Memᴰ.tail m)) in
        ground (arith, IsLowRisk.unblocked here, IsLowRisk.listed here, later),
  )

  accepts_status_iff :
      (s : StatusView) (paths : List String) (rules : GateMachinePinRules)
      → (accepts_status fnmatch normalize s paths rules ≡ true) ↔ (
          IsPinned s
          × (rules.enabled ≡ true)
          × (paths ≢ [])
          × ((p : String) → Memᴰ p paths → IsLowRisk rules p))
  unfolding accepts_status
  accepts_status_iff s paths rules = (
    λ h.
        let each = (accepts_paths_iff rules paths).0 (ground (arith, h)) in
        (
          (is_machine_status_iff s).0 (ground (arith, h)),
          ground (arith, h),
          λ q. absurd (true≢false (sym (ap is_empty q) ∙ ground (arith, h))),
          each,
        ),
    λ (p, e, n, each).
        let low = (accepts_paths_iff rules paths).1 each in
        ground
          (arith, low, e, (is_machine_status_iff s).1 p, pinned-not-human s p, nonempty paths n),
  )

  -- A status passes exactly if it is the machine-pinned one, the rules are enabled, there is a changed
  -- path, and every changed path is on the allow-list and matches no blocked pattern.
  pub machine_pin_accepts-iff-IsLowRisk :
      (status : Option StatusView) (paths : List String) (rules : GateMachinePinRules)
      → (machine_pin_accepts fnmatch normalize status paths rules ≡ true) ↔ (
          (s : StatusView) × (status ≡ some s)
          × IsPinned s
          × (rules.enabled ≡ true)
          × (paths ≢ [])
          × ((p : String) → Memᴰ p paths → IsLowRisk rules p))
  unfolding machine_pin_accepts
  machine_pin_accepts-iff-IsLowRisk none paths rules =
      (λ h. absurd (true≢false (sym h)), λ (s, q, p, e, n, l). cc q)
  machine_pin_accepts-iff-IsLowRisk (some s) paths rules = (
    λ h. let (p, e, n, l) = (accepts_status_iff s paths rules).0 h in (s, refl, p, e, n, l),
    λ (t, q, p, e, n, l).
        (accepts_status_iff s paths rules).1 (subst IsPinned (some-inj q) p, e, n, l),
  )
