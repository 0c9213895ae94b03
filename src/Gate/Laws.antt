-- ===== src/Gate/Laws.antt =====
-- When the hard gate passes: every finding is out of scope, not blocking, or waived.
use attestation_layer.Prelude.{
  ℕ, String, ◌≡◌, ◌≢◌, ◌↔◌, ◌∙◌, refl, ap, Bool, true, false, ◌&&◌, ◌||◌, Option, none, some, List,
  [], ◌∷◌, Memᴰ, arith, any, is_empty, is_some, Option-cases, Bool-cases, inl, inr, Dict,
  map-filter-eq-nil, is_empty-eq-nil,
}
use attestation_layer.Gate.{
  GatePolicy, GateWaiver, PackageSummary, GateFinding, DecisionKind, WaiverDecision, next_result,
  is_stale_hash, stale_waiver_hashes, is_applied, waiver_covers, judge_hashes, judge_duration,
  waiver_decision, waiver_result,
}
use attestation_layer.Waivers.Audit.{IsWithin}

-- The decision is there, and the waiver applies.
abbrev pub applies : Option (DecisionKind × String) → Bool
applies none = false
applies (some d) = is_applied d.0

-- The package has the reviewed hashes, of which there is one.
abbrev pub HasHashes : Option PackageSummary → Dict String → Type 0
HasHashes summary hashes =
    (p : PackageSummary) × (summary ≡ some p)
    × (hashes ≢ [])
    × ((e : String × String) → Memᴰ e hashes → is_stale_hash p.artifacts e ≡ false)

-- A waiver was found.
abbrev pub waived_of : Option (Option String × List WaiverDecision) → Bool
waived_of none = false
waived_of (some r) = is_some r.0

next_result_iff :
    (covers : Bool) (decision : Option (DecisionKind × String)) (f : GateFinding) (id : String)
    (rest : Option (Option String × List WaiverDecision))
    → decision ≢ none
    → rest ≢ none
    → (next_result covers decision f id rest ≢ none)
      × (waived_of (next_result covers decision f id rest)
          ≡ (covers && applies decision || waived_of rest))
next_result_iff false decision f id rest d r = (r, refl)
next_result_iff true none f id rest d r = absurd (d refl)
next_result_iff true (some (kind, reason)) f id none d r = absurd (r refl)
next_result_iff true (some (kind, reason)) f id (some (found, ds)) d r =
    (λ q. ground (arith, q), ground arith)

stale_waiver_hashes_iff :
    (hashes : Dict String) (p : PackageSummary)
    → (stale_waiver_hashes hashes p ≡ []) ↔ (
        (hashes ≢ [])
        × ((e : String × String) → Memᴰ e hashes → is_stale_hash p.artifacts e ≡ false))
unfolding stale_waiver_hashes
stale_waiver_hashes_iff [] p = (λ h. absurd (cc h), λ h. absurd (h.0 refl))
stale_waiver_hashes_iff (e ∷ es) p = (
  λ h. (λ n. cc n, (map-filter-eq-nil (λ x. x.0) (is_stale_hash p.artifacts) (e ∷ es)).0 h),
  λ h. (map-filter-eq-nil (λ x. x.0) (is_stale_hash p.artifacts) (e ∷ es)).1 h.1,
)

module _ (Time : Type 0) (le : Time → Time → Bool) (plus_days : Time → ℕ → Option Time) where
  -- A waiver that is in force under the policy, for the package.
  pub record IsInForce (policy : GatePolicy) (now : Time) (summary : Option PackageSummary)
      (w : GateWaiver Time) : Type 0 where
    pub allowed : policy.waivers.allow_waivers ≡ true
    pub may_satisfy : w.may_satisfy_hard_gate ≡ true
    pub unexpired : le w.expires_at now ≡ false
    pub within : IsWithin Time le plus_days policy.waivers.max_duration_days now w.expires_at
    pub hashed :
        (policy.waivers.require_reviewed_hashes ≡ true) → HasHashes summary w.reviewed_hashes

  judge_hashes_iff :
      (w : GateWaiver Time) (summary : Option PackageSummary) (policy : GatePolicy)
      → (is_applied (judge_hashes Time le plus_days w summary policy).0 ≡ true)
        ↔ ((policy.waivers.require_reviewed_hashes ≡ true) → HasHashes summary w.reviewed_hashes)
  unfolding judge_hashes
  judge_hashes_iff w none policy = (
    λ h r. absurd (ground (arith, h, r)),
    λ h. elim (Bool-cases policy.waivers.require_reviewed_hashes) [
      | inl r ↦ absurd (cc (h r).1)
      | inr r ↦ rw r refl
    ],
  )
  judge_hashes_iff w (some p) policy = (
    λ h r.
        let e : is_empty (stale_waiver_hashes w.reviewed_hashes p) ≡ true = ground (arith, h, r) in
        let (n, k) = (stale_waiver_hashes_iff w.reviewed_hashes p).0 (is_empty-eq-nil _ e) in
        (p, refl, n, k),
    λ h. elim (Bool-cases policy.waivers.require_reviewed_hashes) [
      | inl r ↦
          (let (q, e, n, k) = h r in
            let same : q ≡ p = cc e in
            rw (r, (stale_waiver_hashes_iff w.reviewed_hashes p).1 (n, rw same at k)) refl)
      | inr r ↦ rw r refl
    ],
  )

  -- The latest expiry that the policy allows is a datetime.
  abbrev pub HasLimit : GatePolicy → Time → Type 0
  HasLimit policy now =
      (days : ℕ) → policy.waivers.max_duration_days ≡ some days → plus_days now days ≢ none

  judge_duration_iff :
      (w : GateWaiver Time) (days : Option ℕ) (now : Time) (rest : DecisionKind × String)
      → ((d : ℕ) → days ≡ some d → plus_days now d ≢ none)
      → (judge_duration Time le plus_days w days now rest ≢ none)
        × ((applies (judge_duration Time le plus_days w days now rest) ≡ true)
            ↔ (IsWithin Time le plus_days days now w.expires_at × (is_applied rest.0 ≡ true)))
  judge_duration_iff w none now rest limit = (λ q. cc q, (λ h. (tt, h), λ h. h.1))
  judge_duration_iff w (some d) now rest limit = elim (Option-cases (plus_days now d)) [
    | inl n ↦ absurd (limit d refl n)
    | inr (latest, l) ↦ (
      λ q. ground (arith, q, l),
      (
        λ h. ((latest, l, ground (arith, h, l)), ground (arith, h, l)),
        λ h. ground (arith, h.0.1, h.0.2, h.1),
      ),
    )
  ]

  -- A decision is made, and it is to apply the waiver exactly if the waiver is in force.
  pub waiver_decision_iff :
      (w : GateWaiver Time) (summary : Option PackageSummary) (policy : GatePolicy) (now : Time)
      → HasLimit policy now
      → (waiver_decision Time le plus_days w summary policy now ≢ none)
        × ((applies (waiver_decision Time le plus_days w summary policy now) ≡ true)
            ↔ IsInForce policy now summary w)
  unfolding waiver_decision
  waiver_decision_iff w summary policy now limit =
      let (some_one, duration) =
        judge_duration_iff w policy.waivers.max_duration_days now
          (judge_hashes Time le plus_days w summary policy) limit in
      let hashes = judge_hashes_iff w summary policy in
      (
        λ n. ground (arith, n, some_one),
        (
          λ h. record {
            allowed = ground (arith, h);
            may_satisfy = ground (arith, h);
            unexpired = ground (arith, h);
            within = (duration.0 (ground (arith, h))).0;
            hashed = hashes.0 (duration.0 (ground (arith, h))).1;
          },
          λ i. ground (
            arith,
            i.allowed,
            i.may_satisfy,
            i.unexpired,
            duration.1 (i.within, hashes.1 i.hashed),
          ),
        ),
      )

  module _ (fnmatch : String → String → Bool) (normalize : String → String) where
    -- Whether a waiver covers the finding and its decision is to apply it.
    abbrev pub is_waiving :
        GatePolicy → Time → GateFinding → Option PackageSummary → GateWaiver Time → Bool
    is_waiving policy now f summary w =
        waiver_covers fnmatch normalize Time le plus_days w f summary
        && applies (waiver_decision Time le plus_days w summary policy now)

    pub waiver_result_iff :
        (f : GateFinding) (summary : Option PackageSummary) (policy : GatePolicy) (now : Time)
        (ws : List (GateWaiver Time))
        → HasLimit policy now
        → (waiver_result fnmatch normalize Time le plus_days f summary policy now ws ≢ none)
          × (waived_of (waiver_result fnmatch normalize Time le plus_days f summary policy now ws)
              ≡ any (is_waiving policy now f summary) ws)
    unfolding waiver_result
    waiver_result_iff f summary policy now [] limit = (λ q. cc q, refl)
    waiver_result_iff f summary policy now (w ∷ ws) limit =
        let (later, rest) = waiver_result_iff f summary policy now ws limit in
        let (ends, q) =
          next_result_iff (waiver_covers fnmatch normalize Time le plus_days w f summary)
            (waiver_decision Time le plus_days w summary policy now) f w.waiver_id
            (waiver_result fnmatch normalize Time le plus_days f summary policy now ws)
            (waiver_decision_iff w summary policy now limit).0 later in
        (ends, q ∙ ap (λ z. is_waiving policy now f summary w || z) rest)
