-- ===== src/Waivers/Audit.antt =====
-- When the audit of the waivers passes.
use mathlib.Core.Bool.{true≢false}
use attestation_layer.Prelude.{
  ℕ, ◌≡◌, ◌↔◌, ◌∙◌, refl, sym, ap, Bool, true, false, not, ◌&&◌, Option, none, some, List, [], ◌∷◌,
  Memᴰ, arith, any, all, all-at, all-intro, is_empty, Option-cases, inl, inr,
}
use attestation_layer.Gate.{GatePolicyWaiverRules, GatePolicy, GateWaiver}
use attestation_layer.Waivers.{
  WaiverAuditFinding, WaiverAuditReport, is_too_long, judge_length, judge_waiver, judge_waivers,
  build_waiver_audit_report,
}

-- There is a finding, and it does not block.
abbrev is_fine : Option WaiverAuditFinding → Bool
is_fine none = false
is_fine (some f) = not f.blocking

abbrev is_clear : Option (List WaiverAuditFinding) → Bool
is_clear none = false
is_clear (some fs) = not (any (λ f. WaiverAuditFinding.blocking f) fs)

abbrev passed_of : Option WaiverAuditReport → Bool
passed_of none = false
passed_of (some r) = r.passed

abbrev is_short : Option Bool → Bool
is_short none = false
is_short (some b) = not b

is_short-some : (o : Option Bool) → is_short o ≡ true → o ≡ some false
is_short-some none h = cc h
is_short-some (some true) h = cc h
is_short-some (some false) h = refl

some-is_short : {o : Option Bool} → o ≡ some false → is_short o ≡ true
some-is_short h = ap is_short h

module _ (Time : Type 0) (le : Time → Time → Bool) (plus_days : Time → ℕ → Option Time) where
  -- The waiver expires within the maximum, where there is one.
  abbrev pub IsWithin : Option ℕ → Time → Time → Type 0
  IsWithin none now expires = Unit
  IsWithin (some days) now expires =
      (limit : Time) × (plus_days now days ≡ some limit) × (le expires limit ≡ true)

  -- A waiver that the policy accepts now.
  pub record IsActive (rules : GatePolicyWaiverRules) (now : Time) (w : GateWaiver Time)
      : Type 0 where
    pub unexpired : le w.expires_at now ≡ false
    pub allowed : rules.allow_waivers ≡ true
    pub within : IsWithin rules.max_duration_days now w.expires_at
    pub hashed : (rules.require_reviewed_hashes && is_empty w.reviewed_hashes) ≡ false
    pub may_satisfy : w.may_satisfy_hard_gate ≡ true

  is_too_long_iff :
      (days : Option ℕ) (now expires : Time)
      → (is_too_long Time le plus_days days now expires ≡ some false) ↔ IsWithin days now expires
  is_too_long_iff none now expires = (λ h. tt, λ h. refl)
  is_too_long_iff (some d) now expires = elim (Option-cases (plus_days now d)) [
    | inl e ↦ (λ h. ground (arith, e, h), λ (l, q, r). ground (arith, e, q))
    | inr (l, e) ↦ (λ h. (l, e, ground (arith, e, h)), λ (k, q, r). ground (arith, e, q, r))
  ]

  is_fine-judge_waiver :
      (rules : GatePolicyWaiverRules) (now : Time) (w : GateWaiver Time)
      → is_fine (judge_waiver Time le plus_days rules now w) ≡ (
          not (le w.expires_at now)
          && (rules.allow_waivers
              && (is_short (is_too_long Time le plus_days rules.max_duration_days now w.expires_at)
                  && (not (rules.require_reviewed_hashes && is_empty w.reviewed_hashes)
                      && w.may_satisfy_hard_gate))))
  unfolding judge_waiver judge_length
  is_fine-judge_waiver rules now w =
      elim (Option-cases (is_too_long Time le plus_days rules.max_duration_days now w.expires_at)) [
        | inl e ↦ ground (arith, e)
        | inr (b, e) ↦ ground (arith, e)
      ]

  -- A waiver gets a finding that does not block exactly if it is active.
  is_fine-iff-IsActive :
      (rules : GatePolicyWaiverRules) (now : Time) (w : GateWaiver Time)
      → (is_fine (judge_waiver Time le plus_days rules now w) ≡ true) ↔ IsActive rules now w
  is_fine-iff-IsActive rules now w =
      let q = is_fine-judge_waiver rules now w in
      let short = is_too_long_iff rules.max_duration_days now w.expires_at in
      (
        λ h. record {
          unexpired = ground (arith, q, h);
          allowed = ground (arith, q, h);
          within = short.0 (is_short-some _ (ground (arith, q, h)));
          hashed = ground (arith, q, h);
          may_satisfy = ground (arith, q, h);
        },
        λ a.
            let s = some-is_short (short.1 (IsActive.within a)) in
            q
            ∙ ground (
              arith,
              s,
              IsActive.unexpired a,
              IsActive.allowed a,
              IsActive.hashed a,
              IsActive.may_satisfy a,
            ),
      )

  all_fine :
      (rules : GatePolicyWaiverRules) (now : Time) (ws : List (GateWaiver Time))
      → is_clear (judge_waivers Time le plus_days rules now ws)
        ≡ all (λ w. is_fine (judge_waiver Time le plus_days rules now w)) ws
  unfolding judge_waivers
  all_fine rules now [] = refl
  all_fine rules now (w ∷ ws) = elim (Option-cases (judge_waiver Time le plus_days rules now w)) [
    | inl e ↦ ground (arith, e)
    | inr (f, e) ↦ elim (Option-cases (judge_waivers Time le plus_days rules now ws)) [
      | inl g ↦ ground (arith, e, g, all_fine rules now ws)
      | inr (fs, g) ↦ ground (arith, e, g, all_fine rules now ws)
    ]
  ]

  passed_of-report :
      (policy : GatePolicy) (waivers : List (GateWaiver Time)) (now : Time)
      → passed_of (build_waiver_audit_report Time le plus_days policy waivers now)
        ≡ is_clear (judge_waivers Time le plus_days policy.waivers now waivers)
  unfolding build_waiver_audit_report
  passed_of-report policy waivers now =
      elim (Option-cases (judge_waivers Time le plus_days policy.waivers now waivers)) [
        | inl e ↦ ground (arith, e)
        | inr (fs, e) ↦ ground (arith, e)
      ]

  -- The audit gives a report that passes exactly when every waiver is active: not expired, allowed
  -- by the policy, within its maximum duration where there is one, with reviewed hashes where they
  -- are required, and allowed to satisfy a hard gate.
  pub build_waiver_audit_report-iff-IsActive :
      (policy : GatePolicy) (waivers : List (GateWaiver Time)) (now : Time)
      → ((report : WaiverAuditReport) × (build_waiver_audit_report Time le plus_days policy waivers
              now
            ≡ some report)
          × (report.passed ≡ true))
        ↔ ((w : GateWaiver Time) → Memᴰ w waivers → IsActive policy.waivers now w)
  unfolding build_waiver_audit_report
  build_waiver_audit_report-iff-IsActive policy waivers now =
      let q = all_fine policy.waivers now waivers in
      let fine : GateWaiver Time → Bool =
        λ w. is_fine (judge_waiver Time le plus_days policy.waivers now w) in
      elim (Option-cases (judge_waivers Time le plus_days policy.waivers now waivers)) [
        | inl e ↦ (
          λ (r, h, p). ground (arith, e, h),
          λ a. absurd (
              true≢false (
                sym (
                  all-intro fine waivers
                    (λ w m. (is_fine-iff-IsActive policy.waivers now w).1 (a w m)))
                ∙ sym q
                ∙ ap is_clear e)),
        )
        | inr (fs, e) ↦ (
          λ (r, h, p) w m. (is_fine-iff-IsActive policy.waivers now w).0 (
              all-at fine waivers m
                (sym q ∙ (sym (passed_of-report policy waivers now) ∙ (ap passed_of h ∙ p)))),
          λ a. (
            record {
              policy_id = policy.policy_id;
              passed = not (any (λ f. WaiverAuditFinding.blocking f) fs);
              findings = fs;
            },
            rw (build_waiver_audit_report, e) refl,
            ap is_clear (sym e)
                ∙ q
                ∙ all-intro fine waivers
                    (λ w m. (is_fine-iff-IsActive policy.waivers now w).1 (a w m)),
          ),
        )
      ]
