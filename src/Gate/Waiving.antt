-- ===== src/Gate/Waiving.antt =====
-- gate.py: the decision on one waiver.
use attestation_layer.Prelude.{
  ℕ, String, Bool, true, false, not, ◌==◌, Option, none, some, List, [], ◌∷◌, map, filter, is_empty,
  Dict, lookup, join, concat, or_else, if◌then◌else◌,
}
use attestation_layer.Gate.Records.{
  GateFinding, WaiverDecision, GatePolicy, GateWaiver, PackageSummary, DecisionKind, applied,
  not_allowed, lapsed, duration_exceeds_policy, stale,
}

-- `ARTIFACT_HASH_ALIASES`
abbrev artifact_hash_aliases : Dict String
artifact_hash_aliases =
    ("requirement_ir", "requirement.ir.json")
    ∷ ("requirement.ir", "requirement.ir.json")
    ∷ ("status", "status.json")
    ∷ ("evidence", "evidence.json")
    ∷ ("review", "review.json")
    ∷ ("bindings", "bindings.json")
    ∷ ("assumptions", "assumptions.json")
    ∷ ("verification_tasks", "verification-tasks.json")
    ∷ ("verification-tasks", "verification-tasks.json")
    ∷ ("implementation_spec", "implementation-spec.md")
    ∷ ("implementation-spec", "implementation-spec.md")
    ∷ []

-- the hash of the artifact that a reviewed key names is not the reviewed one
abbrev pub is_stale_hash : Dict String → String × String → Bool
is_stale_hash package_hashes (key, expected_hash) =
    elim (lookup (or_else (lookup key artifact_hash_aliases) key) package_hashes) [
      | none ↦ true
      | some h ↦ not (h == expected_hash)
    ]

-- `_stale_waiver_hashes`
unfoldable pub stale_waiver_hashes : Dict String → PackageSummary → List String
stale_waiver_hashes [] summary = "reviewed_hashes" ∷ []
stale_waiver_hashes (e ∷ es) summary =
    map (λ h. h.0) (filter (is_stale_hash summary.artifacts) (e ∷ es))

abbrev pub is_applied : DecisionKind → Bool
is_applied applied = true
is_applied _ = false

-- `decisions.append(...)`
abbrev add_decision :
    WaiverDecision
    → Option (Option String × List WaiverDecision)
    → Option (Option String × List WaiverDecision)
add_decision d none = none
add_decision d (some (id, ds)) = some (id, d ∷ ds)

-- one run of the loop of `_waiver_result`: whether the waiver covers the finding, its decision, and
-- what the later runs give
abbrev pub next_result :
    Bool
    → Option (DecisionKind × String)
    → GateFinding
    → String
    → Option (Option String × List WaiverDecision)
    → Option (Option String × List WaiverDecision)
next_result false decision f waiver_id rest = rest
next_result true none f waiver_id rest = none
next_result true (some (kind, reason)) f waiver_id rest =
    let d : WaiverDecision = record {
      waiver_id = waiver_id;
      requirement_id = f.requirement_id;
      path = f.path;
      category = f.category;
      decision = kind;
      reason = reason;
    } in
    if is_applied kind then some (some waiver_id, d ∷ []) else add_decision d rest

-- The decisions do not look at the finding.
module _ (Time : Type 0) (le : Time → Time → Bool) (plus_days : Time → ℕ → Option Time) where
  -- the test on the reviewed hashes
  unfoldable pub judge_hashes :
      GateWaiver Time → Option PackageSummary → GatePolicy → DecisionKind × String
  unfolding stale_waiver_hashes
  judge_hashes w summary policy =
      if not policy.waivers.require_reviewed_hashes
      then (applied, "waiver covers this finding")
      else elim summary [
        | none ↦ (stale, "waiver cannot verify reviewed hashes without a package")
        | some p ↦
            (let stale_hashes = stale_waiver_hashes w.reviewed_hashes p in
              if not (is_empty stale_hashes)
              then (stale, concat ("reviewed hashes do not match: " ∷ join ", " stale_hashes ∷ []))
              else (applied, "waiver covers this finding"))
      ]

  -- the test on the duration, before the rest of the tests; `none` where the latest expiry overflows
  abbrev pub judge_duration :
      GateWaiver Time → Option ℕ → Time → DecisionKind × String → Option (DecisionKind × String)
  judge_duration w none now rest = some rest
  judge_duration w (some days) now rest = elim (plus_days now days) [
    | none ↦ none
    | some max_expires_at ↦ some (
        if not (le w.expires_at max_expires_at)
        then (duration_exceeds_policy, "waiver expiration exceeds policy maximum")
        else rest)
  ]

  -- `_waiver_decision`
  unfoldable pub waiver_decision :
      GateWaiver Time → Option PackageSummary → GatePolicy → Time → Option (DecisionKind × String)
  unfolding judge_hashes
  waiver_decision w summary policy now =
      if not policy.waivers.allow_waivers
      then some (not_allowed, "policy does not allow hard-gate waivers")
      else if not w.may_satisfy_hard_gate
      then some (not_allowed, "waiver may not satisfy hard-gate enforcement")
      else if le w.expires_at now
      then some (lapsed, "waiver is expired")
      else judge_duration w policy.waivers.max_duration_days now (judge_hashes w summary policy)
