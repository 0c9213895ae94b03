-- ===== src/Gate/Verdict.antt =====
-- The report of the hard gate passes exactly if every raw finding is tolerated.
use attestation_layer.Prelude.{
  ℕ, String, ◌≡◌, ◌≢◌, ◌↔◌, ◌∙◌, refl, sym, ap, Bool, true, false, not, ◌&&◌, ◌||◌, Option, none,
  some, List, [], ◌∷◌, map, Memᴰ, arith, any, any-witness, any-of_mem, any-eq-false, any-false_at,
  Option-cases, Bool-cases, inl, inr, Dict, not-true_elim,
}
use attestation_layer.Gate.{
  GatePolicy, GateWaiver, PackageSummary, GateFinding, EvaluatedFinding, WaiverDecision,
  HardGateReport, blocked, finding_blocks, finding_matches_scope, waiver_covers, waiver_result,
  enforce, evaluate_finding, add_finding, summary_of, evaluate_findings, build_hard_gate_report,
  same_enforcement, raw_hard_gate_findings, stable_unique, packages_by_id, assemble,
}
use attestation_layer.Gate.Laws.{
  waived_of, IsInForce, HasLimit, waiver_decision_iff, is_waiving, waiver_result_iff,
}

abbrev is_blocked : EvaluatedFinding → Bool
is_blocked e = same_enforcement blocked e.enforcement

-- The finding was evaluated, and blocks.
abbrev blocks_of : Option (EvaluatedFinding × List WaiverDecision) → Bool
blocks_of none = false
blocks_of (some e) = is_blocked e.0

abbrev any_blocks : Option (List EvaluatedFinding × List WaiverDecision) → Bool
any_blocks none = false
any_blocks (some es) = any is_blocked es.0

enforce_iff :
    (f : GateFinding) (result : Option (Option String × List WaiverDecision))
    → result ≢ none
    → (enforce f result ≢ none) × (blocks_of (enforce f result) ≡ not (waived_of result))
enforce_iff f none r = absurd (r refl)
enforce_iff f (some (none, ds)) r = (λ q. cc q, refl)
enforce_iff f (some (some id, ds)) r = (λ q. cc q, refl)

add_finding_iff :
    (e : Option (EvaluatedFinding × List WaiverDecision))
    (rest : Option (List EvaluatedFinding × List WaiverDecision))
    → e ≢ none
    → rest ≢ none
    → (add_finding e rest ≢ none)
      × (any_blocks (add_finding e rest) ≡ (blocks_of e || any_blocks rest))
add_finding_iff none rest d r = absurd (d refl)
add_finding_iff (some e) none d r = absurd (r refl)
add_finding_iff (some (e, ds)) (some (es, later)) d r = (λ q. cc q, refl)

module _ (fnmatch : String → String → Bool) (normalize : String → String) (Time : Type 0)
    (le : Time → Time → Bool) (plus_days : Time → ℕ → Option Time) where
  -- A finding that is out of scope, or does not block, or that a waiver in force covers.
  abbrev pub IsTolerated :
      GatePolicy
      → Time
      → String
      → List String
      → List (GateWaiver Time)
      → Dict PackageSummary
      → GateFinding
      → Type 0
  IsTolerated policy now packages_dir changed_paths ws packages f =
      (finding_matches_scope fnmatch normalize f (summary_of packages f) packages_dir policy
          changed_paths
        ≡ true)
      → (finding_blocks policy f.category ≡ true)
      → (w : GateWaiver Time) × Memᴰ w ws
        × (waiver_covers fnmatch normalize Time le plus_days w f (summary_of packages f) ≡ true)
        × IsInForce Time le plus_days policy now (summary_of packages f) w

  module _ (policy : GatePolicy) (now : Time) (packages_dir : String) (changed_paths : List String)
      (ws : List (GateWaiver Time)) (packages : Dict PackageSummary)
      (limit : HasLimit Time le plus_days policy now) where
    abbrev summary : GateFinding → Option PackageSummary
    summary f = summary_of packages f

    -- Whether a finding blocks.
    abbrev counts : GateFinding → Bool
    counts f =
        finding_matches_scope fnmatch normalize f (summary f) packages_dir policy changed_paths
        && finding_blocks policy f.category
        && not (any (is_waiving Time le plus_days fnmatch normalize policy now f (summary f)) ws)

    evaluate_finding_iff :
        (f : GateFinding)
        → (evaluate_finding fnmatch normalize Time le plus_days f
              (summary f)
              packages_dir
              policy
              ws
              changed_paths
              now
            ≢ none)
          × (blocks_of (
                evaluate_finding fnmatch normalize Time le plus_days f
                  (summary f)
                  packages_dir
                  policy
                  ws
                  changed_paths
                  now)
              ≡ counts f)
    unfolding evaluate_finding
    evaluate_finding_iff f =
        let (ends, found) =
          waiver_result_iff Time le plus_days fnmatch normalize f (summary f) policy now ws limit in
        let (enforced, q) =
          enforce_iff f
            (waiver_result fnmatch normalize Time le plus_days f (summary f) policy now ws) ends in
        elim (Bool-cases (
          finding_matches_scope fnmatch normalize f (summary f) packages_dir policy
            changed_paths)) [
              | inr out ↦ rw (evaluate_finding, out) (λ n. cc n, refl)
              | inl inside ↦ elim (Bool-cases (finding_blocks policy f.category)) [
                | inr free ↦ rw (evaluate_finding, inside, free) (λ n. cc n, refl)
                | inl blocking ↦
                    rw (evaluate_finding, inside, blocking) (enforced, q ∙ ap not found)
              ]
            ]

    evaluate_findings_iff :
        (fs : List GateFinding)
        → (evaluate_findings fnmatch normalize Time le plus_days packages packages_dir policy ws
              changed_paths now fs
            ≢ none)
          × (any_blocks (
                evaluate_findings fnmatch normalize Time le plus_days packages packages_dir policy
                  ws changed_paths now fs)
              ≡ any counts fs)
    unfolding evaluate_findings
    evaluate_findings_iff [] = (λ n. cc n, refl)
    evaluate_findings_iff (f ∷ fs) =
        let (ends, here) = evaluate_finding_iff f in
        let (later, rest) = evaluate_findings_iff fs in
        let (all_end, q) = add_finding_iff _ _ ends later in (all_end, cc (q, here, rest))

    counts_iff :
        (f : GateFinding)
        → (counts f ≡ false) ↔ IsTolerated policy now packages_dir changed_paths ws packages f
    counts_iff f = (
      λ c inside blocking.
          let waiving = is_waiving Time le plus_days fnmatch normalize policy now f (summary f) in
          let (w, i, e) = any-witness waiving ws (ground (arith, c, inside, blocking)) in
          (
            w,
            i,
            ground (arith, e),
            (waiver_decision_iff Time le plus_days w (summary f) policy now limit).1.0
                (ground (arith, e)),
          ),
      λ t.
          let waiving = is_waiving Time le plus_days fnmatch normalize policy now f (summary f) in
          elim (Bool-cases (
            finding_matches_scope fnmatch normalize f (summary f) packages_dir policy
              changed_paths)) [
                | inr out ↦ ground (arith, out)
                | inl inside ↦ elim (Bool-cases (finding_blocks policy f.category)) [
                  | inr free ↦ ground (arith, free)
                  | inl blocking ↦
                      (let (w, i, covers, force) = t inside blocking in
                        let e : waiving w ≡ true = ground (
                          arith,
                          covers,
                          (waiver_decision_iff Time le plus_days w (summary f) policy now limit).1.1
                              force,
                        ) in
                        ground (arith, any-of_mem waiving ws i e))
                ]
              ],
    )

  -- If the latest expiry that the policy allows is a datetime, the gate gives a report, and the report
  -- passes exactly if every raw finding on the references is out of scope, or of a category that the
  -- policy does not block, or covered by a waiver in force.
  pub build_hard_gate_report-passed_iff :
      (index : List PackageSummary) (packages_dir : String) (requirement_ids : List String)
      (policy : GatePolicy) (ws : List (GateWaiver Time)) (changed : List String) (now : Time)
      → HasLimit Time le plus_days policy now
      → (report : HardGateReport) × (build_hard_gate_report fnmatch normalize Time le plus_days
            index packages_dir requirement_ids policy ws changed now
          ≡ some report)
        × ((report.passed ≡ true) ↔ (
            (f : GateFinding)
            → Memᴰ f (
                raw_hard_gate_findings fnmatch normalize
                  (stable_unique requirement_ids)
                  (packages_by_id index)
                  policy
                  (map normalize changed))
            → IsTolerated policy now packages_dir
                (map normalize changed)
                ws
                (packages_by_id index)
                f))
  unfolding build_hard_gate_report
  build_hard_gate_report-passed_iff index packages_dir requirement_ids policy ws changed now limit =
      let paths = map normalize changed in
      let packages = packages_by_id index in
      let raw =
        raw_hard_gate_findings fnmatch normalize (stable_unique requirement_ids) packages policy
          paths in
      let (ends, blocks) =
        evaluate_findings_iff policy now packages_dir paths ws packages limit raw in
      let tolerated = counts_iff policy now packages_dir paths ws packages limit in
      let count = counts policy now packages_dir paths ws packages limit in
      elim (Option-cases (
        evaluate_findings fnmatch normalize Time le plus_days packages packages_dir policy ws paths
          now raw)) [
            | inl n ↦ absurd (ends n)
            | inr ((es, ds), e) ↦
                (let same : any is_blocked es ≡ any count raw = ap any_blocks (sym e) ∙ blocks in
                  (
                    assemble policy paths (stable_unique requirement_ids) packages es ds,
                    rw (build_hard_gate_report, e) refl,
                    (
                      λ p f i.
                          (tolerated f).0 (any-false_at count raw i (sym same ∙ not-true_elim p)),
                      λ t. ap not (same ∙ any-eq-false count raw (λ f i. (tolerated f).1 (t f i))),
                    ),
                  ))
          ]
