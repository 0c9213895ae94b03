-- ===== src/Gate/Sound.antt =====
-- What a pass of the hard gate says of the referenced packages, under the default block list, with
-- no report-only findings, no restriction of the scope and no waivers.
use mathlib.Core.List.Memᴰ
use mathlib.Core.Logic.{⊎_elim}
use attestation_layer.Prelude.{
  ℕ, String, ◌≡◌, ◌≢◌, refl, Bool, true, false, Option, none, some, List, [], ◌∷◌, map, Memᴰ, arith,
  any, any-eq-false, any-append-false, Bool-cases, inl, inr, Dict, lookup,
}
use attestation_layer.Gate.{
  GatePolicy, GateWaiver, PackageSummary, GateFinding, HardGateReport, finding_of, finding_blocks,
  build_hard_gate_report, raw_hard_gate_findings, findings_on, findings_on_all, stable_unique,
  packages_by_id, summary_of,
}
use attestation_layer.Gate.Laws.{HasLimit}
use attestation_layer.Gate.Verdict.{build_hard_gate_report-passed_iff}
use attestation_layer.Gate.Clear.{
  IsStrict, IsCleared, unique_from-mem, finding_blocks-common, matches-strict, blocking,
  findings_on-clear,
}

module _ (fnmatch : String → String → Bool) (normalize : String → String) where
  -- Where nothing blocks among the findings on all references, nothing blocks on each.
  findings_on_all-clear :
      (p : GateFinding → Bool) (packages : Dict PackageSummary) (policy : GatePolicy)
      (changed ids : List String) (id : String)
      → any p (findings_on_all fnmatch normalize packages policy changed ids) ≡ false
      → Memᴰ id ids
      → any p (findings_on fnmatch normalize packages policy changed id) ≡ false
  unfolding findings_on_all
  findings_on_all-clear p packages policy changed [] id n m = elim m [ ]
  findings_on_all-clear p packages policy changed (x ∷ xs) id n m =
      let (here, later) =
        any-append-false p (findings_on fnmatch normalize packages policy changed x)
          (findings_on_all fnmatch normalize packages policy changed xs) n in
      ⊎_elim (λ (e : id ≡ x). rw e here)
        (λ (i : Memᴰ id xs). findings_on_all-clear p packages policy changed xs id later i)
        (Memᴰ.cases_cons m)

  raw-clear :
      (p : GateFinding → Bool) (packages : Dict PackageSummary) (policy : GatePolicy)
      (changed ids : List String)
      → any p (raw_hard_gate_findings fnmatch normalize ids packages policy changed) ≡ false
      → p (
          finding_of "missing_requirement_reference" none ""
            "implementation change does not reference a requirement package")
        ≡ true
      → (ids ≢ []) × (any p (findings_on_all fnmatch normalize packages policy changed ids) ≡ false)
  unfolding raw_hard_gate_findings
  raw-clear p packages policy changed [] n h = absurd (ground (arith, n, h))
  raw-clear p packages policy changed (id ∷ ids) n h = (λ q. cc q, n)

  stable_unique-nil : (ids : List String) → stable_unique ids ≢ [] → ids ≢ []
  stable_unique-nil [] n e = n refl
  stable_unique-nil (id ∷ ids) n e = cc e

  -- Under the default block list, no report-only findings, an unrestricted scope, no waivers and a
  -- latest expiry that is a datetime, a pass of the gate means that there is a reference, and every referenced requirement has a package that is valid, has an allowed
  -- status or an accepted machine pin, is reviewed where that is required or accepted as machine-pinned,
  -- has no pending review, and has achieved each required level in some claim.
  pub build_hard_gate_report-IsCleared :
      (Time : Type 0) (le : Time → Time → Bool) (plus_days : Time → ℕ → Option Time)
      (index : List PackageSummary) (packages_dir : String) (ids : List String)
      (policy : GatePolicy) (ws : List (GateWaiver Time)) (changed : List String) (now : Time)
      (report : HardGateReport)
      → HasLimit Time le plus_days policy now
      → IsStrict policy
      → build_hard_gate_report fnmatch normalize Time le plus_days index packages_dir ids policy ws
          changed now
        ≡ some report
      → report.passed ≡ true
      → (ids ≢ [])
        × ((id : String)
            → Memᴰ id ids
            → (p : PackageSummary) × (lookup id (packages_by_id index) ≡ some p)
              × IsCleared fnmatch normalize policy (map normalize changed) p)
  build_hard_gate_report-IsCleared Time le plus_days index packages_dir ids policy ws changed now
        report limit strict built passed =
      let (r, e, iff) =
        build_hard_gate_report-passed_iff fnmatch normalize Time le plus_days index packages_dir ids
          policy ws changed now limit in
      let same : report ≡ r = cc (built, e) in
      let tolerated = iff.0 (rw same at passed) in
      let packages = packages_by_id index in
      let paths = map normalize changed in
      let free =
        any-eq-false (blocking fnmatch normalize policy strict paths "")
          (raw_hard_gate_findings fnmatch normalize (stable_unique ids) packages policy paths)
          (λ f i. elim (Bool-cases (finding_blocks policy f.category)) [
            | inr b ↦ b
            | inl b ↦
                (let (w, j, covers, force) =
                    tolerated f i
                      (matches-strict fnmatch normalize policy f (summary_of packages f)
                        packages_dir paths strict)
                      b in
                  absurd (cc (force.allowed, strict.no_waivers)))
          ]) in
      let (some_id, clear) =
        raw-clear (blocking fnmatch normalize policy strict paths "") packages policy paths
          (stable_unique ids) free
          (finding_blocks-common policy "missing_requirement_reference" strict refl) in
      (
        stable_unique-nil ids some_id,
        λ id m. findings_on-clear fnmatch normalize policy strict paths id packages (
            findings_on_all-clear (blocking fnmatch normalize policy strict paths id) packages
              policy paths (stable_unique ids) id clear (unique_from-mem [] ids id m refl)),
      )
