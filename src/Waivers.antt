-- ===== src/Waivers.antt =====
-- policy_governance.py: the audit of the waivers of a hard gate (gate.py), and the governance report
-- over the CI gate (ci_pr_gate.py), the audit and the changes of the policy. Aware datetimes are a
-- parameter: their order, and the addition of days, `none` where it overflows.
pub mod Audit
pub mod Governance
use mathlib.Core.Bool.{decide, decide_iff}
use attestation_layer.Prelude.{
  ℕ, String, ◌≡◌, ◌↔◌, Bool, true, false, not, ◌&&◌, ◌||◌, ◌==◌, Option, none, some, List, [], ◌∷◌,
  ◌++◌, map, filter, any, mem, is_empty, concat, join, sorted, dedupe, Dict, if◌then◌else◌,
}
use attestation_layer.Gate.{GatePolicyWaiverRules, GatePolicy, GateWaiver}

pub data WaiverStatus : Type 0 where
  active expired unsafe out_of_policy : WaiverStatus

pub record WaiverAuditFinding : Type 0 where
  pub waiver_id : String
  pub status : WaiverStatus
  pub blocking : Bool
  pub reason : String

pub record WaiverAuditReport : Type 0 where
  pub policy_id : String
  pub passed : Bool
  pub findings : List WaiverAuditFinding

abbrev finding : String → WaiverStatus → Bool → String → WaiverAuditFinding
finding id status blocking reason = record {
  waiver_id = id;
  status = status;
  blocking = blocking;
  reason = reason;
}

module _ (Time : Type 0) (le : Time → Time → Bool) (plus_days : Time → ℕ → Option Time) where
  -- `waiver.expires_at > now + timedelta(days=...)`, if the policy has a maximum; `none` where the
  -- sum overflows
  abbrev pub is_too_long : Option ℕ → Time → Time → Option Bool
  is_too_long none now expires = some false
  is_too_long (some days) now expires = elim (plus_days now days) [
    | none ↦ none
    | some limit ↦ some (not (le expires limit))
  ]

  -- the last three branches
  pub judge_length : GatePolicyWaiverRules → GateWaiver Time → Bool → WaiverAuditFinding
  judge_length rules w too_long =
      if too_long
      then finding w.waiver_id out_of_policy true
          "waiver expiration exceeds policy maximum duration"
      else if rules.require_reviewed_hashes && is_empty w.reviewed_hashes
      then finding w.waiver_id out_of_policy true "policy requires reviewed hashes for waivers"
      else if not w.may_satisfy_hard_gate
      then finding w.waiver_id unsafe true "waiver may not satisfy hard gate"
      else finding w.waiver_id active false "waiver is active and policy allows waivers"

  -- one run of the loop
  pub judge_waiver : GatePolicyWaiverRules → Time → GateWaiver Time → Option WaiverAuditFinding
  unfolding judge_length
  judge_waiver rules now w =
      if le w.expires_at now
      then some (finding w.waiver_id expired true "waiver is expired")
      else if not rules.allow_waivers
      then some (finding w.waiver_id out_of_policy true "policy does not allow waivers")
      else elim (is_too_long rules.max_duration_days now w.expires_at) [
        | none ↦ none
        | some too_long ↦ some (judge_length rules w too_long)
      ]

  pub judge_waivers :
      GatePolicyWaiverRules → Time → List (GateWaiver Time) → Option (List WaiverAuditFinding)
  judge_waivers rules now [] = some []
  judge_waivers rules now (w ∷ ws) = elim (judge_waiver rules now w) [
    | none ↦ none
    | some f ↦ elim (judge_waivers rules now ws) [ none ↦ none | some fs ↦ some (f ∷ fs) ]
  ]

  unfoldable pub build_waiver_audit_report :
      GatePolicy → List (GateWaiver Time) → Time → Option WaiverAuditReport
  unfolding judge_waivers judge_waiver
  build_waiver_audit_report policy waivers now = elim (judge_waivers policy.waivers now waivers) [
    | none ↦ none
    | some findings ↦ some (record {
      policy_id = policy.policy_id;
      passed = not (any (λ f. WaiverAuditFinding.blocking f) findings);
      findings = findings;
    })
  ]

pub data GateMode : Type 0 where
  report_only soft_gate hard_gate : GateMode

pub data Enforcement : Type 0 where
  no_enforcement advisory blocking_enforcement : Enforcement

pub data CiResult : Type 0 where
  ci_reported ci_passed ci_blocked : CiResult

-- The fields of the CI report that the governance report reads.
pub record ExtendedCiPrGateReport : Type 0 where
  pub mode : GateMode
  pub result : CiResult
  pub enforcement : Enforcement
  pub stable_json_hash : String
  pub waiver_ids : List String

pub record PolicyChangeRecord : Type 0 where
  pub change_id : String
  pub policy_hash : String
  pub previous_policy_hash : Option String
  pub reviewed_by : Option String
  pub reviewed_at : Option String
  pub rationale : String

-- The report without the digests of its inputs.
pub record CiPolicyGovernanceReport : Type 0 where
  pub governance_id : String
  pub passed : Bool
  pub required_check_name : String
  pub branch_protection_required_checks : List String
  pub policy_changes : List PolicyChangeRecord
  pub unreviewed_policy_changes : List String
  pub findings : List String

abbrev pub is_hard : GateMode → Bool
is_hard hard_gate = true
is_hard _ = false

abbrev pub is_enforcing : Enforcement → Bool
is_enforcing blocking_enforcement = true
is_enforcing _ = false

abbrev pub is_ci_passed : CiResult → Bool
is_ci_passed ci_passed = true
is_ci_passed _ = false

abbrev result_text : CiResult → String
result_text ci_reported = "reported"
result_text ci_passed = "passed"
result_text ci_blocked = "blocked"

-- `not text`, of an optional text
abbrev pub is_unset : Option String → Bool
is_unset none = true
is_unset (some s) = s == ""

-- `[message] if test else []`
abbrev pub report_if : Bool → String → List String
report_if test message = if test then message ∷ [] else []

-- `set(ci.waiver_ids) - audited_waiver_ids`, sorted
abbrev pub missing_audits : ExtendedCiPrGateReport → WaiverAuditReport → List String
missing_audits ci audit = sorted (
    filter (λ id. not (mem id (map (λ f. WaiverAuditFinding.waiver_id f) audit.findings)))
      (dedupe ci.waiver_ids))

abbrev pub needs_review : Bool → PolicyChangeRecord → Bool
needs_review required c = required && (is_unset c.reviewed_by || is_unset c.reviewed_at)

abbrev pub unreviewed_of : Bool → List PolicyChangeRecord → List String
unreviewed_of required changes =
    sorted (map (λ c. PolicyChangeRecord.change_id c) (filter (needs_review required) changes))

-- the list `findings`
pub governance_findings :
    ExtendedCiPrGateReport
    → WaiverAuditReport
    → List String
    → List PolicyChangeRecord
    → String
    → Bool
    → List String
governance_findings ci audit checks changes check_name reviewed_changes =
    let missing = missing_audits ci audit in
    let unreviewed = unreviewed_of reviewed_changes changes in
    report_if (not (mem check_name checks))
      (concat ("branch protection is missing required check " ∷ check_name ∷ []))
    ++ (report_if (not (is_hard ci.mode)) "CI report is not in hard_gate mode"
        ++ (report_if (not (is_enforcing ci.enforcement)) "CI enforcement is not blocking"
            ++ (report_if (not (is_ci_passed ci.result))
                  (concat ("CI result is " ∷ result_text ci.result ∷ []))
                ++ (report_if (ci.stable_json_hash == "") "CI stable JSON hash is missing"
                    ++ (report_if (not audit.passed) "waiver audit did not pass"
                        ++ (report_if (not (is_empty missing)) (
                              concat
                                ("CI waivers missing audit entries: " ∷ join ", " missing ∷ []))
                            ++ report_if (not (is_empty unreviewed)) (
                                concat (
                                  "policy changes missing review: "
                                  ∷ join ", " unreviewed
                                  ∷ []))))))))

unfoldable pub build_ci_policy_governance_report :
    String
    → ExtendedCiPrGateReport
    → WaiverAuditReport
    → List String
    → List PolicyChangeRecord
    → String
    → Bool
    → CiPolicyGovernanceReport
unfolding governance_findings
build_ci_policy_governance_report id ci audit checks changes check_name reviewed_changes =
    let findings = governance_findings ci audit checks changes check_name reviewed_changes in
    record {
      governance_id = id;
      passed = is_empty findings;
      required_check_name = check_name;
      branch_protection_required_checks = checks;
      policy_changes = changes;
      unreviewed_policy_changes = unreviewed_of reviewed_changes changes;
      findings = findings;
    }
