-- ===== src/Waivers/Governance.antt =====
-- When the governance report passes.
use mathlib.Core.List.Memᴰ
use mathlib.Core.Bool.{true≢false}
use attestation_layer.Prelude.{
  String, ◌≡◌, ◌≢◌, ◌↔◌, ◌∙◌, refl, sym, ap, subst, Bool, true, false, not, ◌==◌, List, [], ◌∷◌,
  Memᴰ, arith, map, filter, is_empty, is_empty-eq-nil, append-eq-nil, filter-eq-nil,
  map-filter-eq-nil, mem, mem_iff, mem-sorted, sorted, dedupe, mem-dedupe, Bool-cases, inl, inr,
  not-false_elim, eq_iff,
}
use attestation_layer.Waivers.{
  WaiverAuditFinding, WaiverAuditReport, GateMode, Enforcement, CiResult, ExtendedCiPrGateReport,
  PolicyChangeRecord, is_hard, is_enforcing, is_ci_passed, report_if, missing_audits, needs_review,
  unreviewed_of, governance_findings, build_ci_policy_governance_report,
}

-- What a passing governance report asks for: the required check protects the branch, the CI gate
-- ran hard and blocking, passed and has a hash, the audit passed and has an entry for every waiver
-- of the CI report, and where reviews are required each change of the policy has been reviewed.
pub record IsGoverned (ci : ExtendedCiPrGateReport) (audit : WaiverAuditReport)
    (checks : List String) (changes : List PolicyChangeRecord) (check_name : String)
    (reviewed_changes : Bool) : Type 0 where
  pub protected : Memᴰ check_name checks
  pub hard : ci.mode ≡ GateMode.hard_gate
  pub enforced : ci.enforcement ≡ Enforcement.blocking_enforcement
  pub gate_passed : ci.result ≡ CiResult.ci_passed
  pub hashed : ci.stable_json_hash ≢ ""
  pub audit_passed : audit.passed ≡ true
  pub audited :
      (id : String)
      → Memᴰ id ci.waiver_ids
      → Memᴰ id (map (λ f. WaiverAuditFinding.waiver_id f) audit.findings)
  pub reviewed : (c : PolicyChangeRecord) → Memᴰ c changes → needs_review reviewed_changes c ≡ false

report_if-eq-nil : (b : Bool) (message : String) → (report_if b message ≡ []) ↔ (b ≡ false)
report_if-eq-nil b message = ground arith

hard_iff : (m : GateMode) → (is_hard m ≡ true) ↔ (m ≡ GateMode.hard_gate)
hard_iff m = ground arith

enforcing_iff : (m : Enforcement) → (is_enforcing m ≡ true) ↔ (m ≡ Enforcement.blocking_enforcement)
enforcing_iff m = ground arith

ci_passed_iff : (m : CiResult) → (is_ci_passed m ≡ true) ↔ (m ≡ CiResult.ci_passed)
ci_passed_iff m = ground arith

sorted_empty_iff : (xs : List String) → (is_empty (sorted xs) ≡ true) ↔ (xs ≡ [])
unfolding sorted
sorted_empty_iff [] = (λ h. refl, λ h. ap (λ ys. is_empty (sorted ys)) h)
sorted_empty_iff (x ∷ xs) = (
  λ h. absurd (
      Memᴰ.not-nil (
        subst (λ ys. Memᴰ x ys) (is_empty-eq-nil (sorted (x ∷ xs)) h)
          ((mem-sorted x (x ∷ xs)).1 (Memᴰ.head refl)))),
  λ h. ap (λ ys. is_empty (sorted ys)) h,
)

missing_audits_iff :
    (ci : ExtendedCiPrGateReport) (audit : WaiverAuditReport)
    → (is_empty (missing_audits ci audit) ≡ true) ↔ (
        (id : String)
        → Memᴰ id ci.waiver_ids
        → Memᴰ id (map (λ f. WaiverAuditFinding.waiver_id f) audit.findings))
missing_audits_iff ci audit =
    let ids = map (λ f. WaiverAuditFinding.waiver_id f) audit.findings in
    let test : String → Bool = λ id. not (mem id ids) in
    let nil = filter-eq-nil test (dedupe ci.waiver_ids) in
    let empty = sorted_empty_iff (filter test (dedupe ci.waiver_ids)) in
    (
      λ h id m.
          (mem_iff id ids).0
            (not-false_elim (nil.0 (empty.0 h) id ((mem-dedupe id ci.waiver_ids).1 m))),
      λ h.
          empty.1 (
            nil.1 (λ id m. ap not ((mem_iff id ids).1 (h id ((mem-dedupe id ci.waiver_ids).0 m))))),
    )

unreviewed_iff :
    (required : Bool) (changes : List PolicyChangeRecord)
    → (is_empty (unreviewed_of required changes) ≡ true)
      ↔ ((c : PolicyChangeRecord) → Memᴰ c changes → needs_review required c ≡ false)
unreviewed_iff required changes =
    let nil =
      map-filter-eq-nil (λ c. PolicyChangeRecord.change_id c) (needs_review required) changes in
    let empty =
      sorted_empty_iff
        (map (λ c. PolicyChangeRecord.change_id c) (filter (needs_review required) changes)) in
    (λ h. nil.0 (empty.0 h), λ h. empty.1 (nil.1 h))

-- A finding that is reported unless the test holds.
absent_iff : (b : Bool) (message : String) → (report_if (not b) message ≡ []) ↔ (b ≡ true)
absent_iff b message = ground arith

hashed_iff : (s : String) → ((s == "") ≡ false) ↔ (s ≢ "")
hashed_iff s = (
  λ h q. true≢false (sym ((eq_iff s "").1 q) ∙ h),
  λ n. elim (Bool-cases (s == "")) [ inl e ↦ absurd (n ((eq_iff s "").0 e)) | inr e ↦ e ],
)

-- The report passes exactly when the required check protects the branch, the CI gate ran hard and
-- blocking, passed and has a hash, the audit passed and covers every waiver of the CI report, and,
-- where reviews are required, every policy change has a reviewer and a time of review.
pub build_ci_policy_governance_report-iff-IsGoverned :
    (id : String) (ci : ExtendedCiPrGateReport) (audit : WaiverAuditReport) (checks : List String)
    (changes : List PolicyChangeRecord) (check_name : String) (reviewed_changes : Bool)
    → ((build_ci_policy_governance_report id ci audit checks changes check_name
          reviewed_changes).passed
        ≡ true)
      ↔ IsGoverned ci audit checks changes check_name reviewed_changes
unfolding build_ci_policy_governance_report governance_findings
build_ci_policy_governance_report-iff-IsGoverned id ci audit checks changes check_name
      reviewed_changes =
    (
      λ h.
          let (a, r1) = (append-eq-nil _ _).0 (is_empty-eq-nil _ h) in
          let (b, r2) = (append-eq-nil _ _).0 r1 in
          let (c, r3) = (append-eq-nil _ _).0 r2 in
          let (d, r4) = (append-eq-nil _ _).0 r3 in
          let (e, r5) = (append-eq-nil _ _).0 r4 in
          let (f, r6) = (append-eq-nil _ _).0 r5 in
          let (g, i) = (append-eq-nil _ _).0 r6 in
          record {
            protected = (mem_iff _ _).0 ((absent_iff _ _).0 a);
            hard = (hard_iff _).0 ((absent_iff _ _).0 b);
            enforced = (enforcing_iff _).0 ((absent_iff _ _).0 c);
            gate_passed = (ci_passed_iff _).0 ((absent_iff _ _).0 d);
            hashed = (hashed_iff _).0 ((report_if-eq-nil _ _).0 e);
            audit_passed = (absent_iff _ _).0 f;
            audited = (missing_audits_iff ci audit).0 ((absent_iff _ _).0 g);
            reviewed = (unreviewed_iff reviewed_changes changes).0 ((absent_iff _ _).0 i);
          },
      λ w. ap is_empty (
          (append-eq-nil _ _).1 (
            (absent_iff _ _).1 ((mem_iff _ _).1 (IsGoverned.protected w)),
            (append-eq-nil _ _).1 (
              (absent_iff _ _).1 ((hard_iff _).1 (IsGoverned.hard w)),
              (append-eq-nil _ _).1 (
                (absent_iff _ _).1 ((enforcing_iff _).1 (IsGoverned.enforced w)),
                (append-eq-nil _ _).1 (
                  (absent_iff _ _).1 ((ci_passed_iff _).1 (IsGoverned.gate_passed w)),
                  (append-eq-nil _ _).1 (
                    (report_if-eq-nil _ _).1 ((hashed_iff _).1 (IsGoverned.hashed w)),
                    (append-eq-nil _ _).1 (
                      (absent_iff _ _).1 (IsGoverned.audit_passed w),
                      (append-eq-nil _ _).1 (
                        (absent_iff _ _).1 ((missing_audits_iff ci audit).1 (IsGoverned.audited w)),
                        (absent_iff _ _).1
                            ((unreviewed_iff reviewed_changes changes).1 (IsGoverned.reviewed w)),
                      ),
                    ),
                  ),
                ),
              ),
            ),
          )),
    )
