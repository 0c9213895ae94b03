-- ===== src/Models/Pinning.antt =====
-- models.py: reviews, ensembles, and the provenance of a pinned meaning, each with the guard that
-- its construction runs. A guard that raises gives its reason.
pub mod Laws
use attestation_layer.Prelude.{
  ℕ, String, Bool, true, false, not, ◌&&◌, ◌||◌, Option, none, some, List, [], ◌∷◌, ◌++◌, map, any,
  filter, length, is_empty, mem, dedupe, Dict, ltb, num_eq, is_none, is_some, if◌then◌else◌, Result,
  ok, err, ◌==◌,
}
use attestation_layer.Models.Formats.{is_blank, is_content_hash, is_placeholder_reviewer}

pub data Decision : Type 0 where
  approved needs_review rejected : Decision

pub data Origin : Type 0 where
  human package_builder : Origin

-- The checklist plays no part in a guard and is left out.
pub record ReviewArtifact : Type 0 where
  pub review_id : String
  pub reviewer : String
  pub decision : Decision
  pub self_audit : Bool
  pub reviewed_hashes : Dict String
  pub timestamp : String
  pub review_origin : Origin

abbrev is_human : Origin → Bool
is_human Origin.human = true
is_human Origin.package_builder = false

abbrev is_approved : Decision → Bool
is_approved Decision.approved = true
is_approved _ = false

-- `ReviewArtifact._human_origin_requires_a_real_reviewer`
pub check_review : (ℕ → Bool) → ReviewArtifact → Option ReviewArtifact
check_review is_decimal r =
    if is_human r.review_origin && is_placeholder_reviewer is_decimal r.reviewer
    then none
    else some r

-- `is_real_human_review`; `none` is an object that is no review
pub is_real_human_review : Option ReviewArtifact → Bool
is_real_human_review none = false
is_real_human_review (some r) = is_human r.review_origin

pub record EnsembleMember : Type 0 where
  pub member_id : String
  pub resolved_model_id : String
  pub provider_family : String

-- `EnsembleMember._require_non_blank_identifiers`
pub check_member : EnsembleMember → Option EnsembleMember
check_member m =
    if is_blank m.member_id || is_blank m.resolved_model_id || is_blank m.provider_family
    then none
    else some m

pub record EnsembleAgreementResult : Type 0 where
  pub agreed : Bool
  pub agreement_hash : String

-- `EnsembleAgreementResult._require_agreed_with_content_hash`
pub check_agreement : EnsembleAgreementResult → Option EnsembleAgreementResult
check_agreement a =
    if not a.agreed then none else if not (is_content_hash a.agreement_hash) then none else some a

pub record EnsembleAuditVerdict : Type 0 where
  pub member_id : String
  pub passed : Bool
  pub detail : Option String

-- `EnsembleAuditVerdict._require_non_blank_member_id`
pub check_verdict : EnsembleAuditVerdict → Option EnsembleAuditVerdict
check_verdict v = if is_blank v.member_id then none else some v

pub record EnsembleEvidence : Type 0 where
  pub members : List EnsembleMember
  pub agreement : EnsembleAgreementResult
  pub audit_verdicts : List EnsembleAuditVerdict
  pub policy_hash : String

-- The seven raises of `EnsembleEvidence._require_cross_provider_passing_ensemble`, in its order.
pub data EnsembleError : Type 0 where
  too_few_members same_family duplicate_members duplicate_verdicts : EnsembleError
  verdicts_do_not_cover failed_audit bad_policy_hash : EnsembleError

-- `set(xs) - set(ys)`
abbrev difference : List String → List String → List String
difference xs ys = filter (λ x. not (mem x ys)) (dedupe xs)

abbrev has_duplicates : List String → Bool
has_duplicates xs = not (num_eq (length (dedupe xs)) (length xs))

abbrev family_of : EnsembleMember → String
family_of m = m.provider_family

abbrev id_of : EnsembleMember → String
id_of m = m.member_id

abbrev judged : EnsembleAuditVerdict → String
judged v = v.member_id

unfoldable pub check_ensemble : EnsembleEvidence → Result EnsembleError EnsembleEvidence
check_ensemble e =
    let families = dedupe (map family_of e.members) in
    let member_ids = map id_of e.members in
    let verdict_ids = map judged e.audit_verdicts in
    let missing = difference member_ids verdict_ids in
    let extra = difference verdict_ids member_ids in
    let failed = map judged (filter (λ v. not v.passed) e.audit_verdicts) in
    if ltb (length e.members) 2
    then err too_few_members
    else if ltb (length families) 2
    then err same_family
    else if has_duplicates member_ids
    then err duplicate_members
    else if has_duplicates verdict_ids
    then err duplicate_verdicts
    else if not (is_empty missing) || not (is_empty extra)
    then err verdicts_do_not_cover
    else if not (is_empty failed)
    then err failed_audit
    else if not (is_content_hash e.policy_hash)
    then err bad_policy_hash
    else ok e

pub data PinKind : Type 0 where
  human_review machine_agreement : PinKind

pub record PinningProvenance : Type 0 where
  pub kind : PinKind
  pub review_event : Option ReviewArtifact
  pub ensemble : Option EnsembleEvidence
  pub timestamp : String

-- The six raises of `PinningProvenance._require_backing_for_kind`.
pub data PinError : Type 0 where
  no_ensemble machine_with_review human_with_ensemble : PinError
  no_review_event fabricated_review not_approved : PinError

check_event : PinningProvenance → Option ReviewArtifact → Result PinError PinningProvenance
check_event p none = err no_review_event
check_event p (some r) =
    if not (is_human r.review_origin)
    then err fabricated_review
    else if not (is_approved r.decision)
    then err not_approved
    else ok p

check_kind : PinKind → PinningProvenance → Result PinError PinningProvenance
unfolding check_event
check_kind machine_agreement p =
    if is_none p.ensemble
    then err no_ensemble
    else if is_some p.review_event
    then err machine_with_review
    else ok p
check_kind human_review p =
    if is_some p.ensemble then err human_with_ensemble else check_event p p.review_event

pub check_pinning : PinningProvenance → Result PinError PinningProvenance
unfolding check_kind
check_pinning p = check_kind p.kind p
