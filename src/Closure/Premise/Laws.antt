-- ===== src/Closure/Premise/Laws.antt =====
-- What a discharged premise rests on.
use attestation_layer.Prelude.{
  ◌≡◌, ◌↔◌, Bool, true, false, Option, none, some, List, [], ◌∷◌, Memᴰ, arith, filter, find,
  find-some, of_mem-filter, is_empty, is_empty-eq-nil, Option-cases, inl, inr, refl, ap, sym, subst,
  not, ◌&&◌, eq_iff,
}
use attestation_layer.Models.Evidence.{EvidenceLevel, same_level, same_level_iff}
use attestation_layer.Models.Backing.{bounded_evidence_backing_complete}
use attestation_layer.Models.Result.{BackendStatus, BackendResult, is_valid, claims_level}
use attestation_layer.Closure.Producers.{
  EvidenceProducer, ProducerMapping, producer_by_id, allows, is_high_assurance,
}
use attestation_layer.Closure.Plan.{Route, formal_claim}
use attestation_layer.Closure.Premise.{
  discharged, bounded_backing_problems, declares, is_matching, covers, premise_from, refused,
  judge_producer, judge_registered, judge_level, judge, choose, judge_chosen, evaluate_premise,
}

-- A result of the routed backend that discharges the route, and the producer that may emit it.
pub record Discharges (route : Route) (results : List BackendResult) (mapping : ProducerMapping)
    : Type 0 where
  pub result : BackendResult
  pub supplied : Memᴰ result results
  pub by_backend : result.backend ≡ route.backend_id
  pub declared : route.routing_mode ≡ formal_claim → declares route result ≡ true
  pub is_valid : result.status ≡ BackendStatus.valid
  pub level : result.evidence_level ≡ some route.required_evidence
  pub producer : EvidenceProducer
  pub registered : producer_by_id result.backend mapping ≡ some producer
  pub allowed : allows producer route.required_evidence ≡ true
  pub is_real : is_high_assurance route.required_evidence ≡ true → producer.real_producer ≡ true
  pub backed : bounded_backing_problems result ≡ []

-- A result is free of backing problems exactly if it makes no bounded claim or its backing is
-- complete.
pub bounded_backing_problems_iff :
    (r : BackendResult)
    → (bounded_backing_problems r ≡ []) ↔ (
        (r.evidence_level ≡ some EvidenceLevel.bounded_checked)
        → bounded_evidence_backing_complete r.details ≡ true)
unfolding bounded_backing_problems bounded_evidence_backing_complete claims_level
bounded_backing_problems_iff r = elim (Option-cases r.evidence_level) [
  | inl n ↦ (λ h e. absurd (cc (n, e)), λ h. rw (n, bounded_backing_problems, claims_level))
  | inr (l, e) ↦ (
    λ h k.
        ground (arith, same_level_iff EvidenceLevel.bounded_checked EvidenceLevel.bounded_checked),
    λ h. ground (arith, same_level_iff l EvidenceLevel.bounded_checked, h),
  )
]

valid_status : (s : BackendStatus) → is_valid s ≡ true → s ≡ BackendStatus.valid
valid_status BackendStatus.valid h = refl
valid_status _ h = cc

abbrev valid_result : BackendResult → Bool
valid_result x = is_valid x.status

module _ (route : Route) (r : BackendResult) where
  judge_producer_facts :
      (level : EvidenceLevel) (p : EvidenceProducer)
      → (judge_producer route r level p).0.status ≡ discharged
      → (allows p level ≡ true)
        × ((is_high_assurance level && not p.real_producer) ≡ false)
        × (is_empty (bounded_backing_problems r) ≡ true)
  unfolding judge_producer refused premise_from
  judge_producer_facts level p h = ground arith

  judge_registered_facts :
      (level : EvidenceLevel) (o : Option EvidenceProducer)
      → (judge_registered route r level o).0.status ≡ discharged
      → (p : EvidenceProducer) × (o ≡ some p)
        × ((judge_producer route r level p).0.status ≡ discharged)
  unfolding judge_registered refused premise_from
  judge_registered_facts level none h = absurd (ground arith)
  judge_registered_facts level (some p) h = (p, refl, h)

  judge_level_facts :
      (mapping : ProducerMapping) (o : Option EvidenceLevel)
      → (judge_level route r mapping o).0.status ≡ discharged
      → (o ≡ some route.required_evidence)
        × ((judge_registered route r route.required_evidence
              (producer_by_id r.backend mapping)).0.status
            ≡ discharged)
  unfolding judge_level refused premise_from
  judge_level_facts mapping none h = absurd (ground arith)
  judge_level_facts mapping (some l) h =
      let k : same_level l route.required_evidence ≡ true = ground arith in
      let e = (same_level_iff l route.required_evidence).0 k in (ap some e, rw (← e) (ground arith))

  judge_facts :
      (mapping : ProducerMapping)
      → (judge route mapping r).0.status ≡ discharged
      → (r.status ≡ BackendStatus.valid)
        × ((judge_level route r mapping r.evidence_level).0.status ≡ discharged)
  unfolding judge refused premise_from
  judge_facts mapping h = (valid_status r.status (ground arith), ground arith)

choose-mem : (rs : List BackendResult) {r : BackendResult} → choose rs ≡ some r → Memᴰ r rs
unfolding choose
choose-mem [] h = cc
choose-mem (x ∷ xs) {r} h = elim (Option-cases (find valid_result (x ∷ xs))) [
  | inl n ↦ (let q : r ≡ x = ground arith in Memᴰ.head q)
  | inr (v, e) ↦
      (let q : r ≡ v = ground arith in
        subst (λ y. Memᴰ y (x ∷ xs)) (sym q) (find-some valid_result (x ∷ xs) e).0)
]

judge_chosen_facts :
    (route : Route) (mapping : ProducerMapping) (o : Option BackendResult)
    → (judge_chosen route mapping o).0.status ≡ discharged
    → (r : BackendResult) × (o ≡ some r) × ((judge route mapping r).0.status ≡ discharged)
unfolding judge_chosen premise_from
judge_chosen_facts route mapping none h = absurd (ground arith)
judge_chosen_facts route mapping (some r) h = (r, refl, h)

-- A result that matches a route comes from its backend, and declares the premise where it must.
matching_facts :
    (route : Route) (r : BackendResult)
    → is_matching route r ≡ true
    → (r.backend ≡ route.backend_id) × (route.routing_mode ≡ formal_claim → declares route r ≡ true)
unfolding is_matching covers
matching_facts route r h = ((eq_iff r.backend route.backend_id).0 (ground arith), λ m. ground arith)

not_both : (b c : Bool) → (b && not c) ≡ false → b ≡ true → c ≡ true
not_both b c h e = ground arith

-- A premise is discharged only by a supplied, valid result of the routed backend that claims exactly
-- the required level, from a registered producer that may emit it and, for a high-assurance level,
-- is real; a bounded result has its backing, and a formal-claim route is declared by the result.
pub evaluate_premise-Discharges :
    (route : Route) (results : List BackendResult) (mapping : ProducerMapping)
    → (evaluate_premise route results mapping).0.status ≡ discharged
    → Discharges route results mapping
unfolding evaluate_premise
evaluate_premise-Discharges route results mapping h =
    let (r, chosen, hj) =
      judge_chosen_facts route mapping (choose (filter (is_matching route) results)) h in
    let (supplied, matching) =
      of_mem-filter (is_matching route) results
        (choose-mem (filter (is_matching route) results) chosen) in
    let m = matching_facts route r matching in
    let (v, hl) = judge_facts route r mapping hj in
    let (l, hr) = judge_level_facts route r mapping r.evidence_level hl in
    let (p, registered, hp) =
      judge_registered_facts route r route.required_evidence (producer_by_id r.backend mapping)
        hr in
    let f = judge_producer_facts route r route.required_evidence p hp in
    record {
      result = r;
      supplied = supplied;
      by_backend = m.0;
      declared = m.1;
      is_valid = v;
      level = l;
      producer = p;
      registered = registered;
      allowed = f.0;
      is_real = not_both (is_high_assurance route.required_evidence) p.real_producer f.1;
      backed = is_empty-eq-nil (bounded_backing_problems r) f.2;
    }

module _ (route : Route) (r : BackendResult) where
  judge_producer_nil :
      (l : EvidenceLevel) (p : EvidenceProducer)
      → (judge_producer route r l p).0.status ≡ discharged
      → (judge_producer route r l p).1 ≡ []
  unfolding judge_producer refused premise_from
  judge_producer_nil l p h = ground arith

  judge_registered_nil :
      (l : EvidenceLevel) (o : Option EvidenceProducer)
      → (judge_registered route r l o).0.status ≡ discharged
      → (judge_registered route r l o).1 ≡ []
  unfolding judge_registered
  judge_registered_nil l none h = refl
  judge_registered_nil l (some p) h = judge_producer_nil l p h

  judge_level_nil :
      (mapping : ProducerMapping) (o : Option EvidenceLevel)
      → (judge_level route r mapping o).0.status ≡ discharged
      → (judge_level route r mapping o).1 ≡ []
  unfolding judge_level
  judge_level_nil mapping none h = refl
  judge_level_nil mapping (some l) h =
      ground (arith, judge_registered_nil l (producer_by_id r.backend mapping))

  judge_nil :
      (mapping : ProducerMapping)
      → (judge route mapping r).0.status ≡ discharged
      → (judge route mapping r).1 ≡ []
  unfolding judge
  judge_nil mapping h = ground (arith, judge_level_nil mapping r.evidence_level)

judge_chosen_nil :
    (route : Route) (mapping : ProducerMapping) (o : Option BackendResult)
    → (judge_chosen route mapping o).0.status ≡ discharged
    → (judge_chosen route mapping o).1 ≡ []
unfolding judge_chosen
judge_chosen_nil route mapping none h = refl
judge_chosen_nil route mapping (some r) h = judge_nil route r mapping h

-- Judging a premise that is discharged adds no blocker.
pub evaluate_premise-blockers :
    (route : Route) (results : List BackendResult) (mapping : ProducerMapping)
    → (evaluate_premise route results mapping).0.status ≡ discharged
    → (evaluate_premise route results mapping).1 ≡ []
unfolding evaluate_premise
evaluate_premise-blockers route results mapping h =
    judge_chosen_nil route mapping (choose (filter (is_matching route) results)) h
