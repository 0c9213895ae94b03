-- ===== src/Closure/Proof/Accounts.antt =====
-- When the backend results put no blocker on a proof: each claims only what its producer may emit.
use mathlib.Core.List.Memᴰ
use mathlib.Core.List.{cons≢nil}
use mathlib.Core.Logic.{⊎_elim}
use attestation_layer.Prelude.{
  ◌≡◌, ◌↔◌, Bool, true, false, not, ◌&&◌, Option, none, some, List, [], ◌∷◌, Memᴰ, map, arith, refl,
  sym, subst, append-eq-nil, Option-cases, inl, inr, if◌then◌else◌,
}
use attestation_layer.Models.Evidence.{EvidenceLevel}
use attestation_layer.Models.Result.{BackendResult}
use attestation_layer.Closure.Producers.{
  EvidenceProducer, ProducerMapping, producer_by_id, allows, is_high_assurance,
}
use attestation_layer.Closure.Premise.{bounded_backing_problems}
use attestation_layer.Closure.Proof.{producer_blockers, level_blockers, registered_blockers}

-- A result claims no level, or a level that its registered producer may emit, with what backs it.
pub record IsAccountable (mapping : ProducerMapping) (r : BackendResult) (l : EvidenceLevel)
    : Type 0 where
  pub producer : EvidenceProducer
  pub registered : producer_by_id r.backend mapping ≡ some producer
  pub allowed : allows producer l ≡ true
  pub is_real : is_high_assurance l ≡ true → producer.real_producer ≡ true
  pub backed : bounded_backing_problems r ≡ []

abbrev pub IsAccounted : ProducerMapping → BackendResult → Type 0
IsAccounted mapping r = (l : EvidenceLevel) → r.evidence_level ≡ some l → IsAccountable mapping r l

map-eq-nil {ℓ κ} : {A : Type ℓ} {B : Type κ} (f : A → B) (xs : List A) → map f xs ≡ [] → xs ≡ []
map-eq-nil f [] h = refl
map-eq-nil f (x ∷ xs) h = absurd (cons≢nil h)

if_nil : {A : Type 0} (b : Bool) (x : A) → ((if b then x ∷ [] else []) ≡ []) ↔ (b ≡ false)
if_nil true x = (λ h. absurd (cons≢nil h), λ h. cc)
if_nil false x = (λ h. refl, λ h. refl)

map_nil {ℓ κ} : {A : Type ℓ} {B : Type κ} (f : A → B) (xs : List A) → xs ≡ [] → map f xs ≡ []
map_nil f xs h = rw h

registered_facts :
    (r : BackendResult) (l : EvidenceLevel) (p : EvidenceProducer)
    → (registered_blockers r l (some p) ≡ []) ↔ (
        (not (allows p l) ≡ false)
        × ((is_high_assurance l && not p.real_producer) ≡ false)
        × (bounded_backing_problems r ≡ []))
unfolding registered_blockers
registered_facts r l p = (
  λ h.
      (let f = (append-eq-nil _ _).0 h in
        let g = (append-eq-nil _ _).0 f.1 in
        ((if_nil _ _).0 f.0, (if_nil _ _).0 g.0, map-eq-nil _ (bounded_backing_problems r) g.1)),
  λ h. (append-eq-nil _ _).1 (
    (if_nil _ _).1 h.0,
    (append-eq-nil _ _).1 ((if_nil _ _).1 h.1, map_nil _ (bounded_backing_problems r) h.2),
  ),
)

high_real : (b c : Bool) → ((b && not c) ≡ false) ↔ (b ≡ true → c ≡ true)
high_real true true = (λ h e. refl, λ h. refl)
high_real true false = (λ h e. sym h, λ h. sym (h refl))
high_real false c = (λ h e. cc, λ h. refl)

unregistered : (r : BackendResult) (l : EvidenceLevel) → registered_blockers r l none ≡ [] → ⊥
unfolding registered_blockers
unregistered r l h = cons≢nil h

registered_nil :
    (mapping : ProducerMapping) (r : BackendResult) (l : EvidenceLevel)
    → (registered_blockers r l (producer_by_id r.backend mapping) ≡ []) ↔ IsAccountable mapping r l
registered_nil mapping r l = elim (Option-cases (producer_by_id r.backend mapping)) [
  | inl n ↦ (λ h. absurd (unregistered r l (rw n at h)), λ h. absurd (cc (n, h.registered)))
  | inr (p, e) ↦ (
    λ h.
        (let f = (registered_facts r l p).0 (rw e at h) in
          record {
            producer = p;
            registered = e;
            allowed = ground arith;
            is_real = (high_real (is_high_assurance l) p.real_producer).0 f.1;
            backed = f.2;
          }),
    λ h. rw h.registered (
        (registered_facts r l h.producer).1 (
          rw h.allowed refl,
          (high_real (is_high_assurance l) h.producer.real_producer).1 h.is_real,
          h.backed,
        )),
  )
]

level_nil :
    (mapping : ProducerMapping) (r : BackendResult) (o : Option EvidenceLevel)
    → (level_blockers mapping r o ≡ [])
      ↔ ((l : EvidenceLevel) → o ≡ some l → IsAccountable mapping r l)
unfolding level_blockers
level_nil mapping r none = (λ h l e. cc, λ h. refl)
level_nil mapping r (some k) = (
  λ h l e.
      (let q : k ≡ l = ground arith in
        subst (IsAccountable mapping r) q ((registered_nil mapping r k).0 h)),
  λ h. (registered_nil mapping r k).1 (h k refl),
)

-- No result puts a blocker on the proof exactly if every result is accounted for.
pub producer_nil :
    (mapping : ProducerMapping) (rs : List BackendResult)
    → (producer_blockers mapping rs ≡ [])
      ↔ ((r : BackendResult) → Memᴰ r rs → IsAccounted mapping r)
unfolding producer_blockers
producer_nil mapping [] = (λ h r m. elim m [ ], λ h. refl)
producer_nil mapping (r ∷ rs) = (
  λ h x m.
      (let f = (append-eq-nil _ _).0 h in
        ⊎_elim
          (λ (q : x ≡ r).
            subst (IsAccounted mapping) (sym q) ((level_nil mapping r r.evidence_level).0 f.0))
          ((producer_nil mapping rs).0 f.1 x) (Memᴰ.cases_cons m)),
  λ h. (append-eq-nil _ _).1 (
    (level_nil mapping r r.evidence_level).1 (h r (Memᴰ.head refl)),
    (producer_nil mapping rs).1 (λ x m. h x (Memᴰ.tail m)),
  ),
)
