-- ===== src/Prelude/Lists.antt =====
-- Lists filtered, searched and quantified by Boolean tests.
use Prim.Native.Nat.{ℕ, suc}
use mathlib.Core.Path.{◌≡◌, refl, sym, subst, ap}
use mathlib.Core.Logic.{◌↔◌, inl, inr, ⊎_elim}
use mathlib.Core.Bool.{Bool, true, false, ◌&&◌, ◌||◌, true≢false}
use mathlib.Core.Option.{Option, none, some}
use mathlib.Core.List.{List, [], ◌∷◌, ◌++◌, Memᴰ, map, cons≢nil}
use mathlib.Core.List.Memᴰ
use native.Mathlib.Omega.{arith}
use attestation_layer.Prelude.Tests.{if◌then◌else◌, Bool-cases}

-- Every member satisfies `P`.
abbrev pub All {ℓ κ} : {A : Type ℓ} → (A → Type κ) → List A → Type κ
All P [] = Unit
All P (x ∷ xs) = P x × All P xs

module _ {ℓ} {A : Type ℓ} where
  abbrev pub length : List A → ℕ
  length [] = 0
  length (x ∷ xs) = suc (length xs)

  -- `not xs`
  abbrev pub is_empty : List A → Bool
  is_empty [] = true
  is_empty (x ∷ xs) = false

  abbrev pub any : (A → Bool) → List A → Bool
  any p [] = false
  any p (x ∷ xs) = p x || any p xs

  abbrev pub all : (A → Bool) → List A → Bool
  all p [] = true
  all p (x ∷ xs) = p x && all p xs

  -- `[x for x in xs if p(x)]`
  abbrev pub filter : (A → Bool) → List A → List A
  filter p [] = []
  filter p (x ∷ xs) = if p x then x ∷ filter p xs else filter p xs

  -- `next((x for x in xs if p(x)), None)`
  abbrev pub find : (A → Bool) → List A → Option A
  find p [] = none
  find p (x ∷ xs) = if p x then some x else find p xs

  -- `any` holds at a member that passes the test, and only then.
  pub any-of_mem : (p : A → Bool) {x : A} (xs : List A) → Memᴰ x xs → p x ≡ true → any p xs ≡ true
  any-of_mem p [] m h = elim m [ ]
  any-of_mem p (y ∷ ys) (Memᴰ.head e) h = rw (← e) (rw h)
  any-of_mem p (y ∷ ys) (Memᴰ.tail m) h = ground (arith, any-of_mem p ys m h)

  pub any-witness :
      (p : A → Bool) (xs : List A) → any p xs ≡ true → (x : A) × Memᴰ x xs × (p x ≡ true)
  any-witness p [] h = cc
  any-witness p (y ∷ ys) h = elim (Bool-cases (p y)) [
    | inl e ↦ (y, Memᴰ.head refl, e)
    | inr e ↦ let (x, m, px) = any-witness p ys (ground arith) in (x, Memᴰ.tail m, px)
  ]

  pub any-false_at :
      (p : A → Bool) {x : A} (xs : List A) → Memᴰ x xs → any p xs ≡ false → p x ≡ false
  any-false_at p [] m h = elim m [ ]
  any-false_at p (y ∷ ys) (Memᴰ.head e) h = rw e (ground arith)
  any-false_at p (y ∷ ys) (Memᴰ.tail m) h = any-false_at p ys m (ground arith)

  pub all-at : (p : A → Bool) {x : A} (xs : List A) → Memᴰ x xs → all p xs ≡ true → p x ≡ true
  all-at p [] m h = elim m [ ]
  all-at p (y ∷ ys) (Memᴰ.head e) h = rw e (ground arith)
  all-at p (y ∷ ys) (Memᴰ.tail m) h = all-at p ys m (ground arith)

  pub all-intro :
      (p : A → Bool) (xs : List A) → ((x : A) → Memᴰ x xs → p x ≡ true) → all p xs ≡ true
  all-intro p [] f = refl
  all-intro p (y ∷ ys) f =
      ground (arith, f y (Memᴰ.head refl), all-intro p ys (λ x m. f x (Memᴰ.tail m)))

  pub any-append-false :
      (p : A → Bool) (xs ys : List A)
      → any p (xs ++ ys) ≡ false
      → (any p xs ≡ false) × (any p ys ≡ false)
  any-append-false p [] ys h = (refl, h)
  any-append-false p (x ∷ xs) ys h = ground (arith, any-append-false p xs ys, h)

  pub all-append :
      (p : A → Bool) (xs ys : List A) → all p xs ≡ true → all p ys ≡ true → all p (xs ++ ys) ≡ true
  all-append p [] ys h k = k
  all-append p (x ∷ xs) ys h k = ground (arith, all-append p xs ys, h, k)

  pub any-eq-false :
      (p : A → Bool) (xs : List A) → ((x : A) → Memᴰ x xs → p x ≡ false) → any p xs ≡ false
  any-eq-false p [] f = refl
  any-eq-false p (y ∷ ys) f =
      ground (arith, f y (Memᴰ.head refl), any-eq-false p ys (λ x m. f x (Memᴰ.tail m)))

  pub mem-filter :
      (p : A → Bool) {x : A} (xs : List A) → Memᴰ x xs → p x ≡ true → Memᴰ x (filter p xs)
  mem-filter p [] m h = elim m [ ]
  mem-filter p (y ∷ ys) (Memᴰ.head e) h = rw (rw e at h) (Memᴰ.head e)
  mem-filter p {x} (y ∷ ys) (Memᴰ.tail m) h = elim (Bool-cases (p y)) [
    | inl e ↦ rw e (Memᴰ.tail (mem-filter p ys m h))
    | inr e ↦ rw e (mem-filter p ys m h)
  ]

  pub of_mem-filter :
      (p : A → Bool) {x : A} (xs : List A) → Memᴰ x (filter p xs) → Memᴰ x xs × (p x ≡ true)
  of_mem-filter p [] m = absurd (Memᴰ.not-nil m)
  of_mem-filter p {x} (y ∷ ys) m = elim (Bool-cases (p y)) [
    | inl e ↦
        (let m' : Memᴰ x (y ∷ filter p ys) = rw e at m in
          ⊎_elim (λ (q : x ≡ y). (Memᴰ.head q, rw q e))
            (λ (q : Memᴰ x (filter p ys)). let r = of_mem-filter p ys q in (Memᴰ.tail r.0, r.1))
            (Memᴰ.cases_cons m'))
    | inr e ↦ let r = of_mem-filter p ys (rw e at m) in (Memᴰ.tail r.0, r.1)
  ]

  -- The first match is a member that passes, and there is none exactly if every member fails.
  pub find-some :
      (p : A → Bool) (xs : List A) {x : A} → find p xs ≡ some x → Memᴰ x xs × (p x ≡ true)
  find-some p [] h = cc
  find-some p (y ∷ ys) {x} h = elim (Bool-cases (p y)) [
    | inl e ↦ (let q : y ≡ x = ground arith in (Memᴰ.head (sym q), rw (← q) e))
    | inr e ↦ let r = find-some p ys (ground arith) in (Memᴰ.tail r.0, r.1)
  ]

  pub find-none : (p : A → Bool) {x : A} (xs : List A) → find p xs ≡ none → Memᴰ x xs → p x ≡ false
  find-none p [] h m = elim m [ ]
  find-none p (y ∷ ys) h (Memᴰ.head e) = rw e (ground arith)
  find-none p (y ∷ ys) h (Memᴰ.tail m) = find-none p ys (ground arith) m

  -- The first match is still the first where it is kept.
  pub find-filter :
      (q p : A → Bool) (xs : List A) (x : A)
      → find q xs ≡ some x
      → p x ≡ true
      → find q (filter p xs) ≡ some x
  find-filter q p [] x h k = cc
  find-filter q p (y ∷ ys) x h k = elim (Bool-cases (q y)) [
    | inl e ↦ (let same : y ≡ x = ground (arith, h, e) in rw same (rw (k, ap q (sym same), e) refl))
    | inr e ↦ ground (arith, h, e, find-filter q p ys x)
  ]

  none_left : (p : A → Bool) (xs : List A) → ((x : A) → Memᴰ x xs → p x ≡ false) → filter p xs ≡ []
  none_left p [] f = refl
  none_left p (x ∷ xs) f = rw (f x (Memᴰ.head refl)) (none_left p xs (λ y m. f y (Memᴰ.tail m)))

  pub filter-eq-nil :
      (p : A → Bool) (xs : List A) → (filter p xs ≡ []) ↔ ((x : A) → Memᴰ x xs → p x ≡ false)
  filter-eq-nil p xs = (
    λ h x m. elim (Bool-cases (p x)) [
      | inl e ↦ elim (subst (λ zs. Memᴰ x zs) h (mem-filter p xs m e)) [ ]
      | inr e ↦ e
    ],
    none_left p xs,
  )

  pub is_empty-eq-nil : (xs : List A) → is_empty xs ≡ true → xs ≡ []
  is_empty-eq-nil [] h = refl
  is_empty-eq-nil (x ∷ xs) h = cc

module _ {ℓ κ} {A : Type ℓ} (P : A → Type κ) where
  pub All-at : {x : A} (xs : List A) → All P xs → Memᴰ x xs → P x
  All-at [] a m = elim m [ ]
  All-at (y ∷ ys) a (Memᴰ.head e) = subst P (sym e) a.0
  All-at (y ∷ ys) a (Memᴰ.tail m) = All-at ys a.1 m

  pub All-intro : (xs : List A) → ((x : A) → Memᴰ x xs → P x) → All P xs
  All-intro [] f = tt
  All-intro (x ∷ xs) f = (f x (Memᴰ.head refl), All-intro xs (λ y m. f y (Memᴰ.tail m)))

-- Nothing is listed exactly if every member fails the test.
pub map-filter-eq-nil {ℓ κ} :
    {A : Type ℓ} {B : Type κ} (f : A → B) (p : A → Bool) (xs : List A)
    → (map f (filter p xs) ≡ []) ↔ ((x : A) → Memᴰ x xs → p x ≡ false)
map-filter-eq-nil f p [] = (λ h x m. elim m [ ], λ h. refl)
map-filter-eq-nil {A} f p (y ∷ ys) = elim (Bool-cases (p y)) [
  | inl e ↦
      rw e (λ h. absurd (cons≢nil h), λ h. absurd (true≢false (rw e at (h y (Memᴰ.head refl)))))
  | inr e ↦ rw e (
    λ h x m.
        ⊎_elim (λ (q : x ≡ y). rw q e) (λ (q : Memᴰ x ys). (map-filter-eq-nil f p ys).0 h x q)
          (Memᴰ.cases_cons m),
    λ h. (map-filter-eq-nil f p ys).1 (λ x m. h x (Memᴰ.tail m)),
  )
]

-- A chain of lists is empty exactly if each of them is.
pub append-eq-nil {ℓ} : {A : Type ℓ} (xs ys : List A) → (xs ++ ys ≡ []) ↔ ((xs ≡ []) × (ys ≡ []))
append-eq-nil [] ys = (λ h. (refl, h), λ h. h.1)
append-eq-nil (x ∷ xs) ys = (λ h. absurd (cons≢nil h), λ h. absurd (cons≢nil h.0))

-- The members of the image of a list.
pub mem-map-intro {ℓ κ} :
    {A : Type ℓ} {B : Type κ} (f : A → B) {x : A} (xs : List A) → Memᴰ x xs → Memᴰ (f x) (map f xs)
mem-map-intro f [] m = elim m [ ]
mem-map-intro f (y ∷ ys) (Memᴰ.head e) = Memᴰ.head (ap f e)
mem-map-intro f (y ∷ ys) (Memᴰ.tail m) = Memᴰ.tail (mem-map-intro f ys m)

pub mem-map-source {ℓ κ} :
    {A : Type ℓ} {B : Type κ} (f : A → B) {y : B} (xs : List A)
    → Memᴰ y (map f xs)
    → (x : A) × Memᴰ x xs × (y ≡ f x)
mem-map-source f [] m = elim m [ ]
mem-map-source f (x ∷ xs) (Memᴰ.head e) = (x, Memᴰ.head refl, e)
mem-map-source f (x ∷ xs) (Memᴰ.tail m) =
    let (z, k, e) = mem-map-source f xs m in (z, Memᴰ.tail k, e)
