-- ===== src/Bounds/Interval.antt =====
-- The bounds conflict exactly if no value meets all of them.
use mathlib.Core.List.Memᴰ
use mathlib.Core.Logic.{⊎_elim}
use attestation_layer.Prelude.{
  ◌≡◌, ◌↔◌, Bool, true, false, some, List, [], ◌∷◌, Memᴰ, arith, refl, sym, subst, Bool-cases, inl,
  inr, ◌⊎◌,
}
use attestation_layer.Bounds.Order.{FractionOrder}
use attestation_layer.Bounds.{
  Bound, is_stronger_lower, is_stronger_upper, strongest, conflicts, numeric_bounds_conflict,
}

module _ (F : FractionOrder) where
  open F use {Fraction, le, le_total, le_trans, between, between_below, between_above}

  -- `x >= v` and, where the bound is exclusive, `x > v`
  abbrev pub MeetsLower : Fraction → Bound Fraction → Type 0
  MeetsLower x (v, i) = (le v x ≡ true) × (i ≡ false → le x v ≡ false)

  -- `x <= v` and, where the bound is exclusive, `x < v`
  abbrev pub MeetsUpper : Fraction → Bound Fraction → Type 0
  MeetsUpper x (v, i) = (le x v ≡ true) × (i ≡ false → le v x ≡ false)

  lower_weaker :
      (b c : Bound Fraction) (x : Fraction)
      → is_stronger_lower F b c ≡ false
      → MeetsLower x b
      → MeetsLower x c
  unfolding is_stronger_lower
  lower_weaker (v, i) (w, j) x h m =
      (ground (arith, le_trans w v x), λ e. ground (arith, m.1, le_trans v x w, le_trans x w v))

  lower_stronger :
      (b c : Bound Fraction) (x : Fraction)
      → is_stronger_lower F b c ≡ true
      → MeetsLower x c
      → MeetsLower x b
  unfolding is_stronger_lower
  lower_stronger (v, i) (w, j) x h m =
      (ground (arith, le_total w v, le_trans v w x), λ e. ground (arith, le_trans w x v))

  upper_weaker :
      (b c : Bound Fraction) (x : Fraction)
      → is_stronger_upper F b c ≡ false
      → MeetsUpper x b
      → MeetsUpper x c
  unfolding is_stronger_upper
  upper_weaker (v, i) (w, j) x h m =
      (ground (arith, le_trans x v w), λ e. ground (arith, m.1, le_trans w x v, le_trans v w x))

  upper_stronger :
      (b c : Bound Fraction) (x : Fraction)
      → is_stronger_upper F b c ≡ true
      → MeetsUpper x c
      → MeetsUpper x b
  unfolding is_stronger_upper
  upper_stronger (v, i) (w, j) x h m =
      (ground (arith, le_total v w, le_trans x w v), λ e. ground (arith, le_trans v x w))

  -- A value that two strongest bounds leave room for.
  room :
      (l u : Bound Fraction)
      → conflicts F l u ≡ false
      → (x : Fraction) × MeetsLower x l × MeetsUpper x u
  unfolding conflicts
  room (l, li) (u, ui) h = elim (Bool-cases (le u l)) [
    | inl e ↦
        (l, (F.le_refl l, λ k. absurd (ground arith)), (ground arith, λ k. absurd (ground arith)))
    | inr e ↦ (
      between l u,
      (le_total _ _ (between_below l u e), λ k. between_below l u e),
      (le_total _ _ (between_above l u e), λ k. between_above l u e),
    )
  ]

  no_room :
      (l u : Bound Fraction) (x : Fraction)
      → MeetsLower x l
      → MeetsUpper x u
      → conflicts F l u ≡ false
  unfolding conflicts
  no_room (l, li) (u, ui) x ml mu =
      ground (arith, ml.1, mu.1, le_trans l x u, le_trans x u l, le_trans u l x)

  abbrev Fractions : Type 0
  Fractions = List (Bound Fraction)

  -- The chosen bound is a member, and a value that meets it meets every member.
  module _ (better : Bound Fraction → Bound Fraction → Bool) (Meets : Bound Fraction → Type 0)
      (weaker : (b c : Bound Fraction) → better b c ≡ false → Meets b → Meets c)
      (stronger : (b c : Bound Fraction) → better b c ≡ true → Meets c → Meets b) where
    strongest-meets :
        (b : Bound Fraction) (cs : Fractions)
        → Meets (strongest F better b cs)
        → (c : Bound Fraction) → Memᴰ c (b ∷ cs)
        → Meets c
    unfolding strongest
    strongest-meets b [] m c k = subst Meets (sym (Memᴰ.eq_of_singleton k)) m
    strongest-meets b (d ∷ ds) m c k = elim (Bool-cases (better b d)) [
      | inl e ↦
          (let ih : (x : Bound Fraction) → Memᴰ x (d ∷ ds) → Meets x =
              strongest-meets d ds (rw e at m) in
            ⊎_elim (λ (q : c ≡ b). subst Meets (sym q) (stronger b d e (ih d (Memᴰ.head refl))))
              (ih c) (Memᴰ.cases_cons k))
      | inr e ↦
          (let ih : (x : Bound Fraction) → Memᴰ x (b ∷ ds) → Meets x =
              strongest-meets b ds (rw e at m) in
            ⊎_elim (λ (q : c ≡ b). ih c (Memᴰ.head q))
              (λ (r : Memᴰ c (d ∷ ds)).
                ⊎_elim (λ (q : c ≡ d). subst Meets (sym q) (weaker b d e (ih b (Memᴰ.head refl))))
                  (λ (t : Memᴰ c ds). ih c (Memᴰ.tail t)) (Memᴰ.cases_cons r))
              (Memᴰ.cases_cons k))
    ]

strongest-mem :
    (F : FractionOrder) (better : Bound F.Fraction → Bound F.Fraction → Bool) (b : Bound F.Fraction)
    (cs : List (Bound F.Fraction))
    → Memᴰ (strongest F better b cs) (b ∷ cs)
unfolding strongest
strongest-mem F better b [] = Memᴰ.head refl
strongest-mem F better b (c ∷ cs) = elim (Bool-cases (better b c)) [
  | inl e ↦ rw e (Memᴰ.tail (strongest-mem F better c cs))
  | inr e ↦ rw e (skip (Memᴰ.cases_cons (strongest-mem F better b cs)))
]
  where
    skip : {A : Type 0} {x y z : A} {zs : List A} → (x ≡ y) ⊎ Memᴰ x zs → Memᴰ x (y ∷ z ∷ zs)
    skip (inl q) = Memᴰ.head q
    skip (inr m) = Memᴰ.tail (Memᴰ.tail m)

module _ (F : FractionOrder) where
  open F use {Fraction}

  abbrev pub MeetsAll : List (Bound Fraction) → List (Bound Fraction) → Fraction → Type 0
  MeetsAll lowers uppers x =
      ((b : Bound Fraction) → Memᴰ b lowers → MeetsLower F x b)
      × ((b : Bound Fraction) → Memᴰ b uppers → MeetsUpper F x b)

  -- Non-empty lists of bounds get an answer, and the answer is "no conflict" exactly if some value
  -- meets all of them.
  pub numeric_bounds_conflict_iff :
      (l u : Bound Fraction) (ls us : List (Bound Fraction))
      → (b : Bool) × (numeric_bounds_conflict F (l ∷ ls) (u ∷ us) ≡ some b)
        × ((b ≡ false) ↔ ((x : Fraction) × MeetsAll (l ∷ ls) (u ∷ us) x))
  unfolding numeric_bounds_conflict
  numeric_bounds_conflict_iff l u ls us =
      let sl = strongest F (is_stronger_lower F) l ls in
      let su = strongest F (is_stronger_upper F) u us in
      (
        conflicts F sl su,
        refl,
        (
          λ h.
              (let (x, ml, mu) = room F sl su h in
                (
                  x,
                  (
                    strongest-meets F (is_stronger_lower F) (MeetsLower F x)
                        (λ b c. lower_weaker F b c x) (λ b c. lower_stronger F b c x) l ls ml,
                    strongest-meets F (is_stronger_upper F) (MeetsUpper F x)
                        (λ b c. upper_weaker F b c x) (λ b c. upper_stronger F b c x) u us mu,
                  ),
                )),
          λ t.
              no_room F sl su t.0 (t.1.0 sl (strongest-mem F (is_stronger_lower F) l ls))
                (t.1.1 su (strongest-mem F (is_stronger_upper F) u us)),
        ),
      )
