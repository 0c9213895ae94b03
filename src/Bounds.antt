-- ===== src/Bounds.antt =====
-- numeric_literal.py: can lower and upper bounds on one numeric value all hold?
-- `fractions.Fraction`, which the code imports, is a parameter: a dense order on exact values.
pub mod Order
pub mod Interval
use attestation_layer.Prelude.{
  ℕ, Bool, true, false, not, ◌&&◌, ◌||◌, Option, none, some, List, [], ◌∷◌, if◌then◌else◌,
}
use attestation_layer.Bounds.Order.{FractionOrder}

-- `(value, inclusive)`
abbrev pub Bound : Type 0 → Type 0
Bound A = A × Bool

module _ (F : FractionOrder) where
  open F use {Fraction, le}

  -- `a > b` and `a == b`
  abbrev pub gt : Fraction → Fraction → Bool
  gt a b = not (le a b)

  abbrev pub eq : Fraction → Fraction → Bool
  eq a b = le a b && le b a

  -- The key `(value, not inclusive)` of `b` is above that of `a`: `max` then moves on to `b`.
  pub is_stronger_lower : Bound Fraction → Bound Fraction → Bool
  is_stronger_lower (v, i) (w, j) = gt w v || eq w v && (i && not j)

  -- The key `(value, inclusive)` of `b` is below that of `a`: `min` then moves on to `b`.
  pub is_stronger_upper : Bound Fraction → Bound Fraction → Bool
  is_stronger_upper (v, i) (w, j) = gt v w || eq w v && (i && not j)

  -- `max` and `min` keep the first of equal keys.
  pub strongest :
      (Bound Fraction → Bound Fraction → Bool)
      → Bound Fraction
      → List (Bound Fraction)
      → Bound Fraction
  strongest better b [] = b
  strongest better b (c ∷ cs) = strongest better (if better b c then c else b) cs

  -- the tests on the two strongest bounds
  pub conflicts : Bound Fraction → Bound Fraction → Bool
  conflicts (l, li) (u, ui) =
      if gt l u then true else if eq l u && (not li || not ui) then true else false

  -- `numeric_bounds_conflict`; `max` and `min` raise on an empty list
  pub numeric_bounds_conflict : List (Bound Fraction) → List (Bound Fraction) → Option Bool
  unfolding is_stronger_lower is_stronger_upper strongest conflicts
  numeric_bounds_conflict [] uppers = none
  numeric_bounds_conflict (l ∷ ls) [] = none
  numeric_bounds_conflict (l ∷ ls) (u ∷ us) =
      some (conflicts (strongest is_stronger_lower l ls) (strongest is_stronger_upper u us))
