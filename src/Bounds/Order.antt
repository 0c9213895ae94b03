-- ===== src/Bounds/Order.antt =====
-- What the code relies on in `fractions.Fraction`: comparisons that are exact, total and dense.
use attestation_layer.Prelude.{ℕ, ◌+◌, ◌*◌, suc, ◌≤◌, ◌≡◌, Bool, true, false, leb, arith}
use native.Mathlib.Nat.{le_of_mul-le-mul_right, mul-le-mul_right}

pub record FractionOrder : Type 1 where
  pub Fraction : Type 0
  pub le : Fraction → Fraction → Bool
  pub le_refl : (a : Fraction) → le a a ≡ true
  pub le_total : (a b : Fraction) → le a b ≡ false → le b a ≡ true
  pub le_trans : (a b c : Fraction) → le a b ≡ true → le b c ≡ true → le a c ≡ true
  pub between : Fraction → Fraction → Fraction
  pub between_below : (a b : Fraction) → le b a ≡ false → le (between a b) a ≡ false
  pub between_above : (a b : Fraction) → le b a ≡ false → le b (between a b) ≡ false

-- The fractions p / (q + 1) without a sign, with the mediant between two of them.
abbrev pub Ratio : Type 0
Ratio = ℕ × ℕ

abbrev pub ratio_le : Ratio → Ratio → Bool
ratio_le (p, q) (r, s) = leb (p * suc s) (r * suc q)

abbrev pub mediant : Ratio → Ratio → Ratio
mediant (p, q) (r, s) = (p + r, suc (q + s))

pub ratio_refl : (a : Ratio) → ratio_le a a ≡ true
ratio_refl (p, q) = ground arith

pub ratio_total : (a b : Ratio) → ratio_le a b ≡ false → ratio_le b a ≡ true
ratio_total (p, q) (r, s) h = ground arith

pub ratio_below : (a b : Ratio) → ratio_le b a ≡ false → ratio_le (mediant a b) a ≡ false
ratio_below (p, q) (r, s) h = ground arith

pub ratio_above : (a b : Ratio) → ratio_le b a ≡ false → ratio_le b (mediant a b) ≡ false
ratio_above (p, q) (r, s) h = ground arith

cross : (p q r s t u : ℕ) → p * suc s ≤ r * suc q → r * suc u ≤ t * suc s → p * suc u ≤ t * suc q
cross p q r s t u h k =
    le_of_mul-le-mul_right {k = suc s}
      (omega (arith, mul-le-mul_right (suc u) h, mul-le-mul_right (suc q) k)) (omega arith)

pub ratio_trans : (a b c : Ratio) → ratio_le a b ≡ true → ratio_le b c ≡ true → ratio_le a c ≡ true
ratio_trans (p, q) (r, s) (t, u) h k = ground (arith, cross p q r s t u)

abbrev pub ratios : FractionOrder
ratios = record {
  Fraction = Ratio;
  le = ratio_le;
  le_refl = ratio_refl;
  le_total = ratio_total;
  le_trans = ratio_trans;
  between = mediant;
  between_below = ratio_below;
  between_above = ratio_above;
}
