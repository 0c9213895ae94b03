-- ===== src/Prelude/Keys.antt =====
-- Records in a list that a text tells apart, as the validators on unique ids ask.
use Prim.Native.String.{String}
use mathlib.Core.Path.{◌≡◌, refl, subst}
use mathlib.Core.Logic.{inl, inr}
use mathlib.Core.Bool.{Bool, true, false}
use mathlib.Core.Option.{Option, some}
use mathlib.Core.List.{List, [], ◌∷◌, map, Memᴰ}
use native.Mathlib.Omega.{arith}
use attestation_layer.Prelude.Tests.{Bool-cases, num_eq}
use attestation_layer.Prelude.Lists.{length, find, mem-map-intro}
use attestation_layer.Prelude.Text.{
  ◌==◌, eq_iff, eq_refl, mem, mem_iff, dedupe, Distinct, Distinct-of_length, dedupe_of_Distinct,
}

module _ {ℓ} {A : Type ℓ} (f : A → String) where
  -- `len(ids) == len(set(ids))`, for the ids of the list
  abbrev pub are_unique : List A → Bool
  are_unique xs = num_eq (length (map f xs)) (length (dedupe (map f xs)))

  -- What `next((x for x in xs if f(x) == k), None)` gives.
  abbrev pub by_key : String → List A → Option A
  by_key k = find (λ x. f x == k)

  by_key-Distinct :
      (xs : List A) (x : A) → Distinct (map f xs) → Memᴰ x xs → by_key (f x) xs ≡ some x
  by_key-Distinct [] x d m = elim m [ ]
  by_key-Distinct (y ∷ ys) x d (Memᴰ.head e) = rw e (rw (eq_refl (f y)) refl)
  by_key-Distinct (y ∷ ys) x d (Memᴰ.tail m) =
      let there : mem (f x) (map f ys) ≡ true = (mem_iff _ _).1 (mem-map-intro f ys m) in
      elim (Bool-cases (f y == f x)) [
        | inl e ↦
            absurd
              (cc (subst (λ z. mem z (map f ys) ≡ false) ((eq_iff (f y) (f x)).0 e) d.0, there))
        | inr e ↦ rw e (by_key-Distinct ys x d.1 m)
      ]

  -- The first record of an id is its only one.
  pub by_key-mem :
      (xs : List A) (x : A) → are_unique xs ≡ true → Memᴰ x xs → by_key (f x) xs ≡ some x
  by_key-mem xs x u m = by_key-Distinct xs x (Distinct-of_length (map f xs) (ground (arith, u))) m

  pub are_unique-of_Distinct : (xs : List A) → Distinct (map f xs) → are_unique xs ≡ true
  are_unique-of_Distinct xs d = rw (dedupe_of_Distinct (map f xs) d) (ground arith)

  pub Distinct-are_unique : (xs : List A) → are_unique xs ≡ true → Distinct (map f xs)
  Distinct-are_unique xs u = Distinct-of_length (map f xs) (ground (arith, u))
