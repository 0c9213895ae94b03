-- ===== src/Prelude/Text.antt =====
-- Texts: membership in a list, f-strings and joins, and Python's `sorted` and `set` of texts.
use Prim.Native.String
use Prim.Native.String.{String, compare}
use mathlib.Core.Path.{◌≡◌, refl, sym, subst, ap}
use Prim.Native.Char.{code}
use Prim.Native.Nat.{ℕ, ◌≤◌}
use native.Mathlib.Omega.{arith}
use mathlib.Core.Logic.{◌≢◌, ◌↔◌, inl, inr, ⊎_elim, ◌⊎◌}
use mathlib.Core.Bool.{Bool, true, false}
use mathlib.Core.List.{List, [], ◌∷◌, ◌++◌, Memᴰ}
use mathlib.Core.List.Memᴰ
use text.Mathlib.Text.{is_le}
pub use text.Mathlib.Text.{◌==◌}
use text.Mathlib.TextLemmas.{nil-append, cons-append}
pub use text.Mathlib.TextEquality.{eq_iff}
pub use text.Mathlib.TextPositions.{eq_refl}
use attestation_layer.Prelude.Tests.{if◌then◌else◌, Bool-cases}
use attestation_layer.Prelude.Lists.{length, any, any-of_mem, any-witness, all, all-append}

-- `x in xs`
abbrev pub mem : String → List String → Bool
mem x xs = any (λ y. y == x) xs

-- `"".join(parts)`, the value of an f-string with these parts
unfoldable pub concat : List String → String
concat [] = ""
concat (s ∷ rest) = String.◌++◌ s (concat rest)

-- `sep.join(parts)`
pub join : String → List String → String
join sep [] = ""
join sep (s ∷ []) = s
join sep (s ∷ t ∷ rest) = String.◌++◌ s (String.◌++◌ sep (join sep (t ∷ rest)))

-- One round of insertion sort, by code points.
insert_sorted : String → List String → List String
insert_sorted x [] = x ∷ []
insert_sorted x (y ∷ ys) = if is_le (compare x y) then x ∷ y ∷ ys else y ∷ insert_sorted x ys

-- `sorted(xs)`
unfoldable pub sorted : List String → List String
unfolding insert_sorted
sorted [] = []
sorted (x ∷ xs) = insert_sorted x (sorted xs)

-- `set(xs)` as a list without duplicates
unfoldable pub dedupe : List String → List String
dedupe [] = []
dedupe (x ∷ xs) = let rest = dedupe xs in if mem x rest then rest else x ∷ rest

-- `sorted(set(xs))`
unfoldable pub sorted_set : List String → List String
unfolding sorted dedupe
sorted_set xs = sorted (dedupe xs)

pub mem_iff : (x : String) (xs : List String) → (mem x xs ≡ true) ↔ Memᴰ x xs
mem_iff x xs = (
  λ h.
      (let (y, m, e) = any-witness (λ y. y == x) xs h in
        subst (λ z. Memᴰ z xs) ((eq_iff y x).0 e) m),
  λ m. any-of_mem (λ y. y == x) xs m (eq_refl x),
)

mem-insert_sorted :
    (a x : String) (xs : List String) → Memᴰ a (insert_sorted x xs) ↔ ((a ≡ x) ⊎ Memᴰ a xs)
unfolding insert_sorted
mem-insert_sorted a x [] = (Memᴰ.cases_cons, ⊎_elim Memᴰ.head Memᴰ.tail)
mem-insert_sorted a x (y ∷ ys) = elim (Bool-cases (is_le (compare x y))) [
  | inl e ↦ rw e (Memᴰ.cases_cons, ⊎_elim Memᴰ.head Memᴰ.tail)
  | inr e ↦ rw e (
    λ m.
        (⊎_elim (λ q. inr (Memᴰ.head q))
          (λ r. ⊎_elim inl (λ s. inr (Memᴰ.tail s)) ((mem-insert_sorted a x ys).0 r))
          (Memᴰ.cases_cons m)),
    ⊎_elim (λ q. Memᴰ.tail ((mem-insert_sorted a x ys).1 (inl q)))
        (λ r.
          ⊎_elim Memᴰ.head (λ s. Memᴰ.tail ((mem-insert_sorted a x ys).1 (inr s)))
            (Memᴰ.cases_cons r)),
  )
]

-- Sorting keeps the members.
pub mem-sorted : (a : String) (xs : List String) → Memᴰ a (sorted xs) ↔ Memᴰ a xs
unfolding sorted
mem-sorted a [] = (λ m. m, λ m. m)
mem-sorted a (x ∷ xs) = (
  λ m.
      ⊎_elim Memᴰ.head (λ r. Memᴰ.tail ((mem-sorted a xs).0 r))
        ((mem-insert_sorted a x (sorted xs)).0 m),
  λ m.
      (mem-insert_sorted a x (sorted xs)).1
        (⊎_elim inl (λ r. inr ((mem-sorted a xs).1 r)) (Memᴰ.cases_cons m)),
)

-- So does dropping the duplicates.
pub mem-dedupe : (a : String) (xs : List String) → Memᴰ a (dedupe xs) ↔ Memᴰ a xs
unfolding dedupe
mem-dedupe a [] = (λ m. m, λ m. m)
mem-dedupe a (x ∷ xs) = elim (Bool-cases (mem x (dedupe xs))) [
  | inl e ↦ rw e (
    λ m. Memᴰ.tail ((mem-dedupe a xs).0 m),
    λ m.
        (⊎_elim (λ q. subst (λ z. Memᴰ z (dedupe xs)) (sym q) ((mem_iff x (dedupe xs)).0 e))
          (mem-dedupe a xs).1 (Memᴰ.cases_cons m)),
  )
  | inr e ↦ rw e (
    λ m. ⊎_elim Memᴰ.head (λ r. Memᴰ.tail ((mem-dedupe a xs).0 r)) (Memᴰ.cases_cons m),
    λ m. ⊎_elim Memᴰ.head (λ r. Memᴰ.tail ((mem-dedupe a xs).1 r)) (Memᴰ.cases_cons m),
  )
]

pub mem-sorted_set : (a : String) (xs : List String) → Memᴰ a (sorted_set xs) ↔ Memᴰ a xs
unfolding sorted_set
mem-sorted_set a xs = (
  λ m. (mem-dedupe a xs).0 ((mem-sorted a (dedupe xs)).0 m),
  λ m. (mem-sorted a (dedupe xs)).1 ((mem-dedupe a xs).1 m),
)

-- No text stands twice in the list.
abbrev pub Distinct : List String → Type 0
Distinct [] = Unit
Distinct (x ∷ xs) = (mem x xs ≡ false) × Distinct xs

pub length-dedupe-le : (xs : List String) → length (dedupe xs) ≤ length xs
unfolding dedupe
length-dedupe-le [] = omega arith
length-dedupe-le (x ∷ xs) = ground (arith, length-dedupe-le xs)

mem-dedupe_eq : (a : String) (xs : List String) → mem a (dedupe xs) ≡ mem a xs
mem-dedupe_eq a xs = elim (Bool-cases (mem a xs)) [
  | inl e ↦ rw e ((mem_iff a (dedupe xs)).1 ((mem-dedupe a xs).1 ((mem_iff a xs).0 e)))
  | inr e ↦ elim (Bool-cases (mem a (dedupe xs))) [
    | inl f ↦ cc (f, (mem_iff a xs).1 ((mem-dedupe a xs).0 ((mem_iff a (dedupe xs)).0 f)))
    | inr f ↦ rw (e, f)
  ]
]

-- A list that loses nothing with its duplicates has none.
pub Distinct-of_length : (xs : List String) → length (dedupe xs) ≡ length xs → Distinct xs
unfolding dedupe
Distinct-of_length [] h = tt
Distinct-of_length (x ∷ xs) h =
    ground (arith, mem-dedupe_eq x xs, length-dedupe-le xs, Distinct-of_length xs)

pub dedupe-Distinct : (xs : List String) → Distinct (dedupe xs)
unfolding dedupe
dedupe-Distinct [] = tt
dedupe-Distinct (x ∷ xs) = ground (arith, dedupe-Distinct xs)

any-append-free :
    (ys : List String) (y x : String)
    → mem y ys ≡ false
    → (x == y) ≡ false
    → mem y (ys ++ (x ∷ [])) ≡ false
any-append-free [] y x h n = ground (arith, n)
any-append-free (z ∷ zs) y x h n = ground (arith, h, any-append-free zs y x, n)

-- A list without duplicates loses nothing with them.
pub dedupe_of_Distinct : (xs : List String) → Distinct xs → dedupe xs ≡ xs
unfolding dedupe
dedupe_of_Distinct [] d = refl
dedupe_of_Distinct (x ∷ xs) d = rw (dedupe_of_Distinct xs d.1, d.0) refl

pub Distinct-append_new :
    (xs : List String) (x : String) → Distinct xs → mem x xs ≡ false → Distinct (xs ++ (x ∷ []))
Distinct-append_new [] x d h = (refl, tt)
Distinct-append_new (y ∷ ys) x d h = (
  any-append-free ys y x d.0 (ground (arith, h, eq_iff y x, eq_iff x y)),
  Distinct-append_new ys x d.1 (ground (arith, h)),
)

two_of_Distinct :
    (xs : List String)
    → Distinct xs
    → 2 ≤ length xs
    → (a : String) × (b : String) × Memᴰ a xs × Memᴰ b xs × (a ≢ b)
two_of_Distinct [] d h = absurd (omega arith)
two_of_Distinct (a ∷ []) d h = absurd (omega arith)
two_of_Distinct (a ∷ b ∷ xs) d h =
    (a, b, Memᴰ.head refl, Memᴰ.tail (Memᴰ.head refl), λ e. ground (arith, eq_iff b a, sym e))

-- A set of two or more texts has two members that differ.
pub dedupe_two :
    (xs : List String)
    → 2 ≤ length (dedupe xs)
    → (a : String) × (b : String) × Memᴰ a xs × Memᴰ b xs × (a ≢ b)
dedupe_two xs h =
    let (a, b, ma, mb, ne) = two_of_Distinct (dedupe xs) (dedupe-Distinct xs) h in
    (a, b, (mem-dedupe a xs).0 ma, (mem-dedupe b xs).0 mb, ne)

-- The code points of a text.
abbrev pub codes : String → List ℕ
codes String.[] = []
codes (String.◌∷◌ c s) = code c ∷ codes s

pub codes-append : (s t : String) → codes (String.◌++◌ s t) ≡ codes s ++ codes t
codes-append String.[] t = ap codes (nil-append t)
codes-append (String.◌∷◌ c s) t = rw (cons-append c s t, codes-append s t) refl

-- A test that holds of every code point of the parts holds of those of the f-string.
pub codes-concat-all :
    (p : ℕ → Bool) (parts : List String)
    → ((s : String) → Memᴰ s parts → all p (codes s) ≡ true)
    → all p (codes (concat parts)) ≡ true
unfolding concat
codes-concat-all p [] h = refl
codes-concat-all p (s ∷ rest) h = rw (codes-append s (concat rest)) (
    all-append p (codes s) (codes (concat rest)) (h s (Memᴰ.head refl))
      (codes-concat-all p rest (λ t m. h t (Memᴰ.tail m))))
