-- ===== src/Cache/Balance.antt =====
-- The slots stay balanced: no two differ by more than the longest task.
use mathlib.Core.List.Memᴰ
use mathlib.Core.Logic.{⊎_elim}
use attestation_layer.Prelude.{
  ℕ, zero, suc, ◌+◌, ◌*◌, ◌≤◌, ◌<◌, ◌≡◌, ◌⊎◌, refl, ap, some, List, [], ◌∷◌, Memᴰ, arith, length,
  ltb, num_eq, Bool-cases, inl, inr,
}
use attestation_layer.Cache.Slots.{
  minimum_from, maximum_from, first_index, add_at, assign_dispatch_slot,
}

abbrev pub sum : List ℕ → ℕ
sum [] = 0
sum (x ∷ xs) = x + sum xs

-- The minimum is a member, and at most each member.
minimum_from-mem : (m : ℕ) (xs : List ℕ) → Memᴰ (minimum_from m xs) (m ∷ xs)
unfolding minimum_from
minimum_from-mem m [] = Memᴰ.head refl
minimum_from-mem m (x ∷ xs) = elim (Bool-cases (ltb x m)) [
  | inl e ↦ rw e (Memᴰ.tail (minimum_from-mem x xs))
  | inr e ↦ rw e (
      ⊎_elim (λ q. Memᴰ.head q) (λ q. Memᴰ.tail (Memᴰ.tail q))
        (Memᴰ.cases_cons (minimum_from-mem m xs)))
]

minimum_from-le_first : (m : ℕ) (xs : List ℕ) → minimum_from m xs ≤ m
unfolding minimum_from
minimum_from-le_first m [] = omega arith
minimum_from-le_first m (x ∷ xs) =
    ground (arith, minimum_from-le_first m xs, minimum_from-le_first x xs)

minimum_from-le : (m : ℕ) (xs : List ℕ) (y : ℕ) → Memᴰ y (m ∷ xs) → minimum_from m xs ≤ y
unfolding minimum_from
minimum_from-le m [] y i = let q : y ≡ m = Memᴰ.eq_of_singleton i in omega (arith, q)
minimum_from-le m (x ∷ xs) y i = elim (Bool-cases (ltb x m)) [
  | inl e ↦ rw e (
      ⊎_elim (λ (q : y ≡ m). ground (arith, minimum_from-le_first x xs, e, q))
        (λ (q : Memᴰ y (x ∷ xs)). minimum_from-le x xs y q) (Memᴰ.cases_cons i))
  | inr e ↦ rw e (
      ⊎_elim (λ (q : y ≡ m). ground (arith, minimum_from-le_first m xs, q))
        (λ (q : Memᴰ y (x ∷ xs)).
          ⊎_elim (λ (r : y ≡ x). ground (arith, minimum_from-le_first m xs, e, r))
            (λ (r : Memᴰ y xs). minimum_from-le m xs y (Memᴰ.tail r)) (Memᴰ.cases_cons q))
        (Memᴰ.cases_cons i))
]

pub maximum_from-mem : (m : ℕ) (xs : List ℕ) → Memᴰ (maximum_from m xs) (m ∷ xs)
unfolding maximum_from
maximum_from-mem m [] = Memᴰ.head refl
maximum_from-mem m (x ∷ xs) = elim (Bool-cases (ltb m x)) [
  | inl e ↦ rw e (Memᴰ.tail (maximum_from-mem x xs))
  | inr e ↦ rw e (
      ⊎_elim (λ q. Memᴰ.head q) (λ q. Memᴰ.tail (Memᴰ.tail q))
        (Memᴰ.cases_cons (maximum_from-mem m xs)))
]

maximum_from-ge_first : (m : ℕ) (xs : List ℕ) → m ≤ maximum_from m xs
unfolding maximum_from
maximum_from-ge_first m [] = omega arith
maximum_from-ge_first m (x ∷ xs) =
    ground (arith, maximum_from-ge_first m xs, maximum_from-ge_first x xs)

pub maximum_from-ge : (m : ℕ) (xs : List ℕ) (y : ℕ) → Memᴰ y (m ∷ xs) → y ≤ maximum_from m xs
unfolding maximum_from
maximum_from-ge m [] y i = let q : y ≡ m = Memᴰ.eq_of_singleton i in omega (arith, q)
maximum_from-ge m (x ∷ xs) y i = elim (Bool-cases (ltb m x)) [
  | inl e ↦ rw e (
      ⊎_elim (λ (q : y ≡ m). ground (arith, maximum_from-ge_first x xs, e, q))
        (λ (q : Memᴰ y (x ∷ xs)). maximum_from-ge x xs y q) (Memᴰ.cases_cons i))
  | inr e ↦ rw e (
      ⊎_elim (λ (q : y ≡ m). ground (arith, maximum_from-ge_first m xs, q))
        (λ (q : Memᴰ y (x ∷ xs)).
          ⊎_elim (λ (r : y ≡ x). ground (arith, maximum_from-ge_first m xs, e, r))
            (λ (r : Memᴰ y xs). maximum_from-ge m xs y (Memᴰ.tail r)) (Memᴰ.cases_cons q))
        (Memᴰ.cases_cons i))
]

first_index-lt : (v : ℕ) (xs : List ℕ) → Memᴰ v xs → first_index v xs < length xs
unfolding first_index
first_index-lt v [] i = elim i [ ]
first_index-lt v (x ∷ xs) (Memᴰ.head e) = ground (arith, e)
first_index-lt v (x ∷ xs) (Memᴰ.tail i) = ground (arith, first_index-lt v xs i)

length-add_at : (i n : ℕ) (xs : List ℕ) → length (add_at i n xs) ≡ length xs
unfolding add_at
length-add_at i n [] = refl
length-add_at zero n (x ∷ xs) = refl
length-add_at (suc i) n (x ∷ xs) = ap suc (length-add_at i n xs)

sum-add_at : (i n : ℕ) (xs : List ℕ) → i < length xs → sum (add_at i n xs) ≡ sum xs + n
unfolding add_at
sum-add_at i n [] h = absurd (omega (arith, h))
sum-add_at zero n (x ∷ xs) h = omega arith
sum-add_at (suc i) n (x ∷ xs) h = omega (arith, sum-add_at i n xs (omega (arith, h)))

-- A slot afterwards is one of before, or the chosen one with the task.
mem-add_at :
    (v n z : ℕ) (xs : List ℕ)
    → Memᴰ v xs
    → Memᴰ z (add_at (first_index v xs) n xs)
    → Memᴰ z xs ⊎ (z ≡ v + n)
unfolding add_at first_index
mem-add_at v n z [] i m = elim i [ ]
mem-add_at v n z (x ∷ xs) i m = elim (Bool-cases (num_eq x v)) [
  | inl e ↦
      (let m' : Memᴰ z ((x + n) ∷ xs) = rw e at m in
        ⊎_elim (λ (q : z ≡ x + n). inr (ground (arith, q, e)))
          (λ (q : Memᴰ z xs). inl (Memᴰ.tail q)) (Memᴰ.cases_cons m'))
  | inr e ↦
      (let m' : Memᴰ z (x ∷ add_at (first_index v xs) n xs) = rw e at m in
        let later : Memᴰ v xs =
          ⊎_elim (λ (q : v ≡ x). absurd (ground (arith, e, q))) (λ (q : Memᴰ v xs). q)
            (Memᴰ.cases_cons i) in
        ⊎_elim (λ (q : z ≡ x). inl (Memᴰ.head q))
          (λ (q : Memᴰ z (add_at (first_index v xs) n xs)).
            ⊎_elim (λ (r : Memᴰ z xs). inl (Memᴰ.tail r)) (λ (r : z ≡ v + n). inr r)
              (mem-add_at v n z xs later q))
          (Memᴰ.cases_cons m'))
]

-- No slot exceeds another by more than the bound.
abbrev pub IsSpread : ℕ → List ℕ → Type 0
IsSpread longest slots = (x y : ℕ) → Memᴰ x slots → Memᴰ y slots → x ≤ y + longest

-- What an assignment gives: a slot by its number, the work added, the slots still spread.
pub record IsAssigned (longest n : ℕ) (slots : List ℕ) : Type 0 where
  pub slot : ℕ
  pub after : List ℕ
  pub returns : assign_dispatch_slot slots n ≡ some (slot, after)
  pub low : 1 ≤ slot
  pub high : slot ≤ length slots
  pub same_length : length after ≡ length slots
  pub added : sum after ≡ sum slots + n
  pub spread : IsSpread longest after

pub assign_dispatch_slot-IsAssigned :
    (longest n : ℕ) (slots : List ℕ)
    → 1 ≤ length slots
    → n ≤ longest
    → IsSpread longest slots
    → IsAssigned longest n slots
unfolding assign_dispatch_slot
assign_dispatch_slot-IsAssigned longest n [] p h s = absurd (omega (arith, p))
assign_dispatch_slot-IsAssigned longest n (x ∷ xs) p h s =
    let v = minimum_from x xs in
    let there = minimum_from-mem x xs in
    let i = first_index v (x ∷ xs) in
    let inside : i < length (x ∷ xs) = first_index-lt v (x ∷ xs) there in
    record {
      slot = suc i;
      after = add_at i n (x ∷ xs);
      returns = refl;
      low = omega arith;
      high = omega (arith, inside);
      same_length = length-add_at i n (x ∷ xs);
      added = sum-add_at i n (x ∷ xs) inside;
      spread = λ a b ma mb.
          ⊎_elim
            (λ (ia : Memᴰ a (x ∷ xs)).
              ⊎_elim (λ (ib : Memᴰ b (x ∷ xs)). s a b ia ib)
                (λ (q : b ≡ v + n). omega (arith, s a v ia there, q))
                (mem-add_at v n b (x ∷ xs) there mb))
            (λ (q : a ≡ v + n).
              ⊎_elim (λ (ib : Memᴰ b (x ∷ xs)). omega (arith, q, h, minimum_from-le x xs b ib))
                (λ (r : b ≡ v + n). omega (arith, q, r)) (mem-add_at v n b (x ∷ xs) there mb))
            (mem-add_at v n a (x ∷ xs) there ma);
    }

-- The sum lies below the number of slots times their maximum, and not far below.
pub sum-le : (top : ℕ) (xs : List ℕ) → ((y : ℕ) → Memᴰ y xs → y ≤ top) → sum xs ≤ length xs * top
sum-le top [] h = omega arith
sum-le top (x ∷ xs) h =
    let rest = sum-le top xs (λ y i. h y (Memᴰ.tail i)) in
    let here = h x (Memᴰ.head refl) in grind (arith, rest, here)

sum-ge :
    (top longest : ℕ) (xs : List ℕ)
    → ((y : ℕ) → Memᴰ y xs → top ≤ y + longest)
    → length xs * top ≤ sum xs + length xs * longest
sum-ge top longest [] h = omega arith
sum-ge top longest (x ∷ xs) h =
    let rest = sum-ge top longest xs (λ y i. h y (Memᴰ.tail i)) in
    let here = h x (Memᴰ.head refl) in grind (arith, rest, here)

pub sum-ge_top :
    (top longest : ℕ) (xs : List ℕ)
    → Memᴰ top xs
    → ((y : ℕ) → Memᴰ y xs → top ≤ y + longest)
    → length xs * top + longest ≤ sum xs + length xs * longest
sum-ge_top top longest [] m h = elim m [ ]
sum-ge_top top longest (x ∷ xs) (Memᴰ.head e) h =
    let rest = sum-ge top longest xs (λ y i. h y (Memᴰ.tail i)) in grind (arith, rest, e)
sum-ge_top top longest (x ∷ xs) (Memᴰ.tail m) h =
    let rest = sum-ge_top top longest xs m (λ y i. h y (Memᴰ.tail i)) in
    let here = h x (Memᴰ.head refl) in grind (arith, rest, here)

pub le-sum : (y : ℕ) (xs : List ℕ) → Memᴰ y xs → y ≤ sum xs
le-sum y [] i = elim i [ ]
le-sum y (x ∷ xs) (Memᴰ.head e) = omega (arith, e)
le-sum y (x ∷ xs) (Memᴰ.tail i) = omega (arith, le-sum y xs i)
