-- ===== src/Cache/Slots.antt =====
-- verification_cache.py: the choice of a slot.
use attestation_layer.Prelude.{
  ℕ, zero, suc, ◌+◌, Option, none, some, List, [], ◌∷◌, ltb, num_eq, if◌then◌else◌,
}

-- `min` and `max` of a list that begins with the first argument
unfoldable pub minimum_from : ℕ → List ℕ → ℕ
minimum_from m [] = m
minimum_from m (x ∷ xs) = minimum_from (if ltb x m then x else m) xs

unfoldable pub maximum_from : ℕ → List ℕ → ℕ
maximum_from m [] = m
maximum_from m (x ∷ xs) = maximum_from (if ltb m x then x else m) xs

-- the first index of a value
unfoldable pub first_index : ℕ → List ℕ → ℕ
first_index v [] = 0
first_index v (x ∷ xs) = let rest = first_index v xs in if num_eq x v then 0 else suc rest

-- `xs[i] += n`
unfoldable pub add_at : ℕ → ℕ → List ℕ → List ℕ
add_at i n [] = []
add_at zero n (x ∷ xs) = (x + n) ∷ xs
add_at (suc i) n (x ∷ xs) = x ∷ add_at i n xs

-- `_assign_dispatch_slot`, with the list that it changes; `none` where `min` raises
unfoldable pub assign_dispatch_slot : List ℕ → ℕ → Option (ℕ × List ℕ)
unfolding minimum_from first_index add_at
assign_dispatch_slot [] runtime_ms = none
assign_dispatch_slot (x ∷ xs) runtime_ms =
    let slot_index = first_index (minimum_from x xs) (x ∷ xs) in
    some (suc slot_index, add_at slot_index runtime_ms (x ∷ xs))
