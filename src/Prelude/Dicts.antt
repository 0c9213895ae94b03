-- ===== src/Prelude/Dicts.antt =====
-- Python dicts keyed by texts, as association lists in insertion order.
use Prim.Native.String.{String}
use mathlib.Core.Path.{◌≡◌, refl, ap, ◌∙◌}
use mathlib.Core.Option.{Option, none, some}
use mathlib.Core.List.{List, [], ◌∷◌, map, Memᴰ}
use mathlib.Core.Logic.{inl, inr}
use native.Mathlib.Omega.{arith}
use attestation_layer.Prelude.Tests.{if◌then◌else◌, Bool-cases, Option-cases}
use attestation_layer.Prelude.Text.{◌==◌, eq_iff, eq_refl}

abbrev pub Dict {ℓ} : Type ℓ → Type ℓ
Dict V = List (String × V)

module _ {ℓ} {V : Type ℓ} where
  -- `d.get(k)`
  abbrev pub lookup : String → Dict V → Option V
  lookup k [] = none
  lookup k ((j, v) ∷ d) = if j == k then some v else lookup k d

  -- `d[k] = v`
  abbrev pub insert : String → V → Dict V → Dict V
  insert k v [] = (k, v) ∷ []
  insert k v ((j, w) ∷ d) = if j == k then (j, v) ∷ d else (j, w) ∷ insert k v d

  -- `{k: v for k, v in pairs}`, added to `d`
  pub extend : Dict V → List (String × V) → Dict V
  extend d [] = d
  extend d ((k, v) ∷ rest) = extend (insert k v d) rest

  -- `{k: v for k, v in pairs}`
  unfoldable pub dict_of : List (String × V) → Dict V
  unfolding extend
  dict_of = extend []

  -- `list(d)`
  pub keys : Dict V → List String
  keys d = map (λ e. e.0) d

  pub lookup-insert :
      (k j : String) (v : V) (d : Dict V)
      → lookup j (insert k v d) ≡ (if k == j then some v else lookup j d)
  lookup-insert k j v [] = refl
  lookup-insert k j v ((i, w) ∷ d) =
      ground (arith, eq_iff k j, eq_iff i k, eq_iff i j, lookup-insert k j v d)

-- The value of the last of the pairs with the key.
abbrev pub last_value {ℓ} : {V : Type ℓ} → String → List (String × V) → Option V
last_value j [] = none
last_value {V} j ((k, v) ∷ rest) = elim (last_value {V = V} j rest) [
  | some w ↦ some w
  | none ↦ if k == j then some v else none
]

module _ {ℓ} {V : Type ℓ} where
  lookup-extend :
      (j : String) (d : Dict V) (entries : List (String × V))
      → lookup j (extend d entries)
        ≡ elim (last_value j entries) as (λ o. Option V) [ some w ↦ some w | none ↦ lookup j d ]
  unfolding extend
  lookup-extend j d [] = refl
  lookup-extend j d ((k, v) ∷ rest) =
      let ih = lookup-extend j (insert k v d) rest in
      elim (Option-cases (last_value j rest)) [
        | inr (w, e) ↦ rw e (ih ∙ rw e refl)
        | inl e ↦ rw e (ih ∙ rw e (ground (arith, lookup-insert k j v d)))
      ]

  -- In a dict of pairs the last pair of a key wins.
  pub lookup-dict_of_last :
      (j : String) (entries : List (String × V)) → lookup j (dict_of entries) ≡ last_value j entries
  unfolding dict_of
  lookup-dict_of_last j entries = elim (Option-cases (last_value j entries)) [
    | inl e ↦ lookup-extend j [] entries ∙ rw e refl
    | inr (w, e) ↦ lookup-extend j [] entries ∙ rw e refl
  ]

-- The keys of a dict differ, so what it lists under a key is what the key looks up.
KeysDiffer {ℓ} : {V : Type ℓ} → Dict V → Type ℓ
KeysDiffer [] = Unit
KeysDiffer {V} ((k, v) ∷ d) = (lookup {V = V} k d ≡ none) × KeysDiffer d

module _ {ℓ} {V : Type ℓ} where
  insert-KeysDiffer : (k : String) (v : V) (d : Dict V) → KeysDiffer d → KeysDiffer (insert k v d)
  unfolding KeysDiffer
  insert-KeysDiffer k v [] h = (refl, tt)
  insert-KeysDiffer k v ((j, w) ∷ d) h = elim (Bool-cases (j == k)) [
    | inl e ↦ rw e h
    | inr e ↦ rw e (
      ground (arith, lookup-insert k j v d, h.0, e, eq_iff j k, eq_iff k j),
      insert-KeysDiffer k v d h.1,
    )
  ]

  extend-KeysDiffer :
      (d : Dict V) (entries : List (String × V)) → KeysDiffer d → KeysDiffer (extend d entries)
  unfolding extend
  extend-KeysDiffer d [] h = h
  extend-KeysDiffer d ((k, v) ∷ rest) h =
      extend-KeysDiffer (insert k v d) rest (insert-KeysDiffer k v d h)

  found : (j k : String) (w v : V) (d : Dict V) → k ≡ j → v ≡ w → lookup k ((j, w) ∷ d) ≡ some v
  found j k w v d p q = rw (p, q) (rw (eq_refl j) refl)

  lookup-mem :
      (d : Dict V) (k : String) (v : V) → KeysDiffer d → Memᴰ (k, v) d → lookup k d ≡ some v
  unfolding KeysDiffer
  lookup-mem [] k v h m = elim m [ ]
  lookup-mem ((j, w) ∷ d) k v h (Memᴰ.head e) = found j k w v d (ap (λ p. p.0) e) (ap (λ p. p.1) e)
  lookup-mem ((j, w) ∷ d) k v h (Memᴰ.tail m) =
      ground (arith, lookup-mem d k v h.1 m, h.0, eq_iff j k)

  pub lookup-dict_of :
      (entries : List (String × V)) (k : String) (v : V)
      → Memᴰ (k, v) (dict_of entries)
      → lookup k (dict_of entries) ≡ some v
  unfolding dict_of KeysDiffer
  lookup-dict_of entries k v m = lookup-mem _ k v (extend-KeysDiffer [] entries tt) m
