-- ===== src/Models/Formats.antt =====
-- models.py: the tests on identifiers and content hashes that the construction guards share.
use attestation_layer.Prelude.{
  ℕ, zero, suc, String, Bool, true, false, ◌&&◌, ◌||◌, Option, none, some, List, [], ◌∷◌, all, leb,
  num_eq, codes,
}

-- The code points that `str.strip()` removes.
is_space : ℕ → Bool
is_space c =
    leb 9 c && leb c 13
    || leb 28 c && leb c 32
    || num_eq c 133
    || num_eq c 160
    || num_eq c 5760
    || leb 8192 c && leb c 8202
    || num_eq c 8232
    || num_eq c 8233
    || num_eq c 8239
    || num_eq c 8287
    || num_eq c 12288

-- `not s.strip()`
unfoldable pub is_blank : String → Bool
unfolding is_space
is_blank s = all is_space (codes s)

-- What follows the prefix, where the text begins with it.
unfoldable pub after : List ℕ → List ℕ → Option (List ℕ)
after [] cs = some cs
after (p ∷ ps) [] = none
after (p ∷ ps) (c ∷ cs) = elim (num_eq p c) [ true ↦ after ps cs | false ↦ none ]

-- `$` matches at the end, and before a line feed that ends the text.
pub at_end : List ℕ → Bool
at_end [] = true
at_end (c ∷ []) = num_eq c 10
at_end (c ∷ d ∷ cs) = false

pub is_hex : ℕ → Bool
is_hex c = leb 48 c && leb c 57 || leb 97 c && leb c 102

-- `[0-9a-f]{n}$`
pub hex_digits : ℕ → List ℕ → Bool
unfolding is_hex at_end
hex_digits zero cs = at_end cs
hex_digits (suc n) [] = false
hex_digits (suc n) (c ∷ cs) = is_hex c && hex_digits n cs

-- the pattern `^sha256:[0-9a-f]{64}$`, on code points
pub matches_digest : List ℕ → Bool
unfolding after hex_digits
matches_digest cs = elim (after (codes "sha256:") cs) [
  | none ↦ false
  | some rest ↦ hex_digits 64 rest
]

-- `_is_content_hash`, of a text
unfoldable pub is_content_hash : String → Bool
unfolding matches_digest
is_content_hash s = matches_digest (codes s)

-- The Unicode decimal digits, which `\d` matches, are the parameter.
module _ (is_decimal : ℕ → Bool) where
  -- `\d*@example\.invalid$`
  pub placeholder_tail : List ℕ → Bool
  unfolding after at_end
  placeholder_tail [] = false
  placeholder_tail (c ∷ cs) = elim (is_decimal c) [
    | true ↦ placeholder_tail cs
    | false ↦ elim (after (codes "@example.invalid") (c ∷ cs)) [ none ↦ false | some r ↦ at_end r ]
  ]

  -- `\d+@example\.invalid$`
  pub placeholder_digits : List ℕ → Bool
  unfolding placeholder_tail
  placeholder_digits [] = false
  placeholder_digits (c ∷ cs) = is_decimal c && placeholder_tail cs

  -- `_is_placeholder_reviewer`, of a text: `^phase\d+@example\.invalid$`
  unfoldable pub is_placeholder_reviewer : String → Bool
  unfolding placeholder_digits
  is_placeholder_reviewer s = elim (after (codes "phase") (codes s)) [
    | none ↦ false
    | some rest ↦ placeholder_digits rest
  ]
