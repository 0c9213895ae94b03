-- ===== src/Gate/Paths.antt =====
-- gate.py: paths and references.
use Prim.Native.Char.{code}
use text.Mathlib.Text.{starts_with}
use attestation_layer.Prelude.{
  String, Bool, ◌||◌, ◌==◌, ◌&&◌, List, [], ◌∷◌, mem, num_eq, concat, if◌then◌else◌,
}

-- `s.rstrip("/")`
pub rstrip_slash : String → String
rstrip_slash String.[] = ""
rstrip_slash (String.◌∷◌ c s) =
    let rest = rstrip_slash s in if num_eq (code c) 47 && rest == "" then "" else String.◌∷◌ c rest

-- `_path_within_root`
unfoldable pub path_within_root : (String → String) → String → String → Bool
unfolding rstrip_slash
path_within_root normalize path root =
    let normalized_path = normalize path in
    let normalized_root = rstrip_slash (normalize root) in
    normalized_path == normalized_root
    || starts_with normalized_path (concat (normalized_root ∷ "/" ∷ []))

-- the loop of `_stable_unique`, with the values seen
abbrev pub unique_from : List String → List String → List String
unique_from seen [] = []
unique_from seen (v ∷ vs) =
    if mem v seen then unique_from seen vs else v ∷ unique_from (v ∷ seen) vs

-- `_stable_unique`
abbrev pub stable_unique : List String → List String
stable_unique values = unique_from [] values
