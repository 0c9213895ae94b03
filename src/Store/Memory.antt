-- ===== src/Store/Memory.antt =====
-- Files in memory: texts by path, under roots that paths are appended to. The digest is a stand-in
-- of the right length that tells a few contents apart.
use Prim.Native.String
use Prim.Native.String.{count}
use text.Mathlib.TextLemmas.{append_cancel_left}
use attestation_layer.Prelude.{
  String, ◌≡◌, refl, ap, true, ◌==◌, Dict, lookup, insert, lookup-insert, if◌then◌else◌, Bool-cases,
  inl, inr,
}
use attestation_layer.Store.Records.{FileSystem}
use attestation_layer.Store.Paths.{IsLawful}

-- Digests of 64 digits.
abbrev digest : String → String
digest content =
    if content == "proof"
    then "1111111111111111111111111111111111111111111111111111111111111111"
    else if content == "trace"
    then "2222222222222222222222222222222222222222222222222222222222222222"
    else "0000000000000000000000000000000000000000000000000000000000000000"

abbrev pub memory : FileSystem
memory = record {
  State = Dict String;
  Bytes = String;
  read = λ d p. lookup p d;
  write = λ d p content. insert p content d;
  join = λ root p. String.◌++◌ root p;
  suffix = λ p. ".json";
  is_contained = λ p. true;
  size = λ content. count content;
  sha256_hex = digest;
}

count-digest : (content : String) → count (digest content) ≡ 64
count-digest content = elim (Bool-cases (content == "proof")) [
  | inl e ↦ rw e refl
  | inr e ↦ elim (Bool-cases (content == "trace")) [
    | inl f ↦ rw (e, f) refl
    | inr f ↦ rw (e, f) refl
  ]
]

-- The files in memory have the laws.
pub memory-IsLawful : IsLawful memory
memory-IsLawful = record {
  read-write = λ d p q content. lookup-insert p q content d;
  hex_length = count-digest;
  object-contained = λ b p. refl;
  join-object = λ root b c p q e. append_cancel_left root _ _ e;
  rebase = λ root other p q cp cq e. ap (λ x. String.◌++◌ other x) (append_cancel_left root _ _ e);
}
