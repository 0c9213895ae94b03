-- ===== src/Store/Paths.antt =====
-- The laws of files that the store relies on, and that the path of an object determines its digest.
use Prim.Native.String
use Prim.Native.String.{count}
use text.Mathlib.TextLemmas.{
  nil-append, cons-append, append-nil, append_cancel_left, append_inj, length-cons, length-nil,
}
use attestation_layer.Prelude.{
  ℕ, zero, suc, String, ◌≡◌, refl, sym, ap, ◌∙◌, true, ◌==◌, some, [], ◌∷◌, arith, concat,
  if◌then◌else◌,
}
use attestation_layer.Store.Records.{FileSystem}
use attestation_layer.Store.{
  strip, removeprefix, take_chars, path_for_hash, sha256_bytes, object_path,
}

-- What the code relies on of the file system, pathlib and hashlib.
pub record IsLawful (F : FileSystem) : Type 0 where
  -- Writing a file leaves the others alone.
  pub read-write :
      (s : F.State) (p q : String) (b : F.Bytes)
      → F.read (F.write s p b) q ≡ (if p == q then some b else F.read s q)
  -- The digest has 64 hex digits.
  pub hex_length : (b : F.Bytes) → count (F.sha256_hex b) ≡ 64
  -- The path of an object is relative without `..`, and a root does not merge two such paths.
  pub object-contained : (b : F.Bytes) (p : String) → F.is_contained (object_path F b p) ≡ true
  pub join-object :
      (root : String) (b c : F.Bytes) (p q : String)
      → F.join root (object_path F b p) ≡ F.join root (object_path F c q)
      → object_path F b p ≡ object_path F c q
  -- Two relative paths that are one file under a root are one file under any other.
  pub rebase :
      (root other p q : String)
      → F.is_contained p ≡ true
      → F.is_contained q ≡ true
      → F.join root p ≡ F.join root q
      → F.join other p ≡ F.join other q

strip-append : (p s : String) → strip p (String.◌++◌ p s) ≡ some s
unfolding strip
strip-append String.[] s = ap (strip "") (nil-append s)
strip-append (String.◌∷◌ c p) s = rw (cons-append c p s) (ground (arith, strip-append p s))

removeprefix-append : (p s : String) → removeprefix p (String.◌++◌ p s) ≡ s
unfolding removeprefix
removeprefix-append p s = rw (removeprefix, strip-append p s) refl

removeprefix-concat : (p s : String) → removeprefix p (concat (p ∷ s ∷ [])) ≡ s
unfolding concat
removeprefix-concat p s = removeprefix-append p _ ∙ append-nil s

-- What a prefix counts depends on what the text counts.
count-take_chars :
    (n : ℕ) (s t : String) → count s ≡ count t → count (take_chars n s) ≡ count (take_chars n t)
unfolding take_chars
count-take_chars zero s t e = refl
count-take_chars (suc n) String.[] String.[] e = refl
count-take_chars (suc n) String.[] (String.◌∷◌ d t) e =
    absurd (omega (arith, e, length-nil, length-cons d t))
count-take_chars (suc n) (String.◌∷◌ c s) String.[] e =
    absurd (omega (arith, e, length-nil, length-cons c s))
count-take_chars (suc n) (String.◌∷◌ c s) (String.◌∷◌ d t) e =
    let below : count s ≡ count t = omega (arith, e, length-cons c s, length-cons d t) in
    rw (length-cons c (take_chars n s), length-cons d (take_chars n t))
      (ap suc (count-take_chars n s t below))

-- The path of a digest.
abbrev digest_path : String → String → String
digest_path digest suffix = concat (
    "objects/"
    ∷ take_chars 2 digest
    ∷ "/"
    ∷ digest
    ∷ (if suffix == "" then ".artifact" else suffix)
    ∷ [])

path_for_hash-digest :
    (d x : String) → path_for_hash (concat ("sha256:" ∷ d ∷ [])) x ≡ digest_path d x
unfolding path_for_hash
path_for_hash-digest d x = ap (λ e. digest_path e x) (removeprefix-concat "sha256:" d)

digest_path-inj : (d e x y : String) → count d ≡ count e → digest_path d x ≡ digest_path e y → d ≡ e
unfolding concat
digest_path-inj d e x y c q =
    let tails = append_cancel_left "objects/" _ _ q in
    let digests = (append_inj tails (count-take_chars 2 d e c)).1 in
    (append_inj (append_cancel_left "/" _ _ digests) c).0

module _ (F : FileSystem) (L : IsLawful F) where
  -- A path gives the digest of the content that lies there back.
  pub object_path-inj :
      (b c : F.Bytes) (p q : String)
      → object_path F b p ≡ object_path F c q
      → sha256_bytes F b ≡ sha256_bytes F c
  object_path-inj b c p q e =
      ap (λ d. concat ("sha256:" ∷ d ∷ []))
        (digest_path-inj (F.sha256_hex b) (F.sha256_hex c) (F.suffix p) (F.suffix q)
          (L.hex_length b ∙ sym (L.hex_length c))
          (sym (path_for_hash-digest _ _) ∙ e ∙ path_for_hash-digest _ _))
