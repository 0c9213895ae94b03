-- ===== src/Store/Laws.antt =====
-- A store keeps what was put into it.
use attestation_layer.Prelude.{
  String, ◌≡◌, refl, sym, ap, ◌∙◌, inl, inr, Bool, true, ◌==◌, eq_iff, eq_refl, none, some, Memᴰ,
  arith, by_key, by_key-mem, are_unique, Bool-cases, Option-cases, Dict, Result, ok,
}
use attestation_layer.Store.{
  FileSystem, ArtifactRecord, ArtifactStoreManifest, found, check_manifest, StoreError,
  sha256_bytes, object_path, record_of, write_absent, put_artifact, lookup_artifact, is_found,
}
use attestation_layer.Store.Paths.{IsLawful, object_path-inj}

pub manifest_unique :
    (m : ArtifactStoreManifest)
    → check_manifest m ≡ some m
    → are_unique (λ r. ArtifactRecord.artifact_hash r) m.records ≡ true
unfolding check_manifest
manifest_unique m c = ground (arith, c)

some-inj : {A : Type 0} {x y : A} → some x ≡ some y → x ≡ y
some-inj e = cc e

module _ (F : FileSystem) where
  -- Every object under the root has the digest that its path names.
  abbrev pub IsWellFormed : String → F.State → Type 0
  IsWellFormed root s =
      (b c : F.Bytes) (p : String)
      → F.read s (F.join root (object_path F b p)) ≡ some c
      → sha256_bytes F c ≡ sha256_bytes F b

  -- Where the file of the record is there with the hash asked for, the artifact is found.
  pub lookup_artifact-of_file :
      (s : F.State) (root : String) (m : ArtifactStoreManifest) (h : String) (r : ArtifactRecord)
      (b : F.Bytes)
      → by_key (λ r. ArtifactRecord.artifact_hash r) h m.records ≡ some r
      → F.read s (F.join root r.store_path) ≡ some b
      → sha256_bytes F b ≡ h
      → lookup_artifact F s root m h ≡ record {
        status = found;
        artifact_hash = h;
        path = some (F.join root r.store_path);
        artifact = some r;
        reason = none;
      }
  unfolding lookup_artifact
  lookup_artifact-of_file s root m h r b k f e = rw (lookup_artifact, k, f, e, eq_refl h) refl

  -- What is found is a record of the manifest whose file has the hash.
  pub found-file :
      (s : F.State) (root : String) (m : ArtifactStoreManifest) (h : String)
      → is_found F (lookup_artifact F s root m h) ≡ true
      → (r : ArtifactRecord) × (b : F.Bytes) × (by_key
            (λ r. ArtifactRecord.artifact_hash r)
            h
            m.records
          ≡ some r)
        × (F.read s (F.join root r.store_path) ≡ some b)
        × (sha256_bytes F b ≡ h)
  unfolding lookup_artifact
  found-file s root m h f =
      elim (Option-cases (by_key (λ r. ArtifactRecord.artifact_hash r) h m.records)) [
        | inl n ↦ absurd (ground (arith, f, n))
        | inr (r, k) ↦ elim (Option-cases (F.read s (F.join root r.store_path))) [
          | inl n ↦ absurd (ground (arith, f, k, n))
          | inr (b, e) ↦
              (let g : (sha256_bytes F b == h) ≡ true = ground (arith, f, k, e) in
                (r, b, k, e, (eq_iff (sha256_bytes F b) h).0 g))
        ]
      ]

  module _ (L : IsLawful F) where
    -- The file at a path after a write, where it was absent.
    read-write_absent :
        (s : F.State) (p q : String) (b : F.Bytes) (c : F.Bytes)
        → F.read s q ≡ some c
        → F.read (write_absent F s p b) q ≡ some c
    read-write_absent s p q b c e = ground (arith, L.read-write s p q b, eq_iff p q, e)

    -- A written object lies at its path, with a content of its digest.
    target-write_absent :
        (s : F.State) (root source : String) (b : F.Bytes)
        → IsWellFormed root s
        → (c : F.Bytes) × (F.read
              (write_absent F s (F.join root (object_path F b source)) b)
              (F.join root (object_path F b source))
            ≡ some c)
          × (sha256_bytes F c ≡ sha256_bytes F b)
    target-write_absent s root source b w =
        let p = F.join root (object_path F b source) in
        elim (Option-cases (F.read s p)) [
          | inl n ↦ (b, ground (arith, n, L.read-write s p p b, eq_refl p), refl)
          | inr (c, e) ↦ (c, read-write_absent s p p b c e, w b c source e)
        ]

    write_absent-IsWellFormed :
        (s : F.State) (root source : String) (b : F.Bytes)
        → IsWellFormed root s
        → IsWellFormed root (write_absent F s (F.join root (object_path F b source)) b)
    write_absent-IsWellFormed s root source b w d c p e =
        let target = F.join root (object_path F b source) in
        let q = F.join root (object_path F d p) in
        elim (Bool-cases (target == q)) [
          | inl same ↦
              (let there : target ≡ q = (eq_iff target q).0 same in
                let (c', r, h) = target-write_absent s root source b w in
                let content : c' ≡ c =
                  some-inj (sym r ∙ ap (F.read (write_absent F s target b)) there ∙ e) in
                ap (sha256_bytes F) (sym content)
                ∙ h
                ∙ object_path-inj F L b d source p (L.join-object root b d source p there))
          | inr other ↦ w d c p (ground (arith, e, L.read-write s target q b, other))
        ]

-- The put of a file.
module _ (F : FileSystem) (L : IsLawful F) (root source name media : String) (raw normalized : Bool)
    (metadata : Dict String) where
  abbrev put : F.State → F.State × Result StoreError ArtifactRecord
  put s = put_artifact F s root source name media raw normalized metadata

  abbrev artifact_of : F.Bytes → ArtifactRecord
  artifact_of b = record_of F source b name media raw normalized metadata

  put_artifact-readable :
      (s : F.State) (b : F.Bytes)
      → F.read s source ≡ some b
      → put s ≡ (write_absent F s (F.join root (object_path F b source)) b, ok (artifact_of b))
  unfolding put_artifact
  put_artifact-readable s b e = rw (put_artifact, e, L.object-contained b source) refl

  put_artifact-unreadable : (s : F.State) → F.read s source ≡ none → (put s).0 ≡ s
  unfolding put_artifact
  put_artifact-unreadable s n = rw (put_artifact, n) refl

  -- A put of a file that can be read succeeds on a well-formed store, and any manifest of distinct
  -- hashes that lists its record finds the artifact afterwards, at the recorded path.
  pub lookup_artifact-put_artifact :
      (s : F.State) (b : F.Bytes) (m : ArtifactStoreManifest)
      → IsWellFormed F root s
      → F.read s source ≡ some b
      → check_manifest m ≡ some m
      → Memᴰ (artifact_of b) m.records
      → ((put s).1 ≡ ok (artifact_of b))
        × (lookup_artifact F (put s).0 root m (sha256_bytes F b) ≡ record {
          status = found;
          artifact_hash = sha256_bytes F b;
          path = some (F.join root (object_path F b source));
          artifact = some (artifact_of b);
          reason = none;
        })
  lookup_artifact-put_artifact s b m w e c i =
      let (d, f, h) = target-write_absent F L s root source b w in
      rw (put_artifact-readable s b e) (
        refl,
        lookup_artifact-of_file F _ root m (sha256_bytes F b) (artifact_of b) d
            (by_key-mem (λ r. ArtifactRecord.artifact_hash r) m.records (artifact_of b)
              (manifest_unique m c) i)
            f h,
      )

  put_artifact-IsWellFormed : (s : F.State) → IsWellFormed F root s → IsWellFormed F root (put s).0
  put_artifact-IsWellFormed s w = elim (Option-cases (F.read s source)) [
    | inl n ↦ rw (put_artifact-unreadable s n) w
    | inr (b, e) ↦
        rw (put_artifact-readable s b e) (write_absent-IsWellFormed F L s root source b w)
  ]

  found_again :
      (s : F.State) (m : ArtifactStoreManifest) (h : String)
      → is_found F (lookup_artifact F s root m h) ≡ true
      → lookup_artifact F (put s).0 root m h ≡ lookup_artifact F s root m h
  found_again s m h f = elim (Option-cases (F.read s source)) [
    | inl n ↦ rw (put_artifact-unreadable s n) refl
    | inr (b, e) ↦
        (let (r, c, k, there, hash) = found-file F s root m h f in
          let target = F.join root (object_path F b source) in
          let kept = read-write_absent F L s target (F.join root r.store_path) b c there in
          rw (put_artifact-readable s b e) (
            lookup_artifact-of_file F _ root m h r c k kept hash
            ∙ sym (lookup_artifact-of_file F s root m h r c k there hash)))
  ]

  -- A put keeps the store well-formed, that is every object has the digest that its path names, whether
  -- the file can be read or not, and every artifact that a manifest found before it finds as before.
  pub put_artifact-keeps :
      (s : F.State)
      → IsWellFormed F root s
      → IsWellFormed F root (put s).0
        × ((m : ArtifactStoreManifest) (h : String)
            → is_found F (lookup_artifact F s root m h) ≡ true
            → lookup_artifact F (put s).0 root m h ≡ lookup_artifact F s root m h)
  put_artifact-keeps s w = (put_artifact-IsWellFormed s w, found_again s)
