-- ===== src/Store/Export.antt =====
-- An exported bundle holds what its store holds.
use mathlib.Core.List.Memᴰ
use attestation_layer.Prelude.{String, ◌≡◌, ◌≢◌, Bool, true, some, List, Memᴰ, filter, ok}
use attestation_layer.Store.{
  FileSystem, ArtifactRecord, ArtifactStoreManifest, check_manifest, lookup_artifact, is_found,
  export_records,
}
use attestation_layer.Store.Paths.{IsLawful}

module _ (F : FileSystem) (L : IsLawful F) (s : F.State) (root bundle_root : String)
    (m : ArtifactStoreManifest)
    (contained : (r : ArtifactRecord) → Memᴰ r m.records → F.is_contained r.store_path ≡ true)
    (apart : (p q : String)
      → F.is_contained p ≡ true
      → F.is_contained q ≡ true
      → F.join root p ≢ F.join bundle_root q) where
  -- The artifact of the record is found in the store.
  abbrev kept : ArtifactRecord → Bool
  kept r = is_found F (lookup_artifact F s root m r.artifact_hash)

  -- The files of the store are as they were at the start.
  abbrev IsSame : F.State → Type 0
  IsSame t =
      (p : String) → F.is_contained p ≡ true → F.read t (F.join root p) ≡ F.read s (F.join root p)

  -- The bundle has the file that the store has for the record.
  abbrev IsCopied : F.State → ArtifactRecord → Type 0
  IsCopied t r = F.read t (F.join bundle_root r.store_path) ≡ F.read s (F.join root r.store_path)

  -- The run of the loop over the records, from a state in which the store is untouched.
  record IsExported (t : F.State) (rs : List ArtifactRecord) : Type 0 where
    final : F.State
    returns : export_records F t root m bundle_root rs ≡ (final, ok (filter kept rs))
    copied : (r : ArtifactRecord) → Memᴰ r rs → kept r ≡ true → IsCopied final r
    stays :
        (r : ArtifactRecord) → F.is_contained r.store_path ≡ true → IsCopied t r → IsCopied final r

  -- One copy leaves the store and what was copied before as they were.
  module _ (t : F.State) (same : IsSame t) (r : ArtifactRecord) (b : F.Bytes)
      (there : F.read s (F.join root r.store_path) ≡ some b)
      (within : F.is_contained r.store_path ≡ true) where
    abbrev target : String
    target = F.join bundle_root r.store_path

  module _ (c : check_manifest m ≡ some m) where
    -- The manifest of the bundle.
    abbrev exported : ArtifactStoreManifest
    exported = record { store_id = m.store_id; records = filter kept m.records }
