-- ===== src/Store.antt =====
-- artifact_store.py: artifacts stored as files under the digest of their content, looked up with
-- that digest computed anew, and exported as a bundle that can be replayed. Store.Bundle is the
-- verification of a bundle. The files are a parameter (Records), with Files as an instance.
pub mod Records
pub mod Paths
pub mod Laws
pub mod Export
pub mod Memory
pub mod Bundle
unfoldable pub use Records.*
use Prim.Native.Char.{code}
use Prim.Native.String
use attestation_layer.Prelude.{
  ℕ, zero, suc, String, Bool, true, false, not, ◌==◌, Option, none, some, List, [], ◌∷◌, ◌++◌,
  by_key, is_none, num_eq, concat, Dict, Result, ok, err, if◌then◌else◌,
}

-- What follows a prefix, if there is one.
pub strip : String → String → Option String
strip String.[] s = some s
strip (String.◌∷◌ c p) String.[] = none
strip (String.◌∷◌ c p) (String.◌∷◌ d s) =
    let rest = strip p s in if num_eq (code c) (code d) then rest else none

-- `s.removeprefix(prefix)`
pub removeprefix : String → String → String
unfolding strip
removeprefix prefix s = elim (strip prefix s) [ none ↦ s | some rest ↦ rest ]

-- `s[:n]`
pub take_chars : ℕ → String → String
take_chars zero s = ""
take_chars (suc n) String.[] = ""
take_chars (suc n) (String.◌∷◌ c s) = String.◌∷◌ c (take_chars n s)

-- `_path_for_hash`
unfoldable pub path_for_hash : String → String → String
unfolding removeprefix take_chars
path_for_hash artifact_hash suffix =
    let digest = removeprefix "sha256:" artifact_hash in
    let safe_suffix = if suffix == "" then ".artifact" else suffix in
    concat ("objects/" ∷ take_chars 2 digest ∷ "/" ∷ digest ∷ safe_suffix ∷ [])

-- The exceptions of the three functions.
pub data StoreError : Type 0 where
  file_not_found store_path_not_relative same_file manifest_hashes_not_unique : StoreError

module _ (F : FileSystem) where
  -- `_sha256_bytes`
  abbrev pub sha256_bytes : F.Bytes → String
  sha256_bytes data_bytes = concat ("sha256:" ∷ F.sha256_hex data_bytes ∷ [])

  -- where a content lies, read from a source of that name
  abbrev pub object_path : F.Bytes → String → String
  object_path data_bytes source = path_for_hash (sha256_bytes data_bytes) (F.suffix source)

  -- the record that `put_artifact` constructs
  abbrev pub record_of :
      String → F.Bytes → String → String → Bool → Bool → Dict String → ArtifactRecord
  record_of source data_bytes logical_name media_type raw normalized metadata = record {
    artifact_hash = sha256_bytes data_bytes;
    logical_name = logical_name;
    media_type = media_type;
    store_path = object_path data_bytes source;
    size_bytes = F.size data_bytes;
    retained = true;
    raw = raw;
    normalized = normalized;
    metadata = metadata;
  }

  -- `if not target.exists(): target.write_bytes(data)`
  abbrev pub write_absent : F.State → String → F.Bytes → F.State
  write_absent s target data_bytes =
      if is_none (F.read s target) then F.write s target data_bytes else s

  unfoldable pub put_artifact :
      F.State
      → String
      → String
      → String
      → String
      → Bool
      → Bool
      → Dict String
      → F.State × Result StoreError ArtifactRecord
  put_artifact s root source logical_name media_type raw normalized metadata =
      elim (F.read s source) [
        | none ↦ (s, err file_not_found)
        | some data_bytes ↦
            (let artifact =
                record_of source data_bytes logical_name media_type raw normalized metadata in
              (
                write_absent s (F.join root artifact.store_path) data_bytes,
                if F.is_contained artifact.store_path
                    then ok artifact
                    else err store_path_not_relative,
              ))
      ]

  -- the comparison of a file that is there with the hash asked for
  abbrev pub compare_hash : String → String → ArtifactRecord → F.Bytes → ArtifactLookupResult
  compare_hash artifact_hash path artifact data_bytes =
      if not (sha256_bytes data_bytes == artifact_hash)
      then record {
        status = hash_mismatch;
        artifact_hash = artifact_hash;
        path = some path;
        artifact = some artifact;
        reason = some "stored file hash differs from manifest";
      }
      else record {
        status = found;
        artifact_hash = artifact_hash;
        path = some path;
        artifact = some artifact;
        reason = none;
      }

  unfoldable pub lookup_artifact :
      F.State → String → ArtifactStoreManifest → String → ArtifactLookupResult
  lookup_artifact s root m artifact_hash =
      elim (by_key (λ r. ArtifactRecord.artifact_hash r) artifact_hash m.records) [
        | none ↦ record {
          status = missing;
          artifact_hash = artifact_hash;
          path = none;
          artifact = none;
          reason = some "not in manifest";
        }
        | some artifact ↦ elim (F.read s (F.join root artifact.store_path)) [
          | none ↦ record {
            status = missing;
            artifact_hash = artifact_hash;
            path = none;
            artifact = some artifact;
            reason = some "file missing";
          }
          | some data_bytes ↦
              compare_hash artifact_hash (F.join root artifact.store_path) artifact data_bytes
        ]
      ]

  -- `shutil.copyfile`, which raises if both paths are the same file
  abbrev pub copy_file : F.State → String → String → Result StoreError F.State
  copy_file s source target = if source == target then err same_file else elim (F.read s source) [
    | none ↦ err file_not_found
    | some data_bytes ↦ ok (F.write s target data_bytes)
  ]

  -- `lookup.status == "found"`
  abbrev pub is_found : ArtifactLookupResult → Bool
  is_found l = elim l.status [ found ↦ true | missing ↦ false | hash_mismatch ↦ false ]

  -- the loop over the records
  pub export_records :
      F.State
      → String
      → ArtifactStoreManifest
      → String
      → List ArtifactRecord
      → F.State × Result StoreError (List ArtifactRecord)
  export_records s root m bundle_root [] = (s, ok [])
  export_records s root m bundle_root (r ∷ rs) =
      elim (is_found (lookup_artifact s root m r.artifact_hash)) [
        | false ↦ export_records s root m bundle_root rs
        | true ↦ elim (copy_file s (F.join root r.store_path) (F.join bundle_root r.store_path)) [
          | err e ↦ (s, err e)
          | ok s' ↦
              (let (final, rest) = export_records s' root m bundle_root rs in
                elim rest [ err e ↦ (final, err e) | ok kept ↦ (final, ok (r ∷ kept)) ])
        ]
      ]

  unfoldable pub export_replay_bundle :
      F.State
      → String
      → ArtifactStoreManifest
      → String
      → String
      → F.State × Result StoreError ReplayBundleManifest
  unfolding export_records
  export_replay_bundle s root m bundle_root bundle_id =
      let (final, kept) = export_records s root m bundle_root m.records in
      elim kept [
        | err e ↦ (final, err e)
        | ok records ↦ (
          final,
          ok (record { bundle_id = bundle_id; source_store_id = m.store_id; records = records }),
        )
      ]
