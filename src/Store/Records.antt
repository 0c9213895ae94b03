-- ===== src/Store/Records.antt =====
-- artifact_store.py: the records of artifacts, manifests and bundles, and the files that they lie in.
use attestation_layer.Prelude.{
  ℕ, String, Bool, not, Option, none, some, List, Dict, are_unique, if◌then◌else◌,
}
use attestation_layer.Signed.{SignedEvidenceEnvelope}

pub record ArtifactRecord : Type 0 where
  pub artifact_hash : String
  pub logical_name : String
  pub media_type : String
  pub store_path : String
  pub size_bytes : ℕ
  pub retained : Bool
  pub raw : Bool
  pub normalized : Bool
  pub metadata : Dict String

pub record ArtifactStoreManifest : Type 0 where
  pub store_id : String
  pub records : List ArtifactRecord

pub data LookupStatus : Type 0 where
  found missing hash_mismatch : LookupStatus

pub record ArtifactLookupResult : Type 0 where
  pub status : LookupStatus
  pub artifact_hash : String
  pub path : Option String
  pub artifact : Option ArtifactRecord
  pub reason : Option String

pub record ReplayBundleManifest : Type 0 where
  pub bundle_id : String
  pub source_store_id : String
  pub records : List ArtifactRecord

-- The command of a bundle; its directory, environment and tool versions are carried along only.
pub record ReplayCommandMetadata : Type 0 where
  pub command : List String

-- The bundle without the digests of its inputs.
pub record ReplayBundleManifestV2 : Type 0 where
  pub bundle_id : String
  pub source_store_id : String
  pub command : ReplayCommandMetadata
  pub records : List ArtifactRecord
  pub signed_envelopes : List SignedEvidenceEnvelope

pub data ReplayCategory : Type 0 where
  artifact_category signature_category producer_category command_category : ReplayCategory

pub record ReplayVerificationFinding : Type 0 where
  pub category : ReplayCategory
  pub artifact_hash : Option String
  pub envelope_id : Option String
  pub blocking : Bool
  pub message : String

-- The report without the digests of its inputs.
pub record ReplayVerificationReport : Type 0 where
  pub bundle_id : String
  pub is_valid : Bool
  pub verified_artifact_hashes : List String
  pub missing_artifact_hashes : List String
  pub verified_envelope_ids : List String
  pub findings : List ReplayVerificationFinding

-- `ArtifactStoreManifest.validate_unique_hashes`
unfoldable pub check_manifest : ArtifactStoreManifest → Option ArtifactStoreManifest
check_manifest m =
    if not (are_unique (λ r. ArtifactRecord.artifact_hash r) m.records) then none else some m

-- Regular files by path, with what the store uses of pathlib and hashlib. `write` also makes the
-- directories above the file; no directory stands at the path of an object.
pub record FileSystem : Type 1 where
  pub State : Type 0
  pub Bytes : Type 0
  -- `path.read_bytes()`, `none` where `path.is_file()` fails
  pub read : State → String → Option Bytes
  pub write : State → String → Bytes → State
  -- `root / relative`
  pub join : String → String → String
  -- `PurePath.suffix`
  pub suffix : String → String
  -- neither absolute nor with a part `..`
  pub is_contained : String → Bool
  pub size : Bytes → ℕ
  pub sha256_hex : Bytes → String
