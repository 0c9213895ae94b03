-- ===== src/Cache.antt =====
-- verification_cache.py: the index of cached artifacts by the hash of their key, and the plan that
-- runs what is not cached in parallel slots. The hash of a key and of the policy is a parameter.
pub mod Records
pub mod Laws
pub mod Slots
pub mod Balance
pub mod Plan
pub mod Decided
pub mod Bounds
unfoldable pub use Records.*
use Prim.Native.String.{compare}
use text.Mathlib.Text.{is_le}
use attestation_layer.Prelude.{
  ℕ, zero, suc, ◌+◌, String, Bool, true, false, not, ◌&&◌, ◌==◌, Option, none, some, List, [], ◌∷◌,
  ◌++◌, map, any, find, filter, length, mem, is_empty, leb, ltb, num_eq, concat, Dict,
  if◌then◌else◌,
}
use attestation_layer.Models.Json.{Fields}

-- `sorted(d.items())`, whose keys differ
pub insert_item : String × String → Dict String → Dict String
insert_item e [] = e ∷ []
insert_item e (f ∷ fs) = if is_le (compare e.0 f.0) then e ∷ f ∷ fs else f ∷ insert_item e fs

unfoldable pub sorted_items : Dict String → Dict String
unfolding insert_item
sorted_items [] = []
sorted_items (e ∷ es) = insert_item e (sorted_items es)

abbrev pub build_verification_cache_key :
    String → Dict String → Dict String → Option String → VerificationCacheKey
build_verification_cache_key stage input_hashes tool_versions policy_hash = record {
  stage = stage;
  input_hashes = sorted_items input_hashes;
  tool_versions = sorted_items tool_versions;
  policy_hash = policy_hash;
}

-- `range(n)` mapped to 0
abbrev pub zeros : ℕ → List ℕ
zeros zero = []
zeros (suc n) = 0 ∷ zeros n

-- `record.cache_key_hash == key_hash`
abbrev pub has_key_hash : String → VerificationCacheRecord → Bool
has_key_hash key_hash r = r.cache_key_hash == key_hash

-- `record.model_copy(update={"hit_count": record.hit_count + 1})`
abbrev pub counted : VerificationCacheRecord → VerificationCacheRecord
counted r = record {
  cache_key_hash = r.cache_key_hash;
  artifact_hash = r.artifact_hash;
  stage = r.stage;
  hit_count = r.hit_count + 1;
  metadata = r.metadata;
}

-- the item of the list comprehension `records`
abbrev pub touch : String → VerificationCacheRecord → VerificationCacheRecord
touch key_hash r = if has_key_hash key_hash r then counted r else r

-- the list comprehension `records`
abbrev pub count_hit : String → List VerificationCacheRecord → List VerificationCacheRecord
count_hit key_hash records = map (touch key_hash) records

-- the two results of `lookup_cache`
abbrev pub lookup_of : String → Option VerificationCacheRecord → VerificationCacheLookup
lookup_of key_hash none = record { is_hit = false; cache_key_hash = key_hash; cached = none }
lookup_of key_hash (some r) = record { is_hit = true; cache_key_hash = key_hash; cached = some r }

-- the list `records` of `record_cache_artifact`
abbrev pub add_record :
    String → VerificationCacheRecord → List VerificationCacheRecord → List VerificationCacheRecord
add_record key_hash added records =
    if not (any (has_key_hash key_hash) records)
    then count_hit key_hash records ++ (added ∷ [])
    else count_hit key_hash records

module _ (cache_key_hash : VerificationCacheKey → String) where
  unfoldable pub lookup_cache :
      VerificationCacheIndex → VerificationCacheKey → VerificationCacheLookup
  lookup_cache index key =
      let key_hash = cache_key_hash key in
      lookup_of key_hash (find (has_key_hash key_hash) index.records)

  -- the record that is appended
  abbrev pub new_record : VerificationCacheKey → String → Fields → VerificationCacheRecord
  new_record key artifact_hash metadata = record {
    cache_key_hash = cache_key_hash key;
    artifact_hash = artifact_hash;
    stage = key.stage;
    hit_count = 0;
    metadata = metadata;
  }

  unfoldable pub record_cache_artifact :
      VerificationCacheIndex → VerificationCacheKey → String → Fields → VerificationCacheIndex
  record_cache_artifact index key artifact_hash metadata = record {
    records = add_record (cache_key_hash key) (new_record key artifact_hash metadata) index.records;
  }

  -- the key of a task
  abbrev pub key_of : String → ParallelDispatchTask → VerificationCacheKey
  key_of policy_hash t =
      build_verification_cache_key t.stage t.input_hashes t.tool_versions (some policy_hash)

  -- the artifact of a task that is served from the cache
  pub cached_artifact :
      VerificationCachePolicyV2
      → String
      → VerificationCacheIndex
      → ParallelDispatchTask
      → Option String
  cached_artifact policy policy_hash index t =
      if not (mem t.stage policy.cacheable_stages)
      then none
      else elim (lookup_cache index (key_of policy_hash t)).cached [
        | none ↦ none
        | some r ↦ some r.artifact_hash
      ]
