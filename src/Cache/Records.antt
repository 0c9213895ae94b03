-- ===== src/Cache/Records.antt =====
-- verification_cache.py: the records of the cache, of the tasks and of the plan.
use attestation_layer.Prelude.{
  ℕ, String, Bool, not, Option, none, some, List, Dict, are_unique, if◌then◌else◌,
}
use attestation_layer.Models.Json.{Fields}

pub record VerificationCacheKey : Type 0 where
  pub stage : String
  pub input_hashes : Dict String
  pub tool_versions : Dict String
  pub policy_hash : Option String

pub record VerificationCacheRecord : Type 0 where
  pub cache_key_hash : String
  pub artifact_hash : String
  pub stage : String
  pub hit_count : ℕ
  pub metadata : Fields

pub record VerificationCacheIndex : Type 0 where
  pub records : List VerificationCacheRecord

-- `VerificationCacheIndex.validate_unique_keys`
unfoldable pub check_index : VerificationCacheIndex → Option VerificationCacheIndex
check_index index =
    if not (are_unique (λ r. VerificationCacheRecord.cache_key_hash r) index.records)
    then none
    else some index

pub record VerificationCacheLookup : Type 0 where
  pub is_hit : Bool
  pub cache_key_hash : String
  pub cached : Option VerificationCacheRecord

pub record VerificationCachePolicyV2 : Type 0 where
  pub policy_id : String
  pub cacheable_stages : List String
  pub max_parallelism : ℕ
  pub ci_runtime_budget_ms : ℕ

pub record ParallelDispatchTask : Type 0 where
  pub task_id : String
  pub stage : String
  pub input_hashes : Dict String
  pub tool_versions : Dict String
  pub timeout_ms : ℕ
  pub estimated_runtime_ms : ℕ

pub data CacheStatus : Type 0 where
  hit miss not_cacheable : CacheStatus

pub record ParallelDispatchDecision : Type 0 where
  pub task_id : String
  pub stage : String
  pub cache_key_hash : String
  pub cache_status : CacheStatus
  pub artifact_hash : Option String
  pub run_slot : Option ℕ

-- The plan without the digests of its inputs.
pub record ParallelDispatchPlan : Type 0 where
  pub plan_id : String
  pub is_ready : Bool
  pub policy_hash : String
  pub max_parallelism : ℕ
  pub cache_hits : ℕ
  pub cache_misses : ℕ
  pub estimated_runtime_ms : ℕ
  pub ci_runtime_budget_ms : ℕ
  pub within_budget : Bool
  pub decisions : List ParallelDispatchDecision
  pub findings : List String
