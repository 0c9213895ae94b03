-- ===== src/Cache/Plan.antt =====
-- verification_cache.py: the plan of the tasks that run, in slots.
use attestation_layer.Prelude.{
  ℕ, String, Bool, true, false, not, Option, none, some, List, [], ◌∷◌, ◌++◌, filter, map, length,
  mem, is_empty, leb, concat, if◌then◌else◌,
}
use attestation_layer.Cache.Slots.{assign_dispatch_slot, maximum_from}
use attestation_layer.Cache.{
  VerificationCacheKey, VerificationCacheIndex, VerificationCachePolicyV2, ParallelDispatchTask,
  hit, miss, not_cacheable, ParallelDispatchDecision, ParallelDispatchPlan, key_of, cached_artifact,
  zeros,
}

-- `decision.cache_status == "hit"`
abbrev pub is_hit : ParallelDispatchDecision → Bool
is_hit d = elim d.cache_status [ hit ↦ true | miss ↦ false | not_cacheable ↦ false ]

-- `max(xs)`, of a list that may be empty
abbrev pub max_or_zero : List ℕ → ℕ
max_or_zero [] = 0
max_or_zero (x ∷ xs) = maximum_from x xs

-- `decisions.append(...)`
abbrev pub add_decision :
    ParallelDispatchDecision
    → Option (List ParallelDispatchDecision × List ℕ)
    → Option (List ParallelDispatchDecision × List ℕ)
add_decision d none = none
add_decision d (some (ds, slots)) = some (d ∷ ds, slots)

module _ (cache_key_hash : VerificationCacheKey → String) (policy : VerificationCachePolicyV2)
    (policy_hash : String) (index : VerificationCacheIndex) where
  abbrev pub hit_decision : ParallelDispatchTask → String → ParallelDispatchDecision
  hit_decision t artifact_hash = record {
    task_id = t.task_id;
    stage = t.stage;
    cache_key_hash = cache_key_hash (key_of cache_key_hash policy_hash t);
    cache_status = hit;
    artifact_hash = some artifact_hash;
    run_slot = none;
  }

  abbrev pub run_decision : ParallelDispatchTask → ℕ → ParallelDispatchDecision
  run_decision t slot = record {
    task_id = t.task_id;
    stage = t.stage;
    cache_key_hash = cache_key_hash (key_of cache_key_hash policy_hash t);
    cache_status = if mem t.stage policy.cacheable_stages then miss else not_cacheable;
    artifact_hash = none;
    run_slot = some slot;
  }

  -- the loop over the tasks, with the runtimes of the slots; `none` where `min` raises
  unfoldable pub dispatch :
      List ℕ → List ParallelDispatchTask → Option (List ParallelDispatchDecision × List ℕ)
  dispatch slots [] = some ([], slots)
  dispatch slots (t ∷ ts) = elim (cached_artifact cache_key_hash policy policy_hash index t) [
    | some artifact_hash ↦ add_decision (hit_decision t artifact_hash) (dispatch slots ts)
    | none ↦ elim (assign_dispatch_slot slots t.estimated_runtime_ms) [
      | none ↦ none
      | some (slot, slots') ↦ add_decision (run_decision t slot) (dispatch slots' ts)
    ]
  ]

  -- the findings of the loop
  abbrev input_findings : List ParallelDispatchTask → List String
  input_findings tasks =
      map
        (λ t. concat (
          ParallelDispatchTask.task_id t
          ∷ ": input hashes are required for cache-safe dispatch"
          ∷ []))
        (filter (λ t. is_empty (ParallelDispatchTask.input_hashes t)) tasks)

  -- the plan from the decisions and the slots; `str` prints a number
  abbrev pub assemble :
      (ℕ → String)
      → String
      → List ParallelDispatchTask
      → List ParallelDispatchDecision
      → List ℕ
      → ParallelDispatchPlan
  assemble str plan_id tasks decisions slots =
      let estimated_runtime = max_or_zero slots in
      let within_budget = leb estimated_runtime policy.ci_runtime_budget_ms in
      let findings =
        input_findings tasks
        ++ (if within_budget
            then []
            else concat (
                "estimated runtime "
                ∷ str estimated_runtime
                ∷ "ms exceeds CI budget "
                ∷ str policy.ci_runtime_budget_ms
                ∷ "ms"
                ∷ [])
              ∷ []) in
      record {
        plan_id = plan_id;
        is_ready = is_empty findings;
        policy_hash = policy_hash;
        max_parallelism = policy.max_parallelism;
        cache_hits = length (filter is_hit decisions);
        cache_misses = length (filter (λ d. not (is_hit d)) decisions);
        estimated_runtime_ms = estimated_runtime;
        ci_runtime_budget_ms = policy.ci_runtime_budget_ms;
        within_budget = within_budget;
        decisions = decisions;
        findings = findings;
      }

  unfoldable pub build_parallel_dispatch_plan :
      (ℕ → String) → String → List ParallelDispatchTask → Option ParallelDispatchPlan
  unfolding dispatch cached_artifact
  build_parallel_dispatch_plan str plan_id tasks =
      elim (dispatch (zeros policy.max_parallelism) tasks) [
        | none ↦ none
        | some (decisions, slots) ↦ some (assemble str plan_id tasks decisions slots)
      ]
