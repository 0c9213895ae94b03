-- ===== src/Tests/Cache.antt =====
-- verification_cache.py on concrete inputs.
use mathlib.Core.List.Memᴰ
use mathlib.Core.Logic.{⊎_elim}
use attestation_layer.Prelude.{
  ℕ, ◌+◌, ◌*◌, ◌≤◌, String, ◌≡◌, refl, true, ◌==◌, none, some, List, [], ◌∷◌, Memᴰ, arith,
  if◌then◌else◌, dedupe,
}
use attestation_layer.Models.Json.{Fields}
use attestation_layer.Cache.{
  VerificationCacheKey, VerificationCacheIndex, check_index, VerificationCachePolicyV2,
  ParallelDispatchTask, ParallelDispatchPlan, lookup_cache, record_cache_artifact,
}
use attestation_layer.Cache.Laws.{
  expected, lookup_cache-record_cache_artifact, check_index-record_cache_artifact,
}
use attestation_layer.Cache.Plan.{build_parallel_dispatch_plan}
use attestation_layer.Cache.Decided.{AreDecided, work}
use attestation_layer.Cache.Bounds.{build_parallel_dispatch_plan-bounds}

-- A hash that tells the stages apart.
abbrev stage_hash : VerificationCacheKey → String
stage_hash key = key.stage

abbrev key_for : String → VerificationCacheKey
key_for stage = record {
  stage = stage;
  input_hashes = ("spec", "h1") ∷ [];
  tool_versions = ("z3", "4.13") ∷ [];
  policy_hash = none;
}

abbrev index : VerificationCacheIndex
index = record {
  records =
      (record {
        cache_key_hash = "formal_backend";
        artifact_hash = "sha256:a";
        stage = "formal_backend";
        hit_count = 0;
        metadata = Fields.done;
      })
      ∷ [];
}

lookup_cache-record_cache_artifact_example :
    lookup_cache stage_hash
      (record_cache_artifact stage_hash index (key_for "formal_backend") "sha256:b" Fields.done)
      (key_for "formal_backend")
    ≡ (if "formal_backend" == "formal_backend"
        then record {
          is_hit = true;
          cache_key_hash = "formal_backend";
          cached = some (
              expected "formal_backend"
                (key_for "formal_backend")
                "sha256:b"
                Fields.done
                (lookup_cache stage_hash index (key_for "formal_backend")).cached);
        }
        else lookup_cache stage_hash index (key_for "formal_backend"))
lookup_cache-record_cache_artifact_example =
    lookup_cache-record_cache_artifact stage_hash index (key_for "formal_backend")
      (key_for "formal_backend") "sha256:b" Fields.done

index-checked : check_index index ≡ some index
unfolding check_index dedupe
index-checked = refl

check_index-record_cache_artifact_example :
    check_index
      (record_cache_artifact stage_hash index (key_for "trace_validation") "sha256:b" Fields.done)
    ≡ some
        (record_cache_artifact stage_hash index (key_for "trace_validation") "sha256:b" Fields.done)
check_index-record_cache_artifact_example =
    check_index-record_cache_artifact stage_hash index (key_for "trace_validation") "sha256:b"
      Fields.done index-checked

abbrev policy : VerificationCachePolicyV2
policy = record {
  policy_id = "two-slots";
  cacheable_stages = "formal_backend" ∷ "trace_validation" ∷ [];
  max_parallelism = 2;
  ci_runtime_budget_ms = 60;
}

abbrev task : String → String → ℕ → ParallelDispatchTask
task id stage runtime_ms = record {
  task_id = id;
  stage = stage;
  input_hashes = ("spec", "h1") ∷ [];
  tool_versions = [];
  timeout_ms = 1000;
  estimated_runtime_ms = runtime_ms;
}

abbrev tasks : List ParallelDispatchTask
tasks = task "t1" "formal_backend" 30 ∷ task "t2" "trace_validation" 20 ∷ task "t3" "lint" 40 ∷ []

tasks-le : (t : ParallelDispatchTask) → Memᴰ t tasks → t.estimated_runtime_ms ≤ 40
tasks-le t m =
    ⊎_elim (λ (e : t ≡ task "t1" "formal_backend" 30). rw e (omega arith))
      (λ (n : Memᴰ t (task "t2" "trace_validation" 20 ∷ task "t3" "lint" 40 ∷ [])).
        ⊎_elim (λ (e : t ≡ task "t2" "trace_validation" 20). rw e (omega arith))
          (λ (k : Memᴰ t (task "t3" "lint" 40 ∷ [])).
            let e : t ≡ task "t3" "lint" 40 = Memᴰ.eq_of_singleton k in rw e (omega arith))
          (Memᴰ.cases_cons n))
      (Memᴰ.cases_cons m)

build_parallel_dispatch_plan-bounds_example :
    (plan : ParallelDispatchPlan) × (build_parallel_dispatch_plan stage_hash policy "p" index
        (λ n. "n")
        "plan"
        tasks
      ≡ some plan)
    × AreDecided stage_hash policy "p" index 2 tasks plan.decisions
    × (plan.estimated_runtime_ms ≤ work stage_hash policy "p" index tasks plan.decisions)
    × (work stage_hash policy "p" index tasks plan.decisions ≤ 2 * plan.estimated_runtime_ms)
    × (2 * plan.estimated_runtime_ms + 40
        ≤ work stage_hash policy "p" index tasks plan.decisions + 2 * 40)
build_parallel_dispatch_plan-bounds_example =
    build_parallel_dispatch_plan-bounds stage_hash policy "p" index (λ n. "n") "plan" tasks 40
      (omega arith) tasks-le
