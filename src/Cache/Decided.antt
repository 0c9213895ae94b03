-- ===== src/Cache/Decided.antt =====
-- What the plan of verification_cache.py decides on each task.
use attestation_layer.Prelude.{
  ℕ, ◌+◌, ◌≤◌, ◌≡◌, ◌≢◌, ◌⊎◌, refl, ◌↔◌, true, Option, String, none, some, List, [], ◌∷◌, mem,
  Bool-cases, Option-cases, inl, inr,
}
use attestation_layer.Cache.{
  VerificationCacheKey, VerificationCacheIndex, VerificationCachePolicyV2, ParallelDispatchTask,
  hit, ParallelDispatchDecision, cached_artifact, VerificationCacheRecord, lookup_cache, key_of,
}

module _ (cache_key_hash : VerificationCacheKey → String) (policy : VerificationCachePolicyV2)
    (policy_hash : String) (index : VerificationCacheIndex) where
  -- The index has an artifact for the key of the task, whose stage may be served from it.
  abbrev pub Serves : ParallelDispatchTask → String → Type 0
  Serves t artifact_hash =
      (mem t.stage policy.cacheable_stages ≡ true)
      × ((r : VerificationCacheRecord) × ((lookup_cache cache_key_hash index
              (key_of cache_key_hash policy_hash t)).cached
            ≡ some r)
          × (r.artifact_hash ≡ artifact_hash))

  -- A task that is served has its artifact and no slot; another runs in one of the slots 1 to `count`.
  abbrev pub IsPlaced : ℕ → ParallelDispatchTask → ParallelDispatchDecision → Type 0
  IsPlaced count t d =
      ((artifact_hash : String) × Serves t artifact_hash
        × (d.cache_status ≡ hit)
        × (d.artifact_hash ≡ some artifact_hash)
        × (d.run_slot ≡ none))
      ⊎ (((artifact_hash : String) → ¬ Serves t artifact_hash)
          × (d.cache_status ≢ hit)
          × (d.artifact_hash ≡ none)
          × ((slot : ℕ) × (d.run_slot ≡ some slot) × (1 ≤ slot) × (slot ≤ count)))

  -- The decisions are on the tasks, one on each and in their order.
  abbrev pub AreDecided : ℕ → List ParallelDispatchTask → List ParallelDispatchDecision → Type 0
  AreDecided count [] [] = Unit
  AreDecided count [] (d ∷ ds) = ⊥
  AreDecided count (t ∷ ts) [] = ⊥
  AreDecided count (t ∷ ts) (d ∷ ds) =
      (d.task_id ≡ t.task_id) × (d.stage ≡ t.stage) × IsPlaced count t d × AreDecided count ts ds

  -- The runtime of a task by its decision: nothing where it has no slot.
  abbrev runtime_of : ParallelDispatchTask → Option ℕ → ℕ
  runtime_of t none = 0
  runtime_of t (some slot) = t.estimated_runtime_ms

  -- The runtime of the tasks that run, by the decisions on them.
  abbrev pub work : List ParallelDispatchTask → List ParallelDispatchDecision → ℕ
  work [] ds = 0
  work (t ∷ ts) [] = 0
  work (t ∷ ts) (d ∷ ds) = runtime_of t d.run_slot + work ts ds

  pub cached_artifact-Serves :
      (t : ParallelDispatchTask) (a : String)
      → (cached_artifact cache_key_hash policy policy_hash index t ≡ some a) ↔ Serves t a
  unfolding cached_artifact
  cached_artifact-Serves t a = elim (Bool-cases (mem t.stage policy.cacheable_stages)) [
    | inr e ↦ rw e (λ h. cc, λ h. cc)
    | inl e ↦
        elim (Option-cases
          (lookup_cache cache_key_hash index (key_of cache_key_hash policy_hash t)).cached) [
            | inl n ↦ rw (e, n) (λ h. cc, λ h. cc)
            | inr (r, f) ↦ rw (e, f) (λ h. (refl, (r, refl, cc h)), λ h. cc (h.1.1, h.1.2))
          ]
  ]
