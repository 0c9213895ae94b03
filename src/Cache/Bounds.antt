-- ===== src/Cache/Bounds.antt =====
-- The plan puts each task that runs into a slot that exists, and its runtime is near the best.
use attestation_layer.Prelude.{
  ℕ, zero, suc, ◌+◌, ◌*◌, ◌≤◌, ◌≡◌, ◌≢◌, ◌∙◌, refl, ap, subst, String, none, some, List, [], ◌∷◌,
  Memᴰ, arith, length, mem, Bool-cases, Option-cases, inl, inr,
}
use attestation_layer.Cache.{
  VerificationCacheKey, VerificationCacheIndex, VerificationCachePolicyV2, ParallelDispatchTask,
  hit, ParallelDispatchDecision, ParallelDispatchPlan, cached_artifact, zeros,
}
use attestation_layer.Cache.Decided.{Serves, AreDecided, work, cached_artifact-Serves}
use attestation_layer.Cache.Balance.{
  sum, IsSpread, assign_dispatch_slot-IsAssigned, sum-le, sum-ge_top, le-sum, maximum_from-mem,
  maximum_from-ge,
}
use attestation_layer.Cache.Plan.{
  dispatch, max_or_zero, hit_decision, run_decision, assemble, build_parallel_dispatch_plan,
}

length-zeros : (n : ℕ) → length (zeros n) ≡ n
length-zeros zero = refl
length-zeros (suc n) = ap suc (length-zeros n)

sum-zeros : (n : ℕ) → sum (zeros n) ≡ 0
sum-zeros zero = refl
sum-zeros (suc n) = omega (arith, sum-zeros n)

mem-zeros : (n y : ℕ) → Memᴰ y (zeros n) → y ≡ 0
mem-zeros zero y i = elim i [ ]
mem-zeros (suc n) y (Memᴰ.head e) = e
mem-zeros (suc n) y (Memᴰ.tail i) = mem-zeros n y i

max_or_zero-mem : (xs : List ℕ) → 1 ≤ length xs → Memᴰ (max_or_zero xs) xs
max_or_zero-mem [] p = absurd (omega (arith, p))
max_or_zero-mem (x ∷ xs) p = maximum_from-mem x xs

max_or_zero-ge : (xs : List ℕ) (y : ℕ) → Memᴰ y xs → y ≤ max_or_zero xs
max_or_zero-ge [] y i = elim i [ ]
max_or_zero-ge (x ∷ xs) y i = maximum_from-ge x xs y i

module _ (cache_key_hash : VerificationCacheKey → String) (policy : VerificationCachePolicyV2)
    (policy_hash : String) (index : VerificationCacheIndex) where
  -- A run of the loop from given slots.
  record IsDispatched (longest : ℕ) (slots : List ℕ) (ts : List ParallelDispatchTask) : Type 0 where
    decisions : List ParallelDispatchDecision
    after : List ℕ
    returns : dispatch cache_key_hash policy policy_hash index slots ts ≡ some (decisions, after)
    decided : AreDecided cache_key_hash policy policy_hash index (length slots) ts decisions
    same_length : length after ≡ length slots
    added : sum after ≡ sum slots + work cache_key_hash policy policy_hash index ts decisions
    spread : IsSpread longest after

  ran-ne-hit :
      (t : ParallelDispatchTask) (n : ℕ)
      → (run_decision cache_key_hash policy policy_hash index t n).cache_status ≢ hit
  ran-ne-hit t n = elim (Bool-cases (mem t.stage policy.cacheable_stages)) [
    | inl e ↦ rw e (λ q. cc q)
    | inr e ↦ rw e (λ q. cc q)
  ]

  unserved :
      (t : ParallelDispatchTask)
      → cached_artifact cache_key_hash policy policy_hash index t ≡ none
      → (a : String) → ¬ Serves cache_key_hash policy policy_hash index t a
  unserved t e a h =
      cc (e, (cached_artifact-Serves cache_key_hash policy policy_hash index t a).1 h)

  dispatch-IsDispatched :
      (longest : ℕ) (slots : List ℕ) (ts : List ParallelDispatchTask)
      → 1 ≤ length slots
      → ((t : ParallelDispatchTask) → Memᴰ t ts → t.estimated_runtime_ms ≤ longest)
      → IsSpread longest slots
      → IsDispatched longest slots ts
  unfolding dispatch
  dispatch-IsDispatched longest slots [] p h s = record {
    decisions = [];
    after = slots;
    returns = refl;
    decided = tt;
    same_length = refl;
    added = omega arith;
    spread = s;
  }
  dispatch-IsDispatched longest slots (t ∷ ts) p h s =
      elim (Option-cases (cached_artifact cache_key_hash policy policy_hash index t)) [
        | inr (a, e) ↦
            (let rest = dispatch-IsDispatched longest slots ts p (λ u i. h u (Memᴰ.tail i)) s in
              record {
                decisions =
                    hit_decision cache_key_hash policy policy_hash index t a ∷ rest.decisions;
                after = rest.after;
                returns = rw (dispatch, e, rest.returns) refl;
                decided = (
                  refl,
                  refl,
                  inl (
                    a,
                    (cached_artifact-Serves cache_key_hash policy policy_hash index t a).0 e,
                    refl,
                    refl,
                    refl,
                  ),
                  rest.decided,
                );
                same_length = rest.same_length;
                added = omega (arith, rest.added);
                spread = rest.spread;
              })
        | inl e ↦
            (let one =
                assign_dispatch_slot-IsAssigned longest t.estimated_runtime_ms slots p
                  (h t (Memᴰ.head refl)) s in
              let rest =
                dispatch-IsDispatched longest one.after ts (omega (arith, p, one.same_length))
                  (λ u i. h u (Memᴰ.tail i)) one.spread in
              record {
                decisions =
                    run_decision cache_key_hash policy policy_hash index t one.slot
                    ∷ rest.decisions;
                after = rest.after;
                returns = rw (dispatch, e, one.returns, rest.returns) refl;
                decided = (
                  refl,
                  refl,
                  inr (
                    unserved t e,
                    ran-ne-hit t one.slot,
                    refl,
                    (one.slot, refl, one.low, one.high),
                  ),
                  subst
                      (λ n. AreDecided cache_key_hash policy policy_hash index n ts rest.decisions)
                      one.same_length rest.decided,
                );
                same_length = rest.same_length ∙ one.same_length;
                added = omega (arith, rest.added, one.added);
                spread = rest.spread;
              })
      ]

  -- With at least one slot the plan is built, with one decision on each task, in their order. A task
  -- whose stage is cacheable and whose key the index has is served its artifact without a slot, every
  -- other has one of the slots 1 to the maximal parallelism p. The estimated runtime E is at most the
  -- work W of the tasks with a slot, p times E is at least W, and if no task takes longer than L, then
  -- p times E is at most W and (p - 1) times L.
  pub build_parallel_dispatch_plan-bounds :
      (str : ℕ → String) (plan_id : String) (tasks : List ParallelDispatchTask) (longest : ℕ)
      → 1 ≤ policy.max_parallelism
      → ((t : ParallelDispatchTask) → Memᴰ t tasks → t.estimated_runtime_ms ≤ longest)
      → (plan : ParallelDispatchPlan) × (build_parallel_dispatch_plan cache_key_hash policy
            policy_hash index str plan_id tasks
          ≡ some plan)
        × AreDecided cache_key_hash policy policy_hash index policy.max_parallelism tasks
            plan.decisions
        × (plan.estimated_runtime_ms
            ≤ work cache_key_hash policy policy_hash index tasks plan.decisions)
        × (work cache_key_hash policy policy_hash index tasks plan.decisions
            ≤ policy.max_parallelism * plan.estimated_runtime_ms)
        × (policy.max_parallelism * plan.estimated_runtime_ms + longest
            ≤ work cache_key_hash policy policy_hash index tasks plan.decisions
              + policy.max_parallelism * longest)
  unfolding build_parallel_dispatch_plan
  build_parallel_dispatch_plan-bounds str plan_id tasks longest p h =
      let slots = zeros policy.max_parallelism in
      let start : IsSpread longest slots =
        λ x y i j. omega (arith, mem-zeros policy.max_parallelism x i) in
      let count = length-zeros policy.max_parallelism in
      let run = dispatch-IsDispatched longest slots tasks (omega (arith, p, count)) h start in
      let size : length run.after ≡ policy.max_parallelism = run.same_length ∙ count in
      let total : sum run.after ≡ work cache_key_hash policy policy_hash index tasks run.decisions =
        omega (arith, run.added, sum-zeros policy.max_parallelism) in
      let top = max_or_zero run.after in
      let there : Memᴰ top run.after = max_or_zero-mem run.after (omega (arith, size, p)) in
      let above = sum-le top run.after (λ y i. max_or_zero-ge run.after y i) in
      let below = sum-ge_top top longest run.after there (λ y i. run.spread top y there i) in
      (
        assemble cache_key_hash policy policy_hash index str plan_id tasks run.decisions run.after,
        rw (build_parallel_dispatch_plan, run.returns) refl,
        subst (λ n. AreDecided cache_key_hash policy policy_hash index n tasks run.decisions) count
            run.decided,
        subst (λ n. top ≤ n) total (le-sum top run.after there),
        subst (λ n. n ≤ policy.max_parallelism * top) total
            (subst (λ n. sum run.after ≤ n * top) size above),
        subst (λ n. policy.max_parallelism * top + longest ≤ n + policy.max_parallelism * longest)
            total (subst (λ n. n * top + longest ≤ sum run.after + n * longest) size below),
      )
