-- ===== src/Impact/Closure.antt =====
-- The loop ends within its fuel, and what it returns is the set of reachable modules.
use mathlib.Core.List.Memᴰ
use mathlib.Core.Logic.{⊎_elim}
use attestation_layer.Prelude.{
  ℕ, zero, suc, ◌+◌, ◌≤◌, ◌<◌, String, ◌≡◌, ◌↔◌, true, false, not, ◌&&◌, some, List, [], ◌∷◌, Memᴰ,
  arith, refl, subst, ◌∙◌, mem, mem_iff, length, sorted, mem-sorted, Bool-cases, inl, inr,
  if◌then◌else◌, eq_refl,
}
use attestation_layer.Impact.{
  Edge, SourceModule, caller_module, callee_module, direct_modules, pass, saturate, ImpactArtifact,
  analyze_source_impact,
}

-- The modules that a chain of calls reaches from a start.
pub data Reaches (edges : List Edge) (start : List String) : String → Type 0 where
  begin : {m : String} → Memᴰ m start → Reaches edges start m
  call :
      {e : Edge}
      → Memᴰ e edges
      → Reaches edges start (caller_module e)
      → Reaches edges start (callee_module e)

-- The edges whose callee is not in the set yet.
missing : List Edge → List String → ℕ
missing [] a = 0
missing (e ∷ es) a = (if mem (callee_module e) a then 0 else 1) + missing es a

missing-le-length : (es : List Edge) (a : List String) → missing es a ≤ length es
unfolding missing
missing-le-length [] a = omega arith
missing-le-length (e ∷ es) a = ground (arith, missing-le-length es a)

missing-cons : (x : String) (es : List Edge) (a : List String) → missing es (x ∷ a) ≤ missing es a
unfolding missing
missing-cons x [] a = omega arith
missing-cons x (e ∷ es) a = ground (arith, missing-cons x es a)

missing-lt :
    (es : List Edge) (e : Edge) (a : List String)
    → Memᴰ e es
    → mem (callee_module e) a ≡ false
    → missing es (callee_module e ∷ a) < missing es a
unfolding missing
missing-lt [] e a m h = elim m [ ]
missing-lt (f ∷ fs) e a m h =
    ⊎_elim
      (λ (q : e ≡ f).
        rw q (
          ground
            (arith, rw q at h, missing-cons (callee_module f) fs a, eq_refl (callee_module f))))
      (λ (r : Memᴰ e fs). ground (arith, missing-lt fs e a r h)) (Memᴰ.cases_cons m)

-- A run that reports a change leaves fewer missing edges.
pass-missing :
    (all es : List Edge) (a : List String)
    → ((e : Edge) → Memᴰ e es → Memᴰ e all)
    → (missing all (pass es a).0 ≤ missing all a)
      × ((pass es a).1 ≡ true → missing all (pass es a).0 < missing all a)
unfolding pass
pass-missing all [] a sub = (omega arith, λ h. cc)
pass-missing all (e ∷ es) a sub =
    elim (Bool-cases (mem (caller_module e) a && not (mem (callee_module e) a))) [
      | inl h ↦
          let p = pass-missing all es (callee_module e ∷ a) (λ f m. sub f (Memᴰ.tail m)) in
          let q = missing-lt all e a (sub e (Memᴰ.head refl)) (ground (arith, h)) in
          rw h (ground (arith, p.0, q))
      | inr h ↦ let p = pass-missing all es a (λ f m. sub f (Memᴰ.tail m)) in rw h p
    ]

-- A run keeps what the set holds.
pass-keeps : (es : List Edge) (a : List String) (x : String) → Memᴰ x a → Memᴰ x (pass es a).0
unfolding pass
pass-keeps [] a x m = m
pass-keeps (e ∷ es) a x m =
    elim (Bool-cases (mem (caller_module e) a && not (mem (callee_module e) a))) [
      | inl h ↦ rw h (pass-keeps es (callee_module e ∷ a) x (Memᴰ.tail m))
      | inr h ↦ rw h (pass-keeps es a x m)
    ]

-- A run adds reachable modules only.
pass-Reaches :
    (all es : List Edge) (start a : List String)
    → ((e : Edge) → Memᴰ e es → Memᴰ e all)
    → ((x : String) → Memᴰ x a → Reaches all start x)
    → (x : String) → Memᴰ x (pass es a).0
    → Reaches all start x
unfolding pass
pass-Reaches all [] start a sub good x = good x
pass-Reaches all (e ∷ es) start a sub good x =
    elim (Bool-cases (mem (caller_module e) a && not (mem (callee_module e) a))) [
      | inl h ↦ rw h (
          pass-Reaches all es start (callee_module e ∷ a) (λ f m. sub f (Memᴰ.tail m))
            (λ y m.
              ⊎_elim
                (λ (q : y ≡ callee_module e). rw q (
                  call (sub e (Memᴰ.head refl))
                    (good (caller_module e) ((mem_iff _ _).0 (ground (arith, h))))))
                (λ (r : Memᴰ y a). good y r) (Memᴰ.cases_cons m))
            x)
      | inr h ↦ rw h (pass-Reaches all es start a (λ f m. sub f (Memᴰ.tail m)) good x)
    ]

-- A run that reports no change has left the set as it was, and that set is closed under the calls.
pass-same : (es : List Edge) (a : List String) → (pass es a).1 ≡ false → (pass es a).0 ≡ a
unfolding pass
pass-same [] a h = refl
pass-same (f ∷ fs) a h =
    elim (Bool-cases (mem (caller_module f) a && not (mem (callee_module f) a))) [
      | inl t ↦ ground (arith, rw t at h)
      | inr t ↦ rw t (pass-same fs a (rw t at h))
    ]

pass-closed :
    (es : List Edge) (a : List String) (e : Edge)
    → (pass es a).1 ≡ false
    → Memᴰ e es
    → Memᴰ (caller_module e) a
    → Memᴰ (callee_module e) a
unfolding pass
pass-closed [] a e h m k = elim m [ ]
pass-closed (f ∷ fs) a e h m k =
    elim (Bool-cases (mem (caller_module f) a && not (mem (callee_module f) a))) [
      | inl t ↦ ground (arith, rw t at h)
      | inr t ↦
          ⊎_elim
            (λ (q : e ≡ f).
              let c : mem (caller_module f) a ≡ true =
                (mem_iff _ _).1 (subst (λ g. Memᴰ (caller_module g) a) q k) in
              rw q ((mem_iff _ _).0 (ground (arith, t, c))))
            (λ (r : Memᴰ e fs). pass-closed fs a e (rw t at h) r k) (Memᴰ.cases_cons m)
    ]

saturate-again :
    (n : ℕ) (all : List Edge) (a : List String)
    → (pass all a).1 ≡ true
    → saturate (suc n) all a ≡ saturate n all (pass all a).0
unfolding saturate
saturate-again n all a h = rw (saturate, h) refl

saturate-done :
    (n : ℕ) (all : List Edge) (a : List String)
    → (pass all a).1 ≡ false
    → saturate (suc n) all a ≡ some (pass all a).0
unfolding saturate
saturate-done n all a h = rw (saturate, h) refl

-- With more fuel than missing edges the loop ends, in a set that holds the start, holds reachable
-- modules only and is closed under the calls.
saturate-ends :
    (n : ℕ) (all : List Edge) (start a : List String)
    → missing all a < n
    → ((x : String) → Memᴰ x a → Reaches all start x)
    → (b : List String) × (saturate n all a ≡ some b)
      × ((x : String) → Memᴰ x a → Memᴰ x b)
      × ((x : String) → Memᴰ x b → Reaches all start x)
      × ((e : Edge) → Memᴰ e all → Memᴰ (caller_module e) b → Memᴰ (callee_module e) b)
unfolding saturate
saturate-ends zero all start a lt good = let none_left : ⊥ = omega (arith, lt) in elim none_left [ ]
saturate-ends (suc n) all start a lt good =
    let keeps = pass-keeps all a in
    let sound = pass-Reaches all all start a (λ e m. m) good in
    let down = pass-missing all all a (λ e m. m) in
    elim (Bool-cases ((pass all a).1)) [
      | inl h ↦
          let fuel : missing all (pass all a).0 < n = omega (arith, lt, down.1 h) in
          let r = saturate-ends n all start (pass all a).0 fuel sound in
          (r.0, saturate-again n all a h ∙ r.1, (λ x m. r.2 x (keeps x m)), r.3, r.4)
      | inr h ↦ (
        (pass all a).0,
        saturate-done n all a h,
        keeps,
        sound,
        λ e m. rw (pass-same all a h) (pass-closed all a e h m),
      )
    ]

-- A set that holds the start and is closed under the calls holds what is reachable.
reached :
    (edges : List Edge) (start b : List String)
    → ((x : String) → Memᴰ x start → Memᴰ x b)
    → ((e : Edge) → Memᴰ e edges → Memᴰ (caller_module e) b → Memᴰ (callee_module e) b)
    → (m : String) → Reaches edges start m
    → Memᴰ m b
reached edges start b base step m (begin h) = base m h
reached edges start b base step m (call {e} h r) =
    step e h (reached edges start b base step (caller_module e) r)

-- `analyze_source_impact` ends on every call graph, cycles included, and a module is in
-- `affected_modules` exactly when a chain of calls reaches it from a module that declares an input
-- symbol; the artifact keeps the call graph's edges.
pub analyze_source_impact-iff-Reaches :
    (adapter language : String) (modules : List SourceModule) (edges : List Edge)
    (symbols : List String)
    → (art : ImpactArtifact) × (analyze_source_impact adapter language modules edges symbols
        ≡ some art)
      × (art.call_graph_edges ≡ edges)
      × ((m : String)
          → Memᴰ m art.affected_modules ↔ Reaches edges (direct_modules modules symbols) m)
unfolding analyze_source_impact
analyze_source_impact-iff-Reaches adapter language modules edges symbols =
    let start = direct_modules modules symbols in
    let room : missing edges start < suc (length edges) =
      (let l = missing-le-length edges start in omega arith) in
    let r = saturate-ends (suc (length edges)) edges start start room (λ x m. begin m) in
    (
      record {
        adapter_id = adapter;
        language = language;
        input_symbols = sorted symbols;
        affected_modules = sorted r.0;
        call_graph_edges = edges;
      },
      rw (analyze_source_impact, r.1) refl,
      refl,
      λ m. (
        (λ h. r.3 m ((mem-sorted m r.0).0 h)),
        (λ h. (mem-sorted m r.0).1 (reached edges start r.0 r.2 r.4 m h)),
      ),
    )
