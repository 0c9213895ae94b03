-- ===== src/Replay/Witness.antt =====
-- When the traces witness an expectation.
use mathlib.Core.Bool.{true≢false}
use attestation_layer.Prelude.{
  String, ◌≡◌, ◌↔◌, ◌∙◌, refl, sym, ap, subst, Bool, true, false, not, ◌&&◌, Option, none, some,
  List, [], ◌∷◌, Memᴰ, arith, map, filter, mem_iff, is_empty, is_some, Option-cases, inl, inr,
  filter-eq-nil, is_empty-eq-nil, mem-filter, of_mem-filter, mem-map-intro, mem-map-source,
}
use attestation_layer.Models.Json.{Value}
use attestation_layer.Replay.{
  TraceEvent, ExpectationKind, SpecTraceExpectation, Outcome, matches_target, observation,
  matched_of, is_read, is_reverted, is_among, read_value, revert_reason, replay_emitted,
  replay_read, replay_reverts, replay_never, replay_kind, replay_expectation,
}

-- An event of the expectation's target.
abbrev pub IsMatch : SpecTraceExpectation → List TraceEvent → TraceEvent → Type 0
IsMatch e events ev = Memᴰ ev events × (matches_target ev.action e.target ≡ true)

module _ (str_of : Value → String) where
  -- An event is emitted; a read returned the claimed value; the action reverted, and where a reason
  -- is claimed, with that reason; the forbidden action is absent.
  abbrev pub WitnessedAs : ExpectationKind → SpecTraceExpectation → List TraceEvent → Type 0
  WitnessedAs ExpectationKind.event_emitted e events = (ev : TraceEvent) × IsMatch e events ev
  WitnessedAs ExpectationKind.state_value_reached e events =
      (ev : TraceEvent) × (v : String) × IsMatch e events ev
      × (is_read ev ≡ true)
      × (e.value ≡ some v)
      × (read_value str_of ev ≡ v)
  WitnessedAs ExpectationKind.action_reverts e events =
      ((ev : TraceEvent) × IsMatch e events ev × (is_reverted ev ≡ true))
      × ((v : String)
          → e.value ≡ some v
          → (ev : TraceEvent) × IsMatch e events ev
            × (is_reverted ev ≡ true)
            × (revert_reason str_of ev ≡ v))
  WitnessedAs ExpectationKind.action_never e events =
      (ev : TraceEvent) → Memᴰ ev events → matches_target ev.action e.target ≡ false

  abbrev pub IsWitnessed : SpecTraceExpectation → List TraceEvent → Type 0
  IsWitnessed e events = WitnessedAs e.kind e events

pub first : {A : Type 0} (xs : List A) → is_empty xs ≡ false → (x : A) × Memᴰ x xs
first [] h = absurd (true≢false h)
first (x ∷ xs) h = (x, Memᴰ.head refl)

pub nonempty : {A : Type 0} {x : A} (xs : List A) → Memᴰ x xs → is_empty xs ≡ false
nonempty [] m = elim m [ ]
nonempty (y ∷ ys) m = refl

among_iff :
    {A : Type 0} (value : Option String) (f : A → String) (xs : List A)
    → (is_among value (map f xs) ≡ true)
      ↔ ((x : A) × (v : String) × Memᴰ x xs × (value ≡ some v) × (f x ≡ v))
among_iff none f xs = (λ h. absurd (true≢false (sym h)), λ (x, v, m, e, g). cc e)
among_iff (some w) f xs = (
  λ h. let (x, m, e) = mem-map-source f xs ((mem_iff w (map f xs)).0 h) in (x, w, m, refl, sym e),
  λ (x, v, m, e, g).
      (mem_iff w (map f xs)).1
        (subst (λ t. Memᴰ t (map f xs)) (ground (arith, e, g)) (mem-map-intro f xs m)),
)

module _ (str_of : Value → String) (e : SpecTraceExpectation) where
  emitted_iff :
      (m : List TraceEvent)
      → ((replay_emitted str_of e m).outcome ≡ Outcome.satisfied) ↔ (is_empty m ≡ false)
  unfolding replay_emitted observation
  emitted_iff m = ground arith

  never_iff :
      (m : List TraceEvent)
      → ((replay_never str_of e m).outcome ≡ Outcome.satisfied) ↔ (is_empty m ≡ true)
  unfolding replay_never observation
  never_iff m = ground arith

  read_iff :
      (m : List TraceEvent)
      → ((replay_read str_of e m).outcome ≡ Outcome.satisfied) ↔ (
          (is_empty (filter is_read m) ≡ false)
          × (is_among e.value (map (read_value str_of) (filter is_read m)) ≡ true))
  unfolding replay_read observation
  read_iff m = ground arith

  reverts_iff :
      (m : List TraceEvent)
      → ((replay_reverts str_of e m).outcome ≡ Outcome.satisfied) ↔ (
          (is_empty m ≡ false)
          × (is_empty (filter is_reverted m) ≡ false)
          × ((is_some e.value
                && not (is_among e.value (map (revert_reason str_of) (filter is_reverted m))))
              ≡ false))
  unfolding replay_reverts observation
  reverts_iff m = ground arith

-- The matched events, and those of them that pass a test.
mem-matched :
    (e : SpecTraceExpectation) (events : List TraceEvent) (ev : TraceEvent)
    → Memᴰ ev (matched_of e events) ↔ IsMatch e events ev
mem-matched e events ev = (
  λ m. of_mem-filter (λ x. matches_target (TraceEvent.action x) e.target) events m,
  λ (m, h). mem-filter (λ x. matches_target (TraceEvent.action x) e.target) events m h,
)

mem-matched_filter :
    (p : TraceEvent → Bool) (e : SpecTraceExpectation) (events : List TraceEvent) (ev : TraceEvent)
    → Memᴰ ev (filter p (matched_of e events)) ↔ (IsMatch e events ev × (p ev ≡ true))
mem-matched_filter p e events ev = (
  λ m. let (i, h) = of_mem-filter p (matched_of e events) m in ((mem-matched e events ev).0 i, h),
  λ (i, h). mem-filter p (matched_of e events) ((mem-matched e events ev).1 i) h,
)

module _ (str_of : Value → String) (e : SpecTraceExpectation) (events : List TraceEvent) where
  emitted-WitnessedAs :
      ((replay_emitted str_of e (matched_of e events)).outcome ≡ Outcome.satisfied)
      ↔ WitnessedAs str_of ExpectationKind.event_emitted e events
  emitted-WitnessedAs = (
    λ h.
        let (ev, m) = first (matched_of e events) ((emitted_iff str_of e _).0 h) in
        (ev, (mem-matched e events ev).0 m),
    λ (ev, m). (emitted_iff str_of e _).1 (nonempty _ ((mem-matched e events ev).1 m)),
  )

  never-WitnessedAs :
      ((replay_never str_of e (matched_of e events)).outcome ≡ Outcome.satisfied)
      ↔ WitnessedAs str_of ExpectationKind.action_never e events
  never-WitnessedAs =
      let nil = filter-eq-nil (λ x. matches_target (TraceEvent.action x) e.target) events in
      (
        λ h. nil.0 (is_empty-eq-nil _ ((never_iff str_of e _).0 h)),
        λ h. (never_iff str_of e _).1 (ap is_empty (nil.1 h)),
      )

  read-WitnessedAs :
      ((replay_read str_of e (matched_of e events)).outcome ≡ Outcome.satisfied)
      ↔ WitnessedAs str_of ExpectationKind.state_value_reached e events
  read-WitnessedAs =
      let reads = filter is_read (matched_of e events) in
      let among = among_iff e.value (read_value str_of) reads in
      (
        λ h.
            let (ev, v, m, q, f) = among.0 ((read_iff str_of e _).0 h).1 in
            let (i, r) = (mem-matched_filter is_read e events ev).0 m in (ev, v, i, r, q, f),
        λ (ev, v, i, r, q, f).
            let m : Memᴰ ev reads = (mem-matched_filter is_read e events ev).1 (i, r) in
            (read_iff str_of e _).1 (nonempty _ m, among.1 (ev, v, m, q, f)),
      )

  reverts-WitnessedAs :
      ((replay_reverts str_of e (matched_of e events)).outcome ≡ Outcome.satisfied)
      ↔ WitnessedAs str_of ExpectationKind.action_reverts e events
  reverts-WitnessedAs =
      let matched = matched_of e events in
      let reverts = filter is_reverted matched in
      let among = among_iff e.value (revert_reason str_of) reverts in
      let here = mem-matched_filter is_reverted e events in
      (
        λ h.
            let (a, b, c) = (reverts_iff str_of e _).0 h in
            let (ev, m) = first reverts b in
            let (j, s) = (here ev).0 m in
            (
              (ev, j, s),
              λ v q.
                  let (x, w, i, r, f) = among.0 (ground (arith, c, q)) in
                  let (j, k) = (here x).0 i in (x, j, k, f ∙ ground (arith, q, r)),
            ),
        λ ((ev, i, r), reason).
            let m : Memᴰ ev reverts = (here ev).1 (i, r) in
            (reverts_iff str_of e _).1 (
              nonempty _ ((mem-matched e events ev).1 i),
              nonempty _ m,
              elim (Option-cases e.value) [
                | inl q ↦ rw q refl
                | inr (v, q) ↦
                    let (x, j, k, f) = reason v q in
                    let t = among.1 (x, v, (here x).1 (j, k), q, f) in ground (arith, t)
              ],
            ),
      )

by_kind :
    (str_of : Value → String) (k : ExpectationKind) (e : SpecTraceExpectation)
    (events : List TraceEvent)
    → ((replay_kind str_of k e (matched_of e events)).outcome ≡ Outcome.satisfied)
      ↔ WitnessedAs str_of k e events
unfolding replay_kind
by_kind str_of ExpectationKind.event_emitted e events = emitted-WitnessedAs str_of e events
by_kind str_of ExpectationKind.state_value_reached e events = read-WitnessedAs str_of e events
by_kind str_of ExpectationKind.action_reverts e events = reverts-WitnessedAs str_of e events
by_kind str_of ExpectationKind.action_never e events = never-WitnessedAs str_of e events

-- An expectation is satisfied exactly when the events witness it, each kind in its own way; the
-- events of a trace are matched by the target, and absence witnesses a forbidden action alone.
pub replay_expectation-IsWitnessed :
    (str_of : Value → String) (e : SpecTraceExpectation) (events : List TraceEvent)
    → ((replay_expectation str_of e events).outcome ≡ Outcome.satisfied)
      ↔ IsWitnessed str_of e events
unfolding replay_expectation
replay_expectation-IsWitnessed str_of e events = by_kind str_of e.kind e events
