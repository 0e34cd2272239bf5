-- ===== src/Temporal/Deadline.antt =====
-- `next_deadline`, and the deadlines that `prepare` gives.
use lilavel_runtime.Prelude.{
  ℕ, ◌≤◌, ◌<◌, ◌+◌, ◌≡◌, refl, ap, inl, inr, Bool, true, false, Option, some, List, [], ◌∷◌, select,
  arith, min, max, leb, if◌then◌else◌, if-cases, String_Eq, Bool-cases,
}
use lilavel_runtime.Prelude.Dict
use lilavel_runtime.Prelude.Dict.{Dict}
use lilavel_runtime.Temporal.Types.{
  WakeIntent, Result, ok, key_error, value_error, overflow_error, ◌>>=◌, TemporalCoordinator,
  is_pending,
}
use lilavel_runtime.Temporal.Coordinator.{normalize_deadline, instant_after, datetime_max}
use lilavel_runtime.Temporal.Dispatch.{
  comes_before, insert_sorted, sorted, is_due, dispatch, poll_due, next_deadline,
}
use lilavel_runtime.Temporal.Invariant.{WellFormed}
use lilavel_runtime.Temporal.Fire.{none_due}
use lilavel_runtime.Temporal.Due.{Every}
use lilavel_runtime.Temporal.Order.{NoEarlier, InOrder, NoEarlier-trans, sorted-InOrder, is_due_lem}

-- A deadline between the bounds, clamped; or none, where the horizon passes the last instant.
abbrev pub Clamped : TemporalCoordinator → ℕ → ℕ → Result ℕ → Type 0
Clamped c requested now (ok d) =
    (now + c.minimum_delay ≤ d)
    × (d ≤ now + c.maximum_horizon)
    × (d ≡ max (now + c.minimum_delay) (min requested (now + c.maximum_horizon)))
Clamped c requested now key_error = ⊥
Clamped c requested now value_error = ⊥
Clamped c requested now overflow_error = datetime_max < now + c.maximum_horizon

-- In a well-formed coordinator the normalized deadline is at least the minimum delay and at most
-- the horizon away, and is the requested one clamped to these bounds; it raises OverflowError,
-- and nothing else, only where the horizon from this instant passes the last instant of a
-- `datetime`.
pub normalize_deadline_within :
    (c : TemporalCoordinator) (requested now : ℕ)
    → WellFormed c
    → Clamped c requested now (normalize_deadline c requested now)
unfolding normalize_deadline instant_after
normalize_deadline_within c requested now w =
    let then_latest = λ (earliest : ℕ).
      if leb requested earliest
      then ok earliest
      else (instant_after now c.maximum_horizon >>= λ latest. ok (min requested latest)) in
    if-cases (λ (r : Result ℕ). Clamped c requested now (r >>= then_latest))
      (leb (now + c.minimum_delay) datetime_max) _ _
      (λ fits.
        if-cases (Clamped c requested now) (leb requested (now + c.minimum_delay)) _ _
          (λ soon.
            (ground (arith, w.window), ground (arith, w.window), ground (arith, w.window, soon)))
          (λ distant.
            if-cases
              (λ (r : Result ℕ).
                Clamped c requested now (r >>= λ latest. ok (min requested latest)))
              (leb (now + c.maximum_horizon) datetime_max) _ _
              (λ _. (
                ground (arith, w.window, distant),
                ground (arith, w.window),
                ground (arith, w.window, distant),
              ))
              (λ past. ground (arith, past))))
      (λ past. ground (arith, past, w.window))

-- What holds of every wake of a sorted list holds of every wake of the list.
Every-insert_sorted_back :
    (P : WakeIntent → Type 0) (i : WakeIntent) (is : List WakeIntent)
    → Every P (insert_sorted i is)
    → P i × Every P is
unfolding insert_sorted
Every-insert_sorted_back P i [] h = h
Every-insert_sorted_back P i (j ∷ js) h =
    if-cases (λ is. Every P is → P i × Every P (j ∷ js)) (comes_before j i) (j ∷ insert_sorted i js)
      (i ∷ j ∷ js)
      (λ _ k. let back = Every-insert_sorted_back P i js k.1 in (back.0, (k.0, back.1))) (λ _ k. k)
      h

Every-sorted_back :
    (P : WakeIntent → Type 0) (is : List WakeIntent) → Every P (sorted is) → Every P is
unfolding sorted
Every-sorted_back P [] h = tt
Every-sorted_back P (i ∷ is) h =
    let back = Every-insert_sorted_back P i (sorted is) h in (back.0, Every-sorted_back P is back.1)

due_is_pending : (now : ℕ) (i : WakeIntent) → is_due now i ≡ true → is_pending i ≡ true
due_is_pending now i h = rw ((is_due_lem now i h).0) refl

Every-select_back :
    (P : WakeIntent → Type 0) (p : WakeIntent → Bool) (is : List WakeIntent)
    → Every P (select p is)
    → Every (λ i. p i ≡ true → P i) is
Every-select_back P p [] h = tt
Every-select_back P p (i ∷ is) h =
    if-cases (λ js. Every P js → (p i ≡ true → P i) × Every (λ j. p j ≡ true → P j) is) (p i)
      (i ∷ select p is) (select p is) (λ _ k. (λ _. k.0, Every-select_back P p is k.1))
      (λ no_match k. (λ m. cc (m, no_match), Every-select_back P p is k)) h

none_before :
    (t now : ℕ) (is : List WakeIntent)
    → now < t
    → Every (λ i. is_pending i ≡ true → t ≤ i.not_before) is
    → Every (λ i. is_due now i ≡ false) is
none_before t now [] l h = tt
none_before t now (i ∷ is) l h = (
  elim (Bool-cases (is_due now i)) [
    | inl due ↦ ground (arith, h.0 (due_is_pending now i due), (is_due_lem now i due).1)
    | inr early ↦ early
  ],
  none_before t now is l h.1,
)

-- Every wake of a list in order is no earlier than the first.
first_is_least :
    (t : ℕ) (is : List WakeIntent)
    → elim is [ [] ↦ Option.none | i ∷ _ ↦ some i.not_before ] ≡ some t
    → InOrder is
    → NoEarlier t is
first_is_least t [] e o = cc
first_is_least t (i ∷ is) e o =
    let same : i.not_before ≡ t = cc in
    (omega (arith, same), NoEarlier-trans t i.not_before is (omega (arith, same)) o.0)

-- Before the instant that `next_deadline` gives, `poll_due` gives no trigger and changes nothing.
pub next_deadline_lem :
    (c : TemporalCoordinator) (t now : ℕ)
    → next_deadline c ≡ some t
    → now < t
    → poll_due now c ≡ (ok [], c)
unfolding next_deadline poll_due dispatch sorted
next_deadline_lem c t now e early =
    let least =
      first_is_least t (sorted (select is_pending (Dict.values c.intents))) e
        (sorted-InOrder (select is_pending (Dict.values c.intents))) in
    let pending = Every-select_back _ _ _ (Every-sorted_back _ _ least) in
    let none_is_due = none_due now (Dict.values c.intents) (none_before t now _ early pending) in
    ap (λ is. dispatch (sorted is) c) none_is_due
