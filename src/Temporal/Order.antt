-- ===== src/Temporal/Order.antt =====
-- The order in which `poll_due` fences wakes.
use lilavel_runtime.Prelude.{
  ℕ, ◌≤◌, ◌≡◌, refl, inl, inr, true, false, List, [], ◌∷◌, select, arith, leb, String_Eq,
  Bool-cases,
}
use lilavel_runtime.Prelude.Dict
use lilavel_runtime.Prelude.Dict.{Dict}
use lilavel_runtime.Temporal.Types.{WakeIntent, WakeIntentStatus, TemporalCoordinator}
use lilavel_runtime.Temporal.Dispatch.{comes_before, insert_sorted, sorted, is_due, due_wakes}
use lilavel_runtime.Temporal.Due.{Every, Every-sorted, Every-insert_sorted}

before_is_no_later : (a b : WakeIntent) → comes_before a b ≡ true → a.not_before ≤ b.not_before
unfolding comes_before
before_is_no_later a b h = ground arith

not_before_is_no_earlier :
    (a b : WakeIntent) → comes_before a b ≡ false → b.not_before ≤ a.not_before
unfolding comes_before
not_before_is_no_earlier a b h = ground arith

-- No wake of the list is earlier than an instant.
abbrev pub NoEarlier : ℕ → List WakeIntent → Type 0
NoEarlier t is = Every (λ i. t ≤ i.not_before) is

-- Every wake is no later than those behind it.
abbrev pub InOrder : List WakeIntent → Type 0
InOrder [] = Unit
InOrder (i ∷ is) = NoEarlier i.not_before is × InOrder is

pub NoEarlier-trans : (s t : ℕ) (is : List WakeIntent) → s ≤ t → NoEarlier t is → NoEarlier s is
NoEarlier-trans s t [] l h = tt
NoEarlier-trans s t (i ∷ is) l h = (omega (arith, l, h.0), NoEarlier-trans s t is l h.1)

insert_sorted-InOrder :
    (i : WakeIntent) (is : List WakeIntent) → InOrder is → InOrder (insert_sorted i is)
unfolding insert_sorted
insert_sorted-InOrder i [] h = (tt, tt)
insert_sorted-InOrder i (j ∷ js) h = elim (Bool-cases (comes_before j i)) [
  | inl before ↦
      rw (before, insert_sorted)
        (
          Every-insert_sorted _ i js (before_is_no_later j i before) h.0,
          insert_sorted-InOrder i js h.1,
        )
  | inr behind ↦
      let first = not_before_is_no_earlier j i behind in
      rw (behind, insert_sorted) ((first, NoEarlier-trans _ _ js first h.0), h)
]

pub sorted-InOrder : (is : List WakeIntent) → InOrder (sorted is)
unfolding sorted
sorted-InOrder [] = tt
sorted-InOrder (i ∷ is) = insert_sorted-InOrder i (sorted is) (sorted-InOrder is)

-- The wakes that `poll_due` fences are due, and an earlier deadline comes first.
abbrev pub DueNow : ℕ → List WakeIntent → Type 0
DueNow now is = Every (λ i. (i.status ≡ WakeIntentStatus.pending) × (i.not_before ≤ now)) is

pub is_due_lem :
    (now : ℕ) (i : WakeIntent)
    → is_due now i ≡ true
    → (i.status ≡ WakeIntentStatus.pending) × (i.not_before ≤ now)
unfolding is_due
is_due_lem now i h =
    elim i.status
        as (λ s.
          elim s [
            | WakeIntentStatus.pending ↦ leb i.not_before now
            | WakeIntentStatus.due ↦ false
            | WakeIntentStatus.cancelled ↦ false
            | WakeIntentStatus.superseded ↦ false
            | WakeIntentStatus.dispatched ↦ false
          ]
            ≡ true
          → (s ≡ WakeIntentStatus.pending) × (i.not_before ≤ now)) [
            | WakeIntentStatus.pending ↦ λ e. (refl, ground arith)
            | WakeIntentStatus.due ↦ λ e. cc
            | WakeIntentStatus.cancelled ↦ λ e. cc
            | WakeIntentStatus.superseded ↦ λ e. cc
            | WakeIntentStatus.dispatched ↦ λ e. cc
          ]
      h

select-DueNow : (now : ℕ) (is : List WakeIntent) → DueNow now (select (is_due now) is)
select-DueNow now [] = tt
select-DueNow now (i ∷ is) = elim (Bool-cases (is_due now i)) [
  | inl due ↦ rw due (is_due_lem now i due, select-DueNow now is)
  | inr early ↦ rw early (select-DueNow now is)
]

-- The wakes that `poll_due` fences are pending, have a deadline that has come, and stand in the
-- order of their deadlines.
pub due_wakes-InOrder :
    (now : ℕ) (c : TemporalCoordinator) → InOrder (due_wakes now c) × DueNow now (due_wakes now c)
due_wakes-InOrder now c =
    (sorted-InOrder _, Every-sorted _ _ (select-DueNow now (Dict.values c.intents)))
