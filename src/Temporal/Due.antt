-- ===== src/Temporal/Due.antt =====
-- `poll_due`: the wakes that it finds, in the order in which it fences them.
use lilavel_runtime.Prelude.{
  ℕ, ◌≡◌, ap, ◌∙◌, inl, inr, String, Bool, true, some, List, [], ◌∷◌, select, arith, is_some,
  is_unique, String_Eq, ==_refl, Bool-cases,
}
use lilavel_runtime.Prelude.Dict
use lilavel_runtime.Prelude.Dict.{Dict}
use lilavel_runtime.Temporal.Types.{WakeIntent, TemporalCoordinator}
use lilavel_runtime.Temporal.Dispatch.{
  comes_before, insert_sorted, sorted, is_due, source_refs, fence, dispatch, due_wakes, poll_due,
}
use lilavel_runtime.Temporal.Invariant.{WellFormed}
use lilavel_runtime.Temporal.Settle.{fence-WellFormed}

-- Every wake of a list satisfies a predicate.
abbrev pub Every : (WakeIntent → Type 0) → List WakeIntent → Type 0
Every P [] = Unit
Every P (i ∷ is) = P i × Every P is

Every-select :
    (P : WakeIntent → Type 0) (p : WakeIntent → Bool) (is : List WakeIntent)
    → Every P is
    → Every P (select p is)
Every-select P p [] h = tt
Every-select P p (i ∷ is) h = elim (Bool-cases (p i)) [
  | inl due ↦ rw due (h.0, Every-select P p is h.1)
  | inr early ↦ rw early (Every-select P p is h.1)
]

pub Every-insert_sorted :
    (P : WakeIntent → Type 0) (i : WakeIntent) (is : List WakeIntent)
    → P i
    → Every P is
    → Every P (insert_sorted i is)
unfolding insert_sorted
Every-insert_sorted P i [] p h = (p, tt)
Every-insert_sorted P i (j ∷ js) p h = elim (Bool-cases (comes_before j i)) [
  | inl before ↦ rw before (h.0, Every-insert_sorted P i js p h.1)
  | inr behind ↦ rw behind (p, h)
]

pub Every-sorted :
    (P : WakeIntent → Type 0) (is : List WakeIntent) → Every P is → Every P (sorted is)
unfolding sorted
Every-sorted P [] h = tt
Every-sorted P (i ∷ is) h = Every-insert_sorted P i (sorted is) h.0 (Every-sorted P is h.1)

-- Every wake of the list is stored under its own identifier.
abbrev pub Known : Dict String WakeIntent → List WakeIntent → Type 0
Known intents is = Every (λ i. is_some (Dict.get i.wake_intent_id intents) ≡ true) is

is_some-get-set :
    (k j : String) (v : WakeIntent) (d : Dict String WakeIntent)
    → is_some (Dict.get j d) ≡ true
    → is_some (Dict.get j (Dict.set k v d)) ≡ true
is_some-get-set k j v d h = ground (arith, Dict.get-set k j v d)

Known-set :
    (k : String) (v : WakeIntent) (d : Dict String WakeIntent) (is : List WakeIntent)
    → Known d is
    → Known (Dict.set k v d) is
Known-set k v d [] h = tt
Known-set k v d (i ∷ is) h = (is_some-get-set k i.wake_intent_id v d h.0, Known-set k v d is h.1)

-- Each value of a dictionary is what its key gives.
pub values_stored :
    (P : WakeIntent → Type 0) (d : Dict String WakeIntent)
    → Dict.Distinct d
    → ((k : String) (i : WakeIntent) → Dict.get k d ≡ some i → P i)
    → Every P (Dict.values d)
unfolding Dict.get
values_stored P [] u h = tt
values_stored P ((k, i) ∷ d) u h = (
  h k i (ground (arith, ==_refl k)),
  values_stored P d u.1 (λ j v g. h j v (ground (arith, g, u.0, String_Eq.same_iff k j))),
)

pub due_wakes-Known :
    (now : ℕ) (c : TemporalCoordinator) → WellFormed c → Known c.intents (due_wakes now c)
due_wakes-Known now c w = Every-sorted _ _ (
    Every-select _ (is_due now) _ (
      values_stored _ c.intents w.consistent.distinct
        (λ k i g. ap is_some (ap (λ j. Dict.get j c.intents) (w.consistent.named k i g) ∙ g))))

pub dispatch-WellFormed :
    (is : List WakeIntent) (c : TemporalCoordinator)
    → Known c.intents is
    → WellFormed c
    → WellFormed (dispatch is c).1
unfolding dispatch
dispatch-WellFormed [] c k w = w
dispatch-WellFormed (i ∷ is) c k w =
    let next = fence-WellFormed i c k.0 w in
    let rest =
      dispatch-WellFormed is (fence i c) (Known-set i.wake_intent_id _ c.intents is k.1) next in
    elim (Bool-cases (is_unique (source_refs i))) [
      | inl unique ↦ rw (unique, dispatch) rest
      | inr collision ↦ rw (collision, dispatch) next
    ]

pub poll_due-WellFormed :
    (now : ℕ) (c : TemporalCoordinator) → WellFormed c → WellFormed (poll_due now c).1
unfolding poll_due
poll_due-WellFormed now c w = dispatch-WellFormed (due_wakes now c) c (due_wakes-Known now c w) w
