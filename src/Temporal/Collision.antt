-- ===== src/Temporal/Collision.antt =====
-- `poll_due` where a trigger cannot be made: two source references of a wake are the same.
use lilavel_runtime.Prelude.{
  ℕ, ◌≡◌, refl, sym, ap, inl, inr, String, Bool, true, false, none, some, List, [], ◌∷◌, arith,
  is_unique, ◌&&◌, String_Eq, ==_refl, Bool-cases, Option-cases,
}
use lilavel_runtime.Prelude.Dict
use lilavel_runtime.Prelude.Dict.{Dict}
use lilavel_runtime.Temporal.Types.{WakeIntent, value_error, TemporalCoordinator, is_pending}
use lilavel_runtime.Temporal.Dispatch.{source_refs, fence, dispatch, due_wakes, poll_due}
use lilavel_runtime.Temporal.Admit.{get_of_set}

abbrev pub all_unique : List WakeIntent → Bool
all_unique [] = true
all_unique (i ∷ is) = is_unique (source_refs i) && all_unique is

-- What is stored under an identifier is not pending.
abbrev pub SettledAt : String → TemporalCoordinator → Type 0
SettledAt k c = (i : WakeIntent) → Dict.get k c.intents ≡ some i → is_pending i ≡ false

fence-SettledAt :
    (k : String) (i : WakeIntent) (c : TemporalCoordinator)
    → SettledAt k c
    → SettledAt k (fence i c)
fence-SettledAt k i c h j g = elim (get_of_set i.wake_intent_id k _ j c.intents g) [
  | inl (_, value) ↦ sym (ap (λ x. is_pending x) value)
  | inr (_, g') ↦ h j g'
]

fence_settles : (i : WakeIntent) (c : TemporalCoordinator) → SettledAt i.wake_intent_id (fence i c)
fence_settles i c j g = elim (get_of_set i.wake_intent_id i.wake_intent_id _ j c.intents g) [
  | inl (_, value) ↦ sym (ap (λ x. is_pending x) value)
  | inr (other, _) ↦ cc (other, ==_refl i.wake_intent_id)
]

dispatch-SettledAt :
    (k : String) (is : List WakeIntent) (c : TemporalCoordinator)
    → SettledAt k c
    → SettledAt k (dispatch is c).1
unfolding dispatch
dispatch-SettledAt k [] c h = h
dispatch-SettledAt k (i ∷ is) c h =
    let next = fence-SettledAt k i c h in
    elim (Bool-cases (is_unique (source_refs i))) [
      | inl unique ↦ rw (unique, dispatch) (dispatch-SettledAt k is (fence i c) next)
      | inr collision ↦ rw (collision, dispatch) next
    ]

dispatch_collision :
    (is : List WakeIntent) (c : TemporalCoordinator)
    → all_unique is ≡ false
    → (dispatch is c).0 ≡ value_error
unfolding dispatch
dispatch_collision [] c h = cc
dispatch_collision (i ∷ is) c h = elim (Bool-cases (is_unique (source_refs i))) [
  | inl unique ↦
      rw (unique, dispatch, dispatch_collision is (fence i c) (ground (arith, unique, h))) refl
  | inr collision ↦ rw (collision, dispatch) refl
]

dispatch_first-SettledAt :
    (i : WakeIntent) (is : List WakeIntent) (c : TemporalCoordinator)
    → SettledAt i.wake_intent_id (dispatch (i ∷ is) c).1
unfolding dispatch
dispatch_first-SettledAt i is c = elim (Bool-cases (is_unique (source_refs i))) [
  | inl unique ↦
      rw (unique, dispatch) (dispatch-SettledAt i.wake_intent_id is (fence i c) (fence_settles i c))
  | inr collision ↦ rw (collision, dispatch) (fence_settles i c)
]

-- Whether a pending wake is stored under an identifier.
abbrev pub pending_at : String → TemporalCoordinator → Bool
pending_at k c = elim (Dict.get k c.intents) [ none ↦ false | some i ↦ is_pending i ]

not_pending_at : (k : String) (c : TemporalCoordinator) → SettledAt k c → pending_at k c ≡ false
not_pending_at k c h = elim (Option-cases (Dict.get k c.intents)) [
  | inl absent ↦ rw (absent, pending_at) refl
  | inr (i, found) ↦ rw (found, pending_at) (h i found)
]

-- Where some due wake repeats a source reference, `poll_due` raises ValueError, and the first due
-- wake is no longer pending although no trigger was returned.
pub poll_due_collision :
    (now : ℕ) (c : TemporalCoordinator) (i : WakeIntent) (is : List WakeIntent)
    → due_wakes now c ≡ i ∷ is
    → all_unique (i ∷ is) ≡ false
    → ((poll_due now c).0 ≡ value_error) × (pending_at i.wake_intent_id (poll_due now c).1 ≡ false)
unfolding poll_due
poll_due_collision now c i is due h = rw due (
  dispatch_collision (i ∷ is) c h,
  not_pending_at i.wake_intent_id (dispatch (i ∷ is) c).1 (dispatch_first-SettledAt i is c),
)
