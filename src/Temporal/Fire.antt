-- ===== src/Temporal/Fire.antt =====
-- `poll_due`: what it returns, what it leaves, and where it raises.
use lilavel_runtime.Prelude.{
  ℕ, ◌≡◌, refl, sym, ap, ◌∙◌, inl, inr, String, Bool, true, false, some, List, [], ◌∷◌, map, select,
  arith, is_unique, ◌||◌, String_Eq, ◌==◌, Bool-cases,
}
use lilavel_runtime.Prelude.Dict
use lilavel_runtime.Prelude.Dict.{Dict}
use lilavel_runtime.Temporal.Types.{WakeIntent, WakeIntentStatus, ok, TemporalCoordinator}
use lilavel_runtime.Temporal.Dispatch.{
  insert_sorted, sorted, is_due, source_refs, trigger_of, fence, dispatch, due_wakes, poll_due,
}
use lilavel_runtime.Temporal.Invariant.{WellFormed}
use lilavel_runtime.Temporal.Admit.{get_of_set}
use lilavel_runtime.Temporal.Due.{Every, values_stored, poll_due-WellFormed}

-- Every wake's source references differ from one another.
abbrev pub UniqueRefs : List WakeIntent → Type 0
UniqueRefs is = Every (λ i. is_unique (source_refs i) ≡ true) is

pub dispatch_all :
    (is : List WakeIntent) (c : TemporalCoordinator)
    → UniqueRefs is
    → (dispatch is c).0 ≡ ok (map trigger_of is)
unfolding dispatch
dispatch_all [] c u = refl
dispatch_all (i ∷ is) c u = rw (u.0, dispatch, dispatch_all is (fence i c) u.1) refl

abbrev is_named : String → List WakeIntent → Bool
is_named k [] = false
is_named k (i ∷ is) = i.wake_intent_id == k || is_named k is

is_named-insert_sorted :
    (k : String) (i : WakeIntent) (is : List WakeIntent)
    → is_named k (insert_sorted i is) ≡ (i.wake_intent_id == k || is_named k is)
unfolding insert_sorted
is_named-insert_sorted k i [] = refl
is_named-insert_sorted k i (j ∷ js) = ground (arith, is_named-insert_sorted k i js)

is_named-sorted : (k : String) (is : List WakeIntent) → is_named k (sorted is) ≡ is_named k is
unfolding sorted
is_named-sorted k [] = refl
is_named-sorted k (i ∷ is) =
    ground (arith, is_named-insert_sorted k i (sorted is), is_named-sorted k is)

is_named-select :
    (p : WakeIntent → Bool) (k : String) (i : WakeIntent) (d : Dict String WakeIntent)
    → Dict.get k d ≡ some i
    → i.wake_intent_id ≡ k
    → p i ≡ true
    → is_named k (select p (Dict.values d)) ≡ true
unfolding Dict.get
is_named-select p k i [] g named h = cc
is_named-select p k i ((j, v) ∷ d) g named h = elim (Bool-cases (j == k)) [
  | inl here ↦
      let same : v ≡ i = ground arith in
      rw (same, h) (ground (arith, String_Eq.same_iff i.wake_intent_id k))
  | inr later ↦ ground (arith, is_named-select p k i d (ground arith) named h)
]

-- Every wake that is due stands in the list.
abbrev Left : ℕ → List WakeIntent → Dict String WakeIntent → Type 0
Left now is intents =
    (k : String) (i : WakeIntent)
    → Dict.get k intents ≡ some i
    → is_due now i ≡ true
    → is_named k is ≡ true

dispatched_is_late :
    (now : ℕ) (i j : WakeIntent)
    → record i { status = WakeIntentStatus.dispatched } ≡ j
    → is_due now j ≡ false
unfolding is_due
dispatched_is_late now i j e = sym (ap (is_due now) e)

Left-fence :
    (now : ℕ) (i : WakeIntent) (is : List WakeIntent) (c : TemporalCoordinator)
    → Left now (i ∷ is) c.intents
    → Left now is (fence i c).intents
Left-fence now i is c h k j g due = elim (get_of_set i.wake_intent_id k _ j c.intents g) [
  | inl (_, value) ↦ cc (dispatched_is_late now i j value, due)
  | inr (other, g') ↦ ground (arith, h k j g' due, other)
]

Left-dispatch :
    (now : ℕ) (is : List WakeIntent) (c : TemporalCoordinator)
    → UniqueRefs is
    → Left now is c.intents
    → Left now [] (dispatch is c).1.intents
unfolding dispatch
Left-dispatch now [] c u h = h
Left-dispatch now (i ∷ is) c u h =
    rw (u.0, dispatch) (Left-dispatch now is (fence i c) u.1 (Left-fence now i is c h))

pub none_due :
    (now : ℕ) (is : List WakeIntent)
    → Every (λ i. is_due now i ≡ false) is
    → select (is_due now) is ≡ []
none_due now [] h = refl
none_due now (i ∷ is) h = ground (arith, h.0, none_due now is h.1)

late :
    (now : ℕ) (is : List WakeIntent) (i : WakeIntent)
    → (is_due now i ≡ true → is_named i.wake_intent_id [] ≡ true)
    → is_due now i ≡ false
late now is i h = elim (Bool-cases (is_due now i)) [ inl due ↦ cc (h due) | inr early ↦ early ]

due_wakes-Left :
    (now : ℕ) (c : TemporalCoordinator) → WellFormed c → Left now (due_wakes now c) c.intents
due_wakes-Left now c w k i g due =
    is_named-sorted k (select (is_due now) (Dict.values c.intents))
    ∙ is_named-select (is_due now) k i c.intents g (w.consistent.named k i g) due

pub nothing_left :
    (now : ℕ) (c : TemporalCoordinator)
    → WellFormed c
    → UniqueRefs (due_wakes now c)
    → due_wakes now (poll_due now c).1 ≡ []
unfolding poll_due sorted
nothing_left now c w u =
    let d = (dispatch (due_wakes now c) c).1 in
    let left = Left-dispatch now (due_wakes now c) c u (due_wakes-Left now c w) in
    ap sorted (
      none_due now (Dict.values d.intents) (
        values_stored (λ i. is_due now i ≡ false) d.intents
          (poll_due-WellFormed now c w).consistent.distinct
          (λ k i g. late now [] i (λ due. cc (left k i g due)))))

-- In a well-formed coordinator where no due wake repeats a source reference, `poll_due` gives one
-- trigger for each due wake, in the order of the due wakes, and polling again at the same instant
-- gives none and changes nothing.
pub poll_due_fires_once :
    (now : ℕ) (c : TemporalCoordinator)
    → WellFormed c
    → UniqueRefs (due_wakes now c)
    → ((poll_due now c).0 ≡ ok (map trigger_of (due_wakes now c)))
      × (poll_due now (poll_due now c).1 ≡ (ok [], (poll_due now c).1))
unfolding poll_due dispatch
poll_due_fires_once now c w u = (
  dispatch_all (due_wakes now c) c u,
  ap (λ is. dispatch is (poll_due now c).1) (nothing_left now c w u),
)
