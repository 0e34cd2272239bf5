-- ===== src/Mind/Room.antt =====
-- How `apply_deltas` and `create_intention` make room: which intentions stay, and when there is none.
use lilavel_runtime.Prelude.{
  ℕ, suc, ◌+◌, ◌≤◌, ◌<◌, ◌≡◌, refl, sym, ap, ◌∙◌, inl, inr, String, Option, none, some, List, [],
  ◌∷◌, ◌++◌, arith, length, length-append, select, select-append, length-select, Option-cases, leb,
  if-cases, if◌then◌else◌, true,
}
use mathlib.Core.List.{append_assoc, append-nil}
use mathlib.Core.Path.{subst}
use lilavel_runtime.Mind.State.{
  MindIntention, MindStateDelta, is_active, evict, make_room, new_intention, simulate,
}

abbrev pub actives : List MindIntention → List MindIntention
actives ms = select is_active ms

-- Without an expressed intention none is evicted; otherwise one that is not active goes.
abbrev Evicted : List MindIntention → Option (List MindIntention) → Type 0
Evicted ms none = actives ms ≡ ms
Evicted ms (some kept) = (actives kept ≡ actives ms) × (length kept + 1 ≡ length ms)

Evicted-cons :
    (m : MindIntention) (ms : List MindIntention) (o : Option (List MindIntention))
    → Evicted ms o
    → Evicted
        (m ∷ ms)
        (if is_active m then elim o [ none ↦ none | some kept ↦ some (m ∷ kept) ] else some ms)
Evicted-cons m ms none h = ground arith
Evicted-cons m ms (some kept) h = ground arith

evict-Evicted : (ms : List MindIntention) → Evicted ms (evict ms)
unfolding evict
evict-Evicted [] = refl
evict-Evicted (m ∷ ms) = Evicted-cons m ms (evict ms) (evict-Evicted ms)

-- Room for one more, with the same active intentions; or all the capacity is active.
abbrev pub Room : ℕ → List MindIntention → Option (List MindIntention) → Type 0
Room capacity ms none = capacity ≤ length (actives ms)
Room capacity ms (some kept) = (actives kept ≡ actives ms) × (length kept < capacity)

Evicted-Room :
    (capacity : ℕ) (ms : List MindIntention) (o : Option (List MindIntention))
    → length ms ≤ capacity
    → capacity ≤ length ms
    → Evicted ms o
    → Room capacity ms o
Evicted-Room capacity ms none h k e = ground (arith, e)
Evicted-Room capacity ms (some kept) h k e = (e.0, omega arith)

pub make_room-Room :
    (capacity : ℕ) (ms : List MindIntention)
    → length ms ≤ capacity
    → Room capacity ms (make_room capacity ms)
unfolding make_room
make_room-Room capacity ms h =
    if-cases (Room capacity ms) (leb capacity (length ms)) (evict ms) (some ms)
      (λ t. Evicted-Room capacity ms (evict ms) h (ground arith) (evict-Evicted ms))
      (λ f. (refl, ground arith))

-- A batch of n deltas fits when the active intentions leave it room. Then what was active stays, in
-- its order, and is followed by what is created.
abbrev pub Simulated :
    ℕ → List MindIntention → ℕ → Option (List MindIntention × List MindIntention) → Type 0
Simulated capacity ms n none = capacity < length (actives ms) + n
Simulated capacity ms n (some (made, final)) =
    (length (actives ms) + n ≤ capacity)
    × (actives final ≡ actives ms ++ made)
    × (length made ≡ n)
    × (length final ≤ capacity)

length-actives : (ms : List MindIntention) → length (actives ms) ≤ length ms
length-actives ms = length-select is_active ms

actives-add :
    (ms : List MindIntention) (m : MindIntention)
    → is_active m ≡ true
    → actives (ms ++ m ∷ []) ≡ actives ms ++ m ∷ []
actives-add ms m a = select-append is_active ms (m ∷ []) ∙ ap (λ xs. actives ms ++ xs) (one m a)
  where
    one : (m : MindIntention) → is_active m ≡ true → actives (m ∷ []) ≡ m ∷ []
    one m a = ground arith

Simulated-cons :
    (capacity : ℕ) (ms kept : List MindIntention) (m : MindIntention) (n : ℕ)
    (o : Option (List MindIntention × List MindIntention))
    → is_active m ≡ true
    → Room capacity ms (some kept)
    → Simulated capacity (kept ++ m ∷ []) n o
    → Simulated capacity ms
        (suc n)
        (elim o [ none ↦ none | some (made, final) ↦ some (m ∷ made, final) ])
Simulated-cons capacity ms kept m n none a r h =
    ground (arith, actives-add kept m a, length-append (actives kept) (m ∷ []))
Simulated-cons capacity ms kept m n (some (made, final)) a r h = (
  ground (arith, actives-add kept m a, length-append (actives kept) (m ∷ [])),
  h.1
      ∙ ap (λ xs. xs ++ made) (actives-add kept m a)
      ∙ append_assoc (actives kept) (m ∷ []) made
      ∙ ap (λ xs. xs ++ m ∷ made) r.0,
  omega arith,
  h.3,
)

pub simulate-Simulated :
    (fresh : ℕ → String) (capacity i : ℕ) (ds : List MindStateDelta) (ms : List MindIntention)
    → length ms ≤ capacity
    → Simulated capacity ms (length ds) (simulate fresh capacity i ds ms)
unfolding simulate
simulate-Simulated fresh capacity i [] ms h =
    (ground (arith, length-actives ms), sym (append-nil (actives ms)), refl, h)
simulate-Simulated fresh capacity i (d ∷ ds) ms h =
    let room = make_room-Room capacity ms h in
    elim (Option-cases (make_room capacity ms)) [
      | inl e ↦
          let r : Room capacity ms none = subst (Room capacity ms) e room in
          rw (e, simulate) (ground arith)
      | inr (kept, e) ↦
          let r : Room capacity ms (some kept) = subst (Room capacity ms) e room in
          rw (e, simulate)
            (Simulated-cons capacity ms kept (new_intention (fresh i) d) (length ds) _ refl r (
              simulate-Simulated fresh capacity (suc i) ds (kept ++ new_intention (fresh i) d ∷ [])
                (ground (arith, length-append kept (new_intention (fresh i) d ∷ [])))))
    ]
