-- ===== src/Mind/Batches.antt =====
-- `apply_deltas` of apps/runtime/src/lilavel_runtime/mind.py: the outcomes of a batch, beside the
-- repeated `create_intention`.
use lilavel_runtime.Prelude.{
  ℕ, suc, ◌+◌, ◌≤◌, ◌<◌, ◌≡◌, ◌≢◌, refl, ap, inl, inr, String, Option, none, some, List, [], ◌∷◌,
  ◌++◌, arith, length, Option-cases, Bool-cases, true, eqb, eqb_iff, All,
}
use lilavel_runtime.Mind.State.{
  MindIntention, MindStateDelta, MindState, delta_is_valid, make_room, new_intention, simulate,
  DeltaResult, applied, version_conflict, capacity_exceeded, apply_deltas, CreateResult, created,
  full, invalid_text, create_intention, projection,
}
use lilavel_runtime.Mind.Room.{Simulated, simulate-Simulated}

-- The state holds no more intentions than its capacity.
abbrev pub Fits : MindState → Type 0
Fits s = length s.intentions ≤ s.intentions_capacity

-- A batch that is applied creates one intention for each delta: what was active stays and comes
-- first.
abbrev pub Applied : ℕ → MindState → List MindIntention → MindState → Type 0
Applied n s made t =
    (length made ≡ n)
    × (length (projection s).active_intentions + n ≤ s.intentions_capacity)
    × ((projection t).active_intentions ≡ (projection s).active_intentions ++ made)
    × (t.self_actions ≡ s.self_actions)
    × (t.version ≡ s.version + n)
    × Fits t
    × (t.intentions_capacity ≡ s.intentions_capacity)
    × (t.self_actions_capacity ≡ s.self_actions_capacity)

-- The outcomes of a batch of n deltas that is not empty.
abbrev pub Outcome : ℕ → ℕ → MindState → DeltaResult × MindState → Type 0
Outcome n expected s (applied made, t) = (s.version ≡ expected) × Applied n s made t
Outcome n expected s (version_conflict, t) = (s.version ≢ expected) × (t ≡ s)
Outcome n expected s (capacity_exceeded, t) =
    (s.version ≡ expected)
    × (s.intentions_capacity < length (projection s).active_intentions + n)
    × (t ≡ s)

-- In a state within its capacity, `apply_deltas` on a batch that is not empty conflicts exactly
-- when the version is not the expected one, fails exactly when the active intentions and the
-- deltas exceed the capacity (in both cases the state stays), and otherwise creates one intention
-- per delta, keeps every active intention in its order before the new ones, and adds the number
-- of deltas to the version.
pub batch_settles :
    (fresh : ℕ → String) (d : MindStateDelta) (ds : List MindStateDelta) (expected : ℕ)
    (s : MindState)
    → Fits s
    → Outcome (suc (length ds)) expected s (apply_deltas fresh (d ∷ ds) expected s)
unfolding apply_deltas projection
batch_settles fresh d ds expected s h = elim (Bool-cases (eqb s.version expected)) [
  | inr other ↦ rw other (λ e. ground (arith, eqb_iff s.version expected), refl)
  | inl same ↦ rw same (
      settled _ (simulate-Simulated fresh s.intentions_capacity 0 (d ∷ ds) s.intentions h)
        ((eqb_iff s.version expected).0 same))
]
  where
    settled :
        (o : Option (List MindIntention × List MindIntention))
        → Simulated s.intentions_capacity s.intentions (suc (length ds)) o
        → s.version ≡ expected
        → Outcome (suc (length ds)) expected s (elim o [
          | none ↦ (capacity_exceeded, s)
          | some (made, retained) ↦
              (applied made, record s { intentions = retained; version = s.version + length made })
        ])
    settled none h v = (v, h, refl)
    settled (some (made, final)) h v =
        (v, (h.2, h.0, h.1, refl, ap (λ n. s.version + n) h.2, h.3, refl, refl))

-- The rest of the creations, behind one that succeeds.
abbrev go_on :
    CreateResult × MindState
    → (MindState → Option (List MindIntention × MindState))
    → Option (List MindIntention × MindState)
go_on (created m, t) rest = elim (rest t) [ none ↦ none | some (made, u) ↦ some (m ∷ made, u) ]
go_on (full, _) rest = none
go_on (invalid_text, _) rest = none

-- Repeated `create_intention`, stopped at the first that fails.
unfoldable pub create_each :
    (ℕ → String) → ℕ → List MindStateDelta → MindState → Option (List MindIntention × MindState)
create_each fresh i [] s = some ([], s)
create_each fresh i (d ∷ ds) s =
    go_on (create_intention (fresh i) d s) (λ t. create_each fresh (suc i) ds t)

abbrev Repeated :
    MindState
    → Option (List MindIntention × List MindIntention)
    → Option (List MindIntention × MindState)
    → Type 0
Repeated s none o = o ≡ none
Repeated s (some (made, final)) o =
    o ≡ some (made, record s { intentions = final; version = s.version + length made })

-- The state after one more intention is created.
abbrev with_new : List MindIntention → MindIntention → MindState → MindState
with_new kept m s = record s { intentions = kept ++ m ∷ []; version = s.version + 1 }

Repeated-cons :
    (s : MindState) (kept : List MindIntention) (m : MindIntention)
    (o : Option (List MindIntention × List MindIntention))
    (e : Option (List MindIntention × MindState))
    → Repeated (with_new kept m s) o e
    → Repeated s
        (elim o [ none ↦ none | some (made, final) ↦ some (m ∷ made, final) ])
        (elim e [ none ↦ none | some (made, u) ↦ some (m ∷ made, u) ])
Repeated-cons s kept m none e h = rw h refl
Repeated-cons s kept m (some (made, final)) e h =
    rw h (ap (λ v. some (m ∷ made, record s { intentions = final; version = v })) (omega arith))

create_intention_room :
    (id : String) (d : MindStateDelta) (s : MindState) (kept : List MindIntention)
    → delta_is_valid d ≡ true
    → make_room s.intentions_capacity s.intentions ≡ some kept
    → create_intention id d s ≡ (created (new_intention id d), with_new kept (new_intention id d) s)
unfolding create_intention
create_intention_room id d s kept v e = rw (v, e) refl

create_intention_full :
    (id : String) (d : MindStateDelta) (s : MindState)
    → delta_is_valid d ≡ true
    → make_room s.intentions_capacity s.intentions ≡ none
    → create_intention id d s ≡ (full, s)
unfolding create_intention
create_intention_full id d s v e = rw (v, e) refl

create_each-simulate :
    (fresh : ℕ → String) (i : ℕ) (ds : List MindStateDelta) (s : MindState)
    → All (λ d. delta_is_valid d ≡ true) ds
    → Repeated s (simulate fresh s.intentions_capacity i ds s.intentions) (create_each fresh i ds s)
unfolding create_each simulate
create_each-simulate fresh i [] s v = ap (λ n. some ([], record s { version = n })) (omega arith)
create_each-simulate fresh i (d ∷ ds) s v =
    elim (Option-cases (make_room s.intentions_capacity s.intentions)) [
      | inl e ↦ rw (e, create_intention_full (fresh i) d s v.0 e, simulate, create_each) refl
      | inr (kept, e) ↦
          let m = new_intention (fresh i) d in
          rw (e, create_intention_room (fresh i) d s kept v.0 e, simulate, create_each)
            (Repeated-cons s kept m _ _
              (create_each-simulate fresh (suc i) ds (with_new kept m s) v.1))
    ]

-- What the batch amounts to, given what the repeated creations give.
abbrev pub AllOrNothing :
    MindState → DeltaResult × MindState → Option (List MindIntention × MindState) → Type 0
AllOrNothing s r none = r ≡ (capacity_exceeded, s)
AllOrNothing s r (some (made, t)) = r ≡ (applied made, t)

Repeated-AllOrNothing :
    (s : MindState) (o : Option (List MindIntention × List MindIntention))
    (e : Option (List MindIntention × MindState))
    → Repeated s o e
    → AllOrNothing s
        (elim o [
          | none ↦ (capacity_exceeded, s)
          | some (made, retained) ↦
              (applied made, record s { intentions = retained; version = s.version + length made })
        ])
        e
Repeated-AllOrNothing s none e h = rw h refl
Repeated-AllOrNothing s (some (made, final)) e h = rw h refl

-- A batch of valid deltas that is not empty, on the version it expects, gives the intentions and
-- the state of the repeated `create_intention` where all of those succeed, and fails without a
-- change where one of them fails.
pub batch_is_repeated :
    (fresh : ℕ → String) (d : MindStateDelta) (ds : List MindStateDelta) (s : MindState)
    → All (λ x. delta_is_valid x ≡ true) (d ∷ ds)
    → AllOrNothing s (apply_deltas fresh (d ∷ ds) s.version s) (create_each fresh 0 (d ∷ ds) s)
unfolding apply_deltas
batch_is_repeated fresh d ds s v = rw ((eqb_iff s.version s.version).1 refl) (
    Repeated-AllOrNothing s (simulate fresh s.intentions_capacity 0 (d ∷ ds) s.intentions) _
      (create_each-simulate fresh 0 (d ∷ ds) s v))
