-- ===== src/Temporal/Commit.antt =====
-- The invariant through `commit`: what the loop admits, and the whole call.
use lilavel_runtime.Prelude.{
  ◌+◌, ◌≡◌, refl, inl, inr, String, true, false, List, [], ◌∷◌, ◌||◌, not, arith, if-cases,
  String_Eq, Option-cases,
}
use lilavel_runtime.Prelude.Dict
use lilavel_runtime.Prelude.Dict.{Dict}
use lilavel_runtime.Prelude.Text.{is_bounded_text}
use lilavel_runtime.Prelude.Entries.{SameKeys-Present, SameKeys_sym}
use lilavel_runtime.Temporal.Types.{
  PreparedTemporalProposal, TemporalPreparation, prepared, rejection, Result, ok, key_error,
  value_error, overflow_error, ◌>>=◌, TemporalCoordinator, Digests,
}
use lilavel_runtime.Temporal.Coordinator.{wake_id}
use lilavel_runtime.Temporal.Admission.{
  existing_by_key, admit_wake, admit_items, keys_of, exceeds_capacity, commit, commit_with,
}
use lilavel_runtime.Temporal.Invariant.{Consistent, WellFormed, Returns}
use lilavel_runtime.Temporal.History.{Untrimmed, trim_history-WellFormed}
use lilavel_runtime.Temporal.Admit.{set-Consistent, set-Covers}
use lilavel_runtime.Temporal.Existing.{Covers, Existing, existing_from-Existing, admit_items_count}

-- The bounds of a coordinator, which no call changes.
abbrev pub SameBounds : TemporalCoordinator → TemporalCoordinator → Type 0
SameBounds c d =
    (d.pending_capacity ≡ c.pending_capacity)
    × (d.minimum_delay ≡ c.minimum_delay)
    × (d.maximum_horizon ≡ c.maximum_horizon)

SameBounds-admit_items :
    (h : Digests) (episode trigger : String) (items : List PreparedTemporalProposal)
    (existing : Dict String String) (c : TemporalCoordinator)
    → SameBounds c (admit_items h episode trigger items existing c).1
unfolding admit_items admit_wake
SameBounds-admit_items h episode trigger [] existing c = (refl, refl, refl)
SameBounds-admit_items h episode trigger (item ∷ items) existing c =
    let id = wake_id h c item.dedup_key (c.next_sequence + 1) in
    elim (Option-cases (Dict.get item.dedup_key existing)) [
      | inl absent ↦
          rw (absent, admit_items)
            (SameBounds-admit_items h episode trigger items (Dict.set item.dedup_key id existing)
              (admit_wake id episode trigger item c))
      | inr (_, found) ↦
          rw (found, admit_items) (SameBounds-admit_items h episode trigger items existing c)
    ]

admit_items-Consistent :
    (h : Digests) (episode trigger : String) (items : List PreparedTemporalProposal)
    (existing : Dict String String) (c : TemporalCoordinator)
    → Consistent c.intents c.dedup_keys
    → Covers c.intents c.dedup_keys existing
    → let d = (admit_items h episode trigger items existing c).1 in
      Consistent d.intents d.dedup_keys
unfolding admit_items admit_wake
admit_items-Consistent h episode trigger [] existing c k v = k
admit_items-Consistent h episode trigger (item ∷ items) existing c k v =
    let id = wake_id h c item.dedup_key (c.next_sequence + 1) in
    elim (Option-cases (Dict.get item.dedup_key existing)) [
      | inl absent ↦
          rw (absent, admit_items)
            (admit_items-Consistent h episode trigger items (Dict.set item.dedup_key id existing)
              (admit_wake id episode trigger item c)
              (set-Consistent id item.dedup_key _ c.intents c.dedup_keys existing refl k v absent)
              (set-Covers id item.dedup_key _ c.intents c.dedup_keys existing refl k v absent))
      | inr (_, found) ↦
          rw (found, admit_items) (admit_items-Consistent h episode trigger items existing c k v)
    ]

-- What a call gives, with the coordinator behind it.
abbrev pub Keeps {ℓ} : {A : Type ℓ} → Result (A × TemporalCoordinator) → Type 0
Keeps r = Returns (λ p. WellFormed p.1) r

Keeps-trimmed {ℓ} :
    {A : Type ℓ} (x : A) (r : Result TemporalCoordinator)
    → Returns WellFormed r
    → Keeps (r >>= λ c. ok (x, c))
Keeps-trimmed x (ok c) h = h
Keeps-trimmed x key_error h = absurd h
Keeps-trimmed x value_error h = absurd h
Keeps-trimmed x overflow_error h = absurd h

pub admit_items-Untrimmed :
    (h : Digests) (episode trigger : String) (items : List PreparedTemporalProposal)
    (existing : Dict String String) (c : TemporalCoordinator)
    → WellFormed c
    → Covers c.intents c.dedup_keys existing
    → exceeds_capacity c existing (keys_of items) ≡ false
    → Untrimmed (admit_items h episode trigger items existing c).1
admit_items-Untrimmed h episode trigger items existing c w v room =
    let bounds = SameBounds-admit_items h episode trigger items existing c in
    let added =
      admit_items_count h episode trigger items existing existing [] c (λ key. ground arith) in
    record {
      consistent = admit_items-Consistent h episode trigger items existing c w.consistent v;
      within = ground (arith, bounds, added);
      small = ground (arith, bounds, w.small);
      window = ground (arith, bounds, w.window);
    }

commit_with-Keeps :
    (h : Digests) (episode trigger : String) (items : List PreparedTemporalProposal)
    (c : TemporalCoordinator) (r : Result (Dict String String))
    → WellFormed c
    → Returns (λ existing. Covers c.intents c.dedup_keys existing) r
    → Keeps (r >>= commit_with h episode trigger items c)
unfolding commit_with
commit_with-Keeps h episode trigger items c (ok existing) w v =
    if-cases Keeps (exceeds_capacity c existing (keys_of items)) _ _ (λ _. w)
      (λ room. Keeps-trimmed _ _ (
        trim_history-WellFormed _
          (admit_items-Untrimmed h episode trigger items existing c w v room)))
commit_with-Keeps h episode trigger items c key_error w v = absurd v
commit_with-Keeps h episode trigger items c value_error w v = absurd v
commit_with-Keeps h episode trigger items c overflow_error w v = absurd v

-- Where the source identifiers are bounded text.
abbrev pub BoundedSources : String → String → Type 0
BoundedSources episode trigger =
    (is_bounded_text 128 episode ≡ true) × (is_bounded_text 128 trigger ≡ true)

weaken-Existing :
    (c : TemporalCoordinator) (r : Result (Dict String String))
    → Returns (Existing c.intents c.dedup_keys []) r
    → Returns (λ existing. Covers c.intents c.dedup_keys existing) r
weaken-Existing c (ok new) h = h.1
weaken-Existing c key_error h = h
weaken-Existing c value_error h = h
weaken-Existing c overflow_error h = h

pub existing-Covers :
    (c : TemporalCoordinator)
    → WellFormed c
    → Returns (λ existing. Covers c.intents c.dedup_keys existing) (existing_by_key c)
existing-Covers c w = weaken-Existing c _ (
    existing_from-Existing c.intents c.dedup_keys [] (
      SameKeys-Present c.dedup_keys c.intents
        (SameKeys_sym c.intents c.dedup_keys w.consistent.same)))

pub commit-WellFormed :
    (h : Digests) (p : TemporalPreparation) (episode trigger : String) (c : TemporalCoordinator)
    → BoundedSources episode trigger
    → WellFormed c
    → Keeps (commit h p episode trigger c)
unfolding commit
commit-WellFormed h (rejection r) episode trigger c b w = w
commit-WellFormed h (prepared []) episode trigger c b w = w
commit-WellFormed h (prepared (item ∷ items)) episode trigger c b w =
    if-cases Keeps (not (is_bounded_text 128 episode) || not (is_bounded_text 128 trigger)) _ _
      (λ long. ground (arith, b))
      (λ _. commit_with-Keeps h episode trigger (item ∷ items) c _ w (existing-Covers c w))
