-- ===== src/Temporal/History.antt =====
-- `_trim_history`: it raises nothing and leaves a bounded history.
use lilavel_runtime.Prelude.{
  ℕ, suc, ◌+◌, ◌≤◌, ◌≡◌, refl, sym, ◌∙◌, inl, inr, String, true, [], ◌∷◌, not, arith, length,
  is_some, leb, if-cases, String_Eq, Bool-cases, Option-cases,
}
use lilavel_runtime.Prelude.Dict
use lilavel_runtime.Prelude.Dict.{Dict}
use lilavel_runtime.Prelude.Entries.{
  count, count-pop, count-add-not, SameKeys_refl, SameKeys-get, Present, Present-pop,
  SameKeys-Present,
}
use lilavel_runtime.Temporal.Types.{
  WakeIntent, Result, ok, key_error, value_error, overflow_error, ◌>>=◌, TemporalCoordinator,
  is_pending,
}
use lilavel_runtime.Temporal.Coordinator.{max_wake_history, pending_count}
use lilavel_runtime.Temporal.Trim.{delete, trim_from, trim_history}
use lilavel_runtime.Temporal.Invariant.{Consistent, Consistent-pop, WellFormed, Returns}

delete_present {ℓ} :
    {V : Type ℓ} (k : String) (d : Dict String V)
    → is_some (Dict.get k d) ≡ true
    → delete k d ≡ ok (Dict.pop k d)
unfolding delete
delete_present k d h = rw h refl

abbrev settled_count : Dict String WakeIntent → ℕ
settled_count d = count (λ i. not (is_pending i)) d

-- What the loop leaves of the dictionaries it starts with.
abbrev Trimmed : Dict String WakeIntent → Dict String WakeIntent × Dict String String → Type 0
Trimmed intents p =
    Consistent p.0 p.1
    × (count is_pending p.0 ≤ count is_pending intents)
    × (length p.0 ≤ max_wake_history)

Trimmed-pop :
    (w : String) (intents : Dict String WakeIntent)
    (r : Result (Dict String WakeIntent × Dict String String))
    → Returns (Trimmed (Dict.pop w intents)) r
    → Returns (Trimmed intents) r
Trimmed-pop w intents (ok p) h = (h.0, omega (arith, count-pop is_pending w intents, h.1), h.2)
Trimmed-pop w intents key_error h = absurd h
Trimmed-pop w intents value_error h = absurd h
Trimmed-pop w intents overflow_error h = absurd h

length-pop-present :
    (k : String) (d : Dict String WakeIntent)
    → is_some (Dict.get k d) ≡ true
    → suc (length (Dict.pop k d)) ≡ length d
length-pop-present k d h = elim (Option-cases (Dict.get k d)) [
  | inl absent ↦ cc
  | inr (i, found) ↦ Dict.length-pop k i d found
]

trim_from-Trimmed :
    (bound : ℕ) (rest intents : Dict String WakeIntent) (keys : Dict String String)
    → bound ≤ max_wake_history
    → Dict.Distinct rest
    → Present rest intents
    → Consistent intents keys
    → length intents ≤ bound + settled_count rest
    → Returns (Trimmed intents) (trim_from rest intents keys)
unfolding trim_from
trim_from-Trimmed bound [] intents keys b u p c l = (c, omega arith, omega arith)
trim_from-Trimmed bound ((w, i) ∷ rest) intents keys b u p c l = elim (Bool-cases (is_pending i)) [
  | inl pending ↦
      rw (pending, trim_from) (trim_from-Trimmed bound rest intents keys b u.1 p.1 c (ground arith))
  | inr settled ↦
      let d = Dict.pop w intents in
      let shorter = length-pop-present w intents p.0 in
      rw
        (
          settled,
          trim_from,
          delete_present w intents p.0,
          delete_present w keys (sym (SameKeys-get w intents keys c.same) ∙ p.0),
        )
        (elim (Bool-cases (leb (length d) max_wake_history)) [
          | inl enough ↦
              rw enough
                (Consistent-pop w intents keys c, count-pop is_pending w intents, ground arith)
          | inr more ↦ rw more (
              Trimmed-pop w intents _ (
                trim_from-Trimmed bound rest d (Dict.pop w keys) b u.1
                  (Present-pop w rest intents u.0 p.1) (Consistent-pop w intents keys c)
                  (ground arith)))
        ])
]

-- A coordinator that is well formed but for its history is well formed behind `_trim_history`.
pub record Untrimmed (c : TemporalCoordinator) : Type 0 where
  pub consistent : Consistent c.intents c.dedup_keys
  pub within : pending_count c ≤ c.pending_capacity
  pub small : c.pending_capacity ≤ 8
  pub window : c.minimum_delay ≤ c.maximum_horizon

Trimmed-WellFormed :
    (c : TemporalCoordinator) (r : Result (Dict String WakeIntent × Dict String String))
    → Untrimmed c
    → Returns (Trimmed c.intents) r
    → Returns WellFormed (
        r >>= λ (p : Dict String WakeIntent × Dict String String).
        ok (record c { intents = p.0; dedup_keys = p.1 }))
unfolding pending_count
Trimmed-WellFormed c (ok p) u h = record {
  consistent = h.0;
  within = omega (arith, u.within, h.1);
  small = u.small;
  history = h.2;
  window = u.window;
}
Trimmed-WellFormed c key_error u h = absurd h
Trimmed-WellFormed c value_error u h = absurd h
Trimmed-WellFormed c overflow_error u h = absurd h

pub trim_history-WellFormed :
    (c : TemporalCoordinator) → Untrimmed c → Returns WellFormed (trim_history c)
unfolding trim_history pending_count
trim_history-WellFormed c u =
    if-cases (Returns WellFormed) (leb (length c.intents) max_wake_history) _ _
      (λ short. record {
        consistent = u.consistent;
        within = u.within;
        small = u.small;
        history = ground arith;
        window = u.window;
      })
      (λ _. Trimmed-WellFormed c _ u (
        trim_from-Trimmed 8 c.intents c.intents c.dedup_keys (omega arith) u.consistent.distinct
          (SameKeys-Present c.intents c.intents (SameKeys_refl c.intents)) u.consistent
          (omega (arith, count-add-not is_pending c.intents, u.within, u.small))))
