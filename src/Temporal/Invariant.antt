-- ===== src/Temporal/Invariant.antt =====
-- The invariant of the coordinator's dictionaries.
use lilavel_runtime.Prelude.{◌≤◌, ◌≡◌, String, true, some, length, String_Eq}
use lilavel_runtime.Prelude.Dict
use lilavel_runtime.Prelude.Dict.{Dict}
use lilavel_runtime.Prelude.Entries.{get-pop-some, SameKeys, SameKeys-pop, SameKeys-Distinct}
use lilavel_runtime.Temporal.Types.{
  WakeIntent, Result, ok, key_error, value_error, overflow_error, TemporalCoordinator, is_pending,
}
use lilavel_runtime.Temporal.Coordinator.{max_wake_history, pending_count}

-- Two pending wakes never have the same key.
abbrev pub OnePending : Dict String WakeIntent → Dict String String → Type 0
OnePending intents keys =
    (v w key : String) (i j : WakeIntent)
    → Dict.get v keys ≡ some key
    → Dict.get w keys ≡ some key
    → Dict.get v intents ≡ some i
    → Dict.get w intents ≡ some j
    → is_pending i ≡ true
    → is_pending j ≡ true
    → v ≡ w

-- The two dictionaries have the same distinct keys, each wake carries its key, and equivalent wakes
-- are not both pending.
pub record Consistent (intents : Dict String WakeIntent) (keys : Dict String String) : Type 0 where
  pub same : SameKeys intents keys
  pub distinct : Dict.Distinct intents
  pub named : (k : String) (i : WakeIntent) → Dict.get k intents ≡ some i → i.wake_intent_id ≡ k
  pub one : OnePending intents keys

pub record WellFormed (c : TemporalCoordinator) : Type 0 where
  pub consistent : Consistent c.intents c.dedup_keys
  pub within : pending_count c ≤ c.pending_capacity
  pub small : c.pending_capacity ≤ 8
  pub history : length c.intents ≤ max_wake_history
  pub window : c.minimum_delay ≤ c.maximum_horizon

-- A result that is given satisfies a predicate; nothing is raised.
abbrev pub Returns {ℓ} : {A : Type ℓ} → (A → Type 0) → Result A → Type 0
Returns P (ok a) = P a
Returns P key_error = ⊥
Returns P value_error = ⊥
Returns P overflow_error = ⊥

-- Each dictionary behind a removal is a part of the one before.
pub record Part (intents' : Dict String WakeIntent) (keys' : Dict String String)
    (intents : Dict String WakeIntent) (keys : Dict String String) : Type 0 where
  pub from_intents :
      (k : String) (i : WakeIntent) → Dict.get k intents' ≡ some i → Dict.get k intents ≡ some i
  pub from_keys :
      (k : String) (key : String) → Dict.get k keys' ≡ some key → Dict.get k keys ≡ some key

Consistent-Part :
    (intents' : Dict String WakeIntent) (keys' : Dict String String)
    (intents : Dict String WakeIntent) (keys : Dict String String)
    → Consistent intents keys
    → SameKeys intents' keys'
    → Dict.Distinct intents'
    → Part intents' keys' intents keys
    → Consistent intents' keys'
Consistent-Part intents' keys' intents keys c s d p = record {
  same = s;
  distinct = d;
  named = λ k i e. c.named k i (p.from_intents k i e);
  one = λ v w key i j kv kw gv gw pv pw.
      c.one v w key i j (p.from_keys v key kv) (p.from_keys w key kw) (p.from_intents v i gv)
        (p.from_intents w j gw) pv pw;
}

pub Consistent-pop :
    (k : String) (intents : Dict String WakeIntent) (keys : Dict String String)
    → Consistent intents keys
    → Consistent (Dict.pop k intents) (Dict.pop k keys)
Consistent-pop k intents keys c =
    Consistent-Part _ _ intents keys c (SameKeys-pop k intents keys c.same)
      (Dict.Distinct-pop k intents c.distinct)
      (record {
        from_intents = λ j i e. get-pop-some k j i intents c.distinct e;
        from_keys = λ j key e.
            get-pop-some k j key keys (SameKeys-Distinct intents keys c.same c.distinct) e;
      })
