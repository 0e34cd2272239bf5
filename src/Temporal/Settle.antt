-- ===== src/Temporal/Settle.antt =====
-- The invariant when a wake is settled: `cancel`, and the fence of `poll_due`.
use lilavel_runtime.Prelude.{
  ◌≡◌, refl, sym, ap, ◌∙◌, inl, inr, String, Bool, true, false, some, arith, length, is_some,
  if◌then◌else◌, if_not-cases, String_Eq, Option-cases, ◌≤◌,
}
use lilavel_runtime.Prelude.Dict
use lilavel_runtime.Prelude.Dict.{Dict}
use lilavel_runtime.Prelude.Text.{is_bounded_text}
use lilavel_runtime.Prelude.Entries.{count-set, SameKeys-set_old}
use lilavel_runtime.Temporal.Types.{
  WakeIntent, WakeIntentStatus, Result, ok, key_error, value_error, overflow_error, ◌>>=◌,
  TemporalCoordinator, is_pending,
}
use lilavel_runtime.Temporal.Coordinator.{pending_count}
use lilavel_runtime.Temporal.Trim.{trim_history}
use lilavel_runtime.Temporal.Dispatch.{cancel, fence}
use lilavel_runtime.Temporal.Invariant.{OnePending, Consistent, WellFormed, Returns}
use lilavel_runtime.Temporal.History.{trim_history-WellFormed}
use lilavel_runtime.Temporal.Admit.{get_of_set}
use lilavel_runtime.Temporal.Commit.{Keeps}

module _ (i : WakeIntent) (settled : is_pending i ≡ false) (c : TemporalCoordinator)
    (w : WellFormed c) (known : is_some (Dict.get i.wake_intent_id c.intents) ≡ true) where
  abbrev settle : TemporalCoordinator
  settle = record c { intents = Dict.set i.wake_intent_id i c.intents }

  settle-OnePending : OnePending settle.intents settle.dedup_keys
  settle-OnePending u v key a b ku kv gu gv pu pv =
      elim (get_of_set i.wake_intent_id u i a c.intents gu) [
        | inl (_, same) ↦ cc (ap (λ x. is_pending x) same, settled, pu)
        | inr (_, gu') ↦ elim (get_of_set i.wake_intent_id v i b c.intents gv) [
          | inl (_, same) ↦ cc (ap (λ x. is_pending x) same, settled, pv)
          | inr (_, gv') ↦ w.consistent.one u v key a b ku kv gu' gv' pu pv
        ]
      ]

  settle-Consistent : Consistent settle.intents settle.dedup_keys
  settle-Consistent = record {
    same = SameKeys-set_old i.wake_intent_id i c.intents c.dedup_keys known w.consistent.same;
    distinct = Dict.Distinct-set i.wake_intent_id i c.intents w.consistent.distinct;
    named = λ k j g. elim (get_of_set i.wake_intent_id k i j c.intents g) [
      | inl (same, value) ↦ ap (λ (x : WakeIntent). x.wake_intent_id) (sym value) ∙ same
      | inr (_, g') ↦ w.consistent.named k j g'
    ];
    one = settle-OnePending;
  }

  settle-length : length settle.intents ≡ length c.intents
  settle-length = elim (Option-cases (Dict.get i.wake_intent_id c.intents)) [
    | inl absent ↦ cc (absent, known)
    | inr (j, found) ↦ Dict.length-set_old i.wake_intent_id i j c.intents found
  ]

  settle-within : pending_count settle ≤ pending_count c
  unfolding pending_count
  settle-within = ground (arith, count-set is_pending i.wake_intent_id i c.intents, settled)

  pub settle-WellFormed : WellFormed settle
  settle-WellFormed = record {
    consistent = settle-Consistent;
    within = omega (arith, settle-within, w.within);
    small = w.small;
    history = omega (arith, settle-length, w.history);
    window = w.window;
  }

  pub settle_then_trim : Returns WellFormed (trim_history settle)
  settle_then_trim = trim_history-WellFormed settle (record {
    consistent = settle-Consistent;
    within = omega (arith, settle-within, w.within);
    small = w.small;
    window = w.window;
  })

pub fence-WellFormed :
    (i : WakeIntent) (c : TemporalCoordinator)
    → is_some (Dict.get i.wake_intent_id c.intents) ≡ true
    → WellFormed c
    → WellFormed (fence i c)
fence-WellFormed i c known w =
    settle-WellFormed (record i { status = WakeIntentStatus.dispatched }) refl c w known

Keeps-some :
    (i : WakeIntent) (r : Result TemporalCoordinator)
    → Returns WellFormed r
    → Keeps (r >>= λ trimmed. ok (some i, trimmed))
Keeps-some i (ok c) h = h
Keeps-some i key_error h = absurd h
Keeps-some i value_error h = absurd h
Keeps-some i overflow_error h = absurd h

cancelled_status-settled :
    (i : WakeIntent) (supersede : Bool)
    → is_pending (record i {
      status = if supersede then WakeIntentStatus.superseded else WakeIntentStatus.cancelled;
    })
      ≡ false
cancelled_status-settled i true = refl
cancelled_status-settled i false = refl

pub cancel-WellFormed :
    (id : String) (supersede : Bool) (c : TemporalCoordinator)
    → is_bounded_text 128 id ≡ true
    → WellFormed c
    → Keeps (cancel id supersede c)
unfolding cancel
cancel-WellFormed id supersede c b w =
    if_not-cases Keeps (is_bounded_text 128 id) _ _ (λ long. cc (b, long))
      (λ _. elim (Option-cases (Dict.get id c.intents)) [
        | inl absent ↦ rw absent w
        | inr (i, found) ↦
            let named = w.consistent.named id i found in
            rw found (
              if_not-cases Keeps (is_pending i) _ _ (λ _. w)
                (λ _. rw (← named) (
                  Keeps-some _ _ (
                    settle_then_trim _ (cancelled_status-settled i supersede) c w
                      (ap is_some (ap (λ k. Dict.get k c.intents) named ∙ found))))))
      ])
