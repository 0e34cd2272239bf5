-- ===== src/Temporal/Trim.antt =====
-- `_trim_history` of `TemporalCoordinator`.
use lilavel_runtime.Prelude.{
  String, true, false, [], ◌∷◌, length, leb, is_some, if◌then◌else◌, String_Eq,
}
use lilavel_runtime.Prelude.Dict
use lilavel_runtime.Prelude.Dict.{Dict}
use lilavel_runtime.Temporal.Types.{
  WakeIntent, Result, ok, key_error, ◌>>=◌, TemporalCoordinator, is_pending,
}
use lilavel_runtime.Temporal.Coordinator.{max_wake_history}

-- `del d[k]`
unfoldable pub delete {ℓ} : {V : Type ℓ} → String → Dict String V → Result (Dict String V)
delete k d = if is_some (Dict.get k d) then ok (Dict.pop k d) else key_error

-- The loop of `_trim_history` over the items left of the snapshot.
unfoldable pub trim_from :
    Dict String WakeIntent
    → Dict String WakeIntent
    → Dict String String
    → Result (Dict String WakeIntent × Dict String String)
trim_from [] intents keys = ok (intents, keys)
trim_from ((w, i) ∷ rest) intents keys = elim (is_pending i) [
  | true ↦ trim_from rest intents keys
  | false ↦ delete w intents >>= λ intents'. delete w keys >>= λ keys'.
      elim (leb (length intents') max_wake_history) [
        | true ↦ ok (intents', keys')
        | false ↦ trim_from rest intents' keys'
      ]
]

unfoldable pub trim_history : TemporalCoordinator → Result TemporalCoordinator
trim_history c =
    if leb (length c.intents) max_wake_history
    then ok c
    else (trim_from c.intents c.intents c.dedup_keys
        >>= λ (p : Dict String WakeIntent × Dict String String).
            ok (record c { intents = p.0; dedup_keys = p.1 }))
