-- ===== src/Temporal/Coordinator.antt =====
-- `TemporalCoordinator` of apps/runtime/src/lilavel_runtime/temporal.py. The listeners are
-- callbacks of other parts, whose exceptions are ignored: they are no state of the model.
use Prim.Native.String.{◌++◌ as ◌+++◌, slice}
use lilavel_runtime.Prelude.{
  ℕ, ◌+◌, min, String, Option, none, some, [], ◌&&◌, length, select, leb, ltb, if◌then◌else◌,
  String_Eq, or_else,
}
use lilavel_runtime.Prelude.Dict
use lilavel_runtime.Prelude.Dict.{Dict}
use lilavel_runtime.Prelude.Text.{is_bounded_text}
use lilavel_runtime.Temporal.Types.{
  TemporalProposal, Result, ok, overflow_error, ◌>>=◌, Digests, TemporalCoordinator, is_pending,
}

abbrev pub max_pending_wake_intents : ℕ
max_pending_wake_intents = 8

abbrev pub max_wake_history : ℕ
max_wake_history = 256

-- `__init__`, with nothing where it raises.
unfoldable pub temporal_coordinator : String → ℕ → ℕ → ℕ → String → Option TemporalCoordinator
temporal_coordinator scope minimum horizon capacity instance_id =
    if is_bounded_text 128 scope
      && is_bounded_text 128 instance_id
      && ltb 0 minimum
      && leb minimum horizon
      && ltb 0 capacity
      && leb capacity max_pending_wake_intents
    then some (record {
      scope_id = scope;
      minimum_delay = minimum;
      maximum_horizon = horizon;
      pending_capacity = capacity;
      runtime_instance_id = instance_id;
      next_sequence = 0;
      intents = [];
      dedup_keys = [];
    })
    else none

unfoldable pub pending_count : TemporalCoordinator → ℕ
pending_count c = length (select is_pending (Dict.values c.intents))

-- The last instant of a `datetime`, 9999-12-31T23:59:59.999999.
abbrev pub datetime_max : ℕ
datetime_max = 315537897599999999

-- An instant and a span of time added, which raises beyond the last instant.
unfoldable pub instant_after : ℕ → ℕ → Result ℕ
instant_after now delta =
    if leb (now + delta) datetime_max then ok (now + delta) else overflow_error

unfoldable pub normalize_deadline : TemporalCoordinator → ℕ → ℕ → Result ℕ
normalize_deadline c requested now = instant_after now c.minimum_delay >>= λ earliest.
    if leb requested earliest
    then ok earliest
    else (instant_after now c.maximum_horizon >>= λ latest. ok (min requested latest))

abbrev unit_separator : String
unit_separator = "\u{1f}"

unfoldable pub dedup_key : Digests → TemporalCoordinator → TemporalProposal → String
dedup_key h c p =
    h.hexdigest
      (c.scope_id +++ unit_separator +++ p.reason +++ unit_separator +++ or_else p.intention_ref "")

unfoldable pub wake_id : Digests → TemporalCoordinator → String → ℕ → String
wake_id h c key sequence =
    "wake:"
    +++ slice
        (h.hexdigest (
          c.runtime_instance_id
          +++ unit_separator
          +++ key
          +++ unit_separator
          +++ h.decimal sequence))
        0 32
