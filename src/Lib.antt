-- ===== src/Lib.antt =====
-- LilavelRuntime: a verification library beside the persistent agent runtime.
--
-- The runtime (apps/runtime/src/lilavel_runtime) is an asyncio process. Perceptions and timers
-- become semantic episode requests; one semantic actor executes them, one at a time, user work
-- first; what an episode wants to say or to remember passes small deterministic components that
-- hold the policy. This library models those components.
--
-- Prelude: Boolean tests on the native numbers, equality as an instance, lists, dictionaries that
-- keep insertion order (Prelude.Dict, as Python's; Prelude.Entries for two beside one another), text
-- bounds (Prelude.Text).
--
-- SemanticActor: apps/runtime/src/lilavel_runtime/semantic_actor.py.
--   Types and State hold the data: an `Actor` is the object's attributes, with the worker task, the
--   active record and the clock of each await made explicit. Admission is `admit` and
--   `create_request`, Worker is `_run`, `_execute` and `_execution_result`, Machine is `start`,
--   `stop`, the done callbacks and the events of the event loop: between two awaits the code runs
--   without interruption, so every event is one such stretch and `step` gives the state after it, or
--   nothing where the event cannot happen. `Reach` is any sequence of events. The executor is
--   code of the caller: what it returns or raises, and whether it ends in the grace period or in
--   the bounded join, is part of the event; what `_execute` returns waits in its `finally` for an event
--   of its own. Fenced, Frame, Lifecycle, Fence and Priority prove the
--   invariants, Cancelled, Silenced and Honoured follow a request for cancellation, Guarantees and
--   AdmissionContract state what they give.
--
-- Intervention: apps/runtime/src/lilavel_runtime/intervention.py, with the two enums it takes from
-- apps/core/src/lilavel_core/cognition.py.
--   Reasons and Types hold the enums, the records and the checks their constructors make, Policy is
--   `FreshnessPolicy.allows`, `_bounded_reasons` and `DeterministicInterventionPolicy.evaluate`,
--   Accounting is `SpeechAccounting`. Bounded, Permission and Budget prove what they promise. The
--   freshness profiles cover every class, so they are a function.
--
-- Mind: apps/runtime/src/lilavel_runtime/mind.py.
--   State holds `MindState` and its operations, Room is how a place is made for an intention, Batches,
--   Marking and Invariant state what `apply_deltas`, `mark_expressed` and all calls promise.
--
-- UserDisposition: apps/runtime/src/lilavel_runtime/user_disposition.py, with the resolution it
-- records, of apps/core/src/lilavel_core/cognition.py.
--   Types holds the resolution and its checks, Resolver is `UserDispositionResolver.resolve`, whose
--   policy, planner, clock and cancellation token are the `Turn`, Recording and Fallback state what
--   it promises.
--
-- Temporal: apps/runtime/src/lilavel_runtime/temporal.py.
--   Types, Coordinator, Admission, Trim and Dispatch hold `TemporalCoordinator`: `prepare`, `commit` and
--   `apply`, `cancel`, `poll_due` and `next_deadline`. An exception is a value of `Result`; `poll_due`
--   also gives the state that it leaves when it raises. sha256 is a parameter, and a digest that
--   occurs twice is no exception. Invariant and Entries say what a well-formed coordinator is;
--   History, Existing, Admit, Commit, Apply, Settle and Due carry it through each operation, Calls
--   through all of them. An instant beyond the last `datetime` is an OverflowError of `apply`. Accept is about `prepare` and `commit` together, Cancel about `cancel`, and Fire,
--   Order, Deadline and Collision are about what `poll_due` returns.
--
-- Attention: apps/runtime/src/lilavel_runtime/attention.py, with the trigger's checks of contracts.py.
--   Types holds the signals, evidence and verdicts, Policy is the extractor and
--   `DeterministicAttentionPolicy`, Gate is `evaluate` and `decide` of the gate, whose dictionary and
--   loops are the code's. Verdicts and Direct are about one observation; Signals, Reason, Collect,
--   Chosen and Thinks carry the bound on a trigger's reason and the choice of identifiers to Decide.
--
-- DiscordText: apps/discord-adapter/src/lilavel_discord_edge/semantic.py, and
-- `split_discord_content` of transport.py.
--   A text is its code points. Boundaries scans for places to cut, Split cuts a text into messages,
--   Select chooses how much of a growing text to show, Markdown closes the delimiters of a preview;
--   Cuts, SplitLaws, Total, SelectLaws, Best and Repair state what they promise. What the regex package and
--   Python's character tables give is a parameter.
--
-- A future is a number, since a future is only ever awaited or resolved: `resolved` settlements are
-- kept with the record's sequence number. Identifiers of sessions that uuid4 makes are arguments.
-- `_run`'s endless loop is cut at its awaits. The loops that cut a text run on fuel: each turn moves
-- the start ahead, so as many turns as the text has characters are enough.
--
-- Not modelled: an error that asyncio itself raises in `_execute`, which alone leads to the last
-- handler of `_run` with an active record. Python's type checks of arguments (the types say it),
-- logging and the coroutines' own suspension; input and output, the command line, evaluation scripts and the model sidecar.
pub mod Prelude
pub mod SemanticActor
pub mod Intervention
pub mod Mind
pub mod UserDisposition
pub mod Temporal
pub mod DiscordText
pub mod Attention
