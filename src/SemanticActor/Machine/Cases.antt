-- ===== src/SemanticActor/Machine/Cases.antt =====
-- The ways in which an event can change the actor, as a rule for invariants.
use mathlib.Core.Path.{subst}
use lilavel_runtime.Prelude.{
  ℕ, ◌≡◌, ◌≢◌, refl, Bool-cases, ◌⊎◌, inl, inr, String, Bool, true, false, ◌||◌, Option, none, some,
  arith, if◌then◌else◌,
}
use lilavel_runtime.SemanticActor.Types.{
  Execution, SemanticSourceKind, SemanticPriority, SemanticEpisodeStatus, SemanticEpisodeRequest,
  Record,
}
use lilavel_runtime.SemanticActor.State.{
  Actor, Worker, absent, ready, asleep, executing, in_grace, joining, joining_cancelled, returning,
  done, worker_record, reject_queued,
}
use lilavel_runtime.SemanticActor.Admission.{create_request, admit, is_running, is_poisoned}
use lilavel_runtime.SemanticActor.Worker.{
  ExecutorOutcome, returned, was_cancelled, raised, JoinOutcome, joined, join_timed_out,
  join_uncontained, execution_result, grace_result, join_result, ended, timed_out, is_stopping,
  note_uncontained, loop_head, finish, begin_grace, begin_cancelled_join, begin_return,
}
use lilavel_runtime.SemanticActor.Machine.{
  Event, issues, starts, admits, worker_runs, worker_wakes, execution_ends, cancellation_wins,
  grace_ends, join_ends, worker_is_cancelled, uncontained_ends, stop_begins, stop_ends,
  stop_times_out, start, stop, end_stop, end_stop_late, cancel_worker, uncontained_done, abandon,
  execution_returns, worker_step, step,
}

-- No episode whose cancellation was requested is completed.
abbrev pub HonoursRequest : Record → Execution → Actor → Type 0
HonoursRequest r x a =
    ((a.cells r.episode.sequence).cancellation_requested ≡ false)
    ⊎ (x.status ≢ SemanticEpisodeStatus.completed)

execution-HonoursRequest :
    (r : Record) (o : ExecutorOutcome) (a : Actor)
    → HonoursRequest r (execution_result (a.cells r.episode.sequence).cancellation_requested o) a
unfolding execution_result
execution-HonoursRequest r (returned result) a =
    elim (Bool-cases (a.cells r.episode.sequence).cancellation_requested) [
      | inl asked ↦ inr (rw asked (λ e. cc))
      | inr free ↦ inl free
    ]
execution-HonoursRequest r was_cancelled a = inr (λ e. cc)
execution-HonoursRequest r (raised true) a = inr (λ e. cc)
execution-HonoursRequest r (raised false) a = inr (λ e. cc)

grace-HonoursRequest :
    (r : Record) (o : ExecutorOutcome) (a : Actor) → HonoursRequest r (grace_result o) a
unfolding grace_result
grace-HonoursRequest r (returned result) a = inr (λ e. cc)
grace-HonoursRequest r was_cancelled a = inr (λ e. cc)
grace-HonoursRequest r (raised true) a = inr (λ e. cc)
grace-HonoursRequest r (raised false) a = inr (λ e. cc)

join-HonoursRequest :
    (r : Record) (reason : String) (o : JoinOutcome) (a : Actor)
    → HonoursRequest r (join_result reason o) a
unfolding join_result
join-HonoursRequest r reason joined a = inr (λ e. cc)
join-HonoursRequest r reason join_timed_out a = inr (λ e. cc)
join-HonoursRequest r reason join_uncontained a = inr (λ e. cc)

pub record StepCases {ℓ} (P : Actor → Type ℓ) (a : Actor) : Type ℓ where
  pub unchanged : P a
  pub issues :
      (id : String) (source : SemanticSourceKind) (priority : SemanticPriority)
      (scope : Option String)
      → P (create_request id source priority scope a).1
  pub starts : P (start a)
  pub admits : (r : SemanticEpisodeRequest) → P (admit r a).1
  pub uncontained_ends : (n : ℕ) → P (uncontained_done n a)
  pub stop_begins : P (stop a).1
  pub stop_ends : (was_poisoned : Bool) → a.worker ≡ done → P (end_stop was_poisoned a).1
  pub stop_late : a.worker ≡ done → P (end_stop_late a).1
  pub head : (a.worker ≡ ready) ⊎ (a.worker ≡ asleep) → P (loop_head a)
  pub returns :
      (r : Record) (x : Execution)
      → worker_record a.worker ≡ some r
      → HonoursRequest r x a
      → P (begin_return r x a)
  pub finishes :
      (fresh : String) (r : Record) (x : Execution)
      → a.worker ≡ returning r x
      → P (finish fresh r x a)
  pub joins :
      (r : Record) (o : JoinOutcome) (x : Execution)
      → worker_record a.worker ≡ some r
      → HonoursRequest r x a
      → P (begin_return r x (note_uncontained o r a))
  pub grace :
      (r : Record)
      → a.worker ≡ executing r
      → (a.cells r.episode.sequence).token_requested ≡ true
      → P (begin_grace r a)
  pub grace_over : (r : Record) → a.worker ≡ in_grace r → P (record a { worker = joining r })
  pub cancelled_early :
      is_running a.state ≡ false → a.worker ≡ ready → P (record a { worker = done })
  pub cancelled_asleep :
      is_running a.state ≡ false
      → a.worker ≡ asleep
      → P (let b = reject_queued "actor_shutdown" a in record b { worker = done })
  pub cancelled_join :
      (r : Record)
      → is_running a.state ≡ false
      → a.worker ≡ executing r
      → P (begin_cancelled_join r a)
  pub cancelled_return :
      (r : Record) (x : Execution)
      → is_running a.state ≡ false
      → a.worker ≡ returning r x
      → P (abandon r a)

module _ {ℓ} (P : Actor → Type ℓ) (a : Actor) (c : StepCases P a) where
  to : (x b : Actor) → P x → some x ≡ some b → P b
  to x b h e = subst P (cc) h

  if_to : (t : Bool) (x b : Actor) → (t ≡ true → P x) → (if t then some x else none) ≡ some b → P b
  if_to true x b h e = to x b (h refl) e
  if_to false x b h e = cc

  worker_cases :
      (e : Event) (b : Actor) (w : Worker) → a.worker ≡ w → worker_step e a w ≡ some b → P b
  unfolding worker_step
  worker_cases worker_runs b ready q = to _ b (c.head (inl q))
  worker_cases worker_wakes b asleep q = if_to a.wake _ b (λ _. c.head (inr q))
  worker_cases (execution_ends o) b (executing r) q =
      to _ b (c.returns r _ (rw q) (execution-HonoursRequest r o a))
  worker_cases cancellation_wins b (executing r) q = if_to _ _ b (c.grace r q)
  worker_cases (grace_ends (ended o)) b (in_grace r) q =
      to _ b (c.returns r _ (rw q) (grace-HonoursRequest r o a))
  worker_cases (grace_ends timed_out) b (in_grace r) q = to _ b (c.grace_over r q)
  worker_cases (join_ends o) b (joining r) q =
      to _ b (c.joins r o _ (rw q) (join-HonoursRequest r "cancelled" o a))
  worker_cases (join_ends o) b (joining_cancelled r) q =
      to _ b (c.joins r o _ (rw q) (join-HonoursRequest r "worker_cancelled" o a))
  worker_cases (execution_returns f) b (returning r x) q = to _ b (c.finishes f r x q)
  worker_cases (stop_ends was) b done q = to _ b (c.stop_ends was q)
  worker_cases stop_times_out b done q = to _ b (c.stop_late q)
  worker_cases _ b _ q = λ e. cc

  cancel_cases : (w : Worker) → a.worker ≡ w → is_running a.state ≡ false → P (cancel_worker a w)
  unfolding cancel_worker
  cancel_cases absent q s = c.unchanged
  cancel_cases ready q s = c.cancelled_early s q
  cancel_cases asleep q s = c.cancelled_asleep s q
  cancel_cases (executing r) q s = c.cancelled_join r s q
  cancel_cases (in_grace r) q s = c.returns r _ (rw q) (inr (λ e. cc))
  cancel_cases (joining r) q s = c.returns r _ (rw q) (inr (λ e. cc))
  cancel_cases (joining_cancelled r) q s = c.returns r _ (rw q) (inr (λ e. cc))
  cancel_cases (returning r x) q s = c.cancelled_return r x s q
  cancel_cases done q s = c.unchanged

  pub step_cases : (e : Event) (b : Actor) → step e a ≡ some b → P b
  unfolding step
  step_cases (issues id source priority scope) b = to _ b (c.issues id source priority scope)
  step_cases starts b = to _ b c.starts
  step_cases (admits r) b = to _ b (c.admits r)
  step_cases worker_is_cancelled b =
      if_to (is_stopping a.state || is_poisoned a.state) _ b
        (λ h. cancel_cases a.worker refl (ground arith))
  step_cases (uncontained_ends n) b = to _ b (c.uncontained_ends n)
  step_cases stop_begins b = to _ b c.stop_begins
  step_cases e b = worker_cases e b a.worker refl
