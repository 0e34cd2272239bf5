-- ===== src/SemanticActor/Cancelled.antt =====
-- A request for cancellation is honoured, whatever the actor does afterwards.
use mathlib.Core.Path.{subst}
use lilavel_runtime.Prelude.{
  sym, ℕ, ◌≤◌, ◌≡◌, ◌≢◌, ◌⊎◌, refl, inl, inr, String, Bool, true, Option, none, some, List, [], ◌∷◌,
  arith, eqb, if-cases,
}
use lilavel_runtime.SemanticActor.Types.{
  SemanticEpisodeStatus, SemanticSettlement, ExecutorResult, Record, Cell, is_under_way,
  result_if_completed,
}
use lilavel_runtime.SemanticActor.State.{
  Worker, returning, Actor, set_cell, settle, settled_cell, settlement, resolve, reject, settle_all,
  reject_queued, request_cancellation, cancelled_cell,
}

-- No settlement with the status COMPLETED or with a result.
abbrev pub NotCompleted : Option SemanticSettlement → Type 0
NotCompleted none = Unit
NotCompleted (some s) = (s.status ≢ SemanticEpisodeStatus.completed) × (s.result ≡ none)

-- Asked to stop, and not completed.
abbrev pub Quiet : Cell → Type 0
Quiet c = (c.cancellation_requested ≡ true) × NotCompleted c.future

-- No outcome that completes a record is on its way from `_execute`.
abbrev pub NotCompleting : ℕ → Worker → Type 0
NotCompleting n (returning r x) =
    (r.episode.sequence ≢ n) ⊎ (x.status ≢ SemanticEpisodeStatus.completed)
NotCompleting n _ = Unit

-- The record with a sequence that was given out is asked to stop, not completed and not about to be.
abbrev pub Silenced : ℕ → Actor → Type 0
Silenced n a = (n ≤ a.next_episode_sequence) × Quiet (a.cells n) × NotCompleting n a.worker

pub set_cell-Silenced :
    (n m : ℕ) (c : Cell) (a : Actor)
    → (m ≡ n → Quiet (a.cells m) → Quiet c)
    → Silenced n a
    → Silenced n (set_cell m c a)
set_cell-Silenced n m c a f h = (
  h.0,
  if-cases Quiet (eqb m n) c (a.cells n)
      (λ same.
        let equal : m ≡ n = ground (arith, same) in
        f equal (subst (λ k. Quiet (a.cells k)) (sym equal) h.1))
      (λ _. h.1),
  h.2,
)

no_result :
    (status : SemanticEpisodeStatus) (result : Option ExecutorResult)
    → status ≢ SemanticEpisodeStatus.completed
    → result_if_completed status result ≡ none
no_result SemanticEpisodeStatus.queued result h = refl
no_result SemanticEpisodeStatus.active result h = refl
no_result SemanticEpisodeStatus.cancellation_requested result h = refl
no_result SemanticEpisodeStatus.completed result h = absurd (h refl)
no_result SemanticEpisodeStatus.cancelled result h = refl
no_result SemanticEpisodeStatus.failed result h = refl
no_result SemanticEpisodeStatus.rejected result h = refl
no_result SemanticEpisodeStatus.duplicate result h = refl

-- A future that is resolved keeps its settlement.
resolve-NotCompleted :
    (s : SemanticSettlement) (old : Option SemanticSettlement)
    → NotCompleted (some s)
    → NotCompleted old
    → NotCompleted (resolve s old)
resolve-NotCompleted s none h k = h
resolve-NotCompleted s (some old) h k = k

settled_cell-Quiet :
    (r : Record) (status : SemanticEpisodeStatus) (result : Option ExecutorResult)
    (reason_code : Option String) (c : Cell)
    → status ≢ SemanticEpisodeStatus.completed
    → Quiet c
    → Quiet (settled_cell status (settlement r status result reason_code) c)
settled_cell-Quiet r status result reason_code c other q =
    (q.0, resolve-NotCompleted _ c.future (other, no_result status result other) q.1)

pub settle-Silenced :
    (n : ℕ) (r : Record) (status : SemanticEpisodeStatus) (result : Option ExecutorResult)
    (reason_code : Option String) (a : Actor)
    → (r.episode.sequence ≢ n) ⊎ (status ≢ SemanticEpisodeStatus.completed)
    → Silenced n a
    → Silenced n (settle r status result reason_code a)
unfolding settle
settle-Silenced n r status result reason_code a (inl differs) h =
    set_cell-Silenced n r.episode.sequence _ a (λ same. absurd (differs same)) h
settle-Silenced n r status result reason_code a (inr other) h =
    set_cell-Silenced n r.episode.sequence _ a
      (λ _. settled_cell-Quiet r status result reason_code (a.cells r.episode.sequence) other) h

settle_all-Silenced :
    (n : ℕ) (reason : String) (rs : List Record) (a : Actor)
    → Silenced n a
    → Silenced n (settle_all reason rs a)
unfolding settle_all
settle_all-Silenced n reason [] a h = h
settle_all-Silenced n reason (r ∷ rs) a h =
    settle_all-Silenced n reason rs (reject reason r a)
      (settle-Silenced n r SemanticEpisodeStatus.cancelled none (some reason) a (inr (λ e. cc)) h)

pub reject_queued-Silenced :
    (n : ℕ) (reason : String) (a : Actor) → Silenced n a → Silenced n (reject_queued reason a)
unfolding reject_queued
reject_queued-Silenced n reason a h =
    settle_all-Silenced n reason a.non_user_queue _
      (settle_all-Silenced n reason a.user_queue (record a { user_queue = [] }) h)

pub request_cancellation-Silenced :
    (n : ℕ) (r : Record) (preempted : Bool) (reason : String) (a : Actor)
    → Silenced n a
    → Silenced n (request_cancellation r preempted reason a)
unfolding request_cancellation cancelled_cell
request_cancellation-Silenced n r preempted reason a h =
    let m = r.episode.sequence in
    let asked =
      set_cell-Silenced n m (cancelled_cell preempted (a.cells m)) a (λ _ q. (refl, q.1)) h in
    if-cases (Silenced n) (is_under_way (a.cells m).status) _ _ (λ _. asked) (λ _. asked)
