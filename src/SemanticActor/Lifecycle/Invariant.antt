-- ===== src/SemanticActor/Lifecycle/Invariant.antt =====
-- The lifecycle invariant: what each state says of the worker, the lanes and the failure.
use lilavel_runtime.Prelude.{ℕ, ◌≤◌, ◌≡◌, String, Bool, true, false, none, [], arith, is_some}
use lilavel_runtime.SemanticActor.Types.{SemanticActorState}
use lilavel_runtime.SemanticActor.State.{Actor, Worker, worker_record, absent, done, init}
use lilavel_runtime.SemanticActor.Admission.{is_running}

abbrev pub is_at_rest : Worker → Bool
is_at_rest absent = true
is_at_rest done = true
is_at_rest _ = false

-- The states of an actor whose worker has been started and may still run.
abbrev pub is_started : SemanticActorState → Bool
is_started SemanticActorState.running = true
is_started SemanticActorState.stopping = true
is_started SemanticActorState.poisoned = true
is_started _ = false

-- What holds also between the end of an episode and the next head of the loop.
pub record Sound (a : Actor) : Type 0 where
  pub closed : is_running a.state ≡ false → (a.user_queue ≡ []) × (a.non_user_queue ≡ [])
  pub failure_told : a.failure_event ≡ is_some a.failure
  pub poisoned_failed : a.state ≡ SemanticActorState.poisoned → is_some a.failure ≡ true
  pub failed_poisoned : is_some a.failure ≡ true → a.state ≡ SemanticActorState.poisoned
  pub one_active : a.max_active ≤ 1

pub record Lifecycle (a : Actor) : Type 0 where
  pub sound : Sound a
  pub coherent : a.active ≡ worker_record a.worker
  pub alive : is_at_rest a.worker ≡ false → is_started a.state ≡ true
  pub at_rest : is_at_rest a.worker ≡ true → is_running a.state ≡ false
  pub unfailed : is_at_rest a.worker ≡ false → a.failure ≡ none
  pub unborn : a.state ≡ SemanticActorState.new → (a.worker ≡ absent) × (a.failure ≡ none)

-- The head of the loop: no record is active, and the worker has been started.
pub record AtHead (a : Actor) : Type 0 where
  pub sound : Sound a
  pub idle : a.active ≡ none
  pub started : is_started a.state ≡ true
  pub unfailed : a.failure ≡ none

pub init-Lifecycle : (scope session : String) (m f e : ℕ) → Lifecycle (init scope session m f e)
unfolding init
init-Lifecycle scope session m f e = ground arith
