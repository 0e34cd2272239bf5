-- ===== src/SemanticActor/Admission.antt =====
-- `create_request` and `admit`.
pub mod Cases
use lilavel_runtime.Prelude.{
  ℕ, suc, ◌+◌, String, Bool, true, false, not, ◌&&◌, Option, none, some, List, [], ◌∷◌, ◌++◌, leb,
  ◌==◌, if◌then◌else◌, length, or_else, String_Eq, Pair_Eq,
}
use lilavel_runtime.Prelude.Dict
use lilavel_runtime.SemanticActor.Types.{
  SemanticActorState, SemanticSourceKind, SemanticPriority, SemanticEpisodeStatus,
  SemanticAdmissionStatus, SemanticEpisodeRequest, SemanticEpisode, SemanticSettlement,
  SettlementFuture, SemanticAdmission, AdmitResult, receipt, mailbox_full, Record, fresh_cell,
  is_user, is_non_user,
}
use lilavel_runtime.SemanticActor.State.{
  Actor, queued_count, key_of, set_cell, record_request_evidence,
  record_request_evidence_from_request, request_cancellation,
}

-- `create_request`, without the constructor's own tests.
unfoldable pub create_request :
    String
    → SemanticSourceKind
    → SemanticPriority
    → Option String
    → Actor
    → SemanticEpisodeRequest × Actor
create_request request_id source_kind priority scope_id a = (
  record {
    request_id = request_id;
    source_kind = source_kind;
    priority = priority;
    scope_id = or_else scope_id a.scope_id;
    actor_session_id = a.session_id;
    request_sequence = a.next_request_sequence + 1;
  },
  record a { next_request_sequence = a.next_request_sequence + 1 },
)

unfoldable pub rejected_admission : SemanticEpisodeRequest → String → Actor → AdmitResult × Actor
unfolding record_request_evidence_from_request
rejected_admission r reason_code a = (
  receipt (record {
    request_id = r.request_id;
    sequence = 0;
    status = SemanticAdmissionStatus.rejected;
    reason_code = some reason_code;
    settlement_future = SettlementFuture.resolved (record {
      request_id = r.request_id;
      sequence = 0;
      status = SemanticEpisodeStatus.rejected;
      reason_code = some reason_code;
      result = none;
    });
    episode = none;
  }),
  record_request_evidence_from_request r SemanticEpisodeStatus.rejected 0 (some reason_code) a,
)

unfoldable pub duplicate_in_flight : SemanticEpisodeRequest → Record → Actor → AdmitResult × Actor
unfolding record_request_evidence
duplicate_in_flight r existing a = (
  receipt (record {
    request_id = r.request_id;
    sequence = existing.episode.sequence;
    status = SemanticAdmissionStatus.duplicate;
    reason_code = some "request_already_admitted";
    settlement_future = SettlementFuture.of_record existing.episode.sequence;
    episode = some existing.episode;
  }),
  record_request_evidence existing SemanticEpisodeStatus.duplicate (some "request_already_admitted")
      a,
)

unfoldable pub duplicate_settled :
    SemanticEpisodeRequest → SemanticSettlement → Actor → AdmitResult × Actor
unfolding record_request_evidence_from_request
duplicate_settled r settled a = (
  receipt (record {
    request_id = r.request_id;
    sequence = settled.sequence;
    status = SemanticAdmissionStatus.duplicate;
    reason_code = some "request_already_settled";
    settlement_future = SettlementFuture.resolved settled;
    episode = none;
  }),
  record_request_evidence_from_request r SemanticEpisodeStatus.duplicate settled.sequence
      (some "request_already_settled") a,
)

-- The record that `admit` makes for an accepted request.
abbrev pub new_record : SemanticEpisodeRequest → ℕ → Record
new_record r n = record {
  request = r;
  episode = record {
    request_id = r.request_id;
    sequence = n;
    source_kind = r.source_kind;
    priority = r.priority;
    scope_id = r.scope_id;
    actor_session_id = r.actor_session_id;
  };
}

-- The record enters the fence and its lane.
unfoldable pub enqueue : Record → Actor → Actor
unfolding record_request_evidence
enqueue r a =
    let a' = set_cell r.episode.sequence fresh_cell a in
    let b = record a' {
      next_episode_sequence = r.episode.sequence;
      in_flight = Dict.set (key_of r.request) r a.in_flight;
      user_queue = if is_user r.request.priority then a.user_queue ++ r ∷ [] else a.user_queue;
      non_user_queue =
          if is_user r.request.priority then a.non_user_queue else a.non_user_queue ++ r ∷ [];
    } in
    record_request_evidence r SemanticEpisodeStatus.queued none b

-- User work asks the non-user episode under way to stop.
unfoldable pub preempt : SemanticEpisodeRequest → Actor → Actor
unfolding request_cancellation
preempt r a = elim a.active [
  | none ↦ a
  | some active ↦
      if is_user r.priority && is_non_user active.request.priority
      then request_cancellation active true "user_priority" a
      else a
]

unfoldable pub accept : SemanticEpisodeRequest → Actor → AdmitResult × Actor
accept r a =
    let n = a.next_episode_sequence + 1 in
    let a' = preempt r (enqueue (new_record r n) a) in
    (
      receipt (record {
        request_id = r.request_id;
        sequence = n;
        status = SemanticAdmissionStatus.accepted;
        reason_code = none;
        settlement_future = SettlementFuture.of_record n;
        episode = some ((new_record r n).episode);
      }),
      record a' { wake = true },
    )

abbrev pub is_poisoned : SemanticActorState → Bool
is_poisoned SemanticActorState.poisoned = true
is_poisoned _ = false

abbrev pub is_running : SemanticActorState → Bool
is_running SemanticActorState.running = true
is_running _ = false

-- The guards behind the two fences.
unfoldable pub admit_new : SemanticEpisodeRequest → Actor → AdmitResult × Actor
admit_new r a =
    if not (r.scope_id == a.scope_id)
    then rejected_admission r "scope_mismatch" a
    else if not (r.actor_session_id == a.session_id)
    then rejected_admission r "actor_session_mismatch" a
    else if is_poisoned a.state
    then rejected_admission r "actor_poisoned" a
    else if not (is_running a.state)
    then rejected_admission r "actor_not_running" a
    else if leb a.fence_capacity (length a.settled + length a.in_flight)
    then rejected_admission r "fence_capacity" a
    else if leb a.mailbox_capacity (queued_count a)
    then (mailbox_full, a)
    else accept r a

unfoldable pub admit : SemanticEpisodeRequest → Actor → AdmitResult × Actor
admit r a = elim (Dict.get (key_of r) a.in_flight) [
  | some existing ↦ duplicate_in_flight r existing a
  | none ↦ elim (Dict.get (key_of r) a.settled) [
    | some settled ↦ duplicate_settled r settled a
    | none ↦ admit_new r a
  ]
]
