-- ===== src/Temporal/Admission.antt =====
-- `prepare`, `commit` and `apply` of `TemporalCoordinator`, and `_trim_history`.
use lilavel_runtime.Prelude.{
  ℕ, suc, ◌+◌, String, Bool, true, false, none, some, List, [], ◌∷◌, ◌++◌, not, ◌||◌, map, length,
  ltb, is_some, is_empty, contains, if◌then◌else◌, String_Eq,
}
use lilavel_runtime.Prelude.Dict
use lilavel_runtime.Prelude.Dict.{Dict}
use lilavel_runtime.Prelude.Text.{is_bounded_text}
use lilavel_runtime.Temporal.Types.{
  WakeIntentStatus, TemporalApplicationStatus, TemporalProposal, WakeIntent,
  TemporalProposalApplication, TemporalApplication, PreparedTemporalProposal, TemporalPreparation,
  prepared, rejection, Result, ok, key_error, value_error, ◌>>=◌, Digests, TemporalCoordinator,
  is_pending,
}
use lilavel_runtime.Temporal.Coordinator.{pending_count, normalize_deadline, dedup_key, wake_id}
use lilavel_runtime.Temporal.Trim.{trim_history}

-- `{key: wake_id for ... if pending}` over the items left, behind those read: the later one wins.
unfoldable pub existing_from :
    Dict String WakeIntent → Dict String String → Dict String String → Result (Dict String String)
existing_from intents [] existing = ok existing
existing_from intents ((w, key) ∷ rest) existing = elim (Dict.get w intents) [
  | none ↦ key_error
  | some i ↦ existing_from intents rest (if is_pending i then Dict.set key w existing else existing)
]

abbrev pub existing_by_key : TemporalCoordinator → Result (Dict String String)
existing_by_key c = existing_from c.intents c.dedup_keys []

-- The set of keys that have no pending wake.
unfoldable pub new_keys : Dict String String → List String → List String → List String
new_keys existing [] seen = seen
new_keys existing (key ∷ keys) seen =
    new_keys existing keys
      (if is_some (Dict.get key existing) || contains key seen then seen else seen ++ key ∷ [])

abbrev pub rejected_record : String → ℕ → TemporalProposalApplication
rejected_record reason index = record {
  proposal_index = index;
  status = TemporalApplicationStatus.rejected;
  wake_intent_id = none;
  reason_code = some reason;
}

-- `_rejection` and `_rejected_application`, given the indices of the proposals.
abbrev pub rejected_application : List ℕ → String → TemporalApplication
rejected_application indices reason = record {
  status = TemporalApplicationStatus.rejected;
  proposals = map (rejected_record reason) indices;
  reason_code = some reason;
}

abbrev pub indices_from {ℓ} : {A : Type ℓ} → ℕ → List A → List ℕ
indices_from n [] = []
indices_from n (_ ∷ xs) = n ∷ indices_from (suc n) xs

unfoldable pub normalized_from :
    Digests
    → TemporalCoordinator
    → ℕ
    → ℕ
    → List TemporalProposal
    → Result (List PreparedTemporalProposal)
normalized_from h c now index [] = ok []
normalized_from h c now index (p ∷ ps) = normalize_deadline c p.not_before now >>= λ deadline.
    normalized_from h c now (suc index) ps >>= λ items. ok (
      record {
        proposal_index = index;
        proposal = p;
        normalized_not_before = deadline;
        dedup_key = dedup_key h c p;
      }
      ∷ items)

abbrev pub keys_of : List PreparedTemporalProposal → List String
keys_of items = map (λ (i : PreparedTemporalProposal). i.dedup_key) items

-- The test that `prepare` and `commit` make before they admit.
abbrev pub exceeds_capacity : TemporalCoordinator → Dict String String → List String → Bool
exceeds_capacity c existing keys =
    ltb c.pending_capacity (pending_count c + length (new_keys existing keys []))

unfoldable pub prepare :
    Digests
    → TemporalCoordinator
    → ℕ
    → List TemporalProposal
    → String
    → String
    → Result TemporalPreparation
prepare h c now proposals episode trigger =
    if not (is_bounded_text 128 episode) || not (is_bounded_text 128 trigger)
    then value_error
    else if is_empty proposals
    then ok (prepared [])
    else if ltb 8 (length proposals)
    then ok (
        rejection
          (rejected_application (indices_from 0 proposals) "temporal_proposal_bound_exceeded"))
    else (existing_by_key c >>= λ existing. normalized_from h c now 0 proposals >>= λ items.
        if exceeds_capacity c existing (keys_of items)
        then ok
            (rejection (rejected_application (indices_from 0 proposals) "pending_wake_capacity"))
        else ok (prepared items))

-- One new wake of the loop of `commit`.
unfoldable pub admit_wake :
    String → String → String → PreparedTemporalProposal → TemporalCoordinator → TemporalCoordinator
admit_wake id episode trigger item c = record c {
  next_sequence = c.next_sequence + 1;
  intents =
      Dict.set id
        (record {
          wake_intent_id = id;
          scope_id = c.scope_id;
          reason = item.proposal.reason;
          not_before = item.normalized_not_before;
          source_episode_id = episode;
          source_trigger_id = trigger;
          intention_ref = item.proposal.intention_ref;
          sequence = c.next_sequence + 1;
          status = WakeIntentStatus.pending;
        })
        c.intents;
  dedup_keys = Dict.set id item.dedup_key c.dedup_keys;
}

-- The loop of `commit`.
unfoldable pub admit_items :
    Digests
    → String
    → String
    → List PreparedTemporalProposal
    → Dict String String
    → TemporalCoordinator
    → List TemporalProposalApplication × TemporalCoordinator
admit_items h episode trigger [] existing c = ([], c)
admit_items h episode trigger (item ∷ items) existing c =
    let id = wake_id h c item.dedup_key (c.next_sequence + 1) in
    elim (Dict.get item.dedup_key existing) [
      | some existing_id ↦
          let (records, c') = admit_items h episode trigger items existing c in
          (
            record {
              proposal_index = item.proposal_index;
              status = TemporalApplicationStatus.duplicate;
              wake_intent_id = some existing_id;
              reason_code = some "equivalent_wake_pending";
            }
                ∷ records,
            c',
          )
      | none ↦
          let (records, c') =
            admit_items h episode trigger items (Dict.set item.dedup_key id existing)
              (admit_wake id episode trigger item c) in
          (
            record {
              proposal_index = item.proposal_index;
              status = TemporalApplicationStatus.applied;
              wake_intent_id = some id;
              reason_code = none;
            }
                ∷ records,
            c',
          )
    ]

abbrev pub is_duplicate : TemporalProposalApplication → Bool
is_duplicate r = elim r.status [ TemporalApplicationStatus.duplicate ↦ true | _ ↦ false ]

abbrev pub all_duplicate : List TemporalProposalApplication → Bool
all_duplicate [] = true
all_duplicate (r ∷ rs) = if is_duplicate r then all_duplicate rs else false

-- The part of `commit` behind the keys of the pending wakes.
unfoldable pub commit_with :
    Digests
    → String
    → String
    → List PreparedTemporalProposal
    → TemporalCoordinator
    → Dict String String
    → Result (TemporalApplication × TemporalCoordinator)
commit_with h episode trigger items c existing =
    if exceeds_capacity c existing (keys_of items)
    then ok (
      rejected_application (map (λ (i : PreparedTemporalProposal). i.proposal_index) items)
          "pending_wake_capacity",
      c,
    )
    else (let (records, c') = admit_items h episode trigger items existing c in
        (trim_history c' >>= λ trimmed. ok (
          record {
            status =
                if all_duplicate records
                then TemporalApplicationStatus.duplicate
                else TemporalApplicationStatus.applied;
            proposals = records;
            reason_code = none;
          },
          trimmed,
        )))

unfoldable pub commit :
    Digests
    → TemporalPreparation
    → String
    → String
    → TemporalCoordinator
    → Result (TemporalApplication × TemporalCoordinator)
commit h (rejection r) episode trigger c = ok (r, c)
commit h (prepared []) episode trigger c = ok (
  record { status = TemporalApplicationStatus.not_requested; proposals = []; reason_code = none },
  c,
)
commit h (prepared (item ∷ items)) episode trigger c =
    if not (is_bounded_text 128 episode) || not (is_bounded_text 128 trigger)
    then value_error
    else (existing_by_key c >>= commit_with h episode trigger (item ∷ items) c)

-- `apply` at the coordinator's instant.
unfoldable pub apply :
    Digests
    → ℕ
    → List TemporalProposal
    → String
    → String
    → TemporalCoordinator
    → Result (TemporalApplication × TemporalCoordinator)
apply h now proposals episode trigger c =
    prepare h c now proposals episode trigger >>= λ p. commit h p episode trigger c
