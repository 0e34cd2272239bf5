-- ===== src/SemanticActor/Fence/Operations.antt =====
-- How each method moves records between the two fences.
use lilavel_runtime.Prelude.{
  ◌+◌, ◌≤◌, ◌≡◌, refl, sym, ap, ◌∙◌, String, Option, none, some, List, [], ◌∷◌, ◌++◌, ◌==◌, length,
  arith, Pair_Eq, All, All-append, inl, inr, Bool-cases,
}
use lilavel_runtime.Prelude.Dict
use lilavel_runtime.Prelude.Dict.{Dict, Distinct}
use lilavel_runtime.SemanticActor.Types.{
  SemanticEpisodeStatus, ExecutorResult, SemanticSettlement, Record,
}
use lilavel_runtime.SemanticActor.State.{Actor, Key, settle, settle_all, reject_queued}
use lilavel_runtime.SemanticActor.Fenced.{Fenced, record_key, Fenced-get, Fenced-pop, Fenced-last}

abbrev pub InSession : String → Record → Type 0
InSession session r = r.request.actor_session_id ≡ session

-- `rs` are the records in flight: the in-flight fence holds them and no other, the settled fence
-- holds none of them, both are of the current session, and together they are within capacity.
pub record FenceOf (rs : List Record) (a : Actor) : Type 0 where
  pub distinct : Distinct a.in_flight
  pub fenced : Fenced rs a.in_flight
  pub disjoint :
      (k : Key) (r : Record) → Dict.get k a.in_flight ≡ some r → Dict.get k a.settled ≡ none
  pub settled_session :
      (k : Key) (s : SemanticSettlement) → Dict.get k a.settled ≡ some s → k.0 ≡ a.session_id
  pub sessions : All (InSession a.session_id) rs
  pub within : length a.settled + length a.in_flight ≤ a.fence_capacity

All-middle :
    (P : Record → Type 0) (xs ys : List Record) (r : Record)
    → All P (xs ++ r ∷ ys)
    → P r × All P (xs ++ ys)
All-middle P [] ys r h = h
All-middle P (x ∷ xs) ys r h = let rest = All-middle P xs ys r h.1 in (rest.0, (h.0, rest.1))

-- A settled record leaves the one fence and enters the other.
pub settle-FenceOf :
    (xs ys : List Record) (r : Record) (status : SemanticEpisodeStatus)
    (result : Option ExecutorResult) (reason : Option String) (a : Actor)
    → FenceOf (xs ++ r ∷ ys) a
    → FenceOf (xs ++ ys) (settle r status result reason a)
unfolding settle
settle-FenceOf xs ys r status result reason a h =
    let here = Fenced-get xs ys r a.in_flight h.distinct h.fenced in
    let middle = All-middle (InSession a.session_id) xs ys r h.sessions in
    record {
      distinct = Dict.Distinct-pop (record_key r) a.in_flight h.distinct;
      fenced = Fenced-pop xs ys r a.in_flight h.distinct h.fenced;
      disjoint = λ k x e. disjoint k x e;
      settled_session = λ k s e. ground (
        arith,
        Dict.get-set (record_key r) k (settled_as r) a.settled,
        h.settled_session k s,
        Pair_Eq.same_iff (record_key r) k,
        middle.0,
      );
      sessions = middle.1;
      within = omega (
        arith,
        Dict.length-pop (record_key r) r a.in_flight here,
        Dict.length-set-le (record_key r) (settled_as r) a.settled,
        h.within,
      );
    }
  where
    settled_as : Record → SemanticSettlement
    settled_as x = record {
      request_id = x.request.request_id;
      sequence = x.episode.sequence;
      status = status;
      reason_code = reason;
      result = none;
    }

    disjoint :
        (k : Key) (x : Record)
        → Dict.get k (Dict.pop (record_key r) a.in_flight) ≡ some x
        → Dict.get k (Dict.set (record_key r) (settled_as r) a.settled) ≡ none
    disjoint k x e = elim (Bool-cases (record_key r == k)) [
      | inl same ↦ cc (
        (Pair_Eq.same_iff (record_key r) k).0 same,
        Dict.get-pop_self (record_key r) a.in_flight h.distinct,
        e,
      )
      | inr other ↦
          rw (Dict.get-set (record_key r) k (settled_as r) a.settled, other)
            (h.disjoint k x (sym (Dict.get-pop_ne (record_key r) k a.in_flight other) ∙ e))
    ]

pub settle_all-FenceOf :
    (reason : String) (rs ys : List Record) (a : Actor)
    → FenceOf (rs ++ ys) a
    → FenceOf ys (settle_all reason rs a)
unfolding settle_all
settle_all-FenceOf reason [] ys a h = h
settle_all-FenceOf reason (r ∷ rs) ys a h =
    settle_all-FenceOf reason rs ys _ (settle-FenceOf [] (rs ++ ys) r _ _ _ a h)

-- The fences do not depend on the other fields.
pub FenceOf-transfer :
    {rs : List Record} (a b : Actor)
    → b.in_flight ≡ a.in_flight
    → b.settled ≡ a.settled
    → b.session_id ≡ a.session_id
    → b.fence_capacity ≡ a.fence_capacity
    → FenceOf rs a
    → FenceOf rs b
FenceOf-transfer {rs} a b i s n c h = record {
  distinct = rw i h.distinct;
  fenced = rw i h.fenced;
  disjoint = λ k r e. rw s (h.disjoint k r (rw i at e));
  settled_session = λ k x e. rw n (h.settled_session k x (rw s at e));
  sessions = rw n h.sessions;
  within = omega (
    arith,
    ap (length {A = Key × Record}) i,
    ap (length {A = Key × SemanticSettlement}) s,
    c,
    h.within,
  );
}

pub reject_queued-FenceOf :
    (reason : String) (ys : List Record) (a : Actor)
    → FenceOf (a.user_queue ++ (a.non_user_queue ++ ys)) a
    → FenceOf ys (reject_queued reason a)
unfolding reject_queued
reject_queued-FenceOf reason ys a h =
    let users = FenceOf-transfer a (record a { user_queue = [] }) refl refl refl refl h in
    let b = settle_all reason a.user_queue (record a { user_queue = [] }) in
    let others = settle_all-FenceOf reason a.user_queue (a.non_user_queue ++ ys) _ users in
    settle_all-FenceOf reason a.non_user_queue ys _
      (FenceOf-transfer b (record b { non_user_queue = [] }) refl refl refl refl others)

-- A record leaves its lane and is put last, as the active one.
pub FenceOf-last :
    (xs ys : List Record) (r : Record) (a : Actor)
    → FenceOf (xs ++ r ∷ ys) a
    → FenceOf ((xs ++ ys) ++ r ∷ []) a
FenceOf-last xs ys r a h =
    let middle = All-middle (InSession a.session_id) xs ys r h.sessions in
    record {
      distinct = h.distinct;
      fenced =
          Fenced-last (xs ++ ys) r a.in_flight h.distinct
            (Fenced-get xs ys r a.in_flight h.distinct h.fenced)
            (Fenced-pop xs ys r a.in_flight h.distinct h.fenced);
      disjoint = h.disjoint;
      settled_session = h.settled_session;
      sessions = All-append _ (xs ++ ys) (r ∷ []) middle.1 (middle.0, tt);
      within = h.within;
    }
