-- ===== src/Temporal/Existing.antt =====
-- `existing_by_key` of `commit`: it raises nothing, and has the key of every pending wake; and the
-- wakes that the loop of `commit` adds, against the set of new keys that it counted.
use lilavel_runtime.Prelude.{
  ◌+◌, ◌≤◌, ◌≡◌, sym, ap, ◌∙◌, ◌⊎◌, inl, inr, String, true, some, List, [], ◌∷◌, ◌++◌, ◌||◌, arith,
  length, length-append, is_some, contains, contains-append, if◌then◌else◌, String_Eq, ◌==◌,
  Bool-cases, Option-cases,
}
use lilavel_runtime.Prelude.Dict
use lilavel_runtime.Prelude.Dict.{Dict}
use lilavel_runtime.Prelude.Entries.{count-set, Present}
use lilavel_runtime.Temporal.Types.{
  WakeIntent, PreparedTemporalProposal, Result, ok, key_error, value_error, overflow_error,
  TemporalCoordinator, Digests, is_pending,
}
use lilavel_runtime.Temporal.Coordinator.{pending_count, wake_id}
use lilavel_runtime.Temporal.Admission.{existing_from, new_keys, admit_wake, admit_items, keys_of}
use lilavel_runtime.Temporal.Invariant.{Returns}

-- Every pending wake's key is among the keys of `existing`.
abbrev pub Covers : Dict String WakeIntent → Dict String String → Dict String String → Type 0
Covers intents keys existing =
    (w key : String) (i : WakeIntent)
    → Dict.get w keys ≡ some key
    → Dict.get w intents ≡ some i
    → is_pending i ≡ true
    → is_some (Dict.get key existing) ≡ true

-- Every key of the first is a key of the second.
abbrev Keeps : Dict String String → Dict String String → Type 0
Keeps old new =
    (key : String) → is_some (Dict.get key old) ≡ true → is_some (Dict.get key new) ≡ true

pub is_some-get-set :
    (k j v : String) (d : Dict String String)
    → is_some (Dict.get j (Dict.set k v d)) ≡ (k == j || is_some (Dict.get j d))
is_some-get-set k j v d = ground (arith, Dict.get-set k j v d)

abbrev pub Existing :
    Dict String WakeIntent → Dict String String → Dict String String → Dict String String → Type 0
Existing intents keys old new = Keeps old new × Covers intents keys new

-- One step of the comprehension.
abbrev with_wake : String → String → WakeIntent → Dict String String → Dict String String
with_wake w key i old = if is_pending i then Dict.set key w old else old

with_wake_keeps :
    (w key j : String) (i : WakeIntent) (old : Dict String String)
    → is_some (Dict.get j old) ≡ true
    → is_some (Dict.get j (with_wake w key i old)) ≡ true
with_wake_keeps w key j i old h = ground (arith, is_some-get-set key j w old)

with_wake_has :
    (w key : String) (i : WakeIntent) (old : Dict String String)
    → is_pending i ≡ true
    → is_some (Dict.get key (with_wake w key i old)) ≡ true
with_wake_has w key i old h =
    ground (arith, is_some-get-set key key w old, String_Eq.same_iff key key)

-- What the entry of a key is, at the head of a dictionary or behind it.
get_of_cons :
    (v w k key : String) (keys : Dict String String)
    → Dict.get v ((w, key) ∷ keys) ≡ some k
    → ((w ≡ v) × (key ≡ k)) ⊎ (Dict.get v keys ≡ some k)
unfolding Dict.get
get_of_cons v w k key keys g = elim (Bool-cases (w == v)) [
  | inl same ↦ inl ((String_Eq.same_iff w v).0 same, ground arith)
  | inr other ↦ inr (ground arith)
]

Existing-cons :
    (intents : Dict String WakeIntent) (w key : String) (keys old new : Dict String String)
    (i : WakeIntent)
    → Dict.get w intents ≡ some i
    → Existing intents keys (with_wake w key i old) new
    → Existing intents ((w, key) ∷ keys) old new
Existing-cons intents w key keys old new i found h = (
  λ j o. h.0 j (with_wake_keeps w key j i old o),
  λ v k j gk gi pj. elim (get_of_cons v w k key keys gk) [
    | inl (same_wake, same_key) ↦
        let same : i ≡ j = cc (found, gi, same_wake) in
        rw (← same_key) (h.0 key (with_wake_has w key i old (ap (λ x. is_pending x) same ∙ pj)))
    | inr behind ↦ h.1 v k j behind gi pj
  ],
)

Returns-Existing :
    (intents : Dict String WakeIntent) (w key : String) (keys old : Dict String String)
    (i : WakeIntent) (r : Result (Dict String String))
    → Dict.get w intents ≡ some i
    → Returns (Existing intents keys (with_wake w key i old)) r
    → Returns (Existing intents ((w, key) ∷ keys) old) r
Returns-Existing intents w key keys old i (ok new) found h =
    Existing-cons intents w key keys old new i found h
Returns-Existing intents w key keys old i key_error found h = absurd h
Returns-Existing intents w key keys old i value_error found h = absurd h
Returns-Existing intents w key keys old i overflow_error found h = absurd h

pub existing_from-Existing :
    (intents : Dict String WakeIntent) (keys old : Dict String String)
    → Present keys intents
    → Returns (Existing intents keys old) (existing_from intents keys old)
unfolding existing_from Dict.get
existing_from-Existing intents [] old p = (λ key h. h, λ w key i g. cc)
existing_from-Existing intents ((w, key) ∷ keys) old p = elim (Option-cases (Dict.get w intents)) [
  | inl absent ↦ cc (absent, p.0)
  | inr (i, found) ↦
      rw (found, existing_from)
        (Returns-Existing intents w key keys old i _ found
          (existing_from-Existing intents keys (with_wake w key i old) p.1))
]

-- `inner` has the keys of `existing` and those that the set of new keys has so far.
abbrev pub Agrees : Dict String String → Dict String String → List String → Type 0
Agrees existing inner seen =
    (key : String)
    → is_some (Dict.get key inner) ≡ (is_some (Dict.get key existing) || contains key seen)

Agrees-set :
    (existing inner : Dict String String) (seen : List String) (key id : String)
    → Agrees existing inner seen
    → Agrees existing (Dict.set key id inner) (seen ++ key ∷ [])
Agrees-set existing inner seen key id h j =
    ground (arith, is_some-get-set key j id inner, contains-append j seen (key ∷ []), h j)

count-admit_wake :
    (id episode trigger : String) (item : PreparedTemporalProposal) (c : TemporalCoordinator)
    → pending_count (admit_wake id episode trigger item c) ≤ pending_count c + 1
unfolding admit_wake pending_count
count-admit_wake id episode trigger item c = omega (arith, count-set is_pending id _ c.intents)

-- The loop adds at most one pending wake for each new key.
pub admit_items_count :
    (h : Digests) (episode trigger : String) (items : List PreparedTemporalProposal)
    (existing inner : Dict String String) (seen : List String) (c : TemporalCoordinator)
    → Agrees existing inner seen
    → pending_count (admit_items h episode trigger items inner c).1 + length seen
      ≤ pending_count c + length (new_keys existing (keys_of items) seen)
unfolding admit_items new_keys
admit_items_count h episode trigger [] existing inner seen c a = omega arith
admit_items_count h episode trigger (item ∷ items) existing inner seen c a =
    elim (Option-cases (Dict.get item.dedup_key inner)) [
      | inl absent ↦
          let id = wake_id h c item.dedup_key (c.next_sequence + 1) in
          let more = admit_wake id episode trigger item c in
          let new = sym (a item.dedup_key) ∙ ap is_some absent in
          rw (absent, new, admit_items, new_keys)
            (omega (
              arith,
              count-admit_wake id episode trigger item c,
              length-append seen (item.dedup_key ∷ []),
              admit_items_count h episode trigger items existing (Dict.set item.dedup_key id inner)
                  (seen ++ item.dedup_key ∷ []) more
                  (Agrees-set existing inner seen item.dedup_key id a),
            ))
      | inr (id, found) ↦
          let old = sym (a item.dedup_key) ∙ ap is_some found in
          rw (found, old, admit_items, new_keys)
            (admit_items_count h episode trigger items existing inner seen c a)
    ]
