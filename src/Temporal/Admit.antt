-- ===== src/Temporal/Admit.antt =====
-- The invariant when `commit` writes one new wake to both dictionaries.
use lilavel_runtime.Prelude.{
  ◌≡◌, sym, ap, ◌∙◌, ◌⊎◌, inl, inr, String, true, false, none, some, arith, String_Eq, ◌==◌,
  ==_refl, Bool-cases,
}
use lilavel_runtime.Prelude.Dict
use lilavel_runtime.Prelude.Dict.{Dict}
use lilavel_runtime.Prelude.Entries.{SameKeys-set}
use lilavel_runtime.Temporal.Types.{WakeIntent, is_pending}
use lilavel_runtime.Temporal.Invariant.{OnePending, Consistent}
use lilavel_runtime.Temporal.Existing.{Covers, is_some-get-set}

pub get_of_set :
    {V : Type 0} (k j : String) (v w : V) (d : Dict String V)
    → Dict.get j (Dict.set k v d) ≡ some w
    → ((k ≡ j) × (v ≡ w)) ⊎ (((k == j) ≡ false) × (Dict.get j d ≡ some w))
get_of_set k j v w d g = elim (Bool-cases (k == j)) [
  | inl same ↦ inl ((String_Eq.same_iff k j).0 same, ground (arith, Dict.get-set k j v d))
  | inr other ↦ inr (other, ground (arith, Dict.get-set k j v d))
]

module _ (id key : String) (i : WakeIntent) (intents : Dict String WakeIntent)
    (keys existing : Dict String String) (named : i.wake_intent_id ≡ id)
    (c : Consistent intents keys) (covers : Covers intents keys existing)
    (absent : Dict.get key existing ≡ none) where
  -- No pending wake has the new key yet.
  new_key :
      (w : String) (j : WakeIntent)
      → Dict.get w keys ≡ some key
      → Dict.get w intents ≡ some j
      → is_pending j ≡ true
      → ⊥
  new_key w j kw gw pw = cc (covers w key j kw gw pw, absent)

  set-OnePending : OnePending (Dict.set id i intents) (Dict.set id key keys)
  set-OnePending v w k a b kv kw gv gw pv pw = elim (get_of_set id v key k keys kv) [
    | inl (v_new, k_new) ↦ elim (get_of_set id w key k keys kw) [
      | inl (w_new, _) ↦ sym v_new ∙ w_new
      | inr (w_old, kw') ↦ elim (get_of_set id w i b intents gw) [
        | inl (same, _) ↦ sym v_new ∙ same
        | inr (_, gw') ↦ absurd (new_key w b (kw' ∙ ap some (sym k_new)) gw' pw)
      ]
    ]
    | inr (v_old, kv') ↦ elim (get_of_set id v i a intents gv) [
      | inl (same, _) ↦ cc (v_old, (String_Eq.same_iff id v).1 same)
      | inr (_, gv') ↦ elim (get_of_set id w key k keys kw) [
        | inl (w_new, k_new) ↦ absurd (new_key v a (kv' ∙ ap some (sym k_new)) gv' pv)
        | inr (w_old, kw') ↦ elim (get_of_set id w i b intents gw) [
          | inl (same, _) ↦ cc (w_old, (String_Eq.same_iff id w).1 same)
          | inr (_, gw') ↦ c.one v w k a b kv' kw' gv' gw' pv pw
        ]
      ]
    ]
  ]

  pub set-Consistent : Consistent (Dict.set id i intents) (Dict.set id key keys)
  set-Consistent = record {
    same = SameKeys-set id i key intents keys c.same;
    distinct = Dict.Distinct-set id i intents c.distinct;
    named = λ k j g. elim (get_of_set id k i j intents g) [
      | inl (same, value) ↦ ap (λ (x : WakeIntent). x.wake_intent_id) (sym value) ∙ named ∙ same
      | inr (_, g') ↦ c.named k j g'
    ];
    one = set-OnePending;
  }

  pub set-Covers : Covers (Dict.set id i intents) (Dict.set id key keys) (Dict.set key id existing)
  set-Covers w k j kw gw pj = elim (get_of_set id w key k keys kw) [
    | inl (_, k_new) ↦
        rw (← k_new) (ground (arith, is_some-get-set key key id existing, ==_refl key))
    | inr (w_old, kw') ↦ elim (get_of_set id w i j intents gw) [
      | inl (same, _) ↦ cc (w_old, (String_Eq.same_iff id w).1 same)
      | inr (_, gw') ↦ ground (arith, is_some-get-set key k id existing, covers w k j kw' gw' pj)
    ]
  ]
