-- ===== src/SemanticActor/Fenced.antt =====
-- The fence of records in flight: a dictionary that holds exactly the records of a list.
use lilavel_runtime.Prelude.{
  ◌≡◌, sym, ap, ◌∙◌, false, none, some, List, [], ◌∷◌, ◌++◌, ◌==◌, ==_refl, length, arith, Pair_Eq,
  String_Eq, inl, inr, Bool-cases,
}
use lilavel_runtime.Prelude.Dict
use lilavel_runtime.Prelude.Dict.{Dict, Distinct}
use lilavel_runtime.SemanticActor.Types.{Record}
use lilavel_runtime.SemanticActor.State.{Key, key_of}

abbrev pub record_key : Record → Key
record_key r = key_of r.request

-- Taking the records out one by one empties the dictionary.
abbrev pub Fenced : List Record → Dict Key Record → Type 0
Fenced [] d = d ≡ []
Fenced (r ∷ rs) d = (Dict.get (record_key r) d ≡ some r) × Fenced rs (Dict.pop (record_key r) d)

pub length-Fenced : (rs : List Record) (d : Dict Key Record) → Fenced rs d → length d ≡ length rs
length-Fenced [] d h = ap length h
length-Fenced (r ∷ rs) d h =
    omega (arith, length-Fenced rs _ h.1, Dict.length-pop (record_key r) r d h.0)

-- A key other than that of a record removed.
pub other_key :
    (r x : Record) (d : Dict Key Record)
    → Distinct d
    → Dict.get (record_key x) (Dict.pop (record_key r) d) ≡ some x
    → (record_key r == record_key x) ≡ false
other_key r x d u h = elim (Bool-cases (record_key r == record_key x)) [
  | inl same ↦
      let k = (Pair_Eq.same_iff (record_key r) (record_key x)).0 same in
      cc (k, Dict.get-pop_self (record_key r) d u, h)
  | inr other ↦ other
]

-- A record with a new key may stand anywhere in the list.
pub Fenced-set :
    (xs ys : List Record) (r : Record) (d : Dict Key Record)
    → Dict.get (record_key r) d ≡ none
    → Fenced (xs ++ ys) d
    → Fenced (xs ++ r ∷ ys) (Dict.set (record_key r) r d)
Fenced-set [] ys r d new h = (
  rw (Dict.get-set (record_key r) (record_key r) r d, ==_refl (record_key r)),
  rw (Dict.pop-set_new (record_key r) r d new) h,
)
Fenced-set (x ∷ xs) ys r d new h =
    let ne = Dict.get-some-none_ne (record_key x) (record_key r) x d h.0 new in
    (
      ground (
        arith,
        Dict.get-set (record_key r) (record_key x) r d,
        Pair_Eq.same_iff (record_key r) (record_key x),
        Pair_Eq.same_iff (record_key x) (record_key r),
        h.0,
      ),
      rw (Dict.pop-set_ne (record_key r) (record_key x) r d ne) (
          Fenced-set xs ys r (Dict.pop (record_key x) d)
            (Dict.get-pop-none (record_key x) (record_key r) d new) h.1),
    )

-- A record may be taken out from anywhere in the list.
pub Fenced-get :
    (xs ys : List Record) (r : Record) (d : Dict Key Record)
    → Distinct d
    → Fenced (xs ++ r ∷ ys) d
    → Dict.get (record_key r) d ≡ some r
Fenced-get [] ys r d u h = h.0
Fenced-get (x ∷ xs) ys r d u h =
    let later = Fenced-get xs ys r _ (Dict.Distinct-pop (record_key x) d u) h.1 in
    sym (Dict.get-pop_ne (record_key x) (record_key r) d (other_key x r d u later)) ∙ later

pub Fenced-pop :
    (xs ys : List Record) (r : Record) (d : Dict Key Record)
    → Distinct d
    → Fenced (xs ++ r ∷ ys) d
    → Fenced (xs ++ ys) (Dict.pop (record_key r) d)
Fenced-pop [] ys r d u h = h.1
Fenced-pop (x ∷ xs) ys r d u h =
    let u' = Dict.Distinct-pop (record_key x) d u in
    let ne = other_key x r d u (Fenced-get xs ys r _ u' h.1) in
    (
      ground (
        arith,
        Dict.get-pop_ne (record_key r) (record_key x) d,
        Pair_Eq.same_iff (record_key r) (record_key x),
        Pair_Eq.same_iff (record_key x) (record_key r),
        h.0,
        ne,
      ),
      rw (Dict.pop_comm (record_key r) (record_key x) d) (Fenced-pop xs ys r _ u' h.1),
    )

-- A record whose entry is left in place may be put at the end of the list.
pub Fenced-last :
    (xs : List Record) (r : Record) (d : Dict Key Record)
    → Distinct d
    → Dict.get (record_key r) d ≡ some r
    → Fenced xs (Dict.pop (record_key r) d)
    → Fenced (xs ++ r ∷ []) d
Fenced-last [] r d u here h = (here, h)
Fenced-last (x ∷ xs) r d u here h =
    let ne = other_key r x d u h.0 in
    let same = Dict.get-pop_ne (record_key r) (record_key x) d ne in
    let u' = Dict.Distinct-pop (record_key x) d u in
    (
      sym same ∙ h.0,
      Fenced-last xs r _ u'
          (ground (
            arith,
            Dict.get-pop_ne (record_key x) (record_key r) d,
            Pair_Eq.same_iff (record_key r) (record_key x),
            Pair_Eq.same_iff (record_key x) (record_key r),
            here,
            ne,
          ))
          (rw (Dict.pop_comm (record_key x) (record_key r) d) h.1),
    )
