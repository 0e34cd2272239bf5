-- ===== src/Prelude/Dict.antt =====
-- Python's `dict` and `OrderedDict`: the items in the order of insertion. Writing a key that is
-- present keeps its place, and `pop` with a default removes the key if it is there.
use lilavel_runtime.Prelude.Tests.{Comparable, ◌==◌, Bool-cases, Option-cases, if◌then◌else◌}
use lilavel_runtime.Prelude.Lists.{length}
use Prim.Native.Nat.{suc, ◌≤◌}
use mathlib.Core.Path.{◌≡◌, refl}
use mathlib.Core.Logic.{inl, inr}
use mathlib.Core.Bool.{false}
use mathlib.Core.Option.{Option, none, some}
use mathlib.Core.List.{List, [], ◌∷◌}
use native.Mathlib.Omega.{arith}

abbrev pub Dict {ℓ κ} : Type ℓ → Type κ → Type (ℓ ⊔ κ)
Dict K V = List (K × V)

module _ {ℓ κ} {K : Type ℓ} {V : Type κ} where
  abbrev pub values : Dict K V → List V
  values [] = []
  values ((k, v) ∷ d) = v ∷ values d

module _ {ℓ κ} {K : Type ℓ} {V : Type κ} ⦃e : Comparable K⦄ where
  unfoldable pub get : K → Dict K V → Option V
  get k [] = none
  get k ((j, v) ∷ d) = if j == k then some v else get k d

  unfoldable pub set : K → V → Dict K V → Dict K V
  set k v [] = (k, v) ∷ []
  set k v ((j, w) ∷ d) = if j == k then (j, v) ∷ d else (j, w) ∷ set k v d

  unfoldable pub pop : K → Dict K V → Dict K V
  pop k [] = []
  pop k ((j, w) ∷ d) = if j == k then d else (j, w) ∷ pop k d

  pub get-set :
      (k j : K) (v : V) (d : Dict K V) → get j (set k v d) ≡ (if k == j then some v else get j d)
  unfolding get set
  get-set k j v [] = refl
  get-set k j v ((i, w) ∷ d) =
      ground (arith, e.same_iff k j, e.same_iff i k, e.same_iff i j, get-set k j v d)

  pub get-pop_ne : (k j : K) (d : Dict K V) → (k == j) ≡ false → get j (pop k d) ≡ get j d
  unfolding get pop
  get-pop_ne k j [] h = refl
  get-pop_ne k j ((i, w) ∷ d) h =
      ground (arith, e.same_iff k j, e.same_iff i k, e.same_iff i j, get-pop_ne k j d h)

  -- A write of a new key adds one item; a write of a present one adds none.
  pub length-set_new :
      (k : K) (v : V) (d : Dict K V) → get k d ≡ none → length (set k v d) ≡ suc (length d)
  unfolding get set
  length-set_new k v [] h = refl
  length-set_new k v ((i, w) ∷ d) h = ground (arith, length-set_new k v d)

  pub length-set_old :
      (k : K) (v w : V) (d : Dict K V) → get k d ≡ some w → length (set k v d) ≡ length d
  unfolding get set
  length-set_old k v w [] h = cc
  length-set_old k v w ((i, u) ∷ d) h = ground (arith, length-set_old k v w d)

  pub length-pop :
      (k : K) (w : V) (d : Dict K V) → get k d ≡ some w → suc (length (pop k d)) ≡ length d
  unfolding get pop
  length-pop k w [] h = cc
  length-pop k w ((i, u) ∷ d) h = ground (arith, length-pop k w d)

  -- The keys are distinct, as those of a Python dict always are.
  abbrev pub Distinct : Dict K V → Type κ
  Distinct [] = Unit
  Distinct ((k, v) ∷ d) = (get k d ≡ none) × Distinct d

  pub Distinct-set : (k : K) (v : V) (d : Dict K V) → Distinct d → Distinct (set k v d)
  unfolding set get
  Distinct-set k v [] h = (refl, tt)
  Distinct-set k v ((j, w) ∷ d) h = elim (Bool-cases (j == k)) [
    | inl same ↦ rw same h
    | inr other ↦
        rw other
          (ground (arith, get-set k j v d, e.same_iff k j, e.same_iff j k), Distinct-set k v d h.1)
  ]

  pub get-pop-none : (k j : K) (d : Dict K V) → get j d ≡ none → get j (pop k d) ≡ none
  unfolding get pop
  get-pop-none k j [] h = refl
  get-pop-none k j ((i, w) ∷ d) h = ground (arith, get-pop-none k j d)

  pub Distinct-pop : (k : K) (d : Dict K V) → Distinct d → Distinct (pop k d)
  unfolding pop
  Distinct-pop k [] h = h
  Distinct-pop k ((j, w) ∷ d) h = elim (Bool-cases (j == k)) [
    | inl same ↦ rw same h.1
    | inr other ↦ rw other (get-pop-none k j d h.0, Distinct-pop k d h.1)
  ]

  pub get-pop_self : (k : K) (d : Dict K V) → Distinct d → get k (pop k d) ≡ none
  unfolding get pop
  get-pop_self k [] h = refl
  get-pop_self k ((j, w) ∷ d) h = elim (Bool-cases (j == k)) [
    | inl same ↦ rw (same) (rw (← (e.same_iff j k).0 same) h.0)
    | inr other ↦ rw other (rw other (get-pop_self k d h.1))
  ]

  -- Writes and removals at different keys commute, and a new key that is removed leaves no trace.
  pub pop-set_new : (k : K) (v : V) (d : Dict K V) → get k d ≡ none → pop k (set k v d) ≡ d
  unfolding get set pop
  pop-set_new k v [] h = ground (arith, e.same_iff k k)
  pop-set_new k v ((i, w) ∷ d) h = ground (arith, pop-set_new k v d)

  pub pop-set_ne :
      (k j : K) (v : V) (d : Dict K V) → (j == k) ≡ false → pop j (set k v d) ≡ set k v (pop j d)
  unfolding get set pop
  pop-set_ne k j v [] h = ground (arith, e.same_iff k j, e.same_iff j k)
  pop-set_ne k j v ((i, w) ∷ d) h =
      ground (arith, e.same_iff i k, e.same_iff i j, e.same_iff j k, pop-set_ne k j v d)

  pub pop_comm : (k j : K) (d : Dict K V) → pop j (pop k d) ≡ pop k (pop j d)
  unfolding pop
  pop_comm k j [] = refl
  pop_comm k j ((i, w) ∷ d) = ground (arith, e.same_iff i k, e.same_iff i j, pop_comm k j d)

  -- A key that is there and a key that is not are different keys.
  pub get-some-none_ne :
      (k j : K) (v : V) (d : Dict K V) → get k d ≡ some v → get j d ≡ none → (k == j) ≡ false
  get-some-none_ne k j v d h m = ground (arith, e.same_iff k j)

  pub length-set-le : (k : K) (v : V) (d : Dict K V) → length (set k v d) ≤ suc (length d)
  length-set-le k v d = elim (Option-cases (get k d)) [
    | inl absent ↦ omega (arith, length-set_new k v d absent)
    | inr (w, present) ↦ omega (arith, length-set_old k v w d present)
  ]
