-- ===== src/Prelude/Entries.antt =====
-- Dictionaries beside one another: how many values satisfy a test, two dictionaries with the same
-- keys in the same order, and the entries of a snapshot that are still in a dictionary.
use Prim.Native.Nat.{ℕ, ◌+◌, ◌≤◌}
use mathlib.Core.Path.{◌≡◌, refl, sym, ap, ◌∙◌}
use mathlib.Core.Logic.{inl, inr}
use mathlib.Core.Bool.{Bool, true, false, not}
use mathlib.Core.Option.{none, some}
use mathlib.Core.List.{[], ◌∷◌}
use native.Mathlib.Omega.{arith}
use lilavel_runtime.Prelude.Tests.{Comparable, ◌==◌, Bool-cases, is_some, if◌then◌else◌}
use lilavel_runtime.Prelude.Lists.{length, select}
use lilavel_runtime.Prelude.Dict.{Dict, values, get, set, pop, get-pop_ne, get-pop_self, Distinct}

-- The number of values that satisfy a test.
abbrev pub count {ℓ κ} : {K : Type ℓ} {V : Type κ} → (V → Bool) → Dict K V → ℕ
count p d = length (select p (values d))

module _ {ℓ κ} {K : Type ℓ} {V : Type κ} ⦃e : Comparable K⦄ where
  pub count-set :
      (p : V → Bool) (k : K) (v : V) (d : Dict K V)
      → count p (set k v d) ≤ count p d + (if p v then 1 else 0)
  unfolding set
  count-set p k v [] = ground arith
  count-set p k v ((j, w) ∷ d) = ground (arith, count-set p k v d)

  pub count-pop : (p : V → Bool) (k : K) (d : Dict K V) → count p (pop k d) ≤ count p d
  unfolding pop
  count-pop p k [] = omega arith
  count-pop p k ((j, w) ∷ d) = ground (arith, count-pop p k d)

  -- What is found behind a removal was found before it.
  pub get-pop-some :
      (k j : K) (v : V) (d : Dict K V) → Distinct d → get j (pop k d) ≡ some v → get j d ≡ some v
  get-pop-some k j v d h f = elim (Bool-cases (k == j)) [
    | inl same ↦ cc (get-pop_self k d h, (e.same_iff k j).0 same, f)
    | inr other ↦ sym (get-pop_ne k j d other) ∙ f
  ]

  pub get_of_none :
      (k i : K) (x : V) (d : Dict K V)
      → get k ((i, x) ∷ d) ≡ none
      → ((k == i) ≡ false) × (get k d ≡ none)
  unfolding get
  get_of_none k i x d n = ground (arith, e.same_iff k i, e.same_iff i k)

  pub count-add-not :
      (p : V → Bool) (d : Dict K V) → count p d + count (λ v. not (p v)) d ≡ length d
  count-add-not p [] = omega arith
  count-add-not p ((j, w) ∷ d) = ground (arith, count-add-not p d)

module _ {K V W : Type 0} ⦃e : Comparable K⦄ where
  -- The same keys in the same order.
  abbrev pub SameKeys : Dict K V → Dict K W → Type 0
  SameKeys [] [] = Unit
  SameKeys ((k, v) ∷ d) ((j, w) ∷ b) = (k ≡ j) × SameKeys d b
  SameKeys _ _ = ⊥

  pub SameKeys-set :
      (k : K) (v : V) (w : W) (d : Dict K V) (b : Dict K W)
      → SameKeys d b
      → SameKeys (set k v d) (set k w b)
  unfolding set
  SameKeys-set k v w [] [] h = (refl, tt)
  SameKeys-set k v w ((i, x) ∷ d) [] h = absurd h
  SameKeys-set k v w [] ((j, y) ∷ b) h = absurd h
  SameKeys-set k v w ((i, x) ∷ d) ((j, y) ∷ b) h =
      let same : (j == k) ≡ (i == k) = ap (λ z. z == k) (sym h.0) in
      elim (Bool-cases (i == k)) [
        | inl t ↦ rw (t, same ∙ t) h
        | inr f ↦ rw (f, same ∙ f) (h.0, SameKeys-set k v w d b h.1)
      ]

  -- A write of a key that is there leaves the keys as they are.
  pub SameKeys-set_old :
      (k : K) (v : V) (d : Dict K V) (b : Dict K W)
      → is_some (get k d) ≡ true
      → SameKeys d b
      → SameKeys (set k v d) b
  unfolding get set
  SameKeys-set_old k v [] b p h = cc
  SameKeys-set_old k v ((i, x) ∷ d) [] p h = absurd h
  SameKeys-set_old k v ((i, x) ∷ d) ((j, y) ∷ b) p h = elim (Bool-cases (i == k)) [
    | inl t ↦ rw t h
    | inr f ↦ rw f (h.0, SameKeys-set_old k v d b (ground arith) h.1)
  ]

  pub SameKeys-pop :
      (k : K) (d : Dict K V) (b : Dict K W) → SameKeys d b → SameKeys (pop k d) (pop k b)
  unfolding pop
  SameKeys-pop k [] [] h = h
  SameKeys-pop k ((i, x) ∷ d) [] h = absurd h
  SameKeys-pop k [] ((j, y) ∷ b) h = absurd h
  SameKeys-pop k ((i, x) ∷ d) ((j, y) ∷ b) h =
      let same : (j == k) ≡ (i == k) = ap (λ z. z == k) (sym h.0) in
      elim (Bool-cases (i == k)) [
        | inl t ↦ rw (t, same ∙ t) h.1
        | inr f ↦ rw (f, same ∙ f) (h.0, SameKeys-pop k d b h.1)
      ]

  pub SameKeys-get :
      (k : K) (d : Dict K V) (b : Dict K W) → SameKeys d b → is_some (get k d) ≡ is_some (get k b)
  unfolding get
  SameKeys-get k [] [] h = refl
  SameKeys-get k ((i, x) ∷ d) [] h = absurd h
  SameKeys-get k [] ((j, y) ∷ b) h = absurd h
  SameKeys-get k ((i, x) ∷ d) ((j, y) ∷ b) h =
      let same : (j == k) ≡ (i == k) = ap (λ z. z == k) (sym h.0) in
      elim (Bool-cases (i == k)) [
        | inl t ↦ rw (t, same ∙ t) refl
        | inr f ↦ rw (f, same ∙ f) (SameKeys-get k d b h.1)
      ]

  SameKeys-get-none :
      (k : K) (d : Dict K V) (b : Dict K W) → SameKeys d b → get k d ≡ none → get k b ≡ none
  SameKeys-get-none k d b h n = ground (arith, SameKeys-get k d b h)

  pub SameKeys-Distinct : (d : Dict K V) (b : Dict K W) → SameKeys d b → Distinct d → Distinct b
  SameKeys-Distinct [] [] h u = tt
  SameKeys-Distinct ((i, x) ∷ d) [] h u = absurd h
  SameKeys-Distinct [] ((j, y) ∷ b) h u = absurd h
  SameKeys-Distinct ((i, x) ∷ d) ((j, y) ∷ b) h u =
      (rw (← h.0) (SameKeys-get-none i d b h.1 u.0), SameKeys-Distinct d b h.1 u.1)

  -- Every key of the first dictionary is in the second.
  abbrev pub Present : Dict K V → Dict K W → Type 0
  Present [] b = Unit
  Present ((k, v) ∷ d) b = (is_some (get k b) ≡ true) × Present d b

  pub Present-pop :
      (k : K) (d : Dict K V) (b : Dict K W) → get k d ≡ none → Present d b → Present d (pop k b)
  Present-pop k [] b n h = tt
  Present-pop k ((i, x) ∷ d) b n h =
      let (other, absent) = get_of_none k i x d n in
      (ap is_some (get-pop_ne k i b other) ∙ h.0, Present-pop k d b absent h.1)

  pub Present-cons :
      (k : K) (w : W) (d : Dict K V) (b : Dict K W) → Present d b → Present d ((k, w) ∷ b)
  unfolding get
  Present-cons k w [] b h = tt
  Present-cons k w ((i, x) ∷ d) b h = (ground arith, Present-cons k w d b h.1)

  pub SameKeys-Present : (d : Dict K V) (b : Dict K W) → SameKeys d b → Present d b
  unfolding get
  SameKeys-Present [] [] h = tt
  SameKeys-Present ((i, x) ∷ d) [] h = absurd h
  SameKeys-Present [] ((j, y) ∷ b) h = absurd h
  SameKeys-Present ((i, x) ∷ d) ((j, y) ∷ b) h =
      (ground (arith, e.same_iff j i), Present-cons j y d b (SameKeys-Present d b h.1))

pub SameKeys_refl : {K V : Type 0} ⦃e : Comparable K⦄ (d : Dict K V) → SameKeys d d
SameKeys_refl [] = tt
SameKeys_refl ((k, v) ∷ d) = (refl, SameKeys_refl d)

pub SameKeys_sym :
    {K V W : Type 0} ⦃e : Comparable K⦄ (d : Dict K V) (b : Dict K W) → SameKeys d b → SameKeys b d
SameKeys_sym [] [] h = tt
SameKeys_sym ((k, v) ∷ d) [] h = absurd h
SameKeys_sym [] ((j, w) ∷ b) h = absurd h
SameKeys_sym ((k, v) ∷ d) ((j, w) ∷ b) h = (sym h.0, SameKeys_sym d b h.1)
