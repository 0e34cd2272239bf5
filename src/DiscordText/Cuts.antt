-- ===== src/DiscordText/Cuts.antt =====
-- A cut of `split_semantic_content`: where it stands, and when there is one.
use lilavel_runtime.Prelude.{
  ℕ, ◌≤◌, ◌<◌, ◌≡◌, max, inl, inr, true, Option, none, some, List, [], ◌∷◌, ◌&&◌, leb, ltb, arith,
  All, contains, ==_refl, ℕ_Eq, if-cases, Bool-cases,
}
use lilavel_runtime.DiscordText.Boundaries.{first_at_or_after}
use lilavel_runtime.DiscordText.Split.{within, maximum, cut_of}

-- A cut reveals something, fits into the bound, and is a boundary of a grapheme cluster.
abbrev pub IsCut : List ℕ → ℕ → ℕ → ℕ → Type 0
IsCut graphemes start hard_end cut =
    (start < cut) × (cut ≤ hard_end) × (contains cut graphemes ≡ true)

-- Every item of a list is in another.
abbrev pub Among : List ℕ → List ℕ → Type 0
Among graphemes xs = All (λ x. contains x graphemes ≡ true) xs

within-IsCut :
    (graphemes : List ℕ) (start hard_end : ℕ) (xs : List ℕ)
    → Among graphemes xs
    → All (IsCut graphemes start hard_end) (within start hard_end xs)
within-IsCut graphemes start hard_end [] h = tt
within-IsCut graphemes start hard_end (x ∷ xs) h =
    elim (Bool-cases (ltb start x && leb x hard_end)) [
      | inl cut ↦
          rw cut ((ground arith, ground arith, h.0), within-IsCut graphemes start hard_end xs h.1)
      | inr outside ↦ rw outside (within-IsCut graphemes start hard_end xs h.1)
    ]

abbrev IfSome : (ℕ → Type 0) → Option ℕ → Type 0
IfSome P none = Unit
IfSome P (some x) = P x

IfSome-max : (P : ℕ → Type 0) (b m : ℕ) → P b → P m → P (max b m)
IfSome-max P b m pb pm = elim (Bool-cases (leb b m)) [
  | inl less ↦ let larger : max b m ≡ m = ground arith in rw larger pm
  | inr more ↦ let larger : max b m ≡ b = ground arith in rw larger pb
]

IfSome-maximum : (P : ℕ → Type 0) (xs : List ℕ) → All P xs → IfSome P (maximum xs)
IfSome-maximum P [] h = tt
IfSome-maximum P (x ∷ xs) h = go (maximum xs) (IfSome-maximum P xs h.1)
  where
    go : (o : Option ℕ) → IfSome P o → IfSome P (elim o [ none ↦ some x | some m ↦ some (max x m) ])
    go none g = h.0
    go (some m) g = IfSome-max P x m h.0 g

pub cut_of-IsCut :
    (safe graphemes : List ℕ) (start hard_end cut : ℕ)
    → Among graphemes safe
    → Among graphemes graphemes
    → cut_of safe graphemes start hard_end ≡ some cut
    → IsCut graphemes start hard_end cut
unfolding cut_of
cut_of-IsCut safe graphemes start hard_end cut a b =
    go (maximum (within start hard_end safe)) (maximum (within start hard_end graphemes))
      (IfSome-maximum _ _ (within-IsCut graphemes start hard_end safe a))
      (IfSome-maximum _ _ (within-IsCut graphemes start hard_end graphemes b))
  where
    go :
        (o p : Option ℕ)
        → IfSome (IsCut graphemes start hard_end) o
        → IfSome (IsCut graphemes start hard_end) p
        → elim o [ some c ↦ some c | none ↦ p ] ≡ some cut
        → IsCut graphemes start hard_end cut
    go (some c) p ho hp e = let same : c ≡ cut = cc in rw (← same) ho
    go none (some c) ho hp e = let same : c ≡ cut = cc in rw (← same) hp
    go none none ho hp e = cc

-- `_safe_boundary_at_or_after` gives one of the boundaries.
pub first_at_or_after-in :
    (position : ℕ) (bs : List ℕ) (last : ℕ)
    → contains (first_at_or_after position bs last) (last ∷ bs) ≡ true
unfolding first_at_or_after
first_at_or_after-in position [] last = ground (arith, ==_refl last)
first_at_or_after-in position (b ∷ bs) last =
    if-cases (λ r. contains r (last ∷ b ∷ bs) ≡ true) (leb position b) b
      (first_at_or_after position bs b) (λ _. ground (arith, ==_refl b))
      (λ _. ground (arith, first_at_or_after-in position bs b))
