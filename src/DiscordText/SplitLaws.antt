-- ===== src/DiscordText/SplitLaws.antt =====
-- What `split_semantic_content` gives: the chunks are the text, fit, and end at grapheme boundaries.
use lilavel_runtime.Prelude.{
  ℕ, zero, suc, ◌+◌, ◌-◌, ◌≤◌, ◌<◌, ◌≡◌, refl, sym, ap, ◌∙◌, inl, inr, true, false, none, List, [],
  ◌∷◌, ◌++◌, leb, ltb, arith, length, length-drop, length-take, take, drop, map, All, contains,
  ==_refl, ℕ_Eq, Bool-cases, Option-cases,
}
use lilavel_runtime.DiscordText.Boundaries.{
  Text, Unicode, BoundaryCandidate, boundary_candidates, grapheme_boundaries,
  safe_boundary_at_or_after,
}
use lilavel_runtime.DiscordText.Split.{
  SplitResult, chunks, invalid_bound, cannot_split, out_of_fuel, prepend, slice, within, maximum,
  cut_of, split_from, split_semantic_content,
}
use lilavel_runtime.DiscordText.Cuts.{Among, IsCut, cut_of-IsCut, first_at_or_after-in}

-- `"".join(chunks)`
abbrev pub joined : List Text → Text
joined [] = []
joined (c ∷ cs) = c ++ joined cs

-- Every chunk but the last one ends at a boundary.
abbrev pub AtBoundaries : List ℕ → ℕ → List Text → Type 0
AtBoundaries graphemes start [] = Unit
AtBoundaries graphemes start (c ∷ []) = Unit
AtBoundaries graphemes start (c ∷ d ∷ cs) =
    (contains (start + length c) graphemes ≡ true)
    × AtBoundaries graphemes (start + length c) (d ∷ cs)

-- A chunk that is not empty and fits.
abbrev pub Fits : ℕ → Text → Type 0
Fits max_chars c = (0 < length c) × (length c ≤ max_chars)

pub record Chunked (graphemes : List ℕ) (max_chars : ℕ) (text : Text) (start : ℕ) (cs : List Text)
    : Type 0 where
  pub whole : joined cs ≡ drop start text
  pub fit : All (Fits max_chars) cs
  pub ends : AtBoundaries graphemes start cs

-- Behind some start that is not the last, no boundary comes within the bound.
pub record TooLong (graphemes : List ℕ) (max_chars : ℕ) (text : Text) : Type 0 where
  pub start : ℕ
  pub more : start + max_chars < length text
  pub none_fits : maximum (within start (start + max_chars) graphemes) ≡ none

-- The chunks are right, or a cluster does not fit. Nothing else comes out.
abbrev pub Yields : List ℕ → ℕ → Text → ℕ → SplitResult → Type 0
Yields graphemes max_chars text start (chunks cs) = Chunked graphemes max_chars text start cs
Yields graphemes max_chars text start cannot_split = TooLong graphemes max_chars text
Yields graphemes max_chars text start invalid_bound = ⊥
Yields graphemes max_chars text start out_of_fuel = ⊥

pub take-drop : (n : ℕ) (xs : Text) → take n xs ++ drop n xs ≡ xs
take-drop zero xs = refl
take-drop (suc n) [] = refl
take-drop (suc n) (x ∷ xs) = ap (λ ys. x ∷ ys) (take-drop n xs)

drop_nil : (n : ℕ) → drop {A = ℕ} n [] ≡ []
drop_nil zero = refl
drop_nil (suc n) = refl

drop-drop : (n m k : ℕ) (xs : Text) → m + n ≡ k → drop n (drop m xs) ≡ drop k xs
drop-drop n zero k xs e = ap (λ j. drop j xs) (omega arith)
drop-drop n (suc m) zero xs e = absurd (omega arith)
drop-drop n (suc m) (suc k) [] e = drop_nil n
drop-drop n (suc m) (suc k) (x ∷ xs) e = drop-drop n m k xs (omega arith)

append_nil : (xs : Text) → xs ++ [] ≡ xs
append_nil [] = refl
append_nil (x ∷ xs) = ap (λ ys. x ∷ ys) (append_nil xs)

slice-drop :
    (start cut : ℕ) (text : Text)
    → start ≤ cut
    → slice start cut text ++ drop cut text ≡ drop start text
slice-drop start cut text l =
    ap (λ k. slice start cut text ++ k) (sym (drop-drop (cut - start) start cut text (omega arith)))
    ∙ take-drop (cut - start) (drop start text)

length-slice :
    (start cut : ℕ) (text : Text)
    → start ≤ cut
    → cut ≤ length text
    → length (slice start cut text) ≡ cut - start
length-slice start cut text l h =
    omega (arith, length-take (cut - start) (drop start text), length-drop start text)

AtBoundaries-cons :
    (graphemes : List ℕ) (start cut : ℕ) (c : Text) (cs : List Text)
    → start + length c ≡ cut
    → contains cut graphemes ≡ true
    → AtBoundaries graphemes cut cs
    → AtBoundaries graphemes start (c ∷ cs)
AtBoundaries-cons graphemes start cut c [] e h a = tt
AtBoundaries-cons graphemes start cut c (d ∷ cs) e h a = rw e (h, a)

Yields-prepend :
    (graphemes : List ℕ) (max_chars : ℕ) (text : Text) (start cut : ℕ) (r : SplitResult)
    → IsCut graphemes start (start + max_chars) cut
    → cut ≤ length text
    → Yields graphemes max_chars text cut r
    → Yields graphemes max_chars text start (prepend (slice start cut text) r)
Yields-prepend graphemes max_chars text start cut (chunks cs) c l y =
    let size = length-slice start cut text (omega (arith, c)) l in
    record {
      whole =
          ap (λ k. slice start cut text ++ k) y.whole
          ∙ slice-drop start cut text (omega (arith, c));
      fit = ((omega (arith, size, c), omega (arith, size, c)), y.fit);
      ends = AtBoundaries-cons graphemes start cut _ cs (omega (arith, size, c)) c.2 y.ends;
    }
Yields-prepend graphemes max_chars text start cut cannot_split c l y = y
Yields-prepend graphemes max_chars text start cut invalid_bound c l y = absurd y
Yields-prepend graphemes max_chars text start cut out_of_fuel c l y = absurd y

cut_of_none :
    (safe graphemes : List ℕ) (start hard_end : ℕ)
    → cut_of safe graphemes start hard_end ≡ none
    → maximum (within start hard_end graphemes) ≡ none
unfolding cut_of
cut_of_none safe graphemes start hard_end e =
    elim (Option-cases (maximum (within start hard_end safe))) [
      | inl no_cut ↦ cc (no_cut, e)
      | inr (cut, found) ↦ cc (found, e)
    ]

last-Chunked :
    (graphemes : List ℕ) (max_chars : ℕ) (text : Text) (start : ℕ)
    → start < length text
    → length text ≤ start + max_chars
    → Chunked graphemes max_chars text start (drop start text ∷ [])
last-Chunked graphemes max_chars text start h l = record {
  whole = append_nil (drop start text);
  fit = ((omega (arith, length-drop start text), omega (arith, length-drop start text)), tt);
  ends = tt;
}

split_from-Yields :
    (safe graphemes : List ℕ) (max_chars : ℕ) (text : Text) (start fuel : ℕ)
    → Among graphemes safe
    → Among graphemes graphemes
    → 0 < max_chars
    → start < length text
    → length text ≤ start + fuel
    → Yields graphemes max_chars text start (split_from safe graphemes max_chars text start fuel)
unfolding split_from
split_from-Yields safe graphemes max_chars text start zero a b m h f = absurd (omega arith)
split_from-Yields safe graphemes max_chars text start (suc fuel) a b m h f =
    elim (Bool-cases (ltb max_chars (length text - start))) [
      | inl more ↦ elim (Option-cases (cut_of safe graphemes start (start + max_chars))) [
        | inl stuck ↦
            rw (more, stuck, split_from)
              (record {
                start = start;
                more = ground arith;
                none_fits = cut_of_none safe graphemes start (start + max_chars) stuck;
              })
        | inr (cut, found) ↦
            let c = cut_of-IsCut safe graphemes start (start + max_chars) cut a b found in
            let ahead : leb cut start ≡ false = ground (arith, c) in
            let inside : start + max_chars < length text = ground arith in
            rw (more, found, ahead, split_from)
              (Yields-prepend graphemes max_chars text start cut _ c (omega (arith, c, inside)) (
                split_from-Yields safe graphemes max_chars text cut fuel a b m
                  (omega (arith, c, inside)) (omega (arith, c))))
      ]
      | inr last ↦
          rw (last, split_from) (last-Chunked graphemes max_chars text start h (ground arith))
    ]

Among-itself :
    (xs ys : List ℕ) → ((x : ℕ) → contains x xs ≡ true → contains x ys ≡ true) → Among ys xs
Among-itself [] ys h = tt
Among-itself (x ∷ xs) ys h =
    (h x (ground (arith, ==_refl x)), Among-itself xs ys (λ y c. h y (ground arith)))

safe_in :
    (graphemes : List ℕ) (position : ℕ)
    → contains (safe_boundary_at_or_after (0 ∷ graphemes) position) (0 ∷ graphemes) ≡ true
safe_in graphemes position = ground (arith, first_at_or_after-in position (0 ∷ graphemes) 0)

Among-safe :
    (graphemes : List ℕ) (cs : List BoundaryCandidate)
    → Among
        (0 ∷ graphemes)
        (map (λ (c : BoundaryCandidate). safe_boundary_at_or_after (0 ∷ graphemes) c.position) cs)
Among-safe graphemes [] = tt
Among-safe graphemes (c ∷ cs) = (safe_in graphemes c.position, Among-safe graphemes cs)

Among-refl : (xs : List ℕ) → Among xs xs
Among-refl xs = Among-itself xs xs (λ x c. c)

-- With a positive bound, the loop of `split_semantic_content` ends within as many turns as the
-- text has characters: it gives chunks that join to the text, none of them empty or longer than
-- the bound, each but the last one ending at a grapheme boundary; or it raises because behind
-- some start no grapheme boundary comes within the bound.
pub split-Yields :
    (u : Unicode) (text : Text) (max_chars : ℕ)
    → 0 < max_chars
    → Yields (grapheme_boundaries u text) max_chars text 0 (split_semantic_content u text max_chars)
unfolding split_semantic_content
split-Yields u [] max_chars m =
    let positive : leb max_chars 0 ≡ false = ground arith in
    rw positive (record { whole = refl; fit = tt; ends = tt })
split-Yields u (c ∷ cs) max_chars m =
    let positive : leb max_chars 0 ≡ false = ground arith in
    rw positive (
      split_from-Yields _ (grapheme_boundaries u (c ∷ cs)) max_chars (c ∷ cs) 0 _
        (Among-safe (u.grapheme_ends (c ∷ cs)) (boundary_candidates u (c ∷ cs)))
        (Among-refl (grapheme_boundaries u (c ∷ cs))) m (omega arith) (omega arith))
