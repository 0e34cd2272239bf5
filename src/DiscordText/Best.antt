-- ===== src/DiscordText/Best.antt =====
-- `select_semantic_prefix` selects the best boundary of its window.
use lilavel_runtime.Prelude.{
  ℕ, ◌+◌, ◌-◌, ◌≤◌, ◌<◌, ◌≡◌, ◌⊎◌, refl, max, inl, inr, Bool, true, false, List, [], ◌∷◌, ◌||◌, leb,
  ltb, arith, length, is_empty, All, if-cases, Bool-cases,
}
use lilavel_runtime.DiscordText.Boundaries.{
  Text, Unicode, BoundaryKind, BoundaryCandidate, boundary_rank, boundary_candidates,
  grapheme_boundaries, safe_boundary_at_or_after,
}
use lilavel_runtime.DiscordText.Select.{
  SemanticSelection, Selected, selected, nothing, invalid_tail, visible_end, window_candidates,
  outranks, best_from, fallback_position, fall_back, choose, select_semantic_prefix,
}
use lilavel_runtime.DiscordText.SelectLaws.{best_from-All, empty_is_short}

-- Nothing that is in the list outranks the best.
abbrev NoneOutranks : BoundaryCandidate → List BoundaryCandidate → Type 0
NoneOutranks best cs = All (λ c. outranks best c ≡ false) cs

outranks_trans :
    (a b c : BoundaryCandidate) → outranks b a ≡ false → outranks c b ≡ false → outranks c a ≡ false
outranks_trans a b c h k = ground arith

best_from-NoneOutranks :
    (best : BoundaryCandidate) (cs : List BoundaryCandidate)
    → NoneOutranks (best_from best cs) (best ∷ cs)
unfolding best_from
best_from-NoneOutranks best [] = (ground arith, tt)
best_from-NoneOutranks best (c ∷ cs) =
    if-cases (λ b. NoneOutranks (best_from b cs) (best ∷ c ∷ cs)) (outranks best c) c best
      (λ less.
        let rest = best_from-NoneOutranks c cs in
        (outranks_trans best c (best_from c cs) (ground (arith, less)) rest.0, rest))
      (λ more.
        let rest = best_from-NoneOutranks best cs in
        (rest.0, (outranks_trans c best (best_from best cs) more rest.0, rest.1)))

-- A position that reveals nothing, or leaves too many characters hidden.
abbrev pub Outside : Text → ℕ → ℕ → ℕ → Type 0
Outside text visible max_tail_chars position =
    (position ≤ visible) ⊎ (position + max_tail_chars < length text)

-- A boundary of a lower class, or of the same class and no later.
abbrev pub NoBetter : BoundaryCandidate → BoundaryCandidate → Type 0
NoBetter best c =
    (boundary_rank c.boundary < boundary_rank best.boundary)
    ⊎ ((boundary_rank c.boundary ≡ boundary_rank best.boundary) × (c.position ≤ best.position))

-- The candidate moved to the grapheme boundary at or after it.
abbrev pub at_grapheme : List ℕ → BoundaryCandidate → BoundaryCandidate
at_grapheme graphemes c = record {
  position = safe_boundary_at_or_after graphemes c.position;
  boundary = c.boundary;
}

abbrev pub AllOutside : List ℕ → Text → ℕ → ℕ → List BoundaryCandidate → Type 0
AllOutside graphemes text visible max_tail_chars cs =
    All (λ c. Outside text visible max_tail_chars (at_grapheme graphemes c).position) cs

-- What is outside the window or no better than the best.
abbrev pub NoneBetter : List ℕ → Text → ℕ → ℕ → BoundaryCandidate → List BoundaryCandidate → Type 0
NoneBetter graphemes text visible max_tail_chars best cs =
    All
      (λ c.
        Outside text visible max_tail_chars (at_grapheme graphemes c).position
        ⊎ NoBetter best (at_grapheme graphemes c))
      cs

-- One of the candidates, at its grapheme boundary.
abbrev pub IsCandidate : List ℕ → List BoundaryCandidate → BoundaryCandidate → Type 0
IsCandidate graphemes [] b = ⊥
IsCandidate graphemes (c ∷ cs) b = (at_grapheme graphemes c ≡ b) ⊎ IsCandidate graphemes cs b

abbrev boundary_of : SemanticSelection → BoundaryCandidate
boundary_of s = record { position = s.position; boundary = s.boundary }

-- The best candidate of the window, or the fallback where the window has none.
abbrev pub Best : List ℕ → Text → ℕ → ℕ → List BoundaryCandidate → Selected → Type 0
Best graphemes text visible max_tail_chars cs (selected s) =
    (IsCandidate graphemes cs (boundary_of s)
      × NoneBetter graphemes text visible max_tail_chars (boundary_of s) cs)
    ⊎ ((s.boundary ≡ BoundaryKind.fallback) × AllOutside graphemes text visible max_tail_chars cs)
Best graphemes text visible max_tail_chars cs nothing =
    AllOutside graphemes text visible max_tail_chars cs ⊎ (length text ≤ visible)
Best graphemes text visible max_tail_chars cs invalid_tail = max_tail_chars ≡ 0

map-All :
    (P Q : BoundaryCandidate → Type 0) (cs : List BoundaryCandidate)
    → ((c : BoundaryCandidate) → P c → Q c)
    → All P cs
    → All Q cs
map-All P Q [] f h = tt
map-All P Q (c ∷ cs) f h = (f c h.0, map-All P Q cs f h.1)

window_candidates-IsCandidate :
    (graphemes : List ℕ) (visible start : ℕ) (cs : List BoundaryCandidate)
    → All (IsCandidate graphemes cs) (window_candidates graphemes visible start cs)
unfolding window_candidates
window_candidates-IsCandidate graphemes visible start [] = tt
window_candidates-IsCandidate graphemes visible start (c ∷ cs) =
    let rest =
      map-All _ (IsCandidate graphemes (c ∷ cs)) _ (λ b h. inr h)
        (window_candidates-IsCandidate graphemes visible start cs) in
    let position = safe_boundary_at_or_after graphemes c.position in
    if-cases (All (IsCandidate graphemes (c ∷ cs))) (leb position visible || ltb position start) _ _
      (λ _. rest) (λ _. (inl refl, rest))

-- What holds in the window holds of every candidate that is not outside.
window_covers :
    (graphemes : List ℕ) (text : Text) (visible max_tail_chars : ℕ) (cs : List BoundaryCandidate)
    (P : BoundaryCandidate → Type 0)
    → All P
        (window_candidates graphemes visible (max (visible + 1) (length text - max_tail_chars)) cs)
    → All
        (λ c.
          Outside text visible max_tail_chars (at_grapheme graphemes c).position
          ⊎ P (at_grapheme graphemes c))
        cs
unfolding window_candidates
window_covers graphemes text visible max_tail_chars [] P h = tt
window_covers graphemes text visible max_tail_chars (c ∷ cs) P h =
    let start = max (visible + 1) (length text - max_tail_chars) in
    let position = safe_boundary_at_or_after graphemes c.position in
    let rest = window_candidates graphemes visible start cs in
    if-cases
      (λ (ds : List BoundaryCandidate).
        All P ds
        → All
            (λ b.
              Outside text visible max_tail_chars (at_grapheme graphemes b).position
              ⊎ P (at_grapheme graphemes b))
            (c ∷ cs))
      (leb position visible || ltb position start) rest (at_grapheme graphemes c ∷ rest)
      (λ out k. (inl (ground arith), window_covers graphemes text visible max_tail_chars cs P k))
      (λ _ k. (inr k.0, window_covers graphemes text visible max_tail_chars cs P k.1)) h

no_better : (best c : BoundaryCandidate) → outranks best c ≡ false → NoBetter best c
no_better best c h =
    elim (Bool-cases (ltb (boundary_rank c.boundary) (boundary_rank best.boundary))) [
      | inl lower ↦ inl (ground (arith, lower))
      | inr no_lower ↦ inr (ground (arith, h, no_lower), ground (arith, h, no_lower))
    ]

fall_back-Best :
    (graphemes : List ℕ) (text : Text) (visible max_tail_chars : ℕ) (allow : Bool)
    (cs : List BoundaryCandidate)
    → AllOutside graphemes text visible max_tail_chars cs
    → Best graphemes text visible max_tail_chars cs
        (fall_back graphemes text visible max_tail_chars allow)
unfolding fall_back
fall_back-Best graphemes text visible max_tail_chars false cs out = inl out
fall_back-Best graphemes text visible max_tail_chars true cs out =
    let Fine = Best graphemes text visible max_tail_chars cs in
    if-cases Fine (leb (length text - visible) max_tail_chars) _ _ (λ _. inl out)
      (λ _.
        if-cases Fine (leb (fallback_position graphemes text visible max_tail_chars) visible) _ _
          (λ _. inl out) (λ _. inr (refl, out)))

none_inside :
    (graphemes : List ℕ) (text : Text) (visible max_tail_chars : ℕ) (cs : List BoundaryCandidate)
    → All (λ c. Outside text visible max_tail_chars (at_grapheme graphemes c).position ⊎ ⊥) cs
    → AllOutside graphemes text visible max_tail_chars cs
none_inside graphemes text visible max_tail_chars [] h = tt
none_inside graphemes text visible max_tail_chars (c ∷ cs) h = (
  elim h.0 [ inl out ↦ out | inr none ↦ absurd none ],
  none_inside graphemes text visible max_tail_chars cs h.1,
)

choose-Best :
    (graphemes : List ℕ) (text : Text) (visible max_tail_chars : ℕ) (allow : Bool)
    (cs window : List BoundaryCandidate)
    → All (IsCandidate graphemes cs) window
    → ((P : BoundaryCandidate → Type 0)
        → All P window
        → All
            (λ c.
              Outside text visible max_tail_chars (at_grapheme graphemes c).position
              ⊎ P (at_grapheme graphemes c))
            cs)
    → Best graphemes text visible max_tail_chars cs
        (choose graphemes text visible max_tail_chars allow window)
choose-Best graphemes text visible max_tail_chars allow cs [] among covers =
    fall_back-Best graphemes text visible max_tail_chars allow cs
      (none_inside graphemes text visible max_tail_chars cs (covers (λ _. ⊥) tt))
choose-Best graphemes text visible max_tail_chars allow cs (c ∷ window) among covers =
    let best = best_from c window in
    inl (
      best_from-All (IsCandidate graphemes cs) c window among.0 among.1,
      covers (NoBetter best) (
          map-All (λ d. outranks best d ≡ false) (NoBetter best) (c ∷ window) (no_better best)
            (best_from-NoneOutranks c window)),
    )

-- What `select_semantic_prefix` selects ends at a boundary candidate, moved to the grapheme
-- boundary at or after it, and every other candidate reveals nothing behind the visible end, or
-- leaves more hidden than allowed, or is of a lower class, or is of the same class and no later;
-- or it is the fallback, and every candidate reveals nothing or leaves too much hidden. It
-- selects nothing only where that is so or the whole text is visible, and raises only for a
-- window of zero.
pub select_semantic_prefix-Best :
    (u : Unicode) (text visible_prefix : Text) (max_tail_chars : ℕ) (allow_fallback : Bool)
    → Best
        (grapheme_boundaries u text)
        text
        (visible_end text visible_prefix)
        max_tail_chars
        (boundary_candidates u text)
        (select_semantic_prefix u text visible_prefix max_tail_chars allow_fallback)
unfolding select_semantic_prefix
select_semantic_prefix-Best u text visible_prefix max_tail_chars allow =
    let visible = visible_end text visible_prefix in
    let graphemes = grapheme_boundaries u text in
    let cs = boundary_candidates u text in
    let Fine = Best graphemes text visible max_tail_chars cs in
    if-cases Fine (leb max_tail_chars 0) _ _ (λ none_allowed. ground arith)
      (λ _.
        if-cases Fine (is_empty text) _ _ (λ empty. inr (ground (arith, empty_is_short text empty)))
          (λ _.
            if-cases Fine (leb (length text) visible) _ _ (λ shown. inr (ground arith))
              (λ _.
                choose-Best graphemes text visible max_tail_chars allow cs _
                  (window_candidates-IsCandidate graphemes visible
                    (max (visible + 1) (length text - max_tail_chars)) cs)
                  (window_covers graphemes text visible max_tail_chars cs))))
