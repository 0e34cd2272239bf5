-- ===== src/DiscordText/SelectLaws.antt =====
-- What `select_semantic_prefix` selects, and when it selects something.
use lilavel_runtime.Prelude.{
  ℕ, ◌+◌, ◌-◌, ◌≤◌, ◌<◌, ◌≡◌, refl, max, inl, inr, Bool, true, false, List, [], ◌∷◌, ◌&&◌, ◌||◌,
  leb, ltb, eqb, arith, length, take, is_empty, All, contains, ==_refl, ℕ_Eq, if◌then◌else◌,
  if-cases, Bool-cases,
}
use lilavel_runtime.DiscordText.Boundaries.{
  Text, Unicode, BoundaryCandidate, boundary_candidates, grapheme_boundaries,
  safe_boundary_at_or_after, first_at_or_after,
}
use lilavel_runtime.DiscordText.Select.{
  SemanticSelection, Selected, selected, nothing, invalid_tail, visible_end, window_candidates,
  outranks, best_from, next_boundary, fallback_position, fall_back, choose, select_semantic_prefix,
}
use lilavel_runtime.DiscordText.Cuts.{first_at_or_after-in}

-- A position that reveals something, at a grapheme boundary, with a short rest behind it.
abbrev pub IsFit : List ℕ → Text → ℕ → ℕ → ℕ → Type 0
IsFit graphemes text visible max_tail_chars position =
    (visible < position)
    × (contains position graphemes ≡ true)
    × (length text ≤ position + max_tail_chars)

-- The prefix ends at a fit position and the rest is counted.
pub record Good (graphemes : List ℕ) (text : Text) (visible max_tail_chars : ℕ)
    (s : SemanticSelection) : Type 0 where
  pub shows : s.prefix ≡ take s.position text
  pub fit : IsFit graphemes text visible max_tail_chars s.position
  pub hidden : s.hidden_tail_chars ≡ length text - s.position

abbrev FitCandidate : List ℕ → Text → ℕ → ℕ → BoundaryCandidate → Type 0
FitCandidate graphemes text visible max_tail_chars c =
    IsFit graphemes text visible max_tail_chars c.position

safe_in :
    (graphemes : List ℕ) (position : ℕ)
    → contains (safe_boundary_at_or_after (0 ∷ graphemes) position) (0 ∷ graphemes) ≡ true
safe_in graphemes position = ground (arith, first_at_or_after-in position (0 ∷ graphemes) 0)

window_candidates-FitCandidate :
    (graphemes : List ℕ) (text : Text) (visible max_tail_chars start : ℕ)
    (cs : List BoundaryCandidate)
    → length text - max_tail_chars ≤ start
    → All
        (FitCandidate (0 ∷ graphemes) text visible max_tail_chars)
        (window_candidates (0 ∷ graphemes) visible start cs)
unfolding window_candidates
window_candidates-FitCandidate graphemes text visible max_tail_chars start [] l = tt
window_candidates-FitCandidate graphemes text visible max_tail_chars start (c ∷ cs) l =
    let Fine = All (FitCandidate (0 ∷ graphemes) text visible max_tail_chars) in
    let rest = window_candidates-FitCandidate graphemes text visible max_tail_chars start cs l in
    let position = safe_boundary_at_or_after (0 ∷ graphemes) c.position in
    if-cases Fine (leb position visible || ltb position start) _ _ (λ _. rest)
      (λ kept. ((ground arith, safe_in graphemes c.position, ground arith), rest))

pub best_from-All :
    (P : BoundaryCandidate → Type 0) (best : BoundaryCandidate) (cs : List BoundaryCandidate)
    → P best
    → All P cs
    → P (best_from best cs)
unfolding best_from
best_from-All P best [] p h = p
best_from-All P best (c ∷ cs) p h =
    best_from-All P (if outranks best c then c else best) cs
      (if-cases P (outranks best c) c best (λ _. h.0) (λ _. p)) h.1

-- The end of the text is a boundary: no boundary before it is skipped by too much.
first_at_or_after_reaches :
    (position end : ℕ) (bs : List ℕ) (last : ℕ)
    → position ≤ end
    → contains end bs ≡ true
    → position ≤ first_at_or_after position bs last
unfolding first_at_or_after
first_at_or_after_reaches position end [] last l h = cc
first_at_or_after_reaches position end (b ∷ bs) last l h =
    if-cases (λ r. position ≤ r) (leb position b) b (first_at_or_after position bs b)
      (λ here. ground arith) (λ later. first_at_or_after_reaches position end bs b l (ground arith))

next_boundary_ahead :
    (visible end : ℕ) (bs : List ℕ) → visible < end → visible < next_boundary visible bs end
unfolding next_boundary
next_boundary_ahead visible end [] l = l
next_boundary_ahead visible end (b ∷ bs) l =
    if-cases (λ r. visible < r) (ltb visible b) b (next_boundary visible bs end)
      (λ here. ground arith) (λ _. next_boundary_ahead visible end bs l)

next_boundary-or_end :
    (visible end : ℕ) (bs : List ℕ) → contains (next_boundary visible bs end) (end ∷ bs) ≡ true
unfolding next_boundary
next_boundary-or_end visible end [] = ground (arith, ==_refl end)
next_boundary-or_end visible end (b ∷ bs) =
    if-cases (λ r. contains r (end ∷ b ∷ bs) ≡ true) (ltb visible b) b
      (next_boundary visible bs end) (λ _. ground (arith, ==_refl b))
      (λ _. ground (arith, next_boundary-or_end visible end bs))

next_boundary_in :
    (visible end : ℕ) (bs : List ℕ)
    → contains end bs ≡ true
    → contains (next_boundary visible bs end) bs ≡ true
next_boundary_in visible end bs h = elim (Bool-cases (eqb end (next_boundary visible bs end))) [
  | inl same ↦ let equal : end ≡ next_boundary visible bs end = ground arith in rw (← equal) h
  | inr other ↦ ground (arith, next_boundary-or_end visible end bs)
]

fallback_position-IsFit :
    (graphemes : List ℕ) (text : Text) (visible max_tail_chars : ℕ)
    → contains (length text) (0 ∷ graphemes) ≡ true
    → visible + max_tail_chars < length text
    → IsFit
        (0 ∷ graphemes)
        text
        visible
        max_tail_chars
        (fallback_position (0 ∷ graphemes) text visible max_tail_chars)
fallback_position-IsFit graphemes text visible max_tail_chars h l =
    let target = length text - max_tail_chars in
    let position = safe_boundary_at_or_after (0 ∷ graphemes) target in
    let reaches : target ≤ position =
      first_at_or_after_reaches target (length text) (0 ∷ graphemes) 0 (omega arith) h in
    let next = next_boundary_ahead visible (length text) (0 ∷ graphemes) (omega (arith, l)) in
    if-cases (IsFit (0 ∷ graphemes) text visible max_tail_chars) (leb position visible) _ _
      (λ hidden. (
        next,
        next_boundary_in visible (length text) (0 ∷ graphemes) h,
        ground (arith, reaches, next, hidden),
      ))
      (λ ahead. (ground arith, safe_in graphemes target, omega (arith, reaches)))

-- A selection is good, and none is made only where none need be.
abbrev pub Sound : List ℕ → Text → ℕ → ℕ → Bool → Selected → Type 0
Sound graphemes text visible max_tail_chars allow (selected s) =
    Good graphemes text visible max_tail_chars s
Sound graphemes text visible max_tail_chars allow nothing =
    (allow && ltb (visible + max_tail_chars) (length text)) ≡ false
Sound graphemes text visible max_tail_chars allow invalid_tail = max_tail_chars ≡ 0

fall_back-Sound :
    (graphemes : List ℕ) (text : Text) (visible max_tail_chars : ℕ) (allow : Bool)
    → contains (length text) (0 ∷ graphemes) ≡ true
    → Sound
        (0 ∷ graphemes)
        text
        visible
        max_tail_chars
        allow
        (fall_back (0 ∷ graphemes) text visible max_tail_chars allow)
unfolding fall_back
fall_back-Sound graphemes text visible max_tail_chars false h = refl
fall_back-Sound graphemes text visible max_tail_chars true h =
    let Fine = Sound (0 ∷ graphemes) text visible max_tail_chars true in
    if-cases Fine (leb (length text - visible) max_tail_chars) _ _ (λ short. ground arith)
      (λ long.
        let fit = fallback_position-IsFit graphemes text visible max_tail_chars h (ground arith) in
        if-cases Fine (leb (fallback_position (0 ∷ graphemes) text visible max_tail_chars) visible)
          _ _ (λ hidden. ground (arith, fit.0))
          (λ _. record { shows = refl; fit = fit; hidden = refl }))

choose-Sound :
    (graphemes : List ℕ) (text : Text) (visible max_tail_chars : ℕ) (allow : Bool)
    (cs : List BoundaryCandidate)
    → contains (length text) (0 ∷ graphemes) ≡ true
    → All (FitCandidate (0 ∷ graphemes) text visible max_tail_chars) cs
    → Sound
        (0 ∷ graphemes)
        text
        visible
        max_tail_chars
        allow
        (choose (0 ∷ graphemes) text visible max_tail_chars allow cs)
choose-Sound graphemes text visible max_tail_chars allow [] h f =
    fall_back-Sound graphemes text visible max_tail_chars allow h
choose-Sound graphemes text visible max_tail_chars allow (c ∷ cs) h f = record {
  shows = refl;
  fit = best_from-All (FitCandidate (0 ∷ graphemes) text visible max_tail_chars) c cs f.0 f.1;
  hidden = refl;
}

pub empty_is_short : (text : Text) → is_empty text ≡ true → length text ≡ 0
empty_is_short [] h = refl
empty_is_short (c ∷ cs) h = cc

-- Where the text's end is a grapheme boundary: what `select_semantic_prefix` selects is the text
-- up to a grapheme boundary behind the visible end, with at most the allowed number of characters
-- hidden behind it, which it counts; it selects nothing only if the fallback is not allowed or no
-- more than that number is hidden already, and raises only for a window of zero.
pub select_semantic_prefix-Sound :
    (u : Unicode) (text visible_prefix : Text) (max_tail_chars : ℕ) (allow_fallback : Bool)
    → contains (length text) (grapheme_boundaries u text) ≡ true
    → Sound
        (grapheme_boundaries u text)
        text
        (visible_end text visible_prefix)
        max_tail_chars
        allow_fallback
        (select_semantic_prefix u text visible_prefix max_tail_chars allow_fallback)
unfolding select_semantic_prefix
select_semantic_prefix-Sound u text visible_prefix max_tail_chars allow h =
    let visible = visible_end text visible_prefix in
    let graphemes = u.grapheme_ends text in
    let Fine = Sound (0 ∷ graphemes) text visible max_tail_chars allow in
    if-cases Fine (leb max_tail_chars 0) _ _ (λ none_allowed. ground arith)
      (λ _.
        if-cases Fine (is_empty text) _ _ (λ empty. ground (arith, empty_is_short text empty))
          (λ _.
            if-cases Fine (leb (length text) visible) _ _ (λ shown. ground arith)
              (λ _. choose-Sound graphemes text visible max_tail_chars allow _ h (
                window_candidates-FitCandidate graphemes text visible max_tail_chars
                  (max (visible + 1) (length text - max_tail_chars)) (boundary_candidates u text)
                  (omega arith)))))
