-- ===== src/DiscordText/Select.antt =====
-- `select_semantic_prefix` and `make_first_selection`: how much of a growing text is shown.
use lilavel_runtime.Prelude.{
  ℕ, ◌+◌, ◌-◌, max, Bool, true, false, List, [], ◌∷◌, ◌&&◌, ◌||◌, leb, ltb, eqb, length, take,
  is_empty, if◌then◌else◌,
}
use lilavel_runtime.DiscordText.Boundaries.{
  Text, Unicode, BoundaryKind, BoundaryCandidate, boundary_rank, boundary_candidates,
  grapheme_boundaries, safe_boundary_at_or_after,
}

pub record SemanticSelection : Type 0 where
  pub prefix : Text
  pub position : ℕ
  pub boundary : BoundaryKind
  pub hidden_tail_chars : ℕ

-- A selection, none, or the ValueError of a window that is not positive.
pub data Selected : Type 0 where
  selected : SemanticSelection → Selected
  nothing invalid_tail : Selected

abbrev pub has_prefix : Text → Text → Bool
has_prefix text [] = true
has_prefix [] (_ ∷ _) = false
has_prefix (c ∷ cs) (d ∷ ds) = eqb c d && has_prefix cs ds

abbrev pub visible_end : Text → Text → ℕ
visible_end text visible = if has_prefix text visible then length visible else 0

-- The candidates of the window, each at the grapheme boundary at or after it.
unfoldable pub window_candidates : List ℕ → ℕ → ℕ → List BoundaryCandidate → List BoundaryCandidate
window_candidates graphemes visible window_start [] = []
window_candidates graphemes visible window_start (c ∷ cs) =
    let rest = window_candidates graphemes visible window_start cs in
    let position = safe_boundary_at_or_after graphemes c.position in
    if leb position visible || ltb position window_start
    then rest
    else record { position = position; boundary = c.boundary } ∷ rest

-- Whether the second has the greater key `(boundary_rank, position)`.
abbrev pub outranks : BoundaryCandidate → BoundaryCandidate → Bool
outranks a b =
    ltb (boundary_rank a.boundary) (boundary_rank b.boundary)
    || (eqb (boundary_rank a.boundary) (boundary_rank b.boundary) && ltb a.position b.position)

-- `max` by that key: the first of the greatest.
unfoldable pub best_from : BoundaryCandidate → List BoundaryCandidate → BoundaryCandidate
best_from best [] = best
best_from best (c ∷ cs) = best_from (if outranks best c then c else best) cs

abbrev pub selection_at : Text → ℕ → BoundaryKind → SemanticSelection
selection_at text position boundary = record {
  prefix = take position text;
  position = position;
  boundary = boundary;
  hidden_tail_chars = length text - position;
}

-- `boundaries[bisect_right(boundaries, visible)]` of ascending boundaries, or the text's end.
unfoldable pub next_boundary : ℕ → List ℕ → ℕ → ℕ
next_boundary visible [] end = end
next_boundary visible (b ∷ bs) end = if ltb visible b then b else next_boundary visible bs end

abbrev pub fallback_position : List ℕ → Text → ℕ → ℕ → ℕ
fallback_position graphemes text visible max_tail_chars =
    let position = safe_boundary_at_or_after graphemes (length text - max_tail_chars) in
    if leb position visible then next_boundary visible graphemes (length text) else position

-- The part behind the candidates.
unfoldable pub fall_back : List ℕ → Text → ℕ → ℕ → Bool → Selected
fall_back graphemes text visible max_tail_chars allow_fallback =
    if allow_fallback
    then (if leb (length text - visible) max_tail_chars
        then nothing
        else (let position = fallback_position graphemes text visible max_tail_chars in
            if leb position visible
            then nothing
            else selected (selection_at text position BoundaryKind.fallback)))
    else nothing

abbrev pub choose : List ℕ → Text → ℕ → ℕ → Bool → List BoundaryCandidate → Selected
choose graphemes text visible max_tail_chars allow_fallback [] =
    fall_back graphemes text visible max_tail_chars allow_fallback
choose graphemes text visible max_tail_chars allow_fallback (c ∷ cs) =
    let best = best_from c cs in selected (selection_at text best.position best.boundary)

unfoldable pub select_semantic_prefix : Unicode → Text → Text → ℕ → Bool → Selected
select_semantic_prefix u text visible_prefix max_tail_chars allow_fallback =
    let visible = visible_end text visible_prefix in
    let graphemes = grapheme_boundaries u text in
    if leb max_tail_chars 0
    then invalid_tail
    else if is_empty text
    then nothing
    else if leb (length text) visible
    then nothing
    else choose graphemes text visible max_tail_chars allow_fallback (
        window_candidates graphemes visible (max (visible + 1) (length text - max_tail_chars))
          (boundary_candidates u text))

abbrev pub make_first_selection : Text → SemanticSelection
make_first_selection text = record {
  prefix = text;
  position = length text;
  boundary = BoundaryKind.first;
  hidden_tail_chars = 0;
}
