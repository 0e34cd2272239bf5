-- ===== src/DiscordText/Split.antt =====
-- `split_semantic_content`, and `split_discord_content` of transport.py.
use lilavel_runtime.Prelude.{
  ℕ, zero, suc, ◌+◌, ◌-◌, max, Option, none, some, List, [], ◌∷◌, ◌&&◌, leb, ltb, length, take,
  drop, select, map, is_empty, if◌then◌else◌,
}
use lilavel_runtime.DiscordText.Boundaries.{
  Text, Unicode, BoundaryCandidate, boundary_candidates, grapheme_boundaries,
  safe_boundary_at_or_after,
}

-- The chunks, the ValueError of a bound that is not positive, that of a grapheme cluster that does
-- not fit, or a loop that is cut off.
pub data SplitResult : Type 0 where
  chunks : List Text → SplitResult
  invalid_bound cannot_split out_of_fuel : SplitResult

abbrev pub prepend : Text → SplitResult → SplitResult
prepend chunk (chunks cs) = chunks (chunk ∷ cs)
prepend chunk invalid_bound = invalid_bound
prepend chunk cannot_split = cannot_split
prepend chunk out_of_fuel = out_of_fuel

abbrev pub slice : ℕ → ℕ → Text → Text
slice start end text = take (end - start) (drop start text)

-- `[b for b in boundaries if start < b <= hard_end]`
abbrev pub within : ℕ → ℕ → List ℕ → List ℕ
within start hard_end boundaries = select (λ b. ltb start b && leb b hard_end) boundaries

-- `max` of a list, with nothing where it is empty.
abbrev pub maximum : List ℕ → Option ℕ
maximum [] = none
maximum (b ∷ bs) = elim (maximum bs) [ none ↦ some b | some m ↦ some (max b m) ]

unfoldable pub cut_of : List ℕ → List ℕ → ℕ → ℕ → Option ℕ
cut_of safe graphemes start hard_end = elim (maximum (within start hard_end safe)) [
  | some cut ↦ some cut
  | none ↦ maximum (within start hard_end graphemes)
]

-- The loop and the last chunk. Each turn moves the start ahead, so the length of the text is enough
-- fuel.
unfoldable pub split_from : List ℕ → List ℕ → ℕ → Text → ℕ → ℕ → SplitResult
split_from safe graphemes max_chars text start zero =
    if ltb max_chars (length text - start) then out_of_fuel else chunks (drop start text ∷ [])
split_from safe graphemes max_chars text start (suc fuel) =
    if ltb max_chars (length text - start)
    then elim (cut_of safe graphemes start (start + max_chars)) [
      | none ↦ cannot_split
      | some cut ↦
          let rest = split_from safe graphemes max_chars text cut fuel in
          if leb cut start then cannot_split else prepend (slice start cut text) rest
    ]
    else chunks (drop start text ∷ [])

abbrev pub safe_boundaries : Unicode → Text → List ℕ
safe_boundaries u text =
    map
      (λ (c : BoundaryCandidate). safe_boundary_at_or_after (grapheme_boundaries u text) c.position)
      (boundary_candidates u text)

unfoldable pub split_semantic_content : Unicode → Text → ℕ → SplitResult
split_semantic_content u text max_chars =
    if leb max_chars 0
    then invalid_bound
    else if is_empty text
    then chunks []
    else split_from (safe_boundaries u text) (grapheme_boundaries u text) max_chars text 0
        (length text)

-- `text[index : index + max_chars] for index in range(0, len(text), max_chars)`. Every step is
-- positive, so the length of the text is enough fuel.
unfoldable pub slices_from : ℕ → Text → ℕ → SplitResult
slices_from max_chars [] fuel = chunks []
slices_from max_chars (c ∷ cs) zero = out_of_fuel
slices_from max_chars (c ∷ cs) (suc fuel) =
    prepend (take max_chars (c ∷ cs)) (slices_from max_chars (drop max_chars (c ∷ cs)) fuel)

unfoldable pub split_discord_content : Text → ℕ → SplitResult
split_discord_content text max_chars =
    if leb max_chars 0 then invalid_bound else slices_from max_chars text (length text)
