-- ===== src/DiscordText/Tests.antt =====
-- Runs of the text splitting at concrete inputs.
use lilavel_runtime.Prelude.{ℕ, ◌+◌, ◌≡◌, refl, true, false, List, [], ◌∷◌, ◌&&◌, leb, arith, ℕ_Eq}
use lilavel_runtime.Prelude.Text.{is_space}
use lilavel_runtime.DiscordText.Boundaries.{
  Text, Unicode, BoundaryKind, BoundaryCandidate, codes, grapheme_boundaries, turn, candidates_from,
  first_at_or_after, boundary_candidates,
}
use lilavel_runtime.DiscordText.Split.{
  chunks, cut_of, split_from, split_semantic_content, split_discord_content,
}
use lilavel_runtime.DiscordText.Select.{visible_end, select_semantic_prefix, best_from}
use lilavel_runtime.DiscordText.Markdown.{
  delimiter_state, markdown_delimiter_state, repair_markdown_preview,
}
use lilavel_runtime.DiscordText.Repair.{repair_closes}
use lilavel_runtime.DiscordText.SplitLaws.{Yields, split-Yields}
use lilavel_runtime.DiscordText.Total.{Gives, split_is_total, Pieces, split_discord_content-Pieces}
use lilavel_runtime.DiscordText.SelectLaws.{Sound, select_semantic_prefix-Sound}
use lilavel_runtime.DiscordText.Best.{Best, select_semantic_prefix-Best}

-- Every character is a cluster.
abbrev ends_from : ℕ → Text → List ℕ
ends_from n [] = []
ends_from n (_ ∷ cs) = (n + 1) ∷ ends_from (n + 1) cs

abbrev plain : Unicode
plain = record { is_digit = λ c. leb 48 c && leb c 57; grapheme_ends = ends_from 0 }

abbrev greeting : Text
greeting = codes "Hi. There, you"

split_at_words :
    split_semantic_content plain greeting 6
    ≡ chunks (codes "Hi." ∷ codes " There" ∷ codes ", you" ∷ [])
unfolding split_semantic_content split_from cut_of candidates_from turn first_at_or_after is_space
split_at_words = refl

split-Yields_example :
    Yields
      (grapheme_boundaries plain greeting)
      6
      greeting
      0
      (split_semantic_content plain greeting 6)
split-Yields_example = split-Yields plain greeting 6 (omega arith)

split_is_total_example :
    Gives (grapheme_boundaries plain greeting) 6 greeting (split_semantic_content plain greeting 6)
split_is_total_example = split_is_total plain greeting 6 (omega arith) (
  omega arith,
  (
    omega arith,
    (
      omega arith,
      (
        omega arith,
        (
          omega arith,
          (
            omega arith,
            (
              omega arith,
              (
                omega arith,
                (
                  omega arith,
                  (
                    omega arith,
                    (omega arith, (omega arith, (omega arith, (omega arith, omega arith)))),
                  ),
                ),
              ),
            ),
          ),
        ),
      ),
    ),
  ),
)

split_discord_content-Pieces_example : Pieces 6 greeting (split_discord_content greeting 6)
split_discord_content-Pieces_example = split_discord_content-Pieces greeting 6 (omega arith)

select_semantic_prefix-Sound_example :
    Sound
      (grapheme_boundaries plain greeting)
      greeting
      (visible_end greeting (codes "Hi."))
      4
      true
      (select_semantic_prefix plain greeting (codes "Hi.") 4 true)
select_semantic_prefix-Sound_example =
    select_semantic_prefix-Sound plain greeting (codes "Hi.") 4 true refl

abbrev word_at_3 : BoundaryCandidate
word_at_3 = record { position = 3; boundary = BoundaryKind.word }

abbrev clause_at_10 : BoundaryCandidate
clause_at_10 = record { position = 10; boundary = BoundaryKind.clause }

best_is_the_clause : best_from word_at_3 (clause_at_10 ∷ word_at_3 ∷ []) ≡ clause_at_10
unfolding best_from
best_is_the_clause = refl

select_semantic_prefix-Best_example :
    Best
      (grapheme_boundaries plain greeting)
      greeting
      (visible_end greeting (codes "Hi."))
      4
      (boundary_candidates plain greeting)
      (select_semantic_prefix plain greeting (codes "Hi.") 4 true)
select_semantic_prefix-Best_example =
    select_semantic_prefix-Best plain greeting (codes "Hi.") 4 true

repair_closes_example :
    markdown_delimiter_state (repair_markdown_preview (codes "see `len(x)")) ≡ (false, false)
unfolding delimiter_state
repair_closes_example = repair_closes (codes "see `len(x)") refl refl

-- A text that ends with two backticks and has an open one: its repair opens fenced code.
repair_opens_a_fence :
    markdown_delimiter_state (repair_markdown_preview (codes "`x``")) ≡ (true, true)
unfolding delimiter_state repair_markdown_preview
repair_opens_a_fence = refl

-- Fenced code behind an open inline delimiter: the repair leaves the delimiter open.
repair_leaves_inline_open :
    markdown_delimiter_state (repair_markdown_preview (codes "`x ```y")) ≡ (false, true)
unfolding delimiter_state repair_markdown_preview
repair_leaves_inline_open = refl
