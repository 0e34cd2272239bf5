-- ===== src/DiscordText/Total.antt =====
-- `split_semantic_content` succeeds where every grapheme cluster fits, and `split_discord_content` always.
use lilavel_runtime.Prelude.{
  ℕ, zero, suc, ◌+◌, ◌≤◌, ◌<◌, ◌≡◌, refl, sym, ap, ◌∙◌, inl, inr, true, false, none, List, [], ◌∷◌,
  ◌++◌, ◌&&◌, leb, ltb, arith, length, length-drop, length-take, take, drop, All, ℕ_Eq, if-cases,
  Bool-cases, Option-cases,
}
use lilavel_runtime.DiscordText.Boundaries.{Text, Unicode, grapheme_boundaries}
use lilavel_runtime.DiscordText.Split.{
  SplitResult, chunks, invalid_bound, cannot_split, out_of_fuel, prepend, within, maximum,
  split_semantic_content, slices_from, split_discord_content,
}
use lilavel_runtime.DiscordText.SplitLaws.{
  joined, Fits, take-drop, Chunked, Yields, TooLong, split-Yields,
}

-- The grapheme clusters of a text: each ends at most `max_chars` behind the one before, and the
-- last one ends the text.
abbrev pub ShortClusters : ℕ → ℕ → ℕ → List ℕ → Type 0
ShortClusters max_chars size previous [] = size ≤ previous
ShortClusters max_chars size previous (b ∷ bs) =
    (b ≤ previous + max_chars) × ShortClusters max_chars size b bs

maximum-some : (b : ℕ) (bs : List ℕ) → maximum (b ∷ bs) ≡ none → ⊥
maximum-some b bs e = elim (Option-cases (maximum bs)) [
  | inl empty ↦ cc (empty, e)
  | inr (m, found) ↦ cc (found, e)
]

within_cons_inside :
    (start hard_end b : ℕ) (bs : List ℕ)
    → (ltb start b && leb b hard_end) ≡ true
    → within start hard_end (b ∷ bs) ≡ b ∷ within start hard_end bs
within_cons_inside start hard_end b bs h = rw h refl

within_cons_outside :
    (start hard_end b : ℕ) (bs : List ℕ)
    → (ltb start b && leb b hard_end) ≡ false
    → within start hard_end (b ∷ bs) ≡ within start hard_end bs
within_cons_outside start hard_end b bs h = rw h refl

-- With short clusters some boundary is always within the bound.
cluster_fits :
    (max_chars size previous start : ℕ) (bs : List ℕ)
    → previous ≤ start
    → start + max_chars < size
    → ShortClusters max_chars size previous bs
    → maximum (within start (start + max_chars) bs) ≡ none
    → ⊥
cluster_fits max_chars size previous start [] l m s e = omega (arith, s)
cluster_fits max_chars size previous start (b ∷ bs) l m s e =
    elim (Bool-cases (ltb start b && leb b (start + max_chars))) [
      | inl inside ↦
          maximum-some b (within start (start + max_chars) bs)
            (ap maximum (sym (within_cons_inside start (start + max_chars) b bs inside)) ∙ e)
      | inr outside ↦
          let behind : b ≤ start = ground (arith, s) in
          cluster_fits max_chars size b start bs behind m s.1
            (ap maximum (sym (within_cons_outside start (start + max_chars) b bs outside)) ∙ e)
    ]

ShortClusters-TooLong :
    (u : Unicode) (text : Text) (max_chars : ℕ)
    → ShortClusters max_chars (length text) 0 (u.grapheme_ends text)
    → TooLong (grapheme_boundaries u text) max_chars text
    → ⊥
ShortClusters-TooLong u text max_chars s t =
    cluster_fits max_chars (length text) 0 t.start (u.grapheme_ends text) (omega arith) t.more s (
      ap maximum (
        sym (
          within_cons_outside t.start (t.start + max_chars) 0 (u.grapheme_ends text)
            (ground arith)))
      ∙ t.none_fits)

-- The chunks of a result, and what holds of them.
abbrev pub Gives : List ℕ → ℕ → Text → SplitResult → Type 0
Gives graphemes max_chars text r =
    (cs : List Text) × (r ≡ chunks cs) × Chunked graphemes max_chars text 0 cs

Yields-Gives :
    (graphemes : List ℕ) (max_chars : ℕ) (text : Text) (r : SplitResult)
    → Yields graphemes max_chars text 0 r
    → (TooLong graphemes max_chars text → ⊥)
    → Gives graphemes max_chars text r
Yields-Gives graphemes max_chars text (chunks cs) y fits = (cs, refl, y)
Yields-Gives graphemes max_chars text cannot_split y fits = absurd (fits y)
Yields-Gives graphemes max_chars text invalid_bound y fits = absurd y
Yields-Gives graphemes max_chars text out_of_fuel y fits = absurd y

-- With a positive bound, where every grapheme cluster is within the bound and the last one ends
-- the text, `split_semantic_content` gives chunks: they join to the text, none is empty or longer
-- than the bound, and each but the last one ends at a grapheme boundary.
pub split_is_total :
    (u : Unicode) (text : Text) (max_chars : ℕ)
    → 0 < max_chars
    → ShortClusters max_chars (length text) 0 (u.grapheme_ends text)
    → Gives (grapheme_boundaries u text) max_chars text (split_semantic_content u text max_chars)
split_is_total u text max_chars m s =
    Yields-Gives _ max_chars text _ (split-Yields u text max_chars m)
      (ShortClusters-TooLong u text max_chars s)

-- The chunks of a result, which are the text, each of a size that fits.
abbrev pub Pieces : ℕ → Text → SplitResult → Type 0
Pieces max_chars text r =
    (cs : List Text) × (r ≡ chunks cs) × (joined cs ≡ text) × All (Fits max_chars) cs

Pieces-prepend :
    (max_chars : ℕ) (text : Text) (r : SplitResult)
    → 0 < max_chars
    → 0 < length text
    → Pieces max_chars (drop max_chars text) r
    → Pieces max_chars text (prepend (take max_chars text) r)
Pieces-prepend max_chars text r m l (cs, given, whole, fit) = (
  take max_chars text ∷ cs,
  ap (prepend (take max_chars text)) given,
  ap (λ k. take max_chars text ++ k) whole ∙ take-drop max_chars text,
  ((omega (arith, length-take max_chars text), omega (arith, length-take max_chars text)), fit),
)

slices_from-Pieces :
    (max_chars : ℕ) (text : Text) (fuel : ℕ)
    → 0 < max_chars
    → length text ≤ fuel
    → Pieces max_chars text (slices_from max_chars text fuel)
unfolding slices_from
slices_from-Pieces max_chars [] fuel m f = ([], refl, refl, tt)
slices_from-Pieces max_chars (c ∷ cs) zero m f = absurd (omega arith)
slices_from-Pieces max_chars (c ∷ cs) (suc fuel) m f =
    Pieces-prepend max_chars (c ∷ cs) _ m (omega arith) (
      slices_from-Pieces max_chars (drop max_chars (c ∷ cs)) fuel m
        (omega (arith, length-drop max_chars (c ∷ cs))))

-- With a positive bound, `split_discord_content` gives chunks that join to the text, none of them
-- empty or longer than the bound.
pub split_discord_content-Pieces :
    (text : Text) (max_chars : ℕ)
    → 0 < max_chars
    → Pieces max_chars text (split_discord_content text max_chars)
unfolding split_discord_content
split_discord_content-Pieces text max_chars m =
    if-cases (Pieces max_chars text) (leb max_chars 0) _ _ (λ bad. absurd (ground arith))
      (λ _. slices_from-Pieces max_chars text (length text) m (omega arith))
