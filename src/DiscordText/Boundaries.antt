-- ===== src/DiscordText/Boundaries.antt =====
-- Where a text may be cut: `_boundary_candidates`, `_grapheme_boundaries` and what they call. A text
-- is its code points.
use Prim.Native.Char.{code}
use lilavel_runtime.Prelude.{
  ℕ, zero, suc, ◌+◌, ◌-◌, String, Bool, false, Option, none, some, List, [], ◌∷◌, ◌++◌, ◌&&◌, ◌||◌,
  not, leb, eqb, if◌then◌else◌,
}
use lilavel_runtime.Prelude.Text.{is_space}

abbrev pub Text : Type 0
Text = List ℕ

abbrev pub codes : String → Text
codes String.[] = []
codes (String.◌∷◌ c s) = code c ∷ codes s

pub data BoundaryKind : Type 0 where
  newline sentence clause word code_newline code_word fallback first : BoundaryKind

abbrev pub boundary_rank : BoundaryKind → ℕ
boundary_rank BoundaryKind.newline = 5
boundary_rank BoundaryKind.sentence = 4
boundary_rank BoundaryKind.clause = 3
boundary_rank BoundaryKind.word = 2
boundary_rank BoundaryKind.code_newline = 2
boundary_rank BoundaryKind.code_word = 1
boundary_rank BoundaryKind.fallback = 0
boundary_rank BoundaryKind.first = 6

pub record BoundaryCandidate : Type 0 where
  pub position : ℕ
  pub boundary : BoundaryKind

-- What Python's `str.isdigit` gives for a character, and the ends of the matches of `\X`.
pub record Unicode : Type 0 where
  pub is_digit : ℕ → Bool
  pub grapheme_ends : Text → List ℕ

abbrev pub grapheme_boundaries : Unicode → Text → List ℕ
grapheme_boundaries u text = 0 ∷ u.grapheme_ends text

-- `character in ...` of a set of characters.
abbrev pub is_one_of : ℕ → Text → Bool
is_one_of c [] = false
is_one_of c (d ∷ ds) = eqb c d || is_one_of c ds

-- The code points of `_SENTENCE_ENDINGS`, `_CLAUSE_ENDINGS` and `_CLOSING_MARKS`.
abbrev pub sentence_endings : Text
sentence_endings =
    0x2e ∷ 0x21 ∷ 0x3f ∷ 0x203d ∷ 0x2026 ∷ 0x3002 ∷ 0xff01 ∷ 0xff1f ∷ 0xff61 ∷ 0xff0e ∷ 0x61f
    ∷ 0x6d4 ∷ 0x589 ∷ 0x964 ∷ 0x965 ∷ []

abbrev pub clause_endings : Text
clause_endings = 0x2c ∷ 0x3b ∷ 0x3a ∷ 0x2014 ∷ 0x2013 ∷ []

abbrev pub closing_marks : Text
closing_marks =
    0x22 ∷ 0x27 ∷ 0x201d ∷ 0x2019 ∷ 0xbb ∷ 0x29 ∷ 0x5d ∷ 0x7d ∷ 0x300b ∷ 0x300d ∷ 0x300f ∷ 0x3011
    ∷ 0x3015 ∷ 0x3009 ∷ 0xff63 ∷ []

-- The length of the run of backticks at the start.
abbrev pub backticks : Text → ℕ
backticks [] = 0
backticks (c ∷ cs) = if eqb c 0x60 then suc (backticks cs) else 0

-- How far `_include_closing_marks` goes.
abbrev pub closing_length : Text → ℕ
closing_length [] = 0
closing_length (c ∷ cs) = if is_one_of c closing_marks then suc (closing_length cs) else 0

abbrev starts_with : ℕ → Text → Bool
starts_with c [] = false
starts_with c (d ∷ _) = eqb d c

abbrev starts_with_digit : Unicode → Text → Bool
starts_with_digit u [] = false
starts_with_digit u (d ∷ _) = u.is_digit d

abbrev is_digit_before : Unicode → Option ℕ → Bool
is_digit_before u none = false
is_digit_before u (some c) = u.is_digit c

-- One turn of the loop at a character: the candidates, how many characters more it reads, and
-- whether the text is in fenced code behind it.
pub record Turn : Type 0 where
  pub candidates : List BoundaryCandidate
  pub skip : ℕ
  pub fenced : Bool

abbrev candidate : ℕ → BoundaryKind → List BoundaryCandidate
candidate position boundary = record { position = position; boundary = boundary } ∷ []

unfoldable pub turn : Unicode → ℕ → Bool → Option ℕ → ℕ → Text → Turn
turn u index fenced previous c rest =
    if leb 3 (backticks (c ∷ rest))
    then record { candidates = []; skip = backticks (c ∷ rest) - 1; fenced = not fenced }
    else if eqb c 0xd || eqb c 0xa
    then (let more = if eqb c 0xd && starts_with 0xa rest then 1 else 0 in
        record {
          candidates =
              candidate (index + 1 + more)
                (if fenced then BoundaryKind.code_newline else BoundaryKind.newline);
          skip = more;
          fenced = fenced;
        })
    else record {
      candidates =
          if fenced
          then (if is_space c then candidate index BoundaryKind.code_word else [])
          else if is_space c
          then candidate index BoundaryKind.word
          else if is_one_of c sentence_endings
          then (if eqb c 0x2e
                && (starts_with 0x2e rest
                    || (is_digit_before u previous && starts_with_digit u rest))
              then []
              else candidate (index + 1 + closing_length rest) BoundaryKind.sentence)
          else if is_one_of c clause_endings
          then candidate (index + 1 + closing_length rest) BoundaryKind.clause
          else [];
      skip = 0;
      fenced = fenced;
    }

-- The loop from an index, with the characters that the turn before has read.
unfoldable pub candidates_from : Unicode → ℕ → Bool → Option ℕ → ℕ → Text → List BoundaryCandidate
candidates_from u index fenced previous skip [] = []
candidates_from u index fenced previous (suc skip) (c ∷ cs) =
    candidates_from u (index + 1) fenced (some c) skip cs
candidates_from u index fenced previous zero (c ∷ cs) =
    let t = turn u index fenced previous c cs in
    t.candidates ++ candidates_from u (index + 1) t.fenced (some c) t.skip cs

abbrev pub boundary_candidates : Unicode → Text → List BoundaryCandidate
boundary_candidates u text = candidates_from u 0 false none 0 text

-- `bisect_left` on ascending boundaries, or the last one. There is always one.
unfoldable pub first_at_or_after : ℕ → List ℕ → ℕ → ℕ
first_at_or_after position [] last = last
first_at_or_after position (b ∷ bs) last =
    if leb position b then b else first_at_or_after position bs b

abbrev pub safe_boundary_at_or_after : List ℕ → ℕ → ℕ
safe_boundary_at_or_after boundaries position = first_at_or_after position boundaries 0
