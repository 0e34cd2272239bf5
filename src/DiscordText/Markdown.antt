-- ===== src/DiscordText/Markdown.antt =====
-- `_markdown_delimiter_state` and `repair_markdown_preview`.
use lilavel_runtime.Prelude.{
  ℕ, zero, suc, ◌-◌, Bool, true, false, [], ◌∷◌, ◌++◌, not, ◌&&◌, leb, eqb, if◌then◌else◌,
}
use lilavel_runtime.DiscordText.Boundaries.{Text, backticks}

-- What a turn at a character makes of the state, given the run of backticks that starts there.
abbrev pub fenced_after : ℕ → Bool → Bool
fenced_after run fenced = if leb 3 run then not fenced else fenced

abbrev pub inline_after : ℕ → ℕ → Bool → Bool → Bool
inline_after run c fenced inline =
    if not (leb 3 run) && eqb c 0x60 && not fenced then not inline else inline

abbrev pub skip_after : ℕ → ℕ
skip_after run = if leb 3 run then run - 1 else 0

-- The loop, with the characters left of a run of backticks: whether the text is in fenced code,
-- and whether an inline delimiter is open.
unfoldable pub delimiter_state : Bool → Bool → ℕ → Text → Bool × Bool
delimiter_state fenced inline skip [] = (fenced, inline)
delimiter_state fenced inline (suc skip) (c ∷ cs) = delimiter_state fenced inline skip cs
delimiter_state fenced inline zero (c ∷ cs) =
    let run = backticks (c ∷ cs) in
    delimiter_state (fenced_after run fenced) (inline_after run c fenced inline) (skip_after run) cs

abbrev pub markdown_delimiter_state : Text → Bool × Bool
markdown_delimiter_state text = delimiter_state false false 0 text

-- `text.endswith("\n")`
abbrev pub ends_with_newline : Text → Bool
ends_with_newline [] = false
ends_with_newline (c ∷ []) = eqb c 0xa
ends_with_newline (_ ∷ d ∷ cs) = ends_with_newline (d ∷ cs)

abbrev pub fence : Text
fence = 0x60 ∷ 0x60 ∷ 0x60 ∷ []

abbrev pub repair_with : Bool × Bool → Text → Text
repair_with (true, _) text = if ends_with_newline text then text ++ fence else text ++ 0xa ∷ fence
repair_with (false, true) text = text ++ 0x60 ∷ []
repair_with (false, false) text = text

unfoldable pub repair_markdown_preview : Text → Text
repair_markdown_preview text = repair_with (markdown_delimiter_state text) text
