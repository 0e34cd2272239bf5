-- ===== src/DiscordText/Repair.antt =====
-- When `repair_markdown_preview` closes the delimiters.
use lilavel_runtime.Prelude.{
  ℕ, zero, suc, ◌-◌, ◌≤◌, ◌<◌, ◌≡◌, refl, sym, ap, ◌∙◌, ◌⊎◌, inl, inr, Bool, true, false, [], ◌∷◌,
  ◌++◌, not, ◌&&◌, leb, eqb, arith, length, if-cases, Bool-cases,
}
use lilavel_runtime.DiscordText.Boundaries.{Text, backticks}
use lilavel_runtime.DiscordText.Markdown.{
  fenced_after, inline_after, skip_after, delimiter_state, markdown_delimiter_state,
  ends_with_newline, fence, repair_with, repair_markdown_preview,
}

backticks-newline : (cs s : Text) → backticks (cs ++ 0xa ∷ s) ≡ backticks cs
backticks-newline [] s = refl
backticks-newline (c ∷ cs) s = ground (arith, backticks-newline cs s)

backticks-le : (cs : Text) → backticks cs ≤ length cs
backticks-le [] = omega arith
backticks-le (c ∷ cs) = ground (arith, backticks-le cs)

-- A newline ends every run of backticks: what comes behind it starts afresh.
newline_is_barrier :
    (fenced inline : Bool) (skip : ℕ) (cs s : Text)
    → skip ≤ length cs
    → let r = delimiter_state fenced inline skip cs in
      delimiter_state fenced inline skip (cs ++ 0xa ∷ s) ≡ delimiter_state r.0 r.1 0 (0xa ∷ s)
unfolding delimiter_state
newline_is_barrier fenced inline zero [] s l = refl
newline_is_barrier fenced inline (suc skip) [] s l = absurd (omega arith)
newline_is_barrier fenced inline (suc skip) (c ∷ cs) s l =
    newline_is_barrier fenced inline skip cs s (omega arith)
newline_is_barrier fenced inline zero (c ∷ cs) s l =
    let run = backticks (c ∷ cs) in
    ap
      (λ (r : ℕ).
        delimiter_state (fenced_after r fenced) (inline_after r c fenced inline) (skip_after r)
          (cs ++ 0xa ∷ s))
      (backticks-newline (c ∷ cs) s)
    ∙ newline_is_barrier (fenced_after run fenced) (inline_after run c fenced inline)
        (skip_after run) cs s (ground (arith, backticks-le cs))

last_is_newline :
    (text : Text) → ends_with_newline text ≡ true → (t : Text) × (text ≡ t ++ 0xa ∷ [])
last_is_newline [] h = cc
last_is_newline (c ∷ []) h = let newline : c ≡ 0xa = ground arith in ([], ap (λ k. k ∷ []) newline)
last_is_newline (c ∷ d ∷ cs) h =
    let (t, e) = last_is_newline (d ∷ cs) h in (c ∷ t, ap (λ k. c ∷ k) e)

append_assoc : (a b c : Text) → (a ++ b) ++ c ≡ a ++ (b ++ c)
append_assoc [] b c = refl
append_assoc (x ∷ a) b c = ap (λ k. x ∷ k) (append_assoc a b c)

-- Closing fenced code by a fence on a line of its own.
fence_closes :
    (text : Text)
    → markdown_delimiter_state text ≡ (true, false)
    → markdown_delimiter_state (text ++ 0xa ∷ fence) ≡ (false, false)
unfolding delimiter_state
fence_closes text h =
    newline_is_barrier false false 0 text fence (omega arith)
    ∙ ap (λ (r : Bool × Bool). delimiter_state r.0 r.1 0 (0xa ∷ fence)) h

fence_closes_line :
    (text : Text)
    → ends_with_newline text ≡ true
    → markdown_delimiter_state text ≡ (true, false)
    → markdown_delimiter_state (text ++ fence) ≡ (false, false)
unfolding delimiter_state
fence_closes_line text n h =
    let (t, e) = last_is_newline text n in
    let before : markdown_delimiter_state t ≡ (true, false) =
      sym (newline_is_barrier false false 0 t [] (omega arith))
      ∙ ap markdown_delimiter_state (sym e)
      ∙ h in
    let same : text ++ fence ≡ t ++ 0xa ∷ fence =
      ap (λ k. k ++ fence) e ∙ append_assoc t (0xa ∷ []) fence in
    ap markdown_delimiter_state same ∙ fence_closes t before

-- The last two characters are backticks.
abbrev pub ends_with_two : Text → Bool
ends_with_two [] = false
ends_with_two (c ∷ []) = false
ends_with_two (c ∷ d ∷ []) = eqb c 0x60 && eqb d 0x60
ends_with_two (_ ∷ d ∷ e ∷ cs) = ends_with_two (d ∷ e ∷ cs)

ends_with_two_tail : (c : ℕ) (cs : Text) → ends_with_two (c ∷ cs) ≡ false → ends_with_two cs ≡ false
ends_with_two_tail c [] h = refl
ends_with_two_tail c (d ∷ []) h = refl
ends_with_two_tail c (d ∷ e ∷ cs) h = h

-- A text of two or more backticks alone ends with two.
run_is_short :
    (c d : ℕ) (cs : Text)
    → ends_with_two (c ∷ d ∷ cs) ≡ false
    → backticks (c ∷ d ∷ cs) < length (c ∷ d ∷ cs)
run_is_short c d [] h = ground arith
run_is_short c d (e ∷ cs) h = ground (arith, run_is_short d e cs h)

backticks-longer :
    (cs : Text) → backticks cs < length cs → backticks (cs ++ 0x60 ∷ []) ≡ backticks cs
backticks-longer [] h = absurd (omega arith)
backticks-longer (c ∷ cs) h = ground (arith, backticks-longer cs)

-- One backtick more opens or closes an inline delimiter.
abbrev ticked : Bool × Bool → Bool × Bool
ticked (true, inline) = (true, inline)
ticked (false, inline) = (false, not inline)

tick_after_tick :
    (fenced inline : Bool)
    → delimiter_state fenced inline 0 (0x60 ∷ 0x60 ∷ [])
      ≡ ticked (delimiter_state fenced inline 0 (0x60 ∷ []))
unfolding delimiter_state
tick_after_tick true inline = refl
tick_after_tick false inline = refl

tick_alone :
    (fenced inline : Bool) → delimiter_state fenced inline 0 (0x60 ∷ []) ≡ ticked (fenced, inline)
unfolding delimiter_state
tick_alone true inline = refl
tick_alone false inline = refl

-- A character that is no backtick leaves the state as it is.
plain_turn :
    (fenced inline : Bool) (c : ℕ) (cs : Text)
    → eqb c 0x60 ≡ false
    → delimiter_state fenced inline 0 (c ∷ cs) ≡ delimiter_state fenced inline 0 cs
unfolding delimiter_state
plain_turn fenced inline c cs h =
    let no_run : backticks (c ∷ cs) ≡ 0 = ground arith in
    let kept : inline_after 0 c fenced inline ≡ inline = ground arith in
    ap
      (λ (r : ℕ).
        delimiter_state (fenced_after r fenced) (inline_after r c fenced inline) (skip_after r) cs)
      no_run
    ∙ ap (λ i. delimiter_state fenced i 0 cs) kept

last_tick :
    (fenced inline : Bool) (c : ℕ)
    → delimiter_state fenced inline 0 (c ∷ 0x60 ∷ [])
      ≡ ticked (delimiter_state fenced inline 0 (c ∷ []))
unfolding delimiter_state
last_tick fenced inline c = elim (Bool-cases (eqb c 0x60)) [
  | inl tick ↦ let same : c ≡ 0x60 = ground arith in rw same (tick_after_tick fenced inline)
  | inr other ↦
      plain_turn fenced inline c (0x60 ∷ []) other
      ∙ tick_alone fenced inline
      ∙ ap ticked (sym (plain_turn fenced inline c [] other))
]

tick_is_read :
    (fenced inline : Bool) (skip : ℕ) (cs : Text)
    → (skip ≡ 0) ⊎ (skip < length cs)
    → ends_with_two cs ≡ false
    → delimiter_state fenced inline skip (cs ++ 0x60 ∷ [])
      ≡ ticked (delimiter_state fenced inline skip cs)
unfolding delimiter_state
tick_is_read true inline zero [] s h = refl
tick_is_read false inline zero [] s h = refl
tick_is_read fenced inline (suc skip) [] s h = absurd (ground (arith, s))
tick_is_read fenced inline (suc skip) (c ∷ cs) s h =
    tick_is_read fenced inline skip cs (inr (ground (arith, s))) (ends_with_two_tail c cs h)
tick_is_read fenced inline zero (c ∷ []) s h = last_tick fenced inline c
tick_is_read fenced inline zero (c ∷ d ∷ cs) s h =
    let run = backticks (c ∷ d ∷ cs) in
    let short = run_is_short c d cs h in
    ap
      (λ (r : ℕ).
        delimiter_state (fenced_after r fenced) (inline_after r c fenced inline) (skip_after r)
          (d ∷ cs ++ 0x60 ∷ []))
      (backticks-longer (c ∷ d ∷ cs) short)
    ∙ tick_is_read (fenced_after run fenced) (inline_after run c fenced inline) (skip_after run)
        (d ∷ cs)
        (if-cases (λ (k : ℕ). (k ≡ 0) ⊎ (k < length (d ∷ cs))) (leb 3 run) (run - 1) 0
          (λ long. inr (omega (arith, short))) (λ _. inl refl))
        (ends_with_two_tail c (d ∷ cs) h)

open_inline :
    (text : Text)
    → ends_with_two text ≡ false
    → markdown_delimiter_state text ≡ (false, true)
    → markdown_delimiter_state (text ++ 0x60 ∷ []) ≡ (false, false)
open_inline text n h = tick_is_read false false 0 text (inl refl) n ∙ ap ticked h

-- The repaired text of a text in each state.
repair_by_state :
    (text : Text) (r : Bool × Bool)
    → markdown_delimiter_state text ≡ r
    → (r.0 && r.1) ≡ false
    → ends_with_two text ≡ false
    → markdown_delimiter_state (repair_with r text) ≡ (false, false)
repair_by_state text (true, true) h b n = cc
repair_by_state text (true, false) h b n =
    if-cases (λ (t : Text). markdown_delimiter_state t ≡ (false, false)) (ends_with_newline text)
      (text ++ fence) (text ++ 0xa ∷ fence) (λ line. fence_closes_line text line h)
      (λ _. fence_closes text h)
repair_by_state text (false, true) h b n = open_inline text n h
repair_by_state text (false, false) h b n = h

-- Where a text is not both in fenced code and behind an open inline delimiter, and does not end
-- with two backticks, the preview that `repair_markdown_preview` makes of it leaves neither
-- fenced code nor an inline delimiter open.
pub repair_closes :
    (text : Text)
    → ((markdown_delimiter_state text).0 && (markdown_delimiter_state text).1) ≡ false
    → ends_with_two text ≡ false
    → markdown_delimiter_state (repair_markdown_preview text) ≡ (false, false)
unfolding repair_markdown_preview
repair_closes text b n = repair_by_state text (markdown_delimiter_state text) refl b n
