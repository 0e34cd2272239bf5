-- ===== src/Prelude/Text.antt =====
-- Python's `str`: blank texts, `strip`, and bounds on the UTF-8 bytes.
use Prim.Native.Nat.{ℕ}
use Prim.Native.Char.{code}
use Prim.Native.String.{String, len}
use mathlib.Core.Bool.{Bool, true, not, ◌&&◌, ◌||◌}
use lilavel_runtime.Prelude.Tests.{eqb, leb}

-- `str.isspace` of one character, by its code point.
unfoldable pub is_space : ℕ → Bool
is_space c =
    (leb 9 c && leb c 13)
    || (leb 28 c && leb c 32)
    || eqb c 0x85
    || eqb c 0xa0
    || eqb c 0x1680
    || (leb 0x2000 c && leb c 0x200a)
    || eqb c 0x2028
    || eqb c 0x2029
    || eqb c 0x202f
    || eqb c 0x205f
    || eqb c 0x3000

-- `not value.strip()`
unfoldable pub is_blank : String → Bool
unfolding is_space
is_blank String.[] = true
is_blank (String.◌∷◌ c s) = is_space (code c) && is_blank s

-- The bytes of `value.encode("utf-8")`.
abbrev pub byte_length : String → ℕ
byte_length s = len s

-- The test that `_require_text` and `_require_bounded_text` make.
unfoldable pub is_bounded_text : ℕ → String → Bool
unfolding is_blank
is_bounded_text max_bytes s = not (is_blank s) && leb (byte_length s) max_bytes
