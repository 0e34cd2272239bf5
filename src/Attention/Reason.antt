-- ===== src/Attention/Reason.antt =====
-- The reason of an ambient trigger fits into its bound of 128 bytes.
use Prim.Native.Nat.{◌*◌}
use Prim.Native.String.append
use Prim.Native.String.{len, ◌++◌ as ◌+++◌}
use text.Mathlib.TextPositions.{len-append}
use lilavel_runtime.Prelude.{
  ℕ, zero, suc, ◌≤◌, ◌+◌, ◌-◌, ◌≡◌, refl, ap, ◌∙◌, inl, inr, String, true, false, List, [], ◌∷◌,
  ◌&&◌, arith, length, length-take, contains, is_unique, take, All, if◌then◌else◌, Bool-cases, ◌==◌,
  String_Eq,
}
use lilavel_runtime.Prelude.Text.{is_bounded_text, is_blank, is_space}
use lilavel_runtime.Attention.Gate.{joined_by_comma, attention_reason}
use lilavel_runtime.Attention.Signals.{signal_values}

-- The bytes of a text beyond ten.
abbrev excess : String → ℕ
excess s = len s - 10

abbrev total : List String → ℕ
total [] = 0
total (s ∷ ss) = excess s + total ss

abbrev remove : String → List String → List String
remove a [] = []
remove a (s ∷ ss) = if s == a then ss else s ∷ remove a ss

total-remove :
    (a : String) (ss : List String)
    → contains a ss ≡ true
    → total ss ≡ excess a + total (remove a ss)
total-remove a [] h = cc
total-remove a (s ∷ ss) h = elim (Bool-cases (s == a)) [
  | inl same ↦
      let equal : s ≡ a = (String_Eq.same_iff s a).0 same in
      rw same (omega (arith, ap excess equal))
  | inr other ↦ rw other (omega (arith, total-remove a ss (ground arith)))
]

contains-remove :
    (a b : String) (ss : List String)
    → (a == b) ≡ false
    → contains b ss ≡ true
    → contains b (remove a ss) ≡ true
contains-remove a b [] n h = h
contains-remove a b (s ∷ ss) n h = ground (
  arith,
  contains-remove a b ss n,
  String_Eq.same_iff s a,
  String_Eq.same_iff s b,
  String_Eq.same_iff a b,
)

-- Every text of the first list is in the second.
abbrev pub In : List String → List String → Type 0
In all values = All (λ v. contains v all ≡ true) values

In-remove :
    (a : String) (all values : List String)
    → contains a values ≡ false
    → In all values
    → In (remove a all) values
In-remove a all [] n h = tt
In-remove a all (v ∷ vs) n h = (
  contains-remove a v all (ground (arith, String_Eq.same_iff v a, String_Eq.same_iff a v)) h.0,
  In-remove a all vs (ground arith) h.1,
)

total-In :
    (values all : List String) → is_unique values ≡ true → In all values → total values ≤ total all
total-In [] all u h = omega arith
total-In (v ∷ vs) all u h = omega (
  arith,
  total-remove v all h.0,
  total-In vs (remove v all) (ground arith) (In-remove v all vs (ground arith) h.1),
)

joined_fits :
    (v : String) (vs : List String)
    → len (joined_by_comma (v ∷ vs)) + 1 ≤ 11 * length (v ∷ vs) + total (v ∷ vs)
joined_fits v [] = omega arith
joined_fits v (w ∷ vs) = omega (
  arith,
  len-append v ("," +++ joined_by_comma (w ∷ vs)),
  len-append "," (joined_by_comma (w ∷ vs)),
  joined_fits w vs,
)

attention_fits :
    (values : List String)
    → length values ≤ 8
    → total values ≤ 31
    → len ("attention:" +++ joined_by_comma values) ≤ 128
attention_fits [] l t = omega (arith, len-append "attention:" "")
attention_fits (v ∷ vs) l t =
    omega (arith, len-append "attention:" (joined_by_comma (v ∷ vs)), joined_fits v vs)

contains-take :
    (v : String) (n : ℕ) (values : List String)
    → contains v (take n values) ≡ true
    → contains v values ≡ true
contains-take v zero values h = cc
contains-take v (suc n) [] h = h
contains-take v (suc n) (w ∷ ws) h = ground (arith, contains-take v n ws)

pub is_unique-take :
    (n : ℕ) (values : List String) → is_unique values ≡ true → is_unique (take n values) ≡ true
is_unique-take zero values u = refl
is_unique-take (suc n) [] u = u
is_unique-take (suc n) (v ∷ vs) u = ground (arith, is_unique-take n vs, contains-take v n vs, u)

pub All-take :
    (P : String → Type 0) (n : ℕ) (values : List String) → All P values → All P (take n values)
All-take P zero values h = tt
All-take P (suc n) [] h = h
All-take P (suc n) (v ∷ vs) h = (h.0, All-take P n vs h.1)

signal_total : total signal_values ≡ 31
signal_total = refl

is_blank-append : (s t : String) → is_blank (s +++ t) ≡ (is_blank s && is_blank t)
unfolding is_blank
is_blank-append String.[] t = ap is_blank (append.nil t)
is_blank-append (String.◌∷◌ c s) t =
    ap is_blank (append.cons c s t) ∙ ground (arith, is_blank-append s t)

not_blank : (s : String) → is_blank ("attention:" +++ s) ≡ false
unfolding is_blank is_space
not_blank s = is_blank-append "attention:" s

-- Eight of the nine values fit, whichever they are.
pub attention_reason-fits :
    (values : List String)
    → is_unique values ≡ true
    → In signal_values values
    → is_bounded_text 128 (attention_reason values) ≡ true
unfolding is_bounded_text
attention_reason-fits values u h =
    let kept = take 8 values in
    let few : length kept ≤ 8 = omega (arith, length-take 8 values) in
    let small = total-In kept signal_values (is_unique-take 8 values u) (All-take _ 8 values h) in
    let short = attention_fits kept few (omega (arith, small, signal_total)) in
    ground (arith, not_blank (joined_by_comma kept), short)
