-- ===== src/Prelude/Text.antt =====
-- Go's package `strings` on texts, as far as the program uses it. A text is its bytes, which are
-- taken to be ASCII where a function asks what a character is.
pub mod Laws
use Prim.Native.Nat.{ℕ, zero, suc}
use mathlib.Core.Path.{◌≡◌, refl}
use mathlib.Core.Logic.{◌↔◌}
use mathlib.Core.Bool.{Bool, true, false, ◌&&◌, ◌||◌}
use mathlib.Core.List.{List, [], ◌∷◌, ◌++◌}
use mathlib.Core.Option.{Option, none, some}
use native.Mathlib.Omega.{arith}
use Prim.Native.String.{String}
use Prim.Native.Char.{code}
use project_dia.Prelude.Tests.{ltb, leb, ◌==◌, if◌then◌else◌}

abbrev pub Text : Type 0
Text = List ℕ

-- The characters that the code names.
abbrev pub newline : ℕ
newline = 10

abbrev pub tab : ℕ
tab = 9

abbrev pub carriage_return : ℕ
carriage_return = 13

abbrev pub blank : ℕ
blank = 32

abbrev pub plus : ℕ
plus = 43

abbrev pub dash : ℕ
dash = 45

abbrev pub zero_digit : ℕ
zero_digit = 48

abbrev pub is_digit : ℕ → Bool
is_digit c = leb zero_digit c && leb c 57

-- `strings.TrimRight` by a test, and `strings.TrimSpace`.
abbrev pub keep : Bool → ℕ → Text → Text
keep true c [] = []
keep dropped c cs = c ∷ cs

unfoldable pub trim_right : (ℕ → Bool) → Text → Text
trim_right p [] = []
trim_right p (c ∷ cs) = keep (p c) c (trim_right p cs)

unfoldable pub trim_left : (ℕ → Bool) → Text → Text
trim_left p [] = []
trim_left p (c ∷ cs) = if p c then trim_left p cs else c ∷ cs

abbrev pub is_space : ℕ → Bool
is_space c = c == blank || leb tab c && leb c carriage_return

unfoldable pub trim_space : Text → Text
trim_space cs = trim_left is_space (trim_right is_space cs)

abbrev pub dollar : ℕ
dollar = 36

unfoldable pub text_eq : Text → Text → Bool
text_eq [] [] = true
text_eq (c ∷ cs) (d ∷ ds) = c == d && text_eq cs ds
text_eq _ _ = false

pub text_eq_iff : (a b : Text) → (text_eq a b ≡ true) ↔ (a ≡ b)
unfolding text_eq
text_eq_iff [] [] = ground arith
text_eq_iff [] (d ∷ ds) = ground arith
text_eq_iff (c ∷ cs) [] = ground arith
text_eq_iff (c ∷ cs) (d ∷ ds) = ground (arith, text_eq_iff cs ds)

-- `strings.TrimPrefix` where `strings.HasPrefix` holds
unfoldable pub after_prefix : Text → Text → Option Text
after_prefix [] cs = some cs
after_prefix (p ∷ ps) [] = none
after_prefix (p ∷ ps) (c ∷ cs) = if p == c then after_prefix ps cs else none

-- `strings.Split` at one character
abbrev pub put_first : ℕ → List Text → List Text
put_first c [] = (c ∷ []) ∷ []
put_first c (part ∷ parts) = (c ∷ part) ∷ parts

unfoldable pub split_at : ℕ → Text → List Text
split_at mark [] = [] ∷ []
split_at mark (c ∷ cs) =
    let rest = split_at mark cs in if c == mark then [] ∷ rest else put_first c rest

-- The bytes of a literal.
abbrev pub codes : String → Text
codes String.[] = []
codes (String.◌∷◌ c s) = code c ∷ codes s

abbrev pub replicate : ℕ → ℕ → Text
replicate zero c = []
replicate (suc n) c = c ∷ replicate n c
