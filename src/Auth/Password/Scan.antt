-- ===== src/Auth/Password/Scan.antt =====
-- What server/go/internal/auth/password.go uses of Go's package `fmt`: `%d` of `Sprintf`, and the
-- literals and numbers of `Sscanf`.
pub mod Laws
use project_dia.Prelude.{
  ℕ, zero, suc, ◌+◌, ◌-◌, ◌*◌, ◌/◌, ◌%◌, ◌^◌, ◌<◌, ◌≡◌, refl, ◌==◌, ◌&&◌, not, ltb, leb, Bool, true,
  false, Option, none, some, List, [], ◌∷◌, ◌++◌, if◌then◌else◌, Bool-cases, inl, inr, arith,
}
use project_dia.Prelude.Text.{
  Text, is_digit, zero_digit, newline, carriage_return, is_space, dash, plus,
}

-- The digits of a number before those that are given.
unfoldable pub print_before : ℕ → ℕ → Text → Text
print_before zero n rest = rest
print_before (suc fuel) n rest =
    let more = print_before fuel (n / 10) ((zero_digit + n % 10) ∷ rest) in
    if ltb n 10 then (zero_digit + n) ∷ rest else more

unfoldable pub decimal : ℕ → Text
unfolding print_before
decimal n = print_before (suc n) n []

-- Literal characters of a format.
unfoldable pub expect : Text → Text → Option Text
expect [] cs = some cs
expect (p ∷ ps) [] = none
expect (p ∷ ps) (c ∷ cs) = if p == c then expect ps cs else none

-- The blanks before a number; a line's end is refused.
unfoldable pub skip_space : Text → Option Text
skip_space [] = some []
skip_space (c ∷ cs) =
    if c == newline then none else if is_space c then skip_space cs else some (c ∷ cs)

unfoldable pub read_digits : ℕ → Text → ℕ × Text
read_digits n [] = (n, [])
read_digits n (c ∷ cs) =
    let more = read_digits (n * 10 + (c - zero_digit)) cs in
    if is_digit c then more else (n, c ∷ cs)

abbrev pub bounded : ℕ → ℕ × Text → Option (ℕ × Text)
bounded limit (n, rest) = if ltb n limit then some (n, rest) else none

-- A number has a first digit.
unfoldable pub scan_number : ℕ → Text → Option (ℕ × Text)
unfolding read_digits
scan_number limit [] = none
scan_number limit (c ∷ cs) = if is_digit c then bounded limit (read_digits 0 (c ∷ cs)) else none

abbrev pub scan_after : ℕ → Option Text → Option (ℕ × Text)
scan_after limit none = none
scan_after limit (some cs) = scan_number limit cs

unfoldable pub scan_uint : ℕ → Text → Option (ℕ × Text)
unfolding skip_space scan_number
scan_uint limit cs = scan_after limit (skip_space cs)

abbrev pub signed : Bool → Option (ℕ × Text) → Option ((Bool × ℕ) × Text)
signed negative none = none
signed negative (some (n, rest)) = some ((negative, n), rest)

abbrev pub scan_sign : Option Text → Option ((Bool × ℕ) × Text)
scan_sign none = none
scan_sign (some []) = none
scan_sign (some (c ∷ cs)) =
    if c == dash
    then signed true (scan_number (2 ^ 63 + 1) cs)
    else if c == plus
    then signed false (scan_number (2 ^ 63) cs)
    else signed false (scan_number (2 ^ 63) (c ∷ cs))

unfoldable pub scan_int : Text → Option ((Bool × ℕ) × Text)
unfolding skip_space scan_number
scan_int cs = scan_sign (skip_space cs)
