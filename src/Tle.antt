-- ===== src/Tle.antt =====
-- server/go/internal/tle/tle.go: two-line element sets. A text is its bytes, which are taken to be
-- ASCII, so that a rune is a byte. The fraction of the day goes through Go's floats, so the duration
-- from the first of January is a parameter. An index out of range is a panic.
pub mod Checksum
pub mod Parse
use project_dia.Prelude.{
  ℕ, zero, suc, ◌+◌, ◌-◌, ◌*◌, ◌%◌, ◌==◌, ltb, leb, not, ◌&&◌, ◌||◌, Bool, true, false, Option,
  none, some, List, [], ◌∷◌, ◌++◌, length, if◌then◌else◌,
}
use project_dia.Prelude.Int.{ℤ, ◌+ℤ◌}
use project_dia.Domain.{Time, Duration}
unfoldable pub use project_dia.Prelude.Text.{
  Text, newline, tab, carriage_return, blank, plus, dash, zero_digit, is_digit, keep, trim_right,
  trim_left, is_space, trim_space,
}

abbrev pub line_length : ℕ
line_length = 69

abbrev pub min_line_length : ℕ
min_line_length = 68

pub data TleError : Type 0 where
  malformed checksum_mismatch : TleError

-- What a function of the package does: it returns a value, returns an error, or panics.
pub data Outcome {ℓ} (A : Type ℓ) : Type ℓ where
  parsed : A → Outcome A
  refused : TleError → Outcome A
  panics : Outcome A

pub record TleSet : Type 0 where
  pub name : Text
  pub norad_id : ℕ
  pub line1 : Text
  pub line2 : Text
  pub epoch : Time

infixl 5 ◌then◌
unfoldable pub ◌then◌ {ℓ κ} : {A : Type ℓ} {B : Type κ} → Outcome A → (A → Outcome B) → Outcome B
parsed a then f = f a
refused e then f = refused e
panics then f = panics

-- `s[from:to]`, where it is in range
abbrev pub take : ℕ → Text → Text
take zero cs = []
take (suc n) [] = []
take (suc n) (c ∷ cs) = c ∷ take n cs

abbrev pub drop : ℕ → Text → Text
drop zero cs = cs
drop (suc n) [] = []
drop (suc n) (c ∷ cs) = drop n cs

abbrev pub slice : ℕ → ℕ → Text → Text
slice from to cs = take (to - from) (drop from cs)

abbrev pub is_line_end : ℕ → Bool
is_line_end c = c == blank || c == tab || c == carriage_return

-- `strconv.Atoi` on at most eighteen characters, where no number is out of range.
abbrev pub digits_from : ℕ → Text → Option ℕ
digits_from n [] = some n
digits_from n (c ∷ cs) = if is_digit c then digits_from (10 * n + (c - zero_digit)) cs else none

abbrev pub unsigned : Text → Option ℕ
unsigned [] = none
unsigned (c ∷ cs) = digits_from 0 (c ∷ cs)

-- The number with its sign: `true` for a minus.
abbrev pub with_sign : Bool → Option ℕ → Option (Bool × ℕ)
with_sign s none = none
with_sign s (some n) = some (s, n)

unfoldable pub atoi : Text → Option (Bool × ℕ)
atoi [] = none
atoi (c ∷ cs) =
    if c == dash
    then with_sign true (unsigned cs)
    else with_sign false (if c == plus then unsigned cs else unsigned (c ∷ cs))

-- The sum of `Checksum`, before it is taken modulo ten.
unfoldable pub weight : ℕ → ℕ
weight c = if is_digit c then c - zero_digit else if c == dash then 1 else 0

unfoldable pub weights : Text → ℕ
weights [] = 0
weights (c ∷ cs) = weight c + weights cs

unfoldable pub checksum : Text → ℕ
checksum body = weights body % 10

-- The line without its last character, and that character.
abbrev pub split_last : Text → Option (Text × ℕ)
split_last [] = none
split_last (c ∷ cs) = elim (split_last cs) [
  | none ↦ some ([], c)
  | some (init, last) ↦ some (c ∷ init, last)
]

-- `strconv.Atoi` of a text of one character.
abbrev pub digit_of : ℕ → Option ℕ
digit_of c = if is_digit c then some (c - zero_digit) else none

abbrev pub compare_checksum : Text → Option ℕ → Option TleError
compare_checksum body none = some TleError.malformed
compare_checksum body (some expected) =
    if checksum body == expected then none else some TleError.checksum_mismatch

abbrev pub check_last : Option (Text × ℕ) → Option TleError
check_last none = some TleError.malformed
check_last (some (body, last)) = compare_checksum body (digit_of last)

abbrev pub starts_with : ℕ → Text → Bool
starts_with want (a ∷ b ∷ cs) = a == want && b == blank
starts_with want _ = false

unfoldable pub validate_line : Text → ℕ → Option TleError
validate_line line want =
    if ltb (length line) min_line_length || ltb line_length (length line)
    then some TleError.malformed
    else if not (starts_with want line)
    then some TleError.malformed
    else check_last (split_last line)
