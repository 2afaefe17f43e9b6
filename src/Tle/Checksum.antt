-- ===== src/Tle/Checksum.antt =====
-- The checksum and the validation of a line: server/go/internal/tle/tle.go.
use project_dia.Prelude.{
  Bool, not, if◌then◌else◌, ℕ, ◌+◌, ◌%◌, ◌<◌, ◌≤◌, ◌≡◌, ◌≢◌, refl, ap, ◌∙◌, sym, true, false,
  Option, none, some, [], ◌∷◌, ◌++◌, arith, ltb, length, ◌||◌,
}
use project_dia.Tle.{
  check_last, compare_checksum, digit_of, starts_with, Text, TleError, malformed, weight, weights,
  checksum, zero_digit, split_last, validate_line, min_line_length, line_length,
}

weights-append : (xs ys : Text) → weights (xs ++ ys) ≡ weights xs + weights ys
unfolding weights
weights-append [] ys = omega arith
weights-append (x ∷ xs) ys = omega (arith, weights-append xs ys)

-- Two sums that differ by less than ten, and not by nothing, have different last digits.
mod_differs : (a m n : ℕ) → m < 10 → n < 10 → m ≢ n → ((a + m) % 10) ≢ ((a + n) % 10)
mod_differs a m n hm hn d h = omega arith

weight-digit : (d : ℕ) → d < 10 → weight (zero_digit + d) ≡ d
unfolding weight
weight-digit d h = ground arith

-- A line in which a single digit is read as another digit has another checksum, wherever the digit
-- stands.
pub checksum-digit :
    (before after : Text) (d e : ℕ)
    → d < 10
    → e < 10
    → d ≢ e
    → checksum (before ++ (zero_digit + d) ∷ after) ≢ checksum (before ++ (zero_digit + e) ∷ after)
unfolding checksum weights
checksum-digit before after d e hd he differ h = omega (
  arith,
  differ,
  h,
  weights-append before ((zero_digit + d) ∷ after),
  weights-append before ((zero_digit + e) ∷ after),
  weight-digit d hd,
  weight-digit e he,
)

-- The last character of a text, and what stands before it.
split_last-append : (body : Text) (c : ℕ) → split_last (body ++ c ∷ []) ≡ some (body, c)
split_last-append [] c = refl
split_last-append (x ∷ xs) c = rw (split_last-append xs c) refl

accepts :
    (wrong_length begins : Bool) (rest : Option TleError)
    → wrong_length ≡ false
    → begins ≡ true
    → rest ≡ none
    → (if wrong_length then some malformed else if not begins then some malformed else rest) ≡ none
accepts wrong_length begins rest h k r = rw (h, k) r

checksum-lt : (body : Text) → checksum body < 10
unfolding checksum
checksum-lt body = omega arith

agreed :
    (body : Text) (digit : ℕ)
    → digit ≡ checksum body
    → check_last (some (body, zero_digit + digit)) ≡ none
agreed body digit h = ground (arith, checksum-lt body)

same_some : (m n : ℕ) → some m ≡ some n → m ≡ n
same_some m n h = cc

compared :
    (body : Text) (o : Option ℕ)
    → compare_checksum body o ≡ none
    → (n : ℕ) × (o ≡ some n) × (checksum body ≡ n)
compared body none h = cc
compared body (some n) h = (n, refl, ground (arith, h))

accepted_rest :
    (wrong_length begins : Bool) (rest : Option TleError)
    → (if wrong_length then some malformed else if not begins then some malformed else rest) ≡ none
    → rest ≡ none
accepted_rest true begins rest h = cc
accepted_rest false false rest h = cc
accepted_rest false true rest h = h

accepted_last :
    (body : Text) (c want : ℕ)
    → validate_line (body ++ c ∷ []) want ≡ none
    → (n : ℕ) × (digit_of c ≡ some n) × (checksum body ≡ n)
unfolding validate_line
accepted_last body c want h = compared body (digit_of c) (
    sym (ap check_last (split_last-append body c))
    ∙ accepted_rest
        (ltb (length (body ++ c ∷ [])) min_line_length || ltb line_length (length (body ++ c ∷ [])))
        (starts_with want (body ++ c ∷ [])) (check_last (split_last (body ++ c ∷ []))) h)

-- What a line that passes has: its length, its number, a blank, and a last digit that is the checksum
-- of the rest.
pub record IsLine (want : ℕ) (line : Text) : Type 0 where
  pub body : Text
  pub digit : ℕ
  pub is_whole : line ≡ body ++ (zero_digit + digit) ∷ []
  pub long : min_line_length ≤ length line
  pub short : length line ≤ line_length
  pub begins : starts_with want line ≡ true
  pub agrees : digit ≡ checksum body

-- A line of 68 or 69 characters that begins with its number and a blank and ends with the checksum of
-- what stands before is accepted.
pub IsLine-validate_line :
    (want : ℕ) (line : Text) → IsLine want line → validate_line line want ≡ none
unfolding validate_line
IsLine-validate_line want line l =
    accepts (ltb (length line) min_line_length || ltb line_length (length line))
      (starts_with want line) (check_last (split_last line)) (ground (arith, l.long, l.short))
      l.begins
      (ap (λ t. check_last (split_last t)) l.is_whole
        ∙ ap check_last (split_last-append l.body (zero_digit + l.digit))
        ∙ agreed l.body l.digit l.agrees)

-- A line in which one digit before the checksum is read as another digit is never accepted together
-- with the line itself.
pub validate_line-digit :
    (before after : Text) (d e c want : ℕ)
    → d < 10
    → e < 10
    → d ≢ e
    → validate_line ((before ++ (zero_digit + d) ∷ after) ++ c ∷ []) want ≡ none
    → validate_line ((before ++ (zero_digit + e) ∷ after) ++ c ∷ []) want ≢ none
validate_line-digit before after d e c want hd he differ good bad =
    let (m, hm, km) = accepted_last (before ++ (zero_digit + d) ∷ after) c want good in
    let (n, hn, kn) = accepted_last (before ++ (zero_digit + e) ∷ after) c want bad in
    checksum-digit before after d e hd he differ (km ∙ same_some m n (sym hm ∙ hn) ∙ sym kn)
