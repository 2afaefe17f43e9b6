-- ===== src/Auth/Password/Scan/Laws.antt =====
-- Scanning what was printed.
use project_dia.Prelude.{
  ℕ, zero, suc, ◌+◌, ◌-◌, ◌*◌, ◌/◌, ◌%◌, ◌^◌, ◌<◌, ◌≡◌, refl, sym, ◌∙◌, ap, ◌==◌, ltb, true, false,
  some, [], ◌∷◌, ◌++◌, Bool-cases, inl, inr, arith,
}
use project_dia.Prelude.Text.{Text, is_digit, zero_digit, newline, is_space, dash, plus, dollar}
use project_dia.Prelude.Text.Laws.{IsFree}
use project_dia.Auth.Password.Scan.{
  print_before, decimal, expect, read_digits, scan_uint, scan_int, signed, bounded,
}

pub expect-append : (p rest : Text) → expect p (p ++ rest) ≡ some rest
unfolding expect
expect-append [] rest = refl
expect-append (c ∷ cs) rest = ground (arith, expect-append cs rest)

print_before-append :
    (fuel n : ℕ) (a b : Text) → print_before fuel n a ++ b ≡ print_before fuel n (a ++ b)
unfolding print_before
print_before-append zero n a b = refl
print_before-append (suc fuel) n a b = elim (Bool-cases (ltb n 10)) [
  | inl e ↦ rw e refl
  | inr e ↦ rw e (print_before-append fuel (n / 10) ((zero_digit + n % 10) ∷ a) b)
]

read_digit :
    (v d : ℕ) (rest : Text)
    → d < 10
    → read_digits v ((zero_digit + d) ∷ rest) ≡ read_digits (v * 10 + d) rest
unfolding read_digits
read_digit v d rest h =
    let is : is_digit (zero_digit + d) ≡ true = ground arith in
    let value : zero_digit + d - zero_digit ≡ d = omega arith in rw (is, value) refl

read_digits-print :
    (fuel n : ℕ) (rest : Text)
    → n < fuel
    → read_digits 0 (print_before fuel n rest) ≡ read_digits n rest
unfolding print_before
read_digits-print zero n rest h = absurd (omega arith)
read_digits-print (suc fuel) n rest h = elim (Bool-cases (ltb n 10)) [
  | inl e ↦ rw e (read_digit 0 n rest (ground arith) ∙ ap (λ k. read_digits k rest) (omega arith))
  | inr e ↦ rw e (
      read_digits-print fuel (n / 10) ((zero_digit + n % 10) ∷ rest) (ground arith)
      ∙ read_digit (n / 10) (n % 10) rest (omega arith)
      ∙ ap (λ k. read_digits k rest) (omega arith))
]

-- What is printed begins with a digit.
first_digit :
    (fuel n : ℕ) (rest : Text)
    → n < fuel
    → (c : ℕ) × (cs : Text) × (print_before fuel n rest ≡ c ∷ cs) × (is_digit c ≡ true)
unfolding print_before
first_digit zero n rest h = absurd (omega arith)
first_digit (suc fuel) n rest h = elim (Bool-cases (ltb n 10)) [
  | inl e ↦ (zero_digit + n, rest, rw e refl, ground arith)
  | inr e ↦ rw e (first_digit fuel (n / 10) ((zero_digit + n % 10) ∷ rest) (ground arith))
]

-- A number ends where no digit follows.
abbrev pub EndsNumber : Text → Type 0
EndsNumber rest = (n : ℕ) → read_digits n rest ≡ (n, rest)

pub decimal-append : (n : ℕ) (rest : Text) → decimal n ++ rest ≡ print_before (suc n) n rest
unfolding decimal
decimal-append n rest = print_before-append (suc n) n [] rest

-- A text that begins with a digit is scanned from that digit on.
scan_uint-digit :
    (limit c : ℕ) (cs : Text)
    → is_digit c ≡ true
    → scan_uint limit (c ∷ cs) ≡ bounded limit (read_digits 0 (c ∷ cs))
unfolding scan_uint
scan_uint-digit limit c cs h =
    let line : (c == newline) ≡ false = ground arith in
    let space : is_space c ≡ false = ground arith in rw (line, space, h) refl

scan_int-digit :
    (c : ℕ) (cs : Text)
    → is_digit c ≡ true
    → scan_int (c ∷ cs) ≡ signed false (bounded (2 ^ 63) (read_digits 0 (c ∷ cs)))
unfolding scan_int
scan_int-digit c cs h =
    let line : (c == newline) ≡ false = ground arith in
    let space : is_space c ≡ false = ground arith in
    let minus : (c == dash) ≡ false = ground arith in
    let positive : (c == plus) ≡ false = ground arith in rw (line, space, minus, positive, h) refl

module _ (limit n : ℕ) (rest : Text) (ends : EndsNumber rest) where
  read-decimal : read_digits 0 (decimal n ++ rest) ≡ (n, rest)
  read-decimal =
      ap (read_digits 0) (decimal-append n rest)
      ∙ read_digits-print (suc n) n rest (omega arith)
      ∙ ends n

  begins : (c : ℕ) × (cs : Text) × (decimal n ++ rest ≡ c ∷ cs) × (is_digit c ≡ true)
  begins =
      let (c, cs, e, is) = first_digit (suc n) n rest (omega arith) in
      (c, cs, decimal-append n rest ∙ e, is)

  bounded_lem : n < limit → bounded limit (n, rest) ≡ some (n, rest)
  bounded_lem h = ground arith

  pub scan_uint-decimal : n < limit → scan_uint limit (decimal n ++ rest) ≡ some (n, rest)
  scan_uint-decimal h =
      let (c, cs, e, is) = begins in
      ap (scan_uint limit) e
      ∙ scan_uint-digit limit c cs is
      ∙ ap (λ t. bounded limit (read_digits 0 t)) (sym e)
      ∙ ap (bounded limit) read-decimal
      ∙ bounded_lem h

module _ (n : ℕ) (rest : Text) (ends : EndsNumber rest) where
  pub scan_int-decimal : n < 2 ^ 63 → scan_int (decimal n ++ rest) ≡ some ((false, n), rest)
  scan_int-decimal h =
      let (c, cs, e, is) = begins (2 ^ 63) n rest ends in
      ap scan_int e
      ∙ scan_int-digit c cs is
      ∙ ap (λ t. signed false (bounded (2 ^ 63) (read_digits 0 t))) (sym e)
      ∙ ap (λ r. signed false (bounded (2 ^ 63) r)) (read-decimal (2 ^ 63) n rest ends)
      ∙ ap (signed false) (bounded_lem (2 ^ 63) n rest ends h)

print_before-IsFree :
    (fuel n : ℕ) (rest : Text) → IsFree dollar rest → IsFree dollar (print_before fuel n rest)
unfolding print_before
print_before-IsFree zero n rest h = h
print_before-IsFree (suc fuel) n rest h = elim (Bool-cases (ltb n 10)) [
  | inl e ↦ rw e (ground arith, h)
  | inr e ↦ rw e (print_before-IsFree fuel (n / 10) _ (ground arith, h))
]

pub decimal-IsFree : (n : ℕ) → IsFree dollar (decimal n)
unfolding decimal
decimal-IsFree n = print_before-IsFree (suc n) n [] tt
