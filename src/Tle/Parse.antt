-- ===== src/Tle/Parse.antt =====
-- server/go/internal/tle/tle.go: `Parse`, `newSet`, `catalogNumber` and `ParseEpoch`.
pub mod Laws
use project_dia.Prelude.{
  ℕ, zero, suc, ◌+◌, ◌-◌, ◌*◌, ◌/◌, ◌==◌, ltb, leb, not, ◌&&◌, ◌||◌, Bool, true, false, Option,
  none, some, List, [], ◌∷◌, length, if◌then◌else◌,
}
use project_dia.Prelude.Int.{ℤ, pos, ◌+ℤ◌, ◌-ℤ◌}
use project_dia.Domain.{Time, Duration, hour}
use project_dia.Tle.{
  Text, newline, blank, zero_digit, TleError, malformed, Outcome, parsed, refused, panics, TleSet,
  ◌then◌, take, drop, slice, trim_right, is_line_end, trim_space, atoi, validate_line,
}

-- `if err != nil { return err }`
abbrev pub refuse_if_some : Option TleError → Outcome (Unit {0})
refuse_if_some none = parsed tt
refuse_if_some (some e) = refused e

abbrev pub positive_number : Option (Bool × ℕ) → Outcome ℕ
positive_number (some (false, suc n)) = parsed (suc n)
positive_number _ = refused malformed

unfoldable pub catalog_number : Text → Outcome ℕ
catalog_number line = positive_number (atoi (trim_space (slice 2 7 line)))

abbrev pub day : ℕ
day = 24 * hour

-- The days from the first of January of year 1 to that of another year.
abbrev pub days_before : ℕ → ℕ
days_before year = 365 * (year - 1) + (year - 1) / 4 - (year - 1) / 100 + (year - 1) / 400

-- `time.Date(year, time.January, 1, …)`
abbrev pub year_start : ℕ → Time
year_start year = pos (days_before year * day) -ℤ pos (days_before 1970 * day)

-- The full year of a number of two characters; a minus sign is not refused.
abbrev pub full_year : Bool × ℕ → ℕ
full_year (true, n) = 2000 - n
full_year (false, n) = if ltb n 57 then 2000 + n else 1900 + n

abbrev pub same_number : ℕ → ℕ → Outcome (Unit {0})
same_number a b = if a == b then parsed tt else refused malformed

-- `strings.Split(text, "\n")`
abbrev pub put_first : ℕ → List Text → List Text
put_first c [] = (c ∷ []) ∷ []
put_first c (line ∷ lines) = (c ∷ line) ∷ lines

unfoldable pub split : Text → List Text
split [] = [] ∷ []
split (c ∷ cs) = let rest = split cs in if c == newline then [] ∷ rest else put_first c rest

abbrev pub cons_filled : Text → List Text → List Text
cons_filled [] lines = lines
cons_filled (c ∷ cs) lines = (c ∷ cs) ∷ lines

-- The loop that trims the lines and drops the empty ones.
unfoldable pub filled_lines : List Text → List Text
filled_lines [] = []
filled_lines (line ∷ lines) = cons_filled (trim_right is_line_end line) (filled_lines lines)

-- `strings.TrimPrefix(line, "0 ")`
abbrev pub without_prefix : Text → Text
without_prefix (a ∷ b ∷ cs) = if a == zero_digit && b == blank then cs else a ∷ b ∷ cs
without_prefix cs = cs

module _ (day_offset : Text → Option Duration) where
  abbrev pub add_offset : ℕ → Option Duration → Outcome Time
  add_offset year none = refused malformed
  add_offset year (some offset) = parsed (year_start year +ℤ offset)

  abbrev pub epoch_in : Text → Option (Bool × ℕ) → Outcome Time
  epoch_in rest none = refused malformed
  epoch_in rest (some y) = add_offset (full_year y) (day_offset rest)

  -- `field[:2]` and `field[2:]`
  abbrev pub epoch_of_field : Text → Outcome Time
  epoch_of_field field =
      if ltb (length field) 2 then panics else epoch_in (drop 2 field) (atoi (take 2 field))

  unfoldable pub parse_epoch : Text → Outcome Time
  parse_epoch line1 =
      if ltb (length line1) 32
      then refused malformed
      else epoch_of_field (trim_space (slice 18 32 line1))

  unfoldable pub new_set : Text → Text → Text → Outcome TleSet
  new_set name line1 line2 = refuse_if_some (validate_line line1 49) then λ _.
      refuse_if_some (validate_line line2 50) then λ _. catalog_number line1 then λ norad_id.
      catalog_number line2 then λ second_id. same_number norad_id second_id then λ _.
      parse_epoch line1 then λ epoch. parsed (record {
        name = trim_space name;
        norad_id = norad_id;
        line1 = line1;
        line2 = line2;
        epoch = epoch;
      })

  abbrev pub set_of_lines : List Text → Outcome TleSet
  set_of_lines (a ∷ b ∷ []) = new_set [] a b
  set_of_lines (a ∷ b ∷ c ∷ []) = new_set (without_prefix a) b c
  set_of_lines _ = refused malformed

  unfoldable pub parse : Text → Outcome TleSet
  parse text = set_of_lines (filled_lines (split text))
