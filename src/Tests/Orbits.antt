-- ===== src/Tests/Orbits.antt =====
-- Two-line elements of the International Space Station, whole, misread and with a blank epoch.
use project_dia.Prelude.{
  Option, any, ◌==◌, ◌+◌, ◌≡◌, ◌≢◌, refl, none, some, [], ◌∷◌, ◌++◌, false, arith,
}
use project_dia.Prelude.Int.{pos, ◌+ℤ◌}
use project_dia.Domain.{Duration}
use project_dia.Tle.{
  ◌then◌, weights, weight, trim_right, trim_left, trim_space, atoi, Text, TleSet, panics,
  validate_line, checksum, zero_digit, newline, blank, carriage_return,
}
use project_dia.Tle.Checksum.{validate_line-digit}
use project_dia.Tle.Parse.{parse_epoch, year_start, new_set, parse, catalog_number}
use project_dia.Tle.Parse.Laws.{
  OneLine, IsKept, IsOf, parse-two, new_set-IsConsistent, new_set-panics,
}

abbrev line1 : Text
line1 =
    49 ∷ 32 ∷ 50 ∷ 53 ∷ 53 ∷ 52 ∷ 52 ∷ 85 ∷ 32 ∷ 57 ∷ 56 ∷ 48 ∷ 54 ∷ 55 ∷ 65 ∷ 32 ∷ 32 ∷ 32 ∷ 48
    ∷ 56 ∷ 50 ∷ 54 ∷ 52 ∷ 46 ∷ 53 ∷ 49 ∷ 55 ∷ 56 ∷ 50 ∷ 53 ∷ 50 ∷ 56 ∷ 32 ∷ 45 ∷ 46 ∷ 48 ∷ 48 ∷ 48
    ∷ 48 ∷ 50 ∷ 49 ∷ 56 ∷ 50 ∷ 32 ∷ 32 ∷ 48 ∷ 48 ∷ 48 ∷ 48 ∷ 48 ∷ 45 ∷ 48 ∷ 32 ∷ 45 ∷ 49 ∷ 49 ∷ 54
    ∷ 48 ∷ 54 ∷ 45 ∷ 52 ∷ 32 ∷ 48 ∷ 32 ∷ 32 ∷ 50 ∷ 57 ∷ 50 ∷ 55 ∷ []

abbrev line2 : Text
line2 =
    50 ∷ 32 ∷ 50 ∷ 53 ∷ 53 ∷ 52 ∷ 52 ∷ 32 ∷ 32 ∷ 53 ∷ 49 ∷ 46 ∷ 54 ∷ 52 ∷ 49 ∷ 54 ∷ 32 ∷ 50 ∷ 52
    ∷ 55 ∷ 46 ∷ 52 ∷ 54 ∷ 50 ∷ 55 ∷ 32 ∷ 48 ∷ 48 ∷ 48 ∷ 54 ∷ 55 ∷ 48 ∷ 51 ∷ 32 ∷ 49 ∷ 51 ∷ 48 ∷ 46
    ∷ 53 ∷ 51 ∷ 54 ∷ 48 ∷ 32 ∷ 51 ∷ 50 ∷ 53 ∷ 46 ∷ 48 ∷ 50 ∷ 56 ∷ 56 ∷ 32 ∷ 49 ∷ 53 ∷ 46 ∷ 55 ∷ 50
    ∷ 49 ∷ 50 ∷ 53 ∷ 51 ∷ 57 ∷ 49 ∷ 53 ∷ 54 ∷ 51 ∷ 53 ∷ 51 ∷ 55 ∷ []

abbrev blank_line : Text
blank_line =
    49 ∷ 32 ∷ 50 ∷ 53 ∷ 53 ∷ 52 ∷ 52 ∷ 85 ∷ 32 ∷ 57 ∷ 56 ∷ 48 ∷ 54 ∷ 55 ∷ 65 ∷ 32 ∷ 32 ∷ 32 ∷ 32
    ∷ 32 ∷ 32 ∷ 32 ∷ 32 ∷ 32 ∷ 32 ∷ 32 ∷ 32 ∷ 32 ∷ 32 ∷ 32 ∷ 32 ∷ 32 ∷ 32 ∷ 45 ∷ 46 ∷ 48 ∷ 48 ∷ 48
    ∷ 48 ∷ 50 ∷ 49 ∷ 56 ∷ 50 ∷ 32 ∷ 32 ∷ 48 ∷ 48 ∷ 48 ∷ 48 ∷ 48 ∷ 45 ∷ 48 ∷ 32 ∷ 45 ∷ 49 ∷ 49 ∷ 54
    ∷ 48 ∷ 54 ∷ 45 ∷ 52 ∷ 32 ∷ 48 ∷ 32 ∷ 32 ∷ 50 ∷ 57 ∷ 50 ∷ 57 ∷ []

abbrev before_digit : Text
before_digit =
    49 ∷ 32 ∷ 50 ∷ 53 ∷ 53 ∷ 52 ∷ 52 ∷ 85 ∷ 32 ∷ 57 ∷ 56 ∷ 48 ∷ 54 ∷ 55 ∷ 65 ∷ 32 ∷ 32 ∷ 32 ∷ 48
    ∷ 56 ∷ []

abbrev after_digit : Text
after_digit =
    54 ∷ 52 ∷ 46 ∷ 53 ∷ 49 ∷ 55 ∷ 56 ∷ 50 ∷ 53 ∷ 50 ∷ 56 ∷ 32 ∷ 45 ∷ 46 ∷ 48 ∷ 48 ∷ 48 ∷ 48 ∷ 50
    ∷ 49 ∷ 56 ∷ 50 ∷ 32 ∷ 32 ∷ 48 ∷ 48 ∷ 48 ∷ 48 ∷ 48 ∷ 45 ∷ 48 ∷ 32 ∷ 45 ∷ 49 ∷ 49 ∷ 54 ∷ 48 ∷ 54
    ∷ 45 ∷ 52 ∷ 32 ∷ 48 ∷ 32 ∷ 32 ∷ 50 ∷ 57 ∷ 50 ∷ []

-- The fraction of a day is left out.
abbrev no_offset : Text → Option Duration
no_offset digits = some (pos 0)

validate_line-digit_example :
    validate_line ((before_digit ++ (zero_digit + 7) ∷ after_digit) ++ 55 ∷ []) 49 ≢ none
unfolding validate_line checksum weights weight
validate_line-digit_example =
    validate_line-digit before_digit after_digit 2 7 55 49 (omega arith) (omega arith)
      (λ h. omega (arith, h)) refl

OneLine-of : (cs : Text) → any (λ c. c == newline) cs ≡ false → OneLine cs
OneLine-of [] h = tt
OneLine-of (c ∷ cs) h = (ground (arith, h), OneLine-of cs (ground (arith, h)))

kept1 : IsKept line1
unfolding trim_right
kept1 = record { one_line = OneLine-of line1 refl; is_filled = λ h. cc; is_trimmed = refl }

kept2 : IsKept line2
unfolding trim_right
kept2 = record { one_line = OneLine-of line2 refl; is_filled = λ h. cc; is_trimmed = refl }

parse-two_example :
    parse no_offset ((line1 ++ carriage_return ∷ []) ++ newline ∷ (line2 ++ blank ∷ []))
    ≡ new_set no_offset [] line1 line2
parse-two_example =
    parse-two no_offset line1 line2 (carriage_return ∷ []) (blank ∷ []) kept1 kept2 (refl, tt)
      (refl, tt)

abbrev station_set : TleSet
station_set = record {
  name = [];
  norad_id = 25544;
  line1 = line1;
  line2 = line2;
  epoch = year_start 2008 +ℤ pos 0;
}

new_set-IsConsistent_example : IsOf line1 line2 station_set
unfolding new_set ◌then◌ validate_line checksum weights weight catalog_number trim_space trim_left
    trim_right atoi parse_epoch
new_set-IsConsistent_example = new_set-IsConsistent no_offset [] line1 line2 station_set refl

new_set-panics_example : new_set no_offset [] blank_line line2 ≡ panics
unfolding validate_line checksum weights weight catalog_number trim_space trim_left trim_right atoi
new_set-panics_example = new_set-panics no_offset [] blank_line line2 25544 refl refl refl refl (
  refl,
  (
    refl,
    (
      refl,
      (refl, (refl, (refl, (refl, (refl, (refl, (refl, (refl, (refl, (refl, (refl, tt))))))))))),
    ),
  ),
)
