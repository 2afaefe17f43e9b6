-- ===== src/Domain/Clock.antt =====
-- What the program uses of Go's package `time`: differences of times are durations of 64 bits that
-- saturate, and the negation of a duration wraps around at the least one.
pub mod Laws
use project_dia.Prelude.{◌-◌, ◌^◌, if◌then◌else◌}
use project_dia.Prelude.Int.{ℤ, pos, negsuc, ◌-ℤ◌, ltb_ℤ}

abbrev pub max_duration : ℤ
max_duration = pos (2 ^ 63 - 1)

abbrev pub min_duration : ℤ
min_duration = negsuc (2 ^ 63 - 1)

-- `t.Sub(u)`
unfoldable pub sub_time : ℤ → ℤ → ℤ
sub_time t u =
    let d = t -ℤ u in
    if ltb_ℤ max_duration d then max_duration else if ltb_ℤ d min_duration then min_duration else d

-- `-d`
unfoldable pub negate : ℤ → ℤ
negate d = let n = pos 0 -ℤ d in if ltb_ℤ max_duration n then min_duration else n

-- A difference of times, made positive as the code does it in two places.
unfoldable pub difference : ℤ → ℤ → ℤ
unfolding sub_time negate
difference a b = let d = sub_time a b in if ltb_ℤ d (pos 0) then negate d else d
