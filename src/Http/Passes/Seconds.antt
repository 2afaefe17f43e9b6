-- ===== src/Http/Passes/Seconds.antt =====
-- The lengths of time that server/go/internal/httpapi/pass_handlers.go makes of seconds.
use project_dia.Prelude.{
  ℕ, ◌*◌, ◌%◌, ◌^◌, ◌≤◌, ◌<◌, ◌≡◌, ◌↔◌, refl, false, leb, arith, if◌then◌else◌,
}
use project_dia.Prelude.Int.{pos, ◌-ℤ◌, pos_part, neg_part}
use project_dia.Domain.{second}
use project_dia.Http.Passes.{seconds}

-- The most seconds that 64 bits of nanoseconds hold.
abbrev pub most_seconds : ℕ
most_seconds = 9223372036

fits : (n : ℕ) → n ≤ most_seconds → seconds (pos n) ≡ pos (n * second)
unfolding seconds
fits n h =
    let m : n * second % 2 ^ 64 ≡ n * second = omega arith in
    let small : leb (2 ^ 63) (n * second) ≡ false = ground arith in rw (m, small) refl

-- The wrapped value is a number that is not negative only where nothing wrapped around.
wrapped :
    (m k : ℕ)
    → m < 2 ^ 64
    → (if leb (2 ^ 63) m then pos m -ℤ pos (2 ^ 64) else pos m) ≡ pos k
    → (m < 2 ^ 63) × (m ≡ k)
unfolding ◌-ℤ◌ pos_part neg_part
wrapped m k h e = ground arith

only : (n : ℕ) → seconds (pos n) ≡ pos (n * second) → n ≤ most_seconds
unfolding seconds
only n e =
    let (small, same) = wrapped (n * second % 2 ^ 64) (n * second) (omega arith) e in omega arith

-- A number of seconds that is not negative becomes that length of time exactly where it is at most
-- 9223372036; above, the product wraps around in 64 bits and is another length of time.
pub seconds_iff : (n : ℕ) → (seconds (pos n) ≡ pos (n * second)) ↔ (n ≤ most_seconds)
seconds_iff n = (only n, fits n)
