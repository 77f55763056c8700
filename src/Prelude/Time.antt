-- ===== src/Prelude/Time.antt =====
-- Go's `time.Time` and `time.Duration`. An instant is the number of nanoseconds since January 1 of
-- year 1, which is Go's zero time; instants before it are not represented. A duration is an
-- `int64` number of nanoseconds.
use Prim.Native.Nat.{ℕ, ◌-◌, min}
use mathlib.Core.Bool.{Bool}
use ainsel.Prelude.Tests.{leb, nat_beq, if◌then◌else◌}
use ainsel.Prelude.Int.{ℤ, pos, negsuc}

abbrev pub Instant : Type 0
Instant = ℕ

abbrev pub Duration : Type 0
Duration = ℤ

abbrev pub second : ℕ
second = 1000000000

abbrev pub minute : ℕ
minute = 60000000000

abbrev pub max_duration : ℕ
max_duration = 9223372036854775807

-- `t.IsZero()`
abbrev pub is_zero_time : Instant → Bool
is_zero_time t = nat_beq t 0

-- `t.Sub(u)`, which saturates at the ends of `int64`.
unfoldable pub time_sub : Instant → Instant → Duration
time_sub t u =
    if leb u t then pos (min (t - u) max_duration) else negsuc (min (u - t - 1) max_duration)
