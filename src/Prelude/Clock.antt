-- ===== src/Prelude/Clock.antt =====
-- Go's `time.Time` as the nanoseconds since its zero value (`IsZero` is `== 0`), `time.Duration` as
-- nanoseconds. The durations of the program are never negative: 0 stands for `<= 0`.
use Prim.Native.Nat.{ℕ, ◌*◌, ◌-◌, min}

abbrev pub Time : Type 0
Time = ℕ

abbrev pub Duration : Type 0
Duration = ℕ

abbrev pub second : Duration
second = 1_000_000_000

abbrev pub minute : Duration
minute = 60 * second

abbrev pub hour : Duration
hour = 60 * minute

-- `math.MaxInt64`, where `Time.Sub` saturates.
abbrev pub max_duration : Duration
max_duration = 9_223_372_036_854_775_807

-- `a.Sub(b)` for `b` not after `a`; 0 stands for a negative difference.
abbrev pub sub_time : Time → Time → Duration
sub_time a b = min (a - b) max_duration
