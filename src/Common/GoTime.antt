-- ===== src/Common/GoTime.antt =====
-- Package time: an instant is its nanoseconds since January 1 of the year 1, so that 0 is the zero
-- Time; a Duration is a signed number of nanoseconds. Each reading of the clock is an argument.
use Prim.Native.Nat.{ℕ, ◌+◌, ◌-◌, ◌*◌, ◌/◌}
use mathlib.Core.Bool.{Bool}
use open_source.Common.Tests.{ltb, if◌then◌else◌}
use open_source.Common.Int.{ℤ, pos, negsuc, pos_part, neg_part, sub_ℕ, ltb_ℤ}

abbrev pub Time : Type 0
Time = ℕ

abbrev pub Duration : Type 0
Duration = ℤ

abbrev pub second : ℕ
second = 1000000000

-- `n * time.Second`, `n * time.Minute` and `n * time.Hour`
abbrev pub seconds : ℕ → Duration
seconds n = pos (n * second)

abbrev pub minutes : ℕ → Duration
minutes n = pos (n * 60 * second)

abbrev pub hours : ℕ → Duration
hours n = pos (n * 3600 * second)

-- `t.Add(d)`. A Duration is under 293 years, so no clock reading is taken below the year 1.
abbrev pub add : Time → Duration → Time
add t d = t + pos_part d - neg_part d

-- `t.Before(u)`
abbrev pub before : Time → Time → Bool
before t u = ltb t u

-- `math.MaxInt64`
abbrev pub max_int64 : ℕ
max_int64 = 9223372036854775807

-- A difference of two instants that no Duration holds becomes the nearest Duration.
abbrev pub saturate : ℤ → Duration
saturate (pos n) = pos (if ltb max_int64 n then max_int64 else n)
saturate (negsuc n) = negsuc (if ltb max_int64 n then max_int64 else n)

-- `t.Sub(u)`
abbrev pub sub : Time → Time → Duration
sub t u = saturate (sub_ℕ t u)

-- The seconds from the year 1 to 1970.
abbrev pub unix_epoch : ℕ
unix_epoch = 62135596800

-- `t.Unix()`, for an instant since 1970
abbrev pub unix : Time → ℕ
unix t = t / second - unix_epoch

-- `time.Until(t)` at the instant `now`, and a negative result taken as 0
abbrev pub until_or_zero : Time → Time → Duration
until_or_zero now t = let d = sub t now in if ltb_ℤ d (pos 0) then pos 0 else d

-- `t.UnixNano()`, for an instant since 1970, and `time.Unix(0, n)`
abbrev pub unix_nano : Time → ℕ
unix_nano t = t - unix_epoch * second

abbrev pub from_unix_nano : ℕ → Time
from_unix_nano n = unix_epoch * second + n
