-- ===== src/Prelude/Clock.antt =====
-- The parts of Go's package time that the program uses. A `time.Time` is the number of
-- nanoseconds since the zero Time, so that `IsZero` is a test against 0, and a `time.Duration`
-- is a signed number of nanoseconds; neither wraps. Times before the zero Time are not modelled.
use Prim.Native.Nat.{ℕ, ◌+◌, ◌-◌, ◌*◌}
use mathlib.Core.Bool.{Bool}
use sys_sentient.Prelude.Tests.{ltb, nat_beq}
use sys_sentient.Prelude.Int.{ℤ, pos_part, neg_part, sub_ℕ}

abbrev pub Time : Type 0
Time = ℕ

abbrev pub Duration : Type 0
Duration = ℤ

-- `t.Sub(u)`.
abbrev pub since : Time → Time → Duration
since t u = sub_ℕ t u

-- `t.Add(d)`.
abbrev pub add_time : Time → Duration → Time
add_time t d = t + pos_part d - neg_part d

-- `t.After(u)` and `t.Before(u)`.
abbrev pub after : Time → Time → Bool
after t u = ltb u t

abbrev pub before : Time → Time → Bool
before t u = ltb t u

abbrev pub is_zero : Time → Bool
is_zero t = nat_beq t 0

abbrev pub second : ℕ
second = 1_000_000_000

abbrev pub minute : ℕ
minute = 60 * second

abbrev pub hour : ℕ
hour = 60 * minute
