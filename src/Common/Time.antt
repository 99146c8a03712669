-- ===== src/Common/Time.antt =====
-- Times are nanoseconds since the zero time, and durations int64 nanoseconds.
use saucepan.Common.{ℕ, ◌+◌, ◌-◌, ◌*◌, ◌/◌, ◌%◌, ◌^◌}
use saucepan.Common.Float.{Float}
use saucepan.Common.Int.{ℤ, pos, pos_part, neg_part, wrap_int64, ◌*ℤ◌, ◌-ℤ◌}

abbrev pub second : ℕ
second = 10 ^ 9

abbrev pub minute : ℕ
minute = 60 * second

-- t.Add(d), no earlier than the zero time.
abbrev pub add_duration : ℕ → ℤ → ℕ
add_duration t d = t + pos_part d - neg_part d

-- time.Duration(n) * unit
unfoldable pub duration : ℤ → ℕ → ℤ
duration n unit = wrap_int64 (n *ℤ pos unit)

-- t.Add(-d)
unfoldable pub sub_duration : ℕ → ℤ → ℕ
sub_duration t d = add_duration t (wrap_int64 (pos 0 -ℤ d))

-- d.Seconds(), for a duration that is not negative
unfoldable pub seconds_of : (fl : Float) → ℕ → fl.F
seconds_of fl d =
    fl.add (fl.of_int (pos (d / second)))
      (fl.div (fl.of_int (pos (d % second))) (fl.lit 1000000000 0))
