-- ===== src/Util/Examples.antt =====
-- The guards on int64_t at the ends of the range.
use gredis.Base.Int.{pos, negsuc, ◌+ℤ◌, ◌-ℤ◌, ◌*ℤ◌}
use gredis.Base.{◌≡◌, ◌↔◌, refl, true, false, none, some, arith}
use gredis.Base.Bytes.{codes}
use gredis.Util.Parse.{parse_int64, to_string, parse_int64-to_string}
use gredis.Util.Int64.{
  InRange, max_int64, min_int64, add_would_overflow, sub_would_overflow, seconds_to_ms,
  guards_exact,
}

guard_runs :
    (add_would_overflow max_int64 (pos 1) ≡ true)
    × (add_would_overflow max_int64 (negsuc 0) ≡ false)
    × (sub_would_overflow min_int64 (pos 1) ≡ true)
    × (seconds_to_ms (pos 9_223_372_036_854_775) ≡ some (pos 9_223_372_036_854_775_000))
    × (seconds_to_ms (pos 9_223_372_036_854_776) ≡ none)
unfolding add_would_overflow sub_would_overflow seconds_to_ms ◌-ℤ◌ ◌+ℤ◌ ◌*ℤ◌
guard_runs = (refl, refl, refl, refl, refl)

guards_exact_example :
    ((add_would_overflow max_int64 (pos 1) ≡ false) ↔ InRange (max_int64 +ℤ pos 1))
    × ((sub_would_overflow max_int64 (pos 1) ≡ false) ↔ InRange (max_int64 -ℤ pos 1))
    × ((seconds_to_ms max_int64 ≡ some (max_int64 *ℤ pos 1000)) ↔ InRange (max_int64 *ℤ pos 1000))
guards_exact_example =
    guards_exact max_int64 (pos 1) (omega arith, omega arith) (omega arith, omega arith)

parse_runs :
    (parse_int64 (codes "-9223372036854775808") ≡ some min_int64)
    × (parse_int64 (codes "9223372036854775808") ≡ none)
    × (parse_int64 (codes "+5") ≡ none)
    × (parse_int64 (codes "007") ≡ some (pos 7))
    × (parse_int64 (codes "-") ≡ none)
    × (to_string (negsuc 41) ≡ codes "-42")
unfolding parse_int64 to_string
parse_runs = (refl, refl, refl, refl, refl, refl)

parse_int64-to_string_example : parse_int64 (to_string (negsuc 41)) ≡ some (negsuc 41)
parse_int64-to_string_example = parse_int64-to_string (negsuc 41) (omega arith, omega arith)
