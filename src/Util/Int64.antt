-- ===== src/Util/Int64.antt =====
-- `int64_t` as an integer with its range, and the overflow tests that src/storage/database.cpp,
-- src/commands/cmd_keys.cpp, cmd_string.cpp and cmd_hash.cpp write before they add or subtract.
use gredis.Base.Int.{
  ℤ, pos, negsuc, ltb_ℤ, leb_ℤ, ◌+ℤ◌, ◌-ℤ◌, ◌*ℤ◌, ◌≤ℤ◌, pos_part, neg_part, +ℤ_parts, -ℤ_parts,
}
use gredis.Base.{
  refl, ◌+◌, ◌-◌, ◌*◌, ◌/◌, ◌^◌, ◌≡◌, ◌↔◌, Bool, true, false, not, ◌&&◌, ◌||◌, Option, none, some,
  arith, if◌then◌else◌,
}

abbrev pub max_int64 : ℤ
max_int64 = pos (2 ^ 63 - 1)

abbrev pub min_int64 : ℤ
min_int64 = negsuc (2 ^ 63 - 1)

abbrev pub InRange : ℤ → Type 0
InRange a = (min_int64 ≤ℤ a) × (a ≤ℤ max_int64)

unfoldable pub add_would_overflow : ℤ → ℤ → Bool
add_would_overflow a b =
    if ltb_ℤ (pos 0) b && ltb_ℤ (max_int64 -ℤ b) a
    then true
    else ltb_ℤ b (pos 0) && ltb_ℤ a (min_int64 -ℤ b)

unfoldable pub sub_would_overflow : ℤ → ℤ → Bool
sub_would_overflow a b =
    if ltb_ℤ (pos 0) b && ltb_ℤ a (min_int64 +ℤ b)
    then true
    else ltb_ℤ b (pos 0) && ltb_ℤ (max_int64 +ℤ b) a

-- A sum or a difference of two int64_t as it is held in 64 bits. C++ leaves an overflow open; the
-- model wraps around.
unfoldable pub wrap_int64 : ℤ → ℤ
wrap_int64 n =
    if ltb_ℤ max_int64 n
    then n -ℤ pos (2 ^ 64)
    else if ltb_ℤ n min_int64
    then n +ℤ pos (2 ^ 64)
    else n

pub wrap_int64-InRange : (n : ℤ) → InRange n → wrap_int64 n ≡ n
unfolding wrap_int64
wrap_int64-InRange n (lo, hi) =
    let not_above : ltb_ℤ max_int64 n ≡ false = ground arith in
    let not_below : ltb_ℤ n min_int64 ≡ false = ground arith in rw (not_above, not_below) refl

-- For two numbers in the range of int64_t the guard on the addition passes exactly if the sum is
-- in the range.
pub add_would_overflow_exact :
    (a b : ℤ) → InRange a → InRange b → (add_would_overflow a b ≡ false) ↔ InRange (a +ℤ b)
unfolding add_would_overflow
add_would_overflow_exact a b ha hb = (
  λ h. ground (arith, +ℤ_parts a b, -ℤ_parts max_int64 b, -ℤ_parts min_int64 b),
  λ h. ground (arith, +ℤ_parts a b, -ℤ_parts max_int64 b, -ℤ_parts min_int64 b),
)

-- For two numbers in the range of int64_t the guard on the subtraction passes exactly if the
-- difference is in the range.
pub sub_would_overflow_exact :
    (a b : ℤ) → InRange a → InRange b → (sub_would_overflow a b ≡ false) ↔ InRange (a -ℤ b)
unfolding sub_would_overflow
sub_would_overflow_exact a b ha hb = (
  λ h. ground (arith, -ℤ_parts a b, +ℤ_parts max_int64 b, +ℤ_parts min_int64 b),
  λ h. ground (arith, -ℤ_parts a b, +ℤ_parts max_int64 b, +ℤ_parts min_int64 b),
)

-- `seconds * 1000`, unless `seconds` lies beyond kMax / 1000 or kMin / 1000
unfoldable pub seconds_to_ms : ℤ → Option ℤ
seconds_to_ms s =
    if ltb_ℤ (pos ((2 ^ 63 - 1) / 1000)) s || ltb_ℤ s (negsuc (2 ^ 63 / 1000 - 1))
    then none
    else some (s *ℤ pos 1000)

thousand_parts :
    (s : ℤ)
    → pos_part (s *ℤ pos 1000) + 1000 * neg_part s ≡ neg_part (s *ℤ pos 1000) + 1000 * pos_part s
unfolding ◌*ℤ◌
thousand_parts (pos n) = ground arith
thousand_parts (negsuc n) = ground arith

-- The conversion of seconds gives the product with 1000 exactly if the product is in the range of
-- int64_t.
pub seconds_to_ms_exact :
    (s : ℤ) → (seconds_to_ms s ≡ some (s *ℤ pos 1000)) ↔ InRange (s *ℤ pos 1000)
unfolding seconds_to_ms
seconds_to_ms_exact s =
    (λ h. ground (arith, thousand_parts s), λ h. ground (arith, thousand_parts s))

-- For two numbers in the range of int64_t the guards on the addition and on the subtraction pass
-- exactly if the result is in the range, and the conversion of seconds gives the product with 1000
-- exactly if the product is.
pub guards_exact :
    (a b : ℤ)
    → InRange a
    → InRange b
    → ((add_would_overflow a b ≡ false) ↔ InRange (a +ℤ b))
      × ((sub_would_overflow a b ≡ false) ↔ InRange (a -ℤ b))
      × ((seconds_to_ms a ≡ some (a *ℤ pos 1000)) ↔ InRange (a *ℤ pos 1000))
guards_exact a b ha hb =
    (add_would_overflow_exact a b ha hb, sub_would_overflow_exact a b ha hb, seconds_to_ms_exact a)

abbrev pub in_range : ℤ → Bool
in_range a = leb_ℤ min_int64 a && leb_ℤ a max_int64

pub add_would_overflow-in_range :
    (a b : ℤ) → InRange a → InRange b → add_would_overflow a b ≡ not (in_range (a +ℤ b))
unfolding add_would_overflow
add_would_overflow-in_range a b ha hb =
    ground (arith, +ℤ_parts a b, -ℤ_parts max_int64 b, -ℤ_parts min_int64 b)

pub sub_would_overflow-in_range :
    (a b : ℤ) → InRange a → InRange b → sub_would_overflow a b ≡ not (in_range (a -ℤ b))
unfolding sub_would_overflow
sub_would_overflow-in_range a b ha hb =
    ground (arith, -ℤ_parts a b, +ℤ_parts max_int64 b, +ℤ_parts min_int64 b)

pub in_range-InRange : (a : ℤ) → in_range a ≡ true → InRange a
in_range-InRange a h = (ground arith, ground arith)

-- what a conversion that succeeds gives
pub seconds_to_ms_range :
    (s ms : ℤ) → seconds_to_ms s ≡ some ms → InRange ms × (pos 1 ≤ℤ s → pos 1 ≤ℤ ms)
unfolding seconds_to_ms
seconds_to_ms_range s ms h =
    (ground (arith, thousand_parts s), λ g. ground (arith, thousand_parts s))

pub seconds_to_ms-in_range :
    (s : ℤ) → seconds_to_ms s ≡ (if in_range (s *ℤ pos 1000) then some (s *ℤ pos 1000) else none)
unfolding seconds_to_ms
seconds_to_ms-in_range s = ground (arith, thousand_parts s)

pub InRange-in_range : (a : ℤ) → InRange a → in_range a ≡ true
InRange-in_range a h = ground arith
