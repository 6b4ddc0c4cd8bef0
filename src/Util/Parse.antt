-- ===== src/Util/Parse.antt =====
-- `parse_int64` of src/util/parse.cpp, with what it takes from `std::from_chars`, and
-- `std::to_string`, by which the commands write a number.
use gredis.Base.Bytes.{Bytes}
use gredis.Base.Int.{ℤ, pos, negsuc}
use gredis.Base.{
  ℕ, zero, suc, ◌+◌, ◌-◌, ◌*◌, ◌/◌, ◌%◌, ◌^◌, ◌<◌, ◌≡◌, refl, Bool, true, false, ◌&&◌, Option, none,
  some, arith, if◌then◌else◌, ltb, leb, ◌==◌, [], ◌∷◌, Bool-cases, inl, inr, ◌∙◌, ap,
}
use gredis.Util.Int64.{InRange}

abbrev pub is_digit : ℕ → Bool
is_digit c = leb 48 c && leb c 57

-- the number that the digits tell after `n`, none at any other byte
pub scan : Bytes → ℕ → Option ℕ
scan [] n = some n
scan (c ∷ s) n = if is_digit c then scan s (n * 10 + (c - 48)) else none

-- one digit at least
pub parse_digits : Bytes → Option ℕ
parse_digits [] = none
parse_digits (c ∷ s) = scan (c ∷ s) 0

abbrev in_range_pos : Option ℕ → Option ℤ
in_range_pos none = none
in_range_pos (some n) = if ltb n (2 ^ 63) then some (pos n) else none

abbrev in_range_neg : Option ℕ → Option ℤ
in_range_neg none = none
in_range_neg (some zero) = some (pos 0)
in_range_neg (some (suc n)) = if ltb n (2 ^ 63) then some (negsuc n) else none

-- a minus sign or none, then digits to the end, and a value that is an int64_t
unfoldable pub parse_int64 : Bytes → Option ℤ
unfolding scan parse_digits
parse_int64 [] = none
parse_int64 (c ∷ s) =
    if c == 45 then in_range_neg (parse_digits s) else in_range_pos (parse_digits (c ∷ s))

-- `fuel` above `n` is enough, since each round divides `n` by ten
unfoldable pub digits : ℕ → ℕ → Bytes → Bytes
digits zero n out = out
digits (suc fuel) n out = elim (ltb n 10) [
  | true ↦ (48 + n) ∷ out
  | false ↦ digits fuel (n / 10) ((48 + n % 10) ∷ out)
]

unfoldable pub to_string : ℤ → Bytes
unfolding digits
to_string (pos n) = digits (suc n) n []
to_string (negsuc n) = 45 ∷ digits (suc (suc n)) (suc n) []

scan-digits : (fuel n : ℕ) (out : Bytes) → n < fuel → scan (digits fuel n out) 0 ≡ scan out n
unfolding scan digits
scan-digits zero n out h = absurd (omega arith)
scan-digits (suc fuel) n out h = elim (Bool-cases (ltb n 10)) [
  | inl e ↦ rw (e, digits) (ground arith)
  | inr e ↦ rw (e, digits) (scan-digits fuel (n / 10) _ (ground arith) ∙ ground arith)
]

-- what is written starts with a digit
abbrev starts : Bytes → Bool
starts [] = false
starts (c ∷ s) = is_digit c

starts-digits : (fuel n : ℕ) (out : Bytes) → n < fuel → starts (digits fuel n out) ≡ true
unfolding digits
starts-digits zero n out h = absurd (omega arith)
starts-digits (suc fuel) n out h = elim (Bool-cases (ltb n 10)) [
  | inl e ↦ rw (e, digits) (ground arith)
  | inr e ↦ rw (e, digits) (starts-digits fuel (n / 10) _ (ground arith))
]

parse_digits-starts : (s : Bytes) → starts s ≡ true → parse_digits s ≡ scan s 0
unfolding parse_digits
parse_digits-starts [] h = cc
parse_digits-starts (c ∷ s) h = refl

parse_digits-digits : (fuel n : ℕ) → n < fuel → parse_digits (digits fuel n []) ≡ some n
unfolding scan
parse_digits-digits fuel n h =
    parse_digits-starts _ (starts-digits fuel n [] h) ∙ scan-digits fuel n [] h

parse_int64-starts : (s : Bytes) → starts s ≡ true → parse_int64 s ≡ in_range_pos (parse_digits s)
unfolding parse_int64
parse_int64-starts [] h = cc
parse_int64-starts (c ∷ s) h = ground arith

-- A number in the range of int64_t, written by `to_string`, is read back by `parse_int64`.
pub parse_int64-to_string : (a : ℤ) → InRange a → parse_int64 (to_string a) ≡ some a
unfolding to_string parse_int64
parse_int64-to_string (pos n) h =
    parse_int64-starts (digits (suc n) n []) (starts-digits (suc n) n [] (omega arith))
    ∙ ap in_range_pos (parse_digits-digits (suc n) n (omega arith))
    ∙ ground arith
parse_int64-to_string (negsuc n) h =
    ap in_range_neg (parse_digits-digits (suc (suc n)) (suc n) (omega arith)) ∙ ground arith

in_range_pos-InRange : (o : Option ℕ) (a : ℤ) → in_range_pos o ≡ some a → InRange a
in_range_pos-InRange none a h = cc
in_range_pos-InRange (some n) a h = ground arith

in_range_neg-InRange : (o : Option ℕ) (a : ℤ) → in_range_neg o ≡ some a → InRange a
in_range_neg-InRange none a h = cc
in_range_neg-InRange (some zero) a h = ground arith
in_range_neg-InRange (some (suc n)) a h = ground arith

-- What `parse_int64` reads is in the range of int64_t.
pub parse_int64-InRange : (s : Bytes) (a : ℤ) → parse_int64 s ≡ some a → InRange a
unfolding parse_int64
parse_int64-InRange [] a h = cc
parse_int64-InRange (c ∷ s) a h = elim (Bool-cases (c == 45)) [
  | inl e ↦ in_range_neg-InRange (parse_digits s) a (rw (e, parse_int64) at h)
  | inr e ↦ in_range_pos-InRange (parse_digits (c ∷ s)) a (rw (e, parse_int64) at h)
]
