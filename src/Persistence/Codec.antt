-- ===== src/Persistence/Codec.antt =====
-- The numbers and strings of src/persistence/snapshot.cpp: little-endian, byte by byte. A reader
-- gets the input from its offset on and returns the value with the input after it, or none.
pub mod RoundTrip
use gredis.Base.Bytes.{Bytes}
use gredis.Base.Int.{ℤ, pos, negsuc}
use gredis.Base.{
  ℕ, zero, suc, ◌+◌, ◌-◌, ◌*◌, ◌/◌, ◌%◌, ◌^◌, Option, none, some, [], ◌∷◌, ◌++◌, ltb, if◌then◌else◌,
  length, take, drop,
}

-- the low `n` bytes of a number, the lowest first
unfoldable pub write_le : ℕ → ℕ → Bytes
write_le zero v = []
write_le (suc n) v = v % 256 ∷ write_le n (v / 256)

abbrev pub write_u8 : ℕ → Bytes
write_u8 v = write_le 1 v

abbrev pub write_u16 : ℕ → Bytes
write_u16 v = write_le 2 v

abbrev pub write_u32 : ℕ → Bytes
write_u32 v = write_le 4 v

abbrev pub write_u64 : ℕ → Bytes
write_u64 v = write_le 8 v

-- the conversion of an int64_t to uint64_t
abbrev pub to_u64 : ℤ → ℕ
to_u64 (pos n) = n
to_u64 (negsuc n) = 2 ^ 64 - 1 - n

abbrev pub from_u64 : ℕ → ℤ
from_u64 bits = if ltb bits (2 ^ 63) then pos bits else negsuc (2 ^ 64 - 1 - bits)

abbrev pub write_i64 : ℤ → Bytes
write_i64 v = write_u64 (to_u64 v)

abbrev pub write_lp_bytes : Bytes → Bytes
write_lp_bytes s = write_u32 (length s) ++ s

-- nothing is read when fewer than `n` bytes are left
unfoldable pub read_le : ℕ → Bytes → Option (ℕ × Bytes)
read_le zero input = some (0, input)
read_le (suc n) [] = none
read_le (suc n) (c ∷ input) = elim (read_le n input) [
  | none ↦ none
  | some (v, rest) ↦ some (c + 256 * v, rest)
]

abbrev pub read_u8 : Bytes → Option (ℕ × Bytes)
read_u8 input = read_le 1 input

abbrev pub read_u16 : Bytes → Option (ℕ × Bytes)
read_u16 input = read_le 2 input

abbrev pub read_u32 : Bytes → Option (ℕ × Bytes)
read_u32 input = read_le 4 input

abbrev pub read_u64 : Bytes → Option (ℕ × Bytes)
read_u64 input = read_le 8 input

unfoldable pub read_i64 : Bytes → Option (ℤ × Bytes)
read_i64 input = elim (read_u64 input) [
  | none ↦ none
  | some (bits, rest) ↦ some (from_u64 bits, rest)
]

unfoldable pub read_lp_bytes : Bytes → Option (Bytes × Bytes)
read_lp_bytes input = elim (read_u32 input) [
  | none ↦ none
  | some (len, rest) ↦ if ltb (length rest) len then none else some (take len rest, drop len rest)
]
