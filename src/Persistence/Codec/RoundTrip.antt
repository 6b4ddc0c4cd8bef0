-- ===== src/Persistence/Codec/RoundTrip.antt =====
-- What src/persistence/snapshot.cpp writes for numbers and strings, it reads back.
use gredis.Base.Bytes.{Bytes}
use gredis.Base.Int.{ℤ, pos, negsuc}
use gredis.Base.{
  ℕ, zero, suc, ◌-◌, ◌*◌, ◌/◌, ◌^◌, ◌<◌, ◌≡◌, refl, ap, arith, false, some, ◌++◌, ltb, length,
  length-append, take-append, drop-append,
}
use gredis.Persistence.Codec.{
  write_le, read_le, write_u32, write_i64, write_lp_bytes, read_i64, read_lp_bytes,
}
use gredis.Util.Int64.{InRange}
use mathlib.Core.List.{append_assoc}

-- 256 ^ n
abbrev pub room : ℕ → ℕ
room zero = 1
room (suc n) = 256 * room n

pub read_le-write_le :
    (n v : ℕ) (rest : Bytes) → v < room n → read_le n (write_le n v ++ rest) ≡ some (v, rest)
unfolding read_le write_le
read_le-write_le zero v rest h = ap (λ u. some (u, rest)) (omega arith)
read_le-write_le (suc n) v rest h =
    rw (read_le-write_le n (v / 256) rest (omega arith)) (ap (λ u. some (u, rest)) (omega arith))

pub read_i64-write_i64 :
    (v : ℤ) (rest : Bytes) → InRange v → read_i64 (write_i64 v ++ rest) ≡ some (v, rest)
unfolding read_i64
read_i64-write_i64 (pos n) rest h =
    rw (read_le-write_le 8 n rest (omega arith), read_i64) (ground arith)
read_i64-write_i64 (negsuc n) rest h =
    rw (read_le-write_le 8 (2 ^ 64 - 1 - n) rest (omega arith), read_i64)
      (ap (λ u. some (u, rest)) (ground arith))

pub read_lp_bytes-write_lp_bytes :
    (s rest : Bytes) → length s < 2 ^ 32 → read_lp_bytes (write_lp_bytes s ++ rest) ≡ some (s, rest)
unfolding read_lp_bytes
read_lp_bytes-write_lp_bytes s rest h =
    let e : ltb (length (s ++ rest)) (length s) ≡ false = ground (arith, length-append s rest) in
    rw
      (
        append_assoc (write_u32 (length s)) s rest,
        read_le-write_le 4 (length s) (s ++ rest) (omega arith),
        read_lp_bytes,
        e,
        take-append s rest,
        drop-append s rest,
      )
      refl
