-- ===== src/Net/Buffer.antt =====
-- src/net/buffer.h and buffer.cpp. What `data_.capacity()` answers is left to std::string, and is an
-- argument (`capacity`) of the methods that ask for it. `consume` asks its caller for an n of at most
-- `size()`, so the cursor stays within the bytes and `size()` does not wrap.
pub mod Queue
use gredis.Base.Bytes.{Bytes}
use gredis.Base.{
  ℕ, ◌+◌, ◌-◌, ◌/◌, Bool, [], ◌∷◌, ◌++◌, ltb, ◌==◌, if◌then◌else◌, length, take, drop, replicate,
}

pub record Buffer : Type 0 where
  pub bytes : Bytes
  pub read_pos : ℕ
  pub write_mark : ℕ

unfoldable pub fresh_buffer : Buffer
fresh_buffer = record { bytes = []; read_pos = 0; write_mark = 0 }

unfoldable pub readable : Buffer → Bytes
readable b = drop b.read_pos b.bytes

unfoldable pub is_drained : Buffer → Bool
is_drained b = b.read_pos == length b.bytes

unfoldable pub unread : Buffer → ℕ
unread b = length b.bytes - b.read_pos

-- `clear`
unfoldable pub reset : Buffer → Buffer
reset b = record b { bytes = []; read_pos = 0 }

unfoldable pub maybe_compact : ℕ → Buffer → Buffer
maybe_compact capacity b =
    if b.read_pos == 0
    then b
    else if ltb (capacity / 2) b.read_pos
    then record b { bytes = drop b.read_pos b.bytes; read_pos = 0 }
    else b

unfoldable pub append : ℕ → Bytes → Buffer → Buffer
append capacity s b = let b' = maybe_compact capacity b in record b' { bytes = b'.bytes ++ s }

unfoldable pub consume : ℕ → Buffer → Buffer
consume n b =
    let b' = record b { read_pos = b.read_pos + n } in
    if b'.read_pos == length b'.bytes then reset b' else b'

-- `resize` fills with zeros what it adds
unfoldable pub prepare_write : ℕ → ℕ → Buffer → Buffer
prepare_write capacity n b =
    let b' = maybe_compact capacity b in
    record b' { write_mark = length b'.bytes; bytes = b'.bytes ++ replicate n 0 }

-- a write through a pointer changes bytes that are there and adds none
unfoldable pub write_over : Bytes → Bytes → Bytes
write_over s [] = []
write_over [] (x ∷ xs) = x ∷ xs
write_over (c ∷ s) (x ∷ xs) = c ∷ write_over s xs

-- what `recv` leaves at the pointer that `prepare_write` returned
unfoldable pub write_at_mark : Bytes → Buffer → Buffer
write_at_mark s b = record b {
  bytes = take b.write_mark b.bytes ++ write_over s (drop b.write_mark b.bytes);
}

-- `resize` to a size that is not above the one it has
unfoldable pub commit_written : ℕ → Buffer → Buffer
commit_written actual_n b = record b { bytes = take (b.write_mark + actual_n) b.bytes }
