-- ===== src/Util/Crc32.antt =====
-- src/util/crc32.cpp.
use Prim.Native.Nat.{bit_and, bit_xor}
use gredis.Base.Bytes.{Bytes}
use gredis.Base.{ℕ, zero, suc, ◌/◌, ◌-◌, ◌%◌, ◌^◌, ◌==◌, List, [], ◌∷◌, if◌then◌else◌, get_or}

-- one step of the division by the polynomial, 0xEDB88320 with its lowest power first
unfoldable pub crc_step : ℕ → ℕ
crc_step c = if bit_and c 1 == 1 then bit_xor 3_988_292_384 (c / 2) else c / 2

unfoldable pub crc_steps : ℕ → ℕ → ℕ
crc_steps zero c = c
crc_steps (suc k) c = crc_steps k (crc_step c)

-- the entries of the table from `i` on
unfoldable pub crc_entries : ℕ → ℕ → List ℕ
crc_entries zero i = []
crc_entries (suc n) i = crc_steps 8 i ∷ crc_entries n (suc i)

unfoldable pub crc_table : List ℕ
crc_table = crc_entries 256 0

unfoldable pub crc_from : ℕ → Bytes → ℕ
crc_from crc [] = crc
crc_from crc (c ∷ left) =
    crc_from (bit_xor (get_or crc_table (bit_and (bit_xor crc c) 255) 0) (crc / 256)) left

-- an uint32_t
unfoldable pub crc32 : Bytes → ℕ
crc32 input = bit_xor (crc_from (2 ^ 32 - 1) input) (2 ^ 32 - 1) % 2 ^ 32
