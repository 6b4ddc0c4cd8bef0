-- ===== src/Persistence/Snapshot.antt =====
-- src/persistence/snapshot.cpp: the records of a snapshot, with header and footer. A sorted set is
-- what an interface offers of it, with scores as the 64 bits that are written. The file operations
-- are not modelled.
pub mod Payload
pub mod Records
pub mod Whole
pub mod Fuel
use gredis.Base.Bytes.{Bytes, codes, bytes_eq}
use gredis.Base.Int.{ℤ, pos}
use gredis.Base.{
  ℕ, zero, suc, ◌+◌, ◌-◌, ◌⊎◌, inl, inr, ◌≡◌, ◌||◌, not, Option, none, some, List, [], ◌∷◌, ◌++◌,
  ltb, ◌==◌, if◌then◌else◌, length, take, drop, get_or,
}
use gredis.Commands.Value.{
  Value, Empty, empty, string_value, hash_value, list_value, set_value, zset_value,
}
use gredis.Persistence.Codec.{
  write_u8, write_u16, write_u32, write_u64, write_i64, write_lp_bytes, to_u64, read_u8, read_u16,
  read_u32, read_u64, read_i64, read_lp_bytes,
}
use gredis.Protocol.Outcome.{Outcome, parsed, incomplete, failed, and_then}
use gredis.Storage.Database.{Database, empty_database, load_key, for_each_for_snapshot}
use gredis.Storage.HashTable
use gredis.Storage.HashTable.Strings.{string_key}
use gredis.Storage.HashTable.{HashTable}
use gredis.Util.Crc32.{crc32}
use gredis.Util.Parse.{to_string}

-- what the snapshot uses of a sorted set: its size, its members in order, and how one is built
pub record ZSets (Z : Type 0) : Type 0 where
  pub zset_size : Z → ℕ
  pub members : Z → List (Bytes × ℕ)
  pub no_zset : Z
  pub upsert : Z → Bytes → ℕ → Z
  pub length-members : (z : Z) → length (members z) ≡ zset_size z

-- a read, with the message of the record it belongs to
abbrev pub or_error {ℓ} : {A : Type ℓ} → Bytes → Option (A × Bytes) → Outcome A
or_error e none = failed e
or_error e (some (a, rest)) = parsed a rest

unfoldable pub write_items : List Bytes → Bytes
write_items [] = []
write_items (item ∷ items) = write_lp_bytes item ++ write_items items

unfoldable pub write_entries : List (Bytes × Bytes) → Bytes
write_entries [] = []
write_entries ((field, value) ∷ es) =
    write_lp_bytes field ++ (write_lp_bytes value ++ write_entries es)

unfoldable pub write_set : List (Bytes × Empty) → Bytes
write_set [] = []
write_set ((member, _) ∷ es) = write_lp_bytes member ++ write_set es

unfoldable pub write_scores : List (Bytes × ℕ) → Bytes
write_scores [] = []
write_scores ((member, score) ∷ ms) = write_lp_bytes member ++ (write_u64 score ++ write_scores ms)

unfoldable pub read_items : ℕ → List Bytes → Bytes → Outcome (List Bytes)
read_items zero list input = parsed list input
read_items (suc count) list input =
    and_then
      (or_error (codes "list payload: element length points past end of file")
        (read_lp_bytes input))
      (λ item rest. read_items count (list ++ item ∷ []) rest)

abbrev pub bad_hash : Bytes
bad_hash = codes "hash payload: field/value length points past end of file"

unfoldable pub read_entries : ℕ → HashTable Bytes Bytes → Bytes → Outcome (HashTable Bytes Bytes)
read_entries zero table input = parsed table input
read_entries (suc count) table input =
    and_then (or_error bad_hash (read_lp_bytes input)) (λ field rest.
      and_then (or_error bad_hash (read_lp_bytes rest))
        (λ value rest'. read_entries count (HashTable.insert_or_assign table field value).0 rest'))

unfoldable pub read_set : ℕ → HashTable Bytes Empty → Bytes → Outcome (HashTable Bytes Empty)
read_set zero table input = parsed table input
read_set (suc count) table input =
    and_then
      (or_error (codes "set payload: member length points past end of file") (read_lp_bytes input))
      (λ member rest. read_set count (HashTable.insert_or_assign table member empty).0 rest)

abbrev pub bad_zset : Bytes
bad_zset = codes "zset payload: member/score length points past end of file"

abbrev pub unknown_tag : Bytes
unknown_tag = codes "unknown record type tag"

abbrev pub magic : Bytes
magic = codes "GRDS"

-- a number where there are bytes enough
abbrev pub number_at : Option (ℕ × Bytes) → ℕ
number_at none = 0
number_at (some (v, rest)) = v

module _ {Z : Type 0} (zsets : ZSets Z) where
  unfoldable pub read_scores : ℕ → Z → Bytes → Outcome Z
  read_scores zero z input = parsed z input
  read_scores (suc count) z input =
      and_then (or_error bad_zset (read_lp_bytes input)) (λ member rest.
        and_then (or_error bad_zset (read_u64 rest))
          (λ score rest'. read_scores count (zsets.upsert z member score) rest'))

  unfoldable pub encode_payload : Value Z → Bytes
  encode_payload (string_value s) = write_lp_bytes s
  encode_payload (hash_value h) =
      write_u32 (HashTable.size h) ++ write_entries (HashTable.for_each h)
  encode_payload (list_value l) = write_u32 (length l) ++ write_items l
  encode_payload (set_value s) = write_u32 (HashTable.size s) ++ write_set (HashTable.for_each s)
  encode_payload (zset_value z) = write_u32 (zsets.zset_size z) ++ write_scores (zsets.members z)

  unfoldable pub type_tag_of : Value Z → ℕ
  type_tag_of (string_value s) = 1
  type_tag_of (hash_value h) = 2
  type_tag_of (list_value l) = 3
  type_tag_of (set_value s) = 4
  type_tag_of (zset_value z) = 5

  unfoldable pub decode_payload : ℕ → Bytes → Outcome (Value Z)
  decode_payload tag input =
      if tag == 1
      then and_then
          (or_error (codes "string payload: length points past end of file") (read_lp_bytes input))
          (λ s rest. parsed (string_value s) rest)
      else if tag == 2
      then and_then (or_error (codes "hash payload: truncated field count") (read_u32 input))
          (λ count rest.
            and_then (read_entries count HashTable.empty_table rest)
              (λ h rest'. parsed (hash_value h) rest'))
      else if tag == 3
      then and_then (or_error (codes "list payload: truncated element count") (read_u32 input))
          (λ count rest.
            and_then (read_items count [] rest) (λ l rest'. parsed (list_value l) rest'))
      else if tag == 4
      then and_then (or_error (codes "set payload: truncated member count") (read_u32 input))
          (λ count rest.
            and_then (read_set count HashTable.empty_table rest)
              (λ s rest'. parsed (set_value s) rest'))
      else if tag == 5
      then and_then (or_error (codes "zset payload: truncated member count") (read_u32 input))
          (λ count rest.
            and_then (read_scores count zsets.no_zset rest)
              (λ z rest'. parsed (zset_value z) rest'))
      else failed unknown_tag

  -- the expiry of a record, if its flag says that there is one
  unfoldable pub decode_expiry : ℕ → Bytes → Outcome (Option ℤ)
  decode_expiry has_ttl input =
      if has_ttl == 0
      then parsed none input
      else if has_ttl == 1
      then and_then (or_error (codes "truncated record: missing expire time") (read_i64 input))
          (λ v rest. parsed (some v) rest)
      else failed (codes "invalid has_ttl flag value (must be 0 or 1)")

  -- one record, which is loaded into the database
  unfoldable pub decode_one_record :
      Bytes → Database (Value Z) → ℤ → ℤ → Outcome (Database (Value Z))
  decode_one_record input scratch now_mono now_unix =
      and_then (or_error (codes "truncated record: missing type tag") (read_u8 input)) (λ tag r₁.
        if ltb tag 1 || ltb 5 tag
        then failed unknown_tag
        else and_then (or_error (codes "truncated record: missing has_ttl flag") (read_u8 r₁))
            (λ has_ttl r₂. and_then (decode_expiry has_ttl r₂) (λ expire_unix_ms r₃.
              and_then
                (or_error (codes "truncated record: key length points past end of file")
                  (read_lp_bytes r₃))
                (λ key r₄. and_then (decode_payload tag r₄) (λ value r₅.
                  parsed (load_key scratch key value expire_unix_ms now_mono now_unix) r₅)))))

  abbrev pub encode_expiry : Option ℤ → Bytes
  encode_expiry none = write_u8 0
  encode_expiry (some expire_unix_ms) = write_u8 1 ++ write_i64 expire_unix_ms

  unfoldable pub encode_record : Bytes × Value Z × Option ℤ → Bytes
  encode_record (key, value, expire_unix_ms) =
      write_u8 (type_tag_of value)
      ++ (encode_expiry expire_unix_ms ++ (write_lp_bytes key ++ encode_payload value))

  unfoldable pub encode_records : List (Bytes × Value Z × Option ℤ) → Bytes
  encode_records [] = []
  encode_records (e ∷ es) = encode_record e ++ encode_records es

  -- what the footer closes
  unfoldable pub encode_body : List (Bytes × Value Z × Option ℤ) → ℤ → Bytes
  encode_body es now_unix =
      magic
      ++ (write_u16 1
          ++ (write_u16 0
              ++ (write_u64 (to_u64 now_unix)
                  ++ (encode_records es ++ (write_u8 255 ++ write_u64 (length es))))))

  unfoldable pub encode_snapshot : Database (Value Z) → ℤ → ℤ → Bytes × Database (Value Z)
  encode_snapshot db now_mono now_unix =
      let (es, db') = for_each_for_snapshot db now_mono now_unix in
      let out = encode_body es now_unix in (out ++ write_u32 (crc32 out), db')

  -- The loop of `decode_snapshot`: while the input is longer than the footer, one record more.
  -- `fuel` is the length of the input, since a record has a byte at least.
  unfoldable pub decode_records :
      ℕ → Bytes → Database (Value Z) → ℕ → ℤ → ℤ → Bytes ⊎ (ℕ × ℕ × Database (Value Z))
  decode_records zero input scratch n now_mono now_unix = inr (length input, n, scratch)
  decode_records (suc fuel) input scratch n now_mono now_unix =
      if ltb 13 (length input)
      then elim (decode_one_record input scratch now_mono now_unix) [
        | failed e ↦ inl (codes "record " ++ to_string (pos n) ++ codes ": " ++ e)
        | incomplete ↦ inl []
        | parsed scratch' rest ↦ decode_records fuel rest scratch' (suc n) now_mono now_unix
      ]
      else inr (length input, n, scratch)

  -- the checks after the loop: what is left, the records read, and those the footer tells
  unfoldable pub finish_load : ℕ → Bytes ⊎ (ℕ × ℕ × Database (Value Z)) → Bytes ⊎ Database (Value Z)
  finish_load stored (inl e) = inl e
  finish_load stored (inr (remaining, n, scratch)) =
      if not (remaining == 13)
      then inl (codes "a record's length ran past the footer boundary")
      else if not (n == stored)
      then inl (
          codes "record count mismatch (footer says "
          ++ to_string (pos stored)
          ++ codes ", parsed "
          ++ to_string (pos n)
          ++ codes ")")
      else inr scratch

  -- the database that replaces the one in use, or the error that leaves it alone
  unfoldable pub decode_snapshot : Bytes → ℤ → ℤ → Bytes ⊎ Database (Value Z)
  decode_snapshot input now_mono now_unix =
      let footer = drop (length input - 13) input in
      let version = number_at (read_u16 (drop 4 input)) in
      let loop = decode_records (length input) (drop 16 input) empty_database 0 now_mono now_unix in
      if ltb (length input) 29
      then inl (codes "file too small to contain a valid header and footer")
      else if not (bytes_eq (take 4 input) magic)
      then inl (codes "bad magic (not a gredis snapshot file)")
      else if not (version == 1)
      then inl (codes "unsupported snapshot format version " ++ to_string (pos version))
      else if not (get_or footer 0 0 == 255)
      then inl (codes "corrupt or missing footer (EOF marker not found)")
      else if not (crc32 (take (length input - 4) input) == number_at (read_u32 (drop 9 footer)))
      then inl (codes "checksum mismatch (file is corrupt or truncated)")
      else finish_load (number_at (read_u64 (drop 1 footer))) loop
