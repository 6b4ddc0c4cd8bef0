-- ===== src/Persistence/Examples.antt =====
-- Runs of the snapshot, and its theorems at a database of one string.
use gredis.Base.Bytes.{Bytes, codes, bytes_eq}
use gredis.Base.Int.{pos, negsuc}
use gredis.Base.{ℕ, ◌+◌, ◌≡◌, refl, arith, none, some, inr, List, [], ◌∷◌, ◌++◌, length}
use gredis.Commands.Value.{Value, string_value, list_value}
use gredis.Persistence.Codec.{write_le, read_le, read_i64, read_lp_bytes, write_lp_bytes, write_i64}
use gredis.Persistence.Snapshot.Fuel.{IsDone, decode_records-IsDone}
use gredis.Persistence.Snapshot.Payload.{Same, decode_payload-Same}
use gredis.Persistence.Snapshot.Records.{AllRecords, load_all}
use gredis.Persistence.Snapshot.Whole.{decode_snapshot-encode_snapshot}
use gredis.Persistence.Snapshot.{
  ZSets, encode_payload, type_tag_of, decode_payload, decode_records, encode_snapshot,
  decode_snapshot,
}
use gredis.Protocol.Outcome.{parsed}
use gredis.Storage.Database
use gredis.Storage.Database.{Database, empty_database, for_each_for_snapshot}
use gredis.Storage.HashTable
use gredis.Storage.HashTable.{hash_table_code, fnv_hash, empty_table}
use gredis.Util.Crc32.{crc32, crc_from, crc_table, crc_entries, crc_steps, crc_step}

-- sorted sets as the lists of their members
abbrev Listed : Type 0
Listed = List (Bytes × ℕ)

abbrev listed : ZSets Listed
listed = record {
  zset_size = length;
  members = λ z. z;
  no_zset = [];
  upsert = λ z member score. (member, score) ∷ z;
  length-members = λ z. refl;
}

-- "k" is a string
abbrev sample : Database (Value Listed)
sample = Database.set empty_database (codes "k") (string_value (codes "v"))

codec_runs :
    (write_i64 (negsuc 0) ≡ 255 ∷ 255 ∷ 255 ∷ 255 ∷ 255 ∷ 255 ∷ 255 ∷ 255 ∷ [])
    × (read_i64 (write_i64 (negsuc 4)) ≡ some (negsuc 4, []))
    × (write_lp_bytes (codes "ab") ≡ 2 ∷ 0 ∷ 0 ∷ 0 ∷ codes "ab")
    × (read_lp_bytes (255 ∷ 255 ∷ 255 ∷ 255 ∷ codes "ab") ≡ none)
unfolding write_le read_le read_i64 read_lp_bytes
codec_runs = (refl, refl, refl, refl)

-- the check value of this checksum
crc_runs : crc32 (codes "123456789") ≡ 0xCBF43926
unfolding crc32 crc_from crc_table crc_entries crc_steps crc_step
crc_runs = refl

sample-entries :
    (for_each_for_snapshot sample (pos 5) (pos 1000)).0
    ≡ (codes "k", string_value (codes "v"), none) ∷ []
unfolding for_each_for_snapshot hash_table_code empty_table bytes_eq fnv_hash Database.set
    empty_database HashTable.for_each
sample-entries = refl

sample-AllRecords : AllRecords listed (for_each_for_snapshot sample (pos 5) (pos 1000)).0
sample-AllRecords = rw sample-entries ((omega arith, omega arith, tt), tt)

decode_snapshot-encode_snapshot_example :
    decode_snapshot listed (encode_snapshot listed sample (pos 5) (pos 1000)).0 (pos 7) (pos 2000)
    ≡ inr (
        load_all listed
          (for_each_for_snapshot sample (pos 5) (pos 1000)).0
          empty_database
          (pos 7)
          (pos 2000))
decode_snapshot-encode_snapshot_example =
    decode_snapshot-encode_snapshot listed sample (pos 5) (pos 1000) (pos 7) (pos 2000)
      sample-AllRecords (rw sample-entries (omega arith))

abbrev two_items : Value Listed
two_items = list_value (codes "a" ∷ codes "" ∷ [])

decode_payload-Same_example :
    (u : Value Listed) × (decode_payload listed
        (type_tag_of listed two_items)
        (encode_payload listed two_items ++ 255 ∷ [])
      ≡ parsed u (255 ∷ []))
    × Same listed two_items u
decode_payload-Same_example =
    decode_payload-Same listed two_items (255 ∷ []) (omega arith, (omega arith, (omega arith, tt)))

decode_records-IsDone_example :
    (decode_records listed (6 + 3) (codes "abcdef") sample 0 (pos 7) (pos 2000)
      ≡ decode_records listed 6 (codes "abcdef") sample 0 (pos 7) (pos 2000))
    × IsDone listed (decode_records listed 6 (codes "abcdef") sample 0 (pos 7) (pos 2000))
decode_records-IsDone_example =
    decode_records-IsDone listed 6 3 (codes "abcdef") sample 0 (pos 7) (pos 2000) (omega arith)
