-- ===== src/Commands/Hashes/Examples.antt =====
-- Runs of the hash commands, and their theorems at a hash of two fields.
use gredis.Base.Bytes.{Bytes, codes, bytes_eq, bytes_eq_refl}
use gredis.Base.Int.{pos, ◌+ℤ◌, ◌-ℤ◌}
use gredis.Base.{ℕ, ◌≡◌, ◌∙◌, refl, none, some, List, [], ◌∷◌, if◌then◌else◌}
use gredis.Commands.Hashes.Fields.{hash_at}
use gredis.Commands.Hashes.Incr.{incr_answer, incremented, field_number, cmd_hincrby-Models}
use gredis.Commands.Hashes.{
  hash_kind, as_hash, incr_field, cmd_hset, cmd_hdel, cmd_hget, cmd_hincrby,
}
use gredis.Commands.Held.Laws.{finding, reply_of, created_held}
use gredis.Commands.Held.{update_held, shrink_held, grow_held, get_or_create}
use gredis.Commands.Tables.Laws.{insert_entries-Models}
use gredis.Commands.Tables.{insert_entries, erase_keys}
use gredis.Commands.Value.{Value, hash_value}
use gredis.Protocol.Writer.{integer, bulk}
use gredis.Storage.Database
use gredis.Storage.Database.Contents.{entry, Shows, empty_database-Shows}
use gredis.Storage.Database.Methods.{set-Shows}
use gredis.Storage.Database.{
  Database, empty_database, lookup_read, lookup_write, lookup_and_expire, erase_both, write_value,
}
use gredis.Storage.HashTable.Invariant
use gredis.Storage.HashTable.Invariant.{view, empty_table-Models}
use gredis.Storage.HashTable.Strings.{string_key}
use gredis.Storage.HashTable.{HashTable, hash_table_code, fnv_hash, empty_table}
use gredis.Util.Int64.{add_would_overflow}
use gredis.Util.Parse.{parse_int64, to_string}

abbrev two_fields : List (Bytes × Bytes)
two_fields = (codes "f", codes "41") ∷ (codes "g", codes "x") ∷ []

abbrev table : HashTable Bytes Bytes
table = (insert_entries two_fields empty_table).1

table-IsValid : Invariant.IsValid table
table-IsValid = (insert_entries-Models two_fields empty_table empty_table-Models.valid).1.valid

-- "h" is a hash of two fields
abbrev sample : Database (Value ℕ)
sample = Database.set empty_database (codes "h") (hash_value table)

sample-Shows :
    Shows
      (pos 50)
      (λ t p.
        if bytes_eq (codes "h") p then some (hash_value table, none) else entry empty_database t p)
      sample
sample-Shows =
    set-Shows empty_database (codes "h") (hash_value table) (pos 50)
      (empty_database-Shows (pos 50)).valid

entry-sample : entry sample (pos 60) (codes "h") ≡ some (hash_value table, none)
entry-sample = sample-Shows.shows (pos 60) (codes "h") (refl) ∙ rw (bytes_eq_refl (codes "h")) refl

hash_at-IsValid : Invariant.IsValid (hash_at sample (pos 60) (codes "h"))
unfolding hash_kind
hash_at-IsValid = rw entry-sample table-IsValid

abbrev set_args : List Bytes
set_args = codes "hset" ∷ codes "h" ∷ codes "f" ∷ codes "1" ∷ codes "k" ∷ codes "2" ∷ []

abbrev incr_args : List Bytes
incr_args = codes "hincrby" ∷ codes "h" ∷ codes "f" ∷ codes "1" ∷ []

hash_runs :
    ((cmd_hset sample set_args (pos 60)).0 ≡ integer (pos 1))
    × ((cmd_hdel sample set_args (pos 60)).0 ≡ integer (pos 1))
    × ((cmd_hget sample incr_args (pos 60)).0 ≡ bulk (codes "41"))
    × ((cmd_hincrby sample incr_args (pos 60)).0 ≡ integer (pos 42))
unfolding hash_table_code empty_table bytes_eq fnv_hash Database.set empty_database lookup_read
    lookup_write lookup_and_expire erase_both write_value parse_int64 to_string integer bulk
    insert_entries erase_keys cmd_hset cmd_hdel cmd_hget cmd_hincrby incr_field add_would_overflow
    hash_kind as_hash update_held shrink_held grow_held get_or_create ◌+ℤ◌ ◌-ℤ◌
hash_runs = (refl, refl, refl, refl)

delta_read : parse_int64 (codes "1") ≡ some (pos 1)
unfolding parse_int64
delta_read = refl

cmd_hincrby-Models_example :
    let there = finding hash_kind (entry sample (pos 60) (codes "h")) in
    let f = view (hash_at sample (pos 60) (codes "h")) in
    let answer = incr_answer (field_number (f (codes "f"))) (pos 1) in
    ((cmd_hincrby sample incr_args (pos 60)).0 ≡ reply_of there answer (λ _. answer))
    × (h' : HashTable Bytes Bytes) × Invariant.IsValid h'
    × (view h' ≡ incremented (field_number (f (codes "f"))) (pos 1) (codes "f") f)
    × Shows
        (pos 60)
        (created_held hash_kind sample (codes "h") there (λ _. h'))
        (cmd_hincrby sample incr_args (pos 60)).1
cmd_hincrby-Models_example =
    cmd_hincrby-Models sample incr_args (pos 60) (pos 1) sample-Shows.valid delta_read
      hash_at-IsValid
