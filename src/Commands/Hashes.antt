-- ===== src/Commands/Hashes.antt =====
-- src/commands/cmd_hash.cpp. A lookup in a hash moves its rehash on, so a handler that only reads
-- may leave another table behind.
pub mod Fields
pub mod Listing
pub mod Incr
mod Examples
use gredis.Base.Bytes.{Bytes}
use gredis.Base.Int.{ℤ, pos, ◌+ℤ◌}
use gredis.Base.{
  ℕ, zero, suc, ◌-◌, ◌*◌, ◌%◌, refl, Option, none, some, List, [], ◌∷◌, ◌++◌, ◌==◌, if◌then◌else◌,
  length, drop,
}
use gredis.Commands.Held.{Kind, read_held, update_held, shrink_held, grow_held}
use gredis.Commands.Lists.{wrong_arguments}
use gredis.Commands.Tables.{insert_entries, erase_keys}
use gredis.Commands.Text.{not_int, overflow, arg}
use gredis.Commands.Value.{Value, string_value, hash_value, list_value, set_value, zset_value}
use gredis.Protocol.Writer.{error, integer, bulk, array_header, null_bulk}
use gredis.Storage.Database.{Database}
use gredis.Storage.HashTable
use gredis.Storage.HashTable.Strings.{string_key}
use gredis.Storage.HashTable.Update.{is_some}
use gredis.Storage.HashTable.Chain.{to_nat}
use gredis.Storage.HashTable.{HashTable}
use gredis.Util.Int64.{add_would_overflow}
use gredis.Util.Parse.{parse_int64, to_string}

module _ {Z : Type 0} where
  unfoldable pub as_hash : Value Z → Option (HashTable Bytes Bytes)
  as_hash (string_value s) = none
  as_hash (hash_value h) = some h
  as_hash (list_value l) = none
  as_hash (set_value s) = none
  as_hash (zset_value z) = none

  unfoldable pub hash_kind : Kind Z (HashTable Bytes Bytes)
  unfolding as_hash
  hash_kind = record {
    open_value = as_hash;
    wrap = hash_value;
    fresh = HashTable.empty_table;
    has_no_elements = HashTable.is_empty;
    open-wrap = λ h. refl;
  }

-- the loop of `cmd_hset` takes the arguments in pairs
abbrev pub pairs_of : List Bytes → List (Bytes × Bytes)
pairs_of [] = []
pairs_of (field ∷ []) = []
pairs_of (field ∷ value ∷ rest) = (field, value) ∷ pairs_of rest

abbrev pub field_reply : Option Bytes → Bytes
field_reply none = null_bulk
field_reply (some value) = bulk value

-- the loop of `cmd_hmget`
unfoldable pub get_fields : List Bytes → HashTable Bytes Bytes → Bytes × HashTable Bytes Bytes
get_fields [] h = ([], h)
get_fields (field ∷ fields) h =
    let (value, h') = HashTable.find h field in
    let (out, h'') = get_fields fields h' in (field_reply value ++ out, h'')

-- the same loop where there is no hash
unfoldable pub nil_fields : List Bytes → Bytes
nil_fields [] = []
nil_fields (field ∷ fields) = null_bulk ++ nil_fields fields

-- what the callbacks of `for_each` write
unfoldable pub write_pairs : List (Bytes × Bytes) → Bytes
write_pairs [] = []
write_pairs ((field, value) ∷ entries) = bulk field ++ bulk value ++ write_pairs entries

unfoldable pub write_fields {ℓ} : {V : Type ℓ} → List (Bytes × V) → Bytes
write_fields [] = []
write_fields ((field, value) ∷ entries) = bulk field ++ write_fields entries

unfoldable pub write_values : List (Bytes × Bytes) → Bytes
write_values [] = []
write_values ((field, value) ∷ entries) = bulk value ++ write_values entries

-- the number that a field holds, none if it is no number
abbrev pub number_in : Option Bytes → Option ℤ
number_in none = some (pos 0)
number_in (some value) = parse_int64 value

-- `cmd_hincrby` on the hash
unfoldable pub incr_field : Bytes → ℤ → HashTable Bytes Bytes → Bytes × HashTable Bytes Bytes
incr_field field delta h =
    let (value, h') = HashTable.find h field in
    elim (number_in value) [
      | none ↦ (error not_int, h')
      | some current ↦ if add_would_overflow current delta then (error overflow, h') else (
        integer (current +ℤ delta),
        (HashTable.insert_or_assign h' field (to_string (current +ℤ delta))).0,
      )
    ]

module _ {Z : Type 0} where
  unfoldable pub cmd_hset : Database (Value Z) → List Bytes → ℤ → Bytes × Database (Value Z)
  cmd_hset db argv now =
      if length argv % 2 == 0
      then grow_held hash_kind db (arg argv 1) now (λ h.
        let (added, h') = insert_entries (pairs_of (drop 2 argv)) h in (integer (pos added), h'))
      else (error (wrong_arguments (arg argv 0)), db)

  unfoldable pub cmd_hget : Database (Value Z) → List Bytes → ℤ → Bytes × Database (Value Z)
  cmd_hget db argv now =
      update_held hash_kind db (arg argv 1) now null_bulk
        (λ h. let (value, h') = HashTable.find h (arg argv 2) in (field_reply value, h'))

  unfoldable pub cmd_hmget : Database (Value Z) → List Bytes → ℤ → Bytes × Database (Value Z)
  cmd_hmget db argv now =
      let header = array_header (length argv - 2) in
      let fields = drop 2 argv in
      update_held hash_kind db (arg argv 1) now (header ++ nil_fields fields)
        (λ h. let (out, h') = get_fields fields h in (header ++ out, h'))

  unfoldable pub cmd_hdel : Database (Value Z) → List Bytes → ℤ → Bytes × Database (Value Z)
  cmd_hdel db argv now =
      shrink_held hash_kind db (arg argv 1) now (integer (pos 0))
        (λ h. let (removed, h') = erase_keys (drop 2 argv) h in (integer (pos removed), h'))

  unfoldable pub cmd_hexists : Database (Value Z) → List Bytes → ℤ → Bytes × Database (Value Z)
  cmd_hexists db argv now = update_held hash_kind db (arg argv 1) now (integer (pos 0)) (λ h.
      let (value, h') = HashTable.find h (arg argv 2) in
      (integer (pos (to_nat (is_some value))), h'))

  unfoldable pub cmd_hlen : Database (Value Z) → List Bytes → ℤ → Bytes × Database (Value Z)
  cmd_hlen db argv now =
      read_held hash_kind db (arg argv 1) now (integer (pos 0))
        (λ h. integer (pos (HashTable.size h)))

  unfoldable pub cmd_hgetall : Database (Value Z) → List Bytes → ℤ → Bytes × Database (Value Z)
  cmd_hgetall db argv now =
      read_held hash_kind db (arg argv 1) now (array_header 0)
        (λ h. array_header (2 * HashTable.size h) ++ write_pairs (HashTable.for_each h))

  unfoldable pub cmd_hkeys : Database (Value Z) → List Bytes → ℤ → Bytes × Database (Value Z)
  cmd_hkeys db argv now =
      read_held hash_kind db (arg argv 1) now (array_header 0)
        (λ h. array_header (HashTable.size h) ++ write_fields (HashTable.for_each h))

  unfoldable pub cmd_hvals : Database (Value Z) → List Bytes → ℤ → Bytes × Database (Value Z)
  cmd_hvals db argv now =
      read_held hash_kind db (arg argv 1) now (array_header 0)
        (λ h. array_header (HashTable.size h) ++ write_values (HashTable.for_each h))

  unfoldable pub cmd_hincrby : Database (Value Z) → List Bytes → ℤ → Bytes × Database (Value Z)
  cmd_hincrby db argv now = elim (parse_int64 (arg argv 3)) [
    | none ↦ (error not_int, db)
    | some delta ↦ grow_held hash_kind db (arg argv 1) now (incr_field (arg argv 2) delta)
  ]
