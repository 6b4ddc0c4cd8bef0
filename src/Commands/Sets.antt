-- ===== src/Commands/Sets.antt =====
-- src/commands/cmd_set.cpp, and `random_entry` of src/storage/hash_table.h, which SPOP alone calls.
-- A set is a hash table with empty values.
pub mod Members
pub mod Inter
pub mod Lookup
mod Examples
use Prim.Native.Nat.{min}
use gredis.Base.Bytes.{Bytes, bytes_eq}
use gredis.Base.Int.{ℤ, pos}
use gredis.Base.{
  not, ◌&&◌, ◌||◌, ℕ, zero, suc, ◌+◌, ◌-◌, ◌⊎◌, inl, inr, Bool, true, false, ◌||◌, refl, Option,
  none, some, List, [], ◌∷◌, ◌++◌, ◌==◌, ltb, if◌then◌else◌, length, drop, map, get_or,
}
use gredis.Commands.Hashes.{write_fields}
use gredis.Commands.Held.{Kind, read_held, update_held, shrink_held, grow_held}
use gredis.Commands.Lists.{pop_count}
use gredis.Commands.Tables.{insert_entries, erase_keys}
use gredis.Commands.Text.{wrong_type, arg}
use gredis.Commands.Value.{
  Value, Empty, empty, string_value, hash_value, list_value, set_value, zset_value,
}
use gredis.Protocol.Writer.{error, integer, bulk, array_header, null_bulk}
use gredis.Storage.Database.{Database, lookup_read, write_value}
use gredis.Storage.HashTable
use gredis.Storage.HashTable.Strings.{string_key}
use gredis.Storage.HashTable.Update.{is_some}
use gredis.Storage.HashTable.Chain.{to_nat}
use gredis.Storage.HashTable.{HashTable, Table, Node}

abbrev pub SetValue : Type 0
SetValue = HashTable Bytes Empty

module _ {Z : Type 0} where
  unfoldable pub as_set : Value Z → Option SetValue
  as_set (string_value s) = none
  as_set (hash_value h) = none
  as_set (list_value l) = none
  as_set (set_value s) = some s
  as_set (zset_value z) = none

  unfoldable pub set_kind : Kind Z SetValue
  unfolding as_set
  set_kind = record {
    open_value = as_set;
    wrap = set_value;
    fresh = HashTable.empty_table;
    has_no_elements = HashTable.is_empty;
    open-wrap = λ s. refl;
  }

-- the members to add, with their empty values
abbrev pub as_entries : List Bytes → List (Bytes × Empty)
as_entries [] = []
as_entries (member ∷ members) = (member, empty) ∷ as_entries members

-- whether a key is among others, and whether none is named twice
abbrev pub is_named : Bytes → List Bytes → Bool
is_named key [] = false
is_named key (k ∷ keys) = bytes_eq key k || is_named key keys

abbrev pub has_no_repeats : List Bytes → Bool
has_no_repeats [] = true
has_no_repeats (key ∷ keys) = not (is_named key keys) && has_no_repeats keys

-- The index that `cmd_sinter` picks: the first of the least size. `best` is the index so far and
-- `least` its size.
unfoldable pub smallest_from : ℕ → ℕ → ℕ → List SetValue → ℕ
smallest_from best least i [] = best
smallest_from best least i (s ∷ sets) =
    if ltb (HashTable.size s) least
    then smallest_from i (HashTable.size s) (suc i) sets
    else smallest_from best least (suc i) sets

unfoldable pub smallest_of : List SetValue → ℕ
smallest_of [] = 0
smallest_of (s ∷ sets) = smallest_from 0 (HashTable.size s) 1 sets

-- whether every other set has a member; the first that has not ends the loop
unfoldable pub probe_others : ℕ → ℕ → Bytes → List SetValue → Bool × List SetValue
probe_others smallest i member [] = (true, [])
probe_others smallest i member (s ∷ sets) =
    let (found, s') = HashTable.find s member in
    let (all, sets') = probe_others smallest (suc i) member sets in
    if i == smallest
    then (all, s ∷ sets')
    else elim found [ none ↦ (false, s' ∷ sets) | some _ ↦ (all, s' ∷ sets') ]

-- the callback over the members of the smallest set
unfoldable pub collect : ℕ → List (Bytes × Empty) → List SetValue → List Bytes × List SetValue
collect smallest [] sets = ([], sets)
collect smallest ((member, _) ∷ members) sets =
    let (all, sets') = probe_others smallest 0 member sets in
    let (result, sets'') = collect smallest members sets' in
    (if all then member ∷ result else result, sets'')

abbrev pub no_set : SetValue
no_set = HashTable.empty_table

unfoldable pub intersect : List SetValue → List Bytes × List SetValue
intersect sets =
    let smallest = smallest_of sets in
    collect smallest (HashTable.for_each (get_or sets smallest no_set)) sets

module _ {Z : Type 0} where
  unfoldable pub cmd_sadd : Database (Value Z) → List Bytes → ℤ → Bytes × Database (Value Z)
  cmd_sadd db argv now = grow_held set_kind db (arg argv 1) now (λ s.
      let (added, s') = insert_entries (as_entries (drop 2 argv)) s in (integer (pos added), s'))

  unfoldable pub cmd_srem : Database (Value Z) → List Bytes → ℤ → Bytes × Database (Value Z)
  cmd_srem db argv now =
      shrink_held set_kind db (arg argv 1) now (integer (pos 0))
        (λ s. let (removed, s') = erase_keys (drop 2 argv) s in (integer (pos removed), s'))

  unfoldable pub cmd_sismember : Database (Value Z) → List Bytes → ℤ → Bytes × Database (Value Z)
  cmd_sismember db argv now = update_held set_kind db (arg argv 1) now (integer (pos 0)) (λ s.
      let (found, s') = HashTable.find s (arg argv 2) in
      (integer (pos (to_nat (is_some found))), s'))

  unfoldable pub cmd_smembers : Database (Value Z) → List Bytes → ℤ → Bytes × Database (Value Z)
  cmd_smembers db argv now =
      read_held set_kind db (arg argv 1) now (array_header 0)
        (λ s. array_header (HashTable.size s) ++ write_fields (HashTable.for_each s))

  unfoldable pub cmd_scard : Database (Value Z) → List Bytes → ℤ → Bytes × Database (Value Z)
  cmd_scard db argv now =
      read_held set_kind db (arg argv 1) now (integer (pos 0))
        (λ s. integer (pos (HashTable.size s)))

  -- the sets that `cmd_sinter` looks up, or the reply that ends it
  unfoldable pub gather :
      Database (Value Z) → List Bytes → ℤ → (Bytes ⊎ List SetValue) × Database (Value Z)
  gather db [] now = (inr [], db)
  gather db (key ∷ keys) now =
      let (found, db') = lookup_read db key now in
      let (rest, db'') = gather db' keys now in
      elim found [
        | none ↦ (inl (array_header 0), db')
        | some v ↦ elim (as_set v) [
          | none ↦ (inl (error wrong_type), db')
          | some s ↦ (elim rest [ inl reply ↦ inl reply | inr sets ↦ inr (s ∷ sets) ], db'')
        ]
      ]

  -- the lookups have moved the rehashes of the sets on
  unfoldable pub put_back : List Bytes → List SetValue → Database (Value Z) → Database (Value Z)
  put_back [] sets db = db
  put_back (key ∷ keys) [] db = db
  put_back (key ∷ keys) (s ∷ sets) db = put_back keys sets (write_value db key (set_value s))

  -- None for a key that is named twice where all keys show sets: the lookups then rehash the very
  -- table that `for_each` walks over, and what comes out is open.
  unfoldable pub cmd_sinter :
      Database (Value Z) → List Bytes → ℤ → Option (Bytes × Database (Value Z))
  cmd_sinter db argv now =
      let (found, db') = gather db (drop 1 argv) now in
      elim found [
        | inl reply ↦ some (reply, db')
        | inr sets ↦
            if has_no_repeats (drop 1 argv)
            then (let (result, sets') = intersect sets in
                some (
                  array_header (length result) ++ write_fields (as_entries result),
                  put_back (drop 1 argv) sets' db',
                ))
            else none
      ]
