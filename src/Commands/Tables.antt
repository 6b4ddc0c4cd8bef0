-- ===== src/Commands/Tables.antt =====
-- The loops over the hash tables that a value holds, which the handlers of src/commands/cmd_hash.cpp
-- and cmd_set.cpp share.
pub mod Laws
pub mod Handlers
pub mod Rebuild
use gredis.Base.Bytes.{Bytes}
use gredis.Base.{ℕ, ◌+◌, Bool, Option, List, [], ◌∷◌}
use gredis.Storage.HashTable
use gredis.Storage.HashTable.Chain.{to_nat}
use gredis.Storage.HashTable.Strings.{string_key}
use gredis.Storage.HashTable.{HashTable}

module _ {V : Type 0} where
  -- `insert_or_assign` for each entry, and how many were new
  unfoldable pub insert_entries : List (Bytes × V) → HashTable Bytes V → ℕ × HashTable Bytes V
  insert_entries [] table = (0, table)
  insert_entries ((key, value) ∷ entries) table =
      let (table', inserted) = HashTable.insert_or_assign table key value in
      let (added, table'') = insert_entries entries table' in (to_nat inserted + added, table'')

  -- `erase` for each key, and how many were there
  unfoldable pub erase_keys : List Bytes → HashTable Bytes V → ℕ × HashTable Bytes V
  erase_keys [] table = (0, table)
  erase_keys (key ∷ keys) table =
      let (erased, table') = HashTable.erase table key in
      let (removed, table'') = erase_keys keys table' in (to_nat erased + removed, table'')
