-- ===== src/Commands/Sets/Members.antt =====
-- SADD, SREM, SISMEMBER and SMEMBERS, of src/commands/cmd_set.cpp.
use gredis.Base.Bytes.{Bytes}
use gredis.Base.Int.{ℤ, pos}
use gredis.Base.{◌≡◌, ◌∙◌, refl, sym, ap, ap₂, ◌++◌, List, drop}
use gredis.Commands.Hashes.Listing.{fields_of, write_fields-bulks, length-fields_of}
use gredis.Commands.Held.Laws.{finding, reply_of, reply_of-same, reply_of-there, read_held-Shows}
use gredis.Commands.Sets.{
  SetValue, set_kind, as_entries, cmd_sadd, cmd_srem, cmd_sismember, cmd_smembers,
}
use gredis.Commands.Tables.Handlers.{
  table_at, Inserts, Erases, Looks, grow_held-Inserts, shrink_held-Erases, update_held-Looks,
}
use gredis.Commands.Text.{arg}
use gredis.Commands.Value.{Value}
use gredis.Protocol.Parser.RoundTrip.{encode_command}
use gredis.Protocol.Writer.{integer, array_header}
use gredis.Storage.Database.Contents.{entry, IsValid, Shows}
use gredis.Storage.Database.{Database}
use gredis.Storage.HashTable.Chain.{to_nat}
use gredis.Storage.HashTable.Invariant
use gredis.Storage.HashTable.Invariant.{view}
use gredis.Storage.HashTable.Operations.{find-Models}
use gredis.Storage.HashTable.Strings.{string_key}
use gredis.Storage.HashTable.Update.{is_some}
use gredis.Storage.HashTable.Visit.{for_each-view}
use gredis.Storage.HashTable.{for_each}

module _ {Z : Type 0} where
  -- the set at a key, an empty one if there is none
  abbrev pub set_at : Database (Value Z) → ℤ → Bytes → SetValue
  set_at db now key = table_at (set_kind {Z = Z}) db now key

  -- On a valid database, where the table of the set that the key shows, if it shows one, is valid,
  -- SADD and SREM answer how many members are new and how many were there, and leave a valid table
  -- that stands for the set with the members, or without them, or no key if that is empty;
  -- SISMEMBER answers whether its argument is a member and leaves a table for the same set.
  pub cmd_sadd-Inserts :
      (db : Database (Value Z)) (argv : List Bytes) (now : ℤ)
      → IsValid db
      → Invariant.IsValid (set_at db now (arg argv 1))
      → let key = arg argv 1 in
        Inserts set_kind db key now (as_entries (drop 2 argv)) (cmd_sadd db argv now)
        × Erases set_kind db key now (drop 2 argv) (cmd_srem db argv now)
        × Looks set_kind db key now
            (integer (pos 0))
            (integer (pos (to_nat (is_some (view (set_at db now key) (arg argv 2))))))
            (cmd_sismember db argv now)
  unfolding cmd_sadd cmd_srem cmd_sismember
  cmd_sadd-Inserts db argv now v sound =
      let key = arg argv 1 in
      let (told, still) = find-Models (set_at db now key) (arg argv 2) sound in
      (
        grow_held-Inserts set_kind db key now v (as_entries (drop 2 argv)) sound,
        shrink_held-Erases set_kind db key now v (drop 2 argv) sound,
        update_held-Looks (set_kind {Z = Z}) db key now v _ _ _
            (ap (λ o. integer (pos (to_nat (is_some o)))) told, still),
      )

  pub cmd_smembers-Lists :
      (db : Database (Value Z)) (argv : List Bytes) (now : ℤ)
      → IsValid db
      → Invariant.IsValid (set_at db now (arg argv 1))
      → ((cmd_smembers db argv now).0
          ≡ reply_of
              (finding set_kind (entry db now (arg argv 1)))
              (array_header 0)
              (λ _. encode_command (fields_of (for_each (set_at db now (arg argv 1))))))
        × Shows now (entry db) (cmd_smembers db argv now).1
  unfolding cmd_smembers encode_command
  cmd_smembers-Lists db argv now v sound =
      let there = finding set_kind (entry db now (arg argv 1)) in
      let es = for_each (set_at db now (arg argv 1)) in
      let (_, _, counted) = for_each-view (set_at db now (arg argv 1)) sound in
      let (told, s) = read_held-Shows (set_kind {Z = Z}) db (arg argv 1) now (array_header 0) _ v in
      (
        told
            ∙ reply_of-there (set_kind {Z = Z}) there _ _
            ∙ reply_of-same there _ _ _ _ refl (λ _.
              ap₂ (λ i s. array_header i ++ s) (sym (length-fields_of es ∙ counted))
                (write_fields-bulks es)),
        s,
      )
