-- ===== src/Commands/Lists/Examples.antt =====
-- Runs of the list commands, and their theorems at a list of three.
use gredis.Base.Bytes.{Bytes, codes, bytes_eq}
use gredis.Base.Int.{pos, negsuc, ◌+ℤ◌, ◌-ℤ◌}
use gredis.Base.{ℕ, ◌≡◌, refl, true, false, some, List, [], ◌∷◌}
use gredis.Commands.Held.Laws.{finding, reply_of}
use gredis.Commands.Held.{read_held, shrink_held, grow_held, get_or_create}
use gredis.Commands.Lists.Pop.{Pops, asked, holds_items, cmd_pop-Pops}
use gredis.Commands.Lists.Push.{Pushes, cmd_push-Pushes}
use gredis.Commands.Lists.Range.{selected, first_reply, cmd_lrange-selected, cmd_lindex-selected}
use gredis.Commands.Lists.{
  list_kind, as_list, push_items, pop_items, pop_end, pop_front, pop_back, pop_count, pop_many,
  count_of, resolve_index, range_items, range_reply, index_reply, push_generic, pop_generic,
  cmd_lpush, cmd_rpush, cmd_lpop, cmd_rpop, cmd_lrange, cmd_lindex, pop_one,
}
use gredis.Commands.Value.{Value, list_value}
use gredis.Protocol.Parser.RoundTrip.{bulks, encode_command}
use gredis.Protocol.Writer.{integer, bulk, array_header, null_bulk}
use gredis.Storage.Database
use gredis.Storage.Database.Effects.{value_of, deadline_of}
use gredis.Storage.Database.Contents.{entry, IsValid, Shows, empty_database-Shows}
use gredis.Storage.Database.Methods.{set-Shows}
use gredis.Storage.Database.{
  Database, empty_database, lookup_read, lookup_write, lookup_and_expire, erase_both, write_value,
}
use mathlib.Core.Option.{or_else}
use gredis.Storage.HashTable.Invariant.{view}
use gredis.Storage.HashTable.Place.{look}
use gredis.Storage.HashTable.{hash_table_code, fnv_hash, empty_table}
use gredis.Util.Parse.{parse_int64, to_string}

-- "l" is a list of three
abbrev sample : Database (Value ℕ)
sample =
    Database.set empty_database (codes "l") (list_value (codes "a" ∷ codes "b" ∷ codes "c" ∷ []))

sample-IsValid : IsValid sample
sample-IsValid =
    let v = (empty_database-Shows (pos 50)).valid in
    (set-Shows empty_database (codes "l") (list_value (codes "a" ∷ codes "b" ∷ codes "c" ∷ []))
      (pos 50) v).valid

abbrev push_args : List Bytes
push_args = codes "lpush" ∷ codes "l" ∷ codes "y" ∷ codes "z" ∷ []

abbrev pop_args : List Bytes
pop_args = codes "lpop" ∷ codes "l" ∷ codes "2" ∷ []

abbrev range_args : List Bytes
range_args = codes "lrange" ∷ codes "l" ∷ codes "-2" ∷ codes "9" ∷ []

list_runs :
    ((cmd_lpush sample push_args (pos 60)).0 ≡ integer (pos 5))
    × ((cmd_lpop sample pop_args (pos 60)).0 ≡ encode_command (codes "a" ∷ codes "b" ∷ []))
    × ((cmd_rpop sample pop_args (pos 60)).0 ≡ encode_command (codes "c" ∷ codes "b" ∷ []))
    × ((cmd_lrange sample range_args (pos 60)).0 ≡ encode_command (codes "b" ∷ codes "c" ∷ []))
    × ((cmd_lindex sample range_args (pos 60)).0 ≡ bulk (codes "b"))
unfolding hash_table_code empty_table bytes_eq fnv_hash Database.set empty_database lookup_read
    lookup_write lookup_and_expire erase_both write_value parse_int64 to_string integer bulk bulks
    encode_command array_header cmd_lpush cmd_lpop cmd_rpop cmd_lrange cmd_lindex push_generic
    pop_generic range_reply index_reply range_items resolve_index count_of pop_count pop_many
    pop_one pop_items pop_end pop_front pop_back push_items list_kind as_list read_held shrink_held
    grow_held get_or_create ◌+ℤ◌ ◌-ℤ◌
list_runs = (refl, refl, refl, refl, refl)

cmd_push-Pushes_example :
    Pushes true sample push_args (pos 60) (cmd_lpush sample push_args (pos 60))
    × Pushes false sample push_args (pos 60) (cmd_rpush sample push_args (pos 60))
cmd_push-Pushes_example = cmd_push-Pushes sample push_args (pos 60) sample-IsValid

three_items : holds_items (entry sample (pos 60) (codes "l")) ≡ true
unfolding entry value_of deadline_of hash_table_code empty_table bytes_eq fnv_hash Database.set
    empty_database view or_else look
three_items = refl

cmd_pop-Pops_example :
    Pops true sample pop_args (pos 60) (asked pop_args) (cmd_lpop sample pop_args (pos 60))
    × Pops false sample pop_args (pos 60) (asked pop_args) (cmd_rpop sample pop_args (pos 60))
cmd_pop-Pops_example = cmd_pop-Pops sample pop_args (pos 60) sample-IsValid three_items

start_read : parse_int64 (codes "-2") ≡ some (negsuc 1)
unfolding parse_int64
start_read = refl

stop_read : parse_int64 (codes "9") ≡ some (pos 9)
unfolding parse_int64
stop_read = refl

cmd_lrange-selected_example :
    ((cmd_lrange sample range_args (pos 60)).0
      ≡ reply_of
          (finding list_kind (entry sample (pos 60) (codes "l")))
          (array_header 0)
          (λ l. encode_command (selected (negsuc 1) (pos 9) l)))
    × Shows (pos 60) (entry sample) (cmd_lrange sample range_args (pos 60)).1
cmd_lrange-selected_example =
    cmd_lrange-selected sample range_args (pos 60) (negsuc 1) (pos 9) sample-IsValid start_read
      stop_read

cmd_lindex-selected_example :
    ((cmd_lindex sample range_args (pos 60)).0
      ≡ reply_of
          (finding list_kind (entry sample (pos 60) (codes "l")))
          null_bulk
          (λ l. first_reply (selected (negsuc 1) (negsuc 1) l)))
    × Shows (pos 60) (entry sample) (cmd_lindex sample range_args (pos 60)).1
cmd_lindex-selected_example =
    cmd_lindex-selected sample range_args (pos 60) (negsuc 1) sample-IsValid start_read
