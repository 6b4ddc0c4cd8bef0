-- ===== src/Commands/Sets/Examples.antt =====
-- Runs of the set commands, and their theorems at two sets.
use mathlib.Core.List.Memᴰ.{head, tail, not-nil}
use gredis.Base.Bytes.{Bytes, codes, bytes_eq, bytes_eq_iff}
use gredis.Base.Int.{pos}
use gredis.Base.{
  ℕ, true, ◌≡◌, ◌∙◌, refl, none, some, List, [], ◌∷◌, inr, drop, arith, if◌then◌else◌,
}
use gredis.Commands.Held.{update_held, shrink_held, grow_held, get_or_create}
use gredis.Commands.Sets.Lookup.{AllDifferent, shown_sets, Answers, AllSound, cmd_sinter-Answers}
use gredis.Commands.Sets.Members.{set_at, cmd_sadd-Inserts}
use gredis.Commands.Sets.{
  SetValue, set_kind, as_set, as_entries, smallest_from, smallest_of, probe_others, collect,
  intersect, cmd_sadd, cmd_srem, cmd_sismember, cmd_sinter,
}
use gredis.Commands.Tables.Handlers.{Inserts, Erases, Looks}
use gredis.Commands.Tables.Laws.{insert_entries-Models}
use gredis.Commands.Tables.{insert_entries, erase_keys}
use gredis.Commands.Value.{Value, set_value}
use gredis.Protocol.Parser.RoundTrip.{bulks, encode_command}
use gredis.Protocol.Writer.{integer, bulk, array_header}
use gredis.Storage.Database
use gredis.Storage.Database.Contents.{entry, IsValid, Shows, empty_database-Shows}
use gredis.Storage.Database.Methods.{set-Shows}
use gredis.Storage.Database.{
  Database, empty_database, lookup_read, lookup_write, lookup_and_expire, erase_both, write_value,
}
use gredis.Storage.HashTable
use gredis.Storage.HashTable.Chain.{to_nat}
use gredis.Storage.HashTable.Invariant
use gredis.Storage.HashTable.Invariant.{view, empty_table-Models}
use gredis.Storage.HashTable.Strings.{string_key}
use gredis.Storage.HashTable.Update.{is_some}
use gredis.Storage.HashTable.{HashTable, hash_table_code, fnv_hash, empty_table}
use gredis.Util.Parse.{to_string}

abbrev set_of : List Bytes → SetValue
set_of members = (insert_entries (as_entries members) empty_table).1

set_of-IsValid : (members : List Bytes) → Invariant.IsValid (set_of members)
set_of-IsValid members =
    (insert_entries-Models (as_entries members) empty_table empty_table-Models.valid).1.valid

abbrev left_set : SetValue
left_set = set_of (codes "a" ∷ codes "b" ∷ codes "c" ∷ [])

abbrev right_set : SetValue
right_set = set_of (codes "c" ∷ codes "a" ∷ [])

abbrev step_1 : Database (Value ℕ)
step_1 = Database.set empty_database (codes "s") (set_value left_set)

-- "s" and "t" are sets with two members in common
abbrev sample : Database (Value ℕ)
sample = Database.set step_1 (codes "t") (set_value right_set)

abbrev v₁ : IsValid step_1
v₁ =
    (set-Shows empty_database (codes "s") (set_value left_set) (pos 50)
      (empty_database-Shows (pos 50)).valid).valid

sample-Shows :
    Shows
      (pos 50)
      (λ t p. if bytes_eq (codes "t") p then some (set_value right_set, none) else entry step_1 t p)
      sample
sample-Shows = set-Shows step_1 (codes "t") (set_value right_set) (pos 50) v₁

entry-t : entry sample (pos 60) (codes "t") ≡ some (set_value right_set, none)
unfolding bytes_eq
entry-t = sample-Shows.shows (pos 60) (codes "t") refl

entry-s : entry sample (pos 60) (codes "s") ≡ some (set_value left_set, none)
unfolding bytes_eq
entry-s =
    sample-Shows.shows (pos 60) (codes "s") refl
    ∙ (set-Shows empty_database (codes "s") (set_value left_set) (pos 50)
          (empty_database-Shows (pos 50)).valid).shows
        (pos 60) (codes "s") refl

abbrev add_args : List Bytes
add_args = codes "sadd" ∷ codes "t" ∷ codes "b" ∷ codes "c" ∷ []

abbrev inter_args : List Bytes
inter_args = codes "sinter" ∷ codes "s" ∷ codes "t" ∷ []

set_runs :
    ((cmd_sadd sample add_args (pos 60)).0 ≡ integer (pos 1))
    × ((cmd_srem sample add_args (pos 60)).0 ≡ integer (pos 1))
    × ((cmd_sismember sample add_args (pos 60)).0 ≡ integer (pos 0))
unfolding hash_table_code empty_table bytes_eq fnv_hash Database.set empty_database lookup_read
    lookup_write lookup_and_expire erase_both write_value to_string integer bulk bulks
    encode_command array_header insert_entries erase_keys cmd_sadd cmd_srem cmd_sismember set_kind
    as_set update_held shrink_held grow_held get_or_create
set_runs = (refl, refl, refl)

-- the second set is the smaller one, and is listed in the order of its buckets
inter_runs :
    (smallest_of (left_set ∷ right_set ∷ []) ≡ 1)
    × ((intersect (left_set ∷ right_set ∷ [])).0 ≡ codes "a" ∷ codes "c" ∷ [])
unfolding hash_table_code empty_table bytes_eq fnv_hash insert_entries intersect collect
    probe_others smallest_of smallest_from HashTable.size HashTable.for_each
inter_runs = (refl, refl)

set_at-IsValid : Invariant.IsValid (set_at sample (pos 60) (codes "t"))
unfolding set_kind
set_at-IsValid = rw entry-t (set_of-IsValid (codes "c" ∷ codes "a" ∷ []))

cmd_sadd-Inserts_example :
    Inserts set_kind sample
      (codes "t")
      (pos 60)
      (as_entries (drop 2 add_args))
      (cmd_sadd sample add_args (pos 60))
    × Erases set_kind sample
        (codes "t")
        (pos 60)
        (drop 2 add_args)
        (cmd_srem sample add_args (pos 60))
    × Looks set_kind sample
        (codes "t")
        (pos 60)
        (integer (pos 0))
        (integer (pos (to_nat (is_some (view (set_at sample (pos 60) (codes "t")) (codes "b"))))))
        (cmd_sismember sample add_args (pos 60))
cmd_sadd-Inserts_example =
    cmd_sadd-Inserts sample add_args (pos 60) sample-Shows.valid set_at-IsValid

two_sets : shown_sets sample (codes "s" ∷ codes "t" ∷ []) (pos 60) ≡ inr (left_set ∷ right_set ∷ [])
unfolding set_kind as_set
two_sets = rw (entry-s, entry-t) refl

sets-AllSound : AllSound (shown_sets sample (codes "s" ∷ codes "t" ∷ []) (pos 60))
sets-AllSound = rw two_sets (
  (
    set_of-IsValid (codes "a" ∷ codes "b" ∷ codes "c" ∷ []),
    (set_of-IsValid (codes "c" ∷ codes "a" ∷ []), tt),
  ),
  omega arith,
)

s_is_not_t : ¬ (bytes_eq (codes "s") (codes "t") ≡ true)
unfolding bytes_eq
s_is_not_t = λ e. absurd cc

distinct_keys : AllDifferent (drop 1 inter_args)
distinct_keys = (
  λ m. elim m [
    | head e ↦ let z = (bytes_eq_iff (codes "s") (codes "t")).1 e in s_is_not_t z
    | tail n ↦ not-nil n
  ],
  (not-nil, tt),
)

cmd_sinter-Answers_example :
    (r : Bytes × Database (Value ℕ)) × (cmd_sinter sample inter_args (pos 60) ≡ some r)
    × Answers (shown_sets sample (codes "s" ∷ codes "t" ∷ []) (pos 60)) r.0
cmd_sinter-Answers_example =
    cmd_sinter-Answers sample inter_args (pos 60) sample-Shows.valid sets-AllSound distinct_keys
