-- ===== src/Commands/Examples.antt =====
-- Runs of the handlers, and the theorems at inputs that meet their hypotheses.
use gredis.Base.Bytes.{Bytes, codes, bytes_eq}
use gredis.Base.Int.{ℤ, pos, ◌+ℤ◌, ◌-ℤ◌}
use gredis.Base.{
  ℕ, ◌≡◌, ◌∙◌, sym, refl, true, false, not, ◌&&◌, none, some, inr, arith, if◌then◌else◌, List, [],
  ◌∷◌, drop,
}
use gredis.Commands.Keys.Expire.{Rounds, cmd_ttl-Shows}
use gredis.Commands.Keys.Remove.{is_member, number_gone, cmd_del-Shows}
use gredis.Commands.Keys.{
  exists_loop, del_loop, cmd_del, cmd_unlink, cmd_exists, cmd_ttl, cmd_pttl, ttl_seconds,
}
use gredis.Commands.Strings.Incr.{
  number_shown, deadline_in, incr_result, incr_reply, incr_shown, incr_by-Shows,
}
use gredis.Commands.Strings.Set.{is_blocked, is_too_far, new_deadline, set_with-Shows}
use gredis.Commands.Strings.{
  set_flag, expire_amount, SetOptions, no_options, parse_set_options, incr_by, set_with, cmd_set,
  cmd_get,
}
use gredis.Commands.Text.{ieq, invalid_expire}
use gredis.Commands.Value.{Value, string_value, list_value}
use gredis.Protocol.Writer.{simple, error, integer, bulk, null_bulk}
use gredis.Storage.Database
use gredis.Storage.Database.Contents.{entry, entry_of, IsValid, Shows, empty_database-Shows}
use gredis.Storage.Database.Methods.{set-Shows}
use gredis.Storage.Database.Ttl.{expire_at-Shows, ttl_reply}
use gredis.Storage.Database.{
  Database, empty_database, expire_at, lookup_read, lookup_write, lookup_and_expire, erase_both,
  write_value, pttl,
}
use gredis.Storage.Expiry.{push}
use mathlib.Core.Option.{or_else}
use gredis.Storage.Database.Effects.{deadline_of}
use gredis.Storage.HashTable.Invariant.{view}
use gredis.Storage.HashTable.Place.{look}
use gredis.Storage.HashTable.{hash_table_code, fnv_hash, empty_table}
use gredis.Util.Int64.{add_would_overflow, wrap_int64}
use gredis.Util.Parse.{parse_int64, to_string}

-- "n" is 41 until 100, "l" a list
abbrev step_1 : Database (Value ℕ)
step_1 = Database.set empty_database (codes "n") (string_value (codes "41"))

abbrev step_2 : Database (Value ℕ)
step_2 = (expire_at step_1 (codes "n") (pos 100) (pos 50)).1

abbrev sample : Database (Value ℕ)
sample = Database.set step_2 (codes "l") (list_value (codes "x" ∷ []))

sample-IsValid : IsValid sample
sample-IsValid =
    let v = (empty_database-Shows (pos 50)).valid in
    let v₁ = (set-Shows empty_database (codes "n") (string_value (codes "41")) (pos 50) v).valid in
    let v₂ = (expire_at-Shows step_1 (codes "n") (pos 100) (pos 50) v₁).1.valid in
    (set-Shows step_2 (codes "l") (list_value (codes "x" ∷ [])) (pos 50) v₂).valid

abbrev after_incr : Database (Value ℕ)
after_incr = (incr_by sample (codes "n") (pos 1) (pos 60)).1

-- INCR keeps the deadline, and SET drops it
command_runs :
    ((incr_by sample (codes "n") (pos 1) (pos 60)).0 ≡ integer (pos 42))
    × ((cmd_get after_incr (codes "get" ∷ codes "n" ∷ []) (pos 99)).0 ≡ bulk (codes "42"))
    × ((cmd_get after_incr (codes "get" ∷ codes "n" ∷ []) (pos 100)).0 ≡ null_bulk)
    × ((cmd_set sample (codes "set" ∷ codes "n" ∷ codes "1" ∷ codes "nx" ∷ []) (pos 60)).0
        ≡ null_bulk)
    × ((cmd_exists sample (codes "exists" ∷ codes "n" ∷ codes "n" ∷ []) (pos 60)).0
        ≡ integer (pos 2))
    × ((cmd_del sample (codes "del" ∷ codes "n" ∷ codes "n" ∷ []) (pos 60)).0 ≡ integer (pos 1))
unfolding hash_table_code empty_table bytes_eq fnv_hash Database.set empty_database expire_at
    lookup_read lookup_write lookup_and_expire erase_both push incr_by cmd_get cmd_set set_with
    parse_set_options ieq cmd_exists cmd_del parse_int64 to_string write_value add_would_overflow
    integer ◌-ℤ◌ ◌+ℤ◌ set_flag exists_loop del_loop Database.del
command_runs = (refl, refl, refl, refl, refl, refl)

incr_by-Shows_example :
    ((incr_by sample (codes "n") (pos 1) (pos 60)).0
      ≡ incr_reply (incr_result (number_shown (entry sample (pos 60) (codes "n"))) (pos 1)))
    × Shows
        (pos 60)
        (incr_shown sample
          (codes "n")
          (deadline_in (entry sample (pos 60) (codes "n")))
          (incr_result (number_shown (entry sample (pos 60) (codes "n"))) (pos 1)))
        (incr_by sample (codes "n") (pos 1) (pos 60)).1
incr_by-Shows_example =
    incr_by-Shows sample (codes "n") (pos 1) (pos 60) sample-IsValid (omega arith, omega arith)

abbrev px_nx : List Bytes
px_nx = codes "px" ∷ codes "30" ∷ codes "NX" ∷ []

abbrev px_nx_options : SetOptions
px_nx_options = record { has_expire = true; expire_ms = pos 30; nx = true; xx = false }

px_nx_read : parse_set_options no_options px_nx ≡ inr px_nx_options
unfolding parse_set_options ieq expire_amount parse_int64 set_flag
px_nx_read = refl

set_with-Shows_example :
    ((set_with px_nx_options sample (codes "k") (codes "v") (pos 60)).0 ≡ (
      if is_blocked px_nx_options (entry sample (pos 60) (codes "k"))
      then null_bulk
      else if is_too_far px_nx_options (pos 60)
      then error invalid_expire
      else simple (codes "OK")))
    × Shows
        (pos 60)
        (λ t p.
          if not (is_blocked px_nx_options (entry sample (pos 60) (codes "k")))
            && not (is_too_far px_nx_options (pos 60))
            && bytes_eq (codes "k") p
          then entry_of (some (string_value (codes "v"))) (new_deadline px_nx_options (pos 60)) t
          else entry sample t p)
        (set_with px_nx_options sample (codes "k") (codes "v") (pos 60)).1
set_with-Shows_example =
    set_with-Shows px_nx_options sample (codes "k") (codes "v") (pos 60) sample-IsValid
      (omega arith, omega arith) (omega arith, omega arith)

abbrev mget_args : List Bytes
mget_args = codes "mget" ∷ codes "n" ∷ codes "l" ∷ []

abbrev mset_args : List Bytes
mset_args = codes "mset" ∷ codes "a" ∷ codes "1" ∷ codes "a" ∷ codes "2" ∷ []

abbrev append_args : List Bytes
append_args = codes "append" ∷ codes "n" ∷ codes "7" ∷ []

abbrev del_args : List Bytes
del_args = codes "del" ∷ codes "n" ∷ codes "n" ∷ codes "z" ∷ []

abbrev no_size : ℕ → ℕ
no_size n = n

cmd_del-Shows_example :
    ((cmd_del sample del_args (pos 60)).0
      ≡ integer (pos (number_gone (drop 1 del_args) (entry sample (pos 60)))))
    × ((cmd_unlink no_size sample del_args (pos 60)).0 ≡ (cmd_del sample del_args (pos 60)).0)
    × Shows
        (pos 60)
        (λ t p. if is_member p (drop 1 del_args) then none else entry sample t p)
        (cmd_del sample del_args (pos 60)).1
    × Shows
        (pos 60)
        (λ t p. if is_member p (drop 1 del_args) then none else entry sample t p)
        (cmd_unlink no_size sample del_args (pos 60)).2
cmd_del-Shows_example = cmd_del-Shows no_size sample del_args (pos 60) sample-IsValid

-- "l" until 2000
abbrev timed : Database (Value ℕ)
timed = (expire_at sample (codes "l") (pos 2000) (pos 50)).1

timed-IsValid : IsValid timed
timed-IsValid = (expire_at-Shows sample (codes "l") (pos 2000) (pos 50) sample-IsValid).1.valid

abbrev ttl_args : List Bytes
ttl_args = codes "ttl" ∷ codes "l" ∷ []

timed-deadline : deadline_of timed (codes "l") ≡ some (pos 2000)
unfolding deadline_of hash_table_code empty_table bytes_eq fnv_hash Database.set empty_database
    expire_at lookup_and_expire erase_both push view or_else look
timed-deadline = refl

-- 1400 milliseconds are left, and 1.4 seconds are 1
ttl_runs :
    ((cmd_pttl timed ttl_args (pos 600)).0 ≡ integer (pos 1400))
    × ((cmd_ttl timed ttl_args (pos 600)).0 ≡ integer (pos 1))
unfolding cmd_ttl cmd_pttl pttl ttl_seconds wrap_int64 hash_table_code empty_table bytes_eq fnv_hash
    Database.set empty_database expire_at lookup_and_expire erase_both push ◌-ℤ◌ integer to_string
ttl_runs = (refl, refl)

cmd_ttl-Shows_example :
    ((s : ℤ) × ((cmd_ttl timed ttl_args (pos 600)).0 ≡ integer s)
      × Rounds (ttl_reply (entry timed (pos 600) (codes "l")) (pos 600)) s)
    × ((cmd_pttl timed ttl_args (pos 600)).0
        ≡ integer (ttl_reply (entry timed (pos 600) (codes "l")) (pos 600)))
    × Shows (pos 600) (entry timed) (cmd_ttl timed ttl_args (pos 600)).1
    × Shows (pos 600) (entry timed) (cmd_pttl timed ttl_args (pos 600)).1
cmd_ttl-Shows_example =
    cmd_ttl-Shows timed ttl_args (pos 600) timed-IsValid (omega arith)
      (λ d e. let z : some (pos 2000) ≡ some d = sym timed-deadline ∙ e in ground arith)
