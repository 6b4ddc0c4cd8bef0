-- ===== src/Storage/Database/Examples.antt =====
-- Runs of the database, and the theorems at inputs that meet their hypotheses.
use gredis.Base.Bytes.{codes, bytes_eq}
use gredis.Base.Int.{pos, negsuc, ◌-ℤ◌}
use gredis.Base.{
  ℕ, ◌+◌, ◌*◌, ◌≤◌, ◌<◌, ◌≡◌, refl, Bool, false, ◌&&◌, none, some, arith, if◌then◌else◌, length,
}
use gredis.Storage.Database.Contents.{entry, entry_of, IsValid, Shows, empty_database-Shows}
use gredis.Storage.Database.Cycle.{cycle-Shows, cycle-drains, cycle-queue_bound}
use gredis.Storage.Database.Effects.{value_of, deadline_of}
use gredis.Storage.Database.Load.{load_key-deadline, is_ahead, mono_deadline}
use gredis.Storage.Database.Methods.{value_in, live_value, lookup-is_live, set-Shows, del-Shows}
use gredis.Storage.Database.Ttl.{take-Shows, expire_at-Shows, with_deadline}
use gredis.Storage.Database.{
  Database, is_due, empty_database, lookup_read, lookup_write, set, del, take, expire_at, pttl,
  load_key, run_active_expiration_cycle, lookup_and_expire, erase_both,
}
use gredis.Storage.Expiry.{push}
use gredis.Util.Int64.{wrap_int64}
use gredis.Storage.HashTable
use gredis.Storage.HashTable.Update.{is_some}
use gredis.Storage.HashTable.{hash_table_code, fnv_hash, empty_table}

-- "a" until 100, "b" without end
abbrev step_1 : Database ℕ
step_1 = set empty_database (codes "a") 7

abbrev step_2 : Database ℕ
step_2 = (expire_at step_1 (codes "a") (pos 100) (pos 50)).1

abbrev sample : Database ℕ
sample = set step_2 (codes "b") 8

sample-IsValid : IsValid sample
sample-IsValid =
    let v = (empty_database-Shows (pos 50)).valid in
    let v₁ = (set-Shows empty_database (codes "a") 7 (pos 50) v).valid in
    let v₂ = (expire_at-Shows step_1 (codes "a") (pos 100) (pos 50) v₁).1.valid in
    (set-Shows step_2 (codes "b") 8 (pos 50) v₂).valid

abbrev never : ℕ → Bool
never i = false

sample_runs :
    ((lookup_read sample (codes "a") (pos 99)).0 ≡ some 7)
    × ((lookup_read sample (codes "a") (pos 100)).0 ≡ none)
    × ((lookup_read sample (codes "b") (pos 100)).0 ≡ some 8)
    × ((pttl sample (codes "a") (pos 60)).0 ≡ pos 40)
    × ((pttl sample (codes "b") (pos 60)).0 ≡ negsuc 0)
    × ((pttl sample (codes "c") (pos 60)).0 ≡ negsuc 1)
    × ((run_active_expiration_cycle never sample (pos 99) 20).0 ≡ 0)
    × ((run_active_expiration_cycle never sample (pos 100) 20).0 ≡ 1)
unfolding hash_table_code empty_table bytes_eq fnv_hash set empty_database expire_at lookup_read
    lookup_and_expire pttl wrap_int64 erase_both push run_active_expiration_cycle ◌-ℤ◌
sample_runs = (refl, refl, refl, refl, refl, refl, refl, refl)

lookup-is_live_example :
    ((lookup_read sample (codes "a") (pos 100)).0
      ≡ live_value (value_of sample (codes "a")) (deadline_of sample (codes "a")) (pos 100))
    × Shows (pos 100) (entry sample) (lookup_read sample (codes "a") (pos 100)).1
    × ((lookup_write sample (codes "a") (pos 100)).0
        ≡ live_value (value_of sample (codes "a")) (deadline_of sample (codes "a")) (pos 100))
    × Shows (pos 100) (entry sample) (lookup_write sample (codes "a") (pos 100)).1
lookup-is_live_example = lookup-is_live sample (codes "a") (pos 100) sample-IsValid

set-Shows_example :
    Shows
      (pos 60)
      (λ t p. if bytes_eq (codes "a") p then some (9, none) else entry sample t p)
      (set sample (codes "a") 9)
set-Shows_example = set-Shows sample (codes "a") 9 (pos 60) sample-IsValid

del-Shows_example :
    ((del sample (codes "a")).0 ≡ is_some (value_of sample (codes "a")))
    × Shows
        (pos 60)
        (λ t p. if bytes_eq (codes "a") p then none else entry sample t p)
        (del sample (codes "a")).1
del-Shows_example = del-Shows sample (codes "a") (pos 60) sample-IsValid

take-Shows_example :
    ((take sample (codes "a") (pos 60)).0 ≡ value_in (entry sample (pos 60) (codes "a")))
    × Shows
        (pos 60)
        (λ t p. if bytes_eq (codes "a") p then none else entry sample t p)
        (take sample (codes "a") (pos 60)).1
take-Shows_example = take-Shows sample (codes "a") (pos 60) sample-IsValid

expire_at-Shows_example :
    ((expire_at sample (codes "b") (pos 200) (pos 60)).0
      ≡ is_some (entry sample (pos 60) (codes "b")))
    × Shows
        (pos 60)
        (λ t p.
          if bytes_eq (codes "b") p
          then with_deadline (entry sample (pos 60) (codes "b")) (some (pos 200)) t
          else entry sample t p)
        (expire_at sample (codes "b") (pos 200) (pos 60)).1
expire_at-Shows_example = expire_at-Shows sample (codes "b") (pos 200) (pos 60) sample-IsValid

cycle-Shows_example :
    Shows (pos 100) (entry sample) (run_active_expiration_cycle never sample (pos 100) 20).1
    × ((run_active_expiration_cycle never sample (pos 100) 20).0 ≤ 20)
cycle-Shows_example = cycle-Shows never sample (pos 100) 20 sample-IsValid

cycle-queue_bound_example :
    length (run_active_expiration_cycle never sample (pos 100) 20).1.expiry_heap
    ≤ 2 * (HashTable.size (run_active_expiration_cycle never sample (pos 100) 20).1.expires + 1024)
cycle-queue_bound_example = cycle-queue_bound never sample (pos 100) 20 sample-IsValid

few_erased : (run_active_expiration_cycle never sample (pos 100) 20).0 < 20
unfolding hash_table_code empty_table bytes_eq fnv_hash set empty_database expire_at
    lookup_and_expire erase_both push run_active_expiration_cycle
few_erased = omega arith

cycle-drains_example :
    is_due
      (deadline_of (run_active_expiration_cycle never sample (pos 100) 20).1 (codes "a"))
      (pos 100)
    ≡ false
cycle-drains_example =
    cycle-drains never sample (pos 100) 20 sample-IsValid (λ i. refl) few_erased (codes "a")

load_key-deadline_example :
    Shows
      (pos 60)
      (λ t p.
        if bytes_eq (codes "c") p && is_ahead (pos 1_000_500) (pos 60) (pos 1_000_000)
        then entry_of (some 3) (some (mono_deadline (pos 1_000_500) (pos 60) (pos 1_000_000))) t
        else entry sample t p)
      (load_key sample (codes "c") 3 (some (pos 1_000_500)) (pos 60) (pos 1_000_000))
load_key-deadline_example =
    load_key-deadline sample (codes "c") 3 (pos 1_000_500) (pos 60) (pos 1_000_000) sample-IsValid
      (omega arith) (omega arith) (omega arith)
