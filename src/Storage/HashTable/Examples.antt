-- ===== src/Storage/HashTable/Examples.antt =====
-- Runs of the hash table on strings, and the theorems at inputs that meet their hypotheses.
use gredis.Base.Bytes.{Bytes, codes, bytes_eq}
use gredis.Base.{◌≤◌, length, ℕ, ◌+◌, ◌-◌, ◌≡◌, refl, true, false, not, none, some, List, [], ◌∷◌}
use gredis.Storage.HashTable.Chain.{to_nat}
use gredis.Storage.HashTable.Invariant.{IsValid, view, Models, IsStill, empty_table-Models}
use gredis.Storage.HashTable.Operations.{
  find-Models, insert_or_assign-Models, take-Models, erase-Models,
}
use gredis.Storage.HashTable.Rehash.{rehash_step-IsStill}
use gredis.Storage.HashTable.Strings.{string_key}
use gredis.Storage.HashTable.Update.{is_some, update}
use gredis.Storage.HashTable.Visit.{assoc, times, for_each-view}
use gredis.Storage.HashTable.{
  for_each, HashTable, empty_table, insert_or_assign, find, erase, take, size, bucket_count,
  rehash_step, hash_table_code, fnv_hash, is_rehashing,
}

-- "foobar" has this FNV-1a hash in the published test vectors
fnv_foobar : fnv_hash (codes "foobar") ≡ 0x85944171f73967e8
unfolding fnv_hash
fnv_foobar = refl

abbrev insert_all : List (Bytes × ℕ) → HashTable Bytes ℕ → HashTable Bytes ℕ
insert_all [] t = t
insert_all ((q, x) ∷ es) t = insert_all es (insert_or_assign t q x).0

abbrev four : List (Bytes × ℕ)
four = (codes "a", 1) ∷ (codes "b", 2) ∷ (codes "c", 3) ∷ (codes "d", 4) ∷ []

abbrev sample : HashTable Bytes ℕ
sample = insert_all four empty_table

insert_all-IsValid :
    (es : List (Bytes × ℕ)) (t : HashTable Bytes ℕ) → IsValid t → IsValid (insert_all es t)
insert_all-IsValid [] t v = v
insert_all-IsValid ((q, x) ∷ es) t v =
    insert_all-IsValid es _ (insert_or_assign-Models t q x v).1.valid

sample-IsValid : IsValid sample
sample-IsValid = insert_all-IsValid four empty_table empty_table-Models.valid

-- the fourth key starts a rehash to eight buckets
sample_runs :
    (is_rehashing sample ≡ true)
    × (bucket_count sample ≡ 12)
    × ((find sample (codes "c")).0 ≡ some 3)
    × ((erase sample (codes "x")).0 ≡ false)
    × ((take sample (codes "d")).0 ≡ some 4)
    × (size (take sample (codes "d")).1 ≡ 3)
unfolding hash_table_code empty_table size bucket_count bytes_eq fnv_hash
sample_runs = (refl, refl, refl, refl, refl, refl)

find-Models_example :
    ((find sample (codes "b")).0 ≡ view sample (codes "b"))
    × IsStill sample (find sample (codes "b")).1
find-Models_example = find-Models sample (codes "b") sample-IsValid

rehash_step-IsStill_example : IsStill sample (rehash_step 2 sample)
rehash_step-IsStill_example = rehash_step-IsStill 2 sample sample-IsValid

insert_or_assign-Models_example :
    ((insert_or_assign sample (codes "e") 5).1 ≡ not (is_some (view sample (codes "e"))))
    × Models
        (update (view sample) (codes "e") (some 5))
        (size sample + to_nat (not (is_some (view sample (codes "e")))))
        (insert_or_assign sample (codes "e") 5).0
insert_or_assign-Models_example = insert_or_assign-Models sample (codes "e") 5 sample-IsValid

take-Models_example :
    ((take sample (codes "a")).0 ≡ view sample (codes "a"))
    × Models
        (update (view sample) (codes "a") none)
        (size sample - to_nat (is_some (view sample (codes "a"))))
        (take sample (codes "a")).1
take-Models_example = take-Models sample (codes "a") sample-IsValid

erase-Models_example :
    ((erase sample (codes "a")).0 ≡ is_some (view sample (codes "a")))
    × Models
        (update (view sample) (codes "a") none)
        (size sample - to_nat (is_some (view sample (codes "a"))))
        (erase sample (codes "a")).1
erase-Models_example = erase-Models sample (codes "a") sample-IsValid

for_each-view_example :
    ((q : Bytes) → assoc q (for_each sample) ≡ view sample q)
    × ((q : Bytes) → times q (for_each sample) ≤ 1)
    × (length (for_each sample) ≡ size sample)
for_each-view_example = for_each-view sample sample-IsValid
