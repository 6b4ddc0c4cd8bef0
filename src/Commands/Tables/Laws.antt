-- ===== src/Commands/Tables/Laws.antt =====
-- The loops over a hash table as the change of the finite map that it stands for.
use mathlib.Core.Path.{fun_ext}
use gredis.Base.Bytes.{Bytes}
use gredis.Base.{ℕ, ◌+◌, ◌-◌, ◌≡◌, ◌∙◌, refl, ap₂, not, Option, none, some, arith, List, [], ◌∷◌}
use gredis.Commands.Tables.{insert_entries, erase_keys}
use gredis.Storage.HashTable
use gredis.Storage.HashTable.Chain.{to_nat}
use gredis.Storage.HashTable.Invariant.{IsValid, view, Models}
use gredis.Storage.HashTable.Operations.{insert_or_assign-Models, erase-Models}
use gredis.Storage.HashTable.Strings.{string_key}
use gredis.Storage.HashTable.Update.{is_some, update}
use gredis.Storage.HashTable.{HashTable, size}

module _ {V : Type 0} where
  -- a map with entries stored one after the other, and how many of them were new
  unfoldable pub assigned : List (Bytes × V) → (Bytes → Option V) → Bytes → Option V
  assigned [] f = f
  assigned ((key, value) ∷ entries) f = assigned entries (update f key (some value))

  unfoldable pub number_new : List (Bytes × V) → (Bytes → Option V) → ℕ
  number_new [] f = 0
  number_new ((key, value) ∷ entries) f =
      to_nat (not (is_some (f key))) + number_new entries (update f key (some value))

  -- a map without some keys, and how many of them it had
  unfoldable pub without : List Bytes → (Bytes → Option V) → Bytes → Option V
  without [] f = f
  without (key ∷ keys) f = without keys (update f key none)

  unfoldable pub number_had : List Bytes → (Bytes → Option V) → ℕ
  number_had [] f = 0
  number_had (key ∷ keys) f = to_nat (is_some (f key)) + number_had keys (update f key none)

  pub view-Models :
      (f : Bytes → Option V) (n : ℕ) (t : HashTable Bytes V) → Models f n t → view t ≡ f
  view-Models f n t m = fun_ext m.reads

  pub insert_entries-Models :
      (entries : List (Bytes × V)) (t : HashTable Bytes V)
      → IsValid t
      → ((insert_entries entries t).0 ≡ number_new entries (view t))
        × Models
            (assigned entries (view t))
            (size t + number_new entries (view t))
            (insert_entries entries t).1
  unfolding insert_entries assigned number_new
  insert_entries-Models [] t v =
      (refl, record { valid = v; reads = λ p. refl; sized = omega arith })
  insert_entries-Models ((key, value) ∷ entries) t v =
      let (told, m) = insert_or_assign-Models t key value v in
      let t' = (HashTable.insert_or_assign t key value).0 in
      let (rest, all) = rw (view-Models _ _ t' m) at (insert_entries-Models entries t' m.valid) in
      (
        ap₂ (λ b n. to_nat b + n) told rest,
        record { valid = all.valid; reads = all.reads; sized = all.sized ∙ omega (arith, m.sized) },
      )

  pub erase_keys-Models :
      (keys : List Bytes) (t : HashTable Bytes V)
      → IsValid t
      → ((erase_keys keys t).0 ≡ number_had keys (view t))
        × Models (without keys (view t)) (size t - number_had keys (view t)) (erase_keys keys t).1
  unfolding erase_keys without number_had
  erase_keys-Models [] t v = (refl, record { valid = v; reads = λ p. refl; sized = omega arith })
  erase_keys-Models (key ∷ keys) t v =
      let (told, m) = erase-Models t key v in
      let t' = (HashTable.erase t key).1 in
      let (rest, all) = rw (view-Models _ _ t' m) at (erase_keys-Models keys t' m.valid) in
      (
        ap₂ (λ b n. to_nat b + n) told rest,
        record { valid = all.valid; reads = all.reads; sized = all.sized ∙ omega (arith, m.sized) },
      )
