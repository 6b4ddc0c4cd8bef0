-- ===== src/Commands/Tables/Handlers.antt =====
-- The handlers of src/commands/cmd_hash.cpp and cmd_set.cpp that insert into a table or erase from
-- it, as changes of the finite map that the table stands for.
use gredis.Base.Bytes.{Bytes}
use gredis.Base.Int.{ℤ, pos}
use gredis.Base.{◌+◌, ◌-◌, ◌≡◌, ◌∙◌, refl, ap, some, List}
use gredis.Commands.Held.Laws.{
  finding, reply_of, reply_of-same, reply_of-there, reply_of-grown, held_or_fresh, created_held,
  created_held-there, changed_held, changed_held-there, unless_empty, grow_held-Shows,
  shrink_held-Shows, update_held-Shows,
}
use gredis.Commands.Held.{Kind, grow_held, shrink_held, update_held}
use gredis.Commands.Tables.Laws.{
  assigned, number_new, without, number_had, insert_entries-Models, erase_keys-Models,
}
use gredis.Commands.Tables.{insert_entries, erase_keys}
use gredis.Commands.Value.{Value}
use gredis.Protocol.Writer.{integer}
use gredis.Storage.Database.Contents.{entry, IsValid, Shows}
use gredis.Storage.Database.{Database}
use gredis.Storage.HashTable.Invariant
use gredis.Storage.HashTable.Invariant.{view, Models, IsStill}
use gredis.Storage.HashTable.Strings.{string_key}
use gredis.Storage.HashTable.{HashTable, size}

module _ {Z V : Type 0} (k : Kind Z (HashTable Bytes V)) where
  -- the table at a key, a fresh one if there is none
  abbrev pub table_at : Database (Value Z) → ℤ → Bytes → HashTable Bytes V
  table_at db now key = held_or_fresh k (finding k (entry db now key))

  -- the entries are stored, and the reply says how many keys were new
  unfoldable pub Inserts :
      Database (Value Z) → Bytes → ℤ → List (Bytes × V) → Bytes × Database (Value Z) → Type 0
  Inserts db key now entries r =
      let there = finding k (entry db now key) in
      let f = view (table_at db now key) in
      let added = number_new entries f in
      (r.0 ≡ reply_of there (integer (pos added)) (λ _. integer (pos added)))
      × (t : HashTable Bytes V) × Models (assigned entries f) (size (table_at db now key) + added) t
      × Shows now (created_held k db key there (λ _. t)) r.1

  -- the keys are erased, the value with the last of them, and the reply says how many were there
  unfoldable pub Erases :
      Database (Value Z) → Bytes → ℤ → List Bytes → Bytes × Database (Value Z) → Type 0
  Erases db key now keys r =
      let there = finding k (entry db now key) in
      let f = view (table_at db now key) in
      let removed = number_had keys f in
      (r.0 ≡ reply_of there (integer (pos 0)) (λ _. integer (pos removed)))
      × (t : HashTable Bytes V) × Models (without keys f) (size (table_at db now key) - removed) t
      × Shows now (changed_held k db key there (λ _. unless_empty k t)) r.1

  -- a lookup answers, and the table that it leaves stands for the same map
  unfoldable pub Looks :
      Database (Value Z) → Bytes → ℤ → Bytes → Bytes → Bytes × Database (Value Z) → Type 0
  Looks db key now nothing answer r =
      let there = finding k (entry db now key) in
      (r.0 ≡ reply_of there nothing (λ _. answer))
      × (t : HashTable Bytes V) × IsStill (table_at db now key) t
      × Shows now (changed_held k db key there (λ _. some t)) r.1

  module _ (db : Database (Value Z)) (key : Bytes) (now : ℤ) (v : IsValid db) where
    pub grow_held-Inserts :
        (entries : List (Bytes × V))
        → Invariant.IsValid (table_at db now key)
        → Inserts db key now entries (
            grow_held k db key now
              (λ t. let (added, t') = insert_entries entries t in (integer (pos added), t')))
    unfolding Inserts
    grow_held-Inserts entries sound =
        let there = finding k (entry db now key) in
        let (told, s) = grow_held-Shows k db key now _ v in
        let (count, m) = insert_entries-Models entries _ sound in
        let n = ap (λ n. integer (pos n)) count in
        (
          told
              ∙ reply_of-grown k there (λ t. integer (pos (insert_entries entries t).0))
              ∙ reply_of-same there _ _ _ _ n (λ _. n),
          _,
          m,
          created_held-there k db _ key now there _ s,
        )

    pub shrink_held-Erases :
        (keys : List Bytes)
        → Invariant.IsValid (table_at db now key)
        → Erases db key now keys (
            shrink_held k db key now
              (integer (pos 0))
              (λ t. let (removed, t') = erase_keys keys t in (integer (pos removed), t')))
    unfolding Erases
    shrink_held-Erases keys sound =
        let there = finding k (entry db now key) in
        let (told, s) = shrink_held-Shows k db key now _ _ v in
        let (count, m) = erase_keys-Models keys _ sound in
        (
          told
              ∙ reply_of-there k there _ _
              ∙ reply_of-same there _ _ _ _ refl (λ _. ap (λ n. integer (pos n)) count),
          _,
          m,
          changed_held-there k db _ key now there _ s,
        )

    pub update_held-Looks :
        (nothing answer : Bytes) (f : HashTable Bytes V → Bytes × HashTable Bytes V)
        → ((f (table_at db now key)).0 ≡ answer)
          × IsStill (table_at db now key) (f (table_at db now key)).1
        → Looks db key now nothing answer (update_held k db key now nothing f)
    unfolding Looks
    update_held-Looks nothing answer f (e, still) =
        let there = finding k (entry db now key) in
        let (told, s) = update_held-Shows k db key now nothing f v in
        (
          told
              ∙ reply_of-there k there nothing (λ t. (f t).0)
              ∙ reply_of-same there _ _ _ _ refl (λ _. e),
          _,
          still,
          changed_held-there k db _ key now there (λ t. some (f t).1) s,
        )
