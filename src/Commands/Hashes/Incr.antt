-- ===== src/Commands/Hashes/Incr.antt =====
-- HINCRBY, of src/commands/cmd_hash.cpp.
use gredis.Base.Bytes.{Bytes}
use gredis.Base.Int.{ℤ, pos, ◌+ℤ◌}
use gredis.Base.{
  ◌≡◌, ◌∙◌, refl, sym, ap, Bool-cases, Option-cases, inl, inr, arith, Option, none, some, List,
  if◌then◌else◌,
}
use gredis.Commands.Held.Laws.{
  finding, reply_of, reply_of-same, reply_of-grown, created_held, created_held-there,
  grow_held-Shows,
}
use gredis.Commands.Hashes.Fields.{hash_at}
use gredis.Commands.Hashes.{hash_kind, number_in, incr_field, cmd_hincrby}
use gredis.Commands.Text.{not_int, overflow, arg}
use gredis.Commands.Value.{Value}
use gredis.Protocol.Writer.{error, integer}
use gredis.Storage.Database.Contents.{entry, IsValid, Shows}
use gredis.Storage.Database.{Database}
use gredis.Storage.HashTable
use gredis.Storage.HashTable.Invariant
use gredis.Storage.HashTable.Invariant.{view}
use gredis.Storage.HashTable.Operations.{find-Models, insert_or_assign-Models}
use gredis.Storage.HashTable.Strings.{string_key}
use gredis.Storage.HashTable.Update.{update}
use gredis.Storage.HashTable.{HashTable}
use gredis.Util.Int64.{InRange, in_range, add_would_overflow-in_range}
use gredis.Util.Parse.{parse_int64, parse_int64-InRange, to_string}

-- what a field counts for: 0 if it is missing, and none if it holds no int64_t
abbrev pub field_number : Option Bytes → Option ℤ
field_number none = some (pos 0)
field_number (some value) = parse_int64 value

number_in-field_number : (o : Option Bytes) → number_in o ≡ field_number o
number_in-field_number none = refl
number_in-field_number (some value) = refl

-- the answer to an increment of what a field holds
abbrev pub incr_answer : Option ℤ → ℤ → Bytes
incr_answer none delta = error not_int
incr_answer (some current) delta =
    if in_range (current +ℤ delta) then integer (current +ℤ delta) else error overflow

-- the map afterwards
abbrev pub incremented : Option ℤ → ℤ → Bytes → (Bytes → Option Bytes) → Bytes → Option Bytes
incremented none delta field f = f
incremented (some current) delta field f =
    if in_range (current +ℤ delta) then update f field (some (to_string (current +ℤ delta))) else f

field_number-InRange : (o : Option Bytes) (n : ℤ) → field_number o ≡ some n → InRange n
field_number-InRange none n e = let z : pos 0 ≡ n = cc in rw (sym z) (omega arith, omega arith)
field_number-InRange (some value) n e = parse_int64-InRange value n e

incr_field-Models :
    (field : Bytes) (delta : ℤ) (h : HashTable Bytes Bytes)
    → Invariant.IsValid h
    → InRange delta
    → ((incr_field field delta h).0 ≡ incr_answer (field_number (view h field)) delta)
      × Invariant.IsValid (incr_field field delta h).1
      × (view (incr_field field delta h).1
          ≡ incremented (field_number (view h field)) delta field (view h))
unfolding incr_field
incr_field-Models field delta h v r =
    let (told, still) = find-Models h field v in
    let h' = (HashTable.find h field).1 in
    let same : view h' ≡ view h = λ i p. still.reads p i in
    elim (Option-cases (field_number (view h field))) [
      | inl e ↦
          rw (told, number_in-field_number (view h field), e, incr_field) (refl, still.valid, same)
      | inr (n, e) ↦
          let guard =
            add_would_overflow-in_range n delta (field_number-InRange (view h field) n e) r in
          elim (Bool-cases (in_range (n +ℤ delta))) [
            | inl fits ↦
                let (_, m) =
                  insert_or_assign-Models h' field (to_string (n +ℤ delta)) still.valid in
                rw (told, number_in-field_number (view h field), e, guard, fits, incr_field)
                  (
                    refl,
                    m.valid,
                    (λ i p. m.reads p i)
                        ∙ ap (λ f. update f field (some (to_string (n +ℤ delta)))) same,
                  )
            | inr wide ↦
                rw (told, number_in-field_number (view h field), e, guard, wide, incr_field)
                  (refl, still.valid, same)
          ]
    ]

module _ {Z : Type 0} where
  -- On a valid database, where the table of the hash that the key shows, if it shows one, is
  -- valid, HINCRBY with an int64_t stores the sum at the field, counting a missing field as 0, and
  -- answers it; it answers an error and leaves the map as it is if the field holds no int64_t or
  -- the sum is out of range.
  pub cmd_hincrby-Models :
      (db : Database (Value Z)) (argv : List Bytes) (now delta : ℤ)
      → IsValid db
      → parse_int64 (arg argv 3) ≡ some delta
      → Invariant.IsValid (hash_at db now (arg argv 1))
      → let there = finding hash_kind (entry db now (arg argv 1)) in
        let f = view (hash_at db now (arg argv 1)) in
        let answer = incr_answer (field_number (f (arg argv 2))) delta in
        ((cmd_hincrby db argv now).0 ≡ reply_of there answer (λ _. answer))
        × (h' : HashTable Bytes Bytes) × Invariant.IsValid h'
        × (view h' ≡ incremented (field_number (f (arg argv 2))) delta (arg argv 2) f)
        × Shows now
            (created_held hash_kind db (arg argv 1) there (λ _. h'))
            (cmd_hincrby db argv now).1
  unfolding cmd_hincrby
  cmd_hincrby-Models db argv now delta v a sound =
      let there = finding hash_kind (entry db now (arg argv 1)) in
      let (told, s) =
        grow_held-Shows (hash_kind {Z = Z}) db (arg argv 1) now (incr_field (arg argv 2) delta) v in
      let (answer, valid, same) =
        incr_field-Models (arg argv 2) delta _ sound (parse_int64-InRange _ delta a) in
      rw (a, cmd_hincrby)
        (
          told
              ∙ reply_of-grown (hash_kind {Z = Z}) there (λ h. (incr_field (arg argv 2) delta h).0)
              ∙ reply_of-same there _ _ _ _ answer (λ _. answer),
          _,
          valid,
          same,
          created_held-there hash_kind db _ (arg argv 1) now there _ s,
        )
