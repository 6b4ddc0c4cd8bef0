-- ===== src/Commands/Sets/Lookup.antt =====
-- SINTER, of src/commands/cmd_set.cpp, on a database.
use mathlib.Core.List.{Memᴰ}
use mathlib.Core.List.Memᴰ.{head, tail}
use gredis.Base.Bytes.{Bytes, bytes_eq, bytes_eq_iff}
use gredis.Base.Int.{ℤ}
use gredis.Base.{
  ◌<◌, ◌≡◌, ◌∙◌, ◌⊎◌, inl, inr, refl, ap, Option, some, true, Option-cases, Bool-cases, List, [],
  ◌∷◌, ◌++◌, length, drop, arith,
}
use gredis.Commands.Hashes.{write_fields}
use gredis.Commands.Hashes.Listing.{fields_of, write_fields-bulks}
use gredis.Commands.Held.Laws.{
  Finding, missing, other_type, held, finding, finding-missing, finding-other, finding-held,
}
use gredis.Commands.Sets.Inter.{AllValid, views, all_have, number_of, intersect-all_have}
use gredis.Commands.Sets.{
  SetValue, set_kind, as_set, as_entries, intersect, gather, put_back, is_named, has_no_repeats,
  cmd_sinter,
}
use gredis.Commands.Text.{wrong_type}
use gredis.Commands.Value.{Value}
use gredis.Protocol.Parser.RoundTrip.{bulks, encode_command}
use gredis.Protocol.Writer.{error, array_header}
use gredis.Storage.Database.Contents.{entry, IsValid, Shows, Shows-refl, Shows-trans}
use gredis.Storage.Database.Methods.{value_in, lookup-entry}
use gredis.Storage.Database.{Database, lookup_read}
use gredis.Storage.HashTable.Chain.{to_nat}

-- one key in front of the others: the first that is missing or of another type gives the reply
abbrev add_finding : Finding SetValue → Bytes ⊎ List SetValue → Bytes ⊎ List SetValue
add_finding missing rest = inl (array_header 0)
add_finding other_type rest = inl (error wrong_type)
add_finding (held s d) (inl reply) = inl reply
add_finding (held s d) (inr sets) = inr (s ∷ sets)

add_held :
    (s : SetValue) (d : Option ℤ) (g : Bytes ⊎ List SetValue)
    → (elim g [ inl reply ↦ inl reply | inr sets ↦ inr (s ∷ sets) ]) ≡ add_finding (held s d) g
add_held s d (inl reply) = refl
add_held s d (inr sets) = refl

-- what the lookups find allows an intersection
abbrev pub AllSound : Bytes ⊎ List SetValue → Type 0
AllSound (inl reply) = Unit
AllSound (inr sets) = AllValid sets × (0 < length sets)

-- the reply is the one that a key asks for, or lists what is in every set, each member once
abbrev pub Answers : Bytes ⊎ List SetValue → Bytes → Type 0
Answers (inl reply) out = out ≡ reply
Answers (inr sets) out =
    (result : List Bytes) × (out ≡ encode_command result)
    × ((p : Bytes) → number_of p result ≡ to_nat (all_have p (views sets)))

fields_of-as_entries : (l : List Bytes) → fields_of (as_entries l) ≡ l
fields_of-as_entries [] = refl
fields_of-as_entries (m ∷ l) = ap (λ k. m ∷ k) (fields_of-as_entries l)

-- no key stands twice in a list
abbrev pub AllDifferent : List Bytes → Type 0
AllDifferent [] = Unit
AllDifferent (key ∷ keys) = (¬ Memᴰ key keys) × AllDifferent keys

is_named-Memᴰ : (key : Bytes) (keys : List Bytes) → is_named key keys ≡ true → Memᴰ key keys
is_named-Memᴰ key [] h = cc
is_named-Memᴰ key (k ∷ keys) h = elim (Bool-cases (bytes_eq key k)) [
  | inl e ↦ head ((bytes_eq_iff key k).0 e)
  | inr e ↦ tail (is_named-Memᴰ key keys (ground (arith, e, h)))
]

AllDifferent-has_no_repeats : (keys : List Bytes) → AllDifferent keys → has_no_repeats keys ≡ true
AllDifferent-has_no_repeats [] h = refl
AllDifferent-has_no_repeats (key ∷ keys) (fresh, rest) = elim (Bool-cases (is_named key keys)) [
  | inl e ↦ absurd (fresh (is_named-Memᴰ key keys e))
  | inr e ↦ rw e (AllDifferent-has_no_repeats keys rest)
]

module _ {Z : Type 0} where
  -- the sets that the keys show, or the reply that a key asks for
  abbrev pub shown_sets : Database (Value Z) → List Bytes → ℤ → Bytes ⊎ List SetValue
  shown_sets db [] now = inr []
  shown_sets db (key ∷ keys) now =
      add_finding (finding (set_kind {Z = Z}) (entry db now key)) (shown_sets db keys now)

  gather-shown :
      (db r : Database (Value Z)) (keys : List Bytes) (now : ℤ)
      → Shows now (entry db) r
      → (gather r keys now).0 ≡ shown_sets db keys now
  unfolding gather set_kind
  gather-shown db r [] now s = refl
  gather-shown db r (key ∷ keys) now s =
      let (found, still, _, _) = lookup-entry r key now s.valid in
      let told = found ∙ ap value_in (s.shows now key (ground arith)) in
      let rest =
        gather-shown db (lookup_read r key now).1 keys now
          (Shows-trans now (entry db) r _ s.shows still) in
      elim (Option-cases (entry db now key)) [
        | inl e ↦ rw (finding-missing set_kind _ e, told, e, gather) refl
        | inr ((x, d), e) ↦ elim (Option-cases (as_set x)) [
          | inl other ↦ rw (finding-other set_kind _ x d e other, told, e, other, gather) refl
          | inr (found_set, at) ↦
              rw (finding-held set_kind _ x d found_set e at, told, e, at, rest, gather)
                (add_held found_set d (shown_sets db keys now))
        ]
      ]

  sinter_cases :
      (db : Database (Value Z)) (argv : List Bytes) (now : ℤ) (g : Bytes ⊎ List SetValue)
      → (gather db (drop 1 argv) now).0 ≡ g
      → AllSound g
      → has_no_repeats (drop 1 argv) ≡ true
      → (r : Bytes × Database (Value Z)) × (cmd_sinter db argv now ≡ some r) × Answers g r.0
  unfolding cmd_sinter encode_command
  sinter_cases db argv now (inl reply) e v distinct =
      ((reply, (gather db (drop 1 argv) now).1), rw (e, cmd_sinter) refl, refl)
  sinter_cases db argv now (inr sets) e (valid, some_sets) distinct =
      let result = (intersect sets).0 in
      (
        (
          array_header (length result) ++ write_fields (as_entries result),
          put_back (drop 1 argv) (intersect sets).1 (gather db (drop 1 argv) now).1,
        ),
        rw (e, cmd_sinter, distinct) refl,
        (
          result,
          ap (λ s. array_header (length result) ++ s)
              (write_fields-bulks (as_entries result) ∙ ap bulks (fields_of-as_entries result)),
          λ p. intersect-all_have sets p valid some_sets,
        ),
      )

  -- On a valid database, SINTER of keys that are all different, and that if they all show sets
  -- show valid tables, answers an array that lists each member of all of them once and nothing
  -- else; the first key that is missing or of another type gives the reply instead, an empty array
  -- or an error.
  pub cmd_sinter-Answers :
      (db : Database (Value Z)) (argv : List Bytes) (now : ℤ)
      → IsValid db
      → AllSound (shown_sets db (drop 1 argv) now)
      → AllDifferent (drop 1 argv)
      → (r : Bytes × Database (Value Z)) × (cmd_sinter db argv now ≡ some r)
        × Answers (shown_sets db (drop 1 argv) now) r.0
  cmd_sinter-Answers db argv now v sound distinct =
      sinter_cases db argv now _ (gather-shown db db (drop 1 argv) now (Shows-refl db now v)) sound
        (AllDifferent-has_no_repeats (drop 1 argv) distinct)
