-- ===== src/Commands/Hashes/Listing.antt =====
-- HGET, HMGET, HGETALL, HKEYS and HVALS, of src/commands/cmd_hash.cpp.
use mathlib.Core.List.{append_assoc}
use gredis.Base.Bytes.{Bytes}
use gredis.Base.Int.{ℤ, pos}
use gredis.Base.{
  suc, ◌-◌, ◌*◌, ◌≡◌, ◌∙◌, refl, ap, ap₂, arith, Option, none, List, [], ◌∷◌, ◌++◌, length, drop,
}
use gredis.Commands.Held.Laws.{finding, reply_of, reply_of-same, reply_of-there, read_held-Shows}
use gredis.Commands.Hashes.Fields.{hash_at}
use gredis.Commands.Hashes.{
  hash_kind, field_reply, get_fields, nil_fields, write_pairs, write_fields, write_values, cmd_hget,
  cmd_hexists, cmd_hmget, cmd_hgetall, cmd_hkeys, cmd_hvals,
}
use gredis.Commands.Tables.Handlers.{Looks, update_held-Looks}
use gredis.Commands.Text.{arg}
use gredis.Commands.Value.{Value}
use gredis.Protocol.Parser.RoundTrip.{bulks, encode_command}
use gredis.Protocol.Writer.{integer, bulk, null_bulk, array_header}
use gredis.Storage.Database.Contents.{entry, IsValid, Shows}
use gredis.Storage.Database.{Database}
use gredis.Storage.HashTable.Chain.{to_nat}
use gredis.Storage.HashTable.Invariant
use gredis.Storage.HashTable.Invariant.{view, Models, IsStill, IsStill-refl, Models-IsStill}
use gredis.Storage.HashTable.Operations.{find-Models}
use gredis.Storage.HashTable.Strings.{string_key}
use gredis.Storage.HashTable.Update.{is_some}
use gredis.Storage.HashTable.Visit.{for_each-view}
use gredis.Storage.HashTable.{HashTable, size, for_each, find}

-- the replies for some fields of a map
unfoldable pub field_replies : List Bytes → (Bytes → Option Bytes) → Bytes
field_replies [] f = []
field_replies (field ∷ fields) f = field_reply (f field) ++ field_replies fields f

get_fields-IsStill :
    (fields : List Bytes) (h : HashTable Bytes Bytes)
    → Invariant.IsValid h
    → ((get_fields fields h).0 ≡ field_replies fields (view h)) × IsStill h (get_fields fields h).1
unfolding get_fields field_replies
get_fields-IsStill [] h v = (refl, IsStill-refl h v)
get_fields-IsStill (field ∷ fields) h v =
    let (told, still) = find-Models h field v in
    let h' = (find h field).1 in
    let (rest, all) = get_fields-IsStill fields h' still.valid in
    let same : view h' ≡ view h = λ i p. still.reads p i in
    (
      ap₂ (λ o s. field_reply o ++ s) told (rest ∙ ap (field_replies fields) same),
      Models-IsStill _ _ still all,
    )

nil_fields-replies : (fields : List Bytes) → nil_fields fields ≡ field_replies fields (λ _. none)
unfolding nil_fields field_replies
nil_fields-replies [] = refl
nil_fields-replies (field ∷ fields) = ap (λ s. null_bulk ++ s) (nil_fields-replies fields)

-- the entries as they are listed
abbrev pub flat : List (Bytes × Bytes) → List Bytes
flat [] = []
flat ((field, value) ∷ es) = field ∷ value ∷ flat es

abbrev pub fields_of {ℓ} : {V : Type ℓ} → List (Bytes × V) → List Bytes
fields_of [] = []
fields_of ((field, value) ∷ es) = field ∷ fields_of es

abbrev pub values_of : List (Bytes × Bytes) → List Bytes
values_of [] = []
values_of ((field, value) ∷ es) = value ∷ values_of es

write_pairs-bulks : (es : List (Bytes × Bytes)) → write_pairs es ≡ bulks (flat es)
unfolding write_pairs bulks
write_pairs-bulks [] = refl
write_pairs-bulks ((field, value) ∷ es) =
    ap (λ s. bulk field ++ bulk value ++ s) (write_pairs-bulks es)
    ∙ append_assoc (bulk field) (bulk value) (bulks (flat es))

pub write_fields-bulks {ℓ} :
    {V : Type ℓ} (es : List (Bytes × V)) → write_fields es ≡ bulks (fields_of es)
unfolding write_fields bulks
write_fields-bulks [] = refl
write_fields-bulks ((field, value) ∷ es) = ap (λ s. bulk field ++ s) (write_fields-bulks es)

write_values-bulks : (es : List (Bytes × Bytes)) → write_values es ≡ bulks (values_of es)
unfolding write_values bulks
write_values-bulks [] = refl
write_values-bulks ((field, value) ∷ es) = ap (λ s. bulk value ++ s) (write_values-bulks es)

length-flat : (es : List (Bytes × Bytes)) → length (flat es) ≡ 2 * length es
length-flat [] = refl
length-flat (e ∷ es) = omega (arith, length-flat es)

pub length-fields_of {ℓ} : {V : Type ℓ} (es : List (Bytes × V)) → length (fields_of es) ≡ length es
length-fields_of [] = refl
length-fields_of (e ∷ es) = ap suc (length-fields_of es)

length-values_of : (es : List (Bytes × Bytes)) → length (values_of es) ≡ length es
length-values_of [] = refl
length-values_of (e ∷ es) = ap suc (length-values_of es)

module _ {Z : Type 0} where
  -- On a valid database, where the table of the hash that the key shows, if it shows one, is
  -- valid, HGET, HEXISTS and HMGET answer what the hash holds at their fields, and leave at the
  -- key a valid table that stands for the same map.
  pub cmd_hget-Looks :
      (db : Database (Value Z)) (argv : List Bytes) (now : ℤ)
      → IsValid db
      → Invariant.IsValid (hash_at db now (arg argv 1))
      → let m = view (hash_at db now (arg argv 1)) in
        let key = arg argv 1 in
        let header = array_header (length argv - 2) in
        let fields = drop 2 argv in
        Looks hash_kind db key now null_bulk (field_reply (m (arg argv 2))) (cmd_hget db argv now)
        × Looks hash_kind db key now
            (integer (pos 0))
            (integer (pos (to_nat (is_some (m (arg argv 2))))))
            (cmd_hexists db argv now)
        × Looks hash_kind db key now
            (header ++ field_replies fields (λ _. none))
            (header ++ field_replies fields m)
            (cmd_hmget db argv now)
  unfolding cmd_hget cmd_hexists cmd_hmget
  cmd_hget-Looks db argv now v sound =
      let key = arg argv 1 in
      let (told, still) = find-Models (hash_at db now key) (arg argv 2) sound in
      let (all, moved) = get_fields-IsStill (drop 2 argv) (hash_at db now key) sound in
      let header = array_header (length argv - 2) in
      (
        update_held-Looks (hash_kind {Z = Z}) db key now v _ _ _ (ap field_reply told, still),
        update_held-Looks (hash_kind {Z = Z}) db key now v _ _ _
            (ap (λ o. integer (pos (to_nat (is_some o)))) told, still),
        rw (← nil_fields-replies (drop 2 argv)) (
            update_held-Looks (hash_kind {Z = Z}) db key now v _ _ _
              (ap (λ s. header ++ s) all, moved)),
      )

  -- On a valid database, where the table of the hash that the key shows, if it shows one, is
  -- valid, HGETALL, HKEYS and HVALS answer arrays of the entries that `for_each` visits, with a
  -- header that counts what follows, and change nothing that can be seen.
  pub cmd_hgetall-Lists :
      (db : Database (Value Z)) (argv : List Bytes) (now : ℤ)
      → IsValid db
      → Invariant.IsValid (hash_at db now (arg argv 1))
      → let there = finding hash_kind (entry db now (arg argv 1)) in
        let es = for_each (hash_at db now (arg argv 1)) in
        ((cmd_hgetall db argv now).0
          ≡ reply_of there (array_header 0) (λ _. encode_command (flat es)))
        × ((cmd_hkeys db argv now).0
            ≡ reply_of there (array_header 0) (λ _. encode_command (fields_of es)))
        × ((cmd_hvals db argv now).0
            ≡ reply_of there (array_header 0) (λ _. encode_command (values_of es)))
        × Shows now (entry db) (cmd_hgetall db argv now).1
        × Shows now (entry db) (cmd_hkeys db argv now).1
        × Shows now (entry db) (cmd_hvals db argv now).1
  unfolding cmd_hgetall cmd_hkeys cmd_hvals encode_command
  cmd_hgetall-Lists db argv now v sound =
      let key = arg argv 1 in
      let there = finding hash_kind (entry db now key) in
      let h = hash_at db now key in
      let es = for_each h in
      let (_, _, counted) = for_each-view h sound in
      let (all, a) = read_held-Shows (hash_kind {Z = Z}) db key now (array_header 0) _ v in
      let (keys, b) = read_held-Shows (hash_kind {Z = Z}) db key now (array_header 0) _ v in
      let (vals, c) = read_held-Shows (hash_kind {Z = Z}) db key now (array_header 0) _ v in
      let n : 2 * size h ≡ length (flat es) = omega (arith, counted, length-flat es) in
      let m : size h ≡ length (fields_of es) = omega (arith, counted, length-fields_of es) in
      let k : size h ≡ length (values_of es) = omega (arith, counted, length-values_of es) in
      (
        all
            ∙ reply_of-there (hash_kind {Z = Z}) there _ _
            ∙ reply_of-same there _ _ _ _ refl
                (λ _. ap₂ (λ i s. array_header i ++ s) n (write_pairs-bulks es)),
        keys
            ∙ reply_of-there (hash_kind {Z = Z}) there _ _
            ∙ reply_of-same there _ _ _ _ refl
                (λ _. ap₂ (λ i s. array_header i ++ s) m (write_fields-bulks es)),
        vals
            ∙ reply_of-there (hash_kind {Z = Z}) there _ _
            ∙ reply_of-same there _ _ _ _ refl
                (λ _. ap₂ (λ i s. array_header i ++ s) k (write_values-bulks es)),
        a,
        b,
        c,
      )
