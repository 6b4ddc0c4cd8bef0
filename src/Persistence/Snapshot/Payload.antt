-- ===== src/Persistence/Snapshot/Payload.antt =====
-- Payloads of src/persistence/snapshot.cpp: what `encode_payload` writes, `decode_payload` reads
-- back.
use mathlib.Core.List.{append_assoc, append-nil}
use gredis.Base.Bytes.{Bytes}
use gredis.Base.{ℕ, ◌^◌, ◌<◌, ◌≡◌, ◌∙◌, refl, sym, ap, arith, List, [], ◌∷◌, ◌++◌, length}
use gredis.Commands.Tables.Rebuild.{rebuild-Models}
use gredis.Commands.Tables.{insert_entries}
use gredis.Commands.Value.{
  Value, Empty, empty, string_value, hash_value, list_value, set_value, zset_value,
}
use gredis.Persistence.Codec.RoundTrip.{read_le-write_le, read_lp_bytes-write_lp_bytes}
use gredis.Persistence.Codec.{write_u32, write_u64, write_lp_bytes}
use gredis.Persistence.Snapshot.{
  ZSets, write_items, write_entries, write_set, write_scores, read_items, read_entries, read_set,
  read_scores, encode_payload, type_tag_of, decode_payload,
}
use gredis.Protocol.Outcome.{parsed, and_then}
use gredis.Storage.HashTable.Invariant
use gredis.Storage.HashTable.Invariant.{view, Models}
use gredis.Storage.HashTable.Strings.{string_key}
use gredis.Storage.HashTable.Visit.{for_each-view}
use gredis.Storage.HashTable.{HashTable, size, for_each, empty_table}

-- lengths that fit the 32 bits of a prefix
abbrev pub AllSmall : List Bytes → Type 0
AllSmall [] = Unit
AllSmall (s ∷ l) = (length s < 2 ^ 32) × AllSmall l

abbrev pub AllSmallPairs : List (Bytes × Bytes) → Type 0
AllSmallPairs [] = Unit
AllSmallPairs ((s, x) ∷ es) = (length s < 2 ^ 32) × (length x < 2 ^ 32) × AllSmallPairs es

abbrev pub AllSmallMembers : List (Bytes × Empty) → Type 0
AllSmallMembers [] = Unit
AllSmallMembers ((s, x) ∷ es) = (length s < 2 ^ 32) × AllSmallMembers es

abbrev pub AllSmallScores : List (Bytes × ℕ) → Type 0
AllSmallScores [] = Unit
AllSmallScores ((s, x) ∷ ms) = (length s < 2 ^ 32) × (x < 2 ^ 64) × AllSmallScores ms

read_items-write_items :
    (items l : List Bytes) (rest : Bytes)
    → AllSmall items
    → read_items (length items) l (write_items items ++ rest) ≡ parsed (l ++ items) rest
unfolding read_items write_items and_then
read_items-write_items [] l rest w = ap (λ k. parsed k rest) (sym (append-nil l))
read_items-write_items (s ∷ items) l rest (small, w) =
    let shape = append_assoc (write_lp_bytes s) (write_items items) rest in
    let head = read_lp_bytes-write_lp_bytes s (write_items items ++ rest) small in
    rw (shape, head, read_items)
      (read_items-write_items items (l ++ s ∷ []) rest w
        ∙ ap (λ k. parsed k rest) (append_assoc l (s ∷ []) items))

read_entries-write_entries :
    (es : List (Bytes × Bytes)) (t : HashTable Bytes Bytes) (rest : Bytes)
    → AllSmallPairs es
    → read_entries (length es) t (write_entries es ++ rest) ≡ parsed (insert_entries es t).1 rest
unfolding read_entries write_entries and_then insert_entries
read_entries-write_entries [] t rest w = refl
read_entries-write_entries ((s, x) ∷ es) t rest (small, fits, w) =
    let tail = write_lp_bytes x ++ write_entries es in
    let shape = append_assoc (write_lp_bytes s) tail rest in
    let head = read_lp_bytes-write_lp_bytes s (tail ++ rest) small in
    let shape' = append_assoc (write_lp_bytes x) (write_entries es) rest in
    let next = read_lp_bytes-write_lp_bytes x (write_entries es ++ rest) fits in
    rw (shape, head, read_entries, shape', next) (read_entries-write_entries es _ rest w)

read_set-write_set :
    (es : List (Bytes × Empty)) (t : HashTable Bytes Empty) (rest : Bytes)
    → AllSmallMembers es
    → read_set (length es) t (write_set es ++ rest) ≡ parsed (insert_entries es t).1 rest
unfolding read_set write_set and_then insert_entries
read_set-write_set [] t rest w = refl
read_set-write_set ((s, empty) ∷ es) t rest (small, w) =
    let shape = append_assoc (write_lp_bytes s) (write_set es) rest in
    let head = read_lp_bytes-write_lp_bytes s (write_set es ++ rest) small in
    rw (shape, head, read_set) (read_set-write_set es _ rest w)

module _ {Z : Type 0} (zsets : ZSets Z) where
  abbrev pub upsert_all : List (Bytes × ℕ) → Z → Z
  upsert_all [] z = z
  upsert_all ((s, x) ∷ ms) z = upsert_all ms (zsets.upsert z s x)

  read_scores-write_scores :
      (ms : List (Bytes × ℕ)) (z : Z) (rest : Bytes)
      → AllSmallScores ms
      → read_scores zsets (length ms) z (write_scores ms ++ rest) ≡ parsed (upsert_all ms z) rest
  unfolding read_scores write_scores and_then
  read_scores-write_scores [] z rest w = refl
  read_scores-write_scores ((s, x) ∷ ms) z rest (small, fits, w) =
      let tail = write_u64 x ++ write_scores ms in
      let shape = append_assoc (write_lp_bytes s) tail rest in
      let head = read_lp_bytes-write_lp_bytes s (tail ++ rest) small in
      let shape' = append_assoc (write_u64 x) (write_scores ms) rest in
      let next = read_le-write_le 8 x (write_scores ms ++ rest) (omega arith) in
      rw (shape, head, read_scores, shape', next) (read_scores-write_scores ms _ rest w)

  -- the value as it is built from what was written of it
  unfoldable pub rebuilt : Value Z → Value Z
  rebuilt (string_value s) = string_value s
  rebuilt (hash_value h) = hash_value (insert_entries (for_each h) empty_table).1
  rebuilt (list_value l) = list_value l
  rebuilt (set_value s) = set_value (insert_entries (for_each s) empty_table).1
  rebuilt (zset_value z) = zset_value (upsert_all (zsets.members z) zsets.no_zset)

  -- a value whose counts and lengths fit their 32 bits, with valid tables
  abbrev pub IsWritable : Value Z → Type 0
  IsWritable (string_value s) = length s < 2 ^ 32
  IsWritable (hash_value h) = Invariant.IsValid h × (size h < 2 ^ 32) × AllSmallPairs (for_each h)
  IsWritable (list_value l) = (length l < 2 ^ 32) × AllSmall l
  IsWritable (set_value s) = Invariant.IsValid s × (size s < 2 ^ 32) × AllSmallMembers (for_each s)
  IsWritable (zset_value z) = (zsets.zset_size z < 2 ^ 32) × AllSmallScores (zsets.members z)

  pub decode_payload-encode_payload :
      (v : Value Z) (rest : Bytes)
      → IsWritable v
      → decode_payload zsets (type_tag_of zsets v) (encode_payload zsets v ++ rest)
        ≡ parsed (rebuilt v) rest
  unfolding decode_payload encode_payload type_tag_of rebuilt and_then
  decode_payload-encode_payload (string_value s) rest w =
      rw (read_lp_bytes-write_lp_bytes s rest w) refl
  decode_payload-encode_payload (hash_value h) rest (v, small, w) =
      let (_, _, counted) = for_each-view h v in
      let es = for_each h in
      let shape = append_assoc (write_u32 (size h)) (write_entries es) rest in
      let head = read_le-write_le 4 (size h) (write_entries es ++ rest) (omega arith) in
      let body = read_entries-write_entries es empty_table rest w in
      rw (shape, head, sym counted, body) refl
  decode_payload-encode_payload (list_value l) rest (small, w) =
      let shape = append_assoc (write_u32 (length l)) (write_items l) rest in
      let head = read_le-write_le 4 (length l) (write_items l ++ rest) (omega arith) in
      rw (shape, head, read_items-write_items l [] rest w) refl
  decode_payload-encode_payload (set_value s) rest (v, small, w) =
      let (_, _, counted) = for_each-view s v in
      let es = for_each s in
      let shape = append_assoc (write_u32 (size s)) (write_set es) rest in
      let head = read_le-write_le 4 (size s) (write_set es ++ rest) (omega arith) in
      let body = read_set-write_set es empty_table rest w in
      rw (shape, head, sym counted, body) refl
  decode_payload-encode_payload (zset_value z) rest (small, w) =
      let ms = zsets.members z in
      let shape = append_assoc (write_u32 (zsets.zset_size z)) (write_scores ms) rest in
      let head = read_le-write_le 4 (zsets.zset_size z) (write_scores ms ++ rest) (omega arith) in
      let body = read_scores-write_scores ms zsets.no_zset rest w in
      rw (shape, head, sym (zsets.length-members z), body) refl

  -- the same value: tables that stand for the same map, and a sorted set built of the same members
  unfoldable pub Same : Value Z → Value Z → Type 0
  Same (string_value s) v = v ≡ string_value s
  Same (hash_value h) v =
      (t : HashTable Bytes Bytes) × (v ≡ hash_value t) × Models (view h) (size h) t
  Same (list_value l) v = v ≡ list_value l
  Same (set_value s) v =
      (t : HashTable Bytes Empty) × (v ≡ set_value t) × Models (view s) (size s) t
  Same (zset_value z) v = v ≡ zset_value (upsert_all (zsets.members z) zsets.no_zset)

  rebuilt-Same : (v : Value Z) → IsWritable v → Same v (rebuilt v)
  unfolding Same rebuilt
  rebuilt-Same (string_value s) w = refl
  rebuilt-Same (hash_value h) (v, _, _) = (_, refl, rebuild-Models h v)
  rebuilt-Same (list_value l) w = refl
  rebuilt-Same (set_value s) (v, _, _) = (_, refl, rebuild-Models s v)
  rebuilt-Same (zset_value z) w = refl

  -- The payload of a value whose counts and lengths fit 32 bits and whose tables are valid is read
  -- back, and no byte behind it, as the same value: the string or the list, a valid table that
  -- stands for the same map, or the sorted set that the members make in order.
  pub decode_payload-Same :
      (v : Value Z) (rest : Bytes)
      → IsWritable v
      → (u : Value Z) × (decode_payload zsets (type_tag_of zsets v) (encode_payload zsets v ++ rest)
          ≡ parsed u rest)
        × Same v u
  decode_payload-Same v rest w =
      (rebuilt v, decode_payload-encode_payload v rest w, rebuilt-Same v w)
