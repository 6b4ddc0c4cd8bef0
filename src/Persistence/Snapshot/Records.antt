-- ===== src/Persistence/Snapshot/Records.antt =====
-- Records of src/persistence/snapshot.cpp: what is written for an entry of the database is loaded
-- again, one record after the other.
use mathlib.Core.List.{append_assoc}
use gredis.Base.Bytes.{Bytes}
use gredis.Base.Int.{ℤ}
use gredis.Base.{
  ℕ, zero, suc, ◌+◌, ◌^◌, ◌<◌, ◌≤◌, ◌≡◌, ◌∙◌, inr, refl, ap, arith, true, false, ◌||◌, Option, none,
  some, List, [], ◌∷◌, ◌++◌, length, ltb, length-append,
}
use gredis.Commands.Value.{Value, string_value, hash_value, list_value, set_value, zset_value}
use gredis.Persistence.Codec.RoundTrip.{
  read_le-write_le, read_i64-write_i64, read_lp_bytes-write_lp_bytes,
}
use gredis.Persistence.Codec.{write_le, write_u8, write_i64, write_lp_bytes, read_u8}
use gredis.Persistence.Snapshot.Payload.{rebuilt, IsWritable, decode_payload-encode_payload}
use gredis.Persistence.Snapshot.{
  ZSets, or_error, encode_payload, type_tag_of, encode_expiry, encode_record, encode_records,
  decode_expiry, decode_one_record, decode_records,
}
use gredis.Protocol.Outcome.{Outcome, parsed, and_then}
use gredis.Storage.Database.{Database, load_key}
use gredis.Util.Int64.{InRange}

-- an expiry that is an int64_t, if there is one
abbrev pub IsExpiry : Option ℤ → Type 0
IsExpiry none = Unit
IsExpiry (some t) = InRange t

module _ {Z : Type 0} (zsets : ZSets Z) where
  -- an entry whose lengths fit the file
  abbrev pub IsRecord : Bytes × Value Z × Option ℤ → Type 0
  IsRecord (key, value, expiry) = (length key < 2 ^ 32) × IsWritable zsets value × IsExpiry expiry

  abbrev pub AllRecords : List (Bytes × Value Z × Option ℤ) → Type 0
  AllRecords [] = Unit
  AllRecords (e ∷ es) = IsRecord e × AllRecords es

  -- the entries loaded one after the other
  unfoldable pub load_all :
      List (Bytes × Value Z × Option ℤ) → Database (Value Z) → ℤ → ℤ → Database (Value Z)
  load_all [] db now_mono now_unix = db
  load_all ((key, value, expiry) ∷ es) db now_mono now_unix =
      load_all es (load_key db key (rebuilt zsets value) expiry now_mono now_unix) now_mono now_unix

  expiry_read {ℓ} :
      {B : Type ℓ} (e : Bytes) (expiry : Option ℤ) (rest : Bytes) (f : Option ℤ → Bytes → Outcome B)
      → IsExpiry expiry
      → and_then
          (or_error e (read_u8 (encode_expiry zsets expiry ++ rest)))
          (λ has_ttl r. and_then (decode_expiry zsets has_ttl r) f)
        ≡ f expiry rest
  unfolding and_then decode_expiry
  expiry_read e none rest f w = rw (read_le-write_le 1 0 rest (omega arith)) refl
  expiry_read e (some t) rest f w =
      let shape = append_assoc (write_u8 1) (write_i64 t) rest in
      let flag = read_le-write_le 1 1 (write_i64 t ++ rest) (omega arith) in
      rw (shape, flag, read_i64-write_i64 t rest w) refl

  tag_range :
      (v : Value Z)
      → ((ltb (type_tag_of zsets v) 1 || ltb 5 (type_tag_of zsets v)) ≡ false)
        × (type_tag_of zsets v < 256)
  unfolding type_tag_of
  tag_range (string_value s) = (refl, omega arith)
  tag_range (hash_value h) = (refl, omega arith)
  tag_range (list_value l) = (refl, omega arith)
  tag_range (set_value s) = (refl, omega arith)
  tag_range (zset_value z) = (refl, omega arith)

  record-parts :
      (key : Bytes) (value : Value Z) (expiry : Option ℤ) (rest : Bytes)
      → encode_record zsets (key, value, expiry) ++ rest
        ≡ write_u8 (type_tag_of zsets value)
          ++ (encode_expiry zsets expiry
              ++ (write_lp_bytes key ++ (encode_payload zsets value ++ rest)))
  unfolding encode_record write_le
  record-parts key value expiry rest = simp append_assoc refl

  pub decode_one_record-encode_record :
      (key : Bytes) (value : Value Z) (expiry : Option ℤ) (rest : Bytes) (db : Database (Value Z))
      (now_mono now_unix : ℤ)
      → IsRecord (key, value, expiry)
      → decode_one_record zsets
          (encode_record zsets (key, value, expiry) ++ rest)
          db
          now_mono
          now_unix
        ≡ parsed (load_key db key (rebuilt zsets value) expiry now_mono now_unix) rest
  unfolding decode_one_record and_then
  decode_one_record-encode_record key value expiry rest db now_mono now_unix (small, w, x) =
      let (tagged, narrow) = tag_range value in
      let payload = encode_payload zsets value ++ rest in
      let body = write_lp_bytes key ++ payload in
      let tag =
        read_le-write_le 1 (type_tag_of zsets value) (encode_expiry zsets expiry ++ body) narrow in
      rw (record-parts key value expiry rest, tag, decode_one_record, tagged)
        (expiry_read _ expiry body _ x
          ∙ rw
              (
                read_lp_bytes-write_lp_bytes key payload small,
                decode_payload-encode_payload zsets value rest w,
              )
              refl)

  -- a record has a byte at least
  encode_record-length : (e : Bytes × Value Z × Option ℤ) → 1 ≤ length (encode_record zsets e)
  unfolding encode_record write_le
  encode_record-length (key, value, expiry) = omega arith

  pub encode_records-length :
      (es : List (Bytes × Value Z × Option ℤ)) → length es ≤ length (encode_records zsets es)
  unfolding encode_records
  encode_records-length [] = omega arith
  encode_records-length (e ∷ es) = omega (
    arith,
    encode_record-length e,
    encode_records-length es,
    length-append (encode_record zsets e) (encode_records zsets es),
  )

  pub decode_records-encode_records :
      (fuel : ℕ) (es : List (Bytes × Value Z × Option ℤ)) (footer : Bytes) (db : Database (Value Z))
      (n : ℕ) (now_mono now_unix : ℤ)
      → length es ≤ fuel
      → length footer ≡ 13
      → AllRecords es
      → decode_records zsets fuel (encode_records zsets es ++ footer) db n now_mono now_unix
        ≡ inr (13, n + length es, load_all es db now_mono now_unix)
  unfolding decode_records encode_records load_all
  decode_records-encode_records zero [] footer db n now_mono now_unix h e w =
      rw e (ap (λ k. inr (13, k, db)) (omega arith))
  decode_records-encode_records zero (r ∷ es) footer db n now_mono now_unix h e w =
      absurd (omega arith)
  decode_records-encode_records (suc fuel) [] footer db n now_mono now_unix h e w =
      let short : ltb 13 (length footer) ≡ false = ground arith in
      rw (decode_records, short, e) (ap (λ k. inr (13, k, db)) (omega arith))
  decode_records-encode_records (suc fuel) ((key, value, expiry) ∷ es) footer db n now_mono now_unix
        h e (first, w) =
      let r = encode_record zsets (key, value, expiry) in
      let shape = append_assoc r (encode_records zsets es) footer in
      let long : ltb 13 (length (r ++ (encode_records zsets es ++ footer))) ≡ true = ground (
        arith,
        encode_record-length (key, value, expiry),
        length-append r (encode_records zsets es ++ footer),
        length-append (encode_records zsets es) footer,
      ) in
      let head =
        decode_one_record-encode_record key value expiry (encode_records zsets es ++ footer) db
          now_mono now_unix first in
      let rest =
        decode_records-encode_records fuel es footer _ (suc n) now_mono now_unix (omega arith) e
          w in
      let count : suc n + length es ≡ n + suc (length es) = omega arith in
      rw (shape, decode_records, long, head, ← count) rest
