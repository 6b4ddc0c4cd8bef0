-- ===== src/Persistence/Snapshot/Whole.antt =====
-- A whole snapshot of src/persistence/snapshot.cpp is loaded again.
use mathlib.Core.List.{append_assoc}
use gredis.Base.Bytes.{Bytes, bytes_eq_refl}
use gredis.Base.Int.{ℤ}
use gredis.Base.{
  ℕ, ◌+◌, ◌-◌, ◌^◌, ◌<◌, ◌==◌, ==_iff, ◌≡◌, ◌∙◌, inr, refl, sym, ap, ap₂, arith, true, false,
  Option, List, [], ◌++◌, length, ltb, length-append, take-append, drop-append, take, drop, get_or,
}
use gredis.Commands.Value.{Value}
use gredis.Persistence.Codec.RoundTrip.{read_le-write_le}
use gredis.Persistence.Codec.{
  read_le, write_le, write_u8, write_u16, write_u32, write_u64, to_u64, read_u16, read_u32,
  read_u64,
}
use gredis.Persistence.Snapshot.Records.{
  AllRecords, load_all, decode_records-encode_records, encode_records-length,
}
use gredis.Persistence.Snapshot.{
  ZSets, magic, encode_records, encode_body, encode_snapshot, decode_records, finish_load,
  number_at, decode_snapshot,
}
use gredis.Storage.Database.{Database, empty_database, for_each_for_snapshot}
use gredis.Util.Crc32.{crc32}

module _ {Z : Type 0} (zsets : ZSets Z) where
  abbrev header : ℤ → Bytes
  header now_unix = magic ++ (write_u16 1 ++ (write_u16 0 ++ write_u64 (to_u64 now_unix)))

  abbrev closing : List (Bytes × Value Z × Option ℤ) → Bytes
  closing es = write_u8 255 ++ write_u64 (length es)

  abbrev footer : List (Bytes × Value Z × Option ℤ) → Bytes → Bytes
  footer es body = closing es ++ write_u32 (crc32 body)

  encode_body-parts :
      (es : List (Bytes × Value Z × Option ℤ)) (now_unix : ℤ) (tail : Bytes)
      → encode_body zsets es now_unix ++ tail
        ≡ header now_unix ++ (encode_records zsets es ++ (closing es ++ tail))
  unfolding encode_body
  encode_body-parts es now_unix tail = simp append_assoc refl

  length-header : (now_unix : ℤ) → length (header now_unix) ≡ 16
  unfolding write_le
  length-header now_unix = refl

  length-footer :
      (es : List (Bytes × Value Z × Option ℤ)) (body : Bytes) → length (footer es body) ≡ 13
  unfolding write_le
  length-footer es body = refl

  length-write_u32 : (n : ℕ) → length (write_u32 n) ≡ 4
  unfolding write_le
  length-write_u32 n = refl

  crc32-lt : (body : Bytes) → crc32 body < 2 ^ 32
  unfolding crc32
  crc32-lt body = omega arith

  -- the parts of a file that `encode_snapshot` writes, as `decode_snapshot` takes them out of it
  abbrev file : List (Bytes × Value Z × Option ℤ) → ℤ → Bytes
  file es now_unix =
      encode_body zsets es now_unix ++ write_u32 (crc32 (encode_body zsets es now_unix))

  file-parts :
      (es : List (Bytes × Value Z × Option ℤ)) (now_unix : ℤ)
      → file es now_unix
        ≡ header now_unix ++ (encode_records zsets es ++ footer es (encode_body zsets es now_unix))
  file-parts es now_unix =
      encode_body-parts es now_unix (write_u32 (crc32 (encode_body zsets es now_unix)))

  length-file :
      (es : List (Bytes × Value Z × Option ℤ)) (now_unix : ℤ)
      → length (file es now_unix) ≡ 16 + (length (encode_records zsets es) + 13)
  length-file es now_unix =
      let f = footer es (encode_body zsets es now_unix) in
      ap length (file-parts es now_unix)
      ∙ omega (
        arith,
        length-append (header now_unix) (encode_records zsets es ++ f),
        length-append (encode_records zsets es) f,
        length-header now_unix,
        length-footer es (encode_body zsets es now_unix),
      )

  drop-file :
      (es : List (Bytes × Value Z × Option ℤ)) (now_unix : ℤ)
      → drop (length (file es now_unix) - 13) (file es now_unix)
        ≡ footer es (encode_body zsets es now_unix)
  drop-file es now_unix =
      let f = footer es (encode_body zsets es now_unix) in
      let front = header now_unix ++ encode_records zsets es in
      let shape =
        file-parts es now_unix ∙ sym (append_assoc (header now_unix) (encode_records zsets es) f) in
      let n : length (file es now_unix) - 13 ≡ length front = omega (
        arith,
        length-file es now_unix,
        length-append (header now_unix) (encode_records zsets es),
        length-header now_unix,
      ) in
      ap (λ k. drop k (file es now_unix)) n ∙ ap (drop (length front)) shape ∙ drop-append front f

  take-file :
      (es : List (Bytes × Value Z × Option ℤ)) (now_unix : ℤ)
      → take (length (file es now_unix) - 4) (file es now_unix) ≡ encode_body zsets es now_unix
  take-file es now_unix =
      let body = encode_body zsets es now_unix in
      let n : length (file es now_unix) - 4 ≡ length body =
        omega (arith, length-append body (write_u32 (crc32 body)), length-write_u32 (crc32 body)) in
      ap (λ k. take k (file es now_unix)) n ∙ take-append body (write_u32 (crc32 body))

  -- the bytes at fixed places
  front-file :
      (es : List (Bytes × Value Z × Option ℤ)) (now_unix : ℤ)
      → (take 4 (file es now_unix) ≡ magic)
        × (number_at (read_u16 (drop 4 (file es now_unix))) ≡ 1)
        × (drop 16 (file es now_unix)
            ≡ encode_records zsets es ++ footer es (encode_body zsets es now_unix))
  unfolding write_le read_le
  front-file es now_unix = rw (file-parts es now_unix) (refl, refl, refl)

  footer-fields :
      (es : List (Bytes × Value Z × Option ℤ)) (body : Bytes)
      → length es < 2 ^ 64
      → (get_or (footer es body) 0 0 ≡ 255)
        × (number_at (read_u64 (drop 1 (footer es body))) ≡ length es)
        × (number_at (read_u32 (drop 9 (footer es body))) ≡ crc32 body)
  unfolding write_le
  footer-fields es body h =
      let count = read_le-write_le 8 (length es) (write_u32 (crc32 body)) (omega arith) in
      let crc = read_le-write_le 4 (crc32 body) [] (omega (arith, crc32-lt body)) in
      (refl, ap (number_at) count, ap number_at crc)

  -- an input that passes the checks before the loop
  passes :
      (input : Bytes) (now_mono now_unix : ℤ)
      → ltb (length input) 29 ≡ false
      → take 4 input ≡ magic
      → number_at (read_u16 (drop 4 input)) ≡ 1
      → get_or (drop (length input - 13) input) 0 0 ≡ 255
      → (crc32 (take (length input - 4) input)
          == number_at (read_u32 (drop 9 (drop (length input - 13) input))))
        ≡ true
      → decode_snapshot zsets input now_mono now_unix
        ≡ finish_load zsets
            (number_at (read_u64 (drop 1 (drop (length input - 13) input))))
            (decode_records zsets (length input) (drop 16 input) empty_database 0 now_mono now_unix)
  unfolding decode_snapshot
  passes input now_mono now_unix long a b d f =
      rw (long, a, bytes_eq_refl magic, b, d, f, decode_snapshot) refl

  finish_load-whole :
      (n m : ℕ) (db : Database (Value Z)) → m ≡ n → finish_load zsets n (inr (13, m, db)) ≡ inr db
  unfolding finish_load
  finish_load-whole n m db h = let e : (m == n) ≡ true = ground arith in rw e refl

  decode_snapshot-encode_body :
      (es : List (Bytes × Value Z × Option ℤ)) (now_unix now_mono' now_unix' : ℤ)
      → AllRecords zsets es
      → length es < 2 ^ 64
      → decode_snapshot zsets (file es now_unix) now_mono' now_unix'
        ≡ inr (load_all zsets es empty_database now_mono' now_unix')
  decode_snapshot-encode_body es now_unix now_mono' now_unix' w h =
      let body = encode_body zsets es now_unix in
      let (a, b, c) = front-file es now_unix in
      let (d, e, f) = footer-fields es body h in
      let at_end = drop-file es now_unix in
      let size = length-file es now_unix in
      let long : ltb (length (file es now_unix)) 29 ≡ false = ground (arith, size) in
      let loop =
        decode_records-encode_records zsets (length (file es now_unix)) es (footer es body)
          empty_database 0 now_mono' now_unix' (omega (arith, size, encode_records-length zsets es))
          (length-footer es body) w in
      let sum =
        ap₂ (λ x y. x == y) (ap crc32 (take-file es now_unix))
          (ap (λ l. number_at (read_u32 (drop 9 l))) at_end ∙ f)
        ∙ (==_iff (crc32 body) (crc32 body)).1 refl in
      passes (file es now_unix) now_mono' now_unix' long a b (ap (λ l. get_or l 0 0) at_end ∙ d) sum
      ∙ ap₂ (finish_load zsets) (ap (λ l. number_at (read_u64 (drop 1 l))) at_end ∙ e) (
          ap
            (λ l.
              decode_records zsets (length (file es now_unix)) l empty_database 0 now_mono'
                now_unix')
            c
          ∙ loop)
      ∙ finish_load-whole (length es) _ _ (omega arith)

  -- A snapshot that is written of a database, at any time and by entries whose counts, lengths and
  -- expiry times fit their fields, is loaded at any other time without an error: every entry that
  -- was visited goes through `load_key`, in order, with the value that its payload is read back
  -- as.
  pub decode_snapshot-encode_snapshot :
      (db : Database (Value Z)) (now_mono now_unix now_mono' now_unix' : ℤ)
      → AllRecords zsets (for_each_for_snapshot db now_mono now_unix).0
      → length (for_each_for_snapshot db now_mono now_unix).0 < 2 ^ 64
      → decode_snapshot zsets (encode_snapshot zsets db now_mono now_unix).0 now_mono' now_unix'
        ≡ inr (
            load_all zsets
              (for_each_for_snapshot db now_mono now_unix).0
              empty_database
              now_mono'
              now_unix')
  unfolding encode_snapshot
  decode_snapshot-encode_snapshot db now_mono now_unix now_mono' now_unix' w h =
      decode_snapshot-encode_body _ now_unix now_mono' now_unix' w h
