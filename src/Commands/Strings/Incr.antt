-- ===== src/Commands/Strings/Incr.antt =====
-- INCR and its kin, of src/commands/cmd_string.cpp.
use gredis.Base.Bytes.{Bytes, bytes_eq}
use gredis.Base.Int.{ℤ, pos, ◌+ℤ◌}
use gredis.Base.{
  Sum-cases, ◌≡◌, ◌∙◌, refl, ap, Option, none, some, ◌⊎◌, arith, if◌then◌else◌, Bool-cases,
  Option-cases, inl, inr,
}
use gredis.Commands.Strings.{incr_by, current_of}
use gredis.Commands.Text.{overflow, not_int, wrong_type}
use gredis.Commands.Value.{Value, string_value, hash_value, list_value, set_value, zset_value}
use gredis.Protocol.Writer.{error, integer}
use gredis.Storage.Database
use gredis.Storage.Database.Contents.{entry_of, entry, IsValid, Shows}
use gredis.Storage.Database.Methods.{value_in, lookup-entry, set-Shows}
use gredis.Storage.Database.Overwrite.{overwrite-Shows}
use gredis.Storage.Database.{Database, lookup_read, lookup_write, write_value}
use gredis.Util.Int64.{InRange, in_range, add_would_overflow-in_range}
use gredis.Util.Parse.{parse_int64, parse_int64-InRange, to_string}

abbrev pub incr_reply : Bytes ⊎ ℤ → Bytes
incr_reply (inl err) = error err
incr_reply (inr n) = integer n

-- the number after the step, or the error
abbrev pub incr_result : Bytes ⊎ ℤ → ℤ → Bytes ⊎ ℤ
incr_result (inl err) delta = inl err
incr_result (inr n) delta = if in_range (n +ℤ delta) then inr (n +ℤ delta) else inl overflow

module _ {Z : Type 0} where
  abbrev pub deadline_in : Option (Value Z × Option ℤ) → Option ℤ
  deadline_in none = none
  deadline_in (some (x, d)) = d

  -- the number that an entry stands for: 0 for none, the number in a string, or the error
  abbrev pub number_shown : Option (Value Z × Option ℤ) → Bytes ⊎ ℤ
  number_shown none = inr (pos 0)
  number_shown (some (string_value s, d)) = elim (parse_int64 s) [
    | none ↦ inl not_int
    | some n ↦ inr n
  ]
  number_shown (some (hash_value h, d)) = inl wrong_type
  number_shown (some (list_value l, d)) = inl wrong_type
  number_shown (some (set_value s, d)) = inl wrong_type
  number_shown (some (zset_value z, d)) = inl wrong_type

  current_of-value_in : (e : Option (Value Z × Option ℤ)) → current_of (value_in e) ≡ number_shown e
  current_of-value_in none = refl
  current_of-value_in (some (string_value s, d)) = refl
  current_of-value_in (some (hash_value h, d)) = refl
  current_of-value_in (some (list_value l, d)) = refl
  current_of-value_in (some (set_value s, d)) = refl
  current_of-value_in (some (zset_value z, d)) = refl

  -- what the database shows afterwards
  abbrev pub incr_shown :
      Database (Value Z) → Bytes → Option ℤ → Bytes ⊎ ℤ → ℤ → Bytes → Option (Value Z × Option ℤ)
  incr_shown db key d (inl err) t p = entry db t p
  incr_shown db key d (inr n) t p =
      if bytes_eq key p then entry_of (some (string_value (to_string n))) d t else entry db t p

  Incremented : Database (Value Z) → Bytes → ℤ → ℤ → Option (Value Z × Option ℤ) → Type 0
  Incremented db key delta now e =
      ((incr_by db key delta now).0 ≡ incr_reply (incr_result (current_of (value_in e)) delta))
      × Shows now (incr_shown db key (deadline_in e) (incr_result (current_of (value_in e)) delta))
          (incr_by db key delta now).1

  current_range : (v : Option (Value Z)) (n : ℤ) → current_of v ≡ inr n → InRange n
  current_range none n h = ground arith
  current_range (some (string_value s)) n h = elim (Option-cases (parse_int64 s)) [
    | inl e ↦ absurd (let z = rw (e, current_of) at h in cc)
    | inr (m, e) ↦ parse_int64-InRange s n (e ∙ (let z = rw (e, current_of) at h in cc))
  ]
  current_range (some (hash_value x)) n h = cc
  current_range (some (list_value x)) n h = cc
  current_range (some (set_value x)) n h = cc
  current_range (some (zset_value x)) n h = cc

  pub set-overwrites :
      (db r : Database (Value Z)) (key : Bytes) (x : Value Z) (now : ℤ)
      → Shows now (entry db) r
      → Shows now
          (λ t p. if bytes_eq key p then some (x, none) else entry db t p)
          (Database.set r key x)
  set-overwrites db r key x now s =
      let w = set-Shows r key x now s.valid in
      record {
        valid = w.valid;
        shows = λ t p le.
            w.shows t p le
            ∙ ap (λ o. if bytes_eq key p then some (x, none) else o) (s.shows t p le);
      }

  incr_missing :
      (db : Database (Value Z)) (key : Bytes) (delta now : ℤ)
      → IsValid db
      → InRange delta
      → entry db now key ≡ none
      → Incremented db key delta now none
  unfolding Incremented incr_by
  incr_missing db key delta now v hd e =
      let (_, _, found, still) = lookup-entry db key now v in
      let z = found ∙ ap value_in e in
      let o = add_would_overflow-in_range (pos 0) delta (ground arith) hd in
      elim (Bool-cases (in_range (pos 0 +ℤ delta))) [
        | inl fits ↦ rw (z, o, fits, z, incr_by) (refl, set-overwrites db _ key _ now still)
        | inr wide ↦ rw (z, o, wide, incr_by) (refl, still)
      ]

  incr_found :
      (db : Database (Value Z)) (key : Bytes) (delta now : ℤ) (x : Value Z) (d : Option ℤ)
      → IsValid db
      → InRange delta
      → entry db now key ≡ some (x, d)
      → Incremented db key delta now (some (x, d))
  unfolding Incremented incr_by
  incr_found db key delta now x d v hd e =
      let (_, _, found, still) = lookup-entry db key now v in
      let z = found ∙ ap value_in e in
      let after = current_of (some x) in
      elim (Sum-cases after) [
        | inl (err, c) ↦ rw (z, c, incr_by) (refl, still)
        | inr (n, c) ↦
            let o = add_would_overflow-in_range n delta (current_range (some x) n c) hd in
            elim (Bool-cases (in_range (n +ℤ delta))) [
              | inr wide ↦ rw (z, c, o, wide, incr_by) (refl, still)
              | inl fits ↦
                  rw (z, c, o, fits, z, incr_by) (refl, overwrite-Shows db key now _ x d v e)
            ]
      ]

  -- On a valid database and a `delta` that is an int64_t, `incr_by` answers the sum of the number
  -- that the key shows, 0 if it shows nothing, and `delta`, and stores it with the deadline that
  -- the key had; if the value is no number, or the sum no int64_t, it answers an error and changes
  -- nothing that can be seen.
  pub incr_by-Shows :
      (db : Database (Value Z)) (key : Bytes) (delta now : ℤ)
      → IsValid db
      → InRange delta
      → ((incr_by db key delta now).0
          ≡ incr_reply (incr_result (number_shown (entry db now key)) delta))
        × Shows now
            (incr_shown db key
              (deadline_in (entry db now key))
              (incr_result (number_shown (entry db now key)) delta))
            (incr_by db key delta now).1
  unfolding Incremented
  incr_by-Shows db key delta now v hd = elim (Option-cases (entry db now key)) [
    | inl e ↦ rw e (incr_missing db key delta now v hd e)
    | inr ((x, d), e) ↦
        rw (e, ← current_of-value_in (some (x, d))) (incr_found db key delta now x d v hd e)
  ]
