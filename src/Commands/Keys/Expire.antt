-- ===== src/Commands/Keys/Expire.antt =====
-- EXPIRE and its kin, and TTL, of src/commands/cmd_keys.cpp.
use gredis.Base.Bytes.{Bytes, bytes_eq}
use gredis.Base.Int.{ℤ, pos, negsuc, ◌+ℤ◌, ◌-ℤ◌, ◌*ℤ◌, ◌≤ℤ◌, +ℤ_parts, -ℤ_parts}
use gredis.Base.{
  ℕ, ◌+◌, ◌/◌, ◌≡◌, ◌∙◌, refl, ap, Bool, true, false, ◌&&◌, Option, none, some, arith,
  if◌then◌else◌, Bool-cases, inl, inr, List,
}
use gredis.Commands.Keys.{
  amount_ms, invalid_expire_in, flag, expire_absolute, ttl_seconds, cmd_ttl, cmd_pttl,
}
use gredis.Commands.Text.{arg}
use gredis.Commands.Value.{Value}
use gredis.Protocol.Writer.{error, integer}
use gredis.Storage.Database.Contents.{entry, entry_of, IsValid, Shows, Shows-refl}
use gredis.Storage.Database.Ttl.{expire_at-Shows, with_deadline, pttl-Shows, ttl_reply}
use gredis.Storage.Database.{Database, is_due}
use gredis.Storage.Database.Effects.{value_of, deadline_of}
use gredis.Storage.HashTable.Update.{is_some}
use gredis.Util.Int64.{
  InRange, in_range, max_int64, wrap_int64-InRange, in_range-InRange, InRange-in_range,
  add_would_overflow-in_range, sub_would_overflow-in_range, seconds_to_ms-in_range,
}

-- the amount in milliseconds, without bounds
abbrev pub whole_ms : ℤ → Bool → ℤ
whole_ms amount is_seconds = if is_seconds then amount *ℤ pos 1000 else amount

-- the deadline that EXPIRE and PEXPIRE ask for, none if a step leaves the range of int64_t
unfoldable pub relative_deadline : ℤ → Bool → ℤ → Option ℤ
relative_deadline amount is_seconds now =
    if in_range (whole_ms amount is_seconds) && in_range (now +ℤ whole_ms amount is_seconds)
    then some (now +ℤ whole_ms amount is_seconds)
    else none

-- the same for EXPIREAT and PEXPIREAT, from the unix clock to the monotonic one
unfoldable pub absolute_deadline : ℤ → Bool → ℤ → ℤ → Option ℤ
absolute_deadline amount is_seconds now_mono now_unix =
    if in_range (whole_ms amount is_seconds)
      && in_range (whole_ms amount is_seconds -ℤ now_unix)
      && in_range (now_mono +ℤ (whole_ms amount is_seconds -ℤ now_unix))
    then some (now_mono +ℤ (whole_ms amount is_seconds -ℤ now_unix))
    else none

-- `s` seconds are less than half a second away from `ms` milliseconds, or half a second more
abbrev pub IsNearest : ℕ → ℤ → Type 0
IsNearest ms s = (pos ms ≤ℤ s *ℤ pos 1000 +ℤ pos 499) × (s *ℤ pos 1000 ≤ℤ pos (ms + 500))

amount_ms-in_range :
    (amount : ℤ) (is_seconds : Bool)
    → InRange amount
    → amount_ms amount is_seconds
      ≡ (if in_range (whole_ms amount is_seconds) then some (whole_ms amount is_seconds) else none)
amount_ms-in_range amount true h = seconds_to_ms-in_range amount
amount_ms-in_range amount false h = rw (InRange-in_range amount h) refl

-- a time of 0 or more is rounded to the nearest second, and -1 and -2 stay
abbrev pub Rounds : ℤ → ℤ → Type 0
Rounds (pos n) s = IsNearest n s
Rounds (negsuc n) s = s ≡ negsuc n

nearest : (n : ℕ) → IsNearest n (pos ((n + 500) / 1000))
unfolding ◌*ℤ◌ ◌+ℤ◌
nearest n = (ground arith, ground arith)

ttl_seconds-Rounds : (m : ℤ) → m +ℤ pos 500 ≤ℤ max_int64 → Rounds m (ttl_seconds m)
unfolding ttl_seconds
ttl_seconds-Rounds (pos n) h =
    let z = +ℤ_parts (pos n) (pos 500) in
    rw (wrap_int64-InRange (pos (n + 500)) (ground arith, ground (arith, z))) (nearest n)
ttl_seconds-Rounds (negsuc n) h = refl

-- what is left is half a second short of the range, if the clock is past its first half second
ttl_reply-bound :
    {V : Type 0} (value : Option V) (deadline : Option ℤ) (now : ℤ)
    → pos 500 ≤ℤ now
    → ((d : ℤ) → deadline ≡ some d → d ≤ℤ max_int64)
    → ttl_reply (entry_of value deadline now) now +ℤ pos 500 ≤ℤ max_int64
ttl_reply-bound none none now h bounded = ground (arith, +ℤ_parts (negsuc 1) (pos 500))
ttl_reply-bound (some x) none now h bounded = ground (arith, +ℤ_parts (negsuc 0) (pos 500))
ttl_reply-bound none (some d) now h bounded = ground (arith, +ℤ_parts (negsuc 1) (pos 500))
ttl_reply-bound (some x) (some d) now h bounded =
    let small = bounded d refl in
    elim (Bool-cases (is_due (some d) now)) [
      | inl e ↦ rw e (ground (arith, +ℤ_parts (negsuc 1) (pos 500)))
      | inr e ↦ rw e (ground (arith, -ℤ_parts d now, +ℤ_parts (d -ℤ now) (pos 500)))
    ]

flag_reply : (b : Bool) → flag b ≡ (if b then integer (pos 1) else integer (pos 0))
flag_reply true = refl
flag_reply false = refl

module _ {Z : Type 0} where
  -- the reply to an expire command, for the deadline that it asks for
  abbrev pub expire_reply : Database (Value Z) → Bytes → Bytes → ℤ → Option ℤ → Bytes
  expire_reply db name key now none = error (invalid_expire_in name)
  expire_reply db name key now (some d) =
      if is_some (entry db now key) then integer (pos 1) else integer (pos 0)

  abbrev pub expire_shown :
      Database (Value Z) → Bytes → ℤ → Option ℤ → ℤ → Bytes → Option (Value Z × Option ℤ)
  expire_shown db key now none t p = entry db t p
  expire_shown db key now (some d) t p =
      if bytes_eq key p then with_deadline (entry db now key) (some d) t else entry db t p

  -- On a valid database, with an amount and times in the range of int64_t, EXPIREAT and PEXPIREAT
  -- give a key that is there the deadline on the monotonic clock that is as far from now as the
  -- time they name is on the unix clock, and answer 1 or 0 by whether it is there; if a step to it
  -- leaves that range they answer an error and change nothing that can be seen.
  pub expire_absolute-Shows :
      (db : Database (Value Z)) (name key : Bytes) (amount : ℤ) (is_seconds : Bool)
      (now_mono now_unix : ℤ)
      → IsValid db
      → InRange amount
      → InRange now_mono
      → InRange now_unix
      → ((expire_absolute db name key amount is_seconds now_mono now_unix).0
          ≡ expire_reply db name key now_mono
              (absolute_deadline amount is_seconds now_mono now_unix))
        × Shows now_mono
            (expire_shown db key now_mono (absolute_deadline amount is_seconds now_mono now_unix))
            (expire_absolute db name key amount is_seconds now_mono now_unix).1
  unfolding expire_absolute absolute_deadline
  expire_absolute-Shows db name key amount is_seconds now_mono now_unix v ha hm hu =
      let ms = whole_ms amount is_seconds in
      let delta = ms -ℤ now_unix in
      let a = amount_ms-in_range amount is_seconds ha in
      elim (Bool-cases (in_range ms)) [
        | inr wide ↦ rw (a, wide, expire_absolute) (refl, Shows-refl db now_mono v)
        | inl fits ↦
            let q = sub_would_overflow-in_range ms now_unix (in_range-InRange ms fits) hu in
            elim (Bool-cases (in_range delta)) [
              | inr far ↦ rw (a, fits, q, far, expire_absolute) (refl, Shows-refl db now_mono v)
              | inl near ↦
                  let o =
                    add_would_overflow-in_range now_mono delta hm (in_range-InRange delta near) in
                  elim (Bool-cases (in_range (now_mono +ℤ delta))) [
                    | inr past ↦
                        rw (a, fits, q, near, o, past, expire_absolute)
                          (refl, Shows-refl db now_mono v)
                    | inl ok ↦
                        let (told, s) = expire_at-Shows db key (now_mono +ℤ delta) now_mono v in
                        rw (a, fits, q, near, o, ok, expire_absolute)
                          (ap flag told ∙ flag_reply (is_some (entry db now_mono key)), s)
                  ]
            ]
      ]

  -- On a valid database, at a time past the first half second of the monotonic clock and with a
  -- deadline of the key, if it has one, that is an int64_t, PTTL answers the milliseconds that a key
  -- has left and TTL the seconds, rounded to the nearest; both answer -1 for a key with no deadline
  -- and -2 for one that is not there, and change nothing that can be seen.
  pub cmd_ttl-Shows :
      (db : Database (Value Z)) (argv : List Bytes) (now : ℤ)
      → IsValid db
      → pos 500 ≤ℤ now
      → ((d : ℤ) → deadline_of db (arg argv 1) ≡ some d → d ≤ℤ max_int64)
      → ((s : ℤ) × ((cmd_ttl db argv now).0 ≡ integer s)
          × Rounds (ttl_reply (entry db now (arg argv 1)) now) s)
        × ((cmd_pttl db argv now).0 ≡ integer (ttl_reply (entry db now (arg argv 1)) now))
        × Shows now (entry db) (cmd_ttl db argv now).1
        × Shows now (entry db) (cmd_pttl db argv now).1
  unfolding cmd_ttl cmd_pttl entry
  cmd_ttl-Shows db argv now v started bounded =
      let key = arg argv 1 in
      let (told, _, s) = pttl-Shows db key now v (omega arith) bounded in
      let fits = ttl_reply-bound (value_of db key) (deadline_of db key) now started bounded in
      (
        (_, ap (λ ms. integer (ttl_seconds ms)) told, ttl_seconds-Rounds _ fits),
        ap integer told,
        s,
        s,
      )
