-- ===== src/Commands/Strings/Set.antt =====
-- SET, of src/commands/cmd_string.cpp: its options, and what it stores.
use gredis.Base.Bytes.{Bytes, bytes_eq, bytes_eq_refl, codes}
use gredis.Base.Int.{ℤ, pos, ◌+ℤ◌, ◌≤ℤ◌}
use gredis.Base.{
  ◌≡◌, ◌∙◌, refl, ap, Bool, true, false, not, ◌&&◌, ◌||◌, Option, none, some, arith, if◌then◌else◌,
  Bool-cases, Option-cases, Sum-cases, inl, inr, List, [], ◌∷◌,
}
use gredis.Commands.Strings.{
  SetOptions, no_options, expire_amount, set_flag, takes_amount, parse_set_options, set_with,
}
use gredis.Commands.Text.{invalid_expire}
use gredis.Commands.Value.{Value, string_value}
use gredis.Protocol.Writer.{error, simple, null_bulk}
use gredis.Storage.Database
use gredis.Storage.Database.Contents.{entry_of, entry, IsValid, Shows}
use gredis.Storage.Database.Methods.{value_in, lookup-entry, set-Shows}
use gredis.Storage.Database.Ttl.{expire_at-Shows}
use gredis.Storage.Database.{Database, lookup_write, expire_at}
use gredis.Storage.HashTable.Update.{is_some}
use gredis.Util.Int64.{
  InRange, in_range, add_would_overflow-in_range, seconds_to_ms, seconds_to_ms_range,
}
use gredis.Util.Parse.{parse_int64, parse_int64-InRange}

-- not both NX and XX, and a lifetime of a millisecond at least
pub record IsCoherent (opts : SetOptions) : Type 0 where
  pub one_flag : opts.nx && opts.xx ≡ false
  pub positive : opts.has_expire ≡ true → pos 1 ≤ℤ opts.expire_ms
  pub ranged : InRange opts.expire_ms

expire_amount_sound :
    (name amount : Bytes) (ms : ℤ) → expire_amount name amount ≡ inr ms → (pos 1 ≤ℤ ms) × InRange ms
unfolding expire_amount
expire_amount_sound name amount ms h = elim (Option-cases (parse_int64 amount)) [
  | inl e ↦ absurd (let z = rw (e, expire_amount) at h in cc)
  | inr (n, e) ↦
      let r = parse_int64-InRange amount n e in
      let h' = rw (e, expire_amount) at h in
      elim (Option-cases (seconds_to_ms n)) [
        | inl f ↦ ground arith
        | inr (k, f) ↦ ground (arith, seconds_to_ms_range n k f)
      ]
]

set_flag-IsCoherent :
    (opts opts' : SetOptions) (name : Bytes)
    → set_flag opts name ≡ inr opts'
    → IsCoherent opts
    → IsCoherent opts'
unfolding set_flag
set_flag-IsCoherent opts opts' name h c = record {
  one_flag = ground (arith, c.one_flag);
  positive = ground (arith, c.positive);
  ranged = ground (arith, c.ranged);
}

options-IsCoherent :
    (opts opts' : SetOptions) (argv : List Bytes)
    → parse_set_options opts argv ≡ inr opts'
    → IsCoherent opts
    → IsCoherent opts'
unfolding parse_set_options
options-IsCoherent opts opts' [] h c = let e : opts ≡ opts' = cc in rw (e) at c
options-IsCoherent opts opts' (name ∷ []) h c = elim (Bool-cases (takes_amount name)) [
  | inl e ↦ absurd (let z = rw (e, parse_set_options) at h in cc)
  | inr e ↦ set_flag-IsCoherent opts opts' name (rw (e, parse_set_options) at h) c
]
options-IsCoherent opts opts' (name ∷ amount ∷ argv) h c = elim (Bool-cases (takes_amount name)) [
  | inl e ↦
      let h' = rw (e, parse_set_options) at h in
      elim (Bool-cases opts.has_expire) [
        | inl twice ↦ absurd (let z = rw twice at h' in cc)
        | inr once ↦ elim (Sum-cases (expire_amount name amount)) [
          | inl (err, f) ↦ absurd (let z = rw (once, f) at h' in cc)
          | inr (ms, f) ↦
              let (low, range) = expire_amount_sound name amount ms f in
              options-IsCoherent (record opts { has_expire = true; expire_ms = ms }) opts' argv
                (rw (once, f) at h')
                (record { one_flag = c.one_flag; positive = λ _. low; ranged = range })
        ]
      ]
  | inr e ↦
      let h' = rw (e, parse_set_options) at h in
      elim (Sum-cases (set_flag opts name)) [
        | inl (err, f) ↦ absurd (let z = rw f at h' in cc)
        | inr (mid, f) ↦
            options-IsCoherent mid opts' (amount ∷ argv) (rw f at h')
              (set_flag-IsCoherent opts mid name f c)
      ]
]

-- The options that SET accepts are coherent: not both NX and XX, and a lifetime, if one is given,
-- of a millisecond at least and in the range of int64_t.
pub parse_set_options-IsCoherent :
    (argv : List Bytes) (opts : SetOptions)
    → parse_set_options no_options argv ≡ inr opts
    → IsCoherent opts
parse_set_options-IsCoherent argv opts h =
    options-IsCoherent no_options opts argv h
      (record { one_flag = refl; positive = λ e. cc; ranged = ground arith })

-- a lifetime that ends beyond the range of int64_t
abbrev pub is_too_far : SetOptions → ℤ → Bool
is_too_far opts now = opts.has_expire && not (in_range (now +ℤ opts.expire_ms))

abbrev pub new_deadline : SetOptions → ℤ → Option ℤ
new_deadline opts now = if opts.has_expire then some (now +ℤ opts.expire_ms) else none

module _ {Z : Type 0} where
  -- NX with a key that is there, or XX with one that is not
  abbrev pub is_blocked : SetOptions → Option (Value Z × Option ℤ) → Bool
  is_blocked opts e = (opts.nx && is_some e) || (opts.xx && not (is_some e))

  found_live : (e : Option (Value Z × Option ℤ)) → is_some (value_in e) ≡ is_some e
  found_live none = refl
  found_live (some (x, d)) = refl

  stored-Shows :
      (opts : SetOptions) (db r : Database (Value Z)) (key : Bytes) (x : Value Z) (now : ℤ)
      → Shows now (entry db) r
      → Shows now
          (λ t p.
            if bytes_eq key p then entry_of (some x) (new_deadline opts now) t else entry db t p)
          (if opts.has_expire
            then (expire_at (Database.set r key x) key (now +ℤ opts.expire_ms) now).1
            else Database.set r key x)
  stored-Shows opts db r key x now s =
      let w = set-Shows r key x now s.valid in
      elim (Bool-cases opts.has_expire) [
        | inr e ↦ rw e (record {
          valid = w.valid;
          shows = λ t p le.
              w.shows t p le
              ∙ ap (λ o. if bytes_eq key p then some (x, none) else o) (s.shows t p le);
        })
        | inl e ↦
            let u =
              (expire_at-Shows (Database.set r key x) key (now +ℤ opts.expire_ms) now w.valid).1 in
            let here : entry (Database.set r key x) now key ≡ some (x, none) =
              w.shows now key (ground arith) ∙ rw (bytes_eq_refl key) refl in
            rw e (record {
              valid = u.valid;
              shows = λ t p le. u.shows t p le ∙ elim (Bool-cases (bytes_eq key p)) [
                | inl same ↦ rw (same, here) refl
                | inr other ↦ rw other (w.shows t p le ∙ rw other (s.shows t p le))
              ];
            })
      ]

  -- On a valid database, with a time and a lifetime in the range of int64_t, `set_with` answers
  -- nil and stores nothing if NX or XX forbids it, answers an error and stores nothing if the
  -- lifetime ends beyond that range, and else stores the value with the deadline that the options
  -- tell, or none, whatever the key had; no other key changes.
  pub set_with-Shows :
      (opts : SetOptions) (db : Database (Value Z)) (key value : Bytes) (now : ℤ)
      → IsValid db
      → InRange now
      → InRange opts.expire_ms
      → ((set_with opts db key value now).0 ≡ (
          if is_blocked opts (entry db now key)
          then null_bulk
          else if is_too_far opts now
          then error invalid_expire
          else simple (codes "OK")))
        × Shows now
            (λ t p.
              if not (is_blocked opts (entry db now key))
                && not (is_too_far opts now)
                && bytes_eq key p
              then entry_of (some (string_value value)) (new_deadline opts now) t
              else entry db t p)
            (set_with opts db key value now).1
  unfolding set_with
  set_with-Shows opts db key value now v hn hm =
      let (_, _, found, still) = lookup-entry db key now v in
      let o = add_would_overflow-in_range now opts.expire_ms hn hm in
      let here = found_live (entry db now key) in
      let b = is_blocked opts (entry db now key) in
      rw (found, here, o, set_with)
        (elim (Bool-cases b) [
          | inl blocked ↦ rw blocked (refl, still)
          | inr free ↦ elim (Bool-cases (is_too_far opts now)) [
            | inl far ↦ rw (free, far) (refl, still)
            | inr near ↦
                rw (free, near) (refl, stored-Shows opts db _ key (string_value value) now still)
          ]
        ])
