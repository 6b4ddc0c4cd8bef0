-- ===== src/Commands/Keys.antt =====
-- src/commands/cmd_keys.cpp: the commands on keys and their deadlines.
pub mod Remove
pub mod Expire
use gredis.Base.Bytes.{Bytes, codes}
use gredis.Base.Int.{ℤ, pos, negsuc, ◌+ℤ◌, ◌-ℤ◌}
use gredis.Base.{
  ℕ, ◌+◌, ◌/◌, Bool, true, false, Option, none, some, List, [], ◌∷◌, ◌++◌, ltb, if◌then◌else◌, drop,
}
use gredis.Commands.Text.{not_int, arg}
use gredis.Commands.Value.{Value, type_name, value_element_count}
use gredis.Protocol.Writer.{simple, error, integer}
use gredis.Storage.Database
use gredis.Storage.Database.{Database, lookup_read, lookup_write, del, expire_at, persist, pttl}
use gredis.Util.Int64.{wrap_int64, add_would_overflow, sub_would_overflow, seconds_to_ms}
use gredis.Util.Parse.{parse_int64}

abbrev pub unlink_background_threshold : ℕ
unlink_background_threshold = 64

abbrev pub invalid_expire_in : Bytes → Bytes
invalid_expire_in name = codes "ERR invalid expire time in '" ++ name ++ codes "' command"

abbrev pub flag : Bool → Bytes
flag b = integer (pos (if b then 1 else 0))

-- the amount in milliseconds, none where that is no int64_t
abbrev pub amount_ms : ℤ → Bool → Option ℤ
amount_ms amount true = seconds_to_ms amount
amount_ms amount false = some amount

-- `/ 1000`, which drops the fraction
abbrev pub over_thousand : ℤ → ℤ
over_thousand (pos n) = pos (n / 1000)
over_thousand (negsuc n) = pos 0 -ℤ pos ((n + 1) / 1000)

-- rounded to the nearest second; -1 and -2 as they are
unfoldable pub ttl_seconds : ℤ → ℤ
ttl_seconds (negsuc n) = negsuc n
ttl_seconds (pos n) = over_thousand (wrap_int64 (pos (n + 500)))

module _ {Z : Type 0} where
  unfoldable pub expire_relative :
      Database (Value Z) → Bytes → Bytes → ℤ → Bool → ℤ → Bytes × Database (Value Z)
  expire_relative db name key amount is_seconds now = elim (amount_ms amount is_seconds) [
    | none ↦ (error (invalid_expire_in name), db)
    | some delta_ms ↦
        if add_would_overflow now delta_ms
        then (error (invalid_expire_in name), db)
        else let (existed, db') = expire_at db key (now +ℤ delta_ms) now in (flag existed, db')
  ]

  unfoldable pub expire_absolute :
      Database (Value Z) → Bytes → Bytes → ℤ → Bool → ℤ → ℤ → Bytes × Database (Value Z)
  expire_absolute db name key amount is_seconds now_mono now_unix =
      elim (amount_ms amount is_seconds) [
        | none ↦ (error (invalid_expire_in name), db)
        | some target ↦
            if sub_would_overflow target now_unix
            then (error (invalid_expire_in name), db)
            else let delta = target -ℤ now_unix in
              if add_would_overflow now_mono delta
              then (error (invalid_expire_in name), db)
              else let (existed, db') = expire_at db key (now_mono +ℤ delta) now_mono in
                (flag existed, db')
      ]

  unfoldable pub del_loop : Database (Value Z) → List Bytes → ℤ → ℕ × Database (Value Z)
  del_loop db [] now = (0, db)
  del_loop db (key ∷ keys) now =
      let (found, db') = lookup_write db key now in
      let (missed, db_missed) = del_loop db' keys now in
      let (count, db_gone) = del_loop (del db' key).1 keys now in
      elim found [ none ↦ (missed, db_missed) | some _ ↦ (count + 1, db_gone) ]

  unfoldable pub cmd_del : Database (Value Z) → List Bytes → ℤ → Bytes × Database (Value Z)
  cmd_del db argv now =
      let (count, db') = del_loop db (drop 1 argv) now in (integer (pos count), db')

  -- the count, the values that a worker is to free, and the database
  unfoldable pub unlink_loop :
      (Z → ℕ) → Database (Value Z) → List Bytes → ℤ → ℕ × List (Value Z) × Database (Value Z)
  unlink_loop zset_size db [] now = (0, [], db)
  unlink_loop zset_size db (key ∷ keys) now =
      let (value, db') = Database.take db key now in
      let (count, detached, db'') = unlink_loop zset_size db' keys now in
      elim value [
        | none ↦ (count, detached, db'')
        | some x ↦ (
          count + 1,
          if ltb unlink_background_threshold (value_element_count zset_size x)
              then x ∷ detached
              else detached,
          db'',
        )
      ]

  unfoldable pub cmd_unlink :
      (Z → ℕ) → Database (Value Z) → List Bytes → ℤ → Bytes × List (Value Z) × Database (Value Z)
  cmd_unlink zset_size db argv now =
      let (count, detached, db') = unlink_loop zset_size db (drop 1 argv) now in
      (integer (pos count), detached, db')

  unfoldable pub exists_loop : Database (Value Z) → List Bytes → ℤ → ℕ × Database (Value Z)
  exists_loop db [] now = (0, db)
  exists_loop db (key ∷ keys) now =
      let (found, db') = lookup_read db key now in
      let (count, db'') = exists_loop db' keys now in
      elim found [ none ↦ (count, db'') | some _ ↦ (count + 1, db'') ]

  unfoldable pub cmd_exists : Database (Value Z) → List Bytes → ℤ → Bytes × Database (Value Z)
  cmd_exists db argv now =
      let (count, db') = exists_loop db (drop 1 argv) now in (integer (pos count), db')

  abbrev pub type_reply : Option (Value Z) → Bytes
  type_reply none = simple (codes "none")
  type_reply (some x) = simple (type_name x)

  unfoldable pub cmd_type : Database (Value Z) → List Bytes → ℤ → Bytes × Database (Value Z)
  cmd_type db argv now = let (v, db') = lookup_read db (arg argv 1) now in (type_reply v, db')

  unfoldable pub cmd_expire : Database (Value Z) → List Bytes → ℤ → Bytes × Database (Value Z)
  cmd_expire db argv now = elim (parse_int64 (arg argv 2)) [
    | none ↦ (error not_int, db)
    | some amount ↦ expire_relative db (arg argv 0) (arg argv 1) amount true now
  ]

  unfoldable pub cmd_pexpire : Database (Value Z) → List Bytes → ℤ → Bytes × Database (Value Z)
  cmd_pexpire db argv now = elim (parse_int64 (arg argv 2)) [
    | none ↦ (error not_int, db)
    | some amount ↦ expire_relative db (arg argv 0) (arg argv 1) amount false now
  ]

  unfoldable pub cmd_expireat : Database (Value Z) → List Bytes → ℤ → ℤ → Bytes × Database (Value Z)
  cmd_expireat db argv now_mono now_unix = elim (parse_int64 (arg argv 2)) [
    | none ↦ (error not_int, db)
    | some amount ↦ expire_absolute db (arg argv 0) (arg argv 1) amount true now_mono now_unix
  ]

  unfoldable pub cmd_pexpireat :
      Database (Value Z) → List Bytes → ℤ → ℤ → Bytes × Database (Value Z)
  cmd_pexpireat db argv now_mono now_unix = elim (parse_int64 (arg argv 2)) [
    | none ↦ (error not_int, db)
    | some amount ↦ expire_absolute db (arg argv 0) (arg argv 1) amount false now_mono now_unix
  ]

  unfoldable pub cmd_ttl : Database (Value Z) → List Bytes → ℤ → Bytes × Database (Value Z)
  cmd_ttl db argv now = let (ms, db') = pttl db (arg argv 1) now in (integer (ttl_seconds ms), db')

  unfoldable pub cmd_pttl : Database (Value Z) → List Bytes → ℤ → Bytes × Database (Value Z)
  cmd_pttl db argv now = let (ms, db') = pttl db (arg argv 1) now in (integer ms, db')

  unfoldable pub cmd_persist : Database (Value Z) → List Bytes → ℤ → Bytes × Database (Value Z)
  cmd_persist db argv now = let (removed, db') = persist db (arg argv 1) now in (flag removed, db')
