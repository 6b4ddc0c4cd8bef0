-- ===== src/Commands/Strings/Append.antt =====
-- APPEND, GET and STRLEN, of src/commands/cmd_string.cpp.
use gredis.Base.Bytes.{Bytes, bytes_eq}
use gredis.Base.Int.{ℤ, pos}
use gredis.Base.{◌≡◌, ◌∙◌, refl, ap, Option, none, some, if◌then◌else◌, List, ◌++◌, length}
use gredis.Commands.Strings.Incr.{deadline_in, set-overwrites}
use gredis.Commands.Strings.{cmd_append}
use gredis.Commands.Text.{wrong_type, arg}
use gredis.Commands.Value.{Value, string_value, hash_value, list_value, set_value, zset_value}
use gredis.Protocol.Writer.{error, integer}
use gredis.Storage.Database.Contents.{entry_of, entry, IsValid, Shows}
use gredis.Storage.Database.Methods.{value_in, lookup-entry}
use gredis.Storage.Database.Overwrite.{overwrite-Shows}
use gredis.Storage.Database.{Database}

abbrev pub append_reply : Option Bytes → Bytes
append_reply none = error wrong_type
append_reply (some s) = integer (pos (length s))

module _ {Z : Type 0} where
  -- the string after an APPEND, none for a value of another type
  abbrev pub appended : Option (Value Z × Option ℤ) → Bytes → Option Bytes
  appended none tail = some tail
  appended (some (string_value s, d)) tail = some (s ++ tail)
  appended (some (hash_value x, d)) tail = none
  appended (some (list_value x, d)) tail = none
  appended (some (set_value x, d)) tail = none
  appended (some (zset_value x, d)) tail = none

  abbrev pub append_shown :
      Database (Value Z) → Bytes → Option ℤ → Option Bytes → ℤ → Bytes → Option (Value Z × Option ℤ)
  append_shown db key d none t p = entry db t p
  append_shown db key d (some s) t p =
      if bytes_eq key p then entry_of (some (string_value s)) d t else entry db t p

  Appended : Database (Value Z) → List Bytes → ℤ → Option (Value Z × Option ℤ) → Type 0
  Appended db argv now e =
      ((cmd_append db argv now).0 ≡ append_reply (appended e (arg argv 2)))
      × Shows now (append_shown db (arg argv 1) (deadline_in e) (appended e (arg argv 2)))
          (cmd_append db argv now).1

  append_cases :
      (db : Database (Value Z)) (argv : List Bytes) (now : ℤ) (e : Option (Value Z × Option ℤ))
      → IsValid db
      → entry db now (arg argv 1) ≡ e
      → Appended db argv now e
  unfolding Appended cmd_append
  append_cases db argv now none v h =
      let (_, _, found, still) = lookup-entry db (arg argv 1) now v in
      rw (found ∙ ap value_in h, cmd_append) (refl, set-overwrites db _ (arg argv 1) _ now still)
  append_cases db argv now (some (string_value s, d)) v h =
      let (_, _, found, still) = lookup-entry db (arg argv 1) now v in
      rw (found ∙ ap value_in h, cmd_append) (refl, overwrite-Shows db (arg argv 1) now _ _ d v h)
  append_cases db argv now (some (hash_value x, d)) v h =
      let (_, _, found, still) = lookup-entry db (arg argv 1) now v in
      rw (found ∙ ap value_in h, cmd_append) (refl, still)
  append_cases db argv now (some (list_value x, d)) v h =
      let (_, _, found, still) = lookup-entry db (arg argv 1) now v in
      rw (found ∙ ap value_in h, cmd_append) (refl, still)
  append_cases db argv now (some (set_value x, d)) v h =
      let (_, _, found, still) = lookup-entry db (arg argv 1) now v in
      rw (found ∙ ap value_in h, cmd_append) (refl, still)
  append_cases db argv now (some (zset_value x, d)) v h =
      let (_, _, found, still) = lookup-entry db (arg argv 1) now v in
      rw (found ∙ ap value_in h, cmd_append) (refl, still)

  -- On a valid database APPEND stores the string that the key shows, or the empty one, with the
  -- argument after it and the deadline that the key had, and answers its length; for a value of
  -- another type it answers an error and changes nothing that can be seen.
  pub cmd_append-Shows :
      (db : Database (Value Z)) (argv : List Bytes) (now : ℤ)
      → IsValid db
      → ((cmd_append db argv now).0
          ≡ append_reply (appended (entry db now (arg argv 1)) (arg argv 2)))
        × Shows now
            (append_shown db
              (arg argv 1)
              (deadline_in (entry db now (arg argv 1)))
              (appended (entry db now (arg argv 1)) (arg argv 2)))
            (cmd_append db argv now).1
  unfolding Appended
  cmd_append-Shows db argv now v = append_cases db argv now (entry db now (arg argv 1)) v refl
