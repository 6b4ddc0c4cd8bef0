-- ===== src/Commands/Strings.antt =====
-- src/commands/cmd_string.cpp: the commands on strings.
pub mod Incr
pub mod Set
pub mod Many
pub mod Append
use gredis.Base.Bytes.{Bytes, codes}
use gredis.Base.Int.{ℤ, pos, negsuc, leb_ℤ, eqb_ℤ, ◌+ℤ◌, ◌-ℤ◌}
use gredis.Base.{
  ℕ, ◌+◌, ◌%◌, ◌-◌, Bool, true, false, not, ◌&&◌, ◌||◌, Option, none, some, List, [], ◌∷◌, ◌++◌,
  ◌⊎◌, inl, inr, ◌==◌, if◌then◌else◌, length, drop,
}
use gredis.Commands.Text.{ieq, wrong_type, not_int, overflow, syntax_error, invalid_expire, arg}
use gredis.Commands.Value.{Value, string_value, hash_value, list_value, set_value, zset_value}
use gredis.Protocol.Writer.{simple, error, integer, bulk, null_bulk, array_header}
use gredis.Storage.Database
use gredis.Storage.Database.{Database, lookup_read, lookup_write, write_value, expire_at}
use gredis.Storage.HashTable.Update.{is_some}
use gredis.Util.Int64.{min_int64, add_would_overflow, seconds_to_ms}
use gredis.Util.Parse.{parse_int64, to_string}

pub record SetOptions : Type 0 where
  pub has_expire : Bool
  pub expire_ms : ℤ
  pub nx : Bool
  pub xx : Bool

abbrev pub no_options : SetOptions
no_options = record { has_expire = false; expire_ms = pos 0; nx = false; xx = false }

-- the amount after EX or PX, in milliseconds, or the error
unfoldable pub expire_amount : Bytes → Bytes → Bytes ⊎ ℤ
expire_amount name amount = elim (parse_int64 amount) [
  | none ↦ inl not_int
  | some n ↦
      if leb_ℤ n (pos 0)
      then inl invalid_expire
      else if ieq name (codes "EX")
      then elim (seconds_to_ms n) [ none ↦ inl invalid_expire | some ms ↦ inr ms ]
      else inr n
]

-- NX or XX
unfoldable pub set_flag : SetOptions → Bytes → Bytes ⊎ SetOptions
set_flag opts name =
    if ieq name (codes "NX")
    then if opts.xx then inl syntax_error else inr (record opts { nx = true })
    else if ieq name (codes "XX")
    then if opts.nx then inl syntax_error else inr (record opts { xx = true })
    else inl syntax_error

abbrev pub takes_amount : Bytes → Bool
takes_amount name = ieq name (codes "EX") || ieq name (codes "PX")

-- the loop over the arguments from the fourth on
unfoldable pub parse_set_options : SetOptions → List Bytes → Bytes ⊎ SetOptions
parse_set_options opts [] = inr opts
parse_set_options opts (name ∷ []) =
    if takes_amount name then inl syntax_error else set_flag opts name
parse_set_options opts (name ∷ amount ∷ argv) = elim (takes_amount name) [
  | true ↦ if opts.has_expire then inl syntax_error else elim (expire_amount name amount) [
    | inl e ↦ inl e
    | inr ms ↦ parse_set_options (record opts { has_expire = true; expire_ms = ms }) argv
  ]
  | false ↦ elim (set_flag opts name) [
    | inl e ↦ inl e
    | inr opts' ↦ parse_set_options opts' (amount ∷ argv)
  ]
]

module _ {Z : Type 0} where
  -- the number that INCR starts from, or the error
  abbrev pub current_of : Option (Value Z) → Bytes ⊎ ℤ
  current_of none = inr (pos 0)
  current_of (some (string_value s)) = elim (parse_int64 s) [ none ↦ inl not_int | some n ↦ inr n ]
  current_of (some (hash_value h)) = inl wrong_type
  current_of (some (list_value l)) = inl wrong_type
  current_of (some (set_value s)) = inl wrong_type
  current_of (some (zset_value z)) = inl wrong_type

  -- a key that is there is written through the pointer, so it keeps its deadline
  unfoldable pub incr_by : Database (Value Z) → Bytes → ℤ → ℤ → Bytes × Database (Value Z)
  incr_by db key delta now =
      let (v, db') = lookup_write db key now in
      elim (current_of v) [
        | inl e ↦ (error e, db')
        | inr current ↦
            if add_would_overflow current delta
            then (error overflow, db')
            else let result = current +ℤ delta in
              (
                integer result,
                elim v [
                  | some _ ↦ write_value db' key (string_value (to_string result))
                  | none ↦ Database.set db' key (string_value (to_string result))
                ],
              )
      ]

  -- `cmd_set` once its options are read
  unfoldable pub set_with :
      SetOptions → Database (Value Z) → Bytes → Bytes → ℤ → Bytes × Database (Value Z)
  set_with opts db key value now =
      let (existing, db') = lookup_write db key now in
      if (opts.nx && is_some existing) || (opts.xx && not (is_some existing))
      then (null_bulk, db')
      else if opts.has_expire && add_would_overflow now opts.expire_ms
      then (error invalid_expire, db')
      else let db'' = Database.set db' key (string_value value) in
        (
          simple (codes "OK"),
          if opts.has_expire then (expire_at db'' key (now +ℤ opts.expire_ms) now).1 else db'',
        )

  unfoldable pub cmd_set : Database (Value Z) → List Bytes → ℤ → Bytes × Database (Value Z)
  cmd_set db argv now = elim (parse_set_options no_options (drop 3 argv)) [
    | inl e ↦ (error e, db)
    | inr opts ↦ set_with opts db (arg argv 1) (arg argv 2) now
  ]

  -- the reply to GET
  abbrev pub get_reply : Option (Value Z) → Bytes
  get_reply none = null_bulk
  get_reply (some (string_value s)) = bulk s
  get_reply (some (hash_value h)) = error wrong_type
  get_reply (some (list_value l)) = error wrong_type
  get_reply (some (set_value s)) = error wrong_type
  get_reply (some (zset_value z)) = error wrong_type

  unfoldable pub cmd_get : Database (Value Z) → List Bytes → ℤ → Bytes × Database (Value Z)
  cmd_get db argv now = let (v, db') = lookup_read db (arg argv 1) now in (get_reply v, db')

  -- MGET answers a value of another type as it does a missing key
  abbrev pub mget_reply : Option (Value Z) → Bytes
  mget_reply none = null_bulk
  mget_reply (some (string_value s)) = bulk s
  mget_reply (some (hash_value h)) = null_bulk
  mget_reply (some (list_value l)) = null_bulk
  mget_reply (some (set_value s)) = null_bulk
  mget_reply (some (zset_value z)) = null_bulk

  unfoldable pub mget_loop : Database (Value Z) → List Bytes → ℤ → Bytes × Database (Value Z)
  mget_loop db [] now = ([], db)
  mget_loop db (key ∷ keys) now =
      let (v, db') = lookup_read db key now in
      let (replies, db'') = mget_loop db' keys now in (mget_reply v ++ replies, db'')

  unfoldable pub cmd_mget : Database (Value Z) → List Bytes → ℤ → Bytes × Database (Value Z)
  cmd_mget db argv now =
      let (replies, db') = mget_loop db (drop 1 argv) now in
      (array_header (length argv - 1) ++ replies, db')

  unfoldable pub mset_loop : Database (Value Z) → List Bytes → Database (Value Z)
  mset_loop db [] = db
  mset_loop db (key ∷ []) = db
  mset_loop db (key ∷ value ∷ argv) = mset_loop (Database.set db key (string_value value)) argv

  unfoldable pub cmd_mset : Database (Value Z) → List Bytes → Bytes × Database (Value Z)
  cmd_mset db argv =
      if length argv % 2 == 0
      then (error (codes "ERR wrong number of arguments for 'mset' command"), db)
      else (simple (codes "OK"), mset_loop db (drop 1 argv))

  unfoldable pub cmd_incr : Database (Value Z) → List Bytes → ℤ → Bytes × Database (Value Z)
  cmd_incr db argv now = incr_by db (arg argv 1) (pos 1) now

  unfoldable pub cmd_decr : Database (Value Z) → List Bytes → ℤ → Bytes × Database (Value Z)
  cmd_decr db argv now = incr_by db (arg argv 1) (negsuc 0) now

  unfoldable pub cmd_incrby : Database (Value Z) → List Bytes → ℤ → Bytes × Database (Value Z)
  cmd_incrby db argv now = elim (parse_int64 (arg argv 2)) [
    | none ↦ (error not_int, db)
    | some delta ↦ incr_by db (arg argv 1) delta now
  ]

  unfoldable pub cmd_decrby : Database (Value Z) → List Bytes → ℤ → Bytes × Database (Value Z)
  cmd_decrby db argv now = elim (parse_int64 (arg argv 2)) [
    | none ↦ (error not_int, db)
    | some delta ↦
        if eqb_ℤ delta min_int64
        then (error overflow, db)
        else incr_by db (arg argv 1) (pos 0 -ℤ delta) now
  ]

  unfoldable pub cmd_append : Database (Value Z) → List Bytes → ℤ → Bytes × Database (Value Z)
  cmd_append db argv now =
      let key = arg argv 1 in
      let tail = arg argv 2 in
      let (v, db') = lookup_write db key now in
      elim v [
        | none ↦ (integer (pos (length tail)), Database.set db' key (string_value tail))
        | some x ↦ elim x [
          | string_value s ↦
              (integer (pos (length (s ++ tail))), write_value db' key (string_value (s ++ tail)))
          | hash_value _ ↦ (error wrong_type, db')
          | list_value _ ↦ (error wrong_type, db')
          | set_value _ ↦ (error wrong_type, db')
          | zset_value _ ↦ (error wrong_type, db')
        ]
      ]

  abbrev pub strlen_reply : Option (Value Z) → Bytes
  strlen_reply none = integer (pos 0)
  strlen_reply (some (string_value s)) = integer (pos (length s))
  strlen_reply (some (hash_value h)) = error wrong_type
  strlen_reply (some (list_value l)) = error wrong_type
  strlen_reply (some (set_value s)) = error wrong_type
  strlen_reply (some (zset_value z)) = error wrong_type

  unfoldable pub cmd_strlen : Database (Value Z) → List Bytes → ℤ → Bytes × Database (Value Z)
  cmd_strlen db argv now = let (v, db') = lookup_read db (arg argv 1) now in (strlen_reply v, db')
