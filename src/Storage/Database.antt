-- ===== src/Storage/Database.antt =====
-- src/storage/database.h and database.cpp: the keyspace, the deadlines of its keys on the monotonic
-- clock, and the queue that finds the keys that are due. The values are a type parameter, since no
-- method looks into one. A method returns its result and the database it leaves; a returned
-- `Value*` is the value, and a write through it is `write_value`.
pub mod Effects
pub mod Contents
pub mod Methods
pub mod Ttl
pub mod Overwrite
pub mod Cycle
pub mod Load
mod Examples
use gredis.Base.Bytes.{Bytes}
use gredis.Base.Int.{ℤ, pos, negsuc, ltb_ℤ, leb_ℤ, eqb_ℤ, ◌+ℤ◌, ◌-ℤ◌}
use gredis.Base.{
  ℕ, suc, ◌+◌, ◌*◌, Bool, true, false, ◌&&◌, ◌||◌, Option, none, some, List, [], ◌∷◌, ltb, leb,
  if◌then◌else◌, length,
}
use gredis.Storage.Expiry.{Entry, ExpiryHeap, push, rebuild_from}
use gredis.Storage.HashTable
use gredis.Storage.HashTable.{HashTable, empty_table}
use gredis.Storage.HashTable.Strings.{string_key}
use gredis.Util.Int64.{add_would_overflow, sub_would_overflow, wrap_int64}

pub record Database (V : Type 0) : Type 0 where
  pub keyspace : HashTable Bytes V
  pub expires : HashTable Bytes ℤ
  pub expiry_heap : ExpiryHeap

-- `DetachedKeyspace`, what FLUSHALL ASYNC hands to a worker
pub record DetachedKeyspace (V : Type 0) : Type 0 where
  pub keyspace : HashTable Bytes V
  pub expires : HashTable Bytes ℤ

-- whether a deadline that was found has passed
abbrev pub is_due : Option ℤ → ℤ → Bool
is_due none now_ms = false
is_due (some deadline) now_ms = leb_ℤ deadline now_ms

-- whether the deadline that a queue entry tells is still the key's
abbrev pub is_same : Option ℤ → ℤ → Bool
is_same none deadline = false
is_same (some d) deadline = eqb_ℤ d deadline

module _ {V : Type 0} where
  unfoldable pub empty_database : Database V
  empty_database = record { keyspace = empty_table; expires = empty_table; expiry_heap = [] }

  -- `keyspace_.erase(key)` and `expires_.erase(key)`
  unfoldable pub erase_both : Database V → Bytes → Database V
  erase_both db key = record db {
    keyspace = (HashTable.erase db.keyspace key).1;
    expires = (HashTable.erase db.expires key).1;
  }

  unfoldable pub lookup_and_expire : Database V → Bytes → ℤ → Option V × Database V
  lookup_and_expire db key now_ms =
      let (deadline, expires) = HashTable.find db.expires key in
      let db' = record db { expires = expires } in
      let (value, keyspace) = HashTable.find db.keyspace key in
      if is_due deadline now_ms
      then (none, erase_both db' key)
      else (value, record db' { keyspace = keyspace })

  unfoldable pub lookup_read : Database V → Bytes → ℤ → Option V × Database V
  lookup_read db key now_ms = lookup_and_expire db key now_ms

  unfoldable pub lookup_write : Database V → Bytes → ℤ → Option V × Database V
  lookup_write db key now_ms = lookup_and_expire db key now_ms

  -- a write through the pointer that a lookup returned
  unfoldable pub write_value : Database V → Bytes → V → Database V
  write_value db key value = record db { keyspace = HashTable.assign db.keyspace key value }

  unfoldable pub set : Database V → Bytes → V → Database V
  set db key value = record db {
    expires = (HashTable.erase db.expires key).1;
    keyspace = (HashTable.insert_or_assign db.keyspace key value).0;
  }

  unfoldable pub del : Database V → Bytes → Bool × Database V
  del db key = ((HashTable.erase db.keyspace key).0, erase_both db key)

  unfoldable pub take : Database V → Bytes → ℤ → Option V × Database V
  take db key now_ms =
      let (found, db') = lookup_and_expire db key now_ms in
      let (value, keyspace) = HashTable.take db'.keyspace key in
      elim found [
        | none ↦ (none, db')
        | some _ ↦ (
          value,
          record db' { expires = (HashTable.erase db'.expires key).1; keyspace = keyspace },
        )
      ]

  unfoldable pub take_all : Database V → DetachedKeyspace V × Database V
  take_all db = (
    record { keyspace = db.keyspace; expires = db.expires },
    record { keyspace = empty_table; expires = empty_table; expiry_heap = [] },
  )

  unfoldable pub size : Database V → ℕ
  size db = HashTable.size db.keyspace

  -- the queue keeps its entries; they are stale from now on
  unfoldable pub clear : Database V → Database V
  clear db = record db {
    keyspace = HashTable.clear db.keyspace;
    expires = HashTable.clear db.expires;
  }

  unfoldable pub expire_at : Database V → Bytes → ℤ → ℤ → Bool × Database V
  expire_at db key deadline_ms now_ms =
      let (found, db') = lookup_and_expire db key now_ms in
      elim found [
        | none ↦ (false, db')
        | some _ ↦ if leb_ℤ deadline_ms now_ms then (true, erase_both db' key) else (
          true,
          record db' {
            expires = (HashTable.insert_or_assign db'.expires key deadline_ms).0;
            expiry_heap = push (record { deadline_ms = deadline_ms; key = key }) db'.expiry_heap;
          },
        )
      ]

  unfoldable pub persist : Database V → Bytes → ℤ → Bool × Database V
  persist db key now_ms =
      let (found, db') = lookup_and_expire db key now_ms in
      let (removed, expires) = HashTable.erase db'.expires key in
      elim found [ none ↦ (false, db') | some _ ↦ (removed, record db' { expires = expires }) ]

  unfoldable pub pttl : Database V → Bytes → ℤ → ℤ × Database V
  pttl db key now_ms =
      let (found, db') = lookup_and_expire db key now_ms in
      let (deadline, expires) = HashTable.find db'.expires key in
      let db'' = record db' { expires = expires } in
      elim found [
        | none ↦ (negsuc 1, db')
        | some _ ↦ elim deadline [
          | none ↦ (negsuc 0, db'')
          | some d ↦
              let remaining = wrap_int64 (d -ℤ now_ms) in
              (if ltb_ℤ (pos 0) remaining then remaining else pos 0, db'')
        ]
      ]

  -- `expire_unix_ms` was read from a file, so its conversion is guarded
  unfoldable pub load_key : Database V → Bytes → V → Option ℤ → ℤ → ℤ → Database V
  load_key db key value none now_mono now_unix = record db {
    keyspace = (HashTable.insert_or_assign db.keyspace key value).0;
  }
  load_key db key value (some expire_unix_ms) now_mono now_unix =
      let delta = expire_unix_ms -ℤ now_unix in
      let deadline_mono = now_mono +ℤ delta in
      if sub_would_overflow expire_unix_ms now_unix || add_would_overflow now_mono delta
      then db
      else if leb_ℤ deadline_mono now_mono
      then db
      else record db {
        expires = (HashTable.insert_or_assign db.expires key deadline_mono).0;
        expiry_heap = push (record { deadline_ms = deadline_mono; key = key }) db.expiry_heap;
        keyspace = (HashTable.insert_or_assign db.keyspace key value).0;
      }

  -- what `for_each_for_snapshot` hands to its callback: the entries visited, with the deadline of
  -- each on the unix clock; the lookups move the rehash of `expires_` on
  snapshot_entries :
      List (Bytes × V) → HashTable Bytes ℤ → ℤ → ℤ → List (Bytes × V × Option ℤ) × HashTable Bytes ℤ
  snapshot_entries [] expires now_mono now_unix = ([], expires)
  snapshot_entries ((key, value) ∷ es) expires now_mono now_unix =
      let (deadline, expires') = HashTable.find expires key in
      let (rest, expires'') = snapshot_entries es expires' now_mono now_unix in
      elim deadline [
        | none ↦ ((key, value, none) ∷ rest, expires'')
        | some d ↦ if leb_ℤ d now_mono then (rest, expires'') else (
          (key, value, some (wrap_int64 (now_unix +ℤ wrap_int64 (d -ℤ now_mono)))) ∷ rest,
          expires'',
        )
      ]

  unfoldable pub for_each_for_snapshot :
      Database V → ℤ → ℤ → List (Bytes × V × Option ℤ) × Database V
  unfolding snapshot_entries
  for_each_for_snapshot db now_mono now_unix =
      let (entries, expires) =
        snapshot_entries (HashTable.for_each db.keyspace) db.expires now_mono now_unix in
      (entries, record db { expires = expires })

  unfoldable pub maybe_compact_expiry_heap : Database V → Database V
  maybe_compact_expiry_heap db =
      if ltb (2 * (HashTable.size db.expires + 1024)) (length db.expiry_heap)
      then record db { expiry_heap = rebuild_from db.expires }
      else db

  -- one entry off the queue: the key goes if the entry still tells its deadline
  pub expire_entry : Database V → Entry → Bool × Database V
  expire_entry db e =
      let (live_deadline, expires) = HashTable.find db.expires e.key in
      let db' = record db { expires = expires } in
      if is_same live_deadline e.deadline_ms then (true, erase_both db' e.key) else (false, db')

  -- The loop of `run_active_expiration_cycle`. `late i` is whether the wall clock has passed the
  -- budget when it is read at the end of round `i`. It runs over the queue; the field of the
  -- database is set when it ends.
  pub expire_loop : (ℕ → Bool) → ℕ → ℤ → ℕ → ℕ → ExpiryHeap → Database V → ℕ × Database V
  expire_loop late round now_ms max_keys expired [] db = (expired, record db { expiry_heap = [] })
  expire_loop late round now_ms max_keys expired (e ∷ heap) db =
      let (gone, db') = expire_entry db e in
      let expired' = if gone then expired + 1 else expired in
      let rest = expire_loop late (suc round) now_ms max_keys expired' heap db' in
      if ltb expired max_keys && leb_ℤ e.deadline_ms now_ms
      then if late round then (expired', record db' { expiry_heap = heap }) else rest
      else (expired, record db { expiry_heap = e ∷ heap })

  unfoldable pub run_active_expiration_cycle : (ℕ → Bool) → Database V → ℤ → ℕ → ℕ × Database V
  unfolding expire_entry expire_loop
  run_active_expiration_cycle late db now_ms max_keys =
      let (expired, db') = expire_loop late 0 now_ms max_keys 0 db.expiry_heap db in
      (expired, maybe_compact_expiry_heap db')

  -- the cron tick moves the rehash of the keyspace on
  unfoldable pub rehash_step : ℕ → Database V → Database V
  rehash_step budget db = record db { keyspace = HashTable.rehash_step budget db.keyspace }
