-- ===== src/Commands/Lists.antt =====
-- src/commands/cmd_list.cpp. A deque is a list from front to back.
pub mod Push
pub mod Pop
pub mod Range
mod Examples
use Prim.Native.Nat.{min}
use gredis.Base.Bytes.{Bytes, codes}
use gredis.Base.Int.{ℤ, pos, negsuc, pos_part, ltb_ℤ, leb_ℤ, ◌+ℤ◌, ◌-ℤ◌}
use gredis.Base.{
  ℕ, zero, suc, ◌+◌, ◌≡◌, ◌⊎◌, inl, inr, refl, sym, ap, Bool, true, false, ◌||◌, Option, none, some,
  List, [], ◌∷◌, ◌++◌, ltb, ◌==◌, if◌then◌else◌, length, drop, get_or,
}
use gredis.Commands.Held.{Kind, read_held, shrink_held, grow_held}
use gredis.Commands.Text.{not_int, arg}
use gredis.Commands.Value.{Value, string_value, hash_value, list_value, set_value, zset_value}
use gredis.Protocol.Writer.{error, integer, bulk, array_header, null_bulk, null_array}
use gredis.Storage.Database.{Database}
use gredis.Util.Parse.{parse_int64}

abbrev pub not_positive : Bytes
not_positive = codes "ERR value is out of range, must be positive"

abbrev pub wrong_arguments : Bytes → Bytes
wrong_arguments name = codes "ERR wrong number of arguments for '" ++ name ++ codes "' command"

abbrev pub has_no_items : List Bytes → Bool
has_no_items [] = true
has_no_items (x ∷ xs) = false

module _ {Z : Type 0} where
  unfoldable pub as_list : Value Z → Option (List Bytes)
  as_list (string_value s) = none
  as_list (hash_value h) = none
  as_list (list_value l) = some l
  as_list (set_value s) = none
  as_list (zset_value z) = none

  unfoldable pub list_kind : Kind Z (List Bytes)
  unfolding as_list
  list_kind = record {
    open_value = as_list;
    wrap = list_value;
    fresh = [];
    has_no_elements = has_no_items;
    open-wrap = λ l. refl;
  }

-- -1 is the last element
unfoldable pub resolve_index : ℤ → ℤ → ℤ
resolve_index idx len = if ltb_ℤ idx (pos 0) then idx +ℤ len else idx

-- the loop of `push_generic`
unfoldable pub push_items : Bool → List Bytes → List Bytes → List Bytes
push_items front [] list = list
push_items front (item ∷ items) list =
    push_items front items (if front then item ∷ list else list ++ item ∷ [])

-- `front` and `pop_front`, or `back` and `pop_back`; never called on an empty deque, where they have
-- no meaning: the empty item that stands there is not to be relied on
unfoldable pub pop_back : List Bytes → Bytes × List Bytes
pop_back [] = ([], [])
pop_back (x ∷ []) = (x, [])
pop_back (x ∷ y ∷ l) = let (val, rest) = pop_back (y ∷ l) in (val, x ∷ rest)

unfoldable pub pop_front : List Bytes → Bytes × List Bytes
pop_front [] = ([], [])
pop_front (x ∷ l) = (x, l)

unfoldable pub pop_end : Bool → List Bytes → Bytes × List Bytes
pop_end from_front list = if from_front then pop_front list else pop_back list

-- the loop of `pop_generic`: the replies and what is left
unfoldable pub pop_items : Bool → ℕ → List Bytes → Bytes × List Bytes
pop_items from_front zero list = ([], list)
pop_items from_front (suc n) list =
    let (val, rest) = pop_end from_front list in
    let (out, left) = pop_items from_front n rest in (bulk val ++ out, left)

-- the count that is asked for, none if there is none, or the error
unfoldable pub count_of : Option ℤ → Bytes ⊎ Option ℕ
count_of none = inl not_int
count_of (some (negsuc n)) = inl not_positive
count_of (some (pos n)) = inr (some n)

unfoldable pub pop_count : List Bytes → Bytes ⊎ Option ℕ
pop_count argv =
    if ltb 3 (length argv)
    then inl (wrong_arguments (arg argv 0))
    else if length argv == 3
    then count_of (parse_int64 (arg argv 2))
    else inr none

unfoldable pub pop_one : Bool → List Bytes → Bytes × List Bytes
pop_one from_front list = let (val, rest) = pop_end from_front list in (bulk val, rest)

unfoldable pub pop_many : Bool → ℕ → List Bytes → Bytes × List Bytes
pop_many from_front count list =
    let n = min count (length list) in
    let (out, left) = pop_items from_front n list in (array_header n ++ out, left)

-- the loop of `cmd_lrange`, from an iterator on
unfoldable pub range_items : ℕ → List Bytes → Bytes
range_items zero it = []
range_items (suc n) [] = []
range_items (suc n) (item ∷ it) = bulk item ++ range_items n it

unfoldable pub range_reply : ℤ → ℤ → List Bytes → Bytes
range_reply start_opt stop_opt list =
    let len = pos (length list) in
    let start0 = resolve_index start_opt len in
    let stop0 = resolve_index stop_opt len in
    let start = if ltb_ℤ start0 (pos 0) then pos 0 else start0 in
    let stop = if leb_ℤ len stop0 then len -ℤ pos 1 else stop0 in
    if length list == 0 || ltb_ℤ stop start
    then array_header 0
    else (let n = pos_part (stop -ℤ start +ℤ pos 1) in
        array_header n ++ range_items n (drop (pos_part start) list))

unfoldable pub index_reply : ℤ → List Bytes → Bytes
index_reply idx_opt list =
    let len = pos (length list) in
    let idx = resolve_index idx_opt len in
    if ltb_ℤ idx (pos 0) || leb_ℤ len idx then null_bulk else bulk (get_or list (pos_part idx) [])

module _ {Z : Type 0} where
  -- an empty list where the key is missing, none once WRONGTYPE is sent
  unfoldable pub push_generic :
      Database (Value Z) → List Bytes → ℤ → Bool → Bytes × Database (Value Z)
  push_generic db argv now front = grow_held list_kind db (arg argv 1) now (λ list.
      let pushed = push_items front (drop 2 argv) list in (integer (pos (length pushed)), pushed))

  unfoldable pub pop_generic :
      Database (Value Z) → List Bytes → ℤ → Bool → Bytes × Database (Value Z)
  pop_generic db argv now from_front = elim (pop_count argv) [
    | inl e ↦ (error e, db)
    | inr none ↦ shrink_held list_kind db (arg argv 1) now null_bulk (pop_one from_front)
    | inr (some count) ↦
        shrink_held list_kind db (arg argv 1) now null_array (pop_many from_front count)
  ]

  unfoldable pub cmd_lpush : Database (Value Z) → List Bytes → ℤ → Bytes × Database (Value Z)
  cmd_lpush db argv now = push_generic db argv now true

  unfoldable pub cmd_rpush : Database (Value Z) → List Bytes → ℤ → Bytes × Database (Value Z)
  cmd_rpush db argv now = push_generic db argv now false

  unfoldable pub cmd_lpop : Database (Value Z) → List Bytes → ℤ → Bytes × Database (Value Z)
  cmd_lpop db argv now = pop_generic db argv now true

  unfoldable pub cmd_rpop : Database (Value Z) → List Bytes → ℤ → Bytes × Database (Value Z)
  cmd_rpop db argv now = pop_generic db argv now false

  unfoldable pub cmd_llen : Database (Value Z) → List Bytes → ℤ → Bytes × Database (Value Z)
  cmd_llen db argv now =
      read_held list_kind db (arg argv 1) now (integer (pos 0))
        (λ list. integer (pos (length list)))

  unfoldable pub cmd_lrange : Database (Value Z) → List Bytes → ℤ → Bytes × Database (Value Z)
  cmd_lrange db argv now = elim (parse_int64 (arg argv 2)) [
    | none ↦ (error not_int, db)
    | some start ↦ elim (parse_int64 (arg argv 3)) [
      | none ↦ (error not_int, db)
      | some stop ↦
          read_held list_kind db (arg argv 1) now (array_header 0) (range_reply start stop)
    ]
  ]

  unfoldable pub cmd_lindex : Database (Value Z) → List Bytes → ℤ → Bytes × Database (Value Z)
  cmd_lindex db argv now = elim (parse_int64 (arg argv 2)) [
    | none ↦ (error not_int, db)
    | some idx ↦ read_held list_kind db (arg argv 1) now null_bulk (index_reply idx)
  ]
