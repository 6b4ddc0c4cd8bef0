-- ===== src/Commands/Lists/Range.antt =====
-- LRANGE and LINDEX, of src/commands/cmd_list.cpp.
pub mod Between
use mathlib.Core.List.{append-nil}
use gredis.Base.Bytes.{Bytes}
use gredis.Base.Int.{ℤ, pos, negsuc, pos_part, ltb_ℤ, leb_ℤ, ◌+ℤ◌, ◌-ℤ◌, +ℤ_parts, -ℤ_parts}
use gredis.Base.{
  ℕ, zero, suc, ◌+◌, ◌-◌, ◌==◌, ◌≡◌, ◌∙◌, ◌≤◌, ◌<◌, inl, inr, refl, sym, ap, ap₂, leb, arith, Bool,
  Bool-cases, true, false, ◌&&◌, ◌||◌, some, List, [], ◌∷◌, ◌++◌, if◌then◌else◌, length, drop, take,
  get_or, length-take_le, length-drop,
}
use gredis.Commands.Held.Laws.{finding, reply_of, reply_of-same, read_held-Shows}
use gredis.Commands.Lists.{
  list_kind, resolve_index, range_items, range_reply, index_reply, cmd_lrange, cmd_lindex,
}
use gredis.Commands.Text.{arg}
use gredis.Commands.Value.{Value}
use gredis.Protocol.Parser.RoundTrip.{bulks, encode_command}
use gredis.Protocol.Writer.{bulk, array_header, null_bulk}
use gredis.Storage.Database.Contents.{entry, IsValid, Shows}
use gredis.Storage.Database.{Database}
use gredis.Util.Parse.{parse_int64}
use gredis.Commands.Lists.Range.Between.{
  lies_between, between, between-same, between-none, between-drop, range_items-bulks, from_start,
  to_end, between-window, between-empty,
}

-- the items between two indexes that are resolved
abbrev resolved : ℤ → ℤ → List Bytes → List Bytes
resolved start stop l =
    between (resolve_index start (pos (length l))) (resolve_index stop (pos (length l))) 0 l

-- whether the item with the index `i` of `len` items is not before, and not after, the item that an
-- index names: -1 names the last, -2 the one before it
abbrev pub not_before : ℤ → ℕ → ℕ → Bool
not_before (pos n) len i = leb n i
not_before (negsuc n) len i = leb len (i + n + 1)

abbrev pub not_after : ℤ → ℕ → ℕ → Bool
not_after (pos n) len i = leb i n
not_after (negsuc n) len i = leb (i + n + 1) len

-- the items whose index, counted from `i`, passes a test
unfoldable pub chosen : (ℕ → Bool) → ℕ → List Bytes → List Bytes
chosen f i [] = []
chosen f i (x ∷ l) = let rest = chosen f (suc i) l in if f i then x ∷ rest else rest

-- the items that a range selects
abbrev pub selected : ℤ → ℤ → List Bytes → List Bytes
selected start stop l =
    chosen (λ i. not_before start (length l) i && not_after stop (length l) i) 0 l

not_before-resolve :
    (idx : ℤ) (len i : ℕ) → not_before idx len i ≡ leb_ℤ (resolve_index idx (pos len)) (pos i)
unfolding resolve_index
not_before-resolve (pos n) len i = ground arith
not_before-resolve (negsuc n) len i = ground (arith, +ℤ_parts (negsuc n) (pos len))

not_after-resolve :
    (idx : ℤ) (len i : ℕ) → not_after idx len i ≡ leb_ℤ (pos i) (resolve_index idx (pos len))
unfolding resolve_index
not_after-resolve (pos n) len i = ground arith
not_after-resolve (negsuc n) len i = ground (arith, +ℤ_parts (negsuc n) (pos len))

chosen-between :
    (f : ℕ → Bool) (lo hi : ℤ) (i : ℕ) (l : List Bytes)
    → ((j : ℕ) → f j ≡ lies_between lo hi j)
    → chosen f i l ≡ between lo hi i l
unfolding between chosen
chosen-between f lo hi i [] h = refl
chosen-between f lo hi i (x ∷ l) h =
    rw (h i, chosen-between f lo hi (suc i) l h, between, chosen) refl

resolved-selected :
    (start stop : ℤ) (l : List Bytes) → resolved start stop l ≡ selected start stop l
resolved-selected start stop l = sym (
    chosen-between _ _ _ 0 l (λ j.
      ap₂ (λ a b. a && b) (not_before-resolve start (length l) j)
        (not_after-resolve stop (length l) j)))

range_reply-resolved :
    (start stop : ℤ) (l : List Bytes)
    → range_reply start stop l ≡ encode_command (resolved start stop l)
unfolding range_reply encode_command bulks
range_reply-resolved start stop l =
    let lo = resolve_index start (pos (length l)) in
    let hi = resolve_index stop (pos (length l)) in
    let last = to_end hi (pos (length l)) in
    let n = pos_part (last -ℤ from_start lo +ℤ pos 1) in
    let it = drop (pos_part (from_start lo)) l in
    elim (Bool-cases (length l == 0 || ltb_ℤ last (from_start lo))) [
      | inl e ↦ rw (e, between-empty lo hi l e) (sym (append-nil (array_header 0)))
      | inr e ↦
          let fits : n ≤ length it = ground (
            arith,
            length-drop (pos_part (from_start lo)) l,
            -ℤ_parts (pos (length l)) (pos 1),
            -ℤ_parts last (from_start lo),
            +ℤ_parts (last -ℤ from_start lo) (pos 1),
          ) in
          rw (e, between-window lo hi l e, length-take_le n it fits, range_items-bulks n it) refl
    ]

range_reply-selected :
    (start stop : ℤ) (l : List Bytes)
    → range_reply start stop l ≡ encode_command (selected start stop l)
range_reply-selected start stop l =
    range_reply-resolved start stop l ∙ ap encode_command (resolved-selected start stop l)

-- nil, or the first item
abbrev pub first_reply : List Bytes → Bytes
first_reply [] = null_bulk
first_reply (x ∷ l) = bulk x

first_reply-drop :
    (i : ℕ) (l : List Bytes) → i < length l → first_reply (take 1 (drop i l)) ≡ bulk (get_or l i [])
first_reply-drop i [] h = absurd (omega arith)
first_reply-drop zero (x ∷ l) h = refl
first_reply-drop (suc i) (x ∷ l) h = first_reply-drop i l (omega arith)

index_reply-resolved :
    (idx : ℤ) (l : List Bytes) → index_reply idx l ≡ first_reply (resolved idx idx l)
unfolding index_reply
index_reply-resolved idx l =
    let i = resolve_index idx (pos (length l)) in
    elim (Bool-cases (ltb_ℤ i (pos 0) || leb_ℤ (pos (length l)) i)) [
      | inl e ↦ rw (e, between-none i i 0 l (λ j le lt. ground arith)) refl
      | inr e ↦
          let same =
            between-same i i (pos (pos_part i)) (pos (pos_part i)) 0 l (λ j lt. ground arith) in
          let one : suc (pos_part i) - pos_part i ≡ 1 = omega arith in
          let run = between-drop (pos_part i) (pos_part i) (pos_part i) 0 l (omega arith) in
          rw (e, same, run, one) (sym (first_reply-drop (pos_part i) l (ground arith)))
    ]

module _ {Z : Type 0} where
  -- On a valid database, for two indexes that are read as int64_t, LRANGE answers the array of the
  -- items from the one that the first index names to the one that the second names, where -1 names
  -- the last item and -2 the one before it, and an empty array for a missing key; the header
  -- counts the items that follow, and nothing that can be seen changes.
  pub cmd_lrange-selected :
      (db : Database (Value Z)) (argv : List Bytes) (now start stop : ℤ)
      → IsValid db
      → parse_int64 (arg argv 2) ≡ some start
      → parse_int64 (arg argv 3) ≡ some stop
      → ((cmd_lrange db argv now).0
          ≡ reply_of
              (finding list_kind (entry db now (arg argv 1)))
              (array_header 0)
              (λ l. encode_command (selected start stop l)))
        × Shows now (entry db) (cmd_lrange db argv now).1
  unfolding cmd_lrange
  cmd_lrange-selected db argv now start stop v a b =
      let (told, s) = read_held-Shows list_kind db (arg argv 1) now _ (range_reply start stop) v in
      let there = finding list_kind (entry db now (arg argv 1)) in
      rw (a, b, cmd_lrange)
        (told ∙ reply_of-same there _ _ _ _ refl (range_reply-selected start stop), s)

  -- On a valid database, for an index that is read as int64_t, LINDEX answers the item that the
  -- index names, where -1 names the last and -2 the one before it, and nil if there is none; nothing
  -- that can be seen changes.
  pub cmd_lindex-selected :
      (db : Database (Value Z)) (argv : List Bytes) (now idx : ℤ)
      → IsValid db
      → parse_int64 (arg argv 2) ≡ some idx
      → ((cmd_lindex db argv now).0
          ≡ reply_of
              (finding list_kind (entry db now (arg argv 1)))
              null_bulk
              (λ l. first_reply (selected idx idx l)))
        × Shows now (entry db) (cmd_lindex db argv now).1
  unfolding cmd_lindex
  cmd_lindex-selected db argv now idx v a =
      let (told, s) = read_held-Shows list_kind db (arg argv 1) now _ (index_reply idx) v in
      let there = finding list_kind (entry db now (arg argv 1)) in
      rw (a, cmd_lindex)
        (
          told
              ∙ reply_of-same there _ _ _ _ refl
                  (λ l. index_reply-resolved idx l ∙ ap first_reply (resolved-selected idx idx l)),
          s,
        )
