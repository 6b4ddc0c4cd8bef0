-- ===== src/Commands/Lists/Pop.antt =====
-- LPOP and RPOP, of src/commands/cmd_list.cpp.
pub mod Ends
use Prim.Native.Nat.{min}
use mathlib.Core.List.{reverse, reverse-cons, reverse-reverse}
use gredis.Base.Bytes.{Bytes}
use gredis.Base.Int.{ℤ, pos, negsuc, pos_part, ltb_ℤ}
use gredis.Base.{
  ℕ, zero, suc, ◌≡◌, ◌∙◌, ◌≤◌, ◌<◌, ◌⊎◌, ltb, inl, inr, refl, sym, ap, arith, Bool, true, false,
  Option, none, some, List, [], ◌∷◌, ◌++◌, if◌then◌else◌, length, drop, take, length-append,
  length-take_le,
}
use gredis.Commands.Held.Laws.{
  finding, reply_of, reply_of-same, changed_held, changed_held-same, shrink_held-Shows,
  unless_empty,
}
use gredis.Commands.Lists.{
  list_kind, pop_back, pop_front, pop_end, pop_items, pop_one, pop_many, pop_count, pop_generic,
  cmd_lpop, cmd_rpop, count_of, not_positive, wrong_arguments,
}
use gredis.Commands.Text.{arg, not_int}
use gredis.Commands.Value.{Value, string_value, hash_value, list_value, set_value, zset_value}
use gredis.Protocol.Parser.RoundTrip.{bulks, encode_command}
use gredis.Protocol.Writer.{error, bulk, null_bulk, null_array}
use gredis.Storage.Database.Contents.{entry, IsValid, Shows}
use gredis.Storage.Database.{Database}
use gredis.Util.Parse.{parse_int64}
use gredis.Commands.Lists.Pop.Ends.{
  facing, taken, left, first_item, pop_one-taken, pop_many-taken, pop_one-leaves,
}

-- what a pop is asked for: one item, a number of items, or an error
abbrev pub asked : List Bytes → Bytes ⊎ Option ℕ
asked (name ∷ key ∷ count ∷ []) = elim (parse_int64 count) [
  | none ↦ inl not_int
  | some n ↦ if ltb_ℤ n (pos 0) then inl not_positive else inr (some (pos_part n))
]
asked (name ∷ key ∷ count ∷ x ∷ argv) = inl (wrong_arguments name)
asked argv = inr none

count_of-asked :
    (n : Option ℤ)
    → count_of n ≡ (elim n [
      | none ↦ inl not_int
      | some n ↦ if ltb_ℤ n (pos 0) then inl not_positive else inr (some (pos_part n))
    ])
unfolding count_of
count_of-asked none = refl
count_of-asked (some (pos n)) = ground arith
count_of-asked (some (negsuc n)) = ground arith

pop_count-asked : (argv : List Bytes) → pop_count argv ≡ asked argv
unfolding pop_count
pop_count-asked [] = refl
pop_count-asked (name ∷ []) = refl
pop_count-asked (name ∷ key ∷ []) = refl
pop_count-asked (name ∷ key ∷ count ∷ []) = count_of-asked (parse_int64 count)
pop_count-asked (name ∷ key ∷ count ∷ x ∷ argv) =
    let many : ltb 3 (length (name ∷ key ∷ count ∷ x ∷ argv)) ≡ true = ground arith in
    rw (many, pop_count) refl

module _ {Z : Type 0} where
  -- no handler leaves an empty list at a key
  abbrev pub holds_items : Option (Value Z × Option ℤ) → Bool
  holds_items none = true
  holds_items (some (string_value s, d)) = true
  holds_items (some (hash_value h, d)) = true
  holds_items (some (list_value [], d)) = false
  holds_items (some (list_value (x ∷ l), d)) = true
  holds_items (some (set_value s, d)) = true
  holds_items (some (zset_value z, d)) = true

  first_reply-same :
      (from_front : Bool) (e : Option (Value Z × Option ℤ))
      → holds_items e ≡ true
      → reply_of (finding list_kind e) null_bulk (λ l. (pop_one from_front l).0)
        ≡ reply_of (finding list_kind e) null_bulk (λ l. first_item (facing from_front l))
  unfolding list_kind
  first_reply-same from_front none h = refl
  first_reply-same from_front (some (string_value s, d)) h = refl
  first_reply-same from_front (some (hash_value s, d)) h = refl
  first_reply-same from_front (some (list_value [], d)) h = cc
  first_reply-same from_front (some (list_value (x ∷ l), d)) h =
      ap (λ u. u.0) (pop_one-taken from_front x l)
  first_reply-same from_front (some (set_value s, d)) h = refl
  first_reply-same from_front (some (zset_value s, d)) h = refl

  -- what a pop from the key of its first argument answers and leaves, by the count it is given
  unfoldable pub Pops :
      Bool
      → Database (Value Z)
      → List Bytes
      → ℤ
      → Bytes ⊎ Option ℕ
      → Bytes × Database (Value Z)
      → Type 0
  Pops from_front db argv now (inl e) r = r ≡ (error e, db)
  Pops from_front db argv now (inr none) r =
      let there = finding list_kind (entry db now (arg argv 1)) in
      (r.0 ≡ reply_of there null_bulk (λ l. first_item (facing from_front l)))
      × Shows now
          (changed_held list_kind db (arg argv 1) there
            (λ l. unless_empty (list_kind {Z = Z}) (left from_front 1 l)))
          r.1
  Pops from_front db argv now (inr (some count)) r =
      let there = finding list_kind (entry db now (arg argv 1)) in
      (r.0
        ≡ reply_of there null_array
            (λ l. encode_command (taken from_front (min count (length l)) l)))
      × Shows now
          (changed_held list_kind db (arg argv 1) there
            (λ l. unless_empty (list_kind {Z = Z}) (left from_front (min count (length l)) l)))
          r.1

  pop_generic-Pops :
      (from_front : Bool) (db : Database (Value Z)) (argv : List Bytes) (now : ℤ)
      → IsValid db
      → holds_items (entry db now (arg argv 1)) ≡ true
      → (c : Bytes ⊎ Option ℕ) → pop_count argv ≡ c
      → Pops from_front db argv now c (pop_generic db argv now from_front)
  unfolding Pops pop_generic
  pop_generic-Pops from_front db argv now v some_items (inl e) c = rw (c, pop_generic) refl
  pop_generic-Pops from_front db argv now v some_items (inr none) c =
      let there = finding list_kind (entry db now (arg argv 1)) in
      let (told, s) =
        shrink_held-Shows list_kind db (arg argv 1) now null_bulk (pop_one from_front) v in
      rw (c, pop_generic)
        (
          told ∙ first_reply-same from_front (entry db now (arg argv 1)) some_items,
          changed_held-same list_kind db _ (arg argv 1) now there _ _
              (λ l. ap (unless_empty (list_kind {Z = Z})) (pop_one-leaves from_front l)) s,
        )
  pop_generic-Pops from_front db argv now v some_items (inr (some count)) c =
      let there = finding list_kind (entry db now (arg argv 1)) in
      let (told, s) =
        shrink_held-Shows list_kind db (arg argv 1) now null_array (pop_many from_front count) v in
      rw (c, pop_generic)
        (
          told
              ∙ reply_of-same there _ _ _ _ refl
                  (λ l. ap (λ u. u.0) (pop_many-taken from_front count l)),
          changed_held-same list_kind db _ (arg argv 1) now there _ _
              (λ l.
                ap (λ u. unless_empty (list_kind {Z = Z}) u.1) (pop_many-taken from_front count l))
              s,
        )

  -- On a valid database, unless the key shows a list without items, LPOP takes items off the front
  -- of the list that the key shows, and RPOP off its back, in the order in which they come off:
  -- one without a count, and with one as many as the count says and the list has. The rest of the
  -- list keeps its deadline, and the key goes with the last item. A bad count is an error that
  -- changes nothing, a missing key gives nil, and a value of another type an error.
  pub cmd_pop-Pops :
      (db : Database (Value Z)) (argv : List Bytes) (now : ℤ)
      → IsValid db
      → holds_items (entry db now (arg argv 1)) ≡ true
      → Pops true db argv now (asked argv) (cmd_lpop db argv now)
        × Pops false db argv now (asked argv) (cmd_rpop db argv now)
  unfolding cmd_lpop cmd_rpop
  cmd_pop-Pops db argv now v some_items = (
    pop_generic-Pops true db argv now v some_items (asked argv) (pop_count-asked argv),
    pop_generic-Pops false db argv now v some_items (asked argv) (pop_count-asked argv),
  )
