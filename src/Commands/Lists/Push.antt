-- ===== src/Commands/Lists/Push.antt =====
-- LPUSH and RPUSH, of src/commands/cmd_list.cpp.
use mathlib.Core.List.{reverse, reverse-cons, append_assoc, append-nil}
use gredis.Base.Bytes.{Bytes}
use gredis.Base.Int.{ℤ, pos}
use gredis.Base.{
  ◌+◌, ◌≡◌, ◌∙◌, refl, sym, ap, arith, Bool, true, false, List, [], ◌∷◌, ◌++◌, if◌then◌else◌,
  length, drop, length-append,
}
use gredis.Commands.Held.Laws.{
  finding, reply_of, reply_of-same, created_held, created_held-same, grow_held-Shows,
}
use gredis.Commands.Lists.{list_kind, push_items, push_generic, cmd_lpush, cmd_rpush}
use gredis.Commands.Text.{arg}
use gredis.Commands.Value.{Value}
use gredis.Protocol.Writer.{integer}
use gredis.Storage.Database.Contents.{entry, IsValid, Shows}
use gredis.Storage.Database.{Database}

-- the items in front of the list, the last one first, or behind it
abbrev pub pushed : Bool → List Bytes → List Bytes → List Bytes
pushed front items l = if front then reverse items ++ l else l ++ items

push_items-pushed :
    (front : Bool) (items l : List Bytes) → push_items front items l ≡ pushed front items l
unfolding push_items
push_items-pushed true [] l = refl
push_items-pushed false [] l = sym (append-nil l)
push_items-pushed true (x ∷ items) l =
    push_items-pushed true items (x ∷ l)
    ∙ sym (append_assoc (reverse items) (x ∷ []) l)
    ∙ ap (λ m. m ++ l) (sym (reverse-cons x items))
push_items-pushed false (x ∷ items) l =
    push_items-pushed false items (l ++ x ∷ []) ∙ append_assoc l (x ∷ []) items

length-push_items :
    (front : Bool) (items l : List Bytes)
    → length (push_items front items l) ≡ length items + length l
unfolding push_items
length-push_items front [] l = omega arith
length-push_items true (x ∷ items) l = omega (arith, length-push_items true items (x ∷ l))
length-push_items false (x ∷ items) l =
    omega (arith, length-push_items false items (l ++ x ∷ []), length-append l (x ∷ []))

module _ {Z : Type 0} where
  -- what a push to the key of its first argument answers and leaves
  unfoldable pub Pushes :
      Bool → Database (Value Z) → List Bytes → ℤ → Bytes × Database (Value Z) → Type 0
  Pushes front db argv now r =
      let there = finding list_kind (entry db now (arg argv 1)) in
      let items = drop 2 argv in
      (r.0
        ≡ reply_of there (integer (pos (length items)))
            (λ l. integer (pos (length items + length l))))
      × Shows now (created_held list_kind db (arg argv 1) there (pushed front items)) r.1

  push_generic-Pushes :
      (front : Bool) (db : Database (Value Z)) (argv : List Bytes) (now : ℤ)
      → IsValid db
      → Pushes front db argv now (push_generic db argv now front)
  unfolding Pushes push_generic list_kind
  push_generic-Pushes front db argv now v =
      let items = drop 2 argv in
      let (told, s) = grow_held-Shows list_kind db (arg argv 1) now _ v in
      (
        told
            ∙ reply_of-same (finding list_kind (entry db now (arg argv 1))) _ _ _ _
                (ap (λ n. integer (pos n)) (length-push_items front items [] ∙ (omega arith)))
                (λ l. ap (λ n. integer (pos n)) (length-push_items front items l)),
        created_held-same list_kind db _ (arg argv 1) now _ _ _ (push_items-pushed front items) s,
      )

  -- On a valid database LPUSH puts its items in front of the list that the key shows, the last one
  -- first, and RPUSH behind it; a missing key gets a list of the items without a deadline, a list
  -- keeps its deadline, and the answer is the new length. For a value of another type the answer
  -- is an error and nothing that can be seen changes.
  pub cmd_push-Pushes :
      (db : Database (Value Z)) (argv : List Bytes) (now : ℤ)
      → IsValid db
      → Pushes true db argv now (cmd_lpush db argv now)
        × Pushes false db argv now (cmd_rpush db argv now)
  unfolding cmd_lpush cmd_rpush
  cmd_push-Pushes db argv now v =
      (push_generic-Pushes true db argv now v, push_generic-Pushes false db argv now v)
