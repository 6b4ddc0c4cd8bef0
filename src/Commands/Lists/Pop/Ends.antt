-- ===== src/Commands/Lists/Pop/Ends.antt =====
-- The ends of a deque, of src/commands/cmd_list.cpp: what a pop takes off, and what it leaves.
use Prim.Native.Nat.{min}
use mathlib.Core.List.{reverse, reverse-cons, reverse-reverse}
use gredis.Base.Bytes.{Bytes}
use gredis.Base.{
  ℕ, zero, suc, ◌≡◌, ◌∙◌, ◌≤◌, ◌<◌, refl, sym, ap, arith, Bool, true, false, List, [], ◌∷◌, ◌++◌,
  if◌then◌else◌, length, drop, take, length-append, length-take_le,
}
use gredis.Commands.Lists.{pop_back, pop_front, pop_end, pop_items, pop_one, pop_many}
use gredis.Protocol.Parser.RoundTrip.{bulks, encode_command}
use gredis.Protocol.Writer.{bulk, null_bulk}

-- the list as it is met from the end that the pop takes from
abbrev pub facing : Bool → List Bytes → List Bytes
facing from_front l = if from_front then l else reverse l

pop_back-reverse : (l : List Bytes) (x : Bytes) → pop_back (l ++ x ∷ []) ≡ (x, l)
unfolding pop_back
pop_back-reverse [] x = refl
pop_back-reverse (y ∷ []) x = refl
pop_back-reverse (y ∷ z ∷ l) x = rw (pop_back-reverse (z ∷ l) x) refl

-- the item that is met first is what the pop takes
pop_end-facing :
    (from_front : Bool) (x : Bytes) (l : List Bytes)
    → pop_end from_front (facing from_front (x ∷ l)) ≡ (x, facing from_front l)
unfolding pop_end pop_front
pop_end-facing true x l = refl
pop_end-facing false x l = ap pop_back (reverse-cons x l) ∙ pop_back-reverse (reverse l) x

pop_items-facing :
    (from_front : Bool) (n : ℕ) (l : List Bytes)
    → n ≤ length l
    → pop_items from_front n (facing from_front l)
      ≡ (bulks (take n l), facing from_front (drop n l))
unfolding pop_items bulks
pop_items-facing from_front zero l h = refl
pop_items-facing from_front (suc n) [] h = absurd (omega arith)
pop_items-facing from_front (suc n) (x ∷ l) h =
    rw (pop_end-facing from_front x l, pop_items, pop_items-facing from_front n l (omega arith))
      refl

facing-facing : (from_front : Bool) (l : List Bytes) → facing from_front (facing from_front l) ≡ l
facing-facing true l = refl
facing-facing false l = reverse-reverse l

length-facing : (from_front : Bool) (l : List Bytes) → length (facing from_front l) ≡ length l
length-facing true l = refl
length-facing false [] = refl
length-facing false (x ∷ l) =
    ap length (reverse-cons x l)
    ∙ omega (arith, length-append (reverse l) (x ∷ []), length-facing false l)

-- what a pop takes, in order, and what it leaves
abbrev pub taken : Bool → ℕ → List Bytes → List Bytes
taken from_front n l = take n (facing from_front l)

abbrev pub left : Bool → ℕ → List Bytes → List Bytes
left from_front n l = facing from_front (drop n (facing from_front l))

-- the item at the end that the pop takes from
abbrev pub first_item : List Bytes → Bytes
first_item [] = null_bulk
first_item (x ∷ l) = bulk x

pub pop_one-taken :
    (from_front : Bool) (x : Bytes) (l : List Bytes)
    → pop_one from_front (x ∷ l)
      ≡ (first_item (facing from_front (x ∷ l)), left from_front 1 (x ∷ l))
unfolding pop_one
pop_one-taken from_front x l =
    ap (pop_one from_front) (sym (facing-facing from_front (x ∷ l)))
    ∙ whole (facing from_front (x ∷ l)) (omega (arith, length-facing from_front (x ∷ l)))
  where
    whole :
        (m : List Bytes)
        → 0 < length m
        → pop_one from_front (facing from_front m) ≡ (first_item m, facing from_front (drop 1 m))
    whole [] h = absurd (omega arith)
    whole (y ∷ m) h = rw (pop_end-facing from_front y m) refl

pub pop_many-taken :
    (from_front : Bool) (count : ℕ) (l : List Bytes)
    → pop_many from_front count l ≡ (
      encode_command (taken from_front (min count (length l)) l),
      left from_front (min count (length l)) l,
    )
unfolding pop_many encode_command
pop_many-taken from_front count l =
    let m = facing from_front l in
    let n = min count (length l) in
    let fits : n ≤ length m = ground (arith, length-facing from_front l) in
    let run : pop_items from_front n l ≡ (bulks (take n m), facing from_front (drop n m)) =
      ap (pop_items from_front n) (sym (facing-facing from_front l))
      ∙ pop_items-facing from_front n m fits in
    rw (run, length-take_le n m fits, pop_many) refl

pub pop_one-leaves :
    (from_front : Bool) (l : List Bytes) → (pop_one from_front l).1 ≡ left from_front 1 l
unfolding pop_one pop_end pop_front pop_back
pop_one-leaves true [] = refl
pop_one-leaves false [] = refl
pop_one-leaves from_front (x ∷ l) = ap (λ u. u.1) (pop_one-taken from_front x l)
