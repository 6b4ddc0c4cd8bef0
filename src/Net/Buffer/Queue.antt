-- ===== src/Net/Buffer/Queue.antt =====
-- A buffer of src/net/buffer.h is a queue of bytes, whenever it compacts itself.
use mathlib.Core.List.{append_assoc}
use gredis.Base.Bytes.{Bytes}
use gredis.Base.{
  ℕ, zero, suc, ◌+◌, ◌-◌, ◌/◌, ◌≤◌, ◌==◌, ◌≡◌, ◌∙◌, inl, inr, refl, sym, ap, ap₂, arith, Bool-cases,
  [], ◌∷◌, ◌++◌, ltb, length, take, drop, replicate, length-append, take-append, length-drop,
}
use gredis.Net.Buffer.{
  Buffer, readable, is_drained, unread, reset, maybe_compact, append, consume, prepare_write,
  write_over, write_at_mark, commit_written,
}

-- the cursor stands within the bytes
abbrev pub IsValid : Buffer → Type 0
IsValid b = b.read_pos ≤ length b.bytes

-- a buffer that is valid and holds `q`
abbrev pub Holds : Bytes → Buffer → Type 0
Holds q b = IsValid b × (readable b ≡ q)

drop-within : (n : ℕ) (xs ys : Bytes) → n ≤ length xs → drop n (xs ++ ys) ≡ drop n xs ++ ys
drop-within zero xs ys h = refl
drop-within (suc n) [] ys h = absurd (omega arith)
drop-within (suc n) (x ∷ xs) ys h = drop-within n xs ys (omega arith)

drop-nil : (n : ℕ) → drop {A = ℕ} n [] ≡ []
drop-nil zero = refl
drop-nil (suc n) = refl

drop-drop : (m n : ℕ) (xs : Bytes) → drop n (drop m xs) ≡ drop (m + n) xs
drop-drop zero n xs = ap (λ k. drop k xs) (omega arith)
drop-drop (suc m) n [] = drop-nil n ∙ sym (drop-nil (suc m + n))
drop-drop (suc m) n (x ∷ xs) =
    let e : suc m + n ≡ suc (m + n) = omega arith in rw e (drop-drop m n xs)

drop-all : (xs : Bytes) → drop (length xs) xs ≡ []
drop-all [] = refl
drop-all (x ∷ xs) = drop-all xs

maybe_compact-Holds :
    (capacity : ℕ) (b : Buffer) → IsValid b → Holds (readable b) (maybe_compact capacity b)
unfolding maybe_compact readable
maybe_compact-Holds capacity b v = elim (Bool-cases (b.read_pos == 0)) [
  | inl e ↦ rw e (v, refl)
  | inr e ↦ elim (Bool-cases (ltb (capacity / 2) b.read_pos)) [
    | inl c ↦ rw (e, c) (omega arith, refl)
    | inr c ↦ rw (e, c) (v, refl)
  ]
]

-- bytes at the end come out last
added-Holds :
    (b : Buffer) (q s : Bytes) (mark : ℕ)
    → Holds q b
    → Holds (q ++ s) (record { bytes = b.bytes ++ s; read_pos = b.read_pos; write_mark = mark })
unfolding readable
added-Holds b q s mark (v, h) = (
  omega (arith, length-append b.bytes s),
  drop-within b.read_pos b.bytes s v ∙ ap (λ l. l ++ s) h,
)

append-Holds :
    (capacity : ℕ) (s : Bytes) (b : Buffer)
    → IsValid b
    → Holds (readable b ++ s) (append capacity s b)
unfolding append
append-Holds capacity s b v =
    let b' = maybe_compact capacity b in
    added-Holds b' (readable b) s b'.write_mark (maybe_compact-Holds capacity b v)

consume-Holds :
    (n : ℕ) (b : Buffer) → IsValid b → n ≤ unread b → Holds (drop n (readable b)) (consume n b)
unfolding consume readable unread reset
consume-Holds n b v h = elim (Bool-cases (b.read_pos + n == length b.bytes)) [
  | inl e ↦
      let at : b.read_pos + n ≡ length b.bytes = ground arith in
      rw e (
        omega arith,
        sym (drop-drop b.read_pos n b.bytes ∙ ap (λ k. drop k b.bytes) at ∙ drop-all b.bytes),
      )
  | inr e ↦ rw e (omega arith, sym (drop-drop b.read_pos n b.bytes))
]

-- what is written at the mark ends the bytes
write_over-nil : (xs : Bytes) → write_over [] xs ≡ xs
unfolding write_over
write_over-nil [] = refl
write_over-nil (x ∷ xs) = refl

write_over-fits :
    (s : Bytes) (n k : ℕ) → n ≡ length s + k → write_over s (replicate n 0) ≡ s ++ replicate k 0
unfolding write_over
write_over-fits [] n k h =
    write_over-nil (replicate n 0) ∙ ap (λ j. replicate j 0) (omega (arith, h))
write_over-fits (c ∷ s) zero k h = absurd (omega (arith, h))
write_over-fits (c ∷ s) (suc n) k h = ap (λ l. c ∷ l) (write_over-fits s n k (omega (arith, h)))

drop-length : (xs ys : Bytes) → drop (length xs) (xs ++ ys) ≡ ys
drop-length [] ys = refl
drop-length (x ∷ xs) ys = drop-length xs ys

received :
    (xs s : Bytes) (n : ℕ)
    → length s ≤ n
    → take (length xs + length s) (
        take (length xs) (xs ++ replicate n 0)
        ++ write_over s (drop (length xs) (xs ++ replicate n 0)))
      ≡ xs ++ s
received xs s n h =
    let rest = replicate (n - length s) 0 in
    ap₂ (λ l m. take (length xs + length s) (l ++ m)) (take-append xs (replicate n 0))
      (ap (write_over s) (drop-length xs (replicate n 0))
        ∙ write_over-fits s n (n - length s) (omega (arith, h)))
    ∙ ap₂ take (sym (length-append xs s)) (sym (append_assoc xs s rest))
    ∙ take-append (xs ++ s) rest

received-Holds :
    (capacity n : ℕ) (s : Bytes) (b : Buffer)
    → IsValid b
    → length s ≤ n
    → Holds
        (readable b ++ s)
        (commit_written (length s) (write_at_mark s (prepare_write capacity n b)))
unfolding commit_written write_at_mark prepare_write
received-Holds capacity n s b v fits =
    let b' = maybe_compact capacity b in
    rw (received b'.bytes s n fits)
      (added-Holds b' (readable b) s (length b'.bytes) (maybe_compact-Holds capacity b v))

is_drained-unread :
    (b : Buffer)
    → IsValid b
    → (unread b ≡ length (readable b)) × (is_drained b ≡ (length (readable b) == 0))
unfolding unread readable is_drained
is_drained-unread b v = let e = length-drop b.read_pos b.bytes in (sym e, ground (arith, e))

-- A buffer whose cursor stands within its bytes is a queue of bytes, whatever capacity its string
-- has, and stays so: `append` and a write of no more bytes than `prepare_write` was asked for,
-- once it is committed, put bytes at the end of what is readable, `consume` of no more than is
-- unread takes them off the front, and the size and the test for emptiness are those of what is
-- readable.
pub buffer-Holds :
    (b : Buffer) (s : Bytes) (n m capacity : ℕ)
    → IsValid b
    → n ≤ unread b
    → length s ≤ m
    → Holds (readable b ++ s) (append capacity s b)
      × Holds (drop n (readable b)) (consume n b)
      × Holds
          (readable b ++ s)
          (commit_written (length s) (write_at_mark s (prepare_write capacity m b)))
      × (unread b ≡ length (readable b))
      × (is_drained b ≡ (length (readable b) == 0))
buffer-Holds b s n m capacity v within fits =
    let (size, drained) = is_drained-unread b v in
    (
      append-Holds capacity s b v,
      consume-Holds n b v within,
      received-Holds capacity m s b v fits,
      size,
      drained,
    )
