-- ===== src/Storage/Expiry/Queue.antt =====
-- The queue of src/storage/expiry.h: it stays in order of deadlines, and loses no entry.
use gredis.Base.Bytes.{Bytes, bytes_eq}
use gredis.Base.Int.{ℤ, leb_ℤ, eqb_ℤ, eqb_ℤ-refl}
use gredis.Base.{
  ◌≡◌, refl, Bool, true, false, ◌&&◌, ◌||◌, List, [], ◌∷◌, arith, some, Bool-cases, inl, inr, suc,
  ◌+◌, ◌∙◌, length,
}
use gredis.Storage.HashTable.Strings.{string_key}
use gredis.Storage.HashTable.Visit.{assoc}
use gredis.Storage.Expiry.{Entry, ExpiryHeap, push, push_all}

-- whether the queue has an entry for the key with the deadline
unfoldable pub queued : Bytes → ℤ → ExpiryHeap → Bool
queued key deadline [] = false
queued key deadline (e ∷ es) =
    (bytes_eq e.key key && eqb_ℤ e.deadline_ms deadline) || queued key deadline es

-- no entry is due before `deadline`
abbrev pub IsFrom : ℤ → ExpiryHeap → Type 0
IsFrom deadline [] = Unit
IsFrom deadline (e ∷ es) = (leb_ℤ deadline e.deadline_ms ≡ true) × IsFrom deadline es

abbrev pub IsSorted : ExpiryHeap → Type 0
IsSorted [] = Unit
IsSorted (e ∷ es) = IsFrom e.deadline_ms es × IsSorted es

IsFrom-le : (a b : ℤ) (es : ExpiryHeap) → leb_ℤ a b ≡ true → IsFrom b es → IsFrom a es
IsFrom-le a b [] h f = tt
IsFrom-le a b (e ∷ es) h f = (ground arith, IsFrom-le a b es h f.1)

IsFrom-push :
    (a : ℤ) (e : Entry) (es : ExpiryHeap)
    → leb_ℤ a e.deadline_ms ≡ true
    → IsFrom a es
    → IsFrom a (push e es)
unfolding push
IsFrom-push a e [] h f = (h, tt)
IsFrom-push a e (x ∷ es) h f = ground (arith, IsFrom-push a e es h f.1)

pub push-IsSorted : (e : Entry) (es : ExpiryHeap) → IsSorted es → IsSorted (push e es)
unfolding push
push-IsSorted e [] s = (tt, tt)
push-IsSorted e (x ∷ es) s = ground (
  arith,
  push-IsSorted e es s.1,
  IsFrom-push x.deadline_ms e es,
  IsFrom-le e.deadline_ms x.deadline_ms es,
)

pub queued-push :
    (key : Bytes) (deadline : ℤ) (e : Entry) (es : ExpiryHeap)
    → queued key deadline (push e es)
      ≡ ((bytes_eq e.key key && eqb_ℤ e.deadline_ms deadline) || queued key deadline es)
unfolding push queued
queued-push key deadline e [] = refl
queued-push key deadline e (x ∷ es) = ground (arith, queued-push key deadline e es)

pub push_all-IsSorted :
    (es : List (Bytes × ℤ)) (heap : ExpiryHeap) → IsSorted heap → IsSorted (push_all es heap)
unfolding push_all
push_all-IsSorted [] heap s = s
push_all-IsSorted ((key, deadline) ∷ es) heap s = push_all-IsSorted es _ (push-IsSorted _ heap s)

queued-push_all_kept :
    (key : Bytes) (d : ℤ) (es : List (Bytes × ℤ)) (heap : ExpiryHeap)
    → queued key d heap ≡ true
    → queued key d (push_all es heap) ≡ true
unfolding push_all
queued-push_all_kept key d [] heap h = h
queued-push_all_kept key d ((k, e) ∷ es) heap h =
    queued-push_all_kept key d es _ (rw queued-push (ground arith))

-- every pair of the list gets its entry
pub queued-push_all :
    (key : Bytes) (d : ℤ) (es : List (Bytes × ℤ)) (heap : ExpiryHeap)
    → assoc key es ≡ some d
    → queued key d (push_all es heap) ≡ true
unfolding push_all assoc
queued-push_all key d [] heap h = cc
queued-push_all key d ((k, e) ∷ es) heap h = elim (Bool-cases (bytes_eq k key)) [
  | inl same ↦
      let z : some e ≡ some d = rw same at h in
      let told : e ≡ d = cc in
      queued-push_all_kept key d es _ (rw (queued-push, same, told, eqb_ℤ-refl) refl)
  | inr other ↦ queued-push_all key d es _ (rw other at h)
]

length-push : (e : Entry) (es : ExpiryHeap) → length (push e es) ≡ suc (length es)
unfolding push
length-push e [] = refl
length-push e (x ∷ es) = ground (arith, length-push e es)

pub length-push_all :
    (es : List (Bytes × ℤ)) (heap : ExpiryHeap)
    → length (push_all es heap) ≡ length es + length heap
unfolding push_all
length-push_all [] heap = omega arith
length-push_all ((key, deadline) ∷ es) heap =
    let e : Entry = record { deadline_ms = deadline; key = key } in
    length-push_all es (push e heap) ∙ omega (arith, length-push e heap)

-- a deadline that is queued is not before the first
pub queued-IsFrom :
    (key : Bytes) (a d : ℤ) (es : ExpiryHeap)
    → IsFrom a es
    → queued key d es ≡ true
    → leb_ℤ a d ≡ true
unfolding queued
queued-IsFrom key a d [] f h = cc
queued-IsFrom key a d (e ∷ es) f h = ground (arith, queued-IsFrom key a d es f.1)
