-- ===== src/Persistence/Snapshot/Fuel.antt =====
-- The loop of `decode_snapshot` in src/persistence/snapshot.cpp ends on every input: each record
-- that is read takes a byte at least off it.
use gredis.Base.Bytes.{Bytes, codes}
use gredis.Base.Int.{ℤ, pos}
use gredis.Base.{
  ℕ, zero, suc, ◌+◌, ◌*◌, ◌≤◌, ◌≡◌, ◌⊎◌, inl, inr, refl, arith, ◌||◌, ◌==◌, Bool-cases, Option,
  none, some, List, [], ◌∷◌, ◌++◌, length, length-drop, ltb, if◌then◌else◌, drop, take,
}
use gredis.Commands.Value.{Value, Empty}
use gredis.Persistence.Codec.{from_u64, read_le, read_i64, read_lp_bytes}
use gredis.Persistence.Snapshot.{
  ZSets, or_error, read_items, read_entries, read_set, read_scores, decode_payload, decode_expiry,
  decode_one_record, decode_records,
}
use gredis.Protocol.Outcome.{Outcome, parsed, incomplete, failed, and_then}
use gredis.Storage.Database.{Database}
use gredis.Storage.HashTable.{HashTable}
use gredis.Util.Parse.{to_string}

-- what is left is no longer than `n`
abbrev IsShort {ℓ} : {A : Type ℓ} → ℕ → Outcome A → Type 0
IsShort n (parsed a rest) = length rest ≤ n
IsShort n incomplete = Unit
IsShort n (failed e) = Unit

IsShort-and_then {ℓ κ} :
    {A : Type ℓ} {B : Type κ} (n : ℕ) (o : Outcome A) (f : A → Bytes → Outcome B)
    → IsShort n o
    → ((a : A) (rest : Bytes) → length rest ≤ n → IsShort n (f a rest))
    → IsShort n (and_then o f)
unfolding and_then
IsShort-and_then n (parsed a rest) f s h = h a rest s
IsShort-and_then n incomplete f s h = tt
IsShort-and_then n (failed e) f s h = tt

-- the same of a read
abbrev IsRead {ℓ} : {A : Type ℓ} → ℕ → Option (A × Bytes) → Type 0
IsRead n none = Unit
IsRead n (some (a, rest)) = length rest ≤ n

IsRead-or_error {ℓ} :
    {A : Type ℓ} (n : ℕ) (e : Bytes) (o : Option (A × Bytes))
    → IsRead n o
    → IsShort n (or_error e o)
IsRead-or_error n e none r = tt
IsRead-or_error n e (some (a, rest)) r = r

read_le-IsRead : (k n : ℕ) (input : Bytes) → length input ≤ n → IsRead n (read_le k input)
unfolding read_le
read_le-IsRead zero n input h = h
read_le-IsRead (suc k) n [] h = tt
read_le-IsRead (suc k) n (c ∷ input) h =
    step (read_le k input) (read_le-IsRead k n input (omega arith))
  where
    step :
        (o : Option (ℕ × Bytes))
        → IsRead n o
        → IsRead n (elim o [ none ↦ none | some (v, rest) ↦ some (c + 256 * v, rest) ])
    step none r = tt
    step (some (v, rest)) r = r

read_i64-IsRead : (n : ℕ) (input : Bytes) → length input ≤ n → IsRead n (read_i64 input)
unfolding read_i64
read_i64-IsRead n input h = step (read_le 8 input) (read_le-IsRead 8 n input h)
  where
    step :
        (o : Option (ℕ × Bytes))
        → IsRead n o
        → IsRead n (elim o [ none ↦ none | some (bits, rest) ↦ some (from_u64 bits, rest) ])
    step none r = tt
    step (some (v, rest)) r = r

read_lp_bytes-IsRead : (n : ℕ) (input : Bytes) → length input ≤ n → IsRead n (read_lp_bytes input)
unfolding read_lp_bytes
read_lp_bytes-IsRead n input h = step (read_le 4 input) (read_le-IsRead 4 n input h)
  where
    step :
        (o : Option (ℕ × Bytes))
        → IsRead n o
        → IsRead n (elim o [
          | none ↦ none
          | some (len, rest) ↦
              if ltb (length rest) len then none else some (take len rest, drop len rest)
        ])
    step none r = tt
    step (some (len, rest)) r = elim (Bool-cases (ltb (length rest) len)) [
      | inl e ↦ rw e tt
      | inr e ↦ rw e (omega (arith, length-drop len rest))
    ]

or_error-string :
    (n : ℕ) (e input : Bytes) → length input ≤ n → IsShort n (or_error e (read_lp_bytes input))
or_error-string n e input h = IsRead-or_error n e _ (read_lp_bytes-IsRead n input h)

or_error-number :
    (k n : ℕ) (e input : Bytes) → length input ≤ n → IsShort n (or_error e (read_le k input))
or_error-number k n e input h = IsRead-or_error n e _ (read_le-IsRead k n input h)

read_items-IsShort :
    (count n : ℕ) (l : List Bytes) (input : Bytes)
    → length input ≤ n
    → IsShort n (read_items count l input)
unfolding read_items
read_items-IsShort zero n l input h = h
read_items-IsShort (suc count) n l input h =
    IsShort-and_then n _ _ (or_error-string n _ input h)
      (λ item rest. read_items-IsShort count n _ rest)

read_entries-IsShort :
    (count n : ℕ) (t : HashTable Bytes Bytes) (input : Bytes)
    → length input ≤ n
    → IsShort n (read_entries count t input)
unfolding read_entries
read_entries-IsShort zero n t input h = h
read_entries-IsShort (suc count) n t input h =
    IsShort-and_then n _ _ (or_error-string n _ input h) (λ field rest h'.
      IsShort-and_then n _ _ (or_error-string n _ rest h')
        (λ value rest'. read_entries-IsShort count n _ rest'))

read_set-IsShort :
    (count n : ℕ) (t : HashTable Bytes Empty) (input : Bytes)
    → length input ≤ n
    → IsShort n (read_set count t input)
unfolding read_set
read_set-IsShort zero n t input h = h
read_set-IsShort (suc count) n t input h =
    IsShort-and_then n _ _ (or_error-string n _ input h)
      (λ member rest. read_set-IsShort count n _ rest)

module _ {Z : Type 0} (zsets : ZSets Z) where
  read_scores-IsShort :
      (count n : ℕ) (z : Z) (input : Bytes)
      → length input ≤ n
      → IsShort n (read_scores zsets count z input)
  unfolding read_scores
  read_scores-IsShort zero n z input h = h
  read_scores-IsShort (suc count) n z input h =
      IsShort-and_then n _ _ (or_error-string n _ input h) (λ member rest h'.
        IsShort-and_then n _ _ (or_error-number 8 n _ rest h')
          (λ score rest'. read_scores-IsShort count n _ rest'))

  decode_payload-IsShort :
      (tag n : ℕ) (input : Bytes) → length input ≤ n → IsShort n (decode_payload zsets tag input)
  unfolding decode_payload
  decode_payload-IsShort tag n input h = elim (Bool-cases (tag == 1)) [
    | inl e ↦ rw e (IsShort-and_then n _ _ (or_error-string n _ input h) (λ s rest h'. h'))
    | inr e₁ ↦ elim (Bool-cases (tag == 2)) [
      | inl e ↦
          rw (e₁, e)
            (IsShort-and_then n _ _ (or_error-number 4 n _ input h) (λ count rest h'.
              IsShort-and_then n _ _ (read_entries-IsShort count n _ rest h') (λ t r h''. h'')))
      | inr e₂ ↦ elim (Bool-cases (tag == 3)) [
        | inl e ↦
            rw (e₁, e₂, e)
              (IsShort-and_then n _ _ (or_error-number 4 n _ input h) (λ count rest h'.
                IsShort-and_then n _ _ (read_items-IsShort count n _ rest h') (λ t r h''. h'')))
        | inr e₃ ↦ elim (Bool-cases (tag == 4)) [
          | inl e ↦
              rw (e₁, e₂, e₃, e)
                (IsShort-and_then n _ _ (or_error-number 4 n _ input h) (λ count rest h'.
                  IsShort-and_then n _ _ (read_set-IsShort count n _ rest h') (λ t r h''. h'')))
          | inr e₄ ↦ elim (Bool-cases (tag == 5)) [
            | inl e ↦
                rw (e₁, e₂, e₃, e₄, e)
                  (IsShort-and_then n _ _ (or_error-number 4 n _ input h) (λ count rest h'.
                    IsShort-and_then n _ _ (read_scores-IsShort count n _ rest h')
                      (λ t r h''. h'')))
            | inr e₅ ↦ rw (e₁, e₂, e₃, e₄, e₅) tt
          ]
        ]
      ]
    ]
  ]

  decode_expiry-IsShort :
      (has_ttl n : ℕ) (input : Bytes)
      → length input ≤ n
      → IsShort n (decode_expiry zsets has_ttl input)
  unfolding decode_expiry
  decode_expiry-IsShort has_ttl n input h = elim (Bool-cases (has_ttl == 0)) [
    | inl e ↦ rw e h
    | inr e₁ ↦ elim (Bool-cases (has_ttl == 1)) [
      | inl e ↦
          rw (e₁, e)
            (IsShort-and_then n _ _ (IsRead-or_error n _ _ (read_i64-IsRead n input h))
              (λ v r h'. h'))
      | inr e₂ ↦ rw (e₁, e₂) tt
    ]
  ]

  -- a record takes its tag off the input at least
  decode_one_record-IsShort :
      (c : ℕ) (input : Bytes) (db : Database (Value Z)) (now_mono now_unix : ℤ)
      → IsShort (length input) (decode_one_record zsets (c ∷ input) db now_mono now_unix)
  unfolding decode_one_record read_le and_then
  decode_one_record-IsShort c input db now_mono now_unix =
      let n = length input in
      let tag = c + 256 * 0 in
      elim (Bool-cases (ltb tag 1 || ltb 5 tag)) [
        | inl e ↦ rw e tt
        | inr e ↦ rw e (
            IsShort-and_then n _ _ (or_error-number 1 n _ input (omega arith)) (λ has_ttl r₂ h₂.
              IsShort-and_then n _ _ (decode_expiry-IsShort has_ttl n r₂ h₂) (λ expiry r₃ h₃.
                IsShort-and_then n _ _ (or_error-string n _ r₃ h₃) (λ key r₄ h₄.
                  IsShort-and_then n _ _ (decode_payload-IsShort tag n r₄ h₄)
                    (λ value r₅ h₅. h₅)))))
      ]

  -- a loop that has ended, by an error or at the footer
  abbrev pub IsDone : Bytes ⊎ (ℕ × ℕ × Database (Value Z)) → Type 0
  IsDone (inl e) = Unit
  IsDone (inr (left, n, db)) = left ≤ 13

  -- the rounds after one that has answered `o`
  abbrev after : ℕ → ℕ → ℤ → ℤ → Outcome (Database (Value Z)) → Bytes ⊎ (ℕ × ℕ × Database (Value Z))
  after k n now_mono now_unix o = elim o [
    | failed e ↦ inl (codes "record " ++ to_string (pos n) ++ codes ": " ++ e)
    | incomplete ↦ inl []
    | parsed scratch rest ↦ decode_records zsets k rest scratch (suc n) now_mono now_unix
  ]

  rounds :
      (k k' m n : ℕ) (now_mono now_unix : ℤ) (o : Outcome (Database (Value Z)))
      → IsShort m o
      → ((rest : Bytes) (db : Database (Value Z))
          → length rest ≤ m
          → (decode_records zsets k rest db (suc n) now_mono now_unix
              ≡ decode_records zsets k' rest db (suc n) now_mono now_unix)
            × IsDone (decode_records zsets k' rest db (suc n) now_mono now_unix))
      → (after k n now_mono now_unix o ≡ after k' n now_mono now_unix o)
        × IsDone (after k' n now_mono now_unix o)
  rounds k k' m n now_mono now_unix (failed x) s h = (refl, tt)
  rounds k k' m n now_mono now_unix incomplete s h = (refl, tt)
  rounds k k' m n now_mono now_unix (parsed db rest) s h = h rest db s

  at_end :
      (fuel : ℕ) (db : Database (Value Z)) (n : ℕ) (now_mono now_unix : ℤ)
      → decode_records zsets fuel [] db n now_mono now_unix ≡ inr (0, n, db)
  unfolding decode_records
  at_end zero db n now_mono now_unix = refl
  at_end (suc fuel) db n now_mono now_unix = refl

  -- The loop over the records ends on every input: as many rounds as the input has bytes are
  -- enough, since more change nothing, and it ends by an error or with no more input than the
  -- footer has.
  pub decode_records-IsDone :
      (fuel more : ℕ) (input : Bytes) (db : Database (Value Z)) (n : ℕ) (now_mono now_unix : ℤ)
      → length input ≤ fuel
      → (decode_records zsets (fuel + more) input db n now_mono now_unix
          ≡ decode_records zsets fuel input db n now_mono now_unix)
        × IsDone (decode_records zsets fuel input db n now_mono now_unix)
  unfolding decode_records
  decode_records-IsDone fuel more [] db n now_mono now_unix h =
      rw (at_end (fuel + more) db n now_mono now_unix, at_end fuel db n now_mono now_unix)
        (refl, omega arith)
  decode_records-IsDone zero more (c ∷ input) db n now_mono now_unix h = absurd (omega arith)
  decode_records-IsDone (suc fuel) more (c ∷ input) db n now_mono now_unix h =
      let e : suc fuel + more ≡ suc (fuel + more) = omega arith in
      let rest =
        rounds (fuel + more) fuel (length input) n now_mono now_unix
          (decode_one_record zsets (c ∷ input) db now_mono now_unix)
          (decode_one_record-IsShort c input db now_mono now_unix)
          (λ r u le.
            decode_records-IsDone fuel more r u (suc n) now_mono now_unix (omega (arith, le))) in
      elim (Bool-cases (ltb 13 (length (c ∷ input)))) [
        | inr last ↦ rw (e, decode_records, last) (refl, ground arith)
        | inl long ↦ rw (e, decode_records, long) rest
      ]
