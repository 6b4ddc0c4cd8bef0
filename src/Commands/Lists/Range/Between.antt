-- ===== src/Commands/Lists/Range/Between.antt =====
-- The items of a list whose index lies between two bounds, for LRANGE and LINDEX of
-- src/commands/cmd_list.cpp.
use gredis.Base.Bytes.{Bytes}
use gredis.Base.Int.{ℤ, pos, pos_part, ltb_ℤ, leb_ℤ, ◌+ℤ◌, ◌-ℤ◌, +ℤ_parts, -ℤ_parts}
use gredis.Base.{
  ℕ, zero, suc, ◌+◌, ◌-◌, ◌==◌, ◌≡◌, ◌∙◌, ◌≤◌, ◌<◌, inl, inr, refl, sym, ap, arith, Bool,
  Bool-cases, true, false, ◌&&◌, ◌||◌, List, [], ◌∷◌, ◌++◌, if◌then◌else◌, length, drop, take,
}
use gredis.Commands.Lists.{range_items}
use gredis.Protocol.Parser.RoundTrip.{bulks}
use gredis.Protocol.Writer.{bulk}

abbrev pub lies_between : ℤ → ℤ → ℕ → Bool
lies_between lo hi i = leb_ℤ lo (pos i) && leb_ℤ (pos i) hi

-- the items whose index, counted from `i`, lies between two bounds
unfoldable pub between : ℤ → ℤ → ℕ → List Bytes → List Bytes
between lo hi i [] = []
between lo hi i (x ∷ l) =
    let rest = between lo hi (suc i) l in if lies_between lo hi i then x ∷ rest else rest

pub between-same :
    (lo hi lo' hi' : ℤ) (i : ℕ) (l : List Bytes)
    → ((j : ℕ) → j < i + length l → lies_between lo hi j ≡ lies_between lo' hi' j)
    → between lo hi i l ≡ between lo' hi' i l
unfolding between
between-same lo hi lo' hi' i [] h = refl
between-same lo hi lo' hi' i (x ∷ l) h =
    let here = h i (omega arith) in
    let rest = between-same lo hi lo' hi' (suc i) l (λ j lt. h j (omega arith)) in
    rw (here, rest, between) refl

pub between-none :
    (lo hi : ℤ) (i : ℕ) (l : List Bytes)
    → ((j : ℕ) → i ≤ j → j < i + length l → lies_between lo hi j ≡ false)
    → between lo hi i l ≡ []
unfolding between
between-none lo hi i [] h = refl
between-none lo hi i (x ∷ l) h =
    let here = h i (omega arith) (omega arith) in
    let rest = between-none lo hi (suc i) l (λ j le lt. h j (omega arith) (omega arith)) in
    rw (here, rest, between) refl

take-nil : (n : ℕ) → take {A = Bytes} n [] ≡ []
take-nil zero = refl
take-nil (suc n) = refl

-- from an index on that has passed the lower bound
between-take :
    (lo hi i : ℕ) (l : List Bytes) → lo ≤ i → between (pos lo) (pos hi) i l ≡ take (suc hi - i) l
unfolding between
between-take lo hi i [] h = sym (take-nil (suc hi - i))
between-take lo hi i (x ∷ l) h = elim (Bool-cases (lies_between (pos lo) (pos hi) i)) [
  | inl e ↦
      let z : suc hi - i ≡ suc (suc hi - suc i) = ground arith in
      rw (e, between, z) (ap (λ m. x ∷ m) (between-take lo hi (suc i) l (omega arith)))
  | inr e ↦
      let z : suc hi - i ≡ 0 = ground arith in
      rw (e, between, z) (between-none (pos lo) (pos hi) (suc i) l (λ j le lt. ground arith))
]

pub between-drop :
    (lo hi k i : ℕ) (l : List Bytes)
    → lo ≡ i + k
    → between (pos lo) (pos hi) i l ≡ take (suc hi - lo) (drop k l)
unfolding between
between-drop lo hi zero i l h =
    between-take lo hi i l (omega arith) ∙ ap (λ n. take (suc hi - n) l) (omega (arith, h))
between-drop lo hi (suc k) i [] h = sym (take-nil (suc hi - lo))
between-drop lo hi (suc k) i (x ∷ l) h =
    let e : lies_between (pos lo) (pos hi) i ≡ false = ground arith in
    rw (e, between) (between-drop lo hi k (suc i) l (omega arith))

pub range_items-bulks : (n : ℕ) (l : List Bytes) → range_items n l ≡ bulks (take n l)
unfolding range_items bulks
range_items-bulks zero l = refl
range_items-bulks (suc n) [] = refl
range_items-bulks (suc n) (x ∷ l) = ap (λ s. bulk x ++ s) (range_items-bulks n l)

-- the bounds as the loop runs over them
abbrev pub from_start : ℤ → ℤ
from_start lo = if ltb_ℤ lo (pos 0) then pos 0 else lo

abbrev pub to_end : ℤ → ℤ → ℤ
to_end hi len = if leb_ℤ len hi then len -ℤ pos 1 else hi

pub between-window :
    (lo hi : ℤ) (l : List Bytes)
    → (length l == 0 || ltb_ℤ (to_end hi (pos (length l))) (from_start lo)) ≡ false
    → between lo hi 0 l
      ≡ take
          (pos_part (to_end hi (pos (length l)) -ℤ from_start lo +ℤ pos 1))
          (drop (pos_part (from_start lo)) l)
between-window lo hi l h =
    let start = from_start lo in
    let stop = to_end hi (pos (length l)) in
    let last = -ℤ_parts (pos (length l)) (pos 1) in
    let same =
      between-same lo hi (pos (pos_part start)) (pos (pos_part stop)) 0 l
        (λ j lt. ground (arith, last)) in
    let count : pos_part (stop -ℤ start +ℤ pos 1) ≡ suc (pos_part stop) - pos_part start =
      ground (arith, last, -ℤ_parts stop start, +ℤ_parts (stop -ℤ start) (pos 1)) in
    rw count
      (same ∙ between-drop (pos_part start) (pos_part stop) (pos_part start) 0 l (omega arith))

pub between-empty :
    (lo hi : ℤ) (l : List Bytes)
    → (length l == 0 || ltb_ℤ (to_end hi (pos (length l))) (from_start lo)) ≡ true
    → between lo hi 0 l ≡ []
between-empty lo hi l h =
    between-none lo hi 0 l (λ j le lt. ground (arith, -ℤ_parts (pos (length l)) (pos 1)))
