-- ===== src/Commands/Sets/Inter.antt =====
-- SINTER, of src/commands/cmd_set.cpp.
use gredis.Base.Bytes.{Bytes, bytes_eq, bytes_eq_iff}
use gredis.Base.{
  ℕ, zero, suc, ◌+◌, ◌==◌, ◌<◌, ◌≡◌, ◌∙◌, refl, sym, ap, ap₂, arith, Bool, true, false, ◌&&◌,
  Bool-cases, Option-cases, Option, inl, inr, List, [], ◌∷◌, ltb, if◌then◌else◌, length, get_or,
}
use gredis.Commands.Hashes.Listing.{fields_of}
use gredis.Commands.Sets.{
  SetValue, no_set, smallest_from, smallest_of, probe_others, collect, intersect,
}
use gredis.Commands.Tables.Rebuild.{times-assoc}
use gredis.Commands.Value.{Empty}
use gredis.Storage.HashTable
use gredis.Storage.HashTable.Chain.{to_nat}
use gredis.Storage.HashTable.Invariant
use gredis.Storage.HashTable.Invariant.{view, IsStill, IsStill-refl, Models-IsStill}
use gredis.Storage.HashTable.Operations.{find-Models}
use gredis.Storage.HashTable.Strings.{string_key}
use gredis.Storage.HashTable.Update.{is_some}
use gredis.Storage.HashTable.Visit.{for_each-view, times}
use gredis.Storage.HashTable.{HashTable, size, find, for_each}

-- every set is valid
abbrev pub AllValid : List SetValue → Type 0
AllValid [] = Unit
AllValid (s ∷ sets) = Invariant.IsValid s × AllValid sets

-- the maps that the sets stand for
abbrev pub views : List SetValue → List (Bytes → Option Empty)
views [] = []
views (s ∷ sets) = view s ∷ views sets

-- whether every map has a member, and whether every map but one has
abbrev pub all_have : Bytes → List (Bytes → Option Empty) → Bool
all_have member [] = true
all_have member (f ∷ fs) = is_some (f member) && all_have member fs

abbrev others_have : ℕ → ℕ → Bytes → List (Bytes → Option Empty) → Bool
others_have smallest i member [] = true
others_have smallest i member (f ∷ fs) =
    (if i == smallest then true else is_some (f member)) && others_have smallest (suc i) member fs

probe_others-have :
    (smallest i : ℕ) (member : Bytes) (sets : List SetValue)
    → AllValid sets
    → ((probe_others smallest i member sets).0 ≡ others_have smallest i member (views sets))
      × AllValid (probe_others smallest i member sets).1
      × (views (probe_others smallest i member sets).1 ≡ views sets)
unfolding probe_others
probe_others-have smallest i member [] v = (refl, tt, refl)
probe_others-have smallest i member (s ∷ sets) (v, vs) =
    let (told, still) = find-Models s member v in
    let (all, valid, same) = probe_others-have smallest (suc i) member sets vs in
    let s' = (find s member).1 in
    let here : view s' ≡ view s = λ j p. still.reads p j in
    elim (Bool-cases (i == smallest)) [
      | inl e ↦ rw (e, probe_others) (all, (v, valid), ap (λ fs. view s ∷ fs) same)
      | inr e ↦ elim (Option-cases (view s member)) [
        | inl lacks ↦
            rw (e, told, lacks, probe_others)
              (refl, (still.valid, vs), ap (λ f. f ∷ views sets) here)
        | inr (x, has) ↦
            rw (e, told, has, probe_others)
              (all, (still.valid, valid), ap₂ (λ f fs. f ∷ fs) here same)
      ]
    ]

-- the members that pass a test
abbrev keep : (Bytes → Bool) → List Bytes → List Bytes
keep f [] = []
keep f (member ∷ members) = if f member then member ∷ keep f members else keep f members

collect-keep :
    (smallest : ℕ) (es : List (Bytes × Empty)) (sets : List SetValue)
    → AllValid sets
    → ((collect smallest es sets).0
        ≡ keep (λ m. others_have smallest 0 m (views sets)) (fields_of es))
      × AllValid (collect smallest es sets).1
      × (views (collect smallest es sets).1 ≡ views sets)
unfolding collect
collect-keep smallest [] sets v = (refl, v, refl)
collect-keep smallest ((member, x) ∷ es) sets v =
    let (all, valid, same) = probe_others-have smallest 0 member sets v in
    let sets' = (probe_others smallest 0 member sets).1 in
    let (rest, valid', same') = collect-keep smallest es sets' valid in
    (
      rw all (
          ap (λ l. if others_have smallest 0 member (views sets) then member ∷ l else l)
            (rest ∙ ap (λ fs. keep (λ m. others_have smallest 0 m fs) (fields_of es)) same)),
      valid',
      same' ∙ same,
    )

-- how often a member is listed
unfoldable pub number_of : Bytes → List Bytes → ℕ
number_of p [] = 0
number_of p (member ∷ members) = to_nat (bytes_eq member p) + number_of p members

number_of-keep :
    (f : Bytes → Bool) (p : Bytes) (l : List Bytes)
    → number_of p (keep f l) ≡ (if f p then number_of p l else 0)
unfolding number_of
number_of-keep f p [] = ground arith
number_of-keep f p (member ∷ l) = elim (Bool-cases (bytes_eq member p)) [
  | inl e ↦
      let same : f member ≡ f p = ap f ((bytes_eq_iff member p).0 e) in
      ground (arith, number_of-keep f p l)
  | inr e ↦ ground (arith, number_of-keep f p l)
]

number_of-fields_of :
    (p : Bytes) (es : List (Bytes × Empty)) → number_of p (fields_of es) ≡ times p es
unfolding number_of times
number_of-fields_of p [] = refl
number_of-fields_of p ((m, x) ∷ es) = omega (arith, number_of-fields_of p es)

times-for_each :
    (s : SetValue) (p : Bytes)
    → Invariant.IsValid s
    → times p (for_each s) ≡ to_nat (is_some (view s p))
times-for_each s p v =
    let (found, once, _) = for_each-view s v in
    let e : ltb 0 (times p (for_each s)) ≡ is_some (view s p) =
      sym (times-assoc p (for_each s)) ∙ ap is_some (found p) in
    ground (arith, once p)

others_have-past :
    (k i : ℕ) (p : Bytes) (fs : List (Bytes → Option Empty))
    → k < i
    → others_have k i p fs ≡ all_have p fs
others_have-past k i p [] h = refl
others_have-past k i p (f ∷ fs) h =
    let e : (i == k) ≡ false = ground arith in
    rw (others_have, e)
      (ap (λ b. is_some (f p) && b) (others_have-past k (suc i) p fs (omega arith)))

others_have-all :
    (k i j : ℕ) (p : Bytes) (sets : List SetValue)
    → k ≡ i + j
    → j < length sets
    → (others_have k i p (views sets) && is_some (view (get_or sets j no_set) p))
      ≡ all_have p (views sets)
others_have-all k i j p [] e h = absurd (omega arith)
others_have-all k i zero p (s ∷ sets) e h =
    let same : (i == k) ≡ true = ground arith in
    let rest = others_have-past k (suc i) p (views sets) (omega arith) in
    rw (others_have, same, rest) (ground arith)
others_have-all k i (suc j) p (s ∷ sets) e h =
    let other : (i == k) ≡ false = ground arith in
    let rest = others_have-all k (suc i) j p sets (omega arith) (omega arith) in
    rw (others_have, other, ← rest) (ground arith)

smallest_from-lt :
    (best least i n : ℕ) (sets : List SetValue)
    → best < n
    → i + length sets ≡ n
    → smallest_from best least i sets < n
unfolding smallest_from
smallest_from-lt best least i n [] b e = b
smallest_from-lt best least i n (s ∷ sets) b e = elim (Bool-cases (ltb (HashTable.size s) least)) [
  | inl c ↦ rw (c, smallest_from) (smallest_from-lt i _ (suc i) n sets (omega arith) (omega arith))
  | inr c ↦ rw (c, smallest_from) (smallest_from-lt best least (suc i) n sets b (omega arith))
]

smallest_of-lt : (sets : List SetValue) → 0 < length sets → smallest_of sets < length sets
unfolding smallest_of
smallest_of-lt [] h = h
smallest_of-lt (s ∷ sets) h = smallest_from-lt 0 _ 1 _ sets (omega arith) (omega arith)

get_or-AllValid :
    (sets : List SetValue) (i : ℕ)
    → AllValid sets
    → i < length sets
    → Invariant.IsValid (get_or sets i no_set)
get_or-AllValid [] i v h = absurd (omega arith)
get_or-AllValid (s ∷ sets) zero (v, vs) h = v
get_or-AllValid (s ∷ sets) (suc i) (v, vs) h = get_or-AllValid sets i vs (omega arith)

pub intersect-all_have :
    (sets : List SetValue) (p : Bytes)
    → AllValid sets
    → 0 < length sets
    → number_of p (intersect sets).0 ≡ to_nat (all_have p (views sets))
unfolding intersect
intersect-all_have sets p v h =
    let k = smallest_of sets in
    let lt = smallest_of-lt sets h in
    let s = get_or sets k no_set in
    let (run, _, _) = collect-keep k (for_each s) sets v in
    let kept = number_of-keep (λ m. others_have k 0 m (views sets)) p (fields_of (for_each s)) in
    let seen =
      number_of-fields_of p (for_each s) ∙ times-for_each s p (get_or-AllValid sets k v lt) in
    let both = others_have-all k 0 k p sets (omega arith) lt in
    ap (number_of p) run ∙ kept ∙ rw (seen, ← both) (ground arith)
