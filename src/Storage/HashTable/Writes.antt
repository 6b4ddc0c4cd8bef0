-- ===== src/Storage/HashTable/Writes.antt =====
-- The writes to one `Table` of src/storage/hash_table.h: a node pushed or assigned or unlinked, a
-- chain moved to another table, a bucket dropped.
use mathlib.Core.Option.{or_else}
use native.Mathlib.Decide.{ℕ_discrete}
use gredis.Base.{
  ℕ, ◌+◌, ◌-◌, ◌≤◌, ◌<◌, ◌≡◌, ◌≢◌, ◌∙◌, refl, sym, ap, false, Option, none, some, List, [], ◌∷◌,
  arith, if◌then◌else◌, ◌==◌, length, get_or, set, length-set, Bool-cases, inl, inr,
}
use gredis.Storage.HashTable.{
  HashKey, Node, Table, home, chain_of, push_node, move_chain, drop_bucket, find_chain, find_in,
  assign_chain, assign_in, unlink_chain, unlink_node,
}
use gredis.Storage.HashTable.Chain.{
  to_nat, All, equal_refl, IsHashed, occurs, match_iff, find_chain-none, occurs-assign,
  length-assign, find-assign, occurs-unlink, length-unlink, find-unlink_ne, All-assign, All-unlink,
  occurs-le_length,
}
use gredis.Storage.HashTable.Place.{
  home-lt, total, total-set, chain-set_self, chain-set_ne, IsAt, IsSound, look, many,
  IsHashed-chain, Holds, set-IsSound, many-some,
}

-- keys with other buckets are other keys
apart {ℓ} :
    {K : Type ℓ} ⦃k : HashKey K⦄ (q p : K) (n : ℕ)
    → home (k.hash p) n ≢ home (k.hash q) n
    → k.equal q p ≡ false
apart ⦃k⦄ q p n h = elim (Bool-cases (k.equal q p)) [
  | inl e ↦ absurd (h (ap (λ t. home (k.hash t) n) (sym ((k.equal_iff q p).0 e))))
  | inr e ↦ e
]

pub length-le_total {ℓ} :
    {A : Type ℓ} (bs : List (List A)) (i : ℕ) → i < length bs → length (get_or bs i []) ≤ total bs
length-le_total bs i h = omega (arith, total-set bs i [] h)

module _ {ℓ} {K V : Type ℓ} ⦃k : HashKey K⦄ where
  -- a new chain `c` for the bucket of `q`, known by what it does to the lookups and the numbers
  -- of nodes of the keys that belong to the bucket
  pub bucket-Holds :
      (t : Table K V) (i : ℕ) (c : List (Node K V)) (n : ℕ) (f : K → Option V) (m : K → ℕ)
      → IsSound t
      → i < length t.buckets
      → All (IsAt (length t.buckets) i) c
      → n + length (get_or t.buckets i []) ≡ t.count + length c
      → ((p : K) → home (k.hash p) (length t.buckets) ≡ i → find_chain p (k.hash p) c ≡ f p)
      → ((p : K) → home (k.hash p) (length t.buckets) ≡ i → occurs p c ≡ m p)
      → ((p : K) → home (k.hash p) (length t.buckets) ≢ i → look t p ≡ f p)
      → ((p : K) → home (k.hash p) (length t.buckets) ≢ i → many t p ≡ m p)
      → Holds (length t.buckets) f m (record { buckets = set t.buckets i c; count = n })
  unfolding look many
  bucket-Holds t i c n f m s lt a e inside inside_many outside outside_many = record {
    sound = set-IsSound t i c n s lt a e;
    width = length-set t.buckets i c;
    looks = λ p. elim (ℕ_discrete (home (k.hash p) (length t.buckets)) i) [
      | yes h ↦ rw (chain-set_self t.buckets i (k.hash p) c lt h) (inside p h)
      | no h ↦ rw (chain-set_ne t.buckets i (k.hash p) c h) (outside p h)
    ];
    manys = λ p. elim (ℕ_discrete (home (k.hash p) (length t.buckets)) i) [
      | yes h ↦ rw (chain-set_self t.buckets i (k.hash p) c lt h) (inside_many p h)
      | no h ↦ rw (chain-set_ne t.buckets i (k.hash p) c h) (outside_many p h)
    ];
  }

  module _ (t : Table K V) (s : IsSound t) (pos : 0 < length t.buckets) where
    at_home : (q : K) → home (k.hash q) (length t.buckets) < length t.buckets
    at_home q = home-lt _ _ pos

    -- a table in which something is found counts a node
    pub count-pos : (q : K) (x : V) → look t q ≡ some x → 0 < t.count
    unfolding many
    count-pos q x h = omega (
      arith,
      many-some t q x s h,
      occurs-le_length q (chain_of t.buckets (k.hash q)),
      length-le_total t.buckets _ (at_home q),
      s.counted,
    )

    pub push-Holds :
        (x : Node K V)
        → IsHashed x
        → Holds
            (length t.buckets)
            (λ p. if k.equal x.key p then some x.value else look t p)
            (λ p. to_nat (k.equal x.key p) + many t p)
            (push_node x t)
    unfolding push_node look many find_chain occurs
    push-Holds x h =
        let i = home x.hash (length t.buckets) in
        bucket-Holds t i (x ∷ chain_of t.buckets x.hash) (t.count + 1) _ _ s (home-lt _ _ pos)
          ((h, refl), s.placed i) (omega arith) (λ p e. rw (match_iff p x h, e) refl)
          (λ p e. rw e refl) (λ p e. rw (apart x.key p (length t.buckets) (rw h at e)) refl)
          (λ p e. rw (apart x.key p (length t.buckets) (rw h at e)) (omega arith))

    pub assign-Holds :
        (q : K) (v old : V)
        → look t q ≡ some old
        → Holds
            (length t.buckets)
            (λ p. if k.equal q p then some v else look t p)
            (many t)
            (assign_in t q (k.hash q) v)
    unfolding assign_in look many find_in
    assign-Holds q v old h =
        let c = chain_of t.buckets (k.hash q) in
        let hashed = IsHashed-chain t s (k.hash q) in
        bucket-Holds t _ (assign_chain q (k.hash q) v c) t.count _ _ s (at_home q)
          (All-assign _ (λ n w a. a) q (k.hash q) v c (s.placed _))
          (omega (arith, length-assign q (k.hash q) v c))
          (λ p e. rw (find-assign p q v c old hashed h, e) refl)
          (λ p e. rw (occurs-assign p q (k.hash q) v c, e) refl)
          (λ p e. rw (apart q p (length t.buckets) e) refl) (λ p e. refl)

    pub unlink-Holds :
        (q : K) (old : V)
        → look t q ≡ some old
        → many t q ≤ 1
        → Holds
            (length t.buckets)
            (λ p. if k.equal q p then none else look t p)
            (λ p. many t p - to_nat (k.equal q p))
            (unlink_node t q (k.hash q))
    unfolding unlink_node look many find_in
    unlink-Holds q old h once =
        let c = chain_of t.buckets (k.hash q) in
        let rest = unlink_chain q (k.hash q) c in
        let hashed = IsHashed-chain t s (k.hash q) in
        let one = rw (equal_refl q) at (occurs-unlink q q c old hashed h) in
        let gone : occurs q rest ≡ 0 = omega (arith, one, once) in
        bucket-Holds t _ rest (t.count - 1) _ _ s (at_home q)
          (All-unlink _ q (k.hash q) c (s.placed _))
          (omega (
            arith,
            length-unlink q (k.hash q) c old h,
            s.counted,
            length-le_total t.buckets _ (at_home q),
          ))
          (λ p e. elim (Bool-cases (k.equal q p)) [
            | inl same ↦
                rw (same, ← (k.equal_iff q p).0 same)
                  (find_chain-none q rest (All-unlink _ q (k.hash q) c hashed) gone)
            | inr other ↦ rw (other, find-unlink_ne p q c hashed other, e) refl
          ])
          (λ p e. rw e (omega (arith, occurs-unlink p q c old hashed h)))
          (λ p e. rw (apart q p (length t.buckets) e) refl)
          (λ p e. rw (apart q p (length t.buckets) e) (omega arith))

    pub drop-Holds :
        (i : ℕ)
        → i < length t.buckets
        → Holds
            (length t.buckets)
            (λ p. if home (k.hash p) (length t.buckets) == i then none else look t p)
            (λ p. if home (k.hash p) (length t.buckets) == i then 0 else many t p)
            (drop_bucket t i)
    unfolding drop_bucket find_chain occurs
    drop-Holds i lt =
        bucket-Holds t i [] (t.count - length (get_or t.buckets i [])) _ _ s lt tt
          (omega (arith, s.counted, length-le_total t.buckets i lt)) (λ p e. ground arith)
          (λ p e. ground arith) (λ p e. ground arith) (λ p e. ground arith)

  module _ where
    pub count-move_chain :
        (ns : List (Node K V)) (t : Table K V) → (move_chain ns t).count ≡ length ns + t.count
    unfolding move_chain push_node
    count-move_chain [] t = omega arith
    count-move_chain (x ∷ ns) t = omega (arith, count-move_chain ns (push_node x t))

    -- every node of a chain moved, in a table that holds no key of it
    pub move_chain-Holds :
        (ns : List (Node K V)) (t : Table K V)
        → IsSound t
        → 0 < length t.buckets
        → All IsHashed ns
        → ((p : K) → occurs p ns ≤ 1)
        → Holds
            (length t.buckets)
            (λ p. or_else (find_chain p (k.hash p) ns) (look t p))
            (λ p. occurs p ns + many t p)
            (move_chain ns t)
    unfolding move_chain find_chain occurs or_else
    move_chain-Holds [] t s pos a once = record {
      sound = s;
      width = refl;
      looks = λ p. refl;
      manys = λ p. omega arith;
    }
    move_chain-Holds (x ∷ ns) t s pos a once =
        let step = push-Holds t s pos x a.0 in
        let rest =
          move_chain-Holds ns (push_node x t) step.sound (rw step.width pos) a.1
            (λ p. omega (arith, once p)) in
        record {
          sound = rest.sound;
          width = rest.width ∙ step.width;
          looks = λ p.
              rw (match_iff p x a.0)
                (ground (arith, rest.looks p, step.looks p, once p, find_chain-none p ns a.1));
          manys = λ p. omega (arith, rest.manys p, step.manys p);
        }
