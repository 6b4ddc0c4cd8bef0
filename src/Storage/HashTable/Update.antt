-- ===== src/Storage/HashTable/Update.antt =====
-- `find`, `insert_or_assign`, `erase` and `take` of src/storage/hash_table.h, as changes to the
-- finite map that the table stands for.
use mathlib.Core.Option
use mathlib.Core.Option.{or_else}
use gredis.Base.{
  ℕ, zero, suc, ◌+◌, ◌-◌, ◌≤◌, ◌≡◌, ◌∙◌, refl, sym, ap, Bool, true, false, Option, none, some, List,
  [], ◌∷◌, arith, if◌then◌else◌, length, get_or, Option-cases, inl, inr, set,
}
use gredis.Storage.HashTable.{
  HashKey, Node, Table, HashTable, size, assign_in, assign, insert_node, unlink_node, unlink_from,
  unlink, push_node, assign_chain, unlink_chain,
}
use gredis.Storage.HashTable.Place.{look, many, Holds, many-none}
use gredis.Storage.HashTable.Writes.{push-Holds, assign-Holds}
use gredis.Storage.HashTable.Invariant.{IsValid, view, Models, no_table-Holds}

abbrev pub is_some {ℓ} : {A : Type ℓ} → Option A → Bool
is_some none = false
is_some (some a) = true

set_keeps_nothing {ℓ} :
    {A : Type ℓ} (bs : List (List A)) (h j : ℕ) (c : List A)
    → (get_or bs h [] ≡ [] → c ≡ [])
    → get_or bs j [] ≡ []
    → get_or (set bs h c) j [] ≡ []
set_keeps_nothing [] h j c f e = e
set_keeps_nothing (b ∷ bs) zero zero c f e = f e
set_keeps_nothing (b ∷ bs) zero (suc j) c f e = e
set_keeps_nothing (b ∷ bs) (suc h) zero c f e = e
set_keeps_nothing (b ∷ bs) (suc h) (suc j) c f e = set_keeps_nothing bs h j c f e

module _ {ℓ} {K V : Type ℓ} ⦃k : HashKey K⦄ where
  -- a map changed at one key
  abbrev pub update : (K → Option V) → K → Option V → K → Option V
  update f q o p = if k.equal q p then o else f p

  module _ (t : HashTable K V) (v : IsValid t) where
    -- the old table gives way to one that differs at a key
    pub old-Models :
        (u : Table K V) (f : K → Option V) (m : K → ℕ) (n : ℕ)
        → Holds (length t.old_table.buckets) f m u
        → ((p : K) → m p + many t.new_table p ≤ 1)
        → ((i j : ℕ)
            → t.rehash_idx ≡ some i
            → get_or t.old_table.buckets j [] ≡ []
            → get_or u.buckets j [] ≡ [])
        → u.count + t.new_table.count ≡ n
        → Models (λ p. or_else (f p) (look t.new_table p)) n (record t { old_table = u })
    unfolding view size
    old-Models u f m n h few kept e = record {
      valid = record {
        old_sound = h.sound;
        new_sound = v.new_sound;
        pos = rw h.width v.pos;
        once = λ p. omega (arith, h.manys p, few p);
        idle = v.idle;
        cursor = λ i at. rw h.width (v.cursor i at);
        room = v.room;
        moved = λ i at j lt. kept i j at (v.moved i at j lt);
      };
      reads = λ p. rw (h.looks p) refl;
      sized = e;
    }

    pub new-Models :
        (u : Table K V) (f : K → Option V) (m : K → ℕ) (n i : ℕ)
        → t.rehash_idx ≡ some i
        → Holds (length t.new_table.buckets) f m u
        → ((p : K) → many t.old_table p + m p ≤ 1)
        → t.old_table.count + u.count ≡ n
        → Models (λ p. or_else (look t.old_table p) (f p)) n (record t { new_table = u })
    unfolding view size
    new-Models u f m n i at h few e = record {
      valid = record {
        old_sound = v.old_sound;
        new_sound = h.sound;
        pos = v.pos;
        once = λ p. omega (arith, h.manys p, few p);
        idle = λ no_idx. absurd (cc);
        cursor = v.cursor;
        room = λ j e'. rw h.width (v.room j e');
        moved = v.moved;
      };
      reads = λ p. rw (h.looks p) refl;
      sized = e;
    }

    pub rehashing_of :
        (q : K) {x : V} → look t.new_table q ≡ some x → (i : ℕ) × (t.rehash_idx ≡ some i)
    rehashing_of q {x} h = elim (Option-cases t.rehash_idx) [
      | inl e ↦
          let z : look t.new_table q ≡ none =
            ap (λ s. look s q) (v.idle e) ∙ no_table-Holds.looks q in
          absurd (let w : none ≡ some x = sym z ∙ h in cc)
      | inr found ↦ found
    ]

    assign_old :
        (q : K) (x y : V)
        → look t.old_table q ≡ some y
        → assign t q x ≡ record t { old_table = assign_in t.old_table q (k.hash q) x }
    unfolding assign look
    assign_old q x y e = rw (e, assign) refl

    assign_new :
        (q : K) (x : V)
        → look t.old_table q ≡ none
        → assign t q x ≡ record t { new_table = assign_in t.new_table q (k.hash q) x }
    unfolding assign look
    assign_new q x e = rw (e, assign) refl

    assign_keeps_nothing :
        (q : K) (x : V) (j : ℕ)
        → get_or t.old_table.buckets j [] ≡ []
        → get_or (assign_in t.old_table q (k.hash q) x).buckets j [] ≡ []
    unfolding assign_in
    assign_keeps_nothing q x j e =
        set_keeps_nothing t.old_table.buckets _ j _ (λ n. rw n (unfold assign_chain in refl)) e

    count-assign : (s : Table K V) (q : K) (x : V) → (assign_in s q (k.hash q) x).count ≡ s.count
    unfolding assign_in
    count-assign s q x = refl

    -- a write to a key that is there
    pub assign-Models :
        (q : K) (x old : V)
        → view t q ≡ some old
        → Models (update (view t) q (some x)) (size t) (assign t q x)
    unfolding view or_else size
    assign-Models q x old h = elim (Option-cases (look t.old_table q)) [
      | inr (y, e) ↦
          let w = assign-Holds t.old_table v.old_sound v.pos q x y e in
          let m =
            old-Models _ _ _ (size t) w v.once (λ i j at. assign_keeps_nothing q x j)
              (unfold size in omega (arith, count-assign t.old_table q x)) in
          rw (assign_old q x y e)
            (record { valid = m.valid; reads = λ p. m.reads p ∙ ground arith; sized = m.sized })
      | inl e ↦
          let h' : look t.new_table q ≡ some old = ground arith in
          let (i, at) = rehashing_of q h' in
          let w = assign-Holds t.new_table v.new_sound (v.room i at) q x old h' in
          let m =
            new-Models _ _ _ (size t) i at w v.once
              (unfold size in omega (arith, count-assign t.new_table q x)) in
          rw (assign_new q x e) (record {
            valid = m.valid;
            reads = λ p.
                m.reads p ∙ ground (arith, k.equal_iff q p, ap (look t.old_table) {x = q} {y = p});
            sized = m.sized;
          })
    ]

    insert_old :
        (n : Node K V)
        → t.rehash_idx ≡ none
        → insert_node t n ≡ record t { old_table = push_node n t.old_table }
    unfolding insert_node
    insert_old n e = ground arith

    insert_new :
        (n : Node K V) (i : ℕ)
        → t.rehash_idx ≡ some i
        → insert_node t n ≡ record t { new_table = push_node n t.new_table }
    unfolding insert_node
    insert_new n i e = ground arith

    push-count : (n : Node K V) (s : Table K V) → (push_node n s).count ≡ s.count + 1
    unfolding push_node
    push-count n s = refl

    -- a new node goes into the new table while there is one
    pub insert_node-Models :
        (q : K) (x : V)
        → view t q ≡ none
        → Models
            (update (view t) q (some x))
            (size t + 1)
            (insert_node t (record { key = q; value = x; hash = k.hash q }))
    unfolding view or_else size
    insert_node-Models q x h =
        let n : Node K V = record { key = q; value = x; hash = k.hash q } in
        let old_none : look t.old_table q ≡ none = ground arith in
        let new_none : look t.new_table q ≡ none = ground arith in
        let old_zero = many-none t.old_table q v.old_sound old_none in
        let new_zero = many-none t.new_table q v.new_sound new_none in
        elim (Option-cases t.rehash_idx) [
          | inl e ↦
              let w = push-Holds t.old_table v.old_sound v.pos n refl in
              let m =
                old-Models _ _ _ (size t + 1) w (λ p. ground (arith, v.once p, k.equal_iff q p))
                  (λ i j at. absurd (let z : none ≡ some i = sym e ∙ at in cc))
                  (unfold size in omega (arith, push-count n t.old_table)) in
              rw (insert_old n e)
                (record { valid = m.valid; reads = λ p. m.reads p ∙ ground arith; sized = m.sized })
          | inr (i, e) ↦
              let w = push-Holds t.new_table v.new_sound (v.room i e) n refl in
              let m =
                new-Models _ _ _ (size t + 1) i e w (λ p. ground (arith, v.once p, k.equal_iff q p))
                  (unfold size in omega (arith, push-count n t.new_table)) in
              rw (insert_new n i e) (record {
                valid = m.valid;
                reads = λ p. m.reads p ∙ ground (arith, k.equal_iff q p);
                sized = m.sized;
              })
        ]

    pub unlink_keeps_nothing :
        (q : K) (j : ℕ)
        → get_or t.old_table.buckets j [] ≡ []
        → get_or (unlink_node t.old_table q (k.hash q)).buckets j [] ≡ []
    unfolding unlink_node
    unlink_keeps_nothing q j e =
        set_keeps_nothing t.old_table.buckets _ j _ (λ n. rw n (unfold unlink_chain in refl)) e

    pub unlink-count : (s : Table K V) (q : K) → (unlink_node s q (k.hash q)).count ≡ s.count - 1
    unfolding unlink_node
    unlink-count s q = refl

    pub unlink-none : (q : K) → view t q ≡ none → unlink t q ≡ none
    unfolding unlink unlink_from view look or_else Option.map
    unlink-none q h = ground arith

    pub unlink_old :
        (q : K) (x : V)
        → look t.old_table q ≡ some x
        → unlink t q ≡ some (x, record t { old_table = unlink_node t.old_table q (k.hash q) })
    unfolding unlink unlink_from look Option.map
    unlink_old q x e = ground arith

    pub unlink_new :
        (q : K) (x : V) (i : ℕ)
        → look t.old_table q ≡ none
        → look t.new_table q ≡ some x
        → t.rehash_idx ≡ some i
        → unlink t q ≡ some (x, record t { new_table = unlink_node t.new_table q (k.hash q) })
    unfolding unlink unlink_from look Option.map
    unlink_new q x i e h at = ground arith
