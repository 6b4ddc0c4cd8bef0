-- ===== src/Storage/HashTable.antt =====
-- src/storage/hash_table.h: the hash table that rehashes a few buckets at a time.
-- A chain `Node* -> next` is a list of nodes, and a pointer to a node's value is the value with the
-- place it came from: a write through it is `assign_in`. The counts are plain numbers, since a
-- `size_t` cannot wrap before memory runs out, and `IsValid` shows that no subtraction goes below 0.
-- `rehash_idx_` is an option: `none` stands for -1.
pub mod Chain
pub mod Place
pub mod Writes
pub mod Invariant
pub mod Rehash
pub mod Update
pub mod Operations
pub mod Visit
pub mod Strings
mod Examples
use Prim.Native.Nat.{bit_and, bit_xor, max}
use mathlib.Core.Option
use gredis.Base.{
  ℕ, zero, suc, ◌+◌, ◌-◌, ◌*◌, ◌/◌, ◌%◌, ◌^◌, ◌≤◌, ◌<◌, ◌≡◌, ◌↔◌, Bool, true, false, not, ◌&&◌,
  ◌||◌, Option, none, some, List, [], ◌∷◌, ◌++◌, ltb, leb, ◌==◌, if◌then◌else◌, length, get_or, set,
  replicate,
}

-- The template parameters `Hash` and `Eq`. Every table of the sources has strings for keys, and
-- compares them by `==`.
pub record HashKey {ℓ} (K : Type ℓ) : Type ℓ where
  pub hash : K → ℕ
  pub equal : K → K → Bool
  pub equal_iff : (a b : K) → (equal a b ≡ true) ↔ (a ≡ b)

pub record Node {ℓ} (K V : Type ℓ) : Type ℓ where
  pub key : K
  pub value : V
  pub hash : ℕ

-- `Table`: a vector of chains, and the number of nodes
pub record Table {ℓ} (K V : Type ℓ) : Type ℓ where
  pub buckets : List (List (Node K V))
  pub count : ℕ

pub record HashTable {ℓ} (K V : Type ℓ) : Type ℓ where
  pub old_table : Table K V
  pub new_table : Table K V
  pub rehash_idx : Option ℕ

-- FNV-1a over the bytes of a string
unfoldable pub fnv_hash_from : ℕ → List ℕ → ℕ
fnv_hash_from h [] = h
fnv_hash_from h (c ∷ s) = fnv_hash_from (bit_xor h c * 0x100000001b3 % 2 ^ 64) s

unfoldable pub fnv_hash : List ℕ → ℕ
unfolding fnv_hash_from
fnv_hash s = fnv_hash_from 0xcbf29ce484222325 s

abbrev pub initial_buckets : ℕ
initial_buckets = 4

-- `h & (buckets.size() - 1)`
pub home : ℕ → ℕ → ℕ
home h n = bit_and h (n - 1)

module _ {ℓ} {K V : Type ℓ} where
  -- the chain that the index of `h` names
  abbrev pub chain_of : List (List (Node K V)) → ℕ → List (Node K V)
  chain_of bs h = get_or bs (home h (length bs)) []

  abbrev pub no_table : Table K V
  no_table = record { buckets = []; count = 0 }

  abbrev pub fresh_table : ℕ → Table K V
  fresh_table n = record { buckets = replicate n []; count = 0 }

  -- the constructor, and `reset_to_empty`
  unfoldable pub empty_table : HashTable K V
  unfolding home
  empty_table = record {
    old_table = fresh_table initial_buckets;
    new_table = no_table;
    rehash_idx = none;
  }

  abbrev pub is_rehashing : HashTable K V → Bool
  is_rehashing t = elim t.rehash_idx [ none ↦ false | some _ ↦ true ]

  unfoldable pub size : HashTable K V → ℕ
  size t = t.old_table.count + t.new_table.count

  unfoldable pub is_empty : HashTable K V → Bool
  unfolding size
  is_empty t = size t == 0

  unfoldable pub bucket_count : HashTable K V → ℕ
  bucket_count t =
      length t.old_table.buckets + (if is_rehashing t then length t.new_table.buckets else 0)

  -- `clear`: the nodes are freed, and the table is as new
  unfoldable pub clear : HashTable K V → HashTable K V
  unfolding empty_table
  clear t = empty_table

  -- a node linked in at the head of its chain
  pub push_node : Node K V → Table K V → Table K V
  push_node n t = record {
    buckets = set t.buckets (home n.hash (length t.buckets)) (n ∷ chain_of t.buckets n.hash);
    count = t.count + 1;
  }

  -- the inner loop of `rehash_step`: every node of one chain, from its head
  pub move_chain : List (Node K V) → Table K V → Table K V
  move_chain [] t = t
  move_chain (n ∷ ns) t = move_chain ns (push_node n t)

  pub drop_bucket : Table K V → ℕ → Table K V
  drop_bucket t i = record {
    buckets = set t.buckets i [];
    count = t.count - length (get_or t.buckets i []);
  }

  -- one round of the outer loop on a bucket that holds nodes
  pub migrate_bucket : HashTable K V → ℕ → HashTable K V
  migrate_bucket t i = record {
    old_table = drop_bucket t.old_table i;
    new_table = move_chain (get_or t.old_table.buckets i []) t.new_table;
    rehash_idx = some (suc i);
  }

  -- the outer loop; `rounds` is the number of old buckets from the cursor on, the most it can run
  pub migrate : ℕ → ℕ → ℕ → HashTable K V → ℕ → HashTable K V
  migrate zero budget skips t i = t
  migrate (suc rounds) budget skips t i =
      let skipped =
        migrate rounds budget (skips - 1) (record t { rehash_idx = some (suc i) }) (suc i) in
      let moved = migrate rounds (budget - 1) skips (migrate_bucket t i) (suc i) in
      if ltb 0 budget && ltb 0 skips
      then elim (get_or t.old_table.buckets i []) [ [] ↦ skipped | _ ∷ _ ↦ moved ]
      else t

  -- the end of `rehash_step`: once the cursor is past the old table, the new one replaces it
  pub finish : HashTable K V → HashTable K V
  finish t = elim t.rehash_idx [
    | none ↦ t
    | some i ↦
        if leb (length t.old_table.buckets) i
        then record { old_table = t.new_table; new_table = no_table; rehash_idx = none }
        else t
  ]

  unfoldable pub rehash_step : ℕ → HashTable K V → HashTable K V
  unfolding push_node move_chain drop_bucket migrate_bucket migrate finish home
  rehash_step budget t = elim t.rehash_idx [
    | none ↦ t
    | some i ↦
        if budget == 0
        then t
        else finish (migrate (length t.old_table.buckets - i) budget (10 * budget) t i)
  ]

  unfoldable pub maybe_rehash_step : HashTable K V → HashTable K V
  unfolding rehash_step
  maybe_rehash_step t = if is_rehashing t then rehash_step 1 t else t

  unfoldable pub start_rehash : ℕ → HashTable K V → HashTable K V
  start_rehash n t = record t {
    new_table = fresh_table (max n initial_buckets);
    rehash_idx = some 0;
  }

  unfoldable pub maybe_start_shrink : HashTable K V → HashTable K V
  unfolding start_rehash
  maybe_start_shrink t =
      let n = length t.old_table.buckets in
      let target = max (n / 2) initial_buckets in
      if is_rehashing t
      then t
      else if leb n initial_buckets
      then t
      else if ltb (t.old_table.count * 10) n
      then if ltb target n then start_rehash target t else t
      else t

  -- `for_each`: the entries in the order in which they are visited
  pub entries_of : List (Node K V) → List (K × V)
  entries_of [] = []
  entries_of (n ∷ ns) = (n.key, n.value) ∷ entries_of ns

  pub visit_buckets : List (List (Node K V)) → List (K × V)
  visit_buckets [] = []
  visit_buckets (c ∷ cs) = entries_of c ++ visit_buckets cs

  unfoldable pub for_each : HashTable K V → List (K × V)
  unfolding entries_of visit_buckets
  for_each t =
      visit_buckets t.old_table.buckets
      ++ (if is_rehashing t then visit_buckets t.new_table.buckets else [])

module _ {ℓ} {K V : Type ℓ} ⦃k : HashKey K⦄ where
  -- the test in the loops of `find_in` and `unlink_from`
  abbrev pub is_match : K → ℕ → Node K V → Bool
  is_match q h n = n.hash == h && k.equal n.key q

  pub find_chain : K → ℕ → List (Node K V) → Option V
  find_chain q h [] = none
  find_chain q h (n ∷ ns) = if is_match q h n then some n.value else find_chain q h ns

  -- an empty vector has no chain, so there is nothing to find in it
  pub find_in : Table K V → K → ℕ → Option V
  find_in t q h = find_chain q h (chain_of t.buckets h)

  pub assign_chain : K → ℕ → V → List (Node K V) → List (Node K V)
  assign_chain q h v [] = []
  assign_chain q h v (n ∷ ns) =
      if is_match q h n then record n { value = v } ∷ ns else n ∷ assign_chain q h v ns

  -- a write through the pointer to the node that `find_in` returned
  pub assign_in : Table K V → K → ℕ → V → Table K V
  assign_in t q h v = record t {
    buckets = set t.buckets (home h (length t.buckets)) (assign_chain q h v (chain_of t.buckets h));
  }

  pub unlink_chain : K → ℕ → List (Node K V) → List (Node K V)
  unlink_chain q h [] = []
  unlink_chain q h (n ∷ ns) = if is_match q h n then ns else n ∷ unlink_chain q h ns

  -- `*link = n->next; --t.count`
  pub unlink_node : Table K V → K → ℕ → Table K V
  unlink_node t q h = record {
    buckets = set t.buckets (home h (length t.buckets)) (unlink_chain q h (chain_of t.buckets h));
    count = t.count - 1;
  }

  -- the node's value, and the table without the node
  pub unlink_from : Table K V → K → ℕ → Option (V × Table K V)
  unlink_from t q h = Option.map (λ v. (v, unlink_node t q h)) (find_in t q h)

  -- `find` on a constant table
  unfoldable pub find_const : HashTable K V → K → Option V
  unfolding find_chain find_in home
  find_const t q = elim (find_in t.old_table q (k.hash q)) [
    | some v ↦ some v
    | none ↦ if is_rehashing t then find_in t.new_table q (k.hash q) else none
  ]

  -- `find` on any other: it moves the rehash on first
  unfoldable pub find : HashTable K V → K → Option V × HashTable K V
  find t q = let t' = maybe_rehash_step t in (find_const t' q, t')

  -- `++dest.count` after the new node went in at the head of its chain
  pub insert_node : HashTable K V → Node K V → HashTable K V
  insert_node t n =
      if is_rehashing t
      then record t { new_table = push_node n t.new_table }
      else record t { old_table = push_node n t.old_table }

  pub maybe_start_growth : HashTable K V → HashTable K V
  maybe_start_growth t =
      let n = length t.old_table.buckets in
      if not (is_rehashing t) && leb n (t.old_table.count + 1) then start_rehash (n * 2) t else t

  -- a write through the pointer that `find` returned; nothing where it returned none
  pub assign : HashTable K V → K → V → HashTable K V
  assign t q v = elim (find_in t.old_table q (k.hash q)) [
    | some _ ↦ record t { old_table = assign_in t.old_table q (k.hash q) v }
    | none ↦ record t { new_table = assign_in t.new_table q (k.hash q) v }
  ]

  unfoldable pub insert_or_assign : HashTable K V → K → V → HashTable K V × Bool
  insert_or_assign t q v =
      let t' = maybe_rehash_step t in
      elim (find_const t' q) [
        | some _ ↦ (assign t' q v, false)
        | none ↦ (
          insert_node (maybe_start_growth t') (record { key = q; value = v; hash = k.hash q }),
          true,
        )
      ]

  -- `unlink_from` on the old table, and on the new one if that had nothing
  pub unlink : HashTable K V → K → Option (V × HashTable K V)
  unlink t q = elim (unlink_from t.old_table q (k.hash q)) [
    | some (v, old) ↦ some (v, record t { old_table = old })
    | none ↦
        if is_rehashing t
        then elim (unlink_from t.new_table q (k.hash q)) [
          | some (v, new) ↦ some (v, record t { new_table = new })
          | none ↦ none
        ]
        else none
  ]

  unfoldable pub take : HashTable K V → K → Option V × HashTable K V
  take t q =
      let t' = maybe_rehash_step t in
      elim (unlink t' q) [ none ↦ (none, t') | some (v, u) ↦ (some v, maybe_start_shrink u) ]

  unfoldable pub erase : HashTable K V → K → Bool × HashTable K V
  erase t q =
      let t' = maybe_rehash_step t in
      elim (unlink t' q) [ none ↦ (false, t') | some (_, u) ↦ (true, maybe_start_shrink u) ]

-- what a test computes with
unfoldable pub hash_table_code : Unit {0}
unfolding find_chain find_in find_const maybe_rehash_step find assign_chain assign_in assign
    start_rehash push_node maybe_start_growth insert_node insert_or_assign home unlink_chain
    unlink_node unlink_from unlink maybe_start_shrink take erase Option.map
hash_table_code = tt
