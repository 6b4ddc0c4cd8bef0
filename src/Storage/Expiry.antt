-- ===== src/Storage/Expiry.antt =====
-- src/storage/expiry.h: the queue of (deadline, key) pairs, least deadline first. The order of
-- entries with one deadline is left open by `std::priority_queue`; here the older one comes first.
pub mod Queue
use gredis.Base.Bytes.{Bytes}
use gredis.Base.Int.{ℤ, ltb_ℤ}
use gredis.Base.{List, [], ◌∷◌, if◌then◌else◌}
use gredis.Storage.HashTable.{HashTable, for_each}

pub record Entry : Type 0 where
  pub deadline_ms : ℤ
  pub key : Bytes

-- the entries in the order in which `top` and `pop` give them
abbrev pub ExpiryHeap : Type 0
ExpiryHeap = List Entry

unfoldable pub push : Entry → ExpiryHeap → ExpiryHeap
push e [] = e ∷ []
push e (x ∷ xs) = if ltb_ℤ e.deadline_ms x.deadline_ms then e ∷ x ∷ xs else x ∷ push e xs

pub push_all : List (Bytes × ℤ) → ExpiryHeap → ExpiryHeap
push_all [] heap = heap
push_all ((key, deadline) ∷ es) heap =
    push_all es (push (record { deadline_ms = deadline; key = key }) heap)

-- one entry for each live deadline
unfoldable pub rebuild_from : HashTable Bytes ℤ → ExpiryHeap
unfolding push_all
rebuild_from live_ttls = push_all (for_each live_ttls) []
