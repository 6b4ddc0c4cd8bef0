-- ===== src/Commands/Hashes/Fields.antt =====
-- HSET and HDEL, of src/commands/cmd_hash.cpp, as changes of the finite map from fields to values
-- that a hash stands for.
use gredis.Base.Bytes.{Bytes}
use gredis.Base.Int.{ℤ}
use gredis.Base.{List, [], ◌∷◌, drop}
use gredis.Commands.Hashes.{hash_kind}
use gredis.Commands.Tables.Handlers.{table_at}
use gredis.Commands.Value.{Value}
use gredis.Storage.Database.{Database}
use gredis.Storage.HashTable.Invariant
use gredis.Storage.HashTable.Strings.{string_key}
use gredis.Storage.HashTable.{HashTable}

-- every other argument, from the first on
abbrev pub alternate : List Bytes → List Bytes
alternate [] = []
alternate (x ∷ []) = x ∷ []
alternate (x ∷ y ∷ l) = x ∷ alternate l

abbrev pub zipped : List Bytes → List Bytes → List (Bytes × Bytes)
zipped [] ys = []
zipped (x ∷ xs) [] = []
zipped (x ∷ xs) (y ∷ ys) = (x, y) ∷ zipped xs ys

-- the first argument with the second, the third with the fourth, and so on
abbrev pub assignments : List Bytes → List (Bytes × Bytes)
assignments l = zipped (alternate l) (alternate (drop 1 l))

module _ {Z : Type 0} where
  -- the hash at a key, an empty one if there is none
  abbrev pub hash_at : Database (Value Z) → ℤ → Bytes → HashTable Bytes Bytes
  hash_at db now key = table_at (hash_kind {Z = Z}) db now key
