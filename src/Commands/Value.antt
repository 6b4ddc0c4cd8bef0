-- ===== src/Commands/Value.antt =====
-- src/storage/value.h and value.cpp. The sorted sets are a type parameter of the values; what
-- `value_element_count` needs of them is their size.
use gredis.Base.Bytes.{Bytes, codes}
use gredis.Base.{ℕ, List, length}
use gredis.Storage.HashTable
use gredis.Storage.HashTable.{HashTable}

pub data Empty : Type 0 where
  empty : Empty

pub data Value (Z : Type 0) : Type 0 where
  string_value : Bytes → Value Z
  hash_value : HashTable Bytes Bytes → Value Z
  list_value : List Bytes → Value Z
  set_value : HashTable Bytes Empty → Value Z
  zset_value : Z → Value Z

unfoldable pub type_name : {Z : Type 0} → Value Z → Bytes
type_name (string_value s) = codes "string"
type_name (hash_value h) = codes "hash"
type_name (list_value l) = codes "list"
type_name (set_value s) = codes "set"
type_name (zset_value z) = codes "zset"

unfoldable pub value_element_count : {Z : Type 0} → (Z → ℕ) → Value Z → ℕ
value_element_count zset_size (string_value s) = 1
value_element_count zset_size (hash_value h) = HashTable.size h
value_element_count zset_size (list_value l) = length l
value_element_count zset_size (set_value s) = HashTable.size s
value_element_count zset_size (zset_value z) = zset_size z
