-- ===== src/Storage/HashTable/Strings.antt =====
-- The key of every table of the sources: strings, with `FnvHash` and `TransparentEqual` of
-- src/storage/hash_table.h.
use gredis.Base.Bytes.{Bytes, bytes_eq, bytes_eq_iff}
use gredis.Storage.HashTable.{HashKey, fnv_hash}

instance abbrev pub string_key : HashKey Bytes
string_key = record { hash = fnv_hash; equal = bytes_eq; equal_iff = bytes_eq_iff }
