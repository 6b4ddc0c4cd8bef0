-- ===== src/Lib.antt =====
-- A verification library for gredis, a key-value server that speaks a part of the Redis protocol.
--
-- A handler of a command (src/commands) reads and changes one database (src/storage/database.h),
-- which rests on two hash tables (src/storage/hash_table.h): the values of the keys, and the
-- deadlines of those that have one. A queue of deadlines (src/storage/expiry.h) finds the keys that
-- are due. The hash table grows and shrinks by a rehash that moves a few buckets at each operation, of
-- which a caller is to see nothing, and neither of stale entries of the queue or of expired keys.
--
-- The files, with the code that each models:
--   Base, Base/*                lists, options, integers, bits and bytes that the others share
--   Util/Int64                  the overflow tests of src/storage/database.cpp and src/commands/*.cpp
--   Storage/HashTable           src/storage/hash_table.h: the definitions, in the order of the file
--   Storage/HashTable/Chain, Place, Writes, Update   lemmas on one chain, one table, a write, a map
--   Storage/HashTable/Invariant the invariant (IsValid), and the finite map of a table (view)
--   Storage/HashTable/Rehash, Operations, Visit      what the operations do to that map
--   Storage/HashTable/Strings   the tables with strings for keys
--   Storage/Expiry, Storage/Expiry/Queue   src/storage/expiry.h, and the order of its queue
--   Storage/Database            src/storage/database.h and database.cpp: the definitions
--   Storage/Database/Effects    the contents of the two tables after a method
--   Storage/Database/Contents   the invariant, and what a database shows to a caller at a time
--   Storage/Database/Methods, Ttl, Cycle, Load       the methods against that view
--   Storage/Database/Overwrite  a write through a pointer that a lookup returned
--   Storage/AvlTree             src/storage/avl_tree.h: the tree that the sorted sets rest on
--   Storage/AvlTree/Balance, Change, Rank   its balance, insert and erase, and select
--   Util/Parse                  src/util/parse.cpp: parse_int64, and std::to_string, its inverse
--   Protocol/Writer             src/protocol/resp_writer.cpp: the replies, as bytes
--   Protocol/Outcome, Protocol/Parser   src/protocol/resp_parser.cpp: the parser of requests
--   Protocol/Parser/Stream, RoundTrip   input that comes in pieces; requests as clients write them
--   Commands/Value              src/storage/value.h and value.cpp
--   Commands/Text               what the handlers share: option names, error texts
--   Commands/Strings, Commands/Strings/*   src/commands/cmd_string.cpp, and what its handlers show
--   Commands/Keys, Commands/Keys/*         src/commands/cmd_keys.cpp, and what its handlers show
--   Commands/Held, Commands/Held/Laws   the shapes that the handlers of the aggregate types share
--   Commands/Lists, Commands/Lists/*       src/commands/cmd_list.cpp, and what its handlers show
--   Commands/Tables, Commands/Tables/*     the loops over the hash tables that values hold
--   Commands/Hashes, Commands/Hashes/*     src/commands/cmd_hash.cpp, and what its handlers show
--   Commands/Sets, Commands/Sets/*         src/commands/cmd_set.cpp, and what its handlers show
--   Commands/Dispatcher, Commands/Dispatcher/*   src/commands/dispatcher.cpp, and what it answers
--   Util/Crc32                  src/util/crc32.cpp
--   Persistence/Codec           src/persistence/snapshot.cpp: its numbers and strings
--   Persistence/Snapshot        src/persistence/snapshot.cpp: payloads, records, the whole file
--   Persistence/Snapshot/Payload, Records, Whole   what is written is read back
--   Persistence/Snapshot/Fuel   the loop over the records ends
--   Net/Buffer, Net/Buffer/Queue   src/net/buffer.h and buffer.cpp, as a queue of bytes
--   Config, Config/Bounds       src/config.h and config.cpp, and what an accepted configuration holds
-- An operation takes the object and returns its result with the object that it leaves; a pointer to a
-- value is the value, and a write through it is an operation of its own (assign, write_value).
--
-- A database shows, at a time, each key whose deadline has not passed, with its value and deadline
-- (Contents.entry). A theorem on a method says what is shown at every time from its `now_ms` on, so
-- that erasing a key that has expired is no change.
--
-- Bounds and choices. int64_t is an integer with its range as a hypothesis where the code depends on
-- it; where the code adds or subtracts without a guard (pttl, for_each_for_snapshot, TTL) the result
-- is wrapped to 64 bits. size_t counts objects in memory and is not bounded. The outer loop of
-- rehash_step runs for at most as many rounds as the old table has buckets from the cursor on, and
-- so does `migrate`; all other loops are recursion on the list that they walk. The queue is the list
-- of its entries in the order in which they come out; std::priority_queue leaves the order of equal
-- deadlines open, and the list has the older one first. The readings of the wall clock in
-- run_active_expiration_cycle are an argument (`late`), and so is the time (`now_ms`). The values of
-- the keys are a type parameter of the database.
--
-- A handler returns the bytes of its reply with the database; the arguments are a list, whose length
-- the dispatcher has checked. The sorted sets are a type parameter of the values. `digits` runs on
-- fuel above its number, which is enough because each round divides by ten; `decode_records` runs on the
-- length of its input, since each record takes a byte at least.
--
-- `recv` is a write of bytes at the mark of the buffer, which reaches no further than its string.
--
-- A pointer to a node of a tree is the key of that node, and the walk up by parent pointers is the
-- return from a recursive call.
--
-- Not modelled: random_entry (it draws from a generator); the moves and the freeing of memory; what
-- runs on a worker thread; doubles; SPOP, SINTER of sets with a key named twice, the sorted sets and
-- their commands, rank, next and prev of the tree, the event loop and the connections, and the file
-- operations of the snapshot.
pub mod Base
pub mod Util
pub mod Storage
pub mod Protocol
pub mod Commands
pub mod Persistence
pub mod Net
pub mod Config
