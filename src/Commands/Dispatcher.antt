-- ===== src/Commands/Dispatcher.antt =====
-- src/commands/dispatcher.h and dispatcher.cpp. The handlers are an argument of `dispatch`: `run`
-- says what the handler of a command does with argv and the state of the server, and returns what it
-- appends to the output buffer.
pub mod Table
pub mod Answers
mod Examples
use gredis.Base.Bytes.{Bytes, codes, bytes_eq}
use gredis.Base.Int.{ℤ, pos, negsuc}
use gredis.Base.{
  ℕ, ◌+◌, Bool, Option, none, some, List, [], ◌∷◌, ◌++◌, leb, ◌==◌, if◌then◌else◌, length,
}
use gredis.Commands.Text.{to_lower}
use gredis.Protocol.Writer.{error}

-- the handlers, `cmd_ping` and so on
pub data Handler : Type 0 where
  run_ping : Handler
  run_echo : Handler
  run_quit : Handler
  run_command : Handler
  run_config : Handler
  run_hello : Handler
  run_dbsize : Handler
  run_flushall : Handler
  run_get : Handler
  run_set : Handler
  run_mget : Handler
  run_mset : Handler
  run_incr : Handler
  run_decr : Handler
  run_incrby : Handler
  run_decrby : Handler
  run_append : Handler
  run_strlen : Handler
  run_del : Handler
  run_unlink : Handler
  run_exists : Handler
  run_type : Handler
  run_expire : Handler
  run_pexpire : Handler
  run_expireat : Handler
  run_pexpireat : Handler
  run_ttl : Handler
  run_pttl : Handler
  run_persist : Handler
  run_hset : Handler
  run_hget : Handler
  run_hmget : Handler
  run_hdel : Handler
  run_hexists : Handler
  run_hlen : Handler
  run_hgetall : Handler
  run_hkeys : Handler
  run_hvals : Handler
  run_hincrby : Handler
  run_lpush : Handler
  run_rpush : Handler
  run_lpop : Handler
  run_rpop : Handler
  run_llen : Handler
  run_lrange : Handler
  run_lindex : Handler
  run_sadd : Handler
  run_srem : Handler
  run_sismember : Handler
  run_smembers : Handler
  run_scard : Handler
  run_spop : Handler
  run_sinter : Handler
  run_zadd : Handler
  run_zrem : Handler
  run_zscore : Handler
  run_zincrby : Handler
  run_zcard : Handler
  run_zrank : Handler
  run_zrevrank : Handler
  run_zrange : Handler
  run_zrevrange : Handler
  run_zrangebyscore : Handler
  run_zcount : Handler
  run_zpopmin : Handler
  run_save : Handler
  run_bgsave : Handler
  run_lastsave : Handler

pub record CommandSpec : Type 0 where
  pub name : Bytes
  pub handler : Handler
  pub arity : ℤ

abbrev command_spec : Bytes → Handler → ℤ → CommandSpec
command_spec name handler arity = record { name = name; handler = handler; arity = arity }

-- `kCommands`
unfoldable pub commands : List CommandSpec
commands =
    command_spec (codes "ping") run_ping (negsuc 0)
    ∷ command_spec (codes "echo") run_echo (pos 2)
    ∷ command_spec (codes "quit") run_quit (pos 1)
    ∷ command_spec (codes "command") run_command (negsuc 0)
    ∷ command_spec (codes "config") run_config (negsuc 1)
    ∷ command_spec (codes "hello") run_hello (negsuc 0)
    ∷ command_spec (codes "dbsize") run_dbsize (pos 1)
    ∷ command_spec (codes "flushall") run_flushall (negsuc 0)
    ∷ command_spec (codes "get") run_get (pos 2)
    ∷ command_spec (codes "set") run_set (negsuc 2)
    ∷ command_spec (codes "mget") run_mget (negsuc 1)
    ∷ command_spec (codes "mset") run_mset (negsuc 2)
    ∷ command_spec (codes "incr") run_incr (pos 2)
    ∷ command_spec (codes "decr") run_decr (pos 2)
    ∷ command_spec (codes "incrby") run_incrby (pos 3)
    ∷ command_spec (codes "decrby") run_decrby (pos 3)
    ∷ command_spec (codes "append") run_append (pos 3)
    ∷ command_spec (codes "strlen") run_strlen (pos 2)
    ∷ command_spec (codes "del") run_del (negsuc 1)
    ∷ command_spec (codes "unlink") run_unlink (negsuc 1)
    ∷ command_spec (codes "exists") run_exists (negsuc 1)
    ∷ command_spec (codes "type") run_type (pos 2)
    ∷ command_spec (codes "expire") run_expire (pos 3)
    ∷ command_spec (codes "pexpire") run_pexpire (pos 3)
    ∷ command_spec (codes "expireat") run_expireat (pos 3)
    ∷ command_spec (codes "pexpireat") run_pexpireat (pos 3)
    ∷ command_spec (codes "ttl") run_ttl (pos 2)
    ∷ command_spec (codes "pttl") run_pttl (pos 2)
    ∷ command_spec (codes "persist") run_persist (pos 2)
    ∷ command_spec (codes "hset") run_hset (negsuc 3)
    ∷ command_spec (codes "hget") run_hget (pos 3)
    ∷ command_spec (codes "hmget") run_hmget (negsuc 2)
    ∷ command_spec (codes "hdel") run_hdel (negsuc 2)
    ∷ command_spec (codes "hexists") run_hexists (pos 3)
    ∷ command_spec (codes "hlen") run_hlen (pos 2)
    ∷ command_spec (codes "hgetall") run_hgetall (pos 2)
    ∷ command_spec (codes "hkeys") run_hkeys (pos 2)
    ∷ command_spec (codes "hvals") run_hvals (pos 2)
    ∷ command_spec (codes "hincrby") run_hincrby (pos 4)
    ∷ command_spec (codes "lpush") run_lpush (negsuc 2)
    ∷ command_spec (codes "rpush") run_rpush (negsuc 2)
    ∷ command_spec (codes "lpop") run_lpop (negsuc 1)
    ∷ command_spec (codes "rpop") run_rpop (negsuc 1)
    ∷ command_spec (codes "llen") run_llen (pos 2)
    ∷ command_spec (codes "lrange") run_lrange (pos 4)
    ∷ command_spec (codes "lindex") run_lindex (pos 3)
    ∷ command_spec (codes "sadd") run_sadd (negsuc 2)
    ∷ command_spec (codes "srem") run_srem (negsuc 2)
    ∷ command_spec (codes "sismember") run_sismember (pos 3)
    ∷ command_spec (codes "smembers") run_smembers (pos 2)
    ∷ command_spec (codes "scard") run_scard (pos 2)
    ∷ command_spec (codes "spop") run_spop (negsuc 1)
    ∷ command_spec (codes "sinter") run_sinter (negsuc 1)
    ∷ command_spec (codes "zadd") run_zadd (negsuc 3)
    ∷ command_spec (codes "zrem") run_zrem (negsuc 2)
    ∷ command_spec (codes "zscore") run_zscore (pos 3)
    ∷ command_spec (codes "zincrby") run_zincrby (pos 4)
    ∷ command_spec (codes "zcard") run_zcard (pos 2)
    ∷ command_spec (codes "zrank") run_zrank (pos 3)
    ∷ command_spec (codes "zrevrank") run_zrevrank (pos 3)
    ∷ command_spec (codes "zrange") run_zrange (negsuc 3)
    ∷ command_spec (codes "zrevrange") run_zrevrange (negsuc 3)
    ∷ command_spec (codes "zrangebyscore") run_zrangebyscore (negsuc 3)
    ∷ command_spec (codes "zcount") run_zcount (pos 4)
    ∷ command_spec (codes "zpopmin") run_zpopmin (negsuc 1)
    ∷ command_spec (codes "save") run_save (pos 1)
    ∷ command_spec (codes "bgsave") run_bgsave (pos 1)
    ∷ command_spec (codes "lastsave") run_lastsave (pos 1)
    ∷ []

-- `emplace` keeps the first entry of a name
unfoldable pub find_spec : Bytes → List CommandSpec → Option CommandSpec
find_spec name [] = none
find_spec name (spec ∷ specs) =
    let rest = find_spec name specs in if bytes_eq spec.name name then some spec else rest

unfoldable pub lowered : Bytes → Bytes
lowered [] = []
lowered (c ∷ s) = to_lower c ∷ lowered s

abbrev pub max_command_name_len : ℕ
max_command_name_len = 15

-- the entry of a name, which is not looked up when it is too long
unfoldable pub find_command : Bytes → Option CommandSpec
find_command raw_name =
    if leb (length raw_name) max_command_name_len
    then find_spec (lowered raw_name) commands
    else none

unfoldable pub arity_ok : ℤ → ℕ → Bool
arity_ok (pos n) argc = argc == n
arity_ok (negsuc n) argc = leb (n + 1) argc

-- the arguments in quotes, each with a comma behind it
unfoldable pub quoted : List Bytes → Bytes
quoted [] = []
quoted (a ∷ args) = codes "'" ++ a ++ codes "', " ++ quoted args

abbrev pub unknown_command : Bytes → List Bytes → Bytes
unknown_command name args =
    error (
      codes "ERR unknown command '" ++ name ++ codes "', with args beginning with: " ++ quoted args)

abbrev pub wrong_arity : Bytes → Bytes
wrong_arity name = error (codes "ERR wrong number of arguments for '" ++ name ++ codes "' command")

-- what follows the lookup
unfoldable pub answer {ℓ} :
    {S : Type ℓ}
    → (Handler → List Bytes → S → Bytes × S)
    → Bytes
    → List Bytes
    → S
    → Option CommandSpec
    → Bytes × S
answer run name args s none = (unknown_command name args, s)
answer run name args s (some spec) =
    if arity_ok spec.arity (length (name ∷ args))
    then run spec.handler (name ∷ args) s
    else (wrong_arity name, s)

-- argv is the name and `args`: the server drops a command without a name before
unfoldable pub dispatch {ℓ} :
    {S : Type ℓ} → (Handler → List Bytes → S → Bytes × S) → Bytes → List Bytes → S → Bytes × S
dispatch run name args s = answer run name args s (find_command name)
