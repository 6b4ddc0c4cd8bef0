-- ===== src/Config.antt =====
-- src/config.h and config.cpp: the options of the program.
pub mod Bounds
mod Examples
use gredis.Base.Bytes.{Bytes, codes, bytes_eq}
use gredis.Base.Int.{ℤ, pos, negsuc, pos_part, neg_part, ltb_ℤ}
use gredis.Base.{
  ℕ, ◌+◌, ◌-◌, ◌*◌, ◌%◌, ◌^◌, ◌⊎◌, inl, inr, ◌||◌, Option, none, some, List, [], ◌∷◌, ◌++◌, ltb,
  if◌then◌else◌,
}
use gredis.Util.Parse.{parse_int64}

pub data LogLevel : Type 0 where
  debug_level : LogLevel
  info_level : LogLevel
  warn_level : LogLevel
  error_level : LogLevel

pub record Config : Type 0 where
  pub bind : Bytes
  pub port : ℕ
  pub maxclients : ℤ
  pub idle_timeout_sec : ℤ
  pub threads : ℤ
  pub snapshot_path : Bytes
  pub log_level : LogLevel
  pub output_soft_limit_bytes : ℕ
  pub output_hard_limit_bytes : ℕ
  pub max_query_buf : ℕ

abbrev pub default_config : Config
default_config = record {
  bind = codes "127.0.0.1";
  port = 6380;
  maxclients = pos 10000;
  idle_timeout_sec = pos 0;
  threads = pos 2;
  snapshot_path = [];
  log_level = info_level;
  output_soft_limit_bytes = 1024 * 1024;
  output_hard_limit_bytes = 256 * 1024 * 1024;
  max_query_buf = 128 * 1024 * 1024;
}

pub data ParseResult : Type 0 where
  accepted : Config → ParseResult
  help_requested : ParseResult
  rejected : Bytes → ParseResult

-- the options that take a value
pub data Flag : Type 0 where
  bind_flag : Flag
  port_flag : Flag
  maxclients_flag : Flag
  idle_flag : Flag
  threads_flag : Flag
  snapshot_flag : Flag
  log_flag : Flag
  soft_flag : Flag
  hard_flag : Flag
  query_flag : Flag

unfoldable pub flag_of : Bytes → Option Flag
flag_of name =
    if bytes_eq name (codes "--bind")
    then some bind_flag
    else if bytes_eq name (codes "--port")
    then some port_flag
    else if bytes_eq name (codes "--maxclients")
    then some maxclients_flag
    else if bytes_eq name (codes "--idle-timeout-sec")
    then some idle_flag
    else if bytes_eq name (codes "--threads")
    then some threads_flag
    else if bytes_eq name (codes "--snapshot")
    then some snapshot_flag
    else if bytes_eq name (codes "--log-level")
    then some log_flag
    else if bytes_eq name (codes "--client-output-soft-limit")
    then some soft_flag
    else if bytes_eq name (codes "--client-output-hard-limit")
    then some hard_flag
    else if bytes_eq name (codes "--max-query-buf")
    then some query_flag
    else none

-- a `long long` that takes up the whole value, as in `parse_int64`
abbrev pub strict_parse_int : Bytes → Option ℤ
strict_parse_int value = parse_int64 value

abbrev pub unless_less : ℤ → ℤ → Option ℤ
unless_less least n = if ltb_ℤ n least then none else some n

abbrev pub unless_outside : ℤ → ℤ → ℤ → Option ℤ
unless_outside least most n = if ltb_ℤ n least || ltb_ℤ most n then none else some n

-- a number of `least` at least, and one of `most` at most as well
unfoldable pub at_least : ℤ → Bytes → Option ℤ
at_least least value = elim (strict_parse_int value) [ none ↦ none | some n ↦ unless_less least n ]

unfoldable pub within : ℤ → ℤ → Bytes → Option ℤ
within least most value = elim (strict_parse_int value) [
  | none ↦ none
  | some n ↦ unless_outside least most n
]

-- `static_cast<int>` keeps the low 32 bits
unfoldable pub to_int : ℤ → ℤ
to_int n =
    let bits = (pos_part n + (2 ^ 32 - neg_part n % 2 ^ 32)) % 2 ^ 32 in
    if ltb bits (2 ^ 31) then pos bits else negsuc (2 ^ 32 - 1 - bits)

unfoldable pub parse_log_level : Bytes → Option LogLevel
parse_log_level s =
    if bytes_eq s (codes "debug")
    then some debug_level
    else if bytes_eq s (codes "info")
    then some info_level
    else if bytes_eq s (codes "warn")
    then some warn_level
    else if bytes_eq s (codes "error")
    then some error_level
    else none

abbrev pub invalid_value : Bytes → Bytes → Bytes → Bytes
invalid_value name value wanted =
    codes "invalid value for '"
    ++ name
    ++ codes "': '"
    ++ value
    ++ codes "' (must be "
    ++ wanted
    ++ codes ")"

unfoldable pub or_reject : Bytes → Bytes → Bytes → Option ℤ → (ℤ → Config) → Bytes ⊎ Config
or_reject name value wanted none f = inl (invalid_value name value wanted)
or_reject name value wanted (some n) f = inr (f n)

-- one option with its value
unfoldable pub apply_flag : Flag → Bytes → Bytes → Config → Bytes ⊎ Config
apply_flag bind_flag name v cfg = inr (record cfg { bind = v })
apply_flag port_flag name v cfg =
    or_reject name v (codes "1-65535") (within (pos 1) (pos 65535) v)
      (λ n. record cfg { port = pos_part n })
apply_flag maxclients_flag name v cfg =
    or_reject name v (codes ">= 1") (at_least (pos 1) v) (λ n. record cfg { maxclients = to_int n })
apply_flag idle_flag name v cfg =
    or_reject name v (codes ">= 0") (at_least (pos 0) v)
      (λ n. record cfg { idle_timeout_sec = to_int n })
apply_flag threads_flag name v cfg =
    or_reject name v (codes "1-64") (within (pos 1) (pos 64) v)
      (λ n. record cfg { threads = to_int n })
apply_flag snapshot_flag name v cfg = inr (record cfg { snapshot_path = v })
apply_flag log_flag name v cfg = elim (parse_log_level v) [
  | none ↦ inl (invalid_value name v (codes "debug|info|warn|error"))
  | some level ↦ inr (record cfg { log_level = level })
]
apply_flag soft_flag name v cfg =
    or_reject name v (codes ">= 1") (at_least (pos 1) v)
      (λ n. record cfg { output_soft_limit_bytes = pos_part n })
apply_flag hard_flag name v cfg =
    or_reject name v (codes ">= 1") (at_least (pos 1) v)
      (λ n. record cfg { output_hard_limit_bytes = pos_part n })
apply_flag query_flag name v cfg =
    or_reject name v (codes ">= 1") (at_least (pos 1) v)
      (λ n. record cfg { max_query_buf = pos_part n })

-- what follows the loop
unfoldable pub check_limits : Config → ParseResult
check_limits cfg =
    if ltb cfg.output_hard_limit_bytes cfg.output_soft_limit_bytes
    then rejected
        (codes "--client-output-soft-limit must not be greater than --client-output-hard-limit")
    else accepted cfg

-- the loop over the arguments behind the name of the program
unfoldable pub parse_loop : List Bytes → Config → ParseResult
parse_loop [] cfg = check_limits cfg
parse_loop (name ∷ []) cfg =
    if bytes_eq name (codes "--help") || bytes_eq name (codes "-h")
    then help_requested
    else elim (flag_of name) [
      | none ↦ rejected (codes "unknown option '" ++ name ++ codes "'")
      | some flag ↦ rejected (codes "missing value for '" ++ name ++ codes "'")
    ]
parse_loop (name ∷ v ∷ args) cfg =
    if bytes_eq name (codes "--help") || bytes_eq name (codes "-h")
    then help_requested
    else elim (flag_of name) [
      | none ↦ rejected (codes "unknown option '" ++ name ++ codes "'")
      | some flag ↦ elim (apply_flag flag name v cfg) [
        | inl e ↦ rejected e
        | inr cfg' ↦ parse_loop args cfg'
      ]
    ]

unfoldable pub parse_args : List Bytes → ParseResult
parse_args args = parse_loop args default_config
