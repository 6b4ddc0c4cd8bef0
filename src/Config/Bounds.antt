-- ===== src/Config/Bounds.antt =====
-- What a configuration that src/config.cpp accepts may hold.
use gredis.Base.Bytes.{Bytes, codes, bytes_eq}
use gredis.Base.Int.{ℤ, pos, negsuc, ◌≤ℤ◌, neg_part}
use gredis.Base.{
  ◌≤◌, ◌≡◌, ◌⊎◌, inl, inr, refl, arith, ◌||◌, Bool-cases, Option-cases, Option, none, some, List,
  [], ◌∷◌, ltb, Sum-cases,
}
use gredis.Config.{
  Config, default_config, ParseResult, accepted, help_requested, rejected, Flag, bind_flag,
  port_flag, maxclients_flag, idle_flag, threads_flag, snapshot_flag, log_flag, soft_flag,
  hard_flag, query_flag, flag_of, unless_less, unless_outside, at_least, within, to_int,
  parse_log_level, or_reject, apply_flag, check_limits, parse_loop, parse_args,
}
use gredis.Util.Parse.{parse_int64}

-- the bounds that hold all along
abbrev pub IsBounded : Config → Type 0
IsBounded cfg =
    (1 ≤ cfg.port)
    × (cfg.port ≤ 65535)
    × (pos 1 ≤ℤ cfg.threads)
    × (cfg.threads ≤ℤ pos 64)
    × (1 ≤ cfg.output_soft_limit_bytes)
    × (1 ≤ cfg.max_query_buf)

abbrev AllBounded : Bytes ⊎ Config → Type 0
AllBounded (inl e) = Unit
AllBounded (inr cfg) = IsBounded cfg

at_least-bound : (least : ℤ) (value : Bytes) (n : ℤ) → at_least least value ≡ some n → least ≤ℤ n
unfolding at_least
at_least-bound least value n e = elim (Option-cases (parse_int64 value)) [
  | inl bad ↦ absurd (let z : none ≡ some n = rw (bad, at_least) at e in cc)
  | inr (m, read) ↦
      let z : unless_less least m ≡ some n = rw (read, at_least) at e in ground (arith, z)
]

within-bound :
    (least most : ℤ) (value : Bytes) (n : ℤ)
    → within least most value ≡ some n
    → (least ≤ℤ n) × (n ≤ℤ most)
unfolding within
within-bound least most value n e = elim (Option-cases (parse_int64 value)) [
  | inl bad ↦ absurd (let z : none ≡ some n = rw (bad, within) at e in cc)
  | inr (m, read) ↦
      let z : unless_outside least most m ≡ some n = rw (read, within) at e in
      (ground (arith, z), ground (arith, z))
]

to_int-small : (n : ℤ) → pos 1 ≤ℤ n → n ≤ℤ pos 64 → (pos 1 ≤ℤ to_int n) × (to_int n ≤ℤ pos 64)
unfolding to_int
to_int-small n low high = (ground arith, ground arith)

neg_part-none : (n : ℤ) → pos 1 ≤ℤ n → neg_part n ≡ 0
neg_part-none (pos n) h = refl
neg_part-none (negsuc n) h = absurd (omega arith)

or_reject-AllBounded :
    (name v wanted : Bytes) (o : Option ℤ) (f : ℤ → Config)
    → ((n : ℤ) → o ≡ some n → IsBounded (f n))
    → AllBounded (or_reject name v wanted o f)
unfolding or_reject
or_reject-AllBounded name v wanted none f h = tt
or_reject-AllBounded name v wanted (some n) f h = h n refl

apply_flag-AllBounded :
    (flag : Flag) (name v : Bytes) (cfg : Config)
    → IsBounded cfg
    → AllBounded (apply_flag flag name v cfg)
unfolding apply_flag
apply_flag-AllBounded bind_flag name v cfg b = b
apply_flag-AllBounded port_flag name v cfg (_, _, t, t', s, q) =
    or_reject-AllBounded name v _ _ _ (λ n e.
      let w = within-bound (pos 1) (pos 65535) v n e in
      (omega (arith, w, neg_part-none n w.0), omega (arith, w, neg_part-none n w.0), t, t', s, q))
apply_flag-AllBounded maxclients_flag name v cfg b = or_reject-AllBounded name v _ _ _ (λ n e. b)
apply_flag-AllBounded idle_flag name v cfg b = or_reject-AllBounded name v _ _ _ (λ n e. b)
apply_flag-AllBounded threads_flag name v cfg (p, p', _, _, s, q) =
    or_reject-AllBounded name v _ _ _ (λ n e.
      let (low, high) = within-bound (pos 1) (pos 64) v n e in
      let (t, t') = to_int-small n low high in (p, p', t, t', s, q))
apply_flag-AllBounded snapshot_flag name v cfg b = b
apply_flag-AllBounded log_flag name v cfg b = elim (Option-cases (parse_log_level v)) [
  | inl e ↦ rw (e, apply_flag) tt
  | inr (level, e) ↦ rw (e, apply_flag) b
]
apply_flag-AllBounded soft_flag name v cfg (p, p', t, t', _, q) =
    or_reject-AllBounded name v _ _ _
      (λ n e. let w = at_least-bound (pos 1) v n e in (p, p', t, t', omega (arith, w), q))
apply_flag-AllBounded hard_flag name v cfg b = or_reject-AllBounded name v _ _ _ (λ n e. b)
apply_flag-AllBounded query_flag name v cfg (p, p', t, t', s, _) =
    or_reject-AllBounded name v _ _ _
      (λ n e. let w = at_least-bound (pos 1) v n e in (p, p', t, t', s, omega (arith, w)))

-- what an accepted configuration holds; nothing is said of another result
abbrev IsSafe : ParseResult → Type 0
IsSafe (accepted cfg) = IsBounded cfg × (cfg.output_soft_limit_bytes ≤ cfg.output_hard_limit_bytes)
IsSafe help_requested = Unit
IsSafe (rejected e) = Unit

check_limits-IsSafe : (cfg : Config) → IsBounded cfg → IsSafe (check_limits cfg)
unfolding check_limits
check_limits-IsSafe cfg b =
    elim (Bool-cases (ltb cfg.output_hard_limit_bytes cfg.output_soft_limit_bytes)) [
      | inl e ↦ rw e tt
      | inr e ↦ rw e (b, ground arith)
    ]

parse_loop-IsSafe :
    (args : List Bytes) (cfg : Config) → IsBounded cfg → IsSafe (parse_loop args cfg)
unfolding parse_loop
parse_loop-IsSafe [] cfg b = check_limits-IsSafe cfg b
parse_loop-IsSafe (name ∷ []) cfg b =
    elim (Bool-cases (bytes_eq name (codes "--help") || bytes_eq name (codes "-h"))) [
      | inl e ↦ rw e tt
      | inr e ↦ elim (Option-cases (flag_of name)) [
        | inl f ↦ rw (e, f, parse_loop) tt
        | inr (flag, f) ↦ rw (e, f, parse_loop) tt
      ]
    ]
parse_loop-IsSafe (name ∷ v ∷ args) cfg b =
    elim (Bool-cases (bytes_eq name (codes "--help") || bytes_eq name (codes "-h"))) [
      | inl e ↦ rw e tt
      | inr e ↦ elim (Option-cases (flag_of name)) [
        | inl f ↦ rw (e, f, parse_loop) tt
        | inr (flag, f) ↦
            let bounded = apply_flag-AllBounded flag name v cfg b in
            elim (Sum-cases (apply_flag flag name v cfg)) [
              | inl (x, r) ↦ rw (e, f, r, parse_loop) tt
              | inr (cfg', r) ↦
                  rw (e, f, r, parse_loop) (parse_loop-IsSafe args cfg' (rw r at bounded))
            ]
      ]
    ]

-- A configuration that `parse_args` accepts has a port from 1 to 65535, from 1 to 64 threads, an
-- output limit and a query buffer of a byte at least, and a soft limit not above the hard one.
pub parse_args-IsSafe :
    (args : List Bytes) (cfg : Config)
    → parse_args args ≡ accepted cfg
    → IsBounded cfg × (cfg.output_soft_limit_bytes ≤ cfg.output_hard_limit_bytes)
unfolding parse_args
parse_args-IsSafe args cfg e = rw e at (
    parse_loop-IsSafe args default_config
      (omega arith, omega arith, omega arith, omega arith, omega arith, omega arith))
