-- ===== src/Config/Examples.antt =====
-- Runs of the option parser, and its theorem at a configuration that is accepted.
use gredis.Base.Bytes.{Bytes, codes, bytes_eq}
use gredis.Base.Int.{pos, negsuc}
use gredis.Base.{◌≤◌, ◌≡◌, refl, List, [], ◌∷◌}
use gredis.Config.Bounds.{IsBounded, parse_args-IsSafe}
use gredis.Config.{
  Config, default_config, accepted, help_requested, rejected, flag_of, at_least, within, to_int,
  or_reject, apply_flag, check_limits, parse_loop, parse_args,
}
use gredis.Util.Parse.{parse_int64}

abbrev port_args : List Bytes
port_args = codes "--port" ∷ codes "7000" ∷ codes "--threads" ∷ codes "64" ∷ []

abbrev port_config : Config
port_config = record default_config { port = 7000; threads = pos 64 }

port_read : parse_args port_args ≡ accepted port_config
unfolding parse_args parse_loop bytes_eq flag_of apply_flag within or_reject to_int check_limits
    parse_int64
port_read = refl

-- more clients than an int holds are accepted, and become a negative number
option_runs :
    (parse_args (codes "--maxclients" ∷ codes "3000000000" ∷ [])
      ≡ accepted (record default_config { maxclients = negsuc 1_294_967_295 }))
    × (parse_args (codes "--help" ∷ []) ≡ help_requested)
    × (parse_args (codes "--port" ∷ []) ≡ rejected (codes "missing value for '--port'"))
    × (parse_args (codes "-x" ∷ codes "-h" ∷ []) ≡ rejected (codes "unknown option '-x'"))
unfolding parse_args parse_loop bytes_eq flag_of apply_flag at_least or_reject to_int check_limits
    parse_int64
option_runs = (refl, refl, refl, refl)

parse_args-IsSafe_example :
    IsBounded port_config
    × (port_config.output_soft_limit_bytes ≤ port_config.output_hard_limit_bytes)
parse_args-IsSafe_example = parse_args-IsSafe port_args port_config port_read
