-- ===== src/Protocol/Examples.antt =====
-- Replies as bytes, and the theorems at a text with a line break.
use gredis.Base.Bytes.{Bytes, codes}
use gredis.Base.Int.{negsuc}
use gredis.Base.{◌≡◌, refl, List, [], ◌++◌, ◌∷◌, arith}
use gredis.Protocol.Outcome.{parsed, incomplete, failed, and_then, IsStable}
use gredis.Protocol.Parser.RoundTrip.{bulks, encode_command, parse_command-encode_command}
use gredis.Protocol.Parser.Stream.{parse_command-IsStable}
use gredis.Protocol.Parser.{
  default_limits, find_crlf_bounded, parse_header_line, got, parse_payload, parse_bulk_body,
  parse_bulk, parse_items, parse_array_body, parse_command,
}
use gredis.Protocol.Writer.{array_header, crlf, error, integer, bulk}
use gredis.Util.Parse.{to_string, parse_int64}

reply_runs :
    (integer (negsuc 41) ≡ codes ":-42" ++ crlf)
    × (bulk (codes "hello") ≡ codes "$5" ++ crlf ++ codes "hello" ++ crlf)
    × (error (codes "ERR a" ++ 13 ∷ 10 ∷ codes "b") ≡ codes "-ERR a  b" ++ crlf)
unfolding integer bulk error to_string
reply_runs = (refl, refl, refl)

abbrev ping : List Bytes
ping = codes "PING" ∷ codes "" ∷ []

abbrev ping_start : Bytes
ping_start = codes "*2" ++ crlf ++ codes "$4" ++ crlf ++ codes "PI"

parser_runs :
    (encode_command ping
      ≡ codes "*2"
        ++ crlf
        ++ codes "$4"
        ++ crlf
        ++ codes "PING"
        ++ crlf
        ++ codes "$0"
        ++ crlf
        ++ crlf)
    × (parse_command default_limits (encode_command ping ++ codes "*") ≡ parsed ping (codes "*"))
    × (parse_command default_limits ping_start ≡ incomplete)
    × (parse_command default_limits (codes "PING") ≡ failed (got b'*' b'P'))
    × (parse_command default_limits (codes "*0" ++ crlf ++ codes "*") ≡ parsed [] (codes "*"))
unfolding parse_command parse_array_body parse_items parse_bulk parse_bulk_body parse_payload
    parse_header_line find_crlf_bounded and_then parse_int64 encode_command bulks bulk array_header
    to_string
parser_runs = (refl, refl, refl, refl, refl)

parse_command-IsStable_example :
    IsStable
      (codes "NG")
      (parse_command default_limits ping_start)
      (parse_command default_limits (ping_start ++ codes "NG"))
parse_command-IsStable_example = parse_command-IsStable default_limits ping_start (codes "NG")

parse_command-encode_command_example :
    parse_command default_limits (encode_command ping ++ codes "*") ≡ parsed ping (codes "*")
parse_command-encode_command_example =
    parse_command-encode_command default_limits ping (codes "*") (omega arith) (omega arith)
      (omega arith) (omega arith, omega arith, (omega arith, omega arith, tt))
