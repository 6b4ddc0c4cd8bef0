-- ===== src/Protocol/Parser.antt =====
-- src/protocol/resp_parser.cpp: the parser of requests. A position in the input is the input from
-- there on, and `consumed` is what the rest of the input is short of it.
pub mod Stream
pub mod RoundTrip
use gredis.Base.Bytes.{Bytes, codes}
use gredis.Base.Int.{ℤ, pos, negsuc}
use gredis.Base.{
  ℕ, zero, suc, ◌+◌, ◌*◌, Bool, true, false, not, ◌&&◌, Option, none, some, List, [], ◌∷◌, ◌++◌,
  ltb, leb, ◌==◌, if◌then◌else◌, length, take, drop, get_or,
}
use gredis.Protocol.Outcome.{Outcome, parsed, incomplete, failed, and_then}
use gredis.Util.Parse.{parse_int64}

pub record ParserLimits : Type 0 where
  pub max_bulk_len : ℕ
  pub max_array_len : ℕ
  pub max_header_line_len : ℕ

abbrev pub default_limits : ParserLimits
default_limits = record {
  max_bulk_len = 64 * 1024 * 1024;
  max_array_len = 1_048_576;
  max_header_line_len = 64;
}

-- the line before the first CRLF within `limit` bytes, and the input after it
unfoldable pub find_crlf_bounded : ℕ → Bytes → Option (Bytes × Bytes)
find_crlf_bounded zero input = none
find_crlf_bounded (suc limit) [] = none
find_crlf_bounded (suc limit) (c ∷ []) = none
find_crlf_bounded (suc limit) (c ∷ d ∷ input) =
    let further = find_crlf_bounded limit (d ∷ input) in
    if ltb 0 limit && c == 13 && d == 10
    then some ([], input)
    else elim further [ none ↦ none | some (line, rest) ↦ some (c ∷ line, rest) ]

-- a `long long` read by `std::from_chars`, as in `parse_int64`
abbrev pub parse_signed_line : Bytes → Option ℤ
parse_signed_line line = parse_int64 line

abbrev pub line_too_long : Bytes → Bytes
line_too_long what = codes "protocol error: " ++ what ++ codes " line too long"

abbrev pub invalid_length : Bytes → Bytes
invalid_length what = codes "protocol error: invalid " ++ what ++ codes " length"

-- the number on a header line, from the byte after its marker on
unfoldable pub parse_header_line : ParserLimits → Bytes → Bytes → Outcome ℤ
parse_header_line limits what input = elim (find_crlf_bounded limits.max_header_line_len input) [
  | none ↦
      if leb limits.max_header_line_len (length input)
      then failed (line_too_long what)
      else incomplete
  | some (line, rest) ↦ elim (parse_signed_line line) [
    | none ↦ failed (invalid_length what)
    | some value ↦ parsed value rest
  ]
]

abbrev pub got : ℕ → ℕ → Bytes
got wanted c = codes "protocol error: expected '" ++ wanted ∷ codes "', got '" ++ c ∷ codes "'"

-- a payload of `len` bytes with the CRLF after it
unfoldable pub parse_payload : ℕ → Bytes → Outcome Bytes
parse_payload len input =
    if ltb (length input) (len + 2)
    then incomplete
    else if get_or input len 0 == 13 && get_or input (len + 1) 0 == 10
    then parsed (take len input) (drop (len + 2) input)
    else failed (codes "protocol error: missing CRLF after bulk string")

unfoldable pub parse_bulk_body : ParserLimits → ℤ → Bytes → Outcome Bytes
parse_bulk_body limits (negsuc n) input = failed (codes "protocol error: invalid bulk length")
parse_bulk_body limits (pos len) input =
    if ltb limits.max_bulk_len len
    then failed (codes "protocol error: invalid bulk length: too large")
    else parse_payload len input

-- one round of the loop
unfoldable pub parse_bulk : ParserLimits → Bytes → Outcome Bytes
parse_bulk limits [] = incomplete
parse_bulk limits (c ∷ input) =
    if c == b'$'
    then and_then (parse_header_line limits (codes "bulk") input) (parse_bulk_body limits)
    else failed (got b'$' c)

unfoldable pub parse_items : ParserLimits → ℕ → Bytes → Outcome (List Bytes)
parse_items limits zero input = parsed [] input
parse_items limits (suc count) input =
    and_then (parse_bulk limits input) (λ arg rest.
      and_then (parse_items limits count rest) (λ args rest'. parsed (arg ∷ args) rest'))

unfoldable pub parse_array_body : ParserLimits → ℤ → Bytes → Outcome (List Bytes)
parse_array_body limits (negsuc n) input = failed (codes "protocol error: invalid multibulk length")
parse_array_body limits (pos count) input =
    if ltb limits.max_array_len count
    then failed (codes "protocol error: invalid multibulk length: too large")
    else parse_items limits count input

unfoldable pub parse_command : ParserLimits → Bytes → Outcome (List Bytes)
parse_command limits [] = incomplete
parse_command limits (c ∷ input) =
    if c == b'*'
    then and_then (parse_header_line limits (codes "multibulk") input) (parse_array_body limits)
    else failed (got b'*' c)
