-- ===== src/Protocol/Parser/RoundTrip.antt =====
-- Requests as clients write them, against the parser of src/protocol/resp_parser.cpp.
use native.Mathlib.Numerals.{unary_clauses}
use gredis.Base.Bytes.{Bytes, codes}
use gredis.Base.Int.{pos}
use gredis.Base.{
  ℕ, zero, suc, ◌+◌, ◌*◌, ◌/◌, ◌%◌, ◌^◌, ◌≤◌, ◌<◌, ◌≡◌, ◌∙◌, refl, ap, Bool, true, false, not, ◌&&◌,
  some, List, [], ◌∷◌, ◌++◌, arith, ltb, ◌==◌, length, take, drop, get_or, Bool-cases, inl, inr,
  length-append,
}
use gredis.Protocol.Outcome.{parsed, and_then}
use gredis.Protocol.Parser.{
  ParserLimits, find_crlf_bounded, parse_header_line, parse_payload, parse_bulk_body, parse_bulk,
  parse_items, parse_array_body, parse_command,
}
use gredis.Protocol.Writer.{bulk, array_header}
use gredis.Util.Parse.{digits, to_string, parse_int64-to_string}

append_assoc : (xs ys zs : Bytes) → (xs ++ ys) ++ zs ≡ xs ++ (ys ++ zs)
append_assoc [] ys zs = refl
append_assoc (x ∷ xs) ys zs = ap (λ l. x ∷ l) (append_assoc xs ys zs)

-- a request, in the form of an array of bulk strings
unfoldable pub bulks : List Bytes → Bytes
bulks [] = []
bulks (arg ∷ argv) = bulk arg ++ bulks argv

unfoldable pub encode_command : List Bytes → Bytes
encode_command argv = array_header (length argv) ++ bulks argv

abbrev has_no_cr : Bytes → Bool
has_no_cr [] = true
has_no_cr (c ∷ s) = not (c == 13) && has_no_cr s

find_crlf-line :
    (line rest : Bytes) (limit : ℕ)
    → has_no_cr line ≡ true
    → length line + 2 ≤ limit
    → find_crlf_bounded limit (line ++ 13 ∷ 10 ∷ rest) ≡ some (line, rest)
unfolding find_crlf_bounded
find_crlf-line [] rest (suc (suc limit)) h le = ground arith
find_crlf-line (c ∷ []) rest (suc limit) h le =
    let further = find_crlf-line [] rest limit refl (omega arith) in ground (arith, further)
find_crlf-line (c ∷ d ∷ line) rest (suc limit) h le =
    let further = find_crlf-line (d ∷ line) rest limit (ground arith) (omega arith) in
    ground (arith, further)
find_crlf-line line rest limit h le = absurd (omega arith)

has_no_cr-digits :
    (fuel n : ℕ) (out : Bytes) → has_no_cr out ≡ true → has_no_cr (digits fuel n out) ≡ true
unfolding digits
has_no_cr-digits zero n out h = h
has_no_cr-digits (suc fuel) n out h = elim (Bool-cases (ltb n 10)) [
  | inl e ↦ rw (e, digits) (ground arith)
  | inr e ↦ rw (e, digits) (has_no_cr-digits fuel (n / 10) _ (ground arith))
]

-- `n` below ten to the `k` has `k` digits at most
length-digits :
    (k fuel n : ℕ) (out : Bytes) → n < 10 ^ suc k → length (digits fuel n out) ≤ suc k + length out
unfolding digits
length-digits k zero n out h = omega arith
length-digits zero (suc fuel) n out h = elim (Bool-cases (ltb n 10)) [
  | inl e ↦ rw (e, digits) (omega arith)
  | inr e ↦ absurd (ground arith)
]
length-digits (suc k) (suc fuel) n out h = elim (Bool-cases (ltb n 10)) [
  | inl e ↦ rw (e, digits) (omega arith)
  | inr e ↦
      let step : 10 ^ suc (suc k) ≡ 10 * 10 ^ suc k = simp unary_clauses (omega arith) in
      let small : n / 10 < 10 ^ suc k = omega arith in
      let rest = length-digits k fuel (n / 10) ((48 + n % 10) ∷ out) small in
      rw (e, digits) (omega (arith, rest))
]

-- a length that fits a header line of 21 bytes
header_line :
    (limits : ParserLimits) (what : Bytes) (n : ℕ) (rest : Bytes)
    → n < 2 ^ 63
    → 21 ≤ limits.max_header_line_len
    → parse_header_line limits what (to_string (pos n) ++ 13 ∷ 10 ∷ rest) ≡ parsed (pos n) rest
unfolding parse_header_line to_string
header_line limits what n rest small wide =
    let short = length-digits 18 (suc n) n [] (omega arith) in
    let f =
      find_crlf-line (to_string (pos n)) rest limits.max_header_line_len
        (has_no_cr-digits (suc n) n [] refl) (omega (arith, short)) in
    rw (f, parse_int64-to_string (pos n) (omega arith, omega arith), parse_header_line) refl

take-length : (xs ys : Bytes) → take (length xs) (xs ++ ys) ≡ xs
take-length [] ys = refl
take-length (x ∷ xs) ys = ap (λ l. x ∷ l) (take-length xs ys)

drop-length : (xs : Bytes) (y z : ℕ) (ys : Bytes) → drop (length xs + 2) (xs ++ y ∷ z ∷ ys) ≡ ys
drop-length [] y z ys = refl
drop-length (x ∷ xs) y z ys =
    let e : suc (length xs) + 2 ≡ suc (length xs + 2) = omega arith in rw e (drop-length xs y z ys)

get_or-at : (xs ys : Bytes) (y d : ℕ) → get_or (xs ++ y ∷ ys) (length xs) d ≡ y
get_or-at [] ys y d = refl
get_or-at (x ∷ xs) ys y d = get_or-at xs ys y d

get_or-next : (xs ys : Bytes) (y z d : ℕ) → get_or (xs ++ y ∷ z ∷ ys) (length xs + 1) d ≡ z
get_or-next [] ys y z d = refl
get_or-next (x ∷ xs) ys y z d =
    let e : suc (length xs) + 1 ≡ suc (length xs + 1) = omega arith in
    rw e (get_or-next xs ys y z d)

payload : (arg rest : Bytes) → parse_payload (length arg) (arg ++ 13 ∷ 10 ∷ rest) ≡ parsed arg rest
unfolding parse_payload
payload arg rest =
    let whole : ltb (length (arg ++ 13 ∷ 10 ∷ rest)) (length arg + 2) ≡ false =
      ground (arith, length-append arg (13 ∷ 10 ∷ rest)) in
    let a = get_or-at arg (10 ∷ rest) 13 0 in
    let b = get_or-next arg rest 13 10 0 in
    let c = take-length arg (13 ∷ 10 ∷ rest) in
    let d = drop-length arg 13 10 rest in rw (whole, a, b, c, d, parse_payload) refl

-- what the limits allow, and a 64-bit length counts
abbrev pub IsWithin : ParserLimits → List Bytes → Type 0
IsWithin limits [] = Unit
IsWithin limits (arg ∷ argv) =
    (length arg ≤ limits.max_bulk_len) × (length arg < 2 ^ 63) × IsWithin limits argv

bulk-parts :
    (arg rest : Bytes)
    → bulk arg ++ rest ≡ b'$' ∷ (to_string (pos (length arg)) ++ 13 ∷ 10 ∷ (arg ++ 13 ∷ 10 ∷ rest))
unfolding bulk
bulk-parts arg rest = simp append_assoc refl

items :
    (limits : ParserLimits) (argv : List Bytes) (rest : Bytes)
    → 21 ≤ limits.max_header_line_len
    → IsWithin limits argv
    → parse_items limits (length argv) (bulks argv ++ rest) ≡ parsed argv rest
unfolding parse_items parse_bulk parse_bulk_body bulks and_then
items limits [] rest wide w = refl
items limits (arg ∷ argv) rest wide (fits, small, w) =
    let shape : bulk arg ++ bulks argv ++ rest
        ≡ b'$'
          ∷ (to_string (pos (length arg)) ++ 13 ∷ 10 ∷ (arg ++ 13 ∷ 10 ∷ (bulks argv ++ rest))) =
      append_assoc (bulk arg) (bulks argv) rest ∙ bulk-parts arg (bulks argv ++ rest) in
    let head =
      header_line limits (codes "bulk") (length arg) (arg ++ 13 ∷ 10 ∷ (bulks argv ++ rest)) small
        wide in
    let big : ltb limits.max_bulk_len (length arg) ≡ false = ground arith in
    rw (shape, head, big, payload arg (bulks argv ++ rest), items limits argv rest wide w) refl

header-parts :
    (n : ℕ) (rest : Bytes) → array_header n ++ rest ≡ b'*' ∷ (to_string (pos n) ++ 13 ∷ 10 ∷ rest)
unfolding array_header
header-parts n rest = simp append_assoc refl

-- Under limits that let a header line have 21 bytes at least, a request of arguments within the
-- limits, and of lengths below 2^63, that is encoded as an array of bulk strings is read back by
-- `parse_command`, which leaves the input behind it.
pub parse_command-encode_command :
    (limits : ParserLimits) (argv : List Bytes) (rest : Bytes)
    → 21 ≤ limits.max_header_line_len
    → length argv ≤ limits.max_array_len
    → length argv < 2 ^ 63
    → IsWithin limits argv
    → parse_command limits (encode_command argv ++ rest) ≡ parsed argv rest
unfolding parse_command parse_array_body encode_command and_then
parse_command-encode_command limits argv rest wide fits small w =
    let shape : array_header (length argv) ++ bulks argv ++ rest
        ≡ b'*' ∷ (to_string (pos (length argv)) ++ 13 ∷ 10 ∷ (bulks argv ++ rest)) =
      append_assoc (array_header (length argv)) (bulks argv) rest
      ∙ header-parts (length argv) (bulks argv ++ rest) in
    let head =
      header_line limits (codes "multibulk") (length argv) (bulks argv ++ rest) small wide in
    let big : ltb limits.max_array_len (length argv) ≡ false = ground arith in
    rw (shape, head, big) (items limits argv rest wide w)
