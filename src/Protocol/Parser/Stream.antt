-- ===== src/Protocol/Parser/Stream.antt =====
-- How the parser of src/protocol/resp_parser.cpp takes input that comes in pieces.
use gredis.Base.Bytes.{Bytes, codes}
use gredis.Base.Int.{ℤ, pos, negsuc}
use gredis.Base.{
  ℕ, zero, suc, ◌+◌, ◌≤◌, ◌<◌, ◌≡◌, refl, ap, true, false, ◌&&◌, Option, none, some, [], ◌∷◌, ◌++◌,
  arith, ltb, leb, ◌==◌, length, take, drop, get_or, Bool-cases, Option-cases, inl, inr,
  length-append, leb→le,
}
use gredis.Protocol.Outcome.{parsed, failed, IsStable, IsStable-and_then}
use gredis.Protocol.Parser.{
  ParserLimits, invalid_length, find_crlf_bounded, parse_signed_line, parse_header_line,
  parse_payload, parse_bulk_body, parse_bulk, parse_items, parse_array_body, parse_command,
}

abbrev grown : Bytes → Option (Bytes × Bytes) → Option (Bytes × Bytes)
grown more none = none
grown more (some (line, rest)) = some (line, rest ++ more)

-- a line that was found stays where it is
find_crlf-found :
    (limit : ℕ) (input more line rest : Bytes)
    → find_crlf_bounded limit input ≡ some (line, rest)
    → find_crlf_bounded limit (input ++ more) ≡ some (line, rest ++ more)
unfolding find_crlf_bounded
find_crlf-found zero input more line rest h = cc
find_crlf-found (suc limit) [] more line rest h = cc
find_crlf-found (suc limit) (c ∷ []) more line rest h = cc
find_crlf-found (suc limit) (c ∷ d ∷ input) more line rest h =
    elim (Bool-cases (ltb 0 limit && c == 13 && d == 10)) [
      | inl e ↦
          let z : some ([], input) ≡ some (line, rest) = rw (e, find_crlf_bounded) at h in
          rw (e, find_crlf_bounded) (ap (grown more) z)
      | inr e ↦ elim (Option-cases (find_crlf_bounded limit (d ∷ input))) [
        | inl f ↦ absurd (let z = rw (e, f, find_crlf_bounded) at h in cc)
        | inr ((l, r), f) ↦
            let z : some (c ∷ l, r) ≡ some (line, rest) = rw (e, f, find_crlf_bounded) at h in
            rw (e, find_crlf-found limit (d ∷ input) more l r f, find_crlf_bounded)
              (ap (grown more) z)
      ]
    ]

-- a window that is full stays without one
find_crlf-missing :
    (limit : ℕ) (input more : Bytes)
    → find_crlf_bounded limit input ≡ none
    → limit ≤ length input
    → find_crlf_bounded limit (input ++ more) ≡ none
unfolding find_crlf_bounded
find_crlf-missing zero input more h le = refl
find_crlf-missing (suc limit) [] more h le = absurd (omega arith)
find_crlf-missing (suc limit) (c ∷ []) more h le = ground arith
find_crlf-missing (suc limit) (c ∷ d ∷ input) more h le =
    elim (Bool-cases (ltb 0 limit && c == 13 && d == 10)) [
      | inl e ↦ absurd (let z = rw (e, find_crlf_bounded) at h in cc)
      | inr e ↦ elim (Option-cases (find_crlf_bounded limit (d ∷ input))) [
        | inl f ↦
            rw (e, find_crlf-missing limit (d ∷ input) more f (omega arith), find_crlf_bounded) refl
        | inr ((l, r), f) ↦ absurd (let z = rw (e, f, find_crlf_bounded) at h in cc)
      ]
    ]

parse_header_line-IsStable :
    (limits : ParserLimits) (what input more : Bytes)
    → IsStable more
        (parse_header_line limits what input)
        (parse_header_line limits what (input ++ more))
unfolding parse_header_line IsStable
parse_header_line-IsStable limits what input more =
    let limit = limits.max_header_line_len in
    elim (Option-cases (find_crlf_bounded limit input)) [
      | inr ((line, rest), f) ↦
          let g = find_crlf-found limit input more line rest f in
          rw (f, g, parse_header_line) (settled (parse_signed_line line) rest)
      | inl f ↦ elim (Bool-cases (leb limit (length input))) [
        | inr short ↦ rw (f, short, parse_header_line) tt
        | inl full ↦
            let g = find_crlf-missing limit input more f (leb→le limit (length input) full) in
            let z : leb limit (length (input ++ more)) ≡ true =
              ground (arith, length-append input more) in
            rw (f, full, g, z, parse_header_line) refl
      ]
    ]
  where
    settled :
        (value : Option ℤ) (rest : Bytes)
        → IsStable more
            (elim value [ none ↦ failed (invalid_length what) | some v ↦ parsed v rest ])
            (elim value [ none ↦ failed (invalid_length what) | some v ↦ parsed v (rest ++ more) ])
    settled none rest = refl
    settled (some v) rest = refl

take-append : (n : ℕ) (xs ys : Bytes) → n ≤ length xs → take n (xs ++ ys) ≡ take n xs
take-append zero xs ys h = refl
take-append (suc n) [] ys h = absurd (omega arith)
take-append (suc n) (x ∷ xs) ys h = ap (λ l. x ∷ l) (take-append n xs ys (omega arith))

drop-append : (n : ℕ) (xs ys : Bytes) → n ≤ length xs → drop n (xs ++ ys) ≡ drop n xs ++ ys
drop-append zero xs ys h = refl
drop-append (suc n) [] ys h = absurd (omega arith)
drop-append (suc n) (x ∷ xs) ys h = drop-append n xs ys (omega arith)

get_or-append : (xs ys : Bytes) (n d : ℕ) → n < length xs → get_or (xs ++ ys) n d ≡ get_or xs n d
get_or-append [] ys n d h = absurd (omega arith)
get_or-append (x ∷ xs) ys zero d h = refl
get_or-append (x ∷ xs) ys (suc n) d h = get_or-append xs ys n d (omega arith)

parse_payload-IsStable :
    (len : ℕ) (input more : Bytes)
    → IsStable more (parse_payload len input) (parse_payload len (input ++ more))
unfolding parse_payload IsStable
parse_payload-IsStable len input more = elim (Bool-cases (ltb (length input) (len + 2))) [
  | inl short ↦ rw (short, parse_payload) tt
  | inr whole ↦
      let there : len + 2 ≤ length input = ground arith in
      let z : ltb (length (input ++ more)) (len + 2) ≡ false =
        ground (arith, length-append input more) in
      let a = get_or-append input more len 0 (omega arith) in
      let b = get_or-append input more (len + 1) 0 (omega arith) in
      let c = take-append len input more (omega arith) in
      let d = drop-append (len + 2) input more there in
      elim (Bool-cases (get_or input len 0 == 13 && get_or input (len + 1) 0 == 10)) [
        | inl ends ↦ rw (whole, z, a, b, ends, c, d, parse_payload) refl
        | inr open_ended ↦ rw (whole, z, a, b, open_ended, parse_payload) refl
      ]
]

parse_bulk_body-IsStable :
    (limits : ParserLimits) (more : Bytes) (len : ℤ) (input : Bytes)
    → IsStable more (parse_bulk_body limits len input) (parse_bulk_body limits len (input ++ more))
unfolding parse_bulk_body IsStable
parse_bulk_body-IsStable limits more (negsuc n) input = refl
parse_bulk_body-IsStable limits more (pos len) input =
    elim (Bool-cases (ltb limits.max_bulk_len len)) [
      | inl big ↦ rw big refl
      | inr fits ↦ rw fits (parse_payload-IsStable len input more)
    ]

parse_bulk-IsStable :
    (limits : ParserLimits) (input more : Bytes)
    → IsStable more (parse_bulk limits input) (parse_bulk limits (input ++ more))
unfolding parse_bulk IsStable
parse_bulk-IsStable limits [] more = tt
parse_bulk-IsStable limits (c ∷ input) more = elim (Bool-cases (c == b'$')) [
  | inr other ↦ rw other refl
  | inl dollar ↦ rw dollar (
      IsStable-and_then more _ _ _ _ (parse_header_line-IsStable limits (codes "bulk") input more)
        (parse_bulk_body-IsStable limits more))
]

parse_items-IsStable :
    (limits : ParserLimits) (count : ℕ) (input more : Bytes)
    → IsStable more (parse_items limits count input) (parse_items limits count (input ++ more))
unfolding parse_items IsStable
parse_items-IsStable limits zero input more = refl
parse_items-IsStable limits (suc count) input more =
    IsStable-and_then more _ _ _ _ (parse_bulk-IsStable limits input more) (λ arg rest.
      IsStable-and_then more _ _ _ _ (parse_items-IsStable limits count rest more)
        (λ args rest'. refl))

parse_array_body-IsStable :
    (limits : ParserLimits) (more : Bytes) (count : ℤ) (input : Bytes)
    → IsStable more
        (parse_array_body limits count input)
        (parse_array_body limits count (input ++ more))
unfolding parse_array_body IsStable
parse_array_body-IsStable limits more (negsuc n) input = refl
parse_array_body-IsStable limits more (pos count) input =
    elim (Bool-cases (ltb limits.max_array_len count)) [
      | inl big ↦ rw big refl
      | inr fits ↦ rw fits (parse_items-IsStable limits count input more)
    ]

-- A final answer of `parse_command` does not depend on input that comes in later: once it has
-- parsed a command it parses the same one when more input stands behind, and leaves that input,
-- and an error stays the same error.
pub parse_command-IsStable :
    (limits : ParserLimits) (input more : Bytes)
    → IsStable more (parse_command limits input) (parse_command limits (input ++ more))
unfolding parse_command IsStable
parse_command-IsStable limits [] more = tt
parse_command-IsStable limits (c ∷ input) more = elim (Bool-cases (c == b'*')) [
  | inr other ↦ rw other refl
  | inl star ↦ rw star (
      IsStable-and_then more _ _ _ _
        (parse_header_line-IsStable limits (codes "multibulk") input more)
        (parse_array_body-IsStable limits more))
]
