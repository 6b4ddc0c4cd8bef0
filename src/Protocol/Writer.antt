-- ===== src/Protocol/Writer.antt =====
-- src/protocol/resp_writer.cpp: the replies of RESP2. A function returns the bytes that it appends
-- to the output buffer.
use gredis.Base.Bytes.{Bytes, codes}
use gredis.Base.Int.{ℤ, pos}
use gredis.Base.{
  ℕ, ◌≡◌, refl, ◌||◌, if◌then◌else◌, ◌==◌, [], ◌∷◌, ◌++◌, length, Bool-cases, inl, inr, ap,
}
use gredis.Util.Parse.{to_string}

abbrev pub crlf : Bytes
crlf = 13 ∷ 10 ∷ []

-- a line break in the text becomes a space
pub sanitize_error_text : Bytes → Bytes
sanitize_error_text [] = []
sanitize_error_text (c ∷ s) = (if c == 13 || c == 10 then 32 else c) ∷ sanitize_error_text s

unfoldable pub simple : Bytes → Bytes
simple s = codes "+" ++ s ++ crlf

unfoldable pub error : Bytes → Bytes
unfolding sanitize_error_text
error s = codes "-" ++ sanitize_error_text s ++ crlf

unfoldable pub integer : ℤ → Bytes
integer n = codes ":" ++ to_string n ++ crlf

unfoldable pub bulk : Bytes → Bytes
bulk s = codes "$" ++ to_string (pos (length s)) ++ crlf ++ s ++ crlf

abbrev pub null_bulk : Bytes
null_bulk = codes "$-1" ++ crlf

unfoldable pub array_header : ℕ → Bytes
array_header n = codes "*" ++ to_string (pos n) ++ crlf

abbrev pub null_array : Bytes
null_array = codes "*-1" ++ crlf

-- the bytes before the first CR or LF, and those from there on
unfoldable pub first_line : Bytes → Bytes × Bytes
first_line [] = ([], [])
first_line (c ∷ s) =
    let (line, rest) = first_line s in if c == 13 || c == 10 then ([], c ∷ s) else (c ∷ line, rest)

first_line-sanitize :
    (s rest : Bytes)
    → first_line (sanitize_error_text s ++ crlf ++ rest) ≡ (sanitize_error_text s, crlf ++ rest)
unfolding sanitize_error_text first_line
first_line-sanitize [] rest = refl
first_line-sanitize (c ∷ s) rest = elim (Bool-cases (c == 13 || c == 10)) [
  | inl e ↦ rw e (rw (first_line-sanitize s rest) refl)
  | inr e ↦ rw e (rw (first_line-sanitize s rest) (rw e refl))
]

-- Whatever text an error reply carries, its first line break is the one that ends it: from its
-- first CR or LF on, the stream is the CR and LF of the reply and what was appended after it.
pub error_one_line : (s rest : Bytes) → (first_line (error s ++ rest)).1 ≡ crlf ++ rest
unfolding error first_line
error_one_line s rest = ap (λ p. p.1) (first_line-sanitize s rest)
