-- ===== src/Commands/Text.antt =====
-- What the handlers of src/commands share: comparing option names, and the texts of their errors.
use gredis.Base.Bytes.{Bytes, codes}
use gredis.Base.{ℕ, ◌+◌, Bool, true, false, ◌&&◌, List, [], ◌∷◌, leb, ◌==◌, if◌then◌else◌, get_or}

-- `std::tolower` in the C locale
abbrev pub to_lower : ℕ → ℕ
to_lower c = if leb 65 c && leb c 90 then c + 32 else c

unfoldable pub ieq : Bytes → Bytes → Bool
ieq [] [] = true
ieq [] (y ∷ ys) = false
ieq (x ∷ xs) [] = false
ieq (x ∷ xs) (y ∷ ys) = to_lower x == to_lower y && ieq xs ys

abbrev pub wrong_type : Bytes
wrong_type = codes "WRONGTYPE Operation against a key holding the wrong kind of value"

abbrev pub not_int : Bytes
not_int = codes "ERR value is not an integer or out of range"

abbrev pub overflow : Bytes
overflow = codes "ERR increment or decrement would overflow"

abbrev pub syntax_error : Bytes
syntax_error = codes "ERR syntax error"

abbrev pub invalid_expire : Bytes
invalid_expire = codes "ERR invalid expire time in 'set' command"

-- `argv[i]`
abbrev pub arg : List Bytes → ℕ → Bytes
arg argv i = get_or argv i []
