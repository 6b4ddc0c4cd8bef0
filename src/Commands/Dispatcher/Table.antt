-- ===== src/Commands/Dispatcher/Table.antt =====
-- src/commands/dispatcher.cpp: the table of the commands and the length above which no name is
-- looked up.
use mathlib.Core.List.{Memᴰ}
use mathlib.Core.List.Memᴰ.{head, tail}
use gredis.Base.Bytes.{Bytes, bytes_eq, bytes_eq_refl, bytes_eq_iff}
use gredis.Base.{
  ◌≡◌, refl, sym, ap, ◌∙◌, ◌↔◌, inl, inr, Bool, true, not, ◌&&◌, some, List, [], ◌∷◌, leb, length,
  Bool-cases, arith,
}
use gredis.Commands.Dispatcher.{
  CommandSpec, commands, find_spec, find_command, lowered, max_command_name_len,
}
use gredis.Storage.HashTable.Update.{is_some}

-- no two entries have one name
distinct : List CommandSpec → Bool
distinct [] = true
distinct (spec ∷ specs) = not (is_some (find_spec spec.name specs)) && distinct specs

-- no name is too long to be looked up
short : List CommandSpec → Bool
short [] = true
short (spec ∷ specs) = leb (length spec.name) max_command_name_len && short specs

find_spec-Memᴰ :
    (name : Bytes) (specs : List CommandSpec) (spec : CommandSpec)
    → find_spec name specs ≡ some spec
    → Memᴰ spec specs × (spec.name ≡ name)
unfolding find_spec
find_spec-Memᴰ name [] spec e = cc
find_spec-Memᴰ name (x ∷ specs) spec e = elim (Bool-cases (bytes_eq x.name name)) [
  | inl t ↦ (head (ground (arith, t, e)), ground (arith, t, e, (bytes_eq_iff x.name name).0))
  | inr f ↦ let (m, n) = find_spec-Memᴰ name specs spec (ground (arith, f, e)) in (tail m, n)
]

Memᴰ-found :
    (name : Bytes) (specs : List CommandSpec) (spec : CommandSpec)
    → Memᴰ spec specs
    → spec.name ≡ name
    → is_some (find_spec name specs) ≡ true
unfolding find_spec
Memᴰ-found name [] spec m n = elim m [ ]
Memᴰ-found name (x ∷ specs) spec (head e) n =
    rw (ap (λ s. s.name) (sym e) ∙ n) (rw (bytes_eq_refl name) refl)
Memᴰ-found name (x ∷ specs) spec (tail m) n = ground (arith, Memᴰ-found name specs spec m n)

find_spec_complete :
    (name : Bytes) (specs : List CommandSpec) (spec : CommandSpec)
    → distinct specs ≡ true
    → Memᴰ spec specs
    → spec.name ≡ name
    → find_spec name specs ≡ some spec
unfolding find_spec distinct
find_spec_complete name [] spec h m n = elim m [ ]
find_spec_complete name (x ∷ specs) spec h (head e) n =
    rw ((bytes_eq_iff x.name name).1 (ap (λ s. s.name) (sym e) ∙ n)) (ap (λ s. some s) (sym e))
find_spec_complete name (x ∷ specs) spec h (tail m) n = ground (
  arith,
  Memᴰ-found x.name specs spec m,
  find_spec_complete name specs spec,
  (bytes_eq_iff x.name name).0,
)

Memᴰ-short :
    (specs : List CommandSpec) (spec : CommandSpec)
    → short specs ≡ true
    → Memᴰ spec specs
    → leb (length spec.name) max_command_name_len ≡ true
unfolding short
Memᴰ-short [] spec h m = elim m [ ]
Memᴰ-short (x ∷ specs) spec h (head e) = ground (arith, ap (λ s. length s.name) e)
Memᴰ-short (x ∷ specs) spec h (tail m) = ground (arith, Memᴰ-short specs spec)

commands-distinct : distinct commands ≡ true
unfolding distinct commands find_spec bytes_eq
commands-distinct = refl

commands-short : short commands ≡ true
unfolding short commands
commands-short = refl

length-lowered : (s : Bytes) → length (lowered s) ≡ length s
unfolding lowered
length-lowered [] = refl
length-lowered (c ∷ s) = rw (length-lowered s) refl

-- the argument of the lookup is not too long when it is a name of the table
found_length :
    (name : Bytes) (spec : CommandSpec)
    → Memᴰ spec commands
    → spec.name ≡ lowered name
    → leb (length name) max_command_name_len ≡ true
found_length name spec m e =
    rw (sym (length-lowered name)) (rw (sym e) (Memᴰ-short commands spec commands-short m))

-- The lookup of a command, which ignores the letter case and skips names above 15 bytes, finds an
-- entry exactly if it is in the table and has the name in lower case: no name of the table is
-- skipped or hidden by another.
pub find_command_iff :
    (name : Bytes) (spec : CommandSpec)
    → (find_command name ≡ some spec) ↔ (Memᴰ spec commands × (spec.name ≡ lowered name))
unfolding find_command
find_command_iff name spec = (
  λ e. elim (Bool-cases (leb (length name) max_command_name_len)) [
    | inl t ↦ find_spec-Memᴰ (lowered name) commands spec (ground (arith, t, e))
    | inr f ↦ absurd (ground (arith, f, e))
  ],
  λ (m, e).
      rw (found_length name spec m e)
        (find_spec_complete (lowered name) commands spec commands-distinct m e),
)
