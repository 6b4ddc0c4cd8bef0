-- ===== src/Commands/Dispatcher/Answers.antt =====
-- src/commands/dispatcher.cpp: what a command is answered.
use mathlib.Core.List.{Memᴰ}
use gredis.Base.Bytes.{Bytes}
use gredis.Base.Int.{ℤ, pos, negsuc}
use gredis.Base.{
  ℕ, suc, ◌+◌, ◌≤◌, ◌∙◌, sym, ap₂, ltb, map, if◌then◌else◌, ◌&&◌, arith, [], ◌≡◌, refl, true, false,
  inl, inr, Option, none, some, List, ◌∷◌, length, Bool-cases,
}
use gredis.Commands.Dispatcher.Table.{find_command_iff}
use gredis.Commands.Dispatcher.{
  CommandSpec, Handler, commands, find_command, lowered, arity_ok, answer, dispatch, wrong_arity,
  unknown_command,
}

-- a name with its capital letters made small
abbrev pub small : Bytes → Bytes
small name = map (λ c. if ltb 64 c && ltb c 91 then c + 32 else c) name

-- an arity of n is a number of entries of argv, and one of -n a least number
abbrev pub Accepts : ℤ → ℕ → Type 0
Accepts (pos n) argc = argc ≡ n
Accepts (negsuc n) argc = suc n ≤ argc

lowered-small : (s : Bytes) → lowered s ≡ small s
unfolding lowered
lowered-small [] = refl
lowered-small (c ∷ s) = ap₂ (λ x l. x ∷ l) (ground arith) (lowered-small s)

arity_ok-Accepts : (arity : ℤ) (argc : ℕ) → arity_ok arity argc ≡ true → Accepts arity argc
unfolding arity_ok
arity_ok-Accepts (pos n) argc h = ground arith
arity_ok-Accepts (negsuc n) argc h = ground arith

arity_ok-refuses : (arity : ℤ) (argc : ℕ) → arity_ok arity argc ≡ false → ¬ Accepts arity argc
unfolding arity_ok
arity_ok-refuses (pos n) argc h = λ e. absurd (ground arith)
arity_ok-refuses (negsuc n) argc h = λ e. absurd (ground arith)

-- The three answers to a command, on the table alone: the handler of an entry that has the name in
-- lower case and takes so many arguments is run; with such an entry but another number of arguments,
-- or without an entry, the state stays and the error tells.
pub data Dispatched {ℓ} {S : Type ℓ} (run : Handler → List Bytes → S → Bytes × S) (name : Bytes)
    (args : List Bytes) (s : S) : Bytes × S → Type ℓ where
  ran :
      (spec : CommandSpec)
      → Memᴰ spec commands
      → spec.name ≡ small name
      → Accepts spec.arity (length (name ∷ args))
      → Dispatched run name args s (run spec.handler (name ∷ args) s)
  refused :
      (spec : CommandSpec)
      → Memᴰ spec commands
      → spec.name ≡ small name
      → ¬ Accepts spec.arity (length (name ∷ args))
      → Dispatched run name args s (wrong_arity name, s)
  unknown :
      ¬ ((spec : CommandSpec) × Memᴰ spec commands × (spec.name ≡ small name))
      → Dispatched run name args s (unknown_command name args, s)

answer-Dispatched {ℓ} :
    {S : Type ℓ} (run : Handler → List Bytes → S → Bytes × S) (name : Bytes) (args : List Bytes)
    (s : S) (found : Option CommandSpec)
    → find_command name ≡ found
    → Dispatched run name args s (answer run name args s found)
unfolding answer
answer-Dispatched run name args s none e = unknown (λ (spec, m, n).
    absurd (cc (e, (find_command_iff name spec).1 (m, n ∙ sym (lowered-small name)))))
answer-Dispatched run name args s (some spec) e =
    let (m, n) = (find_command_iff name spec).0 e in
    let named = n ∙ lowered-small name in
    let argc = length (name ∷ args) in
    elim (Bool-cases (arity_ok spec.arity (length (name ∷ args)))) [
      | inl t ↦ rw t (ran spec m named (arity_ok-Accepts spec.arity argc t))
      | inr f ↦ rw f (refused spec m named (arity_ok-refuses spec.arity argc f))
    ]

-- Whatever the handlers do, `dispatch` gives one of three answers, each described on the table of the
-- commands alone: it runs the handler of an entry whose name is that of the command in lower case and
-- which takes so many arguments; or it leaves the state and answers the error for a wrong number of
-- arguments, with such an entry that takes another number; or it leaves the state and answers the
-- error for an unknown command, with no entry of that name.
pub dispatch-Dispatched {ℓ} :
    {S : Type ℓ} (run : Handler → List Bytes → S → Bytes × S) (name : Bytes) (args : List Bytes)
    (s : S)
    → Dispatched run name args s (dispatch run name args s)
unfolding dispatch
dispatch-Dispatched run name args s = answer-Dispatched run name args s (find_command name) refl
