-- ===== src/Protocol/Outcome.antt =====
-- What a parser of a stream answers (`RespParseStatus` of src/protocol/resp_parser.h): a value with
-- the input after it, not enough input yet, or an error that more input cannot mend.
use gredis.Base.Bytes.{Bytes}
use gredis.Base.{◌≡◌, refl, ◌++◌}

pub data Outcome {ℓ} (A : Type ℓ) : Type ℓ where
  parsed : A → Bytes → Outcome A
  incomplete : Outcome A
  failed : Bytes → Outcome A

-- the next step runs on the input that is left
unfoldable pub and_then {ℓ κ} :
    {A : Type ℓ} {B : Type κ} → Outcome A → (A → Bytes → Outcome B) → Outcome B
and_then (parsed a rest) f = f a rest
and_then incomplete f = incomplete
and_then (failed e) f = failed e

-- what a parser may answer once `more` has come in after its input: an answer that is final stays
unfoldable pub IsStable {ℓ} : {A : Type ℓ} → Bytes → Outcome A → Outcome A → Type ℓ
IsStable more (parsed a rest) later = later ≡ parsed a (rest ++ more)
IsStable more incomplete later = Unit
IsStable more (failed e) later = later ≡ failed e

pub IsStable-and_then {ℓ κ} :
    {A : Type ℓ} {B : Type κ} (more : Bytes) (r r' : Outcome A) (f g : A → Bytes → Outcome B)
    → IsStable more r r'
    → ((a : A) (rest : Bytes) → IsStable more (f a rest) (g a (rest ++ more)))
    → IsStable more (and_then r f) (and_then r' g)
unfolding IsStable and_then
IsStable-and_then more (parsed a rest) r' f g s h = rw s (h a rest)
IsStable-and_then more incomplete r' f g s h = tt
IsStable-and_then more (failed e) r' f g s h = rw s refl
