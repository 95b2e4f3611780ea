-- ===== src/Prelude/Outcome.antt =====
-- `Result<A, E>` of code that can also fault: by a panic, or by an access outside its memory.
use mathlib.Core.Bool.{Bool, true, false}

pub data Outcome {ℓ κ} (E : Type ℓ) (A : Type κ) : Type (ℓ ⊔ κ) where
  fault : Outcome E A
  err : E → Outcome E A
  ok : A → Outcome E A

-- `if !holds { return Err(code); }`
abbrev pub guard {ℓ} : {E : Type ℓ} → Bool → E → Outcome E (Unit {0})
guard holds code = elim holds [ false ↦ err code | true ↦ ok tt ]

-- `?`
infixl 5 ◌>>=◌
abbrev pub ◌>>=◌ {ℓ κ η} :
    {E : Type ℓ} {A : Type κ} {B : Type η} → Outcome E A → (A → Outcome E B) → Outcome E B
fault >>= next = fault
err code >>= next = err code
ok value >>= next = next value

infixl 5 ◌>>◌
abbrev pub ◌>>◌ {ℓ κ} : {E : Type ℓ} {B : Type κ} → Outcome E (Unit {0}) → Outcome E B → Outcome E B
first >> second = first >>= (λ done. second)
