-- ===== src/Common/Result.antt =====
-- A result or an error, for code that throws.
use mathlib.Core.Path.{◌≡◌, refl}
use mathlib.Core.Bool.{Bool, true, false}
use mathlib.Core.Option.{Option, none, some}

pub data Result (Fault : Type 0) (Value : Type 0) : Type 0 where
  err : Fault → Result Fault Value
  ok : Value → Result Fault Value

-- A null that the caller turns into an exception.
abbrev pub or_throw : {Fault Value : Type 0} → Option Value → Fault → Result Fault Value
or_throw (some v) thrown = ok v
or_throw none thrown = err thrown

-- `if (!test) throw thrown`
abbrev pub guard : {Fault : Type 0} → Bool → Fault → Result Fault (Unit {0})
guard passed thrown = elim passed [ false ↦ err thrown | true ↦ ok tt ]

-- An exception skips what follows.
infixl 5 ◌>>=◌
abbrev pub ◌>>=◌ :
    {Fault Value Next : Type 0}
    → Result Fault Value
    → (Value → Result Fault Next)
    → Result Fault Next
err thrown >>= next = err thrown
ok v >>= next = next v

infixl 5 ◌>>◌
abbrev pub ◌>>◌ :
    {Fault Next : Type 0} → Result Fault (Unit {0}) → Result Fault Next → Result Fault Next
first >> next = first >>= λ done. next

module _ {Fault Value Next : Type 0} where
  pub >>=-eq-ok :
      (m : Result Fault Value) (next : Value → Result Fault Next) {b : Next}
      → (m >>= next) ≡ ok b
      → (a : Value) × (m ≡ ok a) × (next a ≡ ok b)
  >>=-eq-ok (err thrown) next h = cc
  >>=-eq-ok (ok a) next h = (a, refl, h)

-- Two runs that both succeed give one result.
abbrev pub Agree : {Fault Value : Type 0} → Result Fault Value → Result Fault Value → Type 0
Agree {Fault} {Value} m n = (a b : Value) → m ≡ ok a → n ≡ ok b → a ≡ b
