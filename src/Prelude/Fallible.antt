-- ===== src/Prelude/Fallible.antt =====
-- Code that throws: a value or an error, for the components whose writes are one transaction. The new
-- state is part of the value, so an error leaves the state as it was.
use mathlib.Core.Path.{◌≡◌, refl}
use mathlib.Core.Logic.{◌⊎◌, inl, inr}
use mathlib.Core.Bool.{Bool}
use mathlib.Core.Option.{Option, none, some}
use tridentpos.Prelude.Tests.{if◌then◌else◌}

pub data Fallible (E A : Type 0) : Type 0 where
  ok : A → Fallible E A
  err : E → Fallible E A

-- An error skips the rest of the code.
infixl 5 ◌>>=◌ ◌>>◌
abbrev pub ◌>>=◌ : {E A B : Type 0} (code : Fallible E A) (rest : A → Fallible E B) → Fallible E B
err thrown >>= rest = err thrown
ok value >>= rest = rest value

abbrev pub ◌>>◌ :
    {E B : Type 0} (check : Fallible E (Unit {0})) (rest : Fallible E B) → Fallible E B
check >> rest = check >>= λ passed. rest

-- `if (c) throw e;`
abbrev pub raise_if : {E : Type 0} → Bool → E → Fallible E (Unit {0})
raise_if c e = if c then err e else ok tt

-- A value that may be missing, with the error for that case.
abbrev pub or_raise : {E A : Type 0} → Option A → E → Fallible E A
or_raise none e = err e
or_raise (some a) e = ok a

pub Fallible-cases :
    {E A : Type 0} (r : Fallible E A) → ((a : A) × (r ≡ ok a)) ⊎ ((e : E) × (r ≡ err e))
Fallible-cases (ok a) = inl (a, refl)
Fallible-cases (err e) = inr (e, refl)

-- Code that returned went through each of its parts.
pub >>=-eq-ok :
    {E A B : Type 0} (code : Fallible E A) (rest : A → Fallible E B) {result : B}
    (returned : (code >>= rest) ≡ ok result)
    → (value : A) × (code ≡ ok value) × (rest value ≡ ok result)
>>=-eq-ok (err thrown) rest returned = cc
>>=-eq-ok (ok value) rest returned = (value, refl, returned)
