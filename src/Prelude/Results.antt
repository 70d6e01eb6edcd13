-- ===== src/Prelude/Results.antt =====
-- Go's pair of a value and an error: either the value, or the error and no value that is used.

use format.Prelude.Tests.{if◌then◌else◌}
use mathlib.Core.Path.{◌≡◌, refl}
use mathlib.Core.Bool.{Bool, true, false}

pub data Result {ℓ} (E : Type 0) (A : Type ℓ) : Type ℓ where
  ok : A → Result E A
  err : E → Result E A

infixl 5 ◌>>=◌ ◌>>◌
abbrev pub ◌>>=◌ {ℓ κ} :
    {E : Type 0} {A : Type ℓ} {B : Type κ} → Result E A → (A → Result E B) → Result E B
err e >>= f = err e
ok a >>= f = f a

abbrev pub ◌>>◌ {ℓ} : {E : Type 0} {B : Type ℓ} → Result E (Unit {0}) → Result E B → Result E B
m >> k = m >>= λ _. k

-- `if bad { return err }`
abbrev pub reject_if : {E : Type 0} → Bool → E → Result E (Unit {0})
reject_if true e = err e
reject_if false e = ok tt

-- A chain succeeds where each of its steps does.
pub then_ok {ℓ} :
    {E : Type 0} {B : Type ℓ} {m : Result E (Unit {0})} {k : Result E B} {b : B}
    → (m >> k) ≡ ok b
    → (m ≡ ok tt) × (k ≡ ok b)
then_ok {m = ok tt} e = (refl, e)
then_ok {m = err x} e = absurd (cc e)

pub ok-injective {ℓ} :
    {E : Type 0} {A : Type ℓ} {a b : A} → ◌≡◌ {A = Result E A} (ok a) (ok b) → a ≡ b
ok-injective e = cc e

-- `if err := m; err != nil { … }` where the value is of no use.
abbrev pub either {ℓ} : {E : Type 0} {B : Type ℓ} → Result E (Unit {0}) → (E → B) → B → B
either (err e) f b = f e
either (ok u) f b = b

pub either_cases {ℓ κ} :
    {E : Type 0} {B : Type ℓ} (P : B → Type κ) (m : Result E (Unit {0})) {f : E → B} {b : B}
    → ((e : E) → P (f e))
    → P b
    → P (either m f b)
either_cases P (err e) pf pb = pf e
either_cases P (ok u) pf pb = pb

pub bind_ok {ℓ κ} :
    {E : Type 0} {A : Type ℓ} {B : Type κ} (m : Result E A) {f : A → Result E B} {b : B}
    → (m >>= f) ≡ ok b
    → (a : A) × (m ≡ ok a) × (f a ≡ ok b)
bind_ok (ok a) e = (a, refl, e)
bind_ok (err x) e = absurd (cc e)

-- `if bad { return err }` before a result.
pub else_ok {ℓ} :
    {E : Type 0} {A : Type ℓ} (bad : Bool) (x : E) {m : Result E A} {a : A}
    → (if bad then err x else m) ≡ ok a
    → m ≡ ok a
else_ok true x e = absurd (cc e)
else_ok false x e = e
