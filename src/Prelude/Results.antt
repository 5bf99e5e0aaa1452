-- ===== src/Prelude/Results.antt =====
-- Calls that may fail: the value, or the error that the source throws.
use mathlib.Core.Path.{◌≡◌, refl, subst}
use mathlib.Core.Bool.{Bool, true, false}
use mathlib.Core.Option.{Option, none, some}
use mathlib.Core.Logic.{◌⊎◌, inl, inr}

pub data Result {ℓ κ} (E : Type κ) (A : Type ℓ) : Type (ℓ ⊔ κ) where
  ok : A → Result E A
  err : E → Result E A

infixl 5 ◌>>=◌
unfoldable pub ◌>>=◌ {ℓ κ μ} :
    {E : Type μ} {A : Type ℓ} {B : Type κ} → Result E A → (A → Result E B) → Result E B
ok a >>= f = f a
err e >>= f = err e

-- `if (!test) throw e;`
unfoldable pub require {μ} : {E : Type μ} → Bool → E → Result E (Unit {0})
require true e = ok tt
require false e = err e

unfoldable pub or_fail {ℓ μ} : {A : Type ℓ} {E : Type μ} → Option A → E → Result E A
or_fail none e = err e
or_fail (some a) e = ok a

pub Result-cases {ℓ κ} :
    {E : Type κ} {A : Type ℓ} (r : Result E A) → ((a : A) × (r ≡ ok a)) ⊎ ((e : E) × (r ≡ err e))
Result-cases (ok a) = inl (a, refl)
Result-cases (err e) = inr (e, refl)

-- What holds of a chain of calls, by its first call's outcome.
pub require-both {ℓ κ μ} :
    {E : Type μ} {B : Type κ} (P : Result E B → Type ℓ) (test : Bool) (e : E)
    (f : Unit {0} → Result E B)
    → ((x : E) → P (err x))
    → (test ≡ true → P (f tt))
    → P (require test e >>= f)
unfolding ◌>>=◌ require
require-both P true e f bad good = good refl
require-both P false e f bad good = bad e

pub or_fail-both {ℓ κ μ ν} :
    {E : Type μ} {A : Type ν} {B : Type κ} (P : Result E B → Type ℓ) (o : Option A) (e : E)
    (f : A → Result E B)
    → ((x : E) → P (err x))
    → ((a : A) → o ≡ some a → P (f a))
    → P (or_fail o e >>= f)
unfolding ◌>>=◌ or_fail
or_fail-both P none e f bad good = bad e
or_fail-both P (some a) e f bad good = good a refl

pub bind-both {ℓ κ μ ν} :
    {E : Type μ} {A : Type ν} {B : Type κ} (Q : Result E A → Type ℓ) (P : Result E B → Type ℓ)
    (r : Result E A) (f : A → Result E B)
    → Q r
    → ((x : E) → P (err x))
    → ((a : A) → Q (ok a) → P (f a))
    → P (r >>= f)
unfolding ◌>>=◌
bind-both Q P (ok a) f q bad good = good a q
bind-both Q P (err e) f q bad good = bad e

-- Where there is a result, it is as `P` says.
pub data Gives {E A : Type 0} (P : A → Type 0) : Result E A → Type 0 where
  gives : {a : A} → P a → Gives P (ok a)
  refuses : {e : E} → Gives P (err e)

given : {E A : Type 0} {P : A → Type 0} {a : A} → Gives {E = E} P (ok a) → P a
given (gives h) = h

pub Gives-ok : {E A : Type 0} (P : A → Type 0) (r : Result E A) (a : A) → Gives P r → r ≡ ok a → P a
Gives-ok P r a g e = given (subst (Gives P) e g)

pub Gives-bind :
    {E A B : Type 0} (Q : A → Type 0) (P : B → Type 0) (r : Result E A) (f : A → Result E B)
    → Gives Q r
    → ((a : A) → Q a → Gives P (f a))
    → Gives P (r >>= f)
unfolding ◌>>=◌
Gives-bind Q P (ok a) f (gives h) k = k a h
Gives-bind Q P (err e) f refuses k = refuses

pub bind-Gives :
    {E A B : Type 0} (P : B → Type 0) (r : Result E A) (f : A → Result E B)
    → ((a : A) → r ≡ ok a → Gives P (f a))
    → Gives P (r >>= f)
unfolding ◌>>=◌
bind-Gives P (ok a) f k = k a refl
bind-Gives P (err e) f k = refuses

pub require-Gives :
    {E B : Type 0} (P : B → Type 0) (test : Bool) (e : E) (f : Unit {0} → Result E B)
    → (test ≡ true → Gives P (f tt))
    → Gives P (require test e >>= f)
require-Gives P test e f k = require-both (Gives P) test e f (λ _. refuses) k

pub or_fail-Gives :
    {E A B : Type 0} (P : B → Type 0) (o : Option A) (e : E) (f : A → Result E B)
    → ((a : A) → o ≡ some a → Gives P (f a))
    → Gives P (or_fail o e >>= f)
or_fail-Gives P o e f k = or_fail-both (Gives P) o e f (λ _. refuses) k

pub Gives-map :
    {E A : Type 0} (P Q : A → Type 0) (r : Result E A)
    → Gives P r
    → ((a : A) → P a → Q a)
    → Gives Q r
Gives-map P Q (ok a) (gives h) k = gives (k a h)
Gives-map P Q (err e) refuses k = refuses
