-- ===== src/Common/Results.antt =====
-- A call that may throw, with the type of what it throws.
use mathlib.Core.Path.{◌≡◌, refl, subst}
use mathlib.Core.Bool.{Bool, true, false}
use trax_os.Common.Tests.{if◌then◌else◌}

pub data Result {ℓ κ} (E : Type ℓ) (A : Type κ) : Type (ℓ ⊔ κ) where
  ok : A → Result E A
  err : E → Result E A

infixl 5 ◌>>=◌ ◌>>◌
abbrev pub ◌>>=◌ {ℓ κ μ} :
    {E : Type ℓ} {A : Type κ} {B : Type μ} → Result E A → (A → Result E B) → Result E B
ok a >>= f = f a
err e >>= f = err e

abbrev pub ◌>>◌ {ℓ κ} : {E : Type ℓ} {B : Type κ} → Result E (Unit {0}) → Result E B → Result E B
m >> k = m >>= λ _. k

-- `if (!b) throw e`
abbrev pub guard {ℓ} : {E : Type ℓ} → Bool → E → Result E (Unit {0})
guard true e = ok tt
guard false e = err e

-- What holds of the value, if the call returns one.
abbrev pub WhenOk {ℓ κ μ} : {E : Type ℓ} {A : Type κ} → (A → Type μ) → Result E A → Type μ
WhenOk P (ok a) = P a
WhenOk P (err e) = Unit

module _ {ℓ} {E A B : Type ℓ} (P : B → Type ℓ) where
  pub WhenOk-bind :
      (m : Result E A) (f : A → Result E B)
      → ((a : A) → m ≡ ok a → WhenOk P (f a))
      → WhenOk P (m >>= f)
  WhenOk-bind (ok a) f h = h a refl
  WhenOk-bind (err e) f h = tt

module _ {ℓ} {E B : Type ℓ} (P : B → Type ℓ) where
  pub WhenOk-guard :
      (b : Bool) (e : E) (k : Result E B) → (b ≡ true → WhenOk P k) → WhenOk P (guard b e >> k)
  WhenOk-guard true e k h = h refl
  WhenOk-guard false e k h = tt

pub WhenOk-eq-ok {ℓ κ μ} :
    {E : Type ℓ} {A : Type κ} (P : A → Type μ) (m : Result E A) {a : A}
    → WhenOk P m
    → m ≡ ok a
    → P a
WhenOk-eq-ok P m h e = subst (WhenOk P) e h

-- Inversion of a call that returns after another.
pub bind-eq-ok {ℓ κ μ} :
    {E : Type ℓ} {A : Type κ} {B : Type μ} (m : Result E A) (f : A → Result E B) {b : B}
    → (m >>= f) ≡ ok b
    → (a : A) × (m ≡ ok a) × (f a ≡ ok b)
bind-eq-ok (ok a) f h = (a, refl, h)
bind-eq-ok (err e) f h = cc

module _ {ℓ} {E B : Type ℓ} (P : B → Type ℓ) where
  pub WhenOk-if :
      (b : Bool) (x y : Result E B) → WhenOk P x → WhenOk P y → WhenOk P (if b then x else y)
  WhenOk-if true x y h k = h
  WhenOk-if false x y h k = k

  pub WhenOk-always : (m : Result E B) → ((b : B) → P b) → WhenOk P m
  WhenOk-always (ok b) h = h b
  WhenOk-always (err e) h = tt

pub WhenOk-mono {ℓ} :
    {E B : Type ℓ} (P Q : B → Type ℓ)
    → ((b : B) → P b → Q b)
    → (m : Result E B) → WhenOk P m
    → WhenOk Q m
WhenOk-mono P Q h (ok b) k = h b k
WhenOk-mono P Q h (err e) k = tt

pub WhenOk-test {ℓ} :
    {E A : Type ℓ} (P : A → Type ℓ) (b : Bool) (a : A) (e : E)
    → (b ≡ true → P a)
    → WhenOk P (if b then ok a else err e)
WhenOk-test P true a e h = h refl
WhenOk-test P false a e h = tt

pub guard-eq-ok {ℓ} : {E : Type ℓ} (b : Bool) (e : E) {u : Unit {0}} → guard b e ≡ ok u → b ≡ true
guard-eq-ok true e h = refl
guard-eq-ok false e h = cc
