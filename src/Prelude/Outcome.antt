-- ===== src/Prelude/Outcome.antt =====
-- Computations that may raise, and what is known of how they end.
use mathlib.Core.Path.{◌≡◌, refl}
use mathlib.Core.Bool.{Bool, true, false}

pub data Result {ℓ} (E : Type 0) (A : Type ℓ) : Type ℓ where
  ok : A → Result E A
  err : E → Result E A

infixl 5 ◌>>=◌ ◌>>◌
abbrev pub ◌>>=◌ {ℓ κ} :
    {E : Type 0} {A : Type ℓ} {B : Type κ} → Result E A → (A → Result E B) → Result E B
ok a >>= f = f a
err e >>= f = err e

abbrev pub ◌>>◌ {ℓ} : {E : Type 0} {B : Type ℓ} → Result E (Unit {0}) → Result E B → Result E B
m >> k = m >>= λ _. k

-- `if condition: raise error`
abbrev pub raise_if : {E : Type 0} → Bool → E → Result E (Unit {0})
raise_if true e = err e
raise_if false e = ok tt

-- A result that holds `P` of what is returned and `Q` of what is raised.
abbrev pub Post {ℓ κ} :
    {E : Type 0} {A : Type ℓ} → (E → Type κ) → (A → Type κ) → Result E A → Type κ
Post Q P (ok a) = P a
Post Q P (err e) = Q e

module _ {ℓ κ ι} {E : Type 0} {A : Type ℓ} {B : Type κ} (Q : E → Type ι) where
  pub Post-bind :
      (P : A → Type ι) (R : B → Type ι) (m : Result E A) (f : A → Result E B)
      → Post Q P m
      → ((a : A) → P a → Post Q R (f a))
      → Post Q R (m >>= f)
  Post-bind P R (ok a) f h k = k a h
  Post-bind P R (err e) f h k = h

module _ {κ ι} {E : Type 0} {B : Type κ} (Q : E → Type ι) where
  -- After a guard that did not raise, its condition is false.
  pub Post-raise_if :
      (R : B → Type ι) (b : Bool) (e : E) (k : Result E B)
      → Q e
      → (b ≡ false → Post Q R k)
      → Post Q R (raise_if b e >> k)
  Post-raise_if R true e k q h = q
  Post-raise_if R false e k q h = h refl

module _ {ℓ ι} {E : Type 0} {A : Type ℓ} (Q : E → Type ι) (P R : A → Type ι) where
  pub Post-mono : (m : Result E A) → ((a : A) → P a → R a) → Post Q P m → Post Q R m
  Post-mono (ok a) f h = f a h
  Post-mono (err e) f h = h

  -- What a successful result satisfies.
  pub Post-ok : (m : Result E A) {a : A} → Post Q P m → m ≡ ok a → P a
  Post-ok m h e = let moved : Post Q P (ok _) = rw e at h in moved

-- Inversion of a `do` block that returned.
pub bind-eq-ok {ℓ κ} :
    {E : Type 0} {A : Type ℓ} {B : Type κ} (m : Result E A) (f : A → Result E B) {b : B}
    → (m >>= f) ≡ ok b
    → (a : A) × (m ≡ ok a) × (f a ≡ ok b)
bind-eq-ok (ok a) f h = (a, refl, h)
bind-eq-ok (err e) f h = cc

pub raise_if-eq-ok {κ} :
    {E : Type 0} {B : Type κ} (b : Bool) (e : E) (k : Result E B) {x : B}
    → (raise_if b e >> k) ≡ ok x
    → (b ≡ false) × (k ≡ ok x)
raise_if-eq-ok true e k h = cc
raise_if-eq-ok false e k h = (refl, h)
