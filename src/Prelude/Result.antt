-- ===== src/Prelude/Result.antt =====
-- What a function answers that returns an `int` code: `err n` is the negative code -n. `stuck` is
-- no answer of the code; it says that a loop of the model ran out of fuel.
use Prim.Native.Nat.{ℕ}
use mathlib.Core.Path.{◌≡◌, refl}
use mathlib.Core.Logic.{◌≢◌, ◌⊎◌, inl, inr}
use mathlib.Core.Bool.{Bool, true, false}

pub data Result {ℓ} (A : Type ℓ) : Type ℓ where
  ok : A → Result A
  err : ℕ → Result A
  stuck : Result A

infixl 5 ◌>>=◌ ◌>>◌
abbrev pub ◌>>=◌ {ℓ κ} : {A : Type ℓ} {B : Type κ} → Result A → (A → Result B) → Result B
ok a >>= f = f a
err e >>= f = err e
stuck >>= f = stuck

abbrev pub ◌>>◌ {ℓ} : {B : Type ℓ} → Result (Unit {0}) → Result B → Result B
m >> k = m >>= λ _. k

-- An early `return -e` unless the test holds.
abbrev pub require : Bool → ℕ → Result (Unit {0})
require true e = ok tt
require false e = err e

-- A chain that succeeds has passed its first test.
pub require_ok {ℓ} :
    {A : Type ℓ} (b : Bool) (e : ℕ) (k : Result A) (a : A)
    → require b e >> k ≡ ok a
    → (b ≡ true) × (k ≡ ok a)
require_ok true e k a h = (refl, h)
require_ok false e k a h = cc

pub ok-injective {ℓ} : {A : Type ℓ} {a b : A} → ok a ≡ ok b → a ≡ b
ok-injective h = cc

pub Result-cases {ℓ} :
    {A : Type ℓ} (r : Result A) → ((a : A) × (r ≡ ok a)) ⊎ (((e : ℕ) × (r ≡ err e)) ⊎ (r ≡ stuck))
Result-cases (ok a) = inl (a, refl)
Result-cases (err e) = inr (inl (e, refl))
Result-cases stuck = inr (inr refl)

-- A chain that succeeds has a first part that succeeds.
pub bind_ok {ℓ κ} :
    {A : Type ℓ} {B : Type κ} (r : Result A) (f : A → Result B) (b : B)
    → r >>= f ≡ ok b
    → (a : A) × (r ≡ ok a) × (f a ≡ ok b)
bind_ok (ok a) f b e = (a, refl, e)
bind_ok (err c) f b e = cc
bind_ok stuck f b e = cc

-- A chain of parts that end ends.
pub bind-ne-stuck {ℓ κ} :
    {A : Type ℓ} {B : Type κ} (r : Result A) (f : A → Result B)
    → r ≢ stuck
    → ((a : A) → f a ≢ stuck)
    → r >>= f ≢ stuck
bind-ne-stuck (ok a) f h k = k a
bind-ne-stuck (err e) f h k = λ x. cc
bind-ne-stuck stuck f h k = absurd (h refl)

pub ok-ne-stuck {ℓ} : {A : Type ℓ} (a : A) → ok a ≢ stuck
ok-ne-stuck a e = cc
