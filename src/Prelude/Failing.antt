-- ===== src/Prelude/Failing.antt =====
-- Calls that may fail and change a state, with a rule for their sequence.

use mathlib.Core.Path.{◌≡◌, refl}
use mathlib.Core.Bool.{Bool, true, false}
use mathlib.Core.Option.{Option, none, some}

-- A call that may fail and changes the state `S` either way.
abbrev pub M : Type 0 → Type 0 → Type 0
M S A = S → Option A × S

infixl 5 ◌>>=◌ ◌>>◌
abbrev pub proceed : {S A B : Type 0} → Option A × S → (A → M S B) → Option B × S
proceed (none, s) f = (none, s)
proceed (some a, s) f = f a s

abbrev pub ◌>>=◌ : {S A B : Type 0} → M S A → (A → M S B) → M S B
◌>>=◌ m f s = proceed (m s) f

abbrev pub ◌>>◌ : {S B : Type 0} → M S (Unit {0}) → M S B → M S B
◌>>◌ m k = m >>= λ _. k

abbrev pub pure : {S A : Type 0} → A → M S A
pure a s = (some a, s)

-- `if (!test) return false;`
abbrev pub guard : {S : Type 0} → Bool → M S (Unit {0})
guard true s = (some tt, s)
guard false s = (none, s)

-- What holds behind a call: of the answer and the state, or of the state where it failed.
abbrev pub Ends : {S A : Type 0} → (A → S → Type 0) → (S → Type 0) → Option A × S → Type 0
Ends Q E (none, s) = E s
Ends Q E (some a, s) = Q a s

pub Ends-bind :
    {S A B : Type 0} (Q : A → S → Type 0) (R : B → S → Type 0) (E : S → Type 0) (r : Option A × S)
    (f : A → M S B)
    → Ends Q E r
    → ((a : A) (s : S) → Q a s → Ends R E (f a s))
    → Ends R E (proceed r f)
Ends-bind Q R E (none, s) f h k = h
Ends-bind Q R E (some a, s) f h k = k a s h

abbrev pub Anywhere : {S : Type 0} → S → Type 0
Anywhere s = Unit {0}

-- A constructor that returns early leaves the object unusable.
abbrev pub prepared : {S : Type 0} → Option (Unit {0}) × S → Option S
prepared (none, s) = none
prepared (some _, s) = some s

pub prepared-Ends :
    {S : Type 0} (P : S → Type 0) (r : Option (Unit {0}) × S) (s : S)
    → Ends (λ _ s'. P s') Anywhere r
    → prepared r ≡ some s
    → P s
prepared-Ends P (none, s') s h e = cc
prepared-Ends P (some a, s') s h e = let same : s' ≡ s = cc in rw (← same) h

pub Ends-map :
    {S T A : Type 0} (P : A → S → Type 0) (Q : A → T → Type 0) (g : S → T) (r : Option A × S)
    → Ends P Anywhere r
    → ((a : A) (s : S) → P a s → Q a (g s))
    → Ends Q Anywhere (r.0, g r.1)
Ends-map P Q g (none, s) h k = tt
Ends-map P Q g (some a, s) h k = k a s h

-- A guard passes only if the test holds.
pub guard-Ends :
    {S : Type 0} (test : Bool) (E : S → Type 0) (s : S)
    → E s
    → Ends (λ _ s'. (test ≡ true) × E s') E (guard test s)
guard-Ends true E s h = (refl, h)
guard-Ends false E s h = h

pub guard_keeps :
    {S : Type 0} (test : Bool) (E : S → Type 0) (s : S) → E s → Ends (λ _ s'. E s') E (guard test s)
guard_keeps true E s h = h
guard_keeps false E s h = h
