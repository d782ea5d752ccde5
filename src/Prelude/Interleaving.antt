-- ===== src/Prelude/Interleaving.antt =====
-- Lists made of two others, and the part of a list that a test selects.
use Prim.Native.Nat.{ℕ, zero, suc, ◌+◌}
use mathlib.Core.Path.{◌≡◌, refl, ap}
use mathlib.Core.Bool.{Bool, true, false}
use mathlib.Core.Logic.{inl, inr}
use mathlib.Core.List.{List, [], ◌∷◌, ◌++◌}
use native.Mathlib.Omega.{arith}
use process_bus.Prelude.Lists.{length, take, drop}
use process_bus.Prelude.Tests.{if◌then◌else◌, Bool-cases}

-- The third list is made of the other two, each in its order.
pub data Interleaved {P : Type 0} : List P → List P → List P → Type 0 where
  finished : Interleaved [] [] []
  from_left : {x : P} {xs ys zs : List P} → Interleaved xs ys zs → Interleaved (x ∷ xs) ys (x ∷ zs)
  from_right : {y : P} {xs ys zs : List P} → Interleaved xs ys zs → Interleaved xs (y ∷ ys) (y ∷ zs)

module _ {P : Type 0} where
  Interleaved-right : (ys : List P) → Interleaved [] ys ys
  Interleaved-right [] = finished
  Interleaved-right (y ∷ ys) = from_right (Interleaved-right ys)

  pub Interleaved-take-drop : (n : ℕ) (ps : List P) → Interleaved (take n ps) (drop n ps) ps
  Interleaved-take-drop zero ps = Interleaved-right ps
  Interleaved-take-drop (suc n) [] = finished
  Interleaved-take-drop (suc n) (p ∷ ps) = from_left (Interleaved-take-drop n ps)

  pub Interleaved-append :
      {xs ys zs xs' ys' zs' : List P}
      → Interleaved xs ys zs
      → Interleaved xs' ys' zs'
      → Interleaved (xs ++ xs') (ys ++ ys') (zs ++ zs')
  Interleaved-append finished k = k
  Interleaved-append (from_left h) k = from_left (Interleaved-append h k)
  Interleaved-append (from_right h) k = from_right (Interleaved-append h k)

  -- Both parts together are as long as the whole.
  pub length-Interleaved :
      {xs ys zs : List P} → Interleaved xs ys zs → length xs + length ys ≡ length zs
  length-Interleaved finished = omega arith
  length-Interleaved (from_left h) = omega (arith, length-Interleaved h)
  length-Interleaved (from_right h) = omega (arith, length-Interleaved h)

module _ {P : Type 0} (test : P → Bool) where
  abbrev pub select : List P → List P
  select [] = []
  select (p ∷ ps) = if test p then p ∷ select ps else select ps

  pub select-append : (ps qs : List P) → select (ps ++ qs) ≡ select ps ++ select qs
  select-append [] qs = refl
  select-append (p ∷ ps) qs = ground (arith, select-append ps qs)

  pub Interleaved-select :
      {xs ys zs : List P} → Interleaved xs ys zs → Interleaved (select xs) (select ys) (select zs)
  Interleaved-select finished = finished
  Interleaved-select (from_left {x = x} h) = elim (Bool-cases (test x)) [
    | inl taken ↦ rw taken (from_left (Interleaved-select h))
    | inr passed ↦ rw passed (Interleaved-select h)
  ]
  Interleaved-select (from_right {y = y} h) = elim (Bool-cases (test y)) [
    | inl taken ↦ rw taken (from_right (Interleaved-select h))
    | inr passed ↦ rw passed (Interleaved-select h)
  ]

select_step :
    {P : Type 0} (f g : P → Bool) (b : Bool) (p : P) (ps : List P)
    → f p ≡ true
    → select f (select g ps) ≡ (if b then select f ps else [])
    → select f (if b then p ∷ select g ps else select g ps) ≡ (if b then p ∷ select f ps else [])
select_step f g true p ps taken rest = rw taken (ap (λ xs. p ∷ xs) rest)
select_step f g false p ps taken rest = rest

-- To select from a selection whose test answers `b` for all that the other test selects.
pub select_nested :
    {P : Type 0} (f g : P → Bool) (b : Bool) (ps : List P)
    → ((p : P) → f p ≡ true → g p ≡ b)
    → select f (select g ps) ≡ (if b then select f ps else [])
select_nested f g true [] h = refl
select_nested f g false [] h = refl
select_nested f g b (p ∷ ps) h = elim (Bool-cases (f p)) [
  | inl taken ↦ rw (taken, h p taken) (select_step f g b p ps taken (select_nested f g b ps h))
  | inr passed ↦ elim (Bool-cases (g p)) [
    | inl kept ↦ rw (kept, passed) (select_nested f g b ps h)
    | inr dropped ↦ rw (dropped, passed) (select_nested f g b ps h)
  ]
]
