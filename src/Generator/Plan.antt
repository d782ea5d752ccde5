-- ===== src/Generator/Plan.antt =====
-- A burst holds each stream as often as it is to be sent in a second.
use process_bus.Prelude.{
  ℕ, zero, suc, ◌+◌, ◌*◌, ◌≡◌, refl, ap, ◌∙◌, arith, ltb, leb, ◌&&◌, ◌==◌, if◌then◌else◌, List, [],
  ◌∷◌, ◌++◌, length, length-append, consecutive,
}
use native.Mathlib.Nat.{suc-mul}
use process_bus.Generator.{one_round, make_burst_plan}

-- How often `s` is in the list.
abbrev pub times : ℕ → List ℕ → ℕ
times s [] = 0
times s (x ∷ xs) = (if x == s then 1 else 0) + times s xs

times-append : (s : ℕ) (xs ys : List ℕ) → times s (xs ++ ys) ≡ times s xs + times s ys
times-append s [] ys = omega arith
times-append s (x ∷ xs) ys = ground (arith, times-append s xs ys)

times-one_round :
    (n a s : ℕ) → times s (one_round n a) ≡ (if leb a s && ltb s (a + n) then 1 else 0)
unfolding one_round
times-one_round zero a s = ground arith
times-one_round (suc n) a s = ground (arith, times-one_round n (a + 1) s)

length-one_round : (n a : ℕ) → length (one_round n a) ≡ n
unfolding one_round
length-one_round zero a = refl
length-one_round (suc n) a = ap suc (length-one_round n (a + 1))

pub one_round-eq : (n a : ℕ) → one_round n a ≡ consecutive a n
unfolding one_round
one_round-eq zero a = refl
one_round-eq (suc n) a = ap (λ xs. a ∷ xs) (one_round-eq n (a + 1))

-- A burst plan holds each stream as often as a second has repetitions, no other stream, and so as
-- many packets as there are streams times the repetitions.
pub times-make_burst_plan :
    (streams reps s : ℕ)
    → (times s (make_burst_plan streams reps) ≡ (if ltb s streams then reps else 0))
      × (length (make_burst_plan streams reps) ≡ reps * streams)
unfolding make_burst_plan
times-make_burst_plan streams zero s = (ground arith, omega arith)
times-make_burst_plan streams (suc reps) s =
    let (count, size) = times-make_burst_plan streams reps s in
    (
      times-append s (one_round streams 0) (make_burst_plan streams reps)
          ∙ ground (arith, count, times-one_round streams 0 s),
      length-append (one_round streams 0) (make_burst_plan streams reps)
          ∙ rw (length-one_round streams 0, size, suc-mul reps streams) (omega arith),
    )
