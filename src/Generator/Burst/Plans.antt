-- ===== src/Generator/Burst/Plans.antt =====
-- Plans, second after second, are rounds over the streams.
use process_bus.Prelude.{
  ℕ, zero, suc, ◌+◌, ◌*◌, ◌≡◌, refl, sym, ap, ◌∙◌, arith, List, [], ◌++◌, consecutive,
}
use mathlib.Core.List.{append_assoc}
use native.Mathlib.Nat.{suc-mul, zero-mul}
use process_bus.Generator.{make_burst_plan}
use process_bus.Generator.Plan.{one_round-eq}
use process_bus.Generator.Sender.Cycle.{rounds}

-- The plan `n` times.
abbrev pub repeated : ℕ → List ℕ → List ℕ
repeated zero plan = []
repeated (suc n) plan = plan ++ repeated n plan

rounds-add : (m n ieds : ℕ) → rounds (m + n) ieds ≡ rounds m ieds ++ rounds n ieds
rounds-add zero n ieds = ap (λ k. rounds k ieds) (omega arith)
rounds-add (suc m) n ieds =
    let next : suc m + n ≡ suc (m + n) = omega arith in
    ap (λ k. rounds k ieds) next
    ∙ ap (λ xs. consecutive 0 ieds ++ xs) (rounds-add m n ieds)
    ∙ sym (append_assoc (consecutive 0 ieds) (rounds m ieds) (rounds n ieds))

make_burst_plan-rounds : (streams reps : ℕ) → make_burst_plan streams reps ≡ rounds reps streams
unfolding make_burst_plan
make_burst_plan-rounds streams zero = refl
make_burst_plan-rounds streams (suc reps) =
    rw (one_round-eq streams 0, make_burst_plan-rounds streams reps) refl

pub repeated-plan :
    (k streams reps : ℕ) → repeated k (make_burst_plan streams reps) ≡ rounds (k * reps) streams
repeated-plan zero streams reps = ap (λ n. rounds n streams) (sym (zero-mul reps))
repeated-plan (suc k) streams reps =
    let more : reps + k * reps ≡ suc k * reps = omega (arith, suc-mul k reps) in
    rw (make_burst_plan-rounds streams reps) (
      ap (λ xs. rounds reps streams ++ xs)
        (ap (repeated k) (sym (make_burst_plan-rounds streams reps)) ∙ repeated-plan k streams reps)
      ∙ sym (rounds-add reps (k * reps) streams)
      ∙ ap (λ n. rounds n streams) more)
