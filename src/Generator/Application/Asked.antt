-- ===== src/Generator/Application/Asked.antt =====
-- The streams that are asked for on the command line of the generator.
use process_bus.Prelude.{ℕ, ◌≡◌, ◌≢◌, refl, arith, List, consecutive, ltb, Bool-cases, inl, inr}
use process_bus.Generator.Burst.{Platform}
use process_bus.Generator.Application.{GenApplication, r_num, first_of}
use process_bus.Generator.Application.Work.{Work, idle, alone, shared, work_of}
use process_bus.Generator.Application.Coverage.{streams_of, Counts}

-- The number of streams of the first kind of packets that is asked for, L2 ones before routable ones.
unfoldable pub asked : GenApplication → ℕ
asked app = first_of app.goose_num (
    first_of app.sv80_num
      (first_of app.sv256_num (first_of app.rgoose_num (first_of app.rsv80_num app.rsv256_num))))

abbrev pub Suits : GenApplication → Work → Type 0
Suits app idle = asked app ≡ 0
Suits app (alone gen amend num reps) =
    (streams_of gen ≡ consecutive 0 num) × (num ≡ asked app) × (num ≢ 0) × (r_num app ≡ 0)
Suits app (shared num factory amend) =
    Counts factory × (num ≡ asked app) × (num ≢ 0) × (r_num app ≡ num)

pub work_of-Suits :
    (platform : Platform) (lcores : List ℕ) (app : GenApplication)
    → Suits app (work_of platform lcores app)
unfolding asked
work_of-Suits platform lcores app = (elim (Bool-cases (ltb 0 app.goose_num)) [
  | inl e6 ↦ rw e6 (refl, ground (arith, e6), ground (arith, e6), ground (arith, e6))
  | inr e6 ↦ rw e6 (elim (Bool-cases (ltb 0 app.sv80_num)) [
    | inl e5 ↦ rw e5 (refl, ground (arith, e6, e5), ground (arith, e6, e5), ground (arith, e6, e5))
    | inr e5 ↦ rw e5 (elim (Bool-cases (ltb 0 app.sv256_num)) [
      | inl e4 ↦
          rw e4 (
            refl,
            ground (arith, e6, e5, e4),
            ground (arith, e6, e5, e4),
            ground (arith, e6, e5, e4),
          )
      | inr e4 ↦ rw e4 (elim (Bool-cases (ltb 0 app.rgoose_num)) [
        | inl e3 ↦ rw e3 (
          (λ lo n. refl),
          ground (arith, e6, e5, e4, e3),
          ground (arith, e6, e5, e4, e3),
          ground (arith, e6, e5, e4, e3),
        )
        | inr e3 ↦ rw e3 (elim (Bool-cases (ltb 0 app.rsv80_num)) [
          | inl e2 ↦ rw e2 (
            (λ lo n. refl),
            ground (arith, e6, e5, e4, e3, e2),
            ground (arith, e6, e5, e4, e3, e2),
            ground (arith, e6, e5, e4, e3, e2),
          )
          | inr e2 ↦ rw e2 (elim (Bool-cases (ltb 0 app.rsv256_num)) [
            | inl e1 ↦ rw e1 (
              (λ lo n. refl),
              ground (arith, e6, e5, e4, e3, e2, e1),
              ground (arith, e6, e5, e4, e3, e2, e1),
              ground (arith, e6, e5, e4, e3, e2, e1),
            )
            | inr e1 ↦ rw e1 (ground (arith, e6, e5, e4, e3, e2, e1))
          ])
        ])
      ])
    ])
  ])
])
