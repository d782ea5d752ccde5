-- ===== src/Generator/Application/Work.antt =====
-- What `GenApplication` has to send, and that burst mode and paced mode start the same generators for it.
use process_bus.Prelude.{ℕ, ◌≡◌, refl, Bool, List, [], ltb, if◌then◌else◌, inl, inr, Bool-cases}
use process_bus.Generator.Burst.{Platform}
use process_bus.Generator.Units.{sv80, sv256}
use process_bus.Generator.Application.{GenApplication, Outcome, done}
use process_bus.Generator.Application.Run.{
  Gen, goose_gen, sv_gen, Amend, amend_goose, amend_sv, Started, paced_single, paced_workers,
  burst_workers, burst_single, run_burst_cycles, run_paced, tx_unit_num, r_goose_factory,
  r_sv_factory, r_goose_amend, r_sv_amend,
}

-- Nothing, a generator alone with its streams and repetitions, or streams that workers share.
pub data Work : Type 0 where
  idle : Work
  alone : Gen → Amend → ℕ → ℕ → Work
  shared : ℕ → (ℕ → ℕ → Gen) → Amend → Work

module _ (platform : Platform) (lcores : List ℕ) (app : GenApplication) where
  -- The first kind of packets that is asked for, L2 ones before routable ones.
  abbrev pub work_of : Work
  work_of =
      if ltb 0 app.goose_num
      then alone (goose_gen app.goose_num app.goose_send_freq app.goose_entries) amend_goose
          app.goose_num app.goose_send_freq
      else if ltb 0 app.sv80_num
      then alone (sv_gen app.sv80_num sv80) (amend_sv sv80) app.sv80_num
          (tx_unit_num (sv_gen app.sv80_num sv80))
      else if ltb 0 app.sv256_num
      then alone (sv_gen app.sv256_num sv256) (amend_sv sv256) app.sv256_num
          (tx_unit_num (sv_gen app.sv256_num sv256))
      else if ltb 0 app.rgoose_num
      then shared app.rgoose_num (r_goose_factory platform lcores app)
          (r_goose_amend platform lcores app)
      else if ltb 0 app.rsv80_num
      then shared app.rsv80_num (r_sv_factory platform lcores app sv80)
          (r_sv_amend platform lcores app sv80)
      else if ltb 0 app.rsv256_num
      then shared app.rsv256_num (r_sv_factory platform lcores app sv256)
          (r_sv_amend platform lcores app sv256)
      else idle

  module _ (makes : Gen → Bool) where
    abbrev pub start_paced : Work → Outcome (List Started)
    start_paced idle = done []
    start_paced (alone gen amend num reps) = paced_single platform lcores app makes gen amend
    start_paced (shared num factory amend) =
        paced_workers platform lcores app makes num factory amend

    abbrev pub start_burst : Work → Outcome (List Started)
    start_burst idle = done []
    start_burst (alone gen amend num reps) =
        burst_single platform lcores app makes gen amend num reps
    start_burst (shared num factory amend) =
        burst_workers platform lcores app makes num factory amend

    -- Burst mode and paced mode start the same, though they branch differently: the generators and the
    -- writing functions of the first kind of packets that is asked for, L2 ones before routable ones, and
    -- in order GOOSE, SV80, SV256.
    pub run_paced-work :
        (run_paced platform lcores app makes ≡ start_paced work_of)
        × (run_burst_cycles platform lcores app makes ≡ start_burst work_of)
    unfolding run_paced run_burst_cycles
    run_paced-work = (elim (Bool-cases (ltb 0 app.goose_num)) [
      | inl e6 ↦ rw (e6) (refl, refl)
      | inr e6 ↦ rw (e6) (elim (Bool-cases (ltb 0 app.sv80_num)) [
        | inl e5 ↦ rw (e5) (refl, refl)
        | inr e5 ↦ rw (e5) (elim (Bool-cases (ltb 0 app.sv256_num)) [
          | inl e4 ↦ rw (e4) (refl, refl)
          | inr e4 ↦ rw (e4) (elim (Bool-cases (ltb 0 app.rgoose_num)) [
            | inl e3 ↦ rw (e3) (refl, refl)
            | inr e3 ↦ rw (e3) (elim (Bool-cases (ltb 0 app.rsv80_num)) [
              | inl e2 ↦ rw (e2) (refl, refl)
              | inr e2 ↦ rw (e2) (elim (Bool-cases (ltb 0 app.rsv256_num)) [
                | inl e1 ↦ rw (e1) (refl, refl)
                | inr e1 ↦ rw (e1) (refl, refl)
              ])
            ])
          ])
        ])
      ])
    ])
