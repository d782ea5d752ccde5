-- ===== src/Generator/Application/Serves.antt =====
-- `GenApplication::Run` starts workers that send every stream once, in burst mode too, or it throws
-- with reason.

use process_bus.Prelude.{
  not, ◌&&◌, leb, ltb, ℕ, suc, ◌<◌, ◌≡◌, refl, ap, ◌∙◌, arith, Bool, true, false, Option, none,
  some, List, length, map, length-map, length-consecutive,
}
use process_bus.Generator.{make_burst_plan}
use process_bus.Generator.Burst.{Platform, make_r_burst_plans, total_burst}
use process_bus.Generator.Application.{
  GenApplication, CommandLine, make_application, Outcome, done, ◌>>◌, refuse_unless, link_down,
  pool_too_small, no_generator, no_tx_units, empty_plan,
}
use process_bus.Generator.Application.Config.{IsConfigured, make_application-IsConfigured}
use process_bus.Generator.Application.Run.{
  Gen, Started, make_r_workers, with_plans, run_burst_cycles, run_paced, run_application,
  tx_unit_num, is_r, pool_need, constructed, all_made, none_empty,
}
use process_bus.Generator.Application.Work.{
  Work, idle, alone, shared, work_of, start_paced, start_burst, run_paced-work,
}
use process_bus.Generator.Application.Asked.{asked, Suits, work_of-Suits}
use process_bus.Generator.Application.Coverage.{streams_of}
use process_bus.Generator.Application.Jobs.{Writes, work_of-Writes, paced-Fits, burst-Fits}
use process_bus.Generator.Application.Shares.{
  idle-Covers, alone-Covers, shared-Covers, length-make_r_workers, length-make_r_burst_plans,
  paced_gens, with_plans_gens,
}
use process_bus.Generator.Application.Reasons.{
  gens_of, plans_of, Serves, WorkServes, work-Serves, all_made-All, none_empty-All, not_all,
  too_full, guarded, branch, checked,
}

module _ (platform : Platform) (lcores : List ℕ) (app : GenApplication) (makes : Gen → Bool)
    (configured : IsConfigured (suc (length lcores)) app) (small : length lcores < 65536) where
  when_made :
      (work : Work) (k : Outcome (List Started))
      → WorkServes platform lcores app makes work k
      → WorkServes platform lcores app makes work (constructed makes (gens_of app work) >> k)
  when_made work k h =
      guarded (WorkServes platform lcores app makes work) (all_made makes (gens_of app work))
        no_generator k (λ _. h)
        (not_all (all_made makes (gens_of app work)) (all_made-All makes (gens_of app work)))

  when_filled :
      (work : Work) (k : Outcome (List Started))
      → app.burst ≡ true
      → WorkServes platform lcores app makes work k
      → WorkServes platform lcores app makes work
          (refuse_unless (none_empty (plans_of app work)) empty_plan >> k)
  when_filled work k bursts h =
      guarded (WorkServes platform lcores app makes work) (none_empty (plans_of app work))
        empty_plan k (λ _. h)
        (λ e.
          (bursts, not_all (none_empty (plans_of app work)) (none_empty-All (plans_of app work)) e))

  start_paced-WorkServes :
      (work : Work)
      → asked app < 4294967296
      → Suits app work
      → Writes app work
      → app.burst ≡ false
      → WorkServes platform lcores app makes work (start_paced platform lcores app makes work)
  start_paced-WorkServes idle fits s w no_burst = idle-Covers lcores app configured small s
  start_paced-WorkServes (alone gen amend num reps) fits s (kind, writes, _) no_burst =
      when_made (alone gen amend num reps) _ (
        guarded (WorkServes platform lcores app makes (alone gen amend num reps))
          (ltb 0 (tx_unit_num gen)) no_tx_units _
          (λ _.
            alone-Covers lcores app configured small gen amend num none s
              (record { kind = kind; writes = writes; plan = rw no_burst refl }, tt))
          (λ e. (no_burst, ground (arith, e))))
  start_paced-WorkServes (shared num factory amend) fits s w no_burst =
      when_made (shared num factory amend) _ (
        shared-Covers lcores app configured small num factory amend _ (omega (arith, s.1)) s
          (paced_gens _) (paced-Fits app lcores num factory amend w no_burst))

  start_burst-WorkServes :
      (work : Work)
      → asked app < 4294967296
      → Suits app work
      → Writes app work
      → app.burst ≡ true
      → WorkServes platform lcores app makes work (start_burst platform lcores app makes work)
  start_burst-WorkServes idle fits s w bursts = idle-Covers lcores app configured small s
  start_burst-WorkServes (alone gen amend num reps) fits s (kind, writes, rounds) bursts =
      let plan : List ℕ = make_burst_plan num reps in
      let count : length (streams_of gen) ≡ num = ap length s.0 ∙ length-consecutive num 0 in
      when_made (alone gen amend num reps) _ (
        checked (WorkServes platform lcores app makes (alone gen amend num reps)) platform
          (length plan) 1 _
          (when_filled (alone gen amend num reps) _ bursts (
            alone-Covers lcores app configured small gen amend num (some plan) s (
              record { kind = kind; writes = writes; plan = rw (bursts, count, ← rounds) refl },
              tt,
            )))
          (λ h. (bursts, h)))
  start_burst-WorkServes (shared num factory amend) fits s w bursts =
      let gens : List Gen = make_r_workers app.worker_num num factory app.worker_num 0 in
      let plans : List (List ℕ) = make_r_burst_plans num (length gens) (map tx_unit_num gens) 0 in
      let planned : length plans ≡ length gens =
        length-make_r_burst_plans num (length gens) (map tx_unit_num gens) 0
        ∙ length-map tx_unit_num gens in
      when_made (shared num factory amend) _ (
        checked (WorkServes platform lcores app makes (shared num factory amend)) platform
          (total_burst plans) app.worker_num _
          (when_filled (shared num factory amend) _ bursts (
            shared-Covers lcores app configured small num factory amend (with_plans gens plans)
              (omega (arith, s.1)) s (with_plans_gens gens plans planned)
              (rw (length-make_r_workers app.worker_num num factory app.worker_num 0) (
                burst-Fits app lcores num factory amend w bursts s.0 (omega (arith, s.1))
                  configured.some_worker))))
          (λ h. (bursts, h)))

  application-Serves :
      (link : Bool)
      → asked app < 4294967296
      → Serves platform lcores app makes link (run_application platform lcores app makes link)
  unfolding run_application
  application-Serves link fits =
      let P = Serves platform lcores app makes link in
      let work : Work = work_of platform lcores app in
      let (paced_same, burst_same) = run_paced-work platform lcores app makes in
      let suits = work_of-Suits platform lcores app in
      let writes = work_of-Writes platform lcores app in
      guarded P
        (not (
          is_r platform lcores app
          && leb platform.generator_mbuf_num (pool_need platform lcores app)))
        pool_too_small _
        (λ _.
          guarded P link link_down _
            (λ _.
              branch P app.burst (run_burst_cycles platform lcores app makes)
                (run_paced platform lcores app makes)
                (λ bursts.
                  work-Serves platform lcores app makes link _
                    (rw burst_same (start_burst-WorkServes work fits suits writes bursts)))
                (λ no_burst.
                  work-Serves platform lcores app makes link _
                    (rw paced_same (start_paced-WorkServes work fits suits writes no_burst))))
            (λ down. down))
        (λ full.
          too_full (is_r platform lcores app) platform.generator_mbuf_num
            (pool_need platform lcores app) full)

-- Once DPDK is set up, `Run` throws only if the rings and caches of the queues for routable packets take
-- all mbufs, if the link stays down, if the constructor of a generator fails, if an L2 generator without
-- burst mode has no transmit unit, or, in burst mode, if `CheckBurstFits` refuses the burst or a
-- worker's plan is empty. Else it starts workers that send each stream of the first kind of packets that
-- is asked for exactly once, in order, and no other stream, each on its own queue and with its own
-- statistics: as many as the constructor planned, and none if nothing is asked for. Each writes packets
-- of that kind with the function for the security mode, and has a plan only in burst mode, its own
-- generator's streams once for each of its transmit units; on a machine with up to 65536 lcores.
pub run_application-Serves :
    (wide : ℕ → ℕ) (cli : Option CommandLine) (platform : Platform) (lcores : List ℕ)
    (app : GenApplication) (makes : Gen → Bool) (link : Bool)
    → make_application wide cli (suc (length lcores)) ≡ done app
    → length lcores < 65536
    → asked app < 4294967296
    → Serves platform lcores app makes link (run_application platform lcores app makes link)
run_application-Serves wide cli platform lcores app makes link made small fits =
    application-Serves platform lcores app makes
      (make_application-IsConfigured wide cli (suc (length lcores)) app (omega arith) made) small
      link fits
