-- ===== src/Generator/Burst.antt =====
-- src/bus_generator/gen_application.cpp: burst mode (`tx_burst_worker_cycle`, `make_r_burst_plans`,
-- `total_burst`, `CheckBurstFits`). The whole second is staged first and then leaves at its boundary.
pub mod Plans
pub mod Stages
pub mod Staged
pub mod Delivery
pub mod Stopped
pub mod Fits
use process_bus.Prelude.{
  ℕ, zero, suc, ◌+◌, ◌-◌, ◌*◌, ◌%◌, ◌^◌, Bool, true, false, ◌&&◌, Option, none, some, List, [], ◌∷◌,
  ◌++◌, length, take, drop, ltb, leb, ◌==◌, if◌then◌else◌,
}
use process_bus.Prelude.Result.{Result, ok, err}
use process_bus.Generator.{ied_slice, make_burst_plan}
use process_bus.Generator.Sender.{Worker, accepted, burst_size, amend_all}

-- What `rte_pktmbuf_alloc_bulk` answers.
pub data Alloc : Type 0 where
  alloc_failed : Alloc
  allocated : Alloc

-- What a second meets. `allocs` are the answers of the staging loop; when they end, `doWork` is
-- false. `still_on` is `doWork` behind the loop and `now` the clock there. `rooms` are the numbers of
-- packets that the queue has room for, round by round of the fire loop; when they end, `doWork` is
-- false.
pub record Second : Type 0 where
  pub allocs : List Alloc
  pub still_on : Bool
  pub now : ℕ
  pub rooms : List ℕ

-- A worker and `secStartTick`, a uint64_t.
pub record BurstWorker (G P : Type 0) : Type 0 where
  pub worker : Worker G P
  pub sec_start_tick : ℕ

module _ {P : Type 0} where
  -- The fire loop over the staged packets that are left: those sent, those left when it ends, and
  -- `txRetryCnt`. The unaccepted tail is offered again.
  unfoldable pub fire : List ℕ → List P → ℕ → List P × List P × ℕ
  fire rooms [] retries = ([], [], retries)
  fire [] (m ∷ ms) retries = ([], m ∷ ms, retries)
  fire (room ∷ rooms) (m ∷ ms) retries =
      let num = length (take burst_size (m ∷ ms)) in
      let nb = accepted room num in
      let retries' = if nb == 0 then (retries + 1) % 2 ^ 64 else retries in
      let (sent, left, total) = fire rooms (drop nb (m ∷ ms)) retries' in
      (take nb (m ∷ ms) ++ sent, left, total)

-- The start of the second and `txLateCnt`.
unfoldable pub resync : ℕ → ℕ → ℕ → ℕ → ℕ × ℕ
resync ticks_per_sec now sec_start_tick late =
    let next = (sec_start_tick + ticks_per_sec) % 2 ^ 64 in
    if ltb next now then (now, (late + 1) % 2 ^ 64) else (next, late)

module _ {G P : Type 0} (amend : G → ℕ → G × P) where
  -- The staging loop over the part of the plan that is left: the generator, the staged packets and
  -- whether the plan is done.
  unfoldable pub stage : List Alloc → List ℕ → G → G × List P × Bool
  unfolding amend_all
  stage allocs [] g = (g, [], true)
  stage [] (d ∷ ds) g = (g, [], false)
  stage (alloc_failed ∷ allocs) (d ∷ ds) g = stage allocs (d ∷ ds) g
  stage (allocated ∷ allocs) (d ∷ ds) g =
      let (g1, now_staged) = amend_all amend (take burst_size (d ∷ ds)) g in
      let (g2, later_staged, complete) = stage allocs (drop burst_size (d ∷ ds)) g1 in
      (g2, now_staged ++ later_staged, complete)

  -- The run is stopping: what is staged is freed.
  abbrev pub stop_staged : BurstWorker G P → G → List P → BurstWorker G P
  stop_staged b g staged = record b {
    worker = record b.worker { gen = g; freed = b.worker.freed ++ staged };
  }

  abbrev pub fired : BurstWorker G P → G → ℕ × ℕ → List P × List P × ℕ → BurstWorker G P × Bool
  fired b g (tick, late) (sent, left, retries) =
      let w = b.worker in
      (
        record {
          worker = record {
            gen = g;
            sent = w.sent ++ sent;
            freed = w.freed ++ left;
            stat = record w.stat {
              tx_pkt_cnt = (w.stat.tx_pkt_cnt + length sent) % 2 ^ 64;
              tx_retry_cnt = retries;
              tx_late_cnt = late;
            };
          };
          sec_start_tick = tick;
        },
        length left == 0,
      )

  -- A round of the main loop, and whether another one may follow: the loop ends where `doWork` has
  -- turned false.
  unfoldable pub burst_second : ℕ → List ℕ → Second → BurstWorker G P → BurstWorker G P × Bool
  unfolding stage fire resync
  burst_second ticks_per_sec plan s b =
      let (g, staged, complete) = stage s.allocs plan b.worker.gen in
      let stat = b.worker.stat in
      if complete && s.still_on
      then fired b g (resync ticks_per_sec s.now b.sec_start_tick stat.tx_late_cnt)
          (fire s.rooms staged stat.tx_retry_cnt)
      else (stop_staged b g staged, false)

  -- The main loop over the seconds of a run.
  unfoldable pub burst_seconds : ℕ → List ℕ → List Second → BurstWorker G P → BurstWorker G P
  burst_seconds ticks_per_sec plan [] b = b
  burst_seconds ticks_per_sec plan (s ∷ ss) b =
      let (b', on) = burst_second ticks_per_sec plan s b in
      elim on [ true ↦ burst_seconds ticks_per_sec plan ss b' | false ↦ b' ]

  -- The function throws if the plan is empty.
  unfoldable pub tx_burst_worker_cycle :
      ℕ → List ℕ → List Second → BurstWorker G P → Option (BurstWorker G P)
  tx_burst_worker_cycle ticks_per_sec [] ss b = none
  tx_burst_worker_cycle ticks_per_sec (d ∷ ds) ss b =
      some (burst_seconds ticks_per_sec (d ∷ ds) ss b)

-- `make_r_burst_plans` for `n` workers from the `i`-th on, with the number of transmit units that the
-- generator of each has.
unfoldable pub make_r_burst_plans : ℕ → ℕ → List ℕ → ℕ → List (List ℕ)
make_r_burst_plans num workers [] i = []
make_r_burst_plans num workers (units ∷ rest) i =
    let (lo, hi) = ied_slice num workers i in
    make_burst_plan (hi - lo) units ∷ make_r_burst_plans num workers rest (i + 1)

unfoldable pub total_burst : List (List ℕ) → ℕ
total_burst [] = 0
total_burst (p ∷ plans) = length p + total_burst plans

-- The constants of the platform.
pub record Platform : Type 0 where
  pub generator_tx_desc : ℕ
  pub mempool_cache_size : ℕ
  pub generator_mbuf_num : ℕ

-- `CheckBurstFits` throws, here error 1, or warns at most. The sum is a uint64_t.
unfoldable pub check_burst_fits : Platform → ℕ → ℕ → Result (Unit {0})
check_burst_fits platform staged workers =
    let need =
      (staged + workers * platform.generator_tx_desc + workers * platform.mempool_cache_size)
      % 2 ^ 64 in
    if leb platform.generator_mbuf_num need then err 1 else ok tt
