-- ===== src/Generator/Application/Run.antt =====
-- src/bus_generator/gen_application.cpp: which workers `GenApplication::Run` and `RunBurstCycles` start, on
-- which queue, with which generator. What a worker then does is modelled in Sender and Burst. Whether the
-- constructor of a generator returns is a parameter: libiec61850 makes its layer 2 skeleton, and a crypto
-- library the contexts of a routable one. Once DPDK is set up, its calls are taken to succeed.
use process_bus.Prelude.{
  ℕ, zero, suc, ◌+◌, ◌-◌, ◌*◌, ◌%◌, ◌^◌, Bool, true, not, ◌&&◌, ◌||◌, Option, none, some, List, [],
  ◌∷◌, length, map, leb, ltb, if◌then◌else◌,
}
use process_bus.Prelude.Result.{ok}
use process_bus.RSession.Layout.{SecurityMode, sec_none, sec_hmac, sec_gcm}
use process_bus.Generator.{ied_slice, make_burst_plan}
use process_bus.Generator.Units.{SvType, sv80, sv256, sv_units, generate_tx_units}
use process_bus.Generator.Sender.{burst_size}
use process_bus.Generator.Burst.{make_r_burst_plans, total_burst, Platform, check_burst_fits}
use process_bus.Generator.Application.{
  GenApplication, Outcome, done, refused, pool_too_small, link_down, burst_too_large, no_generator,
  no_tx_units, empty_plan, ◌>>◌, refuse_unless, wants_l2,
}

-- A generator by the arguments of its constructor, without `m_rframe`. The routable ones have the number
-- of streams and the first one, `baseIdx`.
pub data Gen : Type 0 where
  goose_gen : ℕ → ℕ → ℕ → Gen
  sv_gen : ℕ → SvType → Gen
  r_goose_gen : ℕ → ℕ → ℕ → ℕ → Gen
  r_sv_gen : ℕ → SvType → ℕ → Gen

-- The function that writes a packet.
pub data Amend : Type 0 where
  amend_goose : Amend
  amend_sv : SvType → Amend
  amend_r_goose : SecurityMode → Amend
  amend_r_sv : SvType → SecurityMode → Amend

-- A worker with its queue and its entry of `m_stats`; a burst worker has a plan.
pub record Started : Type 0 where
  pub gen : Gen
  pub amend : Amend
  pub queue : ℕ
  pub stat : ℕ
  pub plan : Option (List ℕ)

-- `GetTxUnits().size()`.
unfoldable pub tx_unit_num : Gen → ℕ
tx_unit_num (goose_gen n freq entries) = length (generate_tx_units n freq)
tx_unit_num (sv_gen n type) = length (sv_units n type)
tx_unit_num (r_goose_gen n freq entries base) = length (generate_tx_units n freq)
tx_unit_num (r_sv_gen n type base) = length (sv_units n type)

-- `make_r_workers` for `n` workers from the `i`-th on.
unfoldable pub make_r_workers : ℕ → ℕ → (ℕ → ℕ → Gen) → ℕ → ℕ → List Gen
make_r_workers workers num factory zero i = []
make_r_workers workers num factory (suc n) i =
    let (lo, hi) = ied_slice num workers i in
    factory lo ((hi + 4294967296 - lo) % 4294967296) ∷ make_r_workers workers num factory n (i + 1)

-- The loop over the worker lcores, with the generators and plans from `idx` on.
abbrev pub launch : Amend → List ℕ → ℕ → List (Gen × Option (List ℕ)) → List Started
launch amend [] idx jobs = []
launch amend (lcore ∷ lcores) idx [] = []
launch amend (lcore ∷ lcores) idx ((gen, plan) ∷ jobs) =
    record { gen = gen; amend = amend; queue = idx % 65536; stat = idx; plan = plan }
    ∷ launch amend lcores (idx + 1) jobs

-- `run_r_workers` and `run_r_burst_workers`: the first generator runs on the main lcore.
unfoldable pub run_r_workers : Amend → List ℕ → List (Gen × Option (List ℕ)) → List Started
run_r_workers amend lcores [] = []
run_r_workers amend lcores ((gen, plan) ∷ jobs) =
    record { gen = gen; amend = amend; queue = 0; stat = 0; plan = plan }
    ∷ launch amend lcores 1 jobs

-- The switch of `tx_r_packets_cycle_mt` and `tx_r_burst_cycle_mt`.
abbrev pub pick_amend : SecurityMode → Amend → Amend → Amend → Amend
pick_amend sec_none none_amend hmac_amend gcm_amend = none_amend
pick_amend sec_hmac none_amend hmac_amend gcm_amend = hmac_amend
pick_amend sec_gcm none_amend hmac_amend gcm_amend = gcm_amend

abbrev pub paced : Gen → Gen × Option (List ℕ)
paced gen = (gen, none)

abbrev pub with_plans : List Gen → List (List ℕ) → List (Gen × Option (List ℕ))
with_plans [] plans = []
with_plans (gen ∷ gens) [] = []
with_plans (gen ∷ gens) (plan ∷ plans) = (gen, some plan) ∷ with_plans gens plans

abbrev pub single : Gen → Amend → Option (List ℕ) → List Started
single gen amend plan = record { gen = gen; amend = amend; queue = 0; stat = 0; plan = plan } ∷ []

-- The constructors of the generators return.
abbrev pub all_made : (Gen → Bool) → List Gen → Bool
all_made makes [] = true
all_made makes (gen ∷ gens) = makes gen && all_made makes gens

abbrev pub constructed : (Gen → Bool) → List Gen → Outcome (Unit {0})
constructed makes gens = refuse_unless (all_made makes gens) no_generator

abbrev pub none_empty : List (List ℕ) → Bool
none_empty [] = true
none_empty (plan ∷ plans) = ltb 0 (length plan) && none_empty plans

abbrev pub check_fits : Platform → ℕ → ℕ → Outcome (Unit {0})
check_fits platform staged workers = elim (check_burst_fits platform staged workers) [
  | ok u ↦ done tt
  | _ ↦ refused burst_too_large
]

module _ (platform : Platform) (lcores : List ℕ) (app : GenApplication) where
  abbrev pub r_goose_factory : ℕ → ℕ → Gen
  r_goose_factory lo count = r_goose_gen count app.rgoose_send_freq app.goose_entries lo

  abbrev pub r_sv_factory : SvType → ℕ → ℕ → Gen
  r_sv_factory type lo count = r_sv_gen count type lo

  abbrev pub r_goose_amend : Amend
  r_goose_amend =
      pick_amend app.mode (amend_r_goose sec_none) (amend_r_goose sec_hmac) (amend_r_goose sec_gcm)

  abbrev pub r_sv_amend : SvType → Amend
  r_sv_amend type =
      pick_amend app.mode (amend_r_sv type sec_none) (amend_r_sv type sec_hmac)
        (amend_r_sv type sec_gcm)

  abbrev pub sv_type : ℕ → SvType
  sv_type num80 = if ltb 0 num80 then sv80 else sv256

  abbrev pub sv_num : ℕ → ℕ → ℕ
  sv_num num80 num256 = if ltb 0 num80 then num80 else num256

  abbrev pub is_r : Bool
  is_r = not (wants_l2 app) && (ltb 0 app.rgoose_num || ltb 0 app.rsv80_num || ltb 0 app.rsv256_num)

  abbrev pub tx_queues : ℕ
  tx_queues = if is_r then app.worker_num % 65536 else 1

  -- The mbufs that the rings and caches of the queues and a burst take.
  abbrev pub pool_need : ℕ
  pool_need =
      (tx_queues * platform.generator_tx_desc
        + tx_queues * platform.mempool_cache_size
        + burst_size)
      % 2 ^ 64

  module _ (makes : Gen → Bool) where
    -- `tx_packets_cycle` throws if there is no transmit unit.
    abbrev pub paced_single : Gen → Amend → Outcome (List Started)
    paced_single gen amend = do
      constructed makes (gen ∷ [])
      refuse_unless (ltb 0 (tx_unit_num gen)) no_tx_units
      done (single gen amend none)

    -- `tx_r_worker_cycle` does not look whether there is one.
    abbrev pub paced_workers : ℕ → (ℕ → ℕ → Gen) → Amend → Outcome (List Started)
    paced_workers num factory amend =
        let gens = make_r_workers app.worker_num num factory app.worker_num 0 in
        constructed makes gens >> done (run_r_workers amend lcores (map paced gens))

    -- `tx_burst_worker_cycle` throws if its plan is empty, before the barrier: then no worker passes it.
    abbrev pub burst_workers : ℕ → (ℕ → ℕ → Gen) → Amend → Outcome (List Started)
    burst_workers num factory amend =
        let gens = make_r_workers app.worker_num num factory app.worker_num 0 in
        let plans = make_r_burst_plans num (length gens) (map tx_unit_num gens) 0 in
        constructed makes gens
        >> (check_fits platform (total_burst plans) app.worker_num
            >> (refuse_unless (none_empty plans) empty_plan
                >> done (run_r_workers amend lcores (with_plans gens plans))))

    -- A single worker that bursts.
    abbrev pub burst_single : Gen → Amend → ℕ → ℕ → Outcome (List Started)
    burst_single gen amend num reps =
        let plan = make_burst_plan num reps in
        constructed makes (gen ∷ [])
        >> (check_fits platform (length plan) 1
            >> (refuse_unless (none_empty (plan ∷ [])) empty_plan
                >> done (single gen amend (some plan))))

    -- `RunBurstCycles`.
    unfoldable pub run_burst_cycles : Outcome (List Started)
    run_burst_cycles =
        let goose = goose_gen app.goose_num app.goose_send_freq app.goose_entries in
        let type = sv_type app.sv80_num in
        let num = sv_num app.sv80_num app.sv256_num in
        let r_type = sv_type app.rsv80_num in
        if ltb 0 app.goose_num
        then burst_single goose amend_goose app.goose_num app.goose_send_freq
        else if ltb 0 app.sv80_num || ltb 0 app.sv256_num
        then burst_single (sv_gen num type) (amend_sv type) num (tx_unit_num (sv_gen num type))
        else if ltb 0 app.rgoose_num
        then burst_workers app.rgoose_num r_goose_factory r_goose_amend
        else if ltb 0 app.rsv80_num || ltb 0 app.rsv256_num
        then burst_workers (sv_num app.rsv80_num app.rsv256_num) (r_sv_factory r_type)
            (r_sv_amend r_type)
        else done []

    -- The branches of `Run` without burst mode.
    unfoldable pub run_paced : Outcome (List Started)
    run_paced =
        if ltb 0 app.goose_num
        then paced_single (goose_gen app.goose_num app.goose_send_freq app.goose_entries)
            amend_goose
        else if ltb 0 app.sv80_num
        then paced_single (sv_gen app.sv80_num sv80) (amend_sv sv80)
        else if ltb 0 app.sv256_num
        then paced_single (sv_gen app.sv256_num sv256) (amend_sv sv256)
        else if ltb 0 app.rgoose_num
        then paced_workers app.rgoose_num r_goose_factory r_goose_amend
        else if ltb 0 app.rsv80_num
        then paced_workers app.rsv80_num (r_sv_factory sv80) (r_sv_amend sv80)
        else if ltb 0 app.rsv256_num
        then paced_workers app.rsv256_num (r_sv_factory sv256) (r_sv_amend sv256)
        else done []

    -- `Run`: the workers that it starts once the link is up. `link` is the answer of `WaitLink`.
    unfoldable pub run_application : Bool → Outcome (List Started)
    run_application link = do
      refuse_unless (not (is_r && leb platform.generator_mbuf_num pool_need)) pool_too_small
      refuse_unless link link_down
      if app.burst then run_burst_cycles else run_paced
