-- ===== src/Tests/Sending.antt =====
-- Workers of the generator on small schedules, with a generator that numbers its packets.
use process_bus.Prelude.{
  ℕ, ◌+◌, ◌*◌, ◌<◌, ◌≡◌, ◌↔◌, refl, arith, true, some, List, [], ◌∷◌, length, replicate,
}
use process_bus.Prelude.Result.{ok}
use process_bus.Memory.{Memory}
use process_bus.Generator.{make_burst_plan, one_round}
use process_bus.Generator.Units.{
  generate_tx_units, create_tx_units, make_blocks, full_blocks, fill_block,
}
use process_bus.Generator.Units.Order.{InOrder, tx_units-InOrder}
use process_bus.Generator.Sender.{
  Worker, Poll, no_mbufs, has_room, new_stat, amend_all, tx_packets_cycle, send_block, send_burst,
}
use process_bus.Generator.Sender.Accounts.{Returned}
use process_bus.Generator.Sender.Cycle.{rounds, tx_packets_cycle-Returned}
use process_bus.Generator.Burst.{
  alloc_failed, allocated, Second, BurstWorker, tx_burst_worker_cycle, burst_seconds, Platform,
  make_r_burst_plans, total_burst, check_burst_fits,
}
use process_bus.Generator.Burst.Plans.{repeated}
use process_bus.Generator.Burst.Delivery.{Delivers, Serves, tx_burst_worker_cycle-Delivers}
use process_bus.Generator.Burst.Stopped.{Keeps, burst_seconds-Keeps}
use process_bus.Generator.Burst.Fits.{check_burst_fits_iff}
use process_bus.Generator.Amend.{
  SvLayout, GooseLayout, amend_packet_sv80, amend_packet_sv256, amend_packet_goose,
}
use process_bus.Generator.Amend.Counters.{IsSvLayout, IsGooseLayout}
use process_bus.Generator.Amend.Receive.{of_idx, shown, receive_sv, receive_goose}
use process_bus.Generator.Amend.Streams.{new_sv_ieds, new_goose_ieds, streams-clean}
use process_bus.Stream.Sv.{new_sv_source}
use process_bus.Stream.Goose.{new_goose_source}

-- 70 IEDs are two full blocks of 32 and one of 6.
blocks_of_70 : length (make_blocks 32 70) ≡ 3
unfolding make_blocks full_blocks fill_block
blocks_of_70 = refl

tx_units-InOrder_example :
    InOrder 32 70 3 2 (generate_tx_units 70 3) × InOrder 64 70 3 2 (create_tx_units 70 3)
tx_units-InOrder_example = tx_units-InOrder 70 3 2 (omega arith)

abbrev numbered : ℕ → ℕ → ℕ × ℕ
numbered g d = (g + 1, 100 * d + g)

abbrev worker : Worker ℕ ℕ
worker = record { gen = 5; sent = []; freed = []; stat = new_stat }

-- The pool runs dry twice, and the queue has room for one packet and for none in between.
abbrev polls : List Poll
polls =
    no_mbufs true
    ∷ has_room 1
    ∷ has_room 9
    ∷ no_mbufs true
    ∷ has_room 0
    ∷ has_room 9
    ∷ has_room 9
    ∷ has_room 9
    ∷ []

-- Of a block of two, one packet is sent and one freed.
half_sent :
    send_block numbered (no_mbufs true ∷ has_room 1 ∷ []) (3 ∷ 4 ∷ []) worker
    ≡ some (
      [],
      record worker {
        gen = 7;
        sent = 305 ∷ [];
        freed = 406 ∷ [];
        stat = record new_stat { tx_pkt_cnt = 1; err_send_cnt = 1 };
      },
    )
unfolding send_block send_burst amend_all
half_sent = refl

tx_packets_cycle-Returned_example :
    Returned numbered
      (rounds 3 2)
      0
      worker
      (tx_packets_cycle numbered 3 (generate_tx_units 2 4) polls worker)
    × Returned numbered
        (rounds 3 2)
        0
        worker
        (tx_packets_cycle numbered 3 (create_tx_units 2 4) polls worker)
tx_packets_cycle-Returned_example =
    tx_packets_cycle-Returned numbered 2 4 3 polls worker (omega arith) (omega arith)
      (omega arith, omega arith)

abbrev burst_worker : BurstWorker ℕ ℕ
burst_worker = record { worker = worker; sec_start_tick = 1000 }

-- The queue takes two packets, none, and the rest.
abbrev served : Second
served = record {
  allocs =
      alloc_failed ∷ allocated ∷ allocated ∷ allocated ∷ allocated ∷ allocated ∷ allocated ∷ [];
  still_on = true;
  now = 1500;
  rooms = 2 ∷ 0 ∷ 9 ∷ 9 ∷ 9 ∷ 9 ∷ 9 ∷ [];
}

served-Serves : Serves numbered (make_burst_plan 3 2) served
unfolding make_burst_plan one_round
served-Serves = record { allocates = omega arith; goes_on = refl; takes = omega arith }

tx_burst_worker_cycle-Delivers_example :
    (b' : BurstWorker ℕ ℕ) × (tx_burst_worker_cycle numbered 1000
        (make_burst_plan 3 2)
        (served ∷ served ∷ [])
        burst_worker
      ≡ some b')
    × Delivers numbered (rounds (2 * 2) 3) burst_worker b'
tx_burst_worker_cycle-Delivers_example =
    tx_burst_worker_cycle-Delivers numbered 3 2 1000 (served ∷ served ∷ []) burst_worker
      (omega arith) (omega arith) (served-Serves, (served-Serves, tt)) (omega arith)

-- The run is stopped when the queue has taken four packets of the second burst.
abbrev stopped : Second
stopped = record served { rooms = 3 ∷ 1 ∷ [] }

burst_seconds-Keeps_example :
    Keeps numbered
      (repeated 2 (make_burst_plan 3 2))
      burst_worker
      (burst_seconds numbered 1000 (make_burst_plan 3 2) (served ∷ stopped ∷ []) burst_worker)
burst_seconds-Keeps_example =
    burst_seconds-Keeps numbered 1000 (make_burst_plan 3 2) (served ∷ stopped ∷ []) burst_worker
      (omega arith)

-- src/common/platform/qemu.hpp.
abbrev qemu : Platform
qemu = record { generator_tx_desc = 1024; mempool_cache_size = 64; generator_mbuf_num = 131072 }

check_burst_fits_iff_example :
    (total_burst (make_r_burst_plans 10 3 (replicate 3 4000) 0) ≡ 4000 * 10)
    × ((check_burst_fits qemu (total_burst (make_r_burst_plans 10 3 (replicate 3 4000) 0)) 3
          ≡ ok tt)
        ↔ (4000 * 10 + 3 * 1024 + 3 * 64 < 131072))
check_burst_fits_iff_example =
    check_burst_fits_iff qemu 10 3 4000 (omega arith) (omega arith) (omega arith)

abbrev sv_layout : SvLayout
sv_layout = record {
  appid_offset = 18;
  svid_offset = λ i. 40 + 110 * i;
  smp_cnt_offset = λ i. 50 + 110 * i;
  freq = 12800;
}

sv_layout-IsSvLayout : IsSvLayout sv_layout
sv_layout-IsSvLayout = record {
  behind_appid = λ i. omega arith;
  behind_svid = λ i. omega arith;
  behind_asdu = λ i. omega arith;
}

abbrev goose_layout : GooseLayout
goose_layout = record {
  appid_offset = 18;
  timestamp_offset = 100;
  goid_offset = 86;
  gocb_ref_offset = 30;
  ds_ref_offset = 60;
  sq_num_offset = 116;
  st_num_offset = 110;
  d1_offset = 130;
  ts_delta_change = 0;
}

goose_layout-IsGooseLayout : IsGooseLayout goose_layout
goose_layout-IsGooseLayout = record { behind_st_num = omega arith; behind_both = omega arith }

abbrev order : List ℕ
order = 0 ∷ 1 ∷ 0 ∷ 2 ∷ 0 ∷ []

abbrev sids : ℕ → List ℕ
sids j = 48 ∷ 48 ∷ 48 ∷ (49 + j) ∷ []

abbrev buffers : ℕ → Memory
buffers k i = k + i

streams-clean_example :
    let lay80 = record sv_layout { freq = 4000 } in
    let ps80 = of_idx 0 order (amend_all (amend_packet_sv80 lay80) order (new_sv_ieds sids)).1 in
    let ps256 =
      of_idx 0 order (amend_all (amend_packet_sv256 sv_layout) order (new_sv_ieds sids)).1 in
    let ps =
      of_idx 0 order (amend_all (amend_packet_goose goose_layout) order (new_goose_ieds sids)).1 in
    ((receive_sv 1 (shown 50 2 buffers 0 ps80) new_sv_source).err_smp_cnt ≡ 0)
    × ((receive_sv 8 (shown 50 2 buffers 0 ps256) new_sv_source).err_smp_cnt ≡ 0)
    × ((receive_goose (shown 110 4 buffers 0 ps) new_goose_source).err_seq_cnt ≡ 0)
    × (length ps80 ≡ 3)
    × (length ps256 ≡ 3)
    × (length ps ≡ 3)
streams-clean_example =
    streams-clean (record sv_layout { freq = 4000 }) sv_layout goose_layout order sids 0 buffers
      refl refl sv_layout-IsSvLayout goose_layout-IsGooseLayout
