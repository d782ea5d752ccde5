-- ===== src/Tests/Options.antt =====
-- A generator for ten R-GOOSE streams in burst mode, and an address.
use process_bus.Prelude.{
  ℕ, ◌+◌, ◌*◌, ◌<◌, ◌≤◌, ◌%◌, ◌^◌, ◌≡◌, ◌↔◌, not, ◌==◌, refl, arith, Bool, true, false, Option,
  none, some, List, [], ◌∷◌, ◌++◌, length, leb, if◌then◌else◌,
}
use process_bus.RSession.Layout.{sec_gcm}
use process_bus.RSession.Modes.{gcm_text, parse_security_mode}
use process_bus.Dpdk.WaitLink.{wait_link, link_up, Steady, wait_link_iff}
use process_bus.Frame.Address.{parse_ipv4, behind}
use process_bus.Frame.Dotted.{IsOctet, parse_ipv4_dotted}
use process_bus.Generator.{ied_slice, make_burst_plan, one_round}
use process_bus.Generator.Units.{generate_tx_units, units_from}
use process_bus.Generator.Burst.{Platform, make_r_burst_plans, total_burst, check_burst_fits}
use process_bus.Generator.Application.{
  CommandLine, GenApplication, initial, done, refused, no_tx_units, empty_plan, make_application,
}
use process_bus.Generator.Application.Run.{
  Gen, Started, r_goose_gen, amend_r_goose, run_application, run_burst_cycles, run_paced,
  run_r_workers, make_r_workers, tx_unit_num,
}
use process_bus.Generator.Application.Work.{work_of, start_paced, start_burst, run_paced-work}
use process_bus.Generator.Application.Asked.{asked}
use process_bus.Generator.Application.Reasons.{Serves}
use process_bus.Generator.Application.Serves.{run_application-Serves}

abbrev keep : ℕ → ℕ
keep n = n

-- "10.0.020.1"
abbrev address : List ℕ
address =
    (49 ∷ 48 ∷ []) ++ (46 ∷ ((48 ∷ []) ++ (46 ∷ ((48 ∷ 50 ∷ 48 ∷ []) ++ (46 ∷ ((49 ∷ []) ++ []))))))

ten : IsOctet 10 (49 ∷ 48 ∷ [])
ten = record {
  all_digits = ((omega arith, omega arith), ((omega arith, omega arith), tt));
  filled = λ e. cc;
  value = refl;
  byte = omega arith;
}

zero-IsOctet : IsOctet 0 (48 ∷ [])
zero-IsOctet = record {
  all_digits = ((omega arith, omega arith), tt);
  filled = λ e. cc;
  value = refl;
  byte = omega arith;
}

twenty : IsOctet 20 (48 ∷ 50 ∷ 48 ∷ [])
twenty = record {
  all_digits =
      ((omega arith, omega arith), ((omega arith, omega arith), ((omega arith, omega arith), tt)));
  filled = λ e. cc;
  value = refl;
  byte = omega arith;
}

one : IsOctet 1 (49 ∷ [])
one = record {
  all_digits = ((omega arith, omega arith), tt);
  filled = λ e. cc;
  value = refl;
  byte = omega arith;
}

parse_ipv4_dotted_example :
    parse_ipv4 keep address
    ≡ (if leb 1 (length {A = ℕ} []) then none else some (10 * 16777216 + 0 * 65536 + 20 * 256 + 1))
parse_ipv4_dotted_example =
    parse_ipv4_dotted keep 10 0 20 1 _ _ _ _ [] ten zero-IsOctet twenty one tt

abbrev command_line : CommandLine
command_line = record {
  help = false;
  goose = none;
  sv80 = none;
  sv256 = none;
  rgoose = some (10 ∷ 4 ∷ []);
  rsv80 = some 7;
  rsv256 = none;
  r_mode = some gcm_text;
  dst_ip = none;
  src_ip = some address;
  goose_entries = some 8;
  burst = true;
  time = none;
}

abbrev app : GenApplication
app = record initial {
  rgoose_num = 10;
  rgoose_send_freq = 4;
  rsv80_num = 7;
  mode = sec_gcm;
  src_ip = 0x0a001401;
  goose_entries = 8;
  burst = true;
  worker_num = 3;
  stats = 3;
}

made : make_application keep (some command_line) 3 ≡ done app
unfolding make_application parse_security_mode parse_ipv4 behind
made = refl

abbrev small_pool : Platform
small_pool = record { generator_tx_desc = 64; mempool_cache_size = 8; generator_mbuf_num = 512 }

-- The constructor of every generator returns.
abbrev all_make : Gen → Bool
all_make gen = true

abbrev lcores : List ℕ
lcores = 4 ∷ 5 ∷ []

run_paced-work_example :
    (run_paced small_pool lcores app all_make
      ≡ start_paced small_pool lcores app all_make (work_of small_pool lcores app))
    × (run_burst_cycles small_pool lcores app all_make
        ≡ start_burst small_pool lcores app all_make (work_of small_pool lcores app))
run_paced-work_example = run_paced-work small_pool lcores app all_make

abbrev worker : ℕ → ℕ → ℕ → List ℕ → Started
worker i lo count plan = record {
  gen = r_goose_gen count 4 8 lo;
  amend = amend_r_goose sec_gcm;
  queue = i;
  stat = i;
  plan = some plan;
}

abbrev started : List Started
started =
    worker 0 0 4 (make_burst_plan 4 4)
    ∷ worker 1 4 3 (make_burst_plan 3 4)
    ∷ worker 2 7 3 (make_burst_plan 3 4)
    ∷ []

runs : run_application small_pool lcores app all_make true ≡ done started
unfolding run_application run_burst_cycles run_r_workers make_r_workers ied_slice tx_unit_num
    generate_tx_units units_from make_r_burst_plans total_burst check_burst_fits make_burst_plan
    one_round
runs = refl

-- `--goose 10,0`: there is nothing to send, and `Run` throws, in burst mode too.
abbrev no_rate : Bool → GenApplication
no_rate burst = record initial { goose_num = 10; goose_send_freq = 0; burst = burst }

refuses :
    (run_application small_pool lcores (no_rate false) all_make true ≡ refused no_tx_units)
    × (run_application small_pool lcores (no_rate true) all_make true ≡ refused empty_plan)
unfolding run_application run_burst_cycles run_paced tx_unit_num generate_tx_units units_from
    check_burst_fits make_burst_plan
refuses = (refl, refl)

ten_streams : asked app < 4294967296
unfolding asked
ten_streams = omega arith

run_application-Serves_example :
    Serves small_pool lcores app all_make true (run_application small_pool lcores app all_make true)
run_application-Serves_example =
    run_application-Serves keep (some command_line) small_pool lcores app all_make true made
      (omega arith) ten_streams

-- The second poll still shows the link down.
abbrev polls : ℕ → Option Bool
polls i = some (not (i == 1))

wait_link_iff_example :
    (wait_link polls 60 ≡ link_up) ↔ ((k : ℕ) × (k + 5 ≤ 60 * 10 % 2 ^ 32) × Steady polls k)
wait_link_iff_example = wait_link_iff polls 60

waits : wait_link polls 1 ≡ link_up
unfolding wait_link
waits = refl
