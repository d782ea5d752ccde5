-- ===== src/Tests/Receiving.antt =====
-- The receiver's distribution over cores and its registration of streams on concrete packets.
use process_bus.Prelude.{
  ℕ, ◌<◌, ◌≡◌, ◌≢◌, refl, arith, List, [], ◌∷◌, ◌++◌, some, none, ltb, ◌==◌, if◌then◌else◌,
}
use process_bus.Prelude.Interleaving.{Interleaved}
use process_bus.Prelude.Result.{ok, err}
use process_bus.Memory.{write}
use process_bus.Container.{value_of}
use process_bus.Stream.Passport.{goose_key, sv_key}
use process_bus.Stream.Goose.{new_goose_source}
use process_bus.Stream.Sv.{new_sv_source}
use process_bus.Pipeline.{Packet}
use process_bus.Receiver.Cores.{
  Rings, bit_and, check_workers, worker_idx, no_packets, multi_core_rss,
}
use process_bus.Receiver.Cores.Order.{received, of_stream, gained, lost, multi_core_rss-Interleaved}
use process_bus.Receiver.Cores.Conservation.{Gains, multi_core_rss-Gains}
use process_bus.Receiver.Registration.{RxConfig, init, format_digits, format_from, last_digits}
use process_bus.Receiver.Registration.Found.{
  GooseKind, SvKind, routable, l2_80, l2, l2_256, routable_80, routable_256, goose_count, sv_count,
  goose_of, sv_of, init_only,
}

three_workers : check_workers 3 ≡ err 1
unfolding check_workers bit_and
three_workers = refl

four_workers : check_workers 4 ≡ ok tt
unfolding check_workers bit_and
four_workers = refl

-- Sampled Values packets of APPID 5 and 6.
abbrev sv_5 : Packet
sv_5 = record { bytes = write (λ i. 0) 12 (0x88 ∷ 0xba ∷ 0x00 ∷ 0x05 ∷ []); size = 60; flags = 0 }

abbrev sv_6 : Packet
sv_6 = record sv_5 { bytes = write (λ i. 0) 12 (0x88 ∷ 0xba ∷ 0x00 ∷ 0x06 ∷ []) }

-- The ring of each worker has room for one packet of a burst.
abbrev bursts : List ((ℕ → ℕ) × List Packet)
bursts = (λ i. 1, sv_5 ∷ sv_6 ∷ sv_5 ∷ []) ∷ (λ i. 1, sv_6 ∷ sv_5 ∷ []) ∷ []

abbrev empty_rings : Rings
empty_rings = record { ring = no_packets; freed = []; err_ring_full_cnt = 0 }

multi_core_rss-Interleaved_example :
    ((multi_core_rss 4 bursts empty_rings).ring 1 ≡ [] ++ gained 4 1 bursts)
    × Interleaved
        (of_stream 5 (gained 4 1 bursts))
        (of_stream 5 (lost 4 1 bursts))
        (if 1 == worker_idx 4 5 then of_stream 5 (received bursts) else [])
    × (worker_idx 4 5 < 4)
multi_core_rss-Interleaved_example =
    multi_core_rss-Interleaved 4 1 5 bursts empty_rings (omega arith)

multi_core_rss-Gains_example : Gains 4 5 empty_rings (multi_core_rss 4 bursts empty_rings)
multi_core_rss-Gains_example = multi_core_rss-Gains 4 bursts empty_rings (omega arith) (omega arith)

-- "0012".
twelve : format_digits 4 12 ≡ 0x30 ∷ 0x30 ∷ 0x31 ∷ 0x32 ∷ []
unfolding format_digits format_from last_digits
twelve = refl

abbrev cfg : RxConfig
cfg = record {
  goose_num = 0;
  sv80_num = 3;
  sv256_num = 0;
  r_goose_num = 2;
  r_sv80_num = 0;
  r_sv256_num = 0;
  goose_entries = 16;
  r_dst_ip = 0xefc00101;
}

only_routable : (other : GooseKind) → other ≢ routable → goose_count cfg other ≡ 0
only_routable l2 h = refl
only_routable routable h = absurd (h refl)

only_l2_80 : (other : SvKind) → other ≢ l2_80 → sv_count cfg other ≡ 0
only_l2_80 l2_80 h = absurd (h refl)
only_l2_80 l2_256 h = refl
only_l2_80 routable_80 h = refl
only_l2_80 routable_256 h = refl

init_only_example :
    (value_of (init cfg).goose_map (goose_of cfg routable 1)
      ≡ (if ltb 1 2 then some new_goose_source else none))
    × (value_of (init cfg).sv_map (sv_of cfg l2_80 1)
        ≡ (if ltb 1 3 then some new_sv_source else none))
init_only_example =
    init_only cfg routable l2_80 1 only_routable only_l2_80 (omega arith) (omega arith)
      (omega arith)
