-- ===== src/Tests/Pipeline.antt =====
-- The pipeline on a burst of a Sampled Values packet that is too short and a packet of another kind.
use process_bus.Prelude.{◌+◌, ◌≡◌, refl, arith, List, [], ◌∷◌}
use process_bus.Prelude.Result.{ok}
use process_bus.Memory.{write}
use process_bus.Container.{empty_container}
use process_bus.RSession.Layout.{sec_gcm}
use process_bus.Parser.Envelope.{bus_proto_sv, bus_proto_goose, bus_proto_r_goose, get_proto_type}
use process_bus.Parser.Packets.{parse_sv_packet}
use process_bus.Pipeline.{Packet, App, clean, route, router_stage, run, stage_loop, sv_packet}
use process_bus.Pipeline.Routing.{of_kind, frame_of, frame_of-router_stage}
use process_bus.Pipeline.Conservation.{total, run-total}
use process_bus.Pipeline.Total.{run_ok}
use process_bus.Receiver.Loops.{poll, single_core, single_core-total}
use process_bus.Tests.Data.{checksum_backend, flags}

abbrev short_sv : Packet
short_sv = record { bytes = write (λ i. 0) 12 (0x88 ∷ 0xba ∷ []); size = 60; flags = 0 }

abbrev other : Packet
other = record { bytes = λ i. 0; size = 60; flags = 0 }

abbrev burst : List Packet
burst = short_sv ∷ other ∷ []

abbrev app : App
app = record {
  goose_map = empty_container;
  sv_map = empty_container;
  rx_goose = 0;
  rx_sv = 0;
  err_goose = 0;
  err_sv = 0;
  unknown_goose = 0;
  unknown_sv = 0;
  err_auth = 0;
  to_kernel = 0;
}

abbrev after : App
after = record app { err_sv = 1; to_kernel = 1 }

frame_of-router_stage_example :
    frame_of bus_proto_sv (router_stage (record clean { router = burst }))
    ≡ of_kind bus_proto_sv burst
frame_of-router_stage_example = frame_of-router_stage burst bus_proto_sv

ran :
    run 60 flags sec_gcm checksum_backend (record clean { router = burst }) app ≡ ok (clean, after)
unfolding run router_stage route stage_loop sv_packet parse_sv_packet get_proto_type write
ran = refl

run-total_example : (total after ≡ total app + 2) × (clean ≡ clean)
run-total_example =
    run-total 60 flags sec_gcm checksum_backend burst clean app after ran (omega arith)

looped :
    single_core 60 flags sec_gcm checksum_backend (burst ∷ [] ∷ []) clean app ≡ ok (clean, after)
unfolding single_core poll run router_stage route stage_loop sv_packet parse_sv_packet
    get_proto_type write
looped = refl

single_core-total_example : (total after ≡ total app + 2) × (clean ≡ clean)
single_core-total_example =
    single_core-total 60 flags sec_gcm checksum_backend (burst ∷ [] ∷ []) clean app after looped
      (omega arith)

no_goose : of_kind bus_proto_goose burst ≡ []
unfolding get_proto_type write
no_goose = refl

no_r_goose : of_kind bus_proto_r_goose burst ≡ []
unfolding get_proto_type write
no_r_goose = refl

run_ok_example :
    (app' : App) × (run 60 flags sec_gcm checksum_backend (record clean { router = burst }) app
      ≡ ok (clean, app'))
run_ok_example = run_ok 60 flags sec_gcm checksum_backend burst app no_goose no_r_goose
