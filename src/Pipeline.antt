-- ===== src/Pipeline.antt =====
-- src/bus_processor/pipeline.hpp and pipeline_pbus.hpp: the matrix of stages, the stages and the chain, and
-- of src/bus_processor/rx_application.hpp the containers and the counters that the stages change.
-- A frame of the matrix is the list of the packets it holds. A `shared_ptr` to a source is the source,
-- since each source belongs to one entry. Prefetching has no effect on the state.
pub mod Routing
pub mod Conservation
pub mod Total
use process_bus.Prelude.{
  ℕ, zero, suc, ◌+◌, ◌%◌, ◌^◌, Bool, true, false, Option, none, some, List, [], ◌∷◌, ◌++◌, length,
  ◌==◌, if◌then◌else◌,
}
use process_bus.Prelude.Result.{Result, ok, err, stuck, ◌>>=◌}
use process_bus.Memory.{Memory}
use process_bus.Container.{AppidContainer, find}
use process_bus.Stream.Passport.{GoosePassport, SvPassport, goose_key, sv_key}
use process_bus.Stream.Goose.{GooseSource, GooseState}
use process_bus.Stream.Sv.{SvSource, SvState}
use process_bus.Stream.Goose
use process_bus.Stream.Sv
use process_bus.RSession.Layout.{SecurityMode}
use process_bus.RSession.Crypto.{Crypto}
use process_bus.Parser.Envelope.{
  BusProto, non_bus_proto, bus_proto_sv, bus_proto_goose, bus_proto_r_goose, bus_proto_r_sv,
  CksumFlags, get_proto_type, validate_r_envelope,
}
use process_bus.Parser.Packets.{parse_sv_packet, parse_r_sv_packet, r_parse_err_auth}
use process_bus.Parser.Goose.{parse_goose_packet, parse_r_goose_packet}

-- What the stages use of an mbuf: the bytes, the packet length and `ol_flags`.
pub record Packet : Type 0 where
  pub bytes : Memory
  pub size : ℕ
  pub flags : ℕ

-- `DataMatrix::stages`, in the order of `EnumStages`.
pub record Matrix : Type 0 where
  pub router : List Packet
  pub goose : List Packet
  pub sv : List Packet
  pub r_goose : List Packet
  pub r_sv : List Packet
  pub ip : List Packet

abbrev pub clean : Matrix
clean = record { router = []; goose = []; sv = []; r_goose = []; r_sv = []; ip = [] }

-- The containers and the uint64_t counters of `RX_Application`.
pub record App : Type 0 where
  pub goose_map : AppidContainer GoosePassport GooseSource
  pub sv_map : AppidContainer SvPassport SvSource
  pub rx_goose : ℕ
  pub rx_sv : ℕ
  pub err_goose : ℕ
  pub err_sv : ℕ
  pub unknown_goose : ℕ
  pub unknown_sv : ℕ
  pub err_auth : ℕ
  pub to_kernel : ℕ

abbrev pub count64 : ℕ → ℕ → ℕ
count64 counter n = (counter + n) % 2 ^ 64

abbrev pub kind_of : Packet → BusProto
kind_of p = (get_proto_type p.bytes p.size).0

-- `PutBuffer` into the stage of the protocol.
abbrev pub put : Matrix → BusProto → Packet → Matrix
put m bus_proto_sv p = record m { sv = m.sv ++ p ∷ [] }
put m bus_proto_goose p = record m { goose = m.goose ++ p ∷ [] }
put m bus_proto_r_goose p = record m { r_goose = m.r_goose ++ p ∷ [] }
put m bus_proto_r_sv p = record m { r_sv = m.r_sv ++ p ∷ [] }
put m non_bus_proto p = record m { ip = m.ip ++ p ∷ [] }

-- The loop of `RouterStage`.
unfoldable pub route : List Packet → Matrix → Matrix
route [] m = m
route (p ∷ ps) m = route ps (put m (kind_of p) p)

unfoldable pub router_stage : Matrix → Matrix
router_stage m = record (route m.router m) { router = [] }

-- `src->second`, changed in place.
abbrev pub adjust {ℓ κ} : {K : Type ℓ} {V : Type κ} → List (K × V) → ℕ → (V → V) → List (K × V)
adjust [] i f = []
adjust ((k, v) ∷ r) zero f = (k, f v) ∷ r
adjust ((k, v) ∷ r) (suc i) f = (k, v) ∷ adjust r i f

-- A parsed GOOSE frame whose source is looked up; `f` is what is called on the source.
abbrev pub found_goose : App → Option ℕ → (GooseSource → GooseSource) → App
found_goose app none f = record app { unknown_goose = count64 app.unknown_goose 1 }
found_goose app (some i) f = record app {
  goose_map = record app.goose_map { values = adjust app.goose_map.values i f };
  rx_goose = count64 app.rx_goose 1;
}

abbrev pub found_sv : App → Option ℕ → (SvSource → SvSource) → App
found_sv app none f = record app { unknown_sv = count64 app.unknown_sv 1 }
found_sv app (some i) f = record app {
  sv_map = record app.sv_map { values = adjust app.sv_map.values i f };
  rx_sv = count64 app.rx_sv 1;
}

abbrev pub bad_goose : App → ℕ → App
bad_goose app e = record app { err_goose = count64 app.err_goose 1 }

abbrev pub bad_sv : App → ℕ → App
bad_sv app e = record app { err_sv = count64 app.err_sv 1 }

-- The result of a routable parser that is not 0.
abbrev pub bad_r_goose : App → ℕ → App
bad_r_goose app e =
    if e == r_parse_err_auth
    then record app { err_auth = count64 app.err_auth 1 }
    else record app { err_goose = count64 app.err_goose 1 }

abbrev pub bad_r_sv : App → ℕ → App
bad_r_sv app e =
    if e == r_parse_err_auth
    then record app { err_auth = count64 app.err_auth 1 }
    else record app { err_sv = count64 app.err_sv 1 }

-- The round of a stage's loop for the result of its parser.
abbrev pub counted {ℓ} : {A : Type ℓ} → Result A → (A → App) → (ℕ → App) → Result App
counted (ok a) good bad = ok (good a)
counted (err e) good bad = ok (bad e)
counted stuck good bad = stuck

-- The loop of a stage over the packets of its frame.
unfoldable pub stage_loop : (App → Packet → Result App) → List Packet → App → Result App
stage_loop step [] app = ok app
stage_loop step (p ∷ ps) app = elim (step app p) [
  | ok app' ↦ stage_loop step ps app'
  | err e ↦ err e
  | stuck ↦ stuck
]

-- `fuel` is for the GOOSE walker; `ck` are the flags of DPDK.
module _ (fuel : ℕ) (ck : CksumFlags) (mode : SecurityMode) (c : Crypto) where
  unfoldable pub goose_packet : App → Packet → Result App
  goose_packet app p =
      counted (parse_goose_packet fuel p.bytes p.size)
        (λ (pass, state).
          found_goose app (find app.goose_map pass) (λ s. Goose.process_state s state))
        (bad_goose app)

  unfoldable pub sv_packet : App → Packet → Result App
  sv_packet app p =
      counted (parse_sv_packet p.bytes p.size)
        (λ (pass, state).
          found_sv app (find app.sv_map pass) (λ s. Sv.process_state s pass.num state))
        (bad_sv app)

  abbrev pub opened_goose : App → Packet → Result ℕ → Result App
  opened_goose app p (ok dst_ip) =
      counted (parse_r_goose_packet fuel p.bytes p.size mode c)
        (λ (session, pass, state).
          found_goose app (find app.goose_map (record pass { dst_ip = dst_ip }))
            (λ s. Goose.process_state (Goose.process_session_state s session.spdu_number) state))
        (bad_r_goose app)
  opened_goose app p (err e) = ok (bad_goose app e)
  opened_goose app p stuck = stuck

  unfoldable pub r_goose_packet : App → Packet → Result App
  r_goose_packet app p = opened_goose app p (validate_r_envelope ck p.bytes p.size p.flags)

  abbrev pub opened_sv : App → Packet → Result ℕ → Result App
  opened_sv app p (ok dst_ip) =
      counted (parse_r_sv_packet p.bytes p.size mode c)
        (λ (session, pass, state).
          found_sv app (find app.sv_map (record pass { dst_ip = dst_ip }))
            (λ s. Sv.process_state (Sv.process_session_state s session.spdu_number) pass.num state))
        (bad_r_sv app)
  opened_sv app p (err e) = ok (bad_sv app e)
  opened_sv app p stuck = stuck

  unfoldable pub r_sv_packet : App → Packet → Result App
  r_sv_packet app p = opened_sv app p (validate_r_envelope ck p.bytes p.size p.flags)

  -- `FramePipeline::run`: each stage works on its frame and leaves it empty.
  unfoldable pub run : Matrix → App → Result (Matrix × App)
  run m app = do
    let routed = router_stage m
    app1 ← stage_loop goose_packet routed.goose app
    app2 ← stage_loop sv_packet routed.sv app1
    app3 ← stage_loop r_goose_packet routed.r_goose app2
    app4 ← stage_loop r_sv_packet routed.r_sv app3
    let app5 = record app4 { to_kernel = count64 app4.to_kernel (length routed.ip) }
    ok (record routed { goose = []; sv = []; r_goose = []; r_sv = []; ip = [] }, app5)
