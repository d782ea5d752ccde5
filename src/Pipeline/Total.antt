-- ===== src/Pipeline/Total.antt =====
-- Bursts on which the pipeline ends.
use process_bus.Prelude.{ℕ, ◌+◌, ◌%◌, ◌^◌, ◌≡◌, ◌≢◌, refl, ◌∙◌, arith, List, [], ◌∷◌, length}
use process_bus.Prelude.Result.{Result, ok, err, stuck}
use process_bus.Memory.{Memory}
use process_bus.RSession.Layout.{SecurityMode}
use process_bus.RSession.Crypto.{Crypto}
use process_bus.Parser.Envelope.{
  CksumFlags, validate_r_envelope, bus_proto_goose, bus_proto_r_goose,
}
use process_bus.Parser.Packets.{parse_sv_packet, parse_r_sv_packet}
use process_bus.Parser.Packets.Total.{parse_sv_packet-ne-stuck, parse_r_sv_packet-ne-stuck}
use process_bus.Pipeline.{
  Packet, Matrix, App, clean, router_stage, sv_packet, r_sv_packet, stage_loop, run, counted,
  opened_sv,
}
use process_bus.Pipeline.Routing.{of_kind, frame_of-router_stage}

validate_r_envelope-ne-stuck :
    (ck : CksumFlags) (buf : Memory) (size flags : ℕ)
    → validate_r_envelope ck buf size flags ≢ stuck
unfolding validate_r_envelope
validate_r_envelope-ne-stuck ck buf size flags = ground arith

counted_ok {ℓ} :
    {A : Type ℓ} (r : Result A) (good : A → App) (bad : ℕ → App)
    → r ≢ stuck
    → (app : App) × (counted r good bad ≡ ok app)
counted_ok (ok a) good bad h = (good a, refl)
counted_ok (err e) good bad h = (bad e, refl)
counted_ok stuck good bad h = absurd (h refl)

stage_loop_ok :
    (step : App → Packet → Result App) (ps : List Packet) (app : App)
    → ((a : App) (p : Packet) → (a' : App) × (step a p ≡ ok a'))
    → (app' : App) × (stage_loop step ps app ≡ ok app')
unfolding stage_loop
stage_loop_ok step [] app each = (app, refl)
stage_loop_ok step (p ∷ ps) app each =
    let (a, e) = each app p in
    let (app', rest) = stage_loop_ok step ps a each in (app', rw (stage_loop, e) rest)

module _ (fuel : ℕ) (ck : CksumFlags) (mode : SecurityMode) (c : Crypto) where
  sv_packet_ok :
      (app : App) (p : Packet) → (app' : App) × (sv_packet fuel ck mode c app p ≡ ok app')
  unfolding sv_packet
  sv_packet_ok app p =
      counted_ok (parse_sv_packet p.bytes p.size) _ _ (parse_sv_packet-ne-stuck _ _)

  opened_sv_ok :
      (app : App) (p : Packet) (r : Result ℕ)
      → r ≢ stuck
      → (app' : App) × (opened_sv fuel ck mode c app p r ≡ ok app')
  opened_sv_ok app p (ok dst_ip) h =
      counted_ok (parse_r_sv_packet p.bytes p.size mode c) _ _ (parse_r_sv_packet-ne-stuck _ _ _ _)
  opened_sv_ok app p (err e) h = (_, refl)
  opened_sv_ok app p stuck h = absurd (h refl)

  r_sv_packet_ok :
      (app : App) (p : Packet) → (app' : App) × (r_sv_packet fuel ck mode c app p ≡ ok app')
  unfolding r_sv_packet
  r_sv_packet_ok app p =
      opened_sv_ok app p (validate_r_envelope ck p.bytes p.size p.flags)
        (validate_r_envelope-ne-stuck _ _ _ _)

  -- The pipeline works off each burst without GOOSE packets, whatever bytes they hold, and leaves the
  -- matrix empty.
  pub run_ok :
      (ps : List Packet) (app : App)
      → of_kind bus_proto_goose ps ≡ []
      → of_kind bus_proto_r_goose ps ≡ []
      → (app' : App) × (run fuel ck mode c (record clean { router = ps }) app ≡ ok (clean, app'))
  unfolding run router_stage stage_loop
  run_ok ps app no_goose no_r_goose =
      let r : Matrix = router_stage (record clean { router = ps }) in
      let goose : r.goose ≡ [] = frame_of-router_stage ps bus_proto_goose ∙ no_goose in
      let r_goose : r.r_goose ≡ [] = frame_of-router_stage ps bus_proto_r_goose ∙ no_r_goose in
      let (a1, e1) = stage_loop_ok (sv_packet fuel ck mode c) r.sv app sv_packet_ok in
      let (a2, e2) = stage_loop_ok (r_sv_packet fuel ck mode c) r.r_sv a1 r_sv_packet_ok in
      (
        record a2 { to_kernel = (a2.to_kernel + length r.ip) % 2 ^ 64 },
        rw (goose, e1, r_goose, e2) refl,
      )
