-- ===== src/Receiver/Loops.antt =====
-- src/bus_processor/rx_application.cpp: the main loop of `single_core`, which takes its bursts from the
-- NIC. The workers of `lcore_processor` share one application, and are not modelled.
use process_bus.Prelude.{
  ℕ, ◌+◌, ◌^◌, ◌<◌, ◌≡◌, sym, ap, arith, List, [], ◌∷◌, ◌++◌, length, length-append,
}
use process_bus.Prelude.Result.{Result, ok, ◌>>=◌, bind_ok, ok-injective}
use process_bus.RSession.Layout.{SecurityMode}
use process_bus.RSession.Crypto.{Crypto}
use process_bus.Parser.Envelope.{CksumFlags}
use process_bus.Pipeline.{App, Matrix, Packet, clean, run}
use process_bus.Pipeline.Conservation.{total, run-total}

module _ (fuel : ℕ) (ck : CksumFlags) (mode : SecurityMode) (c : Crypto) where
  -- A round of the loop: nothing was received, or the pipeline works on the burst.
  unfoldable pub poll : List Packet → Matrix → App → Result (Matrix × App)
  poll [] m app = ok (m, app)
  poll (p ∷ ps) m app = run fuel ck mode c (record m { router = p ∷ ps }) app

  -- The loop over the answers of the NIC.
  unfoldable pub single_core : List (List Packet) → Matrix → App → Result (Matrix × App)
  unfolding poll
  single_core [] m app = ok (m, app)
  single_core (burst ∷ bursts) m app = do (m1, app1) ← poll burst m app; single_core bursts m1 app1

  -- All packets of the bursts.
  abbrev pub received_packets : List (List Packet) → List Packet
  received_packets [] = []
  received_packets (burst ∷ bursts) = burst ++ received_packets bursts

  poll-total :
      (ps : List Packet) (m' : Matrix) (app app' : App)
      → poll ps clean app ≡ ok (m', app')
      → total app + length ps < 2 ^ 64
      → (total app' ≡ total app + length ps) × (m' ≡ clean)
  unfolding poll
  poll-total [] m' app app' e h =
      let same = ok-injective e in
      (
        omega (arith, ap (λ (q : Matrix × App). total q.1) same),
        sym (ap (λ (q : Matrix × App). q.0) same),
      )
  poll-total (p ∷ ps) m' app app' e h = run-total fuel ck mode c (p ∷ ps) m' app app' e h

  -- Whenever the main loop ends on a single core, its counters have grown by the number of packets in
  -- all bursts together, empty polls included, and the matrix is empty: for counters that do not wrap
  -- on the way.
  pub single_core-total :
      (bursts : List (List Packet)) (m' : Matrix) (app app' : App)
      → single_core bursts clean app ≡ ok (m', app')
      → total app + length (received_packets bursts) < 2 ^ 64
      → (total app' ≡ total app + length (received_packets bursts)) × (m' ≡ clean)
  unfolding single_core
  single_core-total [] m' app app' e h =
      let same = ok-injective e in
      (
        omega (arith, ap (λ (q : Matrix × App). total q.1) same),
        sym (ap (λ (q : Matrix × App). q.0) same),
      )
  single_core-total (burst ∷ bursts) m' app app' e h =
      let ((m1, app1), e1, e2) = bind_ok (poll burst clean app) _ _ e in
      let len = length-append burst (received_packets bursts) in
      let (one, empty) = poll-total burst m1 app app1 e1 (omega (arith, len)) in
      let rest : single_core bursts clean app1 ≡ ok (m', app') = rw (← empty) e2 in
      let (all, cleaned) = single_core-total bursts m' app1 app' rest (omega (arith, len, one)) in
      (omega (arith, len, one, all), cleaned)
