-- ===== src/Pipeline/Conservation.antt =====
-- The counters of the receiver account for each packet of a burst once.
use process_bus.Prelude.{
  ℕ, ◌+◌, ◌%◌, ◌^◌, ◌<◌, ◌≡◌, sym, ap, arith, List, [], ◌∷◌, length, Option, none, some, inl, inr,
}
use process_bus.Prelude.Result.{Result, ok, err, stuck, Result-cases, bind_ok}
use process_bus.RSession.Layout.{SecurityMode}
use process_bus.RSession.Crypto.{Crypto}
use process_bus.Parser.Envelope.{CksumFlags, validate_r_envelope}
use process_bus.Parser.Packets.{parse_sv_packet, parse_r_sv_packet}
use process_bus.Parser.Goose.{parse_goose_packet, parse_r_goose_packet}
use process_bus.Stream.Goose.{GooseSource}
use process_bus.Stream.Sv.{SvSource}
use process_bus.Pipeline.{
  Packet, Matrix, App, clean, router_stage, goose_packet, sv_packet, r_goose_packet, r_sv_packet,
  stage_loop, run, counted, found_goose, found_sv, bad_goose, bad_sv, bad_r_goose, bad_r_sv,
  opened_goose, opened_sv,
}
use process_bus.Pipeline.Routing.{in_stages, in_stages-router_stage}

-- What the counters have counted.
abbrev pub total : App → ℕ
total app =
    app.rx_goose + app.rx_sv + app.err_goose + app.err_sv + app.unknown_goose + app.unknown_sv
    + app.err_auth + app.to_kernel

-- `app'` has counted `n` packets more, unless a counter wrapped.
abbrev pub Counts : ℕ → App → App → Type 0
Counts n app app' = total app + n < 2 ^ 64 → total app' ≡ total app + n

found_goose-Counts :
    (app : App) (i : Option ℕ) (f : GooseSource → GooseSource) → Counts 1 app (found_goose app i f)
found_goose-Counts app none f h = omega arith
found_goose-Counts app (some i) f h = omega arith

found_sv-Counts :
    (app : App) (i : Option ℕ) (f : SvSource → SvSource) → Counts 1 app (found_sv app i f)
found_sv-Counts app none f h = omega arith
found_sv-Counts app (some i) f h = omega arith

bad_r_goose-Counts : (app : App) (e : ℕ) → Counts 1 app (bad_r_goose app e)
bad_r_goose-Counts app e h = ground arith

bad_r_sv-Counts : (app : App) (e : ℕ) → Counts 1 app (bad_r_sv app e)
bad_r_sv-Counts app e h = ground arith

counted-Counts {ℓ} :
    {A : Type ℓ} (app app' : App) (r : Result A) (good : A → App) (bad : ℕ → App)
    → ((a : A) → Counts 1 app (good a))
    → ((e : ℕ) → Counts 1 app (bad e))
    → counted r good bad ≡ ok app'
    → Counts 1 app app'
counted-Counts app app' (ok a) good bad hg hb e =
    let same : good a ≡ app' = cc in rw (← same) (hg a)
counted-Counts app app' (err c) good bad hg hb e =
    let same : bad c ≡ app' = cc in rw (← same) (hb c)
counted-Counts app app' stuck good bad hg hb e = cc

stage_loop-Counts :
    (step : App → Packet → Result App) (ps : List Packet) (app app' : App)
    → ((a : App) (p : Packet) (a' : App) → step a p ≡ ok a' → Counts 1 a a')
    → stage_loop step ps app ≡ ok app'
    → Counts (length ps) app app'
unfolding stage_loop
stage_loop-Counts step [] app app' each e h =
    let same : app ≡ app' = cc in rw (← same) (omega arith)
stage_loop-Counts step (p ∷ ps) app app' each e h = elim (Result-cases (step app p)) [
  | inl (a, x) ↦
      let one = each app p a x (omega (arith, h)) in
      let rest =
        stage_loop-Counts step ps a app' each (rw (stage_loop, x) at e) (omega (arith, h, one)) in
      omega (arith, one, rest)
  | inr (inl (c, x)) ↦ absurd (cc (rw (stage_loop, x) at e))
  | inr (inr x) ↦ absurd (cc (rw (stage_loop, x) at e))
]

of_ok : (x y : Matrix × App) → ok x ≡ ok y → (x.0 ≡ y.0) × (total x.1 ≡ total y.1)
of_ok x y e = let same : x ≡ y = cc in (ap (λ r. r.0) same, ap (λ r. total r.1) same)

module _ (fuel : ℕ) (ck : CksumFlags) (mode : SecurityMode) (c : Crypto) where
  goose_packet-Counts :
      (app : App) (p : Packet) (app' : App)
      → goose_packet fuel ck mode c app p ≡ ok app'
      → Counts 1 app app'
  unfolding goose_packet
  goose_packet-Counts app p app' e =
      counted-Counts app app' (parse_goose_packet fuel p.bytes p.size) _ _
        (λ a. found_goose-Counts app _ _) (λ n h. omega arith) e

  sv_packet-Counts :
      (app : App) (p : Packet) (app' : App)
      → sv_packet fuel ck mode c app p ≡ ok app'
      → Counts 1 app app'
  unfolding sv_packet
  sv_packet-Counts app p app' e =
      counted-Counts app app' (parse_sv_packet p.bytes p.size) _ _ (λ a. found_sv-Counts app _ _)
        (λ n h. omega arith) e

  opened_goose-Counts :
      (app : App) (p : Packet) (r : Result ℕ) (app' : App)
      → opened_goose fuel ck mode c app p r ≡ ok app'
      → Counts 1 app app'
  opened_goose-Counts app p (ok dst_ip) app' e h =
      counted-Counts app app' (parse_r_goose_packet fuel p.bytes p.size mode c) _ _
        (λ a. found_goose-Counts app _ _) (bad_r_goose-Counts app) e h
  opened_goose-Counts app p (err n) app' e h =
      let same : bad_goose app n ≡ app' = cc in rw (← same) (omega arith)
  opened_goose-Counts app p stuck app' e h = cc

  opened_sv-Counts :
      (app : App) (p : Packet) (r : Result ℕ) (app' : App)
      → opened_sv fuel ck mode c app p r ≡ ok app'
      → Counts 1 app app'
  opened_sv-Counts app p (ok dst_ip) app' e h =
      counted-Counts app app' (parse_r_sv_packet p.bytes p.size mode c) _ _
        (λ a. found_sv-Counts app _ _) (bad_r_sv-Counts app) e h
  opened_sv-Counts app p (err n) app' e h =
      let same : bad_sv app n ≡ app' = cc in rw (← same) (omega arith)
  opened_sv-Counts app p stuck app' e h = cc

  r_goose_packet-Counts :
      (app : App) (p : Packet) (app' : App)
      → r_goose_packet fuel ck mode c app p ≡ ok app'
      → Counts 1 app app'
  unfolding r_goose_packet
  r_goose_packet-Counts app p app' e =
      opened_goose-Counts app p (validate_r_envelope ck p.bytes p.size p.flags) app' e

  r_sv_packet-Counts :
      (app : App) (p : Packet) (app' : App)
      → r_sv_packet fuel ck mode c app p ≡ ok app'
      → Counts 1 app app'
  unfolding r_sv_packet
  r_sv_packet-Counts app p app' e =
      opened_sv-Counts app p (validate_r_envelope ck p.bytes p.size p.flags) app' e

  run-counts :
      (m m' : Matrix) (app app' : App)
      → run fuel ck mode c m app ≡ ok (m', app')
      → total app + in_stages (router_stage m) < 2 ^ 64
      → (total app' ≡ total app + in_stages (router_stage m)) × (m' ≡ clean)
  unfolding run router_stage
  run-counts m m' app app' e h =
      let r : Matrix = router_stage m in
      let (a1, e1, k1) = bind_ok (stage_loop (goose_packet fuel ck mode c) r.goose app) _ _ e in
      let (a2, e2, k2) = bind_ok (stage_loop (sv_packet fuel ck mode c) r.sv a1) _ _ k1 in
      let (a3, e3, k3) = bind_ok (stage_loop (r_goose_packet fuel ck mode c) r.r_goose a2) _ _ k2 in
      let (a4, e4, k4) = bind_ok (stage_loop (r_sv_packet fuel ck mode c) r.r_sv a3) _ _ k3 in
      let c1 = stage_loop-Counts _ r.goose app a1 goose_packet-Counts e1 (omega (arith, h)) in
      let c2 = stage_loop-Counts _ r.sv a1 a2 sv_packet-Counts e2 (omega (arith, h, c1)) in
      let c3 =
        stage_loop-Counts _ r.r_goose a2 a3 r_goose_packet-Counts e3 (omega (arith, h, c1, c2)) in
      let c4 =
        stage_loop-Counts _ r.r_sv a3 a4 r_sv_packet-Counts e4 (omega (arith, h, c1, c2, c3)) in
      let last : App = record a4 { to_kernel = (a4.to_kernel + length r.ip) % 2 ^ 64 } in
      let (cleaned, counts) = of_ok (clean, last) (m', app') k4 in
      (omega (arith, h, c1, c2, c3, c4, counts), sym cleaned)

  -- When the pipeline has worked on a burst, its counters have grown by the number of packets in the
  -- burst together, each packet counted once as received, unknown, malformed, forged or left to the
  -- kernel, and every frame of the matrix is empty again: for counters that are not about to wrap.
  pub run-total :
      (ps : List Packet) (m' : Matrix) (app app' : App)
      → run fuel ck mode c (record clean { router = ps }) app ≡ ok (m', app')
      → total app + length ps < 2 ^ 64
      → (total app' ≡ total app + length ps) × (m' ≡ clean)
  run-total ps m' app app' e h =
      let all = in_stages-router_stage ps in
      let (counts, cleaned) =
        run-counts (record clean { router = ps }) m' app app' e (omega (arith, h, all)) in
      (omega (arith, counts, all), cleaned)
