-- ===== src/Generator/Sender/Accounts.antt =====
-- What becomes of the packets of a worker: each is sent or freed, in the order of the schedule, and
-- is counted.
use process_bus.Prelude.{
  ℕ, suc, ◌+◌, ◌%◌, ◌^◌, ◌≤◌, ◌<◌, ◌≡◌, refl, sym, ap, ◌∙◌, arith, true, false, Option, some, List,
  [], ◌∷◌, ◌++◌, length, length-append, length-drop, length-take, append-take-drop, take, drop,
  if◌then◌else◌,
}
use mathlib.Core.List.{append-nil, append_assoc}
use mathlib.Core.Path.{subst}
use process_bus.Prelude.Interleaving.{
  Interleaved, finished, Interleaved-take-drop, Interleaved-append,
}
use process_bus.Generator.Units.{TxBlock}
use process_bus.Generator.Units.Order.{packets}
use process_bus.Generator.Sender.{
  GenAppStat, Worker, Poll, no_mbufs, has_room, accepted, burst_size, amend_all, send_burst,
  send_block, send_blocks,
}

-- The counters are a uint64_t and a uint32_t.
abbrev pub FitsStat : GenAppStat → Type 0
FitsStat s = (s.tx_pkt_cnt < 2 ^ 64) × (s.err_send_cnt < 2 ^ 32)

-- How often the queue is offered something before the run is told to stop.
abbrev pub offers : List Poll → ℕ
offers [] = 0
offers (no_mbufs on ∷ polls) = if on then offers polls else 0
offers (has_room n ∷ polls) = suc (offers polls)

module _ {G P : Type 0} (amend : G → ℕ → G × P) where
  -- The packets of the descriptors have left `w`: some were sent and the others freed, both in the
  -- order of the descriptors, and both are counted.
  pub record Accounts (descs : List ℕ) (w w' : Worker G P) : Type 0 where
    pub now_sent : List P
    pub now_freed : List P
    pub parts : Interleaved now_sent now_freed (amend_all amend descs w.gen).1
    pub gen_same : w'.gen ≡ (amend_all amend descs w.gen).0
    pub sent_same : w'.sent ≡ w.sent ++ now_sent
    pub freed_same : w'.freed ≡ w.freed ++ now_freed
    pub tx_counts : w'.stat.tx_pkt_cnt ≡ (w.stat.tx_pkt_cnt + length now_sent) % 2 ^ 64
    pub err_counts : w'.stat.err_send_cnt ≡ (w.stat.err_send_cnt + length now_freed) % 2 ^ 32

  pub amend_all-append :
      (ds es : List ℕ) (g : G)
      → amend_all amend (ds ++ es) g ≡ (
          let (g1, ps) = amend_all amend ds g in
          let (g2, qs) = amend_all amend es g1 in (g2, ps ++ qs))
  unfolding amend_all
  amend_all-append [] es g = refl
  amend_all-append (d ∷ ds) es g =
      ap (λ r. (r.0, (amend g d).1 ∷ r.1)) (amend_all-append ds es (amend g d).0)

  pub Accounts-none : (w : Worker G P) → FitsStat w.stat → Accounts [] w w
  unfolding amend_all
  Accounts-none w fits = record {
    now_sent = [];
    now_freed = [];
    parts = finished;
    gen_same = refl;
    sent_same = sym (append-nil w.sent);
    freed_same = sym (append-nil w.freed);
    tx_counts = omega (arith, fits.0);
    err_counts = omega (arith, fits.1);
  }

  pub Accounts-append :
      (ds es : List ℕ) (w v u : Worker G P)
      → Accounts ds w v
      → Accounts es v u
      → Accounts (ds ++ es) w u
  Accounts-append ds es w v u a b = record {
    now_sent = a.now_sent ++ b.now_sent;
    now_freed = a.now_freed ++ b.now_freed;
    parts = rw (amend_all-append ds es w.gen, ← a.gen_same) (Interleaved-append a.parts b.parts);
    gen_same = rw (amend_all-append ds es w.gen, ← a.gen_same) b.gen_same;
    sent_same = b.sent_same ∙ rw a.sent_same (append_assoc w.sent a.now_sent b.now_sent);
    freed_same = b.freed_same ∙ rw a.freed_same (append_assoc w.freed a.now_freed b.now_freed);
    tx_counts = omega (arith, a.tx_counts, b.tx_counts, length-append a.now_sent b.now_sent);
    err_counts = omega (arith, a.err_counts, b.err_counts, length-append a.now_freed b.now_freed);
  }

  Accounts-send_burst :
      (room : ℕ) (ds : List ℕ) (w : Worker G P) → Accounts ds w (send_burst amend room ds w)
  unfolding send_burst
  Accounts-send_burst room ds w =
      let mbufs : List P = (amend_all amend ds w.gen).1 in
      let num : ℕ = length mbufs in
      let nb_tx : ℕ = accepted room num in
      let le : nb_tx ≤ num = ground arith in
      record {
        now_sent = take nb_tx mbufs;
        now_freed = drop nb_tx mbufs;
        parts = Interleaved-take-drop nb_tx mbufs;
        gen_same = refl;
        sent_same = refl;
        freed_same = refl;
        tx_counts = rw (length-take nb_tx mbufs le) refl;
        err_counts = rw (length-drop nb_tx mbufs) refl;
      }

  FitsStat-send_burst :
      (room : ℕ) (ds : List ℕ) (w : Worker G P) → FitsStat (send_burst amend room ds w).stat
  unfolding send_burst
  FitsStat-send_burst room ds w = (omega arith, omega arith)

  -- What a run that is not stopped leaves: the answers left, which it did not need, and the worker.
  abbrev pub Returned : List ℕ → ℕ → Worker G P → Option (List Poll × Worker G P) → Type 0
  Returned descs need w r =
      (polls : List Poll) × (w' : Worker G P) × (r ≡ some (polls, w'))
      × (need ≤ offers polls)
      × FitsStat w'.stat
      × Accounts descs w w'

  Returned-send_block :
      (polls : List Poll) (ds : List ℕ) (w : Worker G P) (need : ℕ)
      → length ds + need ≤ offers polls
      → FitsStat w.stat
      → Returned ds need w (send_block amend polls ds w)
  unfolding send_block
  Returned-send_block polls [] w need enough fits =
      (polls, w, refl, omega (arith, enough), fits, Accounts-none w fits)
  Returned-send_block [] (d ∷ ds) w need enough fits = absurd (omega (arith, enough))
  Returned-send_block (no_mbufs false ∷ polls) (d ∷ ds) w need enough fits =
      absurd (omega (arith, enough))
  Returned-send_block (no_mbufs true ∷ polls) (d ∷ ds) w need enough fits =
      Returned-send_block polls (d ∷ ds) w need enough fits
  Returned-send_block (has_room n ∷ polls) (d ∷ ds) w need enough fits =
      let chunk : List ℕ = take burst_size (d ∷ ds) in
      let rest : List ℕ = drop burst_size (d ∷ ds) in
      let v : Worker G P = send_burst amend n chunk w in
      let (polls', w', same, left, fits', acc) =
        Returned-send_block polls rest v need (omega (arith, enough, length-drop 31 ds))
          (FitsStat-send_burst n chunk w) in
      let both = Accounts-append chunk rest w v w' (Accounts-send_burst n chunk w) acc in
      (
        polls',
        w',
        same,
        left,
        fits',
        subst (λ xs. Accounts xs w w') (append-take-drop burst_size (d ∷ ds)) both,
      )

  send_blocks-next :
      (polls polls1 : List Poll) (b : TxBlock) (bs : List TxBlock) (w v : Worker G P)
      (r : Option (List Poll × Worker G P))
      → send_block amend polls b w ≡ some (polls1, v)
      → send_blocks amend polls1 bs v ≡ r
      → send_blocks amend polls (b ∷ bs) w ≡ r
  unfolding send_blocks
  send_blocks-next polls polls1 b bs w v r e1 e2 = rw (send_blocks, e1) e2

  pub Returned-send_blocks :
      (polls : List Poll) (bs : List TxBlock) (w : Worker G P) (need : ℕ)
      → length (packets bs) + need ≤ offers polls
      → FitsStat w.stat
      → Returned (packets bs) need w (send_blocks amend polls bs w)
  unfolding send_blocks
  Returned-send_blocks polls [] w need enough fits =
      (polls, w, refl, omega (arith, enough), fits, Accounts-none w fits)
  Returned-send_blocks polls (b ∷ bs) w need enough fits =
      let (polls1, v, same1, left1, fits1, acc1) =
        Returned-send_block polls b w (length (packets bs) + need)
          (omega (arith, enough, length-append b (packets bs))) fits in
      let (polls2, u, same2, left2, fits2, acc2) =
        Returned-send_blocks polls1 bs v need left1 fits1 in
      (
        polls2,
        u,
        send_blocks-next polls polls1 b bs w v _ same1 same2,
        left2,
        fits2,
        Accounts-append b (packets bs) w v u acc1 acc2,
      )
