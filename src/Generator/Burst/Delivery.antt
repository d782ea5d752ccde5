-- ===== src/Generator/Burst/Delivery.antt =====
-- Bursts leave whole and in order.
use process_bus.Prelude.{
  ℕ, ◌+◌, ◌*◌, ◌%◌, ◌^◌, ◌≤◌, ◌<◌, ◌≡◌, refl, sym, ap, ◌∙◌, arith, true, List, [], ◌∷◌, ◌++◌, All,
  length, length-append, some,
}
use mathlib.Core.List.{append-nil, append_assoc}
use native.Mathlib.Nat.{mul-le-mul_right, one-mul}
use process_bus.Generator.{make_burst_plan}
use process_bus.Generator.Plan.{times-make_burst_plan}
use process_bus.Generator.Sender.Cycle.{rounds}
use process_bus.Generator.Sender.{amend_all}
use process_bus.Generator.Sender.Accounts.{amend_all-append}
use process_bus.Generator.Burst.Stages.{
  grants, serves, fire-append, fire_all, stage_all, length-amend_all,
}
use process_bus.Generator.Burst.Plans.{repeated, repeated-plan}
use process_bus.Generator.Burst.{
  Second, BurstWorker, fire, fired, burst_second, burst_seconds, tx_burst_worker_cycle,
}

module _ {G P : Type 0} (amend : G → ℕ → G × P) where
  -- The packets of `ds` have left `b`, all of them sent.
  pub record Delivers (ds : List ℕ) (b b' : BurstWorker G P) : Type 0 where
    pub gen_same : b'.worker.gen ≡ (amend_all amend ds b.worker.gen).0
    pub sent_same : b'.worker.sent ≡ b.worker.sent ++ (amend_all amend ds b.worker.gen).1
    pub freed_same : b'.worker.freed ≡ b.worker.freed
    pub err_same : b'.worker.stat.err_send_cnt ≡ b.worker.stat.err_send_cnt
    pub tx_counts : b'.worker.stat.tx_pkt_cnt ≡ (b.worker.stat.tx_pkt_cnt + length ds) % 2 ^ 64

  -- The run is not stopped before as many allocations have succeeded, and the queue has had room as
  -- often, as there are packets.
  pub record Serves (plan : List ℕ) (s : Second) : Type 0 where
    pub allocates : length plan ≤ grants s.allocs
    pub goes_on : s.still_on ≡ true
    pub takes : length plan ≤ serves s.rooms

  pub fired-Delivers :
      (plan rooms : List ℕ) (b : BurstWorker G P) (tick : ℕ × ℕ) (r : ℕ)
      → (fire rooms (amend_all amend plan b.worker.gen).1 r).1 ≡ []
      → let (g, staged) = amend_all amend plan b.worker.gen in
        let (b', on) = fired amend b g tick (fire rooms staged r) in
        Delivers plan b b' × (on ≡ true)
  fired-Delivers plan rooms b tick r none_left =
      let (g, staged) = amend_all amend plan b.worker.gen in
      let size = length-amend_all amend plan b.worker.gen in
      let all : (fire rooms staged r).0 ≡ staged =
        sym (append-nil (fire rooms staged r).0)
        ∙ ap (λ xs. (fire rooms staged r).0 ++ xs) (sym none_left)
        ∙ fire-append rooms staged r in
      (
        record {
          gen_same = refl;
          sent_same = rw all refl;
          freed_same = rw none_left (append-nil b.worker.freed);
          err_same = refl;
          tx_counts = rw (all, size) refl;
        },
        rw none_left refl,
      )

  burst_second-Delivers :
      (ticks : ℕ) (plan : List ℕ) (s : Second) (b : BurstWorker G P)
      → Serves plan s
      → Delivers plan b (burst_second amend ticks plan s b).0
        × ((burst_second amend ticks plan s b).1 ≡ true)
  unfolding burst_second
  burst_second-Delivers ticks plan s b h =
      let staged : List P = (amend_all amend plan b.worker.gen).1 in
      let size = length-amend_all amend plan b.worker.gen in
      rw (stage_all amend s.allocs plan b.worker.gen h.allocates, h.goes_on)
        (fired-Delivers plan s.rooms b _ _
          (fire_all s.rooms staged _ (omega (arith, size, h.takes))))

  Delivers-none : (b : BurstWorker G P) → b.worker.stat.tx_pkt_cnt < 2 ^ 64 → Delivers [] b b
  unfolding amend_all
  Delivers-none b fits = record {
    gen_same = refl;
    sent_same = sym (append-nil b.worker.sent);
    freed_same = refl;
    err_same = refl;
    tx_counts = omega (arith, fits);
  }

  Delivers-append :
      (ds es : List ℕ) (b c d : BurstWorker G P)
      → Delivers ds b c
      → Delivers es c d
      → Delivers (ds ++ es) b d
  Delivers-append ds es b c d h k = record {
    gen_same = rw (amend_all-append amend ds es b.worker.gen, ← h.gen_same) k.gen_same;
    sent_same =
        rw (amend_all-append amend ds es b.worker.gen, ← h.gen_same)
          (k.sent_same ∙ rw h.sent_same (append_assoc b.worker.sent _ _));
    freed_same = k.freed_same ∙ h.freed_same;
    err_same = k.err_same ∙ h.err_same;
    tx_counts = omega (arith, h.tx_counts, k.tx_counts, length-append ds es);
  }

  pub burst_seconds-next :
      (ticks : ℕ) (plan : List ℕ) (s : Second) (ss : List Second) (b : BurstWorker G P)
      → (burst_second amend ticks plan s b).1 ≡ true
      → burst_seconds amend ticks plan (s ∷ ss) b
        ≡ burst_seconds amend ticks plan ss (burst_second amend ticks plan s b).0
  unfolding burst_seconds
  burst_seconds-next ticks plan s ss b on = rw (burst_seconds, on) refl

  burst_seconds-Delivers :
      (ticks : ℕ) (plan : List ℕ) (ss : List Second) (b : BurstWorker G P)
      → All (Serves plan) ss
      → b.worker.stat.tx_pkt_cnt < 2 ^ 64
      → Delivers (repeated (length ss) plan) b (burst_seconds amend ticks plan ss b)
  unfolding burst_seconds
  burst_seconds-Delivers ticks plan [] b h fits = Delivers-none b fits
  burst_seconds-Delivers ticks plan (s ∷ ss) b (h, hs) fits =
      let (one, on) = burst_second-Delivers ticks plan s b h in
      let c : BurstWorker G P = (burst_second amend ticks plan s b).0 in
      let rest = burst_seconds-Delivers ticks plan ss c hs (omega (arith, one.tx_counts)) in
      rw (burst_seconds-next ticks plan s ss b on)
        (Delivers-append plan (repeated (length ss) plan) b c _ one rest)

  tx_burst_worker_cycle-nonempty :
      (ticks : ℕ) (plan : List ℕ) (ss : List Second) (b : BurstWorker G P)
      → 1 ≤ length plan
      → tx_burst_worker_cycle amend ticks plan ss b ≡ some (burst_seconds amend ticks plan ss b)
  unfolding tx_burst_worker_cycle
  tx_burst_worker_cycle-nonempty ticks [] ss b one = absurd (omega (arith, one))
  tx_burst_worker_cycle-nonempty ticks (d ∷ ds) ss b one = refl

  -- A worker in burst mode sends in each second every IED as often as its plan says, the IEDs in
  -- order and round after round, and so in a row what a worker sends that spreads the same rounds
  -- over the second. Nothing is freed and no error is counted, whatever the queue takes at a time and
  -- however late the staging ends. Conditions: the plan is not empty, each second has as many allocations
  -- that succeed and as many rounds in which the queue has room as there are packets before the run is
  -- stopped, and the packet counter holds a value of its type.
  pub tx_burst_worker_cycle-Delivers :
      (streams reps ticks : ℕ) (ss : List Second) (b : BurstWorker G P)
      → 1 ≤ streams
      → 1 ≤ reps
      → All (Serves (make_burst_plan streams reps)) ss
      → b.worker.stat.tx_pkt_cnt < 2 ^ 64
      → (b' : BurstWorker G P) × (tx_burst_worker_cycle amend ticks
            (make_burst_plan streams reps)
            ss
            b
          ≡ some b')
        × Delivers (rounds (length ss * reps) streams) b b'
  tx_burst_worker_cycle-Delivers streams reps ticks ss b some_streams some_reps h fits =
      let plan : List ℕ = make_burst_plan streams reps in
      let size = times-make_burst_plan streams reps 0 in
      let least = mul-le-mul_right streams some_reps in
      let same = repeated-plan (length ss) streams reps in
      (
        burst_seconds amend ticks plan ss b,
        tx_burst_worker_cycle-nonempty ticks plan ss b
            (omega (arith, size.1, least, some_streams, one-mul streams)),
        rw (← same) (burst_seconds-Delivers ticks plan ss b h fits),
      )
