-- ===== src/Generator/Burst/Stopped.antt =====
-- What becomes of the packets of a run in burst mode that is stopped at any moment.
use process_bus.Prelude.{
  ℕ, ◌+◌, ◌%◌, ◌^◌, ◌<◌, ◌≡◌, refl, sym, ap, ◌∙◌, arith, true, false, ◌&&◌, List, [], ◌∷◌, ◌++◌,
  length, length-append, Bool-cases, ◌⊎◌, inl, inr, ◌==◌,
}
use mathlib.Core.List.{append-nil, append_assoc}
use process_bus.Generator.Sender.{amend_all}
use process_bus.Generator.Sender.Accounts.{amend_all-append}
use process_bus.Generator.Burst.Stages.{fire-append, length-amend_all}
use process_bus.Generator.Burst.Plans.{repeated}
use process_bus.Generator.Burst.Delivery.{Delivers, fired-Delivers, burst_seconds-next}
use process_bus.Generator.Burst.{
  Alloc, Second, BurstWorker, fire, stage, stop_staged, fired, burst_second, burst_seconds,
}
use process_bus.Generator.Burst.Staged.{stage-Stages, stage_complete}

length-zero {ℓ} : {A : Type ℓ} (xs : List A) → length xs == 0 ≡ true → xs ≡ []
length-zero [] e = refl
length-zero (x ∷ xs) e = ground (arith, e)

module _ {G P : Type 0} (amend : G → ℕ → G × P) where
  -- A first part of the packets of `ds` has been amended, and of that again a first part was sent and
  -- the others freed.
  pub record Keeps (ds : List ℕ) (b b' : BurstWorker G P) : Type 0 where
    pub first : List ℕ
    pub others : List ℕ
    pub now_sent : List P
    pub now_freed : List P
    pub parts : first ++ others ≡ ds
    pub packets_same : now_sent ++ now_freed ≡ (amend_all amend first b.worker.gen).1
    pub gen_same : b'.worker.gen ≡ (amend_all amend first b.worker.gen).0
    pub sent_same : b'.worker.sent ≡ b.worker.sent ++ now_sent
    pub freed_same : b'.worker.freed ≡ b.worker.freed ++ now_freed
    pub err_same : b'.worker.stat.err_send_cnt ≡ b.worker.stat.err_send_cnt
    pub tx_counts :
        b'.worker.stat.tx_pkt_cnt ≡ (b.worker.stat.tx_pkt_cnt + length now_sent) % 2 ^ 64

  fired-Keeps :
      (plan rooms : List ℕ) (b : BurstWorker G P) (tick : ℕ × ℕ) (r : ℕ)
      → let (g, staged) = amend_all amend plan b.worker.gen in
        Keeps plan b (fired amend b g tick (fire rooms staged r)).0
  fired-Keeps plan rooms b tick r =
      let (g, staged) = amend_all amend plan b.worker.gen in
      record {
        first = plan;
        others = [];
        now_sent = (fire rooms staged r).0;
        now_freed = (fire rooms staged r).1;
        parts = append-nil plan;
        packets_same = fire-append rooms staged r;
        gen_same = refl;
        sent_same = refl;
        freed_same = refl;
        err_same = refl;
        tx_counts = refl;
      }

  stop_staged-Keeps :
      (plan : List ℕ) (b : BurstWorker G P) (allocs : List Alloc)
      → b.worker.stat.tx_pkt_cnt < 2 ^ 64
      → let (g, staged, complete) = stage amend allocs plan b.worker.gen in
        Keeps plan b (stop_staged amend b g staged)
  stop_staged-Keeps plan b allocs fits =
      let st = stage-Stages amend allocs plan b.worker.gen in
      record {
        first = st.first;
        others = st.others;
        now_sent = [];
        now_freed = (stage amend allocs plan b.worker.gen).1;
        parts = st.parts;
        packets_same = st.packets_same;
        gen_same = st.gen_same;
        sent_same = sym (append-nil b.worker.sent);
        freed_same = refl;
        err_same = refl;
        tx_counts = omega (arith, fits);
      }

  burst_second-cases :
      (ticks : ℕ) (plan : List ℕ) (s : Second) (b : BurstWorker G P)
      → b.worker.stat.tx_pkt_cnt < 2 ^ 64
      → let (b', on) = burst_second amend ticks plan s b in
        ((on ≡ true) × Delivers amend plan b b') ⊎ ((on ≡ false) × Keeps plan b b')
  unfolding burst_second
  burst_second-cases ticks plan s b fits =
      elim (Bool-cases ((stage amend s.allocs plan b.worker.gen).2 && s.still_on)) [
        | inl goes ↦
            let staged : List P = (amend_all amend plan b.worker.gen).1 in
            let r : ℕ = b.worker.stat.tx_retry_cnt in
            let full = stage_complete amend s.allocs plan b.worker.gen (ground (arith, goes)) in
            let on : s.still_on ≡ true = ground (arith, goes) in
            rw (full, on)
              (elim (Bool-cases (length (fire s.rooms staged r).1 == 0)) [
                | inl e ↦
                    let (all, more) = fired-Delivers amend plan s.rooms b _ r (length-zero _ e) in
                    inl (more, all)
                | inr e ↦ inr (e, fired-Keeps plan s.rooms b _ r)
              ])
        | inr stops ↦ rw stops (inr (refl, stop_staged-Keeps plan b s.allocs fits))
      ]

  Keeps-append :
      (ds es : List ℕ) (b c d : BurstWorker G P)
      → Delivers amend ds b c
      → Keeps es c d
      → Keeps (ds ++ es) b d
  Keeps-append ds es b c d h k = record {
    first = ds ++ k.first;
    others = k.others;
    now_sent = (amend_all amend ds b.worker.gen).1 ++ k.now_sent;
    now_freed = k.now_freed;
    parts = append_assoc ds k.first k.others ∙ ap (λ xs. ds ++ xs) k.parts;
    packets_same =
        append_assoc (amend_all amend ds b.worker.gen).1 k.now_sent k.now_freed
        ∙ rw (amend_all-append amend ds k.first b.worker.gen, ← h.gen_same)
            (ap (λ xs. (amend_all amend ds b.worker.gen).1 ++ xs) k.packets_same);
    gen_same = rw (amend_all-append amend ds k.first b.worker.gen, ← h.gen_same) k.gen_same;
    sent_same = k.sent_same ∙ rw h.sent_same (append_assoc b.worker.sent _ _);
    freed_same = k.freed_same ∙ rw h.freed_same refl;
    err_same = k.err_same ∙ h.err_same;
    tx_counts = omega (
      arith,
      h.tx_counts,
      k.tx_counts,
      length-amend_all amend ds b.worker.gen,
      length-append (amend_all amend ds b.worker.gen).1 k.now_sent,
    );
  }

  burst_seconds-stop :
      (ticks : ℕ) (plan : List ℕ) (s : Second) (ss : List Second) (b : BurstWorker G P)
      → (burst_second amend ticks plan s b).1 ≡ false
      → burst_seconds amend ticks plan (s ∷ ss) b ≡ (burst_second amend ticks plan s b).0
  unfolding burst_seconds
  burst_seconds-stop ticks plan s ss b off = rw (burst_seconds, off) refl

  Keeps-more : (ds es : List ℕ) (b c : BurstWorker G P) → Keeps ds b c → Keeps (ds ++ es) b c
  Keeps-more ds es b c k = record {
    first = k.first;
    others = k.others ++ es;
    now_sent = k.now_sent;
    now_freed = k.now_freed;
    parts = sym (append_assoc k.first k.others es) ∙ ap (λ xs. xs ++ es) k.parts;
    packets_same = k.packets_same;
    gen_same = k.gen_same;
    sent_same = k.sent_same;
    freed_same = k.freed_same;
    err_same = k.err_same;
    tx_counts = k.tx_counts;
  }

  -- Wherever a run in burst mode is stopped, while packets are staged or while they are sent, the
  -- packets that left are a first part of the plan, second after second, in order: of those that were
  -- amended the first were sent and counted, the others, if any, freed; none is counted as an error.
  -- Condition: the packet counter holds a value of its type.
  pub burst_seconds-Keeps :
      (ticks : ℕ) (plan : List ℕ) (ss : List Second) (b : BurstWorker G P)
      → b.worker.stat.tx_pkt_cnt < 2 ^ 64
      → Keeps (repeated (length ss) plan) b (burst_seconds amend ticks plan ss b)
  unfolding burst_seconds amend_all
  burst_seconds-Keeps ticks plan [] b fits = record {
    first = [];
    others = [];
    now_sent = [];
    now_freed = [];
    parts = refl;
    packets_same = refl;
    gen_same = refl;
    sent_same = sym (append-nil b.worker.sent);
    freed_same = sym (append-nil b.worker.freed);
    err_same = refl;
    tx_counts = omega (arith, fits);
  }
  burst_seconds-Keeps ticks plan (s ∷ ss) b fits =
      let c : BurstWorker G P = (burst_second amend ticks plan s b).0 in
      elim (burst_second-cases ticks plan s b fits) [
        | inl (on, one) ↦
            let rest = burst_seconds-Keeps ticks plan ss c (omega (arith, one.tx_counts)) in
            rw (burst_seconds-next amend ticks plan s ss b on)
              (Keeps-append plan (repeated (length ss) plan) b c _ one rest)
        | inr (off, last) ↦
            rw (burst_seconds-stop ticks plan s ss b off)
              (Keeps-more plan (repeated (length ss) plan) b c last)
      ]
