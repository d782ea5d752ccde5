-- ===== src/Receiver/Cores/Conservation.antt =====
-- Each received packet is in a ring or counted as lost.
use process_bus.Prelude.{
  ℕ, zero, suc, ◌+◌, ◌-◌, ◌^◌, ◌≤◌, ◌<◌, ◌≡◌, ◌≢◌, refl, ap, ◌∙◌, arith, List, [], ◌∷◌, ◌++◌,
  length, length-append, length-take, length-drop, take, drop, ltb, ◌==◌, ==_iff, if◌then◌else◌,
  Bool-cases, inl, inr,
}
use native.Mathlib.Decide.{ℕ_discrete}
use process_bus.Pipeline.{Packet}
use process_bus.Receiver.Cores.{
  appid_of, worker_of, Queues, no_packets, deal, Rings, queued_of, enqueue, flush_one, flush,
  multi_core_rss,
}
use process_bus.Receiver.Cores.Order.{received, worker_idx-lt}

-- The lengths of the lists from `k` on, `n` of them, together.
abbrev pub lengths : ℕ → ℕ → (ℕ → List Packet) → ℕ
lengths zero k lists = 0
lengths (suc n) k lists = length (lists k) + lengths n (k + 1) lists

lengths-same :
    (n k i : ℕ) (xs ys : ℕ → List Packet)
    → i < k
    → ((j : ℕ) → j ≢ i → xs j ≡ ys j)
    → lengths n k xs ≡ lengths n k ys
lengths-same zero k i xs ys lt h = refl
lengths-same (suc n) k i xs ys lt h =
    rw (h k (λ e. omega (arith, e, lt)), lengths-same n (k + 1) i xs ys (omega (arith, lt)) h) refl

-- Lists that are alike but for one, which has `m` packets more.
lengths-more :
    (n k i m : ℕ) (xs ys : ℕ → List Packet)
    → k ≤ i
    → i < k + n
    → ((j : ℕ) → j ≢ i → ys j ≡ xs j)
    → length (ys i) ≡ length (xs i) + m
    → lengths n k ys ≡ lengths n k xs + m
lengths-more zero k i m xs ys lo hi h e = absurd (omega (arith, lo, hi))
lengths-more (suc n) k i m xs ys lo hi h e = elim (ℕ_discrete k i) [
  | yes same ↦
      let rest = lengths-same n (k + 1) i ys xs (omega (arith, same)) h in
      let here = ap (λ j. length (ys j)) same in
      let there = ap (λ j. length (xs j)) same in omega (arith, rest, here, there, e)
  | no differ ↦
      let rest =
        lengths-more n (k + 1) i m xs ys (omega (arith, lo, differ)) (omega (arith, hi)) h e in
      let here = ap length (h k differ) in omega (arith, rest, here)
]

at_index :
    (i : ℕ) (queue : Queues) (p : Packet)
    → length (if i == i then queue i ++ p ∷ [] else queue i) ≡ length (queue i) + 1
at_index i queue p = rw ((==_iff i i).1 refl) (length-append (queue i) (p ∷ []))

deal-lengths :
    (worker_num : ℕ) (ps : List Packet) (queue : Queues)
    → 1 ≤ worker_num
    → lengths worker_num 0 (deal worker_num ps queue) ≡ lengths worker_num 0 queue + length ps
unfolding deal
deal-lengths worker_num [] queue one = omega arith
deal-lengths worker_num (p ∷ ps) queue one =
    let idx : ℕ = worker_of worker_num p in
    let queue' : Queues = λ i. if i == idx then queue i ++ p ∷ [] else queue i in
    let rest = deal-lengths worker_num ps queue' one in
    let inside = worker_idx-lt worker_num (appid_of p) one in
    let more =
      lengths-more worker_num 0 idx 1 queue queue' (omega arith) (omega (arith, inside))
        (λ j differ. ground (arith, differ)) (at_index idx queue p) in
    omega (arith, rest, more)

-- What the rings hold, and what they hold or have lost.
abbrev pub in_rings : ℕ → Rings → ℕ
in_rings worker_num r = lengths worker_num 0 r.ring

-- From `r` to `r'`, `n` packets more are in a ring or lost, and the lost ones freed and counted.
abbrev pub Gains : ℕ → ℕ → Rings → Rings → Type 0
Gains worker_num n r r' =
    (in_rings worker_num r' + r'.err_ring_full_cnt
      ≡ in_rings worker_num r + r.err_ring_full_cnt + n)
    × (length r'.freed + r.err_ring_full_cnt ≡ length r.freed + r'.err_ring_full_cnt)
    × (r'.err_ring_full_cnt ≤ r.err_ring_full_cnt + n)

enqueue-Gains :
    (worker_num room k : ℕ) (buff : List Packet) (r : Rings)
    → k < worker_num
    → r.err_ring_full_cnt + length buff < 2 ^ 64
    → Gains worker_num (length buff) r (enqueue room k buff r)
enqueue-Gains worker_num room k buff r lt fits =
    let queued : ℕ = queued_of room (length buff) in
    let le : queued ≤ length buff = ground arith in
    let r' : Rings = enqueue room k buff r in
    let here : length (r'.ring k) ≡ length (r.ring k) + queued = rw ((==_iff k k).1 refl) (
      length-append (r.ring k) (take queued buff)
      ∙ ap (λ n. length (r.ring k) + n) (length-take queued buff le)) in
    let more =
      lengths-more worker_num 0 k queued r.ring r'.ring (omega arith) (omega (arith, lt))
        (λ j differ. ground (arith, differ)) here in
    let err : r'.err_ring_full_cnt ≡ r.err_ring_full_cnt + (length buff - queued) =
      omega (arith, fits, le) in
    let freed : length r'.freed ≡ length r.freed + (length buff - queued) =
      length-append r.freed (drop queued buff)
      ∙ ap (λ n. length r.freed + n) (length-drop queued buff) in
    (omega (arith, more, err, le), omega (arith, err, freed), omega (arith, err))

flush_one-Gains :
    (worker_num : ℕ) (rooms : ℕ → ℕ) (queue : Queues) (k : ℕ) (r : Rings)
    → k < worker_num
    → r.err_ring_full_cnt + length (queue k) < 2 ^ 64
    → Gains worker_num (length (queue k)) r (flush_one rooms queue k r)
flush_one-Gains worker_num rooms queue k r lt fits = elim (Bool-cases (ltb 0 (length (queue k)))) [
  | inl some ↦ rw some (enqueue-Gains worker_num (rooms k) k (queue k) r lt fits)
  | inr empty ↦
      let nothing : length (queue k) ≡ 0 = ground (arith, empty) in
      rw empty (omega (arith, nothing), omega arith, omega arith)
]

flush-Gains :
    (worker_num n k : ℕ) (rooms : ℕ → ℕ) (queue : Queues) (r : Rings)
    → k + n ≤ worker_num
    → r.err_ring_full_cnt + lengths n k queue < 2 ^ 64
    → Gains worker_num (lengths n k queue) r (flush n k rooms queue r)
unfolding flush
flush-Gains worker_num zero k rooms queue r le fits = (omega arith, omega arith, omega arith)
flush-Gains worker_num (suc n) k rooms queue r le fits =
    let one =
      flush_one-Gains worker_num rooms queue k r (omega (arith, le)) (omega (arith, fits)) in
    let rest =
      flush-Gains worker_num n (k + 1) rooms queue (flush_one rooms queue k r) (omega (arith, le))
        (omega (arith, fits, one.2)) in
    (omega (arith, one, rest), omega (arith, one, rest), omega (arith, one, rest))

no_packets-lengths : (n k : ℕ) → lengths n k no_packets ≡ 0
no_packets-lengths zero k = refl
no_packets-lengths (suc n) k = omega (arith, no_packets-lengths n (k + 1))

-- Each packet that is received is put into the ring of a worker or freed and counted as lost for want
-- of room, for one worker at least and a counter that is not about to wrap.
pub multi_core_rss-Gains :
    (worker_num : ℕ) (bursts : List ((ℕ → ℕ) × List Packet)) (r : Rings)
    → 1 ≤ worker_num
    → r.err_ring_full_cnt + length (received bursts) < 2 ^ 64
    → Gains worker_num (length (received bursts)) r (multi_core_rss worker_num bursts r)
unfolding multi_core_rss
multi_core_rss-Gains worker_num [] r one fits = (omega arith, omega arith, omega arith)
multi_core_rss-Gains worker_num ((rooms, bufs) ∷ bursts) r one fits =
    let queue : Queues = deal worker_num bufs no_packets in
    let size = deal-lengths worker_num bufs no_packets one in
    let nothing = no_packets-lengths worker_num 0 in
    let both = length-append bufs (received bursts) in
    let first =
      flush-Gains worker_num worker_num 0 rooms queue r (omega arith)
        (omega (arith, fits, size, nothing, both)) in
    let rest =
      multi_core_rss-Gains worker_num bursts (flush worker_num 0 rooms queue r) one
        (omega (arith, fits, first.2, size, nothing, both)) in
    (
      omega (arith, first, rest, size, nothing, both),
      omega (arith, first, rest),
      omega (arith, first, rest, size, nothing, both),
    )
