-- ===== src/Receiver/Cores.antt =====
-- src/bus_processor/rx_application.cpp: `multi_core_rss`, which deals the received packets out to the
-- worker cores by their APPID. The ring of a worker is the list of the packets that were ever put into
-- it, in order.
pub mod Order
pub mod Conservation
use process_bus.Prelude.{
  ℕ, zero, suc, ◌+◌, ◌-◌, ◌*◌, ◌/◌, ◌%◌, ◌^◌, Bool, true, false, not, ◌&&◌, ◌||◌, List, [], ◌∷◌,
  ◌++◌, length, take, drop, ltb, ◌==◌, if◌then◌else◌,
}
use process_bus.Prelude.Result.{Result, ok, err}
use process_bus.Parser.Envelope.{get_proto_type}
use process_bus.Pipeline.{Packet}

-- `&` of two numbers of `n` bits.
unfoldable pub bit_and : ℕ → ℕ → ℕ → ℕ
bit_and zero a b = 0
bit_and (suc n) a b = 2 * bit_and n (a / 2) (b / 2) + (if a % 2 == 1 && b % 2 == 1 then 1 else 0)

-- The function throws, here error 1, unless the number of workers is a power of 2.
unfoldable pub check_workers : ℕ → Result (Unit {0})
unfolding bit_and
check_workers worker_num =
    if worker_num == 0 || not (bit_and 32 worker_num (worker_num - 1) == 0) then err 1 else ok tt

-- The key that the classifier reads.
abbrev pub appid_of : Packet → ℕ
appid_of p = (get_proto_type p.bytes p.size).1

-- `idx`, the worker that a packet with this key goes to.
unfoldable pub worker_idx : ℕ → ℕ → ℕ
unfolding bit_and
worker_idx worker_num appid = bit_and 32 appid (worker_num - 1)

abbrev pub worker_of : ℕ → Packet → ℕ
worker_of worker_num p = worker_idx worker_num (appid_of p)

-- `workerQueue` by the number of the worker.
abbrev pub Queues : Type 0
Queues = ℕ → List Packet

abbrev pub no_packets : Queues
no_packets i = []

-- The loop over a received burst.
unfoldable pub deal : ℕ → List Packet → Queues → Queues
deal worker_num [] queue = queue
deal worker_num (p ∷ ps) queue =
    let idx = worker_of worker_num p in
    deal worker_num ps (λ i. if i == idx then queue i ++ p ∷ [] else queue i)

-- The rings of the workers, the packets freed because a ring was full, and `m_errRingFullCnt`.
pub record Rings : Type 0 where
  pub ring : ℕ → List Packet
  pub freed : List Packet
  pub err_ring_full_cnt : ℕ

-- `rte_ring_sp_enqueue_burst` of `num` packets queues as many as the ring has room for.
abbrev pub queued_of : ℕ → ℕ → ℕ
queued_of room num = if ltb room num then room else num

abbrev pub enqueue : ℕ → ℕ → List Packet → Rings → Rings
enqueue room i buff r =
    let queued = queued_of room (length buff) in
    record {
      ring = λ j. if j == i then r.ring j ++ take queued buff else r.ring j;
      freed = r.freed ++ drop queued buff;
      err_ring_full_cnt = (r.err_ring_full_cnt + (length buff - queued)) % 2 ^ 64;
    }

-- The round of the loop for worker `i`: an empty queue changes nothing.
abbrev pub flush_one : (ℕ → ℕ) → Queues → ℕ → Rings → Rings
flush_one rooms queue i r = if ltb 0 (length (queue i)) then enqueue (rooms i) i (queue i) r else r

-- The loop over the workers from the `i`-th on: `n` are left.
unfoldable pub flush : ℕ → ℕ → (ℕ → ℕ) → Queues → Rings → Rings
flush zero i rooms queue r = r
flush (suc n) i rooms queue r = flush n (i + 1) rooms queue (flush_one rooms queue i r)

-- The main loop over the received bursts. `rooms` is what the ring of each worker has room for then.
-- `workerQueue` is empty at the start of each round.
unfoldable pub multi_core_rss : ℕ → List ((ℕ → ℕ) × List Packet) → Rings → Rings
unfolding deal flush
multi_core_rss worker_num [] r = r
multi_core_rss worker_num ((rooms, bufs) ∷ bursts) r =
    multi_core_rss worker_num bursts (flush worker_num 0 rooms (deal worker_num bufs no_packets) r)
