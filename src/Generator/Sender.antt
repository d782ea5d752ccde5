-- ===== src/Generator/Sender.antt =====
-- src/bus_generator/gen_application.cpp and gen_application.hpp: how a worker sends its schedule
-- (`tx_packets_cycle`, `tx_r_worker_cycle`) and what it counts. The generator is its state `G` and
-- its `amend`, which turns the packet of a descriptor into the bytes `P`. Clocks and priorities have
-- no effect on what is sent.
pub mod Accounts
pub mod Cycle
use process_bus.Prelude.{
  ℕ, zero, suc, ◌+◌, ◌-◌, ◌%◌, ◌^◌, Bool, true, false, Option, none, some, List, [], ◌∷◌, ◌++◌,
  length, get_elem?, take, drop, ltb, if◌then◌else◌,
}
use process_bus.Generator.Units.{TxBlock, TxUnit}

abbrev pub burst_size : ℕ
burst_size = 32

-- `GenAppStat` without the times. `errSendCnt` is a uint32_t, the others are uint64_t.
pub record GenAppStat : Type 0 where
  pub err_send_cnt : ℕ
  pub tx_pkt_cnt : ℕ
  pub tx_retry_cnt : ℕ
  pub tx_late_cnt : ℕ

abbrev pub new_stat : GenAppStat
new_stat = record { err_send_cnt = 0; tx_pkt_cnt = 0; tx_retry_cnt = 0; tx_late_cnt = 0 }

-- The state of a worker, with the packets that the NIC has taken, in order, and those freed unsent.
pub record Worker (G P : Type 0) : Type 0 where
  pub gen : G
  pub sent : List P
  pub freed : List P
  pub stat : GenAppStat

-- What DPDK answers in a round of the loop: `rte_pktmbuf_alloc_bulk` fails, and `doWork` is read
-- behind it; or it succeeds, and the transmit queue has room for this many packets.
pub data Poll : Type 0 where
  no_mbufs : Bool → Poll
  has_room : ℕ → Poll

-- `rte_eth_tx_burst` of `num` packets takes as many as the queue has room for.
abbrev pub accepted : ℕ → ℕ → ℕ
accepted room num = if ltb room num then room else num

module _ {G P : Type 0} (amend : G → ℕ → G × P) where
  -- The loop over the packets of a burst.
  unfoldable pub amend_all : List ℕ → G → G × List P
  amend_all [] g = (g, [])
  amend_all (d ∷ ds) g = let (g1, p) = amend g d in let (g2, ps) = amend_all ds g1 in (g2, p ∷ ps)

  -- One burst: what the queue does not take is freed.
  unfoldable pub send_burst : ℕ → List ℕ → Worker G P → Worker G P
  unfolding amend_all
  send_burst room descs w =
      let (g, mbufs) = amend_all descs w.gen in
      let num = length mbufs in
      let nb_tx = accepted room num in
      record {
        gen = g;
        sent = w.sent ++ take nb_tx mbufs;
        freed = w.freed ++ drop nb_tx mbufs;
        stat = record w.stat {
          tx_pkt_cnt = (w.stat.tx_pkt_cnt + nb_tx) % 2 ^ 64;
          err_send_cnt = (w.stat.err_send_cnt + (num - nb_tx)) % 2 ^ 32;
        };
      }

  -- The loop over a block, of which these packets are left; none if it still waits for mbufs when
  -- the answers end.
  unfoldable pub send_block : List Poll → TxBlock → Worker G P → Option (List Poll × Worker G P)
  send_block polls [] w = some (polls, w)
  send_block [] (d ∷ ds) w = none
  send_block (no_mbufs false ∷ polls) (d ∷ ds) w = some (polls, w)
  send_block (no_mbufs true ∷ polls) (d ∷ ds) w = send_block polls (d ∷ ds) w
  send_block (has_room n ∷ polls) (d ∷ ds) w =
      send_block polls (drop burst_size (d ∷ ds)) (send_burst n (take burst_size (d ∷ ds)) w)

  unfoldable pub send_blocks :
      List Poll → List TxBlock → Worker G P → Option (List Poll × Worker G P)
  send_blocks polls [] w = some (polls, w)
  send_blocks polls (b ∷ bs) w = elim (send_block polls b w) [
    | none ↦ none
    | some (polls', w') ↦ send_blocks polls' bs w'
  ]

  -- `n` rounds of the main loop from the unit `i` on.
  unfoldable pub tx_cycle :
      ℕ → List TxUnit → ℕ → List Poll → Worker G P → Option (List Poll × Worker G P)
  tx_cycle zero units i polls w = some (polls, w)
  tx_cycle (suc n) units i polls w = elim (get_elem? units i) [
    | none ↦ none
    | some u ↦ elim (send_blocks polls u.blocks w) [
      | none ↦ none
      | some (polls', w') ↦ tx_cycle n units ((i + 1) % length units) polls' w'
    ]
  ]

  -- The functions throw if there are no units. The first unit is the first to be sent.
  unfoldable pub tx_packets_cycle :
      ℕ → List TxUnit → List Poll → Worker G P → Option (List Poll × Worker G P)
  tx_packets_cycle n [] polls w = none
  tx_packets_cycle n (u ∷ units) polls w = tx_cycle n (u ∷ units) 0 polls w
