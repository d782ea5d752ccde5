-- ===== src/Generator/Sender/Cycle.antt =====
-- The rounds of a worker over its schedule.
use process_bus.Prelude.{
  ℕ, zero, suc, ◌+◌, ◌*◌, ◌%◌, ◌≤◌, ◌<◌, ◌≡◌, refl, arith, Option, some, List, [], ◌∷◌, ◌++◌,
  length, get_elem?, consecutive, length-consecutive,
}
use native.Mathlib.Nat.{suc-mul, mod-lt}
use process_bus.Generator.Units.{TxUnit, units_from, generate_tx_units, create_tx_units}
use process_bus.Generator.Units.Order.{packets, units_from-InOrder, length-units_from}
use process_bus.Generator.Sender.{Worker, Poll, send_blocks, tx_cycle, tx_packets_cycle}
use process_bus.Generator.Sender.Accounts.{
  FitsStat, Accounts-none, Accounts-append, Returned, Returned-send_blocks, offers,
}

-- `n` times the IEDs from 0 on.
abbrev pub rounds : ℕ → ℕ → List ℕ
rounds zero ieds = []
rounds (suc n) ieds = consecutive 0 ieds ++ rounds n ieds

module _ {G P : Type 0} (amend : G → ℕ → G × P) where
  tx_cycle-next :
      (units : List TxUnit) (n i : ℕ) (u : TxUnit) (polls polls1 : List Poll) (w v : Worker G P)
      (r : Option (List Poll × Worker G P))
      → get_elem? units i ≡ some u
      → send_blocks amend polls u.blocks w ≡ some (polls1, v)
      → tx_cycle amend n units ((i + 1) % length units) polls1 v ≡ r
      → tx_cycle amend (suc n) units i polls w ≡ r
  unfolding tx_cycle
  tx_cycle-next units n i u polls polls1 w v r e1 e2 e3 = rw (tx_cycle, e1, e2) e3

  Returned-tx_cycle :
      (units : List TxUnit) (ieds : ℕ)
      → ((i : ℕ)
          → i < length units
          → (u : TxUnit) × (get_elem? units i ≡ some u) × (packets u.blocks ≡ consecutive 0 ieds))
      → 1 ≤ length units
      → (n i : ℕ) (polls : List Poll) (w : Worker G P) → i < length units
      → n * ieds ≤ offers polls
      → FitsStat w.stat
      → Returned amend (rounds n ieds) 0 w (tx_cycle amend n units i polls w)
  unfolding tx_cycle
  Returned-tx_cycle units ieds each one zero i polls w lt enough fits =
      (polls, w, refl, omega arith, fits, Accounts-none amend w fits)
  Returned-tx_cycle units ieds each one (suc n) i polls w lt enough fits =
      let (u, at, all) = each i lt in
      let (polls1, v, same1, left1, fits1, acc1) =
        Returned-send_blocks amend polls u.blocks w (n * ieds)
          (rw (all, length-consecutive ieds 0) (omega (arith, enough, suc-mul n ieds))) fits in
      let (polls2, x, same2, left2, fits2, acc2) =
        Returned-tx_cycle units ieds each one n ((i + 1) % length units) polls1 v
          (mod-lt (i + 1) {m = length units} one) left1 fits1 in
      (
        polls2,
        x,
        tx_cycle-next units n i u polls polls1 w v _ at same1 same2,
        left2,
        fits2,
        Accounts-append amend (consecutive 0 ieds) (rounds n ieds) w v x (rw all at acc1) acc2,
      )

  tx_packets_cycle-nonempty :
      (n : ℕ) (units : List TxUnit) (polls : List Poll) (w : Worker G P)
      → 1 ≤ length units
      → tx_packets_cycle amend n units polls w ≡ tx_cycle amend n units 0 polls w
  unfolding tx_packets_cycle
  tx_packets_cycle-nonempty n [] polls w one = absurd (omega (arith, one))
  tx_packets_cycle-nonempty n (u ∷ units) polls w one = refl

  Returned-units_from :
      (size ieds pps n : ℕ) (polls : List Poll) (w : Worker G P)
      → 1 ≤ size
      → 1 ≤ pps
      → n * ieds ≤ offers polls
      → FitsStat w.stat
      → Returned amend
          (rounds n ieds)
          0
          w
          (tx_packets_cycle amend n (units_from size ieds pps pps 0) polls w)
  Returned-units_from size ieds pps n polls w some_size one enough fits =
      let units : List TxUnit = units_from size ieds pps pps 0 in
      let all = length-units_from size ieds pps pps 0 in
      rw (tx_packets_cycle-nonempty n units polls w (omega (arith, one, all))) (
        Returned-tx_cycle units ieds
          (λ i lt.
            let (u, at, _, _, same, _) =
              units_from-InOrder size ieds pps i some_size (omega (arith, lt, all)) in
            (u, at, same))
          (omega (arith, one, all)) n 0 polls w (omega (arith, one, all)) enough fits)

  -- A worker of GOOSE and one of SV that run `n` moments of their schedule end them, however the
  -- allocations fail in between and however little room the queue has: every IED is sent or freed once
  -- per moment, the moments one after another and the IEDs of each in order; what is sent and what is
  -- freed keep that order and are counted, as packets and as errors. Conditions: a second has a moment,
  -- the run is not stopped before the queue was offered something as often as there are packets, and
  -- the counters hold values of their types.
  pub tx_packets_cycle-Returned :
      (ieds pps n : ℕ) (polls : List Poll) (w : Worker G P)
      → 1 ≤ pps
      → n * ieds ≤ offers polls
      → FitsStat w.stat
      → Returned amend
          (rounds n ieds)
          0
          w
          (tx_packets_cycle amend n (generate_tx_units ieds pps) polls w)
        × Returned amend
            (rounds n ieds)
            0
            w
            (tx_packets_cycle amend n (create_tx_units ieds pps) polls w)
  unfolding generate_tx_units create_tx_units
  tx_packets_cycle-Returned ieds pps n polls w one enough fits = (
    Returned-units_from 32 ieds pps n polls w (omega arith) one enough fits,
    Returned-units_from 64 ieds pps n polls w (omega arith) one enough fits,
  )
