-- ===== src/Generator/Units.antt =====
-- src/bus_generator/tx_unit.hpp, and the schedules of src/bus_generator/sv_traffic_gen.cpp and
-- goose_traffic_gen.cpp: when a generator sends, and the packets of each moment in blocks. A packet
-- is its `idx`. Up to 2 ^ 32 - 1 IEDs, so that `iedIndex` does not wrap.
pub mod Order
use process_bus.Prelude.{ℕ, zero, suc, ◌+◌, ◌*◌, ◌/◌, ◌%◌, List, [], ◌∷◌, ◌++◌, ltb, if◌then◌else◌}

abbrev pub TxBlock : Type 0
TxBlock = List ℕ

pub record TxUnit : Type 0 where
  pub offset_us : ℕ
  pub blocks : List TxBlock

-- The loop over the packets of a block of `size`, with `iedIndex` before it.
unfoldable pub fill_block : ℕ → ℕ → TxBlock
fill_block zero ied_index = []
fill_block (suc size) ied_index = ied_index ∷ fill_block size (ied_index + 1)

-- The loop over the full blocks: `n` are left. What it returns is the blocks and `iedIndex`.
unfoldable pub full_blocks : ℕ → ℕ → ℕ → List TxBlock × ℕ
full_blocks size zero ied_index = ([], ied_index)
full_blocks size (suc n) ied_index =
    let (blocks, last) = full_blocks size n (ied_index + size) in
    (fill_block size ied_index ∷ blocks, last)

unfoldable pub make_blocks : ℕ → ℕ → List TxBlock
make_blocks bunch_size ieds =
    let last_blk_size = ieds % bunch_size in
    let (blocks, ied_index) = full_blocks bunch_size (ieds / bunch_size) 0 in
    if ltb 0 last_blk_size then blocks ++ fill_block last_blk_size ied_index ∷ [] else blocks

-- The loop over the moments of a second from the `i`-th on: `n` are left.
unfoldable pub units_from : ℕ → ℕ → ℕ → ℕ → ℕ → List TxUnit
units_from bunch_size ieds pps zero i = []
units_from bunch_size ieds pps (suc n) i =
    record { offset_us = 1000000 / pps * i; blocks = make_blocks bunch_size ieds }
    ∷ units_from bunch_size ieds pps n (i + 1)

-- `GooseTrafficGen::GenerateTxUnits`.
unfoldable pub generate_tx_units : ℕ → ℕ → List TxUnit
generate_tx_units ieds pps = units_from 32 ieds pps pps 0

-- `SVTrafficGen::CreateTxUnits`.
unfoldable pub create_tx_units : ℕ → ℕ → List TxUnit
create_tx_units ieds pps = units_from 64 ieds pps pps 0

pub data SvType : Type 0 where
  sv80 : SvType
  sv256 : SvType

abbrev pub max_sv_asdu_num : ℕ
max_sv_asdu_num = 8

-- The constructor of `SVTrafficGen`: `m_freq` and `m_units`.
abbrev pub freq_of : SvType → ℕ
freq_of sv80 = 4000
freq_of sv256 = 12800

unfoldable pub sv_units : ℕ → SvType → List TxUnit
sv_units ieds sv80 = create_tx_units ieds (freq_of sv80)
sv_units ieds sv256 = create_tx_units ieds (freq_of sv256 / max_sv_asdu_num)
