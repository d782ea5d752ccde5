-- ===== src/Generator/Amend.antt =====
-- src/bus_generator/sv_traffic_gen.hpp and goose_traffic_gen.hpp: the state of a simulated device (IED)
-- and what `AmendPacket` writes into a packet for it. An array of IEDs is a function of the index. The
-- offsets come from libiec61850, which builds the skeleton, and are a parameter. What is written into a
-- packet is a function of the buffer, which holds the skeleton or an earlier packet.
pub mod Counters
pub mod Receive
pub mod Streams
use process_bus.Prelude.{
  ℕ, zero, suc, ◌+◌, ◌*◌, ◌/◌, ◌%◌, ◌^◌, List, [], ◌∷◌, ltb, ◌==◌, if◌then◌else◌,
}
use process_bus.Memory.{Memory, put_u8, put_u16, put_u32, write}

-- `SVSourceIED`: the four digits of `sID`, and uint16_t `smpCnt`.
pub record SvIed : Type 0 where
  pub sid : List ℕ
  pub smp_cnt : ℕ

-- The offsets in the skeleton of an `SVTrafficGen`, by the number of the ASDU, and `m_freq`.
pub record SvLayout : Type 0 where
  pub appid_offset : ℕ
  pub svid_offset : ℕ → ℕ
  pub smp_cnt_offset : ℕ → ℕ
  pub freq : ℕ

abbrev pub next_smp : ℕ → ℕ → ℕ
next_smp freq smp_cnt = if ltb (smp_cnt + 1) freq then smp_cnt + 1 else 0

-- `m_ieds[idx] = ied`.
abbrev pub set_ied : {A : Type 0} → (ℕ → A) → ℕ → A → ℕ → A
set_ied ieds idx ied i = if i == idx then ied else ieds i

-- What is written for one ASDU.
unfoldable pub write_asdu : SvLayout → ℕ → SvIed → Memory → Memory
write_asdu lay i ied packet =
    put_u16 (write packet (lay.svid_offset i + 4) ied.sid) (lay.smp_cnt_offset i) ied.smp_cnt

abbrev pub next_ied : SvLayout → SvIed → SvIed
next_ied lay ied = record ied { smp_cnt = next_smp lay.freq ied.smp_cnt }

unfoldable pub amend_packet_sv80 : SvLayout → (ℕ → SvIed) → ℕ → (ℕ → SvIed) × (Memory → Memory)
unfolding put_u16 write
amend_packet_sv80 lay ieds idx =
    let ied = ieds idx in
    (
      set_ied ieds idx (next_ied lay ied),
      λ packet. write_asdu lay 0 ied (put_u16 packet lay.appid_offset ((idx + 1) % 65536)),
    )

-- The loop over the ASDUs from the `i`-th on, `n` of them: the IED behind it, and what it writes.
unfoldable pub after_asdus : SvLayout → ℕ → SvIed → SvIed
after_asdus lay zero ied = ied
after_asdus lay (suc n) ied = after_asdus lay n (next_ied lay ied)

unfoldable pub write_asdus : SvLayout → ℕ → ℕ → SvIed → Memory → Memory
write_asdus lay zero i ied packet = packet
write_asdus lay (suc n) i ied packet =
    write_asdus lay n (i + 1) (next_ied lay ied) (write_asdu lay i ied packet)

unfoldable pub amend_packet_sv256 : SvLayout → (ℕ → SvIed) → ℕ → (ℕ → SvIed) × (Memory → Memory)
unfolding put_u16
amend_packet_sv256 lay ieds idx =
    let ied = ieds idx in
    (
      set_ied ieds idx (after_asdus lay 8 ied),
      λ packet. write_asdus lay 8 0 ied (put_u16 packet lay.appid_offset ((idx + 1) % 65536)),
    )

-- `GooseSourceIED`: the eight digits of `sID`, two uint32_t and a uint64_t.
pub record GooseIed : Type 0 where
  pub sid : List ℕ
  pub st_num : ℕ
  pub sq_num : ℕ
  pub timestamp : ℕ

-- `m_offsets`, and `m_tsDeltaChange`.
pub record GooseLayout : Type 0 where
  pub appid_offset : ℕ
  pub timestamp_offset : ℕ
  pub goid_offset : ℕ
  pub gocb_ref_offset : ℕ
  pub ds_ref_offset : ℕ
  pub sq_num_offset : ℕ
  pub st_num_offset : ℕ
  pub d1_offset : ℕ
  pub ts_delta_change : ℕ

-- The `n` bytes of a number in the order of a little-endian host.
unfoldable pub host_bytes : ℕ → ℕ → List ℕ
host_bytes zero v = []
host_bytes (suc n) v = v % 256 ∷ host_bytes n (v / 256)

-- The APPID, the names and the timestamp that `AmendPacket` writes.
unfoldable pub write_names : GooseLayout → ℕ → GooseIed → Memory → Memory
unfolding host_bytes
write_names lay idx ied packet =
    let p1 = put_u16 packet lay.appid_offset ((idx + 1) % 65536) in
    let p2 = write p1 (lay.goid_offset + 4) ied.sid in
    let p3 = write p2 (lay.gocb_ref_offset + 3) ied.sid in
    let p4 = write p3 (lay.ds_ref_offset + 3) ied.sid in
    write p4 lay.timestamp_offset (host_bytes 8 ied.timestamp)

-- The numbers and the first entry of the data that it writes behind them.
unfoldable pub write_numbers : GooseLayout → GooseIed → Memory → Memory
write_numbers lay ied packet =
    let p1 = put_u32 packet lay.st_num_offset ied.st_num in
    let p2 = put_u32 p1 lay.sq_num_offset ied.sq_num in
    put_u8 p2 lay.d1_offset (if ied.st_num % 2 == 0 then 1 else 0)

-- `++ied.stNum` and the step of the timestamp.
abbrev pub next_goose : GooseLayout → GooseIed → GooseIed
next_goose lay old = record old {
  timestamp = (old.timestamp + lay.ts_delta_change) % 2 ^ 64;
  st_num = (old.st_num + 1) % 4294967296;
}

-- `AmendPacket` of `GooseTrafficGen`.
unfoldable pub amend_packet_goose :
    GooseLayout → (ℕ → GooseIed) → ℕ → (ℕ → GooseIed) × (Memory → Memory)
unfolding write_names write_numbers
amend_packet_goose lay ieds idx =
    let ied = next_goose lay (ieds idx) in
    (set_ied ieds idx ied, λ packet. write_numbers lay ied (write_names lay idx ied packet))
