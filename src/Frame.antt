-- ===== src/Frame.antt =====
-- src/common/r_frame_builder.hpp and r_frame_builder.cpp: the Ethernet, IPv4 and UDP prefix of a
-- routable frame. Addresses are in host order.
pub mod Address
pub mod Dotted
pub mod Checksum
pub mod Destination
use process_bus.Prelude.{
  ℕ, zero, suc, ◌+◌, ◌-◌, ◌*◌, ◌/◌, ◌%◌, ◌<◌, List, [], ◌∷◌, length, All, ◌≡◌, ◌==◌, if◌then◌else◌,
}
use process_bus.Memory.{Memory, at_offset, put_u8, put_u16, put_u32, get_u16, slice, write}

pub record FrameConfig : Type 0 where
  pub src_ip : ℕ
  pub dst_ip : ℕ
  pub dst_port : ℕ
  pub ttl : ℕ
  pub src_mac : List ℕ

pub record FitsConfig (cfg : FrameConfig) : Type 0 where
  pub src_fits : cfg.src_ip < 4294967296
  pub dst_fits : cfg.dst_ip < 4294967296
  pub port_fits : cfg.dst_port < 65536
  pub ttl_fits : cfg.ttl < 256
  pub mac_length : length cfg.src_mac ≡ 6
  pub mac_bytes : All (λ b. b < 256) cfg.src_mac

-- The loop over the ten 16-bit words; `n` rounds are left, and `sum` is a uint32_t.
unfoldable pub sum_words : Memory → ℕ → ℕ → ℕ → ℕ
sum_words header zero i sum = sum
sum_words header (suc n) i sum = sum_words header n (i + 2) ((sum + get_u16 header i) % 4294967296)

-- The loop `while (sum >> 16)`. Two rounds are enough for a uint32_t.
unfoldable pub fold_carry : ℕ → ℕ → ℕ
fold_carry zero sum = sum
fold_carry (suc n) sum =
    let rest = fold_carry n ((sum % 65536 + sum / 65536) % 4294967296) in
    if sum / 65536 == 0 then sum else rest

abbrev pub carry_rounds : ℕ
carry_rounds = 2

-- `static_cast<uint16_t>(~sum)`.
unfoldable pub ipv4_checksum : Memory → ℕ
ipv4_checksum header = (4294967295 - fold_carry carry_rounds (sum_words header 10 0 0)) % 65536

-- The RFC 1112 address of a group.
abbrev pub multicast_mac : ℕ → List ℕ
multicast_mac dst_ip =
    0x01 ∷ 0x00 ∷ 0x5e ∷ (dst_ip / 65536 % 128) ∷ (dst_ip / 256 % 256) ∷ (dst_ip % 256) ∷ []

abbrev pub r_dst_spread : ℕ
r_dst_spread = 128

-- The group of stream `idx`; the mask is the spread less one, and the sum a uint32_t.
unfoldable pub stream_dst_ip : ℕ → ℕ → ℕ
stream_dst_ip base idx = (base + idx % r_dst_spread) % 4294967296

-- Everything but the header checksum, whose place is zero.
unfoldable pub build_ip : Memory → FrameConfig → ℕ → Memory
unfolding write put_u16 put_u32
build_ip buf cfg udp_payload_size =
    let b1 = write buf 0 (multicast_mac cfg.dst_ip) in
    let b2 = write b1 6 cfg.src_mac in
    let b3 = put_u16 b2 12 0x0800 in
    let b4 = put_u8 b3 14 0x45 in
    let b5 = put_u8 b4 15 0 in
    let b6 = put_u16 b5 16 ((20 + 8 + udp_payload_size) % 65536) in
    let b7 = put_u16 b6 18 0 in
    let b8 = put_u16 b7 20 0x4000 in
    let b9 = put_u8 b8 22 cfg.ttl in
    let b10 = put_u8 b9 23 17 in
    let b11 = put_u16 b10 24 0 in let b12 = put_u32 b11 26 cfg.src_ip in put_u32 b12 30 cfg.dst_ip

-- The header checksum and the UDP header behind `build_ip`.
unfoldable pub build_prefix : Memory → FrameConfig → ℕ → Memory
unfolding put_u16
build_prefix buf cfg udp_payload_size =
    let b1 = build_ip buf cfg udp_payload_size in
    let b2 = put_u16 b1 24 (ipv4_checksum (at_offset b1 14)) in
    let b3 = put_u16 b2 34 0 in
    let b4 = put_u16 b3 36 cfg.dst_port in
    let b5 = put_u16 b4 38 ((8 + udp_payload_size) % 65536) in put_u16 b5 40 0

-- The fields that differ from group to group, as the bytes that the send path copies.
pub record DstFields : Type 0 where
  pub dmac : List ℕ
  pub dst_ip_be : List ℕ
  pub ip_csum_be : List ℕ

-- `ip` is a copy of the skeleton's header with the new group and no checksum.
unfoldable pub make_dst_fields : Memory → ℕ → DstFields
unfolding slice put_u16 put_u32
make_dst_fields skeleton dst_ip =
    let ip = put_u16 (put_u32 (at_offset skeleton 14) 16 dst_ip) 10 0 in
    let csum = ipv4_checksum ip in
    record {
      dmac = multicast_mac dst_ip;
      dst_ip_be = slice (put_u32 (λ i. 0) 0 dst_ip) 0 4;
      ip_csum_be = slice (put_u16 (λ i. 0) 0 csum) 0 2;
    }

-- The send path of a generator: the three copies into the packet.
unfoldable pub set_dst : Memory → DstFields → Memory
unfolding write
set_dst packet dst = write (write (write packet 0 dst.dmac) 30 dst.dst_ip_be) 24 dst.ip_csum_be
