-- ===== src/Parser/Envelope.antt =====
-- src/bus_processor/process_bus_parser.hpp and .cpp: `get_proto_type` and `validate_r_envelope`.
-- Words are read in network order; the hosts are little-endian, where RTE_STATIC_BSWAP16 does that.
pub mod Built
pub mod Classify
pub mod Reads
use process_bus.Prelude.{
  ℕ, ◌+◌, ◌-◌, ◌*◌, ◌/◌, ◌%◌, ◌<◌, ◌≡◌, ◌≢◌, Bool, true, false, not, ◌&&◌, ◌||◌, ltb, ◌==◌,
  if◌then◌else◌,
}
use process_bus.Prelude.Result.{Result, ok, err, require, ◌>>=◌, ◌>>◌}
use process_bus.Memory.{Memory, at_offset, get_u16, get_u32}
use process_bus.RSession.Layout.{
  si_r_goose, si_r_sv, off_si, eth_ip_udp_size, session_fixed_size, udp_dst_port,
}
use process_bus.Frame.{sum_words, fold_carry, carry_rounds}
use Prim.Native.Nat.{bit_and}

pub data BusProto : Type 0 where
  non_bus_proto bus_proto_sv bus_proto_goose bus_proto_r_goose bus_proto_r_sv : BusProto

abbrev pub r_si_offset : ℕ
r_si_offset = eth_ip_udp_size + off_si

abbrev pub r_min_frame_size : ℕ
r_min_frame_size = eth_ip_udp_size + session_fixed_size + 4

abbrev ether_type : Memory → ℕ → ℕ → ℕ → Bool
ether_type buf p hi lo = buf p == hi && buf (p + 1) == lo

-- The branch of `get_proto_type` for IPv4. The key is the UDP source port.
routable_type : Memory → BusProto × ℕ
routable_type buf =
    let si = buf r_si_offset in
    if buf 14 == 0x45
      && buf 23 == 0x11
      && buf 36 == 0x00
      && buf 37 == 0x66
      && (si == si_r_goose || si == si_r_sv)
    then ((if si == si_r_goose then bus_proto_r_goose else bus_proto_r_sv), get_u16 buf 34)
    else (non_bus_proto, 0)

-- The protocol and the APPID, which stays 0 where the code leaves `*appid` as the callers set it.
unfoldable pub get_proto_type : Memory → ℕ → BusProto × ℕ
unfolding routable_type
get_proto_type buf size =
    if ether_type buf 12 0x81 0x00 && ether_type buf 16 0x88 0xba
    then (bus_proto_sv, get_u16 buf 18)
    else if ether_type buf 12 0x81 0x00 && ether_type buf 16 0x88 0xb8
    then (bus_proto_goose, get_u16 buf 18)
    else if ether_type buf 12 0x88 0xba
    then (bus_proto_sv, get_u16 buf 14)
    else if ether_type buf 12 0x88 0xb8
    then (bus_proto_goose, get_u16 buf 14)
    else if ether_type buf 12 0x08 0x00 && not (ltb size r_min_frame_size)
    then routable_type buf
    else (non_bus_proto, 0)

-- DPDK's flags for the receive checksum of the IPv4 header.
pub record CksumFlags : Type 0 where
  pub mask : ℕ
  pub unknown : ℕ
  pub bad : ℕ
  pub good : ℕ
  pub unknown-ne-bad : unknown ≢ bad
  pub good-ne-bad : good ≢ bad

-- A header that sums to 0xFFFF, its checksum included.
unfoldable pub ipv4_checksum_ok : Memory → Bool
ipv4_checksum_ok header = fold_carry carry_rounds (sum_words header 10 0 0) == 65535

abbrev pub r_env_err_not_ipv4 : ℕ
r_env_err_not_ipv4 = 20

abbrev pub r_env_err_ihl : ℕ
r_env_err_ihl = 21

abbrev pub r_env_err_ip_len : ℕ
r_env_err_ip_len = 22

abbrev pub r_env_err_fragment : ℕ
r_env_err_fragment = 23

abbrev pub r_env_err_proto : ℕ
r_env_err_proto = 24

abbrev pub r_env_err_udp_port : ℕ
r_env_err_udp_port = 25

abbrev pub r_env_err_udp_len : ℕ
r_env_err_udp_len = 26

abbrev pub r_env_err_ip_cksum : ℕ
r_env_err_ip_cksum = 27

-- The destination group, or the first check that fails. `flags` is the mbuf's `ol_flags`.
unfoldable pub validate_r_envelope : CksumFlags → Memory → ℕ → ℕ → Result ℕ
validate_r_envelope ck buf size flags = do
  require (not (ltb size (14 + 20) || not (buf 12 == 0x08) || not (buf 13 == 0x00)))
      r_env_err_not_ipv4
  let ip = at_offset buf 14
  require (ip 0 == 0x45) r_env_err_ihl
  let total = get_u16 ip 2
  require (not (ltb total 28 || ltb size (14 + total))) r_env_err_ip_len
  let frag = get_u16 ip 6
  require (not (not (frag / 0x2000 % 2 == 0) || not (frag % 0x2000 == 0))) r_env_err_fragment
  require (ip 9 == 17) r_env_err_proto
  let udp = at_offset ip 20
  require (get_u16 udp 2 == udp_dst_port) r_env_err_udp_port
  let udp_len = get_u16 udp 4
  require (not (ltb udp_len 8 || not (udp_len == total - 20))) r_env_err_udp_len
  let state = bit_and flags ck.mask
  require (not (state == ck.bad)) r_env_err_ip_cksum
  require (not (state == ck.unknown && not (ipv4_checksum_ok ip))) r_env_err_ip_cksum
  ok (get_u32 ip 16)
