-- ===== src/Parser/Envelope/Reads.antt =====
-- What a validated envelope promises, and how far the checks read.
use Prim.Native.Nat.{bit_and}
use process_bus.Prelude.{
  ℕ, ◌+◌, ◌%◌, ◌≤◌, ◌≡◌, ◌≢◌, ◌⊎◌, ◌↔◌, refl, arith, Bool, true, false, not, ◌&&◌, Bool-cases, inl,
  inr, ltb, ◌==◌,
}
use process_bus.Prelude.Result.{ok}
use process_bus.Memory.{Memory, at_offset, get_u16, get_u32}
use process_bus.Memory.Frames.{Agree}
use process_bus.Parser.Envelope.{CksumFlags, validate_r_envelope, ipv4_checksum_ok}
use process_bus.Frame.Checksum.{sum_words-agree}

ipv4_checksum_ok-agree : (m m' : Memory) → Agree 20 m m' → ipv4_checksum_ok m ≡ ipv4_checksum_ok m'
unfolding ipv4_checksum_ok
ipv4_checksum_ok-agree m m' h = rw (sum_words-agree 10 0 0 m m' h)

-- The check of the envelope looks at no byte from `size` on, on any branch: two buffers that agree
-- below `size` have the same outcome.
pub validate_r_envelope-agree :
    (ck : CksumFlags) (buf buf' : Memory) (size flags : ℕ)
    → Agree size buf buf'
    → validate_r_envelope ck buf size flags ≡ validate_r_envelope ck buf' size flags
unfolding validate_r_envelope
validate_r_envelope-agree ck buf buf' size flags h = elim (Bool-cases (ltb size 34)) [
  | inl short ↦ rw short
  | inr long ↦
      let ip : Agree 20 (at_offset buf 14) (at_offset buf' 14) =
        λ i lt. h (14 + i) (ground (arith, long)) in
      ground (
        arith,
        h 12,
        h 13,
        h 14,
        h 16,
        h 17,
        h 20,
        h 21,
        h 23,
        h 30,
        h 31,
        h 32,
        h 33,
        h 36,
        h 37,
        h 38,
        h 39,
        ipv4_checksum_ok-agree (at_offset buf 14) (at_offset buf' 14) ip,
      )
]

-- The datagram that a validated envelope declares. The NIC answers in `flags` whether the checksum of
-- the IPv4 header is good, bad or unknown to it.
pub record Valid (ck : CksumFlags) (buf : Memory) (size flags dst_ip : ℕ) : Type 0 where
  pub ethertype : (buf 12 ≡ 0x08) × (buf 13 ≡ 0)
  pub version_ihl : buf 14 ≡ 0x45
  pub protocol : buf 23 ≡ 17
  pub header_fits : 42 ≤ size
  pub datagram_fits : 14 + get_u16 buf 16 ≤ size
  pub datagram_holds_headers : 28 ≤ get_u16 buf 16
  pub udp_length : get_u16 buf 38 + 20 ≡ get_u16 buf 16
  pub udp_port : get_u16 buf 36 ≡ 102
  pub unfragmented : get_u16 buf 20 % 0x4000 ≡ 0
  pub not_bad : bit_and flags ck.mask ≢ ck.bad
  pub checksum : (bit_and flags ck.mask ≢ ck.unknown) ⊎ (ipv4_checksum_ok (at_offset buf 14) ≡ true)
  pub group : dst_ip ≡ get_u32 buf 30

known_or_ok : (a b : ℕ) (c : Bool) → not (a == b && not c) ≡ true → (a ≢ b) ⊎ (c ≡ true)
known_or_ok a b true h = inr refl
known_or_ok a b false h = inl (ground arith)

either_passes : (a b : ℕ) (c : Bool) → (a ≢ b) ⊎ (c ≡ true) → not (a == b && not c) ≡ true
either_passes a b c (inl h) = ground arith
either_passes a b c (inr h) = ground arith

-- A frame is validated exactly if it is IPv4 with a header of 20 bytes and holds one whole UDP datagram
-- to port 102, not fragmented, whose lengths agree and lie within the frame, and the header's checksum
-- is not bad to the NIC and, where the NIC does not know, adds up; the destination group is the one
-- in the header.
pub validate_r_envelope-Valid :
    (ck : CksumFlags) (buf : Memory) (size flags dst_ip : ℕ)
    → (validate_r_envelope ck buf size flags ≡ ok dst_ip) ↔ Valid ck buf size flags dst_ip
unfolding validate_r_envelope
validate_r_envelope-Valid ck buf size flags dst_ip = (
  λ e. record {
    ethertype = ground arith;
    version_ihl = ground arith;
    protocol = ground arith;
    header_fits = ground arith;
    datagram_fits = ground arith;
    datagram_holds_headers = ground arith;
    udp_length = ground arith;
    udp_port = ground arith;
    unfragmented = ground arith;
    not_bad = ground arith;
    checksum =
        known_or_ok (bit_and flags ck.mask) ck.unknown (ipv4_checksum_ok (at_offset buf 14))
          (ground arith);
    group = ground arith;
  },
  λ v.
      let passes =
        either_passes (bit_and flags ck.mask) ck.unknown (ipv4_checksum_ok (at_offset buf 14))
          v.checksum in
      ground (arith, passes, v.ethertype.0, v.ethertype.1),
)
