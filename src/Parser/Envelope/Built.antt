-- ===== src/Parser/Envelope/Built.antt =====
-- What the generator's prefix builder writes, the processor's checks accept.
use process_bus.Prelude.{ℕ, ◌+◌, ◌≤◌, ◌<◌, ◌≡◌, ◌≢◌, refl, arith, true, All}
use Prim.Native.Nat.{bit_and}
use process_bus.Prelude.Result.{ok}
use process_bus.Memory.{Memory, IsBytes, write, at_offset}
use process_bus.Memory.Words.{write-IsBytes}
use process_bus.Frame.{
  multicast_mac, FrameConfig, FitsConfig, build_ip, build_prefix, ipv4_checksum,
}
use process_bus.Frame.Checksum.{
  words, sum_words-words, checksum_completes, folds_to_ones, words-le, ipv4_checksum-lt,
}
use process_bus.Parser.Envelope.{CksumFlags, validate_r_envelope, ipv4_checksum_ok}

no_checksum_yet :
    (buf : Memory) (cfg : FrameConfig) (n : ℕ)
    → (build_ip buf cfg n 24 ≡ 0) × (build_ip buf cfg n 25 ≡ 0)
unfolding build_ip
no_checksum_yet buf cfg n = (refl, refl)

-- The words of the finished header are those of the header without checksum, and the checksum.
finished_words :
    (buf : Memory) (cfg : FrameConfig) (n : ℕ)
    → let bare = at_offset (build_ip buf cfg n) 14 in
      words (at_offset (build_prefix buf cfg n) 14) ≡ words bare + ipv4_checksum bare
unfolding build_prefix
finished_words buf cfg n =
    omega (arith, no_checksum_yet buf cfg n, ipv4_checksum-lt (at_offset (build_ip buf cfg n) 14))

multicast_mac-bytes : (dst_ip : ℕ) → All (λ b. b < 256) (multicast_mac dst_ip)
multicast_mac-bytes dst_ip = omega arith

build_ip-IsBytes :
    (buf : Memory) (cfg : FrameConfig) (n : ℕ)
    → IsBytes buf
    → FitsConfig cfg
    → IsBytes (build_ip buf cfg n)
unfolding build_ip
build_ip-IsBytes buf cfg n b f i =
    let b1 : Memory = write buf 0 (multicast_mac cfg.dst_ip) in
    ground (
      arith,
      f.ttl_fits,
      write-IsBytes cfg.src_mac b1 6
          (write-IsBytes (multicast_mac cfg.dst_ip) buf 0 b (multicast_mac-bytes cfg.dst_ip))
          f.mac_bytes i,
    )

build_prefix-IsBytes :
    (buf : Memory) (cfg : FrameConfig) (n : ℕ)
    → IsBytes buf
    → FitsConfig cfg
    → IsBytes (build_prefix buf cfg n)
unfolding build_prefix
build_prefix-IsBytes buf cfg n b f i = ground (arith, build_ip-IsBytes buf cfg n b f i)

built_checksum_ok :
    (buf : Memory) (cfg : FrameConfig) (n : ℕ)
    → IsBytes buf
    → FitsConfig cfg
    → ipv4_checksum_ok (at_offset (build_prefix buf cfg n) 14) ≡ true
unfolding ipv4_checksum_ok
built_checksum_ok buf cfg n b f =
    let bare : Memory = at_offset (build_ip buf cfg n) 14 in
    let full : Memory = at_offset (build_prefix buf cfg n) 14 in
    let full_bytes : IsBytes full = λ i. build_prefix-IsBytes buf cfg n b f (14 + i) in
    let (multiple, positive) =
      checksum_completes bare (λ i. build_ip-IsBytes buf cfg n b f (14 + i)) in
    let sum : words full ≡ words bare + ipv4_checksum bare = finished_words buf cfg n in
    ground (
      arith,
      sum_words-words full full_bytes,
      folds_to_ones (words full) (omega (arith, words-le full full_bytes)) (rw sum multiple)
          (rw sum positive),
    )

-- The frame prefix that the generator writes passes every check of the processor and yields the
-- group it was built for, unless the NIC reports a bad checksum: for any buffer, configuration with
-- port 102 and payload that fits an IPv4 datagram and the frame.
pub validate_r_envelope-build_prefix :
    (ck : CksumFlags) (buf : Memory) (cfg : FrameConfig) (n size flags : ℕ)
    → IsBytes buf
    → FitsConfig cfg
    → cfg.dst_port ≡ 102
    → 28 + n < 65536
    → 42 + n ≤ size
    → bit_and flags ck.mask ≢ ck.bad
    → validate_r_envelope ck (build_prefix buf cfg n) size flags ≡ ok cfg.dst_ip
unfolding validate_r_envelope build_prefix build_ip
validate_r_envelope-build_prefix ck buf cfg n size flags b f port len fits state =
    ground (arith, f.dst_fits, built_checksum_ok buf cfg n b f)
