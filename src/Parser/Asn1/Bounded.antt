-- ===== src/Parser/Asn1/Bounded.antt =====
-- What the bounded readers promise: they go forward and stay before the end.
use process_bus.Prelude.{ℕ, zero, suc, ◌+◌, ◌*◌, ◌%◌, ◌≤◌, ◌<◌, ◌≡◌, refl, arith, some}
use process_bus.Memory.{Memory, IsBytes}
use process_bus.Parser.Asn1.{
  decode_asn1_len_bounded, bounded_length, value_length, take_tlv, decode_asn1_len, long_length,
}

pub value_length_bounds :
    (buf : Memory) (end pos length p : ℕ)
    → value_length buf end pos ≡ some (length, p)
    → (pos < p) × (p + length ≤ end)
unfolding value_length decode_asn1_len_bounded
value_length_bounds buf end pos length p e = ground arith

pub take_tlv_bounds :
    (buf : Memory) (end pos tag p value_end : ℕ)
    → take_tlv buf end pos tag ≡ some (p, value_end)
    → (buf pos ≡ tag) × (pos + 2 ≤ p) × (p ≤ value_end) × (value_end ≤ end)
unfolding take_tlv value_length decode_asn1_len_bounded
take_tlv_bounds buf end pos tag p value_end e = ground arith

long_length-bounded :
    (buf : Memory) (n p length : ℕ)
    → p + n < 4294967296
    → long_length buf n p length ≡ bounded_length buf n p length
unfolding long_length bounded_length
long_length-bounded buf zero p length h = refl
long_length-bounded buf (suc n) p length h =
    ground (arith, long_length-bounded buf n (p + 1) (length * 256 % 4294967296 + buf p))

one_octet : (buf : Memory) (n p : ℕ) → n ≡ 1 → bounded_length buf n p 0 ≡ buf p
unfolding bounded_length
one_octet buf n p e = rw e (omega arith)

two_octets :
    (buf : Memory) (n p : ℕ)
    → IsBytes buf
    → n ≡ 2
    → bounded_length buf n p 0 ≡ buf p * 256 + buf (p + 1)
unfolding bounded_length
two_octets buf n p b e = rw e (omega (arith, b p))

-- Where the bounded decoder of lengths answers, the unbounded one answers the same, for bytes and an
-- end below 2 ^ 32.
pub decode_asn1_len-bounded :
    (buf : Memory) (end pos length p : ℕ)
    → IsBytes buf
    → end < 4294967296
    → decode_asn1_len_bounded buf end pos ≡ some (length, p)
    → decode_asn1_len buf pos ≡ (length, p)
unfolding decode_asn1_len decode_asn1_len_bounded
decode_asn1_len-bounded buf end pos length p b h e =
    let n : ℕ = buf pos % 128 in
    let q : ℕ = pos + 1 in
    ground (arith, one_octet buf n q, two_octets buf n q b, long_length-bounded buf n q 0)
