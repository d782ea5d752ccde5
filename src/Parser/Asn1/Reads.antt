-- ===== src/Parser/Asn1/Reads.antt =====
-- The bounded readers look at no byte from the end on.
use process_bus.Prelude.{ℕ, zero, suc, ◌+◌, ◌*◌, ◌%◌, ◌≤◌, ◌≡◌, refl, arith}
use process_bus.Memory.{Memory}
use process_bus.Memory.Frames.{Agree}
use process_bus.Parser.Asn1.{
  decode_asn1_number, decode_asn1_len_bounded, bounded_length, value_length, take_tlv,
}

bounded_length-agree :
    (m m' : Memory) (end n pos length : ℕ)
    → Agree end m m'
    → pos + n ≤ end
    → bounded_length m n pos length ≡ bounded_length m' n pos length
unfolding bounded_length
bounded_length-agree m m' end zero pos length h le = refl
bounded_length-agree m m' end (suc n) pos length h le =
    rw (h pos (omega arith)) (
      bounded_length-agree m m' end n (pos + 1) (length * 256 % 4294967296 + m' pos) h
        (omega arith))

decode_asn1_len_bounded-agree :
    (m m' : Memory) (end pos : ℕ)
    → Agree end m m'
    → decode_asn1_len_bounded m end pos ≡ decode_asn1_len_bounded m' end pos
unfolding decode_asn1_len_bounded
decode_asn1_len_bounded-agree m m' end pos h =
    ground (arith, h pos, bounded_length-agree m m' end (m' pos % 128) (pos + 1) 0 h)

pub value_length-agree :
    (m m' : Memory) (end pos : ℕ)
    → Agree end m m'
    → value_length m end pos ≡ value_length m' end pos
unfolding value_length
value_length-agree m m' end pos h = rw (decode_asn1_len_bounded-agree m m' end pos h)

pub take_tlv-agree :
    (m m' : Memory) (end pos tag : ℕ)
    → Agree end m m'
    → take_tlv m end pos tag ≡ take_tlv m' end pos tag
unfolding take_tlv
take_tlv-agree m m' end pos tag h = ground (arith, h pos, value_length-agree m m' end (pos + 1) h)

pub decode_asn1_number-agree :
    (m m' : Memory) (end p size : ℕ)
    → Agree end m m'
    → p + size ≤ end
    → decode_asn1_number m p size ≡ decode_asn1_number m' p size
unfolding decode_asn1_number
decode_asn1_number-agree m m' end p size h le = ground (arith, h p, h (p + 1), h (p + 2), h (p + 3))
