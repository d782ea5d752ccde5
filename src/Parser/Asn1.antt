-- ===== src/Parser/Asn1.antt =====
-- src/bus_processor/process_bus_parser.cpp: the two decoders of ASN.1 lengths, the decoder of numbers and
-- the bounded reader of one tag-length-value element. Positions and lengths are uint32_t, an `int` its
-- bit pattern.
pub mod Bounded
pub mod Reads
use process_bus.Prelude.{
  ℕ, zero, suc, ◌+◌, ◌-◌, ◌*◌, ◌/◌, ◌%◌, ◌<◌, ◌≡◌, Bool, true, false, not, ◌&&◌, ◌||◌, Option, none,
  some, ltb, ◌==◌, if◌then◌else◌,
}
use process_bus.Memory.{Memory, get_u16}

abbrev pub u32 : ℕ
u32 = 4294967296

-- `pos + n` as a uint32_t.
abbrev pub advance : ℕ → ℕ → ℕ
advance pos n = (pos + n) % u32

-- `for (n = octets; n > 0; --n) length = (length << 8) | buffer[p++]`; the low byte is free.
unfoldable pub long_length : Memory → ℕ → ℕ → ℕ → ℕ
long_length buf zero p length = length
long_length buf (suc n) p length = long_length buf n (advance p 1) (length * 256 % u32 + buf p)

-- `decode_asn1_len`: the length and the position behind it. It knows no end of the buffer.
unfoldable pub decode_asn1_len : Memory → ℕ → ℕ × ℕ
decode_asn1_len buf pos =
    let len_byte = buf pos in
    let p = advance pos 1 in
    if len_byte / 128 % 2 == 0
    then (len_byte, p)
    else if len_byte % 128 == 1
    then (buf p, advance p 1)
    else if len_byte % 128 == 2
    then (buf p * 256 + buf (advance p 1), advance p 2)
    else (long_length buf (len_byte % 128) p 0, advance p (len_byte % 128))

-- `decode_asn1_number` at `p`.
unfoldable pub decode_asn1_number : Memory → ℕ → ℕ → ℕ
decode_asn1_number buf p size =
    if size == 1
    then buf p
    else if size == 2
    then buf p * 256 + buf (p + 1)
    else if size == 3
    then buf p * 65536 + buf (p + 1) * 256 + buf (p + 2)
    else if size == 4
    then buf p * 16777216 + buf (p + 1) * 65536 + buf (p + 2) * 256 + buf (p + 3)
    else 0

-- `for (i = 0; i < octets; ++i) length = (length << 8) | buffer[pos++]`. A position below `end`
-- does not wrap.
unfoldable pub bounded_length : Memory → ℕ → ℕ → ℕ → ℕ
bounded_length buf zero pos length = length
bounded_length buf (suc n) pos length =
    bounded_length buf n (pos + 1) (length * 256 % u32 + buf pos)

-- `decode_asn1_len_bounded`: none for the result false.
unfoldable pub decode_asn1_len_bounded : Memory → ℕ → ℕ → Option (ℕ × ℕ)
decode_asn1_len_bounded buf end pos =
    let first = buf pos in
    let octets = first % 128 in
    if not (ltb pos end)
    then none
    else if first / 128 % 2 == 0
    then some (first, pos + 1)
    else if octets == 0 || ltb 4 octets || ltb (end - (pos + 1)) octets
    then none
    else some (bounded_length buf octets (pos + 1) 0, pos + 1 + octets)

-- A length that does not pass the end, as every caller checks it.
abbrev fitting : ℕ → Option (ℕ × ℕ) → Option (ℕ × ℕ)
fitting end none = none
fitting end (some (length, pos)) = if ltb (end - pos) length then none else some (length, pos)

-- The length at `pos` and the position of the value, if the value ends at `end` or before.
unfoldable pub value_length : Memory → ℕ → ℕ → Option (ℕ × ℕ)
value_length buf end pos = fitting end (decode_asn1_len_bounded buf end pos)

abbrev with_end : Option (ℕ × ℕ) → Option (ℕ × ℕ)
with_end none = none
with_end (some (length, pos)) = some (pos, pos + length)

-- `take_tlv`: the position and the end of the value of an element with the expected tag.
unfoldable pub take_tlv : Memory → ℕ → ℕ → ℕ → Option (ℕ × ℕ)
unfolding value_length
take_tlv buf end pos expected_tag =
    if ltb pos end && buf pos == expected_tag
    then with_end (value_length buf end (pos + 1))
    else none
