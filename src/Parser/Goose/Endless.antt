-- ===== src/Parser/Goose/Endless.antt =====
-- A frame on which the loop over the items of a GOOSE PDU does not end.
use process_bus.Prelude.{ℕ, zero, suc, ◌+◌, ◌≤◌, ◌<◌, ◌≡◌, refl, arith}
use process_bus.Prelude.Result.{ok, stuck}
use process_bus.Memory.{Memory}
use process_bus.Parser.Asn1.{decode_asn1_len, long_length, advance}
use process_bus.Parser.Goose.{
  Walk, new_walk, goose_item, goose_step, walk_items, walk_pdu, parse_goose_packet,
}

-- An item `timeAllowedToLive` whose four-octet length is -6 as an `int`.
pub record MinusSix (buf : Memory) (pos : ℕ) : Type 0 where
  pub tag : buf pos ≡ 0x81
  pub octets : buf (pos + 1) ≡ 0x84
  pub byte1 : buf (pos + 2) ≡ 0xff
  pub byte2 : buf (pos + 3) ≡ 0xff
  pub byte3 : buf (pos + 4) ≡ 0xff
  pub byte4 : buf (pos + 5) ≡ 0xfa

decode_asn1_len-MinusSix :
    (buf : Memory) (pos : ℕ)
    → MinusSix buf pos
    → pos + 6 < 4294967296
    → decode_asn1_len buf (advance pos 1) ≡ (4294967290, pos + 6)
unfolding decode_asn1_len long_length
decode_asn1_len-MinusSix buf pos h lt =
    let a1 : advance pos 1 ≡ pos + 1 = omega arith in
    let a2 : advance (pos + 1) 1 ≡ pos + 2 = omega arith in
    let a3 : advance (pos + 2) 1 ≡ pos + 3 = omega arith in
    let a4 : advance (pos + 3) 1 ≡ pos + 4 = omega arith in
    let a5 : advance (pos + 4) 1 ≡ pos + 5 = omega arith in
    let a6 : advance (pos + 2) 4 ≡ pos + 6 = omega arith in
    rw (a1, h.octets, a2, h.byte1, a3, h.byte2, a4, h.byte3, a5, h.byte4, a6) refl

goose_step-MinusSix :
    (fuel : ℕ) (buf : Memory) (size pos : ℕ) (w : Walk)
    → MinusSix buf pos
    → pos < size
    → size < 2147483648
    → goose_step fuel buf size pos w ≡ ok (pos, w)
unfolding goose_step goose_item
goose_step-MinusSix fuel buf size pos w h lo hi =
    rw (decode_asn1_len-MinusSix buf pos h (omega arith), h.tag) (ground arith)

walk_items-MinusSix :
    (fuel : ℕ) (buf : Memory) (size pos : ℕ) (w : Walk)
    → MinusSix buf pos
    → pos < size
    → size < 2147483648
    → walk_items fuel buf size pos w ≡ stuck
unfolding walk_items
walk_items-MinusSix zero buf size pos w h lo hi = ground arith
walk_items-MinusSix (suc fuel) buf size pos w h lo hi = ground (
  arith,
  goose_step-MinusSix fuel buf size pos w h lo hi,
  walk_items-MinusSix fuel buf size pos w h lo hi,
)

-- The parser of GOOSE packets does not end, whatever number of rounds it is given, on a frame without
-- VLAN tag whose PDU has a short length and, as its first item, one whose four-octet length is -6 as
-- an `int`: the walk goes back to the tag of that item each time.
pub parse_goose_packet-stuck :
    (fuel : ℕ) (buf : Memory) (size : ℕ)
    → 64 ≤ size
    → size < 2147483648
    → buf 12 ≡ 0x88
    → buf 13 ≡ 0xb8
    → buf 22 ≡ 0x61
    → buf 23 < 128
    → MinusSix buf 24
    → parse_goose_packet fuel buf size ≡ stuck
unfolding parse_goose_packet walk_pdu decode_asn1_len
parse_goose_packet-stuck fuel buf size lo hi e12 e13 e22 short item =
    ground (arith, walk_items-MinusSix fuel buf size 24 new_walk item (omega arith) hi)
