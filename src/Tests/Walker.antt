-- ===== src/Tests/Walker.antt =====
-- The walker of a Sampled Values APDU on a concrete APDU of one ASDU.
use process_bus.Prelude.{
  ℕ, ◌<◌, ◌≡◌, ◌≢◌, ◌==◌, if◌then◌else◌, refl, arith, List, [], ◌∷◌, replicate, some,
}
use process_bus.Prelude.Result.{ok, stuck}
use process_bus.Memory.{Memory, put_u8, write, slice}
use process_bus.Parser.Asn1.{
  take_tlv, value_length, bounded_length, decode_asn1_number, decode_asn1_len_bounded,
}
use process_bus.Parser.Sv.{
  Apdu, parse_sv_apdu, walk_asdus, walk_fields, asdu_step, field_step, field_value, join_asdu,
  declared_asdus, check_quality,
}
use process_bus.Parser.Sv.Reads.{parse_sv_apdu-agree}
use process_bus.Parser.Sv.Total.{parse_sv_apdu-ne-stuck}
use process_bus.Parser.Sv.Quality.{GoodApdu, parse_sv_apdu-GoodApdu}

abbrev fields : List ℕ
fields =
    0x80
    ∷ 1
    ∷ 0x41
    ∷ 0x82
    ∷ 2
    ∷ 0
    ∷ 5
    ∷ 0x83
    ∷ 4
    ∷ 0
    ∷ 0
    ∷ 0
    ∷ 1
    ∷ 0x85
    ∷ 1
    ∷ 1
    ∷ 0x87
    ∷ 64
    ∷ replicate 64 0

abbrev apdu : Memory
apdu = write (λ i. 0) 0 (0x60 ∷ 89 ∷ 0x80 ∷ 1 ∷ 1 ∷ 0xa2 ∷ 84 ∷ 0x30 ∷ 82 ∷ fields)

abbrev parsed : Apdu
parsed = record { svid = 0x41 ∷ []; crev = 1; smp_cnt = 5 }

accepted : parse_sv_apdu apdu 91 ≡ ok (1, parsed)
unfolding parse_sv_apdu walk_asdus walk_fields asdu_step field_step field_value join_asdu
    declared_asdus check_quality take_tlv value_length decode_asn1_len_bounded bounded_length
    decode_asn1_number slice write
accepted = refl

parse_sv_apdu-GoodApdu_example : GoodApdu apdu 91 1
parse_sv_apdu-GoodApdu_example = parse_sv_apdu-GoodApdu apdu 91 1 parsed accepted

parse_sv_apdu-ne-stuck_example : parse_sv_apdu apdu 91 ≢ stuck
parse_sv_apdu-ne-stuck_example = parse_sv_apdu-ne-stuck apdu 91

parse_sv_apdu-agree_example : parse_sv_apdu apdu 91 ≡ parse_sv_apdu (put_u8 apdu 91 7) 91
parse_sv_apdu-agree_example = parse_sv_apdu-agree apdu (put_u8 apdu 91 7) 91 (λ i lt. ground arith)

-- A length in the long form, of two octets.
abbrev long_form : Memory
long_form i = if i == 0 then 0x82 else if i == 1 then 0x01 else 0x10

long_form-bytes : (i : ℕ) → long_form i < 256
long_form-bytes i = ground arith

bounded : decode_asn1_len_bounded long_form 100 0 ≡ some (0x110, 3)
unfolding decode_asn1_len_bounded bounded_length
bounded = refl
