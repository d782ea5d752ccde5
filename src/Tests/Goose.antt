-- ===== src/Tests/Goose.antt =====
-- The GOOSE walker on concrete frames.
use process_bus.Prelude.{◌<◌, ◌≡◌, ◌≢◌, ◌↔◌, refl, arith, [], ◌∷◌}
use process_bus.Prelude.Result.{ok, stuck}
use process_bus.Memory.{Memory, write}
use process_bus.Parser.Goose.{parse_alldata, parse_goose_packet}
use process_bus.Parser.Goose.Endless.{MinusSix, parse_goose_packet-stuck}
use process_bus.Parser.Goose.AllData.{parse_alldata-ne-stuck}
use process_bus.Parser.Goose.Levels.{Level, parse_alldata_iff}

abbrev crafted : Memory
crafted =
    write (λ i. 0) 12
      (0x88 ∷ 0xb8 ∷ 0 ∷ 1 ∷ 0 ∷ 50 ∷ 0 ∷ 0 ∷ 0 ∷ 0 ∷ 0x61 ∷ 40 ∷ 0x81 ∷ 0x84 ∷ 0xff ∷ 0xff ∷ 0xff
        ∷ 0xfa ∷ [])

crafted-MinusSix : MinusSix crafted 24
unfolding write
crafted-MinusSix = record {
  tag = refl;
  octets = refl;
  byte1 = refl;
  byte2 = refl;
  byte3 = refl;
  byte4 = refl;
}

pdu : (crafted 12 ≡ 0x88) × (crafted 13 ≡ 0xb8) × (crafted 22 ≡ 0x61) × (crafted 23 < 128)
unfolding write
pdu = (refl, refl, refl, omega arith)

parse_goose_packet-stuck_example : parse_goose_packet 1000 crafted 64 ≡ stuck
parse_goose_packet-stuck_example =
    parse_goose_packet-stuck 1000 crafted 64 (omega arith) (omega arith) pdu.0 pdu.1 pdu.2 pdu.3
      crafted-MinusSix

-- A structure of a Boolean and a Quality, and a Boolean behind it.
abbrev all_data : Memory
all_data = write (λ i. 0) 0 (0xa2 ∷ 6 ∷ 0x83 ∷ 1 ∷ 1 ∷ 0x84 ∷ 1 ∷ 0 ∷ 0x83 ∷ 1 ∷ 0 ∷ [])

parse_alldata_iff_example : (parse_alldata 11 all_data 0 11 ≡ ok 2) ↔ Level all_data 0 11 0 2
parse_alldata_iff_example = parse_alldata_iff 11 all_data 0 11 2 (omega arith) (omega arith)

parse_alldata-ne-stuck_example : parse_alldata 11 all_data 0 11 ≢ stuck
parse_alldata-ne-stuck_example = parse_alldata-ne-stuck 11 all_data 0 11 (omega arith) (omega arith)
