-- ===== src/Tests/Frames.antt =====
-- The prefix of a routable frame on concrete frames, and the receive path on a whole one.
use process_bus.Prelude.{ℕ, ◌+◌, ◌<◌, ◌≡◌, ◌↔◌, refl, arith, inl, true, ◌==◌, if◌then◌else◌}
use process_bus.Prelude.Result.{ok}
use process_bus.Memory.{Memory, at_offset}
use process_bus.Memory.Frames.{Agree}
use process_bus.RSession.{build}
use process_bus.RSession.Layout.{sec_gcm}
use process_bus.RSession.Security.{seal}
use process_bus.Frame.{build_prefix, set_dst, make_dst_fields}
use process_bus.Frame.Destination.{set_dst-build_prefix}
use process_bus.Parser.Envelope.{
  get_proto_type, bus_proto_r_goose, bus_proto_r_sv, validate_r_envelope,
}
use process_bus.Parser.Envelope.Built.{validate_r_envelope-build_prefix}
use process_bus.Parser.Envelope.Reads.{Valid, validate_r_envelope-Valid}
use process_bus.Parser.Envelope.Classify.{join, sent, get_proto_type-sent}
use process_bus.Parser.Packets.{unwrap_r_frame}
use process_bus.Parser.Packets.RoundTrip.{unwrapped, unwrap_r_frame-seal}
use process_bus.Tests.Data.{
  flags, blank, config, config-FitsConfig, sv_params, goose_params, checksum_backend,
  checksum_backend-IsSound, sv_params-FitsFields, sv_params-IsKnown,
}

abbrev frame : Memory
frame = build_prefix blank config 100

set_dst-build_prefix_example :
    Agree 42
      (set_dst frame (make_dst_fields frame 0xefc00105))
      (build_prefix blank (record config { dst_ip = 0xefc00105 }) 100)
set_dst-build_prefix_example = set_dst-build_prefix blank config 100 0xefc00105 refl

blank-bytes : (i : ℕ) → blank i < 256
blank-bytes i = omega arith

validate_r_envelope-build_prefix_example : validate_r_envelope flags frame 142 0 ≡ ok 0xefc00101
validate_r_envelope-build_prefix_example =
    validate_r_envelope-build_prefix flags blank config 100 142 0 blank-bytes config-FitsConfig refl
      (omega arith) (omega arith) (λ e. omega (arith, e))

validate_r_envelope-Valid_example :
    (validate_r_envelope flags frame 142 0 ≡ ok 0xefc00101) ↔ Valid flags frame 142 0 0xefc00101
validate_r_envelope-Valid_example = validate_r_envelope-Valid flags frame 142 0 0xefc00101

get_proto_type-sent_example :
    get_proto_type (sent blank config 57 goose_params 0x4001) 99
    ≡ ((if goose_params.si == 0xa1 then bus_proto_r_goose else bus_proto_r_sv), 0x4001)
get_proto_type-sent_example =
    get_proto_type-sent blank config 57 99 goose_params 0x4001 refl (omega arith) (omega arith)
      (inl refl)

abbrev session : Memory
session = (build (at_offset blank 42) sv_params).0

abbrev sealed : Memory
sealed = (seal session sec_gcm checksum_backend).1

sealed_ok : seal session sec_gcm checksum_backend ≡ (true, sealed)
unfolding seal build
sealed_ok = refl

unwrap_r_frame-seal_example :
    (plain : Memory) × (unwrap_r_frame
        (join (build_prefix blank config 72) sealed)
        114
        0xa2
        0x82
        sec_gcm
        checksum_backend
      ≡ ok (unwrapped plain sv_params))
    × ((i : ℕ) → i < 5 → plain (49 + i) ≡ blank (42 + (49 + i)))
unwrap_r_frame-seal_example =
    unwrap_r_frame-seal checksum_backend blank config sv_params sealed 114 checksum_backend-IsSound
      sv_params-FitsFields sv_params-IsKnown (omega arith) (omega arith) sealed_ok
