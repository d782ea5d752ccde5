-- ===== src/Parser/Envelope/Classify.antt =====
-- How the processor sorts the frames that the generator sends.
use process_bus.Prelude.{ℕ, ◌-◌, ◌≤◌, ◌<◌, ◌≡◌, ◌⊎◌, arith, ltb, ◌==◌, if◌then◌else◌}
use process_bus.Memory.{Memory, at_offset, put_u16}
use process_bus.Frame.{FrameConfig, build_ip, build_prefix}
use process_bus.RSession.{BuildParams, build}
use process_bus.RSession.RoundTrip.{build_si}
use process_bus.Parser.Envelope.{bus_proto_r_goose, bus_proto_r_sv, get_proto_type}

-- The prefix and, from offset 42 on, the session that the generator puts behind it.
abbrev pub join : Memory → Memory → Memory
join front back i = if ltb i 42 then front i else back (i - 42)

-- The packet as it is sent: the stream's APPID stands in the UDP source port.
abbrev pub sent : Memory → FrameConfig → ℕ → BuildParams → ℕ → Memory
sent buf cfg n params appid =
    put_u16 (join (build_prefix buf cfg n) (build (at_offset buf 42) params).0) 34 appid

-- A routable frame as the generator builds it is sorted by its session identifier, and its key is
-- the APPID of the stream: for every mode, port 102, identifier of R-GOOSE or R-SV and frame that
-- holds the session header.
pub get_proto_type-sent :
    (buf : Memory) (cfg : FrameConfig) (n size : ℕ) (params : BuildParams) (appid : ℕ)
    → cfg.dst_port ≡ 102
    → appid < 65536
    → 73 ≤ size
    → (params.si ≡ 0xa1) ⊎ (params.si ≡ 0xa2)
    → get_proto_type (sent buf cfg n params appid) size
      ≡ ((if params.si == 0xa1 then bus_proto_r_goose else bus_proto_r_sv), appid)
unfolding get_proto_type build_prefix build_ip put_u16
get_proto_type-sent buf cfg n size params appid port fits le si =
    ground (arith, port, build_si (at_offset buf 42) params)
