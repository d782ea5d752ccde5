-- ===== src/Parser/Packets/RoundTrip.antt =====
-- The processor's receive path undoes the generator's send path.
use process_bus.Prelude.{ℕ, ◌+◌, ◌≤◌, ◌<◌, ◌≡◌, arith, true}
use std.Path.{fun_ext}
use process_bus.Prelude.Result.{ok}
use process_bus.Memory.{Memory, at_offset, get_u16, put_u16, put_u32}
use process_bus.Frame.{FrameConfig, build_ip, build_prefix}
use process_bus.RSession.{BuildParams, FitsFields, build}
use process_bus.RSession.RoundTrip.{built_session, built_payload, IsKnown}
use process_bus.RSession.Layout.{apdu_offset, iv_length, udp_payload_size}
use process_bus.RSession.Crypto.{Crypto, IsSound}
use process_bus.RSession.Security.{seal}
use process_bus.RSession.Security.Wire.{Received, seal-Received}
use process_bus.Parser.Envelope.Classify.{join}
use process_bus.Parser.Packets.{Unwrapped, unwrap_r_frame}

pub total_of-prefix :
    (buf out : Memory) (cfg : FrameConfig) (n : ℕ)
    → 28 + n < 65536
    → get_u16 (join (build_prefix buf cfg n) out) 16 ≡ 28 + n
unfolding build_prefix build_ip put_u16 put_u32
total_of-prefix buf out cfg n h = ground arith

at_offset-join : (front out : Memory) → at_offset (join front out) 42 ≡ out
at_offset-join front out = fun_ext (λ i. ground arith)

-- What `unwrap_r_frame` gives for a frame of `n` bytes behind the prefix that `Received` describes.
abbrev pub unwrapped : Memory → BuildParams → Unwrapped
unwrapped plain p = record {
  udp = plain;
  apdu_base = apdu_offset (iv_length p.mode);
  apdu_size = p.apdu_length;
  session = built_session p;
  payload = built_payload p;
}

pub unwrap_r_frame-Received :
    (frame udp out plain : Memory) (p : BuildParams) (size n : ℕ) (c : Crypto)
    → at_offset frame 42 ≡ out
    → get_u16 frame 16 ≡ 28 + n
    → 37 ≤ n
    → 42 + n ≤ size
    → Received udp p n c out plain
    → unwrap_r_frame frame size p.si p.payload_type p.mode c ≡ ok (unwrapped plain p)
unfolding unwrap_r_frame
unwrap_r_frame-Received frame udp out plain p size n c at total low fits r =
    ground (arith, at, total, r.header, r.opened, r.payload)

-- The processor unwraps each frame that the generator builds and seals, in every security mode, with
-- a backend that keeps its promises: it returns the headers as they were built, and an APDU of the
-- same size with the same bytes. The datagram fits its length field, and the frame is received whole.
pub unwrap_r_frame-seal :
    (c : Crypto) (buf : Memory) (cfg : FrameConfig) (p : BuildParams) (out : Memory) (size : ℕ)
    → IsSound c
    → FitsFields p
    → IsKnown p
    → let n = udp_payload_size p.mode p.apdu_length in
      28 + n < 65536
      → 42 + n ≤ size
      → seal (build (at_offset buf 42) p).0 p.mode c ≡ (true, out)
      → (plain : Memory) × (unwrap_r_frame
            (join (build_prefix buf cfg n) out)
            size
            p.si
            p.payload_type
            p.mode
            c
          ≡ ok (unwrapped plain p))
        × ((i : ℕ)
            → i < p.apdu_length
            → plain (apdu_offset (iv_length p.mode) + i)
              ≡ buf (42 + (apdu_offset (iv_length p.mode) + i)))
unwrap_r_frame-seal c buf cfg p out size sound f k len fits e =
    let n : ℕ = udp_payload_size p.mode p.apdu_length in
    let front : Memory = build_prefix buf cfg n in
    let (plain, r) = seal-Received c sound (at_offset buf 42) p f k out n (omega arith) e in
    (
      plain,
      unwrap_r_frame-Received (join front out) (at_offset buf 42) out plain p size n c
          (at_offset-join front out) (total_of-prefix buf out cfg n len) (omega arith) fits r,
      r.apdu,
    )
