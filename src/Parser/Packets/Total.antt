-- ===== src/Parser/Packets/Total.antt =====
-- The entry points of the Sampled Values parser end on every packet.
use process_bus.Prelude.{ℕ, ◌+◌, ◌-◌, ◌≢◌, arith, inl, inr}
use process_bus.Prelude.Result.{stuck, Result-cases, bind-ne-stuck, ok-ne-stuck}
use process_bus.Memory.{Memory, at_offset, get_u16}
use process_bus.RSession.{parse_session, parse_payload, SessionHeader}
use process_bus.RSession.Layout.{SecurityMode}
use process_bus.RSession.Crypto.{Crypto}
use process_bus.RSession.Security.{unseal}
use process_bus.Parser.Sv.Total.{parse_sv_apdu-ne-stuck}
use process_bus.Parser.Packets.{parse_sv_packet, parse_r_sv_packet, unwrap_r_frame}

pub parse_sv_packet-ne-stuck : (buf : Memory) (size : ℕ) → parse_sv_packet buf size ≢ stuck
unfolding parse_sv_packet
parse_sv_packet-ne-stuck buf size = ground (
  arith,
  parse_sv_apdu-ne-stuck (at_offset buf (18 + 8)) (size - (18 + 8)),
  parse_sv_apdu-ne-stuck (at_offset buf (14 + 8)) (size - (14 + 8)),
)

parse_session-ne-stuck : (buf : Memory) (size : ℕ) → parse_session buf size ≢ stuck
unfolding parse_session
parse_session-ne-stuck buf size = ground arith

parse_payload-ne-stuck :
    (buf : Memory) (size : ℕ) (s : SessionHeader) → parse_payload buf size s ≢ stuck
unfolding parse_payload
parse_payload-ne-stuck buf size s = ground arith

unwrap_r_frame-ne-stuck :
    (buf : Memory) (size si type : ℕ) (mode : SecurityMode) (c : Crypto)
    → unwrap_r_frame buf size si type mode c ≢ stuck
unfolding unwrap_r_frame
unwrap_r_frame-ne-stuck buf size si type mode c =
    let udp : Memory = at_offset buf 42 in
    let n : ℕ = get_u16 buf 16 - 28 in
    elim (Result-cases (parse_session udp n)) [
      | inl ((ph, s), e) ↦ ground (arith, e, parse_payload-ne-stuck (unseal udp n mode s c).1 n s)
      | inr (inl (x, e)) ↦ ground (arith, e)
      | inr (inr e) ↦ absurd (parse_session-ne-stuck udp n e)
    ]

pub parse_r_sv_packet-ne-stuck :
    (buf : Memory) (size : ℕ) (mode : SecurityMode) (c : Crypto)
    → parse_r_sv_packet buf size mode c ≢ stuck
unfolding parse_r_sv_packet
parse_r_sv_packet-ne-stuck buf size mode c =
    bind-ne-stuck _ _ (unwrap_r_frame-ne-stuck buf size _ _ mode c)
      (λ u. bind-ne-stuck _ _ (parse_sv_apdu-ne-stuck _ _) (λ r. ok-ne-stuck _))
