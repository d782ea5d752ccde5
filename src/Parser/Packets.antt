-- ===== src/Parser/Packets.antt =====
-- src/bus_processor/process_bus_parser.cpp: `parse_sv_packet`, `unwrap_r_frame` and `parse_r_sv_packet`. The
-- copy that PLATFORM_ORANGEPI3B makes before it decrypts is not part of the model.
pub mod RoundTrip
pub mod Total
use process_bus.Prelude.{
  ℕ, ◌+◌, ◌-◌, ◌<◌, ◌≡◌, Bool, true, false, not, ◌&&◌, ◌||◌, ltb, ◌==◌, if◌then◌else◌, Option, none,
  some, List,
}
use process_bus.Prelude.Result.{Result, ok, err, require, ◌>>=◌, ◌>>◌}
use process_bus.Memory.{Memory, at_offset, get_u16, slice}
use process_bus.RSession.{SessionHeader, PayloadHeader, parse_session, parse_payload}
use process_bus.RSession.Layout.{
  SecurityMode, sec_none, sec_hmac, sec_gcm, eth_ip_udp_size, apdu_offset, err_too_short,
  err_bad_si, err_bad_payload_type, si_r_sv, payload_type_sv,
}
use process_bus.RSession.Crypto.{Crypto}
use process_bus.RSession.Security.{unseal}
use process_bus.Parser.Sv.{Apdu, parse_sv_apdu}
use process_bus.Stream.Passport.{SvPassport}
use process_bus.Stream.Sv.{SvState}

abbrev pub r_parse_err_auth : ℕ
r_parse_err_auth = 10

-- The passport and the state that a walked APDU fills in; `dst_ip` stays 0.
abbrev pub sv_frame : Memory → ℕ → ℕ × Apdu → SvPassport × SvState
sv_frame buf appid (num, a) = (
  record {
    dmac = slice buf 0 6;
    appid = appid;
    num = num;
    crev = a.crev;
    svid = a.svid;
    dst_ip = 0;
  },
  record { smp_cnt = a.smp_cnt },
)

-- The offset of the APPID: behind the VLAN tag, or behind the addresses and the EtherType.
abbrev sv_appid_at : Memory → Result ℕ
sv_appid_at buf =
    if buf 12 == 0x81 && buf 13 == 0x00 && buf 16 == 0x88 && buf 17 == 0xba
    then ok 18
    else if buf 12 == 0x88 && buf 13 == 0xba
    then ok 14
    else err 2

unfoldable pub parse_sv_packet : Memory → ℕ → Result (SvPassport × SvState)
parse_sv_packet buf size = do
  require (not (ltb size 64)) 1
  pos ← sv_appid_at buf
  r ← parse_sv_apdu (at_offset buf (pos + 8)) (size - (pos + 8))
  ok (sv_frame buf (get_u16 buf pos) r)

-- What `unwrap_r_frame` sets: the session PDU, decrypted, the offset of the APDU in it, its size, and
-- both headers.
pub record Unwrapped : Type 0 where
  pub udp : Memory
  pub apdu_base : ℕ
  pub apdu_size : ℕ
  pub session : SessionHeader
  pub payload : PayloadHeader

-- `mode != SEC_NONE && !unseal(...)` is an authentication error.
abbrev verified : Bool × Memory → Result Memory
verified (true, udp) = ok udp
verified (false, udp) = err r_parse_err_auth

unfoldable pub unwrap_r_frame : Memory → ℕ → ℕ → ℕ → SecurityMode → Crypto → Result Unwrapped
unwrap_r_frame buf size expected_si expected_type mode c = do
  require (not (ltb size (eth_ip_udp_size + apdu_offset 0))) err_too_short
  let ip_total = get_u16 buf 16
  require (not (ltb ip_total 28 || ltb size (14 + ip_total))) err_too_short
  let udp_size = ip_total - 28
  (_, session) ← parse_session (at_offset buf eth_ip_udp_size) udp_size
  require (session.si == expected_si) err_bad_si
  udp ← verified (unseal (at_offset buf eth_ip_udp_size) udp_size mode session c)
  (base, payload) ← parse_payload udp udp_size session
  require (payload.payload_type == expected_type) err_bad_payload_type
  ok (record {
    udp = udp;
    apdu_base = base;
    apdu_size = payload.apdu_size;
    session = session;
    payload = payload;
  })

-- The session header is a result too: the caller counts its SPDU number.
unfoldable pub parse_r_sv_packet :
    Memory → ℕ → SecurityMode → Crypto → Result (SessionHeader × SvPassport × SvState)
parse_r_sv_packet buf size mode c = do
  u ← unwrap_r_frame buf size si_r_sv payload_type_sv mode c
  r ← parse_sv_apdu (at_offset u.udp u.apdu_base) u.apdu_size
  let (passport, state) = sv_frame buf u.payload.appid r
  ok (u.session, passport, state)
