-- ===== src/RSession.antt =====
-- src/common/r_session.cpp: the session envelope that carries routable GOOSE and SV over UDP.
-- A buffer starts at the CLTP byte. `int16_t` fields are kept as their bit patterns.
pub mod Layout
pub mod Security
pub mod Crypto
pub mod Backend
pub mod Modes
pub mod Bounds
pub mod RoundTrip
use process_bus.Prelude.{
  ℕ, zero, suc, ◌+◌, ◌-◌, ◌%◌, ◌<◌, ◌≡◌, refl, Bool, true, false, not, ◌&&◌, ◌||◌, Option, none,
  some, List, [], ◌∷◌, ltb, leb, ◌==◌, if◌then◌else◌, replicate,
}
use process_bus.Prelude.Result.{Result, ok, err, require, ◌>>=◌, ◌>>◌}
use process_bus.Memory.{Memory, at_offset, put_u8, put_u16, put_u32, get_u16, get_u32, write}
use Layout.{
  SecurityMode, sec_none, sec_hmac, sec_gcm, cltp_li, cltp_ud, si_r_goose, si_r_sv, session_hdr_li,
  pi_common_hdr, common_hdr_li2, session_version, payload_type_goose, payload_type_sv, off_cltp_li,
  off_cltp_ud, off_si, off_session_li, off_pi, off_li2, off_spdu_length, off_spdu_number,
  off_version, off_time_cur_key, off_time_next_key, off_key_id, off_iv_length, off_iv,
  session_fixed_size, payload_hdr_size, payload_elem_size, err_too_short, err_bad_cltp, err_bad_si,
  err_bad_pi, err_bad_version, err_bad_payload_len, err_bad_payload_type, iv_length,
  payload_hdr_offset, apdu_offset,
}

-- `iv` is the offset that the pointer is at, none for the null pointer.
pub record SessionHeader : Type 0 where
  pub si : ℕ
  pub spdu_length : ℕ
  pub spdu_number : ℕ
  pub version : ℕ
  pub time_of_current_key : ℕ
  pub time_to_next_key : ℕ
  pub key_id : ℕ
  pub iv_length : ℕ
  pub iv : Option ℕ
  pub payload_length : ℕ

pub record PayloadHeader : Type 0 where
  pub payload_type : ℕ
  pub simulation : ℕ
  pub appid : ℕ
  pub apdu_length : ℕ
  pub apdu_size : ℕ

pub record BuildParams : Type 0 where
  pub si : ℕ
  pub payload_type : ℕ
  pub mode : SecurityMode
  pub spdu_number : ℕ
  pub key_id : ℕ
  pub appid : ℕ
  pub apdu_length : ℕ
  pub simulation : Bool

-- What every caller of `build` passes: values within the fields' C types.
pub record FitsFields (p : BuildParams) : Type 0 where
  pub si_fits : p.si < 256
  pub type_fits : p.payload_type < 256
  pub spdu_fits : p.spdu_number < 4294967296
  pub key_fits : p.key_id < 4294967296
  pub appid_fits : p.appid < 65536
  pub length_fits : p.apdu_length < 65536

abbrev pub payload_total : BuildParams → ℕ
payload_total params = payload_elem_size + params.apdu_length

-- The session header, up to the IV length byte and the zeroed IV behind it.
unfoldable pub build_session : Memory → BuildParams → Memory
build_session buf params =
    let iv_len = iv_length params.mode in
    let b1 = put_u8 buf off_cltp_li cltp_li in
    let b2 = put_u8 b1 off_cltp_ud cltp_ud in
    let b3 = put_u8 b2 off_si params.si in
    let b4 = put_u8 b3 off_session_li session_hdr_li in
    let b5 = put_u8 b4 off_pi pi_common_hdr in
    let b6 = put_u8 b5 off_li2 common_hdr_li2 in
    let b7 = put_u32 b6 off_spdu_length (20 + payload_total params) in
    let b8 = put_u32 b7 off_spdu_number params.spdu_number in
    let b9 = put_u16 b8 off_version session_version in
    let b10 = put_u32 b9 off_time_cur_key 0 in
    let b11 = put_u16 b10 off_time_next_key 0 in
    let b12 = put_u32 b11 off_key_id params.key_id in
    let b13 = put_u8 b12 off_iv_length iv_len in
    if ltb 0 iv_len then write b13 off_iv (replicate iv_len 0) else b13

-- The payload header at `phdr`.
unfoldable pub build_payload : Memory → ℕ → BuildParams → Memory
build_payload buf phdr params =
    let b1 = put_u32 buf phdr (payload_total params) in
    let b2 = put_u8 b1 (phdr + 4) params.payload_type in
    let b3 = put_u8 b2 (phdr + 5) (if params.simulation then 1 else 0) in
    let b4 = put_u16 b3 (phdr + 6) params.appid in put_u16 b4 (phdr + 8) params.apdu_length

-- `build` returns the buffer and the offset of the APDU.
unfoldable pub build : Memory → BuildParams → Memory × ℕ
unfolding build_session build_payload put_u16 put_u32 write
build buf params =
    let iv_len = iv_length params.mode in
    (
      build_payload (build_session buf params) (payload_hdr_offset iv_len) params,
      apdu_offset iv_len,
    )

abbrev pub header_of : Memory → ℕ → SessionHeader
header_of buf ph_off = record {
  si = buf off_si;
  spdu_length = get_u32 buf off_spdu_length;
  spdu_number = get_u32 buf off_spdu_number;
  version = get_u16 buf off_version;
  time_of_current_key = get_u32 buf off_time_cur_key;
  time_to_next_key = get_u16 buf off_time_next_key;
  key_id = get_u32 buf off_key_id;
  iv_length = buf off_iv_length;
  iv = if ltb 0 (buf off_iv_length) then some off_iv else none;
  payload_length = get_u32 buf ph_off;
}

-- The offset of the payload header and the session header.
unfoldable pub parse_session : Memory → ℕ → Result (ℕ × SessionHeader)
parse_session buf size = do
  require (not (ltb size (session_fixed_size + 4))) err_too_short
  require (not (not (buf off_cltp_li == cltp_li) || not (buf off_cltp_ud == cltp_ud))) err_bad_cltp
  require (not (not (buf off_si == si_r_goose) && not (buf off_si == si_r_sv))) err_bad_si
  require (buf off_pi == pi_common_hdr) err_bad_pi
  require (get_u16 buf off_version == session_version) err_bad_version
  let ph_off = payload_hdr_offset (buf off_iv_length)
  require (not (ltb size (ph_off + payload_hdr_size))) err_too_short
  let payload_length = get_u32 buf ph_off
  require (not (ltb payload_length payload_elem_size || ltb size (ph_off + 4 + payload_length)))
      err_bad_payload_len
  ok (ph_off, header_of buf ph_off)

unfoldable pub parse_payload : Memory → ℕ → SessionHeader → Result (ℕ × PayloadHeader)
parse_payload buf size session = do
  let ph_off = payload_hdr_offset session.iv_length
  require (not (ltb size (ph_off + payload_hdr_size))) err_too_short
  let phdr = at_offset buf ph_off
  require (not (not (phdr 4 == payload_type_goose) && not (phdr 4 == payload_type_sv)))
      err_bad_payload_type
  ok (
    ph_off + payload_hdr_size,
    record {
      payload_type = phdr 4;
      simulation = phdr 5;
      appid = get_u16 phdr 6;
      apdu_length = get_u16 phdr 8;
      apdu_size = (session.payload_length + 4294967296 - payload_elem_size) % 4294967296;
    },
  )

-- The offset of the APDU and both headers.
unfoldable pub parse : Memory → ℕ → Result (ℕ × SessionHeader × PayloadHeader)
parse buf size = do
  (_, session) ← parse_session buf size
  (apdu, payload) ← parse_payload buf size session
  ok (apdu, session, payload)
