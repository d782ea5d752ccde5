-- ===== src/RSession/Layout.antt =====
-- src/common/r_session.hpp: the protocol constants, the fixed offsets and the sizes of the session
-- envelope of IEC 61850-90-5, version 2.
use process_bus.Prelude.{ℕ, ◌+◌}

pub data SecurityMode : Type 0 where
  sec_none sec_hmac sec_gcm : SecurityMode

abbrev pub cltp_li : ℕ
cltp_li = 0x01

abbrev pub cltp_ud : ℕ
cltp_ud = 0x40

abbrev pub si_r_goose : ℕ
si_r_goose = 0xa1

abbrev pub si_r_sv : ℕ
si_r_sv = 0xa2

abbrev pub session_hdr_li : ℕ
session_hdr_li = 24

abbrev pub pi_common_hdr : ℕ
pi_common_hdr = 0x80

abbrev pub common_hdr_li2 : ℕ
common_hdr_li2 = 18

abbrev pub session_version : ℕ
session_version = 2

abbrev pub payload_type_goose : ℕ
payload_type_goose = 0x81

abbrev pub payload_type_sv : ℕ
payload_type_sv = 0x82

abbrev pub signature_tag : ℕ
signature_tag = 0x85

abbrev pub udp_dst_port : ℕ
udp_dst_port = 102

abbrev pub key_id : ℕ
key_id = 1

abbrev pub iv_len_none : ℕ
iv_len_none = 0

abbrev pub iv_len_gcm : ℕ
iv_len_gcm = 12

abbrev pub tag_size : ℕ
tag_size = 16

abbrev pub trailer_bytes : ℕ
trailer_bytes = 2 + tag_size

-- Offsets from the CLTP byte.
abbrev pub off_cltp_li : ℕ
off_cltp_li = 0

abbrev pub off_cltp_ud : ℕ
off_cltp_ud = 1

abbrev pub off_si : ℕ
off_si = 2

abbrev pub off_session_li : ℕ
off_session_li = 3

abbrev pub off_pi : ℕ
off_pi = 4

abbrev pub off_li2 : ℕ
off_li2 = 5

abbrev pub off_spdu_length : ℕ
off_spdu_length = 6

abbrev pub off_spdu_number : ℕ
off_spdu_number = 10

abbrev pub off_version : ℕ
off_version = 14

abbrev pub off_time_cur_key : ℕ
off_time_cur_key = 16

abbrev pub off_time_next_key : ℕ
off_time_next_key = 20

abbrev pub off_key_id : ℕ
off_key_id = 22

abbrev pub off_iv_length : ℕ
off_iv_length = 26

abbrev pub off_iv : ℕ
off_iv = 27

abbrev pub session_fixed_size : ℕ
session_fixed_size = 27

abbrev pub payload_hdr_size : ℕ
payload_hdr_size = 10

abbrev pub payload_elem_size : ℕ
payload_elem_size = 6

abbrev pub eth_ip_udp_size : ℕ
eth_ip_udp_size = 14 + 20 + 8

-- The codes of `ParseError`, without their sign.
abbrev pub err_too_short : ℕ
err_too_short = 1

abbrev pub err_bad_cltp : ℕ
err_bad_cltp = 2

abbrev pub err_bad_si : ℕ
err_bad_si = 3

abbrev pub err_bad_pi : ℕ
err_bad_pi = 4

abbrev pub err_bad_version : ℕ
err_bad_version = 5

abbrev pub err_bad_payload_len : ℕ
err_bad_payload_len = 6

abbrev pub err_bad_payload_type : ℕ
err_bad_payload_type = 7

abbrev pub iv_length : SecurityMode → ℕ
iv_length sec_gcm = iv_len_gcm
iv_length _ = iv_len_none

abbrev pub payload_hdr_offset : ℕ → ℕ
payload_hdr_offset iv_len = session_fixed_size + iv_len

abbrev pub apdu_offset : ℕ → ℕ
apdu_offset iv_len = payload_hdr_offset iv_len + payload_hdr_size

abbrev pub trailer_size : SecurityMode → ℕ
trailer_size sec_none = 0
trailer_size _ = trailer_bytes

abbrev pub udp_payload_size : SecurityMode → ℕ → ℕ
udp_payload_size mode apdu_length = apdu_offset (iv_length mode) + apdu_length + trailer_size mode

abbrev pub appid_offset : ℕ → ℕ
appid_offset iv_len = payload_hdr_offset iv_len + 4 + 1 + 1
