-- ===== src/Parser/Sv.antt =====
-- src/bus_processor/process_bus_parser.cpp: `parse_sv_apdu`, the walker of a Sampled Values APDU that L2
-- and routable frames share, and `parse_sv_packet`. A loop takes fuel, which its callers set to the
-- size of the APDU.
pub mod Total
pub mod Reads
pub mod Fields
pub mod Quality
use process_bus.Prelude.{
  ℕ, zero, suc, ◌+◌, ◌-◌, ◌*◌, ◌%◌, ◌<◌, ◌≡◌, Bool, true, false, not, ◌&&◌, ◌||◌, Option, none,
  some, List, [], ltb, leb, ◌==◌, if◌then◌else◌,
}
use process_bus.Prelude.Result.{Result, ok, err, stuck, require, ◌>>=◌, ◌>>◌}
use process_bus.Memory.{Memory, at_offset, get_u16, slice}
use process_bus.Parser.Asn1.{
  decode_asn1_number, decode_asn1_len_bounded, value_length, take_tlv, u32,
}
use process_bus.Stream.Passport.{SvPassport, bytes_eq}
use process_bus.Stream.Sv.{SvState}

-- src/common/sv_profile.hpp.
abbrev pub channels : ℕ
channels = 8

abbrev pub value_size : ℕ
value_size = 4

abbrev pub quality_size : ℕ
quality_size = 4

abbrev pub channel_size : ℕ
channel_size = value_size + quality_size

abbrev pub asdu_data_size : ℕ
asdu_data_size = channels * channel_size

abbrev pub quality_good : ℕ
quality_good = 0

abbrev pub sv_parse_err_quality : ℕ
sv_parse_err_quality = 11

-- The variables of the loop over an ASDU's fields.
pub record Asdu : Type 0 where
  pub found_svid : Bool
  pub found_smp_cnt : Bool
  pub found_conf_rev : Bool
  pub found_smp_synch : Bool
  pub found_data : Bool
  pub svid : List ℕ
  pub smp_cnt : ℕ
  pub conf_rev : ℕ
  pub previous_tag : ℕ

abbrev pub new_asdu : Asdu
new_asdu = record {
  found_svid = false;
  found_smp_cnt = false;
  found_conf_rev = false;
  found_smp_synch = false;
  found_data = false;
  svid = [];
  smp_cnt = 0;
  conf_rev = 0;
  previous_tag = 0;
}

-- The loop over the Quality fields: `n` channels are left, the next Quality is at `off`.
unfoldable pub check_quality : Memory → ℕ → ℕ → ℕ → Bool
check_quality apdu pos zero off = true
check_quality apdu pos (suc n) off =
    decode_asn1_number apdu (pos + off) quality_size == quality_good
    && check_quality apdu pos n (off + channel_size)

-- The `switch` over the tag of a field, whose value of `length` bytes is at `pos`.
unfoldable pub field_value : Memory → ℕ → ℕ → ℕ → Asdu → Result Asdu
field_value apdu pos length tag a =
    if tag == 0x80
    then (do
      require (not (a.found_svid || length == 0)) 6
      ok (record a { svid = slice apdu pos length; found_svid = true }))
    else if tag == 0x81
    then (do require (not (length == 0)) 6; ok a)
    else if tag == 0x82
    then (do
      require (not (a.found_smp_cnt || not (length == 2))) 6
      ok (record a { smp_cnt = decode_asn1_number apdu pos length; found_smp_cnt = true }))
    else if tag == 0x83
    then (do
      require (not (a.found_conf_rev || not (length == 4))) 6
      ok (record a { conf_rev = decode_asn1_number apdu pos length; found_conf_rev = true }))
    else if tag == 0x84
    then (do require (length == 8) 6; ok a)
    else if tag == 0x85
    then (do
      require (not (a.found_smp_synch || not (length == 1))) 6
      ok (record a { found_smp_synch = true }))
    else if tag == 0x86
    then (do require (length == 2) 6; ok a)
    else if tag == 0x87
    then (do
      require (not (a.found_data || not (length == asdu_data_size))) 6
      require (check_quality apdu pos channels value_size) sv_parse_err_quality
      ok (record a { found_data = true }))
    else if tag == 0x88
    then (do require (length == 2) 6; ok a)
    else err 6

abbrev at_value : Memory → ℕ → Asdu → Option (ℕ × ℕ) → Result (ℕ × Asdu)
at_value apdu tag a none = err 6
at_value apdu tag a (some (length, pos)) = do
  a' ← field_value apdu pos length tag (record a { previous_tag = tag })
  ok (pos + length, a')

-- One round of the loop over the fields of an ASDU that ends at `asdu_end`.
unfoldable pub field_step : Memory → ℕ → ℕ → Asdu → Result (ℕ × Asdu)
field_step apdu asdu_end pos a = do
  let tag = apdu pos
  require (not (leb tag a.previous_tag)) 6
  at_value apdu tag a (value_length apdu asdu_end (pos + 1))

unfoldable pub walk_fields : ℕ → Memory → ℕ → ℕ → Asdu → Result (ℕ × Asdu)
walk_fields zero apdu asdu_end pos a = if ltb pos asdu_end then stuck else ok (pos, a)
walk_fields (suc fuel) apdu asdu_end pos a = elim (ltb pos asdu_end) [
  | false ↦ ok (pos, a)
  | true ↦ elim (field_step apdu asdu_end pos a) [
    | ok (pos', a') ↦ walk_fields fuel apdu asdu_end pos' a'
    | err e ↦ err e
    | stuck ↦ stuck
  ]
]

abbrev has_all : Asdu → Bool
has_all a = not (
    not a.found_svid
    || not a.found_smp_cnt
    || not a.found_conf_rev
    || not a.found_smp_synch
    || not a.found_data)

-- What the first ASDU sets: `passport.svid`, `passport.crev` and `state.smpCnt`.
pub record Apdu : Type 0 where
  pub svid : List ℕ
  pub crev : ℕ
  pub smp_cnt : ℕ

abbrev pub new_apdu : Apdu
new_apdu = record { svid = []; crev = 0; smp_cnt = 0 }

-- The end of a round of the loop over ASDUs: the first one sets, the others must describe the same
-- stream.
unfoldable pub join_asdu : ℕ → Apdu → Asdu → Result Apdu
join_asdu actual r a = do
  require (has_all a) 6
  if actual == 0
      then ok (record { svid = a.svid; crev = a.conf_rev; smp_cnt = a.smp_cnt })
      else (do require (not (not (bytes_eq a.svid r.svid) || not (a.conf_rev == r.crev))) 6; ok r)

abbrev at_asdu : ℕ → Memory → Option (ℕ × ℕ) → ℕ → Apdu → Result (ℕ × Apdu)
at_asdu fuel apdu none actual r = err 5
at_asdu fuel apdu (some (pos, asdu_end)) actual r = do
  (pos', a) ← walk_fields fuel apdu asdu_end pos new_asdu
  r' ← join_asdu actual r a
  ok (pos', r')

-- One round of the loop over the ASDUs.
unfoldable pub asdu_step : ℕ → Memory → ℕ → ℕ → ℕ → Apdu → Result (ℕ × Apdu)
asdu_step fuel apdu sequence_end pos actual r =
    at_asdu fuel apdu (take_tlv apdu sequence_end pos 0x30) actual r

-- The number of ASDUs, and what the first one set.
unfoldable pub walk_asdus : ℕ → Memory → ℕ → ℕ → ℕ → Apdu → Result (ℕ × Apdu)
walk_asdus zero apdu sequence_end pos actual r =
    if ltb pos sequence_end then stuck else ok (actual, r)
walk_asdus (suc fuel) apdu sequence_end pos actual r = elim (ltb pos sequence_end) [
  | false ↦ ok (actual, r)
  | true ↦ elim (asdu_step fuel apdu sequence_end pos actual r) [
    | ok (pos', r') ↦ walk_asdus fuel apdu sequence_end pos' (actual + 1) r'
    | err e ↦ err e
    | stuck ↦ stuck
  ]
]

abbrev found_or {ℓ} : {A : Type ℓ} → Option A → ℕ → Result A
found_or none e = err e
found_or (some a) e = ok a

-- `noASDU`: the declared number of ASDUs and the position behind it.
unfoldable pub declared_asdus : Memory → ℕ → ℕ → Result (ℕ × ℕ)
declared_asdus apdu pdu_end pos = do
  require (ltb pos pdu_end && apdu pos == 0x80) 4
  (length, at) ← found_or (value_length apdu pdu_end (pos + 1)) 4
  require (not (length == 0 || ltb 2 length)) 4
  let declared = decode_asn1_number apdu at length
  require (not (declared == 0 || ltb 65535 declared)) 4
  ok (declared, at + length)

-- `parse_sv_apdu`: `passport.num` and what the first ASDU set.
unfoldable pub parse_sv_apdu : Memory → ℕ → Result (ℕ × Apdu)
parse_sv_apdu apdu size = do
  (start, pdu_end) ← found_or (take_tlv apdu size 0 0x60) 3
  (declared, pos) ← declared_asdus apdu pdu_end start
  (first, sequence_end) ← found_or (take_tlv apdu pdu_end pos 0xa2) 4
  require (sequence_end == pdu_end) 4
  (actual, r) ← walk_asdus size apdu sequence_end first 0 new_apdu
  require (actual == declared) 7
  ok (declared, r)
