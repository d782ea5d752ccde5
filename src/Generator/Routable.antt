-- ===== src/Generator/Routable.antt =====
-- src/bus_generator/r_sv_traffic_gen and r_goose_traffic_gen: the routable generators. Their skeleton is a
-- prefix and a session around the APDU of the layer 2 skeleton, which libiec61850 builds and which is
-- a parameter (L2Skeleton). Each packet is patched and sealed before it is sent.
pub mod Headers
pub mod Patching
pub mod Sealing
pub mod Delivery
pub mod Traffic
pub mod Elements
pub mod Arrival
use process_bus.Prelude.{
  ℕ, ◌+◌, ◌-◌, ◌%◌, ◌^◌, Bool, true, false, not, ◌||◌, List, ltb, ◌==◌, if◌then◌else◌,
}
use process_bus.Prelude.Result.{Result, ok, err, require, ◌>>=◌, ◌>>◌}
use process_bus.Memory.{Memory, at_offset, put_u16, put_u32, get_u16, slice, write}
use process_bus.Frame.{
  FrameConfig, DstFields, build_prefix, make_dst_fields, r_dst_spread, set_dst, stream_dst_ip,
}
use process_bus.RSession.Layout.{
  SecurityMode, sec_gcm, iv_length, payload_hdr_offset, udp_payload_size, si_r_goose, si_r_sv,
  payload_type_goose, payload_type_sv, payload_elem_size, key_id, off_spdu_number, eth_ip_udp_size,
  apdu_offset,
}
use process_bus.RSession.{BuildParams, build}
use process_bus.RSession.Crypto.{Crypto}
use process_bus.RSession.Security.{seal}
use process_bus.Generator.Amend.{
  SvIed, SvLayout, GooseIed, GooseLayout, set_ied, next_ied, after_asdus, write_asdu, write_asdus,
  next_goose, write_names, write_numbers,
}

-- What the layer 2 generator gives.
pub record L2Skeleton : Type 0 where
  pub buf : Memory
  pub size : ℕ
  pub appid_offset : ℕ

-- The kind of frame that a generator makes: the session identifier, the payload type and the size of
-- its packet buffer.
pub record FrameKind : Type 0 where
  pub si : ℕ
  pub payload_type : ℕ
  pub max_size : ℕ

-- `cfg.mode`, `m_skeleton`, `m_skeletonSize`, `m_regionOffset`, `m_spduOffset`, `m_plain` with its size
-- and `m_dst`.
pub record Skeleton : Type 0 where
  pub mode : SecurityMode
  pub frame : Memory
  pub frame_size : ℕ
  pub region_offset : ℕ
  pub spdu_offset : ℕ
  pub plain : Memory
  pub plain_size : ℕ
  pub dst : ℕ → DstFields

abbrev pub skeleton_params : FrameKind → SecurityMode → ℕ → BuildParams
skeleton_params kind mode apdu_len = record {
  si = kind.si;
  payload_type = kind.payload_type;
  mode = mode;
  spdu_number = 0;
  key_id = key_id;
  appid = 0;
  apdu_length = apdu_len;
  simulation = false;
}

-- The memory up to `p`, and another one from there on.
abbrev pub with_tail : Memory → ℕ → Memory → Memory
with_tail m p tail i = if ltb i p then m i else tail (i - p)

-- The session that is built behind the prefix, around `apdu_len` bytes of the layer 2 skeleton.
abbrev pub skeleton_session : Memory → BuildParams → List ℕ → Memory
skeleton_session prefix params apdu =
    let (session, apdu_off) = build (at_offset prefix eth_ip_udp_size) params in
    write session apdu_off apdu

abbrev pub skeleton_of : FrameKind → SecurityMode → FrameConfig → List ℕ → ℕ → Skeleton
skeleton_of kind mode cfg apdu apdu_len =
    let udp_size = udp_payload_size mode apdu_len in
    let prefix = build_prefix (λ i. 0) cfg udp_size in
    let params = skeleton_params kind mode apdu_len in
    let frame = with_tail prefix eth_ip_udp_size (skeleton_session prefix params apdu) in
    let region_off = eth_ip_udp_size + payload_hdr_offset (iv_length mode) + 4 in
    record {
      mode = mode;
      frame = frame;
      frame_size = eth_ip_udp_size + udp_size;
      region_offset = region_off;
      spdu_offset = eth_ip_udp_size + off_spdu_number;
      plain = at_offset frame region_off;
      plain_size = payload_elem_size + apdu_len;
      dst = λ i. make_dst_fields prefix (stream_dst_ip cfg.dst_ip i);
    }

-- `MakeSkeletonPacket`, which throws where the length field of the layer 2 skeleton is inconsistent
-- (error 1) and where the frame is too long (error 2).
unfoldable pub make_skeleton : FrameKind → SecurityMode → FrameConfig → L2Skeleton → Result Skeleton
make_skeleton kind mode cfg l2 = do
  let apdu_off = l2.appid_offset + 8
  let length_field = get_u16 l2.buf (l2.appid_offset + 2)
  require (not (ltb length_field 8 || ltb l2.size (apdu_off + (length_field - 8)))) 1
  let apdu_len = length_field - 8
  require (not (ltb kind.max_size (eth_ip_udp_size + udp_payload_size mode apdu_len))) 2
  ok (skeleton_of kind mode cfg (slice l2.buf apdu_off apdu_len) apdu_len)

-- An IED of a routable generator: `spduNumber` is a uint32_t.
pub record RoutableIed (I : Type 0) : Type 0 where
  pub ied : I
  pub spdu_number : ℕ

-- The state of a generator: the IEDs, and `m_plain`.
pub record RoutableGen (I : Type 0) : Type 0 where
  pub ieds : ℕ → RoutableIed I
  pub plain : Memory

-- The global number of an IED: an unsigned.
abbrev pub stream_of : ℕ → ℕ → ℕ
stream_of base_idx idx = (idx + base_idx) % 4294967296

abbrev pub appid_of_stream : ℕ → ℕ
appid_of_stream stream = (stream + 1) % 65536

abbrev pub next_spdu : ℕ → ℕ
next_spdu spdu_number = (spdu_number + 1) % 4294967296

-- `PrepareFrame` up to the choice of the region: the APPID in the UDP source port, the destination
-- and the number of the session packet.
unfoldable pub stamp : Skeleton → ℕ → ℕ → Memory → Memory
unfolding put_u16 put_u32 set_dst
stamp s stream spdu packet =
    let p1 = put_u16 packet 34 (appid_of_stream stream) in
    let p2 = set_dst p1 (s.dst (stream % r_dst_spread)) in put_u32 p2 s.spdu_offset spdu

-- The region that is amended: under GCM the plaintext master.
abbrev pub region_of : SecurityMode → ℕ → Memory → Memory → Memory
region_of sec_gcm off plain packet = plain
region_of _ off plain packet = at_offset packet off

-- The packet with the amended region in its place.
abbrev pub place : SecurityMode → ℕ → ℕ → Memory → Memory → Memory
place sec_gcm off size region packet = write packet off (slice region 0 size)
place _ off size region packet = with_tail packet off region

-- `m_plain` behind the packet.
abbrev pub next_plain : SecurityMode → Memory → Memory → Memory
next_plain sec_gcm region plain = region
next_plain _ region plain = plain

-- The datagram of the packet that is sent: its region amended by `amend`.
abbrev pub unsealed : Skeleton → ℕ → ℕ → (Memory → Memory) → Memory → Memory → Memory
unsealed s stream spdu amend plain packet =
    let stamped = stamp s stream spdu packet in
    place s.mode s.region_offset s.plain_size
      (amend (region_of s.mode s.region_offset plain stamped)) stamped

-- `FinishFrame` drops what `seal` answers.
unfoldable pub finish_frame : SecurityMode → Crypto → Memory → Memory
unfolding seal
finish_frame mode c packet =
    with_tail packet eth_ip_udp_size (seal (at_offset packet eth_ip_udp_size) mode c).1

-- What one packet does for IED `idx`: `next` is the device behind it and `amend` writes its region.
abbrev pub amend_frame :
    {I : Type 0}
    → Skeleton
    → Crypto
    → ℕ
    → RoutableGen I
    → ℕ
    → I
    → (Memory → Memory)
    → Memory
    → RoutableGen I × Memory
amend_frame s c base_idx g idx next amend packet =
    let spdu = next_spdu (g.ieds idx).spdu_number in
    let stream = stream_of base_idx idx in
    (
      record {
        ieds = set_ied g.ieds idx (record { ied = next; spdu_number = spdu });
        plain =
            next_plain s.mode
              (amend (region_of s.mode s.region_offset g.plain (stamp s stream spdu packet)))
              g.plain;
      },
      finish_frame s.mode c (unsealed s stream spdu amend g.plain packet),
    )

-- `AmendPacketSV80`, `AmendPacketSV256` and `AmendPacket` of the routable generators: the writes into
-- the region, which the APPID precedes.
unfoldable pub r_sv80_region : SvLayout → ℕ → SvIed → Memory → Memory
unfolding put_u16 write_asdu
r_sv80_region lay stream ied region =
    write_asdu lay 0 ied (put_u16 region lay.appid_offset (appid_of_stream stream))

unfoldable pub r_sv256_region : SvLayout → ℕ → SvIed → Memory → Memory
unfolding put_u16 write_asdus
r_sv256_region lay stream ied region =
    write_asdus lay 8 0 ied (put_u16 region lay.appid_offset (appid_of_stream stream))

unfoldable pub r_goose_region : GooseLayout → ℕ → GooseIed → Memory → Memory
unfolding write_names write_numbers
r_goose_region lay stream ied region = write_numbers lay ied (write_names lay stream ied region)

unfoldable pub amend_packet_r_sv80 :
    Skeleton → Crypto → ℕ → SvLayout → RoutableGen SvIed → ℕ → Memory → RoutableGen SvIed × Memory
unfolding r_sv80_region stamp finish_frame write slice
amend_packet_r_sv80 s c base_idx lay g idx =
    let ied = (g.ieds idx).ied in
    amend_frame s c base_idx g idx (next_ied lay ied)
      (r_sv80_region lay (stream_of base_idx idx) ied)

unfoldable pub amend_packet_r_sv256 :
    Skeleton → Crypto → ℕ → SvLayout → RoutableGen SvIed → ℕ → Memory → RoutableGen SvIed × Memory
unfolding r_sv256_region stamp finish_frame write slice
amend_packet_r_sv256 s c base_idx lay g idx =
    let ied = (g.ieds idx).ied in
    amend_frame s c base_idx g idx (after_asdus lay 8 ied)
      (r_sv256_region lay (stream_of base_idx idx) ied)

unfoldable pub amend_packet_r_goose :
    Skeleton
    → Crypto
    → ℕ
    → GooseLayout
    → RoutableGen GooseIed
    → ℕ
    → Memory
    → RoutableGen GooseIed × Memory
unfolding r_goose_region stamp finish_frame write slice
amend_packet_r_goose s c base_idx lay g idx =
    let ied = next_goose lay (g.ieds idx).ied in
    amend_frame s c base_idx g idx ied (r_goose_region lay (stream_of base_idx idx) ied)

abbrev pub max_sv_packet_size : ℕ
max_sv_packet_size = 1518

abbrev pub max_goose_packet_size : ℕ
max_goose_packet_size = 1518

abbrev pub r_sv_kind : FrameKind
r_sv_kind = record { si = si_r_sv; payload_type = payload_type_sv; max_size = max_sv_packet_size }

abbrev pub r_goose_kind : FrameKind
r_goose_kind = record {
  si = si_r_goose;
  payload_type = payload_type_goose;
  max_size = max_goose_packet_size;
}

-- An offset of the layer 2 skeleton from the payload element on, as a uint16_t; the subtraction is one
-- of size_t.
abbrev pub rebased : ℕ → ℕ → ℕ
rebased l2_apdu_off off = (payload_elem_size + (off + 2 ^ 64 - l2_apdu_off)) % 65536

abbrev pub rebased_asdu : ℕ → ℕ → ℕ
rebased_asdu l2_apdu_off off = if off == 0 then 0 else rebased l2_apdu_off off

abbrev pub region_appid_offset : ℕ
region_appid_offset = 2

abbrev pub rebase_sv : L2Skeleton → SvLayout → SvLayout
rebase_sv l2 lay =
    let l2_apdu_off = l2.appid_offset + 8 in
    record {
      appid_offset = region_appid_offset;
      svid_offset = λ i. rebased_asdu l2_apdu_off (lay.svid_offset i);
      smp_cnt_offset = λ i. rebased_asdu l2_apdu_off (lay.smp_cnt_offset i);
      freq = lay.freq;
    }

-- `m_tsDeltaChange` is never set.
abbrev pub rebase_goose : L2Skeleton → GooseLayout → GooseLayout
rebase_goose l2 lay =
    let l2_apdu_off = l2.appid_offset + 8 in
    record {
      appid_offset = region_appid_offset;
      timestamp_offset = rebased l2_apdu_off lay.timestamp_offset;
      goid_offset = rebased l2_apdu_off lay.goid_offset;
      gocb_ref_offset = rebased l2_apdu_off lay.gocb_ref_offset;
      ds_ref_offset = rebased l2_apdu_off lay.ds_ref_offset;
      sq_num_offset = rebased l2_apdu_off lay.sq_num_offset;
      st_num_offset = rebased l2_apdu_off lay.st_num_offset;
      d1_offset = rebased l2_apdu_off lay.d1_offset;
      ts_delta_change = 0;
    }

abbrev pub make_r_sv_skeleton : SecurityMode → FrameConfig → L2Skeleton → Result Skeleton
make_r_sv_skeleton = make_skeleton r_sv_kind

abbrev pub make_r_goose_skeleton : SecurityMode → FrameConfig → L2Skeleton → Result Skeleton
make_r_goose_skeleton = make_skeleton r_goose_kind
