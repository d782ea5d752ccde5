-- ===== src/Parser/Goose.antt =====
-- src/bus_processor/process_bus_parser.cpp: `parse_alldata`, the walker of a GOOSE APDU that
-- `parse_goose_packet` and `parse_r_goose_packet` both write out, and these two. A loop takes fuel, since
-- nothing in the code makes every one of them end. An `int` length is its bit pattern.
pub mod Endless
pub mod AllData
pub mod Levels
use process_bus.Prelude.{
  ℕ, zero, suc, ◌+◌, ◌-◌, ◌*◌, ◌/◌, ◌%◌, ◌^◌, ◌<◌, ◌≡◌, Bool, true, false, not, ◌&&◌, ◌||◌, Option,
  none, some, List, [], ltb, leb, ◌==◌, if◌then◌else◌,
}
use process_bus.Prelude.Result.{Result, ok, err, stuck, require, ◌>>=◌, ◌>>◌}
use process_bus.Memory.{Memory, at_offset, get_u16, get_u32, slice}
use process_bus.Parser.Asn1.{decode_asn1_len, decode_asn1_number, advance, u32}
use process_bus.Parser.Packets.{Unwrapped, unwrap_r_frame}
use process_bus.RSession.{SessionHeader, PayloadHeader}
use process_bus.RSession.Layout.{SecurityMode, si_r_goose, payload_type_goose}
use process_bus.RSession.Crypto.{Crypto}
use process_bus.Stream.Passport.{GoosePassport}
use process_bus.Stream.Goose.{GooseState}

abbrev pub max_data_depth : ℕ
max_data_depth = 8

-- A length whose bit pattern is below zero as an `int`.
abbrev pub negative : ℕ → Bool
negative n = leb 2147483648 n

-- One round of the loop of `parse_alldata` up to the nested call: the tag, the size and the position
-- of the value.
unfoldable pub entry_at : Memory → ℕ → ℕ → Option (ℕ × ℕ × ℕ)
entry_at buf end pos =
    let (size, p) = decode_asn1_len buf (advance pos 1) in
    if leb end (advance pos 1) || negative size || ltb end (advance p size)
    then none
    else some (buf pos, size, p)

-- The loop of `parse_alldata` at a depth that it allows; `err 1` is the result -1.
unfoldable pub entries : ℕ → Memory → ℕ → ℕ → ℕ → ℕ → Result ℕ
entries zero buf end depth pos num = if ltb pos end then stuck else ok num
entries (suc fuel) buf end depth pos num = elim (ltb pos end) [
  | false ↦ ok num
  | true ↦ elim (entry_at buf end pos) [
    | none ↦ err 1
    | some (tag, size, p) ↦ elim (tag == 0xa1 || tag == 0xa2) [
      | false ↦ entries fuel buf end depth (advance p size) (num + 1)
      | true ↦ elim (ltb max_data_depth (depth + 1)) [
        | true ↦ err 1
        | false ↦ elim (entries fuel buf (advance p size) (depth + 1) p 0) [
          | ok inner ↦ entries fuel buf end depth (advance p size) (num + 1)
          | err e ↦ err e
          | stuck ↦ stuck
        ]
      ]
    ]
  ]
]

-- `parse_alldata` at depth 0.
unfoldable pub parse_alldata : ℕ → Memory → ℕ → ℕ → Result ℕ
parse_alldata fuel buf pos end = entries fuel buf end 0 pos 0

-- What the loop over the items of the PDU keeps: the parts of the passport and of the state.
pub record Walk : Type 0 where
  pub gocbref : List ℕ
  pub dataset : List ℕ
  pub goid : List ℕ
  pub found_gocbref : Bool
  pub found_dataset : Bool
  pub found_goid : Bool
  pub timestamp : ℕ
  pub st_num : ℕ
  pub sq_num : ℕ
  pub crev : ℕ
  pub num : ℕ
  pub all_data_offset : ℕ
  pub found_entries : ℕ

abbrev pub new_walk : Walk
new_walk = record {
  gocbref = [];
  dataset = [];
  goid = [];
  found_gocbref = false;
  found_dataset = false;
  found_goid = false;
  timestamp = 0;
  st_num = 0;
  sq_num = 0;
  crev = 0;
  num = 0;
  all_data_offset = 0;
  found_entries = 0;
}

-- `make_stringview`: the cast of the `int` to `size_t` extends its sign.
abbrev pub make_stringview : Memory → ℕ → ℕ → List ℕ
make_stringview buf pos length =
    slice buf pos (if negative length then length + 2 ^ 64 - u32 else length)

-- `NET_TO_CPU_U64` and the shift to the right.
abbrev timestamp_at : Memory → ℕ → ℕ → ℕ
timestamp_at buf pos size = (get_u32 buf pos * u32 + get_u32 buf (pos + 4)) / 2 ^ ((8 - size) * 8)

-- The loop for SEQUENCE and SET: a tag, a length and what it measures, up to `end`.
unfoldable pub skip_items : ℕ → Memory → ℕ → ℕ → Result ℕ
skip_items zero buf end pos = if ltb pos end then stuck else ok pos
skip_items (suc fuel) buf end pos = elim (ltb pos end) [
  | false ↦ ok pos
  | true ↦
      let (size, p) = decode_asn1_len buf (advance pos 1) in
      skip_items fuel buf end (advance p size)
]

-- allData is counted, or the frame is malformed.
abbrev with_entries : Walk → ℕ → ℕ → Result ℕ → Result (ℕ × Walk)
with_entries w pos next (ok n) =
    ok (next, record w { all_data_offset = pos % 65536; found_entries = n })
with_entries w pos next (err e) = err 101
with_entries w pos next stuck = stuck

abbrev skipped_to : Walk → Result ℕ → Result (ℕ × Walk)
skipped_to w (ok pos) = ok (pos, w)
skipped_to w (err e) = err e
skipped_to w stuck = stuck

-- The `switch` over the tag of an item, whose value of `size` bytes is at `pos`: the position behind
-- the item, and what it sets.
unfoldable pub goose_item : ℕ → Memory → ℕ → ℕ → ℕ → Walk → Result (ℕ × Walk)
goose_item fuel buf pos size tag w =
    let next = advance pos size in
    let (inner, p) = decode_asn1_len buf pos in
    if tag == 0x80
    then ok (next, record w { gocbref = make_stringview buf pos size; found_gocbref = true })
    else if tag == 0x82
    then ok (next, record w { dataset = make_stringview buf pos size; found_dataset = true })
    else if tag == 0x83
    then ok (next, record w { goid = make_stringview buf pos size; found_goid = true })
    else if tag == 0x84 && leb 4 size && leb size 8
    then ok (next, record w { timestamp = timestamp_at buf pos size })
    else if tag == 0x85
    then ok (next, record w { st_num = decode_asn1_number buf pos size })
    else if tag == 0x86
    then ok (next, record w { sq_num = decode_asn1_number buf pos size })
    else if tag == 0x88
    then ok (next, record w { crev = decode_asn1_number buf pos size })
    else if tag == 0x8a
    then ok (next, record w { num = decode_asn1_number buf pos size % 65536 })
    else if tag == 0xab
    then with_entries w pos next (parse_alldata fuel buf pos next)
    else if tag == 0x30 || tag == 0x31
    then skipped_to w (skip_items fuel buf next pos)
    else if tag == 0xa0 || tag == 0xa1
    then ok (advance p inner, w)
    else ok (next, w)

-- One round of the loop over the items.
unfoldable pub goose_step : ℕ → Memory → ℕ → ℕ → Walk → Result (ℕ × Walk)
goose_step fuel buf size pos w = do
  let (item_size, p) = decode_asn1_len buf (advance pos 1)
  require (not (ltb size (advance p item_size) || item_size == 0)) 3
  goose_item fuel buf p item_size (buf pos) w

unfoldable pub walk_items : ℕ → Memory → ℕ → ℕ → Walk → Result Walk
walk_items zero buf size pos w = if ltb pos size then stuck else ok w
walk_items (suc fuel) buf size pos w = elim (ltb pos size) [
  | false ↦ ok w
  | true ↦ elim (goose_step fuel buf size pos w) [
    | ok (pos', w') ↦ walk_items fuel buf size pos' w'
    | err e ↦ err e
    | stuck ↦ stuck
  ]
]

-- The tests behind the loop.
unfoldable pub check_walk : Walk → Result Walk
check_walk w = do
  require (w.found_entries == w.num) 102
  require (w.found_gocbref && w.found_dataset && w.found_goid) 100
  ok w

-- The PDU whose tag is at `pos`: its length is read and not used.
unfoldable pub walk_pdu : ℕ → Memory → ℕ → ℕ → Result Walk
walk_pdu fuel buf size pos = do
  require (buf pos == 0x61) 3
  w ← walk_items fuel buf size (decode_asn1_len buf (pos + 1)).1 new_walk
  check_walk w

-- The passport and the state that a walked PDU fills in; `dst_ip` stays 0.
abbrev pub goose_frame : Memory → ℕ → Walk → GoosePassport × GooseState
goose_frame buf appid w = (
  record {
    dmac = slice buf 0 6;
    appid = appid;
    num = w.num;
    crev = w.crev;
    dst_ip = 0;
    goid = w.goid;
    dataset = w.dataset;
    gocbref = w.gocbref;
  },
  record { timestamp = w.timestamp; st_num = w.st_num; sq_num = w.sq_num },
)

abbrev goose_appid_at : Memory → Result ℕ
goose_appid_at buf =
    if buf 12 == 0x81 && buf 13 == 0x00 && buf 16 == 0x88 && buf 17 == 0xb8
    then ok 18
    else if buf 12 == 0x88 && buf 13 == 0xb8
    then ok 14
    else err 1

unfoldable pub parse_goose_packet : ℕ → Memory → ℕ → Result (GoosePassport × GooseState)
parse_goose_packet fuel buf size = do
  require (not (ltb size 64)) 1
  pos ← goose_appid_at buf
  w ← walk_pdu fuel buf size (pos + 8)
  ok (goose_frame buf (get_u16 buf pos) w)

-- The session header is a result too: the caller counts its SPDU number.
unfoldable pub parse_r_goose_packet :
    ℕ → Memory → ℕ → SecurityMode → Crypto → Result (SessionHeader × GoosePassport × GooseState)
parse_r_goose_packet fuel buf size mode c = do
  u ← unwrap_r_frame buf size si_r_goose payload_type_goose mode c
  require (not (ltb u.apdu_size 2)) 3
  w ← walk_pdu fuel (at_offset u.udp u.apdu_base) u.apdu_size 0
  let (passport, state) = goose_frame buf u.payload.appid w
  ok (u.session, passport, state)
