-- ===== src/RSession/RoundTrip.antt =====
-- The envelope that `build` writes is the one that the parser reads.
use process_bus.Prelude.{
  ℕ, ◌+◌, ◌≤◌, ◌≡◌, refl, ap, ◌∙◌, ◌⊎◌, none, some, ltb, if◌then◌else◌, arith,
}
use process_bus.Prelude.Result.{ok}
use process_bus.Memory.{Memory, get_u16, get_u32}
use process_bus.Memory.Words.{bytes-u32}
use process_bus.RSession.Layout.{SecurityMode, sec_none, apdu_offset, iv_length}
use process_bus.RSession.{
  SessionHeader, PayloadHeader, BuildParams, FitsFields, build, parse, parse_session, parse_payload,
  header_of, payload_total,
}

abbrev pub built_session : BuildParams → SessionHeader
built_session p = record {
  si = p.si;
  spdu_length = 20 + payload_total p;
  spdu_number = p.spdu_number;
  version = 2;
  time_of_current_key = 0;
  time_to_next_key = 0;
  key_id = p.key_id;
  iv_length = iv_length p.mode;
  iv = if ltb 0 (iv_length p.mode) then some 27 else none;
  payload_length = payload_total p;
}

abbrev pub built_payload : BuildParams → PayloadHeader
built_payload p = record {
  payload_type = p.payload_type;
  simulation = if p.simulation then 1 else 0;
  appid = p.appid;
  apdu_length = p.apdu_length;
  apdu_size = p.apdu_length;
}

-- A kind of frame that the parser knows: routable GOOSE or SV.
pub record IsKnown (p : BuildParams) : Type 0 where
  pub si_known : (p.si ≡ 0xa1) ⊎ (p.si ≡ 0xa2)
  pub type_known : (p.payload_type ≡ 0x81) ⊎ (p.payload_type ≡ 0x82)

pub header_of-build :
    (buf : Memory) (p : BuildParams) (mode : SecurityMode)
    → p.mode ≡ mode
    → FitsFields p
    → header_of (build buf p).0 (27 + iv_length p.mode) ≡ built_session p
unfolding build
header_of-build buf p sec_none e f =
    rw e (ground (arith, bytes-u32 p.spdu_number, bytes-u32 p.key_id))
header_of-build buf p _ e f = rw e (ground (arith, bytes-u32 p.spdu_number, bytes-u32 p.key_id))

pub built_bytes :
    (buf : Memory) (p : BuildParams) (mode : SecurityMode)
    → p.mode ≡ mode
    → let b = (build buf p).0 in
      (b 0 ≡ 1)
      × (b 1 ≡ 0x40)
      × (b 4 ≡ 0x80)
      × (b 26 ≡ iv_length p.mode)
      × (b (27 + iv_length p.mode + 4) ≡ p.payload_type)
unfolding build
built_bytes buf p sec_none e = rw e (refl, refl, refl, refl, refl)
built_bytes buf p _ e = rw e (refl, refl, refl, refl, refl)

pub parse_session-accepts :
    (b : Memory) (size iv si : ℕ)
    → b 0 ≡ 1
    → b 1 ≡ 0x40
    → b 4 ≡ 0x80
    → b 26 ≡ iv
    → b 2 ≡ si
    → (si ≡ 0xa1) ⊎ (si ≡ 0xa2)
    → get_u16 b 14 ≡ 2
    → 6 ≤ get_u32 b (27 + iv)
    → 27 + iv + 4 + get_u32 b (27 + iv) ≤ size
    → parse_session b size ≡ ok (27 + iv, header_of b (27 + iv))
unfolding parse_session
parse_session-accepts b size iv si e0 e1 e4 e26 e2 k v lo hi = ground arith

pub payload_of-build :
    (buf : Memory) (p : BuildParams) (mode : SecurityMode) (size : ℕ)
    → p.mode ≡ mode
    → FitsFields p
    → (p.payload_type ≡ 0x81) ⊎ (p.payload_type ≡ 0x82)
    → apdu_offset (iv_length p.mode) ≤ size
    → parse_payload (build buf p).0 size (built_session p)
      ≡ ok (apdu_offset (iv_length p.mode), built_payload p)
unfolding build parse_payload
payload_of-build buf p sec_none size e f k h = rw e (ground (arith, e))
payload_of-build buf p _ size e f k h = rw e (ground (arith, e))

-- The session header read from what `build` wrote, on any mode, buffer and frame of a known kind.
pub parse_session-build :
    (buf : Memory) (p : BuildParams) (size : ℕ)
    → FitsFields p
    → IsKnown p
    → apdu_offset (iv_length p.mode) + p.apdu_length ≤ size
    → parse_session (build buf p).0 size ≡ ok (27 + iv_length p.mode, built_session p)
parse_session-build buf p size f k h =
    let (b0, b1, b4, b26, _) = built_bytes buf p p.mode refl in
    let e = header_of-build buf p p.mode refl f in
    parse_session-accepts (build buf p).0 size (iv_length p.mode) p.si b0 b1 b4 b26
      (ap (λ (s : SessionHeader). s.si) e) k.si_known (ap (λ (s : SessionHeader). s.version) e)
      (omega (arith, ap (λ (s : SessionHeader). s.payload_length) e))
      (omega (arith, ap (λ (s : SessionHeader). s.payload_length) e))
    ∙ rw e

-- The parser reads from what `build` wrote the parameters of `build`, and finds the APDU at the
-- offset that `build` returned, on any mode, for a frame of a known kind whose fields fit their
-- types, in a buffer that holds the APDU.
pub parse-build :
    (buf : Memory) (p : BuildParams) (size : ℕ)
    → FitsFields p
    → IsKnown p
    → apdu_offset (iv_length p.mode) + p.apdu_length ≤ size
    → parse (build buf p).0 size ≡ ok ((build buf p).1, built_session p, built_payload p)
unfolding parse
parse-build buf p size f k h = rw (parse_session-build buf p size f k h) (
    rw (payload_of-build buf p p.mode size refl f k.type_known (omega arith))
      (unfold build in refl))

pub build_si : (buf : Memory) (p : BuildParams) → (build buf p).0 2 ≡ p.si
build_si buf p = by_mode p.mode refl
  where
    by_mode : (mode : SecurityMode) → p.mode ≡ mode → (build buf p).0 2 ≡ p.si
    by_mode sec_none e = unfold build in rw e refl
    by_mode _ e = unfold build in rw e refl
