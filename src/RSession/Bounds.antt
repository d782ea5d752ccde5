-- ===== src/RSession/Bounds.antt =====
-- What the session parser has checked when it succeeds, and how far it reads.
use process_bus.Prelude.{ℕ, ◌+◌, ◌≤◌, ◌≡◌, ◌⊎◌, arith}
use process_bus.Prelude.Result.{ok}
use process_bus.Memory.{Memory}
use process_bus.Memory.Frames.{Agree}
use process_bus.RSession.{SessionHeader, parse_session, header_of}

-- What a caller may rely on after a successful `parse_session`.
pub record Accepted (buf : Memory) (size ph_off : ℕ) (s : SessionHeader) : Type 0 where
  pub si_known : (s.si ≡ 0xa1) ⊎ (s.si ≡ 0xa2)
  pub version_two : s.version ≡ 2
  pub header_at : ph_off ≡ 27 + s.iv_length
  pub header_fits : ph_off + 10 ≤ size
  pub elements : 6 ≤ s.payload_length
  pub payload_fits : ph_off + 4 + s.payload_length ≤ size
  pub fields : s ≡ header_of buf ph_off

-- A session header that the parser accepts is of a known kind and of version 2, its payload header
-- and its payload elements lie within the buffer, and each field is the one in the buffer.
pub parse_session-Accepted :
    (buf : Memory) (size ph_off : ℕ) (s : SessionHeader)
    → parse_session buf size ≡ ok (ph_off, s)
    → Accepted buf size ph_off s
unfolding parse_session
parse_session-Accepted buf size ph_off s e = ground arith

-- The session parser looks at no byte from `size` on, on any branch: two buffers that agree below
-- `size` have the same outcome.
pub parse_session-agree :
    (buf buf' : Memory) (size : ℕ)
    → Agree size buf buf'
    → parse_session buf size ≡ parse_session buf' size
unfolding parse_session
parse_session-agree buf buf' size h = ground (
  arith,
  h 0,
  h 1,
  h 2,
  h 4,
  h 6,
  h 7,
  h 8,
  h 9,
  h 10,
  h 11,
  h 12,
  h 13,
  h 14,
  h 15,
  h 16,
  h 17,
  h 18,
  h 19,
  h 20,
  h 21,
  h 22,
  h 23,
  h 24,
  h 25,
  h 26,
  h (27 + buf 26),
  h (27 + buf 26 + 1),
  h (27 + buf 26 + 2),
  h (27 + buf 26 + 3),
)
