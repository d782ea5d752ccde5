-- ===== src/RSession/Security.antt =====
-- src/common/r_session.cpp: `seal` applies the security trailer, `unseal` verifies it and, for GCM,
-- decrypts in place. Both return the C++ result with the buffer. What a failed call of the backend leaves
-- in the place of its result is not modelled: the bytes stay as they were, and no theorem depends on them.
pub mod RoundTrip
pub mod Encrypted
pub mod Wire
use process_bus.Prelude.{
  ℕ, ◌+◌, ◌<◌, ◌≡◌, Bool, true, false, not, ◌&&◌, ◌||◌, Option, none, some, List, ltb, ◌==◌,
  if◌then◌else◌,
}
use process_bus.Memory.{Memory, put_u8, get_u32, slice, write}
use process_bus.RSession.Crypto.{Crypto, derive_iv, verify_hmac}
use process_bus.RSession.Layout.{
  SecurityMode, sec_none, sec_hmac, sec_gcm, off_iv, off_iv_length, off_key_id, off_spdu_number,
  payload_hdr_offset, signature_tag, tag_size, trailer_bytes, iv_len_gcm,
}
use process_bus.RSession.{SessionHeader}

-- The end of the payload elements, which start after the payload length field.
abbrev pub payload_end : ℕ → ℕ → ℕ
payload_end ph_off payload_length = ph_off + 4 + payload_length

-- The trailer's tag byte and length byte.
abbrev pub mark_trailer : Memory → ℕ → Memory
mark_trailer buf at = put_u8 (put_u8 buf at signature_tag) (at + 1) tag_size

abbrev pub seal_hmac : Memory → Crypto → ℕ → Bool × Memory
seal_hmac buf c at = elim (c.hmac (slice buf 0 at)) [
  | none ↦ (false, buf)
  | some tag ↦ (true, write buf (at + 2) tag)
]

-- The IV of this packet, from the key id and the SPDU number in the header.
abbrev pub put_iv : Memory → Memory
put_iv buf = write buf off_iv (derive_iv (get_u32 buf off_key_id) (get_u32 buf off_spdu_number))

abbrev pub seal_gcm : Memory → Crypto → ℕ → ℕ → ℕ → Bool × Memory
seal_gcm buf c iv_len start size =
    elim (c.encrypt (slice buf off_iv iv_len) (slice buf 0 start) (slice buf start size)) [
      | none ↦ (false, buf)
      | some (cipher, tag) ↦ (true, write (write buf start cipher) (start + size + 2) tag)
    ]

abbrev pub seal_marked : Memory → SecurityMode → Crypto → ℕ → ℕ → ℕ → Bool × Memory
seal_marked buf sec_gcm c iv_len start size = seal_gcm (put_iv buf) c iv_len start size
seal_marked buf _ c iv_len start size = seal_hmac buf c (start + size)

unfoldable pub seal : Memory → SecurityMode → Crypto → Bool × Memory
seal buf sec_none c = (true, buf)
seal buf mode c =
    let iv_len = buf off_iv_length in
    let ph_off = payload_hdr_offset iv_len in
    let payload_length = get_u32 buf ph_off in
    seal_marked (mark_trailer buf (payload_end ph_off payload_length)) mode c iv_len (ph_off + 4)
      payload_length

abbrev pub unseal_gcm : Memory → SessionHeader → Crypto → ℕ → ℕ → Bool × Memory
unseal_gcm buf session c start at =
    if not (session.iv_length == iv_len_gcm) || not (buf (at + 1) == tag_size)
    then (false, buf)
    else elim session.iv [
      | none ↦ (false, buf)
      | some iv ↦
          elim (c.decrypt (slice buf iv session.iv_length) (slice buf 0 start)
            (slice buf start session.payload_length) (slice buf (at + 2) tag_size)) [
              | none ↦ (false, buf)
              | some plain ↦ (true, write buf start plain)
            ]
    ]

abbrev pub unseal_marked : Memory → SecurityMode → SessionHeader → Crypto → ℕ → ℕ → Bool × Memory
unseal_marked buf sec_gcm session c start at = unseal_gcm buf session c start at
unseal_marked buf _ session c start at =
    (verify_hmac c (slice buf 0 at) (slice buf (at + 2) tag_size), buf)

unfoldable pub unseal : Memory → ℕ → SecurityMode → SessionHeader → Crypto → Bool × Memory
unseal buf size sec_none session c = (true, buf)
unseal buf size mode session c =
    let ph_off = payload_hdr_offset session.iv_length in
    let at = payload_end ph_off session.payload_length in
    if ltb size (at + trailer_bytes) || not (buf at == signature_tag)
    then (false, buf)
    else unseal_marked buf mode session c (ph_off + 4) at
