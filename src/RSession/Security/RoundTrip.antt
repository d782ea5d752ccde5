-- ===== src/RSession/Security/RoundTrip.antt =====
-- What `seal` protects, `unseal` accepts and restores.
use process_bus.Prelude.{
  ℕ, ◌+◌, ◌≤◌, ◌≡◌, refl, ap, inl, inr, Bool, true, some, List, length, arith, Option-cases,
}
use process_bus.Memory.{Memory, get_u32, slice, write}
use process_bus.Memory.Frames.{Agree, slice-eq, write-below, slice-write}
use process_bus.RSession.Crypto.{Crypto, IsSound}
use process_bus.RSession.Crypto.Verify.{verify_hmac_iff}
use process_bus.RSession.Layout.{sec_hmac}
use process_bus.RSession.{SessionHeader, header_of}
use process_bus.RSession.Security.{seal, unseal, mark_trailer, seal_hmac}

module _ (c : Crypto) (sound : IsSound c) where
  unseal_hmac_accepts :
      (out : Memory) (size at : ℕ) (s : SessionHeader) (tag : List ℕ)
      → 27 + s.iv_length + 4 + s.payload_length ≡ at
      → at + 18 ≤ size
      → out at ≡ 0x85
      → c.hmac (slice out 0 at) ≡ some tag
      → slice out (at + 2) 16 ≡ tag
      → unseal out size sec_hmac s c ≡ (true, out)
  unfolding unseal
  unseal_hmac_accepts out size at s tag e fits mark h t =
      let (len, bytes) = sound.hmac_shape (slice out 0 at) tag h in
      ground (arith, t, (verify_hmac_iff c (slice out 0 at) tag sound len bytes).1 h)

-- Where the payload elements of the frame end.
abbrev sealed_end : Memory → ℕ
sealed_end buf = 27 + buf 26 + 4 + get_u32 buf (27 + buf 26)

sealed_end-agree :
    (out buf : Memory) (at : ℕ)
    → sealed_end buf ≡ at
    → Agree at out buf
    → 27 + out 26 + 4 + get_u32 out (27 + buf 26) ≡ at
sealed_end-agree out buf at e h =
    ground
      (arith, h 26, h (27 + buf 26), h (27 + buf 26 + 1), h (27 + buf 26 + 2), h (27 + buf 26 + 3))

slice_front : (m m' : Memory) (n : ℕ) → Agree n m m' → slice m 0 n ≡ slice m' 0 n
slice_front m m' n h = slice-eq n 0 m m' (λ i lo hi. h i (omega arith))

marked_below : (buf : Memory) (at : ℕ) → Agree at (mark_trailer buf at) buf
marked_below buf at i h = ground arith

tagged_below :
    (buf : Memory) (at : ℕ) (tag : List ℕ) → Agree at (write (mark_trailer buf at) (at + 2) tag) buf
tagged_below buf at tag i h = ground (arith, write-below tag (mark_trailer buf at) (at + 2) i)

read_tag : (m : Memory) (p : ℕ) (tag : List ℕ) → length tag ≡ 16 → slice (write m p tag) p 16 ≡ tag
read_tag m p tag e = rw (← e) (slice-write tag m p)

pub seal_hmac-cases :
    (b out : Memory) (c : Crypto) (at : ℕ)
    → seal_hmac b c at ≡ (true, out)
    → (tag : List ℕ) × (c.hmac (slice b 0 at) ≡ some tag) × (write b (at + 2) tag ≡ out)
seal_hmac-cases b out c at e = elim (Option-cases (c.hmac (slice b 0 at))) [
  | inl x ↦ cc (rw (x, seal_hmac) at e)
  | inr (tag, x) ↦ (tag, x, ap (λ (r : Bool × Memory). r.1) (rw (x, seal_hmac) at e))
]

module _ (c : Crypto) (sound : IsSound c) where
  sealed_hmac :
      (buf : Memory) (size at : ℕ) (tag : List ℕ)
      → sealed_end buf ≡ at
      → at + 18 ≤ size
      → c.hmac (slice (mark_trailer buf at) 0 at) ≡ some tag
      → let out = write (mark_trailer buf at) (at + 2) tag in
        unseal out size sec_hmac (header_of out (27 + buf 26)) c ≡ (true, out)
  sealed_hmac buf size at tag e fits h =
      let marked : Memory = mark_trailer buf at in
      let out : Memory = write marked (at + 2) tag in
      let below : Agree at out buf = tagged_below buf at tag in
      unseal_hmac_accepts c sound out size at (header_of out (27 + buf 26)) tag
        (sealed_end-agree out buf at e below) fits
        (ground (arith, write-below tag marked (at + 2) at))
        (rw (slice_front out marked at (λ i lt. write-below tag marked (at + 2) i (omega arith))) h)
        (read_tag marked (at + 2) tag (sound.hmac_shape (slice marked 0 at) tag h).0)

  -- A frame that `seal` signed is verified by `unseal`, and its bytes up to the trailer are as they
  -- were, for any buffer with room for the trailer.
  pub unseal-seal_hmac :
      (buf out : Memory) (size : ℕ)
      → sealed_end buf + 18 ≤ size
      → seal buf sec_hmac c ≡ (true, out)
      → (unseal out size sec_hmac (header_of out (27 + buf 26)) c ≡ (true, out))
        × Agree (sealed_end buf) out buf
  unfolding seal
  unseal-seal_hmac buf out size fits e =
      let at : ℕ = sealed_end buf in
      let (tag, h, w) = seal_hmac-cases (mark_trailer buf at) out c at e in
      rw (← w) (sealed_hmac buf size at tag refl fits h, tagged_below buf at tag)
