-- ===== src/RSession/Security/Encrypted.antt =====
-- What `seal` encrypts, `unseal` restores.
use process_bus.Prelude.{
  ℕ, ◌+◌, ◌≤◌, ◌<◌, ◌≡◌, refl, ap, ◌∙◌, ◌⊎◌, inl, inr, Bool, true, some, List, length, arith,
  Option-cases,
}
use process_bus.Memory.{Memory, get_u32, slice, write}
use process_bus.Memory.Frames.{
  Agree, slice-eq, write-below, write-above, slice-write, length-slice, write-slice, write-cong,
}
use process_bus.RSession.Crypto.{Crypto, IsSound, derive_iv}
use process_bus.RSession.Layout.{sec_gcm}
use process_bus.RSession.{header_of}
use process_bus.RSession.Security.{seal, unseal, mark_trailer, put_iv, seal_gcm}

put_iv-below : (m : Memory) (i : ℕ) → i < 27 → put_iv m i ≡ m i
put_iv-below m i h = write-below (derive_iv (get_u32 m 22) (get_u32 m 10)) m 27 i h

pub put_iv-above : (m : Memory) (i : ℕ) → 39 ≤ i → put_iv m i ≡ m i
unfolding derive_iv
put_iv-above m i h = write-above (derive_iv (get_u32 m 22) (get_u32 m 10)) m 27 i h

-- The buffer that is encrypted, and the frame that leaves.
abbrev staged : Memory → ℕ → Memory
staged buf at = put_iv (mark_trailer buf at)

abbrev gcm_frame : Memory → ℕ → List ℕ → List ℕ → Memory
gcm_frame buf at cipher tag = write (write (staged buf at) 43 cipher) (at + 2) tag

staged-put_iv : (buf : Memory) (at i : ℕ) → 43 ≤ at → i < at → staged buf at i ≡ put_iv buf i
staged-put_iv buf at i lo h =
    ground (
      arith,
      write-cong (derive_iv (get_u32 buf 22) (get_u32 buf 10)) (mark_trailer buf at) buf 27 i,
    )

module _ (buf : Memory) (at size : ℕ) (cipher tag : List ℕ) (e : 43 + get_u32 buf 39 ≡ at)
    (len : length cipher ≡ get_u32 buf 39) where
  frame_front : (i : ℕ) → i < 43 → gcm_frame buf at cipher tag i ≡ staged buf at i
  frame_front i h = ground (
    arith,
    write-below tag (write (staged buf at) 43 cipher) (at + 2) i,
    write-below cipher (staged buf at) 43 i,
  )

  frame_cipher : slice (gcm_frame buf at cipher tag) 43 (get_u32 buf 39) ≡ cipher
  frame_cipher =
      slice-eq (get_u32 buf 39) 43 (gcm_frame buf at cipher tag) (write (staged buf at) 43 cipher)
        (λ i lo hi. write-below tag (write (staged buf at) 43 cipher) (at + 2) i (omega arith))
      ∙ rw (← len) (slice-write cipher (staged buf at) 43)

  frame_trailer : (i : ℕ) → at ≤ i → i < at + 2 → gcm_frame buf at cipher tag i ≡ staged buf at i
  frame_trailer i lo hi = ground (
    arith,
    write-below tag (write (staged buf at) 43 cipher) (at + 2) i,
    write-above cipher (staged buf at) 43 i,
  )

  frame_marks :
      (gcm_frame buf at cipher tag at ≡ 0x85) × (gcm_frame buf at cipher tag (at + 1) ≡ 16)
  frame_marks = ground (
    arith,
    frame_trailer at,
    frame_trailer (at + 1),
    put_iv-above (mark_trailer buf at) at,
    put_iv-above (mark_trailer buf at) (at + 1),
  )

  frame_sizes :
      buf 26 ≡ 12
      → (gcm_frame buf at cipher tag 26 ≡ 12)
        × (get_u32 (gcm_frame buf at cipher tag) 39 ≡ get_u32 buf 39)
  frame_sizes iv = ground (
    arith,
    frame_front 26,
    frame_front 39,
    frame_front 40,
    frame_front 41,
    frame_front 42,
    staged-put_iv buf at 26,
    put_iv-below buf 26,
    put_iv-above (mark_trailer buf at) 39,
    put_iv-above (mark_trailer buf at) 40,
    put_iv-above (mark_trailer buf at) 41,
    put_iv-above (mark_trailer buf at) 42,
  )

  -- Decryption gives back the plaintext under the IV of the packet.
  frame_plain :
      (i : ℕ)
      → i < at
      → write (gcm_frame buf at cipher tag) 43 (slice (staged buf at) 43 (get_u32 buf 39)) i
        ≡ put_iv buf i
  frame_plain i h = ground (
    arith,
    write-slice (get_u32 buf 39) 43 i (gcm_frame buf at cipher tag) (staged buf at),
    write-below (slice (staged buf at) 43 (get_u32 buf 39)) (gcm_frame buf at cipher tag) 43 i,
    frame_front i,
    staged-put_iv buf at i,
  )

unseal_gcm_accepts :
    (out : Memory) (size at length_field : ℕ) (c : Crypto) (plain : List ℕ)
    → out 26 ≡ 12
    → get_u32 out 39 ≡ length_field
    → 43 + length_field ≡ at
    → at + 18 ≤ size
    → out at ≡ 0x85
    → out (at + 1) ≡ 16
    → c.decrypt
        (slice out 27 12)
        (slice out 0 43)
        (slice out 43 length_field)
        (slice out (at + 2) 16)
      ≡ some plain
    → unseal out size sec_gcm (header_of out 39) c ≡ (true, write out 43 plain)
unfolding unseal
unseal_gcm_accepts out size at length_field c plain iv l e fits mark one d = ground arith

pub seal_gcm-cases :
    (b out : Memory) (c : Crypto) (start size : ℕ)
    → seal_gcm b c 12 start size ≡ (true, out)
    → (cipher tag : List ℕ) × (c.encrypt (slice b 27 12) (slice b 0 start) (slice b start size)
        ≡ some (cipher, tag))
      × (write (write b start cipher) (start + size + 2) tag ≡ out)
seal_gcm-cases b out c start size e =
    elim (Option-cases (c.encrypt (slice b 27 12) (slice b 0 start) (slice b start size))) [
      | inl x ↦ cc (rw (x, seal_gcm) at e)
      | inr ((cipher, tag), x) ↦
          (cipher, tag, x, ap (λ (r : Bool × Memory). r.1) (rw (x, seal_gcm) at e))
    ]

-- Encryption leaves the headers in clear; only the IV changes.
pub seal_gcm-headers :
    (buf out : Memory) (c : Crypto) (i : ℕ)
    → buf 26 ≡ 12
    → seal buf sec_gcm c ≡ (true, out)
    → (i < 27) ⊎ ((39 ≤ i) × (i < 43))
    → out i ≡ buf i
unfolding seal
seal_gcm-headers buf out c i iv e part =
    let at : ℕ = 43 + get_u32 buf 39 in
    let (cipher, tag, x, w) =
      seal_gcm-cases (staged buf at) out c 43 (get_u32 buf 39) (rw iv at e) in
    rw (← w) (
      ground (
        arith,
        part,
        write-below tag (write (staged buf at) 43 cipher) (at + 2) i,
        write-below cipher (staged buf at) 43 i,
        put_iv-below (mark_trailer buf at) i,
        put_iv-above (mark_trailer buf at) i,
      ))

module _ (c : Crypto) (sound : IsSound c) (buf : Memory) (size : ℕ) (iv : buf 26 ≡ 12) where
  sealed_gcm :
      (at : ℕ) (cipher tag : List ℕ)
      → 43 + get_u32 buf 39 ≡ at
      → at + 18 ≤ size
      → c.encrypt
          (slice (staged buf at) 27 12)
          (slice (staged buf at) 0 43)
          (slice (staged buf at) 43 (get_u32 buf 39))
        ≡ some (cipher, tag)
      → let out = gcm_frame buf at cipher tag in
        (plain : Memory) × (unseal out size sec_gcm (header_of out 39) c ≡ (true, plain))
        × Agree at plain (put_iv buf)
  sealed_gcm at cipher tag e fits x = (
    write out 43 (slice (staged buf at) 43 (get_u32 buf 39)),
    unseal_gcm_accepts out size at (get_u32 buf 39) c _ sizes.0 sizes.1 e fits marks.0 marks.1 (
        rw
          (
            front 27 12 (omega arith),
            front 0 43 (omega arith),
            frame_cipher buf at size cipher tag e len,
            read,
          )
          (sound.decrypt-encrypt _ _ _ cipher tag x)),
    frame_plain buf at size cipher tag e len,
  )
    where
      out : Memory
      out = gcm_frame buf at cipher tag

      len : length cipher ≡ get_u32 buf 39
      len =
          (sound.length-encrypt _ _ _ cipher tag x).0
          ∙ length-slice (get_u32 buf 39) 43 (staged buf at)

      sizes : (out 26 ≡ 12) × (get_u32 out 39 ≡ get_u32 buf 39)
      sizes = frame_sizes buf at size cipher tag e len iv

      marks : (out at ≡ 0x85) × (out (at + 1) ≡ 16)
      marks = frame_marks buf at size cipher tag e len

      front : (p n : ℕ) → p + n ≤ 43 → slice out p n ≡ slice (staged buf at) p n
      front p n le =
          slice-eq n p out (staged buf at)
            (λ i lo hi. frame_front buf at size cipher tag e len i (omega arith))

      read : slice out (at + 2) 16 ≡ tag
      read = rw (← (sound.length-encrypt _ _ _ cipher tag x).1) (slice-write tag _ (at + 2))

  -- A frame with a 12-byte IV field that `seal` encrypted is accepted by `unseal`, which leaves the
  -- frame as it was before encryption, with the IV of the packet, for any buffer with room for the
  -- trailer.
  pub unseal-seal_gcm :
      (out : Memory)
      → 43 + get_u32 buf 39 + 18 ≤ size
      → seal buf sec_gcm c ≡ (true, out)
      → (plain : Memory) × (unseal out size sec_gcm (header_of out 39) c ≡ (true, plain))
        × Agree (43 + get_u32 buf 39) plain (put_iv buf)
  unfolding seal
  unseal-seal_gcm out fits e =
      let at : ℕ = 43 + get_u32 buf 39 in
      let (cipher, tag, x, w) =
        seal_gcm-cases (staged buf at) out c 43 (get_u32 buf 39) (rw iv at e) in
      rw (← w) (sealed_gcm at cipher tag refl fits x)
