-- ===== src/Generator/Routable/Sealing.antt =====
-- `seal` with a backend whose calls succeed, and what a sealed datagram still shows.
use process_bus.Prelude.{ℕ, ◌+◌, ◌≤◌, ◌<◌, ◌≡◌, ◌⊎◌, refl, ap, arith, true, Bool, some, List}
use process_bus.Memory.{Memory, get_u32, slice}
use process_bus.RSession.Layout.{SecurityMode, sec_none, sec_hmac, sec_gcm, iv_length}
use process_bus.RSession.Crypto.{Crypto, IsSound}
use process_bus.RSession.Security.{seal, seal_hmac, seal_gcm, mark_trailer, put_iv}
use process_bus.RSession.Security.RoundTrip.{unseal-seal_hmac}
use process_bus.RSession.Security.Encrypted.{seal_gcm-headers}

-- A backend whose calls succeed.
pub record Works (c : Crypto) : Type 0 where
  pub hmac_works : (m : List ℕ) → (tag : List ℕ) × (c.hmac m ≡ some tag)
  pub encrypt_works :
      (iv aad plain : List ℕ) → (r : List ℕ × List ℕ) × (c.encrypt iv aad plain ≡ some r)

module _ (c : Crypto) (works : Works c) where
  seal_hmac_works : (buf : Memory) (at : ℕ) → (seal_hmac buf c at).0 ≡ true
  seal_hmac_works buf at = rw (seal_hmac, (works.hmac_works (slice buf 0 at)).1) refl

  seal_gcm_works : (buf : Memory) (iv start size : ℕ) → (seal_gcm buf c iv start size).0 ≡ true
  seal_gcm_works buf iv start size =
      rw
        (
          seal_gcm,
          (works.encrypt_works (slice buf 27 iv) (slice buf 0 start) (slice buf start size)).1,
        )
        refl

  pub seal_works :
      (buf : Memory) (mode : SecurityMode) → seal buf mode c ≡ (true, (seal buf mode c).1)
  unfolding seal
  seal_works buf sec_none = refl
  seal_works buf sec_hmac =
      ap (λ (b : Bool). (b, (seal buf sec_hmac c).1))
        (seal_hmac_works (mark_trailer buf (27 + buf 26 + 4 + get_u32 buf (27 + buf 26)))
          (27 + buf 26 + 4 + get_u32 buf (27 + buf 26)))
  seal_works buf sec_gcm =
      ap (λ (b : Bool). (b, (seal buf sec_gcm c).1))
        (seal_gcm_works (put_iv (mark_trailer buf (27 + buf 26 + 4 + get_u32 buf (27 + buf 26))))
          (buf 26) (27 + buf 26 + 4) (get_u32 buf (27 + buf 26)))

  -- What a sealed datagram still shows: the session header, the length field and, unless it is
  -- encrypted, the payload element.
  abbrev pub Shown : SecurityMode → ℕ → Type 0
  Shown sec_gcm i = (i < 27) ⊎ ((39 ≤ i) × (i < 43))
  Shown _ i = i < 37

  pub seal-Shown :
      (sound : IsSound c) (mode : SecurityMode) (buf : Memory) (i : ℕ)
      → buf 26 ≡ iv_length mode
      → 6 ≤ get_u32 buf (27 + iv_length mode)
      → Shown mode i
      → (seal buf mode c).1 i ≡ buf i
  seal-Shown sound sec_none buf i e l h = unfold seal in refl
  seal-Shown sound sec_hmac buf i e l h =
      let end : ℕ = 27 + buf 26 + 4 + get_u32 buf (27 + buf 26) in
      (unseal-seal_hmac c sound buf (seal buf sec_hmac c).1 (end + 18) (omega arith)
          (seal_works buf sec_hmac)).1
        i (rw e (omega (arith, h, l)))
  seal-Shown sound sec_gcm buf i e l h =
      seal_gcm-headers buf (seal buf sec_gcm c).1 c i e (seal_works buf sec_gcm) h
