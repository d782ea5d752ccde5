-- ===== src/Generator/Routable/Headers.antt =====
-- The headers of an amended packet are those of a session that is built for it.
use process_bus.Prelude.{ℕ, ◌+◌, ◌-◌, ◌≤◌, ◌<◌, ◌≡◌, ◌⊎◌, inl, inr, refl, sym, ap, ◌∙◌, arith}
use std.Path.{fun_ext}
use mathlib.Core.Path.{subst}
use process_bus.Memory.{Memory, put_u16, put_u32, get_u32}
use process_bus.Memory.Frames.{Each, each_at, write-below, write-inside}
use process_bus.RSession.Layout.{SecurityMode, sec_none, sec_hmac, sec_gcm, iv_length}
use process_bus.RSession.{BuildParams, build}
use process_bus.RSession.Crypto.{Crypto, derive_iv}
use process_bus.RSession.Security.{seal, seal_gcm, put_iv, mark_trailer}
use process_bus.RSession.Security.Encrypted.{put_iv-above}
use process_bus.RSession.Security.Wire.{build_apdu}
use process_bus.Generator.Routable.{FrameKind, skeleton_params}

-- What is built for a packet.
abbrev pub packet_params : FrameKind → SecurityMode → ℕ → ℕ → ℕ → BuildParams
packet_params kind mode n spdu appid = record (skeleton_params kind mode n) {
  spdu_number = spdu;
  appid = appid;
}

-- An offset in the session header outside the number of the packet.
abbrev pub Fixed : ℕ → Type 0
Fixed i = (i < 10) ⊎ ((14 ≤ i) × (i < 27))

module _ (kind : FrameKind) (n : ℕ) (b b' : Memory) (spdu appid spdu' appid' : ℕ) where
  -- The two sessions at an offset.
  SameAt : SecurityMode → ℕ → Type 0
  SameAt mode i =
      (build b (packet_params kind mode n spdu appid)).0 i
      ≡ (build b' (packet_params kind mode n spdu' appid')).0 i

  fixed-Each : (mode : SecurityMode) → Each (SameAt mode) 0 10 × Each (SameAt mode) 14 13
  unfolding build SameAt
  fixed-Each sec_none = (
    (refl, (refl, (refl, (refl, (refl, (refl, (refl, (refl, (refl, (refl, tt)))))))))),
    (
      refl,
      (
        refl,
        (refl, (refl, (refl, (refl, (refl, (refl, (refl, (refl, (refl, (refl, (refl, tt))))))))))),
      ),
    ),
  )
  fixed-Each sec_hmac = (
    (refl, (refl, (refl, (refl, (refl, (refl, (refl, (refl, (refl, (refl, tt)))))))))),
    (
      refl,
      (
        refl,
        (refl, (refl, (refl, (refl, (refl, (refl, (refl, (refl, (refl, (refl, (refl, tt))))))))))),
      ),
    ),
  )
  fixed-Each sec_gcm = (
    (refl, (refl, (refl, (refl, (refl, (refl, (refl, (refl, (refl, (refl, tt)))))))))),
    (
      refl,
      (
        refl,
        (refl, (refl, (refl, (refl, (refl, (refl, (refl, (refl, (refl, (refl, (refl, tt))))))))))),
      ),
    ),
  )

  pub build-Fixed :
      (mode : SecurityMode) (i : ℕ)
      → Fixed i
      → (build b (packet_params kind mode n spdu appid)).0 i
        ≡ (build b' (packet_params kind mode n spdu' appid')).0 i
  unfolding SameAt
  build-Fixed mode i (inl h) = each_at (SameAt mode) 0 10 i (omega arith) h (fixed-Each mode).0
  build-Fixed mode i (inr (lo, hi)) = each_at (SameAt mode) 14 13 i lo hi (fixed-Each mode).1

  -- The same from the payload header on.
  SameFrom : SecurityMode → ℕ → Type 0
  SameFrom mode j = SameAt mode (27 + iv_length mode + j)

  element-Each : (mode : SecurityMode) → Each (SameFrom mode) 0 6 × Each (SameFrom mode) 8 2
  unfolding build SameAt SameFrom
  element-Each sec_none = ((refl, (refl, (refl, (refl, (refl, (refl, tt)))))), (refl, (refl, tt)))
  element-Each sec_hmac = ((refl, (refl, (refl, (refl, (refl, (refl, tt)))))), (refl, (refl, tt)))
  element-Each sec_gcm = ((refl, (refl, (refl, (refl, (refl, (refl, tt)))))), (refl, (refl, tt)))

  pub build-Element :
      (mode : SecurityMode) (j : ℕ)
      → (j < 6) ⊎ ((8 ≤ j) × (j < 10))
      → (build b (packet_params kind mode n spdu appid)).0 (27 + iv_length mode + j)
        ≡ (build b' (packet_params kind mode n spdu' appid')).0 (27 + iv_length mode + j)
  unfolding SameAt SameFrom
  build-Element mode j (inl h) = each_at (SameFrom mode) 0 6 j (omega arith) h (element-Each mode).0
  build-Element mode j (inr (lo, hi)) = each_at (SameFrom mode) 8 2 j lo hi (element-Each mode).1

-- The four bytes of a session number, and the two of an APPID.
abbrev pub number_bytes : ℕ → Memory
number_bytes spdu = put_u32 (λ i. 0) 0 spdu

abbrev pub appid_bytes : ℕ → Memory
appid_bytes appid = put_u16 (λ i. 0) 0 appid

module _ (kind : FrameKind) (n : ℕ) (b : Memory) (spdu appid : ℕ) where
  NumberAt : SecurityMode → ℕ → Type 0
  NumberAt mode j =
      (build b (packet_params kind mode n spdu appid)).0 (10 + j) ≡ number_bytes spdu j

  number-Each : (mode : SecurityMode) → Each (NumberAt mode) 0 4
  unfolding build NumberAt put_u32
  number-Each sec_none = (refl, (refl, (refl, (refl, tt))))
  number-Each sec_hmac = (refl, (refl, (refl, (refl, tt))))
  number-Each sec_gcm = (refl, (refl, (refl, (refl, tt))))

  AppidAt : SecurityMode → ℕ → Type 0
  AppidAt mode j =
      (build b (packet_params kind mode n spdu appid)).0 (27 + iv_length mode + 6 + j)
      ≡ appid_bytes appid j

  appid-Each : (mode : SecurityMode) → Each (AppidAt mode) 0 2
  unfolding build AppidAt put_u16
  appid-Each sec_none = (refl, (refl, tt))
  appid-Each sec_hmac = (refl, (refl, tt))
  appid-Each sec_gcm = (refl, (refl, tt))

-- A datagram whose headers are those of a session built once, with the number and the APPID patched.
pub record Patched (kind : FrameKind) (mode : SecurityMode) (n spdu appid : ℕ) (b t : Memory)
    : Type 0 where
  pub fixed : (i : ℕ) → Fixed i → t i ≡ (build b (packet_params kind mode n 0 0)).0 i
  pub number : (j : ℕ) → j < 4 → t (10 + j) ≡ number_bytes spdu j
  pub element :
      (j : ℕ)
      → (j < 6) ⊎ ((8 ≤ j) × (j < 10))
      → t (27 + iv_length mode + j)
        ≡ (build b (packet_params kind mode n 0 0)).0 (27 + iv_length mode + j)
  pub appid_field : (j : ℕ) → j < 2 → t (27 + iv_length mode + 6 + j) ≡ appid_bytes appid j

-- On which side of `a` an offset is.
pub side_of : (i a : ℕ) → (i < a) ⊎ (a ≤ i)
side_of i a = omega arith

pub words_same :
    (m m' : Memory) (p : ℕ)
    → ((i : ℕ) → p ≤ i → i < p + 4 → m i ≡ m' i)
    → get_u32 m p ≡ get_u32 m' p
words_same m m' p h = ground (arith, h p, h (p + 1), h (p + 2), h (p + 3))

-- The IV of a packet hides what stands in its place.
put_iv-like : (m m' : Memory) → ((i : ℕ) → (i < 27) ⊎ (39 ≤ i) → m i ≡ m' i) → put_iv m ≡ put_iv m'
unfolding derive_iv
put_iv-like m m' h = fun_ext (λ i. elim (side_of i 27) [
  | inl low ↦
      write-below (derive_iv (get_u32 m 22) (get_u32 m 10)) m 27 i low
      ∙ h i (inl low)
      ∙ sym (write-below (derive_iv (get_u32 m' 22) (get_u32 m' 10)) m' 27 i low)
  | inr far ↦ elim (side_of i 39) [
    | inl near ↦
        let e = words_same m m' 22 (λ k lo hi. h k (inl (omega arith))) in
        let e' = words_same m m' 10 (λ k lo hi. h k (inl (omega arith))) in
        rw (put_iv, e, e')
          (write-inside (derive_iv (get_u32 m' 22) (get_u32 m' 10)) m m' 27 i far near)
    | inr high ↦ put_iv-above m i high ∙ h i (inr high) ∙ sym (put_iv-above m' i high)
  ]
])

seal_gcm-like :
    (m m' : Memory) (c : Crypto)
    → m 26 ≡ 12
    → ((i : ℕ) → (i < 27) ⊎ (39 ≤ i) → m i ≡ m' i)
    → seal m sec_gcm c ≡ seal m' sec_gcm c
unfolding seal
seal_gcm-like m m' c e h =
    let e' : m' 26 ≡ 12 = sym (h 26 (inl (omega arith))) ∙ e in
    let len = words_same m m' 39 (λ k lo hi. h k (inr lo)) in
    let at : ℕ = 43 + get_u32 m' 39 in
    let marked =
      put_iv-like (mark_trailer m at) (mark_trailer m' at) (λ i k. ground (arith, h i k)) in
    rw (e, e', len) (ap (λ (b : Memory). seal_gcm b c 12 43 (get_u32 m' 39)) marked)

module _ (kind : FrameKind) (mode : SecurityMode) (n spdu appid : ℕ) (b t : Memory)
    (h : Patched kind mode n spdu appid b t) where
  abbrev rebuilt : Memory
  rebuilt = (build t (packet_params kind mode n spdu appid)).0

  session_same : (i : ℕ) → i < 27 → t i ≡ rebuilt i
  unfolding NumberAt
  session_same i lt = elim (side_of i 10) [
    | inl low ↦ h.fixed i (inl low) ∙ build-Fixed kind n b t 0 0 spdu appid mode i (inl low)
    | inr far ↦ elim (side_of i 14) [
      | inl near ↦
          let e : 10 + (i - 10) ≡ i = omega arith in
          subst (λ k. t k ≡ (build t (packet_params kind mode n spdu appid)).0 k) e
            (h.number (i - 10) (omega arith)
              ∙ sym (
                  each_at (NumberAt kind n t spdu appid mode) 0 4 (i - 10) (omega arith)
                    (omega arith) (number-Each kind n t spdu appid mode)))
      | inr high ↦
          h.fixed i (inr (high, lt)) ∙ build-Fixed kind n b t 0 0 spdu appid mode i (inr (high, lt))
    ]
  ]

  payload_same : (j : ℕ) → j < 10 → t (27 + iv_length mode + j) ≡ rebuilt (27 + iv_length mode + j)
  unfolding AppidAt
  payload_same j lt = elim (side_of j 6) [
    | inl low ↦ h.element j (inl low) ∙ build-Element kind n b t 0 0 spdu appid mode j (inl low)
    | inr far ↦ elim (side_of j 8) [
      | inl near ↦
          let e : 27 + iv_length mode + 6 + (j - 6) ≡ 27 + iv_length mode + j = omega arith in
          subst (λ k. t k ≡ (build t (packet_params kind mode n spdu appid)).0 k) e
            (h.appid_field (j - 6) (omega arith)
              ∙ sym (
                  each_at (AppidAt kind n t spdu appid mode) 0 2 (j - 6) (omega arith) (omega arith)
                    (appid-Each kind n t spdu appid mode)))
      | inr high ↦
          h.element j (inr (high, lt))
          ∙ build-Element kind n b t 0 0 spdu appid mode j (inr (high, lt))
    ]
  ]

  outside_iv : (i : ℕ) → (i < 27) ⊎ (27 + iv_length mode ≤ i) → t i ≡ rebuilt i
  outside_iv i (inl low) = session_same i low
  outside_iv i (inr far) = elim (side_of i (27 + iv_length mode + 10)) [
    | inl near ↦
        let e : 27 + iv_length mode + (i - (27 + iv_length mode)) ≡ i = omega arith in
        subst (λ k. t k ≡ (build t (packet_params kind mode n spdu appid)).0 k) e
          (payload_same (i - (27 + iv_length mode)) (omega arith))
    | inr high ↦ sym (build_apdu t (packet_params kind mode n spdu appid) mode i refl high)
  ]

pub built_iv_length :
    (kind : FrameKind) (mode : SecurityMode) (n : ℕ) (m : Memory)
    → (build m (packet_params kind mode n 0 0)).0 26 ≡ iv_length mode
unfolding build
built_iv_length kind sec_gcm n m = refl
built_iv_length kind _ n m = refl

-- Sealing a datagram is sealing the session that is rebuilt in its place.
pub seal-Patched :
    (kind : FrameKind) (mode : SecurityMode) (n spdu appid : ℕ) (b t : Memory) (c : Crypto)
    → Patched kind mode n spdu appid b t
    → seal t mode c ≡ seal (build t (packet_params kind mode n spdu appid)).0 mode c
seal-Patched kind sec_none n spdu appid b t c h =
    ap (λ (m : Memory). seal m sec_none c)
      (fun_ext (λ i. outside_iv kind sec_none n spdu appid b t h i (omega arith)))
seal-Patched kind sec_hmac n spdu appid b t c h =
    ap (λ (m : Memory). seal m sec_hmac c)
      (fun_ext (λ i. outside_iv kind sec_hmac n spdu appid b t h i (omega arith)))
seal-Patched kind sec_gcm n spdu appid b t c h =
    seal_gcm-like t (build t (packet_params kind sec_gcm n spdu appid)).0 c
      (h.fixed 26 (inr (omega arith, omega arith)) ∙ built_iv_length kind sec_gcm n b)
      (λ i k. outside_iv kind sec_gcm n spdu appid b t h i k)
