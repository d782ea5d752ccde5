-- ===== src/RSession/Security/Wire.antt =====
-- A session that is built, sealed and sent is the one that the receiver reads, in every security mode.
use process_bus.Prelude.{ℕ, ◌+◌, ◌≤◌, ◌<◌, ◌≡◌, refl, ap, ◌∙◌, inl, inr, Bool, true, arith}
use process_bus.Prelude.Result.{ok}
use process_bus.Memory.{Memory, get_u32}
use process_bus.RSession.Crypto.{Crypto, IsSound}
use process_bus.RSession.Layout.{
  SecurityMode, sec_none, sec_hmac, sec_gcm, apdu_offset, iv_length, udp_payload_size,
}
use process_bus.RSession.{
  SessionHeader, BuildParams, FitsFields, build, parse_session, parse_payload, header_of,
}
use process_bus.RSession.RoundTrip.{
  built_session, built_payload, IsKnown, built_bytes, header_of-build, parse_session-accepts,
  payload_of-build,
}
use process_bus.RSession.Security.{seal, unseal}
use process_bus.RSession.Security.RoundTrip.{unseal-seal_hmac}
use process_bus.RSession.Security.Encrypted.{unseal-seal_gcm, seal_gcm-headers, put_iv-above}

-- What the receiver makes of the frame `out`.
pub record Received (buf : Memory) (p : BuildParams) (size : ℕ) (c : Crypto) (out plain : Memory)
    : Type 0 where
  pub header : parse_session out size ≡ ok (27 + iv_length p.mode, built_session p)
  pub opened : unseal out size p.mode (built_session p) c ≡ (true, plain)
  pub payload :
      parse_payload plain size (built_session p)
      ≡ ok (apdu_offset (iv_length p.mode), built_payload p)
  pub apdu :
      (i : ℕ)
      → i < p.apdu_length
      → plain (apdu_offset (iv_length p.mode) + i) ≡ buf (apdu_offset (iv_length p.mode) + i)

pub build_apdu :
    (buf : Memory) (p : BuildParams) (mode : SecurityMode) (i : ℕ)
    → p.mode ≡ mode
    → apdu_offset (iv_length p.mode) ≤ i
    → (build buf p).0 i ≡ buf i
unfolding build
build_apdu buf p sec_none i e h = rw e (ground (arith, e))
build_apdu buf p _ i e h = rw e (ground (arith, e))

header_of-like :
    (out b : Memory) (ph : ℕ)
    → ((i : ℕ) → i < 27 → out i ≡ b i)
    → ((i : ℕ) → ph ≤ i → i < ph + 4 → out i ≡ b i)
    → header_of out ph ≡ header_of b ph
header_of-like out b ph h k = ground (
  arith,
  h 2,
  h 6,
  h 7,
  h 8,
  h 9,
  h 10,
  h 11,
  h 12,
  h 13,
  h 14,
  h 15,
  h 16,
  h 17,
  h 18,
  h 19,
  h 20,
  h 21,
  h 22,
  h 23,
  h 24,
  h 25,
  h 26,
  k ph,
  k (ph + 1),
  k (ph + 2),
  k (ph + 3),
)

parse_payload-like :
    (m b : Memory) (size : ℕ) (s : SessionHeader)
    → ((i : ℕ) → 27 + s.iv_length ≤ i → i < 27 + s.iv_length + 10 → m i ≡ b i)
    → parse_payload m size s ≡ parse_payload b size s
unfolding parse_payload
parse_payload-like m b size s h =
    let q : ℕ = 27 + s.iv_length in
    ground (arith, h (q + 4), h (q + 5), h (q + 6), h (q + 7), h (q + 8), h (q + 9))

-- A frame with the headers of the built one, which opens to the payload of the built one.
received :
    (buf out plain : Memory) (p : BuildParams) (size : ℕ) (c : Crypto)
    → FitsFields p
    → IsKnown p
    → apdu_offset (iv_length p.mode) + p.apdu_length ≤ size
    → let b = (build buf p).0 in
      let ph = 27 + iv_length p.mode in
      ((i : ℕ) → i < 27 → out i ≡ b i)
      → ((i : ℕ) → ph ≤ i → i < ph + 4 → out i ≡ b i)
      → unseal out size p.mode (header_of out ph) c ≡ (true, plain)
      → ((i : ℕ) → ph ≤ i → i < ph + 10 + p.apdu_length → plain i ≡ b i)
      → Received buf p size c out plain
received buf out plain p size c f k fits front field opens same =
    let b : Memory = (build buf p).0 in
    let ph : ℕ = 27 + iv_length p.mode in
    let (b0, b1, b4, b26, _) = built_bytes buf p p.mode refl in
    let e : header_of out ph ≡ built_session p =
      header_of-like out b ph front field ∙ header_of-build buf p p.mode refl f in
    record {
      header =
          parse_session-accepts out size (iv_length p.mode) p.si (front 0 (omega arith) ∙ b0)
            (front 1 (omega arith) ∙ b1) (front 4 (omega arith) ∙ b4) (front 26 (omega arith) ∙ b26)
            (ap (λ (s : SessionHeader). s.si) e) k.si_known
            (ap (λ (s : SessionHeader). s.version) e)
            (omega (arith, ap (λ (s : SessionHeader). s.payload_length) e))
            (omega (arith, ap (λ (s : SessionHeader). s.payload_length) e))
          ∙ rw e;
      opened = rw (← e) opens;
      payload =
          parse_payload-like plain b size (built_session p) (λ i lo hi. same i lo (omega arith))
          ∙ payload_of-build buf p p.mode size refl f k.type_known (omega arith);
      apdu = λ i lt.
          same (ph + 10 + i) (omega arith) (omega arith)
          ∙ build_apdu buf p p.mode (ph + 10 + i) refl (omega arith);
    }

module _ (c : Crypto) (sound : IsSound c) (buf : Memory) (p : BuildParams) (f : FitsFields p)
    (k : IsKnown p) where
  sizes_of :
      (mode : SecurityMode)
      → p.mode ≡ mode
      → let b = (build buf p).0 in
        (b 26 ≡ iv_length mode) × (get_u32 b (27 + iv_length mode) ≡ 6 + p.apdu_length)
  sizes_of mode m =
      let (_, _, _, b26, _) = built_bytes buf p p.mode refl in
      let e = header_of-build buf p p.mode refl f in
      (b26 ∙ ap iv_length m, rw (← m) (ap (λ (s : SessionHeader). s.payload_length) e))

  opens_in :
      (mode : SecurityMode) (out plain : Memory) (size : ℕ)
      → p.mode ≡ mode
      → unseal out size mode (header_of out (27 + iv_length mode)) c ≡ (true, plain)
      → unseal out size p.mode (header_of out (27 + iv_length p.mode)) c ≡ (true, plain)
  opens_in mode out plain size m e = rw m e

  by_mode :
      (mode : SecurityMode) (out : Memory) (size : ℕ)
      → p.mode ≡ mode
      → udp_payload_size mode p.apdu_length ≤ size
      → seal (build buf p).0 mode c ≡ (true, out)
      → (plain : Memory) × Received buf p size c out plain
  unfolding seal unseal
  by_mode sec_none out size m fits e =
      let same : (build buf p).0 ≡ out = ap (λ (r : Bool × Memory). r.1) e in
      (
        out,
        received buf out out p size c f k (rw m (omega (arith, fits))) (λ i lt. rw same refl)
            (λ i lo hi. rw same refl) (rw m refl) (λ i lo hi. rw same refl),
      )
  by_mode sec_hmac out size m fits e =
      let b : Memory = (build buf p).0 in
      let (b26, total) = sizes_of sec_hmac m in
      let at : 27 + b 26 + 4 + get_u32 b (27 + b 26) ≡ 37 + p.apdu_length =
        rw (b26, total) (omega arith) in
      let (opens, below) = unseal-seal_hmac c sound b out size (rw at (omega (arith, fits))) e in
      let same : (i : ℕ) → i < 37 + p.apdu_length → out i ≡ b i = λ i lt. below i (rw at lt) in
      (
        out,
        received buf out out p size c f k (rw m (omega (arith, fits)))
            (λ i lt. same i (omega arith)) (λ i lo hi. same i (omega (arith, rw m at hi)))
            (rw m (rw b26 at opens)) (λ i lo hi. same i (omega (arith, rw m at hi))),
      )
  by_mode sec_gcm out size m fits e =
      let b : Memory = (build buf p).0 in
      let (b26, total) = sizes_of sec_gcm m in
      let (plain, opens, below) =
        unseal-seal_gcm c sound b size b26 out (rw total (omega (arith, fits))) e in
      let same : (i : ℕ) → 39 ≤ i → i < 49 + p.apdu_length → plain i ≡ b i =
        λ i lo hi. below i (rw total (omega (arith, hi))) ∙ put_iv-above b i lo in
      (
        plain,
        received buf out plain p size c f k (rw m (omega (arith, fits)))
            (λ i lt. seal_gcm-headers b out c i b26 e (inl lt))
            (λ i lo hi.
              seal_gcm-headers b out c i b26 e (inr (rw m at lo, omega (arith, rw m at hi))))
            (opens_in sec_gcm out plain size m opens)
            (λ i lo hi. same i (rw m at lo) (omega (arith, rw m at hi))),
      )

  -- What `build` and `seal` make of a packet, the receiver reads back in every security mode: the
  -- session header before it verifies, the verification, then the payload header and the bytes of the
  -- APDU, for a frame of a known kind whose fields fit their types.
  pub seal-Received :
      (out : Memory) (size : ℕ)
      → udp_payload_size p.mode p.apdu_length ≤ size
      → seal (build buf p).0 p.mode c ≡ (true, out)
      → (plain : Memory) × Received buf p size c out plain
  seal-Received out size fits e = by_mode p.mode out size refl fits e
