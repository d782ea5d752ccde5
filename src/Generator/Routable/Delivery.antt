-- ===== src/Generator/Routable/Delivery.antt =====
-- A packet of a routable generator reaches the receiver, and its buffer can be used again.
use process_bus.Prelude.{
  ℕ, ◌+◌, ◌-◌, ◌≤◌, ◌<◌, ◌≡◌, ◌≢◌, inl, inr, refl, sym, ap, ◌∙◌, arith, true, List,
}
use std.Path.{fun_ext}
use process_bus.Prelude.Result.{ok}
use process_bus.Memory.{Memory, at_offset, get_u16, get_u32}
use process_bus.Frame.{FrameConfig, build_prefix}
use process_bus.RSession.Layout.{
  SecurityMode, sec_none, sec_hmac, sec_gcm, iv_length, udp_payload_size, apdu_offset,
}
use process_bus.RSession.{SessionHeader, BuildParams, FitsFields, build}
use process_bus.RSession.RoundTrip.{IsKnown, header_of-build}
use process_bus.RSession.Crypto.{Crypto, IsSound}
use process_bus.RSession.Security.{seal}
use process_bus.RSession.Security.Wire.{seal-Received}
use process_bus.Parser.Packets.{unwrap_r_frame}
use process_bus.Parser.Packets.RoundTrip.{unwrapped, unwrap_r_frame-Received, total_of-prefix}
use process_bus.Generator.Routable.{
  FrameKind, Skeleton, skeleton_of, skeleton_params, skeleton_session, stamp, region_of, unsealed,
  appid_of_stream, finish_frame, next_plain,
}
use process_bus.Generator.Routable.Headers.{
  packet_params, Fixed, Patched, seal-Patched, words_same, built_iv_length,
}
use process_bus.Generator.Routable.Patching.{
  Carries, KeepsElement, datagram, datagram-Patched, datagram-region, amended_region, with_tail-at,
  with_tail-below, place-below, stamp-outside, element-kept, frame-header,
}
use process_bus.Generator.Routable.Sealing.{Works, Shown, seal_works, seal-Shown}

-- The plaintext of the next packet is the region of this one.
region_again :
    (mode : SecurityMode) (off j : ℕ) (region plain sent : Memory)
    → j < 6
    → (mode ≢ sec_gcm → sent (off + j) ≡ region j)
    → region_of mode off (next_plain mode region plain) sent j ≡ region j
region_again sec_gcm off j region plain sent lt h = refl
region_again sec_none off j region plain sent lt h = h (λ e. cc)
region_again sec_hmac off j region plain sent lt h = h (λ e. cc)

module _ (c : Crypto) (sound : IsSound c) (works : Works c) (kind : FrameKind) (mode : SecurityMode)
    (cfg : FrameConfig) (apdu : List ℕ) (n stream spdu : ℕ) (amend : Memory → Memory)
    (plain packet : Memory) (keeps : KeepsElement amend (appid_of_stream stream))
    (carries : Carries (skeleton_of kind mode cfg apdu n) plain packet) where
  abbrev s : Skeleton
  s = skeleton_of kind mode cfg apdu n

  abbrev params : BuildParams
  params = packet_params kind mode n spdu (appid_of_stream stream)

  abbrev t : Memory
  t = datagram kind mode cfg apdu n stream spdu amend plain packet keeps carries

  abbrev sent : Memory
  sent = finish_frame mode c (unsealed s stream spdu amend plain packet)

  abbrev out : Memory
  out = (seal t mode c).1

  sealed : seal (build t params).0 mode c ≡ (true, out)
  sealed =
      sym (
        seal-Patched kind mode n spdu (appid_of_stream stream) _ t c
          (datagram-Patched kind mode cfg apdu n stream spdu amend plain packet keeps carries))
      ∙ seal_works c works t mode

  sent-tail : (i : ℕ) → sent (42 + i) ≡ out i
  unfolding finish_frame
  sent-tail i = with_tail-at (unsealed s stream spdu amend plain packet) out i

  sent-total : (i : ℕ) → i < 2 → sent (16 + i) ≡ s.frame (16 + i)
  unfolding finish_frame
  sent-total i h =
      with_tail-below (unsealed s stream spdu amend plain packet) out (16 + i) (omega arith)
      ∙ place-below mode s.region_offset s.plain_size (16 + i)
          (amended_region kind mode cfg apdu n stream spdu amend plain packet keeps carries)
          (stamp s stream spdu packet) (omega arith)
      ∙ stamp-outside kind mode cfg apdu n stream spdu (16 + i) packet
          (inl (omega arith, omega arith))
      ∙ carries.total i h

  sent-length :
      28 + udp_payload_size mode n < 65536 → get_u16 sent 16 ≡ 28 + udp_payload_size mode n
  sent-length h = ground (
    arith,
    sent-total 0,
    sent-total 1,
    total_of-prefix (λ i. 0)
        (skeleton_session (build_prefix (λ i. 0) cfg (udp_payload_size mode n))
          (skeleton_params kind mode n) apdu)
        cfg (udp_payload_size mode n) h,
  )

  abbrev region : Memory
  region = amended_region kind mode cfg apdu n stream spdu amend plain packet keeps carries

  patched :
      Patched kind mode n spdu
        (appid_of_stream stream)
        (at_offset (build_prefix (λ i. 0) cfg (udp_payload_size mode n)) 42)
        t
  patched = datagram-Patched kind mode cfg apdu n stream spdu amend plain packet keeps carries

  module _ (fits : FitsFields params) (known : IsKnown params)
      (small : 28 + udp_payload_size mode n < 65536) where
    pub unwrap_r_frame-sent :
        (size : ℕ)
        → 42 + udp_payload_size mode n ≤ size
        → (opened : Memory) × (unwrap_r_frame sent size kind.si kind.payload_type mode c
            ≡ ok (unwrapped opened params))
          × ((i : ℕ) → i < n → opened (apdu_offset (iv_length mode) + i) ≡ region (6 + i))
    unwrap_r_frame-sent size room =
        let udp : ℕ = udp_payload_size mode n in
        let (opened, r) = seal-Received c sound t params fits known out udp (omega arith) sealed in
        (
          opened,
          unwrap_r_frame-Received sent t out opened params size udp c (fun_ext sent-tail)
              (sent-length small) (omega arith) room r,
          λ i h.
              r.apdu i h
              ∙ ap t (omega arith)
              ∙ datagram-region kind mode cfg apdu n stream spdu amend plain packet keeps carries
                  (6 + i) (omega arith),
        )

    iv_byte : t 26 ≡ iv_length mode
    iv_byte =
        patched.fixed 26 (inr (omega arith, omega arith))
        ∙ built_iv_length kind mode n
            (at_offset (build_prefix (λ i. 0) cfg (udp_payload_size mode n)) 42)

    abbrev first : Memory
    first = at_offset (build_prefix (λ i. 0) cfg (udp_payload_size mode n)) 42

    abbrev blank : BuildParams
    blank = packet_params kind mode n 0 0

    blank-FitsFields : FitsFields blank
    blank-FitsFields = record {
      si_fits = fits.si_fits;
      type_fits = fits.type_fits;
      spdu_fits = omega arith;
      key_fits = omega arith;
      appid_fits = omega arith;
      length_fits = fits.length_fits;
    }

    length_same :
        (i : ℕ)
        → 27 + iv_length mode ≤ i
        → i < 27 + iv_length mode + 4
        → t i ≡ (build first blank).0 i
    length_same i lo hi =
        let q : ℕ = 27 + iv_length mode in
        ap t (omega arith)
        ∙ patched.element (i - q) (inl (omega arith))
        ∙ ap (build first blank).0 (omega arith)

    length_word : 6 ≤ get_u32 t (27 + iv_length mode)
    length_word =
        let e = words_same t (build first blank).0 (27 + iv_length mode) length_same in
        let l =
          ap (λ (h : SessionHeader). h.payload_length)
            (header_of-build first blank mode refl blank-FitsFields) in
        omega (arith, e, l)

    shows : (i : ℕ) → Shown c works mode i → sent (42 + i) ≡ t i
    shows i h = sent-tail i ∙ seal-Shown c works sound mode t i iv_byte length_word h

    Shown-Fixed : (i : ℕ) (m : SecurityMode) → Fixed i → Shown c works m i
    Shown-Fixed i sec_gcm h = inl (omega (arith, h))
    Shown-Fixed i sec_none h = omega (arith, h)
    Shown-Fixed i sec_hmac h = omega (arith, h)

    Shown-size : (j : ℕ) (m : SecurityMode) → j < 4 → Shown c works m (27 + iv_length m + j)
    Shown-size j sec_gcm h = inr (omega arith, omega arith)
    Shown-size j sec_none h = omega arith
    Shown-size j sec_hmac h = omega arith

    Shown-plain :
        (j : ℕ) (m : SecurityMode)
        → m ≢ sec_gcm
        → j < 6
        → Shown c works m (27 + iv_length m + 4 + j)
    Shown-plain j sec_gcm ne h = absurd (ne refl)
    Shown-plain j sec_none ne h = omega arith
    Shown-plain j sec_hmac ne h = omega arith

    Shown-element :
        (j : ℕ)
        → j < 6
        → Shown c works mode (27 + iv_length mode + 4 + j)
        → sent (s.region_offset + j) ≡ region j
    Shown-element j h w =
        ap sent (omega arith)
        ∙ shows (27 + iv_length mode + 4 + j) w
        ∙ datagram-region kind mode cfg apdu n stream spdu amend plain packet keeps carries j
            (omega arith)

    pub Carries-again : Carries s (next_plain mode region plain) sent
    Carries-again = record {
      total = sent-total;
      fixed = λ i h.
          shows i (Shown-Fixed i mode h)
          ∙ patched.fixed i h
          ∙ sym (frame-header kind mode cfg apdu n i (omega (arith, h)));
      size_field = λ j h.
          shows (27 + iv_length mode + j) (Shown-size j mode h)
          ∙ patched.element j (inl (omega arith))
          ∙ sym (frame-header kind mode cfg apdu n (27 + iv_length mode + j) (omega arith));
      element = λ j h.
          region_again mode s.region_offset j region plain sent (omega (arith, h))
            (λ ne. Shown-element j (omega (arith, h)) (Shown-plain j mode ne (omega (arith, h))))
          ∙ element-kept kind mode cfg apdu n stream spdu amend plain packet keeps carries j h;
    }
