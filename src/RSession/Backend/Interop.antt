-- ===== src/RSession/Backend/Interop.antt =====
-- A session that is sealed with one backend and opened with the other.
use process_bus.Prelude.{
  ℕ, ◌+◌, ◌≤◌, ◌<◌, ◌≡◌, inl, inr, refl, sym, ap, ◌∙◌, arith, Bool, true, false, not, ◌||◌, Option,
  some, List, [], ◌∷◌, ◌++◌, zero, suc, length, take, All, ◌==◌, ltb, if◌then◌else◌, length-take,
  Option-cases, Bool-cases,
}
use process_bus.Memory.{Memory, slice, get_u32}
use process_bus.Memory.Frames.{length-slice}
use process_bus.RSession.Layout.{
  SecurityMode, sec_none, sec_hmac, sec_gcm, iv_len_gcm, tag_size, iv_length, udp_payload_size,
  payload_hdr_offset,
}
use process_bus.RSession.{SessionHeader, BuildParams, FitsFields, build}
use process_bus.RSession.RoundTrip.{built_session, IsKnown, built_bytes}
use process_bus.RSession.Crypto.{Crypto, IsSound, verify_hmac}
use process_bus.RSession.Security.{seal, unseal, unseal_gcm, seal_gcm, mark_trailer, payload_end}
use process_bus.RSession.Security.RoundTrip.{seal_hmac-cases}
use process_bus.RSession.Security.Wire.{Received, seal-Received}
use process_bus.Stream.Passport.{bytes_eq, bytes_eq_iff}
use process_bus.RSession.Backend.{
  Backend, Primitives, IsStandard, ideal, FailsOr, Refines, hmac_sha256, lab_key, gcm_key, padded,
}
use process_bus.RSession.Backend.Calls.{Call, AllFit, Agree, after, crypto_at, Agree-calls}
use process_bus.RSession.Backend.OpenSsl
use process_bus.RSession.Backend.OpenSsl.{Evp, openssl}
use process_bus.RSession.Backend.OpenSsl.Laws.{Phase, IsEvp}
use process_bus.RSession.Backend.OpenSsl.Refines.{openssl-Refines}
use process_bus.RSession.Backend.OpenSsl.Refines as OpenSslRefines
use process_bus.RSession.Backend.Mbedtls
use process_bus.RSession.Backend.Mbedtls.{Mbed, mbedtls}
use process_bus.RSession.Backend.Mbedtls.Refines.{MdPhase, IsMbed, mbedtls-Refines}
use process_bus.RSession.Backend.Mbedtls.Works.{Answers, hmac_answers, decrypt_answers}
use process_bus.RSession.Backend.Mbedtls.Refines as MbedtlsRefines

All-take : (P : ℕ → Type 0) (n : ℕ) (xs : List ℕ) → All P xs → All P (take n xs)
All-take P zero xs h = tt
All-take P (suc n) [] h = tt
All-take P (suc n) (x ∷ xs) (h, hs) = (h, All-take P n xs hs)

abbrev Sealed : Type 0
Sealed = List ℕ × List ℕ

some_pair :
    (a c b d : List ℕ) → ◌≡◌ {A = Option Sealed} (some (a, b)) (some (c, d)) → (a ≡ c) × (b ≡ d)
some_pair a c b d e = (cc, cc)

-- The ideal keeps the promises of a backend.
pub ideal-IsSound : (p : Primitives) → IsStandard p → IsSound (ideal p)
unfolding hmac_sha256
ideal-IsSound p h = record {
  hmac_shape = λ m tag e.
      let inner : List ℕ = p.sha256 (padded lab_key 0x36 ++ m) in
      let all : List ℕ = p.sha256 (padded lab_key 0x5c ++ inner) in
      let same : take 16 all ≡ tag = cc in
      let short = length-take 16 all in
      let whole = h.length-sha256 (padded lab_key 0x5c ++ inner) in
      rw (← same) (short (omega arith), All-take (λ b. b < 256) 16 all (h.sha256-bytes _));
  length-encrypt = λ iv aad plain out tag e.
      let (same, t) = some_pair _ _ _ _ e in
      rw (← same, ← t) (h.length-cipher gcm_key iv plain, h.length-tag _ _ _ _);
  decrypt-encrypt = λ iv aad plain out tag e.
      let (same, t) = some_pair _ _ _ _ e in
      rw (← t, ← same)
        (rw ((bytes_eq_iff (p.tag gcm_key iv aad (p.cipher gcm_key iv plain)) _).1 refl)
          (ap some (h.uncipher-cipher gcm_key iv plain)));
}

some_of : {A : Type 0} (x : Option A) (y z : A) → FailsOr x (some y) → x ≡ some z → y ≡ z
some_of x y z (inl e) h = cc
some_of x y z (inr e) h = cc

-- A guard that passes.
through :
    (test : Bool) (m out : Memory) (x y : Bool × Memory)
    → (if test then (false, m) else x) ≡ (true, out)
    → (test ≡ false → x ≡ (true, out) → y ≡ (true, out))
    → (if test then (false, m) else y) ≡ (true, out)
through true m out x y e k = cc
through false m out x y e k = k refl e

module _ {S : Type 0} (b : Backend S) (p : Primitives) (Ready : S → Type 0)
    (refines : Refines b p Ready) (s : S) (ready : Ready s) where
  seal_gcm-ideal :
      (m out : Memory) (n start size : ℕ)
      → n ≡ 12
      → seal_gcm m (crypto_at b p s) n start size ≡ (true, out)
      → seal_gcm m (ideal p) n start size ≡ (true, out)
  seal_gcm-ideal m out n start size len e =
      elim (refines.encrypt_refines (slice m 27 n) (slice m 0 start) (slice m start size) s
        (length-slice n 27 m ∙ len) ready).0 [
          | inl fails ↦ cc (rw (fails, seal_gcm) at e)
          | inr same ↦ rw same at e
        ]

  -- What is sealed with the backend is what the ideal seals.
  pub seal-ideal :
      (mode : SecurityMode) (buf out : Memory)
      → buf 26 ≡ iv_length mode
      → seal buf mode (crypto_at b p s) ≡ (true, out)
      → seal buf mode (ideal p) ≡ (true, out)
  unfolding seal
  seal-ideal sec_none buf out iv e = e
  seal-ideal sec_hmac buf out iv e =
      let at : ℕ = 27 + buf 26 + 4 + get_u32 buf (27 + buf 26) in
      let marked : Memory = mark_trailer buf at in
      let (tag, h, w) = seal_hmac-cases marked out (crypto_at b p s) at e in
      let same = some_of _ _ tag (refines.hmac_refines (slice marked 0 at) s ready).0 h in
      rw same (ap (λ m. (true, m)) w)
  seal-ideal sec_gcm buf out iv e = seal_gcm-ideal _ out (buf 26) _ _ iv e

-- The ideal opens only where the tag is that of the bytes.
opens_authentic :
    (p : Primitives) (iv aad xs t plain : List ℕ)
    → (ideal p).decrypt iv aad xs t ≡ some plain
    → t ≡ p.tag gcm_key iv aad xs
opens_authentic p iv aad xs t plain e = elim (Bool-cases (bytes_eq t (p.tag gcm_key iv aad xs))) [
  | inl same ↦ (bytes_eq_iff t (p.tag gcm_key iv aad xs)).0 same
  | inr other ↦ cc (rw other at e)
]

-- A class that computes the same tags as `d`, and opens what `d` opens.
record Follows (c d : Crypto) : Type 0 where
  same_hmac : (m : List ℕ) → c.hmac m ≡ d.hmac m
  opens :
      (iv aad xs t plain : List ℕ)
      → length iv ≡ 12
      → length t ≡ 16
      → d.decrypt iv aad xs t ≡ some plain
      → c.decrypt iv aad xs t ≡ some plain

module _ (c d : Crypto) (follows : Follows c d) where
  verify-Follows : (m tag : List ℕ) → verify_hmac d m tag ≡ true → verify_hmac c m tag ≡ true
  unfolding verify_hmac
  verify-Follows m tag e = rw (verify_hmac, follows.same_hmac m) e

  unseal_gcm-Follows :
      (m plain : Memory) (session : SessionHeader) (start at : ℕ)
      → unseal_gcm m session d start at ≡ (true, plain)
      → unseal_gcm m session c start at ≡ (true, plain)
  unseal_gcm-Follows m plain session start at e =
      through (not (session.iv_length == iv_len_gcm) || not (m (at + 1) == tag_size)) m plain _ _ e
        (λ sizes opens. elim (Option-cases session.iv) [
          | inl lost ↦ cc (rw lost at opens)
          | inr (iv, given) ↦
              elim (Option-cases (
                d.decrypt (slice m iv session.iv_length) (slice m 0 start)
                  (slice m start session.payload_length) (slice m (at + 2) tag_size))) [
                    | inl fails ↦ cc (rw (given, fails) at opens)
                    | inr (text, same) ↦ rw given (
                        rw
                          (follows.opens _ _ _ _ text
                            (length-slice session.iv_length iv m ∙ ground arith)
                            (length-slice 16 (at + 2) m) same)
                          (rw (given, same) at opens))
                  ]
        ])

  unseal-Follows :
      (mode : SecurityMode) (m plain : Memory) (size : ℕ) (session : SessionHeader)
      → unseal m size mode session d ≡ (true, plain)
      → unseal m size mode session c ≡ (true, plain)
  unfolding unseal
  unseal-Follows sec_none m plain size session e = e
  unseal-Follows sec_hmac m plain size session e =
      let at : ℕ = payload_end (payload_hdr_offset session.iv_length) session.payload_length in
      through (ltb size (at + 18) || not (m at == 0x85)) m plain _ _ e (λ _ verified.
        rw (verify-Follows _ _ (ap (λ (r : Bool × Memory). r.0) verified))
          (ap (λ (r : Bool × Memory). (true, r.1)) verified))
  unseal-Follows sec_gcm m plain size session e =
      let at : ℕ = payload_end (payload_hdr_offset session.iv_length) session.payload_length in
      through (ltb size (at + 18) || not (m at == 0x85)) m plain _ _ e
        (λ _. unseal_gcm-Follows m plain session (payload_hdr_offset session.iv_length + 4) at)

module _ {D C D' C' : Type 0} (evp : Evp D C) (mbed : Mbed D' C') (p : Primitives)
    (Absorbed : List ℕ → D → Type 0) (InEnc InDec : Phase → C → Type 0) (In : MdPhase → D' → Type 0)
    (Keyed : C' → Type 0) where
  -- Both backends compute the same: whatever calls are made of a context that its constructor has made
  -- ready, with IVs and tags of the lengths of the profile, each fails or gives the answer of HMAC as
  -- RFC 2104 defines it and of AES-128-GCM with the first half of the lab key.
  pub backends-Agree :
      (qs : List Call) (s : OpenSsl.Impl D C) (s' : Mbedtls.Impl D' C')
      → IsEvp evp p Absorbed InEnc InDec
      → IsMbed mbed p In Keyed
      → AllFit qs
      → OpenSsl.make_crypto evp ≡ some s
      → Mbedtls.make_crypto mbed ≡ some s'
      → Agree (openssl evp) p qs s × Agree (mbedtls mbed) p qs s'
  backends-Agree qs s s' l l' fit made made' = (
    (Agree-calls (openssl evp) p _ (openssl-Refines evp p Absorbed InEnc InDec l) qs s fit
        (OpenSslRefines.make_crypto-Ready evp p Absorbed InEnc InDec l s made)).0,
    (Agree-calls (mbedtls mbed) p _ (mbedtls-Refines mbed p In Keyed l') qs s' fit
        (MbedtlsRefines.make_crypto-Ready mbed p In Keyed l' s' made')).0,
  )

  mbedtls-Follows :
      (s' : Mbedtls.Impl D' C')
      → IsStandard p
      → IsMbed mbed p In Keyed
      → Answers mbed p In Keyed
      → MbedtlsRefines.Ready mbed p In Keyed s'
      → Follows (crypto_at (mbedtls mbed) p s') (ideal p)
  mbedtls-Follows s' std laws works ready = record {
    same_hmac = λ m. hmac_answers mbed p In Keyed laws works m s' ready;
    opens = λ iv aad xs t plain len short e.
        let authentic = opens_authentic p iv aad xs t plain e in
        ap (λ t. (crypto_at (mbedtls mbed) p s').decrypt iv aad xs t) authentic
        ∙ decrypt_answers mbed p In Keyed laws works iv aad xs s' len
            (std.length-tag gcm_key iv aad xs) ready
        ∙ ap ((ideal p).decrypt iv aad xs) (sym authentic)
        ∙ e;
  }

  -- What `build` makes and `seal` protects over OpenSSL, `unseal` opens over mbedTLS: it accepts the
  -- frame, and the receiver reads the header, the payload header and the bytes of the APDU as they
  -- were sent, in every security mode, whatever calls each side has made before, for a frame of a
  -- known kind whose fields fit their types in a buffer with room for it. Sealing succeeded, and on the
  -- receiver no call of a digest fails and a decryption fails only for a tag that is not that of its
  -- bytes.
  pub unseal-seal_across :
      (qs qs' : List Call) (s : OpenSsl.Impl D C) (s' : Mbedtls.Impl D' C') (buf out : Memory)
      (b : BuildParams) (size : ℕ)
      → IsStandard p
      → IsEvp evp p Absorbed InEnc InDec
      → IsMbed mbed p In Keyed
      → Answers mbed p In Keyed
      → AllFit qs
      → AllFit qs'
      → OpenSsl.make_crypto evp ≡ some s
      → Mbedtls.make_crypto mbed ≡ some s'
      → FitsFields b
      → IsKnown b
      → udp_payload_size b.mode b.apdu_length ≤ size
      → seal (build buf b).0 b.mode (crypto_at (openssl evp) p (after (openssl evp) p qs s))
        ≡ (true, out)
      → (plain : Memory) × Received buf b size
          (crypto_at (mbedtls mbed) p (after (mbedtls mbed) p qs' s'))
          out
          plain
  unseal-seal_across qs qs' s s' buf out b size std l l' works fit fit' made made' f k room sealed =
      let refines = openssl-Refines evp p Absorbed InEnc InDec l in
      let ready =
        (Agree-calls (openssl evp) p _ refines qs s fit
          (OpenSslRefines.make_crypto-Ready evp p Absorbed InEnc InDec l s made)).1 in
      let ready' =
        (Agree-calls (mbedtls mbed) p _ (mbedtls-Refines mbed p In Keyed l') qs' s' fit'
          (MbedtlsRefines.make_crypto-Ready mbed p In Keyed l' s' made')).1 in
      let (plain, r) = seal-Received (ideal p) (ideal-IsSound p std) buf b f k out size room (
        seal-ideal (openssl evp) p _ refines _ ready b.mode _ out (built_bytes buf b b.mode refl).3
          sealed) in
      (
        plain,
        record {
          header = r.header;
          opened =
              unseal-Follows (crypto_at (mbedtls mbed) p (after (mbedtls mbed) p qs' s')) (ideal p)
                (mbedtls-Follows (after (mbedtls mbed) p qs' s') std l' works ready') b.mode out
                plain size (built_session b) r.opened;
          payload = r.payload;
          apdu = r.apdu;
        },
      )
