-- ===== src/RSession/Backend/OpenSsl/Refines.antt =====
-- The OpenSSL backend fails or answers like the ideal, whatever calls were made before.
use process_bus.Prelude.{
  ℕ, ◌≡◌, arith, inl, inr, refl, ap, ◌∙◌, true, some, List, [], ◌∷◌, ◌++◌, length, take, ltb,
  Option-cases,
}
use process_bus.RSession.Layout.{iv_len_gcm, tag_size}
use process_bus.RSession.Backend.{
  Ends, Ends-bind, Ends-map, Ends-checked, prepared-Ends, Anywhere, Primitives, Refines,
  Ends-FailsOr, hmac_sha256, lab_key, gcm_key, padded, ◌>>◌,
}
use process_bus.RSession.Backend.OpenSsl.{
  Direction, Evp, Impl, build_pad, set_up, make_crypto, install_key, digest_of, hmac_on,
  start_message, encrypt_on, decrypt_on, openssl, on_inner, on_outer, on_enc, on_dec, allocate,
}
use process_bus.RSession.Backend.OpenSsl.Laws.{
  Phase, chosen, sized, keyed, started, processed, finished, tagged, IsDirection, IsEvp,
}

build_pads_padded : (build_pad 0x36 ≡ padded lab_key 0x36) × (build_pad 0x5c ≡ padded lab_key 0x5c)
unfolding build_pad
build_pads_padded = (refl, refl)

nonempty : (x : ℕ) (xs : List ℕ) → ltb 0 (length (x ∷ xs)) ≡ true
nonempty x xs = ground arith

start-Ends :
    {C : Type 0} (dir : Direction C) (In : Phase → C → Type 0) (run wire : List ℕ → List ℕ → List ℕ)
    → IsDirection dir In run wire
    → (iv aad : List ℕ) (s : C) → length iv ≡ iv_len_gcm
    → In keyed s
    → Ends (λ _ s'. In (started iv aad) s') (In keyed) (start_message dir iv aad s)
start-Ends dir In run wire laws iv [] s len h =
    Ends-bind (λ _ s'. In (started iv []) s') _ (In keyed) (dir.set_iv iv s) _
      (laws.starts iv s len h) (λ _ s1 h1. h1)
start-Ends dir In run wire laws iv (x ∷ xs) s len h =
    Ends-bind (λ _ s'. In (started iv []) s') _ (In keyed) (dir.set_iv iv s) _
      (laws.starts iv s len h) (λ _ s1 h1. rw (nonempty x xs) (laws.adds iv (x ∷ xs) s1 h1))

install-Ends :
    {C : Type 0} (dir : Direction C) (In : Phase → C → Type 0) (run wire : List ℕ → List ℕ → List ℕ)
    → IsDirection dir In run wire
    → (s : C) → Ends (λ _ s'. In keyed s') Anywhere (install_key dir s)
install-Ends dir In run wire laws s =
    Ends-bind (λ _ s'. In chosen s') _ Anywhere (dir.set_cipher s) _ (laws.chooses s)
      (λ _ s1 h1.
        Ends-bind (λ _ s'. In sized s') _ Anywhere (dir.set_iv_len iv_len_gcm s1) _
          (laws.sizes s1 h1) (λ _ s2 h2. laws.keys s2 h2))

module _ {D C : Type 0} (evp : Evp D C) (p : Primitives) (Absorbed : List ℕ → D → Type 0)
    (InEnc InDec : Phase → C → Type 0) where
  -- The state between two calls.
  pub record Ready (s : Impl D C) : Type 0 where
    pub inner_padded : Absorbed (build_pad 0x36) s.inner
    pub outer_padded : Absorbed (build_pad 0x5c) s.outer
    pub enc_keyed : InEnc keyed s.enc_ctx
    pub dec_keyed : InDec keyed s.dec_ctx

  module _ (evp_laws : IsEvp evp p Absorbed InEnc InDec) where
    digest_of-Ends :
        (xs ys : List ℕ) (pad_state s : D)
        → Absorbed xs pad_state
        → Ends (λ d s'. d ≡ p.sha256 (xs ++ ys)) Anywhere (digest_of evp pad_state ys s)
    digest_of-Ends xs ys pad_state s h =
        Ends-bind (λ _ s'. Absorbed xs s') _ Anywhere (evp.copy_from pad_state s) _
          (evp_laws.copies xs pad_state s h)
          (λ _ s1 h1.
            Ends-bind (λ _ s'. Absorbed (xs ++ ys) s') _ Anywhere (evp.digest_update ys s1) _
              (evp_laws.absorbs xs ys s1 h1) (λ _ s2 h2. evp_laws.digests (xs ++ ys) s2 h2))

    hmac-Ends :
        (m : List ℕ) (inner outer s : D)
        → Absorbed (build_pad 0x36) inner
        → Absorbed (build_pad 0x5c) outer
        → Ends
            (λ t s'. (t ≡ take tag_size (hmac_sha256 p lab_key m)) × Unit {0})
            Anywhere
            (hmac_on evp inner outer m s)
    unfolding hmac_sha256 build_pad
    hmac-Ends m inner outer s hi ho =
        Ends-bind (λ d s'. d ≡ p.sha256 (build_pad 0x36 ++ m)) _ Anywhere (digest_of evp inner m s)
          _ (digest_of-Ends _ m inner s hi)
          (λ d s1 e.
            Ends-bind (λ d2 s'. d2 ≡ p.sha256 (build_pad 0x5c ++ d)) _ Anywhere
              (digest_of evp outer d s1) _ (digest_of-Ends _ d outer s1 ho)
              (λ d2 s2 e2.
                (ap (take tag_size) (e2 ∙ ap (λ x. p.sha256 (build_pad 0x5c ++ x)) e), tt)))

    encrypt-Ends :
        (iv aad xs : List ℕ) (s : C)
        → length iv ≡ iv_len_gcm
        → InEnc keyed s
        → let out = p.cipher gcm_key iv xs in
          Ends
            (λ r s'. (r ≡ (out, p.tag gcm_key iv aad out)) × InEnc keyed s')
            (InEnc keyed)
            (encrypt_on evp iv aad xs s)
    encrypt-Ends iv aad xs s len h =
        let out : List ℕ = p.cipher gcm_key iv xs in
        let laws = evp_laws.encrypting in
        rw len (
          Ends-bind (λ _ s'. InEnc (started iv aad) s') _ (InEnc keyed)
            (start_message evp.enc iv aad s) _ (start-Ends evp.enc InEnc _ _ laws iv aad s len h)
            (λ _ s1 h1.
              Ends-bind (λ ys s'. (ys ≡ out) × InEnc (processed iv aad out) s') _ (InEnc keyed)
                (evp.enc.update xs s1) _ (laws.updates iv aad xs s1 h1)
                (λ ys s2 (e, h2).
                  Ends-bind (λ _ s'. InEnc (finished iv aad out) s') _ (InEnc keyed)
                    (evp.encrypt_final s2) _ (evp_laws.finishes iv aad out s2 h2)
                    (λ _ s3 h3.
                      Ends-bind (λ t s'. (t ≡ p.tag gcm_key iv aad out) × InEnc keyed s') _
                        (InEnc keyed) (evp.get_tag tag_size s3) _
                        (evp_laws.gives_tag iv aad out s3 h3) (λ t s4 (e2, h4). (cc, h4))))))

    decrypt-Ends :
        (iv aad xs t : List ℕ) (s : C)
        → length iv ≡ iv_len_gcm
        → length t ≡ tag_size
        → InDec keyed s
        → Ends
            (λ r s'.
              ((r ≡ p.uncipher gcm_key iv xs) × (t ≡ p.tag gcm_key iv aad xs)) × InDec keyed s')
            (InDec keyed)
            (decrypt_on evp iv aad xs t s)
    decrypt-Ends iv aad xs t s len len_t h =
        let laws = evp_laws.decrypting in
        rw (len, len_t)
          (Ends-bind (λ _ s'. InDec (started iv aad) s') _ (InDec keyed)
            (start_message evp.dec iv aad s) _ (start-Ends evp.dec InDec _ _ laws iv aad s len h)
            (λ _ s1 h1.
              Ends-bind (λ ys s'. (ys ≡ p.uncipher gcm_key iv xs) × InDec (processed iv aad xs) s')
                _ (InDec keyed) (evp.dec.update xs s1) _ (laws.updates iv aad xs s1 h1)
                (λ ys s2 (e, h2).
                  Ends-bind (λ _ s'. InDec (tagged iv aad xs t) s') _ (InDec keyed)
                    (evp.set_tag t s2) _ (evp_laws.takes_tag iv aad xs t s2 h2)
                    (λ _ s3 h3.
                      Ends-bind (λ _ s'. (t ≡ p.tag gcm_key iv aad xs) × InDec keyed s') _
                        (InDec keyed) (evp.decrypt_final s3) _ (evp_laws.verifies iv aad xs t s3 h3)
                        (λ _ s4 (e2, h4). ((e, e2), h4))))))

    -- After any calls, each call of the OpenSSL backend fails or answers like the ideal.
    pub openssl-Refines : Refines (openssl evp) p Ready
    openssl-Refines = record {
      hmac_refines = λ m s r.
          let q =
            Ends-FailsOr (take tag_size (hmac_sha256 p lab_key m)) Anywhere
              (hmac_on evp s.inner s.outer m s.cur)
              (hmac-Ends m s.inner s.outer s.cur r.inner_padded r.outer_padded) in
          (
            q.0,
            record {
              inner_padded = r.inner_padded;
              outer_padded = r.outer_padded;
              enc_keyed = r.enc_keyed;
              dec_keyed = r.dec_keyed;
            },
          );
      encrypt_refines = λ iv aad xs s len r.
          let q =
            Ends-FailsOr _ (InEnc keyed) (encrypt_on evp iv aad xs s.enc_ctx)
              (encrypt-Ends iv aad xs s.enc_ctx len r.enc_keyed) in
          (
            q.0,
            record {
              inner_padded = r.inner_padded;
              outer_padded = r.outer_padded;
              enc_keyed = q.1;
              dec_keyed = r.dec_keyed;
            },
          );
      decrypt_refines = λ iv aad xs t s len len_t r.
          let q =
            Ends-checked _ t _ (InDec keyed) (decrypt_on evp iv aad xs t s.dec_ctx)
              (decrypt-Ends iv aad xs t s.dec_ctx len len_t r.dec_keyed) in
          (
            q.0,
            record {
              inner_padded = r.inner_padded;
              outer_padded = r.outer_padded;
              enc_keyed = r.enc_keyed;
              dec_keyed = q.1;
            },
          );
    }

    abbrev Inner : List ℕ → Impl D C → Type 0
    Inner xs s = Absorbed xs s.inner

    abbrev Pads : List ℕ → Impl D C → Type 0
    Pads ys s = Inner (build_pad 0x36) s × Absorbed ys s.outer

    abbrev pad1 : List ℕ
    pad1 = build_pad 0x36

    abbrev pad2 : List ℕ
    pad2 = build_pad 0x5c

    key-Ends :
        (s : Impl D C)
        → Pads pad2 s
        → Ends
            (λ _ s'. Ready s')
            Anywhere
            ((on_enc (install_key evp.enc) >> on_dec (install_key evp.dec)) s)
    key-Ends s (hi, ho) =
        Ends-bind (λ _ s'. Pads pad2 s' × InEnc keyed s'.enc_ctx) _ Anywhere
          (on_enc (install_key evp.enc) s) _
          (Ends-map (λ _ c. InEnc keyed c) _ (λ c. record s { enc_ctx = c }) _
            (install-Ends evp.enc InEnc _ _ evp_laws.encrypting s.enc_ctx) (λ _ c h. ((hi, ho), h)))
          (λ _ s1 h1.
            Ends-map (λ _ c. InDec keyed c) _ (λ c. record s1 { dec_ctx = c }) _
              (install-Ends evp.dec InDec _ _ evp_laws.decrypting s1.dec_ctx)
              (λ _ c h. record {
                inner_padded = h1.0.0;
                outer_padded = h1.0.1;
                enc_keyed = h1.1;
                dec_keyed = h;
              }))

    set_up-Ends : (s : Impl D C) → Ends (λ _ s'. Ready s') Anywhere (set_up evp s)
    unfolding set_up
    set_up-Ends s =
        Ends-bind (λ _ s'. Inner [] s') _ Anywhere (on_inner evp.digest_init s) _
          (Ends-map (λ _ c. Absorbed [] c) _ (λ c. record s { inner = c }) _
            (evp_laws.inits s.inner) (λ _ c h. h))
          (λ _ s1 h1.
            Ends-bind (λ _ s'. Inner pad1 s') _ Anywhere (on_inner (evp.digest_update pad1) s1) _
              (Ends-map (λ _ c. Absorbed pad1 c) _ (λ c. record s1 { inner = c }) _
                (evp_laws.absorbs [] pad1 s1.inner h1) (λ _ c h. h))
              (λ _ s2 h2.
                Ends-bind (λ _ s'. Pads [] s') _ Anywhere (on_outer evp.digest_init s2) _
                  (Ends-map (λ _ c. Absorbed [] c) _ (λ c. record s2 { outer = c }) _
                    (evp_laws.inits s2.outer) (λ _ c h. (h2, h)))
                  (λ _ s3 h3.
                    Ends-bind (λ _ s'. Pads pad2 s') _ Anywhere
                      (on_outer (evp.digest_update pad2) s3) _
                      (Ends-map (λ _ c. Absorbed pad2 c) _ (λ c. record s3 { outer = c }) _
                        (evp_laws.absorbs [] pad2 s3.outer h3.1) (λ _ c h. (h3.0, h)))
                      (λ _ s4 h4. key-Ends s4 h4))))

    -- A context that the constructor has made ready is ready for calls.
    pub make_crypto-Ready : (s : Impl D C) → make_crypto evp ≡ some s → Ready s
    unfolding make_crypto
    make_crypto-Ready s e = elim (Option-cases (allocate evp)) [
      | inl no_memory ↦ cc (rw (make_crypto, no_memory) at e)
      | inr (s0, fresh) ↦
          prepared-Ends Ready (set_up evp s0) s (set_up-Ends s0) (rw (make_crypto, fresh) at e)
    ]
