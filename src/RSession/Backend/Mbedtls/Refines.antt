-- ===== src/RSession/Backend/Mbedtls/Refines.antt =====
-- What the documents of mbedTLS promise, and that the backend then fails or answers like the ideal, whatever
-- calls were made before.
use process_bus.Prelude.{ℕ, ◌≡◌, ap, some, List, [], ◌++◌, length, take}
use process_bus.RSession.Layout.{iv_len_gcm, tag_size}
use process_bus.RSession.Backend.{
  Ends, Ends-bind, Ends-map, Ends-checked, Ends-FailsOr, prepared-Ends, Anywhere, Primitives,
  Refines, hmac_sha256, lab_key, gcm_key,
}
use process_bus.RSession.Backend.Mbedtls.{Mbed, Impl, make_crypto, mbedtls, hmac_on, on_md}

-- How far a digest context is: set up, or with the key and the bytes since the last reset.
pub data MdPhase : Type 0 where
  set_up : MdPhase
  keyed : MdPhase
  absorbed : List ℕ → MdPhase

-- A context that has a key keeps it, also where a call fails.
pub record IsMbed {D C : Type 0} (mbed : Mbed D C) (p : Primitives) (In : MdPhase → D → Type 0)
    (Keyed : C → Type 0) : Type 0 where
  pub sets_up : (s : D) → Ends (λ _ s'. In set_up s') Anywhere (mbed.md_setup s)
  pub starts :
      (s : D) → In set_up s → Ends (λ _ s'. In keyed s') Anywhere (mbed.hmac_starts lab_key s)
  pub resets :
      (s : D) → In keyed s → Ends (λ _ s'. In (absorbed []) s') (In keyed) (mbed.hmac_reset s)
  pub absorbs :
      (xs ys : List ℕ) (s : D)
      → In (absorbed xs) s
      → Ends (λ _ s'. In (absorbed (xs ++ ys)) s') (In keyed) (mbed.hmac_update ys s)
  pub finishes :
      (xs : List ℕ) (s : D)
      → In (absorbed xs) s
      → Ends (λ d s'. (d ≡ hmac_sha256 p lab_key xs) × In keyed s') (In keyed) (mbed.hmac_finish s)
  pub sets_key : (s : C) → Ends (λ _ s'. Keyed s') Anywhere (mbed.gcm_setkey gcm_key s)
  pub encrypts :
      (iv aad xs : List ℕ) (s : C)
      → length iv ≡ iv_len_gcm
      → Keyed s
      → let out = p.cipher gcm_key iv xs in
        Ends
          (λ r s'. (r ≡ (out, p.tag gcm_key iv aad out)) × Keyed s')
          Keyed
          (mbed.crypt_and_tag iv aad xs tag_size s)
  pub decrypts :
      (iv aad xs t : List ℕ) (s : C)
      → length iv ≡ iv_len_gcm
      → length t ≡ tag_size
      → Keyed s
      → Ends
          (λ r s'. ((r ≡ p.uncipher gcm_key iv xs) × (t ≡ p.tag gcm_key iv aad xs)) × Keyed s')
          Keyed
          (mbed.auth_decrypt iv aad t xs s)

module _ {D C : Type 0} (mbed : Mbed D C) (p : Primitives) (In : MdPhase → D → Type 0)
    (Keyed : C → Type 0) where
  -- The state between two calls.
  pub record Ready (s : Impl D C) : Type 0 where
    pub md_keyed : In keyed s.md
    pub gcm_keyed : Keyed s.gcm

  module _ (laws : IsMbed mbed p In Keyed) where
    hmac-Ends :
        (m : List ℕ) (s : D)
        → In keyed s
        → Ends
            (λ t s'. (t ≡ take tag_size (hmac_sha256 p lab_key m)) × In keyed s')
            (In keyed)
            (hmac_on mbed m s)
    hmac-Ends m s h =
        Ends-bind (λ _ s'. In (absorbed []) s') _ (In keyed) (mbed.hmac_reset s) _ (laws.resets s h)
          (λ _ s1 h1.
            Ends-bind (λ _ s'. In (absorbed m) s') _ (In keyed) (mbed.hmac_update m s1) _
              (laws.absorbs [] m s1 h1)
              (λ _ s2 h2.
                Ends-bind (λ d s'. (d ≡ hmac_sha256 p lab_key m) × In keyed s') _ (In keyed)
                  (mbed.hmac_finish s2) _ (laws.finishes m s2 h2)
                  (λ d s3 (e, h3). (ap (take tag_size) e, h3))))

    -- After any calls, each call of the mbedTLS backend fails or answers like the ideal.
    pub mbedtls-Refines : Refines (mbedtls mbed) p Ready
    mbedtls-Refines = record {
      hmac_refines = λ m s r.
          let q =
            Ends-FailsOr (take tag_size (hmac_sha256 p lab_key m)) (In keyed) (hmac_on mbed m s.md)
              (hmac-Ends m s.md r.md_keyed) in
          (q.0, record { md_keyed = q.1; gcm_keyed = r.gcm_keyed });
      encrypt_refines = λ iv aad xs s len r.
          let q = Ends-FailsOr _ Keyed _ (laws.encrypts iv aad xs s.gcm len r.gcm_keyed) in
          (q.0, record { md_keyed = r.md_keyed; gcm_keyed = q.1 });
      decrypt_refines = λ iv aad xs t s len len_t r.
          let q =
            Ends-checked _ t _ Keyed _ (laws.decrypts iv aad xs t s.gcm len len_t r.gcm_keyed) in
          (q.0, record { md_keyed = r.md_keyed; gcm_keyed = q.1 });
    }

    -- A context that the constructor has made ready is ready for calls.
    pub make_crypto-Ready : (s : Impl D C) → make_crypto mbed ≡ some s → Ready s
    unfolding make_crypto
    make_crypto-Ready s =
        let s0 : Impl D C = record { md = mbed.md_init; gcm = mbed.gcm_init } in
        prepared-Ends Ready _ s (
          Ends-bind (λ _ s'. In set_up s'.md) _ Anywhere (on_md mbed.md_setup s0) _
            (Ends-map (λ _ c. In set_up c) _ (λ c. record s0 { md = c }) _ (laws.sets_up s0.md)
              (λ _ c h. h))
            (λ _ s1 h1.
              Ends-bind (λ _ s'. In keyed s'.md) _ Anywhere (on_md (mbed.hmac_starts lab_key) s1) _
                (Ends-map (λ _ c. In keyed c) _ (λ c. record s1 { md = c }) _ (laws.starts s1.md h1)
                  (λ _ c h. h))
                (λ _ s2 h2.
                  Ends-map (λ _ c. Keyed c) _ (λ c. record s2 { gcm = c }) _ (laws.sets_key s2.gcm)
                    (λ _ c h. record { md_keyed = h2; gcm_keyed = h }))))
