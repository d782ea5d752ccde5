-- ===== src/RSession/Backend/Mbedtls/Works.antt =====
-- Calls of mbedTLS that do not fail, and what the backend over them then answers.
use process_bus.Prelude.{
  ℕ, ◌≡◌, ◌≢◌, refl, ap, Option, none, some, List, [], length, take, inl, inr,
}
use process_bus.RSession.Layout.{iv_len_gcm, tag_size}
use process_bus.RSession.Backend.{
  Ends, Ends-bind, Primitives, FailsOr, ideal, hmac_sha256, lab_key, gcm_key,
}
use process_bus.RSession.Backend.Mbedtls.{Mbed, Impl, mbedtls, hmac_on}
use process_bus.RSession.Backend.Mbedtls.Refines.{
  MdPhase, keyed, absorbed, IsMbed, Ready, mbedtls-Refines,
}

-- On a context with the key, no call of a digest fails, and a decryption fails only where the tag is
-- not that of its bytes.
pub record Answers {D C : Type 0} (mbed : Mbed D C) (p : Primitives) (In : MdPhase → D → Type 0)
    (Keyed : C → Type 0) : Type 0 where
  pub resets : (s : D) → In keyed s → (mbed.hmac_reset s).0 ≢ none
  pub absorbs : (xs ys : List ℕ) (s : D) → In (absorbed xs) s → (mbed.hmac_update ys s).0 ≢ none
  pub finishes : (xs : List ℕ) (s : D) → In (absorbed xs) s → (mbed.hmac_finish s).0 ≢ none
  pub decrypts :
      (iv aad xs : List ℕ) (s : C)
      → length iv ≡ iv_len_gcm
      → Keyed s
      → (mbed.auth_decrypt iv aad (p.tag gcm_key iv aad xs) xs s).0 ≢ none

abbrev Never : {S : Type 0} → S → Type 0
Never s = ⊥

Ends-Never :
    {S A : Type 0} (Q : A → S → Type 0) (E : S → Type 0) (r : Option A × S)
    → Ends Q E r
    → r.0 ≢ none
    → Ends Q Never r
Ends-Never Q E (none, s) h some_one = some_one refl
Ends-Never Q E (some a, s) h some_one = h

answer_of : {S A : Type 0} (a : A) (r : Option A × S) → Ends (λ x s. x ≡ a) Never r → r.0 ≡ some a
answer_of a (none, s) h = absurd h
answer_of a (some x, s) h = ap some h

pub answered : {A : Type 0} (x y : Option A) → FailsOr x y → x ≢ none → x ≡ y
answered x y (inl e) h = absurd (h e)
answered x y (inr e) h = e

module _ {D C : Type 0} (mbed : Mbed D C) (p : Primitives) (In : MdPhase → D → Type 0)
    (Keyed : C → Type 0) (laws : IsMbed mbed p In Keyed) (works : Answers mbed p In Keyed) where
  pub hmac_answers :
      (m : List ℕ) (s : Impl D C)
      → Ready mbed p In Keyed s
      → ((mbedtls mbed).hmac m s).0 ≡ (ideal p).hmac m
  hmac_answers m s r = answer_of (take tag_size (hmac_sha256 p lab_key m)) (hmac_on mbed m s.md) (
      Ends-bind (λ _ s'. In (absorbed []) s') _ Never (mbed.hmac_reset s.md) _
        (Ends-Never _ (In keyed) _ (laws.resets s.md r.md_keyed) (works.resets s.md r.md_keyed))
        (λ _ s1 h1.
          Ends-bind (λ _ s'. In (absorbed m) s') _ Never (mbed.hmac_update m s1) _
            (Ends-Never _ (In keyed) _ (laws.absorbs [] m s1 h1) (works.absorbs [] m s1 h1))
            (λ _ s2 h2.
              Ends-bind (λ d s'. (d ≡ hmac_sha256 p lab_key m) × In keyed s') _ Never
                (mbed.hmac_finish s2) _
                (Ends-Never _ (In keyed) _ (laws.finishes m s2 h2) (works.finishes m s2 h2))
                (λ d s3 (e, h3). ap (take tag_size) e))))

  pub decrypt_answers :
      (iv aad xs : List ℕ) (s : Impl D C)
      → length iv ≡ iv_len_gcm
      → length (p.tag gcm_key iv aad xs) ≡ tag_size
      → Ready mbed p In Keyed s
      → ((mbedtls mbed).decrypt iv aad xs (p.tag gcm_key iv aad xs) s).0
        ≡ (ideal p).decrypt iv aad xs (p.tag gcm_key iv aad xs)
  decrypt_answers iv aad xs s len short r =
      answered _ _
        ((mbedtls-Refines mbed p In Keyed laws).decrypt_refines iv aad xs (p.tag gcm_key iv aad xs)
          s len short r).0
        (works.decrypts iv aad xs s.gcm len r.gcm_keyed)
