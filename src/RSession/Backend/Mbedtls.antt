-- ===== src/RSession/Backend/Mbedtls.antt =====
-- src/common/r_session_crypto_mbedtls.cpp: the backend over mbedTLS, whose calls are a parameter.
pub mod Refines
pub mod Works
use process_bus.Prelude.{ℕ, ◌*◌, List, take, Option}
use process_bus.RSession.Layout.{tag_size}
use process_bus.RSession.Backend.{
  M, Backend, ◌>>=◌, ◌>>◌, pure, prepared, hmac_key_size, gcm_key_size, lab_key,
}

-- The calls on a digest context `D` and on a GCM context `C`. `md_setup` fails too where SHA-256 is
-- not there.
pub record Mbed (D C : Type 0) : Type 0 where
  pub md_init : D
  pub gcm_init : C
  pub md_setup : M D (Unit {0})
  pub hmac_starts : List ℕ → M D (Unit {0})
  pub hmac_reset : M D (Unit {0})
  pub hmac_update : List ℕ → M D (Unit {0})
  pub hmac_finish : M D (List ℕ)
  pub gcm_setkey : List ℕ → M C (Unit {0})
  pub crypt_and_tag : List ℕ → List ℕ → List ℕ → ℕ → M C (List ℕ × List ℕ)
  pub auth_decrypt : List ℕ → List ℕ → List ℕ → List ℕ → M C (List ℕ)

-- `Crypto::Impl`.
pub record Impl (D C : Type 0) : Type 0 where
  pub md : D
  pub gcm : C

module _ {D C A : Type 0} where
  abbrev pub on_md : M D A → M (Impl D C) A
  on_md m s = let (r, c) = m s.md in (r, record s { md = c })

  abbrev pub on_gcm : M C A → M (Impl D C) A
  on_gcm m s = let (r, c) = m s.gcm in (r, record s { gcm = c })

module _ {D C : Type 0} (mbed : Mbed D C) where
  -- The constructor; none where `IsReady` is false.
  unfoldable pub make_crypto : Option (Impl D C)
  make_crypto = prepared (
      (do
        on_md mbed.md_setup
        on_md (mbed.hmac_starts (take hmac_key_size lab_key))
        on_gcm (mbed.gcm_setkey (take gcm_key_size lab_key)))
        (record { md = mbed.md_init; gcm = mbed.gcm_init }))

  abbrev pub hmac_on : List ℕ → M D (List ℕ)
  hmac_on bytes = do
    mbed.hmac_reset
    mbed.hmac_update bytes
    digest ← mbed.hmac_finish
    pure (take tag_size digest)

  -- `HMAC`, `Encrypt` and `Decrypt`.
  abbrev pub mbedtls : Backend (Impl D C)
  mbedtls = record {
    hmac = λ m. on_md (hmac_on m);
    encrypt = λ iv aad plain. on_gcm (mbed.crypt_and_tag iv aad plain tag_size);
    decrypt = λ iv aad out t. on_gcm (mbed.auth_decrypt iv aad t out);
  }
