-- ===== src/RSession/Backend/OpenSsl.antt =====
-- src/common/r_session_crypto_openssl.cpp: the backend over OpenSSL's EVP interface, which is a parameter.
-- `new_md` and `new_cipher` are given the number of the allocation, which may fail.
pub mod Laws
pub mod Refines
use process_bus.Prelude.{
  ℕ, ◌-◌, Option, none, some, List, [], ◌++◌, length, take, map, replicate, ltb, ◌&&◌, ◌==◌,
  if◌then◌else◌,
}
use Prim.Native.Nat.{bit_xor}
use process_bus.RSession.Layout.{iv_len_gcm, tag_size}
use process_bus.RSession.Backend.{
  M, Backend, ◌>>=◌, ◌>>◌, pure, guard, prepared, hmac_key_size, sha256_block, lab_key,
}

-- The calls for one direction of a cipher context: `EVP_EncryptInit_ex` and `EVP_EncryptUpdate`, or
-- their counterparts, by what they are called with.
pub record Direction (C : Type 0) : Type 0 where
  pub set_cipher : M C (Unit {0})
  pub set_iv_len : ℕ → M C (Unit {0})
  pub set_key : List ℕ → M C (Unit {0})
  pub set_iv : List ℕ → M C (Unit {0})
  pub add_aad : List ℕ → M C (Unit {0})
  pub update : List ℕ → M C (List ℕ)

-- Digest contexts `D` and cipher contexts `C`.
pub record Evp (D C : Type 0) : Type 0 where
  pub new_md : ℕ → Option D
  pub new_cipher : ℕ → Option C
  pub digest_init : M D (Unit {0})
  pub digest_update : List ℕ → M D (Unit {0})
  pub digest_final : M D (List ℕ)
  pub copy_from : D → M D (Unit {0})
  pub enc : Direction C
  pub dec : Direction C
  pub encrypt_final : M C (Unit {0})
  pub get_tag : ℕ → M C (List ℕ)
  pub set_tag : List ℕ → M C (Unit {0})
  pub decrypt_final : M C (Unit {0})

-- `Crypto::Impl`.
pub record Impl (D C : Type 0) : Type 0 where
  pub inner : D
  pub outer : D
  pub cur : D
  pub enc_ctx : C
  pub dec_ctx : C

-- `build_pads`, for one of the pads: the block is filled, and its first bytes combined with the key.
unfoldable pub build_pad : ℕ → List ℕ
build_pad pad = map (bit_xor pad) lab_key ++ replicate (sha256_block - hmac_key_size) pad

module _ {D C A : Type 0} where
  abbrev pub on_inner : M D A → M (Impl D C) A
  on_inner m s = let (r, c) = m s.inner in (r, record s { inner = c })

  abbrev pub on_outer : M D A → M (Impl D C) A
  on_outer m s = let (r, c) = m s.outer in (r, record s { outer = c })

  abbrev pub on_cur : M D A → M (Impl D C) A
  on_cur m s = let (r, c) = m s.cur in (r, record s { cur = c })

  abbrev pub on_enc : M C A → M (Impl D C) A
  on_enc m s = let (r, c) = m s.enc_ctx in (r, record s { enc_ctx = c })

  abbrev pub on_dec : M C A → M (Impl D C) A
  on_dec m s = let (r, c) = m s.dec_ctx in (r, record s { dec_ctx = c })

module _ {C : Type 0} where
  abbrev pub install_key : Direction C → M C (Unit {0})
  install_key dir = do dir.set_cipher; dir.set_iv_len iv_len_gcm; dir.set_key lab_key

  abbrev pub start_message : Direction C → List ℕ → List ℕ → M C (Unit {0})
  start_message dir iv aad = do
    dir.set_iv iv
    if ltb 0 (length aad) then dir.add_aad aad else pure tt

module _ {D C : Type 0} (evp : Evp D C) where
  -- The five allocations of the constructor.
  abbrev pub allocate : Option (Impl D C)
  allocate = elim (evp.new_md 0) [
    | none ↦ none
    | some inner ↦ elim (evp.new_md 1) [
      | none ↦ none
      | some outer ↦ elim (evp.new_md 2) [
        | none ↦ none
        | some cur ↦ elim (evp.new_cipher 0) [
          | none ↦ none
          | some enc ↦ elim (evp.new_cipher 1) [
            | none ↦ none
            | some dec ↦
                some
                  (record { inner = inner; outer = outer; cur = cur; enc_ctx = enc; dec_ctx = dec })
          ]
        ]
      ]
    ]
  ]

  -- The calls that the constructor makes, in order.
  unfoldable pub set_up : M (Impl D C) (Unit {0})
  unfolding build_pad
  set_up = do
    on_inner evp.digest_init
    on_inner (evp.digest_update (build_pad 0x36))
    on_outer evp.digest_init
    on_outer (evp.digest_update (build_pad 0x5c))
    on_enc (install_key evp.enc)
    on_dec (install_key evp.dec)

  -- The constructor; none where `IsReady` is false.
  unfoldable pub make_crypto : Option (Impl D C)
  unfolding set_up
  make_crypto = elim allocate [ none ↦ none | some s ↦ prepared (set_up s) ]

  -- One of the halves of an HMAC, from the state with the pad.
  abbrev pub digest_of : D → List ℕ → M D (List ℕ)
  digest_of pad_state bytes = do evp.copy_from pad_state; evp.digest_update bytes; evp.digest_final

  abbrev pub hmac_on : D → D → List ℕ → M D (List ℕ)
  hmac_on inner outer bytes = do
    digest ← digest_of inner bytes
    digest2 ← digest_of outer digest
    pure (take tag_size digest2)

  abbrev pub encrypt_on : List ℕ → List ℕ → List ℕ → M C (List ℕ × List ℕ)
  encrypt_on iv aad plain = do
    guard (length iv == iv_len_gcm)
    start_message evp.enc iv aad
    out ← evp.enc.update plain
    evp.encrypt_final
    t ← evp.get_tag tag_size
    pure (out, t)

  abbrev pub decrypt_on : List ℕ → List ℕ → List ℕ → List ℕ → M C (List ℕ)
  decrypt_on iv aad out t = do
    guard (length iv == iv_len_gcm && length t == tag_size)
    start_message evp.dec iv aad
    plain ← evp.dec.update out
    evp.set_tag t
    evp.decrypt_final
    pure plain

  -- `HMAC`, `Encrypt` and `Decrypt`.
  abbrev pub openssl : Backend (Impl D C)
  openssl = record {
    hmac = λ m s. on_cur (hmac_on s.inner s.outer m) s;
    encrypt = λ iv aad plain. on_enc (encrypt_on iv aad plain);
    decrypt = λ iv aad out t. on_dec (decrypt_on iv aad out t);
  }
