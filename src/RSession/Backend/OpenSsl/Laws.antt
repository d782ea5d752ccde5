-- ===== src/RSession/Backend/OpenSsl/Laws.antt =====
-- What the documents of OpenSSL's EVP calls promise.
use process_bus.Prelude.{ℕ, ◌≡◌, List, [], ◌++◌, length}
use process_bus.RSession.Layout.{iv_len_gcm, tag_size}
use process_bus.RSession.Backend.{Ends, Anywhere, Primitives, lab_key, gcm_key}
use process_bus.RSession.Backend.OpenSsl.{Direction, Evp}

-- How far a cipher context is with a message: the IV, the additional data, the ciphertext and the tag.
pub data Phase : Type 0 where
  chosen sized keyed : Phase
  started : List ℕ → List ℕ → Phase
  processed : List ℕ → List ℕ → List ℕ → Phase
  finished : List ℕ → List ℕ → List ℕ → Phase
  tagged : List ℕ → List ℕ → List ℕ → List ℕ → Phase

-- A context that has a key keeps it, also where a call fails. `run` is what the direction computes
-- and `wire` gives the ciphertext.
pub record IsDirection {C : Type 0} (dir : Direction C) (In : Phase → C → Type 0)
    (run : List ℕ → List ℕ → List ℕ) (wire : List ℕ → List ℕ → List ℕ) : Type 0 where
  pub chooses : (s : C) → Ends (λ _ s'. In chosen s') Anywhere (dir.set_cipher s)
  pub sizes :
      (s : C) → In chosen s → Ends (λ _ s'. In sized s') Anywhere (dir.set_iv_len iv_len_gcm s)
  pub keys : (s : C) → In sized s → Ends (λ _ s'. In keyed s') Anywhere (dir.set_key lab_key s)
  pub starts :
      (iv : List ℕ) (s : C)
      → length iv ≡ iv_len_gcm
      → In keyed s
      → Ends (λ _ s'. In (started iv []) s') (In keyed) (dir.set_iv iv s)
  pub adds :
      (iv aad : List ℕ) (s : C)
      → In (started iv []) s
      → Ends (λ _ s'. In (started iv aad) s') (In keyed) (dir.add_aad aad s)
  pub updates :
      (iv aad xs : List ℕ) (s : C)
      → In (started iv aad) s
      → Ends
          (λ ys s'. (ys ≡ run iv xs) × In (processed iv aad (wire iv xs)) s')
          (In keyed)
          (dir.update xs s)

-- `Absorbed xs s`: the digest context has taken the bytes `xs`.
pub record IsEvp {D C : Type 0} (evp : Evp D C) (p : Primitives) (Absorbed : List ℕ → D → Type 0)
    (InEnc InDec : Phase → C → Type 0) : Type 0 where
  pub inits : (s : D) → Ends (λ _ s'. Absorbed [] s') Anywhere (evp.digest_init s)
  pub absorbs :
      (xs ys : List ℕ) (s : D)
      → Absorbed xs s
      → Ends (λ _ s'. Absorbed (xs ++ ys) s') Anywhere (evp.digest_update ys s)
  pub copies :
      (xs : List ℕ) (from s : D)
      → Absorbed xs from
      → Ends (λ _ s'. Absorbed xs s') Anywhere (evp.copy_from from s)
  pub digests :
      (xs : List ℕ) (s : D)
      → Absorbed xs s
      → Ends (λ d s'. d ≡ p.sha256 xs) Anywhere (evp.digest_final s)
  pub encrypting : IsDirection evp.enc InEnc (p.cipher gcm_key) (p.cipher gcm_key)
  pub decrypting : IsDirection evp.dec InDec (p.uncipher gcm_key) (λ iv xs. xs)
  pub finishes :
      (iv aad out : List ℕ) (s : C)
      → InEnc (processed iv aad out) s
      → Ends (λ _ s'. InEnc (finished iv aad out) s') (InEnc keyed) (evp.encrypt_final s)
  pub gives_tag :
      (iv aad out : List ℕ) (s : C)
      → InEnc (finished iv aad out) s
      → Ends
          (λ t s'. (t ≡ p.tag gcm_key iv aad out) × InEnc keyed s')
          (InEnc keyed)
          (evp.get_tag tag_size s)
  pub takes_tag :
      (iv aad out t : List ℕ) (s : C)
      → InDec (processed iv aad out) s
      → Ends (λ _ s'. InDec (tagged iv aad out t) s') (InDec keyed) (evp.set_tag t s)
  pub verifies :
      (iv aad out t : List ℕ) (s : C)
      → InDec (tagged iv aad out t) s
      → Ends
          (λ _ s'. (t ≡ p.tag gcm_key iv aad out) × InDec keyed s')
          (InDec keyed)
          (evp.decrypt_final s)
