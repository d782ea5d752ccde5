-- ===== src/RSession/Backend.antt =====
-- src/common/r_session_crypto.hpp: the class `Crypto` as an interface that a backend implements with
-- contexts of its own, which change from call to call. What the backends compute is given by two
-- primitives with a key, SHA-256 and AES-128-GCM, and `ideal` is the class over them without contexts.
pub mod OpenSsl
pub mod Mbedtls
pub mod Calls
pub mod Interop
use process_bus.Prelude.{
  ℕ, ◌+◌, ◌-◌, ◌<◌, ◌≡◌, ◌⊎◌, inl, inr, refl, ap, Bool, true, false, not, ◌&&◌, Option, none, some,
  List, [], ◌∷◌, ◌++◌, length, take, map, replicate, All, ◌==◌, if◌then◌else◌,
}
pub use process_bus.Prelude.Failing.{
  M, proceed, ◌>>=◌, ◌>>◌, pure, guard, Ends, Ends-bind, Ends-map, Anywhere, prepared,
  prepared-Ends,
}
use Prim.Native.Nat.{bit_xor}
use process_bus.Stream.Passport.{bytes_eq, bytes_eq_iff}
use process_bus.RSession.Layout.{iv_len_gcm, tag_size}
use process_bus.RSession.Crypto.{Crypto}

-- `HMAC`, `Encrypt` and `Decrypt` of a backend with contexts `S`.
pub record Backend (S : Type 0) : Type 0 where
  pub hmac : List ℕ → M S (List ℕ)
  pub encrypt : List ℕ → List ℕ → List ℕ → M S (List ℕ × List ℕ)
  pub decrypt : List ℕ → List ℕ → List ℕ → List ℕ → M S (List ℕ)

-- SHA-256, and AES-128-GCM by its key stream and its tag, each with a key and an IV.
pub record Primitives : Type 0 where
  pub sha256 : List ℕ → List ℕ
  pub cipher : List ℕ → List ℕ → List ℕ → List ℕ
  pub uncipher : List ℕ → List ℕ → List ℕ → List ℕ
  pub tag : List ℕ → List ℕ → List ℕ → List ℕ → List ℕ

-- What the documents of both primitives promise.
pub record IsStandard (p : Primitives) : Type 0 where
  pub length-sha256 : (m : List ℕ) → length (p.sha256 m) ≡ 32
  pub sha256-bytes : (m : List ℕ) → All (λ b. b < 256) (p.sha256 m)
  pub length-cipher : (key iv xs : List ℕ) → length (p.cipher key iv xs) ≡ length xs
  pub uncipher-cipher : (key iv xs : List ℕ) → p.uncipher key iv (p.cipher key iv xs) ≡ xs
  pub length-tag : (key iv aad xs : List ℕ) → length (p.tag key iv aad xs) ≡ 16

abbrev pub hmac_key_size : ℕ
hmac_key_size = 32

abbrev pub gcm_key_size : ℕ
gcm_key_size = 16

abbrev pub sha256_block : ℕ
sha256_block = 64

abbrev pub lab_key : List ℕ
lab_key =
    0 ∷ 1 ∷ 2 ∷ 3 ∷ 4 ∷ 5 ∷ 6 ∷ 7 ∷ 8 ∷ 9 ∷ 10 ∷ 11 ∷ 12 ∷ 13 ∷ 14 ∷ 15 ∷ 16 ∷ 17 ∷ 18 ∷ 19 ∷ 20
    ∷ 21 ∷ 22 ∷ 23 ∷ 24 ∷ 25 ∷ 26 ∷ 27 ∷ 28 ∷ 29 ∷ 30 ∷ 31 ∷ []

-- HMAC as RFC 2104 defines it for a key that is not longer than a block: the key is padded with
-- zeros to a block, and each byte is combined with the pad.
abbrev pub padded : List ℕ → ℕ → List ℕ
padded key pad = map (bit_xor pad) (key ++ replicate (sha256_block - length key) 0)

unfoldable pub hmac_sha256 : Primitives → List ℕ → List ℕ → List ℕ
hmac_sha256 p key m = p.sha256 (padded key 0x5c ++ p.sha256 (padded key 0x36 ++ m))

abbrev pub gcm_key : List ℕ
gcm_key = take gcm_key_size lab_key

-- The class without contexts.
abbrev pub ideal : Primitives → Crypto
ideal p = record {
  hmac = λ m. some (take tag_size (hmac_sha256 p lab_key m));
  encrypt =
      λ iv aad plain. let out = p.cipher gcm_key iv plain in some (out, p.tag gcm_key iv aad out);
  decrypt = λ iv aad out t.
      if bytes_eq t (p.tag gcm_key iv aad out) then some (p.uncipher gcm_key iv out) else none;
}

-- A call failed, or it answered as it should.
abbrev pub FailsOr : {A : Type 0} → Option A → Option A → Type 0
FailsOr x y = (x ≡ none) ⊎ (x ≡ y)

-- In each state that is `Ready`, every call fails or answers like the ideal, and the state is ready
-- again; for IVs of the length of the profile.
pub record Refines {S : Type 0} (b : Backend S) (p : Primitives) (Ready : S → Type 0) : Type 0 where
  pub hmac_refines :
      (m : List ℕ) (s : S)
      → Ready s
      → FailsOr (b.hmac m s).0 ((ideal p).hmac m) × Ready (b.hmac m s).1
  pub encrypt_refines :
      (iv aad xs : List ℕ) (s : S)
      → length iv ≡ iv_len_gcm
      → Ready s
      → FailsOr (b.encrypt iv aad xs s).0 ((ideal p).encrypt iv aad xs)
        × Ready (b.encrypt iv aad xs s).1
  pub decrypt_refines :
      (iv aad xs t : List ℕ) (s : S)
      → length iv ≡ iv_len_gcm
      → length t ≡ tag_size
      → Ready s
      → FailsOr (b.decrypt iv aad xs t s).0 ((ideal p).decrypt iv aad xs t)
        × Ready (b.decrypt iv aad xs t s).1

pub Ends-FailsOr :
    {S A : Type 0} (x : A) (Ready : S → Type 0) (r : Option A × S)
    → Ends (λ a s. (a ≡ x) × Ready s) Ready r
    → FailsOr r.0 (some x) × Ready r.1
Ends-FailsOr x Ready (none, s) h = (inl refl, h)
Ends-FailsOr x Ready (some a, s) (e, h) = (inr (ap some e), h)

-- A check of the tag fails, or it passes where the ideal's does.
pub Ends-checked :
    {S A : Type 0} (x : A) (t g : List ℕ) (Ready : S → Type 0) (r : Option A × S)
    → Ends (λ a s. ((a ≡ x) × (t ≡ g)) × Ready s) Ready r
    → FailsOr r.0 (if bytes_eq t g then some x else none) × Ready r.1
Ends-checked x t g Ready (none, s) h = (inl refl, h)
Ends-checked x t g Ready (some a, s) ((e, same), h) =
    (inr (rw ((bytes_eq_iff t g).1 same) (ap some e)), h)
