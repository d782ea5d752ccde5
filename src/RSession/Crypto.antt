-- ===== src/RSession/Crypto.antt =====
-- src/common/r_session_crypto.hpp and r_session_crypto_common.cpp: the class `Crypto`.
-- What a backend answers is a parameter here, over lists of bytes, with `none` where a call returns
-- false; Backend has both backends, which keep contexts from call to call.
pub mod Verify
use process_bus.Prelude.{
  ℕ, zero, suc, ◌+◌, ◌/◌, ◌%◌, ◌≡◌, Bool, true, false, Option, none, some, List, [], ◌∷◌, length,
  ◌==◌, All, ◌<◌,
}
use process_bus.RSession.Layout.{tag_size}
use process_bus.Memory.{Memory, slice}
use Prim.Native.Nat.{bit_or, bit_xor}

pub record Crypto : Type 0 where
  -- HMAC-SHA256 over the data, truncated to 16 bytes.
  pub hmac : List ℕ → Option (List ℕ)
  -- AES-128-GCM: the IV, the additional data and the plaintext to the ciphertext and the tag.
  pub encrypt : List ℕ → List ℕ → List ℕ → Option (List ℕ × List ℕ)
  -- The IV, the additional data, the ciphertext and the tag to the plaintext.
  pub decrypt : List ℕ → List ℕ → List ℕ → List ℕ → Option (List ℕ)

-- What the documentation of both primitives promises.
pub record IsSound (c : Crypto) : Type 0 where
  pub hmac_shape :
      (message tag : List ℕ)
      → c.hmac message ≡ some tag
      → (length tag ≡ 16) × All (λ b. b < 256) tag
  pub length-encrypt :
      (iv aad plain out tag : List ℕ)
      → c.encrypt iv aad plain ≡ some (out, tag)
      → (length out ≡ length plain) × (length tag ≡ 16)
  pub decrypt-encrypt :
      (iv aad plain out tag : List ℕ)
      → c.encrypt iv aad plain ≡ some (out, tag)
      → c.decrypt iv aad out tag ≡ some plain

-- `DeriveIV`: the key id, four zero bytes and the SPDU number.
unfoldable pub derive_iv : ℕ → ℕ → List ℕ
derive_iv key_id spdu_number =
    (key_id / 16777216 % 256)
    ∷ (key_id / 65536 % 256)
    ∷ (key_id / 256 % 256)
    ∷ (key_id % 256)
    ∷ 0
    ∷ 0
    ∷ 0
    ∷ 0
    ∷ (spdu_number / 16777216 % 256)
    ∷ (spdu_number / 65536 % 256)
    ∷ (spdu_number / 256 % 256)
    ∷ (spdu_number % 256)
    ∷ []

-- The loop of `VerifyHMAC` over the tag's bytes.
pub tag_diff : List ℕ → List ℕ → ℕ → ℕ
tag_diff [] ys diff = diff
tag_diff (x ∷ xs) [] diff = diff
tag_diff (x ∷ xs) (y ∷ ys) diff = tag_diff xs ys (bit_or diff (bit_xor x y))

-- `VerifyHMAC`: false where the tag cannot be computed, else whether no bit differs.
unfoldable pub verify_hmac : Crypto → List ℕ → List ℕ → Bool
unfolding tag_diff
verify_hmac c message tag = elim (c.hmac message) [
  | none ↦ false
  | some expected ↦ tag_diff expected tag 0 == 0
]
