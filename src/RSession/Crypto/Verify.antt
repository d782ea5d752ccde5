-- ===== src/RSession/Crypto/Verify.antt =====
-- The comparison of tags in `VerifyHMAC` says whether they are equal.
use process_bus.Prelude.{
  ℕ, zero, suc, ◌≤◌, ◌<◌, ◌≡◌, refl, ◌↔◌, Bool, true, ◌&&◌, not, some, List, [], ◌∷◌, length, ◌==◌,
  All, arith, ltb, if◌then◌else◌, Option-cases, inl, inr,
}
use process_bus.RSession.Crypto.{Crypto, IsSound, tag_diff, verify_hmac}
use Prim.Native.Nat.{bit_or, bit_xor}

-- The test passes on each number up to the last, the last included.
passes : (ℕ → Bool) → ℕ → Bool
passes test zero = test 0
passes test (suc last) = passes test last && test (suc last)

passes_at : (test : ℕ → Bool) (last i : ℕ) → passes test last ≡ true → i ≤ last → test i ≡ true
unfolding passes
passes_at test zero i all le = ground arith
passes_at test (suc last) i all le = ground (arith, passes_at test last i)

-- Both tests hold, or neither, and the number is a byte.
abbrev agrees : ℕ → Bool → Bool
agrees n b = ltb n 256 && (if n == 0 then b else not b)

-- The test passes on every pair of bytes.
byte_pairs : (ℕ → ℕ → Bool) → Bool
byte_pairs test = passes (λ x. passes (test x) 255) 255

byte_pairs_at :
    (test : ℕ → ℕ → Bool) (x y : ℕ) → byte_pairs test ≡ true → x < 256 → y < 256 → test x y ≡ true
unfolding byte_pairs
byte_pairs_at test x y all hx hy =
    passes_at (test x) 255 y (passes_at (λ x. passes (test x) 255) 255 x all (omega arith))
      (omega arith)

abbrev xor_test : ℕ → ℕ → Bool
xor_test x y = agrees (bit_xor x y) (x == y)

abbrev or_test : ℕ → ℕ → Bool
or_test x y = agrees (bit_or x y) (x == 0 && y == 0)

xor_table : byte_pairs xor_test ≡ true
unfolding byte_pairs passes
xor_table = refl

or_table : byte_pairs or_test ≡ true
unfolding byte_pairs passes
or_table = refl

-- One round of the loop: the result is a byte, and 0 exactly if nothing differed so far.
tag_diff_step :
    (x y diff : ℕ)
    → x < 256
    → y < 256
    → diff < 256
    → (bit_or diff (bit_xor x y) < 256) × ((bit_or diff (bit_xor x y) ≡ 0) ↔ ((diff ≡ 0) × (x ≡ y)))
tag_diff_step x y diff hx hy hd = ground (
  arith,
  byte_pairs_at xor_test x y xor_table hx hy,
  byte_pairs_at or_test diff (bit_xor x y) or_table hd,
)

tag_diff_iff :
    (xs ys : List ℕ) (diff : ℕ)
    → All (λ b. b < 256) xs
    → All (λ b. b < 256) ys
    → length xs ≡ length ys
    → diff < 256
    → (tag_diff xs ys diff ≡ 0) ↔ ((diff ≡ 0) × (xs ≡ ys))
unfolding tag_diff
tag_diff_iff [] [] diff hx hy e hd = ground arith
tag_diff_iff [] (y ∷ ys) diff hx hy e hd = absurd (omega arith)
tag_diff_iff (x ∷ xs) [] diff hx hy e hd = absurd (omega arith)
tag_diff_iff (x ∷ xs) (y ∷ ys) diff hx hy e hd = ground (
  arith,
  tag_diff_step x y diff hx.0 hy.0 hd,
  tag_diff_iff xs ys (bit_or diff (bit_xor x y)) hx.1 hy.1 (omega arith),
)

-- `VerifyHMAC` accepts a 16-byte tag exactly if the backend computes that tag for the data.
pub verify_hmac_iff :
    (c : Crypto) (message tag : List ℕ)
    → IsSound c
    → length tag ≡ 16
    → All (λ b. b < 256) tag
    → (verify_hmac c message tag ≡ true) ↔ (c.hmac message ≡ some tag)
unfolding verify_hmac
verify_hmac_iff c message tag sound len bytes = elim (Option-cases (c.hmac message)) [
  | inl e ↦ ground arith
  | inr (expected, e) ↦
      ground (arith, sound.hmac_shape message expected e, tag_diff_iff expected tag 0)
]
