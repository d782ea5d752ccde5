-- ===== src/Memory/Words.antt =====
-- Words read back what was written, and depend on their own bytes alone.
use process_bus.Prelude.{
  List, [], ◌∷◌, All, ℕ, ◌+◌, ◌*◌, ◌/◌, ◌%◌, ◌^◌, ◌<◌, ◌≡◌, ◌≤◌, ◌⊎◌, inl, inr, arith,
}
use process_bus.Memory.{Memory, IsBytes, get_u16, get_u32, put_u8, put_u16, put_u32, write}

pub bytes-u16 : (v : ℕ) → v < 2 ^ 16 → v / 256 % 256 * 256 + v % 256 ≡ v
bytes-u16 v h = omega arith

pub bytes-u32 :
    (v : ℕ)
    → v < 2 ^ 32
    → v / 16777216 % 256 * 16777216 + v / 65536 % 256 * 65536 + v / 256 % 256 * 256 + v % 256 ≡ v
bytes-u32 v h = omega arith

pub get_u16-lt : (m : Memory) (p : ℕ) → IsBytes m → get_u16 m p < 2 ^ 16
get_u16-lt m p h = omega (arith, h p, h (p + 1))

pub get_u32-lt : (m : Memory) (p : ℕ) → IsBytes m → get_u32 m p < 2 ^ 32
get_u32-lt m p h = omega (arith, h p, h (p + 1), h (p + 2), h (p + 3))

-- Writes of bytes keep a buffer of bytes.
pub put_u8-IsBytes : (m : Memory) (p v : ℕ) → IsBytes m → v < 256 → IsBytes (put_u8 m p v)
put_u8-IsBytes m p v h lt i = ground (arith, h i)

pub put_u16-IsBytes : (m : Memory) (p v : ℕ) → IsBytes m → IsBytes (put_u16 m p v)
unfolding put_u16
put_u16-IsBytes m p v h i = ground (arith, h i)

pub put_u32-IsBytes : (m : Memory) (p v : ℕ) → IsBytes m → IsBytes (put_u32 m p v)
unfolding put_u32
put_u32-IsBytes m p v h i = ground (arith, h i)

pub write-IsBytes :
    (xs : List ℕ) (m : Memory) (p : ℕ) → IsBytes m → All (λ b. b < 256) xs → IsBytes (write m p xs)
unfolding write
write-IsBytes [] m p h all i = h i
write-IsBytes (x ∷ xs) m p h (hx, hxs) i = ground (arith, write-IsBytes xs m (p + 1) h hxs i)

pub get_u16-put_u16 : (m : Memory) (p v : ℕ) → v < 2 ^ 16 → get_u16 (put_u16 m p v) p ≡ v
unfolding put_u16
get_u16-put_u16 m p v h = ground (arith, bytes-u16 v h)

pub get_u32-put_u32 : (m : Memory) (p v : ℕ) → v < 2 ^ 32 → get_u32 (put_u32 m p v) p ≡ v
unfolding put_u32
get_u32-put_u32 m p v h = ground (arith, bytes-u32 v h)

-- A word leaves the bytes before it and behind it.
pub put_u16-below : (m : Memory) (p v i : ℕ) → i < p → put_u16 m p v i ≡ m i
unfolding put_u16
put_u16-below m p v i h = ground arith

pub put_u32-outside : (m : Memory) (p v i : ℕ) → (i < p) ⊎ (p + 4 ≤ i) → put_u32 m p v i ≡ m i
unfolding put_u32
put_u32-outside m p v i (inl h) = ground arith
put_u32-outside m p v i (inr h) = ground arith
