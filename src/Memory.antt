-- ===== src/Memory.antt =====
-- A packet buffer and the reads and writes that the sources make through `uint8_t*` pointers.
-- A buffer is the memory from a pointer on: a function from offsets to bytes. Its length is the
-- `size` that each function is given; a read past it returns whatever stands there.
pub mod Words
pub mod Frames
use process_bus.Prelude.{
  ℕ, zero, suc, ◌+◌, ◌-◌, ◌*◌, ◌/◌, ◌%◌, ◌<◌, ◌≡◌, List, [], ◌∷◌, ltb, ◌==◌, if◌then◌else◌,
}

abbrev pub Memory : Type 0
Memory = ℕ → ℕ

abbrev pub IsBytes : Memory → Type 0
IsBytes m = (i : ℕ) → m i < 256

-- `buf + p`.
abbrev pub at_offset : Memory → ℕ → Memory
at_offset m p i = m (p + i)

abbrev pub put_u8 : Memory → ℕ → ℕ → Memory
put_u8 m p v i = if i == p then v else m i

-- `put_u16` and `put_u32`: the most significant byte first, each cast to `uint8_t`.
unfoldable pub put_u16 : Memory → ℕ → ℕ → Memory
put_u16 m p v = put_u8 (put_u8 m p (v / 256 % 256)) (p + 1) (v % 256)

unfoldable pub put_u32 : Memory → ℕ → ℕ → Memory
put_u32 m p v =
    put_u8
      (put_u8 (put_u8 (put_u8 m p (v / 16777216 % 256)) (p + 1) (v / 65536 % 256)) (p + 2)
        (v / 256 % 256))
      (p + 3) (v % 256)

-- `get_u16` and `get_u32`; the shifted bytes do not overlap, so `|` is `+`.
abbrev pub get_u16 : Memory → ℕ → ℕ
get_u16 m p = m p * 256 + m (p + 1)

abbrev pub get_u32 : Memory → ℕ → ℕ
get_u32 m p = m p * 16777216 + m (p + 1) * 65536 + m (p + 2) * 256 + m (p + 3)

-- The `n` bytes from `p` on.
unfoldable pub slice : Memory → ℕ → ℕ → List ℕ
slice m p zero = []
slice m p (suc n) = m p ∷ slice m (p + 1) n

-- `memcpy(buf + p, xs, …)`.
unfoldable pub write : Memory → ℕ → List ℕ → Memory
write m p [] i = m i
write m p (x ∷ xs) i = if i == p then x else write m (p + 1) xs i
