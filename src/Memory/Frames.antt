-- ===== src/Memory/Frames.antt =====
-- Slices, writes and what two buffers have in common.
use process_bus.Prelude.{ℕ, zero, suc, ◌+◌, ◌≤◌, ◌<◌, ◌≡◌, refl, ap, List, [], ◌∷◌, length, arith}
use native.Mathlib.Decide.{ℕ_discrete}
use mathlib.Core.Path.{subst}
use process_bus.Memory.{Memory, slice, write}

-- The two buffers hold the same bytes below `n`.
abbrev pub Agree : ℕ → Memory → Memory → Type 0
Agree n m m' = (i : ℕ) → i < n → m i ≡ m' i

pub slice-eq :
    (n p : ℕ) (m m' : Memory)
    → ((i : ℕ) → p ≤ i → i < p + n → m i ≡ m' i)
    → slice m p n ≡ slice m' p n
unfolding slice
slice-eq zero p m m' h = refl
slice-eq (suc n) p m m' h = ground (
  arith,
  h p (omega arith) (omega arith),
  slice-eq n (p + 1) m m' (λ i lo hi. h i (omega arith) (omega arith)),
)

pub write-below : (xs : List ℕ) (m : Memory) (p i : ℕ) → i < p → write m p xs i ≡ m i
unfolding write
write-below [] m p i h = refl
write-below (x ∷ xs) m p i h = ground (arith, write-below xs m (p + 1) i)

pub write-above : (xs : List ℕ) (m : Memory) (p i : ℕ) → p + length xs ≤ i → write m p xs i ≡ m i
unfolding write
write-above [] m p i h = refl
write-above (x ∷ xs) m p i h = ground (arith, write-above xs m (p + 1) i (omega arith))

pub slice-write : (xs : List ℕ) (m : Memory) (p : ℕ) → slice (write m p xs) p (length xs) ≡ xs
unfolding slice write
slice-write [] m p = refl
slice-write (x ∷ xs) m p = ground (
  arith,
  slice-eq (length xs) (p + 1) (write m p (x ∷ xs)) (write m (p + 1) xs) (λ i lo hi. ground arith),
  slice-write xs m (p + 1),
)

pub length-slice : (n p : ℕ) (m : Memory) → length (slice m p n) ≡ n
unfolding slice
length-slice zero p m = refl
length-slice (suc n) p m = ap suc (length-slice n (p + 1) m)

pub write-slice :
    (n p i : ℕ) (m m' : Memory) → p ≤ i → i < p + n → write m p (slice m' p n) i ≡ m' i
unfolding slice write
write-slice zero p i m m' lo hi = absurd (omega arith)
write-slice (suc n) p i m m' lo hi = ground (arith, write-slice n (p + 1) i m m')

pub write-cong :
    (xs : List ℕ) (m m' : Memory) (p i : ℕ) → m i ≡ m' i → write m p xs i ≡ write m' p xs i
unfolding write
write-cong [] m m' p i h = h
write-cong (x ∷ xs) m m' p i h = ground (arith, write-cong xs m m' (p + 1) i h)

-- Inside the written bytes the buffer underneath does not show.
pub write-inside :
    (xs : List ℕ) (m m' : Memory) (p i : ℕ)
    → p ≤ i
    → i < p + length xs
    → write m p xs i ≡ write m' p xs i
unfolding write
write-inside [] m m' p i lo hi = absurd (omega arith)
write-inside (x ∷ xs) m m' p i lo hi = ground (arith, write-inside xs m m' (p + 1) i)

-- A statement at each of the `n` offsets from `lo` on, and its use at any of them.
abbrev pub Each : (ℕ → Type 0) → ℕ → ℕ → Type 0
Each P lo zero = Unit {0}
Each P lo (suc n) = P lo × Each P (lo + 1) n

pub each_at : (P : ℕ → Type 0) (lo n i : ℕ) → lo ≤ i → i < lo + n → Each P lo n → P i
each_at P lo zero i l h e = absurd (omega arith)
each_at P lo (suc n) i l h e = elim (ℕ_discrete lo i) [
  | yes same ↦ subst P same e.0
  | no other ↦ each_at P (lo + 1) n i (omega arith) (omega arith) e.1
]

pub write-slice_at :
    (n p q j : ℕ) (m m' : Memory) → j < n → write m p (slice m' q n) (p + j) ≡ m' (q + j)
unfolding slice write
write-slice_at zero p q j m m' h = absurd (omega arith)
write-slice_at (suc n) p q zero m m' h = ground arith
write-slice_at (suc n) p q (suc j) m m' h = ground (arith, write-slice_at n (p + 1) (q + 1) j m m')
