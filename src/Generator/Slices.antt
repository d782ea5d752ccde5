-- ===== src/Generator/Slices.antt =====
-- The slices of the workers are a partition of the IEDs.
use process_bus.Prelude.{
  ℕ, suc, ◌+◌, ◌*◌, ◌/◌, ◌%◌, ◌≤◌, ◌<◌, ◌≡◌, refl, ap, ◌∙◌, arith, ltb, if◌then◌else◌,
}
use native.Mathlib.Nat.{suc-mul, mul-le-mul_right, div-add-mod, mod-lt}
use process_bus.Generator.{ied_slice}

-- Where the slice of worker `i` starts, before it is cast.
abbrev pub start : ℕ → ℕ → ℕ → ℕ
start num workers i = i * (num / workers) + (if ltb i (num % workers) then i else num % workers)

pub start-next :
    (num workers i : ℕ)
    → start num workers (suc i)
      ≡ start num workers i + num / workers + (if ltb i (num % workers) then 1 else 0)
start-next num workers i = rw (suc-mul i (num / workers)) (ground arith)

pub start-le : (num workers i : ℕ) → 1 ≤ workers → i ≤ workers → start num workers i ≤ num
start-le num workers i one le =
    let whole = div-add-mod num workers in
    let part = mul-le-mul_right (num / workers) le in ground (arith, whole, part)

pub start-workers : (num workers : ℕ) → 1 ≤ workers → start num workers workers ≡ num
start-workers num workers one =
    let whole = div-add-mod num workers in
    let below = mod-lt num {m = workers} one in ground (arith, whole, below)

pub ied_slice-start :
    (num workers i : ℕ)
    → num < 4294967296
    → i < workers
    → ied_slice num workers i ≡ (start num workers i, start num workers (suc i))
unfolding ied_slice
ied_slice-start num workers i fits lt =
    let lo = start-le num workers i (omega arith) (omega arith) in
    let hi = start-le num workers (suc i) (omega arith) (omega arith) in
    let next = start-next num workers i in
    let kept : start num workers i % 4294967296 ≡ start num workers i = omega (arith, lo, fits) in
    rw (kept, ← next) (ground (arith, hi, fits))

-- Workers that share up to 2 ^ 32 - 1 IEDs send a partition of them: the first slice starts at the
-- first IED, each next one where the one before it ends, the last ends at the last IED, and a worker
-- has as many as the quotient says or one more.
pub ied_slice_partition :
    (num workers : ℕ)
    → 1 ≤ workers
    → num < 4294967296
    → ((ied_slice num workers 0).0 ≡ 0)
      × ((i : ℕ)
          → suc i < workers
          → (ied_slice num workers i).1 ≡ (ied_slice num workers (suc i)).0)
      × ((i : ℕ) → suc i ≡ workers → (ied_slice num workers i).1 ≡ num)
      × ((i : ℕ)
          → i < workers
          → let (lo, hi) = ied_slice num workers i in
            (lo + num / workers ≤ hi) × (hi ≤ lo + num / workers + 1))
ied_slice_partition num workers one fits = (
  rw (ied_slice-start num workers 0 fits (omega (arith, one))) (ground arith),
  λ i lt.
      rw
        (
          ied_slice-start num workers i fits (omega (arith, lt)),
          ied_slice-start num workers (suc i) fits lt,
        )
        refl,
  λ i last.
      rw (ied_slice-start num workers i fits (omega (arith, last)))
        (ap (start num workers) last ∙ start-workers num workers one),
  λ i lt. rw (ied_slice-start num workers i fits lt) (ground (arith, start-next num workers i)),
)
