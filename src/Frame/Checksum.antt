-- ===== src/Frame/Checksum.antt =====
-- The one's-complement checksum: a header that carries its own checksum folds to 0xFFFF.
use process_bus.Prelude.{ℕ, zero, suc, ◌+◌, ◌*◌, ◌%◌, ◌≤◌, ◌<◌, ◌≡◌, arith, refl}
use process_bus.Memory.{Memory, IsBytes, get_u16}
use process_bus.Memory.Frames.{Agree}
use process_bus.Frame.{sum_words, fold_carry, ipv4_checksum}

-- The loop ends by its test.
pub fold_carry_ends : (sum : ℕ) → sum < 4294967296 → fold_carry 2 sum < 65536
unfolding fold_carry
fold_carry_ends sum h = ground arith

pub fold_carry_mod : (sum : ℕ) → sum < 4294967296 → fold_carry 2 sum % 65535 ≡ sum % 65535
unfolding fold_carry
fold_carry_mod sum h = ground arith

pub fold_carry_pos : (sum : ℕ) → sum < 4294967296 → 0 < sum → 0 < fold_carry 2 sum
unfolding fold_carry
fold_carry_pos sum h p = ground arith

fold_carry_zero : (sum : ℕ) → sum ≡ 0 → fold_carry 2 sum ≡ 0
unfolding fold_carry
fold_carry_zero sum e = ground (arith, e)

-- The ten words of a header.
abbrev pub words : Memory → ℕ
words m =
    get_u16 m 0
    + get_u16 m 2
    + get_u16 m 4
    + get_u16 m 6
    + get_u16 m 8
    + get_u16 m 10
    + get_u16 m 12
    + get_u16 m 14
    + get_u16 m 16
    + get_u16 m 18

get_u16-le : (m : Memory) (i : ℕ) → IsBytes m → get_u16 m i ≤ 65535
get_u16-le m i h = omega (arith, h i, h (i + 1))

sum_words_step :
    (m : Memory) (n i sum : ℕ)
    → IsBytes m
    → sum ≤ 655350
    → sum_words m (suc n) i sum ≡ sum_words m n (i + 2) (sum + get_u16 m i)
unfolding sum_words
sum_words_step m n i sum b h = rw (lemma b) refl
  where
    lemma : IsBytes m → (sum + get_u16 m i) % 4294967296 ≡ sum + get_u16 m i
    lemma b = omega (arith, get_u16-le m i b)

pub sum_words-words : (m : Memory) → IsBytes m → sum_words m 10 0 0 ≡ words m
unfolding sum_words
sum_words-words m b = omega (
  arith,
  get_u16-le m 0 b,
  get_u16-le m 2 b,
  get_u16-le m 4 b,
  get_u16-le m 6 b,
  get_u16-le m 8 b,
  get_u16-le m 10 b,
  get_u16-le m 12 b,
  get_u16-le m 14 b,
  get_u16-le m 16 b,
  get_u16-le m 18 b,
)

pub words-le : (m : Memory) → IsBytes m → words m ≤ 655350
words-le m b = omega (
  arith,
  get_u16-le m 0 b,
  get_u16-le m 2 b,
  get_u16-le m 4 b,
  get_u16-le m 6 b,
  get_u16-le m 8 b,
  get_u16-le m 10 b,
  get_u16-le m 12 b,
  get_u16-le m 14 b,
  get_u16-le m 16 b,
  get_u16-le m 18 b,
)

pub ipv4_checksum-lt : (m : Memory) → ipv4_checksum m < 65536
unfolding ipv4_checksum
ipv4_checksum-lt m = omega arith

-- The words of a header with a zero checksum and its checksum are a positive multiple of 0xFFFF.
pub checksum_completes :
    (m : Memory)
    → IsBytes m
    → ((words m + ipv4_checksum m) % 65535 ≡ 0) × (0 < words m + ipv4_checksum m)
unfolding ipv4_checksum
checksum_completes m b = ground (
  arith,
  sum_words-words m b,
  words-le m b,
  fold_carry_ends (words m),
  fold_carry_mod (words m),
  fold_carry_zero (words m),
)

pub folds_to_ones :
    (sum : ℕ) → sum < 4294967296 → sum % 65535 ≡ 0 → 0 < sum → fold_carry 2 sum ≡ 65535
folds_to_ones sum h e p =
    omega (arith, fold_carry_ends sum h, fold_carry_mod sum h, fold_carry_pos sum h p)

-- The sum of `n` words from `i` on reads those words.
pub sum_words-agree :
    (n i sum : ℕ) (m m' : Memory)
    → Agree (i + 2 * n) m m'
    → sum_words m n i sum ≡ sum_words m' n i sum
unfolding sum_words
sum_words-agree zero i sum m m' h = refl
sum_words-agree (suc n) i sum m m' h =
    rw (h i (omega arith), h (i + 1) (omega arith))
      (sum_words-agree n (i + 2) ((sum + get_u16 m' i) % 4294967296) m m'
        (λ j lt. h j (omega arith)))

pub ipv4_checksum-agree : (m m' : Memory) → Agree 20 m m' → ipv4_checksum m ≡ ipv4_checksum m'
unfolding ipv4_checksum
ipv4_checksum-agree m m' h = rw (sum_words-agree 10 0 0 m m' h)
