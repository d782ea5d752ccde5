-- ===== src/Dpdk/UdmabufHeap/Strtoul.antt =====
-- `strtoul` with base 0 on the text of a sysfs file, as `readU64` of src/dpdk_cpp/udmabuf_heap.hpp
-- calls it.
use process_bus.Prelude.{
  ℕ, ◌+◌, ◌-◌, ◌*◌, ◌%◌, ◌^◌, Bool, ◌&&◌, ◌||◌, List, [], ◌∷◌, leb, ltb, ◌==◌, if◌then◌else◌,
}

abbrev between : ℕ → ℕ → ℕ → Bool
between lo hi c = leb lo c && leb c hi

-- The value of a character as a digit; 16 where it is none.
abbrev pub digit_value : ℕ → ℕ
digit_value c =
    if between 48 57 c
    then c - 48
    else if between 97 102 c
    then c - 87
    else if between 65 70 c
    then c - 55
    else 16

abbrev pub digits : ℕ → ℕ → List ℕ → ℕ
digits base sum [] = sum
digits base sum (c ∷ cs) =
    let rest = digits base (sum * base + digit_value c) cs in
    if ltb (digit_value c) base then rest else sum

-- A base of 16 after 0x, of 8 after 0, else of 10.
abbrev pub unsigned : List ℕ → ℕ
unsigned (c ∷ x ∷ d ∷ cs) =
    if c == 48 && (x == 120 || x == 88) && ltb (digit_value d) 16
    then digits 16 0 (d ∷ cs)
    else digits (if c == 48 then 8 else 10) 0 (c ∷ x ∷ d ∷ cs)
unsigned (c ∷ cs) = digits (if c == 48 then 8 else 10) 0 (c ∷ cs)
unsigned [] = 0

-- `ULONG_MAX` where the number does not fit.
abbrev pub saturate : ℕ → ℕ
saturate n = if ltb n (2 ^ 64) then n else 2 ^ 64 - 1

-- A minus sign negates a number that fits, in the arithmetic of `unsigned long`.
abbrev pub negate : ℕ → ℕ
negate n = if ltb n (2 ^ 64) then (2 ^ 64 - n) % 2 ^ 64 else 2 ^ 64 - 1

abbrev pub signed : List ℕ → ℕ
signed [] = 0
signed (c ∷ cs) =
    if c == 45
    then negate (unsigned cs)
    else if c == 43
    then saturate (unsigned cs)
    else saturate (unsigned (c ∷ cs))

unfoldable pub strtoul : List ℕ → ℕ
strtoul [] = 0
strtoul (c ∷ cs) =
    let rest = strtoul cs in if c == 32 || between 9 13 c then rest else signed (c ∷ cs)
