-- ===== src/Parser/Goose/Levels.antt =====
-- The nested levels of allData as a grammar, and the count of their entries.
use process_bus.Prelude.{
  ℕ, zero, suc, ◌+◌, ◌-◌, ◌≤◌, ◌<◌, ◌≡◌, ◌↔◌, arith, inl, inr, Bool, true, false, ◌||◌, Bool-cases,
  ltb, ◌==◌, some, Option-cases,
}
use process_bus.Prelude.Result.{ok, Result-cases}
use process_bus.Memory.{Memory}
use process_bus.Parser.Asn1.{decode_asn1_len, advance}
use process_bus.Parser.Goose.{entry_at, entries, parse_alldata}
use process_bus.Parser.Goose.AllData.{decode_asn1_len_bounds, entry_at_bounds}

-- An entry at `pos`, whose value of `size` bytes starts at `p` and ends within the level.
pub record Entry (buf : Memory) (end pos size p : ℕ) : Type 0 where
  pub inside : pos + 1 < end
  pub length : decode_asn1_len buf (pos + 1) ≡ (size, p)
  pub fits : p + size ≤ end

-- The tag of an array or a structure.
abbrev pub nests : ℕ → Bool
nests tag = tag == 0xa1 || tag == 0xa2

-- `n` entries from `pos` to `end` at some depth, those of an array or a structure with a level of its
-- own inside, no level deeper than 8.
pub data Level (buf : Memory) : ℕ → ℕ → ℕ → ℕ → Type 0 where
  no_more : {depth end pos : ℕ} → end ≤ pos → Level buf depth end pos 0
  plain :
      {depth end pos size p n : ℕ}
      → Entry buf end pos size p
      → nests (buf pos) ≡ false
      → Level buf depth end (p + size) n
      → Level buf depth end pos (suc n)
  nested :
      {depth end pos size p k n : ℕ}
      → Entry buf end pos size p
      → nests (buf pos) ≡ true
      → depth < 8
      → Level buf (depth + 1) (p + size) p k
      → Level buf depth end (p + size) n
      → Level buf depth end pos (suc n)

entry_at-Entry :
    (buf : Memory) (end pos tag size p : ℕ)
    → end < 1073741824
    → pos < end
    → entry_at buf end pos ≡ some (tag, size, p)
    → Entry buf end pos size p × (buf pos ≡ tag)
unfolding entry_at
entry_at-Entry buf end pos tag size p hi lt e =
    let b = entry_at_bounds buf end pos tag size p hi lt e in
    (
      record { inside = ground (arith, e); length = ground (arith, e); fits = omega (arith, b) },
      ground (arith, e),
    )

entry_at_of :
    (buf : Memory) (end pos size p : ℕ)
    → end < 1073741824
    → Entry buf end pos size p
    → entry_at buf end pos ≡ some (buf pos, size, p)
unfolding entry_at
entry_at_of buf end pos size p hi h =
    let b = decode_asn1_len_bounds buf (pos + 1) (omega (arith, h.inside)) in
    ground (arith, h.length, b)

value_after :
    (buf : Memory) (end pos size p : ℕ) → end < 1073741824 → Entry buf end pos size p → pos + 1 < p
value_after buf end pos size p hi h =
    let b = decode_asn1_len_bounds buf (pos + 1) (omega (arith, h.inside)) in
    ground (arith, h.length, b)

entries-Level :
    (fuel : ℕ) (buf : Memory) (end depth pos num n : ℕ)
    → end < 1073741824
    → entries fuel buf end depth pos num ≡ ok n
    → (num ≤ n) × Level buf depth end pos (n - num)
unfolding entries
entries-Level zero buf end depth pos num n hi e =
    let same : n ≡ num = ground (arith, e) in
    let none_left : num - num ≡ 0 = omega arith in
    (omega (arith, same), rw (same, none_left) (no_more (ground (arith, e))))
entries-Level (suc fuel) buf end depth pos num n hi e = elim (Bool-cases (ltb pos end)) [
  | inr x ↦
      let same : n ≡ num = ground (arith, e, x) in
      let none_left : num - num ≡ 0 = omega arith in
      (omega (arith, same), rw (same, none_left) (no_more (ground (arith, x))))
  | inl x ↦ elim (Option-cases (entry_at buf end pos)) [
    | inl y ↦ absurd (ground (arith, e, x, y))
    | inr ((tag, size, p), y) ↦
        let lt : pos < end = ground (arith, x) in
        let (entry, at) = entry_at-Entry buf end pos tag size p hi lt y in
        let next : advance p size ≡ p + size = omega (arith, entry.fits) in
        elim (Bool-cases (nests tag)) [
          | inr z ↦
              let (le, rest) =
                entries-Level fuel buf end depth (p + size) (num + 1) n hi
                  (ground (arith, e, x, y, z, next)) in
              let count : n - num ≡ suc (n - (num + 1)) = omega (arith, le) in
              (omega (arith, le), rw count (plain entry (rw at z) rest))
          | inl z ↦ elim (Result-cases (entries fuel buf (p + size) (depth + 1) p 0)) [
            | inl (k, w) ↦
                let (le, rest) =
                  entries-Level fuel buf end depth (p + size) (num + 1) n hi
                    (ground (arith, e, x, y, z, w, next)) in
                let (_, inner) =
                  entries-Level fuel buf (p + size) (depth + 1) p 0 k (omega (arith, entry.fits))
                    w in
                let count : n - num ≡ suc (n - (num + 1)) = omega (arith, le) in
                let shallow : depth < 8 = ground (arith, e, x, y, z) in
                (omega (arith, le), rw count (nested entry (rw at z) shallow inner rest))
            | inr (inl (c, w)) ↦ absurd (ground (arith, e, x, y, z, w, next))
            | inr (inr w) ↦ absurd (ground (arith, e, x, y, z, w, next))
          ]
        ]
  ]
]

entries_of-Level :
    (fuel : ℕ) (buf : Memory) (end depth pos num n : ℕ)
    → end < 1073741824
    → end - pos ≤ fuel
    → Level buf depth end pos n
    → entries fuel buf end depth pos num ≡ ok (num + n)
unfolding entries
entries_of-Level zero buf end depth pos num n hi h (no_more le) = ground arith
entries_of-Level zero buf end depth pos num (suc n) hi h (plain entry leaf rest) =
    absurd (omega (arith, entry.inside))
entries_of-Level zero buf end depth pos num (suc n) hi h (nested entry in_it shallow inner rest) =
    absurd (omega (arith, entry.inside))
entries_of-Level (suc fuel) buf end depth pos num n hi h (no_more le) = ground arith
entries_of-Level (suc fuel) buf end depth pos num (suc n) hi h
      (plain {size = size} {p = p} entry leaf rest) =
    let far : pos + 1 < p = value_after buf end pos size p hi entry in
    let next : advance p size ≡ p + size = omega (arith, entry.fits) in
    let lt : pos < end = omega (arith, entry.inside) in
    ground (
      arith,
      entry_at_of buf end pos size p hi entry,
      leaf,
      next,
      entries_of-Level fuel buf end depth (p + size) (num + 1) n hi (omega (arith, h, far)) rest,
    )
entries_of-Level (suc fuel) buf end depth pos num (suc n) hi h
      (nested {size = size} {p = p} {k = k} entry in_it shallow inner rest) =
    let far : pos + 1 < p = value_after buf end pos size p hi entry in
    let next : advance p size ≡ p + size = omega (arith, entry.fits) in
    let lt : pos < end = omega (arith, entry.inside) in
    ground (
      arith,
      entry_at_of buf end pos size p hi entry,
      in_it,
      next,
      entries_of-Level fuel buf (p + size) (depth + 1) p 0 k (omega (arith, hi, entry.fits))
          (omega (arith, h, far, entry.fits)) inner,
      entries_of-Level fuel buf end depth (p + size) (num + 1) n hi (omega (arith, h, far)) rest,
    )

-- With as many rounds as the level has bytes, the count of the entries of allData succeeds exactly on
-- the levels of the grammar, with the number of entries of the outer one: each entry within its level,
-- arrays and structures recursively so, and at most eight of them inside one another.
pub parse_alldata_iff :
    (fuel : ℕ) (buf : Memory) (pos end n : ℕ)
    → end < 1073741824
    → end - pos ≤ fuel
    → (parse_alldata fuel buf pos end ≡ ok n) ↔ Level buf 0 end pos n
unfolding parse_alldata
parse_alldata_iff fuel buf pos end n hi h = (
  λ e.
      let (le, level) = entries-Level fuel buf end 0 pos 0 n hi e in
      let whole : n ≡ n - 0 = omega arith in rw whole level,
  λ level. ground (arith, entries_of-Level fuel buf end 0 pos 0 n hi h level),
)
