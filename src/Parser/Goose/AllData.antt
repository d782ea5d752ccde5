-- ===== src/Parser/Goose/AllData.antt =====
-- The count of the entries of allData ends, and each entry lies within its level.
use process_bus.Prelude.{
  ℕ, zero, suc, ◌+◌, ◌-◌, ◌≤◌, ◌<◌, ◌≡◌, ◌≢◌, arith, inl, inr, some, Option-cases,
}
use process_bus.Prelude.Result.{stuck}
use process_bus.Memory.{Memory}
use process_bus.Parser.Asn1.{decode_asn1_len}
use process_bus.Parser.Goose.{entry_at, entries, parse_alldata}

-- A length takes between one byte and 128.
pub decode_asn1_len_bounds :
    (buf : Memory) (pos : ℕ)
    → pos + 128 < 4294967296
    → (pos < (decode_asn1_len buf pos).1) × ((decode_asn1_len buf pos).1 ≤ pos + 128)
unfolding decode_asn1_len
decode_asn1_len_bounds buf pos h = ground arith

pub entry_at_bounds :
    (buf : Memory) (end pos tag size p : ℕ)
    → end < 1073741824
    → pos < end
    → entry_at buf end pos ≡ some (tag, size, p)
    → (pos + 2 ≤ p) × (p + size ≤ end)
unfolding entry_at
entry_at_bounds buf end pos tag size p hi lt e =
    ground (arith, e, decode_asn1_len_bounds buf (pos + 1))

entries-ne-stuck :
    (fuel : ℕ) (buf : Memory) (end depth pos num : ℕ)
    → end < 1073741824
    → end - pos ≤ fuel
    → entries fuel buf end depth pos num ≢ stuck
unfolding entries
entries-ne-stuck zero buf end depth pos num hi h = ground arith
entries-ne-stuck (suc fuel) buf end depth pos num hi h =
    elim (Option-cases (entry_at buf end pos)) [
      | inl e ↦ ground (arith, e)
      | inr ((tag, size, p), e) ↦ ground (
        arith,
        e,
        entry_at_bounds buf end pos tag size p hi,
        entries-ne-stuck fuel buf end depth (p + size) (num + 1) hi,
        entries-ne-stuck fuel buf (p + size) (depth + 1) p 0,
      )
    ]

-- Counting the entries of allData ends on any bytes, given as many rounds as there are bytes: it
-- returns a number or the code for a malformed entry, for a frame below a gigabyte.
pub parse_alldata-ne-stuck :
    (fuel : ℕ) (buf : Memory) (pos end : ℕ)
    → end < 1073741824
    → end - pos ≤ fuel
    → parse_alldata fuel buf pos end ≢ stuck
unfolding parse_alldata
parse_alldata-ne-stuck fuel buf pos end hi h = entries-ne-stuck fuel buf end 0 pos 0 hi h
