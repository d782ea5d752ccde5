-- ===== src/Generator/Units/Order.antt =====
-- What a schedule holds: at each moment each IED once.
use process_bus.Prelude.{
  ℕ, zero, suc, ◌+◌, ◌*◌, ◌/◌, ◌%◌, ◌≤◌, ◌<◌, ◌≡◌, refl, sym, ap, ◌∙◌, arith, Bool-cases, inl, inr,
  ltb, List, [], ◌∷◌, ◌++◌, All, length, get_elem?, some, consecutive, consecutive-add,
  length-consecutive,
}
use mathlib.Core.List.{append-nil, append_assoc}
use native.Mathlib.Nat.{suc-mul, mul-le-mul_right, mul_comm, div-add-mod', mod-lt}
use process_bus.Generator.Units.{
  TxBlock, TxUnit, fill_block, full_blocks, make_blocks, units_from, generate_tx_units,
  create_tx_units,
}

-- The packets of the blocks, in the order in which they are sent.
abbrev pub packets : List TxBlock → List ℕ
packets [] = []
packets (b ∷ bs) = b ++ packets bs

-- A block that is not empty and not larger than a bunch.
abbrev pub Fits : ℕ → TxBlock → Type 0
Fits bunch_size b = (1 ≤ length b) × (length b ≤ bunch_size)

fill_block-eq : (n i : ℕ) → fill_block n i ≡ consecutive i n
unfolding fill_block
fill_block-eq zero i = refl
fill_block-eq (suc n) i = ap (λ xs. i ∷ xs) (fill_block-eq n (i + 1))

fill_block-Fits : (size n i : ℕ) → 1 ≤ n → n ≤ size → Fits size (fill_block n i)
fill_block-Fits size n i lo hi =
    let e = length-consecutive n i in rw (fill_block-eq n i, e) (lo, hi)

packets-append : (bs cs : List TxBlock) → packets (bs ++ cs) ≡ packets bs ++ packets cs
packets-append [] cs = refl
packets-append (b ∷ bs) cs =
    ap (λ xs. b ++ xs) (packets-append bs cs) ∙ sym (append_assoc b (packets bs) (packets cs))

All-append {κ} :
    (P : TxBlock → Type κ) (bs cs : List TxBlock) → All P bs → All P cs → All P (bs ++ cs)
All-append P [] cs h k = k
All-append P (b ∷ bs) cs (h, hs) k = (h, All-append P bs cs hs k)

full_blocks-packets :
    (size n i : ℕ)
    → 1 ≤ size
    → (packets (full_blocks size n i).0 ≡ consecutive i (n * size))
      × ((full_blocks size n i).1 ≡ i + n * size)
      × All (Fits size) (full_blocks size n i).0
unfolding full_blocks
full_blocks-packets size zero i one =
    let none_left : 0 ≡ 0 * size = omega arith in (ap (consecutive i) none_left, omega arith, tt)
full_blocks-packets size (suc n) i one =
    let (same, last, fit) = full_blocks-packets size n (i + size) one in
    (
      rw (fill_block-eq size i, same, suc-mul n size)
          (consecutive-add size (n * size) i ∙ ap (consecutive i) (omega arith)),
      omega (arith, last, suc-mul n size),
      (fill_block-Fits size size i one (omega arith), fit),
    )

make_blocks-packets :
    (size ieds : ℕ)
    → 1 ≤ size
    → (packets (make_blocks size ieds) ≡ consecutive 0 ieds)
      × All (Fits size) (make_blocks size ieds)
unfolding make_blocks
make_blocks-packets size ieds one =
    let (same, last, fit) = full_blocks-packets size (ieds / size) 0 one in
    let whole = div-add-mod' ieds size in
    let below = mod-lt ieds {m = size} one in
    elim (Bool-cases (ltb 0 (ieds % size))) [
      | inl some_left ↦ rw some_left (
        packets-append (full_blocks size (ieds / size) 0).0 _
            ∙ rw
                (
                  same,
                  append-nil (fill_block (ieds % size) (full_blocks size (ieds / size) 0).1),
                  fill_block-eq,
                  last,
                )
                (consecutive-add (ieds / size * size) (ieds % size) 0 ∙ ap (consecutive 0) whole),
        All-append (Fits size) (full_blocks size (ieds / size) 0).0 _ fit (
          fill_block-Fits size (ieds % size) _ (ground (arith, some_left)) (omega (arith, below)),
          tt,
        ),
      )
      | inr none_left ↦
          rw none_left (same ∙ ap (consecutive 0) (ground (arith, none_left, whole)), fit)
    ]

pub length-units_from : (size ieds pps n k : ℕ) → length (units_from size ieds pps n k) ≡ n
unfolding units_from
length-units_from size ieds pps zero k = refl
length-units_from size ieds pps (suc n) k = ap suc (length-units_from size ieds pps n (k + 1))

-- The `i`-th moment of the schedule: its offset from the start of the second, a second being `pps`
-- moments and each moment its `1 / pps` of it, and its packets.
abbrev pub InOrder : ℕ → ℕ → ℕ → ℕ → List TxUnit → Type 0
InOrder bunch_size ieds pps i units =
    (u : TxUnit) × (get_elem? units i ≡ some u)
    × (u.offset_us ≡ 1000000 / pps * i)
    × (u.offset_us + 1000000 / pps ≤ 1000000)
    × (packets u.blocks ≡ consecutive 0 ieds)
    × All (Fits bunch_size) u.blocks

get_elem?-units_from :
    (size ieds pps n k i : ℕ)
    → i < n
    → get_elem? (units_from size ieds pps n k) i
      ≡ some (record { offset_us = 1000000 / pps * (k + i); blocks = make_blocks size ieds })
unfolding units_from
get_elem?-units_from size ieds pps zero k i lt = absurd (omega arith)
get_elem?-units_from size ieds pps (suc n) k zero lt =
    let here : k + 0 ≡ k = omega arith in rw here refl
get_elem?-units_from size ieds pps (suc n) k (suc i) lt =
    let next : k + suc i ≡ k + 1 + i = omega arith in
    rw next (get_elem?-units_from size ieds pps n (k + 1) i (omega arith))

moment-ends : (pps i : ℕ) → i < pps → 1000000 / pps * i + 1000000 / pps ≤ 1000000
moment-ends pps i lt =
    let end = mul-le-mul_right (1000000 / pps) lt in
    let turned = mul_comm (1000000 / pps) i in
    omega (
      arith,
      end,
      suc-mul i (1000000 / pps),
      turned,
      mul_comm (1000000 / pps) pps,
      div-add-mod' 1000000 pps,
    )

pub units_from-InOrder :
    (size ieds pps i : ℕ)
    → 1 ≤ size
    → i < pps
    → InOrder size ieds pps i (units_from size ieds pps pps 0)
units_from-InOrder size ieds pps i one lt =
    let u : TxUnit = record {
      offset_us = 1000000 / pps * (0 + i);
      blocks = make_blocks size ieds;
    } in
    let (same, fit) = make_blocks-packets size ieds one in
    let here : 0 + i ≡ i = omega arith in
    let begins : u.offset_us ≡ 1000000 / pps * i = ap (λ j. 1000000 / pps * j) here in
    (
      u,
      get_elem?-units_from size ieds pps pps 0 i lt,
      begins,
      rw begins (moment-ends pps i lt),
      same,
      fit,
    )

-- At each moment of a second the GOOSE generator and the SV generator send every IED once, in the
-- order of the IEDs, in blocks of 1 to 32 and of 1 to 64 packets; the moments start one after another
-- at equal distances, the first at the start of the second, and the last ends within it: for `pps`
-- moments, `i` one of them.
pub tx_units-InOrder :
    (ieds pps i : ℕ)
    → i < pps
    → InOrder 32 ieds pps i (generate_tx_units ieds pps)
      × InOrder 64 ieds pps i (create_tx_units ieds pps)
unfolding generate_tx_units create_tx_units
tx_units-InOrder ieds pps i lt = (
  units_from-InOrder 32 ieds pps i (omega arith) lt,
  units_from-InOrder 64 ieds pps i (omega arith) lt,
)
