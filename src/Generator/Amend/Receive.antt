-- ===== src/Generator/Amend/Receive.antt =====
-- A receiver that takes the counters of a stream, packet by packet.
use process_bus.Prelude.{
  ℕ, ◌+◌, ◌<◌, ◌≡◌, ◌⊎◌, inl, inr, refl, sym, ◌∙◌, arith, List, [], ◌∷◌, length, ◌==◌, false,
  if◌then◌else◌, Bool-cases, ==_iff,
}
use mathlib.Core.Path.{subst}
use process_bus.Memory.{Memory}
use process_bus.Parser.Asn1.{decode_asn1_number}
use process_bus.Stream.Sv.{SvSource, new_sv_source}
use process_bus.Stream.Goose.{GooseSource, new_goose_source}
use process_bus.Stream.Sv
use process_bus.Stream.Goose
use process_bus.Generator.Plan.{times}
use process_bus.Generator.Sender.{amend_all}
use process_bus.Generator.Amend.{SvIed}

-- The packets of the descriptors with index `idx`.
abbrev pub of_idx : {P : Type 0} → ℕ → List ℕ → List P → List P
of_idx idx [] ps = []
of_idx idx (d ∷ ds) [] = []
of_idx idx (d ∷ ds) (p ∷ ps) = if d == idx then p ∷ of_idx idx ds ps else of_idx idx ds ps

module _ {G P : Type 0} (amend : G → ℕ → G × P) where
  pub length-of_idx :
      (idx : ℕ) (ds : List ℕ) (g : G)
      → length (of_idx idx ds (amend_all amend ds g).1) ≡ times idx ds
  unfolding amend_all
  length-of_idx idx [] g = refl
  length-of_idx idx (d ∷ ds) g = ground (arith, length-of_idx idx ds (amend g d).0)

-- What the decoder of the receiver reads at an offset of packets, each written into a buffer of its own.
abbrev pub shown : ℕ → ℕ → (ℕ → Memory) → ℕ → List (Memory → Memory) → List ℕ
shown off size buffers k [] = []
shown off size buffers k (p ∷ ps) =
    decode_asn1_number (p (buffers k)) off size ∷ shown off size buffers (k + 1) ps

-- A source that takes the counters of a stream, `num` ASDUs per packet.
abbrev pub receive_sv : ℕ → List ℕ → SvSource → SvSource
receive_sv num [] s = s
receive_sv num (c ∷ cs) s = receive_sv num cs (Sv.process_state s num (record { smp_cnt = c }))

abbrev pub receive_goose : List ℕ → GooseSource → GooseSource
receive_goose [] s = s
receive_goose (n ∷ ns) s =
    receive_goose ns (Goose.process_state s (record { timestamp = 0; st_num = n; sq_num = 0 }))

-- The counter moves by `num` and starts again at `freq`, which it meets.
abbrev pub next_of : ℕ → ℕ → ℕ → ℕ
next_of num freq c = if c + num == freq then 0 else c + num

-- The counter is what the source expects, or zero.
abbrev Expected : ℕ → SvSource → ℕ → Type 0
Expected num s c = (c ≡ s.smp_cnt + num) ⊎ (c ≡ 0)

next_of-cases : (num freq c : ℕ) → (next_of num freq c ≡ c + num) ⊎ (next_of num freq c ≡ 0)
next_of-cases num freq c = elim (Bool-cases (c + num == freq)) [
  | inl full ↦ rw full (inr refl)
  | inr more ↦ rw more (inl refl)
]

process_state-Expected :
    (num freq c : ℕ) (s : SvSource)
    → c < 65536
    → Expected num s c
    → ((Sv.process_state s num (record { smp_cnt = c })).err_smp_cnt ≡ s.err_smp_cnt)
      × Expected num (Sv.process_state s num (record { smp_cnt = c })) (next_of num freq c)
unfolding Sv.process_state
process_state-Expected num freq c s lt (inl e) = (ground (arith, e, lt), next_of-cases num freq c)
process_state-Expected num freq c s lt (inr e) = (ground (arith, e), next_of-cases num freq c)

module _ (num freq off : ℕ) (amend : (ℕ → SvIed) → ℕ → (ℕ → SvIed) × (Memory → Memory))
    (Good : ℕ → Type 0) (good-lt : (c : ℕ) → Good c → c < 65536)
    (good-next : (c : ℕ) → Good c → Good (next_of num freq c))
    (reads : (ieds : ℕ → SvIed) (idx : ℕ) (m : Memory)
      → Good (ieds idx).smp_cnt
      → decode_asn1_number ((amend ieds idx).1 m) off 2 ≡ (ieds idx).smp_cnt)
    (moves : (ieds : ℕ → SvIed) (idx j : ℕ)
      → Good (ieds idx).smp_cnt
      → ((amend ieds idx).0 j).smp_cnt
        ≡ (if j == idx then next_of num freq (ieds j).smp_cnt else (ieds j).smp_cnt)) where
  moves-Good :
      (ieds : ℕ → SvIed) (idx : ℕ)
      → ((j : ℕ) → Good (ieds j).smp_cnt)
      → (j : ℕ) → Good ((amend ieds idx).0 j).smp_cnt
  moves-Good ieds idx good j = rw (moves ieds idx j (good idx)) (elim (Bool-cases (j == idx)) [
    | inl same ↦ rw same (good-next (ieds j).smp_cnt (good j))
    | inr other ↦ rw other (good j)
  ])

  pub receive_sv-clean :
      (ds : List ℕ) (ieds : ℕ → SvIed) (idx k : ℕ) (buffers : ℕ → Memory) (s : SvSource)
      → ((j : ℕ) → Good (ieds j).smp_cnt)
      → Expected num s (ieds idx).smp_cnt
      → (receive_sv num
          (shown off 2 buffers k (of_idx idx ds (amend_all amend ds ieds).1))
          s).err_smp_cnt
        ≡ s.err_smp_cnt
  unfolding amend_all
  receive_sv-clean [] ieds idx k buffers s good ready = refl
  receive_sv-clean (d ∷ ds) ieds idx k buffers s good ready =
      let later = moves-Good ieds d good in
      elim (Bool-cases (d == idx)) [
        | inl same ↦
            let eq : d ≡ idx = (==_iff d idx).0 same in
            let c : ℕ = (ieds d).smp_cnt in
            let (kept, next) =
              process_state-Expected num freq c s (good-lt c (good d))
                (subst (λ j. Expected num s (ieds j).smp_cnt) (sym eq) ready) in
            let moved : ((amend ieds d).0 idx).smp_cnt ≡ next_of num freq c =
              subst (λ j. ((amend ieds d).0 j).smp_cnt ≡ next_of num freq c) eq
                (moves ieds d d (good d) ∙ rw ((==_iff d d).1 refl) refl) in
            rw (same, reads ieds d (buffers k) (good d))
              (receive_sv-clean ds (amend ieds d).0 idx (k + 1) buffers _ later (rw moved next)
                ∙ kept)
        | inr other ↦
            let differ : idx == d ≡ false = ground (arith, other) in
            let stays : ((amend ieds d).0 idx).smp_cnt ≡ (ieds idx).smp_cnt =
              moves ieds d idx (good d) ∙ rw differ refl in
            rw other (receive_sv-clean ds (amend ieds d).0 idx k buffers s later (rw stays ready))
      ]
