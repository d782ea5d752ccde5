-- ===== src/Generator/Amend/Streams.antt =====
-- The receiver counts no gap in a stream as a generator sends it, whatever the schedule.
use process_bus.Prelude.{
  ℕ, ◌+◌, ◌%◌, ◌<◌, ◌≡◌, inl, inr, refl, sym, ap, ◌∙◌, arith, List, [], ◌∷◌, length, ◌==◌, false,
  if◌then◌else◌, Bool-cases, ==_iff,
}
use process_bus.Memory.{Memory, get_u16, get_u32}
use process_bus.Parser.Asn1.{decode_asn1_number}
use process_bus.Stream.Sv.{new_sv_source}
use process_bus.Stream.Goose.{GooseSource, new_goose_source}
use process_bus.Stream.Goose
use process_bus.Generator.Plan.{times}
use process_bus.Generator.Units.{sv80, sv256, freq_of}
use process_bus.Generator.Sender.{amend_all}
use process_bus.Generator.Amend.{
  SvIed, SvLayout, GooseIed, GooseLayout, amend_packet_sv80, amend_packet_sv256, amend_packet_goose,
}
use process_bus.Generator.Amend.Counters.{
  IsSvLayout, IsGooseLayout, after_asdus-smp_cnt, get_u16-sv80, get_u16-sv256, get_u32-goose,
}
use process_bus.Generator.Amend.Receive.{
  of_idx, length-of_idx, shown, receive_sv, receive_goose, next_of, receive_sv-clean,
}

sv80-moves :
    (lay : SvLayout) (ieds : ℕ → SvIed) (idx j : ℕ)
    → lay.freq ≡ 4000
    → (ieds idx).smp_cnt < 4000
    → ((amend_packet_sv80 lay ieds idx).0 j).smp_cnt
      ≡ (if j == idx then next_of 1 4000 (ieds j).smp_cnt else (ieds j).smp_cnt)
unfolding amend_packet_sv80
sv80-moves lay ieds idx j freq lt = elim (Bool-cases (j == idx)) [
  | inl same ↦ let eq : j ≡ idx = (==_iff j idx).0 same in rw (same, freq, eq) (ground (arith, lt))
  | inr other ↦ rw other refl
]

sv256-moves :
    (lay : SvLayout) (ieds : ℕ → SvIed) (idx j : ℕ)
    → lay.freq ≡ 12800
    → (ieds idx).smp_cnt < 12800
    → (ieds idx).smp_cnt % 8 ≡ 0
    → ((amend_packet_sv256 lay ieds idx).0 j).smp_cnt
      ≡ (if j == idx then next_of 8 12800 (ieds j).smp_cnt else (ieds j).smp_cnt)
unfolding amend_packet_sv256
sv256-moves lay ieds idx j freq lt whole = elim (Bool-cases (j == idx)) [
  | inl same ↦
      let eq : j ≡ idx = (==_iff j idx).0 same in
      rw (same, eq)
        (after_asdus-smp_cnt lay 8 (ieds idx) (omega (arith, freq, lt))
            (omega (arith, freq, lt, whole))
          ∙ rw freq refl)
  | inr other ↦ rw other refl
]

decode_2 : (m : Memory) (p : ℕ) → decode_asn1_number m p 2 ≡ get_u16 m p
unfolding decode_asn1_number
decode_2 m p = refl

decode_4 : (m : Memory) (p : ℕ) → decode_asn1_number m p 4 ≡ get_u32 m p
unfolding decode_asn1_number
decode_4 m p = refl

goose_self :
    (lay : GooseLayout) (ieds : ℕ → GooseIed) (idx : ℕ)
    → ((amend_packet_goose lay ieds idx).0 idx).st_num ≡ ((ieds idx).st_num + 1) % 4294967296
unfolding amend_packet_goose
goose_self lay ieds idx = rw ((==_iff idx idx).1 refl) refl

goose_other :
    (lay : GooseLayout) (ieds : ℕ → GooseIed) (idx j : ℕ)
    → j == idx ≡ false
    → ((amend_packet_goose lay ieds idx).0 j).st_num ≡ (ieds j).st_num
unfolding amend_packet_goose
goose_other lay ieds idx j other = rw other refl

goose_next :
    (s : GooseSource) (n : ℕ)
    → n ≡ (s.st_num + 1) % 4294967296
    → let s1 = Goose.process_state s (record { timestamp = 0; st_num = n; sq_num = 0 }) in
      (s1.st_num ≡ n) × (s1.err_seq_cnt ≡ s.err_seq_cnt)
unfolding Goose.process_state
goose_next s n e = (refl, ground (arith, e))

receive_goose-clean :
    (lay : GooseLayout) (ds : List ℕ) (ieds : ℕ → GooseIed) (idx k : ℕ) (buffers : ℕ → Memory)
    (s : GooseSource)
    → IsGooseLayout lay
    → s.st_num ≡ (ieds idx).st_num
    → (receive_goose
        (shown lay.st_num_offset 4 buffers k
          (of_idx idx ds (amend_all (amend_packet_goose lay) ds ieds).1))
        s).err_seq_cnt
      ≡ s.err_seq_cnt
unfolding amend_all
receive_goose-clean lay [] ieds idx k buffers s h ready = refl
receive_goose-clean lay (d ∷ ds) ieds idx k buffers s h ready = elim (Bool-cases (d == idx)) [
  | inl same ↦
      let eq : d ≡ idx = (==_iff d idx).0 same in
      let n : ℕ = ((ieds d).st_num + 1) % 4294967296 in
      let read : decode_asn1_number ((amend_packet_goose lay ieds d).1 (buffers k))
            lay.st_num_offset 4
          ≡ n =
        decode_4 _ lay.st_num_offset ∙ get_u32-goose lay ieds d (buffers k) h in
      let s1 : GooseSource =
        Goose.process_state s (record { timestamp = 0; st_num = n; sq_num = 0 }) in
      let at : (ieds d).st_num ≡ s.st_num = ap (λ j. (ieds j).st_num) eq ∙ sym ready in
      let (seen, kept) = goose_next s n (ap (λ (m : ℕ). (m + 1) % 4294967296) at) in
      let moved : s1.st_num ≡ ((amend_packet_goose lay ieds d).0 idx).st_num =
        seen
        ∙ sym (goose_self lay ieds d)
        ∙ ap (λ j. ((amend_packet_goose lay ieds d).0 j).st_num) eq in
      rw (same, read)
        (receive_goose-clean lay ds (amend_packet_goose lay ieds d).0 idx (k + 1) buffers s1 h moved
          ∙ kept)
  | inr other ↦
      let differ : idx == d ≡ false = ground (arith, other) in
      rw other (
        receive_goose-clean lay ds (amend_packet_goose lay ieds d).0 idx k buffers s h
          (ready ∙ sym (goose_other lay ieds d idx differ)))
]

-- A new IED: no packet is sent yet.
abbrev pub new_sv_ieds : (ℕ → List ℕ) → ℕ → SvIed
new_sv_ieds sids j = record { sid = sids j; smp_cnt = 0 }

abbrev pub new_goose_ieds : (ℕ → List ℕ) → ℕ → GooseIed
new_goose_ieds sids j = record { sid = sids j; st_num = 0; sq_num = 0; timestamp = 0 }

good_256 :
    (c : ℕ) → c < 12800 → c % 8 ≡ 0 → (next_of 8 12800 c < 12800) × (next_of 8 12800 c % 8 ≡ 0)
good_256 c lt whole = ground (arith, lt, whole)

sv80-clean :
    (lay : SvLayout) (ds : List ℕ) (sids : ℕ → List ℕ) (idx : ℕ) (buffers : ℕ → Memory)
    → lay.freq ≡ freq_of sv80
    → let ps = (amend_all (amend_packet_sv80 lay) ds (new_sv_ieds sids)).1 in
      (receive_sv 1
        (shown (lay.smp_cnt_offset 0) 2 buffers 0 (of_idx idx ds ps))
        new_sv_source).err_smp_cnt
      ≡ 0
sv80-clean lay ds sids idx buffers freq =
    receive_sv-clean 1 4000 (lay.smp_cnt_offset 0) (amend_packet_sv80 lay) (λ c. c < 4000)
      (λ c good. omega (arith, good)) (λ c good. ground (arith, good))
      (λ ieds j m good.
        decode_2 _ (lay.smp_cnt_offset 0) ∙ get_u16-sv80 lay ieds j m (omega (arith, good)))
      (λ ieds i j good. sv80-moves lay ieds i j freq good) ds (new_sv_ieds sids) idx 0 buffers
      new_sv_source (λ j. omega arith) (inr refl)

sv256-clean :
    (lay : SvLayout) (ds : List ℕ) (sids : ℕ → List ℕ) (idx : ℕ) (buffers : ℕ → Memory)
    → IsSvLayout lay
    → lay.freq ≡ freq_of sv256
    → let ps = (amend_all (amend_packet_sv256 lay) ds (new_sv_ieds sids)).1 in
      (receive_sv 8
        (shown (lay.smp_cnt_offset 0) 2 buffers 0 (of_idx idx ds ps))
        new_sv_source).err_smp_cnt
      ≡ 0
sv256-clean lay ds sids idx buffers h freq =
    receive_sv-clean 8 12800 (lay.smp_cnt_offset 0) (amend_packet_sv256 lay)
      (λ c. (c < 12800) × (c % 8 ≡ 0)) (λ c good. omega (arith, good.0))
      (λ c good. good_256 c good.0 good.1)
      (λ ieds j m good.
        decode_2 _ (lay.smp_cnt_offset 0) ∙ get_u16-sv256 lay ieds j m h (omega (arith, good.0)))
      (λ ieds i j good. sv256-moves lay ieds i j freq good.0 good.1) ds (new_sv_ieds sids) idx 0
      buffers new_sv_source (λ j. (omega arith, omega arith)) (inr refl)

-- In whatever schedule `ds` the generators amend packets of their IEDs, and into whatever buffers, the
-- packets of each IED, as many as the schedule has of it, are in sequence for a receiver that sees them
-- from the first on: it counts no error of the sample counter, with 1 ASDU at 4000 samples and with 8
-- at 12800, and none of the state number, where the counters wrap included. The offsets have the order
-- that the encoding of the fields has.
pub streams-clean :
    (lay80 lay256 : SvLayout) (lay : GooseLayout) (ds : List ℕ) (sids : ℕ → List ℕ) (idx : ℕ)
    (buffers : ℕ → Memory)
    → lay80.freq ≡ freq_of sv80
    → lay256.freq ≡ freq_of sv256
    → IsSvLayout lay256
    → IsGooseLayout lay
    → let ps80 = of_idx idx ds (amend_all (amend_packet_sv80 lay80) ds (new_sv_ieds sids)).1 in
      let ps256 = of_idx idx ds (amend_all (amend_packet_sv256 lay256) ds (new_sv_ieds sids)).1 in
      let ps = of_idx idx ds (amend_all (amend_packet_goose lay) ds (new_goose_ieds sids)).1 in
      let cs80 = shown (lay80.smp_cnt_offset 0) 2 buffers 0 ps80 in
      let cs256 = shown (lay256.smp_cnt_offset 0) 2 buffers 0 ps256 in
      let ns = shown lay.st_num_offset 4 buffers 0 ps in
      ((receive_sv 1 cs80 new_sv_source).err_smp_cnt ≡ 0)
      × ((receive_sv 8 cs256 new_sv_source).err_smp_cnt ≡ 0)
      × ((receive_goose ns new_goose_source).err_seq_cnt ≡ 0)
      × (length ps80 ≡ times idx ds)
      × (length ps256 ≡ times idx ds)
      × (length ps ≡ times idx ds)
streams-clean lay80 lay256 lay ds sids idx buffers freq80 freq256 h g = (
  sv80-clean lay80 ds sids idx buffers freq80,
  sv256-clean lay256 ds sids idx buffers h freq256,
  receive_goose-clean lay ds (new_goose_ieds sids) idx 0 buffers new_goose_source g refl,
  length-of_idx (amend_packet_sv80 lay80) idx ds (new_sv_ieds sids),
  length-of_idx (amend_packet_sv256 lay256) idx ds (new_sv_ieds sids),
  length-of_idx (amend_packet_goose lay) idx ds (new_goose_ieds sids),
)
