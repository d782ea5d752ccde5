-- ===== src/Parser/Sv/Total.antt =====
-- The walker of a Sampled Values APDU ends on every input: its fuel is enough.
use process_bus.Prelude.{ℕ, zero, suc, ◌+◌, ◌-◌, ◌≤◌, ◌≡◌, ◌≢◌, inl, inr, arith, Option-cases}
use process_bus.Prelude.Result.{ok, stuck, Result-cases}
use process_bus.Memory.{Memory}
use process_bus.Parser.Asn1.{value_length, take_tlv}
use process_bus.Parser.Asn1.Bounded.{value_length_bounds, take_tlv_bounds}
use process_bus.Parser.Sv.{
  Asdu, Apdu, new_asdu, new_apdu, field_value, field_step, walk_fields, join_asdu, asdu_step,
  walk_asdus, declared_asdus, parse_sv_apdu,
}

field_value-ne-stuck :
    (m : Memory) (pos length tag : ℕ) (a : Asdu) → field_value m pos length tag a ≢ stuck
unfolding field_value
field_value-ne-stuck m pos length tag a = ground arith

field_step-ne-stuck : (m : Memory) (end pos : ℕ) (a : Asdu) → field_step m end pos a ≢ stuck
unfolding field_step
field_step-ne-stuck m end pos a = elim (Option-cases (value_length m end (pos + 1))) [
  | inl e ↦ rw e (ground arith)
  | inr ((length, p), e) ↦
      rw e (
        ground (arith, field_value-ne-stuck m p length (m pos) (record a { previous_tag = m pos })))
]

-- A field takes two bytes at least and ends within the ASDU.
pub field_step_bounds :
    (m : Memory) (end pos p : ℕ) (a a' : Asdu)
    → field_step m end pos a ≡ ok (p, a')
    → (pos + 2 ≤ p) × (p ≤ end)
unfolding field_step
field_step_bounds m end pos p a a' e = elim (Option-cases (value_length m end (pos + 1))) [
  | inl x ↦ ground (arith, e, x)
  | inr ((length, q), x) ↦ ground (arith, e, x, value_length_bounds m end (pos + 1) length q x)
]

walk_fields-ne-stuck :
    (fuel : ℕ) (m : Memory) (end pos : ℕ) (a : Asdu)
    → end - pos ≤ fuel
    → walk_fields fuel m end pos a ≢ stuck
unfolding walk_fields
walk_fields-ne-stuck zero m end pos a h = ground arith
walk_fields-ne-stuck (suc fuel) m end pos a h = elim (Result-cases (field_step m end pos a)) [
  | inl ((p, a'), e) ↦
      ground (arith, e, field_step_bounds m end pos p a a' e, walk_fields-ne-stuck fuel m end p a')
  | inr (inl (c, e)) ↦ ground (arith, e)
  | inr (inr e) ↦ absurd (field_step-ne-stuck m end pos a e)
]

-- The loop over the fields of an ASDU that succeeds ends exactly at the end of the ASDU.
pub walk_fields-end :
    (fuel : ℕ) (m : Memory) (end pos p : ℕ) (a a' : Asdu)
    → pos ≤ end
    → walk_fields fuel m end pos a ≡ ok (p, a')
    → p ≡ end
unfolding walk_fields
walk_fields-end zero m end pos p a a' h e = ground arith
walk_fields-end (suc fuel) m end pos p a a' h e = elim (Result-cases (field_step m end pos a)) [
  | inl ((q, b), x) ↦
      ground (arith, e, x, field_step_bounds m end pos q a b x, walk_fields-end fuel m end q p b a')
  | inr (inl (c, x)) ↦ ground (arith, e, x)
  | inr (inr x) ↦ ground (arith, e, x)
]

join_asdu-ne-stuck : (n : ℕ) (r : Apdu) (a : Asdu) → join_asdu n r a ≢ stuck
unfolding join_asdu
join_asdu-ne-stuck n r a = ground arith

asdu_step-ne-stuck :
    (fuel : ℕ) (m : Memory) (end pos n : ℕ) (r : Apdu)
    → end - pos ≤ suc fuel
    → asdu_step fuel m end pos n r ≢ stuck
unfolding asdu_step
asdu_step-ne-stuck fuel m end pos n r h = elim (Option-cases (take_tlv m end pos 0x30)) [
  | inl e ↦ rw e (ground arith)
  | inr ((p, asdu_end), e) ↦
      let b = take_tlv_bounds m end pos 0x30 p asdu_end e in
      rw e (elim (Result-cases (walk_fields fuel m asdu_end p new_asdu)) [
        | inl ((q, a), x) ↦ rw x (ground (arith, join_asdu-ne-stuck n r a))
        | inr (inl (c, x)) ↦ rw x (ground arith)
        | inr (inr x) ↦
            absurd (walk_fields-ne-stuck fuel m asdu_end p new_asdu (omega (arith, b)) x)
      ])
]

-- An ASDU takes two bytes at least and ends within the sequence.
pub asdu_step_bounds :
    (fuel : ℕ) (m : Memory) (end pos n p : ℕ) (r r' : Apdu)
    → asdu_step fuel m end pos n r ≡ ok (p, r')
    → (pos + 2 ≤ p) × (p ≤ end)
unfolding asdu_step
asdu_step_bounds fuel m end pos n p r r' e = elim (Option-cases (take_tlv m end pos 0x30)) [
  | inl x ↦ cc (rw x at e)
  | inr ((q, asdu_end), x) ↦
      let b = take_tlv_bounds m end pos 0x30 q asdu_end x in
      elim (Result-cases (walk_fields fuel m asdu_end q new_asdu)) [
        | inl ((z, a), y) ↦ ground (
          arith,
          rw (x, y) at e,
          b,
          walk_fields-end fuel m asdu_end q z new_asdu a (omega (arith, b)) y,
        )
        | inr (inl (c, y)) ↦ ground (arith, e, x, y)
        | inr (inr y) ↦ ground (arith, e, x, y)
      ]
]

walk_asdus-ne-stuck :
    (fuel : ℕ) (m : Memory) (end pos n : ℕ) (r : Apdu)
    → end - pos ≤ fuel
    → walk_asdus fuel m end pos n r ≢ stuck
unfolding walk_asdus
walk_asdus-ne-stuck zero m end pos n r h = ground arith
walk_asdus-ne-stuck (suc fuel) m end pos n r h =
    elim (Result-cases (asdu_step fuel m end pos n r)) [
      | inl ((p, r'), e) ↦ ground (
        arith,
        e,
        asdu_step_bounds fuel m end pos n p r r' e,
        walk_asdus-ne-stuck fuel m end p (n + 1) r',
      )
      | inr (inl (c, e)) ↦ ground (arith, e)
      | inr (inr e) ↦ absurd (asdu_step-ne-stuck fuel m end pos n r h e)
    ]

declared_asdus-ne-stuck : (m : Memory) (end pos : ℕ) → declared_asdus m end pos ≢ stuck
unfolding declared_asdus
declared_asdus-ne-stuck m end pos = elim (Option-cases (value_length m end (pos + 1))) [
  | inl e ↦ rw e (ground arith)
  | inr (x, e) ↦ rw e (ground arith)
]

-- The walker of a Sampled Values APDU ends on every buffer and size with a result or an error code:
-- as many rounds as the APDU has bytes are enough for both loops.
pub parse_sv_apdu-ne-stuck : (apdu : Memory) (size : ℕ) → parse_sv_apdu apdu size ≢ stuck
unfolding parse_sv_apdu
parse_sv_apdu-ne-stuck m size = elim (Option-cases (take_tlv m size 0 0x60)) [
  | inl e ↦ rw e (ground arith)
  | inr ((start, pdu_end), e) ↦ rw e (elim (Result-cases (declared_asdus m pdu_end start)) [
    | inl ((n, pos), x) ↦ rw x (elim (Option-cases (take_tlv m pdu_end pos 0xa2)) [
      | inl y ↦ rw y (ground arith)
      | inr ((first, end), y) ↦ rw y (
          ground (
            arith,
            take_tlv_bounds m size 0 0x60 start pdu_end e,
            take_tlv_bounds m pdu_end pos 0xa2 first end y,
            walk_asdus-ne-stuck size m end first 0 new_apdu,
          ))
    ])
    | inr (inl (c, x)) ↦ rw x (ground arith)
    | inr (inr x) ↦ absurd (declared_asdus-ne-stuck m pdu_end start x)
  ])
]
