-- ===== src/Parser/Sv/Reads.antt =====
-- The walker of a Sampled Values APDU looks at no byte from its size on.
use process_bus.Prelude.{
  ℕ, zero, suc, ◌+◌, ◌*◌, ◌≤◌, ◌<◌, ◌≡◌, inl, inr, refl, arith, ltb, Bool-cases, Option-cases,
}
use process_bus.Prelude.Result.{Result-cases}
use process_bus.Memory.{Memory, slice}
use process_bus.Memory.Frames.{Agree, slice-eq}
use process_bus.Parser.Asn1.{value_length, take_tlv}
use process_bus.Parser.Asn1.Bounded.{value_length_bounds, take_tlv_bounds}
use process_bus.Parser.Asn1.Reads.{value_length-agree, take_tlv-agree, decode_asn1_number-agree}
use process_bus.Parser.Sv.{
  Asdu, Apdu, new_asdu, new_apdu, check_quality, field_value, field_step, walk_fields, asdu_step,
  walk_asdus, declared_asdus, parse_sv_apdu,
}

module _ (m m' : Memory) (size : ℕ) (h : Agree size m m') where
  front : (end : ℕ) → end ≤ size → Agree end m m'
  front end le i lt = h i (omega arith)

  check_quality-agree :
      (n pos off : ℕ)
      → pos + off + 8 * n ≤ size + 4
      → check_quality m pos n off ≡ check_quality m' pos n off
  unfolding check_quality
  check_quality-agree zero pos off le = refl
  check_quality-agree (suc n) pos off le = rw (
    decode_asn1_number-agree m m' size (pos + off) 4 h (omega arith),
    check_quality-agree n pos (off + 8) (omega arith),
  )

  slice-agree : (n pos : ℕ) → pos + n ≤ size → slice m pos n ≡ slice m' pos n
  slice-agree n pos le = slice-eq n pos m m' (λ i lo hi. h i (omega arith))

  field_value-agree :
      (pos length tag : ℕ) (a : Asdu)
      → pos + length ≤ size
      → field_value m pos length tag a ≡ field_value m' pos length tag a
  unfolding field_value
  field_value-agree pos length tag a le = ground (
    arith,
    slice-agree length pos le,
    decode_asn1_number-agree m m' size pos length h le,
    check_quality-agree 8 pos 4,
  )

  field_step-agree :
      (end pos : ℕ) (a : Asdu)
      → pos < end
      → end ≤ size
      → field_step m end pos a ≡ field_step m' end pos a
  unfolding field_step
  field_step-agree end pos a lt le =
      rw (h pos (omega arith), value_length-agree m m' end (pos + 1) (front end le))
        (elim (Option-cases (value_length m' end (pos + 1))) [
          | inl e ↦ rw e
          | inr ((length, p), e) ↦
              let b = value_length_bounds m' end (pos + 1) length p e in
              rw (
                e,
                field_value-agree p length (m' pos) (record a { previous_tag = m' pos })
                    (omega (arith, b)),
              )
        ])

  walk_fields-agree :
      (fuel end pos : ℕ) (a : Asdu)
      → end ≤ size
      → walk_fields fuel m end pos a ≡ walk_fields fuel m' end pos a
  unfolding walk_fields
  walk_fields-agree zero end pos a le = refl
  walk_fields-agree (suc fuel) end pos a le = elim (Bool-cases (ltb pos end)) [
    | inr e ↦ ground (arith, e)
    | inl e ↦
        let same = field_step-agree end pos a (ground (arith, e)) le in
        elim (Result-cases (field_step m' end pos a)) [
          | inl ((p, a'), x) ↦ ground (arith, e, same, x, walk_fields-agree fuel end p a' le)
          | inr (inl (c, x)) ↦ ground (arith, e, same, x)
          | inr (inr x) ↦ ground (arith, e, same, x)
        ]
  ]

  asdu_step-agree :
      (fuel end pos n : ℕ) (r : Apdu)
      → end ≤ size
      → asdu_step fuel m end pos n r ≡ asdu_step fuel m' end pos n r
  unfolding asdu_step
  asdu_step-agree fuel end pos n r le =
      rw (take_tlv-agree m m' end pos 0x30 (front end le))
        (elim (Option-cases (take_tlv m' end pos 0x30)) [
          | inl e ↦ rw e
          | inr ((p, asdu_end), e) ↦
              let b = take_tlv_bounds m' end pos 0x30 p asdu_end e in
              rw (e, walk_fields-agree fuel asdu_end p new_asdu (omega (arith, b)))
        ])

  walk_asdus-agree :
      (fuel end pos n : ℕ) (r : Apdu)
      → end ≤ size
      → walk_asdus fuel m end pos n r ≡ walk_asdus fuel m' end pos n r
  unfolding walk_asdus
  walk_asdus-agree zero end pos n r le = refl
  walk_asdus-agree (suc fuel) end pos n r le =
      let same = asdu_step-agree fuel end pos n r le in
      elim (Result-cases (asdu_step fuel m' end pos n r)) [
        | inl ((p, r'), x) ↦ ground (arith, same, x, walk_asdus-agree fuel end p (n + 1) r' le)
        | inr (inl (c, x)) ↦ ground (arith, same, x)
        | inr (inr x) ↦ ground (arith, same, x)
      ]

  declared_asdus-agree :
      (end pos : ℕ) → end ≤ size → declared_asdus m end pos ≡ declared_asdus m' end pos
  unfolding declared_asdus
  declared_asdus-agree end pos le = elim (Bool-cases (ltb pos end)) [
    | inr e ↦ rw e
    | inl e ↦
        rw (e, h pos (ground (arith, e)), value_length-agree m m' end (pos + 1) (front end le))
          (elim (Option-cases (value_length m' end (pos + 1))) [
            | inl x ↦ rw x
            | inr ((length, p), x) ↦ rw (
              x,
              decode_asn1_number-agree m m' size p length h
                  (omega (arith, value_length_bounds m' end (pos + 1) length p x)),
            )
          ])
  ]

-- The result of the walker depends on no byte at or behind `size`, on any branch: two buffers that
-- agree below `size` have the same outcome.
pub parse_sv_apdu-agree :
    (apdu apdu' : Memory) (size : ℕ)
    → Agree size apdu apdu'
    → parse_sv_apdu apdu size ≡ parse_sv_apdu apdu' size
unfolding parse_sv_apdu
parse_sv_apdu-agree m m' size h =
    rw (take_tlv-agree m m' size 0 0x60 h) (elim (Option-cases (take_tlv m' size 0 0x60)) [
      | inl e ↦ rw e
      | inr ((start, pdu_end), e) ↦
          let b = take_tlv_bounds m' size 0 0x60 start pdu_end e in
          let le : pdu_end ≤ size = omega (arith, b) in
          rw (e, declared_asdus-agree m m' size h pdu_end start le)
            (elim (Result-cases (declared_asdus m' pdu_end start)) [
              | inl ((n, pos), x) ↦
                  rw (x, take_tlv-agree m m' pdu_end pos 0xa2 (front m m' size h pdu_end le))
                    (elim (Option-cases (take_tlv m' pdu_end pos 0xa2)) [
                      | inl y ↦ rw y
                      | inr ((first, end), y) ↦
                          let c = take_tlv_bounds m' pdu_end pos 0xa2 first end y in
                          rw (
                            y,
                            walk_asdus-agree m m' size h size end first 0 new_apdu
                                (omega (arith, c, le)),
                          )
                    ])
              | inr (inl (c, x)) ↦ rw x
              | inr (inr x) ↦ rw x
            ])
    ])
