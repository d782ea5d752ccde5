-- ===== src/Parser/Sv/Quality.antt =====
-- What an accepted Sampled Values APDU looks like: its ASDUs and their number.
use process_bus.Prelude.{
  ℕ, zero, suc, ◌+◌, ◌-◌, ◌≤◌, ◌≡◌, inl, inr, sym, arith, true, ltb, Bool-cases, some, Option-cases,
}
use process_bus.Prelude.Result.{ok, Result-cases}
use process_bus.Memory.{Memory}
use process_bus.Parser.Asn1.{value_length, take_tlv}
use process_bus.Parser.Asn1.Bounded.{take_tlv_bounds}
use process_bus.Parser.Sv.{
  has_all, Apdu, new_asdu, new_apdu, walk_fields, join_asdu, asdu_step, walk_asdus, declared_asdus,
  parse_sv_apdu,
}
use process_bus.Parser.Sv.Total.{asdu_step_bounds, walk_fields-end}
use process_bus.Parser.Sv.Fields.{GoodAsdu, walk_fields-GoodAsdu}

-- `n` ASDUs from `pos` to `end`.
pub data Asdus (m : Memory) (end : ℕ) : ℕ → ℕ → Type 0 where
  no_more : {pos : ℕ} → pos ≡ end → Asdus m end zero pos
  asdu :
      {n pos p asdu_end : ℕ}
      → take_tlv m end pos 0x30 ≡ some (p, asdu_end)
      → GoodAsdu m p asdu_end
      → Asdus m end n asdu_end
      → Asdus m end (suc n) pos

asdu_step-GoodAsdu :
    (fuel : ℕ) (m : Memory) (end pos n p : ℕ) (r r' : Apdu)
    → asdu_step fuel m end pos n r ≡ ok (p, r')
    → (q : ℕ) × (take_tlv m end pos 0x30 ≡ some (q, p)) × GoodAsdu m q p
unfolding asdu_step join_asdu
asdu_step-GoodAsdu fuel m end pos n p r r' e = elim (Option-cases (take_tlv m end pos 0x30)) [
  | inl x ↦ absurd (cc (rw x at e))
  | inr ((q, asdu_end), x) ↦
      let b = take_tlv_bounds m end pos 0x30 q asdu_end x in
      elim (Result-cases (walk_fields fuel m asdu_end q new_asdu)) [
        | inl ((z, a), y) ↦
            let le : q ≤ asdu_end = omega (arith, b) in
            let at_end = walk_fields-end fuel m asdu_end q z new_asdu a le y in
            let same : asdu_end ≡ p = ground (arith, rw (x, y) at e, at_end) in
            let all : has_all a ≡ true = ground (arith, rw (x, y) at e) in
            (
              q,
              rw (sym same) x,
              rw (sym same) (walk_fields-GoodAsdu fuel m asdu_end q z a le y all),
            )
        | inr (inl (c, y)) ↦ absurd (ground (arith, e, x, y))
        | inr (inr y) ↦ absurd (ground (arith, e, x, y))
      ]
]

walk_asdus-Asdus :
    (fuel : ℕ) (m : Memory) (end pos n actual : ℕ) (r r' : Apdu)
    → pos ≤ end
    → walk_asdus fuel m end pos n r ≡ ok (actual, r')
    → (n ≤ actual) × Asdus m end (actual - n) pos
unfolding walk_asdus
walk_asdus-Asdus zero m end pos n actual r r' h e =
    let same : actual ≡ n = ground (arith, e) in
    let none_left : n - n ≡ 0 = omega arith in
    (omega (arith, same), rw (same, none_left) (no_more (ground (arith, e))))
walk_asdus-Asdus (suc fuel) m end pos n actual r r' h e = elim (Bool-cases (ltb pos end)) [
  | inr x ↦
      let same : actual ≡ n = ground (arith, e, x) in
      let none_left : n - n ≡ 0 = omega arith in
      (omega (arith, same), rw (same, none_left) (no_more (ground (arith, x))))
  | inl x ↦ elim (Result-cases (asdu_step fuel m end pos n r)) [
    | inl ((p, b), y) ↦
        let bounds = asdu_step_bounds fuel m end pos n p r b y in
        let (q, found, good) = asdu_step-GoodAsdu fuel m end pos n p r b y in
        let (le, rest) =
          walk_asdus-Asdus fuel m end p (n + 1) actual b r' (omega (arith, bounds))
            (ground (arith, e, x, y)) in
        let count : actual - n ≡ suc (actual - (n + 1)) = omega (arith, le) in
        (omega (arith, le), rw count (asdu found good rest))
    | inr (inl (c, y)) ↦ absurd (ground (arith, e, x, y))
    | inr (inr y) ↦ absurd (ground (arith, e, x, y))
  ]
]

-- An APDU of `n` ASDUs.
pub record GoodApdu (m : Memory) (size n : ℕ) : Type 0 where
  pub first : ℕ
  pub end : ℕ
  pub inside : end ≤ size
  pub some_asdu : 1 ≤ n
  pub u16 : n ≤ 65535
  pub asdus : Asdus m end n first

declared_asdus-range :
    (m : Memory) (end pos n at : ℕ) → declared_asdus m end pos ≡ ok (n, at) → (1 ≤ n) × (n ≤ 65535)
unfolding declared_asdus
declared_asdus-range m end pos n at e = elim (Option-cases (value_length m end (pos + 1))) [
  | inl x ↦ absurd (ground (arith, rw x at e))
  | inr ((length, p), x) ↦ ground (arith, rw x at e)
]

-- A Sampled Values APDU that the walker accepts with `n` ASDUs really holds them: between 1 and 65535
-- ASDUs one behind the other, each up to its declared end a list of fields with ascending tags of the
-- profile, svID, smpCnt, confRev, smpSynch and the data among them, and each of the eight Quality
-- values of each ASDU is zero.
pub parse_sv_apdu-GoodApdu :
    (apdu : Memory) (size n : ℕ) (r : Apdu)
    → parse_sv_apdu apdu size ≡ ok (n, r)
    → GoodApdu apdu size n
unfolding parse_sv_apdu
parse_sv_apdu-GoodApdu m size n r e = elim (Option-cases (take_tlv m size 0 0x60)) [
  | inl x ↦ absurd (ground (arith, rw x at e))
  | inr ((start, pdu_end), x) ↦ elim (Result-cases (declared_asdus m pdu_end start)) [
    | inr (inl (c, y)) ↦ absurd (ground (arith, rw (x, y) at e))
    | inr (inr y) ↦ absurd (ground (arith, rw (x, y) at e))
    | inl ((declared, pos), y) ↦ elim (Option-cases (take_tlv m pdu_end pos 0xa2)) [
      | inl z ↦ absurd (ground (arith, rw (x, y, z) at e))
      | inr ((first, end), z) ↦ elim (Result-cases (walk_asdus size m end first 0 new_apdu)) [
        | inr (inl (c, w)) ↦ absurd (ground (arith, rw (x, y, z, w) at e))
        | inr (inr w) ↦ absurd (ground (arith, rw (x, y, z, w) at e))
        | inl ((actual, b), w) ↦
            let outer = take_tlv_bounds m size 0 0x60 start pdu_end x in
            let inner = take_tlv_bounds m pdu_end pos 0xa2 first end z in
            let range = declared_asdus-range m pdu_end start declared pos y in
            let (le, all) =
              walk_asdus-Asdus size m end first 0 actual new_apdu b (omega (arith, inner)) w in
            let same : declared ≡ n = ground (arith, rw (x, y, z, w) at e) in
            let final : actual ≡ n = ground (arith, rw (x, y, z, w) at e) in
            let count : actual - 0 ≡ n = omega (arith, final) in
            record {
              first = first;
              end = end;
              inside = omega (arith, outer, inner);
              some_asdu = omega (arith, range, same);
              u16 = omega (arith, range, same);
              asdus = rw (sym count) all;
            }
      ]
    ]
  ]
]
