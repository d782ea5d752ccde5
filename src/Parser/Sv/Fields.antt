-- ===== src/Parser/Sv/Fields.antt =====
-- The fields of an accepted ASDU, told apart from how they are walked.
use process_bus.Prelude.{
  ℕ, zero, suc, ◌+◌, ◌*◌, ◌≤◌, ◌<◌, ◌≡◌, inl, inr, sym, arith, Bool, true, false, ◌||◌, ltb, ◌==◌,
  Bool-cases, some, Option-cases, List, [], ◌∷◌,
}
use process_bus.Prelude.Result.{ok, Result-cases}
use process_bus.Memory.{Memory, get_u32}
use process_bus.Parser.Asn1.{value_length, decode_asn1_number}
use process_bus.Parser.Sv.{
  has_all, Asdu, new_asdu, check_quality, field_value, field_step, walk_fields,
}
use process_bus.Parser.Sv.Total.{field_step_bounds}

abbrev pub has : ℕ → List ℕ → Bool
has t [] = false
has t (x ∷ xs) = x == t || has t xs

-- Eight pairs of a 4-byte value and a 4-byte Quality of zero, from `p` on.
pub record GoodData (m : Memory) (p length : ℕ) : Type 0 where
  pub whole : length ≡ 64
  pub good : (i : ℕ) → i < 8 → get_u32 m (p + 4 + 8 * i) ≡ 0

-- The fields from `pos` to `end`, with ascending tags from 0x80 to 0x88 that are listed.
pub data Fields (m : Memory) (end : ℕ) : ℕ → ℕ → List ℕ → Type 0 where
  last : {prev pos : ℕ} → pos ≡ end → Fields m end prev pos []
  field :
      {prev pos length p : ℕ} {tags : List ℕ}
      → value_length m end (pos + 1) ≡ some (length, p)
      → prev < m pos
      → 0x80 ≤ m pos
      → m pos ≤ 0x88
      → (m pos ≡ 0x87 → GoodData m p length)
      → Fields m end (m pos) (p + length) tags
      → Fields m end prev pos (m pos ∷ tags)

-- An ASDU has svID, smpCnt, confRev, smpSynch and the data.
pub record GoodAsdu (m : Memory) (pos end : ℕ) : Type 0 where
  pub tags : List ℕ
  pub fields : Fields m end 0 pos tags
  pub has_svid : has 0x80 tags ≡ true
  pub has_smp_cnt : has 0x82 tags ≡ true
  pub has_conf_rev : has 0x83 tags ≡ true
  pub has_smp_synch : has 0x85 tags ≡ true
  pub has_data : has 0x87 tags ≡ true

check_quality-good :
    (m : Memory) (n p off i : ℕ)
    → check_quality m p n off ≡ true
    → i < n
    → get_u32 m (p + off + 8 * i) ≡ 0
unfolding check_quality decode_asn1_number
check_quality-good m zero p off i e h = absurd (omega arith)
check_quality-good m (suc n) p off zero e h = ground (arith, e)
check_quality-good m (suc n) p off (suc i) e h =
    let same : p + off + 8 * suc i ≡ p + (off + 8) + 8 * i = omega arith in
    rw same (check_quality-good m n p (off + 8) i (ground (arith, e)) (omega (arith, h)))

record FieldOk (m : Memory) (pos length tag : ℕ) (a a' : Asdu) : Type 0 where
  low : 0x80 ≤ tag
  high : tag ≤ 0x88
  data_whole : tag ≡ 0x87 → length ≡ 64
  data_good : tag ≡ 0x87 → check_quality m pos 8 4 ≡ true
  kept_tag : a'.previous_tag ≡ a.previous_tag
  svid_seen : a'.found_svid ≡ (a.found_svid || tag == 0x80)
  smp_cnt_seen : a'.found_smp_cnt ≡ (a.found_smp_cnt || tag == 0x82)
  conf_rev_seen : a'.found_conf_rev ≡ (a.found_conf_rev || tag == 0x83)
  smp_synch_seen : a'.found_smp_synch ≡ (a.found_smp_synch || tag == 0x85)
  data_seen : a'.found_data ≡ (a.found_data || tag == 0x87)

field_value-FieldOk :
    (m : Memory) (pos length tag : ℕ) (a a' : Asdu)
    → field_value m pos length tag a ≡ ok a'
    → FieldOk m pos length tag a a'
unfolding field_value
field_value-FieldOk m pos length tag a a' e = ground arith

-- The tags before `pos` are left in the flags of `a`.
record Seen (tags : List ℕ) (a a' : Asdu) : Type 0 where
  svid : a'.found_svid ≡ (a.found_svid || has 0x80 tags)
  smp_cnt : a'.found_smp_cnt ≡ (a.found_smp_cnt || has 0x82 tags)
  conf_rev : a'.found_conf_rev ≡ (a.found_conf_rev || has 0x83 tags)
  smp_synch : a'.found_smp_synch ≡ (a.found_smp_synch || has 0x85 tags)
  found_data : a'.found_data ≡ (a.found_data || has 0x87 tags)

data-GoodData :
    (m : Memory) (p length : ℕ) → length ≡ 64 → check_quality m p 8 4 ≡ true → GoodData m p length
data-GoodData m p length w e = record {
  whole = w;
  good = λ i lt. check_quality-good m 8 p 4 i e lt;
}

record StepOf (m : Memory) (end pos p : ℕ) (a a' : Asdu) : Type 0 where
  length : ℕ
  at : ℕ
  found : value_length m end (pos + 1) ≡ some (length, at)
  next : at + length ≡ p
  rises : a.previous_tag < m pos
  value : field_value m at length (m pos) (record a { previous_tag = m pos }) ≡ ok a'

field_step-StepOf :
    (m : Memory) (end pos p : ℕ) (a a' : Asdu)
    → field_step m end pos a ≡ ok (p, a')
    → StepOf m end pos p a a'
unfolding field_step
field_step-StepOf m end pos p a a' e = elim (Option-cases (value_length m end (pos + 1))) [
  | inl x ↦ absurd (ground (arith, e, x))
  | inr ((n, q), x) ↦
      let old = record a { previous_tag = m pos } in
      elim (Result-cases (field_value m q n (m pos) old)) [
        | inl (b, y) ↦ record {
          length = n;
          at = q;
          found = x;
          next = ground (arith, e, x, y);
          rises = ground (arith, e, x, y);
          value = ground (arith, e, x, y);
        }
        | inr (inl (c, y)) ↦ absurd (ground (arith, e, x, y))
        | inr (inr y) ↦ absurd (ground (arith, e, x, y))
      ]
]

record Walked (m : Memory) (end pos : ℕ) (a a' : Asdu) : Type 0 where
  tags : List ℕ
  fields : Fields m end a.previous_tag pos tags
  seen : Seen tags a a'

empty-Seen : (a : Asdu) → Seen [] a a
empty-Seen a = record {
  svid = ground arith;
  smp_cnt = ground arith;
  conf_rev = ground arith;
  smp_synch = ground arith;
  found_data = ground arith;
}

end-Walked : (m : Memory) (end pos : ℕ) (a : Asdu) → pos ≡ end → Walked m end pos a a
end-Walked m end pos a e = record { tags = []; fields = last e; seen = empty-Seen a }

field-Walked :
    (m : Memory) (end pos p : ℕ) (a b a' : Asdu)
    → StepOf m end pos p a b
    → Walked m end p b a'
    → Walked m end pos a a'
field-Walked m end pos p a b a' s w =
    let f =
      field_value-FieldOk m s.at s.length (m pos) (record a { previous_tag = m pos }) b s.value in
    let sw = w.seen in
    record {
      tags = m pos ∷ w.tags;
      fields =
          let rest : Fields m end (m pos) (s.at + s.length) w.tags =
            rw (s.next, sym f.kept_tag) w.fields in
          field s.found s.rises f.low f.high
            (λ e. data-GoodData m s.at s.length (f.data_whole e) (f.data_good e)) rest;
      seen = record {
        svid = ground (arith, f.svid_seen, sw.svid);
        smp_cnt = ground (arith, f.smp_cnt_seen, sw.smp_cnt);
        conf_rev = ground (arith, f.conf_rev_seen, sw.conf_rev);
        smp_synch = ground (arith, f.smp_synch_seen, sw.smp_synch);
        found_data = ground (arith, f.data_seen, sw.found_data);
      };
    }

walk_fields-Walked :
    (fuel : ℕ) (m : Memory) (end pos p : ℕ) (a a' : Asdu)
    → pos ≤ end
    → walk_fields fuel m end pos a ≡ ok (p, a')
    → Walked m end pos a a'
unfolding walk_fields
walk_fields-Walked zero m end pos p a a' h e =
    let same : a ≡ a' = ground (arith, e) in
    rw (sym same) (end-Walked m end pos a (ground (arith, e)))
walk_fields-Walked (suc fuel) m end pos p a a' h e = elim (Bool-cases (ltb pos end)) [
  | inr x ↦
      let same : a ≡ a' = ground (arith, e, x) in
      rw (sym same) (end-Walked m end pos a (ground (arith, x)))
  | inl x ↦ elim (Result-cases (field_step m end pos a)) [
    | inl ((q, b), y) ↦
        let bounds = field_step_bounds m end pos q a b y in
        field-Walked m end pos q a b a' (field_step-StepOf m end pos q a b y)
          (walk_fields-Walked fuel m end q p b a' (omega (arith, bounds)) (ground (arith, e, x, y)))
    | inr (inl (c, y)) ↦ absurd (ground (arith, e, x, y))
    | inr (inr y) ↦ absurd (ground (arith, e, x, y))
  ]
]

-- An ASDU whose loop ends with all five flags set is a good one.
pub walk_fields-GoodAsdu :
    (fuel : ℕ) (m : Memory) (end pos p : ℕ) (a : Asdu)
    → pos ≤ end
    → walk_fields fuel m end pos new_asdu ≡ ok (p, a)
    → has_all a ≡ true
    → GoodAsdu m pos end
walk_fields-GoodAsdu fuel m end pos p a h e all =
    let w = walk_fields-Walked fuel m end pos p new_asdu a h e in
    let s = w.seen in
    record {
      tags = w.tags;
      fields = w.fields;
      has_svid = ground (arith, s.svid, all);
      has_smp_cnt = ground (arith, s.smp_cnt, all);
      has_conf_rev = ground (arith, s.conf_rev, all);
      has_smp_synch = ground (arith, s.smp_synch, all);
      has_data = ground (arith, s.found_data, all);
    }
