-- ===== src/Generator/Amend/Counters.antt =====
-- What a receiver reads where the generators write their counters.
use process_bus.Prelude.{
  ℕ, zero, suc, ◌+◌, ◌*◌, ◌%◌, ◌^◌, ◌≤◌, ◌<◌, ◌≡◌, inl, refl, ap, ◌∙◌, arith, ◌==◌, if◌then◌else◌,
}
use process_bus.Memory.{Memory, put_u8, put_u16, write, get_u16, get_u32, put_u32}
use process_bus.Memory.Words.{get_u16-put_u16, put_u16-below, get_u32-put_u32, put_u32-outside}
use process_bus.Memory.Frames.{write-below}
use process_bus.Generator.Amend.{
  GooseIed, GooseLayout, amend_packet_goose, next_goose, write_names, write_numbers, SvIed,
  SvLayout, next_ied, next_smp, write_asdu, after_asdus, write_asdus, amend_packet_sv80,
  amend_packet_sv256,
}

-- The ASDUs stand one behind the other and behind the APPID, and in each the counter behind the SVID,
-- of which four bytes follow the pattern "SVID".
pub record IsSvLayout (lay : SvLayout) : Type 0 where
  pub behind_appid : (i : ℕ) → lay.appid_offset + 2 ≤ lay.svid_offset i
  pub behind_svid : (i : ℕ) → lay.svid_offset i + 8 ≤ lay.smp_cnt_offset i
  pub behind_asdu : (i : ℕ) → lay.smp_cnt_offset i + 2 ≤ lay.svid_offset (i + 1)

-- After `n` ASDUs the counter has moved by `n`, or starts again behind the last of a second.
pub after_asdus-smp_cnt :
    (lay : SvLayout) (n : ℕ) (ied : SvIed)
    → ied.smp_cnt < lay.freq
    → ied.smp_cnt + n ≤ lay.freq
    → (after_asdus lay n ied).smp_cnt ≡ (if ied.smp_cnt + n == lay.freq then 0 else ied.smp_cnt + n)
unfolding after_asdus
after_asdus-smp_cnt lay zero ied lt le = ground (arith, lt)
after_asdus-smp_cnt lay (suc zero) ied lt le = ground (arith, lt, le)
after_asdus-smp_cnt lay (suc (suc n)) ied lt le =
    let step : next_smp lay.freq ied.smp_cnt ≡ ied.smp_cnt + 1 = ground (arith, le) in
    let rest =
      after_asdus-smp_cnt lay (suc n) (next_ied lay ied) (omega (arith, step, le))
        (omega (arith, step, le)) in
    ground (arith, rest, step)

after_asdus-sid : (lay : SvLayout) (n : ℕ) (ied : SvIed) → (after_asdus lay n ied).sid ≡ ied.sid
unfolding after_asdus
after_asdus-sid lay zero ied = refl
after_asdus-sid lay (suc n) ied = after_asdus-sid lay n (next_ied lay ied)

write_asdu-below :
    (lay : SvLayout) (i j : ℕ) (ied : SvIed) (packet : Memory)
    → IsSvLayout lay
    → j < lay.svid_offset i
    → write_asdu lay i ied packet j ≡ packet j
unfolding write_asdu
write_asdu-below lay i j ied packet h lt =
    put_u16-below (write packet (lay.svid_offset i + 4) ied.sid) (lay.smp_cnt_offset i) ied.smp_cnt
      j (omega (arith, lt, h.behind_svid i))
    ∙ write-below ied.sid packet (lay.svid_offset i + 4) j (omega (arith, lt))

-- Later ASDUs leave the bytes before them.
write_asdus-below :
    (lay : SvLayout) (n i j : ℕ) (ied : SvIed) (packet : Memory)
    → IsSvLayout lay
    → j < lay.svid_offset i
    → write_asdus lay n i ied packet j ≡ packet j
unfolding write_asdus
write_asdus-below lay zero i j ied packet h lt = refl
write_asdus-below lay (suc n) i j ied packet h lt =
    write_asdus-below lay n (i + 1) j (next_ied lay ied) (write_asdu lay i ied packet) h
      (omega (arith, lt, h.behind_svid i, h.behind_asdu i))
    ∙ write_asdu-below lay i j ied packet h lt

get_u16-write_asdu :
    (lay : SvLayout) (i : ℕ) (ied : SvIed) (packet : Memory)
    → ied.smp_cnt < 65536
    → get_u16 (write_asdu lay i ied packet) (lay.smp_cnt_offset i) ≡ ied.smp_cnt
unfolding write_asdu
get_u16-write_asdu lay i ied packet lt =
    get_u16-put_u16 (write packet (lay.svid_offset i + 4) ied.sid) (lay.smp_cnt_offset i)
      ied.smp_cnt (omega (arith, lt))

pub get_u16-sv80 :
    (lay : SvLayout) (ieds : ℕ → SvIed) (idx : ℕ) (packet : Memory)
    → (ieds idx).smp_cnt < 65536
    → get_u16 ((amend_packet_sv80 lay ieds idx).1 packet) (lay.smp_cnt_offset 0)
      ≡ (ieds idx).smp_cnt
unfolding amend_packet_sv80
get_u16-sv80 lay ieds idx packet lt = get_u16-write_asdu lay 0 (ieds idx) _ lt

-- Of eight ASDUs, the first one shows the counter.
pub get_u16-sv256 :
    (lay : SvLayout) (ieds : ℕ → SvIed) (idx : ℕ) (packet : Memory)
    → IsSvLayout lay
    → (ieds idx).smp_cnt < 65536
    → get_u16 ((amend_packet_sv256 lay ieds idx).1 packet) (lay.smp_cnt_offset 0)
      ≡ (ieds idx).smp_cnt
unfolding amend_packet_sv256 write_asdus
get_u16-sv256 lay ieds idx packet h lt =
    let ied : SvIed = ieds idx in
    let p : ℕ = lay.smp_cnt_offset 0 in
    let one : Memory = write_asdu lay 0 ied (put_u16 packet lay.appid_offset ((idx + 1) % 65536)) in
    let all : Memory = write_asdus lay 7 1 (next_ied lay ied) one in
    let hi =
      write_asdus-below lay 7 1 p (next_ied lay ied) one h (omega (arith, h.behind_asdu 0)) in
    let lo =
      write_asdus-below lay 7 1 (p + 1) (next_ied lay ied) one h (omega (arith, h.behind_asdu 0)) in
    ap (λ (b : ℕ). b * 256 + all (p + 1)) hi
    ∙ ap (λ (b : ℕ). one p * 256 + b) lo
    ∙ get_u16-write_asdu lay 0 ied _ lt

put_u8-other : (m : Memory) (p v i : ℕ) → i < p → put_u8 m p v i ≡ m i
put_u8-other m p v i h = ground arith

-- `get_u32` depends on its four bytes.
get_u32-cong :
    (m m' : Memory) (p : ℕ)
    → ((i : ℕ) → p ≤ i → i < p + 4 → m i ≡ m' i)
    → get_u32 m p ≡ get_u32 m' p
get_u32-cong m m' p h = omega (
  arith,
  h p (omega arith) (omega arith),
  h (p + 1) (omega arith) (omega arith),
  h (p + 2) (omega arith) (omega arith),
  h (p + 3) (omega arith) (omega arith),
)

-- The state number stands before the sequence number, and the data behind it.
pub record IsGooseLayout (lay : GooseLayout) : Type 0 where
  pub behind_st_num : lay.st_num_offset + 4 ≤ lay.sq_num_offset
  pub behind_both : lay.st_num_offset + 4 ≤ lay.d1_offset

get_u32-write_numbers :
    (lay : GooseLayout) (ied : GooseIed) (packet : Memory)
    → IsGooseLayout lay
    → ied.st_num < 2 ^ 32
    → get_u32 (write_numbers lay ied packet) lay.st_num_offset ≡ ied.st_num
unfolding write_numbers
get_u32-write_numbers lay ied packet h lt =
    let p1 : Memory = put_u32 packet lay.st_num_offset ied.st_num in
    let p2 : Memory = put_u32 p1 lay.sq_num_offset ied.sq_num in
    let d1 : ℕ = if ied.st_num % 2 == 0 then 1 else 0 in
    get_u32-cong (put_u8 p2 lay.d1_offset d1) p1 lay.st_num_offset (λ i lo hi.
      put_u8-other p2 lay.d1_offset d1 i (omega (arith, hi, h.behind_both))
      ∙ put_u32-outside p1 lay.sq_num_offset ied.sq_num i
          (inl (omega (arith, hi, h.behind_st_num))))
    ∙ get_u32-put_u32 packet lay.st_num_offset ied.st_num lt

pub get_u32-goose :
    (lay : GooseLayout) (ieds : ℕ → GooseIed) (idx : ℕ) (packet : Memory)
    → IsGooseLayout lay
    → get_u32 ((amend_packet_goose lay ieds idx).1 packet) lay.st_num_offset
      ≡ ((ieds idx).st_num + 1) % 4294967296
unfolding amend_packet_goose
get_u32-goose lay ieds idx packet h =
    let ied : GooseIed = next_goose lay (ieds idx) in
    get_u32-write_numbers lay ied (write_names lay idx ied packet) h (omega arith)
