-- ===== src/Generator/Routable/Elements.antt =====
-- The writes of the routable generators into the region change the APPID of its payload element only.
use process_bus.Prelude.{ℕ, zero, suc, ◌+◌, ◌≤◌, ◌<◌, ◌≡◌, refl, ◌∙◌, arith}
use process_bus.Memory.{Memory, put_u8, put_u16, put_u32, write}
use process_bus.Memory.Frames.{write-below}
use process_bus.Generator.Amend.{
  SvIed, SvLayout, GooseIed, GooseLayout, write_asdu, write_asdus, next_ied, write_names,
  write_numbers, host_bytes,
}
use process_bus.Generator.Routable.{
  L2Skeleton, r_sv80_region, r_sv256_region, r_goose_region, rebase_sv, rebase_goose, rebased,
  rebased_asdu, appid_of_stream,
}
use process_bus.Generator.Routable.Patching.{KeepsElement}

-- An offset in the APDU of the layer 2 skeleton, whose buffer has 1518 bytes.
abbrev pub InApdu : L2Skeleton → ℕ → Type 0
InApdu l2 off = (l2.appid_offset + 8 ≤ off) × (off < 1518)

rebased-beyond : (l2 : L2Skeleton) (off : ℕ) → InApdu l2 off → 6 ≤ rebased (l2.appid_offset + 8) off
rebased-beyond l2 off (lo, hi) = omega arith

rebased_asdu-beyond :
    (l2 : L2Skeleton) (off : ℕ) → InApdu l2 off → 6 ≤ rebased_asdu (l2.appid_offset + 8) off
rebased_asdu-beyond l2 off (lo, hi) = ground (arith, rebased-beyond l2 off (lo, hi))

write_asdu-low :
    (lay : SvLayout) (i j : ℕ) (ied : SvIed) (m : Memory)
    → 6 ≤ lay.svid_offset i
    → 6 ≤ lay.smp_cnt_offset i
    → j < 6
    → write_asdu lay i ied m j ≡ m j
unfolding write_asdu put_u16
write_asdu-low lay i j ied m a b h = ground (arith, write-below ied.sid m (lay.svid_offset i + 4) j)

write_asdus-low :
    (lay : SvLayout) (n i j : ℕ) (ied : SvIed) (m : Memory)
    → ((k : ℕ) → k < i + n → (6 ≤ lay.svid_offset k) × (6 ≤ lay.smp_cnt_offset k))
    → j < 6
    → write_asdus lay n i ied m j ≡ m j
unfolding write_asdus
write_asdus-low lay zero i j ied m h lt = refl
write_asdus-low lay (suc n) i j ied m h lt =
    write_asdus-low lay n (i + 1) j (next_ied lay ied) (write_asdu lay i ied m)
      (λ k b. h k (omega arith)) lt
    ∙ write_asdu-low lay i j ied m (h i (omega arith)).0 (h i (omega arith)).1 lt

-- The first `n` ASDUs have their fields in the APDU.
abbrev pub SvInApdu : ℕ → L2Skeleton → SvLayout → Type 0
SvInApdu n l2 lay =
    (k : ℕ) → k < n → InApdu l2 (lay.svid_offset k) × InApdu l2 (lay.smp_cnt_offset k)

beyond :
    (n : ℕ) (l2 : L2Skeleton) (lay : SvLayout)
    → SvInApdu n l2 lay
    → (k : ℕ) → k < n
    → (6 ≤ (rebase_sv l2 lay).svid_offset k) × (6 ≤ (rebase_sv l2 lay).smp_cnt_offset k)
beyond n l2 lay h k lt = (
  rebased_asdu-beyond l2 (lay.svid_offset k) (h k lt).0,
  rebased_asdu-beyond l2 (lay.smp_cnt_offset k) (h k lt).1,
)

pub r_sv80_region-keeps :
    (l2 : L2Skeleton) (lay : SvLayout)
    → SvInApdu 1 l2 lay
    → (stream : ℕ) (ied : SvIed)
    → KeepsElement (r_sv80_region (rebase_sv l2 lay) stream ied) (appid_of_stream stream)
unfolding r_sv80_region
r_sv80_region-keeps l2 lay h stream ied m j lt =
    let b = beyond 1 l2 lay h 0 (omega arith) in
    write_asdu-low (rebase_sv l2 lay) 0 j ied (put_u16 m 2 (appid_of_stream stream)) b.0 b.1 lt

pub r_sv256_region-keeps :
    (l2 : L2Skeleton) (lay : SvLayout)
    → SvInApdu 8 l2 lay
    → (stream : ℕ) (ied : SvIed)
    → KeepsElement (r_sv256_region (rebase_sv l2 lay) stream ied) (appid_of_stream stream)
unfolding r_sv256_region
r_sv256_region-keeps l2 lay h stream ied m j lt =
    write_asdus-low (rebase_sv l2 lay) 8 0 j ied (put_u16 m 2 (appid_of_stream stream))
      (λ k b. beyond 8 l2 lay h k (omega arith)) lt

-- The fields of a GOOSE packet that are written are in the APDU.
pub record GooseInApdu (l2 : L2Skeleton) (lay : GooseLayout) : Type 0 where
  pub timestamp_in : InApdu l2 lay.timestamp_offset
  pub goid_in : InApdu l2 lay.goid_offset
  pub gocb_ref_in : InApdu l2 lay.gocb_ref_offset
  pub ds_ref_in : InApdu l2 lay.ds_ref_offset
  pub sq_num_in : InApdu l2 lay.sq_num_offset
  pub st_num_in : InApdu l2 lay.st_num_offset
  pub d1_in : InApdu l2 lay.d1_offset

put_u32-low : (m : Memory) (p v j : ℕ) → 6 ≤ p → j < 6 → put_u32 m p v j ≡ m j
unfolding put_u32
put_u32-low m p v j h lt = ground arith

put_u8-low : (m : Memory) (p v j : ℕ) → 6 ≤ p → j < 6 → put_u8 m p v j ≡ m j
put_u8-low m p v j h lt = ground arith

pub r_goose_region-keeps :
    (l2 : L2Skeleton) (lay : GooseLayout)
    → GooseInApdu l2 lay
    → (stream : ℕ) (ied : GooseIed)
    → KeepsElement (r_goose_region (rebase_goose l2 lay) stream ied) (appid_of_stream stream)
unfolding r_goose_region write_names write_numbers
r_goose_region-keeps l2 lay h stream ied m j lt =
    let lay' : GooseLayout = rebase_goose l2 lay in
    let m1 : Memory = put_u16 m 2 (appid_of_stream stream) in
    let m2 : Memory = write m1 (lay'.goid_offset + 4) ied.sid in
    let m3 : Memory = write m2 (lay'.gocb_ref_offset + 3) ied.sid in
    let m4 : Memory = write m3 (lay'.ds_ref_offset + 3) ied.sid in
    let m5 : Memory = write m4 lay'.timestamp_offset (host_bytes 8 ied.timestamp) in
    let m6 : Memory = put_u32 m5 lay'.st_num_offset ied.st_num in
    let m7 : Memory = put_u32 m6 lay'.sq_num_offset ied.sq_num in
    let at = rebased-beyond l2 in
    put_u8-low m7 lay'.d1_offset _ j (at _ h.d1_in) lt
    ∙ put_u32-low m6 lay'.sq_num_offset ied.sq_num j (at _ h.sq_num_in) lt
    ∙ put_u32-low m5 lay'.st_num_offset ied.st_num j (at _ h.st_num_in) lt
    ∙ write-below (host_bytes 8 ied.timestamp) m4 lay'.timestamp_offset j
        (omega (arith, at _ h.timestamp_in))
    ∙ write-below ied.sid m3 (lay'.ds_ref_offset + 3) j (omega (arith, at _ h.ds_ref_in))
    ∙ write-below ied.sid m2 (lay'.gocb_ref_offset + 3) j (omega (arith, at _ h.gocb_ref_in))
    ∙ write-below ied.sid m1 (lay'.goid_offset + 4) j (omega (arith, at _ h.goid_in))
