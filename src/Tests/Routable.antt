-- ===== src/Tests/Routable.antt =====
-- The routable generators on a concrete skeleton.
use process_bus.Prelude.{
  ℕ, ◌+◌, ◌*◌, ◌%◌, ◌<◌, ◌≡◌, refl, arith, List, [], ◌∷◌, ◌==◌, if◌then◌else◌,
}
use process_bus.Prelude.Result.{ok}
use process_bus.Memory.{slice}
use process_bus.RSession.Layout.{sec_gcm, sec_hmac}
use process_bus.Generator.Amend.{SvIed, SvLayout, GooseIed, GooseLayout}
use process_bus.Generator.Routable.{
  L2Skeleton, Skeleton, RoutableGen, make_skeleton, make_r_goose_skeleton, make_r_sv_skeleton,
  skeleton_of, r_goose_kind, r_sv_kind, amend_packet_r_goose, amend_packet_r_sv80,
  amend_packet_r_sv256, rebase_goose, rebase_sv,
}
use process_bus.Generator.Routable.Patching.{Carries}
use process_bus.Generator.Routable.Elements.{GooseInApdu, SvInApdu}
use process_bus.Generator.Routable.Traffic.{Arrives}
use process_bus.Generator.Routable.Arrival.{amend_packet_r_goose-Arrives, amend_packet_r_sv-Arrives}
use process_bus.Tests.Data.{
  checksum_backend, checksum_backend-IsSound, checksum_backend-Works, config,
}

-- A frame with an APDU of 120 bytes behind the length field at 20.
abbrev l2 : L2Skeleton
l2 = record {
  buf = λ i. if i == 20 then 0 else if i == 21 then 128 else (7 * i) % 256;
  size = 160;
  appid_offset = 18;
}

abbrev goose_skeleton : Skeleton
goose_skeleton = skeleton_of r_goose_kind sec_gcm config (slice l2.buf 26 120) 120

abbrev sv_skeleton : Skeleton
sv_skeleton = skeleton_of r_sv_kind sec_hmac config (slice l2.buf 26 120) 120

goose_made : make_r_goose_skeleton sec_gcm config l2 ≡ ok goose_skeleton
unfolding make_skeleton
goose_made = refl

sv_made : make_r_sv_skeleton sec_hmac config l2 ≡ ok sv_skeleton
unfolding make_skeleton
sv_made = refl

abbrev goose_layout : GooseLayout
goose_layout = record {
  appid_offset = 18;
  timestamp_offset = 70;
  goid_offset = 30;
  gocb_ref_offset = 42;
  ds_ref_offset = 54;
  sq_num_offset = 80;
  st_num_offset = 86;
  d1_offset = 94;
  ts_delta_change = 5;
}

goose_layout-GooseInApdu : GooseInApdu l2 goose_layout
goose_layout-GooseInApdu = record {
  timestamp_in = (omega arith, omega arith);
  goid_in = (omega arith, omega arith);
  gocb_ref_in = (omega arith, omega arith);
  ds_ref_in = (omega arith, omega arith);
  sq_num_in = (omega arith, omega arith);
  st_num_in = (omega arith, omega arith);
  d1_in = (omega arith, omega arith);
}

-- At 80 samples a cycle a skeleton has one ASDU, and the other offsets stay 0.
abbrev sv80_layout : SvLayout
sv80_layout = record {
  appid_offset = 18;
  svid_offset = λ i. if i == 0 then 30 else 0;
  smp_cnt_offset = λ i. if i == 0 then 40 else 0;
  freq = 4000;
}

only_zero : (k : ℕ) → k < 1 → k ≡ 0
only_zero k lt = omega arith

sv80_layout-SvInApdu : SvInApdu 1 l2 sv80_layout
sv80_layout-SvInApdu k lt =
    rw (only_zero k lt) ((omega arith, omega arith), (omega arith, omega arith))

abbrev sv_layout : SvLayout
sv_layout = record {
  appid_offset = 18;
  svid_offset = λ i. 30 + 14 * i;
  smp_cnt_offset = λ i. 40 + 14 * i;
  freq = 12800;
}

sv_layout-SvInApdu : SvInApdu 8 l2 sv_layout
sv_layout-SvInApdu k lt = ((omega arith, omega arith), (omega arith, omega arith))

abbrev goose_gen : RoutableGen GooseIed
goose_gen = record {
  ieds = λ i. record {
    ied = record {
      sid = 48 ∷ 48 ∷ 48 ∷ 48 ∷ 48 ∷ 48 ∷ 48 ∷ 49 ∷ [];
      st_num = 0;
      sq_num = 0;
      timestamp = 0;
    };
    spdu_number = 0;
  };
  plain = goose_skeleton.plain;
}

abbrev sv_gen : RoutableGen SvIed
sv_gen = record {
  ieds =
      λ i. record { ied = record { sid = 48 ∷ 48 ∷ 48 ∷ 49 ∷ []; smp_cnt = 0 }; spdu_number = 0 };
  plain = sv_skeleton.plain;
}

-- The skeleton carries its own headers.
goose_start : (k : ℕ) → Carries goose_skeleton goose_gen.plain goose_skeleton.frame
goose_start k = record {
  total = λ i h. refl;
  fixed = λ i h. refl;
  size_field = λ j h. refl;
  element = λ j h. refl;
}

sv_start : (k : ℕ) → Carries sv_skeleton sv_gen.plain sv_skeleton.frame
sv_start k = record {
  total = λ i h. refl;
  fixed = λ i h. refl;
  size_field = λ j h. refl;
  element = λ j h. refl;
}

-- Two devices in turn, on two buffers.
abbrev run : List (ℕ × ℕ)
run = (0, 0) ∷ (1, 1) ∷ (0, 0) ∷ (1, 0) ∷ []

amend_packet_r_goose-Arrives_example :
    Arrives r_goose_kind goose_skeleton checksum_backend 4
      (amend_packet_r_goose goose_skeleton checksum_backend 4 (rebase_goose l2 goose_layout))
      run
      goose_gen
      (λ k. goose_skeleton.frame)
amend_packet_r_goose-Arrives_example =
    amend_packet_r_goose-Arrives checksum_backend sec_gcm config l2 goose_layout 4 goose_skeleton
      run goose_gen (λ k. goose_skeleton.frame) checksum_backend-IsSound checksum_backend-Works
      goose_layout-GooseInApdu goose_made goose_start

amend_packet_r_sv-Arrives_example :
    Arrives r_sv_kind sv_skeleton checksum_backend 4
      (amend_packet_r_sv80 sv_skeleton checksum_backend 4 (rebase_sv l2 sv80_layout))
      run
      sv_gen
      (λ k. sv_skeleton.frame)
    × Arrives r_sv_kind sv_skeleton checksum_backend 4
        (amend_packet_r_sv256 sv_skeleton checksum_backend 4 (rebase_sv l2 sv_layout))
        run
        sv_gen
        (λ k. sv_skeleton.frame)
amend_packet_r_sv-Arrives_example =
    amend_packet_r_sv-Arrives checksum_backend sec_hmac config l2 l2 sv80_layout sv_layout 4
      sv_skeleton sv_skeleton run sv_gen sv_gen (λ k. sv_skeleton.frame) (λ k. sv_skeleton.frame)
      checksum_backend-IsSound checksum_backend-Works sv80_layout-SvInApdu sv_layout-SvInApdu
      sv_made sv_made sv_start sv_start
