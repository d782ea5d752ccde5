-- ===== src/Stream/Sv.antt =====
-- src/common/sv_container.hpp: `SVStreamState` and the counters of `SVStreamSource`. `smp_cnt` of a frame
-- is a uint16_t; the source keeps it in a uint32_t.
use process_bus.Prelude.{ℕ, ◌+◌, ◌%◌, not, ◌&&◌, ◌==◌, if◌then◌else◌}

pub record SvState : Type 0 where
  pub smp_cnt : ℕ

pub record SvSource : Type 0 where
  pub smp_cnt : ℕ
  pub err_smp_cnt : ℕ
  pub spdu_number : ℕ
  pub err_spdu_cnt : ℕ

abbrev pub new_sv_source : SvSource
new_sv_source = record { smp_cnt = 0; err_smp_cnt = 0; spdu_number = 0; err_spdu_cnt = 0 }

abbrev next32 : ℕ → ℕ
next32 n = (n + 1) % 4294967296

-- `ProcessSessionState`, as for GOOSE.
unfoldable pub process_session_state : SvSource → ℕ → SvSource
process_session_state s spdu_number = record s {
  err_spdu_cnt =
      if not (s.spdu_number == 0) && not (spdu_number == next32 s.spdu_number)
      then next32 s.err_spdu_cnt
      else s.err_spdu_cnt;
  spdu_number = spdu_number;
}

-- `ProcessState`: the counter moves by the number of ASDUs in a frame, or starts again at zero.
unfoldable pub process_state : SvSource → ℕ → SvState → SvSource
process_state s num state = record s {
  err_smp_cnt =
      if not (state.smp_cnt == (s.smp_cnt + num) % 4294967296) && not (state.smp_cnt == 0)
      then next32 s.err_smp_cnt
      else s.err_smp_cnt;
  smp_cnt = state.smp_cnt;
}
