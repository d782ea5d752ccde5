-- ===== src/Stream/Goose.antt =====
-- src/common/goose_container.hpp: `GooseState` and the counters of `GooseSource`. All are uint32_t; the
-- timestamp is a uint64_t. The settings of a source are its passport in the container.
use process_bus.Prelude.{ℕ, ◌+◌, ◌%◌, not, ◌&&◌, ◌==◌, if◌then◌else◌}

pub record GooseState : Type 0 where
  pub timestamp : ℕ
  pub st_num : ℕ
  pub sq_num : ℕ

pub record GooseSource : Type 0 where
  pub st_num : ℕ
  pub sq_num : ℕ
  pub err_seq_cnt : ℕ
  pub spdu_number : ℕ
  pub err_spdu_cnt : ℕ

abbrev pub new_goose_source : GooseSource
new_goose_source = record {
  st_num = 0;
  sq_num = 0;
  err_seq_cnt = 0;
  spdu_number = 0;
  err_spdu_cnt = 0;
}

abbrev next32 : ℕ → ℕ
next32 n = (n + 1) % 4294967296

-- `ProcessSessionState`: zero means "not seen yet".
unfoldable pub process_session_state : GooseSource → ℕ → GooseSource
process_session_state s spdu_number = record s {
  err_spdu_cnt =
      if not (s.spdu_number == 0) && not (spdu_number == next32 s.spdu_number)
      then next32 s.err_spdu_cnt
      else s.err_spdu_cnt;
  spdu_number = spdu_number;
}

-- `ProcessState`.
unfoldable pub process_state : GooseSource → GooseState → GooseSource
process_state s state = record s {
  err_seq_cnt =
      if not (s.st_num == state.st_num) && not (state.st_num == next32 s.st_num)
      then next32 s.err_seq_cnt
      else s.err_seq_cnt;
  st_num = state.st_num;
  sq_num = state.sq_num;
}
