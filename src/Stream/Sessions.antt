-- ===== src/Stream/Sessions.antt =====
-- Both kinds of sources track the SPDU numbers of a routable stream in the same way.
use process_bus.Prelude.{
  ℕ, zero, suc, ◌+◌, ◌%◌, ◌≤◌, ◌<◌, ◌≡◌, refl, ◌∙◌, arith, not, ◌&&◌, ◌==◌, if◌then◌else◌, List, [],
  ◌∷◌, ◌++◌, consecutive,
}
use process_bus.Stream.Goose.{GooseSource}
use process_bus.Stream.Sv.{SvSource}
use process_bus.Stream.Goose
use process_bus.Stream.Sv

-- A source that takes SPDU numbers: what it saw last and how many gaps it counted.
pub record Session {ℓ} (S : Type ℓ) : Type ℓ where
  pub take_spdu : S → ℕ → S
  pub last_seen : S → ℕ
  pub gaps : S → ℕ
  pub last_seen-take_spdu : (s : S) (n : ℕ) → last_seen (take_spdu s n) ≡ n
  pub gaps-take_spdu :
      (s : S) (n : ℕ)
      → gaps (take_spdu s n) ≡ (
          if not (last_seen s == 0) && not (n == (last_seen s + 1) % 4294967296)
          then (gaps s + 1) % 4294967296
          else gaps s)

module _ {ℓ} {S : Type ℓ} (session : Session S) where
  abbrev pub take_all : List ℕ → S → S
  take_all [] s = s
  take_all (n ∷ ns) s = take_all ns (session.take_spdu s n)

  take_all-append : (xs ys : List ℕ) (s : S) → take_all (xs ++ ys) s ≡ take_all ys (take_all xs s)
  take_all-append [] ys s = refl
  take_all-append (x ∷ xs) ys s = take_all-append xs ys (session.take_spdu s x)

  -- A source that has seen the number before `k` counts no gap in a run from `k` on.
  take_all-next :
      (k n : ℕ) (s : S)
      → 2 ≤ k
      → session.last_seen s + 1 ≡ k
      → k + n ≤ 4294967296
      → (session.gaps (take_all (consecutive k n) s) ≡ session.gaps s)
        × (session.last_seen (take_all (consecutive k n) s) + 1 ≡ k + n)
  take_all-next k zero s lo e fits = (refl, omega (arith, e))
  take_all-next k (suc n) s lo e fits =
      let last = session.last_seen-take_spdu s k in
      let (same, end) =
        take_all-next (k + 1) n (session.take_spdu s k) (omega arith) (omega (arith, last))
          (omega arith) in
      (same ∙ ground (arith, session.gaps-take_spdu s k, e), omega (arith, end))

  -- A source that has seen no number yet, or the one before the first, or any other one `seen`.
  take_all-from :
      (k n : ℕ) (s : S)
      → 1 ≤ k
      → k + n < 4294967296
      → (session.gaps (take_all (consecutive k (suc n)) s) ≡ session.gaps (session.take_spdu s k))
        × (session.last_seen (take_all (consecutive k (suc n)) s) ≡ k + n)
  take_all-from k n s lo fits =
      let last = session.last_seen-take_spdu s k in
      let (same, end) =
        take_all-next (k + 1) n (session.take_spdu s k) (omega arith) (omega (arith, last))
          (omega arith) in
      (same, omega (arith, end))

  -- A new source takes a run of SPDU numbers from which `lost` numbers in a row are missing, none or
  -- more: it counts one gap if there is a missing one, and none else, for numbers that do not wrap.
  gaps-lost :
      (s : S) (k n lost m : ℕ)
      → session.last_seen s ≡ 0
      → 1 ≤ k
      → k + n + 1 + lost + m < 4294967296
      → session.gaps (take_all (consecutive k (suc n) ++ consecutive (k + n + 1 + lost) (suc m)) s)
        ≡ (if lost == 0 then session.gaps s else (session.gaps s + 1) % 4294967296)
  gaps-lost s k n lost m new lo fits =
      let first = take_all-from k n s lo (omega arith) in
      let before : S = take_all (consecutive k (suc n)) s in
      let second = take_all-from (k + n + 1 + lost) m before (omega arith) (omega arith) in
      rw (take_all-append (consecutive k (suc n)) (consecutive (k + n + 1 + lost) (suc m)) s) (
        second.0
        ∙ ground (
          arith,
          session.gaps-take_spdu before (k + n + 1 + lost),
          session.gaps-take_spdu s k,
          first,
        ))

pub goose_last : (s : GooseSource) (n : ℕ) → (Goose.process_session_state s n).spdu_number ≡ n
unfolding Goose.process_session_state
goose_last s n = refl

pub goose_gaps :
    (s : GooseSource) (n : ℕ)
    → (Goose.process_session_state s n).err_spdu_cnt ≡ (
        if not (s.spdu_number == 0) && not (n == (s.spdu_number + 1) % 4294967296)
        then (s.err_spdu_cnt + 1) % 4294967296
        else s.err_spdu_cnt)
unfolding Goose.process_session_state
goose_gaps s n = refl

abbrev pub goose_session : Session GooseSource
goose_session = record {
  take_spdu = Goose.process_session_state;
  last_seen = λ s. s.spdu_number;
  gaps = λ s. s.err_spdu_cnt;
  last_seen-take_spdu = goose_last;
  gaps-take_spdu = goose_gaps;
}

pub sv_last : (s : SvSource) (n : ℕ) → (Sv.process_session_state s n).spdu_number ≡ n
unfolding Sv.process_session_state
sv_last s n = refl

pub sv_gaps :
    (s : SvSource) (n : ℕ)
    → (Sv.process_session_state s n).err_spdu_cnt ≡ (
        if not (s.spdu_number == 0) && not (n == (s.spdu_number + 1) % 4294967296)
        then (s.err_spdu_cnt + 1) % 4294967296
        else s.err_spdu_cnt)
unfolding Sv.process_session_state
sv_gaps s n = refl

abbrev pub sv_session : Session SvSource
sv_session = record {
  take_spdu = Sv.process_session_state;
  last_seen = λ s. s.spdu_number;
  gaps = λ s. s.err_spdu_cnt;
  last_seen-take_spdu = sv_last;
  gaps-take_spdu = sv_gaps;
}

-- A new R-GOOSE source and a new R-SV source that take SPDU numbers in a row from `k` on, at least
-- one, and, behind `lost` missing ones, further numbers in a row, at least one, count one gap if a
-- number is missing and none else, however many are missing: for a `k` above 0 and numbers below
-- 2 ^ 32.
pub both_gaps-lost :
    (g : GooseSource) (s : SvSource) (k n lost m : ℕ)
    → g.spdu_number ≡ 0
    → s.spdu_number ≡ 0
    → 1 ≤ k
    → k + n + 1 + lost + m < 4294967296
    → let numbers = consecutive k (suc n) ++ consecutive (k + n + 1 + lost) (suc m) in
      ((take_all goose_session numbers g).err_spdu_cnt
        ≡ (if lost == 0 then g.err_spdu_cnt else (g.err_spdu_cnt + 1) % 4294967296))
      × ((take_all sv_session numbers s).err_spdu_cnt
          ≡ (if lost == 0 then s.err_spdu_cnt else (s.err_spdu_cnt + 1) % 4294967296))
both_gaps-lost g s k n lost m new_goose new_sv lo fits = (
  gaps-lost goose_session g k n lost m new_goose lo fits,
  gaps-lost sv_session s k n lost m new_sv lo fits,
)
