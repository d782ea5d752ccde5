-- ===== src/Generator/Application/Shares.antt =====
-- Workers that send every stream that is asked for once.

use process_bus.Prelude.{
  ℕ, zero, suc, ◌+◌, ◌-◌, ◌<◌, ◌≡◌, ◌≢◌, refl, sym, ap, ◌∙◌, arith, Option, List, All, [], ◌∷◌,
  length, map, consecutive, length-map, append-nil, ◌==◌, if◌then◌else◌,
}
use process_bus.Generator.Slices.{start}
use process_bus.Generator.Burst.{make_r_burst_plans}
use process_bus.Generator.Application.{GenApplication, r_num}
use process_bus.Generator.Application.Config.{IsConfigured}
use process_bus.Generator.Application.Run.{
  Gen, Amend, Started, make_r_workers, run_r_workers, paced, with_plans, single,
}
use process_bus.Generator.Application.Jobs.{Fits}
use process_bus.Generator.Application.Coverage.{
  streams_of, all_streams, Counts, Runs, make_r_workers-streams, run_r_workers-Runs,
}
use process_bus.Generator.Application.Asked.{asked}

-- The workers `ws` have generators that together send each stream that is asked for once, and one queue
-- and one entry of the statistics each, counted from 0; each writes what is asked for, by its plan in
-- burst mode.
pub record Covers (app : GenApplication) (ws : List Started) : Type 0 where
  pub gens : List Gen
  pub runs : Runs gens ws
  pub once : all_streams gens ≡ consecutive 0 (asked app)
  pub workers : All (Fits app) ws
  pub count : length gens ≡ (if asked app == 0 then 0 else app.worker_num)

pub length-make_r_workers :
    (workers num : ℕ) (factory : ℕ → ℕ → Gen) (n i : ℕ)
    → length (make_r_workers workers num factory n i) ≡ n
unfolding make_r_workers
length-make_r_workers workers num factory zero i = refl
length-make_r_workers workers num factory (suc n) i =
    ap suc (length-make_r_workers workers num factory n (i + 1))

pub length-make_r_burst_plans :
    (num workers : ℕ) (units : List ℕ) (i : ℕ)
    → length (make_r_burst_plans num workers units i) ≡ length units
unfolding make_r_burst_plans
length-make_r_burst_plans num workers [] i = refl
length-make_r_burst_plans num workers (u ∷ units) i =
    ap suc (length-make_r_burst_plans num workers units (i + 1))

abbrev Job : Type 0
Job = Gen × Option (List ℕ)

pub paced_gens : (gens : List Gen) → map (λ (j : Job). j.0) (map paced gens) ≡ gens
paced_gens [] = refl
paced_gens (g ∷ gens) = ap (λ xs. g ∷ xs) (paced_gens gens)

pub with_plans_gens :
    (gens : List Gen) (plans : List (List ℕ))
    → length plans ≡ length gens
    → map (λ (j : Job). j.0) (with_plans gens plans) ≡ gens
with_plans_gens [] plans e = refl
with_plans_gens (g ∷ gens) [] e = absurd (omega (arith, e))
with_plans_gens (g ∷ gens) (plan ∷ plans) e =
    ap (λ xs. g ∷ xs) (with_plans_gens gens plans (omega (arith, e)))

all_workers : (a workers n : ℕ) → n ≡ a → n ≢ 0 → (if a == 0 then 0 else workers) ≡ workers
all_workers a workers n e some_one = ground (arith, e)

from_first :
    (num workers : ℕ)
    → consecutive (start num workers 0) (num - start num workers 0) ≡ consecutive 0 num
from_first num workers =
    let first : start num workers 0 ≡ 0 = ground arith in
    let width : num - 0 ≡ num = omega arith in rw first (ap (consecutive 0) width)

module _ (lcores : List ℕ) (app : GenApplication)
    (configured : IsConfigured (suc (length lcores)) app) (small : length lcores < 65536) where
  pub alone-Covers :
      (gen : Gen) (amend : Amend) (num : ℕ) (plan : Option (List ℕ))
      → (streams_of gen ≡ consecutive 0 num) × (num ≡ asked app) × (num ≢ 0) × (r_num app ≡ 0)
      → All (Fits app) (single gen amend plan)
      → Covers app (single gen amend plan)
  alone-Covers gen amend num plan (streams, all, some_one, l2) fit = record {
    workers = fit;
    gens = gen ∷ [];
    runs = record { generators = refl; queues = refl; stat_entries = refl };
    once = rw (← all) (append-nil (streams_of gen) ∙ streams);
    count = sym (all_workers (asked app) app.worker_num num all some_one ∙ configured.alone l2);
  }

  -- Jobs whose generators share the streams.
  pub shared-Covers :
      (num : ℕ) (factory : ℕ → ℕ → Gen) (amend : Amend) (jobs : List Job)
      → num < 4294967296
      → Counts factory × (num ≡ asked app) × (num ≢ 0) × (r_num app ≡ num)
      → map (λ (j : Job). j.0) jobs ≡ make_r_workers app.worker_num num factory app.worker_num 0
      → All (Fits app) (run_r_workers amend lcores jobs)
      → Covers app (run_r_workers amend lcores jobs)
  shared-Covers num factory amend jobs fits (counts, all, some_one, routable) same fit =
      let gens : List Gen = make_r_workers app.worker_num num factory app.worker_num 0 in
      let size : length jobs ≡ app.worker_num =
        sym (length-map (λ (j : Job). j.0) jobs)
        ∙ ap length same
        ∙ length-make_r_workers app.worker_num num factory app.worker_num 0 in
      record {
        workers = fit;
        gens = gens;
        runs = rw (← same) (
            run_r_workers-Runs amend lcores jobs (omega (arith, size, configured.on_lcores))
              (omega (arith, size, configured.on_lcores, small)));
        once = rw (← all) (
            make_r_workers-streams app.worker_num num factory app.worker_num 0 counts fits
              configured.some_worker (omega arith)
            ∙ from_first num app.worker_num);
        count =
            length-make_r_workers app.worker_num num factory app.worker_num 0
            ∙ sym (all_workers (asked app) app.worker_num num all some_one);
      }

  pub idle-Covers : asked app ≡ 0 → Covers app []
  idle-Covers s = record {
    gens = [];
    runs = record { generators = refl; queues = refl; stat_entries = refl };
    once = rw s refl;
    workers = tt;
    count = rw s refl;
  }
