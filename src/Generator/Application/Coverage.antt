-- ===== src/Generator/Application/Coverage.antt =====
-- The generators and the workers for streams that are shared.
use process_bus.Prelude.{
  ℕ, zero, suc, ◌+◌, ◌-◌, ◌%◌, ◌≤◌, ◌<◌, ◌≡◌, refl, ap, ◌∙◌, arith, Option, List, [], ◌∷◌, ◌++◌,
  length, map, consecutive, consecutive-add, length-map,
}
use process_bus.Generator.Slices.{start, start-next, start-le, start-workers, ied_slice-start}
use process_bus.Generator.Application.Run.{
  Gen, goose_gen, sv_gen, r_goose_gen, r_sv_gen, Amend, Started, make_r_workers, launch,
  run_r_workers,
}

-- The streams of a generator.
abbrev pub streams_of : Gen → List ℕ
streams_of (goose_gen n freq entries) = consecutive 0 n
streams_of (sv_gen n type) = consecutive 0 n
streams_of (r_goose_gen n freq entries base) = consecutive base n
streams_of (r_sv_gen n type base) = consecutive base n

abbrev pub all_streams : List Gen → List ℕ
all_streams [] = []
all_streams (g ∷ gens) = streams_of g ++ all_streams gens

-- A factory of generators for the streams from `lo` on.
abbrev pub Counts : (ℕ → ℕ → Gen) → Type 0
Counts factory = (lo n : ℕ) → streams_of (factory lo n) ≡ consecutive lo n

pub slice_width :
    (lo hi : ℕ) → lo ≤ hi → hi < 4294967296 → (hi + 4294967296 - lo) % 4294967296 ≡ hi - lo
slice_width lo hi le fits = omega (arith, le, fits)

consecutive_glued :
    (lo hi num : ℕ)
    → lo ≤ hi
    → hi ≤ num
    → consecutive lo (hi - lo) ++ consecutive hi (num - hi) ≡ consecutive lo (num - lo)
consecutive_glued lo hi num up below =
    let next : hi ≡ lo + (hi - lo) = omega (arith, up) in
    let all : hi - lo + (num - hi) ≡ num - lo = omega (arith, up, below) in
    ap (λ k. consecutive lo (hi - lo) ++ consecutive k (num - hi)) next
    ∙ consecutive-add (hi - lo) (num - hi) lo
    ∙ ap (consecutive lo) all

pub make_r_workers-streams :
    (workers num : ℕ) (factory : ℕ → ℕ → Gen) (n i : ℕ)
    → Counts factory
    → num < 4294967296
    → 1 ≤ workers
    → i + n ≡ workers
    → all_streams (make_r_workers workers num factory n i)
      ≡ consecutive (start num workers i) (num - start num workers i)
unfolding make_r_workers
make_r_workers-streams workers num factory zero i counts fits one all =
    let here : i ≡ workers = omega (arith, all) in
    let end : num - start num workers i ≡ 0 =
      omega (arith, ap (start num workers) here, start-workers num workers one) in
    rw end refl
make_r_workers-streams workers num factory (suc n) i counts fits one all =
    let lo : ℕ = start num workers i in
    let hi : ℕ = start num workers (suc i) in
    let below : hi ≤ num = start-le num workers (suc i) one (omega (arith, all)) in
    let up : lo ≤ hi = ground (arith, start-next num workers i) in
    let turned : i + 1 ≡ suc i = omega arith in
    let rest =
      make_r_workers-streams workers num factory n (i + 1) counts fits one (omega (arith, all)) in
    rw
      (
        ied_slice-start num workers i fits (omega (arith, all)),
        slice_width lo hi up (omega (arith, below, fits)),
        counts lo (hi - lo),
        rest,
        turned,
      )
      (consecutive_glued lo hi num up below)

launch_gens :
    (amend : Amend) (lcores : List ℕ) (idx : ℕ) (jobs : List (Gen × Option (List ℕ)))
    → length jobs ≤ length lcores
    → idx + length jobs ≤ 65536
    → (map (λ w. w.gen) (launch amend lcores idx jobs)
        ≡ map (λ (j : Gen × Option (List ℕ)). j.0) jobs)
      × (map (λ w. w.queue) (launch amend lcores idx jobs) ≡ consecutive idx (length jobs))
      × (map (λ w. w.stat) (launch amend lcores idx jobs) ≡ consecutive idx (length jobs))
launch_gens amend [] idx [] le small = (refl, refl, refl)
launch_gens amend (lcore ∷ lcores) idx [] le small = (refl, refl, refl)
launch_gens amend [] idx (job ∷ jobs) le small = absurd (omega (arith, le))
launch_gens amend (lcore ∷ lcores) idx ((gen, plan) ∷ jobs) le small =
    let (gens, queues, stats) =
      launch_gens amend lcores (idx + 1) jobs (omega (arith, le)) (omega (arith, small)) in
    let whole : idx % 65536 ≡ idx = omega (arith, small) in
    (ap (λ xs. gen ∷ xs) gens, rw (whole, queues) refl, ap (λ xs. idx ∷ xs) stats)

-- What the workers `ws` are for the generators `gens`.
pub record Runs (gens : List Gen) (ws : List Started) : Type 0 where
  pub generators : map (λ (w : Started). w.gen) ws ≡ gens
  pub queues : map (λ (w : Started). w.queue) ws ≡ consecutive 0 (length gens)
  pub stat_entries : map (λ (w : Started). w.stat) ws ≡ consecutive 0 (length gens)

pub run_r_workers-Runs :
    (amend : Amend) (lcores : List ℕ) (jobs : List (Gen × Option (List ℕ)))
    → length jobs ≤ suc (length lcores)
    → length jobs ≤ 65536
    → Runs (map (λ (j : Gen × Option (List ℕ)). j.0) jobs) (run_r_workers amend lcores jobs)
unfolding run_r_workers
run_r_workers-Runs amend lcores [] le small = record {
  generators = refl;
  queues = refl;
  stat_entries = refl;
}
run_r_workers-Runs amend lcores ((gen, plan) ∷ jobs) le small =
    let (gens, queues, stats) =
      launch_gens amend lcores 1 jobs (omega (arith, le)) (omega (arith, small)) in
    let same = length-map (λ (j : Gen × Option (List ℕ)). j.0) jobs in
    record {
      generators = ap (λ xs. gen ∷ xs) gens;
      queues = rw (same, queues) refl;
      stat_entries = rw (same, stats) refl;
    }
