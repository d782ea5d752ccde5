-- ===== src/Generator/Application/Reasons.antt =====
-- What `GenApplication::Run` promises: the workers that it starts, or a reason for which it throws.
use process_bus.Prelude.Result.{ok, Result-cases}
use process_bus.Prelude.{
  not, ◌&&◌, leb, ◌≤◌, inl, inr, ℕ, ◌≡◌, ◌≢◌, refl, arith, Bool, true, false, List, [], ◌∷◌, All,
  length, map, if◌then◌else◌,
}
use process_bus.Generator.{make_burst_plan}
use process_bus.Generator.Burst.{Platform, make_r_burst_plans, total_burst, check_burst_fits}
use process_bus.Generator.Application.{
  GenApplication, Outcome, done, ◌>>◌, refuse_unless, refused, Refusal, link_down, pool_too_small,
  burst_too_large, no_generator, no_tx_units, empty_plan,
}
use process_bus.Generator.Application.Run.{
  Gen, Started, make_r_workers, tx_unit_num, check_fits, is_r, pool_need, all_made, none_empty,
}
use process_bus.Generator.Application.Work.{Work, idle, alone, shared, work_of}
use process_bus.Generator.Application.Shares.{Covers}

-- The mbufs and the workers of the burst that the work makes.
abbrev pub staged_of : GenApplication → Work → ℕ × ℕ
staged_of app idle = (0, 1)
staged_of app (alone gen amend num reps) = (length (make_burst_plan num reps), 1)
staged_of app (shared num factory amend) =
    let gens = make_r_workers app.worker_num num factory app.worker_num 0 in
    (total_burst (make_r_burst_plans num (length gens) (map tx_unit_num gens) 0), app.worker_num)

abbrev TooLarge : Platform → ℕ × ℕ → Type 0
TooLarge platform (staged, workers) = check_burst_fits platform staged workers ≢ ok tt

-- The generators whose constructors run for the work, and the plans of its burst.
abbrev pub gens_of : GenApplication → Work → List Gen
gens_of app idle = []
gens_of app (alone gen amend num reps) = gen ∷ []
gens_of app (shared num factory amend) = make_r_workers app.worker_num num factory app.worker_num 0

abbrev pub plans_of : GenApplication → Work → List (List ℕ)
plans_of app idle = []
plans_of app (alone gen amend num reps) = make_burst_plan num reps ∷ []
plans_of app (shared num factory amend) =
    let gens = make_r_workers app.worker_num num factory app.worker_num 0 in
    make_r_burst_plans num (length gens) (map tx_unit_num gens) 0

-- An L2 generator has no transmit unit.
abbrev NoUnits : Work → Type 0
NoUnits (alone gen amend num reps) = tx_unit_num gen ≡ 0
NoUnits _ = ⊥

module _ (platform : Platform) (lcores : List ℕ) (app : GenApplication) (makes : Gen → Bool) where
  -- The reason for which the work is not started holds.
  abbrev pub WorkFails : Work → Refusal → Type 0
  WorkFails work no_generator = ¬ All (λ gen. makes gen ≡ true) (gens_of app work)
  WorkFails work no_tx_units = (app.burst ≡ false) × NoUnits work
  WorkFails work empty_plan = (app.burst ≡ true) × (¬ All (λ plan. plan ≢ []) (plans_of app work))
  WorkFails work burst_too_large = (app.burst ≡ true) × TooLarge platform (staged_of app work)
  WorkFails work _ = ⊥

  -- The reason for which `Run` throws holds.
  abbrev pub Justified : Bool → Refusal → Type 0
  Justified link pool_too_small =
      (is_r platform lcores app ≡ true)
      × (platform.generator_mbuf_num ≤ pool_need platform lcores app)
  Justified link link_down = link ≡ false
  Justified link r = WorkFails (work_of platform lcores app) r

  -- `Run` starts the workers, or it throws with reason.
  abbrev pub Serves : Bool → Outcome (List Started) → Type 0
  Serves link (done ws) = Covers app ws
  Serves link (refused r) = Justified link r

  abbrev pub WorkServes : Work → Outcome (List Started) → Type 0
  WorkServes work (done ws) = Covers app ws
  WorkServes work (refused r) = WorkFails work r

  pub work-Serves :
      (link : Bool) (r : Outcome (List Started))
      → WorkServes (work_of platform lcores app) r
      → Serves link r
  work-Serves link (done ws) h = h
  work-Serves link (refused pool_too_small) h = absurd h
  work-Serves link (refused link_down) h = absurd h
  work-Serves link (refused r) h = h

pub all_made-All :
    (makes : Gen → Bool) (gens : List Gen)
    → All (λ gen. makes gen ≡ true) gens
    → all_made makes gens ≡ true
all_made-All makes [] h = refl
all_made-All makes (gen ∷ gens) (h, hs) = rw (h, all_made-All makes gens hs) refl

pub none_empty-All :
    (plans : List (List ℕ)) → All (λ plan. plan ≢ []) plans → none_empty plans ≡ true
none_empty-All [] h = refl
none_empty-All ([] ∷ plans) (h, hs) = absurd (h refl)
none_empty-All ((x ∷ plan) ∷ plans) (h, hs) = rw (none_empty-All plans hs) (ground arith)

pub not_all : {A : Type 0} (test : Bool) → (A → test ≡ true) → test ≡ false → ¬ A
not_all test h e a = cc (h a, e)

pub too_full :
    (routable : Bool) (mbufs need : ℕ)
    → not (routable && leb mbufs need) ≡ false
    → (routable ≡ true) × (mbufs ≤ need)
too_full routable mbufs need h = ground (arith, h)

module _ {A : Type 0} (P : Outcome A → Type 0) where
  pub guarded :
      (test : Bool) (r : Refusal) (k : Outcome A)
      → (test ≡ true → P k)
      → (test ≡ false → P (refused r))
      → P (refuse_unless test r >> k)
  guarded true r k yes_case no_case = yes_case refl
  guarded false r k yes_case no_case = no_case refl

  pub branch :
      (test : Bool) (x y : Outcome A)
      → (test ≡ true → P x)
      → (test ≡ false → P y)
      → P (if test then x else y)
  branch true x y left right = left refl
  branch false x y left right = right refl

  pub checked :
      (platform : Platform) (staged workers : ℕ) (k : Outcome A)
      → P k
      → (check_burst_fits platform staged workers ≢ ok tt → P (refused burst_too_large))
      → P (check_fits platform staged workers >> k)
  checked platform staged workers k fits too_large =
      elim (Result-cases (check_burst_fits platform staged workers)) [
        | inl (_, e) ↦ rw (check_fits, e) fits
        | inr (inl (n, e)) ↦ rw (check_fits, e) (too_large (λ same. cc))
        | inr (inr e) ↦ rw (check_fits, e) (too_large (λ same. cc))
      ]
