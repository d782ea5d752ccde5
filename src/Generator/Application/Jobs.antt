-- ===== src/Generator/Application/Jobs.antt =====
-- What each worker of `GenApplication::Run` has to write and, in burst mode, its plan.
use process_bus.Prelude.{
  ℕ, zero, suc, ◌+◌, ◌-◌, ◌%◌, ◌≤◌, ◌<◌, ◌≡◌, refl, sym, ap, ◌∙◌, arith, inl, inr, Bool-cases, true,
  false, Option, none, some, List, [], ◌∷◌, length, map, length-consecutive, All, ltb,
  if◌then◌else◌,
}
use process_bus.RSession.Layout.{SecurityMode, sec_none, sec_hmac, sec_gcm}
use process_bus.Generator.{make_burst_plan}
use process_bus.Generator.Slices.{start, start-next, start-le, ied_slice-start}
use process_bus.Generator.Burst.{Platform, make_r_burst_plans}
use process_bus.Generator.Units.{SvType, sv80, sv256, units_from, generate_tx_units}
use process_bus.Generator.Application.{GenApplication}
use process_bus.Generator.Application.Run.{
  Gen, goose_gen, sv_gen, r_goose_gen, r_sv_gen, Amend, amend_goose, amend_sv, amend_r_goose,
  amend_r_sv, Started, tx_unit_num, make_r_workers, launch, run_r_workers, pick_amend, paced,
  with_plans,
}
use process_bus.Generator.Application.Work.{Work, idle, alone, shared, work_of}
use process_bus.Generator.Application.Coverage.{streams_of, Counts, slice_width}

-- The function that writes the packets of a generator in a security mode.
abbrev pub writer : SecurityMode → Gen → Amend
writer mode (goose_gen n freq entries) = amend_goose
writer mode (sv_gen n type) = amend_sv type
writer mode (r_goose_gen n freq entries base) = amend_r_goose mode
writer mode (r_sv_gen n type base) = amend_r_sv type mode

-- The function that writes the first kind of packets that is asked for.
abbrev pub asked_writer : GenApplication → Amend
asked_writer app =
    if ltb 0 app.goose_num
    then amend_goose
    else if ltb 0 app.sv80_num
    then amend_sv sv80
    else if ltb 0 app.sv256_num
    then amend_sv sv256
    else if ltb 0 app.rgoose_num
    then amend_r_goose app.mode
    else if ltb 0 app.rsv80_num
    then amend_r_sv sv80 app.mode
    else amend_r_sv sv256 app.mode

-- A generator's streams once for each of its transmit units.
abbrev pub plan_of : Gen → List ℕ
plan_of gen = make_burst_plan (length (streams_of gen)) (tx_unit_num gen)

abbrev pub planned : GenApplication → Gen → Option (List ℕ)
planned app gen = if app.burst then some (plan_of gen) else none

-- A worker sends the kind that is asked for, with the function for it and the security mode, and in
-- burst mode the plan of its own generator.
pub record Fits (app : GenApplication) (w : Started) : Type 0 where
  pub kind : writer app.mode w.gen ≡ asked_writer app
  pub writes : w.amend ≡ asked_writer app
  pub plan : w.plan ≡ planned app w.gen

pub length-units_from : (bunch ieds pps n i : ℕ) → length (units_from bunch ieds pps n i) ≡ n
unfolding units_from
length-units_from bunch ieds pps zero i = refl
length-units_from bunch ieds pps (suc n) i = ap suc (length-units_from bunch ieds pps n (i + 1))

tx_unit_num-goose : (n freq entries : ℕ) → tx_unit_num (goose_gen n freq entries) ≡ freq
unfolding tx_unit_num generate_tx_units
tx_unit_num-goose n freq entries = length-units_from 32 n freq freq 0

pick_r_goose :
    (mode : SecurityMode)
    → pick_amend mode (amend_r_goose sec_none) (amend_r_goose sec_hmac) (amend_r_goose sec_gcm)
      ≡ amend_r_goose mode
pick_r_goose sec_none = refl
pick_r_goose sec_hmac = refl
pick_r_goose sec_gcm = refl

pick_r_sv :
    (type : SvType) (mode : SecurityMode)
    → pick_amend mode
        (amend_r_sv type sec_none)
        (amend_r_sv type sec_hmac)
        (amend_r_sv type sec_gcm)
      ≡ amend_r_sv type mode
pick_r_sv type sec_none = refl
pick_r_sv type sec_hmac = refl
pick_r_sv type sec_gcm = refl

-- The work writes what is asked for.
abbrev pub Writes : GenApplication → Work → Type 0
Writes app idle = Unit {0}
Writes app (alone gen amend num reps) =
    (writer app.mode gen ≡ asked_writer app) × (amend ≡ asked_writer app) × (reps ≡ tx_unit_num gen)
Writes app (shared num factory amend) =
    ((lo n : ℕ) → writer app.mode (factory lo n) ≡ asked_writer app) × (amend ≡ asked_writer app)

pub work_of-Writes :
    (platform : Platform) (lcores : List ℕ) (app : GenApplication)
    → Writes app (work_of platform lcores app)
work_of-Writes platform lcores app = (elim (Bool-cases (ltb 0 app.goose_num)) [
  | inl e6 ↦ rw e6 (
      rw e6
        (refl, refl, sym (tx_unit_num-goose app.goose_num app.goose_send_freq app.goose_entries)))
  | inr e6 ↦ rw e6 (elim (Bool-cases (ltb 0 app.sv80_num)) [
    | inl e5 ↦ rw e5 (rw (e6, e5) (refl, refl, refl))
    | inr e5 ↦ rw e5 (elim (Bool-cases (ltb 0 app.sv256_num)) [
      | inl e4 ↦ rw e4 (rw (e6, e5, e4) (refl, refl, refl))
      | inr e4 ↦ rw e4 (elim (Bool-cases (ltb 0 app.rgoose_num)) [
        | inl e3 ↦ rw e3 (rw (e6, e5, e4, e3) ((λ lo n. refl), pick_r_goose app.mode))
        | inr e3 ↦ rw e3 (elim (Bool-cases (ltb 0 app.rsv80_num)) [
          | inl e2 ↦ rw e2 (rw (e6, e5, e4, e3, e2) ((λ lo n. refl), pick_r_sv sv80 app.mode))
          | inr e2 ↦ rw e2 (elim (Bool-cases (ltb 0 app.rsv256_num)) [
            | inl e1 ↦ rw e1 (rw (e6, e5, e4, e3, e2) ((λ lo n. refl), pick_r_sv sv256 app.mode))
            | inr e1 ↦ rw e1 tt
          ])
        ])
      ])
    ])
  ])
])

abbrev Job : Type 0
Job = Gen × Option (List ℕ)

launch-All :
    (P : Gen → Option (List ℕ) → Type 0) (amend : Amend) (lcores : List ℕ) (idx : ℕ)
    (jobs : List Job)
    → All (λ j. P j.0 j.1) jobs
    → All (λ w. P w.gen w.plan × (w.amend ≡ amend)) (launch amend lcores idx jobs)
launch-All P amend [] idx jobs h = tt
launch-All P amend (lcore ∷ lcores) idx [] h = tt
launch-All P amend (lcore ∷ lcores) idx ((gen, plan) ∷ jobs) (h, hs) =
    ((h, refl), launch-All P amend lcores (idx + 1) jobs hs)

-- What holds of the jobs holds of the workers.
run_r_workers-All :
    (P : Gen → Option (List ℕ) → Type 0) (amend : Amend) (lcores : List ℕ) (jobs : List Job)
    → All (λ j. P j.0 j.1) jobs
    → All (λ w. P w.gen w.plan × (w.amend ≡ amend)) (run_r_workers amend lcores jobs)
unfolding run_r_workers
run_r_workers-All P amend lcores [] h = tt
run_r_workers-All P amend lcores ((gen, plan) ∷ jobs) (h, hs) =
    ((h, refl), launch-All P amend lcores 1 jobs hs)

-- Generators that the factory makes write the kind, and no plan is needed.
paced-All :
    (P : Gen → Type 0) (workers num : ℕ) (factory : ℕ → ℕ → Gen) (n i : ℕ)
    → ((lo n : ℕ) → P (factory lo n))
    → All (λ j. P j.0 × (j.1 ≡ none)) (map paced (make_r_workers workers num factory n i))
unfolding make_r_workers
paced-All P workers num factory zero i h = tt
paced-All P workers num factory (suc n) i h =
    ((h _ _, refl), paced-All P workers num factory n (i + 1) h)

-- The plans of `make_r_burst_plans` are those of the generators.
planned-All :
    (P : Gen → Type 0) (workers num : ℕ) (factory : ℕ → ℕ → Gen) (n i : ℕ)
    → ((lo n : ℕ) → P (factory lo n))
    → Counts factory
    → num < 4294967296
    → 1 ≤ workers
    → i + n ≡ workers
    → let gens = make_r_workers workers num factory n i in
      All
        (λ j. P j.0 × (j.1 ≡ some (plan_of j.0)))
        (with_plans gens (make_r_burst_plans num workers (map tx_unit_num gens) i))
unfolding make_r_workers make_r_burst_plans
planned-All P workers num factory zero i h counts fits one all = tt
planned-All P workers num factory (suc n) i h counts fits one all =
    let lo : ℕ = start num workers i in
    let hi : ℕ = start num workers (suc i) in
    let below : hi ≤ num = start-le num workers (suc i) one (omega (arith, all)) in
    let up : lo ≤ hi = ground (arith, start-next num workers i) in
    let width = slice_width lo hi up (omega (arith, below, fits)) in
    let gen : Gen = factory lo ((hi + 4294967296 - lo) % 4294967296) in
    let count : length (streams_of gen) ≡ hi - lo =
      ap (λ k. length (streams_of (factory lo k))) width
      ∙ ap length (counts lo (hi - lo))
      ∙ length-consecutive (hi - lo) lo in
    rw (ied_slice-start num workers i fits (omega (arith, all))) (
      (h _ _, ap (λ k. some (make_burst_plan k (tx_unit_num gen))) (sym count)),
      planned-All P workers num factory n (i + 1) h counts fits one (omega (arith, all)),
    )

All-map :
    {A : Type 0} (P Q : A → Type 0) (xs : List A) → ((x : A) → P x → Q x) → All P xs → All Q xs
All-map P Q [] f h = tt
All-map P Q (x ∷ xs) f (h, hs) = (f x h, All-map P Q xs f hs)

module _ (app : GenApplication) where
  abbrev Asked : Gen → Type 0
  Asked gen = writer app.mode gen ≡ asked_writer app

  fits :
      (plan : Gen → Option (List ℕ)) (amend : Amend) (ws : List Started)
      → amend ≡ asked_writer app
      → ((gen : Gen) → plan gen ≡ planned app gen)
      → All (λ w. (Asked w.gen × (w.plan ≡ plan w.gen)) × (w.amend ≡ amend)) ws
      → All (Fits app) ws
  fits plan amend ws written all = All-map _ (Fits app) ws (λ w ((kind, own), same). record {
    kind = kind;
    writes = same ∙ written;
    plan = own ∙ all w.gen;
  })

  pub paced-Fits :
      (lcores : List ℕ) (num : ℕ) (factory : ℕ → ℕ → Gen) (amend : Amend)
      → Writes app (shared num factory amend)
      → app.burst ≡ false
      → All (Fits app) (
          run_r_workers amend lcores
            (map paced (make_r_workers app.worker_num num factory app.worker_num 0)))
  paced-Fits lcores num factory amend (kinds, written) no_burst =
      fits (λ gen. none) amend _ written (λ gen. rw no_burst refl)
        (run_r_workers-All (λ gen plan. Asked gen × (plan ≡ none)) amend lcores _
          (paced-All Asked app.worker_num num factory app.worker_num 0 kinds))

  pub burst-Fits :
      (lcores : List ℕ) (num : ℕ) (factory : ℕ → ℕ → Gen) (amend : Amend)
      → Writes app (shared num factory amend)
      → app.burst ≡ true
      → Counts factory
      → num < 4294967296
      → 1 ≤ app.worker_num
      → let gens = make_r_workers app.worker_num num factory app.worker_num 0 in
        All (Fits app) (
          run_r_workers amend lcores
            (with_plans gens (make_r_burst_plans num app.worker_num (map tx_unit_num gens) 0)))
  burst-Fits lcores num factory amend (kinds, written) bursts counts small one =
      fits (λ gen. some (plan_of gen)) amend _ written (λ gen. rw bursts refl)
        (run_r_workers-All (λ gen plan. Asked gen × (plan ≡ some (plan_of gen))) amend lcores _
          (planned-All Asked app.worker_num num factory app.worker_num 0 kinds counts small one
            (omega arith)))
