-- ===== src/Generator/Application/Config.antt =====
-- How many workers the constructor of `GenApplication` plans.
use process_bus.Prelude.{
  ℕ, ◌≤◌, ◌≡◌, ◌≢◌, refl, arith, Option, none, some, Bool-cases, inl, inr, ltb, ◌==◌, if◌then◌else◌,
}
use process_bus.Generator.Application.{
  GenApplication, CommandLine, Outcome, done, ◌>>=◌, bind_done, read_options, assign_workers,
  make_application, r_num,
}

-- A worker per lcore and at most one per routable stream; one where none is asked for or an L2 option has priority.
pub record IsConfigured (lcores : ℕ) (app : GenApplication) : Type 0 where
  pub some_worker : 1 ≤ app.worker_num
  pub on_lcores : app.worker_num ≤ lcores
  pub alone : r_num app ≡ 0 → app.worker_num ≡ 1
  pub has_stream : r_num app ≢ 0 → app.worker_num ≤ r_num app
  pub all_counted : app.stats ≡ app.worker_num

abbrev chosen : ℕ → ℕ → ℕ
chosen lcores n = if n == 0 then 1 else if ltb lcores n then lcores else n

chosen_bounds :
    (lcores n : ℕ)
    → 1 ≤ lcores
    → (1 ≤ chosen lcores n)
      × (chosen lcores n ≤ lcores)
      × (n ≡ 0 → chosen lcores n ≡ 1)
      × (n ≢ 0 → chosen lcores n ≤ n)
chosen_bounds lcores n one =
    (ground (arith, one), ground (arith, one), λ e. ground (arith, e), λ e. ground (arith, e))

assign_workers-IsConfigured :
    (lcores : ℕ) (app : GenApplication)
    → 1 ≤ lcores
    → IsConfigured lcores (assign_workers lcores app)
assign_workers-IsConfigured lcores app one =
    let (low, high, alone, few) = chosen_bounds lcores (r_num app) one in
    record {
      some_worker = low;
      on_lcores = high;
      alone = alone;
      has_stream = few;
      all_counted = refl;
    }

configured :
    (lcores : ℕ) (r : Outcome GenApplication) (app : GenApplication)
    → 1 ≤ lcores
    → r >>= (λ app. done (assign_workers lcores app)) ≡ done app
    → IsConfigured lcores app
configured lcores r app one e =
    let (app0, _, last) = bind_done r (λ app. done (assign_workers lcores app)) app e in
    let same : assign_workers lcores app0 ≡ app = cc in
    rw (← same) (assign_workers-IsConfigured lcores app0 one)

-- An application that the constructor makes on some lcores has at least one worker and none without an
-- lcore; it has one alone where no routable stream is asked for or an L2 option has priority, else at
-- most one per stream; and each worker has its entry in the statistics.
pub make_application-IsConfigured :
    (wide : ℕ → ℕ) (cli : Option CommandLine) (lcores : ℕ) (app : GenApplication)
    → 1 ≤ lcores
    → make_application wide cli lcores ≡ done app
    → IsConfigured lcores app
unfolding make_application
make_application-IsConfigured wide none lcores app one e = cc
make_application-IsConfigured wide (some cli) lcores app one e = elim (Bool-cases cli.help) [
  | inl asked ↦ cc (rw (make_application, asked) at e)
  | inr not_asked ↦
      configured lcores (read_options wide cli) app one (rw (make_application, not_asked) at e)
]
