-- ===== src/Generator/Application.antt =====
-- src/bus_generator/gen_application.cpp: the constructor of `GenApplication`, which turns the command
-- line into the configuration. cxxopts splits the command line; what it finds is a parameter.
pub mod Run
pub mod Config
pub mod Work
pub mod Coverage
pub mod Jobs
pub mod Asked
pub mod Shares
pub mod Reasons
pub mod Serves
use process_bus.Prelude.{
  ℕ, ◌+◌, ◌≡◌, refl, Bool, true, false, not, ◌&&◌, ◌||◌, Option, none, some, List, [], ◌∷◌, ltb,
  ◌==◌, if◌then◌else◌,
}
use process_bus.RSession.Layout.{SecurityMode, sec_none}
use process_bus.RSession.Modes.{parse_security_mode}
use process_bus.Frame.Address.{parse_ipv4}

-- Why the program ends early, `--help` included.
pub data Refusal : Type 0 where
  bad_command_line help_shown bad_goose bad_rgoose bad_mode bad_dst_ip bad_src_ip : Refusal
  no_entries pool_too_small link_down burst_too_large : Refusal
  no_generator no_tx_units empty_plan : Refusal

pub data Outcome (A : Type 0) : Type 0 where
  done : A → Outcome A
  refused : Refusal → Outcome A

infixl 5 ◌>>=◌ ◌>>◌
abbrev pub ◌>>=◌ : {A B : Type 0} → Outcome A → (A → Outcome B) → Outcome B
done a >>= f = f a
refused r >>= f = refused r

abbrev pub ◌>>◌ : {B : Type 0} → Outcome (Unit {0}) → Outcome B → Outcome B
m >> k = m >>= λ _. k

abbrev pub refuse_unless : Bool → Refusal → Outcome (Unit {0})
refuse_unless true r = done tt
refuse_unless false r = refused r

pub bind_done :
    {A B : Type 0} (r : Outcome A) (f : A → Outcome B) (b : B)
    → r >>= f ≡ done b
    → (a : A) × (r ≡ done a) × (f a ≡ done b)
bind_done (done a) f b e = (a, refl, e)
bind_done (refused x) f b e = cc

-- The options as they were given. An int is the unsigned that the code assigns it to.
pub record CommandLine : Type 0 where
  pub help : Bool
  pub goose : Option (List ℕ)
  pub sv80 : Option ℕ
  pub sv256 : Option ℕ
  pub rgoose : Option (List ℕ)
  pub rsv80 : Option ℕ
  pub rsv256 : Option ℕ
  pub r_mode : Option (List ℕ)
  pub dst_ip : Option (List ℕ)
  pub src_ip : Option (List ℕ)
  pub goose_entries : Option ℕ
  pub burst : Bool
  pub time : Option ℕ

-- The members of `GenApplication`, with the parts of `m_rframe` that options change, and the number of
-- the entries of `m_stats`.
pub record GenApplication : Type 0 where
  pub goose_num : ℕ
  pub goose_send_freq : ℕ
  pub sv80_num : ℕ
  pub sv256_num : ℕ
  pub rgoose_num : ℕ
  pub rgoose_send_freq : ℕ
  pub rsv80_num : ℕ
  pub rsv256_num : ℕ
  pub goose_entries : ℕ
  pub burst : Bool
  pub src_ip : ℕ
  pub dst_ip : ℕ
  pub mode : SecurityMode
  pub worker_num : ℕ
  pub stats : ℕ
  pub run_time_sec : ℕ

abbrev pub initial : GenApplication
initial = record {
  goose_num = 0;
  goose_send_freq = 1;
  sv80_num = 0;
  sv256_num = 0;
  rgoose_num = 0;
  rgoose_send_freq = 1;
  rsv80_num = 0;
  rsv256_num = 0;
  goose_entries = 16;
  burst = false;
  src_ip = 0xc0a80a01;
  dst_ip = 0xefc00101;
  mode = sec_none;
  worker_num = 1;
  stats = 0;
  run_time_sec = 0;
}

-- A pair N,M.
abbrev pub set_pair :
    Option (List ℕ)
    → Refusal
    → (ℕ → ℕ → GenApplication → GenApplication)
    → GenApplication
    → Outcome GenApplication
set_pair none r set app = done app
set_pair (some (n ∷ m ∷ [])) r set app = done (set n m app)
set_pair (some _) r set app = refused r

abbrev pub set_number :
    Option ℕ → (ℕ → GenApplication → GenApplication) → GenApplication → GenApplication
set_number none set app = app
set_number (some n) set app = set n app

-- A text that is read by `read`, which may fail.
abbrev pub set_text :
    {A : Type 0}
    → Option (List ℕ)
    → (List ℕ → Option A)
    → Refusal
    → (A → GenApplication → GenApplication)
    → GenApplication
    → Outcome GenApplication
set_text none read r set app = done app
set_text (some text) read r set app = elim (read text) [
  | none ↦ refused r
  | some a ↦ done (set a app)
]

abbrev pub set_entries : Option ℕ → GenApplication → Outcome GenApplication
set_entries none app = done app
set_entries (some n) app =
    if n == 0 then refused no_entries else done (record app { goose_entries = n })

abbrev pub wants_l2 : GenApplication → Bool
wants_l2 app = ltb 0 app.goose_num || ltb 0 app.sv80_num || ltb 0 app.sv256_num

abbrev pub first_of : ℕ → ℕ → ℕ
first_of n m = if n == 0 then m else n

abbrev pub r_num : GenApplication → ℕ
r_num app =
    if wants_l2 app then 0 else first_of app.rgoose_num (first_of app.rsv80_num app.rsv256_num)

-- Behind the options: one worker per lcore and at most one per stream.
abbrev pub assign_workers : ℕ → GenApplication → GenApplication
assign_workers lcores app =
    let n = if r_num app == 0 then 1 else if ltb lcores (r_num app) then lcores else r_num app in
    record app { worker_num = n; stats = n }

-- The options in the order in which they are read; `wide` as for `parse_ipv4`.
abbrev pub read_options : (ℕ → ℕ) → CommandLine → Outcome GenApplication
read_options wide cli = do
  app ←
      set_pair cli.goose bad_goose (λ n m app. record app { goose_num = n; goose_send_freq = m })
        initial
  let app1 =
      set_number cli.sv256 (λ n app. record app { sv256_num = n })
        (set_number cli.sv80 (λ n app. record app { sv80_num = n }) app)
  app2 ←
      set_pair cli.rgoose bad_rgoose
        (λ n m app. record app { rgoose_num = n; rgoose_send_freq = m }) app1
  let app3 =
      set_number cli.rsv256 (λ n app. record app { rsv256_num = n })
        (set_number cli.rsv80 (λ n app. record app { rsv80_num = n }) app2)
  app4 ← set_text cli.r_mode parse_security_mode bad_mode (λ m app. record app { mode = m }) app3
  app5 ←
      set_text cli.dst_ip (parse_ipv4 wide) bad_dst_ip (λ ip app. record app { dst_ip = ip }) app4
  let app6 =
      set_number cli.time (λ n app. record app { run_time_sec = n })
        (if cli.burst then record app5 { burst = true } else app5)
  app7 ← set_entries cli.goose_entries app6
  set_text cli.src_ip (parse_ipv4 wide) bad_src_ip (λ ip app. record app { src_ip = ip }) app7

-- The constructor on `lcores` lcores; the command line is none where cxxopts refuses it.
unfoldable pub make_application : (ℕ → ℕ) → Option CommandLine → ℕ → Outcome GenApplication
make_application wide none lcores = refused bad_command_line
make_application wide (some cli) lcores =
    if cli.help
    then refused help_shown
    else do app ← read_options wide cli; done (assign_workers lcores app)
