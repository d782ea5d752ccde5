-- ===== src/Receiver/Registration/Found.antt =====
-- Which streams the receiver finds in the containers that it starts with.
use process_bus.Prelude.{ℕ, ◌+◌, ◌%◌, ◌≤◌, ◌<◌, ◌≡◌, ◌≢◌, refl, some, none, ltb, if◌then◌else◌}
use process_bus.Container.{empty_container, value_of}
use process_bus.Stream.Passport.{GoosePassport, SvPassport, goose_key, sv_key}
use process_bus.Stream.Goose.{new_goose_source}
use process_bus.Stream.Sv.{new_sv_source}
use process_bus.Receiver.Registration.{
  RxConfig, goose_passport, sv_passport, l2_goose, r_goose, l2_sv, r_sv, register_all, init_goose,
  init_sv, init,
}
use process_bus.Receiver.Registration.Once.{register_all_only}

-- The kinds of streams that share a container, how many of a kind are configured, and the passport
-- of the `i`-th one.
pub data GooseKind : Type 0 where
  l2 : GooseKind
  routable : GooseKind

pub data SvKind : Type 0 where
  l2_80 : SvKind
  l2_256 : SvKind
  routable_80 : SvKind
  routable_256 : SvKind

abbrev pub goose_count : RxConfig → GooseKind → ℕ
goose_count cfg l2 = cfg.goose_num
goose_count cfg routable = cfg.r_goose_num

abbrev pub sv_count : RxConfig → SvKind → ℕ
sv_count cfg l2_80 = cfg.sv80_num
sv_count cfg l2_256 = cfg.sv256_num
sv_count cfg routable_80 = cfg.r_sv80_num
sv_count cfg routable_256 = cfg.r_sv256_num

abbrev pub goose_of : RxConfig → GooseKind → ℕ → GoosePassport
goose_of cfg l2 = l2_goose cfg
goose_of cfg routable = r_goose cfg

abbrev pub sv_of : RxConfig → SvKind → ℕ → SvPassport
sv_of cfg l2_80 = l2_sv 1
sv_of cfg l2_256 = l2_sv 8
sv_of cfg routable_80 = r_sv cfg 1
sv_of cfg routable_256 = r_sv cfg 8

goose_numbered :
    (cfg : RxConfig) (kind : GooseKind) (i : ℕ) → (goose_of cfg kind i).appid ≡ (1 + i) % 65536
unfolding goose_passport
goose_numbered cfg l2 i = refl
goose_numbered cfg routable i = refl

sv_numbered : (cfg : RxConfig) (kind : SvKind) (i : ℕ) → (sv_of cfg kind i).appid ≡ (1 + i) % 65536
unfolding sv_passport
sv_numbered cfg l2_80 i = refl
sv_numbered cfg l2_256 i = refl
sv_numbered cfg routable_80 i = refl
sv_numbered cfg routable_256 i = refl

init_goose_only :
    (cfg : RxConfig) (kind : GooseKind)
    → ((other : GooseKind) → other ≢ kind → goose_count cfg other ≡ 0)
    → init_goose cfg
      ≡ register_all new_goose_source (goose_of cfg kind) (goose_count cfg kind) 0 empty_container
unfolding init_goose register_all
init_goose_only cfg l2 only =
    let none_else : cfg.r_goose_num ≡ 0 = only routable (λ e. cc) in rw none_else refl
init_goose_only cfg routable only =
    let none_else : cfg.goose_num ≡ 0 = only l2 (λ e. cc) in rw none_else refl

init_sv_only :
    (cfg : RxConfig) (kind : SvKind)
    → ((other : SvKind) → other ≢ kind → sv_count cfg other ≡ 0)
    → init_sv cfg
      ≡ register_all new_sv_source (sv_of cfg kind) (sv_count cfg kind) 0 empty_container
unfolding init_sv register_all
init_sv_only cfg l2_80 only =
    let e1 : cfg.sv256_num ≡ 0 = only l2_256 (λ e. cc) in
    let e2 : cfg.r_sv80_num ≡ 0 = only routable_80 (λ e. cc) in
    let e3 : cfg.r_sv256_num ≡ 0 = only routable_256 (λ e. cc) in rw (e1, e2, e3) refl
init_sv_only cfg l2_256 only =
    let e1 : cfg.sv80_num ≡ 0 = only l2_80 (λ e. cc) in
    let e2 : cfg.r_sv80_num ≡ 0 = only routable_80 (λ e. cc) in
    let e3 : cfg.r_sv256_num ≡ 0 = only routable_256 (λ e. cc) in rw (e1, e2, e3) refl
init_sv_only cfg routable_80 only =
    let e1 : cfg.sv80_num ≡ 0 = only l2_80 (λ e. cc) in
    let e2 : cfg.sv256_num ≡ 0 = only l2_256 (λ e. cc) in
    let e3 : cfg.r_sv256_num ≡ 0 = only routable_256 (λ e. cc) in rw (e1, e2, e3) refl
init_sv_only cfg routable_256 only =
    let e1 : cfg.sv80_num ≡ 0 = only l2_80 (λ e. cc) in
    let e2 : cfg.sv256_num ≡ 0 = only l2_256 (λ e. cc) in
    let e3 : cfg.r_sv80_num ≡ 0 = only routable_80 (λ e. cc) in rw (e1, e2, e3) refl

-- A receiver that starts with streams of one kind of GOOSE and one kind of SV finds, of the passports
-- of these kinds, those of the streams that are configured, each with a new source, and no others:
-- for up to 2 ^ 16 streams of a kind, since APPIDs have 16 bits.
pub init_only :
    (cfg : RxConfig) (goose_kind : GooseKind) (sv_kind : SvKind) (i : ℕ)
    → ((other : GooseKind) → other ≢ goose_kind → goose_count cfg other ≡ 0)
    → ((other : SvKind) → other ≢ sv_kind → sv_count cfg other ≡ 0)
    → goose_count cfg goose_kind ≤ 65536
    → sv_count cfg sv_kind ≤ 65536
    → i < 65536
    → (value_of (init cfg).goose_map (goose_of cfg goose_kind i)
        ≡ (if ltb i (goose_count cfg goose_kind) then some new_goose_source else none))
      × (value_of (init cfg).sv_map (sv_of cfg sv_kind i)
          ≡ (if ltb i (sv_count cfg sv_kind) then some new_sv_source else none))
unfolding init
init_only cfg goose_kind sv_kind i goose_only sv_only goose_le sv_le lt = (
  rw (init_goose_only cfg goose_kind goose_only) (
      register_all_only new_goose_source (goose_of cfg goose_kind) (goose_numbered cfg goose_kind)
        (goose_count cfg goose_kind) i goose_le lt),
  rw (init_sv_only cfg sv_kind sv_only) (
      register_all_only new_sv_source (sv_of cfg sv_kind) (sv_numbered cfg sv_kind)
        (sv_count cfg sv_kind) i sv_le lt),
)
