-- ===== src/Stream/Passport.antt =====
-- src/common/goose_container.hpp, src/common/sv_container.hpp: `GoosePassport` and `SVStreamPassport`,
-- their `operator==` and the part that a parsed frame fills in. An address is its six bytes, a
-- `string_view` the bytes that it shows.
use process_bus.Prelude.{ℕ, ◌≡◌, ◌↔◌, Bool, true, false, ◌&&◌, List, [], ◌∷◌, ◌==◌, arith}
use process_bus.Container.{Key}

-- `operator==` of two byte sequences.
abbrev pub bytes_eq : List ℕ → List ℕ → Bool
bytes_eq [] [] = true
bytes_eq [] (y ∷ ys) = false
bytes_eq (x ∷ xs) [] = false
bytes_eq (x ∷ xs) (y ∷ ys) = x == y && bytes_eq xs ys

pub bytes_eq_iff : (xs ys : List ℕ) → (bytes_eq xs ys ≡ true) ↔ (xs ≡ ys)
bytes_eq_iff [] [] = ground arith
bytes_eq_iff [] (y ∷ ys) = ground arith
bytes_eq_iff (x ∷ xs) [] = ground arith
bytes_eq_iff (x ∷ xs) (y ∷ ys) = ground (arith, bytes_eq_iff xs ys)

-- `foundEntries` and `allDataOffset` are no part of the comparison.
pub record GoosePassport : Type 0 where
  pub dmac : List ℕ
  pub appid : ℕ
  pub num : ℕ
  pub crev : ℕ
  pub dst_ip : ℕ
  pub goid : List ℕ
  pub dataset : List ℕ
  pub gocbref : List ℕ

abbrev pub goose_eq : GoosePassport → GoosePassport → Bool
goose_eq l r =
    bytes_eq l.dmac r.dmac
    && l.appid == r.appid
    && l.dst_ip == r.dst_ip
    && bytes_eq l.goid r.goid
    && bytes_eq l.dataset r.dataset
    && bytes_eq l.gocbref r.gocbref
    && l.crev == r.crev
    && l.num == r.num

pub record SvPassport : Type 0 where
  pub dmac : List ℕ
  pub appid : ℕ
  pub num : ℕ
  pub crev : ℕ
  pub svid : List ℕ
  pub dst_ip : ℕ

abbrev pub sv_eq : SvPassport → SvPassport → Bool
sv_eq l r =
    bytes_eq l.dmac r.dmac
    && l.appid == r.appid
    && l.num == r.num
    && l.crev == r.crev
    && l.dst_ip == r.dst_ip
    && bytes_eq l.svid r.svid

pub goose_eq_iff : (l r : GoosePassport) → (goose_eq l r ≡ true) ↔ (l ≡ r)
goose_eq_iff l r = ground (
  arith,
  bytes_eq_iff l.dmac r.dmac,
  bytes_eq_iff l.goid r.goid,
  bytes_eq_iff l.dataset r.dataset,
  bytes_eq_iff l.gocbref r.gocbref,
)

pub sv_eq_iff : (l r : SvPassport) → (sv_eq l r ≡ true) ↔ (l ≡ r)
sv_eq_iff l r = ground (arith, bytes_eq_iff l.dmac r.dmac, bytes_eq_iff l.svid r.svid)

instance abbrev pub goose_key : Key GoosePassport
goose_key = record { appid = λ p. p.appid; beq = goose_eq; beq_iff = goose_eq_iff }

instance abbrev pub sv_key : Key SvPassport
sv_key = record { appid = λ p. p.appid; beq = sv_eq; beq_iff = sv_eq_iff }
