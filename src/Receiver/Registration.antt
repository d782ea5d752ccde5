-- ===== src/Receiver/Registration.antt =====
-- src/bus_processor/rx_application.cpp and .hpp: the streams that `RX_Application::Init` registers, and
-- `CountGaps`. An address is its six bytes, a text its bytes. The tables that `Init` prints are left out.
pub mod Once
pub mod Found
use process_bus.Prelude.{
  ℕ, zero, suc, ◌+◌, ◌*◌, ◌/◌, ◌%◌, ◌^◌, List, [], ◌∷◌, ◌++◌, ltb, if◌then◌else◌,
}
use process_bus.Frame.{multicast_mac, stream_dst_ip}
use process_bus.Container.{AppidContainer, Key, empty_container, assign}
use process_bus.Stream.Passport.{GoosePassport, SvPassport, goose_key, sv_key}
use process_bus.Stream.Goose.{GooseSource, new_goose_source}
use process_bus.Stream.Sv.{SvSource, new_sv_source}
use process_bus.Pipeline.{App}

-- The settings that `Init` reads.
pub record RxConfig : Type 0 where
  pub goose_num : ℕ
  pub sv80_num : ℕ
  pub sv256_num : ℕ
  pub r_goose_num : ℕ
  pub r_sv80_num : ℕ
  pub r_sv256_num : ℕ
  pub goose_entries : ℕ
  pub r_dst_ip : ℕ

-- The last `width` decimal digits.
unfoldable pub last_digits : ℕ → ℕ → List ℕ
last_digits zero n = []
last_digits (suc width) n = last_digits width (n / 10) ++ (48 + n % 10) ∷ []

-- `{:0width}` of std::format: at least `width` digits. An unsigned has ten at most, so that the format
-- is not widened more than `fuel` times.
unfoldable pub format_from : ℕ → ℕ → ℕ → List ℕ
unfolding last_digits
format_from zero width n = last_digits width n
format_from (suc fuel) width n =
    let wider = format_from fuel (width + 1) n in
    if ltb n (10 ^ width) then last_digits width n else wider

unfoldable pub format_digits : ℕ → ℕ → List ℕ
unfolding format_from
format_digits width n = format_from 10 width n

-- "GOID", "IED", "LDName/LLN0$DataSet", "LDName/LLN0$GO$GOCB" and "SVID".
abbrev goid_text : List ℕ
goid_text = 0x47 ∷ 0x4f ∷ 0x49 ∷ 0x44 ∷ []

abbrev ied_text : List ℕ
ied_text = 0x49 ∷ 0x45 ∷ 0x44 ∷ []

abbrev data_set_text : List ℕ
data_set_text =
    0x4c ∷ 0x44 ∷ 0x4e ∷ 0x61 ∷ 0x6d ∷ 0x65 ∷ 0x2f ∷ 0x4c ∷ 0x4c ∷ 0x4e ∷ 0x30 ∷ 0x24 ∷ 0x44 ∷ 0x61
    ∷ 0x74 ∷ 0x61 ∷ 0x53 ∷ 0x65 ∷ 0x74 ∷ []

abbrev gocb_text : List ℕ
gocb_text =
    0x4c ∷ 0x44 ∷ 0x4e ∷ 0x61 ∷ 0x6d ∷ 0x65 ∷ 0x2f ∷ 0x4c ∷ 0x4c ∷ 0x4e ∷ 0x30 ∷ 0x24 ∷ 0x47 ∷ 0x4f
    ∷ 0x24 ∷ 0x47 ∷ 0x4f ∷ 0x43 ∷ 0x42 ∷ []

abbrev svid_text : List ℕ
svid_text = 0x53 ∷ 0x56 ∷ 0x49 ∷ 0x44 ∷ []

-- The passport of the `i`-th GOOSE stream: what the setters set and `GetPassport` returns. APPID and
-- number of entries are uint16_t there, and `i + 1` an unsigned.
unfoldable pub goose_passport : List ℕ → ℕ → ℕ → ℕ → GoosePassport
unfolding format_digits
goose_passport mac entries dst_ip i =
    let number = format_digits 8 ((i + 1) % 4294967296) in
    record {
      dmac = mac;
      appid = (1 + i) % 65536;
      num = entries % 65536;
      crev = 1;
      dst_ip = dst_ip;
      goid = goid_text ++ number;
      dataset = ied_text ++ number ++ data_set_text;
      gocbref = ied_text ++ number ++ gocb_text;
    }

-- The same of the `i`-th SV stream.
unfoldable pub sv_passport : List ℕ → ℕ → ℕ → ℕ → SvPassport
unfolding format_digits
sv_passport mac asdus dst_ip i = record {
  dmac = mac;
  appid = (1 + i) % 65536;
  num = asdus;
  crev = 1;
  svid = svid_text ++ format_digits 4 ((i + 1) % 4294967296);
  dst_ip = dst_ip;
}

abbrev pub l2_goose : RxConfig → ℕ → GoosePassport
l2_goose cfg i = goose_passport (0x01 ∷ 0x0c ∷ 0xcd ∷ 0x04 ∷ 0x00 ∷ 0x01 ∷ []) cfg.goose_entries 0 i

abbrev pub r_goose : RxConfig → ℕ → GoosePassport
r_goose cfg i =
    let group = stream_dst_ip cfg.r_dst_ip i in
    goose_passport (multicast_mac group) cfg.goose_entries group i

abbrev pub l2_sv : ℕ → ℕ → SvPassport
l2_sv asdus i = sv_passport (0x01 ∷ 0x0c ∷ 0xcd ∷ 0x01 ∷ 0x00 ∷ 0x01 ∷ []) asdus 0 i

abbrev pub r_sv : RxConfig → ℕ → ℕ → SvPassport
r_sv cfg asdus i =
    let group = stream_dst_ip cfg.r_dst_ip i in sv_passport (multicast_mac group) asdus group i

-- A loop of `Init` from the `i`-th stream on: `n` are left. Each gets a new source.
unfoldable pub register_all {ℓ κ} :
    {K : Type ℓ} {V : Type κ} ⦃key : Key K⦄
    → V
    → (ℕ → K)
    → ℕ
    → ℕ
    → AppidContainer K V
    → AppidContainer K V
unfolding assign
register_all src pass zero i c = c
register_all src pass (suc n) i c = register_all src pass n (i + 1) (assign src c (pass i) src)

unfoldable pub init_goose : RxConfig → AppidContainer GoosePassport GooseSource
unfolding register_all empty_container
init_goose cfg =
    let l2 = register_all new_goose_source (l2_goose cfg) cfg.goose_num 0 empty_container in
    register_all new_goose_source (r_goose cfg) cfg.r_goose_num 0 l2

unfoldable pub init_sv : RxConfig → AppidContainer SvPassport SvSource
unfolding register_all empty_container
init_sv cfg =
    let c1 = register_all new_sv_source (l2_sv 1) cfg.sv80_num 0 empty_container in
    let c2 = register_all new_sv_source (l2_sv 8) cfg.sv256_num 0 c1 in
    let c3 = register_all new_sv_source (r_sv cfg 1) cfg.r_sv80_num 0 c2 in
    register_all new_sv_source (r_sv cfg 8) cfg.r_sv256_num 0 c3

-- The application behind `Init`: the containers, and counters at zero.
unfoldable pub init : RxConfig → App
unfolding init_goose init_sv
init cfg = record {
  goose_map = init_goose cfg;
  sv_map = init_sv cfg;
  rx_goose = 0;
  rx_sv = 0;
  err_goose = 0;
  err_sv = 0;
  unknown_goose = 0;
  unknown_sv = 0;
  err_auth = 0;
  to_kernel = 0;
}

-- The loops of `CountGaps` over the entries; the sums are uint64_t.
abbrev pub larger : ℕ → ℕ → ℕ
larger a b = if ltb a b then b else a

unfoldable pub goose_gaps : List (GoosePassport × GooseSource) → ℕ
goose_gaps [] = 0
goose_gaps ((k, s) ∷ entries) = (larger s.err_seq_cnt s.err_spdu_cnt + goose_gaps entries) % 2 ^ 64

unfoldable pub sv_gaps : List (SvPassport × SvSource) → ℕ
sv_gaps [] = 0
sv_gaps ((k, s) ∷ entries) = (larger s.err_smp_cnt s.err_spdu_cnt + sv_gaps entries) % 2 ^ 64

unfoldable pub count_gaps : App → ℕ × ℕ
unfolding goose_gaps sv_gaps
count_gaps app = (goose_gaps app.goose_map.values, sv_gaps app.sv_map.values)
