-- ===== src/Generator/Routable/Arrival.antt =====
-- Every packet of a run of the routable GOOSE and SV generators arrives at the receiver.
use process_bus.Prelude.{ℕ, ◌≡◌, inl, inr, refl, arith, List}
use mathlib.Core.Path.{subst}
use process_bus.Prelude.Result.{ok}
use process_bus.Memory.{Memory}
use process_bus.Frame.{FrameConfig}
use process_bus.RSession.Layout.{SecurityMode, sec_none}
use process_bus.RSession.{FitsFields}
use process_bus.RSession.RoundTrip.{IsKnown}
use process_bus.RSession.Crypto.{Crypto, IsSound}
use process_bus.Generator.Amend.{
  SvIed, SvLayout, GooseIed, GooseLayout, next_ied, next_goose, after_asdus,
}
use process_bus.Generator.Routable.{
  Skeleton, L2Skeleton, make_r_goose_skeleton, make_r_sv_skeleton, RoutableGen, r_goose_kind,
  r_sv_kind, amend_packet_r_goose, amend_packet_r_sv80, amend_packet_r_sv256, r_goose_region,
  r_sv80_region, r_sv256_region, rebase_goose, rebase_sv,
}
use process_bus.Generator.Routable.Headers.{packet_params}
use process_bus.Generator.Routable.Patching.{Carries}
use process_bus.Generator.Routable.Elements.{
  GooseInApdu, SvInApdu, r_goose_region-keeps, r_sv80_region-keeps, r_sv256_region-keeps,
}
use process_bus.Generator.Routable.Sealing.{Works}
use process_bus.Generator.Routable.Traffic.{
  Arrives, generic-Arrives, amend_generic, make_skeleton-ok,
}

goose-IsKnown : IsKnown (packet_params r_goose_kind sec_none 0 0 0)
goose-IsKnown = record { si_known = inl refl; type_known = inl refl }

goose-FitsFields : FitsFields (packet_params r_goose_kind sec_none 0 0 0)
goose-FitsFields = record {
  si_fits = omega arith;
  type_fits = omega arith;
  spdu_fits = omega arith;
  key_fits = omega arith;
  appid_fits = omega arith;
  length_fits = omega arith;
}

-- Every packet of a run of the routable GOOSE generator is unwrapped by the receiver in the
-- generator's security mode, with the session number of its device and the APPID of its stream. The
-- skeleton was made, the crypto backend is sound and its calls succeed, the fields written are in the
-- APDU, and each buffer holds the skeleton or an earlier packet; buffers are used in any order.
pub amend_packet_r_goose-Arrives :
    (c : Crypto) (mode : SecurityMode) (cfg : FrameConfig) (l2 : L2Skeleton) (lay : GooseLayout)
    (base_idx : ℕ) (s : Skeleton) (ds : List (ℕ × ℕ)) (g : RoutableGen GooseIed)
    (buffers : ℕ → Memory)
    → IsSound c
    → Works c
    → GooseInApdu l2 lay
    → make_r_goose_skeleton mode cfg l2 ≡ ok s
    → ((k : ℕ) → Carries s g.plain (buffers k))
    → Arrives r_goose_kind s c base_idx
        (amend_packet_r_goose s c base_idx (rebase_goose l2 lay))
        ds
        g
        buffers
unfolding amend_packet_r_goose amend_generic
amend_packet_r_goose-Arrives c mode cfg l2 lay base_idx s ds g buffers sound works inside made
      carries =
    let (apdu, n, same, short) = make_skeleton-ok r_goose_kind mode cfg l2 s made in
    let lay' : GooseLayout = rebase_goose l2 lay in
    subst
      (λ t.
        ((k : ℕ) → Carries t g.plain (buffers k))
        → Arrives r_goose_kind t c base_idx (amend_packet_r_goose t c base_idx lay') ds g buffers)
      same
      (generic-Arrives r_goose_kind goose-IsKnown goose-FitsFields c sound works mode cfg base_idx
        (next_goose lay') (λ stream ied. r_goose_region lay' stream (next_goose lay' ied))
        (λ stream ied. r_goose_region-keeps l2 lay inside stream (next_goose lay' ied)) apdu n
        (omega arith) ds g buffers)
      carries

sv-IsKnown : IsKnown (packet_params r_sv_kind sec_none 0 0 0)
sv-IsKnown = record { si_known = inr refl; type_known = inr refl }

sv-FitsFields : FitsFields (packet_params r_sv_kind sec_none 0 0 0)
sv-FitsFields = record {
  si_fits = omega arith;
  type_fits = omega arith;
  spdu_fits = omega arith;
  key_fits = omega arith;
  appid_fits = omega arith;
  length_fits = omega arith;
}

r_sv80-Arrives :
    (c : Crypto) (mode : SecurityMode) (cfg : FrameConfig) (l2 : L2Skeleton) (lay : SvLayout)
    (base_idx : ℕ) (s : Skeleton) (ds : List (ℕ × ℕ)) (g : RoutableGen SvIed) (buffers : ℕ → Memory)
    → IsSound c
    → Works c
    → SvInApdu 1 l2 lay
    → make_r_sv_skeleton mode cfg l2 ≡ ok s
    → ((k : ℕ) → Carries s g.plain (buffers k))
    → Arrives r_sv_kind s c base_idx
        (amend_packet_r_sv80 s c base_idx (rebase_sv l2 lay))
        ds
        g
        buffers
unfolding amend_packet_r_sv80 amend_generic
r_sv80-Arrives c mode cfg l2 lay base_idx s ds g buffers sound works inside made carries =
    let (apdu, n, same, short) = make_skeleton-ok r_sv_kind mode cfg l2 s made in
    let lay' : SvLayout = rebase_sv l2 lay in
    subst
      (λ t.
        ((k : ℕ) → Carries t g.plain (buffers k))
        → Arrives r_sv_kind t c base_idx (amend_packet_r_sv80 t c base_idx lay') ds g buffers)
      same
      (generic-Arrives r_sv_kind sv-IsKnown sv-FitsFields c sound works mode cfg base_idx
        (next_ied lay') (r_sv80_region lay') (r_sv80_region-keeps l2 lay inside) apdu n
        (omega arith) ds g buffers)
      carries

r_sv256-Arrives :
    (c : Crypto) (mode : SecurityMode) (cfg : FrameConfig) (l2 : L2Skeleton) (lay : SvLayout)
    (base_idx : ℕ) (s : Skeleton) (ds : List (ℕ × ℕ)) (g : RoutableGen SvIed) (buffers : ℕ → Memory)
    → IsSound c
    → Works c
    → SvInApdu 8 l2 lay
    → make_r_sv_skeleton mode cfg l2 ≡ ok s
    → ((k : ℕ) → Carries s g.plain (buffers k))
    → Arrives r_sv_kind s c base_idx
        (amend_packet_r_sv256 s c base_idx (rebase_sv l2 lay))
        ds
        g
        buffers
unfolding amend_packet_r_sv256 amend_generic
r_sv256-Arrives c mode cfg l2 lay base_idx s ds g buffers sound works inside made carries =
    let (apdu, n, same, short) = make_skeleton-ok r_sv_kind mode cfg l2 s made in
    let lay' : SvLayout = rebase_sv l2 lay in
    subst
      (λ t.
        ((k : ℕ) → Carries t g.plain (buffers k))
        → Arrives r_sv_kind t c base_idx (amend_packet_r_sv256 t c base_idx lay') ds g buffers)
      same
      (generic-Arrives r_sv_kind sv-IsKnown sv-FitsFields c sound works mode cfg base_idx
        (after_asdus lay' 8) (r_sv256_region lay') (r_sv256_region-keeps l2 lay inside) apdu n
        (omega arith) ds g buffers)
      carries

-- Every packet of a run of the routable SV generator is unwrapped by the receiver in the generator's
-- security mode, with the session number of its device and the APPID of its stream, at both sampling
-- rates, each with a skeleton and a layout of its own. The skeletons were made, the crypto backend is
-- sound and its calls succeed, the fields written are in the APDU (those of the first ASDU at 80
-- samples a cycle, of all eight at 256), and each buffer holds the skeleton or an earlier packet;
-- buffers are used in any order.
pub amend_packet_r_sv-Arrives :
    (c : Crypto) (mode : SecurityMode) (cfg : FrameConfig) (l2_80 l2_256 : L2Skeleton)
    (lay80 lay256 : SvLayout) (base_idx : ℕ) (s80 s256 : Skeleton) (ds : List (ℕ × ℕ))
    (g80 g256 : RoutableGen SvIed) (buffers80 buffers256 : ℕ → Memory)
    → IsSound c
    → Works c
    → SvInApdu 1 l2_80 lay80
    → SvInApdu 8 l2_256 lay256
    → make_r_sv_skeleton mode cfg l2_80 ≡ ok s80
    → make_r_sv_skeleton mode cfg l2_256 ≡ ok s256
    → ((k : ℕ) → Carries s80 g80.plain (buffers80 k))
    → ((k : ℕ) → Carries s256 g256.plain (buffers256 k))
    → Arrives r_sv_kind s80 c base_idx
        (amend_packet_r_sv80 s80 c base_idx (rebase_sv l2_80 lay80))
        ds
        g80
        buffers80
      × Arrives r_sv_kind s256 c base_idx
          (amend_packet_r_sv256 s256 c base_idx (rebase_sv l2_256 lay256))
          ds
          g256
          buffers256
amend_packet_r_sv-Arrives c mode cfg l2_80 l2_256 lay80 lay256 base_idx s80 s256 ds g80 g256
      buffers80 buffers256 sound works inside80 inside256 made80 made256 carries80 carries256 =
    (
      r_sv80-Arrives c mode cfg l2_80 lay80 base_idx s80 ds g80 buffers80 sound works inside80
          made80 carries80,
      r_sv256-Arrives c mode cfg l2_256 lay256 base_idx s256 ds g256 buffers256 sound works
          inside256 made256 carries256,
    )
