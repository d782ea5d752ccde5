-- ===== src/Generator/Routable/Traffic.antt =====
-- All packets that a routable generator sends in a run, into buffers that it uses again and again.
use process_bus.Prelude.{
  ℕ, ◌+◌, ◌-◌, ◌≤◌, ◌<◌, ◌≡◌, inl, inr, arith, Bool, List, [], ◌∷◌, ◌==◌, ltb, not, ◌||◌,
  Bool-cases,
}
use process_bus.Prelude.Result.{Result, ok, require, ◌>>◌, require_ok, ok-injective}
use process_bus.Memory.{Memory, get_u16, slice}
use process_bus.Frame.{FrameConfig}
use process_bus.RSession.Layout.{SecurityMode, sec_none, sec_gcm, udp_payload_size}
use process_bus.RSession.{FitsFields}
use process_bus.RSession.RoundTrip.{IsKnown}
use process_bus.RSession.Crypto.{Crypto, IsSound}
use process_bus.Parser.Packets.{unwrap_r_frame}
use process_bus.Parser.Packets.RoundTrip.{unwrapped}
use process_bus.Generator.Amend.{set_ied}
use process_bus.Generator.Routable.{
  FrameKind, Skeleton, L2Skeleton, make_skeleton, skeleton_of, RoutableGen, RoutableIed,
  amend_frame, stream_of, appid_of_stream, next_spdu, next_plain, region_of,
}
use process_bus.Generator.Routable.Headers.{packet_params}
use process_bus.Generator.Routable.Patching.{Carries, KeepsElement}
use process_bus.Generator.Routable.Sealing.{Works}
use process_bus.Generator.Routable.Delivery.{unwrap_r_frame-sent, Carries-again}

-- The receiver unwraps the packet `sent`, and finds the number and the APPID in it.
abbrev pub Unwraps : FrameKind → Skeleton → Crypto → ℕ → ℕ → Memory → Type 0
Unwraps kind s c spdu appid sent =
    (opened : Memory) × (unwrap_r_frame sent s.frame_size kind.si kind.payload_type s.mode c
      ≡ ok (unwrapped opened (packet_params kind s.mode (s.plain_size - 6) spdu appid)))

module _ {I : Type 0} (kind : FrameKind) (s : Skeleton) (c : Crypto) (base_idx : ℕ)
    (amend_packet : RoutableGen I → ℕ → Memory → RoutableGen I × Memory) where
  -- Each packet of a run arrives: the descriptors are the index of the IED and of the buffer.
  pub Arrives : List (ℕ × ℕ) → RoutableGen I → (ℕ → Memory) → Type 0
  Arrives [] g buffers = Unit {0}
  Arrives ((idx, k) ∷ ds) g buffers =
      let (g', sent) = amend_packet g idx (buffers k) in
      Unwraps kind s c (next_spdu (g.ieds idx).spdu_number)
        (appid_of_stream (stream_of base_idx idx)) sent
      × Arrives ds g' (set_ied buffers k sent)

module _ (kind : FrameKind) (known : IsKnown (packet_params kind sec_none 0 0 0))
    (fits : FitsFields (packet_params kind sec_none 0 0 0)) where
  params-IsKnown :
      (mode : SecurityMode) (n spdu appid : ℕ) → IsKnown (packet_params kind mode n spdu appid)
  params-IsKnown mode n spdu appid = record {
    si_known = known.si_known;
    type_known = known.type_known;
  }

  params-FitsFields :
      (mode : SecurityMode) (n spdu stream : ℕ)
      → n < 65536
      → FitsFields (packet_params kind mode n (next_spdu spdu) (appid_of_stream stream))
  params-FitsFields mode n spdu stream h = record {
    si_fits = fits.si_fits;
    type_fits = fits.type_fits;
    spdu_fits = omega arith;
    key_fits = omega arith;
    appid_fits = omega arith;
    length_fits = h;
  }

pub make_skeleton-ok :
    (kind : FrameKind) (mode : SecurityMode) (cfg : FrameConfig) (l2 : L2Skeleton) (s : Skeleton)
    → make_skeleton kind mode cfg l2 ≡ ok s
    → (apdu : List ℕ) × (n : ℕ) × (skeleton_of kind mode cfg apdu n ≡ s)
      × (42 + udp_payload_size mode n ≤ kind.max_size)
unfolding make_skeleton
make_skeleton-ok kind mode cfg l2 s e =
    let length_field : ℕ = get_u16 l2.buf (l2.appid_offset + 2) in
    let n : ℕ = length_field - 8 in
    let apdu : List ℕ = slice l2.buf (l2.appid_offset + 8) n in
    let room : Bool = not (ltb kind.max_size (42 + udp_payload_size mode n)) in
    let made : Result Skeleton = ok (skeleton_of kind mode cfg apdu n) in
    let (_, rest) =
      require_ok (not (ltb length_field 8 || ltb l2.size (l2.appid_offset + 8 + n))) 1
        (require room 2 >> made) s e in
    let (fits, same) = require_ok room 2 made s rest in
    (apdu, n, ok-injective same, ground (arith, fits))

region_beside :
    (mode : SecurityMode) (off j v : ℕ) (plain region m m' : Memory)
    → region_of mode off plain m j ≡ v
    → region_of mode off (next_plain mode region plain) m' j ≡ v
    → region_of mode off (next_plain mode region plain) m j ≡ v
region_beside sec_gcm off j v plain region m m' a b = b
region_beside _ off j v plain region m m' a b = a

-- A buffer carries the headers beside the plaintext that another packet has left.
Carries-beside :
    (s : Skeleton) (plain region m m' : Memory)
    → Carries s plain m
    → Carries s (next_plain s.mode region plain) m'
    → Carries s (next_plain s.mode region plain) m
Carries-beside s plain region m m' h h' = record {
  total = h.total;
  fixed = h.fixed;
  size_field = h.size_field;
  element = λ j k.
      region_beside s.mode s.region_offset j (s.frame (s.region_offset + j)) plain region m m'
        (h.element j k) (h'.element j k);
}

set_ied-all :
    {A : Type 0} (P : A → Type 0) (xs : ℕ → A) (k : ℕ) (x : A)
    → P x
    → ((j : ℕ) → P (xs j))
    → (j : ℕ) → P (set_ied xs k x j)
set_ied-all P xs k x h all j = elim (Bool-cases (j == k)) [
  | inl e ↦ rw (set_ied, e) h
  | inr e ↦ rw (set_ied, e) (all j)
]

module _ {I : Type 0} (kind : FrameKind) (known : IsKnown (packet_params kind sec_none 0 0 0))
    (fits : FitsFields (packet_params kind sec_none 0 0 0)) (c : Crypto) (sound : IsSound c)
    (works : Works c) (mode : SecurityMode) (cfg : FrameConfig) (base_idx : ℕ) (next : I → I)
    (region : ℕ → I → Memory → Memory)
    (keeps : (stream : ℕ) (ied : I)
      → KeepsElement (region stream ied) (appid_of_stream stream)) where
  unfoldable pub amend_generic : Skeleton → RoutableGen I → ℕ → Memory → RoutableGen I × Memory
  amend_generic s g idx =
      let ied : I = (g.ieds idx).ied in
      amend_frame s c base_idx g idx (next ied) (region (stream_of base_idx idx) ied)

  module _ (apdu : List ℕ) (n : ℕ) (short : 28 + udp_payload_size mode n < 65536) where
    abbrev s : Skeleton
    s = skeleton_of kind mode cfg apdu n

    pub generic-Arrives :
        (ds : List (ℕ × ℕ)) (g : RoutableGen I) (buffers : ℕ → Memory)
        → ((k : ℕ) → Carries s g.plain (buffers k))
        → Arrives kind s c base_idx (amend_generic s) ds g buffers
    unfolding Arrives amend_generic
    generic-Arrives [] g buffers h = tt
    generic-Arrives ((idx, k) ∷ ds) g buffers h =
        let stream : ℕ = stream_of base_idx idx in
        let ied : RoutableIed I = g.ieds idx in
        let spdu : ℕ = next_spdu ied.spdu_number in
        let amend : Memory → Memory = region stream ied.ied in
        let known' = params-IsKnown kind known fits mode n spdu (appid_of_stream stream) in
        let fits' = params-FitsFields kind known fits mode n ied.spdu_number stream (omega arith) in
        let (opened, arrives, _) =
          unwrap_r_frame-sent c sound works kind mode cfg apdu n stream spdu amend g.plain
            (buffers k) (keeps stream ied.ied) (h k) fits' known' short
            (42 + udp_payload_size mode n) (omega arith) in
        let again =
          Carries-again c sound works kind mode cfg apdu n stream spdu amend g.plain (buffers k)
            (keeps stream ied.ied) (h k) fits' known' short in
        let same : 6 + n - 6 ≡ n = omega arith in
        let (g', sent) = amend_generic s g idx (buffers k) in
        (
          (opened, rw same arrives),
          generic-Arrives ds g' (set_ied buffers k sent) (
              set_ied-all (Carries s g'.plain) buffers k sent again
                (λ j. Carries-beside s g.plain _ (buffers j) sent (h j) again)),
        )
