-- ===== src/Generator/Routable/Patching.antt =====
-- What the send path of a routable generator writes into a packet that carries the skeleton's headers.
use process_bus.Prelude.{ℕ, ◌+◌, ◌-◌, ◌≤◌, ◌<◌, ◌≡◌, ◌⊎◌, inl, inr, refl, ap, ◌∙◌, arith, List}
use process_bus.Memory.{Memory, at_offset, put_u16, put_u32, write, slice}
use process_bus.Memory.Frames.{write-below, write-slice_at}
use process_bus.Frame.{FrameConfig, build_prefix, make_dst_fields, set_dst}
use process_bus.RSession.Layout.{SecurityMode, sec_gcm, iv_length, udp_payload_size}
use process_bus.RSession.{build}
use process_bus.Generator.Routable.{
  FrameKind, Skeleton, skeleton_of, stamp, region_of, place, unsealed, appid_of_stream, with_tail,
}
use process_bus.Generator.Routable.Headers.{
  Fixed, Patched, packet_params, number_bytes, appid_bytes, side_of,
}

-- A packet, and the plaintext master beside it, that hold the headers of the skeleton outside what
-- each packet rewrites: the skeleton itself, or an earlier packet.
pub record Carries (s : Skeleton) (plain packet : Memory) : Type 0 where
  pub total : (i : ℕ) → i < 2 → packet (16 + i) ≡ s.frame (16 + i)
  pub fixed : (i : ℕ) → Fixed i → packet (42 + i) ≡ s.frame (42 + i)
  pub size_field :
      (j : ℕ)
      → j < 4
      → packet (42 + (27 + iv_length s.mode + j)) ≡ s.frame (42 + (27 + iv_length s.mode + j))
  pub element :
      (j : ℕ)
      → (j < 2) ⊎ ((4 ≤ j) × (j < 6))
      → region_of s.mode s.region_offset plain packet j ≡ s.frame (s.region_offset + j)

-- The writes of a packet change the APPID of the payload element and nothing else of it.
abbrev pub KeepsElement : (Memory → Memory) → ℕ → Type 0
KeepsElement amend appid = (m : Memory) (j : ℕ) → j < 6 → amend m j ≡ put_u16 m 2 appid j

pub place-below :
    (mode : SecurityMode) (off size k : ℕ) (region packet : Memory)
    → k < off
    → place mode off size region packet k ≡ packet k
place-below sec_gcm off size k region packet h = write-below (slice region 0 size) packet off k h
place-below _ off size k region packet h = ground arith

place-region :
    (mode : SecurityMode) (off size j : ℕ) (region packet : Memory)
    → j < size
    → place mode off size region packet (off + j) ≡ region j
place-region sec_gcm off size j region packet h =
    ground (arith, write-slice_at size off 0 j packet region h)
place-region _ off size j region packet h = ground arith

region_of-like :
    (mode : SecurityMode) (off j : ℕ) (plain m m' : Memory)
    → m (off + j) ≡ m' (off + j)
    → region_of mode off plain m j ≡ region_of mode off plain m' j
region_of-like sec_gcm off j plain m m' h = refl
region_of-like _ off j plain m m' h = h

Fixed-outside :
    (i : ℕ)
    → Fixed i
    → ((16 ≤ 42 + i) × (42 + i < 18)) ⊎ (((42 ≤ 42 + i) × (42 + i < 52)) ⊎ (56 ≤ 42 + i))
Fixed-outside i (inl h) = inr (inl (omega arith, omega arith))
Fixed-outside i (inr (lo, hi)) = inr (inr (omega arith))

element_part :
    (j : ℕ) → 4 ≤ j → (j < 6) ⊎ ((8 ≤ j) × (j < 10)) → (j - 4 < 2) ⊎ ((4 ≤ j - 4) × (j - 4 < 6))
element_part j h (inl a) = inl (omega arith)
element_part j h (inr (lo, hi)) = inr (omega arith, omega arith)

appid-patched : (m : Memory) (appid j : ℕ) → j < 2 → put_u16 m 2 appid (2 + j) ≡ appid_bytes appid j
unfolding put_u16
appid-patched m appid j h = ground arith

pub with_tail-below : (m t : Memory) (i : ℕ) → i < 42 → with_tail m 42 t i ≡ m i
with_tail-below m t i h = ground arith

pub with_tail-at : (m t : Memory) (i : ℕ) → with_tail m 42 t (42 + i) ≡ t i
with_tail-at m t i = ground arith

module _ (kind : FrameKind) (mode : SecurityMode) (cfg : FrameConfig) (apdu : List ℕ) (n : ℕ) where
  abbrev skel : Skeleton
  skel = skeleton_of kind mode cfg apdu n

  abbrev pub behind_prefix : Memory
  behind_prefix = at_offset (build_prefix (λ i. 0) cfg (udp_payload_size mode n)) 42

  pub frame-header :
      (i : ℕ)
      → i < 27 + iv_length mode + 10
      → skel.frame (42 + i) ≡ (build behind_prefix (packet_params kind mode n 0 0)).0 i
  unfolding build
  frame-header i h =
      let session : Memory = (build behind_prefix (packet_params kind mode n 0 0)).0 in
      let end : ℕ = 27 + iv_length mode + 10 in
      with_tail-at (build_prefix (λ k. 0) cfg (udp_payload_size mode n)) (write session end apdu) i
      ∙ write-below apdu session end i h

  pub stamp-outside :
      (stream spdu k : ℕ) (packet : Memory)
      → ((16 ≤ k) × (k < 18)) ⊎ (((42 ≤ k) × (k < 52)) ⊎ (56 ≤ k))
      → stamp skel stream spdu packet k ≡ packet k
  unfolding stamp set_dst make_dst_fields
  stamp-outside stream spdu k packet h = ground arith

  stamp-number :
      (stream spdu j : ℕ) (packet : Memory)
      → j < 4
      → stamp skel stream spdu packet (52 + j) ≡ number_bytes spdu j
  unfolding stamp put_u32
  stamp-number stream spdu j packet h = ground arith

  module _ (stream spdu : ℕ) (amend : Memory → Memory) (plain packet : Memory)
      (keeps : KeepsElement amend (appid_of_stream stream))
      (carries : Carries skel plain packet) where
    abbrev stamped : Memory
    stamped = stamp skel stream spdu packet

    abbrev pub amended_region : Memory
    amended_region = amend (region_of mode skel.region_offset plain stamped)

    abbrev pub datagram : Memory
    datagram = at_offset (unsealed skel stream spdu amend plain packet) 42

    datagram-below : (i : ℕ) → i < 27 + iv_length mode + 4 → datagram i ≡ stamped (42 + i)
    datagram-below i h =
        place-below mode skel.region_offset skel.plain_size (42 + i) amended_region stamped
          (omega arith)

    pub datagram-region :
        (j : ℕ) → j < 6 + n → datagram (27 + iv_length mode + 4 + j) ≡ amended_region j
    datagram-region j h =
        ap (unsealed skel stream spdu amend plain packet) (omega arith)
        ∙ place-region mode skel.region_offset skel.plain_size j amended_region stamped h

    pub element-kept :
        (j : ℕ)
        → (j < 2) ⊎ ((4 ≤ j) × (j < 6))
        → amended_region j ≡ skel.frame (skel.region_offset + j)
    unfolding put_u16
    element-kept j h =
        let region : Memory = region_of mode skel.region_offset plain stamped in
        keeps region j (omega (arith, h))
        ∙ ground arith
        ∙ region_of-like mode skel.region_offset j plain stamped packet
            (stamp-outside stream spdu (skel.region_offset + j) packet (inr (inr (omega arith))))
        ∙ carries.element j h

    pub datagram-Patched : Patched kind mode n spdu (appid_of_stream stream) behind_prefix datagram
    datagram-Patched = record {
      fixed = λ i h.
          datagram-below i (omega (arith, h))
          ∙ stamp-outside stream spdu (42 + i) packet (Fixed-outside i h)
          ∙ carries.fixed i h
          ∙ frame-header i (omega (arith, h));
      number = λ j h.
          datagram-below (10 + j) (omega arith)
          ∙ ap stamped (omega arith)
          ∙ stamp-number stream spdu j packet h;
      element = λ j h. elim (side_of j 4) [
        | inl low ↦
            datagram-below (27 + iv_length mode + j) (omega arith)
            ∙ stamp-outside stream spdu (42 + (27 + iv_length mode + j)) packet
                (inr (inr (omega arith)))
            ∙ carries.size_field j low
            ∙ frame-header (27 + iv_length mode + j) (omega arith)
        | inr high ↦
            ap datagram (omega arith)
            ∙ datagram-region (j - 4) (omega (arith, h))
            ∙ element-kept (j - 4) (element_part j high h)
            ∙ ap skel.frame (omega arith)
            ∙ frame-header (27 + iv_length mode + j) (omega (arith, h))
      ];
      appid_field = λ j h.
          ap datagram (omega arith)
          ∙ datagram-region (2 + j) (omega arith)
          ∙ keeps (region_of mode skel.region_offset plain stamped) (2 + j) (omega arith)
          ∙ appid-patched (region_of mode skel.region_offset plain stamped) (appid_of_stream stream)
              j h;
    }
