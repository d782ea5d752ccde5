-- ===== src/Pipeline/Routing.antt =====
-- Each received packet is put into the frame of one stage, in order.
use process_bus.Prelude.{
  ℕ, ◌+◌, ◌≡◌, refl, sym, ◌∙◌, arith, Bool, true, false, List, [], ◌∷◌, ◌++◌, length, length-append,
  if◌then◌else◌, Bool-cases, inl, inr,
}
use mathlib.Core.List.{append_assoc, append-nil}
use process_bus.Parser.Envelope.{
  BusProto, non_bus_proto, bus_proto_sv, bus_proto_goose, bus_proto_r_goose, bus_proto_r_sv,
}
use process_bus.Pipeline.{Packet, Matrix, clean, kind_of, put, route, router_stage}

abbrev pub same : BusProto → BusProto → Bool
same non_bus_proto non_bus_proto = true
same bus_proto_sv bus_proto_sv = true
same bus_proto_goose bus_proto_goose = true
same bus_proto_r_goose bus_proto_r_goose = true
same bus_proto_r_sv bus_proto_r_sv = true
same _ _ = false

-- The packets of one protocol, in the order of arrival.
abbrev pub of_kind : BusProto → List Packet → List Packet
of_kind k [] = []
of_kind k (p ∷ ps) = if same (kind_of p) k then p ∷ of_kind k ps else of_kind k ps

-- The frame that a protocol is put into.
abbrev pub frame_of : BusProto → Matrix → List Packet
frame_of bus_proto_sv m = m.sv
frame_of bus_proto_goose m = m.goose
frame_of bus_proto_r_goose m = m.r_goose
frame_of bus_proto_r_sv m = m.r_sv
frame_of non_bus_proto m = m.ip

frame_of-put :
    (m : Matrix) (j k : BusProto) (p : Packet)
    → frame_of k (put m j p) ≡ (if same j k then frame_of k m ++ p ∷ [] else frame_of k m)
frame_of-put m bus_proto_sv bus_proto_sv p = refl
frame_of-put m bus_proto_goose bus_proto_goose p = refl
frame_of-put m bus_proto_r_goose bus_proto_r_goose p = refl
frame_of-put m bus_proto_r_sv bus_proto_r_sv p = refl
frame_of-put m non_bus_proto non_bus_proto p = refl
frame_of-put m _ _ p = refl

frame_of-route :
    (ps : List Packet) (m : Matrix) (k : BusProto)
    → frame_of k (route ps m) ≡ frame_of k m ++ of_kind k ps
unfolding route
frame_of-route [] m k = sym (append-nil (frame_of k m))
frame_of-route (p ∷ ps) m k =
    rw (frame_of-route ps (put m (kind_of p) p) k, frame_of-put m (kind_of p) k p)
      (elim (Bool-cases (same (kind_of p) k)) [
        | inl e ↦ rw e (append_assoc (frame_of k m) (p ∷ []) (of_kind k ps))
        | inr e ↦ rw e refl
      ])

-- After the router has worked on a burst in an empty matrix, the frame of each stage holds the
-- packets of its protocol, all of them and in the order of arrival.
pub frame_of-router_stage :
    (ps : List Packet) (k : BusProto)
    → frame_of k (router_stage (record clean { router = ps })) ≡ of_kind k ps
unfolding router_stage
frame_of-router_stage ps k =
    router_keeps (route ps m) k ∙ frame_of-route ps m k ∙ empty_front k (of_kind k ps)
  where
    m : Matrix
    m = record clean { router = ps }

    router_keeps :
        (r : Matrix) (j : BusProto) → frame_of j (record r { router = [] }) ≡ frame_of j r
    router_keeps r bus_proto_sv = refl
    router_keeps r _ = refl

    empty_front : (j : BusProto) (xs : List Packet) → frame_of j m ++ xs ≡ xs
    empty_front bus_proto_sv xs = refl
    empty_front _ xs = refl

-- The number of packets in the frames of the five stages.
abbrev pub in_stages : Matrix → ℕ
in_stages m = length m.goose + length m.sv + length m.r_goose + length m.r_sv + length m.ip

in_stages-put : (m : Matrix) (k : BusProto) (p : Packet) → in_stages (put m k p) ≡ in_stages m + 1
in_stages-put m bus_proto_sv p = omega (arith, length-append m.sv (p ∷ []))
in_stages-put m bus_proto_goose p = omega (arith, length-append m.goose (p ∷ []))
in_stages-put m bus_proto_r_goose p = omega (arith, length-append m.r_goose (p ∷ []))
in_stages-put m bus_proto_r_sv p = omega (arith, length-append m.r_sv (p ∷ []))
in_stages-put m non_bus_proto p = omega (arith, length-append m.ip (p ∷ []))

in_stages-route : (ps : List Packet) (m : Matrix) → in_stages (route ps m) ≡ in_stages m + length ps
unfolding route
in_stages-route [] m = omega arith
in_stages-route (p ∷ ps) m =
    omega (arith, in_stages-route ps (put m (kind_of p) p), in_stages-put m (kind_of p) p)

-- The router puts each packet of a burst into exactly one frame, so that no frame takes more packets
-- than the burst has.
pub in_stages-router_stage :
    (ps : List Packet) → in_stages (router_stage (record clean { router = ps })) ≡ length ps
unfolding router_stage
in_stages-router_stage ps = omega (arith, in_stages-route ps (record clean { router = ps }))
