-- ===== src/Generator.antt =====
-- src/bus_generator/gen_application.cpp and tx_unit.hpp: the slice of the IEDs that a worker sends, and the
-- plan of a burst. The modules below have the schedules (Units), how a worker sends them (Sender) or a
-- burst (Burst), what is written into a packet (Amend), and
-- the routable generators (Routable).
pub mod Slices
pub mod Units
pub mod Sender
pub mod Burst
pub mod Amend
pub mod Routable
pub mod Plan
pub mod Application
use process_bus.Prelude.{ℕ, zero, suc, ◌+◌, ◌*◌, ◌/◌, ◌%◌, List, [], ◌∷◌, ◌++◌, ltb, if◌then◌else◌}

-- `ied_slice`: the first IED of worker `i` and the one behind its last. An unsigned is a uint32_t.
unfoldable pub ied_slice : ℕ → ℕ → ℕ → ℕ × ℕ
ied_slice num workers i =
    let per = num / workers in
    let rem = num % workers in
    let lo = (i * per + (if ltb i rem then i else rem)) % 4294967296 in
    (lo, (lo + per + (if ltb i rem then 1 else 0)) % 4294967296)

-- The inner loop of `make_burst_plan`: `n` streams are left, the next is `s`. A descriptor is its
-- `idx`.
unfoldable pub one_round : ℕ → ℕ → List ℕ
one_round zero s = []
one_round (suc n) s = s ∷ one_round n (s + 1)

unfoldable pub make_burst_plan : ℕ → ℕ → List ℕ
make_burst_plan streams zero = []
make_burst_plan streams (suc reps) = one_round streams 0 ++ make_burst_plan streams reps
