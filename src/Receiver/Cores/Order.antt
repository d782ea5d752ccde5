-- ===== src/Receiver/Cores/Order.antt =====
-- The packets of a stream stay together and in order.
use process_bus.Prelude.{
  ℕ, zero, suc, ◌+◌, ◌-◌, ◌/◌, ◌≤◌, ◌<◌, ◌≡◌, ◌≢◌, refl, sym, ap, ◌∙◌, arith, false, List, [], ◌∷◌,
  ◌++◌, length, take, take_all, take_nothing, drop, ltb, ◌==◌, ==_iff, if◌then◌else◌, Bool-cases,
  inl, inr,
}
use mathlib.Core.List.{append-nil, append_assoc}
use mathlib.Core.Path.{subst}
use native.Mathlib.Decide.{ℕ_discrete}
use process_bus.Prelude.Interleaving.{
  Interleaved, finished, Interleaved-take-drop, Interleaved-append, Interleaved-select, select,
  select-append, select_nested,
}
use process_bus.Pipeline.{Packet}
use process_bus.Receiver.Cores.{
  bit_and, appid_of, flush_one, worker_idx, worker_of, Queues, no_packets, deal, Rings, queued_of,
  flush, multi_core_rss,
}

bit_and-le : (n a b : ℕ) → bit_and n a b ≤ b
unfolding bit_and
bit_and-le zero a b = omega arith
bit_and-le (suc n) a b = ground (arith, bit_and-le n (a / 2) (b / 2))

-- The packets of a list that go to worker `i`.
abbrev pub part_of : ℕ → ℕ → List Packet → List Packet
part_of worker_num i = select (λ p. i == worker_of worker_num p)

empty_list {ℓ} : {A : Type ℓ} (xs : List A) → ltb 0 (length xs) ≡ false → xs ≡ []
empty_list [] e = refl
empty_list (x ∷ xs) e = ground (arith, e)

deal-part :
    (worker_num : ℕ) (ps : List Packet) (queue : Queues) (i : ℕ)
    → deal worker_num ps queue i ≡ queue i ++ part_of worker_num i ps
unfolding deal
deal-part worker_num [] queue i = sym (append-nil (queue i))
deal-part worker_num (p ∷ ps) queue i =
    deal-part worker_num ps
      (λ j. if j == worker_of worker_num p then queue j ++ p ∷ [] else queue j) i
    ∙ elim (Bool-cases (i == worker_of worker_num p)) [
      | inl same ↦ rw same (append_assoc (queue i) (p ∷ []) (part_of worker_num i ps))
      | inr other ↦ rw other refl
    ]

take_queued : (room : ℕ) (ps : List Packet) → take (queued_of room (length ps)) ps ≡ take room ps
take_queued room ps = elim (Bool-cases (ltb room (length ps))) [
  | inl less ↦ rw less refl
  | inr enough ↦
      rw enough
        (take_all (length ps) ps (omega arith) ∙ sym (take_all room ps (ground (arith, enough))))
]

-- Worker `i` has room for the first of these packets and takes them.
abbrev pub Takes : ℕ → ℕ → List Packet → Rings → Rings → Type 0
Takes room i ps r r' = r'.ring i ≡ r.ring i ++ take room ps

pub flush_one-other :
    (rooms : ℕ → ℕ) (queue : Queues) (k : ℕ) (r : Rings) (i : ℕ)
    → i ≢ k
    → (flush_one rooms queue k r).ring i ≡ r.ring i
flush_one-other rooms queue k r i differ = elim (Bool-cases (ltb 0 (length (queue k)))) [
  | inl some ↦ rw some (ground (arith, differ))
  | inr empty ↦ rw empty refl
]

flush_one-Takes :
    (rooms : ℕ → ℕ) (queue : Queues) (k : ℕ) (r : Rings)
    → Takes (rooms k) k (queue k) r (flush_one rooms queue k r)
flush_one-Takes rooms queue k r = elim (Bool-cases (ltb 0 (length (queue k)))) [
  | inl some ↦ rw (some, ← take_queued (rooms k) (queue k)) (ground arith)
  | inr empty ↦
      rw (empty, empty_list (queue k) empty, take_nothing (rooms k)) (sym (append-nil (r.ring k)))
]

flush-later :
    (n k : ℕ) (rooms : ℕ → ℕ) (queue : Queues) (r : Rings) (i : ℕ)
    → i < k
    → (flush n k rooms queue r).ring i ≡ r.ring i
unfolding flush
flush-later zero k rooms queue r i lt = refl
flush-later (suc n) k rooms queue r i lt =
    flush-later n (k + 1) rooms queue (flush_one rooms queue k r) i (omega (arith, lt))
    ∙ flush_one-other rooms queue k r i (λ e. omega (arith, e, lt))

flush-Takes :
    (n k : ℕ) (rooms : ℕ → ℕ) (queue : Queues) (r : Rings) (i : ℕ)
    → k ≤ i
    → i < k + n
    → Takes (rooms i) i (queue i) r (flush n k rooms queue r)
unfolding flush
flush-Takes zero k rooms queue r i lo hi = absurd (omega (arith, lo, hi))
flush-Takes (suc n) k rooms queue r i lo hi =
    let r1 : Rings = flush_one rooms queue k r in
    elim (ℕ_discrete i k) [
      | yes same ↦
          flush-later n (k + 1) rooms queue r1 i (omega (arith, same))
          ∙ subst (λ j. Takes (rooms j) j (queue j) r r1) (sym same)
              (flush_one-Takes rooms queue k r)
      | no differ ↦
          flush-Takes n (k + 1) rooms queue r1 i (omega (arith, lo, differ)) (omega (arith, hi))
          ∙ ap (λ xs. xs ++ take (rooms i) (queue i)) (flush_one-other rooms queue k r i differ)
    ]

-- The packets of the bursts, in the order in which they were received.
abbrev pub received : List ((ℕ → ℕ) × List Packet) → List Packet
received [] = []
received ((rooms, bufs) ∷ bursts) = bufs ++ received bursts

-- Of each burst, worker `i` gains as many of the packets for it as its ring has room for; it loses
-- the others.
abbrev pub gained : ℕ → ℕ → List ((ℕ → ℕ) × List Packet) → List Packet
gained worker_num i [] = []
gained worker_num i ((rooms, bufs) ∷ bursts) =
    take (rooms i) (part_of worker_num i bufs) ++ gained worker_num i bursts

abbrev pub lost : ℕ → ℕ → List ((ℕ → ℕ) × List Packet) → List Packet
lost worker_num i [] = []
lost worker_num i ((rooms, bufs) ∷ bursts) =
    drop (rooms i) (part_of worker_num i bufs) ++ lost worker_num i bursts

gained-Interleaved :
    (worker_num i : ℕ) (bursts : List ((ℕ → ℕ) × List Packet))
    → Interleaved
        (gained worker_num i bursts)
        (lost worker_num i bursts)
        (part_of worker_num i (received bursts))
gained-Interleaved worker_num i [] = finished
gained-Interleaved worker_num i ((rooms, bufs) ∷ bursts) =
    rw (select-append (λ p. i == worker_of worker_num p) bufs (received bursts)) (
      Interleaved-append (Interleaved-take-drop (rooms i) (part_of worker_num i bufs))
        (gained-Interleaved worker_num i bursts))

pub multi_core_rss-ring :
    (worker_num i : ℕ) (bursts : List ((ℕ → ℕ) × List Packet)) (r : Rings)
    → i < worker_num
    → (multi_core_rss worker_num bursts r).ring i ≡ r.ring i ++ gained worker_num i bursts
unfolding multi_core_rss
multi_core_rss-ring worker_num i [] r lt = sym (append-nil (r.ring i))
multi_core_rss-ring worker_num i ((rooms, bufs) ∷ bursts) r lt =
    let queue : Queues = deal worker_num bufs no_packets in
    let r1 : Rings = flush worker_num 0 rooms queue r in
    let now = flush-Takes worker_num 0 rooms queue r i (omega arith) (omega (arith, lt)) in
    multi_core_rss-ring worker_num i bursts r1 lt
    ∙ rw (now, deal-part worker_num bufs no_packets i)
        (append_assoc (r.ring i) (take (rooms i) (part_of worker_num i bufs))
          (gained worker_num i bursts))

-- The packets of the stream with an APPID.
abbrev pub of_stream : ℕ → List Packet → List Packet
of_stream appid = select (λ p. appid == appid_of p)

of_stream-part :
    (worker_num i appid : ℕ) (ps : List Packet)
    → of_stream appid (part_of worker_num i ps)
      ≡ (if i == worker_idx worker_num appid then of_stream appid ps else [])
of_stream-part worker_num i appid ps =
    select_nested (λ p. appid == appid_of p) (λ p. i == worker_of worker_num p)
      (i == worker_idx worker_num appid) ps
      (λ p same.
        ap (λ (a : ℕ). i == worker_idx worker_num a) (sym ((==_iff appid (appid_of p)).0 same)))

pub worker_idx-lt :
    (worker_num appid : ℕ) → 1 ≤ worker_num → worker_idx worker_num appid < worker_num
unfolding worker_idx
worker_idx-lt worker_num appid one = omega (arith, bit_and-le 32 appid (worker_num - 1), one)

-- The rings of the workers refine one queue per stream that loses packets only for want of room: the
-- ring of a worker gains, burst after burst, as many of the packets for it as it has room for; what it
-- gains and what it loses of a stream make up the packets of that stream that were received, in the
-- order of their arrival, if it is the stream's worker, and else nothing. This holds for every worker
-- `i`, APPID, sequence of bursts and room in the rings.
pub multi_core_rss-Interleaved :
    (worker_num i appid : ℕ) (bursts : List ((ℕ → ℕ) × List Packet)) (r : Rings)
    → i < worker_num
    → ((multi_core_rss worker_num bursts r).ring i ≡ r.ring i ++ gained worker_num i bursts)
      × Interleaved
          (of_stream appid (gained worker_num i bursts))
          (of_stream appid (lost worker_num i bursts))
          (if i == worker_idx worker_num appid then of_stream appid (received bursts) else [])
      × (worker_idx worker_num appid < worker_num)
multi_core_rss-Interleaved worker_num i appid bursts r lt = (
  multi_core_rss-ring worker_num i bursts r lt,
  rw (of_stream-part worker_num i appid (received bursts)) at
      (Interleaved-select (λ p. appid == appid_of p) (gained-Interleaved worker_num i bursts)),
  worker_idx-lt worker_num appid (omega (arith, lt)),
)
