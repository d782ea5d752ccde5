-- ===== src/Dpdk/WaitLink.antt =====
-- src/dpdk_cpp/dpdk_port_class.hpp: `Port::WaitLink`. The link status of each poll is a parameter, none
-- where `rte_eth_link_get_nowait` fails.
use process_bus.Prelude.{
  ℕ, zero, suc, ◌+◌, ◌-◌, ◌*◌, ◌%◌, ◌^◌, ◌≤◌, ◌<◌, ◌≡◌, ◌≢◌, ◌↔◌, ◌⊎◌, inl, inr, refl, sym, ap, ◌∙◌,
  arith, Bool, true, false, Option, none, some, leb, if◌then◌else◌, Bool-cases, Option-cases,
}

pub data Waited : Type 0 where
  link_up link_down link_error : Waited

abbrev pub stable_num : ℕ
stable_num = 5

-- A poll of the loop: the count of polls in a row with the link up decides whether `rest` goes on.
abbrev pub next_stable : Bool → ℕ → ℕ
next_stable true stable = stable + 1
next_stable false stable = 0

-- `n` polls are left, the next is `i`.
pub wait_from : (ℕ → Option Bool) → ℕ → ℕ → ℕ → Waited
wait_from link zero i stable = link_down
wait_from link (suc n) i stable = elim (link i) [
  | none ↦ link_error
  | some b ↦
      let rest = wait_from link n (i + 1) (next_stable b stable) in
      if leb stable_num (next_stable b stable) then link_up else rest
]

-- `WaitLink`, with ten polls a second.
unfoldable pub wait_link : (ℕ → Option Bool) → ℕ → Waited
unfolding wait_from
wait_link link sec = wait_from link (sec * 10 % 2 ^ 32) 0 0

-- The link is up in five polls from `k` on, and no poll up to them fails.
pub record Steady (link : ℕ → Option Bool) (k : ℕ) : Type 0 where
  pub up : (j : ℕ) → k ≤ j → j < k + 5 → link j ≡ some true
  pub answered : (j : ℕ) → j < k → link j ≢ none

step :
    (link : ℕ → Option Bool) (n i stable : ℕ) (b : Bool)
    → link i ≡ some b
    → wait_from link (suc n) i stable ≡ (
        if leb 5 (next_stable b stable)
        then link_up
        else wait_from link n (i + 1) (next_stable b stable))
unfolding wait_from
step link n i stable b e = rw (wait_from, e) refl

or_later :
    (test : Bool) (later : Waited)
    → (test ≡ false → later ≡ link_up)
    → (if test then link_up else later) ≡ link_up
or_later true later k = refl
or_later false later k = k refl

before_or_in : (i k : ℕ) → (i < k) ⊎ (k ≤ i)
before_or_in i k = elim (Bool-cases (leb k i)) [
  | inl e ↦ inr (ground (arith, e))
  | inr e ↦ inl (ground (arith, e))
]

in_window : (i k stable : ℕ) → k ≤ i → (k < i → i ≤ k + stable) → i + 1 ≤ k + (stable + 1)
in_window i k stable here count = elim (before_or_in k i) [
  | inl past ↦ omega (arith, count past)
  | inr first ↦ omega (arith, first)
]

Steady-up :
    (link : ℕ → Option Bool) (k n i stable : ℕ)
    → Steady link k
    → k + 5 ≤ i + n
    → i < k + 5
    → (k < i → i ≤ k + stable)
    → wait_from link n i stable ≡ link_up
Steady-up link k zero i stable s room before count = absurd (omega (arith, room, before))
Steady-up link k (suc n) i stable s room before count = elim (before_or_in i k) [
  | inl early ↦ elim (Option-cases (link i)) [
    | inl fails ↦ absurd (s.answered i early fails)
    | inr (b, e) ↦
        step link n i stable b e
        ∙ or_later (leb 5 (next_stable b stable)) _ (λ _.
          Steady-up link k n (i + 1) (next_stable b stable) s (omega (arith, room))
            (omega (arith, early)) (λ lt. absurd (omega (arith, lt, early))))
  ]
  | inr here ↦
      step link n i stable true (s.up i here before)
      ∙ or_later (leb 5 (stable + 1)) _ (λ few.
        let more : stable + 1 < 5 = ground (arith, few) in
        let next : i + 1 ≤ k + (stable + 1) = in_window i k stable here count in
        Steady-up link k n (i + 1) (stable + 1) s (omega (arith, room)) (omega (arith, more, next))
          (λ lt. next))
]

-- What the loop has seen before poll `i`: no failure, and the link up in the last `stable` polls.
record Seen (link : ℕ → Option Bool) (i stable : ℕ) : Type 0 where
  answered : (j : ℕ) → j < i → link j ≢ none
  last : (j : ℕ) → i ≤ j + stable → j < i → link j ≡ some true
  within : stable ≤ i

answered_next :
    (link : ℕ → Option Bool) (i stable : ℕ) (b : Bool)
    → Seen link i stable
    → link i ≡ some b
    → (j : ℕ) → j < i + 1
    → link j ≢ none
answered_next link i stable b s e j lt = elim (before_or_in j i) [
  | inl past ↦ s.answered j past
  | inr now ↦ let same : j ≡ i = omega (arith, now, lt) in let seen = ap link same in λ fails. cc
]

Seen-next :
    (link : ℕ → Option Bool) (i stable : ℕ) (b : Bool)
    → Seen link i stable
    → link i ≡ some b
    → Seen link (i + 1) (next_stable b stable)
Seen-next link i stable true s e = record {
  answered = answered_next link i stable true s e;
  last = λ j near lt. elim (before_or_in j i) [
    | inl past ↦ s.last j (omega (arith, near)) past
    | inr now ↦ let same : j ≡ i = omega (arith, now, lt) in ap link same ∙ e
  ];
  within = omega (arith, s.within);
}
Seen-next link i stable false s e = record {
  answered = answered_next link i stable false s e;
  last = λ j near lt. absurd (omega (arith, near, lt));
  within = omega arith;
}

-- Five polls in a row with the link up have been seen.
Seen-Steady :
    (link : ℕ → Option Bool) (i stable : ℕ)
    → Seen link i stable
    → 5 ≤ stable
    → (k : ℕ) × (k + 5 ≡ i) × Steady link k
Seen-Steady link i stable s enough = (
  i - 5,
  omega (arith, enough, s.within),
  record {
    up = λ j lo hi.
        s.last j (omega (arith, lo, enough, s.within)) (omega (arith, hi, enough, s.within));
    answered = λ j lt. s.answered j (omega (arith, lt));
  },
)

up-Steady :
    (link : ℕ → Option Bool) (n i stable : ℕ)
    → Seen link i stable
    → wait_from link n i stable ≡ link_up
    → (k : ℕ) × (k + 5 ≤ i + n) × Steady link k
unfolding wait_from
up-Steady link zero i stable s e = cc
up-Steady link (suc n) i stable s e = elim (Option-cases (link i)) [
  | inl fails ↦ cc (rw (wait_from, fails) at e)
  | inr (b, answer) ↦
      let seen = Seen-next link i stable b s answer in
      let goes_on = sym (step link n i stable b answer) ∙ e in
      elim (Bool-cases (leb 5 (next_stable b stable))) [
        | inl enough ↦
            let (k, at, steady) =
              Seen-Steady link (i + 1) (next_stable b stable) seen (ground (arith, enough)) in
            (k, omega (arith, at), steady)
        | inr few ↦
            let (k, at, steady) =
              up-Steady link n (i + 1) (next_stable b stable) seen (rw few at goes_on) in
            (k, omega (arith, at), steady)
      ]
]

Seen-none : (link : ℕ → Option Bool) → Seen link 0 0
Seen-none link = record {
  answered = λ j lt. absurd (omega (arith, lt));
  last = λ j near lt. absurd (omega (arith, lt));
  within = omega arith;
}

-- The wait ends with the link up exactly if it is up in five polls in a row among those of the time
-- given, and no poll before them fails.
pub wait_link_iff :
    (link : ℕ → Option Bool) (sec : ℕ)
    → (wait_link link sec ≡ link_up) ↔ ((k : ℕ) × (k + 5 ≤ sec * 10 % 2 ^ 32) × Steady link k)
unfolding wait_link
wait_link_iff link sec =
    let n : ℕ = sec * 10 % 2 ^ 32 in
    (
      λ e.
          let (k, room, steady) = up-Steady link n 0 0 (Seen-none link) e in
          (k, omega (arith, room), steady),
      λ (k, room, steady).
          Steady-up link k n 0 0 steady (omega (arith, room)) (omega arith)
            (λ lt. absurd (omega (arith, lt))),
    )
