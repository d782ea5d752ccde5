-- ===== src/Receiver/Registration/Once.antt =====
-- Keys with different APPIDs are all found.
use process_bus.Prelude.{
  ℕ, zero, suc, ◌+◌, ◌%◌, ◌≤◌, ◌<◌, ◌≡◌, ◌≢◌, refl, ap, ◌∙◌, arith, Bool, true, false, ◌&&◌, ◌||◌,
  some, none, [], ◌∷◌, ◌++◌, length, length-append, ltb, leb, if◌then◌else◌, Bool-cases, inl, inr,
}
use native.Mathlib.Decide.{ℕ_discrete}
use process_bus.Container.{AppidContainer, Key, empty_container, assign, value_of, size_max}
use process_bus.Container.Invariant.{IsValid, empty-IsValid, assign-IsValid, length-set_second}
use process_bus.Container.Lookup.{value_of-unregistered}
use process_bus.Container.Assign.{assign_fresh, assign-unregistered}
use process_bus.Receiver.Registration.{register_all}

if-or {ℓ} :
    {A : Type ℓ} (a b : Bool) (x y : A)
    → (if a then x else (if b then x else y)) ≡ (if b || a then x else y)
if-or true true x y = refl
if-or true false x y = refl
if-or false true x y = refl
if-or false false x y = refl

module _ {ℓ κ} {K : Type ℓ} {V : Type κ} ⦃key : Key K⦄ (src : V) (pass : ℕ → K) where
  -- One of the `n` keys from the `i`-th on is `k`.
  abbrev pub among : ℕ → ℕ → K → Bool
  among zero i k = false
  among (suc n) i k = key.beq (pass i) k || among n (i + 1) k

  module _ (numbered : (i : ℕ) → key.appid (pass i) ≡ (1 + i) % 65536) where
    differ : (i j : ℕ) → i < j → j < 65536 → key.appid (pass j) ≢ key.appid (pass i)
    differ i j lt hi e = omega (arith, numbered i, numbered j, e, lt, hi)

    -- The APPIDs of the keys from the `i`-th on are free.
    abbrev Free : ℕ → AppidContainer K V → Type 0
    Free i c = (j : ℕ) → i ≤ j → j < 65536 → c.register (key.appid (pass j)) ≡ size_max

    -- An assignment under the `i`-th key takes a new entry and leaves the later APPIDs free.
    assign_next :
        (i : ℕ) (c : AppidContainer K V)
        → Free i c
        → length c.values < size_max
        → i < 65536
        → (ltb (c.register (key.appid (pass i))) (length c.values) ≡ false)
          × (length (assign src c (pass i) src).values ≡ length c.values + 1)
          × Free (i + 1) (assign src c (pass i) src)
    assign_next i c free room lt =
        let full = free i (omega arith) lt in
        let out : ltb (c.register (key.appid (pass i))) (length c.values) ≡ false =
          ground (arith, full, room) in
        (
          out,
          rw (assign-unregistered src c (pass i) src out) (
              length-set_second (c.values ++ (pass i, src) ∷ []) (length c.values) src
              ∙ length-append c.values ((pass i, src) ∷ [])),
          λ j lo hi.
              rw (assign-unregistered src c (pass i) src out)
                (ground (arith, differ i j (omega (arith, lo)) hi, free j (omega (arith, lo)) hi)),
        )

    register_all-value :
        (n i : ℕ) (c : AppidContainer K V) (k : K)
        → IsValid c
        → Free i c
        → length c.values + n < size_max
        → i + n ≤ 65536
        → value_of (register_all src pass n i c) k
          ≡ (if among n i k then some src else value_of c k)
    unfolding register_all
    register_all-value zero i c k valid free room le = refl
    register_all-value (suc n) i c k valid free room le =
        let c' : AppidContainer K V = assign src c (pass i) src in
        let (out, size, free') = assign_next i c free (omega (arith, room)) (omega (arith, le)) in
        let now = assign_fresh src c (pass i) src valid (omega (arith, room)) k out in
        register_all-value n (i + 1) c' k
          (assign-IsValid src c (pass i) src valid (omega (arith, room))) free'
          (omega (arith, size, room)) (omega (arith, le))
        ∙ rw now (if-or (among n (i + 1) k) (key.beq (pass i) k) (some src) (value_of c k))

    -- Among keys that are numbered, the `j`-th one stands where its number says.
    among_iff :
        (n i j : ℕ) → i + n ≤ 65536 → j < 65536 → among n i (pass j) ≡ (leb i j && ltb j (i + n))
    among_iff zero i j le lt = ground arith
    among_iff (suc n) i j le lt =
        let rest = among_iff n (i + 1) j (omega (arith, le)) lt in
        elim (ℕ_discrete i j) [
          | yes same ↦
              let eq : key.beq (pass i) (pass j) ≡ true = (key.beq_iff _ _).1 (ap pass same) in
              rw eq (ground (arith, same, le))
          | no other ↦
              let ne : key.beq (pass i) (pass j) ≡ false =
                elim (Bool-cases (key.beq (pass i) (pass j))) [
                  | inl eq ↦
                      let alike = ap key.appid ((key.beq_iff _ _).0 eq) in
                      absurd (omega (arith, alike, numbered i, numbered j, other, le, lt))
                  | inr unlike ↦ unlike
                ] in
              rw (ne, rest) (ground (arith, other, le))
        ]

    -- What a container holds in which only these keys are registered.
    pub register_all_only :
        (n j : ℕ)
        → n ≤ 65536
        → j < 65536
        → value_of (register_all src pass n 0 empty_container) (pass j)
          ≡ (if ltb j n then some src else none)
    unfolding empty_container
    register_all_only n j le lt =
        let here = among_iff n 0 j (omega (arith, le)) lt in
        let start : AppidContainer K V = empty_container in
        let nothing : value_of start (pass j) ≡ none =
          value_of-unregistered start (pass j) (ground arith) in
        let test : leb 0 j && ltb j (0 + n) ≡ ltb j n = ground arith in
        register_all-value n 0 empty_container (pass j) empty-IsValid (λ i lo hi. refl)
          (omega (arith, le)) (omega (arith, le))
        ∙ rw (here, nothing, test) refl
