-- ===== src/Container/Invariant.antt =====
-- The register of a container points at entries of its own APPID, and at every entry.
use process_bus.Prelude.{
  ℕ, zero, suc, ◌≤◌, ◌<◌, ◌≡◌, ◌⊎◌, ◌≢◌, inl, inr, refl, ap, arith, List, [], ◌∷◌, ◌++◌, length,
  length-append, get_elem?, get_elem?-snoc, ==_iff, sym, ◌∙◌, get_elem?-append_left,
  get_elem?-append_length, get_elem?-lt, some, ltb, ◌==◌, true, false, Bool-cases,
}
use native.Mathlib.Decide.{ℕ_discrete}
use process_bus.Container.{
  AppidContainer, Key, empty_container, insert, assign, set_second, size_max,
}

module _ {ℓ κ} {K : Type ℓ} {V : Type κ} where
  pub length-set_second :
      (xs : List (K × V)) (i : ℕ) (v : V) → length (set_second xs i v) ≡ length xs
  length-set_second [] i v = refl
  length-set_second (x ∷ xs) zero v = refl
  length-set_second (x ∷ xs) (suc i) v = ap suc (length-set_second xs i v)

  pub set_second_self :
      (xs : List (K × V)) (i : ℕ) (k : K) (w v : V)
      → get_elem? xs i ≡ some (k, w)
      → get_elem? (set_second xs i v) i ≡ some (k, v)
  set_second_self [] i k w v e = cc
  set_second_self (x ∷ xs) zero k w v e = ground arith
  set_second_self (x ∷ xs) (suc i) k w v e = set_second_self xs i k w v e

  pub set_second_other :
      (xs : List (K × V)) (i j : ℕ) (v : V)
      → i ≢ j
      → get_elem? (set_second xs i v) j ≡ get_elem? xs j
  set_second_other [] i j v h = refl
  set_second_other (x ∷ xs) zero zero v h = absurd (h refl)
  set_second_other (x ∷ xs) zero (suc j) v h = refl
  set_second_other (x ∷ xs) (suc i) zero v h = refl
  set_second_other (x ∷ xs) (suc i) (suc j) v h = set_second_other xs i j v (λ e. h (ap suc e))

module _ {ℓ κ} {K : Type ℓ} {V : Type κ} ⦃key : Key K⦄ where
  -- The entry at index `i` is one of APPID `a`.
  abbrev pub EntryAt : List (K × V) → ℕ → ℕ → Type (ℓ ⊔ κ)
  EntryAt xs i a = (k : K) × (v : V) × (get_elem? xs i ≡ some (k, v)) × (key.appid k ≡ a)

  pub record IsValid (c : AppidContainer K V) : Type (ℓ ⊔ κ) where
    pub bounded : length c.values ≤ size_max
    pub registered : (a : ℕ) → (c.register a ≡ size_max) ⊎ EntryAt c.values (c.register a) a
    pub indexed :
        (i : ℕ) (k : K) (v : V) → get_elem? c.values i ≡ some (k, v) → c.register (key.appid k) ≡ i

  pub empty-IsValid : IsValid empty_container
  unfolding empty_container
  empty-IsValid = record {
    bounded = omega arith;
    registered = λ a. inl refl;
    indexed = λ i k v e. cc;
  }

  EntryAt-snoc :
      (xs : List (K × V)) (x : K × V) (i a : ℕ) → EntryAt xs i a → EntryAt (xs ++ x ∷ []) i a
  EntryAt-snoc xs x i a (k, v, e, h) =
      (k, v, get_elem?-append_left xs (x ∷ []) i (get_elem?-lt xs i (k, v) e) ∙ e, h)

  -- An insertion under an APPID that is not registered keeps the container valid.
  pub insert-IsValid :
      (c : AppidContainer K V) (k : K) (v : V)
      → IsValid c
      → length c.values < size_max
      → c.register (key.appid k) ≡ size_max
      → IsValid (insert c k v)
  unfolding insert
  insert-IsValid c k v h room fresh = record {
    bounded = omega (arith, length-append c.values ((k, v) ∷ []));
    registered = λ a. elim (Bool-cases (a == key.appid k)) [
      | inl same ↦
          rw same (inr (k, v, get_elem?-append_length c.values (k, v), sym ((==_iff _ _).0 same)))
      | inr other ↦ rw other (elim (h.registered a) [
        | inl none_yet ↦ inl none_yet
        | inr e ↦ inr (EntryAt-snoc c.values (k, v) (c.register a) a e)
      ])
    ];
    indexed = λ i j w e. elim (get_elem?-snoc c.values (k, v) i (j, w) e) [
      | inl old ↦ ground (arith, h.bounded, h.indexed i j w old, get_elem?-lt c.values i (j, w) old)
      | inr (at, new) ↦ ground (arith, at, ap (λ (p : K × V). key.appid p.0) new)
    ];
  }

  EntryAt-set_second :
      (xs : List (K × V)) (i j a : ℕ) (w : V) → EntryAt xs i a → EntryAt (set_second xs j w) i a
  EntryAt-set_second xs i j a w (k, v, e, h) = elim (ℕ_discrete j i) [
    | yes same ↦ (k, w, rw same (set_second_self xs i k v w e), h)
    | no other ↦ (k, v, set_second_other xs j i w other ∙ e, h)
  ]

  EntryAt-before :
      (xs : List (K × V)) (i j : ℕ) (w : V) (k : K) (v : V)
      → get_elem? (set_second xs j w) i ≡ some (k, v)
      → (u : V) × (get_elem? xs i ≡ some (k, u))
  EntryAt-before [] i j w k v e = cc
  EntryAt-before ((k', v') ∷ xs) zero zero w k v e = (v', ground arith)
  EntryAt-before ((k', v') ∷ xs) zero (suc j) w k v e = (v, e)
  EntryAt-before ((k', v') ∷ xs) (suc i) zero w k v e = (v, e)
  EntryAt-before ((k', v') ∷ xs) (suc i) (suc j) w k v e = EntryAt-before xs i j w k v e

  set_second-IsValid :
      (c : AppidContainer K V) (i : ℕ) (w : V)
      → IsValid c
      → IsValid (record c { values = set_second c.values i w })
  set_second-IsValid c i w h = record {
    bounded = rw (length-set_second c.values i w) h.bounded;
    registered = λ a. elim (h.registered a) [
      | inl none_yet ↦ inl none_yet
      | inr e ↦ inr (EntryAt-set_second c.values (c.register a) i a w e)
    ];
    indexed = λ j k v e. let (u, old) = EntryAt-before c.values j i w k v e in h.indexed j k u old;
  }

  -- An APPID is registered exactly if its index is in range.
  pub registered-cases :
      (c : AppidContainer K V) (a : ℕ)
      → IsValid c
      → ((ltb (c.register a) (length c.values) ≡ false) × (c.register a ≡ size_max))
        ⊎ ((ltb (c.register a) (length c.values) ≡ true) × EntryAt c.values (c.register a) a)
  registered-cases c a h = elim (h.registered a) [
    | inl e ↦ inl (ground (arith, e, h.bounded), e)
    | inr (k, v, e, p) ↦
        inr (ground (arith, get_elem?-lt c.values (c.register a) (k, v) e), (k, v, e, p))
  ]

  -- `map[k] = v` keeps a container valid that is not full.
  pub assign-IsValid :
      (dflt : V) (c : AppidContainer K V) (k : K) (v : V)
      → IsValid c
      → length c.values < size_max
      → IsValid (assign dflt c k v)
  unfolding assign
  assign-IsValid dflt c k v h room = elim (registered-cases c (key.appid k) h) [
    | inl (out, e) ↦
        rw out (set_second-IsValid (insert c k dflt) _ v (insert-IsValid c k dflt h room e))
    | inr (inside, _) ↦ rw inside (set_second-IsValid c _ v h)
  ]
