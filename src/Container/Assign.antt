-- ===== src/Container/Assign.antt =====
-- What an assignment through `operator[]` changes.
use process_bus.Prelude.{
  ℕ, ◌<◌, ◌≡◌, ◌≢◌, inl, inr, refl, sym, ap, ◌∙◌, arith, [], ◌∷◌, ◌++◌, length, length-append,
  get_elem?, get_elem?-append_left, get_elem?-append_length, get_elem?-lt, get_elem?-beyond, Option,
  none, some, ltb, ◌==◌, ==_iff, if◌then◌else◌, Bool, true, false, Bool-cases,
}
use process_bus.Container.{AppidContainer, Key, value_of, assign, set_second, size_max}
use process_bus.Container.Invariant.{
  IsValid, registered-cases, set_second_self, set_second_other, length-set_second,
}
use process_bus.Container.Lookup.{value_of-entry, value_of_iff, pick, value_of-pick}

nested_if {κ} :
    {V : Type κ} (b : Bool) (v v' : V)
    → ◌≡◌ {A = Option V}
        (if b then some v else none)
        (if b then some v else (if b then some v' else none))
nested_if true v v' = refl
nested_if false v v' = refl

module _ {ℓ κ} {K : Type ℓ} {V : Type κ} ⦃key : Key K⦄ where
  -- The key whose value `map[k] = v` sets: that of the entry under the APPID of `k`, else `k`.
  abbrev key_or : Option (K × V) → K → K
  key_or none k = k
  key_or (some (j, v)) k = j

  pub owner : AppidContainer K V → K → K
  owner c k =
      if ltb (c.register (key.appid k)) (length c.values)
      then key_or (get_elem? c.values (c.register (key.appid k))) k
      else k

  assign-registered :
      (dflt : V) (c : AppidContainer K V) (k : K) (v : V)
      → ltb (c.register (key.appid k)) (length c.values) ≡ true
      → assign dflt c k v ≡ record c { values = set_second c.values (c.register (key.appid k)) v }
  unfolding assign
  assign-registered dflt c k v e = rw e

  pub assign-unregistered :
      (dflt : V) (c : AppidContainer K V) (k : K) (v : V)
      → ltb (c.register (key.appid k)) (length c.values) ≡ false
      → assign dflt c k v ≡ record {
        register = λ a. if a == key.appid k then length c.values else c.register a;
        values = set_second (c.values ++ (k, dflt) ∷ []) (length c.values) v;
      }
  unfolding assign
  assign-unregistered dflt c k v e = rw (e, (==_iff (key.appid k) (key.appid k)).1 refl)

  -- The entries after an assignment under an APPID that was not registered.
  fresh_entry :
      (dflt : V) (c : AppidContainer K V) (k : K) (v : V) (a : ℕ)
      → IsValid c
      → length c.values < size_max
      → let i = if a == key.appid k then length c.values else c.register a in
        get_elem? (set_second (c.values ++ (k, dflt) ∷ []) (length c.values) v) i
        ≡ (if a == key.appid k then some (k, v) else get_elem? c.values (c.register a))
  fresh_entry dflt c k v a h room = elim (Bool-cases (a == key.appid k)) [
    | inl same ↦ rw same (
        set_second_self (c.values ++ (k, dflt) ∷ []) (length c.values) k dflt v
          (get_elem?-append_length c.values (k, dflt)))
    | inr other ↦ rw other (elim (registered-cases c a h) [
      | inl (_, e) ↦
          get_elem?-beyond (set_second (c.values ++ (k, dflt) ∷ []) (length c.values) v)
            (c.register a)
            (omega (
              arith,
              length-set_second (c.values ++ (k, dflt) ∷ []) (length c.values) v,
              length-append c.values ((k, dflt) ∷ []),
            ))
          ∙ sym (get_elem?-beyond c.values (c.register a) (omega arith))
      | inr (_, (k', v', e, _)) ↦
          let lt = get_elem?-lt c.values (c.register a) (k', v') e in
          set_second_other (c.values ++ (k, dflt) ∷ []) (length c.values) (c.register a) v
            (omega arith)
          ∙ get_elem?-append_left c.values ((k, dflt) ∷ []) (c.register a) lt
    ])
  ]

  -- The entries after an assignment under an APPID that was registered.
  present_entry :
      (c : AppidContainer K V) (k k' : K) (v v' : V) (a : ℕ)
      → IsValid c
      → get_elem? c.values (c.register (key.appid k)) ≡ some (k', v')
      → key.appid k' ≡ key.appid k
      → get_elem? (set_second c.values (c.register (key.appid k)) v) (c.register a)
        ≡ (if a == key.appid k then some (k', v) else get_elem? c.values (c.register a))
  present_entry c k k' v v' a h at e = elim (Bool-cases (a == key.appid k)) [
    | inl same ↦ rw same (
        ap (λ (b : ℕ). get_elem? (set_second c.values (c.register (key.appid k)) v) (c.register b))
          ((==_iff _ _).0 same)
        ∙ set_second_self c.values (c.register (key.appid k)) k' v' v at)
    | inr other ↦ rw other (
        set_second_other c.values (c.register (key.appid k)) (c.register a) v (λ clash.
          elim (registered-cases c a h) [
            | inl (_, full) ↦ absurd (omega (arith, get_elem?-lt c.values _ _ at, h.bounded))
            | inr (_, (k'', v'', at', e')) ↦
                let same : ◌≡◌ {A = Option (K × V)} (some (k', v')) (some (k'', v'')) =
                  sym at ∙ ap (get_elem? c.values) clash ∙ at' in
                absurd (ground (arith, other, same, e, e'))
          ]))
  ]

  pick_other :
      (k j : K) (v : V) (e : Option (K × V))
      → (key.appid j == key.appid k) ≡ false
      → pick j e ≡ (if key.beq k j then some v else pick j e)
  pick_other k j v e other = elim (Bool-cases (key.beq k j)) [
    | inl same ↦ absurd (ground (arith, other, ap key.appid ((key.beq_iff k j).0 same)))
    | inr differ ↦ rw differ
  ]

  module _ (dflt : V) (c : AppidContainer K V) (k : K) (v : V) (h : IsValid c)
      (room : length c.values < size_max) where
    pub assign_fresh :
        (j : K)
        → ltb (c.register (key.appid k)) (length c.values) ≡ false
        → value_of (assign dflt c k v) j ≡ (if key.beq k j then some v else value_of c j)
    assign_fresh j out = rw (assign-unregistered dflt c k v out) (
        value_of-pick _ j
        ∙ rw (fresh_entry dflt c k v (key.appid j) h room, value_of-pick c j)
            (elim (Bool-cases (key.appid j == key.appid k)) [
              | inl same ↦
                  let eq : key.appid j ≡ key.appid k = (==_iff _ _).0 same in
                  rw (
                    same,
                    eq,
                    get_elem?-beyond c.values (c.register (key.appid k)) (ground (arith, out)),
                  )
              | inr other ↦ rw other (pick_other k j v _ other)
            ]))

    assign_present :
        (j k' : K) (v' : V)
        → get_elem? c.values (c.register (key.appid k)) ≡ some (k', v')
        → key.appid k' ≡ key.appid k
        → value_of (assign dflt c k v) j ≡ (if key.beq k' j then some v else value_of c j)
    assign_present j k' v' at e =
        rw (assign-registered dflt c k v (ground (arith, get_elem?-lt c.values _ _ at))) (
          value_of-pick _ j
          ∙ rw (present_entry c k k' v v' (key.appid j) h at e, value_of-pick c j)
              (elim (Bool-cases (key.appid j == key.appid k)) [
                | inl same ↦
                    let eq : key.appid j ≡ key.appid k = (==_iff _ _).0 same in
                    rw (same, eq, at) (nested_if (key.beq k' j) v v')
                | inr other ↦ rw other (pick_other k' j v _ (rw e other))
              ]))

    -- After `map[k] = v` on a valid container that is not full, the owner's lookup gives `v` and
    -- every other lookup is as it was. The owner is the key of the entry under the APPID of `k`, and
    -- `k` itself only if there is none.
    pub value_of-assign :
        (j : K)
        → value_of (assign dflt c k v) j ≡ (if key.beq (owner c k) j then some v else value_of c j)
    unfolding owner
    value_of-assign j = elim (registered-cases c (key.appid k) h) [
      | inl (out, _) ↦ rw out (assign_fresh j out)
      | inr (inside, (k', v', at, e)) ↦ rw (inside, at) (assign_present j k' v' at e)
    ]

    -- Assigning under a key whose APPID another key holds: the new key is still not found, and the
    -- other key's value is replaced.
    pub assign_shadowed :
        (k' : K) (v' : V)
        → value_of c k' ≡ some v'
        → key.appid k' ≡ key.appid k
        → k' ≢ k
        → (value_of (assign dflt c k v) k ≡ none) × (value_of (assign dflt c k v) k' ≡ some v)
    assign_shadowed k' v' e same differ =
        let (i, entry) = (value_of_iff c k' v' h).0 e in
        let at : get_elem? c.values (c.register (key.appid k)) ≡ some (k', v') =
          rw (← same, h.indexed i k' v' entry) entry in
        let unlike : key.beq k' k ≡ false = elim (Bool-cases (key.beq k' k)) [
          | inl eq ↦ absurd (differ ((key.beq_iff k' k).0 eq))
          | inr ne ↦ ne
        ] in
        (
          assign_present k k' v' at same ∙ rw unlike (value_of-entry c k k' v' at ∙ rw unlike),
          assign_present k' k' v' at same ∙ rw ((key.beq_iff k' k').1 refl),
        )
