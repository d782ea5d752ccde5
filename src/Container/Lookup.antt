-- ===== src/Container/Lookup.antt =====
-- What is found in a valid container, and what an assignment changes.
use process_bus.Prelude.{
  ℕ, ◌≡◌, ◌↔◌, inl, inr, refl, ◌∙◌, arith, length, get_elem?, get_elem?-lt, get_elem?-some,
  get_elem?-beyond, Option, none, some, ltb, if◌then◌else◌, false, Bool-cases,
}
use process_bus.Container.{AppidContainer, Key, value_of}
use process_bus.Container.Invariant.{IsValid, registered-cases}

module _ {ℓ κ} {K : Type ℓ} {V : Type κ} ⦃key : Key K⦄ where
  pub value_of-entry :
      (c : AppidContainer K V) (j k : K) (v : V)
      → get_elem? c.values (c.register (key.appid j)) ≡ some (k, v)
      → value_of c j ≡ (if key.beq k j then some v else none)
  unfolding value_of
  value_of-entry c j k v e =
      ground (arith, e, get_elem?-lt c.values (c.register (key.appid j)) (k, v) e)

  pub value_of-unregistered :
      (c : AppidContainer K V) (j : K)
      → ltb (c.register (key.appid j)) (length c.values) ≡ false
      → value_of c j ≡ none
  unfolding value_of
  value_of-unregistered c j e = rw e

  -- A lookup in a valid container gives the value of the key's own entry in the vector, and none if
  -- there is no such entry.
  pub value_of_iff :
      (c : AppidContainer K V) (k : K) (v : V)
      → IsValid c
      → (value_of c k ≡ some v) ↔ ((i : ℕ) × (get_elem? c.values i ≡ some (k, v)))
  value_of_iff c k v h = (found, present)
    where
      found : value_of c k ≡ some v → (i : ℕ) × (get_elem? c.values i ≡ some (k, v))
      found e = elim (registered-cases c (key.appid k) h) [
        | inl (out, _) ↦ cc (value_of-unregistered c k out)
        | inr (_, (k', v', at, _)) ↦ (
          c.register (key.appid k),
          ground (arith, e, at, value_of-entry c k k' v' at, key.beq_iff k' k),
        )
      ]

      present : (i : ℕ) × (get_elem? c.values i ≡ some (k, v)) → value_of c k ≡ some v
      present (i, e) =
          value_of-entry c k k v (rw (h.indexed i k v e) e) ∙ rw ((key.beq_iff k k).1 refl)

  -- A lookup in terms of the one entry that the register points at.
  abbrev pub pick : K → Option (K × V) → Option V
  pick j none = none
  pick j (some (k, v)) = if key.beq k j then some v else none

  pub value_of-pick :
      (c : AppidContainer K V) (j : K)
      → value_of c j ≡ pick j (get_elem? c.values (c.register (key.appid j)))
  value_of-pick c j = elim (Bool-cases (ltb (c.register (key.appid j)) (length c.values))) [
    | inl inside ↦
        let ((k, v), e) =
          get_elem?-some c.values (c.register (key.appid j)) (ground (arith, inside)) in
        rw e (value_of-entry c j k v e)
    | inr out ↦
        rw (get_elem?-beyond c.values (c.register (key.appid j)) (ground (arith, out)))
          (value_of-unregistered c j out)
  ]
