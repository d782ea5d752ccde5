-- ===== src/Container.antt =====
-- src/bus_processor/appid_container.hpp: a map from keys with a 16-bit APPID to values, as an array of
-- indices by APPID into a vector of pairs.
pub mod Invariant
pub mod Lookup
pub mod Assign
use process_bus.Prelude.{
  ℕ, zero, suc, ◌+◌, ◌-◌, ◌^◌, ◌<◌, ◌≡◌, ◌↔◌, Bool, true, false, not, ◌&&◌, Option, none, some,
  List, [], ◌∷◌, ◌++◌, length, get_elem?, ltb, ◌==◌, if◌then◌else◌,
}

-- What the container uses of a key type: `key.appid` and `operator==`.
pub record Key {ℓ} (K : Type ℓ) : Type ℓ where
  pub appid : K → ℕ
  pub beq : K → K → Bool
  pub beq_iff : (a b : K) → (beq a b ≡ true) ↔ (a ≡ b)

-- SIZE_MAX on a 64-bit host.
abbrev pub size_max : ℕ
size_max = 2 ^ 64 - 1

pub record AppidContainer {ℓ κ} (K : Type ℓ) (V : Type κ) : Type (ℓ ⊔ κ) where
  pub register : ℕ → ℕ
  pub values : List (K × V)

module _ {ℓ κ} {K : Type ℓ} {V : Type κ} where
  unfoldable pub empty_container : AppidContainer K V
  empty_container = record { register = λ a. size_max; values = [] }

  -- `m_values[idx].second = v`.
  abbrev pub set_second : List (K × V) → ℕ → V → List (K × V)
  set_second [] i v = []
  set_second ((k, w) ∷ r) zero v = (k, v) ∷ r
  set_second ((k, w) ∷ r) (suc i) v = (k, w) ∷ set_second r i v

module _ {ℓ κ} {K : Type ℓ} {V : Type κ} ⦃key : Key K⦄ where
  matches : Option (K × V) → K → Bool
  matches none k = false
  matches (some (j, v)) k = key.beq j k

  -- The iterator as an index, none for `end()`. An index in range is one that `get_elem?` finds.
  unfoldable pub find : AppidContainer K V → K → Option ℕ
  unfolding matches
  find c k =
      let idx = c.register (key.appid k) in
      if ltb idx (length c.values) && matches (get_elem? c.values idx) k then some idx else none

  unfoldable pub insert : AppidContainer K V → K → V → AppidContainer K V
  insert c k v = record {
    register = λ a. if a == key.appid k then length c.values else c.register a;
    values = c.values ++ (k, v) ∷ [];
  }

  -- `operator[]`: the container, where it may have inserted `TValue()`, and the index that the
  -- reference points to.
  unfoldable pub subscript : V → AppidContainer K V → K → AppidContainer K V × ℕ
  unfolding insert
  subscript dflt c k =
      let idx = c.register (key.appid k) in
      let c' = insert c k dflt in
      if ltb idx (length c.values) then (c, idx) else (c', c'.register (key.appid k))

  -- `map[k] = v`.
  unfoldable pub assign : V → AppidContainer K V → K → V → AppidContainer K V
  unfolding subscript
  assign dflt c k v =
      let (c', idx) = subscript dflt c k in record c' { values = set_second c'.values idx v }

  -- The value that the iterator of `find` points to.
  abbrev second : Option (K × V) → Option V
  second none = none
  second (some (j, v)) = some v

  abbrev pub value_at : AppidContainer K V → Option ℕ → Option V
  value_at c none = none
  value_at c (some i) = second (get_elem? c.values i)

  unfoldable pub value_of : AppidContainer K V → K → Option V
  unfolding find
  value_of c k = value_at c (find c k)
