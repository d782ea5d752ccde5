-- ===== src/Generator/Burst/Stages.antt =====
-- What the staging loop and the fire loop of a second leave.
use process_bus.Prelude.{
  ℕ, zero, suc, ◌≤◌, ◌≡◌, refl, sym, ap, ◌∙◌, arith, true, List, [], ◌∷◌, ◌++◌, length, length-drop,
  append-take-drop, take, drop,
}
use mathlib.Core.List.{append_assoc}
use process_bus.Generator.Sender.{accepted, burst_size, amend_all}
use process_bus.Generator.Sender.Accounts.{amend_all-append}
use process_bus.Generator.Burst.{Alloc, alloc_failed, allocated, fire, stage}

-- How many allocations succeed, and how many rounds of the fire loop find any room.
abbrev pub grants : List Alloc → ℕ
grants [] = 0
grants (alloc_failed ∷ allocs) = grants allocs
grants (allocated ∷ allocs) = suc (grants allocs)

abbrev pub serves : List ℕ → ℕ
serves [] = 0
serves (zero ∷ rooms) = serves rooms
serves (suc n ∷ rooms) = suc (serves rooms)

-- A round that finds room for some packets takes some, and one that finds none takes none.
accepted-some : (n k : ℕ) → 1 ≤ accepted (suc n) (suc k)
accepted-some n k = ground arith

accepted-none : (k : ℕ) → accepted zero (suc k) ≡ 0
accepted-none k = ground arith

module _ {P : Type 0} where
  pub fire-append :
      (rooms : List ℕ) (ms : List P) (r : ℕ) → (fire rooms ms r).0 ++ (fire rooms ms r).1 ≡ ms
  unfolding fire
  fire-append rooms [] r = refl
  fire-append [] (m ∷ ms) r = refl
  fire-append (room ∷ rooms) (m ∷ ms) r =
      let nb : ℕ = accepted room (length (take burst_size (m ∷ ms))) in
      append_assoc (take nb (m ∷ ms)) _ _
      ∙ ap (λ xs. take nb (m ∷ ms) ++ xs) (fire-append rooms (drop nb (m ∷ ms)) _)
      ∙ append-take-drop nb (m ∷ ms)

  pub fire_all :
      (rooms : List ℕ) (ms : List P) (r : ℕ) → length ms ≤ serves rooms → (fire rooms ms r).1 ≡ []
  unfolding fire
  fire_all rooms [] r enough = refl
  fire_all [] (m ∷ ms) r enough = absurd (omega (arith, enough))
  fire_all (zero ∷ rooms) (m ∷ ms) r enough =
      let nb : ℕ = accepted zero (length (take burst_size (m ∷ ms))) in
      fire_all rooms (drop nb (m ∷ ms)) _ (omega (arith, enough, length-drop nb (m ∷ ms)))
  fire_all (suc n ∷ rooms) (m ∷ ms) r enough =
      let nb : ℕ = accepted (suc n) (length (take burst_size (m ∷ ms))) in
      let some_room = accepted-some n (length (take 31 ms)) in
      fire_all rooms (drop nb (m ∷ ms)) _
        (omega (arith, enough, length-drop nb (m ∷ ms), some_room))

module _ {G P : Type 0} (amend : G → ℕ → G × P) where
  -- To stage a chunk and then the rest is to stage both.
  pub amend_all-chunk :
      (ds : List ℕ) (g : G)
      → amend_all amend ds g ≡ (
          let (g1, ps) = amend_all amend (take burst_size ds) g in
          let (g2, qs) = amend_all amend (drop burst_size ds) g1 in (g2, ps ++ qs))
  amend_all-chunk ds g =
      ap (λ xs. amend_all amend xs g) (sym (append-take-drop burst_size ds))
      ∙ amend_all-append amend (take burst_size ds) (drop burst_size ds) g

  pub stage_all :
      (allocs : List Alloc) (ds : List ℕ) (g : G)
      → length ds ≤ grants allocs
      → stage amend allocs ds g ≡ ((amend_all amend ds g).0, (amend_all amend ds g).1, true)
  unfolding stage
  stage_all allocs [] g enough = refl
  stage_all [] (d ∷ ds) g enough = absurd (omega (arith, enough))
  stage_all (alloc_failed ∷ allocs) (d ∷ ds) g enough = stage_all allocs (d ∷ ds) g enough
  stage_all (allocated ∷ allocs) (d ∷ ds) g enough =
      let (g1, ps) = amend_all amend (take burst_size (d ∷ ds)) g in
      let rest =
        stage_all allocs (drop burst_size (d ∷ ds)) g1 (omega (arith, enough, length-drop 31 ds)) in
      ap (λ r. (r.0, ps ++ r.1, r.2)) rest
      ∙ ap (λ r. (r.0, r.1, true)) (sym (amend_all-chunk (d ∷ ds) g))

  pub length-amend_all : (ds : List ℕ) (g : G) → length (amend_all amend ds g).1 ≡ length ds
  unfolding amend_all
  length-amend_all [] g = refl
  length-amend_all (d ∷ ds) g = ap suc (length-amend_all ds (amend g d).0)
