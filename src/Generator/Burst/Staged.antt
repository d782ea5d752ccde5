-- ===== src/Generator/Burst/Staged.antt =====
-- What the staging loop of burst mode has staged when it ends.
use process_bus.Prelude.{
  ℕ, ◌≡◌, refl, sym, ap, ◌∙◌, Bool, true, List, [], ◌∷◌, ◌++◌, append-take-drop, take, drop,
}
use mathlib.Core.List.{append_assoc}
use process_bus.Generator.Sender.{burst_size, amend_all}
use process_bus.Generator.Sender.Accounts.{amend_all-append}
use process_bus.Generator.Burst.{Alloc, alloc_failed, allocated, stage}

triple_eq {ℓ κ μ} :
    {A : Type ℓ} {B : Type κ} {C : Type μ} (x y : A × B × C)
    → x.0 ≡ y.0
    → x.1 ≡ y.1
    → x.2 ≡ y.2
    → x ≡ y
triple_eq (a, b, c) (a', b', c') e f g = cc

module _ {G P : Type 0} (amend : G → ℕ → G × P) where
  -- What is staged is the first part of the plan.
  pub record Stages (ds : List ℕ) (g : G) (r : G × List P × Bool) : Type 0 where
    pub first : List ℕ
    pub others : List ℕ
    pub parts : first ++ others ≡ ds
    pub gen_same : r.0 ≡ (amend_all amend first g).0
    pub packets_same : r.1 ≡ (amend_all amend first g).1
    pub complete : r.2 ≡ true → first ≡ ds

  pub stage-Stages :
      (allocs : List Alloc) (ds : List ℕ) (g : G) → Stages ds g (stage amend allocs ds g)
  unfolding stage amend_all
  stage-Stages allocs [] g = record {
    first = [];
    others = [];
    parts = refl;
    gen_same = refl;
    packets_same = refl;
    complete = λ e. refl;
  }
  stage-Stages [] (d ∷ ds) g = record {
    first = [];
    others = d ∷ ds;
    parts = refl;
    gen_same = refl;
    packets_same = refl;
    complete = λ e. cc;
  }
  stage-Stages (alloc_failed ∷ allocs) (d ∷ ds) g = stage-Stages allocs (d ∷ ds) g
  stage-Stages (allocated ∷ allocs) (d ∷ ds) g =
      let chunk : List ℕ = take burst_size (d ∷ ds) in
      let g1 : G = (amend_all amend chunk g).0 in
      let rest = stage-Stages allocs (drop burst_size (d ∷ ds)) g1 in
      record {
        first = chunk ++ rest.first;
        others = rest.others;
        parts =
            append_assoc chunk rest.first rest.others
            ∙ rw rest.parts (append-take-drop burst_size (d ∷ ds));
        gen_same = rest.gen_same ∙ sym (ap (λ r. r.0) (amend_all-append amend chunk rest.first g));
        packets_same =
            ap (λ xs. (amend_all amend chunk g).1 ++ xs) rest.packets_same
            ∙ sym (ap (λ r. r.1) (amend_all-append amend chunk rest.first g));
        complete = λ e. rw (rest.complete e) (append-take-drop burst_size (d ∷ ds));
      }

  pub stage_complete :
      (allocs : List Alloc) (ds : List ℕ) (g : G)
      → (stage amend allocs ds g).2 ≡ true
      → stage amend allocs ds g ≡ ((amend_all amend ds g).0, (amend_all amend ds g).1, true)
  stage_complete allocs ds g e =
      let st = stage-Stages allocs ds g in
      let all = ap (λ xs. amend_all amend xs g) (st.complete e) in
      triple_eq _ _ (st.gen_same ∙ ap (λ q. q.0) all) (st.packets_same ∙ ap (λ q. q.1) all) e
