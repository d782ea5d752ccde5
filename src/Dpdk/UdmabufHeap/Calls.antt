-- ===== src/Dpdk/UdmabufHeap/Calls.antt =====
-- The calls of `UdmabufHeap` one by one, and the pairs that it makes of them: what the process holds
-- afterwards.
use process_bus.Prelude.{
  ℕ, ◌≡◌, refl, ap, ◌∙◌, true, false, not, Option, none, some, List, [], ◌∷◌, ◌++◌, length, ◌==◌,
}
use process_bus.Prelude.Failing.{M, Ends, Ends-bind, pure, guard, guard_keeps}
use process_bus.Dpdk.UdmabufHeap.{
  Address, null, map_failed, mapped, FilePath, Os, read_u64, write_sysfs, undone, or_close,
  map_device,
}
use process_bus.Dpdk.UdmabufHeap.Strtoul.{strtoul}
use process_bus.Dpdk.UdmabufHeap.Resources.{
  Resource, stream, descriptor, mapping, heap_of, Lacks, Without, Foreign, Takes, Maps, IsOs,
}

module _ {W : Type 0} (os : Os W) where
  pub undone-Ends :
      {A : Type 0} (Q : A → W → Type 0) (E1 E : W → Type 0) (r : Option A × W) (undo : W → W)
      → Ends Q E1 r
      → ((w : W) → E1 w → E (undo w))
      → Ends Q E (undone os r undo)
  undone-Ends Q E1 E (none, w) undo h k = k w h
  undone-Ends Q E1 E (some a, w) undo h k = h

module _ {W : Type 0} (os : Os W) (holds : W → List Resource) (laws : IsOs holds os) where
  abbrev Holding : List Resource → W → Type 0
  Holding rs w = holds w ≡ rs

  pub Takes-Ends :
      {A : Type 0} (r : A → Resource) (m : M W A) (rs : List Resource) (w : W)
      → Takes holds r m
      → holds w ≡ rs
      → Ends (λ a w'. Holding (r a ∷ rs) w') (Holding rs) (m w)
  Takes-Ends r m rs w takes e = rw (← e) (takes w)

  pub write_sysfs-Ends :
      (path : FilePath) (value : List ℕ) (rs : List Resource) (w : W)
      → holds w ≡ rs
      → Ends (λ _ w'. Holding rs w') (Holding rs) (write_sysfs os path value w)
  write_sysfs-Ends path value rs w e =
      Ends-bind (λ f w'. Holding (stream f ∷ rs) w') _ (Holding rs) (os.fopen path true w) _
        (Takes-Ends stream (os.fopen path true) rs w (laws.fopen_takes path true) e)
        (λ f w1 h1.
          guard_keeps _ (Holding rs) _
            (laws.fclose_frees f _ [] rs tt (laws.fwrite_keeps f value w1 ∙ h1)))

  pub read_u64-Ends :
      (path : FilePath) (rs : List Resource) (w : W)
      → holds w ≡ rs
      → Ends (λ _ w'. Holding rs w') (Holding rs) (read_u64 os path w)
  read_u64-Ends path rs w e =
      Ends-bind (λ f w'. Holding (stream f ∷ rs) w') _ (Holding rs) (os.fopen path false w) _
        (Takes-Ends stream (os.fopen path false) rs w (laws.fopen_takes path false) e)
        (λ f w1 h1.
          let text : List ℕ = (os.fread f 63 w1).0 in
          Ends-bind (λ _ w'. Holding rs w') (λ _ w'. Holding rs w') (Holding rs)
            (guard (not (length text == 0)) (os.fclose f (os.fread f 63 w1).1))
            (λ _. pure (strtoul text))
            (guard_keeps _ (Holding rs) _
              (laws.fclose_frees f _ [] rs tt (laws.fread_keeps f 63 w1 ∙ h1)))
            (λ _ w2 h2. h2))

  pub unmaps :
      (fd a size : ℕ) (front back : List Resource) (w : W)
      → Without (mapping a size) front
      → Without (descriptor fd) front
      → holds w ≡ front ++ mapping a size ∷ descriptor fd ∷ back
      → holds (os.close fd (os.munmap (mapped a) size w)) ≡ front ++ back
  unmaps fd a size front back w m d e =
      laws.close_frees fd _ front back d (laws.munmap_frees a size w front _ m e)

  pub destroys :
      (heap : List ℕ) (fd a size : ℕ) (front back : List Resource) (w : W)
      → Foreign heap fd a size front
      → Lacks heap back
      → holds w ≡ front ++ heap_of heap ∷ mapping a size ∷ descriptor fd ∷ back
      → holds (os.close fd (os.munmap (mapped a) size (os.heap_destroy heap w))) ≡ front ++ back
  destroys heap fd a size front back w (l, h, m, d) b e =
      unmaps fd a size front back _ m d (laws.heap_frees heap w front _ l (tt, (tt, b)) h e)

  pub map_device-Ends :
      (size fd : ℕ) (rs : List Resource) (w : W)
      → holds w ≡ descriptor fd ∷ rs
      → Ends
          (λ va w'. (a : ℕ) × (va ≡ mapped a) × Holding (mapping a size ∷ descriptor fd ∷ rs) w')
          (Holding rs)
          (map_device os size fd w)
  map_device-Ends size fd rs w e = go (os.mmap size fd w) (laws.mmap_takes size fd w)
    where
      go :
          (r : Address × W)
          → Maps holds size w r.0 r.1
          → Ends
              (λ va w'.
                (a : ℕ) × (va ≡ mapped a) × Holding (mapping a size ∷ descriptor fd ∷ rs) w')
              (Holding rs)
              (or_close os fd r)
      go (null, w1) h = absurd h
      go (map_failed, w1) h = laws.close_frees fd w1 [] rs tt (h ∙ e)
      go (mapped a, w1) h = (a, refl, h ∙ ap (λ held. mapping a size ∷ held) e)

  pub takes_heap :
      (heap : List ℕ) (rs : List Resource) (w : W)
      → holds w ≡ rs
      → Ends
          (λ _ w'. Holding (heap_of heap ∷ rs) w' × Lacks heap rs)
          (Holding rs)
          (os.heap_create heap w)
  takes_heap heap rs w e = rw (← e) (laws.heap_takes heap w)
