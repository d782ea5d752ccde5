-- ===== src/Dpdk/UdmabufHeap/Raii.antt =====
-- `UdmabufHeap` gives back what it took, on every path.
use process_bus.Prelude.{
  ℕ, zero, suc, ◌+◌, ◌*◌, ◌/◌, ◌%◌, ◌^◌, ◌<◌, ◌≡◌, ◌≢◌, refl, sym, ap, ◌∙◌, arith, true, not, ◌||◌,
  some, List, [], ◌∷◌, ◌++◌, length, get_elem?, ◌==◌, ==_iff,
}
use native.Mathlib.Nat.{add-zero, zero-add, mul_comm, div-add-mod}
use process_bus.Prelude.Failing.{Ends, Ends-bind, guard, guard-Ends}
use process_bus.Dpdk.UdmabufHeap.{
  mapped, device, Os, UdmabufHeap, new_heap, page_iovas, cleanup, construct, add_heap,
}
use process_bus.Dpdk.UdmabufHeap.Calls.{
  Takes-Ends, write_sysfs-Ends, read_u64-Ends, unmaps, destroys, map_device-Ends, takes_heap,
  undone-Ends,
}
use process_bus.Dpdk.UdmabufHeap.Resources.{
  Resource, descriptor, mapping, heap_of, memory, Lacks, Foreign, Same, IsOs,
}

-- What an object holds that has been constructed, the last resource first; `pages` are the addresses
-- of its memory.
abbrev pub owned : ℕ → List ℕ → UdmabufHeap → ℕ → ℕ → List Resource → List Resource
owned page pages o fd a rest =
    memory o.heap a o.size pages page ∷ heap_of o.heap ∷ mapping a o.size ∷ descriptor fd ∷ rest

length-page_iovas : (iova page i n : ℕ) → length (page_iovas iova page i n) ≡ n
length-page_iovas iova page i zero = refl
length-page_iovas iova page i (suc n) = ap suc (length-page_iovas iova page (i + 1) n)

page_iovas-from :
    (iova page i n k : ℕ)
    → k < n
    → get_elem? (page_iovas iova page i n) k ≡ some ((iova + (i + k) * page) % 2 ^ 64)
page_iovas-from iova page i zero k h = absurd (omega arith)
page_iovas-from iova page i (suc n) zero h = rw (add-zero i) refl
page_iovas-from iova page i (suc n) (suc k) h =
    page_iovas-from iova page (i + 1) n k (omega arith)
    ∙ ap (λ j. some ((iova + j * page) % 2 ^ 64)) (omega arith)

get_elem?-page_iovas :
    (iova page n k : ℕ)
    → k < n
    → get_elem? (page_iovas iova page 0 n) k ≡ some ((iova + k * page) % 2 ^ 64)
get_elem?-page_iovas iova page n k h =
    page_iovas-from iova page 0 n k h ∙ ap (λ j. some ((iova + j * page) % 2 ^ 64)) (zero-add k)

whole_pages : (size page : ℕ) → size % page ≡ 0 → size / page * page ≡ size
whole_pages size page e =
    mul_comm (size / page) page
    ∙ sym (add-zero (page * (size / page)))
    ∙ ap (λ r. page * (size / page) + r) (sym e)
    ∙ div-add-mod size page

abbrev object : List ℕ → List ℕ → ℕ → ℕ → ℕ → ℕ → UdmabufHeap
object name heap size iova fd a = record (new_heap name heap) {
  fd = some fd;
  va = mapped a;
  size = size;
  iova = iova;
}

abbrev complete : List ℕ → List ℕ → ℕ → ℕ → ℕ → ℕ → ℕ → UdmabufHeap
complete name heap size iova fd a socket = record (object name heap size iova fd a) {
  socket_id = some socket;
  heap_created = true;
  memory_added = true;
}

neither_zero : (a b : ℕ) → not (a == 0 || b == 0) ≡ true → (a ≢ 0) × (b ≢ 0)
neither_zero a b h = ground arith

module _ {W : Type 0} (os : Os W) (holds : W → List Resource) where
  abbrev Holding : List Resource → W → Type 0
  Holding rs w = holds w ≡ rs

  -- A constructed object: its fields, and what the process holds.
  pub record Owns (rs : List Resource) (o : UdmabufHeap) (w : W) : Type 0 where
    pub fd_at : ℕ
    pub va_at : ℕ
    pub socket : ℕ
    pub built : o ≡ complete o.name o.heap o.size o.iova fd_at va_at socket
    pub has_size : (o.size ≢ 0) × (o.iova ≢ 0)
    pub free_name : Lacks o.heap rs
    pub pages : List ℕ
    pub covers : length pages * os.page_size ≡ o.size
    pub page_at :
        (k : ℕ) → k < length pages → get_elem? pages k ≡ some ((o.iova + k * os.page_size) % 2 ^ 64)
    pub holding : holds w ≡ owned os.page_size pages o fd_at va_at rs

  built_at :
      (o : UdmabufHeap) (rs : List Resource) (w : W) (fd a : ℕ) (owns : Owns rs o w)
      → o.fd ≡ some fd
      → o.va ≡ mapped a
      → o ≡ complete o.name o.heap o.size o.iova fd a owns.socket
  built_at o rs w fd a owns d m =
      let d' = ap (λ (o : UdmabufHeap). o.fd) owns.built in
      let m' = ap (λ (o : UdmabufHeap). o.va) owns.built in
      let fd_same : owns.fd_at ≡ fd = cc in
      let at_same : owns.va_at ≡ a = cc in owns.built ∙ rw (fd_same, at_same) refl

  module _ (laws : IsOs holds os) where
    add_heap-Ends :
        (name heap : List ℕ) (size iova fd a : ℕ) (rs : List Resource) (w : W)
        → size ≢ 0
        → iova ≢ 0
        → holds w ≡ mapping a size ∷ descriptor fd ∷ rs
        → Ends
            (λ o w'. (o.name ≡ name) × (o.heap ≡ heap) × Owns rs o w')
            (Holding rs)
            (add_heap os (object name heap size iova fd a) w)
    unfolding add_heap cleanup
    add_heap-Ends name heap size iova fd a rs w s i e =
        let held : List Resource = mapping a size ∷ descriptor fd ∷ rs in
        Ends-bind (λ _ w'. Holding (heap_of heap ∷ held) w' × Lacks heap held) _ (Holding rs) _ _
          (undone-Ends os _ (Holding held) (Holding rs) (os.heap_create heap w) _
            (takes_heap os holds laws heap held w e)
            (λ w1 h1. unmaps os holds laws fd a size [] rs w1 tt tt h1))
          (λ _ w1 (h1, lacks).
            let l : Lacks heap rs = lacks.1.1 in
            Ends-bind
              (λ _ w'. ((size % os.page_size == 0) ≡ true) × Holding (heap_of heap ∷ held) w') _
              (Holding rs) _ _
              (undone-Ends os _ (Holding (heap_of heap ∷ held)) (Holding rs)
                (guard (size % os.page_size == 0) w1) _
                (guard-Ends (size % os.page_size == 0) (Holding (heap_of heap ∷ held)) w1 h1)
                (λ w2 h2. destroys os holds laws heap fd a size [] rs w2 (tt, tt, tt, tt) l h2))
              (λ _ w2 (even, h2).
                let n : ℕ = size / os.page_size in
                let pages : List ℕ = page_iovas iova os.page_size 0 n in
                let count : length pages ≡ n = length-page_iovas iova os.page_size 0 n in
                let whole : n * os.page_size ≡ size =
                  whole_pages size os.page_size ((==_iff _ _).0 even) in
                let all : List Resource =
                  memory heap a size pages os.page_size ∷ heap_of heap ∷ held in
                Ends-bind (λ _ w'. Holding all w') _ (Holding rs) _ _
                  (undone-Ends os _ (Holding (heap_of heap ∷ held)) (Holding rs)
                    (os.memory_add heap (mapped a) size pages n os.page_size w2) _
                    (rw (← h2) (laws.memory_takes heap a size pages _ os.page_size w2 count whole))
                    (λ w3 h3. destroys os holds laws heap fd a size [] rs w3 (tt, tt, tt, tt) l h3))
                  (λ _ w3 h3.
                    Ends-bind (λ _ w'. Holding all w')
                      (λ o w'. (o.name ≡ name) × (o.heap ≡ heap) × Owns rs o w') (Holding rs) _ _
                      (undone-Ends os _ (Holding all) (Holding rs) (os.get_socket heap w3) _
                        (rw (← h3) (laws.socket_keeps heap w3))
                        (λ w4 h4.
                          destroys os holds laws heap fd a size [] rs _ (tt, tt, tt, tt) l
                            (laws.memory_frees heap a size os.page_size pages w4 [] _ tt (tt, lacks)
                              h4)))
                      (λ socket w4 h4. (
                        refl,
                        refl,
                        record {
                          fd_at = fd;
                          va_at = a;
                          socket = socket;
                          built = refl;
                          has_size = (s, i);
                          free_name = l;
                          pages = pages;
                          covers = rw count whole;
                          page_at = λ k lt.
                              get_elem?-page_iovas iova os.page_size n k (omega (arith, lt, count));
                          holding = h4;
                        },
                      )))))

    -- The constructor either throws, and the process holds what it held before, or it makes an object
    -- with a region that is not empty, a device that is open and mapped, and a heap whose memory is the
    -- region in whole pages, page k of it at the region's physical address and k pages more, modulo
    -- 2^64; nothing else is taken, and no stream of a sysfs file is left.
    pub construct-Ends :
        (name heap : List ℕ) (w : W)
        → Ends
            (λ o w'. (o.name ≡ name) × (o.heap ≡ heap) × Owns (holds w) o w')
            (Same holds w)
            (construct os name heap w)
    unfolding construct
    construct-Ends name heap w =
        let rs : List Resource = holds w in
        Ends-bind (λ _ w'. Holding rs w') _ (Holding rs) _ _
          (write_sysfs-Ends os holds laws _ _ rs w refl)
          (λ _ w1 h1.
            Ends-bind (λ _ w'. Holding rs w') _ (Holding rs) _ _
              (read_u64-Ends os holds laws _ rs w1 h1)
              (λ size w2 h2.
                Ends-bind (λ _ w'. Holding rs w') _ (Holding rs) _ _
                  (read_u64-Ends os holds laws _ rs w2 h2)
                  (λ iova w3 h3.
                    Ends-bind (λ _ w'. (not (size == 0 || iova == 0) ≡ true) × Holding rs w') _
                      (Holding rs) _ _
                      (guard-Ends (not (size == 0 || iova == 0)) (Holding rs) w3 h3)
                      (λ _ w4 (sizes, h4).
                        Ends-bind (λ fd w'. Holding (descriptor fd ∷ rs) w') _ (Holding rs) _ _
                          (Takes-Ends os holds laws descriptor _ rs w4
                            (laws.open_takes (device name)) h4)
                          (λ fd w5 h5.
                            Ends-bind
                              (λ va w'.
                                (a : ℕ) × (va ≡ mapped a)
                                × Holding (mapping a size ∷ descriptor fd ∷ rs) w')
                              _ (Holding rs) _ _ (map_device-Ends os holds laws size fd rs w5 h5)
                              (λ va w6 (a, at, h6).
                                let (s, i) = neither_zero size iova sizes in
                                rw at (add_heap-Ends name heap size iova fd a rs w6 s i h6)))))))

    complete_cleanup :
        (o : UdmabufHeap) (page : ℕ) (pages : List ℕ) (fd a socket : ℕ) (front back : List Resource)
        (w : W)
        → o ≡ complete o.name o.heap o.size o.iova fd a socket
        → Foreign o.heap fd a o.size front
        → Lacks o.heap back
        → holds w ≡ front ++ owned page pages o fd a back
        → (holds (cleanup os (o, w)).1 ≡ front ++ back)
          × (cleanup os (cleanup os (o, w)) ≡ cleanup os (o, w))
    unfolding cleanup
    complete_cleanup o page pages fd a socket front back w built f b e = rw built (
      destroys os holds laws o.heap fd a o.size front back _ f b
          (laws.memory_frees o.heap a o.size page pages w front _ f.0 (tt, (tt, (tt, b))) e),
      refl,
    )

    -- The destructor of an object that the constructor made gives back what the constructor took, and
    -- nothing else, whatever else the process has taken or given back since, as long as the object's
    -- resources are still held, everything allocated from its heap has been freed and the heap has no
    -- memory from elsewhere; to clean up again does nothing.
    pub construct-cleanup :
        (name heap : List ℕ) (o : UdmabufHeap) (pages : List ℕ) (fd a : ℕ)
        (front back : List Resource) (w w1 w2 : W)
        → construct os name heap w ≡ (some o, w1)
        → o.fd ≡ some fd
        → o.va ≡ mapped a
        → Foreign o.heap fd a o.size front
        → Lacks o.heap back
        → holds w2 ≡ front ++ owned os.page_size pages o fd a back
        → (holds (cleanup os (o, w2)).1 ≡ front ++ back)
          × (cleanup os (cleanup os (o, w2)) ≡ cleanup os (o, w2))
    construct-cleanup name heap o pages fd a front back w w1 w2 made d m f b e =
        let (_, _, owns) = rw made at (construct-Ends name heap w) in
        complete_cleanup o os.page_size pages fd a owns.socket front back w2
          (built_at o _ _ fd a owns d m) f b e
