-- ===== src/Dpdk/UdmabufHeap/Resources.antt =====
-- What a process holds of the system and of DPDK, and what their documents promise of the calls that
-- take and give it back.
use process_bus.Prelude.{ℕ, ◌*◌, ◌≡◌, ◌≢◌, Bool, List, ◌∷◌, ◌++◌, length, All}
use process_bus.Prelude.Failing.{M, Ends}
use process_bus.Dpdk.UdmabufHeap.{Address, null, map_failed, mapped, FilePath, Os}

-- A memory of a heap has the addresses of its pages and their size; an element is what is allocated
-- from a heap, as a descriptor ring, at its address.
pub data Resource : Type 0 where
  stream descriptor : ℕ → Resource
  mapping : ℕ → ℕ → Resource
  heap_of : List ℕ → Resource
  memory : List ℕ → ℕ → ℕ → List ℕ → ℕ → Resource
  element : List ℕ → ℕ → Resource

-- Neither a memory of the heap nor an element of it.
abbrev pub NotIn : List ℕ → Resource → Type 0
NotIn heap (memory other va size pages page) = heap ≢ other
NotIn heap (element other at) = heap ≢ other
NotIn heap _ = Unit {0}

abbrev pub Lacks : List ℕ → List Resource → Type 0
Lacks heap rs = All (NotIn heap) rs

abbrev pub Without : Resource → List Resource → Type 0
Without r rs = All (λ x. x ≢ r) rs

-- None of these resources of an object is among `rs`.
abbrev pub Foreign : List ℕ → ℕ → ℕ → ℕ → List Resource → Type 0
Foreign heap fd a size rs =
    Lacks heap rs
    × Without (heap_of heap) rs
    × Without (mapping a size) rs
    × Without (descriptor fd) rs

module _ {W : Type 0} (holds : W → List Resource) where
  abbrev pub Same : W → W → Type 0
  Same w w' = holds w' ≡ holds w

  -- A call that takes the resource of its answer.
  abbrev pub Takes : {A : Type 0} → (A → Resource) → M W A → Type 0
  Takes r m = (w : W) → Ends (λ a w'. holds w' ≡ r a ∷ holds w) (Same w) (m w)

  -- A call that gives the resource back, whatever other resource was taken since.
  abbrev pub Frees : Resource → (W → W) → Type 0
  Frees r f =
      (w : W) (front back : List Resource)
      → Without r front
      → holds w ≡ front ++ r ∷ back
      → holds (f w) ≡ front ++ back

  abbrev pub Maps : ℕ → W → Address → W → Type 0
  Maps size w null w' = ⊥
  Maps size w map_failed w' = Same w w'
  Maps size w (mapped a) w' = holds w' ≡ mapping a size ∷ holds w

  pub record IsOs (os : Os W) : Type 0 where
    pub fopen_takes : (path : FilePath) (writing : Bool) → Takes stream (os.fopen path writing)
    pub fwrite_keeps : (f : ℕ) (text : List ℕ) (w : W) → Same w (os.fwrite f text w).1
    pub fread_keeps : (f n : ℕ) (w : W) → Same w (os.fread f n w).1
    pub fclose_frees : (f : ℕ) → Frees (stream f) (os.fclose f)
    pub open_takes : (path : FilePath) → Takes descriptor (os.open_device path)
    pub close_frees : (fd : ℕ) → Frees (descriptor fd) (os.close fd)
    pub mmap_takes : (size fd : ℕ) (w : W) → Maps size w (os.mmap size fd w).0 (os.mmap size fd w).1
    pub munmap_frees : (a size : ℕ) → Frees (mapping a size) (os.munmap (mapped a) size)
    -- The name of a heap is not in use.
    pub heap_takes :
        (heap : List ℕ) (w : W)
        → Ends
            (λ _ w'. (holds w' ≡ heap_of heap ∷ holds w) × Lacks heap (holds w))
            (Same w)
            (os.heap_create heap w)
    -- A heap that has a memory or an allocated element is not destroyed.
    pub heap_frees :
        (heap : List ℕ) (w : W) (front back : List Resource)
        → Lacks heap front
        → Lacks heap back
        → Without (heap_of heap) front
        → holds w ≡ front ++ heap_of heap ∷ back
        → holds (os.heap_destroy heap w) ≡ front ++ back
    -- The pages of a memory fill it.
    pub memory_takes :
        (heap : List ℕ) (a size : ℕ) (pages : List ℕ) (n page : ℕ) (w : W)
        → length pages ≡ n
        → n * page ≡ size
        → Ends
            (λ _ w'. holds w' ≡ memory heap a size pages page ∷ holds w)
            (Same w)
            (os.memory_add heap (mapped a) size pages n page w)
    -- A memory with an allocated element is not removed; here it is the only memory of its heap.
    pub memory_frees :
        (heap : List ℕ) (a size page : ℕ) (pages : List ℕ) (w : W) (front back : List Resource)
        → Lacks heap front
        → Lacks heap back
        → holds w ≡ front ++ memory heap a size pages page ∷ back
        → holds (os.memory_remove heap (mapped a) size w) ≡ front ++ back
    pub socket_keeps :
        (heap : List ℕ) (w : W) → Ends (λ _ w'. Same w w') (Same w) (os.get_socket heap w)
