-- ===== src/Dpdk/UdmabufHeap.antt =====
-- src/dpdk_cpp/udmabuf_heap.hpp: `UdmabufHeap`, which maps a u-dma-buf region and hands it to DPDK as a
-- heap. The calls of the system and of DPDK, on a state `W` of theirs, are a parameter; the texts of
-- the exceptions are left out.
pub mod Strtoul
pub mod Resources
pub mod Calls
pub mod Raii
use process_bus.Prelude.{
  ℕ, zero, suc, ◌+◌, ◌*◌, ◌/◌, ◌%◌, ◌^◌, Bool, true, false, not, ◌&&◌, ◌||◌, Option, none, some,
  List, [], ◌∷◌, length, ◌==◌, if◌then◌else◌,
}
use process_bus.Prelude.Failing.{M, ◌>>=◌, ◌>>◌, proceed, pure, guard}
use process_bus.Dpdk.UdmabufHeap.Strtoul.{strtoul}

-- `m_va`: `nullptr`, `MAP_FAILED` or the address.
pub data Address : Type 0 where
  null map_failed : Address
  mapped : ℕ → Address

-- The files of a region: /sys/class/u-dma-buf/NAME/FILE and /dev/NAME.
pub data FilePath : Type 0 where
  sync_mode size_file phys_addr device : List ℕ → FilePath

-- What the class calls. A count that `fwrite` returns, and what `fread` puts in the buffer, are the
-- answers; a descriptor, a stream and a socket are `none` where the call fails.
pub record Os (W : Type 0) : Type 0 where
  pub fopen : FilePath → Bool → M W ℕ
  pub fwrite : ℕ → List ℕ → W → ℕ × W
  pub fread : ℕ → ℕ → W → List ℕ × W
  pub fclose : ℕ → W → W
  pub open_device : FilePath → M W ℕ
  pub close : ℕ → W → W
  pub mmap : ℕ → ℕ → W → Address × W
  pub munmap : Address → ℕ → W → W
  pub page_size : ℕ
  pub heap_create : List ℕ → M W (Unit {0})
  pub memory_add : List ℕ → Address → ℕ → List ℕ → ℕ → ℕ → M W (Unit {0})
  pub memory_remove : List ℕ → Address → ℕ → W → W
  pub heap_destroy : List ℕ → W → W
  pub get_socket : List ℕ → M W ℕ

pub record UdmabufHeap : Type 0 where
  pub name : List ℕ
  pub heap : List ℕ
  pub fd : Option ℕ
  pub va : Address
  pub size : ℕ
  pub iova : ℕ
  pub socket_id : Option ℕ
  pub heap_created : Bool
  pub memory_added : Bool

abbrev pub new_heap : List ℕ → List ℕ → UdmabufHeap
new_heap name heap = record {
  name = name;
  heap = heap;
  fd = none;
  va = null;
  size = 0;
  iova = 0;
  socket_id = none;
  heap_created = false;
  memory_added = false;
}

-- The loop that fills `iovas` from page `i` on.
abbrev pub page_iovas : ℕ → ℕ → ℕ → ℕ → List ℕ
page_iovas iova page i zero = []
page_iovas iova page i (suc n) = ((iova + i * page) % 2 ^ 64) ∷ page_iovas iova page (i + 1) n

module _ {W : Type 0} (os : Os W) where
  abbrev pub calling : {A : Type 0} → (W → A × W) → M W A
  calling f w = let (a, w1) = f w in (some a, w1)

  abbrev pub doing : (W → W) → M W (Unit {0})
  doing f w = (some tt, f w)

  abbrev pub read_u64 : FilePath → M W ℕ
  read_u64 path = do
    f ← os.fopen path false
    text ← calling (os.fread f 63)
    doing (os.fclose f)
    guard (not (length text == 0))
    pure (strtoul text)

  abbrev pub write_sysfs : FilePath → List ℕ → M W (Unit {0})
  write_sysfs path value = do
    f ← os.fopen path true
    n ← calling (os.fwrite f value)
    doing (os.fclose f)
    guard (n == length value)

  abbrev pub release_map : UdmabufHeap × W → UdmabufHeap × W
  release_map (o, w) = elim o.va [
    | mapped a ↦ (record o { va = null }, os.munmap (mapped a) o.size w)
    | _ ↦ (o, w)
  ]

  abbrev pub release_fd : UdmabufHeap × W → UdmabufHeap × W
  release_fd (o, w) = elim o.fd [
    | none ↦ (o, w)
    | some fd ↦ (record o { fd = none }, os.close fd w)
  ]

  -- `releaseMmap`.
  abbrev pub release_mmap : UdmabufHeap × W → UdmabufHeap × W
  release_mmap s = release_fd (release_map s)

  abbrev pub remove_memory : UdmabufHeap × W → UdmabufHeap × W
  remove_memory (o, w) =
      if o.memory_added
      then (record o { memory_added = false }, os.memory_remove o.heap o.va o.size w)
      else (o, w)

  abbrev pub destroy_heap : UdmabufHeap × W → UdmabufHeap × W
  destroy_heap (o, w) =
      if o.heap_created
      then (record o { heap_created = false }, os.heap_destroy o.heap w)
      else (o, w)

  abbrev pub forget_socket : UdmabufHeap × W → UdmabufHeap × W
  forget_socket (o, w) = (record o { socket_id = none }, w)

  -- `cleanup`, which is the destructor too.
  unfoldable pub cleanup : UdmabufHeap × W → UdmabufHeap × W
  cleanup s = forget_socket (release_mmap (destroy_heap (remove_memory s)))

  -- A call whose failure is followed by `undo` and the exception. An exception that leaves the
  -- constructor leaves no object behind.
  abbrev pub undone : {A : Type 0} → Option A × W → (W → W) → Option A × W
  undone (none, w) undo = (none, undo w)
  undone (some a, w) undo = (some a, w)

  abbrev pub or_undo : {A : Type 0} → M W A → (W → W) → M W A
  or_undo m undo w = undone (m w) undo

  abbrev pub or_close : ℕ → Address × W → Option Address × W
  or_close fd (null, w) = (some null, w)
  or_close fd (map_failed, w) = (none, os.close fd w)
  or_close fd (mapped a, w) = (some (mapped a), w)

  abbrev pub map_device : ℕ → ℕ → M W Address
  map_device size fd w = or_close fd (os.mmap size fd w)

  abbrev pub undo_map : UdmabufHeap → W → W
  undo_map o w = (release_mmap (o, w)).1

  abbrev pub undo_all : UdmabufHeap → W → W
  undo_all o w = (cleanup (o, w)).1

  -- From the heap's creation on.
  unfoldable pub add_heap : UdmabufHeap → M W UdmabufHeap
  unfolding cleanup
  add_heap o = do
    or_undo (os.heap_create o.heap) (undo_map o)
    let o1 = record o { heap_created = true }
    or_undo (guard (o.size % os.page_size == 0)) (undo_all o1)
    let pages = o.size / os.page_size
    or_undo
        (os.memory_add o.heap o.va o.size (page_iovas o.iova os.page_size 0 pages) pages
          os.page_size)
        (undo_all o1)
    let o2 = record o1 { memory_added = true }
    socket ← or_undo (os.get_socket o.heap) (undo_all o2)
    pure (record o2 { socket_id = some socket })

  -- The constructor.
  unfoldable pub construct : List ℕ → List ℕ → M W UdmabufHeap
  unfolding add_heap
  construct name heap = do
    write_sysfs (sync_mode name) (50 ∷ [])
    size ← read_u64 (size_file name)
    iova ← read_u64 (phys_addr name)
    guard (not (size == 0 || iova == 0))
    fd ← os.open_device (device name)
    va ← map_device size fd
    add_heap (record (new_heap name heap) { fd = some fd; va = va; size = size; iova = iova })
