-- ===== src/Tests/Heap.antt =====
-- `UdmabufHeap` over a system whose state is the list of what the process holds.
use process_bus.Prelude.{
  ℕ, ◌≡◌, refl, sym, ap, ◌∙◌, arith, Bool, true, false, ◌&&◌, Option, none, some, List, [], ◌∷◌,
  ◌++◌, length, All, ◌==◌, ==_iff, if◌then◌else◌, Bool-cases, inl, inr,
}
use process_bus.Prelude.Failing.{M, Ends}
use process_bus.Stream.Passport.{bytes_eq, bytes_eq_iff}
use process_bus.Dpdk.UdmabufHeap.{
  Address, mapped, FilePath, size_file, phys_addr, Os, UdmabufHeap, construct, cleanup, add_heap,
}
use process_bus.Dpdk.UdmabufHeap.Strtoul.{strtoul}
use process_bus.Dpdk.UdmabufHeap.Resources.{
  Resource, stream, descriptor, mapping, heap_of, memory, element, NotIn, Lacks, Without, Same,
  IsOs,
}
use process_bus.Dpdk.UdmabufHeap.Raii.{owned, Owns, construct-Ends, construct-cleanup}

abbrev matches : Resource → Resource → Bool
matches (stream f) (stream g) = f == g
matches (descriptor f) (descriptor g) = f == g
matches (mapping a s) (mapping b t) = a == b && s == t
matches (heap_of h) (heap_of k) = bytes_eq h k
matches r x = false

abbrev in_heap : List ℕ → Resource → Bool
in_heap heap (memory other a size pages page) = bytes_eq heap other
in_heap heap (element other at) = bytes_eq heap other
in_heap heap x = false

abbrev remove : (Resource → Bool) → List Resource → List Resource
remove test [] = []
remove test (x ∷ xs) = let rest = remove test xs in if test x then xs else x ∷ rest

abbrev has_none : (Resource → Bool) → List Resource → Bool
has_none test [] = true
has_none test (x ∷ xs) = let rest = has_none test xs in if test x then false else rest

remove_first :
    (test : Resource → Bool) (r : Resource) (front back : List Resource)
    → test r ≡ true
    → All (λ x. test x ≡ false) front
    → remove test (front ++ r ∷ back) ≡ front ++ back
remove_first test r [] back e h = rw e refl
remove_first test r (x ∷ front) back e (h, hs) =
    rw h (ap (λ xs. x ∷ xs) (remove_first test r front back e hs))

matches_eq : (r x : Resource) → matches r x ≡ true → x ≡ r
matches_eq (stream f) (stream g) e = ap stream (sym ((==_iff f g).0 e))
matches_eq (descriptor f) (descriptor g) e = ap descriptor (sym ((==_iff f g).0 e))
matches_eq (mapping a s) (mapping b t) e =
    let same : (a ≡ b) × (s ≡ t) = ground arith in rw (same.0, same.1) refl
matches_eq (heap_of h) (heap_of k) e = ap heap_of (sym ((bytes_eq_iff h k).0 e))
matches_eq r x e = cc

Without-matches :
    (r : Resource) (xs : List Resource) → Without r xs → All (λ x. matches r x ≡ false) xs
Without-matches r [] h = tt
Without-matches r (x ∷ xs) (h, hs) = (
  elim (Bool-cases (matches r x)) [ inl e ↦ absurd (h (matches_eq r x e)) | inr e ↦ e ],
  Without-matches r xs hs,
)

NotIn-in_heap : (heap : List ℕ) (x : Resource) → NotIn heap x → in_heap heap x ≡ false
NotIn-in_heap heap (memory other a size pages page) h = elim (Bool-cases (bytes_eq heap other)) [
  | inl e ↦ absurd (h ((bytes_eq_iff heap other).0 e))
  | inr e ↦ e
]
NotIn-in_heap heap (element other at) h = elim (Bool-cases (bytes_eq heap other)) [
  | inl e ↦ absurd (h ((bytes_eq_iff heap other).0 e))
  | inr e ↦ e
]
NotIn-in_heap heap x h = refl

Lacks-in_heap :
    (heap : List ℕ) (xs : List Resource) → Lacks heap xs → All (λ x. in_heap heap x ≡ false) xs
Lacks-in_heap heap [] h = tt
Lacks-in_heap heap (x ∷ xs) (h, hs) = (NotIn-in_heap heap x h, Lacks-in_heap heap xs hs)

in_heap-NotIn : (heap : List ℕ) (x : Resource) → in_heap heap x ≡ false → NotIn heap x
in_heap-NotIn heap (memory other a size pages page) e =
    λ same. cc (rw (same, (bytes_eq_iff other other).1 refl) at e)
in_heap-NotIn heap (element other at) e =
    λ same. cc (rw (same, (bytes_eq_iff other other).1 refl) at e)
in_heap-NotIn heap x e = tt

has_none-Lacks :
    (heap : List ℕ) (xs : List Resource) → has_none (in_heap heap) xs ≡ true → Lacks heap xs
has_none-Lacks heap [] e = tt
has_none-Lacks heap (x ∷ xs) e = elim (Bool-cases (in_heap heap x)) [
  | inl there ↦ cc (rw there at e)
  | inr gone ↦ (in_heap-NotIn heap x gone, has_none-Lacks heap xs (rw gone at e))
]

-- A file is its stream: 1 has the size 8192, 2 the address 0x40000000.
abbrev stream_of : FilePath → ℕ
stream_of (size_file n) = 1
stream_of (phys_addr n) = 2
stream_of p = 0

abbrev text_of : ℕ → List ℕ
text_of f =
    if f == 1
    then 56 ∷ 49 ∷ 57 ∷ 50 ∷ 10 ∷ []
    else if f == 2
    then 48 ∷ 120 ∷ 52 ∷ 48 ∷ 48 ∷ 48 ∷ 48 ∷ 48 ∷ 48 ∷ 48 ∷ 10 ∷ []
    else []

abbrev created : List ℕ → List Resource → Bool → Option (Unit {0}) × List Resource
created heap w true = (some tt, heap_of heap ∷ w)
created heap w false = (none, w)

abbrev added : List ℕ → Address → ℕ → List ℕ → ℕ → M (List Resource) (Unit {0})
added heap (mapped a) size pages page w = (some tt, memory heap a size pages page ∷ w)
added heap _ size pages page w = (none, w)

abbrev unmapped : Address → ℕ → List Resource → List Resource
unmapped (mapped a) size w = remove (matches (mapping a size)) w
unmapped _ size w = w

-- `socket` is the answer for the socket of the heap.
abbrev system : Option ℕ → Os (List Resource)
system socket = record {
  fopen = λ p writing w. (some (stream_of p), stream (stream_of p) ∷ w);
  fwrite = λ f text w. (length text, w);
  fread = λ f n w. (text_of f, w);
  fclose = λ f. remove (matches (stream f));
  open_device = λ p w. (some 5, descriptor 5 ∷ w);
  close = λ fd. remove (matches (descriptor fd));
  mmap = λ size fd w. (mapped 65536, mapping 65536 size ∷ w);
  munmap = unmapped;
  page_size = 4096;
  heap_create = λ heap w. created heap w (has_none (in_heap heap) w);
  memory_add = λ heap a size pages n page w. added heap a size pages page w;
  memory_remove = λ heap a size. remove (in_heap heap);
  heap_destroy = λ heap. remove (matches (heap_of heap));
  get_socket = λ heap w. (socket, w);
}

abbrev held : List Resource → List Resource
held w = w

removes :
    (r : Resource) (w front back : List Resource)
    → matches r r ≡ true
    → Without r front
    → w ≡ front ++ r ∷ back
    → remove (matches r) w ≡ front ++ back
removes r w front back self h e =
    ap (remove (matches r)) e
    ∙ remove_first (matches r) r front back self (Without-matches r front h)

created-Ends :
    (heap : List ℕ) (w : List Resource) (free : Bool)
    → has_none (in_heap heap) w ≡ free
    → Ends (λ _ w'. (w' ≡ heap_of heap ∷ w) × Lacks heap w) (λ w'. w' ≡ w) (created heap w free)
created-Ends heap w true e = (refl, has_none-Lacks heap w e)
created-Ends heap w false e = refl

socket-Ends :
    (socket : Option ℕ) (w : List Resource) → Ends (λ _ w'. w' ≡ w) (λ w'. w' ≡ w) (socket, w)
socket-Ends none w = refl
socket-Ends (some n) w = refl

system-IsOs : (socket : Option ℕ) → IsOs held (system socket)
system-IsOs socket = record {
  fopen_takes = λ p writing w. refl;
  fwrite_keeps = λ f text w. refl;
  fread_keeps = λ f n w. refl;
  fclose_frees = λ f w front back h e. removes (stream f) w front back ((==_iff f f).1 refl) h e;
  open_takes = λ p w. refl;
  close_frees =
      λ fd w front back h e. removes (descriptor fd) w front back ((==_iff fd fd).1 refl) h e;
  mmap_takes = λ size fd w. refl;
  munmap_frees =
      λ a size w front back h e. removes (mapping a size) w front back (ground arith) h e;
  heap_takes = λ heap w. created-Ends heap w _ refl;
  heap_frees = λ heap w front back lf lb h e.
      removes (heap_of heap) w front back ((bytes_eq_iff heap heap).1 refl) h e;
  memory_takes = λ heap a size pages n page w count whole. refl;
  memory_frees = λ heap a size page pages w front back h hb e.
      ap (remove (in_heap heap)) e
      ∙ remove_first (in_heap heap) (memory heap a size pages page) front back
          ((bytes_eq_iff heap heap).1 refl) (Lacks-in_heap heap front h);
  socket_keeps = λ heap w. socket-Ends socket w;
}

abbrev name : List ℕ
name = 117 ∷ 48 ∷ []

abbrev heap : List ℕ
heap = 104 ∷ []

-- The process holds another heap before.
abbrev before : List Resource
before = heap_of (103 ∷ []) ∷ descriptor 3 ∷ []

-- DPDK does not find the socket, and all is undone.
construct-Ends_example :
    Ends
      (λ o w'. (o.name ≡ name) × (o.heap ≡ heap) × Owns (system none) held before o w')
      (Same held before)
      (construct (system none) name heap before)
construct-Ends_example = construct-Ends (system none) held (system-IsOs none) name heap before

abbrev made : UdmabufHeap
made = record {
  name = name;
  heap = heap;
  fd = some 5;
  va = mapped 65536;
  size = 8192;
  iova = 0x40000000;
  socket_id = some 9;
  heap_created = true;
  memory_added = true;
}

abbrev both_pages : List ℕ
both_pages = 0x40000000 ∷ 0x40001000 ∷ []

-- A stream is opened before the destructor runs, and another heap has a ring.
abbrev since : List Resource
since = stream 8 ∷ element (103 ∷ []) 4096 ∷ []

abbrev later : List Resource
later = since ++ owned 4096 both_pages made 5 65536 before

constructs :
    construct (system (some 9)) name heap before
    ≡ (some made, owned 4096 both_pages made 5 65536 before)
unfolding construct add_heap cleanup strtoul
constructs = refl

construct-cleanup_example :
    (held (cleanup (system (some 9)) (made, later)).1 ≡ since ++ before)
    × (cleanup (system (some 9)) (cleanup (system (some 9)) (made, later))
        ≡ cleanup (system (some 9)) (made, later))
construct-cleanup_example =
    construct-cleanup (system (some 9)) held (system-IsOs (some 9)) name heap made both_pages 5
      65536 since before before (owned 4096 both_pages made 5 65536 before) later constructs refl
      refl
      (
        has_none-Lacks heap since refl,
        ((λ e. cc), ((λ e. cc), tt)),
        ((λ e. cc), ((λ e. cc), tt)),
        ((λ e. cc), ((λ e. cc), tt)),
      )
      (tt, (tt, tt)) refl
