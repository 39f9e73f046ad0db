-- ===== src/ShmAlloc.antt =====
-- libckits/shmAlloc.c: blocks with reference counts in a piece of shared memory, which several
-- processes map at different addresses. A node of the free list is its offset from the start of the
-- memory, 0 for none; `size_at` is the memory of the headers' `size` fields, whose two low bits count
-- references. The macros on sizes are those of PoolAlloc. The links of a free block are the first
-- bytes of its data; the list stands for them, and where they would be written beyond the block, over
-- the header behind it, the model stops, `none`. The prints are left out.
pub mod Tiles
pub mod Walk
pub mod Largest
pub mod Spare
pub mod Counts
pub mod Owners
pub mod Release
pub mod Grants
pub mod Pointers
mod Tests
use mcuproxy.Prelude.{
  ℕ, ◌+◌, ◌-◌, ◌*◌, ◌/◌, ◌%◌, ◌^◌, Bool, true, false, not, ◌||◌, ◌&&◌, List, [], ◌∷◌, Option, none,
  some, ltb, leb, ◌==◌, if◌then◌else◌,
}
use mcuproxy.Prelude.Int.{ℤ, pos, negsuc}
use mcuproxy.PoolAlloc.Cover.{has}
use mcuproxy.PoolAlloc.{link_bytes, put_size, to_effect, to_pool, unlink}

-- `address` is the handle: where the memory is mapped.
pub record ShmAlloc : Type 0 where
  pub address : ℕ
  pub free_parts : List ℕ
  pub candidate : ℕ
  pub magic_flag : ℕ
  pub chunk_size : ℕ
  pub size_at : ℕ → ℕ

abbrev pub const_magic_flag : ℕ
const_magic_flag = 0xAA55AA55

-- `sizeof(shm_alloc_t)`, where the first node stands.
abbrev pub head_size : ℕ
head_size = 20

unfoldable pub align_4bytes : ℕ → ℕ
align_4bytes x = (x + 3) % 2 ^ 32 / 4 * 4

-- The two parts of a `size` field.
unfoldable pub real_size : ℕ → ℕ
real_size size = size / 4 * 4

unfoldable pub references : ℕ → ℕ
references size = size % 4

-- The guard that every call starts with.
abbrev pub is_invalid : ShmAlloc → Bool
is_invalid info = (info.chunk_size == 0) || not (info.magic_flag == const_magic_flag)

-- `found` is what the memory holds. With the flag in place it is taken over as it is.
unfoldable pub init_shm_allocator : ℕ → ℕ → ShmAlloc → Option ShmAlloc
init_shm_allocator mem_start chunk_size found =
    let aligned = align_4bytes mem_start in
    let size = mem_start + chunk_size - (aligned + head_size) in
    if (mem_start == 0) || leb chunk_size (to_pool 0 + head_size)
    then none
    else if leb (mem_start + chunk_size) (aligned + head_size)
    then none
    else if found.magic_flag == const_magic_flag
    then some (record found { address = aligned })
    else some (record {
      address = aligned;
      free_parts = [];
      candidate = head_size;
      magic_flag = const_magic_flag;
      chunk_size = size;
      size_at = put_size found.size_at head_size (to_effect size);
    })

unfoldable pub uninit_shm_allocator : Option ShmAlloc → ℤ × Option ShmAlloc
uninit_shm_allocator none = (negsuc 0, none)
uninit_shm_allocator (some info) =
    if is_invalid info
    then (negsuc 0, some info)
    else (pos 0, some (record info { magic_flag = 2 ^ 32 - 1 - const_magic_flag }))

-- Behind the loop of `shm_recycle`: `cur` is linked in front of `nodes`, unless it is part of a node
-- that is linked already, and takes in the first of `nodes` if that starts where `cur` ends.
unfoldable pub link_right : (ℕ → ℕ) → ℕ → Bool → List ℕ → (ℕ → ℕ) × List ℕ
link_right sizes cur linked [] = (sizes, if linked then [] else cur ∷ [])
link_right sizes cur linked (node ∷ nodes) =
    if cur + to_pool (sizes cur) == node
    then (
      put_size sizes cur ((sizes cur + to_pool (sizes node)) % 2 ^ 32),
      if linked then nodes else cur ∷ nodes,
    )
    else (sizes, if linked then node ∷ nodes else cur ∷ node ∷ nodes)

-- The loop of `shm_recycle` over the free list, up to the first node behind `cur`; a node that ends
-- where `cur` starts takes it in and is `cur` from then on.
unfoldable pub link_node : (ℕ → ℕ) → ℕ → Bool → List ℕ → (ℕ → ℕ) × List ℕ
link_node sizes cur linked [] = link_right sizes cur linked []
link_node sizes cur linked (node ∷ nodes) =
    let join = node + to_pool (sizes node) == cur in
    let grown = put_size sizes node ((sizes node + to_pool (sizes cur)) % 2 ^ 32) in
    let (sizes', nodes') =
      link_node (if join then grown else sizes) (if join then node else cur)
        (if join then true else linked) nodes in
    if ltb cur node then link_right sizes cur linked (node ∷ nodes) else (sizes', node ∷ nodes')

unfoldable pub relink : ShmAlloc → ℕ → ShmAlloc
relink al cur =
    let (sizes, nodes) = link_node al.size_at cur false al.free_parts in
    record al { free_parts = nodes; size_at = sizes }

-- The links are written before `cur` takes in the node behind it, and not at all if `cur` is taken in
-- itself.
unfoldable pub shm_recycle : ShmAlloc → ℕ → Option ShmAlloc
shm_recycle al cur =
    if has cur (relink al cur).free_parts && ltb (al.size_at cur) link_bytes
    then none
    else some (relink al cur)

-- The loop of `shm_harvest`: the first node of the largest size above `max_size`, or `cur`.
unfoldable pub largest : (ℕ → ℕ) → ℕ → ℕ → List ℕ → ℕ
largest sizes max_size cur [] = cur
largest sizes max_size cur (node ∷ nodes) =
    let more = ltb max_size (sizes node) in
    largest sizes (if more then sizes node else max_size) (if more then node else cur) nodes

unfoldable pub shm_harvest : ShmAlloc → ShmAlloc
shm_harvest al =
    let cur = largest al.size_at 0 0 al.free_parts in
    if cur == 0
    then record al { candidate = 0 }
    else record al { free_parts = unlink cur al.free_parts; candidate = cur }

-- The candidate is given out, and what it has too much stays the candidate.
unfoldable pub carve : ShmAlloc → ℕ → ShmAlloc
carve al size =
    let node = al.candidate in
    let aligned = align_4bytes size in
    let cur = node + 4 + aligned in
    let left = to_effect (al.size_at node - aligned) in
    if ltb ((aligned + 12) % 2 ^ 32) (al.size_at node)
    then record al {
      candidate = cur;
      size_at = put_size (put_size al.size_at cur left) node aligned;
    }
    else record al { candidate = 0 }

-- The offset of the memory behind the candidate's header, if it is large enough; else 0.
unfoldable pub try_candidate : ShmAlloc → ℕ → ℕ × ShmAlloc
try_candidate al size =
    if (al.candidate == 0) || ltb (al.size_at al.candidate) size
    then (0, al)
    else (al.candidate + 4, carve al size)

-- The candidate is put on the free list, and the largest block is the next one.
unfoldable pub change_candidate : ShmAlloc → Option ShmAlloc
change_candidate al = elim (shm_recycle (record al { candidate = 0 }) al.candidate) [
  | none ↦ none
  | some al' ↦ some (shm_harvest al')
]

-- The loop of `shm_malloc` with `health` set has at most two rounds.
unfoldable pub malloc_rounds : ShmAlloc → ℕ → Option (ℕ × ShmAlloc)
malloc_rounds al size =
    if al.candidate == 0
    then some (try_candidate (shm_harvest al) size)
    else if ltb (al.size_at al.candidate) size
    then elim (change_candidate al) [ none ↦ none | some al' ↦ some (try_candidate al' size) ]
    else some (try_candidate al size)

-- A pointer, 0 for NULL.
abbrev pub to_pointer : ℕ → ℕ → ℕ
to_pointer address offset = if offset == 0 then 0 else address + offset

unfoldable pub shm_malloc : Option ShmAlloc → ℕ → Option (ℕ × Option ShmAlloc)
shm_malloc none size = some (0, none)
shm_malloc (some info) size =
    if is_invalid info || (size == 0) then some (0, some info) else elim (malloc_rounds info size) [
      | none ↦ none
      | some (offset, info') ↦ some (to_pointer info.address offset, some info')
    ]

-- `mem` is not the memory of a block, by the tests of the code.
abbrev pub is_foreign : ShmAlloc → ℕ → Bool
is_foreign info mem =
    (mem == 0)
    || leb (info.address + head_size + info.chunk_size) mem
    || ltb mem info.address
    || ltb info.chunk_size (real_size (info.size_at (mem - 4 - info.address)))

unfoldable pub shm_add_reference : Option ShmAlloc → ℕ → ℤ × Option ShmAlloc
shm_add_reference none mem = (negsuc 0, none)
shm_add_reference (some info) mem =
    let cur = mem - 4 - info.address in
    let size = info.size_at cur in
    if is_invalid info || is_foreign info mem
    then (negsuc 0, some info)
    else if leb (real_size size + 3) size
    then (negsuc 0, some info)
    else (pos 0, some (record info { size_at = put_size info.size_at cur (size + 1) }))

unfoldable pub shm_free : Option ShmAlloc → ℕ → Option (Option ShmAlloc)
shm_free none mem = some none
shm_free (some info) mem =
    let cur = mem - 4 - info.address in
    let size = info.size_at cur in
    if is_invalid info || is_foreign info mem
    then some (some info)
    else if not (references size == 0)
    then some (some (record info { size_at = put_size info.size_at cur (size - 1) }))
    else elim (shm_recycle info cur) [ none ↦ none | some info' ↦ some (some info') ]

unfoldable pub shm_offset : Option ShmAlloc → ℕ → ℕ
shm_offset none mem = 0xFFFFFFFF
shm_offset (some info) mem =
    if is_invalid info || (mem == 0) then 0xFFFFFFFF else (mem + 2 ^ 32 - info.address) % 2 ^ 32

unfoldable pub shm_pointer : Option ShmAlloc → ℕ → ℕ
shm_pointer none offset = 0
shm_pointer (some info) offset =
    if is_invalid info || leb (head_size + info.chunk_size) offset then 0 else info.address + offset
