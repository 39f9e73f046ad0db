-- ===== src/PoolAlloc.antt =====
-- libckits/myAlloc.c: the pool allocator, which hands out blocks of any size from a chunk. A block
-- is the address of its header; `size_at` is the memory of the headers' `size` fields. The links of
-- a free block are the first bytes of its data; the list stands for them, and where they would be
-- written beyond the block, over another header or outside the chunk, the model stops, `none`. A
-- part that is split off always has room for them. The list head stands in the allocator behind `reserved`, so a search that runs through the list reads
-- that field as the size of one more node; to unlink that node would corrupt the list, `none`.
pub mod Cover
pub mod Tiles
pub mod Wide
pub mod Settle
pub mod Calls
pub mod Client
mod Tests
use mcuproxy.Prelude.{
  ℕ, zero, suc, ◌+◌, ◌-◌, ◌*◌, ◌/◌, ◌%◌, ◌^◌, Bool, true, false, ◌||◌, List, [], ◌∷◌, Option, none,
  some, length, ltb, leb, ◌==◌, if◌then◌else◌,
}
use mcuproxy.Prelude.Int.{ℤ, pos, negsuc}

pub record PoolAlloc : Type 0 where
  pub reserved : ℕ
  pub free_slots : List ℕ
  pub chunk_mem : ℕ
  pub chunk_size : ℕ
  pub size_at : ℕ → ℕ

-- `ALIGN_8BYTES`, `POOLSIZE_TO_EFFTSIZE` and `EFFTSIZE_TO_POOLSIZE`.
unfoldable pub align_8bytes : ℕ → ℕ
align_8bytes x = (x + 7) % 2 ^ 32 / 8 * 8

unfoldable pub to_effect : ℕ → ℕ
to_effect x = (x + 2 ^ 32 - 4) % 2 ^ 32

unfoldable pub to_pool : ℕ → ℕ
to_pool x = (x + 4) % 2 ^ 32

abbrev pub is_invalid : PoolAlloc → Bool
is_invalid al = (al.chunk_mem == 0) || (al.chunk_size == 0)

-- The two pointers of a `list_t`.
abbrev pub link_bytes : ℕ
link_bytes = 8

-- `node->size = v` at the address `a`.
unfoldable pub put_size : (ℕ → ℕ) → ℕ → ℕ → ℕ → ℕ
put_size sizes a v b = if b == a then v else sizes b

unfoldable pub init_pool_allocator : Option PoolAlloc → Option (ℤ × Option PoolAlloc)
init_pool_allocator none = some (negsuc 0, none)
init_pool_allocator (some al) =
    let mem_start = align_8bytes al.chunk_mem in
    if (al.chunk_mem == 0) || leb al.chunk_size (to_pool 0)
    then some (negsuc 0, some al)
    else if leb (al.chunk_mem + al.chunk_size) mem_start
    then some (negsuc 0, some al)
    else if ltb (al.chunk_mem + al.chunk_size) (mem_start + 4 + link_bytes)
    then none
    else some (
      pos 0,
      some (record al {
        free_slots = mem_start ∷ [];
        size_at = put_size al.size_at mem_start (to_effect al.chunk_size);
      }),
    )

unfoldable pub uninit_pool_allocator : Option PoolAlloc → ℤ
uninit_pool_allocator none = negsuc 0
uninit_pool_allocator (some al) = if is_invalid al then negsuc 0 else pos 0

-- The first node of at least that size.
unfoldable pub first_fit : (ℕ → ℕ) → ℕ → List ℕ → Option ℕ
first_fit sizes size [] = none
first_fit sizes size (node ∷ nodes) =
    if leb size (sizes node) then some node else first_fit sizes size nodes

-- `list_del` of a linked node.
unfoldable pub unlink : ℕ → List ℕ → List ℕ
unlink a [] = []
unlink a (node ∷ nodes) = if node == a then nodes else node ∷ unlink a nodes

-- `list_add` behind the first node of at least that size, `none` if there is none.
unfoldable pub add_behind : (ℕ → ℕ) → ℕ → ℕ → List ℕ → Option (List ℕ)
add_behind sizes size cur [] = none
add_behind sizes size cur (node ∷ nodes) =
    if leb size (sizes node)
    then some (node ∷ cur ∷ nodes)
    else elim (add_behind sizes size cur nodes) [ none ↦ none | some rest ↦ some (node ∷ rest) ]

-- Behind the list head if no such node was found.
unfoldable pub or_front : ℕ → List ℕ → Option (List ℕ) → List ℕ
or_front cur nodes none = cur ∷ nodes
or_front cur nodes (some rest) = rest

unfoldable pub place : (ℕ → ℕ) → ℕ → List ℕ → List ℕ
place sizes cur nodes = or_front cur nodes (add_behind sizes (sizes cur) cur nodes)

-- The node is unlinked, and what it has too much is split off.
unfoldable pub carve : PoolAlloc → ℕ → ℕ → PoolAlloc
carve al node size =
    let aligned = align_8bytes size in
    let rest = unlink node al.free_slots in
    let cur = node + 4 + aligned in
    let left = to_effect (al.size_at node - aligned) in
    let sizes = put_size (put_size al.size_at cur left) node aligned in
    if ltb ((aligned + 12) % 2 ^ 32) (al.size_at node)
    then record al { free_slots = place sizes cur rest; size_at = sizes }
    else record al { free_slots = rest }

-- The address behind the header, or 0.
unfoldable pub pool_malloc : Option PoolAlloc → ℕ → Option (ℕ × Option PoolAlloc)
pool_malloc none size = some (0, none)
pool_malloc (some al) size =
    if is_invalid al || (size == 0)
    then some (0, some al)
    else elim (first_fit al.size_at size al.free_slots) [
      | none ↦ if leb size al.reserved then none else some (0, some al)
      | some node ↦ some (node + 4, some (carve al node size))
    ]

-- The first node that ends where `cur` starts (`true`), or starts where `cur` ends.
unfoldable pub neighbour : (ℕ → ℕ) → ℕ → List ℕ → Option (ℕ × Bool)
neighbour sizes cur [] = none
neighbour sizes cur (node ∷ nodes) =
    if node + to_pool (sizes node) == cur
    then some (node, true)
    else if cur + to_pool (sizes cur) == node
    then some (node, false)
    else neighbour sizes cur nodes

-- `cur` takes in a neighbour, or a neighbour before it takes in `cur` and is the new `cur`; the
-- neighbour is unlinked.
unfoldable pub absorb : (ℕ → ℕ) → ℕ → List ℕ → ℕ × Bool → ℕ × (ℕ → ℕ) × List ℕ
absorb sizes cur nodes (node, true) =
    (node, put_size sizes node ((sizes node + to_pool (sizes cur)) % 2 ^ 32), unlink node nodes)
absorb sizes cur nodes (node, false) =
    (cur, put_size sizes cur ((sizes cur + to_pool (sizes node)) % 2 ^ 32), unlink node nodes)

-- The rounds of the combination. Every round shortens the list, so its length is fuel enough.
unfoldable pub combine : ℕ → ℕ × (ℕ → ℕ) × List ℕ → ℕ × (ℕ → ℕ) × List ℕ
combine zero (cur, sizes, nodes) = (cur, sizes, nodes)
combine (suc fuel) (cur, sizes, nodes) = elim (neighbour sizes cur nodes) [
  | none ↦ (cur, sizes, nodes)
  | some found ↦ combine fuel (absorb sizes cur nodes found)
]

-- The combination, and the block's place on the free list.
unfoldable pub put_back : PoolAlloc → ℕ → Option PoolAlloc
put_back al cur =
    let (cur', sizes, nodes) = combine (length al.free_slots) (cur, al.size_at, al.free_slots) in
    if ltb (sizes cur') link_bytes
    then none
    else some (record al { free_slots = place sizes cur' nodes; size_at = sizes })

abbrev given_back : Option PoolAlloc → Option (Option PoolAlloc)
given_back none = none
given_back (some al) = some (some al)

unfoldable pub pool_free : Option PoolAlloc → ℕ → Option (Option PoolAlloc)
pool_free none mem = some none
pool_free (some al) mem =
    let cur = mem - 4 in
    if is_invalid al || (mem == 0)
    then some (some al)
    else if leb (al.chunk_mem + al.chunk_size) mem || ltb mem al.chunk_mem
    then some (some al)
    else if ltb al.chunk_size (al.size_at cur)
    then some (some al)
    else given_back (put_back al cur)
