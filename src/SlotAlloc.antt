-- ===== src/SlotAlloc.antt =====
-- libckits/myAlloc.c: the slot allocator, which hands out slots of one size from a chunk. Addresses
-- are numbers, 0 the null pointer; the free list holds the addresses of the free slots. The prints
-- of the debug build are left out.
pub mod Grid
pub mod Held
pub mod Shared
pub mod Client
mod Tests
use mcuproxy.Prelude.{
  ℕ, zero, suc, ◌+◌, ◌*◌, ◌/◌, ◌%◌, ◌^◌, Bool, true, ◌||◌, List, [], ◌∷◌, ◌++◌, Option, none, some,
  ltb, leb, ◌==◌, if◌then◌else◌,
}
use mcuproxy.Prelude.Int.{ℤ, pos, negsuc}

pub record SlotAlloc : Type 0 where
  pub slot_size : ℕ
  pub free_slots : List ℕ
  pub chunk_mem : ℕ
  pub chunk_size : ℕ

-- The guard that every call starts with.
abbrev pub is_invalid : SlotAlloc → Bool
is_invalid al = (al.slot_size == 0) || (al.chunk_mem == 0) || (al.chunk_size == 0)

-- `(size + 7) & ~7`, but at least `sizeof(free_slot_t)`.
unfoldable pub real_slot_size : ℕ → ℕ
real_slot_size size = let size = (size + 7) % 2 ^ 32 / 8 * 8 in if ltb size 8 then 8 else size

-- The loop over the chunk: `n` slots from `mem` on go to the end of the free list.
unfoldable pub add_slots : ℕ → ℕ → ℕ → List ℕ → List ℕ
add_slots mem size zero slots = slots
add_slots mem size (suc n) slots = add_slots (mem + size) size n (slots ++ mem ∷ [])

unfoldable pub init_slot_allocator : Option SlotAlloc → ℤ × Option SlotAlloc
init_slot_allocator none = (negsuc 0, none)
init_slot_allocator (some al) =
    let size = real_slot_size al.slot_size in
    if is_invalid al then (negsuc 0, some al) else (
      pos 0,
      some (record al {
        slot_size = size;
        free_slots = add_slots al.chunk_mem size (al.chunk_size / size) [];
      }),
    )

unfoldable pub uninit_slot_allocator : Option SlotAlloc → ℤ
uninit_slot_allocator none = negsuc 0
uninit_slot_allocator (some al) = if is_invalid al then negsuc 0 else pos 0

-- The first free slot.
unfoldable pub take_slot : SlotAlloc → List ℕ → ℕ × SlotAlloc
take_slot al [] = (0, al)
take_slot al (slot ∷ slots) = (slot, record al { free_slots = slots })

unfoldable pub slot_malloc : Option SlotAlloc → ℕ → ℕ × Option SlotAlloc
slot_malloc none size = (0, none)
slot_malloc (some al) size =
    if is_invalid al
    then (0, some al)
    else if (size == 0) || ltb al.slot_size size
    then (0, some al)
    else let (mem, al') = take_slot al al.free_slots in (mem, some al')

unfoldable pub slot_free : Option SlotAlloc → ℕ → Option SlotAlloc
slot_free none mem = none
slot_free (some al) mem =
    if is_invalid al || (mem == 0)
    then some al
    else if leb (al.chunk_mem + al.chunk_size) mem || ltb mem al.chunk_mem
    then some al
    else some (record al { free_slots = al.free_slots ++ mem ∷ [] })
