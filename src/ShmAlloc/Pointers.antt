-- ===== src/ShmAlloc/Pointers.antt =====
-- libckits/shmAlloc.c: offsets, by which the processes tell each other of a block.
use mcuproxy.Prelude.{
  ℕ, ◌+◌, ◌-◌, ◌%◌, ◌^◌, ◌≤◌, ◌<◌, ◌≡◌, refl, true, false, arith, ◌==◌, leb, some,
}
use mcuproxy.ShmAlloc.{ShmAlloc, head_size, is_invalid, shm_offset, shm_pointer}

-- Of an allocator in use with less than 2 ^ 32 bytes, for a pointer `mem` into its memory: from the
-- offset that `shm_offset` gives in one process, `shm_pointer` gives the pointer to the same place in a
-- process that has the memory at `other`, and so `mem` itself where it is at the same address. From
-- the offset of a NULL pointer, it gives NULL.
pub shm_pointer-shm_offset :
    (info : ShmAlloc) (mem other : ℕ)
    → is_invalid info ≡ false
    → head_size + info.chunk_size < 2 ^ 32
    → 0 < mem
    → info.address ≤ mem
    → mem < info.address + head_size + info.chunk_size
    → (shm_pointer (some (record info { address = other })) (shm_offset (some info) mem)
        ≡ other + (mem - info.address))
      × (shm_pointer (some info) (shm_offset (some info) mem) ≡ mem)
      × (shm_pointer (some (record info { address = other })) (shm_offset (some info) 0) ≡ 0)
unfolding shm_pointer shm_offset
shm_pointer-shm_offset info mem other valid small real low high =
    let some_mem : mem == 0 ≡ false = ground (arith, real) in
    let offset : (mem + 2 ^ 32 - info.address) % 2 ^ 32 ≡ mem - info.address = omega arith in
    let inside : leb (head_size + info.chunk_size) (mem - info.address) ≡ false = ground arith in
    let outside : leb (head_size + info.chunk_size) 0xFFFFFFFF ≡ true = ground arith in
    (
      rw (valid, some_mem, offset, inside) refl,
      rw (valid, some_mem, offset, inside) (omega arith),
      rw (valid, outside) refl,
    )
