-- ===== src/ShmAlloc/Tests.antt =====
-- libckits/shmAlloc.c: an allocator in 120 bytes, and the theorems at it.
use mcuproxy.Prelude.{◌+◌, ◌-◌, ◌≡◌, ◌<◌, ◌⊎◌, refl, [], ◌∷◌, none, some, arith}
use mcuproxy.Prelude.Int.{pos, negsuc}
use mcuproxy.PoolAlloc.Cover.{has, covers, cover}
use mcuproxy.PoolAlloc.Tiles.{inside}
use mcuproxy.ShmAlloc.Tiles.{Rises, masked}
use mcuproxy.PoolAlloc.{put_size, to_effect, to_pool, unlink}
use mcuproxy.ShmAlloc.Spare.{spare}
use mcuproxy.ShmAlloc.Counts.{count}
use mcuproxy.ShmAlloc.Owners.{IsOwned, shm_add_reference-IsOwned}
use mcuproxy.ShmAlloc.Pointers.{shm_pointer-shm_offset}
use mcuproxy.ShmAlloc.{
  ShmAlloc, const_magic_flag, align_4bytes, real_size, references, init_shm_allocator, link_right,
  link_node, relink, shm_recycle, largest, shm_harvest, carve, try_candidate, change_candidate,
  malloc_rounds, shm_malloc, shm_add_reference, shm_free, shm_offset, shm_pointer,
}

code : Unit {0}
unfolding has to_effect to_pool put_size unlink align_4bytes real_size references init_shm_allocator
    link_right link_node relink shm_recycle largest shm_harvest carve try_candidate change_candidate
    malloc_rounds shm_malloc shm_add_reference shm_free shm_offset shm_pointer
code = tt

-- One block of 12 bytes is held by two owners.
abbrev start : ShmAlloc
start = record {
  address = 4096;
  free_parts = [];
  candidate = 36;
  magic_flag = const_magic_flag;
  chunk_size = 100;
  size_at = put_size (put_size (λ a. 0) 36 80) 20 13;
}

start-IsOwned : IsOwned 4096 100 start (20 ∷ []) (20 ∷ 20 ∷ [])
start-IsOwned = record {
  tiled = record {
    chunk = (refl, refl, refl);
    sorted = unfold Rises in tt;
    parts =
        unfold spare in
        record {
          tiles = λ x. unfold covers cover inside put_size masked real_size in ground arith;
          single = λ a h. unfold has put_size references in ground (arith, h);
        };
  };
  counted = λ a. unfold count has put_size references in ground arith;
  behind = λ a h. unfold has in ground (arith, h);
}

shm_add_reference-IsOwned_example :
    let r = shm_add_reference (some start) (4096 + 20 + 4) in
    ((count 20 (20 ∷ 20 ∷ []) ≡ 4) × (r ≡ (negsuc 0, some start)))
    ⊎ ((count 20 (20 ∷ 20 ∷ []) < 4)
        × ((al' : ShmAlloc) × (r ≡ (pos 0, some al'))
            × IsOwned 4096 100 al' (20 ∷ []) (20 ∷ (20 ∷ 20 ∷ []))))
shm_add_reference-IsOwned_example =
    shm_add_reference-IsOwned 4096 100 (omega arith) (omega arith) start (20 ∷ []) (20 ∷ 20 ∷ []) 20
      start-IsOwned (unfold has in refl)

shm_pointer-shm_offset_example :
    (shm_pointer (some (record start { address = 8192 })) (shm_offset (some start) 4120)
      ≡ 8192 + (4120 - start.address))
    × (shm_pointer (some start) (shm_offset (some start) 4120) ≡ 4120)
    × (shm_pointer (some (record start { address = 8192 })) (shm_offset (some start) 0) ≡ 0)
shm_pointer-shm_offset_example =
    shm_pointer-shm_offset start 4120 8192 refl (omega arith) (omega arith) (omega arith)
      (omega arith)

-- Two blocks of 4 bytes are held; to free the first would write its links over the second's header.
abbrev narrow : ShmAlloc
narrow = record start {
  candidate = 36;
  size_at = put_size (put_size (put_size (λ a. 0) 36 80) 28 4) 20 4;
}

free_four_bytes : shm_free (some narrow) (4096 + 24) ≡ none
unfolding code
free_four_bytes = refl
