-- ===== src/PoolAlloc/Tests.antt =====
-- libckits/myAlloc.c: a pool over 100 bytes, and the theorems at it.
use mcuproxy.Prelude.{ℕ, ◌+◌, ◌≡◌, ◌<◌, refl, true, List, [], ◌∷◌, Option, none, some, arith}
use mcuproxy.Prelude.Int.{pos}
use mcuproxy.PoolAlloc.Cover.{has, covers, cover}
use mcuproxy.PoolAlloc.Tiles.{inside}
use mcuproxy.PoolAlloc.Settle.{IsSettled, combine-IsSettled}
use mcuproxy.PoolAlloc.Calls.{IsTiled, pool_free-IsTiled}
use mcuproxy.PoolAlloc.Client.{Act, request, release, Client, keep, give, act, run, run-keeps_tiles}
use mcuproxy.PoolAlloc.{
  PoolAlloc, align_8bytes, to_effect, to_pool, put_size, init_pool_allocator, first_fit, unlink,
  add_behind, or_front, place, carve, pool_malloc, neighbour, absorb, combine, put_back, pool_free,
}

code : Unit {0}
unfolding has keep give act run align_8bytes to_effect to_pool put_size init_pool_allocator
    first_fit unlink add_behind or_front place carve pool_malloc neighbour absorb combine put_back
    pool_free
code = tt

abbrev chunk : PoolAlloc
chunk = record {
  reserved = 0;
  free_slots = [];
  chunk_mem = 4096;
  chunk_size = 100;
  size_at = λ a. 0;
}

abbrev acts : List Act
acts = request 10 ∷ request 20 ∷ request 90 ∷ release 4096 ∷ request 5 ∷ release 4116 ∷ []

run-keeps_tiles_example :
    (al : PoolAlloc) × (c : Client) × (init_pool_allocator (some chunk) ≡ some (pos 0, some al))
    × (run (some (al, [])) acts ≡ some c)
    × IsTiled 4096 100 c.0 c.1
run-keeps_tiles_example =
    run-keeps_tiles chunk acts refl (omega arith) (omega arith) (omega arith) refl

abbrev start : PoolAlloc
start = (run-keeps_tiles chunk [] refl (omega arith) (omega arith) (omega arith) refl).1.0

abbrev start_held : List ℕ
start_held = (run-keeps_tiles chunk [] refl (omega arith) (omega arith) (omega arith) refl).1.1

-- One block of 16 bytes is held.
abbrev one : PoolAlloc
one = record {
  reserved = 0;
  free_slots = 4116 ∷ [];
  chunk_mem = 4096;
  chunk_size = 100;
  size_at = put_size (put_size (λ a. 0) 4116 76) 4096 16;
}

held_one : (a : ℕ) → has a (4096 ∷ []) ≡ true → a + 4 < 4196
unfolding has
held_one a h = ground arith

one-IsTiled : IsTiled 4096 100 one (4096 ∷ [])
one-IsTiled = record {
  chunk = (refl, refl);
  head = refl;
  tiles = λ x. unfold covers cover inside put_size in ground arith;
  behind = held_one;
  wide = λ a h. unfold has put_size in ground arith;
  wide_held = λ a h. unfold has put_size in ground arith;
}

pool_free-IsTiled_example :
    (al : PoolAlloc) × (pool_free (some one) (4096 + 4) ≡ some (some al))
    × IsTiled 4096 100 al (unlink 4096 (4096 ∷ []))
pool_free-IsTiled_example =
    pool_free-IsTiled 4096 100 (omega arith) (omega arith) (omega arith) one (4096 ∷ []) 4096
      one-IsTiled (unfold has in refl)

-- A block of 16 bytes at 4096 between nothing and a free block.
combine-IsSettled_example : IsSettled (combine 1 (4096, one.size_at, 4116 ∷ []))
combine-IsSettled_example = combine-IsSettled 1 4096 one.size_at (4116 ∷ []) (omega arith)

-- The free and the held blocks of a client.
blocks : Option Client → Option (List ℕ × List ℕ)
blocks none = none
blocks (some (al, held)) = some (al.free_slots, held)

abbrev first : PoolAlloc
first = record chunk { free_slots = 4096 ∷ []; size_at = put_size (λ a. 0) 4096 96 }

-- The free list is not sorted by size: 44 bytes stand in front of 36.
six_acts : blocks (run (some (first, [])) acts) ≡ some (4096 ∷ 4156 ∷ [], 4144 ∷ [])
unfolding code blocks
six_acts = refl
