-- ===== src/PoolAlloc/Calls.antt =====
-- libckits/myAlloc.c: `pool_malloc` and `pool_free` on a chunk that blocks tile.
use mcuproxy.Prelude.{
  ℕ, refl, ◌+◌, ◌-◌, ◌%◌, ◌^◌, ◌≤◌, ◌<◌, ◌≡◌, ◌⊎◌, inl, inr, true, false, ◌||◌, List, ◌∷◌, arith,
  length, Option, some, ltb, leb, ◌==◌, Bool-cases, Option-cases,
}
use mcuproxy.PoolAlloc.Cover.{
  covers, has, covers-unlink, has-first_fit, first_fit-none, covers-place,
}
use mcuproxy.PoolAlloc.Tiles.{
  Tiles, block-within, split-Tiles, whole-Tiles, combine-Joining, Joining,
}
use mcuproxy.PoolAlloc.Wide.{
  Wide, has-unlink, Wide-unlink, Wide-cons, Wide-put_size, Wide-place, combine-WideAt,
}
use mcuproxy.PoolAlloc.{
  PoolAlloc, link_bytes, align_8bytes, to_effect, put_size, is_invalid, first_fit, unlink, place,
  carve, pool_malloc, combine, put_back, pool_free,
}

-- The allocator has the chunk, and its free blocks tile it together with the held ones. The head of
-- the free list reads as a node of size 0. Each block has room for the links of the free list.
pub record IsTiled (base bytes : ℕ) (al : PoolAlloc) (held : List ℕ) : Type 0 where
  pub chunk : (al.chunk_mem ≡ base) × (al.chunk_size ≡ bytes)
  pub head : al.reserved ≡ 0
  pub tiles : Tiles base bytes al.size_at al.free_slots held
  pub behind : (a : ℕ) → has a held ≡ true → a + 4 < base + bytes
  pub wide : Wide al.size_at al.free_slots
  pub wide_held : Wide al.size_at held

-- What a request gives: NULL, every free block is smaller and nothing changes, or a block with room for
-- `size` bytes that is held from then on.
abbrev pub Granted : ℕ → ℕ → PoolAlloc → List ℕ → ℕ → Option (ℕ × Option PoolAlloc) → Type 0
Granted base bytes al held size r =
    ((r ≡ some (0, some al)) × ((a : ℕ) → has a al.free_slots ≡ true → al.size_at a < size))
    ⊎ ((node : ℕ) × (al' : PoolAlloc) × (r ≡ some (node + 4, some al'))
        × (size ≤ al'.size_at node)
        × IsTiled base bytes al' (node ∷ held))

module _ (base bytes : ℕ) (small : base + bytes < 2 ^ 31) (real : 0 < base)
    (some_bytes : 0 < bytes) where
  behind-cons :
      (node : ℕ) (held : List ℕ)
      → node + 4 < base + bytes
      → ((a : ℕ) → has a held ≡ true → a + 4 < base + bytes)
      → (a : ℕ) → has a (node ∷ held) ≡ true
      → a + 4 < base + bytes
  unfolding has
  behind-cons node held h all a linked = elim (Bool-cases (node == a)) [
    | inl here ↦ ground arith
    | inr there ↦ all a (ground (arith, there))
  ]

  valid : {al : PoolAlloc} {held : List ℕ} → IsTiled base bytes al held → is_invalid al ≡ false
  valid {al} tiled = ground (arith, tiled.chunk)

  -- The block found, as `carve` leaves it.
  carve-IsTiled :
      (al : PoolAlloc) (held : List ℕ) (node size : ℕ)
      → IsTiled base bytes al held
      → 0 < size
      → has node al.free_slots ≡ true
      → size ≤ al.size_at node
      → (size ≤ (carve al node size).size_at node)
        × IsTiled base bytes (carve al node size) (node ∷ held)
  unfolding carve
  carve-IsTiled al held node size tiled wanted linked fits =
      let (low, high) =
        block-within base bytes small al.size_at al.free_slots held node tiled.tiles linked in
      let aligned = align_8bytes size in
      let above : size ≤ aligned = unfold align_8bytes in omega arith in
      let below : aligned ≤ size + 7 = unfold align_8bytes in omega arith in
      elim (Bool-cases (ltb ((aligned + 12) % 2 ^ 32) (al.size_at node))) [
        | inl cut ↦
            let left : to_effect (al.size_at node - aligned) ≡ al.size_at node - aligned - 4 =
              unfold to_effect in ground arith in
            let rest = unlink node al.free_slots in
            let cur = node + 4 + aligned in
            let part = put_size al.size_at cur (to_effect (al.size_at node - aligned)) in
            let sizes = put_size part node aligned in
            let wide_node : link_bytes ≤ aligned = unfold align_8bytes in omega arith in
            let wide_cur : link_bytes ≤ to_effect (al.size_at node - aligned) =
              ground (arith, left) in
            let at_node : sizes node ≡ aligned = unfold put_size in ground arith in
            let at_cur : sizes cur ≡ to_effect (al.size_at node - aligned) =
              unfold put_size in ground arith in
            let cut_Wide : (xs : List ℕ) → Wide al.size_at xs → Wide sizes xs = λ xs wide.
              Wide-put_size part node aligned xs wide_node
                (Wide-put_size al.size_at cur _ xs wide_cur wide) in
            rw cut (
              (unfold put_size in ground (arith, above)),
              record {
                chunk = tiled.chunk;
                head = tiled.head;
                tiles =
                    split-Tiles base bytes small al.size_at al.free_slots held node aligned
                      (to_effect (al.size_at node - aligned)) tiled.tiles linked
                      (ground (arith, left));
                behind = behind-cons node held (omega arith) tiled.behind;
                wide =
                    Wide-place sizes cur rest (rw at_cur wide_cur)
                      (cut_Wide rest (Wide-unlink al.size_at node al.free_slots tiled.wide));
                wide_held =
                    Wide-cons sizes node held (rw at_node wide_node)
                      (cut_Wide held tiled.wide_held);
              },
            )
        | inr whole ↦ rw whole (
          fits,
          record {
            chunk = tiled.chunk;
            head = tiled.head;
            tiles =
                whole-Tiles base bytes small al.size_at al.free_slots held node tiled.tiles linked;
            behind = behind-cons node held (omega arith) tiled.behind;
            wide = Wide-unlink al.size_at node al.free_slots tiled.wide;
            wide_held = Wide-cons al.size_at node held (tiled.wide node linked) tiled.wide_held;
          },
        )
      ]

  pub pool_malloc-Granted :
      (al : PoolAlloc) (held : List ℕ) (size : ℕ)
      → IsTiled base bytes al held
      → 0 < size
      → Granted base bytes al held size (pool_malloc (some al) size)
  unfolding pool_malloc
  pool_malloc-Granted al held size tiled wanted =
      let go : is_invalid al || (size == 0) ≡ false = ground (arith, valid tiled) in
      elim (Option-cases (first_fit al.size_at size al.free_slots)) [
        | inl nowhere ↦
            let safe : leb size al.reserved ≡ false = ground (arith, tiled.head) in
            inl (rw (go, nowhere, safe), first_fit-none al.size_at size al.free_slots nowhere)
        | inr (node, found) ↦
            let (linked, fits) = has-first_fit al.size_at size node al.free_slots found in
            let (room, tiled') = carve-IsTiled al held node size tiled wanted linked fits in
            inr (node, carve al node size, rw (go, found), room, tiled')
      ]

  placed-Tiles :
      (sizes : ℕ → ℕ) (cur : ℕ) (nodes held : List ℕ)
      → Joining base bytes small sizes cur nodes held
      → Tiles base bytes sizes (place sizes cur nodes) held
  unfolding covers
  placed-Tiles sizes cur nodes held joining x =
      omega (arith, covers-place sizes cur x nodes, joining x)

  put_back-IsTiled :
      (al : PoolAlloc) (held : List ℕ) (a : ℕ)
      → IsTiled base bytes al held
      → has a held ≡ true
      → (al' : PoolAlloc) × (put_back al a ≡ some al') × IsTiled base bytes al' (unlink a held)
  unfolding put_back
  put_back-IsTiled al held a tiled linked =
      let start : Joining base bytes small al.size_at a al.free_slots (unlink a held) = λ x.
        unfold covers in omega (arith, tiled.tiles x, covers-unlink al.size_at a x held linked) in
      let joined =
        combine-Joining base bytes small (length al.free_slots) a al.size_at al.free_slots
          (unlink a held) start in
      let (room, free, taken) =
        combine-WideAt base bytes small (length al.free_slots) a al.size_at al.free_slots
          (unlink a held) start
          (tiled.wide_held a linked, tiled.wide, Wide-unlink al.size_at a held tiled.wide_held) in
      let r = combine (length al.free_slots) (a, al.size_at, al.free_slots) in
      let fits : ltb (r.1 r.0) link_bytes ≡ false = ground (arith, room) in
      (
        record al { free_slots = place r.1 r.0 r.2; size_at = r.1 },
        rw fits refl,
        record {
          chunk = tiled.chunk;
          head = tiled.head;
          tiles = placed-Tiles r.1 r.0 r.2 (unlink a held) joined;
          behind = λ b h. tiled.behind b (has-unlink a b held h);
          wide = Wide-place r.1 r.0 r.2 room free;
          wide_held = taken;
        },
      )

  -- On a tiled chunk of less than 2 ^ 31 bytes and addresses, `pool_free` of the memory of a held
  -- block writes its links inside the block, and leaves the chunk tiled by the free blocks and the
  -- other held ones, each with room for links.
  pub pool_free-IsTiled :
      (al : PoolAlloc) (held : List ℕ) (a : ℕ)
      → IsTiled base bytes al held
      → has a held ≡ true
      → (al' : PoolAlloc) × (pool_free (some al) (a + 4) ≡ some (some al'))
        × IsTiled base bytes al' (unlink a held)
  unfolding pool_free
  pool_free-IsTiled al held a tiled linked =
      let swapped : Tiles base bytes al.size_at held al.free_slots =
        λ x. omega (arith, tiled.tiles x) in
      let (low, high) =
        block-within base bytes small al.size_at held al.free_slots a swapped linked in
      let go : is_invalid al || (a + 4 == 0) ≡ false = ground (arith, valid tiled) in
      let before_end = tiled.behind a linked in
      let mine : leb (al.chunk_mem + al.chunk_size) (a + 4) || ltb (a + 4) al.chunk_mem ≡ false =
        ground (arith, tiled.chunk) in
      let header : a + 4 - 4 ≡ a = omega arith in
      let sized : ltb al.chunk_size (al.size_at (a + 4 - 4)) ≡ false =
        rw header (ground (arith, tiled.chunk)) in
      let (al', run, tiled') = put_back-IsTiled al held a tiled linked in
      (al', rw (go, mine, sized, header, run) refl, tiled')
