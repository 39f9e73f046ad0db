-- ===== src/PoolAlloc/Client.antt =====
-- libckits/myAlloc.c: what a client of the pool allocator can rely on.
use mcuproxy.Prelude.{
  ℕ, ◌+◌, ◌-◌, ◌%◌, ◌^◌, ◌<◌, ◌≤◌, ltb, ◌≡◌, ◌≢◌, refl, inl, inr, true, false, ◌||◌, List, [], ◌∷◌,
  arith, Option, none, some, leb, ◌==◌, if◌then◌else◌, Bool-cases,
}
use mcuproxy.Prelude.Int.{pos}
use mcuproxy.PoolAlloc.Cover.{cover, covers, has}
use mcuproxy.PoolAlloc.Tiles.{inside}
use mcuproxy.PoolAlloc.Wide.{Wide-cons}
use mcuproxy.PoolAlloc.{
  PoolAlloc, align_8bytes, to_effect, to_pool, put_size, init_pool_allocator, unlink, pool_malloc,
  pool_free,
}
use mcuproxy.PoolAlloc.Calls.{IsTiled, Granted, pool_malloc-Granted, pool_free-IsTiled}

-- A request for so many bytes, or the return of the block at an address.
pub data Act : Type 0 where
  request release : ℕ → Act

abbrev pub Client : Type 0
Client = PoolAlloc × List ℕ

-- The client keeps a list of the blocks it holds; it asks for at least one byte and returns only
-- blocks that it holds.
unfoldable pub keep : List ℕ → Option (ℕ × Option PoolAlloc) → Option Client
keep held none = none
keep held (some (mem, none)) = none
keep held (some (mem, some al)) = some (al, if mem == 0 then held else (mem - 4) ∷ held)

unfoldable pub give : List ℕ → Option (Option PoolAlloc) → Option Client
give held none = none
give held (some none) = none
give held (some (some al)) = some (al, held)

unfoldable pub act : Client → Act → Option Client
act (al, held) (request size) =
    if size == 0 then some (al, held) else keep held (pool_malloc (some al) size)
act (al, held) (release a) =
    if has a held then give (unlink a held) (pool_free (some al) (a + 4)) else some (al, held)

unfoldable pub run : Option Client → List Act → Option Client
run none acts = none
run (some c) [] = some c
run (some c) (a ∷ acts) = run (act c a) acts

module _ (base bytes : ℕ) (small : base + bytes < 2 ^ 31) (real : 0 < base)
    (some_bytes : 0 < bytes) where
  kept :
      (al : PoolAlloc) (held : List ℕ) (size : ℕ) (r : Option (ℕ × Option PoolAlloc))
      → IsTiled base bytes al held
      → Granted base bytes al held size r
      → (c : Client) × (keep held r ≡ some c) × IsTiled base bytes c.0 c.1
  unfolding keep
  kept al held size r tiled (inl (e, full)) = ((al, held), rw e, tiled)
  kept al held size r tiled (inr (node, al', e, room, tiled')) =
      let fresh : node + 4 == 0 ≡ false = ground arith in
      let header : node + 4 - 4 ≡ node = omega arith in
      ((al', node ∷ held), rw (e, fresh, header), tiled')

  act-IsTiled :
      (al : PoolAlloc) (held : List ℕ) (a : Act)
      → IsTiled base bytes al held
      → (c : Client) × (act (al, held) a ≡ some c) × IsTiled base bytes c.0 c.1
  unfolding act
  act-IsTiled al held (request size) tiled = elim (Bool-cases (size == 0)) [
    | inl nothing ↦ ((al, held), rw nothing, tiled)
    | inr wanted ↦
        let granted =
          pool_malloc-Granted base bytes small real some_bytes al held size tiled (ground arith) in
        let (c, e, tiled') = kept al held size (pool_malloc (some al) size) tiled granted in
        (c, rw wanted e, tiled')
  ]
  act-IsTiled al held (release a) tiled = elim (Bool-cases (has a held)) [
    | inl linked ↦
        let (al', e, tiled') =
          pool_free-IsTiled base bytes small real some_bytes al held a tiled linked in
        ((al', unlink a held), (unfold give in rw (linked, e)), tiled')
    | inr other ↦ ((al, held), rw other, tiled)
  ]

  run-IsTiled :
      (acts : List Act) (al : PoolAlloc) (held : List ℕ)
      → IsTiled base bytes al held
      → (c : Client) × (run (some (al, held)) acts ≡ some c) × IsTiled base bytes c.0 c.1
  unfolding run
  run-IsTiled [] al held tiled = ((al, held), refl, tiled)
  run-IsTiled (a ∷ acts) al held tiled =
      let ((al', held'), now, tiled') = act-IsTiled al held a tiled in
      let (c, later, tiled'') = run-IsTiled acts al' held' tiled' in
      (c, rw (now, run) later, tiled'')

none_has : (a : ℕ) → has a [] ≢ true
unfolding has
none_has a h = cc

-- From a chunk at a multiple of 8, of at least twelve bytes, that ends below 2 ^ 31, and with
-- `reserved` at 0, `init_pool_allocator` succeeds, and no sequence of requests and returns of held
-- blocks goes wrong: no links are written beyond a block, and afterwards each byte of the chunk is
-- in exactly one block, free or held, no block reaches beyond the chunk, and each has room for links.
pub run-keeps_tiles :
    (al : PoolAlloc) (acts : List Act)
    → al.chunk_mem % 8 ≡ 0
    → 0 < al.chunk_mem
    → 12 ≤ al.chunk_size
    → al.chunk_mem + al.chunk_size < 2 ^ 31
    → al.reserved ≡ 0
    → (al' : PoolAlloc) × (c : Client) × (init_pool_allocator (some al) ≡ some (pos 0, some al'))
      × (run (some (al', [])) acts ≡ some c)
      × IsTiled al.chunk_mem al.chunk_size c.0 c.1
unfolding init_pool_allocator
run-keeps_tiles al acts aligned real big small head =
    let start : align_8bytes al.chunk_mem ≡ al.chunk_mem = unfold align_8bytes in omega arith in
    let size : to_effect al.chunk_size ≡ al.chunk_size - 4 = unfold to_effect in omega arith in
    let guard : (al.chunk_mem == 0) || leb al.chunk_size (to_pool 0) ≡ false =
      unfold to_pool in ground arith in
    let room : leb (al.chunk_mem + al.chunk_size) al.chunk_mem ≡ false = ground arith in
    let inside_chunk : ltb (al.chunk_mem + al.chunk_size) (al.chunk_mem + 4 + 8) ≡ false =
      ground arith in
    let sizes = put_size al.size_at al.chunk_mem (al.chunk_size - 4) in
    let al' = record al { free_slots = al.chunk_mem ∷ []; size_at = sizes } in
    let tiled : IsTiled al.chunk_mem al.chunk_size al' [] = record {
      chunk = (refl, refl);
      head = head;
      tiles = λ x. unfold covers cover inside put_size in ground arith;
      behind = λ a h. absurd (none_has a h);
      wide =
          Wide-cons sizes al.chunk_mem [] (unfold put_size in ground arith)
            (λ a h. absurd (none_has a h));
      wide_held = λ a h. absurd (none_has a h);
    } in
    let (c, ran, tiled') =
      run-IsTiled al.chunk_mem al.chunk_size small real (omega arith) acts al' [] tiled in
    (al', c, rw (start, size, guard, room, inside_chunk) refl, ran, tiled')
