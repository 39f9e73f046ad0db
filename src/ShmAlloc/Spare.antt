-- ===== src/ShmAlloc/Spare.antt =====
-- libckits/shmAlloc.c: `shm_malloc` on a chunk that blocks tile.
use mcuproxy.Prelude.{
  ℕ, some, ◌&&◌, ◌+◌, ◌-◌, ◌%◌, ◌^◌, ◌≤◌, ◌<◌, ◌≡◌, ◌⊎◌, refl, ap, sym, ◌∙◌, true, false, ◌||◌,
  List, ◌∷◌, arith, ◌==◌, if◌then◌else◌, Bool-cases, inl, inr, ltb,
}
use mcuproxy.PoolAlloc.Cover.{covers, has, covers-unlink}
use mcuproxy.PoolAlloc.{link_bytes, put_size, to_effect, unlink}
use mcuproxy.PoolAlloc.Tiles.{block-within, has-first, has-next}
use mcuproxy.ShmAlloc.Tiles.{masked, Parts, Rises, Same, real_size_single, cut-Parts}
use mcuproxy.ShmAlloc.Walk.{relink-IsLinked}
use mcuproxy.ShmAlloc.{
  ShmAlloc, const_magic_flag, head_size, align_4bytes, references, relink, shm_recycle, largest,
  shm_harvest, carve, try_candidate, change_candidate, malloc_rounds,
}
use mcuproxy.ShmAlloc.Largest.{IsLargest, has-unlink, unlink-Rises, largest-IsLargest, all-front}

-- The blocks that are not held: the candidate and the free list.
unfoldable pub spare : ℕ → List ℕ → List ℕ
spare candidate nodes = if candidate == 0 then nodes else candidate ∷ nodes

-- The allocator is in use at `mem`, its free list is in the order of the addresses, and the candidate, the
-- free blocks and the held ones tile the chunk, whose first byte stands at offset 20.
pub record IsTiled (mem bytes : ℕ) (al : ShmAlloc) (held : List ℕ) : Type 0 where
  pub chunk : (al.address ≡ mem) × (al.chunk_size ≡ bytes) × (al.magic_flag ≡ const_magic_flag)
  pub parts : Parts head_size bytes al.size_at (spare al.candidate al.free_parts) held
  pub sorted : Rises 0 al.free_parts

-- No spare block has room for `size` bytes.
abbrev pub IsFull : ShmAlloc → ℕ → Type 0
IsFull al size = (a : ℕ) → has a (spare al.candidate al.free_parts) ≡ true → al.size_at a < size

-- A block with room for the links is put on the free list.
pub shm_recycle-relink :
    (al : ShmAlloc) (cur : ℕ)
    → link_bytes ≤ al.size_at cur
    → shm_recycle al cur ≡ some (relink al cur)
unfolding shm_recycle
shm_recycle-relink al cur room =
    let fits : has cur (relink al cur).free_parts && ltb (al.size_at cur) link_bytes ≡ false =
      ground (arith, room) in
    rw fits refl

even_rest :
    (size aligned left : ℕ)
    → references size ≡ 0
    → references aligned ≡ 0
    → left + 4 + aligned ≡ size
    → references left ≡ 0
unfolding references
even_rest size aligned left h k rest = omega arith

module _ (mem bytes : ℕ) (small : head_size + bytes < 2 ^ 31) where
  linked-above :
      (sizes : ℕ → ℕ) (nodes held : List ℕ) (a : ℕ)
      → Parts head_size bytes sizes nodes held
      → has a nodes ≡ true
      → (head_size ≤ a) × (a + 4 + sizes a ≤ head_size + bytes)
  linked-above sizes nodes held a parts linked =
      let (low, high) =
        block-within head_size bytes small (masked sizes) nodes held a parts.tiles linked in
      let size : masked sizes a ≡ sizes a =
        unfold masked in real_size_single (sizes a) (parts.single a linked) in
      (low, omega arith)

  -- A free block in front of the others.
  front-Parts :
      (sizes : ℕ → ℕ) (nodes held : List ℕ) (a : ℕ)
      → Parts head_size bytes sizes nodes held
      → has a nodes ≡ true
      → Parts head_size bytes sizes (a ∷ unlink a nodes) held
  unfolding covers has
  front-Parts sizes nodes held a parts linked = record {
    tiles = λ x. omega (arith, parts.tiles x, covers-unlink (masked sizes) a x nodes linked);
    single = λ b h. elim (Bool-cases (a == b)) [
      | inl here ↦ let e : a ≡ b = ground arith in parts.single b (rw (sym e) linked)
      | inr there ↦ parts.single b (has-unlink a b nodes (ground (arith, there)))
    ];
  }

  -- After the harvest, the candidate is the largest of the spare blocks.
  abbrev Harvested : ShmAlloc → List ℕ → Type 0
  Harvested al held =
      IsTiled mem bytes al held
      × ((size : ℕ)
          → 0 < size
          → (al.candidate == 0) || ltb (al.size_at al.candidate) size ≡ true
          → IsFull al size)

  found-Harvested :
      (al : ShmAlloc) (held : List ℕ) (cur : ℕ)
      → IsTiled mem bytes al held
      → al.candidate ≡ 0
      → IsLargest al.size_at 0 0 al.free_parts cur
      → Harvested
          (if cur == 0
            then record al { candidate = 0 }
            else record al { free_parts = unlink cur al.free_parts; candidate = cur })
          held
  unfolding spare
  found-Harvested al held cur tiled nothing (inl (same, below)) =
      let zero_cur : cur == 0 ≡ true = ground arith in
      rw zero_cur (
        record { chunk = tiled.chunk; parts = rw nothing at tiled.parts; sorted = tiled.sorted },
        λ size wanted e a h. omega (arith, below a h),
      )
  found-Harvested al held cur tiled nothing (inr (linked, above, below)) =
      let free : Parts head_size bytes al.size_at al.free_parts held = rw nothing at tiled.parts in
      let (low, high) = linked-above al.size_at al.free_parts held cur free linked in
      let real_cur : cur == 0 ≡ false = ground arith in
      rw real_cur (
        record {
          chunk = tiled.chunk;
          parts = rw real_cur (front-Parts al.size_at al.free_parts held cur free linked);
          sorted = unlink-Rises 0 cur al.free_parts tiled.sorted;
        },
        λ size wanted e a h.
            let small_cur : al.size_at cur < size = ground (arith, e, real_cur) in
            let h' : has a (cur ∷ unlink cur al.free_parts) ≡ true = rw real_cur at h in
            omega (arith, all-front al.size_at cur a al.free_parts below h'),
      )

  shm_harvest-Harvested :
      (al : ShmAlloc) (held : List ℕ)
      → IsTiled mem bytes al held
      → al.candidate ≡ 0
      → Harvested (shm_harvest al) held × (shm_harvest al).size_at ≡ al.size_at
  unfolding shm_harvest
  shm_harvest-Harvested al held tiled nothing =
      let cur = largest al.size_at 0 0 al.free_parts in
      (
        found-Harvested al held cur tiled nothing (largest-IsLargest al.size_at 0 0 al.free_parts),
        elim (Bool-cases (cur == 0)) [ inl here ↦ rw here refl | inr there ↦ rw there refl ],
      )

  -- A block of the tiles is given out, and the rest is not touched.
  abbrev Carved : ℕ → ShmAlloc → List ℕ → ℕ → ShmAlloc → Type 0
  Carved size al held node al' =
      IsTiled mem bytes al' (node ∷ held)
      × (size ≤ al'.size_at node)
      × (references (al'.size_at node) ≡ 0)
      × Same al.size_at al'.size_at held

  carve-Carved :
      (al : ShmAlloc) (held : List ℕ) (size : ℕ)
      → IsTiled mem bytes al held
      → 0 < size
      → al.candidate == 0 ≡ false
      → size ≤ al.size_at al.candidate
      → Carved size al held al.candidate (carve al size)
  unfolding carve
  carve-Carved al held size tiled wanted real_node fits =
      let node = al.candidate in
      let parts : Parts head_size bytes al.size_at (node ∷ al.free_parts) held =
        unfold spare in rw real_node at tiled.parts in
      let linked = has-first head_size bytes small node al.free_parts in
      let (low, high) = linked-above al.size_at (node ∷ al.free_parts) held node parts linked in
      let aligned = align_4bytes size in
      let even = parts.single node linked in
      elim (Bool-cases (ltb ((aligned + 12) % 2 ^ 32) (al.size_at node))) [
        | inl cut ↦
            let left = to_effect (al.size_at node - aligned) in
            let above : size ≤ aligned = unfold align_4bytes in omega arith in
            let below : aligned ≤ size + 3 = unfold align_4bytes in omega arith in
            let even_aligned : references aligned ≡ 0 =
              unfold references align_4bytes in omega arith in
            let more : aligned + 12 < al.size_at node = ground (arith, cut) in
            let rest : left + 4 + aligned ≡ al.size_at node = unfold to_effect in omega arith in
            let even_left : references left ≡ 0 =
              even_rest (al.size_at node) aligned left even even_aligned rest in
            let (parts', same) =
              cut-Parts head_size bytes small al.size_at node aligned left al.free_parts held parts
                even_aligned even_left rest in
            let own : put_size (put_size al.size_at (node + 4 + aligned) left) node aligned node
                ≡ aligned =
              unfold put_size in ground arith in
            let behind : node + 4 + aligned == 0 ≡ false = ground arith in
            rw cut (
              record {
                chunk = tiled.chunk;
                parts = unfold spare in rw behind parts';
                sorted = tiled.sorted;
              },
              rw own above,
              rw own even_aligned,
              same,
            )
        | inr whole ↦ rw whole (
          record {
            chunk = tiled.chunk;
            parts = record {
              tiles = λ x. unfold spare covers in omega (arith, parts.tiles x);
              single = λ a h.
                  parts.single a
                    (has-next head_size bytes small a node al.free_parts (unfold spare in h));
            };
            sorted = tiled.sorted;
          },
          fits,
          even,
          λ a h. refl,
        )
      ]

  -- What a request gives, an offset: no spare block has room, or a block with room for `size` bytes,
  -- without references, is held from then on.
  abbrev pub Granted : ℕ → ShmAlloc → List ℕ → ℕ × ShmAlloc → Type 0
  Granted size al held (offset, al') =
      ((offset ≡ 0)
        × IsTiled mem bytes al' held
        × IsFull al' size
        × Same al.size_at al'.size_at held)
      ⊎ ((node : ℕ) × (offset ≡ node + 4) × Carved size al held node al')

  try_candidate-Granted :
      (al : ShmAlloc) (held : List ℕ) (size : ℕ)
      → IsTiled mem bytes al held
      → 0 < size
      → ((al.candidate == 0) || ltb (al.size_at al.candidate) size ≡ true → IsFull al size)
      → Granted size al held (try_candidate al size)
  unfolding try_candidate
  try_candidate-Granted al held size tiled wanted full =
      elim (Bool-cases ((al.candidate == 0) || ltb (al.size_at al.candidate) size)) [
        | inl short ↦ rw short (inl (refl, tiled, full short, λ a h. refl))
        | inr fits ↦ rw fits (
            inr (
              al.candidate,
              refl,
              carve-Carved al held size tiled wanted (ground (arith, fits)) (ground (arith, fits)),
            ))
      ]

  -- A grant by an allocator that has the same headers of the held blocks.
  Granted-Same :
      (size : ℕ) (al al' : ShmAlloc) (held : List ℕ) (r : ℕ × ShmAlloc)
      → Same al.size_at al'.size_at held
      → Granted size al' held r
      → Granted size al held r
  Granted-Same size al al' held r same (inl (e, tiled, full, same')) =
      inl (e, tiled, full, λ a h. same' a h ∙ same a h)
  Granted-Same size al al' held r same (inr (node, e, (tiled, room, even, same'))) =
      inr (node, e, (tiled, room, even, λ a h. same' a h ∙ same a h))

  harvest-Granted :
      (al : ShmAlloc) (held : List ℕ) (size : ℕ)
      → IsTiled mem bytes al held
      → 0 < size
      → al.candidate ≡ 0
      → Granted size al held (try_candidate (shm_harvest al) size)
  harvest-Granted al held size tiled wanted nothing =
      let ((tiled', full), sizes) = shm_harvest-Harvested al held tiled nothing in
      Granted-Same size al (shm_harvest al) held (try_candidate (shm_harvest al) size)
        (λ a h. ap (λ f. f a) sizes)
        (try_candidate-Granted (shm_harvest al) held size tiled' wanted (full size wanted))

  -- The candidate is put on the free list.
  recycled-IsTiled :
      (al : ShmAlloc) (held : List ℕ)
      → IsTiled mem bytes al held
      → al.candidate == 0 ≡ false
      → let al' = relink (record al { candidate = 0 }) al.candidate in
        IsTiled mem bytes al' held × (al'.candidate ≡ 0) × Same al.size_at al'.size_at held
  unfolding relink
  recycled-IsTiled al held tiled real_node =
      let node = al.candidate in
      let parts : Parts head_size bytes al.size_at (node ∷ al.free_parts) held =
        unfold spare in rw real_node at tiled.parts in
      let (parts', sorted, same) =
        relink-IsLinked head_size bytes small (record al { candidate = 0 }) node held parts
          tiled.sorted (ground (arith, real_node)) in
      (record { chunk = tiled.chunk; parts = unfold spare in parts'; sorted = sorted }, refl, same)

  -- The links of the candidate fit in it, so that it can be put on the free list.
  abbrev pub FitsLinks : ShmAlloc → Type 0
  FitsLinks al = al.candidate == 0 ≡ false → link_bytes ≤ al.size_at al.candidate

  -- In a tiled chunk, the rounds of `shm_malloc` for at least one byte.
  pub malloc_rounds-Granted :
      (al : ShmAlloc) (held : List ℕ) (size : ℕ)
      → IsTiled mem bytes al held
      → FitsLinks al
      → 0 < size
      → (r : ℕ × ShmAlloc) × (malloc_rounds al size ≡ some r) × Granted size al held r
  unfolding malloc_rounds change_candidate
  malloc_rounds-Granted al held size tiled links wanted = elim (Bool-cases (al.candidate == 0)) [
    | inl nothing ↦ (
      try_candidate (shm_harvest al) size,
      rw nothing refl,
      harvest-Granted al held size tiled wanted (ground (arith, nothing)),
    )
    | inr some_node ↦ elim (Bool-cases (ltb (al.size_at al.candidate) size)) [
      | inl short ↦
          let al' = relink (record al { candidate = 0 }) al.candidate in
          let (tiled', nothing, same) = recycled-IsTiled al held tiled some_node in
          let room =
            shm_recycle-relink (record al { candidate = 0 }) al.candidate (links some_node) in
          (
            try_candidate (shm_harvest al') size,
            rw (some_node, short, room) refl,
            Granted-Same size al al' held (try_candidate (shm_harvest al') size) same
                (harvest-Granted al' held size tiled' wanted nothing),
          )
      | inr fits ↦ (
        try_candidate al size,
        rw (some_node, fits) refl,
        try_candidate-Granted al held size tiled wanted (λ e. absurd (
            let no : (al.candidate == 0) || ltb (al.size_at al.candidate) size ≡ false =
              rw (some_node, fits) refl in
            cc)),
      )
    ]
  ]
