-- ===== src/PoolAlloc/Tiles.antt =====
-- libckits/myAlloc.c: the blocks of a pool tile its chunk.
use mcuproxy.Prelude.{
  ℕ, zero, suc, ◌+◌, ◌%◌, ◌^◌, ◌≤◌, ◌<◌, ◌≡◌, refl, ap, sym, ◌∙◌, inl, inr, Bool, true, false, ◌&&◌,
  List, ◌∷◌, arith, some, ltb, leb, if◌then◌else◌, Option-cases,
}
use mathlib.Core.Path.{subst}
use mcuproxy.PoolAlloc.Cover.{
  cover, covers, covers-put_size, has, covers-unlink, covers-place, Sided, neighbour-Sided,
}
use mcuproxy.PoolAlloc.{to_pool, put_size, unlink, place, neighbour, absorb, combine}

-- 1 for the bytes of the chunk.
unfoldable pub inside : ℕ → ℕ → ℕ → ℕ
inside base bytes x = if leb base x && ltb x (base + bytes) then 1 else 0

-- Each byte of the chunk is in one block of the two lists, and no other byte is in any.
abbrev pub Tiles : ℕ → ℕ → (ℕ → ℕ) → List ℕ → List ℕ → Type 0
Tiles base bytes sizes nodes held =
    (x : ℕ) → covers sizes x nodes + covers sizes x held ≡ inside base bytes x

module _ (base bytes : ℕ) (small : base + bytes < 2 ^ 31) where
  -- A linked block lies in the chunk, and its bytes are in no other block.
  pub block-within :
      (sizes : ℕ → ℕ) (nodes held : List ℕ) (a : ℕ)
      → Tiles base bytes sizes nodes held
      → has a nodes ≡ true
      → (base ≤ a) × (a + 4 + sizes a ≤ base + bytes)
  unfolding cover inside
  block-within sizes nodes held a tiles linked =
      let first = covers-unlink sizes a a nodes linked in
      let last = covers-unlink sizes a (a + 3 + sizes a) nodes linked in
      (ground (arith, first, tiles a), ground (arith, last, tiles (a + 3 + sizes a)))

  pub alone :
      (sizes : ℕ → ℕ) (nodes held : List ℕ) (a x : ℕ)
      → Tiles base bytes sizes nodes held
      → has a nodes ≡ true
      → cover x a (sizes a) ≡ 1
      → (covers sizes x (unlink a nodes) ≡ 0) × (covers sizes x held ≡ 0)
  unfolding inside
  alone sizes nodes held a x tiles linked here =
      let split = covers-unlink sizes a x nodes linked in
      (ground (arith, split, tiles x), ground (arith, split, tiles x))

  -- A block cut in two, the front part held.
  pub split-Tiles :
      (sizes : ℕ → ℕ) (nodes held : List ℕ) (node aligned left : ℕ)
      → Tiles base bytes sizes nodes held
      → has node nodes ≡ true
      → left + 4 + aligned ≡ sizes node
      → let cur = node + 4 + aligned in
        let sizes' = put_size (put_size sizes cur left) node aligned in
        Tiles base bytes sizes' (place sizes' cur (unlink node nodes)) (node ∷ held)
  unfolding covers
  split-Tiles sizes nodes held node aligned left tiles linked rest x =
      let cur = node + 4 + aligned in
      let one = put_size sizes cur left in
      let sizes' = put_size one node aligned in
      let (free_cur, held_cur) =
        alone sizes nodes held node cur tiles linked (unfold cover in ground (arith, rest)) in
      let (free_node, held_node) =
        alone sizes nodes held node node tiles linked (unfold cover in ground arith) in
      let size_cur : sizes' cur ≡ left = unfold put_size in ground arith in
      let size_node : sizes' node ≡ aligned = unfold put_size in ground arith in
      let same : (xs : List ℕ)
          → covers sizes cur xs ≡ 0
          → covers sizes node xs ≡ 0
          → covers sizes' x xs ≡ covers sizes x xs =
        λ xs h k.
          covers-put_size one node aligned x xs (covers-put_size sizes cur left node xs h ∙ k)
          ∙ covers-put_size sizes cur left x xs h in
      let cut : cover x node (sizes node) ≡ cover x node aligned + cover x cur left =
        unfold cover in ground (arith, rest) in
      rw (size_node) (
        omega (
          arith,
          covers-place sizes' cur x (unlink node nodes),
          ap (cover x cur) size_cur,
          same (unlink node nodes) free_cur free_node,
          same held held_cur held_node,
          covers-unlink sizes node x nodes linked,
          cut,
          tiles x,
        ))

  -- A block held as it is.
  pub whole-Tiles :
      (sizes : ℕ → ℕ) (nodes held : List ℕ) (node : ℕ)
      → Tiles base bytes sizes nodes held
      → has node nodes ≡ true
      → Tiles base bytes sizes (unlink node nodes) (node ∷ held)
  unfolding covers
  whole-Tiles sizes nodes held node tiles linked x =
      omega (arith, tiles x, covers-unlink sizes node x nodes linked)

  -- While blocks are combined: the free blocks, the block `cur`, and the held ones.
  abbrev pub Joining : (ℕ → ℕ) → ℕ → List ℕ → List ℕ → Type 0
  Joining sizes cur nodes held = Tiles base bytes sizes (cur ∷ nodes) held

  -- The block at `a` grows by the block behind it, which is `b`; both are taken out of the lists.
  pub grow-Tiles :
      (sizes : ℕ → ℕ) (a b grown : ℕ) (nodes held : List ℕ)
      → ((x : ℕ)
          → cover x a (sizes a) + cover x b (sizes b) + covers sizes x nodes + covers sizes x held
            ≡ inside base bytes x)
      → b ≡ a + 4 + sizes a
      → grown ≡ sizes a + 4 + sizes b
      → Joining (put_size sizes a grown) a nodes held
  unfolding covers
  grow-Tiles sizes a b grown nodes held tiles behind sum x =
      let own : cover a a (sizes a) ≡ 1 = unfold cover in ground arith in
      let most : inside base bytes a ≤ 1 = unfold inside in ground arith in
      let size_a : put_size sizes a grown a ≡ grown = unfold put_size in ground arith in
      let joined : cover x a grown ≡ cover x a (sizes a) + cover x b (sizes b) =
        unfold cover in ground (arith, behind, sum) in
      rw size_a (
        omega (
          arith,
          joined,
          tiles x,
          covers-put_size sizes a grown x nodes (omega (arith, own, most, tiles a)),
          covers-put_size sizes a grown x held (omega (arith, own, most, tiles a)),
        ))

  abbrev pub JoiningAt : ℕ × (ℕ → ℕ) × List ℕ → List ℕ → Type 0
  JoiningAt (cur, sizes, nodes) held = Joining sizes cur nodes held

  pub has-next : (a cur : ℕ) (nodes : List ℕ) → has a nodes ≡ true → has a (cur ∷ nodes) ≡ true
  unfolding has
  has-next a cur nodes h = ground (arith, h)

  pub has-first : (cur : ℕ) (nodes : List ℕ) → has cur (cur ∷ nodes) ≡ true
  unfolding has
  has-first cur nodes = ground arith

  pub pool_fits : (n : ℕ) → n < 2 ^ 31 → to_pool n ≡ n + 4
  unfolding to_pool
  pool_fits n h = omega arith

  taken :
      (sizes : ℕ → ℕ) (cur node x : ℕ) (nodes held : List ℕ)
      → has node nodes ≡ true
      → covers sizes x (cur ∷ nodes) + covers sizes x held ≡ inside base bytes x
      → cover x node (sizes node)
          + cover x cur (sizes cur)
          + covers sizes x (unlink node nodes)
          + covers sizes x held
        ≡ inside base bytes x
  unfolding covers
  taken sizes cur node x nodes held linked tiles =
      omega (arith, tiles, covers-unlink sizes node x nodes linked)

  pub absorb-Joining :
      (sizes : ℕ → ℕ) (cur : ℕ) (nodes held : List ℕ) (found : ℕ × Bool)
      → Sided sizes cur nodes (some found)
      → Joining sizes cur nodes held
      → JoiningAt (absorb sizes cur nodes found) held
  unfolding absorb
  absorb-Joining sizes cur nodes held (node, true) (linked, side) tiles =
      let (low, high) =
        block-within sizes (cur ∷ nodes) held node tiles (has-next node cur nodes linked) in
      let (low', high') = block-within sizes (cur ∷ nodes) held cur tiles (has-first cur nodes) in
      let pool_node = pool_fits (sizes node) (omega arith) in
      let pool_cur = pool_fits (sizes cur) (omega arith) in
      grow-Tiles sizes node cur ((sizes node + to_pool (sizes cur)) % 2 ^ 32) (unlink node nodes)
        held (λ x. taken sizes cur node x nodes held linked (tiles x)) (omega arith) (omega arith)
  absorb-Joining sizes cur nodes held (node, false) (linked, side) tiles =
      let (low, high) =
        block-within sizes (cur ∷ nodes) held node tiles (has-next node cur nodes linked) in
      let (low', high') = block-within sizes (cur ∷ nodes) held cur tiles (has-first cur nodes) in
      let pool_node = pool_fits (sizes node) (omega arith) in
      let pool_cur = pool_fits (sizes cur) (omega arith) in
      grow-Tiles sizes cur node ((sizes cur + to_pool (sizes node)) % 2 ^ 32) (unlink node nodes)
        held (λ x. omega (arith, taken sizes cur node x nodes held linked (tiles x))) (omega arith)
        (omega arith)

  -- The rounds keep the tiles, for every fuel.
  pub combine-Joining :
      (fuel : ℕ) (cur : ℕ) (sizes : ℕ → ℕ) (nodes held : List ℕ)
      → Joining sizes cur nodes held
      → JoiningAt (combine fuel (cur, sizes, nodes)) held
  unfolding combine
  combine-Joining zero cur sizes nodes held tiles = tiles
  combine-Joining (suc fuel) cur sizes nodes held tiles =
      elim (Option-cases (neighbour sizes cur nodes)) [
        | inl nothing ↦
            let over : combine (suc fuel) (cur, sizes, nodes) ≡ (cur, sizes, nodes) =
              rw (nothing, combine) refl in
            subst (λ r. JoiningAt r held) (sym over) tiles
        | inr (found, e) ↦
            let side : Sided sizes cur nodes (some found) =
              rw e at (neighbour-Sided sizes cur nodes) in
            let (cur', sizes', nodes') = absorb sizes cur nodes found in
            let round : combine (suc fuel) (cur, sizes, nodes)
                ≡ combine fuel (absorb sizes cur nodes found) =
              rw (e, combine) refl in
            subst (λ r. JoiningAt r held) (sym round)
              (combine-Joining fuel cur' sizes' nodes' held
                (absorb-Joining sizes cur nodes held found side tiles))
      ]
