-- ===== src/ShmAlloc/Tiles.antt =====
-- libckits/shmAlloc.c: the blocks tile the chunk by the sizes without their reference counts.
use mcuproxy.Prelude.{
  ℕ, ◌+◌, ◌%◌, ◌^◌, ◌≤◌, ◌<◌, ◌≡◌, refl, ap, sym, ◌∙◌, true, false, List, [], ◌∷◌, arith, ◌==◌,
  Bool-cases, inl, inr,
}
use mathlib.Core.Path.{subst}
use mcuproxy.PoolAlloc.Cover.{cover, covers, has, covers-unlink, covers-place}
use mcuproxy.PoolAlloc.Tiles.{
  Tiles, inside, block-within, grow-Tiles, pool_fits, has-first, has-next, alone, split-Tiles,
}
use mcuproxy.PoolAlloc.{put_size, to_pool, unlink}
use mcuproxy.ShmAlloc.{real_size, references}

-- The sizes without the counts.
unfoldable pub masked : (ℕ → ℕ) → ℕ → ℕ
masked sizes a = real_size (sizes a)

masked-put_size_at :
    (sizes : ℕ → ℕ) (a v b : ℕ)
    → masked (put_size sizes a v) b ≡ put_size (masked sizes) a (real_size v) b
unfolding masked put_size
masked-put_size_at sizes a v b = ground arith

pub masked-put_size :
    (sizes : ℕ → ℕ) (a v : ℕ)
    → masked (put_size sizes a v) ≡ put_size (masked sizes) a (real_size v)
masked-put_size sizes a v = λ i b. masked-put_size_at sizes a v b i

-- No node of the list counts a reference.
abbrev pub AreSingle : (ℕ → ℕ) → List ℕ → Type 0
AreSingle sizes nodes = (a : ℕ) → has a nodes ≡ true → references (sizes a) ≡ 0

-- The free blocks `nodes` and the held ones tile the chunk, and no free one counts a reference.
pub record Parts (base bytes : ℕ) (sizes : ℕ → ℕ) (nodes held : List ℕ) : Type 0 where
  pub tiles : Tiles base bytes (masked sizes) nodes held
  pub single : AreSingle sizes nodes

-- The addresses rise from `lo` on.
unfoldable pub Rises : ℕ → List ℕ → Type 0
Rises lo [] = Unit
Rises lo (a ∷ nodes) = (lo < a) × Rises a nodes

-- The headers of the blocks are the same.
abbrev pub Same : (ℕ → ℕ) → (ℕ → ℕ) → List ℕ → Type 0
Same sizes sizes' held = (a : ℕ) → has a held ≡ true → sizes' a ≡ sizes a

pub real_size_single : (n : ℕ) → references n ≡ 0 → real_size n ≡ n
unfolding references real_size
real_size_single n h = omega arith

references_sum : (n m : ℕ) → references n ≡ 0 → references m ≡ 0 → references (n + 4 + m) ≡ 0
unfolding references
references_sum n m h k = omega arith

AreSingle-grown :
    (sizes : ℕ → ℕ) (a b v : ℕ) (nodes : List ℕ)
    → AreSingle sizes (a ∷ b ∷ nodes)
    → references v ≡ 0
    → AreSingle (put_size sizes a v) (a ∷ nodes)
unfolding put_size has
AreSingle-grown sizes a b v nodes single even c linked = elim (Bool-cases (c == a)) [
  | inl here ↦ rw here even
  | inr there ↦ rw there (single c (ground (arith, linked, there)))
]

AreSingle-put_two :
    (sizes : ℕ → ℕ) (node aligned left cur : ℕ) (nodes : List ℕ)
    → AreSingle sizes (node ∷ nodes)
    → references aligned ≡ 0
    → references left ≡ 0
    → AreSingle (put_size (put_size sizes cur left) node aligned) (cur ∷ nodes)
unfolding put_size has
AreSingle-put_two sizes node aligned left cur nodes single even_aligned even_left a linked =
    elim (Bool-cases (a == node)) [
      | inl here ↦ rw here even_aligned
      | inr there ↦ elim (Bool-cases (a == cur)) [
        | inl new ↦ rw (there, new) even_left
        | inr old ↦ rw (there, old) (single a (ground (arith, linked, old)))
      ]
    ]

module _ (base bytes : ℕ) (small : base + bytes < 2 ^ 31) where
  -- A header outside a list of blocks can be written.
  pub put_size-Same :
      (sizes : ℕ → ℕ) (a v : ℕ) (held : List ℕ)
      → has a held ≡ false
      → Same sizes (put_size sizes a v) held
  unfolding put_size
  put_size-Same sizes a v held out b linked = elim (Bool-cases (b == a)) [
    | inl here ↦
        let same : b ≡ a = ground arith in
        absurd (let e : has a held ≡ true = rw (sym same) linked in cc)
    | inr there ↦ rw there refl
  ]

  own : (a size : ℕ) → cover a a size ≡ 1
  unfolding cover
  own a size = ground arith

  most : (x : ℕ) → inside base bytes x ≤ 1
  unfolding inside
  most x = ground arith

  -- A free block is no held one.
  pub not_held :
      (sizes : ℕ → ℕ) (nodes held : List ℕ) (a : ℕ)
      → Tiles base bytes sizes nodes held
      → has a nodes ≡ true
      → has a held ≡ false
  not_held sizes nodes held a tiles linked = elim (Bool-cases (has a held)) [
    | inl both ↦ absurd (
        omega (
          arith,
          tiles a,
          most a,
          own a (sizes a),
          covers-unlink sizes a a nodes linked,
          covers-unlink sizes a a held both,
        ))
    | inr out ↦ out
  ]

  -- Of a block in use, the header outside it is not one of the others.
  uncovered :
      (sizes : ℕ → ℕ) (a : ℕ) (nodes : List ℕ) → covers sizes a nodes ≡ 0 → has a nodes ≡ false
  uncovered sizes a nodes h = elim (Bool-cases (has a nodes)) [
    | inl linked ↦ absurd (omega (arith, own a (sizes a), covers-unlink sizes a a nodes linked))
    | inr out ↦ out
  ]

  masked-put_size-twice :
      (sizes : ℕ → ℕ) (a v b w : ℕ)
      → references v ≡ 0
      → references w ≡ 0
      → masked (put_size (put_size sizes a v) b w) ≡ put_size (put_size (masked sizes) a v) b w
  masked-put_size-twice sizes a v b w even_v even_w =
      masked-put_size (put_size sizes a v) b w
      ∙ ap (λ f. put_size f b (real_size w)) (masked-put_size sizes a v)
      ∙ ap (λ n. put_size (put_size (masked sizes) a n) b (real_size w)) (real_size_single v even_v)
      ∙ ap (put_size (put_size (masked sizes) a v) b) (real_size_single w even_w)

  -- The first free block is cut in two, and its front part is held from then on.
  pub cut-Parts :
      (sizes : ℕ → ℕ) (node aligned left : ℕ) (nodes held : List ℕ)
      → Parts base bytes sizes (node ∷ nodes) held
      → references aligned ≡ 0
      → references left ≡ 0
      → left + 4 + aligned ≡ sizes node
      → let cur = node + 4 + aligned in
        let sizes' = put_size (put_size sizes cur left) node aligned in
        Parts base bytes sizes' (cur ∷ nodes) (node ∷ held) × Same sizes sizes' held
  unfolding covers
  cut-Parts sizes node aligned left nodes held parts even_aligned even_left rest =
      let cur = node + 4 + aligned in
      let one = put_size sizes cur left in
      let sizes' = put_size one node aligned in
      let linked = has-first base bytes small node nodes in
      let size : masked sizes node ≡ sizes node =
        unfold masked in real_size_single (sizes node) (parts.single node linked) in
      let first : unlink node (node ∷ nodes) ≡ nodes = unfold unlink in ground arith in
      let e = masked-put_size-twice sizes cur left node aligned even_left even_aligned in
      let (free_cur, held_cur) =
        alone base bytes small (masked sizes) (node ∷ nodes) held node cur parts.tiles linked
          (unfold cover in ground (arith, rest, size)) in
      let split = rw first at (
        split-Tiles base bytes small (masked sizes) (node ∷ nodes) held node aligned left
          parts.tiles linked (omega arith)) in
      let tiles : Tiles base bytes (masked sizes') (cur ∷ nodes) (node ∷ held) =
        subst (λ f. Tiles base bytes f (cur ∷ nodes) (node ∷ held)) (sym e)
          (λ x. omega (
            arith,
            split x,
            covers-place (put_size (put_size (masked sizes) cur left) node aligned) cur x nodes,
          )) in
      (
        record {
          tiles = tiles;
          single =
              AreSingle-put_two sizes node aligned left cur nodes parts.single even_aligned
                even_left;
        },
        λ a h.
            put_size-Same one node aligned held
              (not_held (masked sizes) (node ∷ nodes) held node parts.tiles linked) a h
            ∙ put_size-Same sizes cur left held (uncovered (masked sizes) cur held held_cur) a h,
      )

  -- The block at `a` takes in the block `b` behind it.
  pub grow-Parts :
      (sizes : ℕ → ℕ) (a b : ℕ) (nodes held : List ℕ)
      → Parts base bytes sizes (a ∷ b ∷ nodes) held
      → a + to_pool (sizes a) ≡ b
      → let sizes' = put_size sizes a ((sizes a + to_pool (sizes b)) % 2 ^ 32) in
        Parts base bytes sizes' (a ∷ nodes) held × Same sizes sizes' held
  unfolding covers
  grow-Parts sizes a b nodes held parts side =
      let linked_b : has b (a ∷ b ∷ nodes) ≡ true =
        has-next base bytes small b a (b ∷ nodes) (has-first base bytes small b nodes) in
      let linked_a = has-first base bytes small a (b ∷ nodes) in
      let (low, high) =
        block-within base bytes small (masked sizes) (a ∷ b ∷ nodes) held a parts.tiles linked_a in
      let (low', high') =
        block-within base bytes small (masked sizes) (a ∷ b ∷ nodes) held b parts.tiles linked_b in
      let size_a : masked sizes a ≡ sizes a =
        unfold masked in real_size_single (sizes a) (parts.single a linked_a) in
      let size_b : masked sizes b ≡ sizes b =
        unfold masked in real_size_single (sizes b) (parts.single b linked_b) in
      let pool_a = pool_fits base bytes small (sizes a) (omega arith) in
      let pool_b = pool_fits base bytes small (sizes b) (omega arith) in
      let v = (sizes a + to_pool (sizes b)) % 2 ^ 32 in
      let total : v ≡ sizes a + 4 + sizes b = omega arith in
      let even : references v ≡ 0 =
        rw total (
          references_sum (sizes a) (sizes b) (parts.single a linked_a) (parts.single b linked_b)) in
      let tiles : Tiles base bytes (put_size (masked sizes) a (real_size v)) (a ∷ nodes) held =
        grow-Tiles base bytes small (masked sizes) a b (real_size v) nodes held
          (λ x. omega (arith, parts.tiles x)) (omega arith)
          (omega (arith, real_size_single v even)) in
      (
        record {
          tiles =
              subst (λ f. Tiles base bytes f (a ∷ nodes) held) (sym (masked-put_size sizes a v))
                tiles;
          single = AreSingle-grown sizes a b v nodes parts.single even;
        },
        put_size-Same sizes a v held
            (not_held (masked sizes) (a ∷ b ∷ nodes) held a parts.tiles linked_a),
      )
