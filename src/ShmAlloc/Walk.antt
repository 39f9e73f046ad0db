-- ===== src/ShmAlloc/Walk.antt =====
-- libckits/shmAlloc.c: `relink` keeps the tiles and the order of the free list.
use mcuproxy.Prelude.{
  ℕ, ◌+◌, ◌%◌, ◌^◌, ◌≤◌, ◌<◌, ◌≡◌, refl, sym, ◌∙◌, Bool, true, false, List, [], ◌∷◌, arith, ◌==◌,
  Bool-cases, inl, inr, ltb,
}
use mcuproxy.PoolAlloc.Cover.{cover, covers, has}
use mcuproxy.PoolAlloc.{put_size, to_pool}
use mcuproxy.ShmAlloc.Tiles.{Parts, Rises, Same, grow-Parts}
use mcuproxy.PoolAlloc.Tiles.{inside}
use mathlib.Core.Path.{subst}
use mcuproxy.ShmAlloc.{ShmAlloc, references, link_right, link_node, relink}

Rises-below : (lo lo' : ℕ) (nodes : List ℕ) → lo ≤ lo' → Rises lo' nodes → Rises lo nodes
unfolding Rises
Rises-below lo lo' [] h r = tt
Rises-below lo lo' (a ∷ nodes) h (above, r) = (omega arith, r)

-- What linking leaves: the tiles, the order, and the headers of the held blocks.
abbrev pub IsLinked : ℕ → ℕ → ℕ → (ℕ → ℕ) → List ℕ → (ℕ → ℕ) × List ℕ → Type 0
IsLinked base bytes lo sizes held (sizes', nodes) =
    Parts base bytes sizes' nodes held × Rises lo nodes × Same sizes sizes' held

-- The last step, for a node that is part of the list.
abbrev JoinsRight : ℕ → ℕ → ℕ → (ℕ → ℕ) → List ℕ → (ℕ → ℕ) × List ℕ → Type 0
JoinsRight base bytes cur sizes held (sizes', nodes) =
    Parts base bytes sizes' (cur ∷ nodes) held × Rises cur nodes × Same sizes sizes' held

link_right-new :
    (sizes : ℕ → ℕ) (cur : ℕ) (nodes : List ℕ)
    → link_right sizes cur false nodes
      ≡ ((link_right sizes cur true nodes).0, cur ∷ (link_right sizes cur true nodes).1)
unfolding link_right
link_right-new sizes cur [] = refl
link_right-new sizes cur (node ∷ nodes) = elim (Bool-cases (cur + to_pool (sizes cur) == node)) [
  | inl here ↦ rw here
  | inr there ↦ rw there
]

-- A node in front of all the others is where the loop stops.
link_node-stops :
    (sizes : ℕ → ℕ) (cur : ℕ) (linked : Bool) (nodes : List ℕ)
    → Rises cur nodes
    → link_node sizes cur linked nodes ≡ link_right sizes cur linked nodes
unfolding link_node Rises
link_node-stops sizes cur linked [] r = refl
link_node-stops sizes cur linked (node ∷ nodes) (above, r) =
    let stop : ltb cur node ≡ true = ground arith in rw stop refl

module _ (base bytes : ℕ) (small : base + bytes < 2 ^ 31) where
  link_right-JoinsRight :
      (sizes : ℕ → ℕ) (cur : ℕ) (nodes held : List ℕ)
      → Parts base bytes sizes (cur ∷ nodes) held
      → Rises cur nodes
      → JoinsRight base bytes cur sizes held (link_right sizes cur true nodes)
  unfolding link_right Rises
  link_right-JoinsRight sizes cur [] held parts r = (parts, tt, λ a h. refl)
  link_right-JoinsRight sizes cur (node ∷ nodes) held parts (above, r) =
      elim (Bool-cases (cur + to_pool (sizes cur) == node)) [
        | inl here ↦
            let (parts', same) =
              grow-Parts base bytes small sizes cur node nodes held parts (ground arith) in
            rw here (parts', Rises-below cur node nodes (omega arith) r, same)
        | inr there ↦ rw there (parts, (above, r), λ a h. refl)
      ]

  -- A block passed by the loop counts as held for the rest of it.
  pass :
      (sizes : ℕ → ℕ) (cur node : ℕ) (nodes held : List ℕ)
      → Parts base bytes sizes (cur ∷ node ∷ nodes) held
      → Parts base bytes sizes (cur ∷ nodes) (node ∷ held)
  unfolding covers has
  pass sizes cur node nodes held parts = record {
    tiles = λ x. omega (arith, parts.tiles x);
    single = λ a h. parts.single a (ground (arith, h));
  }

  unpass :
      (sizes sizes' : ℕ → ℕ) (lo node : ℕ) (nodes held : List ℕ)
      → references (sizes node) ≡ 0
      → lo < node
      → Parts base bytes sizes' nodes (node ∷ held)
      → Rises node nodes
      → Same sizes sizes' (node ∷ held)
      → IsLinked base bytes lo sizes held (sizes', node ∷ nodes)
  unfolding covers has Rises
  unpass sizes sizes' lo node nodes held single above parts r same =
      let kept : sizes' node ≡ sizes node = same node (ground arith) in
      (
        record {
          tiles = λ x. omega (arith, parts.tiles x);
          single = λ a h. elim (Bool-cases (node == a)) [
            | inl here ↦ let e : node ≡ a = ground arith in rw (sym e, kept) single
            | inr there ↦ parts.single a (ground (arith, h, there))
          ];
        },
        (above, r),
        λ a h. same a (ground (arith, h)),
      )

  swap :
      (sizes : ℕ → ℕ) (cur node : ℕ) (nodes held : List ℕ)
      → Parts base bytes sizes (cur ∷ node ∷ nodes) held
      → Parts base bytes sizes (node ∷ cur ∷ nodes) held
  unfolding covers has
  swap sizes cur node nodes held parts = record {
    tiles = λ x. omega (arith, parts.tiles x);
    single = λ a h. parts.single a (ground (arith, h));
  }

  distinct :
      (sizes : ℕ → ℕ) (cur node : ℕ) (nodes held : List ℕ)
      → Parts base bytes sizes (cur ∷ node ∷ nodes) held
      → cur == node ≡ false
  unfolding covers cover inside
  distinct sizes cur node nodes held parts = ground (arith, parts.tiles node)

  -- A single node in front of the others.
  front-IsLinked :
      (lo : ℕ) (sizes : ℕ → ℕ) (cur : ℕ) (nodes held : List ℕ) (out : (ℕ → ℕ) × List ℕ)
      → JoinsRight base bytes cur sizes held out
      → lo < cur
      → IsLinked base bytes lo sizes held (out.0, cur ∷ out.1)
  unfolding Rises
  front-IsLinked lo sizes cur nodes held (sizes', nodes') (parts, r, same) above =
      (parts, (above, r), same)

  right-IsLinked :
      (lo : ℕ) (sizes : ℕ → ℕ) (cur : ℕ) (nodes held : List ℕ)
      → Parts base bytes sizes (cur ∷ nodes) held
      → Rises cur nodes
      → lo < cur
      → IsLinked base bytes lo sizes held (link_right sizes cur false nodes)
  right-IsLinked lo sizes cur nodes held parts r above =
      subst (IsLinked base bytes lo sizes held) (sym (link_right-new sizes cur nodes)) (
        front-IsLinked lo sizes cur nodes held (link_right sizes cur true nodes)
          (link_right-JoinsRight sizes cur nodes held parts r) above)

  -- The loop after a join is over at once.
  joined-IsLinked :
      (lo : ℕ) (sizes : ℕ → ℕ) (cur node : ℕ) (nodes held : List ℕ)
      → Parts base bytes sizes (cur ∷ node ∷ nodes) held
      → Rises node nodes
      → lo < node
      → node + to_pool (sizes node) ≡ cur
      → let grown = put_size sizes node ((sizes node + to_pool (sizes cur)) % 2 ^ 32) in
        let (sizes', nodes') = link_node grown node true nodes in
        IsLinked base bytes lo sizes held (sizes', node ∷ nodes')
  joined-IsLinked lo sizes cur node nodes held parts r above side =
      let grown = put_size sizes node ((sizes node + to_pool (sizes cur)) % 2 ^ 32) in
      let (parts', same) =
        grow-Parts base bytes small sizes node cur nodes held (swap sizes cur node nodes held parts)
          side in
      let right = link_right-JoinsRight grown node nodes held parts' r in
      let (parts'', linked, same') =
        front-IsLinked lo grown node nodes held (link_right grown node true nodes) right above in
      subst (λ out. IsLinked base bytes lo sizes held (out.0, node ∷ out.1))
        (sym (link_node-stops grown node true nodes r))
        (parts'', linked, λ a h. same' a h ∙ same a h)

  pub link_node-IsLinked :
      (lo : ℕ) (sizes : ℕ → ℕ) (cur : ℕ) (nodes held : List ℕ)
      → Parts base bytes sizes (cur ∷ nodes) held
      → Rises lo nodes
      → lo < cur
      → IsLinked base bytes lo sizes held (link_node sizes cur false nodes)
  unfolding Rises link_node
  link_node-IsLinked lo sizes cur [] held parts r above =
      let e : link_node sizes cur false [] ≡ link_right sizes cur false [] = refl in
      subst (IsLinked base bytes lo sizes held) (sym e)
        (right-IsLinked lo sizes cur [] held parts tt above)
  link_node-IsLinked lo sizes cur (node ∷ nodes) held parts (node_above, r) above =
      elim (Bool-cases (ltb cur node)) [
        | inl stop ↦
            let below : cur < node = ground (arith, stop) in
            subst (IsLinked base bytes lo sizes held)
              (sym (link_node-stops sizes cur false (node ∷ nodes) (below, r)))
              (right-IsLinked lo sizes cur (node ∷ nodes) held parts (below, r) above)
        | inr further ↦ elim (Bool-cases (node + to_pool (sizes node) == cur)) [
          | inl join ↦
              let grown = put_size sizes node ((sizes node + to_pool (sizes cur)) % 2 ^ 32) in
              let e : link_node sizes cur false (node ∷ nodes) ≡ (
                (link_node grown node true nodes).0,
                node ∷ (link_node grown node true nodes).1,
              ) =
                rw (further, join, link_node) refl in
              subst (IsLinked base bytes lo sizes held) (sym e) (
                joined-IsLinked lo sizes cur node nodes held parts r node_above
                  (ground (arith, join)))
          | inr skip ↦
              let e : link_node sizes cur false (node ∷ nodes) ≡ (
                (link_node sizes cur false nodes).0,
                node ∷ (link_node sizes cur false nodes).1,
              ) =
                rw (further, skip, link_node) refl in
              let (parts', r', same) =
                link_node-IsLinked node sizes cur nodes (node ∷ held)
                  (pass sizes cur node nodes held parts) r
                  (ground (arith, further, distinct sizes cur node nodes held parts)) in
              subst (IsLinked base bytes lo sizes held) (sym e) (
                unpass sizes (link_node sizes cur false nodes).0 lo node
                  (link_node sizes cur false nodes).1 held
                  (parts.single node (unfold has in ground arith)) node_above parts' r' same)
        ]
      ]

  -- A block given to the free list, which had no reference left.
  pub relink-IsLinked :
      (al : ShmAlloc) (cur : ℕ) (held : List ℕ)
      → Parts base bytes al.size_at (cur ∷ al.free_parts) held
      → Rises 0 al.free_parts
      → 0 < cur
      → let al' = relink al cur in
        IsLinked base bytes 0 al.size_at held (al'.size_at, al'.free_parts)
  unfolding relink
  relink-IsLinked al cur held parts r above =
      link_node-IsLinked 0 al.size_at cur al.free_parts held parts r above
