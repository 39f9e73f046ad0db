-- ===== src/PoolAlloc/Wide.antt =====
-- libckits/myAlloc.c: a free block has room for the links of the free list in front of its data.
use mathlib.Core.Path.{subst}
use mcuproxy.Prelude.{
  ℕ, zero, suc, ◌+◌, ◌%◌, ◌^◌, ◌≤◌, ◌<◌, ◌≡◌, refl, sym, ap, ◌⊎◌, inl, inr, Bool, true, false, List,
  [], ◌∷◌, arith, Option, none, some, leb, ◌==◌, Bool-cases, Option-cases,
}
use mcuproxy.PoolAlloc.Cover.{has, Sided, neighbour-Sided}
use mcuproxy.PoolAlloc.Tiles.{block-within, Joining, absorb-Joining, has-next, has-first}
use mcuproxy.PoolAlloc.{
  link_bytes, to_pool, put_size, unlink, add_behind, or_front, place, neighbour, absorb, combine,
}

-- The links fit in each of the blocks.
abbrev pub Wide : (ℕ → ℕ) → List ℕ → Type 0
Wide sizes nodes = (a : ℕ) → has a nodes ≡ true → link_bytes ≤ sizes a

has_cases : (a b : ℕ) (nodes : List ℕ) → has a (b ∷ nodes) ≡ true → (b ≡ a) ⊎ (has a nodes ≡ true)
unfolding has
has_cases a b nodes h = elim (Bool-cases (b == a)) [
  | inl here ↦ inl (ground arith)
  | inr there ↦ inr (rw there at h)
]

pub has-unlink : (b a : ℕ) (nodes : List ℕ) → has a (unlink b nodes) ≡ true → has a nodes ≡ true
unfolding has unlink
has-unlink b a [] h = h
has-unlink b a (c ∷ nodes) h = ground (arith, has-unlink b a nodes)

pub Wide-unlink :
    (sizes : ℕ → ℕ) (b : ℕ) (nodes : List ℕ) → Wide sizes nodes → Wide sizes (unlink b nodes)
Wide-unlink sizes b nodes wide a linked = wide a (has-unlink b a nodes linked)

pub Wide-cons :
    (sizes : ℕ → ℕ) (b : ℕ) (nodes : List ℕ)
    → link_bytes ≤ sizes b
    → Wide sizes nodes
    → Wide sizes (b ∷ nodes)
Wide-cons sizes b nodes room wide a linked = elim (has_cases a b nodes linked) [
  | inl here ↦ rw (sym here) room
  | inr there ↦ wide a there
]

pub Wide-put_size :
    (sizes : ℕ → ℕ) (b v : ℕ) (nodes : List ℕ)
    → link_bytes ≤ v
    → Wide sizes nodes
    → Wide (put_size sizes b v) nodes
unfolding put_size
Wide-put_size sizes b v nodes room wide a linked = elim (Bool-cases (a == b)) [
  | inl here ↦ rw here room
  | inr there ↦ rw there (wide a linked)
]

put_size-same : (sizes : ℕ → ℕ) (a v : ℕ) → put_size sizes a v a ≡ v
unfolding put_size
put_size-same sizes a v = ground arith

abbrev list_or : Option (List ℕ) → List ℕ
list_or none = []
list_or (some nodes) = nodes

-- The list after the placement has the block and the others.
add_behind-Wide :
    (sizes : ℕ → ℕ) (size cur : ℕ) (nodes rest : List ℕ)
    → add_behind sizes size cur nodes ≡ some rest
    → link_bytes ≤ sizes cur
    → Wide sizes nodes
    → Wide sizes rest
unfolding add_behind has
add_behind-Wide sizes size cur [] rest h room wide = absurd (cc)
add_behind-Wide sizes size cur (b ∷ nodes) rest h room wide =
    let first : link_bytes ≤ sizes b = wide b (ground arith) in
    let others : Wide sizes nodes = λ a linked. wide a (ground (arith, linked)) in
    elim (Bool-cases (leb size (sizes b))) [
      | inl here ↦
          let e : b ∷ cur ∷ nodes ≡ rest = ap list_or (rw here at h) in
          subst (Wide sizes) e
            (Wide-cons sizes b (cur ∷ nodes) first (Wide-cons sizes cur nodes room others))
      | inr there ↦ elim (Option-cases (add_behind sizes size cur nodes)) [
        | inl nowhere ↦ absurd (let e : none ≡ some rest = rw (there, nowhere) at h in cc)
        | inr (rest', found) ↦
            let e : b ∷ rest' ≡ rest = ap list_or (rw (there, found) at h) in
            subst (Wide sizes) e (
              Wide-cons sizes b rest' first
                (add_behind-Wide sizes size cur nodes rest' found room others))
      ]
    ]

or_front-Wide :
    (sizes : ℕ → ℕ) (cur : ℕ) (nodes : List ℕ) (o : Option (List ℕ))
    → add_behind sizes (sizes cur) cur nodes ≡ o
    → link_bytes ≤ sizes cur
    → Wide sizes nodes
    → Wide sizes (or_front cur nodes o)
unfolding or_front
or_front-Wide sizes cur nodes none h room wide = Wide-cons sizes cur nodes room wide
or_front-Wide sizes cur nodes (some rest) h room wide =
    add_behind-Wide sizes (sizes cur) cur nodes rest h room wide

pub Wide-place :
    (sizes : ℕ → ℕ) (cur : ℕ) (nodes : List ℕ)
    → link_bytes ≤ sizes cur
    → Wide sizes nodes
    → Wide sizes (place sizes cur nodes)
unfolding place
Wide-place sizes cur nodes room wide =
    or_front-Wide sizes cur nodes (add_behind sizes (sizes cur) cur nodes) refl room wide

module _ (base bytes : ℕ) (small : base + bytes < 2 ^ 31) where
  -- The blocks while they are combined.
  abbrev pub WideAt : ℕ × (ℕ → ℕ) × List ℕ → List ℕ → Type 0
  WideAt (cur, sizes, nodes) held = (link_bytes ≤ sizes cur) × Wide sizes nodes × Wide sizes held

  grown-WideAt :
      (sizes : ℕ → ℕ) (a v : ℕ) (nodes held : List ℕ)
      → link_bytes ≤ v
      → Wide sizes nodes
      → Wide sizes held
      → WideAt (a, put_size sizes a v, nodes) held
  grown-WideAt sizes a v nodes held room free taken = (
    rw (put_size-same sizes a v) room,
    Wide-put_size sizes a v nodes room free,
    Wide-put_size sizes a v held room taken,
  )

  absorb-WideAt :
      (sizes : ℕ → ℕ) (cur : ℕ) (nodes held : List ℕ) (found : ℕ × Bool)
      → Sided sizes cur nodes (some found)
      → Joining base bytes small sizes cur nodes held
      → WideAt (cur, sizes, nodes) held
      → WideAt (absorb sizes cur nodes found) held
  unfolding absorb to_pool
  absorb-WideAt sizes cur nodes held (node, true) (linked, side) tiles (room, free, taken) =
      let (low, high) =
        block-within base bytes small sizes (cur ∷ nodes) held node tiles
          (has-next base bytes small node cur nodes linked) in
      let (low', high') =
        block-within base bytes small sizes (cur ∷ nodes) held cur tiles
          (has-first base bytes small cur nodes) in
      grown-WideAt sizes node ((sizes node + to_pool (sizes cur)) % 2 ^ 32) (unlink node nodes) held
        (omega (arith, room)) (Wide-unlink sizes node nodes free) taken
  absorb-WideAt sizes cur nodes held (node, false) (linked, side) tiles (room, free, taken) =
      let (low, high) =
        block-within base bytes small sizes (cur ∷ nodes) held node tiles
          (has-next base bytes small node cur nodes linked) in
      let (low', high') =
        block-within base bytes small sizes (cur ∷ nodes) held cur tiles
          (has-first base bytes small cur nodes) in
      grown-WideAt sizes cur ((sizes cur + to_pool (sizes node)) % 2 ^ 32) (unlink node nodes) held
        (omega (arith, room)) (Wide-unlink sizes node nodes free) taken

  -- The rounds keep that, for every fuel.
  pub combine-WideAt :
      (fuel cur : ℕ) (sizes : ℕ → ℕ) (nodes held : List ℕ)
      → Joining base bytes small sizes cur nodes held
      → WideAt (cur, sizes, nodes) held
      → WideAt (combine fuel (cur, sizes, nodes)) held
  unfolding combine
  combine-WideAt zero cur sizes nodes held tiles wide = wide
  combine-WideAt (suc fuel) cur sizes nodes held tiles wide =
      elim (Option-cases (neighbour sizes cur nodes)) [
        | inl nothing ↦
            let over : combine (suc fuel) (cur, sizes, nodes) ≡ (cur, sizes, nodes) =
              rw (nothing, combine) refl in
            subst (λ r. WideAt r held) (sym over) wide
        | inr (found, e) ↦
            let side : Sided sizes cur nodes (some found) =
              rw e at (neighbour-Sided sizes cur nodes) in
            let (cur', sizes', nodes') = absorb sizes cur nodes found in
            let round : combine (suc fuel) (cur, sizes, nodes)
                ≡ combine fuel (absorb sizes cur nodes found) =
              rw (e, combine) refl in
            subst (λ r. WideAt r held) (sym round)
              (combine-WideAt fuel cur' sizes' nodes' held
                (absorb-Joining base bytes small sizes cur nodes held found side tiles)
                (absorb-WideAt sizes cur nodes held found side tiles wide))
      ]
