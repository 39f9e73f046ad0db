-- ===== src/PoolAlloc/Settle.antt =====
-- libckits/myAlloc.c: the rounds in which `pool_free` combines blocks come to their end.
use mathlib.Core.Path.{subst}
use mcuproxy.Prelude.{
  ℕ, zero, suc, ◌+◌, ◌≢◌, ◌≤◌, ◌≡◌, refl, sym, ap, inl, inr, Bool, true, false, List, [], ◌∷◌,
  arith, length, none, some, ◌==◌, Bool-cases, Option-cases,
}
use mcuproxy.PoolAlloc.Cover.{has, Sided, neighbour-Sided}
use mcuproxy.PoolAlloc.{to_pool, unlink, neighbour, absorb, combine}

length-unlink :
    (a : ℕ) (nodes : List ℕ) → has a nodes ≡ true → suc (length (unlink a nodes)) ≡ length nodes
unfolding has unlink
length-unlink a [] h = absurd (cc)
length-unlink a (b ∷ nodes) h = elim (Bool-cases (b == a)) [
  | inl here ↦ rw here refl
  | inr there ↦ rw there (ap suc (length-unlink a nodes (rw there at h)))
]

-- No free block ends where the block starts, or starts where it ends.
abbrev pub IsSettled : ℕ × (ℕ → ℕ) × List ℕ → Type 0
IsSettled (cur, sizes, nodes) =
    (a : ℕ) → has a nodes ≡ true → (a + to_pool (sizes a) ≢ cur) × (cur + to_pool (sizes cur) ≢ a)

neighbour-none :
    (sizes : ℕ → ℕ) (cur : ℕ) (nodes : List ℕ)
    → neighbour sizes cur nodes ≡ none
    → IsSettled (cur, sizes, nodes)
unfolding neighbour has
neighbour-none sizes cur [] h a linked = absurd (cc)
neighbour-none sizes cur (b ∷ nodes) h a linked = elim (Bool-cases (b + to_pool (sizes b) == cur)) [
  | inl here ↦ absurd (let e : some (b, true) ≡ none = rw here at h in cc)
  | inr there ↦ elim (Bool-cases (cur + to_pool (sizes cur) == b)) [
    | inl here ↦ absurd (let e : some (b, false) ≡ none = rw (there, here) at h in cc)
    | inr further ↦ elim (Bool-cases (b == a)) [
      | inl same ↦ let it : b ≡ a = ground arith in rw (sym it) (ground arith, ground arith)
      | inr other ↦ neighbour-none sizes cur nodes (rw (there, further) at h) a (rw other at linked)
    ]
  ]
]

shorter :
    (sizes : ℕ → ℕ) (cur fuel : ℕ) (nodes : List ℕ) (found : ℕ × Bool)
    → Sided sizes cur nodes (some found)
    → length nodes ≤ suc fuel
    → length (absorb sizes cur nodes found).2 ≤ fuel
unfolding absorb
shorter sizes cur fuel nodes (node, true) (linked, side) h =
    omega (arith, length-unlink node nodes linked)
shorter sizes cur fuel nodes (node, false) (linked, side) h =
    omega (arith, length-unlink node nodes linked)

-- With at least the length of the free list as fuel, the rounds end with a block that no free block
-- touches.
pub combine-IsSettled :
    (fuel cur : ℕ) (sizes : ℕ → ℕ) (nodes : List ℕ)
    → length nodes ≤ fuel
    → IsSettled (combine fuel (cur, sizes, nodes))
unfolding combine
combine-IsSettled zero cur sizes [] h = neighbour-none sizes cur [] (unfold neighbour in refl)
combine-IsSettled zero cur sizes (b ∷ nodes) h = absurd (omega arith)
combine-IsSettled (suc fuel) cur sizes nodes h = elim (Option-cases (neighbour sizes cur nodes)) [
  | inl nothing ↦
      let over : combine (suc fuel) (cur, sizes, nodes) ≡ (cur, sizes, nodes) =
        rw (nothing, combine) refl in
      subst IsSettled (sym over) (neighbour-none sizes cur nodes nothing)
  | inr (found, e) ↦
      let side : Sided sizes cur nodes (some found) = rw e at (neighbour-Sided sizes cur nodes) in
      let (cur', sizes', nodes') = absorb sizes cur nodes found in
      let round : combine (suc fuel) (cur, sizes, nodes)
          ≡ combine fuel (absorb sizes cur nodes found) =
        rw (e, combine) refl in
      subst IsSettled (sym round)
        (combine-IsSettled fuel cur' sizes' nodes' (shorter sizes cur fuel nodes found side h))
]
