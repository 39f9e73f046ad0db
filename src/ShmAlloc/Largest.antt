-- ===== src/ShmAlloc/Largest.antt =====
-- libckits/shmAlloc.c: the largest free block, as `shm_harvest` finds it.
use mcuproxy.Prelude.{
  ℕ, ◌≤◌, ◌<◌, ◌≡◌, ◌⊎◌, refl, sym, true, List, [], ◌∷◌, arith, ◌==◌, Bool-cases, inl, inr, ltb,
}
use mathlib.Core.Path.{subst}
use mcuproxy.PoolAlloc.Cover.{has}
use mcuproxy.PoolAlloc.{unlink}
use mcuproxy.ShmAlloc.Tiles.{Rises}
use mcuproxy.ShmAlloc.{largest}

pub has-unlink : (b a : ℕ) (nodes : List ℕ) → has a (unlink b nodes) ≡ true → has a nodes ≡ true
unfolding has unlink
has-unlink b a [] h = h
has-unlink b a (c ∷ nodes) h = ground (arith, has-unlink b a nodes)

pub lower-Rises : (lo a : ℕ) (nodes : List ℕ) → lo < a → Rises a nodes → Rises lo nodes
unfolding Rises
lower-Rises lo a [] h r = tt
lower-Rises lo a (b ∷ nodes) h (above, r) = (omega arith, r)

pub unlink-Rises : (lo b : ℕ) (nodes : List ℕ) → Rises lo nodes → Rises lo (unlink b nodes)
unfolding Rises unlink
unlink-Rises lo b [] r = tt
unlink-Rises lo b (a ∷ nodes) (above, r) = elim (Bool-cases (a == b)) [
  | inl here ↦ rw here (lower-Rises lo a nodes above r)
  | inr there ↦ rw there (above, unlink-Rises a b nodes r)
]

-- What the search for the largest node gives.
abbrev pub IsLargest : (ℕ → ℕ) → ℕ → ℕ → List ℕ → ℕ → Type 0
IsLargest sizes max_size cur nodes r =
    ((r ≡ cur) × ((a : ℕ) → has a nodes ≡ true → sizes a ≤ max_size))
    ⊎ ((has r nodes ≡ true)
        × (max_size < sizes r)
        × ((a : ℕ) → has a nodes ≡ true → sizes a ≤ sizes r))

-- A bound on the first size and on the others.
pub all-cons :
    (sizes : ℕ → ℕ) (m node : ℕ) (nodes : List ℕ)
    → sizes node ≤ m
    → ((a : ℕ) → has a nodes ≡ true → sizes a ≤ m)
    → (a : ℕ) → has a (node ∷ nodes) ≡ true
    → sizes a ≤ m
unfolding has
all-cons sizes m node nodes h all a linked = elim (Bool-cases (node == a)) [
  | inl here ↦ let e : node ≡ a = ground arith in rw (sym e) h
  | inr there ↦ all a (ground (arith, there))
]

pub more-IsLargest :
    (sizes : ℕ → ℕ) (max_size cur node : ℕ) (nodes : List ℕ) (r : ℕ)
    → max_size < sizes node
    → IsLargest sizes (sizes node) node nodes r
    → IsLargest sizes max_size cur (node ∷ nodes) r
unfolding has
more-IsLargest sizes max_size cur node nodes r more (inl (same, below)) = inr (
  ground (arith, same),
  rw same more,
  all-cons sizes (sizes r) node nodes (rw same (omega arith)) (rw same below),
)
more-IsLargest sizes max_size cur node nodes r more (inr (linked, above, below)) =
    inr
      (ground (arith, linked), omega arith, all-cons sizes (sizes r) node nodes (omega arith) below)

pub less-IsLargest :
    (sizes : ℕ → ℕ) (max_size cur node : ℕ) (nodes : List ℕ) (r : ℕ)
    → sizes node ≤ max_size
    → IsLargest sizes max_size cur nodes r
    → IsLargest sizes max_size cur (node ∷ nodes) r
unfolding has
less-IsLargest sizes max_size cur node nodes r less (inl (same, below)) =
    inl (same, all-cons sizes max_size node nodes less below)
less-IsLargest sizes max_size cur node nodes r less (inr (linked, above, below)) =
    inr (ground (arith, linked), above, all-cons sizes (sizes r) node nodes (omega arith) below)

pub largest-IsLargest :
    (sizes : ℕ → ℕ) (max_size cur : ℕ) (nodes : List ℕ)
    → IsLargest sizes max_size cur nodes (largest sizes max_size cur nodes)
unfolding largest has
largest-IsLargest sizes max_size cur [] = inl (refl, λ a h. absurd (cc))
largest-IsLargest sizes max_size cur (node ∷ nodes) =
    elim (Bool-cases (ltb max_size (sizes node))) [
      | inl more ↦
          let e : largest sizes max_size cur (node ∷ nodes)
              ≡ largest sizes (sizes node) node nodes =
            rw (more, largest) refl in
          subst (IsLargest sizes max_size cur (node ∷ nodes)) (sym e) (
            more-IsLargest sizes max_size cur node nodes (largest sizes (sizes node) node nodes)
              (ground (arith, more)) (largest-IsLargest sizes (sizes node) node nodes))
      | inr less ↦
          let e : largest sizes max_size cur (node ∷ nodes) ≡ largest sizes max_size cur nodes =
            rw (less, largest) refl in
          subst (IsLargest sizes max_size cur (node ∷ nodes)) (sym e) (
            less-IsLargest sizes max_size cur node nodes (largest sizes max_size cur nodes)
              (ground (arith, less)) (largest-IsLargest sizes max_size cur nodes))
    ]

pub all-front :
    (sizes : ℕ → ℕ) (cur a : ℕ) (nodes : List ℕ)
    → ((b : ℕ) → has b nodes ≡ true → sizes b ≤ sizes cur)
    → has a (cur ∷ unlink cur nodes) ≡ true
    → sizes a ≤ sizes cur
all-front sizes cur a nodes below linked =
    all-cons sizes (sizes cur) cur (unlink cur nodes) (omega arith)
      (λ b h. below b (has-unlink cur b nodes h)) a linked
