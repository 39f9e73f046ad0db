-- ===== src/PoolAlloc/Cover.antt =====
-- libckits/myAlloc.c: which bytes belong to the blocks of a list.
use mcuproxy.Prelude.{
  ℕ, ◌+◌, ◌≤◌, ◌<◌, ◌≡◌, refl, ap, sym, inl, inr, Bool, true, false, ◌&&◌, List, [], ◌∷◌, arith,
  Option, none, some, ltb, leb, ◌==◌, if◌then◌else◌, Bool-cases, Option-cases,
}
use mcuproxy.PoolAlloc.{
  put_size, first_fit, unlink, add_behind, or_front, place, neighbour, to_pool,
}

-- 1 if the byte `x` is in the block of header and data at `a`, else 0.
unfoldable pub cover : ℕ → ℕ → ℕ → ℕ
cover x a size = if leb a x && ltb x (a + 4 + size) then 1 else 0

-- How many of the blocks have the byte `x`.
unfoldable pub covers : (ℕ → ℕ) → ℕ → List ℕ → ℕ
covers sizes x [] = 0
covers sizes x (a ∷ nodes) = cover x a (sizes a) + covers sizes x nodes

-- A header that no block of the list covers can be written.
pub covers-put_size :
    (sizes : ℕ → ℕ) (a v x : ℕ) (nodes : List ℕ)
    → covers sizes a nodes ≡ 0
    → covers (put_size sizes a v) x nodes ≡ covers sizes x nodes
unfolding covers cover put_size
covers-put_size sizes a v x [] h = refl
covers-put_size sizes a v x (b ∷ nodes) h = elim (Bool-cases (b == a)) [
  | inl here ↦ absurd (ground arith)
  | inr there ↦ ground (arith, there, covers-put_size sizes a v x nodes (omega arith))
]

-- Whether the node is linked.
unfoldable pub has : ℕ → List ℕ → Bool
has a [] = false
has a (b ∷ nodes) = if b == a then true else has a nodes

pub covers-unlink :
    (sizes : ℕ → ℕ) (a x : ℕ) (nodes : List ℕ)
    → has a nodes ≡ true
    → cover x a (sizes a) + covers sizes x (unlink a nodes) ≡ covers sizes x nodes
unfolding covers has unlink
covers-unlink sizes a x [] h = absurd (cc)
covers-unlink sizes a x (b ∷ nodes) h = elim (Bool-cases (b == a)) [
  | inl here ↦ let same : b ≡ a = ground arith in rw (here, same) refl
  | inr there ↦ rw there (omega (arith, covers-unlink sizes a x nodes (rw there at h)))
]

pub has-first_fit :
    (sizes : ℕ → ℕ) (size a : ℕ) (nodes : List ℕ)
    → first_fit sizes size nodes ≡ some a
    → (has a nodes ≡ true) × (size ≤ sizes a)
unfolding first_fit has
has-first_fit sizes size a [] h = absurd (cc)
has-first_fit sizes size a (b ∷ nodes) h = elim (Bool-cases (leb size (sizes b))) [
  | inl here ↦
      let same : b ≡ a = ground (arith, h, here) in (ground arith, rw (sym same) (ground arith))
  | inr there ↦
      let (linked, fits) = has-first_fit sizes size a nodes (rw there at h) in
      (ground (arith, linked), fits)
]

-- If no node was found, all the linked ones are smaller.
pub first_fit-none :
    (sizes : ℕ → ℕ) (size : ℕ) (nodes : List ℕ)
    → first_fit sizes size nodes ≡ none
    → (a : ℕ) → has a nodes ≡ true
    → sizes a < size
unfolding first_fit has
first_fit-none sizes size [] h a linked = absurd (cc)
first_fit-none sizes size (b ∷ nodes) h a linked = elim (Bool-cases (leb size (sizes b))) [
  | inl here ↦ absurd (let e : some b ≡ none = rw here at h in cc)
  | inr there ↦ elim (Bool-cases (b == a)) [
    | inl same ↦ let it : b ≡ a = ground arith in rw (sym it) (ground arith)
    | inr other ↦ first_fit-none sizes size nodes (rw there at h) a (rw other at linked)
  ]
]

covers_of : (ℕ → ℕ) → ℕ → Option (List ℕ) → ℕ
covers_of sizes x none = 0
covers_of sizes x (some nodes) = covers sizes x nodes

add_behind-covers :
    (sizes : ℕ → ℕ) (size cur x : ℕ) (nodes rest : List ℕ)
    → add_behind sizes size cur nodes ≡ some rest
    → covers sizes x rest ≡ cover x cur (sizes cur) + covers sizes x nodes
unfolding add_behind covers covers_of
add_behind-covers sizes size cur x [] rest h = absurd (cc)
add_behind-covers sizes size cur x (b ∷ nodes) rest h = elim (Bool-cases (leb size (sizes b))) [
  | inl here ↦
      let e : some (b ∷ cur ∷ nodes) ≡ some rest = rw here at h in
      omega (arith, ap (covers_of sizes x) e)
  | inr there ↦ elim (Option-cases (add_behind sizes size cur nodes)) [
    | inl nowhere ↦ absurd (let e : none ≡ some rest = rw (there, nowhere) at h in cc)
    | inr (rest', found) ↦
        let e : some (b ∷ rest') ≡ some rest = rw (there, found) at h in
        omega
          (arith, ap (covers_of sizes x) e, add_behind-covers sizes size cur x nodes rest' found)
  ]
]

or_front-covers :
    (sizes : ℕ → ℕ) (cur x : ℕ) (nodes : List ℕ) (o : Option (List ℕ))
    → add_behind sizes (sizes cur) cur nodes ≡ o
    → covers sizes x (or_front cur nodes o) ≡ cover x cur (sizes cur) + covers sizes x nodes
unfolding or_front covers
or_front-covers sizes cur x nodes none h = refl
or_front-covers sizes cur x nodes (some rest) h =
    add_behind-covers sizes (sizes cur) cur x nodes rest h

pub covers-place :
    (sizes : ℕ → ℕ) (cur x : ℕ) (nodes : List ℕ)
    → covers sizes x (place sizes cur nodes) ≡ cover x cur (sizes cur) + covers sizes x nodes
unfolding place
covers-place sizes cur x nodes =
    or_front-covers sizes cur x nodes (add_behind sizes (sizes cur) cur nodes) refl

-- A neighbour that was found is linked, and ends where `cur` starts or starts where `cur` ends.
abbrev pub Sided : (ℕ → ℕ) → ℕ → List ℕ → Option (ℕ × Bool) → Type 0
Sided sizes cur nodes none = Unit
Sided sizes cur nodes (some (node, true)) =
    (has node nodes ≡ true) × (node + to_pool (sizes node) ≡ cur)
Sided sizes cur nodes (some (node, false)) =
    (has node nodes ≡ true) × (cur + to_pool (sizes cur) ≡ node)

Sided-cons :
    (sizes : ℕ → ℕ) (cur b : ℕ) (nodes : List ℕ) (o : Option (ℕ × Bool))
    → Sided sizes cur nodes o
    → Sided sizes cur (b ∷ nodes) o
unfolding has
Sided-cons sizes cur b nodes none h = tt
Sided-cons sizes cur b nodes (some (node, true)) (linked, side) = (ground (arith, linked), side)
Sided-cons sizes cur b nodes (some (node, false)) (linked, side) = (ground (arith, linked), side)

pub neighbour-Sided :
    (sizes : ℕ → ℕ) (cur : ℕ) (nodes : List ℕ) → Sided sizes cur nodes (neighbour sizes cur nodes)
unfolding neighbour has
neighbour-Sided sizes cur [] = tt
neighbour-Sided sizes cur (b ∷ nodes) = elim (Bool-cases (b + to_pool (sizes b) == cur)) [
  | inl here ↦ rw here (ground arith, ground arith)
  | inr there ↦ elim (Bool-cases (cur + to_pool (sizes cur) == b)) [
    | inl here ↦ rw (there, here) (ground arith, ground arith)
    | inr further ↦
        rw (there, further)
          (Sided-cons sizes cur b nodes (neighbour sizes cur nodes)
            (neighbour-Sided sizes cur nodes))
  ]
]
