-- ===== src/SlotAlloc/Grid.antt =====
-- libckits/myAlloc.c: the slots of a chunk.
use mcuproxy.Prelude.{
  ℕ, zero, suc, ◌+◌, ◌*◌, ◌≤◌, ◌<◌, ◌≡◌, refl, ap, sym, ◌∙◌, ◌⊎◌, inl, inr, List, [], ◌∷◌, ◌++◌,
  arith, length, ltb, ◌==◌, if◌then◌else◌, Bool-cases,
}
use mcuproxy.SlotAlloc.{add_slots}

-- How often `a` is in the list.
unfoldable pub times : ℕ → List ℕ → ℕ
times a [] = 0
times a (x ∷ xs) = (if x == a then 1 else 0) + times a xs

pub times-append : (a : ℕ) (xs ys : List ℕ) → times a (xs ++ ys) ≡ times a xs + times a ys
unfolding times
times-append a [] ys = omega arith
times-append a (x ∷ xs) ys = omega (arith, times-append a xs ys)

-- `n` slots from `mem` on.
unfoldable pub grid : ℕ → ℕ → ℕ → List ℕ
grid mem size zero = []
grid mem size (suc n) = mem ∷ grid (mem + size) size n

append_nil : (xs : List ℕ) → xs ++ [] ≡ xs
append_nil [] = refl
append_nil (x ∷ xs) = ap (λ r. x ∷ r) (append_nil xs)

append_assoc : (xs ys zs : List ℕ) → xs ++ ys ++ zs ≡ xs ++ (ys ++ zs)
append_assoc [] ys zs = refl
append_assoc (x ∷ xs) ys zs = ap (λ r. x ∷ r) (append_assoc xs ys zs)

pub add_slots-grid :
    (mem size n : ℕ) (slots : List ℕ) → add_slots mem size n slots ≡ slots ++ grid mem size n
unfolding add_slots grid
add_slots-grid mem size zero slots = sym (append_nil slots)
add_slots-grid mem size (suc n) slots =
    add_slots-grid (mem + size) size n (slots ++ mem ∷ [])
    ∙ append_assoc slots (mem ∷ []) (grid (mem + size) size n)

pub length-grid : (mem size n : ℕ) → length (grid mem size n) ≡ n
unfolding grid
length-grid mem size zero = refl
length-grid mem size (suc n) = ap suc (length-grid (mem + size) size n)

-- Two slots are the same or do not overlap.
abbrev pub AreApart : ℕ → ℕ → ℕ → Type 0
AreApart size a b = (a + size ≤ b) ⊎ (b + size ≤ a)

mul_next : (size n : ℕ) → size * suc n ≡ size + size * n
mul_next size n = grind arith

pub grid-from :
    (mem size n a : ℕ) → 0 < times a (grid mem size n) → (mem ≤ a) × (a + size ≤ mem + size * n)
unfolding times grid
grid-from mem size zero a h = absurd (omega arith)
grid-from mem size (suc n) a h = elim (Bool-cases (mem == a)) [
  | inl here ↦ (ground arith, ground (arith, mul_next size n))
  | inr there ↦
      let (low, high) = grid-from (mem + size) size n a (ground (arith, there)) in
      (omega arith, omega (arith, mul_next size n))
]

pub grid-once : (mem size n a : ℕ) → 0 < size → times a (grid mem size n) ≤ 1
unfolding times grid
grid-once mem size zero a h = omega arith
grid-once mem size (suc n) a h = elim (Bool-cases (ltb 0 (times a (grid (mem + size) size n)))) [
  | inl behind ↦
      let (low, high) = grid-from (mem + size) size n a (ground arith) in
      ground (arith, grid-once (mem + size) size n a h)
  | inr gone ↦ ground arith
]

pub grid-AreApart :
    (mem size n a b : ℕ)
    → 0 < times a (grid mem size n)
    → 0 < times b (grid mem size n)
    → (a ≡ b) ⊎ AreApart size a b
unfolding times grid
grid-AreApart mem size zero a b ha hb = absurd (omega arith)
grid-AreApart mem size (suc n) a b ha hb = elim (Bool-cases (mem == a)) [
  | inl here_a ↦ elim (Bool-cases (mem == b)) [
    | inl here_b ↦ inl (ground arith)
    | inr there_b ↦
        let (low, high) = grid-from (mem + size) size n b (ground (arith, there_b)) in
        inr (inl (ground arith))
  ]
  | inr there_a ↦ elim (Bool-cases (mem == b)) [
    | inl here_b ↦
        let (low, high) = grid-from (mem + size) size n a (ground (arith, there_a)) in
        inr (inr (ground arith))
    | inr there_b ↦
        grid-AreApart (mem + size) size n a b (ground (arith, there_a)) (ground (arith, there_b))
  ]
]
