-- ===== src/SlotAlloc/Held.antt =====
-- libckits/myAlloc.c: a list of slots, and how often a slot is in it.
use mcuproxy.Prelude.{
  ℕ, zero, suc, ◌+◌, ◌≤◌, ◌<◌, ◌≡◌, refl, ap, List, [], ◌∷◌, arith, length, ◌==◌, if◌then◌else◌,
  get_or,
}
use mcuproxy.SlotAlloc.Grid.{times}

unfoldable pub without : List ℕ → ℕ → List ℕ
without [] i = []
without (x ∷ xs) zero = xs
without (x ∷ xs) (suc i) = x ∷ without xs i

pub times-at : (xs : List ℕ) (i a : ℕ) → get_or xs i 0 ≡ a → i < length xs → 0 < times a xs
unfolding times
times-at [] i a e h = absurd (omega arith)
times-at (x ∷ xs) zero a e h = ground (arith, e)
times-at (x ∷ xs) (suc i) a e h = omega (arith, times-at xs i a e (omega arith))

pub times-without :
    (xs : List ℕ) (i a : ℕ)
    → i < length xs
    → (if get_or xs i 0 == a then 1 else 0) + times a (without xs i) ≡ times a xs
unfolding times without
times-without [] i a h = absurd (omega arith)
times-without (x ∷ xs) zero a h = refl
times-without (x ∷ xs) (suc i) a h = ground (arith, times-without xs i a)

pub times-single : (x a : ℕ) → times a (x ∷ []) ≡ (if x == a then 1 else 0)
unfolding times
times-single x a = omega arith

pub length-without : (xs : List ℕ) (i : ℕ) → i < length xs → suc (length (without xs i)) ≡ length xs
unfolding without
length-without [] i h = absurd (omega arith)
length-without (x ∷ xs) zero h = refl
length-without (x ∷ xs) (suc i) h = ap suc (length-without xs i (omega arith))

pub times-twice :
    (xs : List ℕ) (i j a : ℕ)
    → i < j
    → j < length xs
    → get_or xs i 0 ≡ a
    → get_or xs j 0 ≡ a
    → 2 ≤ times a xs
unfolding times
times-twice [] i j a lt h e e' = absurd (omega arith)
times-twice (x ∷ xs) i zero a lt h e e' = absurd (omega arith)
times-twice (x ∷ xs) zero (suc j) a lt h e e' = ground (arith, e, times-at xs j a e' (omega arith))
times-twice (x ∷ xs) (suc i) (suc j) a lt h e e' =
    omega (arith, times-twice xs i j a (omega arith) (omega arith) e e')
