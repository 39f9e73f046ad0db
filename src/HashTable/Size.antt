-- ===== src/HashTable/Size.antt =====
-- libckits/hashTable.c: `realHashSize` and `djb2_hash` against what they are for.
use mcuproxy.Prelude.{
  ℕ, zero, suc, ◌+◌, ◌*◌, ◌^◌, ◌≤◌, ◌<◌, ◌≡◌, refl, sym, ◌⊎◌, inl, inr, Bool, true, false, ◌&&◌, [],
  ◌∷◌, arith, ltb, leb, ◌==◌, if◌then◌else◌, Bool-cases, take,
}
use mcuproxy.Prelude.Int.{negsuc}
use mcuproxy.HashTable.Hash.{Name, djb2_loop, djb2_hash, const_max_hashsize, real_hash_size}

-- The largest exponent up to `k` whose power is `s`, or 0.
exponent : ℕ → ℕ → ℕ
exponent zero s = 0
exponent (suc k) s = if 2 ^ suc k == s then suc k else exponent k s

fits : ℕ → Bool
fits n =
    let s = real_hash_size (suc n) in
    let k = exponent 12 s in (s == 2 ^ k) && leb k 12 && leb s (suc n) && ltb (suc n) (2 * s)

-- Whether all of the `count` sizes from `start` on fit.
fit_from : ℕ → ℕ → Bool
fit_from zero start = true
fit_from (suc count) start = if fits start then fit_from count (start + 1) else false

fits_between :
    (count start : ℕ)
    → fit_from count start ≡ true
    → (n : ℕ) → start ≤ n
    → n < start + count
    → fits n ≡ true
unfolding fit_from
fits_between zero start all n low high = absurd (omega arith)
fits_between (suc count) start all n low high = elim (Bool-cases (start == n)) [
  | inl here ↦ ground (arith, all, here)
  | inr further ↦
      fits_between count (start + 1) (ground (arith, all)) n (ground arith) (omega arith)
]

fits_table : fit_from 4096 0 ≡ true
unfolding fits fit_from exponent real_hash_size
fits_table = refl

abbrev pub IsRealSize : ℕ → ℕ → Type 0
IsRealSize hash_size s =
    (k : ℕ) × (k ≤ 12)
    × (s ≡ 2 ^ k)
    × (s ≤ hash_size)
    × ((hash_size < 2 * s) ⊎ (s ≡ const_max_hashsize))

real_hash_size-big : (n : ℕ) → ltb 4096 n ≡ true → real_hash_size n ≡ 4096
unfolding real_hash_size
real_hash_size-big n h = rw h

-- For a size above 0, `realHashSize` is the largest power of two that is at most the size asked for
-- and at most 4096.
pub real_hash_size-IsRealSize :
    (hash_size : ℕ) → 0 < hash_size → IsRealSize hash_size (real_hash_size hash_size)
unfolding fits
real_hash_size-IsRealSize zero h = absurd (omega arith)
real_hash_size-IsRealSize (suc n) h = elim (Bool-cases (ltb 4096 (suc n))) [
  | inl big ↦ (
    12,
    omega arith,
    real_hash_size-big _ big,
    ground (arith, real_hash_size-big (suc n) big),
    inr (real_hash_size-big _ big),
  )
  | inr small ↦
      let t = fits_between 4096 0 fits_table n (omega arith) (ground arith) in
      (
        exponent 12 (real_hash_size (suc n)),
        ground arith,
        ground arith,
        ground arith,
        inl (ground arith),
      )
]

pub real_hash_size-zero : real_hash_size 0 ≡ 0
unfolding real_hash_size
real_hash_size-zero = refl

djb2_loop-take : (str : Name) (hash k : ℕ) → djb2_loop hash (take k str) k ≡ djb2_loop hash str k
unfolding djb2_loop
djb2_loop-take [] hash zero = refl
djb2_loop-take [] hash (suc k) = refl
djb2_loop-take (c ∷ str) hash zero = refl
djb2_loop-take (c ∷ str) hash (suc k) = djb2_loop-take str _ k

djb2_loop-lt : (str : Name) (hash k : ℕ) → hash < 2 ^ 32 → djb2_loop hash str k < 2 ^ 32
unfolding djb2_loop
djb2_loop-lt [] hash k h = h
djb2_loop-lt (c ∷ str) hash zero h = h
djb2_loop-lt (c ∷ str) hash (suc k) h = djb2_loop-lt str _ k (omega arith)

-- With a count of -1 only the first seven bytes of a name are hashed, and the result is a word.
pub djb2_hash-take :
    (name : Name)
    → (djb2_hash name (negsuc 0) ≡ djb2_hash (take 7 name) (negsuc 0))
      × (djb2_hash name (negsuc 0) < 2 ^ 32)
unfolding djb2_hash
djb2_hash-take name = (sym (djb2_loop-take name 5381 7), djb2_loop-lt name 5381 7 (omega arith))
