-- ===== src/ShmAlloc/Counts.antt =====
-- libckits/shmAlloc.c: the reference counts in the low bits of the sizes.
use mcuproxy.Prelude.{
  ℕ, ◌+◌, ◌-◌, ◌<◌, ◌≡◌, refl, ap, sym, ◌∙◌, true, false, List, [], ◌∷◌, arith, ◌==◌, if◌then◌else◌,
  Bool-cases, inl, inr, leb,
}
use mcuproxy.PoolAlloc.Cover.{has}
use mcuproxy.PoolAlloc.{put_size, unlink}
use mcuproxy.ShmAlloc.Tiles.{masked}
use mcuproxy.ShmAlloc.{real_size, references}

-- How often a block is in a list of owners.
unfoldable pub count : ℕ → List ℕ → ℕ
count a [] = 0
count a (b ∷ owners) = if b == a then 1 + count a owners else count a owners

-- A header written with another count.
pub recount_masked_at :
    (sizes : ℕ → ℕ) (a v b : ℕ)
    → real_size v ≡ real_size (sizes a)
    → masked (put_size sizes a v) b ≡ masked sizes b
unfolding masked put_size
recount_masked_at sizes a v b h = elim (Bool-cases (b == a)) [
  | inl here ↦ let e : b ≡ a = ground arith in rw here (h ∙ ap (λ n. real_size (sizes n)) (sym e))
  | inr there ↦ rw there refl
]

pub recount_masked :
    (sizes : ℕ → ℕ) (a v : ℕ)
    → real_size v ≡ real_size (sizes a)
    → masked (put_size sizes a v) ≡ masked sizes
recount_masked sizes a v h = λ i b. recount_masked_at sizes a v b h i

pub apart_keys : (b a : ℕ) (held : List ℕ) → has b held ≡ false → has a held ≡ true → a == b ≡ false
apart_keys b a held k h = elim (Bool-cases (a == b)) [
  | inl here ↦ absurd (let e : a ≡ b = ground arith in let j = rw e at h in cc)
  | inr there ↦ there
]

pub put_self : (sizes : ℕ → ℕ) (a v : ℕ) → put_size sizes a v a ≡ v
unfolding put_size
put_self sizes a v = ground arith

pub put_other : (sizes : ℕ → ℕ) (a v b : ℕ) → a == b ≡ false → put_size sizes a v b ≡ sizes b
unfolding put_size
put_other sizes a v b h = ground (arith, h)

pub has-count : (a : ℕ) (owners : List ℕ) → has a owners ≡ true → 0 < count a owners
unfolding has count
has-count a [] h = absurd (cc)
has-count a (b ∷ owners) h = elim (Bool-cases (b == a)) [
  | inl here ↦ ground (arith, here)
  | inr there ↦ ground (arith, there, has-count a owners)
]

pub counted-has : (a : ℕ) (owners : List ℕ) → 0 < count a owners → has a owners ≡ true
unfolding has count
counted-has a [] h = absurd (omega arith)
counted-has a (b ∷ owners) h = elim (Bool-cases (b == a)) [
  | inl here ↦ ground (arith, here)
  | inr there ↦ ground (arith, there, counted-has a owners (ground (arith, h, there)))
]

-- One owner less.
pub count-unlink :
    (a c : ℕ) (owners : List ℕ)
    → has a owners ≡ true
    → count c (unlink a owners) + (if a == c then 1 else 0) ≡ count c owners
unfolding has count unlink
count-unlink a c [] h = absurd (cc)
count-unlink a c (b ∷ owners) h = elim (Bool-cases (b == a)) [
  | inl here ↦ let e : b ≡ a = ground arith in rw (here, e) (ground arith)
  | inr there ↦ ground (arith, there, count-unlink a c owners)
]

pub has-unlink_other :
    (a c : ℕ) (nodes : List ℕ) → a == c ≡ false → has c (unlink a nodes) ≡ has c nodes
unfolding has unlink
has-unlink_other a c [] h = refl
has-unlink_other a c (b ∷ nodes) h = elim (Bool-cases (b == a)) [
  | inl here ↦ ground (arith, here)
  | inr there ↦ ground (arith, there, has-unlink_other a c nodes)
]

pub bounded : (n : ℕ) → references n < 4
unfolding references
bounded n = omega arith

pub one_more :
    (n : ℕ)
    → leb (real_size n + 3) n ≡ false
    → (real_size (n + 1) ≡ real_size n) × (references (n + 1) ≡ 1 + references n)
unfolding real_size references
one_more n h = (ground (arith, h), ground (arith, h))

pub one_less :
    (n : ℕ)
    → references n == 0 ≡ false
    → (real_size (n - 1) ≡ real_size n) × (1 + references (n - 1) ≡ references n)
unfolding real_size references
one_less n h = (ground (arith, h), ground (arith, h))

pub most_references : (n : ℕ) → (leb (real_size n + 3) n ≡ true → references n ≡ 3)
unfolding real_size references
most_references n h = ground (arith, h)
