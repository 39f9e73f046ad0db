-- ===== src/HashTable/Lookup.antt =====
-- libckits/hashTable.c: what a chain means as a map, and how the chain operations change it.
use mcuproxy.Prelude.{
  ℕ, ◌+◌, ◌≤◌, ◌≡◌, refl, ap, sym, ◌∙◌, ◌⊎◌, inl, inr, Option-cases, Bool, true, false, [], ◌∷◌,
  Option, none, some, arith, if◌then◌else◌, length,
}
use mcuproxy.HashTable.Hash.{Name, str_eq}
use mcuproxy.HashTable.Chain.{HashToken, token, TokenChain, find_in_chain, assign, append_token}

pub str_eq_refl : (a : Name) → str_eq a a ≡ true
unfolding str_eq
str_eq_refl [] = refl
str_eq_refl (x ∷ xs) = ground (arith, str_eq_refl xs)

pub eq_of_str_eq : (a b : Name) → str_eq a b ≡ true → a ≡ b
unfolding str_eq
eq_of_str_eq [] [] h = refl
eq_of_str_eq [] (y ∷ ys) h = cc
eq_of_str_eq (x ∷ xs) [] h = cc
eq_of_str_eq (x ∷ xs) (y ∷ ys) h = ground (arith, eq_of_str_eq xs ys)

pub str_eq_comm : (a b : Name) → str_eq a b ≡ str_eq b a
unfolding str_eq
str_eq_comm [] [] = refl
str_eq_comm [] (y ∷ ys) = refl
str_eq_comm (x ∷ xs) [] = refl
str_eq_comm (x ∷ xs) (y ∷ ys) = ground (arith, str_eq_comm xs ys)

-- The value of the first token of that name.
unfoldable pub lookup : Name → TokenChain → Option ℕ
lookup q [] = none
lookup q (t ∷ ts) = if str_eq q t.name then some t.value else lookup q ts

unfoldable pub occurrences : Name → TokenChain → ℕ
occurrences q [] = 0
occurrences q (t ∷ ts) = (if str_eq q t.name then 1 else 0) + occurrences q ts

pub lookup-eq-none : (q : Name) (c : TokenChain) → occurrences q c ≡ 0 → lookup q c ≡ none
unfolding occurrences lookup
lookup-eq-none q [] h = refl
lookup-eq-none q (t ∷ ts) h = ground (arith, lookup-eq-none q ts)

pub occurrences-eq-zero : (q : Name) (c : TokenChain) → lookup q c ≡ none → occurrences q c ≡ 0
unfolding occurrences lookup
occurrences-eq-zero q [] h = refl
occurrences-eq-zero q (t ∷ ts) h = ground (arith, occurrences-eq-zero q ts)

abbrev pub value_of : Option HashToken → Option ℕ
value_of none = none
value_of (some t) = some t.value

module _ (n : Name) where
  pub found-eq-lookup :
      (del_flag : Bool) (c : TokenChain) → value_of (find_in_chain n del_flag c).0 ≡ lookup n c
  unfolding find_in_chain lookup
  found-eq-lookup del_flag [] = refl
  found-eq-lookup del_flag (t ∷ ts) = ground (arith, found-eq-lookup del_flag ts)

  pub kept : (c : TokenChain) → (find_in_chain n false c).1 ≡ c
  unfolding find_in_chain
  kept [] = refl
  kept (t ∷ ts) = ground (arith, kept ts)

  -- Every name but `n` is looked up as before; a removed `n` is gone if it occurred once.
  pub lookup-removed :
      (q : Name) (c : TokenChain)
      → occurrences q c ≤ 1
      → lookup q (find_in_chain n true c).1 ≡ (if str_eq n q then none else lookup q c)
  unfolding find_in_chain lookup occurrences
  lookup-removed q [] h = ground arith
  lookup-removed q (t ∷ ts) h = ground (
    arith,
    lookup-removed q ts,
    lookup-eq-none q ts,
    eq_of_str_eq n t.name,
    eq_of_str_eq q t.name,
    eq_of_str_eq n q,
    str_eq_refl n,
  )

  pub lookup-assign :
      (v : ℕ) (q : Name) (c : TokenChain) {old : ℕ}
      → lookup n c ≡ some old
      → lookup q (assign n v c) ≡ (if str_eq n q then some v else lookup q c)
  unfolding assign lookup
  lookup-assign v q [] h = cc
  lookup-assign v q (t ∷ ts) {old} h = ground (
    arith,
    lookup-assign v q ts {old = old},
    eq_of_str_eq n t.name,
    eq_of_str_eq q t.name,
    eq_of_str_eq n q,
    str_eq_refl n,
  )

  pub lookup-append :
      (v : ℕ) (q : Name) (c : TokenChain)
      → lookup n c ≡ none
      → lookup q (append_token c (token n v)) ≡ (if str_eq n q then some v else lookup q c)
  unfolding append_token lookup
  lookup-append v q [] h = rw (str_eq_comm q n)
  lookup-append v q (t ∷ ts) h = ground (
    arith,
    lookup-append v q ts,
    eq_of_str_eq q t.name,
    eq_of_str_eq n q,
    str_eq_refl n,
    str_eq_refl q,
  )

  pub occurrences-removed :
      (q : Name) (c : TokenChain) → occurrences q (find_in_chain n true c).1 ≤ occurrences q c
  unfolding find_in_chain occurrences
  occurrences-removed q [] = omega arith
  occurrences-removed q (t ∷ ts) = ground (arith, occurrences-removed q ts)

  pub occurrences-assign :
      (v : ℕ) (q : Name) (c : TokenChain) → occurrences q (assign n v c) ≡ occurrences q c
  unfolding assign occurrences
  occurrences-assign v q [] = refl
  occurrences-assign v q (t ∷ ts) = ground (arith, occurrences-assign v q ts)

  pub occurrences-append :
      (v : ℕ) (q : Name) (c : TokenChain)
      → occurrences q (append_token c (token n v)) ≡ occurrences q c + (if str_eq n q then 1 else 0)
  unfolding append_token occurrences
  occurrences-append v q [] = rw (str_eq_comm q n) (omega arith)
  occurrences-append v q (t ∷ ts) = omega (arith, occurrences-append v q ts)

  pub length-removed :
      (c : TokenChain) {old : ℕ}
      → lookup n c ≡ some old
      → length (find_in_chain n true c).1 + 1 ≡ length c
  unfolding find_in_chain lookup
  length-removed [] h = cc
  length-removed (t ∷ ts) {old} h = ground (arith, length-removed ts {old = old})

  pub unchanged : (c : TokenChain) → lookup n c ≡ none → (find_in_chain n true c).1 ≡ c
  unfolding find_in_chain lookup
  unchanged [] h = refl
  unchanged (t ∷ ts) h = ground (arith, unchanged ts)

  pub length-assign : (v : ℕ) (c : TokenChain) → length (assign n v c) ≡ length c
  unfolding assign
  length-assign v [] = refl
  length-assign v (t ∷ ts) = ground (arith, length-assign v ts)

pub length-append_token :
    (c : TokenChain) (t : HashToken) → length (append_token c t) ≡ length c + 1
unfolding append_token
length-append_token [] t = omega arith
length-append_token (x ∷ c) t = omega (arith, length-append_token c t)

-- Both outcomes of a search, with what they say of the map.
pub found_cases :
    (n : Name) (del_flag : Bool) (c : TokenChain)
    → (((find_in_chain n del_flag c).0 ≡ none) × (lookup n c ≡ none))
      ⊎ ((t : HashToken) × ((find_in_chain n del_flag c).0 ≡ some t) × (lookup n c ≡ some t.value))
found_cases n del_flag c = elim (Option-cases (find_in_chain n del_flag c).0) [
  | inl e ↦ inl (e, sym (found-eq-lookup n del_flag c) ∙ ap value_of e)
  | inr (t, e) ↦ inr (t, e, sym (found-eq-lookup n del_flag c) ∙ ap value_of e)
]
