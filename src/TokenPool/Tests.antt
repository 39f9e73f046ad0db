-- ===== src/TokenPool/Tests.antt =====
-- Tests of the token pool.
use mcuproxy.Prelude.{
  ℕ, ◌+◌, ◌<◌, All, ◌≡◌, ◌↔◌, refl, List, [], ◌∷◌, Option, none, some, arith, length, get_or,
}
use mcuproxy.HashTable.Hash.{djb2_loop, char_to_u32}
use mcuproxy.TokenPool.{
  TokenPool, const_tokenpool_size, new_token_pool, hash, index, is_same, strcpy, find_entry,
  alloc_nolock, intern, atomize,
}
use mcuproxy.TokenPool.Spelled.{IsName}
use mcuproxy.TokenPool.Interned.{IsPool, Stands, atomize_full}
use mcuproxy.TokenPool.Names.{total, atomize_all, atomize_all_injective}

-- "fd", "ssrc" and "fd" again.
abbrev fd : List ℕ
fd = 102 ∷ 100 ∷ []

abbrev names : List (List ℕ)
names = fd ∷ (115 ∷ 115 ∷ 114 ∷ 99 ∷ []) ∷ fd ∷ []

abbrev pool : TokenPool
pool = new_token_pool (λ a. 7)

abbrev pointers : Option (List (Option ℕ) × TokenPool) → List (Option ℕ)
pointers none = []
pointers (some (its, pool')) = its

same_pointer : pointers (atomize_all pool names) ≡ some 0 ∷ some 3 ∷ some 0 ∷ []
unfolding atomize_all atomize intern alloc_nolock find_entry strcpy is_same hash djb2_loop
    char_to_u32
same_pointer = refl

named : All IsName names
named = (
  (omega arith, (omega arith, tt)),
  (
    (omega arith, (omega arith, (omega arith, (omega arith, tt)))),
    ((omega arith, (omega arith, tt)), tt),
  ),
)

few : pool.buffer_ptr + total names < const_tokenpool_size
unfolding total
few = omega arith

atomize_all-injective_example :
    (its : List (Option ℕ)) × (pool' : TokenPool) × (atomize_all pool names ≡ some (its, pool'))
    × IsPool pool'
    × ((i j : ℕ)
        → i < length names
        → j < length names
        → (¬ get_or its i none ≡ none)
          × ((get_or its i none ≡ get_or its j none) ↔ (get_or names i [] ≡ get_or names j [])))
    × ((q : ℕ) (t : List ℕ) → IsName t → Stands pool q t → Stands pool' q t)
atomize_all-injective_example = atomize_all_injective pool names (λ i. tt) named few

abbrev last : TokenPool
last = record { rows = λ i. []; token_buffer = λ a. 7; buffer_ptr = 65534 }

missing : find_entry last.token_buffer fd (last.rows (index fd)) ≡ some none
unfolding find_entry
missing = refl

atomize-full_example :
    (pool' : TokenPool) × (atomize last fd ≡ some (none, pool'))
    × ((t : List ℕ)
        → index t ≡ index fd
        → find_entry last.token_buffer t (last.rows (index t)) ≡ some none
        → atomize pool' t ≡ none)
atomize-full_example = atomize_full last fd (λ i. tt) missing (omega arith)
