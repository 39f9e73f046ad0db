-- ===== src/HashTable/Hash.antt =====
-- libckits/hashTable.c: comparing and hashing names, and the size that a table really gets.
-- A name is the list of its bytes up to the terminator, none of which is 0.
use Prim.Native.Nat.{bit_and}
use mcuproxy.Prelude.{
  ℕ, zero, suc, ◌+◌, ◌-◌, ◌*◌, ◌/◌, ◌%◌, ◌^◌, Bool, true, false, ◌&&◌, ◌||◌, List, [], ◌∷◌, ltb,
  leb, ◌==◌, if◌then◌else◌,
}
use mcuproxy.Prelude.Int.{ℤ, pos_part, neg_part}

abbrev pub Name : Type 0
Name = List ℕ

-- `!strcmp(a, b)`
unfoldable pub str_eq : Name → Name → Bool
str_eq [] [] = true
str_eq [] (y ∷ ys) = false
str_eq (x ∷ xs) [] = false
str_eq (x ∷ xs) (y ∷ ys) = (x == y) && str_eq xs ys

-- `c` is an `int` read from a signed `char`, added to a `uint32_t`.
unfoldable pub char_to_u32 : ℕ → ℕ
char_to_u32 c = if ltb c 128 then c else c + 2 ^ 32 - 256

-- The loop stops at the terminator, or when the count has run out.
unfoldable pub djb2_loop : ℕ → Name → ℕ → ℕ
djb2_loop hash [] count = hash
djb2_loop hash (c ∷ str) zero = hash
djb2_loop hash (c ∷ str) (suc count) =
    djb2_loop ((hash * 2 ^ 5 % 2 ^ 32 + hash + char_to_u32 c) % 2 ^ 32) str count

unfoldable pub djb2_hash : Name → ℤ → ℕ
unfolding djb2_loop char_to_u32
djb2_hash str count =
    djb2_loop 5381 str
      (if ltb 0 (neg_part count) || leb 7 (pos_part count) then 7 else pos_part count)

abbrev pub const_max_hashsize : ℕ
const_max_hashsize = 4096

-- The `do` loop over `testbit`; it ends when `testbit` has become 0.
unfoldable pub testbit_loop : ℕ → ℕ → ℕ → ℕ
testbit_loop zero hash_size testbit = testbit
testbit_loop (suc fuel) hash_size testbit =
    let rest = testbit_loop fuel hash_size (testbit / 2) in
    if bit_and hash_size testbit == 0 then (if testbit / 2 == 0 then 0 else rest) else testbit

-- `4096 >> 13` is 0, so 13 rounds are all that the loop can make.
unfoldable pub real_hash_size : ℕ → ℕ
unfolding testbit_loop
real_hash_size hash_size =
    if ltb const_max_hashsize hash_size
    then const_max_hashsize
    else testbit_loop 13 hash_size const_max_hashsize
