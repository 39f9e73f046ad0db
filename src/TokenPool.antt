-- ===== src/TokenPool.antt =====
-- libaux/TokenPool.cpp and libaux/include/TokenPool.h: one copy of each name, so that names can be
-- compared as pointers. A pointer is an offset in `tokenBuffer`, `none` for NULL; a name is its bytes
-- in front of the terminator. A comparison with NULL is a fault, `none`. The lock and the dump are
-- left out.
pub mod Spelled
pub mod Interned
pub mod Names
mod Tests
use mcuproxy.Prelude.{
  ℕ, suc, ◌+◌, ◌%◌, Bool, true, false, List, [], ◌∷◌, ◌++◌, Option, none, some, length, leb, ◌==◌,
  if◌then◌else◌, ◌>>=◌,
}
use mcuproxy.HashTable.Hash.{djb2_loop}

abbrev pub const_tokenpool_size : ℕ
const_tokenpool_size = 65536

abbrev pub const_tokenpool_rows : ℕ
const_tokenpool_rows = 128

pub record TokenPool : Type 0 where
  pub rows : ℕ → List (Option ℕ)
  pub token_buffer : ℕ → ℕ
  pub buffer_ptr : ℕ

-- The constructor; `memory` is what is in the buffer.
abbrev pub new_token_pool : (ℕ → ℕ) → TokenPool
new_token_pool memory = record { rows = λ i. []; token_buffer = memory; buffer_ptr = 0 }

-- The function of hashTable.c again, over at most 7 characters.
unfoldable pub hash : List ℕ → ℕ
hash s = djb2_loop 5381 s (if leb 7 (length s) then 7 else length s)

abbrev pub index : List ℕ → ℕ
index name = hash name % const_tokenpool_rows

-- `0 == strcmp(p, name)`
unfoldable pub is_same : (ℕ → ℕ) → ℕ → List ℕ → Bool
is_same memory p [] = memory p == 0
is_same memory p (c ∷ name) =
    let rest = is_same memory (p + 1) name in if memory p == c then rest else false

unfoldable pub strcpy : (ℕ → ℕ) → ℕ → List ℕ → ℕ → ℕ
strcpy memory p [] a = if a == p then 0 else memory a
strcpy memory p (c ∷ name) a = let rest = strcpy memory (p + 1) name a in if a == p then c else rest

-- The loop over a row: the pointer, if there is one.
unfoldable pub find_entry : (ℕ → ℕ) → List ℕ → List (Option ℕ) → Option (Option ℕ)
find_entry memory name [] = some none
find_entry memory name (none ∷ entry) = none
find_entry memory name (some it ∷ entry) =
    let later = find_entry memory name entry in
    if is_same memory it name then some (some it) else later

unfoldable pub alloc_nolock : TokenPool → List ℕ → Option ℕ × TokenPool
alloc_nolock pool name =
    let size = 1 + length name in
    if leb const_tokenpool_size (pool.buffer_ptr + size) then (none, pool) else (
      some pool.buffer_ptr,
      record pool {
        token_buffer = strcpy pool.token_buffer pool.buffer_ptr name;
        buffer_ptr = pool.buffer_ptr + size;
      },
    )

abbrev pub push_back : (ℕ → List (Option ℕ)) → ℕ → Option ℕ → ℕ → List (Option ℕ)
push_back rows i item j = if j == i then rows j ++ item ∷ [] else rows j

-- What is done behind the search.
unfoldable pub intern : TokenPool → List ℕ → Option ℕ → Option ℕ × TokenPool
intern pool name (some it) = (some it, pool)
intern pool name none =
    let (item, pool') = alloc_nolock pool name in
    (item, record pool' { rows = push_back pool'.rows (index name) item })

unfoldable pub atomize : TokenPool → List ℕ → Option (Option ℕ × TokenPool)
atomize pool name = do
  it ← find_entry pool.token_buffer name (pool.rows (index name))
  some (intern pool name it)

unfoldable pub clear : TokenPool → TokenPool
clear pool = record pool { rows = λ i. []; buffer_ptr = 0 }
