-- ===== src/HashTable.antt =====
-- libckits/hashTable.c: a chained hash table from names to pointers.
-- A handle and a name may be NULL (`none`). What a call stores through `retval` is the field `out`,
-- `none` where it stores nothing. `tokens` and `names` count the blocks that `_tkmalloc` and
-- `_malloc` have given to tokens and not got back; whether a request succeeds is an argument.
pub mod Hash
pub mod Chain
pub mod Size
pub mod Lookup
pub mod Valid
pub mod Writes
pub mod Calls
pub mod Walk
pub mod Visits
pub mod History
mod Tests
use Prim.Native.Nat.{bit_and}
use mcuproxy.Prelude.{
  ℕ, ◌+◌, ◌-◌, Bool, true, false, not, ◌&&◌, ◌||◌, List, [], ◌∷◌, Option, none, some, ◌==◌,
  if◌then◌else◌, get_or, set, replicate,
}
use mcuproxy.Prelude.Int.{ℤ, pos, negsuc}
use Hash.{Name, str_eq, djb2_hash, real_hash_size}
use Chain.{HashToken, token, TokenChain, find_in_chain, assign, append_token}

pub record TableInfo : Type 0 where
  pub hash_size : ℕ
  pub table : List TokenChain
  pub tokens : ℕ
  pub names : ℕ

abbrev pub Ret : Type 0
Ret = ℤ

abbrev pub success : Ret
success = pos 0

abbrev pub failure : Ret
failure = negsuc 0

pub record Outcome : Type 0 where
  pub ret : Ret
  pub handle : Option TableInfo
  pub out : Option ℕ

-- What the allocators answer to the two requests of `createToken`.
pub record Alloc : Type 0 where
  pub token_ok : Bool
  pub name_ok : Bool

-- `*pHandle`, if it is written, is the field `handle`.
unfoldable pub init_hash_table : Bool → ℕ → Bool → Outcome
init_hash_table p_handle hash_size mem_ok =
    let size = real_hash_size hash_size in
    if not p_handle || (size == 0) || not mem_ok
    then record { ret = failure; handle = none; out = none }
    else record {
      ret = success;
      handle = some (record { hash_size = size; table = replicate size []; tokens = 0; names = 0 });
      out = none;
    }

-- `djb2_hash(name, -1) & (tbl->hashSize - 1)`
unfoldable pub hash_value : TableInfo → Name → ℕ
hash_value tbl name = bit_and (djb2_hash name (negsuc 0)) (tbl.hash_size - 1)

unfoldable pub find_token : TableInfo → Name → Bool → Option HashToken × TableInfo
unfolding hash_value
find_token tbl name del_flag =
    let i = hash_value tbl name in
    let (found, chain) = find_in_chain name del_flag (get_or tbl.table i []) in
    (found, if del_flag then record tbl { table = set tbl.table i chain } else tbl)

-- Both requests, and the release of the token where the second fails.
unfoldable pub create_token : Alloc → TableInfo → Name → ℕ → Option HashToken × TableInfo
create_token mem tbl name value =
    if mem.token_ok
    then (if mem.name_ok
        then (
          some (token name value),
          record tbl { tokens = tbl.tokens + 1; names = tbl.names + 1 },
        )
        else (none, record tbl { tokens = tbl.tokens + 1 - 1 }))
    else (none, tbl)

-- The value, and both blocks given back.
unfoldable pub delete_token : TableInfo → HashToken → ℕ × TableInfo
delete_token tbl item = (item.value, record tbl { tokens = tbl.tokens - 1; names = tbl.names - 1 })

abbrev stored : Bool → ℕ → Option ℕ
stored retval value = if retval then some value else none

-- The part of `setHashValue` behind a failed search.
unfoldable pub insert_token : Alloc → TableInfo → Name → ℕ → Bool → Outcome
unfolding create_token hash_value
insert_token mem tbl name value retval =
    let (created, tbl') = create_token mem tbl name value in
    elim created [
      | none ↦ record { ret = failure; handle = some tbl'; out = stored retval 0 }
      | some new_token ↦
          let i = hash_value tbl' name in
          record {
            ret = success;
            handle = some (record tbl' {
              table = set tbl'.table i (append_token (get_or tbl'.table i []) new_token);
            });
            out = stored retval 0;
          }
    ]

-- `retval` says whether that pointer is not NULL.
unfoldable pub set_hash_value : Alloc → Option TableInfo → Option Name → ℕ → Bool → Outcome
unfolding find_token hash_value
set_hash_value mem none name value retval = record {
  ret = failure;
  handle = none;
  out = stored retval 0;
}
set_hash_value mem (some tbl) none value retval = record {
  ret = failure;
  handle = some tbl;
  out = stored retval 0;
}
set_hash_value mem (some tbl) (some name) value retval = elim ((find_token tbl name false).0) [
  | none ↦ insert_token mem tbl name value retval
  | some old ↦
      let i = hash_value tbl name in
      record {
        ret = success;
        handle =
            some
              (record tbl { table = set tbl.table i (assign name value (get_or tbl.table i [])) });
        out = stored retval old.value;
      }
]

unfoldable pub get_hash_value : Option TableInfo → Option Name → Bool → Outcome
get_hash_value none name retval = record { ret = failure; handle = none; out = none }
get_hash_value (some tbl) none retval = record { ret = failure; handle = some tbl; out = none }
get_hash_value (some tbl) (some name) retval =
    if retval
    then (elim (find_token tbl name false).0 [
      | none ↦ record { ret = failure; handle = some tbl; out = none }
      | some found ↦ record { ret = success; handle = some tbl; out = some found.value }
    ])
    else record { ret = failure; handle = some tbl; out = none }

unfoldable pub del_hash_value : Option TableInfo → Option Name → Bool → Outcome
unfolding delete_token
del_hash_value none name retval = record { ret = failure; handle = none; out = none }
del_hash_value (some tbl) none retval = record { ret = failure; handle = some tbl; out = none }
del_hash_value (some tbl) (some name) retval =
    let (found, tbl') = find_token tbl name true in
    elim found [
      | none ↦ record { ret = failure; handle = some tbl'; out = none }
      | some item ↦
          let (value, tbl'') = delete_token tbl' item in
          record { ret = success; handle = some tbl''; out = if retval then some value else none }
    ]
