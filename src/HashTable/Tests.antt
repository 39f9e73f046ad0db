-- ===== src/HashTable/Tests.antt =====
-- libckits/hashTable.c: runs of the calls, and the theorems at a small table.
use mcuproxy.Prelude.{
  ℕ, ◌+◌, ◌≡◌, refl, ◌∙◌, true, false, List, [], ◌∷◌, map, none, some, arith, if◌then◌else◌, ◌&&◌,
}
use mcuproxy.Prelude.Int.{negsuc}
use mcuproxy.HashTable.Hash.{Name, str_eq, djb2_hash, real_hash_size}
use mcuproxy.HashTable.Chain.{TokenChain, token}
use mcuproxy.HashTable.Size.{IsRealSize, real_hash_size-IsRealSize}
use mcuproxy.HashTable.Valid.{IsValid, view}
use mcuproxy.HashTable.Calls.{init_hash_table-Models, set_hash_value-Models}
use mcuproxy.HashTable.Writes.{or_null, can_store, Models}
use mcuproxy.HashTable.Walk.{iterctrl_continue, IterFunc, iter_hash_table, dump_hash_table}
use mcuproxy.HashTable.Visits.{Lists, Visited, iter_hash_table-Lists}
use mcuproxy.HashTable.History.{
  Call, set_value, get_value, del_value, run, run_dict, run-eq-run_dict,
}
use mcuproxy.HashTable.{TableInfo, Ret, success, failure, Alloc, set_hash_value}

-- "conf", "confroom-1" and "confroom-2"; the last two agree in seven bytes.
abbrev conf : Name
conf = b'c' ∷ b'o' ∷ b'n' ∷ b'f' ∷ []

abbrev room : ℕ → Name
room d = b'c' ∷ b'o' ∷ b'n' ∷ b'f' ∷ b'r' ∷ b'o' ∷ b'o' ∷ b'm' ∷ b'-' ∷ d ∷ []

abbrev plenty : Alloc
plenty = record { token_ok = true; name_ok = true }

djb2_a : djb2_hash (b'a' ∷ []) (negsuc 0) ≡ 177670
unfolding djb2_hash
djb2_a = refl

size_100 : real_hash_size 100 ≡ 64
unfolding real_hash_size
size_100 = refl

real_hash_size-IsRealSize_example : IsRealSize 100 (real_hash_size 100)
real_hash_size-IsRealSize_example = real_hash_size-IsRealSize 100 (omega arith)

abbrev start : TableInfo
start = (init_hash_table-Models 10 (omega arith)).0

start-Models : Models (λ _. none) start
start-Models = (init_hash_table-Models 10 (omega arith)).3

abbrev session : List Call
session =
    set_value plenty (room b'1') 11
    ∷ set_value plenty (room b'2') 22
    ∷ get_value (room b'1')
    ∷ set_value (record { token_ok = true; name_ok = false }) conf 33
    ∷ del_value (room b'1')
    ∷ get_value (room b'1')
    ∷ get_value (room b'2')
    ∷ []

session_answers :
    run (some start) session
    ≡ (success, some 0)
      ∷ (success, some 0)
      ∷ (success, some 11)
      ∷ (failure, some 0)
      ∷ (success, some 11)
      ∷ (failure, none)
      ∷ (success, some 22)
      ∷ []
unfolding run run_dict
session_answers = run-eq-run_dict session (λ _. none) start-Models ∙ (unfold str_eq in refl)

run-eq-run_dict_example : run (some start) session ≡ run_dict (λ _. none) session
run-eq-run_dict_example = run-eq-run_dict session (λ _. none) start-Models

set_hash_value-Models_example :
    (tbl' : TableInfo) × (set_hash_value plenty (some start) (some conf) 7 true ≡ record {
      ret = if can_store plenty start conf then success else failure;
      handle = some tbl';
      out = some (or_null (view start conf));
    })
    × (tbl'.hash_size ≡ start.hash_size)
    × Models
        (λ q. if can_store plenty start conf && str_eq conf q then some 7 else view start q)
        tbl'
set_hash_value-Models_example = set_hash_value-Models start-Models.0 conf plenty 7 true

-- The table with one entry.
abbrev one : TableInfo
one = (set_hash_value-Models start-Models.0 conf plenty 7 true).0

one-IsValid : IsValid one
one-IsValid = (set_hash_value-Models start-Models.0 conf plenty 7 true).3.0

abbrev count_up : IterFunc ℕ
count_up name value n = (iterctrl_continue, n + 1)

iter_hash_table-Lists_example :
    (toks : TokenChain) × Lists one toks
    × (ret : Ret) × (n : ℕ) × (iter_hash_table (some one) (some count_up) 0 ≡ (ret, n))
    × Visited count_up toks 0 ret n
    × (map (λ l. token l.name l.value) (dump_hash_table (some one)) ≡ toks)
iter_hash_table-Lists_example = iter_hash_table-Lists count_up 0 one-IsValid
