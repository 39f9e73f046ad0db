-- ===== src/HashTable/Walk.antt =====
-- libckits/hashTable.c: `iterHashTable` and `dumpHashTable`. The callback's `param` is a state that
-- it may change.
use mcuproxy.Prelude.{ℕ, ◌+◌, List, [], ◌∷◌, ◌++◌, Option, none, some}
use mcuproxy.HashTable.Hash.{Name}
use mcuproxy.HashTable.Chain.{TokenChain}
use mcuproxy.HashTable.{TableInfo, Ret, success, failure}

pub data IterCtrl : Type 0 where
  iterctrl_continue iterctrl_break : IterCtrl

abbrev pub IterFunc {ℓ} : Type ℓ → Type ℓ
IterFunc S = Name → ℕ → S → IterCtrl × S

abbrev pub ret_of : IterCtrl → Ret
ret_of iterctrl_continue = success
ret_of iterctrl_break = failure

module _ {ℓ} {S : Type ℓ} where
  -- The inner loop; the jump to `end` is the control value that it returns.
  unfoldable pub iter_chain : IterFunc S → TokenChain → S → IterCtrl × S
  iter_chain callback [] s = (iterctrl_continue, s)
  iter_chain callback (t ∷ ts) s =
      let (ctrl, s') = callback t.name t.value s in
      elim ctrl [
        | iterctrl_break ↦ (iterctrl_break, s')
        | iterctrl_continue ↦ iter_chain callback ts s'
      ]

  unfoldable pub iter_buckets : IterFunc S → List TokenChain → S → IterCtrl × S
  iter_buckets callback [] s = (iterctrl_continue, s)
  iter_buckets callback (c ∷ cs) s =
      let (ctrl, s') = iter_chain callback c s in
      elim ctrl [
        | iterctrl_break ↦ (iterctrl_break, s')
        | iterctrl_continue ↦ iter_buckets callback cs s'
      ]

  unfoldable pub iter_hash_table : Option TableInfo → Option (IterFunc S) → S → Ret × S
  iter_hash_table none callback s = (failure, s)
  iter_hash_table (some tbl) none s = (failure, s)
  iter_hash_table (some tbl) (some callback) s =
      let (ctrl, s') = iter_buckets callback tbl.table s in (ret_of ctrl, s')

-- What one pass of the loop prints.
pub record DumpLine : Type 0 where
  pub name : Name
  pub i : ℕ
  pub level : ℕ
  pub value : ℕ

unfoldable pub dump_chain : ℕ → ℕ → TokenChain → List DumpLine
dump_chain i level [] = []
dump_chain i level (t ∷ ts) =
    record { name = t.name; i = i; level = level; value = t.value } ∷ dump_chain i (level + 1) ts

unfoldable pub dump_buckets : ℕ → List TokenChain → List DumpLine
unfolding dump_chain
dump_buckets i [] = []
dump_buckets i (c ∷ cs) = dump_chain i 0 c ++ dump_buckets (i + 1) cs

unfoldable pub dump_hash_table : Option TableInfo → List DumpLine
unfolding dump_buckets
dump_hash_table none = []
dump_hash_table (some tbl) = dump_buckets 0 tbl.table
