-- ===== src/HashTable/History.antt =====
-- libckits/hashTable.c: a table behaves like a map over any sequence of calls.
use mcuproxy.Prelude.{
  ℕ, ◌≡◌, refl, ap₂, Bool, true, ◌||◌, ◌&&◌, List, [], ◌∷◌, Option, none, some, arith,
  if◌then◌else◌,
}
use mcuproxy.HashTable.Hash.{Name, str_eq}
use mcuproxy.HashTable.Calls.{set_hash_value-Models, get_hash_value-view, del_hash_value-Models}
use mcuproxy.HashTable.Writes.{is_some, or_null, Models}
use mcuproxy.HashTable.{
  TableInfo, Ret, success, failure, Outcome, Alloc, set_hash_value, get_hash_value, del_hash_value,
}

pub data Call : Type 0 where
  set_value : Alloc → Name → ℕ → Call
  get_value : Name → Call
  del_value : Name → Call

-- Each call with a handle, a name and a place for the value.
unfoldable pub perform : Option TableInfo → Call → Outcome
perform handle (set_value mem n v) = set_hash_value mem handle (some n) v true
perform handle (get_value n) = get_hash_value handle (some n) true
perform handle (del_value n) = del_hash_value handle (some n) true

unfoldable pub run : Option TableInfo → List Call → List (Ret × Option ℕ)
run handle [] = []
run handle (c ∷ cs) = let r = perform handle c in (r.ret, r.out) ∷ run r.handle cs

-- The same calls on a map.
abbrev pub Dict : Type 0
Dict = Name → Option ℕ

abbrev ret_if : Bool → Ret
ret_if done = if done then success else failure

abbrev storable : Alloc → Dict → Name → Bool
storable mem f n = is_some (f n) || (mem.token_ok && mem.name_ok)

unfoldable pub answer : Dict → Call → Ret × Option ℕ
answer f (set_value mem n v) = (ret_if (storable mem f n), some (or_null (f n)))
answer f (get_value n) = (ret_if (is_some (f n)), f n)
answer f (del_value n) = (ret_if (is_some (f n)), f n)

unfoldable pub update : Dict → Call → Dict
update f (set_value mem n v) q = if storable mem f n && str_eq n q then some v else f q
update f (get_value n) q = f q
update f (del_value n) q = if str_eq n q then none else f q

unfoldable pub run_dict : Dict → List Call → List (Ret × Option ℕ)
unfolding answer update
run_dict f [] = []
run_dict f (c ∷ cs) = answer f c ∷ run_dict (update f c) cs

perform-Models :
    {tbl : TableInfo} (f : Dict) (c : Call)
    → Models f tbl
    → (tbl' : TableInfo) × (perform (some tbl) c
        ≡ record { ret = (answer f c).0; handle = some tbl'; out = (answer f c).1 })
      × Models (update f c) tbl'
unfolding perform answer update
perform-Models {tbl} f (set_value mem n v) (valid, reads) =
    let (tbl', e, _, models) = set_hash_value-Models valid n mem v true in
    (
      tbl',
      ground (arith, e, reads n),
      (models.0, λ q. ground (arith, models.1 q, reads n, reads q)),
    )
perform-Models {tbl} f (get_value n) m =
    (tbl, ground (arith, get_hash_value-view m.0 n true, m.1 n), m)
perform-Models {tbl} f (del_value n) m =
    let (tbl', e, _, models) = del_hash_value-Models m.0 n true in
    (tbl', ground (arith, e, m.1 n), (models.0, λ q. ground (arith, models.1 q, m.1 n, m.1 q)))

-- Over any sequence of set, get and delete calls, with any answers of the allocators, a valid table
-- that stands for a map returns and stores what the map does.
pub run-eq-run_dict :
    (cs : List Call) {tbl : TableInfo} (f : Dict) → Models f tbl → run (some tbl) cs ≡ run_dict f cs
unfolding run run_dict
run-eq-run_dict [] f m = refl
run-eq-run_dict (c ∷ cs) f m =
    let (tbl', e, m') = perform-Models f c m in
    rw e (ap₂ ◌∷◌ refl (run-eq-run_dict cs (update f c) m'))
