-- ===== src/HashTable/Calls.antt =====
-- libckits/hashTable.c: each call against the map that the table stands for.
use native.Mathlib.Nat.{one-le-pow}
use mcuproxy.Prelude.{
  ℕ, ◌+◌, ◌-◌, ◌<◌, ◌≡◌, refl, Bool, true, false, ◌&&◌, [], none, some, inl, inr, arith,
  if◌then◌else◌, set, replicate, get_or-replicate, length-replicate,
}
use mcuproxy.HashTable.Hash.{Name, str_eq, real_hash_size}
use mcuproxy.HashTable.Chain.{TokenChain, find_in_chain, assign}
use mcuproxy.HashTable.Size.{real_hash_size-IsRealSize}
use mcuproxy.HashTable.Lookup
use mcuproxy.HashTable.Lookup.{lookup, occurrences, value_of, str_eq_refl, eq_of_str_eq}
use mcuproxy.HashTable.Valid.{total-replicate, chain_of, IsValid, view, rewritten}
use mcuproxy.HashTable.{
  TableInfo, success, failure, Alloc, hash_value, find_token, init_hash_table, set_hash_value,
  get_hash_value, del_hash_value,
}
use mcuproxy.HashTable.Writes.{
  is_some, or_null, can_store, Models, assign-Models, insert_token-Models, removed-Models,
  absent-Models, tokens_pos,
}

-- With a place for the handle, memory and a size that is not 0, `initHashTable` succeeds, and the
-- new table is valid, empty, and of the real size.
pub init_hash_table-Models :
    (hash_size : ℕ)
    → 0 < hash_size
    → (tbl : TableInfo) × (init_hash_table true hash_size true
        ≡ record { ret = success; handle = some tbl; out = none })
      × (tbl.hash_size ≡ real_hash_size hash_size)
      × Models (λ _. none) tbl
unfolding init_hash_table
init_hash_table-Models hash_size h =
    let (k, small, power, le, most) = real_hash_size-IsRealSize hash_size h in
    let tbl : TableInfo = record {
      hash_size = real_hash_size hash_size;
      table = replicate (real_hash_size hash_size) [];
      tokens = 0;
      names = 0;
    } in
    (
      tbl,
      ground (arith, one-le-pow k 2 (omega arith)),
      refl,
      (
        record {
          exponent = k;
          power = power;
          width = length-replicate (real_hash_size hash_size) [];
          placed = λ q i.
              rw (get_or-replicate (real_hash_size hash_size) i)
                (unfold occurrences in omega arith);
          counted = total-replicate (real_hash_size hash_size);
          named = refl;
        },
        λ q. unfold view lookup in rw (get_or-replicate (real_hash_size hash_size) _),
      ),
    )

module _ {tbl : TableInfo} (valid : IsValid tbl) (n : Name) where
  abbrev home_chain : TokenChain
  home_chain = chain_of tbl n

  -- On a valid table `setHashValue` succeeds exactly when the name is there or both blocks are
  -- given. It then maps the name to the value and changes no other; on failure the map is
  -- unchanged. Through `retval` it stores the old value, or NULL. The table stays valid in every
  -- case.
  pub set_hash_value-Models :
      (mem : Alloc) (v : ℕ) (retval : Bool)
      → (tbl' : TableInfo) × (set_hash_value mem (some tbl) (some n) v retval ≡ record {
        ret = if can_store mem tbl n then success else failure;
        handle = some tbl';
        out = if retval then some (or_null (view tbl n)) else none;
      })
        × (tbl'.hash_size ≡ tbl.hash_size)
        × Models (λ q. if can_store mem tbl n && str_eq n q then some v else view tbl q) tbl'
  unfolding set_hash_value view
  set_hash_value-Models mem v retval = elim (Lookup.found_cases n false home_chain) [
    | inr (t, e, l) ↦ (
      rewritten tbl n (assign n v home_chain) tbl.tokens tbl.names,
      ground (arith, e, l),
      refl,
      ((assign-Models valid n v l).0, λ q. ground (arith, l, (assign-Models valid n v l).1 q)),
    )
    | inl (e, l) ↦
        let (tbl', run, size, models) = insert_token-Models valid n mem v retval l in
        (tbl', ground (arith, e, l, run), size, (models.0, λ q. ground (arith, l, models.1 q)))
  ]

  -- On a valid table `getHashValue` fails with no place for the value; else it stores what the map
  -- says of the name, or fails if that is nothing.
  -- The table is never changed.
  pub get_hash_value-view :
      (retval : Bool)
      → get_hash_value (some tbl) (some n) retval ≡ record {
        ret = if retval && is_some (view tbl n) then success else failure;
        handle = some tbl;
        out = if retval then view tbl n else none;
      }
  unfolding get_hash_value find_token view
  get_hash_value-view retval = elim (Lookup.found_cases n false home_chain) [
    | inr (t, e, l) ↦ ground (arith, e, l)
    | inl (e, l) ↦ ground (arith, e, l)
  ]

  -- On a valid table `delHashValue` succeeds exactly when the name is there; it then takes the
  -- name out of the map, stores its value through `retval` if there is one, and gives back one
  -- token. The table stays valid.
  pub del_hash_value-Models :
      (retval : Bool)
      → (tbl' : TableInfo) × (del_hash_value (some tbl) (some n) retval ≡ record {
        ret = if is_some (view tbl n) then success else failure;
        handle = some tbl';
        out = if retval then view tbl n else none;
      })
        × (tbl'.tokens + (if is_some (view tbl n) then 1 else 0) ≡ tbl.tokens)
        × Models (λ q. if str_eq n q then none else view tbl q) tbl'
  unfolding del_hash_value find_token view
  del_hash_value-Models retval = elim (Lookup.found_cases n true home_chain) [
    | inr (t, e, l) ↦ (
      rewritten tbl n (find_in_chain n true home_chain).1 (tbl.tokens - 1) (tbl.names - 1),
      ground (arith, e, l),
      ground (arith, l, tokens_pos valid n l),
      removed-Models valid n l,
    )
    | inl (e, l) ↦ (
      record tbl { table = set tbl.table (hash_value tbl n) (find_in_chain n true home_chain).1 },
      ground (arith, e, l),
      ground (arith, l),
      absent-Models valid n l,
    )
  ]
