-- ===== src/HashTable/Visits.antt =====
-- libckits/hashTable.c: what `iterHashTable` and `dumpHashTable` come across.
use mathlib.Core.List.{flatten, map-append}
use mcuproxy.Prelude.{
  ℕ, zero, suc, ◌+◌, ◌≤◌, ◌≡◌, ◌≢◌, refl, ap, ◌⊎◌, inl, inr, ap₂, ◌∙◌, List, [], ◌∷◌, ◌++◌, map,
  some, arith, length, get_or, length-append,
}
use mcuproxy.Prelude.Int.{pos, negsuc}
use mcuproxy.HashTable.Hash.{Name}
use mcuproxy.HashTable.Chain.{HashToken, token, TokenChain}
use mcuproxy.HashTable.Lookup.{lookup, occurrences, lookup-eq-none}
use mcuproxy.HashTable.Valid.{total, IsValid, view}
use mcuproxy.HashTable.Walk.{
  IterCtrl, iterctrl_continue, iterctrl_break, IterFunc, iter_chain, iter_buckets, ret_of,
  iter_hash_table, dump_chain, dump_buckets, dump_hash_table,
}
use mcuproxy.HashTable.{TableInfo, Ret, hash_value}

ctrl_cases : (c : IterCtrl) → (c ≡ iterctrl_break) ⊎ (c ≡ iterctrl_continue)
ctrl_cases iterctrl_break = inl refl
ctrl_cases iterctrl_continue = inr refl

module _ {ℓ} {S : Type ℓ} (callback : IterFunc S) where
  iter_chain-append :
      (a b : TokenChain) (s : S)
      → iter_chain callback (a ++ b) s ≡ (
          let r = iter_chain callback a s in
          elim r.0 [
            | iterctrl_break ↦ (iterctrl_break, r.1)
            | iterctrl_continue ↦ iter_chain callback b r.1
          ])
  unfolding iter_chain
  iter_chain-append [] b s = refl
  iter_chain-append (t ∷ a) b s =
      ground (arith, iter_chain-append a b (callback t.name t.value s).1)

  -- The two nested loops are one loop over all the tokens.
  iter_buckets-flatten :
      (cs : List TokenChain) (s : S)
      → iter_buckets callback cs s ≡ iter_chain callback (flatten cs) s
  unfolding iter_buckets iter_chain flatten
  iter_buckets-flatten [] s = refl
  iter_buckets-flatten (c ∷ cs) s = ground (
    arith,
    iter_chain-append c (flatten cs) s,
    iter_buckets-flatten cs (iter_chain callback c s).1,
  )

lookup-append_absent :
    (q : Name) (a b : TokenChain) → occurrences q a ≡ 0 → lookup q (a ++ b) ≡ lookup q b
unfolding lookup occurrences
lookup-append_absent q [] b h = refl
lookup-append_absent q (t ∷ a) b h = ground (arith, lookup-append_absent q a b)

lookup-append_last :
    (q : Name) (a b : TokenChain) → occurrences q b ≡ 0 → lookup q (a ++ b) ≡ lookup q a
unfolding lookup occurrences
lookup-append_last q [] b h = lookup-eq-none q b h
lookup-append_last q (t ∷ a) b h = ground (arith, lookup-append_last q a b)

occurrences-append_chains :
    (q : Name) (a b : TokenChain) → occurrences q (a ++ b) ≡ occurrences q a + occurrences q b
unfolding occurrences
occurrences-append_chains q [] b = omega arith
occurrences-append_chains q (t ∷ a) b = omega (arith, occurrences-append_chains q a b)

length-flatten : (cs : List TokenChain) → length (flatten cs) ≡ total cs
unfolding flatten total
length-flatten [] = refl
length-flatten (c ∷ cs) = omega (arith, length-append c (flatten cs), length-flatten cs)

occurrences-flatten_nowhere :
    (q : Name) (cs : List TokenChain)
    → ((i : ℕ) → occurrences q (get_or cs i []) ≡ 0)
    → occurrences q (flatten cs) ≡ 0
unfolding flatten occurrences
occurrences-flatten_nowhere q [] h = refl
occurrences-flatten_nowhere q (c ∷ cs) h = omega (
  arith,
  occurrences-append_chains q c (flatten cs),
  h 0,
  occurrences-flatten_nowhere q cs (λ i. h (suc i)),
)

-- A name that stands in chain `j` alone.
flatten_home :
    (q : Name) (cs : List TokenChain) (j : ℕ)
    → ((i : ℕ) → j ≢ i → occurrences q (get_or cs i []) ≡ 0)
    → (lookup q (flatten cs) ≡ lookup q (get_or cs j []))
      × (occurrences q (flatten cs) ≡ occurrences q (get_or cs j []))
unfolding flatten lookup occurrences
flatten_home q [] j h = (refl, refl)
flatten_home q (c ∷ cs) zero h =
    let rest = occurrences-flatten_nowhere q cs (λ i. h (suc i) (omega arith)) in
    (
      lookup-append_last q c (flatten cs) rest,
      omega (arith, rest, occurrences-append_chains q c (flatten cs)),
    )
flatten_home q (c ∷ cs) (suc j) h =
    let here = h 0 (omega arith) in
    let (found, counted) = flatten_home q cs j (λ i n. h (suc i) (omega arith)) in
    (
      lookup-append_absent q c (flatten cs) here ∙ found,
      omega (arith, here, counted, occurrences-append_chains q c (flatten cs)),
    )

-- `toks` lists each entry of the table once.
pub record Lists (tbl : TableInfo) (toks : TokenChain) : Type 0 where
  pub reads : (q : Name) → lookup q toks ≡ view tbl q
  pub once : (q : Name) → occurrences q toks ≤ 1
  pub size : length toks ≡ tbl.tokens

flatten-Lists : {tbl : TableInfo} → IsValid tbl → Lists tbl (flatten tbl.table)
unfolding view
flatten-Lists {tbl} v = record {
  reads = λ q. (home q).0;
  once = λ q. rw ((home q).1) (v.placed q (hash_value tbl q)).0;
  size = length-flatten tbl.table ∙ v.counted;
}
  where
    home :
        (q : Name)
        → (lookup q (flatten tbl.table) ≡ lookup q (get_or tbl.table (hash_value tbl q) []))
          × (occurrences q (flatten tbl.table)
              ≡ occurrences q (get_or tbl.table (hash_value tbl q) []))
    home q = flatten_home q tbl.table (hash_value tbl q) (λ i. (v.placed q i).1)

dump_chain-tokens :
    (i level : ℕ) (c : TokenChain) → map (λ l. token l.name l.value) (dump_chain i level c) ≡ c
unfolding dump_chain
dump_chain-tokens i level [] = refl
dump_chain-tokens i level (t ∷ ts) = ap₂ ◌∷◌ refl (dump_chain-tokens i (level + 1) ts)

dump_buckets-tokens :
    (i : ℕ) (cs : List TokenChain)
    → map (λ l. token l.name l.value) (dump_buckets i cs) ≡ flatten cs
unfolding dump_buckets flatten
dump_buckets-tokens i [] = refl
dump_buckets-tokens i (c ∷ cs) =
    map-append _ (dump_chain i 0 c) (dump_buckets (i + 1) cs)
    ∙ ap₂ ◌++◌ (dump_chain-tokens i 0 c) (dump_buckets-tokens (i + 1) cs)

-- A run of calls over the tokens, from the state `s` to `s'`, and what it returns: -1 behind the
-- first call that breaks, 0 if none does.
pub data Visited {ℓ} {S : Type ℓ} (callback : IterFunc S) : TokenChain → S → Ret → S → Type ℓ where
  over : (s : S) → Visited callback [] s (pos 0) s
  breaks :
      (t : HashToken) (ts : TokenChain) (s s' : S)
      → callback t.name t.value s ≡ (iterctrl_break, s')
      → Visited callback (t ∷ ts) s (negsuc 0) s'
  goes_on :
      (t : HashToken) (ts : TokenChain) (s next s' : S) (ret : Ret)
      → callback t.name t.value s ≡ (iterctrl_continue, next)
      → Visited callback ts next ret s'
      → Visited callback (t ∷ ts) s ret s'

iter_chain-Visited {ℓ} :
    {S : Type ℓ} (callback : IterFunc S) (toks : TokenChain) (s : S)
    → Visited callback toks s (ret_of (iter_chain callback toks s).0) (iter_chain callback toks s).1
unfolding iter_chain
iter_chain-Visited callback [] s = over s
iter_chain-Visited callback (t ∷ ts) s = elim (ctrl_cases (callback t.name t.value s).0) [
  | inl stop ↦
      rw (stop, iter_chain) (breaks t ts s _ (ap (λ c. (c, (callback t.name t.value s).1)) stop))
  | inr on ↦
      rw (on, iter_chain)
        (goes_on t ts s (callback t.name t.value s).1 _ _
          (ap (λ c. (c, (callback t.name t.value s).1)) on)
          (iter_chain-Visited callback ts (callback t.name t.value s).1))
]

-- On a valid table `iterHashTable` calls back for the entries of the map, each once, up to the
-- first call that breaks, and returns -1 exactly if one did; `dumpHashTable` prints the same
-- entries in the same order.
pub iter_hash_table-Lists {ℓ} :
    {S : Type ℓ} {tbl : TableInfo} (callback : IterFunc S) (s : S)
    → IsValid tbl
    → (toks : TokenChain) × Lists tbl toks
      × (ret : Ret) × (s' : S) × (iter_hash_table (some tbl) (some callback) s ≡ (ret, s'))
      × Visited callback toks s ret s'
      × (map (λ l. token l.name l.value) (dump_hash_table (some tbl)) ≡ toks)
unfolding iter_hash_table dump_hash_table
iter_hash_table-Lists {tbl} callback s v = (
  flatten tbl.table,
  flatten-Lists v,
  ret_of (iter_chain callback (flatten tbl.table) s).0,
  (iter_chain callback (flatten tbl.table) s).1,
  rw (iter_buckets-flatten callback tbl.table s),
  iter_chain-Visited callback (flatten tbl.table) s,
  dump_buckets-tokens 0 tbl.table,
)
