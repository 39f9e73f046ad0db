-- ===== src/HashTable/Writes.antt =====
-- libckits/hashTable.c: what a chain written back makes of the map.
use mcuproxy.Prelude.{
  ℕ, ◌+◌, ◌-◌, ◌<◌, ◌≡◌, refl, Bool, true, false, ◌||◌, ◌&&◌, [], Option, none, some, inl, inr,
  arith, if◌then◌else◌, Bool-cases,
}
use mcuproxy.HashTable.Hash.{Name, str_eq}
use mcuproxy.HashTable.Chain.{TokenChain, token, find_in_chain, assign, append_token}
use mcuproxy.HashTable.Lookup
use mcuproxy.HashTable.Lookup.{lookup, occurrences, value_of, str_eq_refl, eq_of_str_eq}
use mcuproxy.HashTable.Valid.{
  total-set, hash_value-lt, chain_of, IsValid, view, rewritten, rewritten-IsValid, view-rewritten,
}
use mcuproxy.HashTable.{TableInfo, success, failure, Alloc, hash_value, insert_token}

abbrev pub is_some {ℓ} : {A : Type ℓ} → Option A → Bool
is_some none = false
is_some (some _) = true

abbrev pub or_null : Option ℕ → ℕ
or_null none = 0
or_null (some v) = v

-- The table is valid and stands for the map `f`.
abbrev pub Models : (Name → Option ℕ) → TableInfo → Type 0
Models f tbl = IsValid tbl × ((q : Name) → view tbl q ≡ f q)

-- Whether `setHashValue` can store a value under `n`.
abbrev pub can_store : Alloc → TableInfo → Name → Bool
can_store mem tbl n = is_some (view tbl n) || (mem.token_ok && mem.name_ok)

module _ {tbl : TableInfo} (valid : IsValid tbl) (n : Name) where
  abbrev home_chain : TokenChain
  home_chain = chain_of tbl n

  -- An assignment to the value of a token that is there.
  pub assign-Models :
      (v : ℕ) {old : ℕ}
      → lookup n home_chain ≡ some old
      → Models
          (λ q. if str_eq n q then some v else view tbl q)
          (rewritten tbl n (assign n v home_chain) tbl.tokens tbl.names)
  assign-Models v e = (
    rewritten-IsValid valid n _ tbl.tokens tbl.names valid.named
        (rw (Lookup.length-assign n v home_chain))
        (λ q. rw (Lookup.occurrences-assign n v q home_chain) (valid.placed q _)),
    view-rewritten valid n _ tbl.tokens tbl.names (some v) (λ q. Lookup.lookup-assign n v q _ e),
  )

  -- A new token at the end of the chain.
  append-Models :
      (v : ℕ)
      → lookup n home_chain ≡ none
      → Models
          (λ q. if str_eq n q then some v else view tbl q)
          (rewritten tbl n (append_token home_chain (token n v)) (tbl.tokens + 1) (tbl.names + 1))
  append-Models v e = (
    rewritten-IsValid valid n _ _ _ (omega (arith, valid.named))
        (omega (arith, Lookup.length-append_token home_chain (token n v)))
        (λ q. ground (
          arith,
          Lookup.occurrences-append n v q home_chain,
          Lookup.occurrences-eq-zero q home_chain,
          eq_of_str_eq n q,
          valid.placed q (hash_value tbl n),
        )),
    view-rewritten valid n _ _ _ (some v) (λ q. Lookup.lookup-append n v q _ e),
  )

  -- The part of `setHashValue` for a name that is not there.
  pub insert_token-Models :
      (mem : Alloc) (v : ℕ) (retval : Bool)
      → lookup n home_chain ≡ none
      → (tbl' : TableInfo) × (insert_token mem tbl n v retval ≡ record {
        ret = if mem.token_ok && mem.name_ok then success else failure;
        handle = some tbl';
        out = if retval then some 0 else none;
      })
        × (tbl'.hash_size ≡ tbl.hash_size)
        × Models
            (λ q. if mem.token_ok && mem.name_ok && str_eq n q then some v else view tbl q)
            tbl'
  unfolding insert_token view hash_value
  insert_token-Models mem v retval l = elim (Bool-cases mem.token_ok) [
    | inr refused ↦ (tbl, ground (arith, refused), refl, (valid, λ q. ground (arith, refused)))
    | inl given ↦ elim (Bool-cases mem.name_ok) [
      | inr refused ↦ (
        record tbl { tokens = tbl.tokens + 1 - 1 },
        ground (arith, given, refused),
        refl,
        (
          record {
            exponent = valid.exponent;
            power = valid.power;
            width = valid.width;
            placed = valid.placed;
            counted = omega (arith, valid.counted);
            named = omega (arith, valid.named);
          },
          λ q. ground (arith, given, refused),
        ),
      )
      | inl both ↦ (
        rewritten tbl n (append_token home_chain (token n v)) (tbl.tokens + 1) (tbl.names + 1),
        ground (arith, given, both),
        refl,
        ((append-Models v l).0, λ q. ground (arith, given, both, (append-Models v l).1 q)),
      )
    ]
  ]

  pub tokens_pos : {old : ℕ} → lookup n home_chain ≡ some old → 0 < tbl.tokens
  tokens_pos l = omega (
    arith,
    Lookup.length-removed n home_chain l,
    total-set tbl.table (hash_value tbl n) [] (rw valid.width (hash_value-lt valid n)),
    valid.counted,
  )

  -- A token unlinked from the chain.
  pub removed-Models :
      {old : ℕ}
      → lookup n home_chain ≡ some old
      → Models
          (λ q. if str_eq n q then none else view tbl q)
          (rewritten tbl n (find_in_chain n true home_chain).1 (tbl.tokens - 1) (tbl.names - 1))
  removed-Models e = (
    rewritten-IsValid valid n _ _ _ (omega (arith, valid.named))
        (omega (arith, Lookup.length-removed n home_chain e, tokens_pos e))
        (λ q.
          ground
            (arith, Lookup.occurrences-removed n q home_chain, valid.placed q (hash_value tbl n))),
    view-rewritten valid n _ _ _ none (λ q. Lookup.lookup-removed n q _ (valid.placed q _).0),
  )

  -- A chain written back as it was.
  pub absent-Models :
      lookup n home_chain ≡ none
      → Models
          (λ q. if str_eq n q then none else view tbl q)
          (rewritten tbl n (find_in_chain n true home_chain).1 tbl.tokens tbl.names)
  absent-Models l = (
    rewritten-IsValid valid n _ _ _ valid.named (rw (Lookup.unchanged n home_chain l))
        (λ q. rw (Lookup.unchanged n home_chain l) (valid.placed q _)),
    view-rewritten valid n _ _ _ none (λ q. Lookup.lookup-removed n q _ (valid.placed q _).0),
  )
