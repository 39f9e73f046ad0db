-- ===== src/TokenPool/Interned.antt =====
-- libaux/TokenPool.cpp: one pointer for each name.
use mcuproxy.Prelude.{
  ℕ, ◌+◌, ◌≤◌, ◌<◌, ◌≡◌, refl, ◌∙◌, true, false, List, [], ◌∷◌, ◌++◌, Option, none, some, arith,
  length, leb, ◌==◌, Bool-cases, Option-cases, inl, inr,
}
use mcuproxy.TokenPool.{
  TokenPool, const_tokenpool_size, index, strcpy, find_entry, alloc_nolock, push_back, intern,
  atomize,
}
use mcuproxy.TokenPool.Spelled.{
  IsName, Ends, AreEnded, strcpy_below, strcpy_same, same_ended, same_unique, find_entry_same,
  find_entry-some, find_entry-append, find_entry_behind, find_entry-is_same,
}

-- Every entry is a string in the part of the buffer that is in use.
abbrev pub IsPool : TokenPool → Type 0
IsPool pool = (i : ℕ) → AreEnded pool.token_buffer pool.buffer_ptr (pool.rows i)

-- The name is in the pool, at `p`.
abbrev pub Stands : TokenPool → ℕ → List ℕ → Type 0
Stands pool p s = find_entry pool.token_buffer s (pool.rows (index s)) ≡ some (some p)

grown :
    (m m' : ℕ → ℕ) (limit limit' : ℕ) (row : List (Option ℕ))
    → ((a : ℕ) → a < limit → m' a ≡ m a)
    → limit ≤ limit'
    → AreEnded m limit row
    → AreEnded m' limit' row
grown m m' limit limit' [] h le ended = tt
grown m m' limit limit' (none ∷ row) h le ended = absurd ended.0
grown m m' limit limit' (some p ∷ row) h le ended =
    let (n, inside, zero_there) = ended.0 in
    ((n, omega arith, h (p + n) inside ∙ zero_there), grown m m' limit limit' row h le ended.1)

ended_append :
    (m : ℕ → ℕ) (limit : ℕ) (row : List (Option ℕ)) (item : Option ℕ)
    → AreEnded m limit row
    → Ends m limit item
    → AreEnded m limit (row ++ item ∷ [])
ended_append m limit [] item ended e = (e, tt)
ended_append m limit (it ∷ row) item ended e = (ended.0, ended_append m limit row item ended.1 e)

-- A name that stands is never spelled where another stands.
pub Stands-unique :
    (pool : TokenPool) (p : ℕ) (s t : List ℕ)
    → IsName s
    → IsName t
    → Stands pool p s
    → Stands pool p t
    → s ≡ t
Stands-unique pool p s t ns nt hs ht =
    same_unique pool.token_buffer p s t ns nt
      (find_entry-is_same pool.token_buffer s (pool.rows (index s)) p hs)
      (find_entry-is_same pool.token_buffer t (pool.rows (index t)) p ht)

-- The pool afterwards is valid, what stood still stands, and at most the room of the name is taken.
pub record IsAfter (pool : TokenPool) (s : List ℕ) (p : ℕ) (pool' : TokenPool) : Type 0 where
  pub valid : IsPool pool'
  pub new : Stands pool' p s
  pub old : (q : ℕ) (t : List ℕ) → IsName t → Stands pool q t → Stands pool' q t
  pub room : pool'.buffer_ptr ≤ pool.buffer_ptr + (1 + length s)

module _ (pool : TokenPool) (valid : IsPool pool) (s : List ℕ) (name : IsName s) where
  abbrev taken : TokenPool
  taken = record {
    rows = push_back pool.rows (index s) (some pool.buffer_ptr);
    token_buffer = strcpy pool.token_buffer pool.buffer_ptr s;
    buffer_ptr = pool.buffer_ptr + (1 + length s);
  }

  taken-IsPool : IsPool taken
  taken-IsPool i =
      let m = pool.token_buffer in
      let p = pool.buffer_ptr in
      let old =
        grown m (strcpy m p s) p (p + (1 + length s)) (pool.rows i) (strcpy_below m p s)
          (omega arith) (valid i) in
      elim (Bool-cases (i == index s)) [
        | inl here ↦ rw here (
            ended_append (strcpy m p s) (p + (1 + length s)) (pool.rows i) (some p) old
              (length s, omega arith, same_ended (strcpy m p s) p s (strcpy_same m p s)))
        | inr other ↦ rw other old
      ]

  -- The search of a row that has only grown, in a buffer that has only grown.
  searched :
      (t : List ℕ) (i : ℕ)
      → IsName t
      → find_entry taken.token_buffer t (pool.rows i) ≡ find_entry pool.token_buffer t (pool.rows i)
  searched t i nt =
      find_entry_same pool.token_buffer taken.token_buffer pool.buffer_ptr t (pool.rows i)
        (strcpy_below pool.token_buffer pool.buffer_ptr s) nt (valid i)

  taken-IsAfter :
      find_entry pool.token_buffer s (pool.rows (index s)) ≡ some none
      → IsAfter pool s pool.buffer_ptr taken
  taken-IsAfter missing = record {
    valid = taken-IsPool;
    new =
        let here : index s == index s ≡ true = ground arith in
        rw here (
          find_entry_behind taken.token_buffer s (pool.rows (index s)) (some pool.buffer_ptr ∷ [])
            (searched s (index s) name ∙ missing)
          ∙ (unfold find_entry in rw (strcpy_same pool.token_buffer pool.buffer_ptr s) refl));
    old = λ q t nt stood. elim (Bool-cases (index t == index s)) [
      | inl here ↦ rw here (
          find_entry-append taken.token_buffer t (pool.rows (index t)) (some pool.buffer_ptr ∷ []) q
            (searched t (index t) nt ∙ stood))
      | inr other ↦ rw other (searched t (index t) nt ∙ stood)
    ];
    room = omega arith;
  }

  -- A name for which there is room is in the pool afterwards.
  pub atomize-IsAfter :
      pool.buffer_ptr + (1 + length s) < const_tokenpool_size
      → (p : ℕ) × (pool' : TokenPool) × (atomize pool s ≡ some (some p, pool'))
        × IsAfter pool s p pool'
  unfolding atomize
  atomize-IsAfter fits =
      let (it, run) =
        find_entry-some pool.token_buffer pool.buffer_ptr s (pool.rows (index s))
          (valid (index s)) in
      elim (Option-cases it) [
        | inl missing ↦
            let few : leb const_tokenpool_size (pool.buffer_ptr + (1 + length s)) ≡ false =
              ground arith in
            (
              pool.buffer_ptr,
              taken,
              rw (run, missing) (unfold intern alloc_nolock in rw few refl),
              taken-IsAfter (rw missing at run),
            )
        | inr (p, there) ↦ (
          p,
          pool,
          rw (run, there) (unfold intern in refl),
          record {
            valid = valid;
            new = rw there at run;
            old = λ q t nt stood. stood;
            room = omega arith;
          },
        )
      ]

null_fault : (m : ℕ → ℕ) (t : List ℕ) → find_entry m t (none ∷ []) ≡ none
unfolding find_entry
null_fault m t = refl

-- A name that is not in a valid pool and for which there is no room gets NULL, and then a call for
-- any name of the same row that is not in the pool, itself included, is a fault.
pub atomize_full :
    (pool : TokenPool) (s : List ℕ)
    → IsPool pool
    → find_entry pool.token_buffer s (pool.rows (index s)) ≡ some none
    → const_tokenpool_size ≤ pool.buffer_ptr + (1 + length s)
    → (pool' : TokenPool) × (atomize pool s ≡ some (none, pool'))
      × ((t : List ℕ)
          → index t ≡ index s
          → find_entry pool.token_buffer t (pool.rows (index t)) ≡ some none
          → atomize pool' t ≡ none)
unfolding atomize intern alloc_nolock
atomize_full pool s valid missing full =
    let many : leb const_tokenpool_size (pool.buffer_ptr + (1 + length s)) ≡ true = ground arith in
    (
      record pool { rows = push_back pool.rows (index s) none },
      rw (missing, many) refl,
      λ t same not_there.
          let here : index t == index s ≡ true = ground (arith, same) in
          let fault : find_entry pool.token_buffer t (pool.rows (index t) ++ none ∷ []) ≡ none =
            find_entry_behind pool.token_buffer t (pool.rows (index t)) (none ∷ []) not_there
            ∙ null_fault pool.token_buffer t in
          rw (here, fault) refl,
    )
