-- ===== src/TokenPool/Names.antt =====
-- libaux/TokenPool.cpp: the pointers of a sequence of names.
use mcuproxy.Prelude.{
  ℕ, zero, suc, ◌+◌, ◌<◌, ◌≡◌, ◌↔◌, refl, sym, ap, ◌∙◌, List, [], ◌∷◌, Option, none, some, arith,
  All, length, get_or, ◌>>=◌,
}
use mcuproxy.TokenPool.{TokenPool, const_tokenpool_size, atomize}
use mcuproxy.TokenPool.Spelled.{IsName}
use mcuproxy.TokenPool.Interned.{IsPool, Stands, Stands-unique, atomize-IsAfter}

-- One call after the other.
unfoldable pub atomize_all : TokenPool → List (List ℕ) → Option (List (Option ℕ) × TokenPool)
atomize_all pool [] = some ([], pool)
atomize_all pool (name ∷ names) = do
  (it, pool') ← atomize pool name
  (its, pool'') ← atomize_all pool' names
  some (it ∷ its, pool'')

-- The bytes that the names take.
unfoldable pub total : List (List ℕ) → ℕ
total [] = 0
total (name ∷ names) = 1 + length name + total names

abbrev AllStand : TokenPool → List (Option ℕ) → List (List ℕ) → Type 0
AllStand pool [] [] = Unit
AllStand pool (some p ∷ its) (name ∷ names) = Stands pool p name × AllStand pool its names
AllStand pool _ _ = ⊥

pub record AreAfter (pool : TokenPool) (names : List (List ℕ)) (its : List (Option ℕ))
    (pool' : TokenPool) : Type 0 where
  pub valid : IsPool pool'
  pub new : AllStand pool' its names
  pub old : (q : ℕ) (t : List ℕ) → IsName t → Stands pool q t → Stands pool' q t

all-AreAfter :
    (names : List (List ℕ)) (pool : TokenPool)
    → IsPool pool
    → All IsName names
    → pool.buffer_ptr + total names < const_tokenpool_size
    → (its : List (Option ℕ)) × (pool' : TokenPool) × (atomize_all pool names ≡ some (its, pool'))
      × AreAfter pool names its pool'
unfolding atomize_all total
all-AreAfter [] pool valid named fits =
    ([], pool, refl, record { valid = valid; new = tt; old = λ q t nt stood. stood })
all-AreAfter (name ∷ names) pool valid named fits =
    let (p, next, run, after) = atomize-IsAfter pool valid name named.0 (omega arith) in
    let (its, pool', ran, rest) =
      all-AreAfter names next after.valid named.1 (omega (arith, after.room)) in
    (
      some p ∷ its,
      pool',
      rw (run, ran) refl,
      record {
        valid = rest.valid;
        new = (rest.old p name named.0 after.new, rest.new);
        old = λ q t nt stood. rest.old q t nt (after.old q t nt stood);
      },
    )

standing :
    (pool : TokenPool) (its : List (Option ℕ)) (names : List (List ℕ)) (i : ℕ)
    → AllStand pool its names
    → All IsName names
    → i < length names
    → (p : ℕ) × (get_or its i none ≡ some p)
      × Stands pool p (get_or names i [])
      × IsName (get_or names i [])
standing pool [] [] i h named lt = absurd (omega arith)
standing pool [] (name ∷ names) i h named lt = absurd h
standing pool (none ∷ its) names i h named lt = absurd h
standing pool (some p ∷ its) [] i h named lt = absurd h
standing pool (some p ∷ its) (name ∷ names) zero h named lt = (p, refl, h.0, named.0)
standing pool (some p ∷ its) (name ∷ names) (suc i) h named lt =
    standing pool its names i h.1 named.1 (omega arith)

abbrev or_zero : Option (Option ℕ) → ℕ
or_zero (some (some p)) = p
or_zero _ = 0

-- For names without a 0 that fit together into what is left of the buffer of a valid pool, the
-- calls of `atomize` one after the other meet no fault, no pointer is NULL, and two of the pointers
-- are the same exactly if the names are. A name that was in the pool keeps its place.
pub atomize_all_injective :
    (pool : TokenPool) (names : List (List ℕ))
    → IsPool pool
    → All IsName names
    → pool.buffer_ptr + total names < const_tokenpool_size
    → (its : List (Option ℕ)) × (pool' : TokenPool) × (atomize_all pool names ≡ some (its, pool'))
      × IsPool pool'
      × ((i j : ℕ)
          → i < length names
          → j < length names
          → (¬ get_or its i none ≡ none)
            × ((get_or its i none ≡ get_or its j none) ↔ (get_or names i [] ≡ get_or names j [])))
      × ((q : ℕ) (t : List ℕ) → IsName t → Stands pool q t → Stands pool' q t)
atomize_all_injective pool names valid named fits =
    let (its, pool', run, after) = all-AreAfter names pool valid named fits in
    (
      its,
      pool',
      run,
      after.valid,
      λ i j li lj.
          let (p, at_i, si, ni) = standing pool' its names i after.new named li in
          let (q, at_j, sj, nj) = standing pool' its names j after.new named lj in
          (
            λ null. absurd (cc (null, at_i)),
            (
              λ same.
                  let e : p ≡ q = ground (arith, same, at_i, at_j) in
                  Stands-unique pool' q (get_or names i []) (get_or names j []) ni nj (rw e at si)
                    sj,
              λ same.
                  let moved : Stands pool' p (get_or names j []) = rw same at si in
                  let e : p ≡ q = ap or_zero (sym moved ∙ sj) in at_i ∙ ap some e ∙ sym at_j,
            ),
          ),
      after.old,
    )
