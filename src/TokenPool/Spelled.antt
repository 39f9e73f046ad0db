-- ===== src/TokenPool/Spelled.antt =====
-- libaux/TokenPool.cpp: names in the buffer, and the search of a row.
use mcuproxy.Prelude.{
  ℕ, zero, suc, ◌+◌, ◌≤◌, ◌<◌, ◌≡◌, refl, ap, ap₂, ◌∙◌, true, false, List, [], ◌∷◌, ◌++◌, Option,
  none, some, arith, All, length, ◌==◌, Bool-cases, inl, inr,
}
use mcuproxy.TokenPool.{is_same, strcpy, find_entry}

-- The bytes of a C string.
abbrev pub IsName : List ℕ → Type 0
IsName s = All (λ c. 0 < c) s

-- The same bytes from `p` on compare the same.
same_above :
    (m m' : ℕ → ℕ) (p : ℕ) (s : List ℕ)
    → ((a : ℕ) → p ≤ a → m' a ≡ m a)
    → is_same m' p s ≡ is_same m p s
unfolding is_same
same_above m m' p [] h = ap (λ v. v == 0) (h p (omega arith))
same_above m m' p (c ∷ s) h =
    let e = h p (omega arith) in
    let rest = same_above m m' (p + 1) s (λ a le. h a (omega arith)) in rw (e, rest) refl

-- A comparison reads no further than the terminator.
pub same_below :
    (m m' : ℕ → ℕ) (p n limit : ℕ) (s : List ℕ)
    → ((a : ℕ) → a < limit → m' a ≡ m a)
    → p + n < limit
    → m (p + n) ≡ 0
    → IsName s
    → is_same m' p s ≡ is_same m p s
unfolding is_same
same_below m m' p n limit [] h inside ended name = ap (λ v. v == 0) (h p (omega arith))
same_below m m' p zero limit (c ∷ s) h inside ended name =
    let e = h p (omega arith) in
    let here : p + 0 ≡ p = omega arith in
    let ended' = rw here at ended in
    let differ : m p == c ≡ false = ground (arith, ended') in rw (e, differ) refl
same_below m m' p (suc n) limit (c ∷ s) h inside ended name =
    let e = h p (omega arith) in
    let next : p + suc n ≡ p + 1 + n = omega arith in
    let rest = same_below m m' (p + 1) n limit s h (omega arith) (rw next at ended) name.1 in
    rw (e, rest) refl

pub strcpy_below : (m : ℕ → ℕ) (p : ℕ) (s : List ℕ) (a : ℕ) → a < p → strcpy m p s a ≡ m a
unfolding strcpy
strcpy_below m p [] a h = let other : a == p ≡ false = ground arith in rw other refl
strcpy_below m p (c ∷ s) a h =
    let other : a == p ≡ false = ground arith in rw other (strcpy_below m (p + 1) s a (omega arith))

pub strcpy_same : (m : ℕ → ℕ) (p : ℕ) (s : List ℕ) → is_same (strcpy m p s) p s ≡ true
unfolding is_same strcpy
strcpy_same m p [] = let here : p == p ≡ true = ground arith in rw here refl
strcpy_same m p (c ∷ s) =
    let here : p == p ≡ true = ground arith in
    let again : c == c ≡ true = ground arith in
    let rest =
      same_above (strcpy m (p + 1) s) (strcpy m p (c ∷ s)) (p + 1) s
        (λ a le. let other : a == p ≡ false = ground arith in rw other refl) in
    rw (here, again) (rest ∙ strcpy_same m (p + 1) s)

-- A string is ended behind its last character.
pub same_ended : (m : ℕ → ℕ) (p : ℕ) (s : List ℕ) → is_same m p s ≡ true → m (p + length s) ≡ 0
unfolding is_same
same_ended m p [] h = let here : p + 0 ≡ p = omega arith in rw here (ground (arith, h))
same_ended m p (c ∷ s) h =
    let next : p + suc (length s) ≡ p + 1 + length s = omega arith in
    rw next (same_ended m (p + 1) s (ground (arith, h)))

-- Two names that are spelled at the same place are the same.
pub same_unique :
    (m : ℕ → ℕ) (p : ℕ) (s t : List ℕ)
    → IsName s
    → IsName t
    → is_same m p s ≡ true
    → is_same m p t ≡ true
    → s ≡ t
unfolding is_same
same_unique m p [] [] ns nt h k = refl
same_unique m p [] (d ∷ t) ns nt h k = absurd (ground (arith, h, k, nt.0))
same_unique m p (c ∷ s) [] ns nt h k = absurd (ground (arith, h, k, ns.0))
same_unique m p (c ∷ s) (d ∷ t) ns nt h k =
    let first : c ≡ d = ground (arith, h, k) in
    ap₂ (λ x xs. x ∷ xs) first
      (same_unique m (p + 1) s t ns.1 nt.1 (ground (arith, h)) (ground (arith, k)))

-- An entry of a row is a string that ends in front of the limit.
abbrev pub Ends : (ℕ → ℕ) → ℕ → Option ℕ → Type 0
Ends m limit none = ⊥
Ends m limit (some p) = (n : ℕ) × (p + n < limit) × (m (p + n) ≡ 0)

abbrev pub AreEnded : (ℕ → ℕ) → ℕ → List (Option ℕ) → Type 0
AreEnded m limit row = All (Ends m limit) row

pub find_entry_same :
    (m m' : ℕ → ℕ) (limit : ℕ) (s : List ℕ) (row : List (Option ℕ))
    → ((a : ℕ) → a < limit → m' a ≡ m a)
    → IsName s
    → AreEnded m limit row
    → find_entry m' s row ≡ find_entry m s row
unfolding find_entry
find_entry_same m m' limit s [] h name ended = refl
find_entry_same m m' limit s (none ∷ row) h name ended = absurd ended.0
find_entry_same m m' limit s (some p ∷ row) h name ended =
    let (n, inside, zero_there) = ended.0 in
    let first = same_below m m' p n limit s h inside zero_there name in
    let rest = find_entry_same m m' limit s row h name ended.1 in rw (first, rest) refl

-- The search of a row meets no NULL.
pub find_entry-some :
    (m : ℕ → ℕ) (limit : ℕ) (s : List ℕ) (row : List (Option ℕ))
    → AreEnded m limit row
    → (it : Option ℕ) × (find_entry m s row ≡ some it)
unfolding find_entry
find_entry-some m limit s [] ended = (none, refl)
find_entry-some m limit s (none ∷ row) ended = absurd ended.0
find_entry-some m limit s (some p ∷ row) ended =
    let (it, later) = find_entry-some m limit s row ended.1 in
    elim (Bool-cases (is_same m p s)) [
      | inl here ↦ (some p, rw here refl)
      | inr there ↦ (it, rw there later)
    ]

-- What is found stays found when an entry is put behind.
pub find_entry-append :
    (m : ℕ → ℕ) (s : List ℕ) (row more : List (Option ℕ)) (p : ℕ)
    → find_entry m s row ≡ some (some p)
    → find_entry m s (row ++ more) ≡ some (some p)
unfolding find_entry
find_entry-append m s [] more p h = absurd (cc)
find_entry-append m s (none ∷ row) more p h = absurd (cc)
find_entry-append m s (some q ∷ row) more p h = elim (Bool-cases (is_same m q s)) [
  | inl here ↦ rw here (rw here at h)
  | inr there ↦ rw there (find_entry-append m s row more p (rw there at h))
]

-- What is not found in a row is looked for behind it.
pub find_entry_behind :
    (m : ℕ → ℕ) (s : List ℕ) (row more : List (Option ℕ))
    → find_entry m s row ≡ some none
    → find_entry m s (row ++ more) ≡ find_entry m s more
unfolding find_entry
find_entry_behind m s [] more h = refl
find_entry_behind m s (none ∷ row) more h = absurd (cc)
find_entry_behind m s (some q ∷ row) more h = elim (Bool-cases (is_same m q s)) [
  | inl here ↦ absurd (ground (arith, h, here))
  | inr there ↦ rw there (find_entry_behind m s row more (rw there at h))
]

pub find_entry-is_same :
    (m : ℕ → ℕ) (s : List ℕ) (row : List (Option ℕ)) (p : ℕ)
    → find_entry m s row ≡ some (some p)
    → is_same m p s ≡ true
unfolding find_entry
find_entry-is_same m s [] p h = absurd (cc)
find_entry-is_same m s (none ∷ row) p h = absurd (cc)
find_entry-is_same m s (some q ∷ row) p h = elim (Bool-cases (is_same m q s)) [
  | inl here ↦ let it : q ≡ p = ground (arith, h, here) in rw it at here
  | inr there ↦ find_entry-is_same m s row p (rw there at h)
]
