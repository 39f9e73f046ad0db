-- ===== src/IoStream/Buffer.antt =====
-- libckits/ioStream.c: writes into the buffer, and the conversions between C's integers.
use mcuproxy.Prelude.{
  ℕ, zero, suc, ◌+◌, ◌-◌, ◌%◌, ◌≤◌, ◌≡◌, refl, ap, sym, List, [], ◌∷◌, ◌++◌, Option, none, some,
  arith, ltb, if◌then◌else◌, length, take, drop,
}
use mcuproxy.Prelude.Int.{ℤ, pos, negsuc, pos_part, neg_part}

-- `(char)c`, as the byte that is stored.
unfoldable pub byte_of : ℤ → ℕ
byte_of c = (pos_part c % 256 + (256 - neg_part c % 256)) % 256

-- A stored byte, read as a signed `char`.
unfoldable pub char_to_int : ℕ → ℤ
char_to_int b = if ltb b 128 then pos b else negsuc (255 - b)

-- The bytes `bs` stored from index `i` on: `none` if one of them falls outside the memory.
unfoldable pub write_at : List ℕ → ℕ → List ℕ → Option (List ℕ)
write_at m i [] = some m
write_at [] i (b ∷ bs) = none
write_at (x ∷ m) zero (b ∷ bs) = elim (write_at m 0 bs) [ none ↦ none | some m' ↦ some (b ∷ m') ]
write_at (x ∷ m) (suc i) (b ∷ bs) = elim (write_at m i (b ∷ bs)) [
  | none ↦ none
  | some m' ↦ some (x ∷ m')
]

-- What is in the memory after such a store.
abbrev pub stored_at : List ℕ → ℕ → List ℕ → List ℕ
stored_at m i bs = take i m ++ (bs ++ drop (length bs) (drop i m))

pub take-append-drop : (i : ℕ) (m : List ℕ) → take i m ++ drop i m ≡ m
take-append-drop zero m = refl
take-append-drop (suc i) [] = refl
take-append-drop (suc i) (x ∷ m) = ap (λ r. x ∷ r) (take-append-drop i m)

pub write_at-stored_at :
    (m : List ℕ) (i : ℕ) (bs : List ℕ)
    → i + length bs ≤ length m
    → write_at m i bs ≡ some (stored_at m i bs)
unfolding write_at
write_at-stored_at [] zero [] h = refl
write_at-stored_at [] (suc i) [] h = refl
write_at-stored_at (x ∷ m) zero [] h = refl
write_at-stored_at (x ∷ m) (suc i) [] h = ap (λ r. some (x ∷ r)) (sym (take-append-drop i m))
write_at-stored_at [] i (b ∷ bs) h = absurd (omega arith)
write_at-stored_at (x ∷ m) zero (b ∷ bs) h = rw (write_at-stored_at m 0 bs (omega arith))
write_at-stored_at (x ∷ m) (suc i) (b ∷ bs) h = rw (write_at-stored_at m i (b ∷ bs) (omega arith))

pub length-stored_at :
    (m : List ℕ) (i : ℕ) (bs : List ℕ)
    → i + length bs ≤ length m
    → length (stored_at m i bs) ≡ length m
length-stored_at m zero [] h = refl
length-stored_at [] (suc i) [] h = refl
length-stored_at (x ∷ m) (suc i) bs h = ap suc (length-stored_at m i bs (omega arith))
length-stored_at [] i (b ∷ bs) h = absurd (omega arith)
length-stored_at (x ∷ m) zero (b ∷ bs) h = ap suc (length-stored_at m 0 bs (omega arith))

pub length-take : (n : ℕ) (xs : List ℕ) → n ≤ length xs → length (take n xs) ≡ n
length-take zero xs h = refl
length-take (suc n) [] h = absurd (omega arith)
length-take (suc n) (x ∷ xs) h = ap suc (length-take n xs (omega arith))

pub length-take_le : (n : ℕ) (xs : List ℕ) → length (take n xs) ≤ n
length-take_le zero xs = omega arith
length-take_le (suc n) [] = omega arith
length-take_le (suc n) (x ∷ xs) = omega (arith, length-take_le n xs)
