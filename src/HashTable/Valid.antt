-- ===== src/HashTable/Valid.antt =====
-- libckits/hashTable.c: the invariant of a table, the map that it stands for, and one write to it.
use native.Mathlib.Nat.{one-le-pow}
use mcuproxy.Prelude.{
  ℕ, zero, suc, ◌+◌, ◌^◌, ◌≤◌, ◌<◌, ◌≡◌, ◌≢◌, refl, ◌∙◌, List, [], ◌∷◌, Option, arith,
  if◌then◌else◌, length, get_or, set, length-set, get_or-set, replicate,
}
use mcuproxy.Prelude.Word.{bit_and_mask}
use mcuproxy.HashTable.Hash.{Name, str_eq}
use mcuproxy.HashTable.Chain.{TokenChain}
use mcuproxy.HashTable.Lookup.{lookup, occurrences, eq_of_str_eq}
use mcuproxy.HashTable.{TableInfo, hash_value}

-- The tokens of all chains.
unfoldable pub total : List TokenChain → ℕ
total [] = 0
total (c ∷ cs) = length c + total cs

pub total-set :
    (cs : List TokenChain) (i : ℕ) (c : TokenChain)
    → i < length cs
    → total (set cs i c) + length (get_or cs i []) ≡ total cs + length c
unfolding total
total-set [] i c h = absurd (omega arith)
total-set (x ∷ cs) zero c h = omega arith
total-set (x ∷ cs) (suc i) c h = omega (arith, total-set cs i c (omega arith))

pub total-replicate : (n : ℕ) → total (replicate n []) ≡ 0
unfolding total
total-replicate zero = refl
total-replicate (suc n) = omega (arith, total-replicate n)

abbrev pub chain_of : TableInfo → Name → TokenChain
chain_of tbl n = get_or tbl.table (hash_value tbl n) []

-- A name occurs at most once, and only in its own chain.
abbrev pub IsPlaced : TableInfo → Type 0
IsPlaced tbl =
    (q : Name) (i : ℕ)
    → (occurrences q (get_or tbl.table i []) ≤ 1)
      × (hash_value tbl q ≢ i → occurrences q (get_or tbl.table i []) ≡ 0)

-- The size is a power of two, names are in place, and every block that an allocator gave to a
-- token belongs to a token of the table.
pub record IsValid (tbl : TableInfo) : Type 0 where
  pub exponent : ℕ
  pub power : tbl.hash_size ≡ 2 ^ exponent
  pub width : length tbl.table ≡ tbl.hash_size
  pub placed : IsPlaced tbl
  pub counted : total tbl.table ≡ tbl.tokens
  pub named : tbl.names ≡ tbl.tokens

-- The table as a map.
unfoldable pub view : TableInfo → Name → Option ℕ
view tbl q = lookup q (chain_of tbl q)

pub hash_value-lt : {tbl : TableInfo} → IsValid tbl → (n : Name) → hash_value tbl n < tbl.hash_size
unfolding hash_value
hash_value-lt {tbl} v n =
    rw (v.power, bit_and_mask v.exponent) (omega (arith, one-le-pow v.exponent 2 (omega arith)))

-- `tbl` after the chain of a name has become `c` and the counts `k` and `m`.
abbrev pub rewritten : TableInfo → Name → TokenChain → ℕ → ℕ → TableInfo
rewritten tbl n c k m = record tbl {
  table = set tbl.table (hash_value tbl n) c;
  tokens = k;
  names = m;
}

module _ {tbl : TableInfo} (valid : IsValid tbl) (n : Name) (c : TokenChain) (k m : ℕ)
    (same : m ≡ k) (count : k + length (chain_of tbl n) ≡ tbl.tokens + length c)
    (few : (q : Name)
      → (occurrences q c ≤ 1) × (hash_value tbl q ≢ hash_value tbl n → occurrences q c ≡ 0)) where
  rewritten-IsPlaced : IsPlaced (rewritten tbl n c k m)
  unfolding hash_value
  rewritten-IsPlaced q i =
      rw (get_or-set tbl.table (hash_value tbl n) i c [] (rw valid.width (hash_value-lt valid n)))
        (ground (arith, valid.placed q i, few q))

  pub rewritten-IsValid : IsValid (rewritten tbl n c k m)
  rewritten-IsValid = record {
    exponent = valid.exponent;
    power = valid.power;
    width = length-set tbl.table _ c ∙ valid.width;
    placed = rewritten-IsPlaced;
    counted = omega (
      arith,
      total-set tbl.table (hash_value tbl n) c (rw valid.width (hash_value-lt valid n)),
      valid.counted,
    );
    named = same;
  }

-- What the new chain says of each name is what the table says.
pub view-rewritten :
    {tbl : TableInfo} (valid : IsValid tbl) (n : Name) (c : TokenChain) (k m : ℕ) (v : Option ℕ)
    → ((q : Name) → lookup q c ≡ (if str_eq n q then v else lookup q (chain_of tbl n)))
    → (q : Name) → view (rewritten tbl n c k m) q ≡ (if str_eq n q then v else view tbl q)
unfolding view hash_value
view-rewritten {tbl} valid n c k m v reads q =
    rw
      (get_or-set tbl.table (hash_value tbl n) (hash_value tbl q) c []
        (rw valid.width (hash_value-lt valid n)))
      (ground (arith, reads q, eq_of_str_eq n q))
