-- ===== src/MetaBuffer/Tests.antt =====
-- Tests of the items of a buffer.
use mcuproxy.Prelude.{ℕ, ◌≡◌, refl, List, [], ◌∷◌, Option, some, arith}
use mcuproxy.Prelude.Int.{pos}
use mcuproxy.TokenPool.{TokenPool, new_token_pool}
use mcuproxy.TokenPool.Spelled.{IsName}
use mcuproxy.TokenPool.Interned.{IsPool, Stands}
use mcuproxy.MetaBuffer.{
  MetaType, Value, int32_value, Item, set_value, find_value, type_of, k_type_int32,
}
use mcuproxy.MetaBuffer.Items.{AreTagged, typed, set_value-find_value}

-- "ssrc"
abbrev ssrc : List ℕ
ssrc = 115 ∷ 115 ∷ 114 ∷ 99 ∷ []

abbrev pool : TokenPool
pool = new_token_pool (λ a. 7)

found_as_set : typed k_type_int32 (int32_value (pos 5)) ≡ some (int32_value (pos 5))
unfolding type_of
found_as_set = refl

set_value-find_value_example :
    (items' : List Item) × (pool' : TokenPool) × (set_value pool [] ssrc (int32_value (pos 5))
      ≡ some (items', pool'))
    × IsPool pool'
    × AreTagged items'
    × ((type : MetaType)
        → find_value pool' items' ssrc type ≡ some (typed type (int32_value (pos 5)), pool'))
    × ((q : ℕ) (t : List ℕ) (type : MetaType) (r : Option Value)
        → IsName t
        → ¬ ssrc ≡ t
        → Stands pool q t
        → find_value pool [] t type ≡ some (r, pool)
        → find_value pool' items' t type ≡ some (r, pool'))
set_value-find_value_example =
    set_value-find_value pool [] ssrc (int32_value (pos 5)) (λ i. tt)
      (omega arith, (omega arith, (omega arith, (omega arith, tt)))) (omega arith) tt (omega arith)
