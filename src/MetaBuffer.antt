-- ===== src/MetaBuffer.antt =====
-- libaux/MetaBuffer.cpp and libaux/include/MetaBuffer.h: the typed items that a buffer carries. The
-- names are pointers of the token pool. A `float` and a `double` are their bits. To read a field of
-- the union that was not written is a fault, `none`, and so is a `CHECK` that fails. The memory of
-- the buffer and its range are left out.
pub mod Items
mod Tests
use mcuproxy.Prelude.{
  ℕ, Bool, true, false, List, [], ◌∷◌, ◌++◌, Option, none, some, length, ltb, ◌==◌, if◌then◌else◌,
  ◌>>=◌,
}
use mcuproxy.Prelude.Int.{ℤ}
use mcuproxy.TokenPool.{TokenPool, atomize}

-- `Type`, of which no type_code uses `kTypeString`.
pub data MetaType : Type 0 where
  k_type_int32 k_type_int64 k_type_size k_type_float k_type_double k_type_pointer k_type_string :
      MetaType

-- The value of the enumeration.
abbrev pub type_code : MetaType → ℕ
type_code k_type_int32 = 0
type_code k_type_int64 = 1
type_code k_type_size = 2
type_code k_type_float = 3
type_code k_type_double = 4
type_code k_type_pointer = 5
type_code k_type_string = 6

-- The union, with the field that was written last.
pub data Value : Type 0 where
  int32_value int64_value : ℤ → Value
  size_value float_value double_value ptr_value : ℕ → Value

pub record Item : Type 0 where
  pub u : Value
  pub name : Option ℕ
  pub type : MetaType

abbrev pub k_max_num_items : ℕ
k_max_num_items = 12

-- The type that the setter of a field stores with it.
unfoldable pub type_of : Value → MetaType
type_of (int32_value v) = k_type_int32
type_of (int64_value v) = k_type_int64
type_of (size_value v) = k_type_size
type_of (float_value v) = k_type_float
type_of (double_value v) = k_type_double
type_of (ptr_value v) = k_type_pointer

-- The field that the getter for a type reads.
unfoldable pub read_field : MetaType → Value → Option Value
read_field k_type_int32 (int32_value v) = some (int32_value v)
read_field k_type_int64 (int64_value v) = some (int64_value v)
read_field k_type_size (size_value v) = some (size_value v)
read_field k_type_float (float_value v) = some (float_value v)
read_field k_type_double (double_value v) = some (double_value v)
read_field k_type_pointer (ptr_value v) = some (ptr_value v)
read_field _ _ = none

abbrev pub is_pointer : Option ℕ → Option ℕ → Bool
is_pointer none none = true
is_pointer (some p) (some q) = p == q
is_pointer _ _ = false

-- The search of `allocateItem`: the items with the value stored, if the name has one already.
unfoldable pub store_item : Option ℕ → Value → List Item → Option (List Item)
store_item name v [] = none
store_item name v (item ∷ items) =
    let later = store_item name v items in
    if is_pointer item.name name
    then some (record { u = v; name = name; type = type_of v } ∷ items)
    else (do items' ← later; some (item ∷ items'))

-- A new item goes behind the others.
unfoldable pub allocate_item : Option ℕ → Value → List Item → Option (List Item)
allocate_item name v items = elim (store_item name v items) [
  | some items' ↦ some items'
  | none ↦
      if ltb (length items) k_max_num_items
      then some (items ++ record { u = v; name = name; type = type_of v } ∷ [])
      else none
]

unfoldable pub set_value : TokenPool → List Item → List ℕ → Value → Option (List Item × TokenPool)
set_value pool items name v = do
  (it, pool') ← atomize pool name
  items' ← allocate_item it v items
  some (items', pool')

unfoldable pub find_item : Option ℕ → MetaType → List Item → Option Item
find_item name type [] = none
find_item name type (item ∷ items) =
    let later = find_item name type items in
    if is_pointer item.name name
    then (if type_code item.type == type_code type then some item else none)
    else later

-- What the getter stores through its pointer, `none` if it returns false.
unfoldable pub get_field : MetaType → Option Item → Option (Option Value)
get_field type none = some none
get_field type (some item) = do v ← read_field type item.u; some (some v)

unfoldable pub find_value :
    TokenPool → List Item → List ℕ → MetaType → Option (Option Value × TokenPool)
find_value pool items name type = do
  (it, pool') ← atomize pool name
  found ← get_field type (find_item it type items)
  some (found, pool')
