-- ===== src/MetaBuffer/Items.antt =====
-- libaux/MetaBuffer.cpp: what is set is found, under its name and with its type.
use mcuproxy.Prelude.{
  ℕ, ◌+◌, ◌<◌, ◌≡◌, refl, ap, ◌∙◌, ◌⊎◌, Bool, true, false, List, [], ◌∷◌, ◌++◌, Option, none, some,
  arith, All, length, ltb, ◌==◌, if◌then◌else◌, ◌>>=◌, Bool-cases, inl, inr,
}
use mcuproxy.TokenPool.{TokenPool, const_tokenpool_size, atomize, intern}
use mcuproxy.TokenPool.Spelled.{IsName}
use mcuproxy.TokenPool.Interned.{IsPool, Stands, Stands-unique, atomize-IsAfter}
use mcuproxy.MetaBuffer.{
  MetaType, type_code, Value, Item, k_max_num_items, type_of, read_field, is_pointer, store_item,
  allocate_item, set_value, find_item, get_field, find_value,
}

-- The type of every item is that of the field that was written.
abbrev pub AreTagged : List Item → Type 0
AreTagged items = All (λ (item : Item). item.type ≡ type_of item.u) items

-- The value that a name has, if it has that type.
abbrev pub typed : MetaType → Value → Option Value
typed type v = if type_code (type_of v) == type_code type then some v else none

-- There is an item of the name.
unfoldable pub has_item : Option ℕ → List Item → Bool
has_item name [] = false
has_item name (item ∷ items) =
    let later = has_item name items in if is_pointer item.name name then true else later

read_field-type_of :
    (type : MetaType) (v : Value)
    → type_code (type_of v) ≡ type_code type
    → read_field type v ≡ some v
unfolding type_of read_field
read_field-type_of type v h = ground (arith, h)

same_pointer : (a b : Option ℕ) → is_pointer a b ≡ true → a ≡ b
same_pointer none none h = refl
same_pointer (some p) (some q) h = ap some (ground (arith, h))
same_pointer none (some q) h = absurd (cc)
same_pointer (some p) none h = absurd (cc)

is_pointer_self : (a : Option ℕ) → is_pointer a a ≡ true
is_pointer_self none = refl
is_pointer_self (some p) = ground arith

abbrev new_item : Option ℕ → Value → Item
new_item name v = record { u = v; name = name; type = type_of v }

-- What the getter for a type makes of an item that has just been stored.
read_new :
    (name : Option ℕ) (v : Value) (type : MetaType)
    → get_field type
        (if type_code (type_of v) == type_code type then some (new_item name v) else none)
      ≡ some (typed type v)
unfolding get_field
read_new name v type = elim (Bool-cases (type_code (type_of v) == type_code type)) [
  | inl same ↦ rw (same, read_field-type_of type v (ground (arith, same))) refl
  | inr other ↦ rw other refl
]

record IsStored (name : Option ℕ) (v : Value) (items items' : List Item) : Type 0 where
  tagged : AreTagged items'
  new : (type : MetaType) → get_field type (find_item name type items') ≡ some (typed type v)
  old :
      (other : Option ℕ) (type : MetaType)
      → is_pointer name other ≡ false
      → find_item other type items' ≡ find_item other type items

-- The item of a name that has one is overwritten.
store_item-IsStored :
    (name : Option ℕ) (v : Value) (items : List Item)
    → AreTagged items
    → ((has_item name items ≡ true)
        × (items' : List Item) × (store_item name v items ≡ some items')
        × IsStored name v items items')
      ⊎ (has_item name items ≡ false) × (store_item name v items ≡ none)
unfolding has_item store_item find_item
store_item-IsStored name v [] tagged = inr (refl, refl)
store_item-IsStored name v (item ∷ items) tagged = elim (Bool-cases (is_pointer item.name name)) [
  | inl here ↦
      let e = same_pointer item.name name here in
      inl (
        rw here refl,
        new_item name v ∷ items,
        rw here refl,
        record {
          tagged = (refl, tagged.1);
          new = λ type. rw (is_pointer_self name) (read_new name v type);
          old = λ other type differ. rw (e, differ) refl;
        },
      )
  | inr there ↦ elim (store_item-IsStored name v items tagged.1) [
    | inl (has, items', run, stored) ↦ inl (
      rw (there, has) refl,
      item ∷ items',
      rw (there, run) refl,
      record {
        tagged = (tagged.0, stored.tagged);
        new = λ type. rw there (stored.new type);
        old = λ other type differ. rw (stored.old other type differ) refl;
      },
    )
    | inr (has, run) ↦ inr (rw (there, has) refl, rw (there, run) refl)
  ]
]

-- A new item is found behind the others.
append-IsStored :
    (name : Option ℕ) (v : Value) (items : List Item)
    → AreTagged items
    → has_item name items ≡ false
    → IsStored name v items (items ++ new_item name v ∷ [])
unfolding has_item find_item
append-IsStored name v [] tagged has = record {
  tagged = (refl, tt);
  new = λ type. rw (is_pointer_self name) (read_new name v type);
  old = λ other type differ. rw differ refl;
}
append-IsStored name v (item ∷ items) tagged has =
    let there : is_pointer item.name name ≡ false = ground (arith, has) in
    let stored = append-IsStored name v items tagged.1 (ground (arith, has)) in
    record {
      tagged = (tagged.0, stored.tagged);
      new = λ type. rw there (stored.new type);
      old = λ other type differ. rw (stored.old other type differ) refl;
    }

allocate_item-IsStored :
    (name : Option ℕ) (v : Value) (items : List Item)
    → AreTagged items
    → (has_item name items ≡ true) ⊎ (length items < k_max_num_items)
    → (items' : List Item) × (allocate_item name v items ≡ some items')
      × IsStored name v items items'
unfolding allocate_item
allocate_item-IsStored name v items tagged room = elim (store_item-IsStored name v items tagged) [
  | inl (has, items', run, stored) ↦ (items', rw (run, allocate_item) refl, stored)
  | inr (has, run) ↦
      let few : ltb (length items) k_max_num_items ≡ true = elim room [
        | inl had ↦ absurd (cc (had, has))
        | inr less ↦ ground arith
      ] in
      (
        items ++ new_item name v ∷ [],
        rw (run, few, allocate_item) refl,
        append-IsStored name v items tagged has,
      )
]

-- The call for a name that is in the pool changes nothing.
atomize-Stands :
    (pool : TokenPool) (p : ℕ) (s : List ℕ) → Stands pool p s → atomize pool s ≡ some (some p, pool)
unfolding atomize intern
atomize-Stands pool p s stands = rw stands refl

find_value-Stands :
    (pool : TokenPool) (items : List Item) (p : ℕ) (s : List ℕ) (type : MetaType) (r : Option Value)
    → Stands pool p s
    → get_field type (find_item (some p) type items) ≡ some r
    → find_value pool items s type ≡ some (r, pool)
unfolding find_value
find_value-Stands pool items p s type r stands found =
    rw (atomize-Stands pool p s stands, found) refl

abbrev with_pool : TokenPool → Option Value → Option (Option Value × TokenPool)
with_pool pool found = some (found, pool)

only_result :
    (pool : TokenPool) (r : Option Value) (o : Option (Option Value))
    → (o >>= with_pool pool) ≡ some (r, pool)
    → o ≡ some r
only_result pool r none h = absurd (cc)
only_result pool r (some found) h = ground (arith, h)

-- In a valid pool with room for the name, and with a buffer that has fewer than twelve items, a
-- setter stores its value and meets no fault. Then the getter of that type finds the value under
-- that name, and every other getter finds nothing; under any other name of the pool each getter
-- finds what it found before. No field of the union is read that was not written.
pub set_value-find_value :
    (pool : TokenPool) (items : List Item) (s : List ℕ) (v : Value)
    → IsPool pool
    → IsName s
    → pool.buffer_ptr + (1 + length s) < const_tokenpool_size
    → AreTagged items
    → length items < k_max_num_items
    → (items' : List Item) × (pool' : TokenPool) × (set_value pool items s v ≡ some (items', pool'))
      × IsPool pool'
      × AreTagged items'
      × ((type : MetaType) → find_value pool' items' s type ≡ some (typed type v, pool'))
      × ((q : ℕ) (t : List ℕ) (type : MetaType) (r : Option Value)
          → IsName t
          → ¬ s ≡ t
          → Stands pool q t
          → find_value pool items t type ≡ some (r, pool)
          → find_value pool' items' t type ≡ some (r, pool'))
unfolding set_value find_value
set_value-find_value pool items s v valid name fits tagged room =
    let (p, pool', run, after) = atomize-IsAfter pool valid s name fits in
    let (items', stored, is) = allocate_item-IsStored (some p) v items tagged (inr room) in
    (
      items',
      pool',
      rw (run, stored) refl,
      after.valid,
      is.tagged,
      λ type. find_value-Stands pool' items' p s type (typed type v) after.new (is.new type),
      λ q t type r nt differ stood found.
          let moved = after.old q t nt stood in
          let apart : (p == q) ≡ false = elim (Bool-cases (p == q)) [
            | inl here ↦
                let e : q ≡ p = ground (arith, here) in
                absurd (differ (Stands-unique pool' p s t name nt after.new (rw e at moved)))
            | inr there ↦ there
          ] in
          let before : get_field type (find_item (some q) type items) ≡ some r =
            only_result pool r (get_field type (find_item (some q) type items))
              (rw (atomize-Stands pool q t stood, find_value) at found) in
          find_value-Stands pool' items' q t type r moved
            (ap (get_field type) (is.old (some q) type apart) ∙ before),
    )
