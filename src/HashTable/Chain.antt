-- ===== src/HashTable/Chain.antt =====
-- libckits/hashTable.c: one chain of tokens, `hashToken *` with its `next` links as a list.
use mcuproxy.Prelude.{ℕ, Bool, List, [], ◌∷◌, Option, none, some, if◌then◌else◌}
use mcuproxy.HashTable.Hash.{Name, str_eq}

-- `value` is a `void *`, 0 the null pointer.
pub record HashToken : Type 0 where
  pub name : Name
  pub value : ℕ

abbrev pub token : Name → ℕ → HashToken
token n v = record { name = n; value = v }

abbrev pub TokenChain : Type 0
TokenChain = List HashToken

-- The search of `findToken` in one chain: the token found, and the chain as it is left. The head
-- is unlinked through the table's slot, any other token through its predecessor.
unfoldable pub find_in_chain : Name → Bool → TokenChain → Option HashToken × TokenChain
find_in_chain name del_flag [] = (none, [])
find_in_chain name del_flag (t ∷ ts) =
    let (found, rest) = find_in_chain name del_flag ts in
    if str_eq name t.name then (some t, if del_flag then ts else t ∷ ts) else (found, t ∷ rest)

-- `newToken->value = value` through the pointer that `findToken` returned.
unfoldable pub assign : Name → ℕ → TokenChain → TokenChain
assign name value [] = []
assign name value (t ∷ ts) =
    if str_eq name t.name then record t { value = value } ∷ ts else t ∷ assign name value ts

-- The walk to the last token, and the link behind it.
unfoldable pub append_token : TokenChain → HashToken → TokenChain
append_token [] new_token = new_token ∷ []
append_token (t ∷ ts) new_token = t ∷ append_token ts new_token
