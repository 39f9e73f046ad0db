-- ===== src/AudioConfMix/NodeList.antt =====
-- libconf/AudioConfMix.cpp: the list of the members.
use mcuproxy.Prelude.{
  ℕ, suc, ◌+◌, ◌≤◌, ◌≡◌, refl, true, List, [], ◌∷◌, All, length, arith, ltb, ◌==◌, if◌then◌else◌,
  Bool-cases, inl, inr,
}
use mcuproxy.AudioConfMix.{insert_node, find_node, erase_node}

-- How often a node is in the list.
unfoldable pub times : ℕ → List ℕ → ℕ
times a [] = 0
times a (b ∷ nodes) = (if b == a then 1 else 0) + times a nodes

module _ (node_type : ℕ → ℕ) (codec : ℕ) where
  unfoldable pub codecs : List ℕ → ℕ
  codecs [] = 0
  codecs (b ∷ nodes) = (if node_type b == codec then 1 else 0) + codecs nodes

  -- The types rise along the list.
  unfoldable pub Rising : List ℕ → Type 0
  Rising [] = Unit
  Rising (a ∷ nodes) = All (λ b. node_type a ≤ node_type b) nodes × Rising nodes

  -- A new member adds one to every count of the list.
  pub insert_node-counts :
      (node a : ℕ) (nodes : List ℕ)
      → let nodes' = insert_node node_type codec node nodes in
        (length nodes' ≡ suc (length nodes))
        × (times a nodes' ≡ (if node == a then 1 else 0) + times a nodes)
        × (codecs nodes' ≡ (if node_type node == codec then 1 else 0) + codecs nodes)
  unfolding insert_node times codecs
  insert_node-counts node a [] = (refl, refl, refl)
  insert_node-counts node a (it ∷ rest) =
      let (len, one, all) = insert_node-counts node a rest in
      elim (Bool-cases (ltb (node_type node) (node_type it))) [
        | inl front ↦ rw front (refl, refl, refl)
        | inr behind ↦ rw behind (omega (arith, len), omega (arith, one), omega (arith, all))
      ]

  pub erase_node-counts :
      (node a : ℕ) (nodes : List ℕ)
      → find_node node_type codec node nodes ≡ true
      → let nodes' = erase_node node_type codec node nodes in
        (suc (length nodes') ≡ length nodes)
        × ((if node == a then 1 else 0) + times a nodes' ≡ times a nodes)
        × ((if node_type node == codec then 1 else 0) + codecs nodes' ≡ codecs nodes)
  unfolding find_node erase_node times codecs
  erase_node-counts node a [] h = absurd (cc)
  erase_node-counts node a (it ∷ rest) h = elim (Bool-cases (it == node)) [
    | inl here ↦ let e : it ≡ node = ground arith in rw (here, e) (refl, refl, refl)
    | inr there ↦
        let (len, one, all) = erase_node-counts node a rest (ground (arith, h, there)) in
        rw there (omega (arith, len), omega (arith, one), omega (arith, all))
  ]

  abbrev pub Above : ℕ → List ℕ → Type 0
  Above t nodes = All (λ b. t ≤ node_type b) nodes

  Above-below : (s t : ℕ) (nodes : List ℕ) → s ≤ t → Above t nodes → Above s nodes
  Above-below s t [] h all = tt
  Above-below s t (b ∷ nodes) h (first, all) = (omega arith, Above-below s t nodes h all)

  pub insert_node-Above :
      (t node : ℕ) (nodes : List ℕ)
      → t ≤ node_type node
      → Above t nodes
      → Above t (insert_node node_type codec node nodes)
  unfolding insert_node
  insert_node-Above t node [] h all = (h, tt)
  insert_node-Above t node (it ∷ rest) h (first, all) =
      elim (Bool-cases (ltb (node_type node) (node_type it))) [
        | inl front ↦ rw front (h, (first, all))
        | inr behind ↦ rw behind (first, insert_node-Above t node rest h all)
      ]

  pub insert_node-Rising :
      (node : ℕ) (nodes : List ℕ) → Rising nodes → Rising (insert_node node_type codec node nodes)
  unfolding insert_node Rising
  insert_node-Rising node [] r = (tt, tt)
  insert_node-Rising node (it ∷ rest) (all, r) =
      elim (Bool-cases (ltb (node_type node) (node_type it))) [
        | inl front ↦
            let less : node_type node ≤ node_type it = ground (arith, front) in
            rw front ((less, Above-below (node_type node) (node_type it) rest less all), (all, r))
        | inr behind ↦ rw behind (
          insert_node-Above (node_type it) node rest (ground (arith, behind)) all,
          insert_node-Rising node rest r,
        )
      ]

  pub erase_node-Above :
      (t node : ℕ) (nodes : List ℕ)
      → Above t nodes
      → Above t (erase_node node_type codec node nodes)
  unfolding erase_node
  erase_node-Above t node [] all = tt
  erase_node-Above t node (it ∷ rest) (first, all) = elim (Bool-cases (it == node)) [
    | inl here ↦ rw here all
    | inr there ↦ rw there (first, erase_node-Above t node rest all)
  ]

  pub erase_node-Rising :
      (node : ℕ) (nodes : List ℕ) → Rising nodes → Rising (erase_node node_type codec node nodes)
  unfolding erase_node Rising
  erase_node-Rising node [] r = tt
  erase_node-Rising node (it ∷ rest) (all, r) = elim (Bool-cases (it == node)) [
    | inl here ↦ rw here r
    | inr there ↦
        rw there (erase_node-Above (node_type it) node rest all, erase_node-Rising node rest r)
  ]
