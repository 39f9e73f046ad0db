-- ===== src/AudioConfMix/Members.antt =====
-- libconf/AudioConfMix.cpp: `doInsertNode` and `doRemoveNode`.
use mcuproxy.Prelude.{
  ℕ, suc, ◌+◌, ◌≤◌, ◌<◌, ◌≡◌, refl, true, false, List, [], ◌∷◌, length, arith, leb, ◌==◌,
  if◌then◌else◌, Bool-cases, inl, inr,
}
use mcuproxy.Prelude.Int.{ℤ, pos, negsuc, ◌+ℤ◌, ◌-ℤ◌, ltb_ℤ, eqb_ℤ}
use mcuproxy.AudioConfMix.{
  AudioConfMix, max_mix_object, max_voip_object, new_audio_conf_mix, add_strong, insert_node,
  count_in, do_insert_node, find_node, erase_node, do_remove_node,
}
use mcuproxy.AudioConfMix.NodeList.{
  times, codecs, Rising, insert_node-counts, erase_node-counts, insert_node-Rising,
  erase_node-Rising,
}

one_more : (z : ℤ) (lost n : ℕ) → z +ℤ pos lost ≡ pos n → z +ℤ pos 1 +ℤ pos lost ≡ pos (1 + n)
unfolding ◌+ℤ◌
one_more z lost n h = ground (arith, h)

one_lost : (z : ℤ) (lost n : ℕ) → z +ℤ pos lost ≡ pos n → z +ℤ pos (lost + 1) ≡ pos (1 + n)
unfolding ◌+ℤ◌
one_lost z lost n h = ground (arith, h)

module _ (node_type : ℕ → ℕ) (codec : ℕ) where
  -- `lost` insertions have failed at the limit of clients.
  pub record IsCounted (lost : ℕ) (conf : AudioConfMix) : Type 0 where
    pub rising : Rising node_type codec conf.node_list
    pub bounded : length conf.node_list ≤ max_mix_object
    pub owned : (a : ℕ) → conf.strong a ≡ pos (times a conf.node_list)
    pub clients : conf.client_num +ℤ pos lost ≡ pos (codecs node_type codec conf.node_list)
    pub mixed : conf.mix_num +ℤ pos lost ≡ pos (length conf.node_list)

  owned_in :
      (conf : AudioConfMix) (node a : ℕ)
      → conf.strong a ≡ pos (times a conf.node_list)
      → add_strong (pos 1) node conf.strong a
        ≡ pos (times a (insert_node node_type codec node conf.node_list))
  unfolding add_strong ◌+ℤ◌
  owned_in conf node a h =
      let (len, one, all) = insert_node-counts node_type codec node a conf.node_list in
      elim (Bool-cases (a == node)) [
        | inl here ↦
            let e : node == a ≡ true = ground (arith, here) in
            let n : times a (insert_node node_type codec node conf.node_list)
                ≡ 1 + times a conf.node_list =
              ground (arith, one, e) in
            rw (here, h, n) (ground arith)
        | inr other ↦
            let e : node == a ≡ false = ground (arith, other) in
            let n : times a (insert_node node_type codec node conf.node_list)
                ≡ times a conf.node_list =
              ground (arith, one, e) in
            rw (other, h, n) refl
      ]

  owned_out :
      (conf : AudioConfMix) (node a : ℕ)
      → find_node node_type codec node conf.node_list ≡ true
      → conf.strong a ≡ pos (times a conf.node_list)
      → add_strong (negsuc 0) node conf.strong a
        ≡ pos (times a (erase_node node_type codec node conf.node_list))
  unfolding add_strong ◌+ℤ◌
  owned_out conf node a found h =
      let (len, one, all) = erase_node-counts node_type codec node a conf.node_list found in
      elim (Bool-cases (a == node)) [
        | inl here ↦
            let e : node == a ≡ true = ground (arith, here) in
            let n : times a conf.node_list
                ≡ 1 + times a (erase_node node_type codec node conf.node_list) =
              ground (arith, one, e) in
            rw (here, h, n) (ground arith)
        | inr other ↦
            let e : node == a ≡ false = ground (arith, other) in
            let n : times a (erase_node node_type codec node conf.node_list)
                ≡ times a conf.node_list =
              ground (arith, one, e) in
            rw (other, h, n) refl
      ]

  do_remove_node-IsCounted :
      (lost : ℕ) (conf : AudioConfMix) (node : ℕ)
      → IsCounted lost conf
      → IsCounted lost (do_remove_node node_type codec conf node).1
  unfolding do_remove_node
  do_remove_node-IsCounted lost conf node counted =
      elim (Bool-cases (find_node node_type codec node conf.node_list)) [
        | inl found ↦
            let (len, one, all) =
              erase_node-counts node_type codec node node conf.node_list found in
            rw found (record {
              rising = erase_node-Rising node_type codec node conf.node_list counted.rising;
              bounded = omega (arith, len, counted.bounded);
              owned = λ a. owned_out conf node a found (counted.owned a);
              clients = elim (Bool-cases (node_type node == codec)) [
                | inl client ↦
                    rw client (unfold ◌+ℤ◌ ◌-ℤ◌ in ground (arith, client, all, counted.clients))
                | inr other ↦
                    rw other (unfold ◌+ℤ◌ ◌-ℤ◌ in ground (arith, other, all, counted.clients))
              ];
              mixed = unfold ◌+ℤ◌ ◌-ℤ◌ in ground (arith, len, counted.mixed);
            })
        | inr nowhere ↦ rw nowhere counted
      ]

  -- The list and the references after an insertion, whatever the counters.
  joined :
      (lost : ℕ) (conf : AudioConfMix) (node : ℕ) (lost' : ℕ) (client_num mix_num : ℤ)
      → IsCounted lost conf
      → length conf.node_list < max_mix_object
      → client_num +ℤ pos lost'
        ≡ pos ((if node_type node == codec then 1 else 0) + codecs node_type codec conf.node_list)
      → mix_num +ℤ pos lost' ≡ pos (1 + length conf.node_list)
      → IsCounted lost' (record {
        node_list = insert_node node_type codec node conf.node_list;
        strong = add_strong (pos 1) node conf.strong;
        client_num = client_num;
        mix_num = mix_num;
      })
  joined lost conf node lost' client_num mix_num counted room clients mixed =
      let (len, one, all) = insert_node-counts node_type codec node node conf.node_list in
      record {
        rising = insert_node-Rising node_type codec node conf.node_list counted.rising;
        bounded = omega (arith, len, room);
        owned = λ a. owned_in conf node a (counted.owned a);
        clients = rw all clients;
        mixed =
            let e : suc (length conf.node_list) ≡ 1 + length conf.node_list = omega arith in
            rw (len, e) mixed;
      }

  -- 1 for an insertion that returns an error and yet puts the node in the list.
  unfoldable pub loss : AudioConfMix → ℕ → ℕ
  loss conf node =
      let (ret, conf') = do_insert_node node_type codec conf node in
      if eqb_ℤ ret (pos 0)
      then 0
      else if length conf'.node_list == length conf.node_list
      then 0
      else 1

  abbrev Counted : ℕ → ℕ × ℤ × AudioConfMix → Type 0
  Counted lost (n, ret, conf) = IsCounted (lost + n) conf

  do_insert_node-IsCounted :
      (lost : ℕ) (conf : AudioConfMix) (node : ℕ)
      → IsCounted lost conf
      → IsCounted (lost + loss conf node) (do_insert_node node_type codec conf node).1
  unfolding loss do_insert_node count_in
  do_insert_node-IsCounted lost conf node counted =
      let (len, one, all) = insert_node-counts node_type codec node node conf.node_list in
      let same : lost + 0 ≡ lost = omega arith in
      elim (Bool-cases (leb max_mix_object (length conf.node_list))) [
        | inl full ↦
            let self : length conf.node_list == length conf.node_list ≡ true = ground arith in
            rw (full, self, same) counted
        | inr room ↦
            let few : length conf.node_list < max_mix_object = ground (arith, room) in
            elim (Bool-cases (node_type node == codec)) [
              | inl client ↦ elim (Bool-cases (ltb_ℤ conf.client_num (pos max_voip_object))) [
                | inl below ↦
                    rw (room, client, below, same)
                      (joined lost conf node lost (conf.client_num +ℤ pos 1) (conf.mix_num +ℤ pos 1)
                        counted few
                        (rw client (
                          one_more conf.client_num lost (codecs node_type codec conf.node_list)
                            counted.clients))
                        (one_more conf.mix_num lost (length conf.node_list) counted.mixed))
                | inr limit ↦
                    let grown : length (insert_node node_type codec node conf.node_list)
                          == length conf.node_list
                        ≡ false =
                      ground (arith, len) in
                    rw (room, client, limit, grown)
                      (joined lost conf node (lost + 1) conf.client_num conf.mix_num counted few
                        (rw client (
                          one_lost conf.client_num lost (codecs node_type codec conf.node_list)
                            counted.clients))
                        (one_lost conf.mix_num lost (length conf.node_list) counted.mixed))
              ]
              | inr other ↦
                  rw (room, other, same)
                    (joined lost conf node lost conf.client_num (conf.mix_num +ℤ pos 1) counted few
                      (let none_more : 0 + codecs node_type codec conf.node_list
                            ≡ codecs node_type codec conf.node_list =
                          omega arith in
                        rw (other, none_more) counted.clients)
                      (one_more conf.mix_num lost (length conf.node_list) counted.mixed))
            ]
      ]

-- A member that comes or goes.
pub data Change : Type 0 where
  join leave : ℕ → Change

module _ (node_type : ℕ → ℕ) (codec : ℕ) where
  unfoldable pub step : ℕ × AudioConfMix → Change → ℕ × AudioConfMix
  step (lost, conf) (join node) =
      (lost + loss node_type codec conf node, (do_insert_node node_type codec conf node).1)
  step (lost, conf) (leave node) = (lost, (do_remove_node node_type codec conf node).1)

  unfoldable pub run : ℕ × AudioConfMix → List Change → ℕ × AudioConfMix
  run state [] = state
  run state (change ∷ changes) = run (step state change) changes

  step-IsCounted :
      (lost : ℕ) (conf : AudioConfMix) (change : Change)
      → IsCounted node_type codec lost conf
      → let (lost', conf') = step (lost, conf) change in IsCounted node_type codec lost' conf'
  unfolding step
  step-IsCounted lost conf (join node) counted =
      do_insert_node-IsCounted node_type codec lost conf node counted
  step-IsCounted lost conf (leave node) counted =
      do_remove_node-IsCounted node_type codec lost conf node counted

  changes-IsCounted :
      (changes : List Change) (lost : ℕ) (conf : AudioConfMix)
      → IsCounted node_type codec lost conf
      → let (lost', conf') = run (lost, conf) changes in IsCounted node_type codec lost' conf'
  unfolding run
  changes-IsCounted [] lost conf counted = counted
  changes-IsCounted (change ∷ changes) lost conf counted =
      let (lost', conf') = step (lost, conf) change in
      changes-IsCounted changes lost' conf' (step-IsCounted lost conf change counted)

  -- After any sequence of nodes inserted and removed, from an empty conference: the nodes are in the
  -- order of their types and at most eight, and the mixer holds as many references to each node as
  -- the list has it. The count of clients and that of members are each too small by the number of
  -- insertions that returned an error for the limit of clients and yet put their node in the list.
  pub run-IsCounted :
      (changes : List Change)
      → let (lost, conf) = run (0, new_audio_conf_mix) changes in
        IsCounted node_type codec lost conf
  run-IsCounted changes = changes-IsCounted changes 0 new_audio_conf_mix (record {
    rising = unfold Rising in tt;
    bounded = omega arith;
    owned = λ a. unfold times in refl;
    clients = unfold codecs ◌+ℤ◌ in refl;
    mixed = unfold ◌+ℤ◌ in refl;
  })
