-- ===== src/VideoConfMix/Members.antt =====
-- libconf/VideoConfMix.cpp: `doInsertNode` and `doRemoveNode`.
use mcuproxy.Prelude.{
  ℕ, ◌+◌, ◌≤◌, ◌≡◌, refl, false, List, [], ◌∷◌, length, arith, leb, ◌==◌, ◌%◌, ◌^◌, Bool-cases, inl,
  inr,
}
use mcuproxy.Prelude.Int.{pos, ◌+ℤ◌, ◌-ℤ◌, ltb_ℤ}
use mcuproxy.AudioConfMix.{find_node}
use mcuproxy.AudioConfMix.NodeList.{Rising}
use mcuproxy.VideoConfMix.{
  VideoConfMix, max_video_client, max_video_camera, max_video_encoder, max_video_items,
  new_video_conf_mix, count_in, count_out, do_insert_node, do_remove_node,
}
use mcuproxy.VideoConfMix.Tally.{
  tally, is_camera, is_encoder, erase_node-tally, length-tally, IsTallied, client_tests,
  camera_tests, encoder_tests, joined, parted, plus_none, same_clients,
}

-- A node that comes or goes.
pub data Change : Type 0 where
  join leave : ℕ → Change

module _ (node_type : ℕ → ℕ) (render camera encoder : ℕ) where
  count_in-IsTallied :
      (conf : VideoConfMix) (node : ℕ)
      → IsTallied node_type render camera encoder conf
      → IsTallied node_type render camera encoder
          (count_in node_type render camera encoder conf node).1
  unfolding count_in
  count_in-IsTallied conf node h = elim (Bool-cases (node_type node == render)) [
    | inl client ↦ elim (Bool-cases (ltb_ℤ conf.client_num (pos max_video_client))) [
      | inl below ↦
          rw (client, below)
            (joined node_type render camera encoder conf node 1 0 0 (conf.client_num +ℤ pos 1)
              conf.camera_num conf.encoder_num
              (client_tests node_type render camera encoder node client) h
              (unfold ◌+ℤ◌ in ground (arith, h.clients)) (omega arith) (omega arith)
              (unfold ltb_ℤ in ground (arith, h.clients, below)) (omega (arith, h.few_cameras))
              (omega (arith, h.few_encoders)))
      | inr limit ↦ rw (client, limit) h
    ]
    | inr other ↦ elim (Bool-cases (node_type node == camera)) [
      | inl shot ↦ elim (Bool-cases (leb max_video_camera conf.camera_num)) [
        | inl limit ↦ rw (other, shot, limit) h
        | inr below ↦
            let none_yet : conf.camera_num ≡ 0 = ground (arith, below) in
            rw (other, shot, below)
              (joined node_type render camera encoder conf node 0 1 0 conf.client_num
                ((conf.camera_num + 1) % 2 ^ 32) conf.encoder_num
                (camera_tests node_type render camera encoder node other shot) h
                (same_clients node_type render camera encoder conf h) (omega (arith, none_yet))
                (omega arith) (omega (arith, h.few_clients)) (omega (arith, none_yet, h.cameras))
                (omega (arith, h.few_encoders)))
      ]
      | inr last ↦ elim (Bool-cases (encoder == 0)) [
        | inl unset ↦ rw (other, last, unset) h
        | inr set ↦ elim (Bool-cases (leb max_video_encoder conf.encoder_num)) [
          | inl limit ↦ rw (other, last, set, limit) h
          | inr below ↦
              let none_yet : conf.encoder_num ≡ 0 = ground (arith, below) in
              rw (other, last, set, below)
                (joined node_type render camera encoder conf node 0 0 1 conf.client_num
                  conf.camera_num ((conf.encoder_num + 1) % 2 ^ 32)
                  (encoder_tests node_type render camera encoder node other last) h
                  (same_clients node_type render camera encoder conf h) (omega arith)
                  (omega (arith, none_yet)) (omega (arith, h.few_clients))
                  (omega (arith, h.few_cameras)) (omega (arith, none_yet, h.encoders)))
        ]
      ]
    ]
  ]

  do_insert_node-IsTallied :
      (conf : VideoConfMix) (node : ℕ)
      → IsTallied node_type render camera encoder conf
      → IsTallied node_type render camera encoder
          (do_insert_node node_type render camera encoder conf node).1
  unfolding do_insert_node
  do_insert_node-IsTallied conf node h = elim (Bool-cases (node == 0)) [
    | inl null ↦ rw null h
    | inr given ↦ rw given (count_in-IsTallied conf node h)
  ]

  count_out-IsTallied :
      (conf : VideoConfMix) (node : ℕ)
      → ¬ encoder ≡ 0
      → IsTallied node_type render camera encoder conf
      → IsTallied node_type render camera encoder
          (count_out node_type render camera encoder conf node).1
  unfolding count_out
  count_out-IsTallied conf node constant h =
      elim (Bool-cases (find_node node_type render node conf.node_list)) [
        | inr nowhere ↦ rw nowhere h
        | inl found ↦ elim (Bool-cases (node_type node == render)) [
          | inl client ↦
              rw (found, client)
                (parted node_type render camera encoder conf node 1 0 0 (conf.client_num -ℤ pos 1)
                  conf.camera_num conf.encoder_num
                  (client_tests node_type render camera encoder node client) found h
                  (unfold ◌-ℤ◌ ◌+ℤ◌ in ground (arith, h.clients)) (omega arith) (omega arith))
          | inr other ↦ elim (Bool-cases (node_type node == camera)) [
            | inl shot ↦
                let (tc, tk, tn) = camera_tests node_type render camera encoder node other shot in
                let fewer =
                  erase_node-tally node_type render camera encoder
                    (is_camera node_type render camera encoder) node conf.node_list found in
                rw (found, other, shot)
                  (parted node_type render camera encoder conf node 0 1 0 conf.client_num
                    ((conf.camera_num + 0xFFFFFFFF) % 2 ^ 32) conf.encoder_num (tc, tk, tn) found h
                    (plus_none node_type render camera encoder conf h)
                    (omega (arith, fewer, tk, h.cameras, h.few_cameras)) (omega arith))
            | inr last ↦
                let (tc, tk, tn) = encoder_tests node_type render camera encoder node other last in
                let fewer =
                  erase_node-tally node_type render camera encoder
                    (is_encoder node_type render camera encoder) node conf.node_list found in
                let set : encoder == 0 ≡ false = ground (arith, constant) in
                rw (found, other, last, set)
                  (parted node_type render camera encoder conf node 0 0 1 conf.client_num
                    conf.camera_num ((conf.encoder_num + 0xFFFFFFFF) % 2 ^ 32) (tc, tk, tn) found h
                    (plus_none node_type render camera encoder conf h) (omega arith)
                    (omega (arith, fewer, tn, h.encoders, h.few_encoders)))
          ]
        ]
      ]

  do_remove_node-IsTallied :
      (conf : VideoConfMix) (node : ℕ)
      → ¬ encoder ≡ 0
      → IsTallied node_type render camera encoder conf
      → IsTallied node_type render camera encoder
          (do_remove_node node_type render camera encoder conf node).1
  unfolding do_remove_node
  do_remove_node-IsTallied conf node constant h = elim (Bool-cases (node == 0)) [
    | inl null ↦ rw null h
    | inr given ↦ rw given (count_out-IsTallied conf node constant h)
  ]

  unfoldable pub step : VideoConfMix → Change → VideoConfMix
  step conf (join node) = (do_insert_node node_type render camera encoder conf node).1
  step conf (leave node) = (do_remove_node node_type render camera encoder conf node).1

  unfoldable pub run : VideoConfMix → List Change → VideoConfMix
  run conf [] = conf
  run conf (change ∷ changes) = run (step conf change) changes

  changes-IsTallied :
      (changes : List Change) (conf : VideoConfMix)
      → ¬ encoder ≡ 0
      → IsTallied node_type render camera encoder conf
      → IsTallied node_type render camera encoder (run conf changes)
  unfolding run step
  changes-IsTallied [] conf e h = h
  changes-IsTallied (join node ∷ changes) conf e h =
      changes-IsTallied changes (do_insert_node node_type render camera encoder conf node).1 e
        (do_insert_node-IsTallied conf node h)
  changes-IsTallied (leave node ∷ changes) conf e h =
      changes-IsTallied changes (do_remove_node node_type render camera encoder conf node).1 e
        (do_remove_node-IsTallied conf node e h)

  -- Where NODE_V_ENCODER is not 0, after any sequence of nodes inserted and removed, from an empty
  -- conference: the nodes are in the order of their types, the counters are the numbers of clients,
  -- of cameras and of all other nodes in the list, at most two, one and one, and the nodes are no
  -- more than the items of `mMetas`.
  pub run-IsTallied :
      (changes : List Change)
      → ¬ encoder ≡ 0
      → let conf = run new_video_conf_mix changes in
        IsTallied node_type render camera encoder conf × (length conf.node_list ≤ max_video_items)
  run-IsTallied changes e =
      let h = changes-IsTallied changes new_video_conf_mix e (record {
        rising = unfold Rising in tt;
        clients = unfold tally in refl;
        few_clients = unfold tally in omega arith;
        cameras = unfold tally in refl;
        few_cameras = unfold tally in omega arith;
        encoders = unfold tally in refl;
        few_encoders = unfold tally in omega arith;
      }) in
      let all =
        length-tally node_type render camera encoder (run new_video_conf_mix changes).node_list in
      (h, omega (arith, all, h.few_clients, h.few_cameras, h.few_encoders))
