-- ===== src/VideoConfMix/Tally.antt =====
-- libconf/VideoConfMix.cpp: the nodes of each kind, and the counters.
use mcuproxy.Prelude.{
  ℕ, ◌+◌, ◌≤◌, ◌≡◌, refl, Bool, true, false, List, [], ◌∷◌, length, arith, ltb, ◌==◌, if◌then◌else◌,
  Bool-cases, inl, inr,
}
use mcuproxy.Prelude.Int.{ℤ, pos, ◌+ℤ◌}
use mcuproxy.AudioConfMix.{insert_node, find_node, erase_node}
use mcuproxy.AudioConfMix.NodeList.{Rising, insert_node-Rising, erase_node-Rising}
use mcuproxy.VideoConfMix.{VideoConfMix, max_video_client, max_video_camera, max_video_encoder}

-- How many nodes of the list pass the test.
unfoldable pub tally : (ℕ → Bool) → List ℕ → ℕ
tally p [] = 0
tally p (b ∷ nodes) = (if p b then 1 else 0) + tally p nodes

module _ (node_type : ℕ → ℕ) (render camera encoder : ℕ) where
  pub insert_node-tally :
      (p : ℕ → Bool) (node : ℕ) (nodes : List ℕ)
      → tally p (insert_node node_type render node nodes)
        ≡ (if p node then 1 else 0) + tally p nodes
  unfolding insert_node tally
  insert_node-tally p node [] = refl
  insert_node-tally p node (it ∷ rest) =
      let more = insert_node-tally p node rest in
      elim (Bool-cases (ltb (node_type node) (node_type it))) [
        | inl front ↦ rw front refl
        | inr behind ↦ rw behind (omega (arith, more))
      ]

  pub erase_node-tally :
      (p : ℕ → Bool) (node : ℕ) (nodes : List ℕ)
      → find_node node_type render node nodes ≡ true
      → (if p node then 1 else 0) + tally p (erase_node node_type render node nodes) ≡ tally p nodes
  unfolding find_node erase_node tally
  erase_node-tally p node [] h = absurd (cc)
  erase_node-tally p node (it ∷ rest) h = elim (Bool-cases (it == node)) [
    | inl here ↦ let e : it ≡ node = ground arith in rw (here, e) refl
    | inr there ↦
        let fewer = erase_node-tally p node rest (ground (arith, h, there)) in
        rw there (omega (arith, fewer))
  ]

  unfoldable pub is_client : ℕ → Bool
  is_client node = node_type node == render

  unfoldable pub is_camera : ℕ → Bool
  is_camera node = if is_client node then false else node_type node == camera

  -- Any node that is neither a client nor a camera counts as an encoder.
  unfoldable pub is_encoder : ℕ → Bool
  is_encoder node =
      if is_client node then false else if node_type node == camera then false else true

  pub length-tally :
      (nodes : List ℕ)
      → length nodes ≡ tally is_client nodes + tally is_camera nodes + tally is_encoder nodes
  unfolding tally is_client is_camera is_encoder
  length-tally [] = refl
  length-tally (b ∷ nodes) =
      let rest = length-tally nodes in
      elim (Bool-cases (node_type b == render)) [
        | inl client ↦ rw client (omega (arith, rest))
        | inr other ↦ elim (Bool-cases (node_type b == camera)) [
          | inl shot ↦ rw (other, shot) (omega (arith, rest))
          | inr last ↦ rw (other, last) (omega (arith, rest))
        ]
      ]

  pub record IsTallied (conf : VideoConfMix) : Type 0 where
    pub rising : Rising node_type render conf.node_list
    pub clients : conf.client_num ≡ pos (tally is_client conf.node_list)
    pub few_clients : tally is_client conf.node_list ≤ max_video_client
    pub cameras : conf.camera_num ≡ tally is_camera conf.node_list
    pub few_cameras : tally is_camera conf.node_list ≤ max_video_camera
    pub encoders : conf.encoder_num ≡ tally is_encoder conf.node_list
    pub few_encoders : tally is_encoder conf.node_list ≤ max_video_encoder

  abbrev one_if : Bool → ℕ
  one_if b = if b then 1 else 0

  -- The three tests of a node, by the case of its type.
  pub client_tests :
      (node : ℕ)
      → node_type node == render ≡ true
      → (one_if (is_client node) ≡ 1)
        × (one_if (is_camera node) ≡ 0)
        × (one_if (is_encoder node) ≡ 0)
  unfolding is_client is_camera is_encoder
  client_tests node client = rw client (refl, refl, refl)

  pub camera_tests :
      (node : ℕ)
      → node_type node == render ≡ false
      → node_type node == camera ≡ true
      → (one_if (is_client node) ≡ 0)
        × (one_if (is_camera node) ≡ 1)
        × (one_if (is_encoder node) ≡ 0)
  unfolding is_client is_camera is_encoder
  camera_tests node other shot = rw (other, shot) (refl, refl, refl)

  pub encoder_tests :
      (node : ℕ)
      → node_type node == render ≡ false
      → node_type node == camera ≡ false
      → (one_if (is_client node) ≡ 0)
        × (one_if (is_camera node) ≡ 0)
        × (one_if (is_encoder node) ≡ 1)
  unfolding is_client is_camera is_encoder
  encoder_tests node other last = rw (other, last) (refl, refl, refl)

  -- The three tests of a node have these values.
  abbrev Tests : ℕ → ℕ → ℕ → ℕ → Type 0
  Tests node c k n =
      (one_if (is_client node) ≡ c) × (one_if (is_camera node) ≡ k) × (one_if (is_encoder node) ≡ n)

  pub joined :
      (conf : VideoConfMix) (node client camera encoder : ℕ)
      → (client_num : ℤ) (camera_num encoder_num : ℕ) → Tests node client camera encoder
      → IsTallied conf
      → client_num ≡ pos (client + tally is_client conf.node_list)
      → camera_num ≡ camera + conf.camera_num
      → encoder_num ≡ encoder + conf.encoder_num
      → client + tally is_client conf.node_list ≤ max_video_client
      → camera + tally is_camera conf.node_list ≤ max_video_camera
      → encoder + tally is_encoder conf.node_list ≤ max_video_encoder
      → IsTallied (record {
        node_list = insert_node node_type render node conf.node_list;
        client_num = client_num;
        camera_num = camera_num;
        encoder_num = encoder_num;
      })
  joined conf node client camera encoder client_num camera_num encoder_num (tc, tk, tn) h c_eq k_eq
        n_eq lc lk ln =
      let c = insert_node-tally is_client node conf.node_list in
      let k = insert_node-tally is_camera node conf.node_list in
      let n = insert_node-tally is_encoder node conf.node_list in
      record {
        rising = insert_node-Rising node_type render node conf.node_list h.rising;
        clients = ground (arith, c, tc, c_eq);
        few_clients = omega (arith, c, tc, lc);
        cameras = omega (arith, k, tk, k_eq, h.cameras);
        few_cameras = omega (arith, k, tk, lk);
        encoders = omega (arith, n, tn, n_eq, h.encoders);
        few_encoders = omega (arith, n, tn, ln);
      }

  pub parted :
      (conf : VideoConfMix) (node client camera encoder : ℕ)
      → (client_num : ℤ) (camera_num encoder_num : ℕ) → Tests node client camera encoder
      → find_node node_type render node conf.node_list ≡ true
      → IsTallied conf
      → client_num +ℤ pos client ≡ conf.client_num
      → camera + camera_num ≡ conf.camera_num
      → encoder + encoder_num ≡ conf.encoder_num
      → IsTallied (record {
        node_list = erase_node node_type render node conf.node_list;
        client_num = client_num;
        camera_num = camera_num;
        encoder_num = encoder_num;
      })
  unfolding ◌+ℤ◌
  parted conf node client camera encoder client_num camera_num encoder_num (tc, tk, tn) found h c_eq
        k_eq n_eq =
      let c = erase_node-tally is_client node conf.node_list found in
      let k = erase_node-tally is_camera node conf.node_list found in
      let n = erase_node-tally is_encoder node conf.node_list found in
      record {
        rising = erase_node-Rising node_type render node conf.node_list h.rising;
        clients = ground (arith, c, tc, c_eq, h.clients);
        few_clients = omega (arith, c, tc, h.few_clients);
        cameras = omega (arith, k, tk, k_eq, h.cameras);
        few_cameras = omega (arith, k, tk, h.few_cameras);
        encoders = omega (arith, n, tn, n_eq, h.encoders);
        few_encoders = omega (arith, n, tn, h.few_encoders);
      }

  pub plus_none :
      (conf : VideoConfMix) → IsTallied conf → conf.client_num +ℤ pos 0 ≡ conf.client_num
  unfolding ◌+ℤ◌
  plus_none conf h = ground (arith, h.clients)

  pub same_clients :
      (conf : VideoConfMix)
      → IsTallied conf
      → conf.client_num ≡ pos (0 + tally is_client conf.node_list)
  same_clients conf h = ground (arith, h.clients)
