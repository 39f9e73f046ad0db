-- ===== src/VideoConfMix.antt =====
-- libconf/VideoConfMix.cpp and libconf/VideoConfMix.h: the members of a video conference. The headers
-- of the nodes are missing: the type of a node and the values NODE_V_IP_RENDER (`render`),
-- NODE_V_CAMERA_SET (`camera`) and NODE_V_ENCODER (`encoder`) are arguments. The list is searched as in
-- AudioConfMix. The thread, the lock and the references of the nodes are left out.
pub mod Tally
pub mod Members
mod Tests
use mcuproxy.Prelude.{ℕ, ◌+◌, ◌%◌, ◌^◌, true, List, [], ◌∷◌, leb, ◌==◌, if◌then◌else◌}
use mcuproxy.Prelude.Int.{ℤ, pos, negsuc, ◌+ℤ◌, ◌-ℤ◌, ltb_ℤ}
use mcuproxy.AudioConfMix.{unknown_error, insert_node, find_node, erase_node}

abbrev pub max_video_client : ℕ
max_video_client = 2

abbrev pub max_video_camera : ℕ
max_video_camera = 1

abbrev pub max_video_encoder : ℕ
max_video_encoder = 1

abbrev pub max_video_items : ℕ
max_video_items = max_video_camera + max_video_client + max_video_encoder

pub record VideoConfMix : Type 0 where
  pub node_list : List ℕ
  pub client_num : ℤ
  pub camera_num : ℕ
  pub encoder_num : ℕ

abbrev pub new_video_conf_mix : VideoConfMix
new_video_conf_mix = record { node_list = []; client_num = pos 0; camera_num = 0; encoder_num = 0 }

module _ (node_type : ℕ → ℕ) (render camera encoder : ℕ) where
  -- The third test of the source is of the constant NODE_V_ENCODER itself.
  unfoldable pub count_in : VideoConfMix → ℕ → ℤ × VideoConfMix
  count_in conf node =
      let nodes = insert_node node_type render node conf.node_list in
      let clients = conf.client_num +ℤ pos 1 in
      let cameras = (conf.camera_num + 1) % 2 ^ 32 in
      let encoders = (conf.encoder_num + 1) % 2 ^ 32 in
      if node_type node == render
      then if ltb_ℤ conf.client_num (pos max_video_client)
        then (pos 0, record conf { node_list = nodes; client_num = clients })
        else (unknown_error, conf)
      else if node_type node == camera
      then if leb max_video_camera conf.camera_num
        then (unknown_error, conf)
        else (pos 0, record conf { node_list = nodes; camera_num = cameras })
      else if encoder == 0
      then (pos 0, conf)
      else if leb max_video_encoder conf.encoder_num
      then (unknown_error, conf)
      else (pos 0, record conf { node_list = nodes; encoder_num = encoders })

  unfoldable pub do_insert_node : VideoConfMix → ℕ → ℤ × VideoConfMix
  do_insert_node conf node = if node == 0 then (unknown_error, conf) else count_in conf node

  unfoldable pub count_out : VideoConfMix → ℕ → ℤ × VideoConfMix
  count_out conf node =
      let nodes = erase_node node_type render node conf.node_list in
      let clients = conf.client_num -ℤ pos 1 in
      let cameras = (conf.camera_num + 0xFFFFFFFF) % 2 ^ 32 in
      let encoders = (conf.encoder_num + 0xFFFFFFFF) % 2 ^ 32 in
      if find_node node_type render node conf.node_list
      then if node_type node == render
        then (pos 0, record conf { node_list = nodes; client_num = clients })
        else if node_type node == camera
        then (pos 0, record conf { node_list = nodes; camera_num = cameras })
        else if encoder == 0
        then (pos 0, record conf { node_list = nodes })
        else (pos 0, record conf { node_list = nodes; encoder_num = encoders })
      else (unknown_error, conf)

  unfoldable pub do_remove_node : VideoConfMix → ℕ → ℤ × VideoConfMix
  do_remove_node conf node = if node == 0 then (unknown_error, conf) else count_out conf node
