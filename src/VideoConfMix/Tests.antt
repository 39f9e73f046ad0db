-- ===== src/VideoConfMix/Tests.antt =====
-- Tests of the video conference.
use mcuproxy.Prelude.{ℕ, ◌≤◌, ◌≡◌, refl, arith, List, [], ◌∷◌, length, ltb, if◌then◌else◌}
use mcuproxy.Prelude.Int.{pos, ◌+ℤ◌, ◌-ℤ◌, ltb_ℤ}
use mcuproxy.AudioConfMix.{insert_node, find_node, erase_node}
use mcuproxy.VideoConfMix.{
  max_video_items, new_video_conf_mix, count_in, count_out, do_insert_node, do_remove_node,
}
use mcuproxy.VideoConfMix.Tally.{IsTallied}
use mcuproxy.VideoConfMix.Members.{join, leave, Change, run, step, run-IsTallied}

-- Nodes 10 to 19 are cameras (1), 20 to 29 clients (2), the others encoders (3).
abbrev types : ℕ → ℕ
types node = if ltb node 20 then 1 else if ltb node 30 then 2 else 3

abbrev changes : List Change
changes = join 30 ∷ join 20 ∷ join 10 ∷ join 11 ∷ join 21 ∷ leave 20 ∷ join 22 ∷ join 31 ∷ []

four_members : run types 2 1 3 new_video_conf_mix changes ≡ record {
  node_list = 10 ∷ 21 ∷ 22 ∷ 30 ∷ [];
  client_num = pos 2;
  camera_num = 1;
  encoder_num = 1;
}
unfolding run step count_in count_out do_insert_node do_remove_node insert_node find_node erase_node
    ◌+ℤ◌ ◌-ℤ◌ ltb_ℤ
four_members = refl

run-IsTallied_example :
    IsTallied types 2 1 3 (run types 2 1 3 new_video_conf_mix changes)
    × (length (run types 2 1 3 new_video_conf_mix changes).node_list ≤ max_video_items)
run-IsTallied_example = run-IsTallied types 2 1 3 changes (λ e. ground (arith, e))
