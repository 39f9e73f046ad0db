-- ===== src/AudioConfMix/Tests.antt =====
-- libconf/AudioConfMix.cpp: a conference of three members, and the theorems at it.
use mcuproxy.Prelude.{
  ℕ, zero, suc, ◌≡◌, ◌<◌, refl, true, List, [], ◌∷◌, map, length, All, some, ◌==◌, if◌then◌else◌,
  arith,
}
use mcuproxy.Prelude.Int.{ℤ, pos, negsuc, ◌+ℤ◌, ◌-ℤ◌}
use mcuproxy.Prelude.Int32.{wrap_int, to_int}
use mcuproxy.MixFunc.{
  mix_disable, FastmixIo, sature32, each_sample, each_pair, pre_amp_samples, fastmix_pre_amp,
  sample, add_channels, add_samples, fastmix_add, sub_amp, sub_amp_samples, fastmix_sub_amp,
}
use mcuproxy.MixFunc.Sums.{at, IsShort, IsSampled}
use mcuproxy.MixFunc.Loops.{HasRoom}
use mcuproxy.AudioConfMix.Members.{Change, join, leave, IsCounted, loss, step, run, run-IsCounted}
use mcuproxy.AudioConfMix.Pulled.{voices, voices_except}
use mcuproxy.AudioConfMix.Round.{given, thread_round-given}
use mcuproxy.AudioConfMix.{
  AudioConfMix, new_audio_conf_mix, insert_node, count_in, do_insert_node, mix, Pull, disabled,
  pull_nodes, push_nodes, round, thread_round,
}

-- The type of a node is its address; 3 is a client.
abbrev changes : List Change
changes = join 3 ∷ join 1 ∷ join 3 ∷ leave 1 ∷ join 2 ∷ leave 9 ∷ []

run-IsCounted_example :
    IsCounted
      (λ a. a)
      3
      (run (λ a. a) 3 (0, new_audio_conf_mix) changes).0
      (run (λ a. a) 3 (0, new_audio_conf_mix) changes).1
run-IsCounted_example = run-IsCounted (λ a. a) 3 changes

-- With six clients in the conference, a seventh is refused and listened to all the same.
abbrev seven : List Change
seven = join 3 ∷ join 3 ∷ join 3 ∷ join 3 ∷ join 3 ∷ join 3 ∷ join 3 ∷ []

refused_seventh :
    let (lost, conf) = run (λ a. a) 3 (0, new_audio_conf_mix) seven in
    (lost ≡ 1) × (conf.client_num ≡ pos 6) × (length conf.node_list ≡ 7)
unfolding run step loss do_insert_node count_in insert_node ◌+ℤ◌
refused_seventh = (refl, refl, refl)

-- Every node gives one sample; node 2 is muted.
abbrev hundred : Pull
hundred node samples = (pos 0, pos 100 ∷ [], if node == 2 then 0 else 1)

hundred-IsShort : (i : ℕ) → IsShort (at (pos 100 ∷ []) i)
hundred-IsShort zero = (omega arith, omega arith)
hundred-IsShort (suc i) = (omega arith, omega arith)

abbrev channel : FastmixIo
channel = record { amp = mix_disable; audio_data = pos 0 ∷ [] }

abbrev channels : List FastmixIo
channels = channel ∷ channel ∷ channel ∷ channel ∷ channel ∷ channel ∷ channel ∷ channel ∷ []

channel-IsShort : (i : ℕ) → IsShort (at (pos 0 ∷ []) i)
channel-IsShort zero = (omega arith, omega arith)
channel-IsShort (suc i) = (omega arith, omega arith)

abbrev three : AudioConfMix
three = record {
  node_list = 1 ∷ 2 ∷ 3 ∷ [];
  strong = λ a. pos 1;
  client_num = pos 1;
  mix_num = pos 3;
}

-- The muted member hears the two others, and they do not hear it.
muted_second :
    thread_round hundred 1 (negsuc 0) three channels channels (pos 0 ∷ [])
    ≡ some ((1, pos 100 ∷ []) ∷ (2, pos 200 ∷ []) ∷ (3, pos 100 ∷ []) ∷ [])
unfolding thread_round round pull_nodes mix push_nodes fastmix_pre_amp pre_amp_samples each_sample
    each_pair fastmix_add add_samples add_channels sample fastmix_sub_amp sub_amp_samples sub_amp
    sature32 wrap_int to_int ◌+ℤ◌ ◌-ℤ◌
muted_second = refl

all_eight :
    (P : FastmixIo → Type 0) (io : FastmixIo)
    → P io
    → All P (io ∷ io ∷ io ∷ io ∷ io ∷ io ∷ io ∷ io ∷ [])
all_eight P io p = (p, (p, (p, (p, (p, (p, (p, (p, tt))))))))

thread_round-given_example :
    (pushes : List (ℕ × List ℤ)) × (thread_round hundred 1
        (negsuc 0)
        three
        channels
        channels
        (pos 0 ∷ [])
      ≡ some pushes)
    × (map {A = ℕ × List ℤ} (λ p. p.0) pushes ≡ three.node_list)
    × ((j k : ℕ)
        → j < length three.node_list
        → k < 1
        → at (given pushes j) k
          ≡ sature32 (voices_except (voices hundred true three.node_list (disabled channels)) j k))
thread_round-given_example =
    thread_round-given hundred 1 (negsuc 0) three channels channels (pos 0 ∷ [])
      (λ node samples. (refl, omega arith, hundred-IsShort)) refl (omega arith) (omega arith) refl
      refl (all_eight (IsSampled 1) channel (omega arith, channel-IsShort))
      (all_eight (HasRoom 1) channel (omega arith)) (omega arith)
