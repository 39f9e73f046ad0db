-- ===== src/AudioConfMix.antt =====
-- libconf/AudioConfMix.cpp and libconf/AudioConfMix.h: the mixer of a conference: its members, and
-- one round of its thread. A member is the address of its node. What is outside the sources is an
-- argument: the type of a node (`node_type`, with `codec` for NODE_A_IP_CODEC), what `pullMedia` of a
-- node makes of its buffer, and the number of samples, EVENT_SAMPLES. The thread itself, its lock, the
-- time stamps and the ranges of the buffers are left out.
pub mod NodeList
pub mod Members
pub mod Heard
pub mod Pulled
pub mod Round
mod Tests
use mcuproxy.Prelude.{
  ℕ, suc, ◌+◌, Bool, true, false, ◌||◌, ◌&&◌, List, [], ◌∷◌, map, length, Option, none, some, ltb,
  leb, ◌==◌, if◌then◌else◌, ◌>>=◌,
}
use mcuproxy.Prelude.Int.{ℤ, pos, negsuc, ◌+ℤ◌, ◌-ℤ◌, ltb_ℤ, eqb_ℤ}
use mcuproxy.MixFunc.{
  FastmixVol, mix_disable, mix_keep_0db, FastmixIo, fastmix_pre_amp, fastmix_add, fastmix_sat_amp,
  fastmix_sub_amp,
}

abbrev pub max_voip_object : ℕ
max_voip_object = 6

abbrev pub max_mix_object : ℕ
max_mix_object = 8

abbrev pub unknown_error : ℤ
unknown_error = negsuc 0x7FFFFFFF

-- `strong` is how many references to a node the mixer has taken and not given back.
pub record AudioConfMix : Type 0 where
  pub node_list : List ℕ
  pub strong : ℕ → ℤ
  pub client_num : ℤ
  pub mix_num : ℤ

abbrev pub new_audio_conf_mix : AudioConfMix
new_audio_conf_mix = record {
  node_list = [];
  strong = λ a. pos 0;
  client_num = pos 0;
  mix_num = pos 0;
}

-- `incStrong` and `decStrong`.
unfoldable pub add_strong : ℤ → ℕ → (ℕ → ℤ) → ℕ → ℤ
add_strong n node strong a = if a == node then strong a +ℤ n else strong a

module _ (node_type : ℕ → ℕ) (codec : ℕ) where
  -- In front of the first node of a greater type, or at the end.
  unfoldable pub insert_node : ℕ → List ℕ → List ℕ
  insert_node node [] = node ∷ []
  insert_node node (it ∷ rest) =
      let behind = insert_node node rest in
      if ltb (node_type node) (node_type it) then node ∷ it ∷ rest else it ∷ behind

  -- The second half of `doInsertNode`: the counters.
  unfoldable pub count_in : ℕ → AudioConfMix → ℤ × AudioConfMix
  count_in node conf =
      let more = conf.client_num +ℤ pos 1 in
      let mixed = conf.mix_num +ℤ pos 1 in
      if node_type node == codec
      then if ltb_ℤ conf.client_num (pos max_voip_object)
        then (pos 0, record conf { client_num = more; mix_num = mixed })
        else (unknown_error, conf)
      else (pos 0, record conf { mix_num = mixed })

  unfoldable pub do_insert_node : AudioConfMix → ℕ → ℤ × AudioConfMix
  do_insert_node conf node =
      if leb max_mix_object (length conf.node_list)
      then (unknown_error, conf)
      else count_in node (record conf {
        node_list = insert_node node conf.node_list;
        strong = add_strong (pos 1) node conf.strong;
      })

  unfoldable pub find_node : ℕ → List ℕ → Bool
  find_node node [] = false
  find_node node (it ∷ rest) = if it == node then true else find_node node rest

  unfoldable pub erase_node : ℕ → List ℕ → List ℕ
  erase_node node [] = []
  erase_node node (it ∷ rest) = if it == node then rest else it ∷ erase_node node rest

  unfoldable pub do_remove_node : AudioConfMix → ℕ → ℤ × AudioConfMix
  do_remove_node conf node =
      if find_node node conf.node_list
      then (
        pos 0,
        record {
          node_list = erase_node node conf.node_list;
          strong = add_strong (negsuc 0) node conf.strong;
          client_num =
              if node_type node == codec then conf.client_num -ℤ pos 1 else conf.client_num;
          mix_num = conf.mix_num -ℤ pos 1;
        },
      )
      else (pos 0, conf)

-- What `mix` returns and leaves in its arguments.
pub record Mixed : Type 0 where
  pub ret : ℤ
  pub input : Option (List FastmixIo)
  pub buffer : Option (List ℤ)
  pub full : Option FastmixIo
  pub inter : Option (List FastmixIo)

abbrev pub mix_full : List ℤ → ℕ → Option FastmixIo → Option (Option FastmixIo)
mix_full sums len none = some none
mix_full sums len (some full) = do full' ← fastmix_sat_amp sums full len; some (some full')

abbrev pub mix_inter :
    List ℤ → List FastmixIo → ℕ → Option (List FastmixIo) → Option (Option (List FastmixIo))
mix_inter sums input len none = some none
mix_inter sums input len (some inter) = do
  inter' ← fastmix_sub_amp sums input inter max_mix_object len
  some (some inter')

-- `none` if a loop runs past the end of an array.
unfoldable pub mix :
    ℕ
    → Option (List ℤ)
    → Option (List FastmixIo)
    → Option FastmixIo
    → Option (List FastmixIo)
    → Option Mixed
mix len buffer none full inter =
    some (record { ret = negsuc 0; input = none; buffer = buffer; full = full; inter = inter })
mix len none (some input) full inter =
    some (record { ret = negsuc 0; input = some input; buffer = none; full = full; inter = inter })
mix len (some buffer) (some input) full inter = do
  input' ← fastmix_pre_amp input max_mix_object len
  sums ← fastmix_add input' buffer max_mix_object len
  full' ← mix_full sums len full
  inter' ← mix_inter sums input' len inter
  some (record {
    ret = pos 0;
    input = some input';
    buffer = some sums;
    full = full';
    inter = inter';
  })

-- What `pullMedia` of a node makes of its buffer: the result, the samples, and `quickData`.
abbrev pub Pull : Type 0
Pull = ℕ → List ℤ → ℤ × List ℤ × ℕ

abbrev pub disabled : List FastmixIo → List FastmixIo
disabled ios = map {A = FastmixIo} (λ io. record io { amp = mix_disable }) ios

abbrev pub volume : Bool → ℕ → FastmixVol
volume first vol = if first || (vol == 1) then mix_keep_0db else mix_disable

abbrev pub put_front :
    FastmixIo
    → FastmixIo
    → Option (ℤ × List FastmixIo × List FastmixIo)
    → Option (ℤ × List FastmixIo × List FastmixIo)
put_front i o none = none
put_front i o (some (ret, ins, outs)) = some (ret, i ∷ ins, o ∷ outs)

-- The loop over the members that pulls their media, up to the first that fails; `none` if there are
-- more members than channels. `ret` is the variable before the loop.
unfoldable pub pull_nodes :
    Pull
    → Bool
    → ℤ
    → List ℕ
    → List FastmixIo
    → List FastmixIo
    → Option (ℤ × List FastmixIo × List FastmixIo)
pull_nodes pull first ret [] ins outs = some (ret, ins, outs)
pull_nodes pull first ret (node ∷ nodes) (i ∷ ins) (o ∷ outs) =
    let (ret', samples, vol) = pull node i.audio_data in
    let rest =
      put_front (record { amp = volume first vol; audio_data = samples })
        (record o { amp = mix_keep_0db }) (pull_nodes pull false ret' nodes ins outs) in
    if eqb_ℤ ret' (pos 0)
    then rest
    else some (ret', record i { audio_data = samples } ∷ ins, o ∷ outs)
pull_nodes pull first ret (node ∷ nodes) [] outs = none
pull_nodes pull first ret (node ∷ nodes) (i ∷ ins) [] = none

-- What is pushed to each member.
unfoldable pub push_nodes : List ℕ → List FastmixIo → List (ℕ × List ℤ)
push_nodes [] outs = []
push_nodes (node ∷ nodes) [] = []
push_nodes (node ∷ nodes) (o ∷ outs) = (node, o.audio_data) ∷ push_nodes nodes outs

abbrev pub pushed : List ℕ → Mixed → List (ℕ × List ℤ)
pushed nodes m = elim m.inter [ none ↦ [] | some outs ↦ push_nodes nodes outs ]

-- The mix and the pushes, unless a pull has failed.
abbrev pub mix_round :
    ℕ → List ℕ → List ℤ → ℤ × List FastmixIo × List FastmixIo → Option (List (ℕ × List ℤ))
mix_round len nodes buffer (ret, ins, outs) =
    let mixed = mix len (some buffer) (some ins) none (some outs) in
    if eqb_ℤ ret (pos 0) then mixed >>= (λ m. some (pushed nodes m)) else some []

-- With clients in the conference: what is pushed in a round of `threadLoop`.
unfoldable pub round :
    Pull → ℕ → ℤ → List ℕ → List FastmixIo → List FastmixIo → List ℤ → Option (List (ℕ × List ℤ))
round pull len ret nodes ins outs buffer = do
  pulled ← pull_nodes pull true ret nodes (disabled ins) (disabled outs)
  mix_round len nodes buffer pulled

-- Without clients, the first two members hear each other; `none` if there are none.
unfoldable pub exchange : Pull → List ℕ → List FastmixIo → Option (List (ℕ × List ℤ))
exchange pull (one ∷ two ∷ nodes) (i ∷ j ∷ ins) =
    some ((one, (pull two j.audio_data).1) ∷ (two, (pull one i.audio_data).1) ∷ [])
exchange pull [] ins = none
exchange pull (one ∷ []) ins = none
exchange pull (one ∷ two ∷ nodes) [] = none
exchange pull (one ∷ two ∷ nodes) (i ∷ []) = none

unfoldable pub thread_round :
    Pull
    → ℕ
    → ℤ
    → AudioConfMix
    → List FastmixIo
    → List FastmixIo
    → List ℤ
    → Option (List (ℕ × List ℤ))
thread_round pull len ret conf ins outs buffer =
    if eqb_ℤ conf.client_num (pos 0)
    then exchange pull conf.node_list ins
    else round pull len ret conf.node_list ins outs buffer
