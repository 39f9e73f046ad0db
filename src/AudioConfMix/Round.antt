-- ===== src/AudioConfMix/Round.antt =====
-- libconf/AudioConfMix.cpp: what the members of a conference hear in a round.
use mcuproxy.Prelude.{
  ℕ, zero, suc, ◌≤◌, ◌<◌, ◌≡◌, refl, ap, ap₂, ◌∙◌, true, false, List, [], ◌∷◌, map, some, none,
  arith, length, All,
}
use mcuproxy.Prelude.Int.{ℤ, pos, eqb_ℤ}
use mcuproxy.MixFunc.{FastmixIo, sature32}
use mcuproxy.MixFunc.Sums.{at, IsSampled}
use mcuproxy.MixFunc.Loops.{HasRoom, audio_of}
use mcuproxy.MixFunc.Minus.{amplified}
use mcuproxy.AudioConfMix.{
  AudioConfMix, max_mix_object, Mixed, mix, Pull, disabled, pull_nodes, push_nodes, pushed, round,
  thread_round,
}
use mcuproxy.AudioConfMix.Heard.{mix-Hears}
use mcuproxy.AudioConfMix.Pulled.{
  voices, voices_except, PullsWell, AreMuted, pull_nodes-Pulled, pull_nodes-any_ret,
}

-- What member `j` is given.
abbrev pub given : List (ℕ × List ℤ) → ℕ → List ℤ
given [] j = []
given (p ∷ pushes) zero = p.1
given (p ∷ pushes) (suc j) = given pushes j

given_next :
    (num : ℕ) (pushes : List (ℕ × List ℤ)) (outs : List FastmixIo) (p : ℕ × List ℤ) (o : FastmixIo)
    → p.1 ≡ o.audio_data
    → ((j : ℕ) → j < num → given pushes j ≡ audio_of outs j)
    → (j : ℕ) → j < suc num
    → given (p ∷ pushes) j ≡ audio_of (o ∷ outs) j
given_next num pushes outs p o first rest zero h = first
given_next num pushes outs p o first rest (suc j) h = rest j (omega arith)

push_nodes-given :
    (nodes : List ℕ) (outs : List FastmixIo)
    → length nodes ≤ length outs
    → (map {A = ℕ × List ℤ} (λ p. p.0) (push_nodes nodes outs) ≡ nodes)
      × ((j : ℕ) → j < length nodes → given (push_nodes nodes outs) j ≡ audio_of outs j)
unfolding push_nodes
push_nodes-given [] outs few = (refl, λ j h. absurd (omega arith))
push_nodes-given (node ∷ nodes) [] few = absurd (omega arith)
push_nodes-given (node ∷ nodes) (o ∷ outs) few =
    let (same, others) = push_nodes-given nodes outs (omega arith) in
    (
      ap (λ ns. node ∷ ns) same,
      given_next (length nodes) (push_nodes nodes outs) outs (node, o.audio_data) o refl others,
    )

disabled-kept :
    (len : ℕ) (ios : List FastmixIo)
    → (length (disabled ios) ≡ length ios)
      × AreMuted (disabled ios)
      × (All (IsSampled len) ios → All (IsSampled len) (disabled ios))
      × (All (HasRoom len) ios → All (HasRoom len) (disabled ios))
disabled-kept len [] = (refl, tt, λ h. h, λ h. h)
disabled-kept len (io ∷ ios) =
    let (same, muted, sampled, room) = disabled-kept len ios in
    (ap suc same, (refl, muted), λ h. (h.0, sampled h.1), λ h. (h.0, room h.1))

pushed-inter :
    (nodes : List ℕ) (m : Mixed) (outs : List FastmixIo)
    → m.inter ≡ some outs
    → pushed nodes m ≡ push_nodes nodes outs
pushed-inter nodes m outs h = rw h refl

round-runs :
    (pull : Pull) (len : ℕ) (ret : ℤ) (conf : AudioConfMix)
    (ins outs ins' outs' outs'' : List FastmixIo) (buffer : List ℤ) (m : Mixed)
    → eqb_ℤ conf.client_num (pos 0) ≡ false
    → pull_nodes pull true ret conf.node_list (disabled ins) (disabled outs)
      ≡ some (pos 0, ins', outs')
    → mix len (some buffer) (some ins') none (some outs') ≡ some m
    → m.inter ≡ some outs''
    → thread_round pull len ret conf ins outs buffer ≡ some (push_nodes conf.node_list outs'')
unfolding thread_round round
round-runs pull len ret conf ins outs ins' outs' outs'' buffer m clients pulls mixed inter =
    rw (clients, pulls, mixed) (ap (λ p. some p) (pushed-inter conf.node_list m outs'' inter))

-- In a conference with clients, of one to eight members, with the eight channels of at least `len`
-- shorts and room for as many in the outputs and in the buffer, where `pullMedia` of each member
-- succeeds with as many shorts: a round of `threadLoop` pushes to each member, in the order of the
-- list, for each sample the sum of the voices of the other members, saturated. The voice of the
-- first member is what was pulled from it, that of another one too if its volume is 1; the others are
-- silent, and hear the rest.
pub thread_round-given :
    (pull : Pull) (len : ℕ) (ret : ℤ) (conf : AudioConfMix) (ins outs : List FastmixIo)
    (buffer : List ℤ)
    → PullsWell pull len
    → eqb_ℤ conf.client_num (pos 0) ≡ false
    → 0 < length conf.node_list
    → length conf.node_list ≤ max_mix_object
    → length ins ≡ max_mix_object
    → length outs ≡ max_mix_object
    → All (IsSampled len) ins
    → All (HasRoom len) outs
    → len ≤ length buffer
    → (pushes : List (ℕ × List ℤ)) × (thread_round pull len ret conf ins outs buffer ≡ some pushes)
      × (map {A = ℕ × List ℤ} (λ p. p.0) pushes ≡ conf.node_list)
      × ((j k : ℕ)
          → j < length conf.node_list
          → k < len
          → at (given pushes j) k
            ≡ sature32 (voices_except (voices pull true conf.node_list (disabled ins)) j k))
thread_round-given pull len ret conf ins outs buffer well clients some_node few num_in num_out
      sampled room space =
    let (same_in, muted, sampled_off, no_room) = disabled-kept len ins in
    let (same_out, muted_out, no_sampled, room_off) = disabled-kept len outs in
    let (ins', outs', pulls, len_in, len_out, p) =
      pull_nodes-Pulled pull len true conf.node_list (disabled ins) (disabled outs) well
        (omega arith) (omega arith) (sampled_off sampled) (room_off room) muted in
    let any_ret : pull_nodes pull true ret conf.node_list (disabled ins) (disabled outs)
        ≡ some (pos 0, ins', outs') =
      pull_nodes-any_ret pull true ret (pos 0) conf.node_list (disabled ins) (disabled outs)
        some_node
      ∙ pulls in
    let (m, outs'', mixed, zero_ret, inter, kept, hears) =
      mix-Hears len buffer ins' outs' p.sampled p.room (omega arith) (omega arith) space in
    let (order, gives) = push_nodes-given conf.node_list outs'' (omega arith) in
    (
      push_nodes conf.node_list outs'',
      round-runs pull len ret conf ins outs ins' outs' outs'' buffer m clients any_ret mixed inter,
      order,
      λ j k h within.
          let (amp, values) = hears j (omega arith) in
          ap (λ xs. at xs k) (gives j h)
          ∙ values k within
          ∙ ap₂ amplified (p.unmuted j h) (p.others_heard j k h)
          ∙ (unfold amplified in refl),
    )
