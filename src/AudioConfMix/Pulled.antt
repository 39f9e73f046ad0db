-- ===== src/AudioConfMix/Pulled.antt =====
-- libconf/AudioConfMix.cpp: the loop of `threadLoop` that pulls the media of the members.
use mcuproxy.Prelude.{
  ℕ, zero, suc, ◌≤◌, ◌<◌, ◌≡◌, refl, ap₂, Bool, true, false, ◌||◌, List, [], ◌∷◌, some, inl, inr,
  arith, length, All, ◌==◌, if◌then◌else◌, Bool-cases,
}
use mcuproxy.Prelude.Int.{ℤ, pos, ◌+ℤ◌, eqb_ℤ}
use mcuproxy.MixFunc.{mix_disable, mix_keep_0db, FastmixIo}
use mcuproxy.MixFunc.Sums.{at, IsShort, IsSampled}
use mcuproxy.MixFunc.Loops.{HasRoom, amp_of}
use mcuproxy.MixFunc.Amp.{pre_amplified}
use mcuproxy.AudioConfMix.{Pull, volume, pull_nodes}
use mcuproxy.AudioConfMix.Heard.{heard_at, heard_except}

-- The voices of the members: what was pulled from the first one and from each other one whose volume
-- is 1, and silence from the others.
abbrev pub voices : Pull → Bool → List ℕ → List FastmixIo → List (List ℤ)
voices pull first [] ins = []
voices pull first (node ∷ nodes) [] = []
voices pull first (node ∷ nodes) (i ∷ ins) =
    let (ret, samples, vol) = pull node i.audio_data in
    (if first || (vol == 1) then samples else []) ∷ voices pull false nodes ins

-- Their sum at sample `k`, and the sum without that of member `j`.
unfoldable pub voices_at : List (List ℤ) → ℕ → ℤ
voices_at [] k = pos 0
voices_at (v ∷ vs) k = at v k +ℤ voices_at vs k

unfoldable pub voices_except : List (List ℤ) → ℕ → ℕ → ℤ
voices_except [] j k = pos 0
voices_except (v ∷ vs) zero k = voices_at vs k
voices_except (v ∷ vs) (suc j) k = at v k +ℤ voices_except vs j k

-- `pullMedia` succeeds with at least `len` shorts, from any node.
abbrev pub PullsWell : Pull → ℕ → Type 0
PullsWell pull len =
    (node : ℕ) (samples : List ℤ)
    → let (ret, samples', vol) = pull node samples in
      (ret ≡ pos 0) × (len ≤ length samples') × ((i : ℕ) → IsShort (at samples' i))

-- The channels are muted.
abbrev pub AreMuted : List FastmixIo → Type 0
AreMuted ins = All (λ (io : FastmixIo). io.amp ≡ mix_disable) ins

muted-silent : (ins : List FastmixIo) (k : ℕ) → AreMuted ins → heard_at ins k ≡ pos 0
unfolding heard_at pre_amplified ◌+ℤ◌
muted-silent [] k all = refl
muted-silent (io ∷ ins) k (off, all) = rw (off, muted-silent ins k all) refl

-- What the loop of pulls leaves: the voices in the channels.
pub record Pulled (len : ℕ) (vs : List (List ℤ)) (num : ℕ) (ins outs : List FastmixIo)
    : Type 0 where
  pub sampled : All (IsSampled len) ins
  pub room : All (HasRoom len) outs
  pub all_heard : (k : ℕ) → heard_at ins k ≡ voices_at vs k
  pub others_heard : (j k : ℕ) → j < num → heard_except ins j k ≡ voices_except vs j k
  pub unmuted : (j : ℕ) → j < num → amp_of outs j ≡ mix_keep_0db

volume-voice :
    (first : Bool) (vol : ℕ) (samples : List ℤ) (k : ℕ)
    → pre_amplified (volume first vol) (at samples k)
      ≡ at (if first || (vol == 1) then samples else []) k
unfolding pre_amplified
volume-voice first vol samples k = elim (Bool-cases (first || (vol == 1))) [
  | inl on ↦ rw on refl
  | inr off ↦ rw off refl
]

others_next :
    (vs : List (List ℤ)) (v : List ℤ) (num : ℕ) (io : FastmixIo) (ins : List FastmixIo)
    → ((k : ℕ) → pre_amplified io.amp (at io.audio_data k) ≡ at v k)
    → ((k : ℕ) → heard_at ins k ≡ voices_at vs k)
    → ((j k : ℕ) → j < num → heard_except ins j k ≡ voices_except vs j k)
    → (j k : ℕ) → j < suc num
    → heard_except (io ∷ ins) j k ≡ voices_except (v ∷ vs) j k
unfolding heard_except voices_except
others_next vs v num io ins one all others zero k h = all k
others_next vs v num io ins one all others (suc j) k h =
    ap₂ (λ a b. a +ℤ b) (one k) (others j k (omega arith))

unmuted_next :
    (num : ℕ) (o : FastmixIo) (outs : List FastmixIo)
    → o.amp ≡ mix_keep_0db
    → ((j : ℕ) → j < num → amp_of outs j ≡ mix_keep_0db)
    → (j : ℕ) → j < suc num
    → amp_of (o ∷ outs) j ≡ mix_keep_0db
unmuted_next num o outs first rest zero h = first
unmuted_next num o outs first rest (suc j) h = rest j (omega arith)

pub pull_nodes-Pulled :
    (pull : Pull) (len : ℕ) (first : Bool) (nodes : List ℕ) (ins outs : List FastmixIo)
    → PullsWell pull len
    → length nodes ≤ length ins
    → length outs ≡ length ins
    → All (IsSampled len) ins
    → All (HasRoom len) outs
    → AreMuted ins
    → (ins' : List FastmixIo) × (outs' : List FastmixIo) × (pull_nodes pull first
          (pos 0)
          nodes
          ins
          outs
        ≡ some (pos 0, ins', outs'))
      × (length ins' ≡ length ins)
      × (length outs' ≡ length outs)
      × Pulled len (voices pull first nodes ins) (length nodes) ins' outs'
unfolding pull_nodes voices_at heard_at
pull_nodes-Pulled pull len first [] ins outs well few same sampled room muted = (
  ins,
  outs,
  refl,
  refl,
  refl,
  record {
    sampled = sampled;
    room = room;
    all_heard = λ k. muted-silent ins k muted;
    others_heard = λ j k h. absurd (omega arith);
    unmuted = λ j h. absurd (omega arith);
  },
)
pull_nodes-Pulled pull len first (node ∷ nodes) [] outs well few same sampled room muted =
    absurd (omega arith)
pull_nodes-Pulled pull len first (node ∷ nodes) (i ∷ ins) [] well few same sampled room muted =
    absurd (omega arith)
pull_nodes-Pulled pull len first (node ∷ nodes) (i ∷ ins) (o ∷ outs) well few same (one, sampled)
      (space, room) (off, muted) =
    let (good, long, short) = well node i.audio_data in
    let (ret, samples, vol) = pull node i.audio_data in
    let (ins', outs', e, len_in, len_out, rest) =
      pull_nodes-Pulled pull len false nodes ins outs well (omega arith) (omega arith) sampled room
        muted in
    let ok : eqb_ℤ (pull node i.audio_data).0 (pos 0) ≡ true = rw good refl in
    let first_voice = volume-voice first vol samples in
    (
      record { amp = volume first vol; audio_data = samples } ∷ ins',
      record o { amp = mix_keep_0db } ∷ outs',
      rw (ok, good, e) refl,
      omega (arith, len_in),
      omega (arith, len_out),
      record {
        sampled = ((long, short), rest.sampled);
        room = (space, rest.room);
        all_heard = λ k. ap₂ (λ a b. a +ℤ b) (first_voice k) (rest.all_heard k);
        others_heard =
            others_next (voices pull false nodes ins) (if first || (vol == 1) then samples else [])
              (length nodes) (record { amp = volume first vol; audio_data = samples }) ins'
              first_voice rest.all_heard rest.others_heard;
        unmuted =
            unmuted_next (length nodes) (record o { amp = mix_keep_0db }) outs' refl rest.unmuted;
      },
    )

-- The variable for the results is set by the first pull.
pub pull_nodes-any_ret :
    (pull : Pull) (first : Bool) (ret ret' : ℤ) (nodes : List ℕ) (ins outs : List FastmixIo)
    → 0 < length nodes
    → pull_nodes pull first ret nodes ins outs ≡ pull_nodes pull first ret' nodes ins outs
unfolding pull_nodes
pull_nodes-any_ret pull first ret ret' [] ins outs h = absurd (omega arith)
pull_nodes-any_ret pull first ret ret' (node ∷ nodes) [] outs h = refl
pull_nodes-any_ret pull first ret ret' (node ∷ nodes) (i ∷ ins) [] h = refl
pull_nodes-any_ret pull first ret ret' (node ∷ nodes) (i ∷ ins) (o ∷ outs) h = refl
