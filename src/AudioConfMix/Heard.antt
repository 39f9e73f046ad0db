-- ===== src/AudioConfMix/Heard.antt =====
-- libconf/AudioConfMix.cpp: `mix` on all the channels of a conference.
use mcuproxy.Prelude.{
  ℕ, zero, suc, ◌≤◌, ◌<◌, ◌≡◌, refl, ap, ap₂, sym, ◌∙◌, List, [], ◌∷◌, Option, some, none, inl, inr,
  Option-cases, arith, length, All,
}
use mathlib.Core.Path.{subst}
use mcuproxy.Prelude.Int.{ℤ, pos, ◌+ℤ◌}
use mcuproxy.MixFunc.{
  FastmixIo, pre_amp_samples, sub_amp_samples, fastmix_pre_amp, fastmix_add, fastmix_sub_amp,
}
use mcuproxy.MixFunc.Sums.{at, IsSampled, sum_at}
use mcuproxy.MixFunc.Loops.{HasRoom, Holds, amp_of, audio_of}
use mcuproxy.MixFunc.Minus.{sum_except, amplified, mix-minus}
use mcuproxy.MixFunc.Amp.{pre_amplified, pre_amp-Holds}
use mcuproxy.AudioConfMix.{max_mix_object, Mixed, mix}

-- What the volumes of the channels make of their samples, added up.
unfoldable pub heard_at : List FastmixIo → ℕ → ℤ
heard_at [] k = pos 0
heard_at (io ∷ ios) k = pre_amplified io.amp (at io.audio_data k) +ℤ heard_at ios k

-- The same without channel `j`.
unfoldable pub heard_except : List FastmixIo → ℕ → ℕ → ℤ
heard_except [] j k = pos 0
heard_except (io ∷ ios) zero k = heard_at ios k
heard_except (io ∷ ios) (suc j) k =
    pre_amplified io.amp (at io.audio_data k) +ℤ heard_except ios j k

Amped : ℕ → List FastmixIo → List FastmixIo → Type 0
Amped len ios ys =
    Holds (length ios) len (λ j k. pre_amplified (amp_of ios j) (at (audio_of ios j) k)) ios ys

Amped-tail :
    (len : ℕ) (io y : FastmixIo) (ios ys : List FastmixIo)
    → Amped len (io ∷ ios) (y ∷ ys)
    → Amped len ios ys
unfolding Amped
Amped-tail len io y ios ys holds j h = holds (suc j) (omega arith)

sum_at-heard_at :
    (len : ℕ) (ios ys : List FastmixIo) (k : ℕ)
    → length ys ≡ length ios
    → Amped len ios ys
    → k < len
    → sum_at ys k ≡ heard_at ios k
unfolding sum_at heard_at Amped
sum_at-heard_at len [] [] k same holds h = refl
sum_at-heard_at len [] (y ∷ ys) k same holds h = absurd (omega arith)
sum_at-heard_at len (io ∷ ios) [] k same holds h = absurd (omega arith)
sum_at-heard_at len (io ∷ ios) (y ∷ ys) k same holds h =
    ap₂ (λ a b. a +ℤ b) ((holds zero (omega arith)).1 k h)
      (sum_at-heard_at len ios ys k (omega arith) (Amped-tail len io y ios ys holds) h)

sum_except-heard_except :
    (len : ℕ) (ios ys : List FastmixIo) (j k : ℕ)
    → length ys ≡ length ios
    → Amped len ios ys
    → k < len
    → sum_except ys j k ≡ heard_except ios j k
unfolding sum_except heard_except Amped
sum_except-heard_except len [] [] j k same holds h = refl
sum_except-heard_except len [] (y ∷ ys) j k same holds h = absurd (omega arith)
sum_except-heard_except len (io ∷ ios) [] j k same holds h = absurd (omega arith)
sum_except-heard_except len (io ∷ ios) (y ∷ ys) zero k same holds h =
    sum_at-heard_at len ios ys k (omega arith) (Amped-tail len io y ios ys holds) h
sum_except-heard_except len (io ∷ ios) (y ∷ ys) (suc j) k same holds h =
    ap₂ (λ a b. a +ℤ b) ((holds zero (omega arith)).1 k h)
      (sum_except-heard_except len ios ys j k (omega arith) (Amped-tail len io y ios ys holds) h)

length_of : Option (List FastmixIo) → ℕ
length_of none = 0
length_of (some ios) = length ios

fastmix_pre_amp-length :
    (num len : ℕ) (ios ys : List FastmixIo)
    → fastmix_pre_amp ios num len ≡ some ys
    → length ys ≡ length ios
unfolding fastmix_pre_amp length_of
fastmix_pre_amp-length zero len ios ys h = sym (ap length_of h)
fastmix_pre_amp-length (suc num) len [] ys h = absurd (cc)
fastmix_pre_amp-length (suc num) len (io ∷ ios) ys h =
    elim (Option-cases (pre_amp_samples io.amp len io.audio_data)) [
      | inl fault ↦ absurd (let e : none ≡ some ys = rw fault at h in cc)
      | inr (xs, one) ↦ elim (Option-cases (fastmix_pre_amp ios num len)) [
        | inl fault ↦ absurd (let e : none ≡ some ys = rw (one, fault) at h in cc)
        | inr (rest, others) ↦
            let e : some (record io { audio_data = xs } ∷ rest) ≡ some ys = rw (one, others) at h in
            omega (arith, ap length_of e, fastmix_pre_amp-length num len ios rest others)
      ]
    ]

fastmix_sub_amp-length :
    (num len : ℕ) (sums : List ℤ) (ins outs ys : List FastmixIo)
    → fastmix_sub_amp sums ins outs num len ≡ some ys
    → length ys ≡ length outs
unfolding fastmix_sub_amp length_of
fastmix_sub_amp-length zero len sums ins outs ys h = sym (ap length_of h)
fastmix_sub_amp-length (suc num) len sums [] outs ys h = absurd (cc)
fastmix_sub_amp-length (suc num) len sums (x ∷ ins) [] ys h = absurd (cc)
fastmix_sub_amp-length (suc num) len sums (x ∷ ins) (y ∷ outs) ys h =
    elim (Option-cases (sub_amp_samples y.amp len sums x.audio_data y.audio_data)) [
      | inl fault ↦ absurd (let e : none ≡ some ys = rw fault at h in cc)
      | inr (xs, one) ↦ elim (Option-cases (fastmix_sub_amp sums ins outs num len)) [
        | inl fault ↦ absurd (let e : none ≡ some ys = rw (one, fault) at h in cc)
        | inr (rest, others) ↦
            let e : some (record y { audio_data = xs } ∷ rest) ≡ some ys = rw (one, others) at h in
            omega (arith, ap length_of e, fastmix_sub_amp-length num len sums ins outs rest others)
      ]
    ]

-- What `mix` leaves in the outputs.
abbrev pub Hears : ℕ → List FastmixIo → List FastmixIo → List FastmixIo → Type 0
Hears len ins outs outs' =
    Holds max_mix_object len (λ j k. amplified (amp_of outs j) (heard_except ins j k)) outs outs'

-- On the eight channels of a conference, of at least `len` shorts, with room in the outputs and in the
-- buffer: `mix` succeeds, and stores in every output, for each sample, the exact sum of what the volumes
-- make of the other inputs, amplified by the volume of the output and saturated.
pub mix-Hears :
    (len : ℕ) (buffer : List ℤ) (ins outs : List FastmixIo)
    → All (IsSampled len) ins
    → All (HasRoom len) outs
    → length ins ≡ max_mix_object
    → length outs ≡ max_mix_object
    → len ≤ length buffer
    → (m : Mixed) × (outs' : List FastmixIo) × (mix len (some buffer) (some ins) none (some outs)
        ≡ some m)
      × (m.ret ≡ pos 0)
      × (m.inter ≡ some outs')
      × (length outs' ≡ length outs)
      × Hears len ins outs outs'
unfolding mix
mix-Hears len buffer ins outs sampled room num_in num_out space =
    let (ys, amped, holds, sampled') = pre_amp-Holds len ins sampled in
    let same : length ys ≡ length ins = fastmix_pre_amp-length (length ins) len ins ys amped in
    let (sums, outs', added, subtracted, holds') =
      mix-minus len ys outs buffer sampled' room (omega (arith, same)) space
        (omega (arith, same)) in
    let all_in : fastmix_pre_amp ins max_mix_object len ≡ some ys =
      subst (λ n. fastmix_pre_amp ins n len ≡ some ys) num_in amped in
    let num : length ys ≡ max_mix_object = same ∙ num_in in
    let all_added : fastmix_add ys buffer max_mix_object len ≡ some sums =
      subst (λ n. fastmix_add ys buffer n len ≡ some sums) num added in
    let all_out : fastmix_sub_amp sums ys outs max_mix_object len ≡ some outs' =
      subst (λ n. fastmix_sub_amp sums ys outs n len ≡ some outs') num subtracted in
    (
      record { ret = pos 0; input = some ys; buffer = some sums; full = none; inter = some outs' },
      outs',
      rw (all_in, all_added, all_out) refl,
      refl,
      refl,
      fastmix_sub_amp-length max_mix_object len sums ys outs outs' all_out,
      λ j h.
          let (amp, values) = holds' j (omega (arith, num, h)) in
          (
            amp,
            λ k within.
                values k within
                ∙ ap (amplified (amp_of outs j))
                    (sum_except-heard_except len ins ys j k same (unfold Amped in holds) within),
          ),
    )
