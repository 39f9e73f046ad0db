-- ===== src/MixFunc/Loops.antt =====
-- libconf/mixfunc.c: the loops over the samples of a channel, and over the channels.
use mcuproxy.Prelude.{
  ℕ, zero, suc, ◌≤◌, ◌<◌, ◌≡◌, refl, ap, List, [], ◌∷◌, Option, some, arith, length, All,
}
use mcuproxy.Prelude.Int.{ℤ, pos}
use mcuproxy.MixFunc.Sums.{at}
use mcuproxy.MixFunc.{
  FastmixVol, mix_disable, mix_keep_0db, mix_supp_3db, mix_gain_3db, FastmixIo, each_sample,
  each_pair, sub_amp, sub_amp_samples, fastmix_sub_amp,
}

-- A loop wrote its first `n` samples, each with its value, and kept the length.
abbrev pub Wrote : ℕ → (ℕ → ℤ) → List ℤ → Option (List ℤ) → Type 0
Wrote n value old r =
    (ys : List ℤ) × (r ≡ some ys) × (length ys ≡ length old) × ((k : ℕ) → k < n → at ys k ≡ value k)

pub at_next :
    (y : ℤ) (ys : List ℤ) (n : ℕ) (value : ℕ → ℤ)
    → y ≡ value 0
    → ((k : ℕ) → k < n → at ys k ≡ value (suc k))
    → (k : ℕ) → k < suc n
    → at (y ∷ ys) k ≡ value k
at_next y ys n value now later zero h = now
at_next y ys n value now later (suc k) h = later k (omega arith)

pub each_sample-Wrote :
    (f : ℤ → ℤ) (n : ℕ) (xs : List ℤ)
    → n ≤ length xs
    → Wrote n (λ k. f (at xs k)) xs (each_sample f n xs)
unfolding each_sample
each_sample-Wrote f zero xs h = (xs, refl, refl, λ k h. absurd (omega arith))
each_sample-Wrote f (suc n) [] h = absurd (omega arith)
each_sample-Wrote f (suc n) (x ∷ xs) h =
    let (ys, run, same, values) = each_sample-Wrote f n xs (omega arith) in
    (f x ∷ ys, rw run, ap suc same, at_next (f x) ys n (λ k. f (at (x ∷ xs) k)) refl values)

pub each_pair-Wrote :
    (f : ℤ → ℤ → ℤ) (n : ℕ) (xs bs cs : List ℤ)
    → n ≤ length xs
    → n ≤ length bs
    → n ≤ length cs
    → Wrote n (λ k. f (at xs k) (at bs k)) cs (each_pair f n xs bs cs)
unfolding each_pair
each_pair-Wrote f zero xs bs cs ha hb hc = (cs, refl, refl, λ k h. absurd (omega arith))
each_pair-Wrote f (suc n) [] bs cs ha hb hc = absurd (omega arith)
each_pair-Wrote f (suc n) (a ∷ xs) [] cs ha hb hc = absurd (omega arith)
each_pair-Wrote f (suc n) (a ∷ xs) (b ∷ bs) [] ha hb hc = absurd (omega arith)
each_pair-Wrote f (suc n) (a ∷ xs) (b ∷ bs) (c ∷ cs) ha hb hc =
    let (ys, run, same, values) =
      each_pair-Wrote f n xs bs cs (omega arith) (omega arith) (omega arith) in
    (
      f a b ∷ ys,
      rw run,
      ap suc same,
      at_next (f a b) ys n (λ k. f (at (a ∷ xs) k) (at (b ∷ bs) k)) refl values,
    )

sub_amp_samples-Wrote :
    (amp : FastmixVol) (n : ℕ) (xs bs cs : List ℤ)
    → n ≤ length xs
    → n ≤ length bs
    → n ≤ length cs
    → Wrote n (λ k. sub_amp amp (at xs k) (at bs k)) cs (sub_amp_samples amp n xs bs cs)
unfolding sub_amp_samples
sub_amp_samples-Wrote mix_disable n xs bs cs ha hb hc =
    unfold sub_amp in each_sample-Wrote (λ x. pos 0) n cs hc
sub_amp_samples-Wrote mix_supp_3db n xs bs cs ha hb hc =
    each_pair-Wrote (sub_amp mix_supp_3db) n xs bs cs ha hb hc
sub_amp_samples-Wrote mix_gain_3db n xs bs cs ha hb hc =
    each_pair-Wrote (sub_amp mix_gain_3db) n xs bs cs ha hb hc
sub_amp_samples-Wrote mix_keep_0db n xs bs cs ha hb hc =
    each_pair-Wrote (sub_amp mix_keep_0db) n xs bs cs ha hb hc

-- The samples and the volume of channel `j`.
abbrev pub audio_of : List FastmixIo → ℕ → List ℤ
audio_of [] j = []
audio_of (io ∷ ios) zero = io.audio_data
audio_of (io ∷ ios) (suc j) = audio_of ios j

abbrev pub amp_of : List FastmixIo → ℕ → FastmixVol
amp_of [] j = mix_keep_0db
amp_of (io ∷ ios) zero = io.amp
amp_of (io ∷ ios) (suc j) = amp_of ios j

abbrev pub HasRoom : ℕ → FastmixIo → Type 0
HasRoom len io = len ≤ length io.audio_data

-- The outputs `ys` hold `value` of their channel and their sample, and have the volumes of `old`.
abbrev pub Holds : ℕ → ℕ → (ℕ → ℕ → ℤ) → List FastmixIo → List FastmixIo → Type 0
Holds num len value old ys =
    (j : ℕ)
    → j < num
    → (amp_of ys j ≡ amp_of old j) × ((k : ℕ) → k < len → at (audio_of ys j) k ≡ value j k)

pub Holds-cons :
    (num len : ℕ) (value : ℕ → ℕ → ℤ) (o y : FastmixIo) (old ys : List FastmixIo)
    → y.amp ≡ o.amp
    → ((k : ℕ) → k < len → at y.audio_data k ≡ value 0 k)
    → Holds num len (λ j. value (suc j)) old ys
    → Holds (suc num) len value (o ∷ old) (y ∷ ys)
Holds-cons num len value o y old ys amp now later zero h = (amp, now)
Holds-cons num len value o y old ys amp now later (suc j) h = later j (omega arith)

pub channels-Holds :
    (len : ℕ) (buffer : List ℤ) (ins outs : List FastmixIo)
    → len ≤ length buffer
    → All (HasRoom len) ins
    → All (HasRoom len) outs
    → length ins ≡ length outs
    → (ys : List FastmixIo) × (fastmix_sub_amp buffer ins outs (length ins) len ≡ some ys)
      × Holds
          (length ins)
          len
          (λ j k. sub_amp (amp_of outs j) (at buffer k) (at (audio_of ins j) k))
          outs
          ys
unfolding fastmix_sub_amp
channels-Holds len buffer [] outs room all_in all_out same =
    (outs, refl, λ j h. absurd (omega arith))
channels-Holds len buffer (x ∷ ins) [] room all_in all_out same = absurd (omega arith)
channels-Holds len buffer (x ∷ ins) (y ∷ outs) room (long, all_in) (long', all_out) same =
    let (samples, now, kept, values) =
      sub_amp_samples-Wrote y.amp len buffer x.audio_data y.audio_data room long long' in
    let (ys, later, rest) = channels-Holds len buffer ins outs room all_in all_out (omega arith) in
    (
      record y { audio_data = samples } ∷ ys,
      rw (now, later),
      Holds-cons (length ins) len
          (λ j k. sub_amp (amp_of (y ∷ outs) j) (at buffer k) (at (audio_of (x ∷ ins) j) k)) y
          (record y { audio_data = samples }) outs ys refl values rest,
    )
