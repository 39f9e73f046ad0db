-- ===== src/MixFunc.antt =====
-- libconf/mixfunc.c: the sample mixer of a conference. A channel is its volume and its samples; a
-- loop that runs past the end of a channel's samples is a fault, `none`. A channel's samples as
-- input and as output are separate lists: the loops read sample i of the input before they write
-- sample i of the output, so nothing changes when both are one array.
pub mod Sums
pub mod Loops
pub mod Minus
pub mod Amp
mod Tests
use mcuproxy.Prelude.{
  ℕ, zero, suc, ◌+◌, ◌/◌, List, [], ◌∷◌, Option, none, some, if◌then◌else◌, ◌>>=◌,
}
use mcuproxy.Prelude.Int.{ℤ, pos, negsuc, ◌+ℤ◌, ◌-ℤ◌, ◌*ℤ◌, ltb_ℤ}
use mcuproxy.Prelude.Int32.{wrap_int}

pub data FastmixVol : Type 0 where
  mix_disable mix_keep_0db mix_supp_3db mix_gain_3db : FastmixVol

pub record FastmixIo : Type 0 where
  pub amp : FastmixVol
  pub audio_data : List ℤ

unfoldable pub sature32 : ℤ → ℤ
sature32 temp =
    if ltb_ℤ (pos 32767) temp
    then pos 32767
    else if ltb_ℤ temp (negsuc 32767)
    then negsuc 32767
    else temp

-- `>> 1`, which rounds down.
unfoldable pub halve : ℤ → ℤ
halve (pos n) = pos (n / 2)
halve (negsuc n) = negsuc (n / 2)

-- A loop over the first `n` samples, each replaced by its image.
unfoldable pub each_sample : (ℤ → ℤ) → ℕ → List ℤ → Option (List ℤ)
each_sample f zero xs = some xs
each_sample f (suc n) [] = none
each_sample f (suc n) (x ∷ xs) = elim (each_sample f n xs) [
  | none ↦ none
  | some ys ↦ some (f x ∷ ys)
]

-- A loop that writes the first `n` samples of the last list from those of the first two.
unfoldable pub each_pair : (ℤ → ℤ → ℤ) → ℕ → List ℤ → List ℤ → List ℤ → Option (List ℤ)
each_pair f zero xs bs cs = some cs
each_pair f (suc n) (a ∷ xs) (b ∷ bs) (c ∷ cs) = elim (each_pair f n xs bs cs) [
  | none ↦ none
  | some ys ↦ some (f a b ∷ ys)
]
each_pair f (suc n) [] bs cs = none
each_pair f (suc n) (a ∷ xs) [] cs = none
each_pair f (suc n) (a ∷ xs) (b ∷ bs) [] = none

-- The body of the loop of `fastmix_pre_amp` over the channels.
unfoldable pub pre_amp_samples : FastmixVol → ℕ → List ℤ → Option (List ℤ)
pre_amp_samples mix_disable len xs = each_sample (λ x. pos 0) len xs
pre_amp_samples mix_supp_3db len xs = each_sample halve len xs
pre_amp_samples mix_gain_3db len xs = each_sample (λ x. sature32 (wrap_int (x *ℤ pos 2))) len xs
pre_amp_samples mix_keep_0db len xs = some xs

unfoldable pub fastmix_pre_amp : List FastmixIo → ℕ → ℕ → Option (List FastmixIo)
fastmix_pre_amp ios zero len = some ios
fastmix_pre_amp [] (suc num) len = none
fastmix_pre_amp (io ∷ ios) (suc num) len = do
  xs ← pre_amp_samples io.amp len io.audio_data
  rest ← fastmix_pre_amp ios num len
  some (record io { audio_data = xs } ∷ rest)

-- What `fastmix_sat_amp` stores for a value, by the volume.
unfoldable pub sat_amp : FastmixVol → ℤ → ℤ
sat_amp mix_disable x = pos 0
sat_amp mix_supp_3db x = sature32 (halve x)
sat_amp mix_gain_3db x = sature32 (wrap_int (x *ℤ pos 2))
sat_amp mix_keep_0db x = sature32 x

-- A muted channel is written without a look at the input.
unfoldable pub sat_samples : FastmixVol → ℕ → List ℤ → List ℤ → Option (List ℤ)
sat_samples mix_disable len input output = each_sample (λ x. pos 0) len output
sat_samples mix_supp_3db len input output =
    each_pair (λ x y. sat_amp mix_supp_3db x) len input input output
sat_samples mix_gain_3db len input output =
    each_pair (λ x y. sat_amp mix_gain_3db x) len input input output
sat_samples mix_keep_0db len input output =
    each_pair (λ x y. sat_amp mix_keep_0db x) len input input output

unfoldable pub fastmix_sat_amp : List ℤ → FastmixIo → ℕ → Option FastmixIo
fastmix_sat_amp input output len = do
  xs ← sat_samples output.amp len input output.audio_data
  some (record output { audio_data = xs })

-- Sample `i` of a channel.
unfoldable pub sample : List ℤ → ℕ → Option ℤ
sample [] i = none
sample (x ∷ xs) zero = some x
sample (x ∷ xs) (suc i) = sample xs i

-- The inner loop of `fastmix_add`: `temp` and what it has left to add.
unfoldable pub add_channels : List FastmixIo → ℕ → ℕ → ℤ → Option ℤ
add_channels ios zero i temp = some temp
add_channels [] (suc num) i temp = none
add_channels (io ∷ ios) (suc num) i temp = do
  x ← sample io.audio_data i
  add_channels ios num i (wrap_int (temp +ℤ x))

-- The outer loop of `fastmix_add`, from sample `i` on, `len` samples; `out` is the output from
-- there.
unfoldable pub add_samples : List FastmixIo → ℕ → ℕ → ℕ → List ℤ → Option (List ℤ)
add_samples ios num i zero out = some out
add_samples ios num i (suc len) [] = none
add_samples ios num i (suc len) (o ∷ out) = do
  temp ← add_channels ios num i (pos 0)
  rest ← add_samples ios num (suc i) len out
  some (temp ∷ rest)

unfoldable pub fastmix_add : List FastmixIo → List ℤ → ℕ → ℕ → Option (List ℤ)
fastmix_add input output num len = add_samples input num 0 len output

-- What `fastmix_sub_amp` stores for a value of the mix and a sample of the channel, by the volume.
unfoldable pub sub_amp : FastmixVol → ℤ → ℤ → ℤ
sub_amp mix_disable b x = pos 0
sub_amp mix_supp_3db b x = sature32 (halve (wrap_int (b -ℤ x)))
sub_amp mix_gain_3db b x = sature32 (wrap_int (wrap_int (b -ℤ x) *ℤ pos 2))
sub_amp mix_keep_0db b x = sature32 (wrap_int (b -ℤ x))

-- The body of the loop of `fastmix_sub_amp` over the channels.
unfoldable pub sub_amp_samples : FastmixVol → ℕ → List ℤ → List ℤ → List ℤ → Option (List ℤ)
sub_amp_samples mix_disable len buffer input output = each_sample (λ x. pos 0) len output
sub_amp_samples mix_supp_3db len buffer input output =
    each_pair (sub_amp mix_supp_3db) len buffer input output
sub_amp_samples mix_gain_3db len buffer input output =
    each_pair (sub_amp mix_gain_3db) len buffer input output
sub_amp_samples mix_keep_0db len buffer input output =
    each_pair (sub_amp mix_keep_0db) len buffer input output

unfoldable pub fastmix_sub_amp :
    List ℤ → List FastmixIo → List FastmixIo → ℕ → ℕ → Option (List FastmixIo)
fastmix_sub_amp buffer input output zero len = some output
fastmix_sub_amp buffer (x ∷ input) (y ∷ output) (suc num) len = do
  ys ← sub_amp_samples y.amp len buffer x.audio_data y.audio_data
  rest ← fastmix_sub_amp buffer input output num len
  some (record y { audio_data = ys } ∷ rest)
fastmix_sub_amp buffer [] output (suc num) len = none
fastmix_sub_amp buffer (x ∷ input) [] (suc num) len = none
