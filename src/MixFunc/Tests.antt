-- ===== src/MixFunc/Tests.antt =====
-- Three channels of libconf/mixfunc.c with two samples each, and the theorems applied to them.
use mcuproxy.Prelude.{ℕ, ◌≡◌, refl, ◌<◌, List, [], ◌∷◌, some, arith, All, zero, suc}
use mcuproxy.Prelude.Int.{ℤ, pos, negsuc, pos_part, neg_part, ◌+ℤ◌, ◌-ℤ◌, ◌*ℤ◌}
use mcuproxy.Prelude.Int32.{to_int, wrap_int}
use mcuproxy.MixFunc.Sums.{at, IsShort, IsSampled}
use mcuproxy.MixFunc.Loops.{Holds, HasRoom, amp_of}
use mcuproxy.MixFunc.Minus.{amplified, sum_except, mix-minus}
use mcuproxy.MixFunc.{
  FastmixIo, mix_keep_0db, mix_supp_3db, mix_gain_3db, sature32, halve, each_sample, each_pair,
  pre_amp_samples, fastmix_pre_amp, sat_amp, sat_samples, fastmix_sat_amp, sample, add_channels,
  add_samples, fastmix_add, sub_amp, sub_amp_samples, fastmix_sub_amp,
}

code : Unit {0}
unfolding ◌+ℤ◌ ◌-ℤ◌ ◌*ℤ◌ to_int wrap_int sature32 halve each_sample each_pair pre_amp_samples
    fastmix_pre_amp sat_amp sat_samples fastmix_sat_amp sample add_channels add_samples fastmix_add
    sub_amp sub_amp_samples fastmix_sub_amp
code = tt

abbrev talk : List FastmixIo
talk =
    record { amp = mix_keep_0db; audio_data = pos 30000 ∷ negsuc 4 ∷ [] }
    ∷ record { amp = mix_gain_3db; audio_data = pos 20000 ∷ pos 7 ∷ [] }
    ∷ record { amp = mix_supp_3db; audio_data = negsuc 99 ∷ pos 2 ∷ [] }
    ∷ []

abbrev listen : List FastmixIo
listen =
    record { amp = mix_keep_0db; audio_data = pos 0 ∷ pos 0 ∷ [] }
    ∷ record { amp = mix_gain_3db; audio_data = pos 0 ∷ pos 0 ∷ [] }
    ∷ record { amp = mix_supp_3db; audio_data = pos 0 ∷ pos 0 ∷ [] }
    ∷ []

shorts : (a b : ℤ) → IsShort a → IsShort b → (k : ℕ) → IsShort (at (a ∷ b ∷ []) k)
shorts a b ha hb zero = ha
shorts a b ha hb (suc zero) = hb
shorts a b ha hb (suc (suc k)) = (omega arith, omega arith)

talk-IsSampled : All (IsSampled 2) talk
talk-IsSampled = (
  (
    omega arith,
    shorts (pos 30000) (negsuc 4) (omega arith, omega arith) (omega arith, omega arith),
  ),
  (
    (omega arith, shorts (pos 20000) (pos 7) (omega arith, omega arith) (omega arith, omega arith)),
    (
      (
        omega arith,
        shorts (negsuc 99) (pos 2) (omega arith, omega arith) (omega arith, omega arith),
      ),
      tt,
    ),
  ),
)

listen-HasRoom : All (HasRoom 2) listen
listen-HasRoom = (omega arith, (omega arith, (omega arith, tt)))

abbrev silence : List ℤ
silence = pos 0 ∷ pos 0 ∷ []

mix-minus_example :
    (sums : List ℤ) × (ys : List FastmixIo) × (fastmix_add talk silence 3 2 ≡ some sums)
    × (fastmix_sub_amp sums talk listen 3 2 ≡ some ys)
    × Holds 3 2 (λ j k. amplified (amp_of listen j) (sum_except talk j k)) listen ys
mix-minus_example =
    mix-minus 2 talk listen silence talk-IsSampled listen-HasRoom refl (omega arith) (omega arith)

abbrev mixed : List ℤ
mixed = pos 49900 ∷ pos 4 ∷ []

small : (k : ℕ) → (pos_part (at mixed k) < 1073741824) × (neg_part (at mixed k) < 1073741824)
small zero = (omega arith, omega arith)
small (suc zero) = (omega arith, omega arith)
small (suc (suc k)) = (omega arith, omega arith)

abbrev moh : FastmixIo
moh = record { amp = mix_gain_3db; audio_data = pos 0 ∷ pos 0 ∷ [] }

three_channels : fastmix_add talk silence 3 2 ≡ some mixed
unfolding code
three_channels = refl

abbrev heard : List FastmixIo
heard =
    record { amp = mix_keep_0db; audio_data = pos 19900 ∷ pos 9 ∷ [] }
    ∷ record { amp = mix_gain_3db; audio_data = pos 32767 ∷ negsuc 5 ∷ [] }
    ∷ record { amp = mix_supp_3db; audio_data = pos 25000 ∷ pos 1 ∷ [] }
    ∷ []

third_hears_half : fastmix_sub_amp mixed talk listen 3 2 ≡ some heard
unfolding code
third_hears_half = refl
