-- ===== src/MixFunc/Amp.antt =====
-- libconf/mixfunc.c: the volumes of the inputs, and of one output.
use mcuproxy.Prelude.{
  ℕ, zero, suc, ◌^◌, ◌≤◌, ◌<◌, ◌≡◌, refl, ap, List, [], ◌∷◌, some, arith, length, All, ◌∙◌,
}
use mcuproxy.Prelude.Int.{ℤ, pos, negsuc, pos_part, neg_part, ◌*ℤ◌}
use mcuproxy.Prelude.Int32.{wrap_int, wrap_int_fits}
use mcuproxy.MixFunc.Sums.{at, IsShort, IsSampled, sature32-nearest}
use mcuproxy.MixFunc.Loops.{
  at_next, Wrote, each_sample-Wrote, each_pair-Wrote, Holds, Holds-cons, HasRoom, amp_of, audio_of,
}
use mcuproxy.MixFunc.Minus.{amplified, double_bound}
use mcuproxy.MixFunc.{
  FastmixVol, mix_disable, mix_keep_0db, mix_supp_3db, mix_gain_3db, FastmixIo, sature32, halve,
  sat_amp, sat_samples, pre_amp_samples, fastmix_pre_amp, fastmix_sat_amp, each_sample,
}

-- What `fastmix_pre_amp` makes of a sample.
unfoldable pub pre_amplified : FastmixVol → ℤ → ℤ
pre_amplified mix_disable x = pos 0
pre_amplified mix_supp_3db x = halve x
pre_amplified mix_gain_3db x = sature32 (x *ℤ pos 2)
pre_amplified mix_keep_0db x = x

pre_amplified-IsShort : (amp : FastmixVol) (x : ℤ) → IsShort x → IsShort (pre_amplified amp x)
unfolding pre_amplified halve
pre_amplified-IsShort mix_disable x short = (omega arith, omega arith)
pre_amplified-IsShort mix_supp_3db (pos n) (high, low) = (omega arith, omega arith)
pre_amplified-IsShort mix_supp_3db (negsuc n) (high, low) = (omega arith, omega arith)
pre_amplified-IsShort mix_gain_3db x (high, low) = (sature32-nearest (x *ℤ pos 2) x (high, low)).0
pre_amplified-IsShort mix_keep_0db x short = short

doubled : (x : ℤ) → IsShort x → wrap_int (x *ℤ pos 2) ≡ x *ℤ pos 2
doubled x (high, low) =
    let (above, below) = double_bound x in wrap_int_fits (x *ℤ pos 2) (omega arith) (omega arith)

-- Every sample of the list, also those beyond `n`, is a short.
abbrev IsShorts : List ℤ → Type 0
IsShorts xs = (k : ℕ) → IsShort (at xs k)

IsShorts-cons : (y : ℤ) (ys : List ℤ) → IsShort y → IsShorts ys → IsShorts (y ∷ ys)
IsShorts-cons y ys short all zero = short
IsShorts-cons y ys short all (suc k) = all k

samples-kept :
    (f : ℤ → ℤ) (n : ℕ) (xs : List ℤ)
    → ((x : ℤ) → IsShort x → IsShort (f x))
    → n ≤ length xs
    → IsShorts xs
    → (ys : List ℤ) × (each_sample f n xs ≡ some ys)
      × (length ys ≡ length xs)
      × ((k : ℕ) → k < n → at ys k ≡ f (at xs k))
      × IsShorts ys
unfolding each_sample
samples-kept f zero xs short h all = (xs, refl, refl, λ k h. absurd (omega arith), all)
samples-kept f (suc n) [] short h all = absurd (omega arith)
samples-kept f (suc n) (x ∷ xs) short h all =
    let (ys, run, same, values, shorts) =
      samples-kept f n xs short (omega arith) (λ k. all (suc k)) in
    (
      f x ∷ ys,
      rw run,
      ap suc same,
      at_next (f x) ys n (λ k. f (at (x ∷ xs) k)) refl values,
      IsShorts-cons (f x) ys (short x (all 0)) shorts,
    )

pre_amp_samples-kept :
    (amp : FastmixVol) (n : ℕ) (xs : List ℤ)
    → n ≤ length xs
    → IsShorts xs
    → (ys : List ℤ) × (pre_amp_samples amp n xs ≡ some ys)
      × (length ys ≡ length xs)
      × ((k : ℕ) → k < n → at ys k ≡ pre_amplified amp (at xs k))
      × IsShorts ys
unfolding pre_amp_samples
pre_amp_samples-kept mix_disable n xs h all =
    unfold pre_amplified in
    samples-kept (λ x. pos 0) n xs (λ x short. (omega arith, omega arith)) h all
pre_amp_samples-kept mix_supp_3db n xs h all =
    unfold pre_amplified in
    samples-kept halve n xs (λ x short. pre_amplified-IsShort mix_supp_3db x short) h all
pre_amp_samples-kept mix_gain_3db n xs h all =
    let (ys, run, same, values, shorts) =
      samples-kept (λ x. sature32 (wrap_int (x *ℤ pos 2))) n xs
        (λ x short. (sature32-nearest (wrap_int (x *ℤ pos 2)) x short).0) h all in
    (
      ys,
      run,
      same,
      (λ k h. unfold pre_amplified in values k h ∙ ap sature32 (doubled (at xs k) (all k))),
      shorts,
    )
pre_amp_samples-kept mix_keep_0db n xs h all =
    unfold pre_amplified in (xs, refl, refl, (λ k h. refl), all)

-- On channels of at least `len` shorts `fastmix_pre_amp` makes of each of the first `len` samples
-- of a channel what its volume says (silence, the half rounded down, the saturated double, the
-- sample itself), keeps the volumes, and leaves channels of at least `len` shorts.
pub pre_amp-Holds :
    (len : ℕ) (ios : List FastmixIo)
    → All (IsSampled len) ios
    → (ys : List FastmixIo) × (fastmix_pre_amp ios (length ios) len ≡ some ys)
      × Holds (length ios) len (λ j k. pre_amplified (amp_of ios j) (at (audio_of ios j) k)) ios ys
      × All (IsSampled len) ys
unfolding fastmix_pre_amp
pre_amp-Holds len [] all = ([], refl, (λ j h. absurd (omega arith)), tt)
pre_amp-Holds len (io ∷ ios) ((long, short), all) =
    let (samples, now, same, values, shorts) =
      pre_amp_samples-kept io.amp len io.audio_data long short in
    let (ys, later, rest, sampled) = pre_amp-Holds len ios all in
    (
      record io { audio_data = samples } ∷ ys,
      rw (now, later),
      Holds-cons (length ios) len
          (λ j k. pre_amplified (amp_of (io ∷ ios) j) (at (audio_of (io ∷ ios) j) k)) io
          (record io { audio_data = samples }) ios ys refl values rest,
      ((omega arith, shorts), sampled),
    )

sat_amp-amplified :
    (amp : FastmixVol) (x : ℤ)
    → pos_part x < 2 ^ 30
    → neg_part x < 2 ^ 30
    → sat_amp amp x ≡ amplified amp x
unfolding sat_amp amplified
sat_amp-amplified mix_disable x high low = refl
sat_amp-amplified mix_supp_3db x high low = refl
sat_amp-amplified mix_keep_0db x high low = refl
sat_amp-amplified mix_gain_3db x high low =
    let (above, below) = double_bound x in
    ap sature32 (wrap_int_fits (x *ℤ pos 2) (omega arith) (omega arith))

sat_samples-Wrote :
    (amp : FastmixVol) (n : ℕ) (xs ys : List ℤ)
    → n ≤ length xs
    → n ≤ length ys
    → Wrote n (λ k. sat_amp amp (at xs k)) ys (sat_samples amp n xs ys)
unfolding sat_samples
sat_samples-Wrote mix_disable n xs ys hx hy =
    unfold sat_amp in each_sample-Wrote (λ x. pos 0) n ys hy
sat_samples-Wrote mix_supp_3db n xs ys hx hy =
    each_pair-Wrote (λ x y. sat_amp mix_supp_3db x) n xs xs ys hx hx hy
sat_samples-Wrote mix_gain_3db n xs ys hx hy =
    each_pair-Wrote (λ x y. sat_amp mix_gain_3db x) n xs xs ys hx hx hy
sat_samples-Wrote mix_keep_0db n xs ys hx hy =
    each_pair-Wrote (λ x y. sat_amp mix_keep_0db x) n xs xs ys hx hx hy

-- For sums below 2 ^ 30 in size, `fastmix_sat_amp` stores in an output with room for `len` samples
-- each of them amplified by the volume of the output and saturated, and keeps the volume.
pub sat_amp-Holds :
    (len : ℕ) (input : List ℤ) (output : FastmixIo)
    → len ≤ length input
    → HasRoom len output
    → ((k : ℕ) → (pos_part (at input k) < 2 ^ 30) × (neg_part (at input k) < 2 ^ 30))
    → (y : FastmixIo) × (fastmix_sat_amp input output len ≡ some y)
      × (y.amp ≡ output.amp)
      × ((k : ℕ) → k < len → at y.audio_data k ≡ amplified output.amp (at input k))
unfolding fastmix_sat_amp
sat_amp-Holds len input output long room small =
    let (ys, run, same, values) =
      sat_samples-Wrote output.amp len input output.audio_data long room in
    (
      record output { audio_data = ys },
      rw run,
      refl,
      λ k h. values k h ∙ sat_amp-amplified output.amp (at input k) (small k).0 (small k).1,
    )
