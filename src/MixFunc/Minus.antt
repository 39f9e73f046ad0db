-- ===== src/MixFunc/Minus.antt =====
-- libconf/mixfunc.c: each participant hears the sum of the others.
use mcuproxy.Prelude.{
  ℕ, zero, suc, ◌+◌, ◌*◌, ◌^◌, ◌≤◌, ◌<◌, ◌≡◌, refl, sym, ◌∙◌, List, [], ◌∷◌, some, arith, length,
  All,
}
use mcuproxy.Prelude.Int.{
  ℤ, pos, negsuc, pos_part, neg_part, ◌+ℤ◌, ◌-ℤ◌, ◌*ℤ◌, int_laws, int_bounds,
}
use mcuproxy.Prelude.Int32.{wrap_int_fits}
use mcuproxy.MixFunc.Loops.{HasRoom, Holds, amp_of, audio_of, channels-Holds}
use mcuproxy.MixFunc.Sums.{at, IsSampled, sum_at, sum_at-bound, fastmix_add-IsMixed}
use mcuproxy.MixFunc.{
  FastmixVol, mix_disable, mix_keep_0db, mix_supp_3db, mix_gain_3db, FastmixIo, sature32, halve,
  sub_amp, fastmix_add, fastmix_sub_amp,
}

-- The exact sum of all the channels but `j`, at sample `k`.
unfoldable pub sum_except : List FastmixIo → ℕ → ℕ → ℤ
sum_except [] j k = pos 0
sum_except (io ∷ ios) zero k = sum_at ios k
sum_except (io ∷ ios) (suc j) k = at io.audio_data k +ℤ sum_except ios j k

-- What a volume makes of a value, with no wrap-around.
unfoldable pub amplified : FastmixVol → ℤ → ℤ
amplified mix_disable z = pos 0
amplified mix_supp_3db z = sature32 (halve z)
amplified mix_gain_3db z = sature32 (z *ℤ pos 2)
amplified mix_keep_0db z = sature32 z

sum_at-sum_except :
    (ios : List FastmixIo) (j k : ℕ)
    → j < length ios
    → sum_at ios k -ℤ at (audio_of ios j) k ≡ sum_except ios j k
unfolding sum_at sum_except
sum_at-sum_except [] j k h = absurd (omega arith)
sum_at-sum_except (io ∷ ios) zero k h = omega int_laws
sum_at-sum_except (io ∷ ios) (suc j) k h =
    let rest = sum_at-sum_except ios j k (omega arith) in rw (sym rest) (omega int_laws)

sum_except-bound :
    (len : ℕ) (ios : List FastmixIo) (j k : ℕ)
    → All (IsSampled len) ios
    → (pos_part (sum_except ios j k) ≤ 32768 * length ios)
      × (neg_part (sum_except ios j k) ≤ 32768 * length ios)
unfolding sum_except
sum_except-bound len [] j k all = (omega arith, omega arith)
sum_except-bound len (io ∷ ios) zero k (sampled, all) =
    let (high, low) = sum_at-bound len ios k all in (omega arith, omega arith)
sum_except-bound len (io ∷ ios) (suc j) k ((long, short), all) =
    let (high, low) = sum_except-bound len ios j k all in
    let (above, below) = short k in (omega int_bounds, omega int_bounds)

pub double_bound :
    (z : ℤ) → (pos_part (z *ℤ pos 2) ≤ 2 * pos_part z) × (neg_part (z *ℤ pos 2) ≤ 2 * neg_part z)
unfolding ◌*ℤ◌
double_bound (pos n) = (ground arith, ground arith)
double_bound (negsuc n) = (ground arith, ground arith)

-- A difference that is small enough is amplified exactly.
sub_amp-amplified :
    (amp : FastmixVol) (b x z : ℤ)
    → b -ℤ x ≡ z
    → pos_part z < 2 ^ 30
    → neg_part z < 2 ^ 30
    → sub_amp amp b x ≡ amplified amp z
unfolding sub_amp amplified
sub_amp-amplified mix_disable b x z e high low = refl
sub_amp-amplified mix_supp_3db b x z e high low =
    rw (e, wrap_int_fits z (omega arith) (omega arith)) refl
sub_amp-amplified mix_keep_0db b x z e high low =
    rw (e, wrap_int_fits z (omega arith) (omega arith)) refl
sub_amp-amplified mix_gain_3db b x z e high low =
    let (above, below) = double_bound z in
    rw
      (
        e,
        wrap_int_fits z (omega arith) (omega arith),
        wrap_int_fits (z *ℤ pos 2) (omega arith) (omega arith),
      )
      refl

sampled-HasRoom : (len : ℕ) (ios : List FastmixIo) → All (IsSampled len) ios → All (HasRoom len) ios
sampled-HasRoom len [] all = tt
sampled-HasRoom len (io ∷ ios) ((long, short), all) = (long, sampled-HasRoom len ios all)

-- For fewer than 32767 channels of at least `len` shorts, with room for the results: `fastmix_add`
-- and then `fastmix_sub_amp` store in every output channel, for each sample, the exact sum of the
-- other channels, amplified by the volume of the output channel and saturated. The volumes are
-- kept, and no `int` overflows on the way.
pub mix-minus :
    (len : ℕ) (ins outs : List FastmixIo) (buffer : List ℤ)
    → All (IsSampled len) ins
    → All (HasRoom len) outs
    → length ins ≡ length outs
    → len ≤ length buffer
    → length ins < 32767
    → (sums : List ℤ) × (ys : List FastmixIo) × (fastmix_add ins buffer (length ins) len
        ≡ some sums)
      × (fastmix_sub_amp sums ins outs (length ins) len ≡ some ys)
      × Holds (length ins) len (λ j k. amplified (amp_of outs j) (sum_except ins j k)) outs ys
mix-minus len ins outs buffer sampled spare same room few =
    let (sums, added, (long, exact)) =
      fastmix_add-IsMixed ins buffer len sampled (omega arith) room in
    let (ys, subtracted, holds) =
      channels-Holds len sums ins outs long (sampled-HasRoom len ins sampled) spare same in
    (
      sums,
      ys,
      added,
      subtracted,
      λ j h. ((holds j h).0, λ k within. (holds j h).1 k within ∙ others sums exact j h k within),
    )
  where
    others :
        (sums : List ℤ)
        → ((k : ℕ) → k < len → at sums k ≡ sum_at ins (0 + k))
        → (j : ℕ) → j < length ins
        → (k : ℕ) → k < len
        → sub_amp (amp_of outs j) (at sums k) (at (audio_of ins j) k)
          ≡ amplified (amp_of outs j) (sum_except ins j k)
    others sums exact j h k within =
        let (high, low) = sum_except-bound len ins j k sampled in
        let first : 0 + k ≡ k = omega arith in
        sub_amp-amplified (amp_of outs j) (at sums k) (at (audio_of ins j) k) (sum_except ins j k)
          (rw (exact k within, first) (sum_at-sum_except ins j k h)) (omega arith) (omega arith)
