-- ===== src/MixFunc/Sums.antt =====
-- libconf/mixfunc.c: the sums of `fastmix_add`, and what the saturation does.
use mcuproxy.Prelude.{
  ℕ, zero, suc, ◌+◌, ◌*◌, ◌^◌, ◌≤◌, ◌<◌, ◌≡◌, refl, ap, List, [], ◌∷◌, some, arith, get_or, length,
  All,
}
use mcuproxy.Prelude.Int.{ℤ, pos, pos_part, neg_part, ◌+ℤ◌, ◌-ℤ◌, int_laws, int_bounds}
use mcuproxy.Prelude.Int32.{wrap_int, wrap_int_fits}
use mcuproxy.MixFunc.{FastmixIo, sature32, sample, add_channels, add_samples, fastmix_add}

-- A value that a `short` holds.
abbrev pub IsShort : ℤ → Type 0
IsShort x = (pos_part x ≤ 32767) × (neg_part x ≤ 32768)

-- Sample `i`, and silence beyond the end.
abbrev pub at : List ℤ → ℕ → ℤ
at xs i = get_or xs i (pos 0)

-- A channel has `len` samples and holds shorts only.
abbrev pub IsSampled : ℕ → FastmixIo → Type 0
IsSampled len io = (len ≤ length io.audio_data) × ((i : ℕ) → IsShort (at io.audio_data i))

-- The exact sum of all the channels at sample `i`.
unfoldable pub sum_at : List FastmixIo → ℕ → ℤ
sum_at [] i = pos 0
sum_at (io ∷ ios) i = at io.audio_data i +ℤ sum_at ios i

pub sum_at-bound :
    (len : ℕ) (ios : List FastmixIo) (i : ℕ)
    → All (IsSampled len) ios
    → (pos_part (sum_at ios i) ≤ 32768 * length ios)
      × (neg_part (sum_at ios i) ≤ 32768 * length ios)
unfolding sum_at
sum_at-bound len [] i all = (omega arith, omega arith)
sum_at-bound len (io ∷ ios) i ((long, short), all) =
    let (high, low) = short i in
    let (high', low') = sum_at-bound len ios i all in (omega int_bounds, omega int_bounds)

pub sample-at : (xs : List ℤ) (i : ℕ) → i < length xs → sample xs i ≡ some (at xs i)
unfolding sample
sample-at [] i h = absurd (omega arith)
sample-at (x ∷ xs) zero h = refl
sample-at (x ∷ xs) (suc i) h = sample-at xs i (omega arith)

add_channels-sum_at :
    (len : ℕ) (ios : List FastmixIo) (i : ℕ) (temp : ℤ)
    → All (IsSampled len) ios
    → i < len
    → pos_part temp + 32768 * length ios < 2 ^ 31
    → neg_part temp + 32768 * length ios < 2 ^ 31
    → add_channels ios (length ios) i temp ≡ some (temp +ℤ sum_at ios i)
unfolding add_channels sum_at
add_channels-sum_at len [] i temp all h high low = ap (λ x. some x) (omega int_laws)
add_channels-sum_at len (io ∷ ios) i temp ((long, short), all) h high low =
    let x = at io.audio_data i in
    let (above, below) = short i in
    let kept : wrap_int (temp +ℤ x) ≡ temp +ℤ x =
      wrap_int_fits (temp +ℤ x) (omega int_bounds) (omega int_bounds) in
    rw
      (
        sample-at io.audio_data i (omega arith),
        kept,
        add_channels-sum_at len ios i (temp +ℤ x) all h (omega int_bounds) (omega int_bounds),
      )
      (ap (λ y. some y) (omega int_laws))

-- `sums` holds the exact sums of `ios`, from sample `i` on, `len` of them.
abbrev pub IsMixed : List FastmixIo → ℕ → ℕ → List ℤ → Type 0
IsMixed ios i len sums = (len ≤ length sums) × ((k : ℕ) → k < len → at sums k ≡ sum_at ios (i + k))

at_next :
    (ios : List FastmixIo) (i len : ℕ) (sums : List ℤ)
    → ((k : ℕ) → k < len → at sums k ≡ sum_at ios (suc i + k))
    → (k : ℕ) → k < suc len
    → at (sum_at ios i ∷ sums) k ≡ sum_at ios (i + k)
at_next ios i len sums exact zero h = let start : i + 0 ≡ i = omega arith in rw start refl
at_next ios i len sums exact (suc k) h =
    let step : i + suc k ≡ suc i + k = omega arith in rw step (exact k (omega arith))

add_samples-IsMixed :
    (n : ℕ) (ios : List FastmixIo) (i len : ℕ) (out : List ℤ)
    → All (IsSampled n) ios
    → length ios < 65535
    → i + len ≤ n
    → len ≤ length out
    → (sums : List ℤ) × (add_samples ios (length ios) i len out ≡ some sums)
      × IsMixed ios i len sums
unfolding add_samples
add_samples-IsMixed n ios i zero out all few within room =
    (out, refl, (omega arith, λ k h. absurd (omega arith)))
add_samples-IsMixed n ios i (suc len) [] all few within room = absurd (omega arith)
add_samples-IsMixed n ios i (suc len) (o ∷ out) all few within room =
    let (sums, run, (long, exact)) =
      add_samples-IsMixed n ios (suc i) len out all few (omega arith) (omega arith) in
    let here = add_channels-sum_at n ios i (pos 0) all (omega arith) (omega arith) (omega arith) in
    let start : pos 0 +ℤ sum_at ios i ≡ sum_at ios i = omega int_laws in
    (sum_at ios i ∷ sums, rw (here, start, run), (omega arith, at_next ios i len sums exact))

-- With fewer than 65535 channels of at least `len` shorts, `fastmix_add` writes the exact sum of
-- the channels for each sample: its `int` does not overflow.
pub fastmix_add-IsMixed :
    (ios : List FastmixIo) (out : List ℤ) (len : ℕ)
    → All (IsSampled len) ios
    → length ios < 65535
    → len ≤ length out
    → (sums : List ℤ) × (fastmix_add ios out (length ios) len ≡ some sums) × IsMixed ios 0 len sums
unfolding fastmix_add
fastmix_add-IsMixed ios out len all few room =
    add_samples-IsMixed len ios 0 len out all few (omega arith) room

-- The saturated value is a `short`, and no `short` is nearer to the value.
pub sature32-nearest :
    (t s : ℤ)
    → IsShort s
    → IsShort (sature32 t)
      × (pos_part (t -ℤ sature32 t) ≤ pos_part (t -ℤ s))
      × (neg_part (t -ℤ sature32 t) ≤ neg_part (t -ℤ s))
unfolding sature32 ◌-ℤ◌
sature32-nearest t s short = ground arith
