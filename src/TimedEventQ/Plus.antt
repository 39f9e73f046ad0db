-- ===== src/TimedEventQ/Plus.antt =====
-- libnet/absTimerList.cpp: `time_plus` on numbers of microseconds.
use mcuproxy.Prelude.{
  ℕ, zero, suc, ◌+◌, ◌-◌, ◌*◌, ◌/◌, ◌%◌, ◌^◌, ◌≤◌, ◌<◌, ◌≡◌, ◌∙◌, ap, Bool-cases, inl, inr, true,
  false, ltb, arith,
}
use mcuproxy.Prelude.Int.{ℤ, pos, ◌+ℤ◌, ◌-ℤ◌, ltb_ℤ}
use mcuproxy.Prelude.Int32.{wrap_int, to_int}
use mcuproxy.TimeList.Time.{Timeval, million, of_micros}
use mcuproxy.TimedEventQ.{carry, time_plus, max_period_delay}

abbrev timeval : ℤ → ℤ → Timeval
timeval sec usec = record { tv_sec = sec; tv_usec = usec }

one_round :
    (s m : ℕ)
    → million ≤ m
    → timeval (pos s +ℤ pos 1) (pos m -ℤ pos million) ≡ timeval (pos (s + 1)) (pos (m - million))
unfolding ◌+ℤ◌ ◌-ℤ◌
one_round s m h = ground arith

-- Enough fuel for so many microseconds.
carry-micros :
    (fuel s m : ℕ)
    → m < fuel * million
    → carry fuel (record { tv_sec = pos s; tv_usec = pos m })
      ≡ record { tv_sec = pos (s + m / million); tv_usec = pos (m % million) }
unfolding carry
carry-micros zero s m h = absurd (omega arith)
carry-micros (suc fuel) s m h = elim (Bool-cases (ltb m million)) [
  | inl less ↦
      let done : ltb_ℤ (pos m) (pos million) ≡ true = ground (arith, less) in
      rw (done, carry) (ground (arith, less))
  | inr more ↦
      let big : million ≤ m = ground (arith, more) in
      let rest : m - million < fuel * million = omega arith in
      let further : ltb_ℤ (pos m) (pos million) ≡ false = ground (arith, more) in
      rw (further, carry)
        (ap (carry fuel) (one_round s m big)
          ∙ carry-micros fuel (s + 1) (m - million) rest
          ∙ ground (arith, more))
]

-- For a delay of at most MAX_PERIOD_DELAY milliseconds, `time_plus` of a time in microseconds is the
-- time that many milliseconds later, with the microseconds below a million: nothing wraps, and the
-- rounds of the loop are enough.
pub time_plus-micros :
    (n mseconds : ℕ)
    → mseconds ≤ max_period_delay
    → time_plus (of_micros n) mseconds ≡ of_micros (n + mseconds * 1000)
unfolding time_plus of_micros
time_plus-micros n mseconds h =
    let sum : wrap_int (pos (n % million) +ℤ pos (mseconds * 1000 % 2 ^ 32))
        ≡ pos (n % million + mseconds * 1000) =
      unfold wrap_int to_int ◌+ℤ◌ in ground (arith, h) in
    let guard : ltb max_period_delay mseconds ≡ false = ground arith in
    rw (guard, sum)
      (carry-micros 2148 (n / million) (n % million + mseconds * 1000) (omega arith) ∙ ground arith)
