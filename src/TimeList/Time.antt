-- ===== src/TimeList/Time.antt =====
-- libckits/timeList.c: `struct timeval` and the arithmetic on it. Both fields are a signed `long` of
-- 32 bits. The sum of seconds that a deleted event leaves behind wraps; the differences and the
-- microseconds are integers that a `long` is taken to hold.
use mcuproxy.Prelude.Int32.{to_int, wrap_int}
use mcuproxy.Prelude.{
  ◌*◌, ◌^◌, ◌<◌, refl, ap, ◌∙◌, inl, inr, Bool-cases, ℕ, ◌+◌, ◌-◌, ◌/◌, ◌%◌, ◌≡◌, Bool, ◌||◌, ◌&&◌,
  not, arith, leb, if◌then◌else◌,
}
use mcuproxy.Prelude.Int.{ℤ, pos, ◌+ℤ◌, ◌-ℤ◌, ltb_ℤ, eqb_ℤ}

pub record Timeval : Type 0 where
  pub tv_sec : ℤ
  pub tv_usec : ℤ

abbrev pub million : ℕ
million = 1000000

abbrev pub delay_zero : Timeval
delay_zero = record { tv_sec = pos 0; tv_usec = pos 0 }

-- The borrow of a second where the microseconds have gone below 0.
unfoldable pub borrow : Timeval → Timeval
borrow ret =
    if ltb_ℤ ret.tv_usec (pos 0)
    then record { tv_sec = ret.tv_sec -ℤ pos 1; tv_usec = ret.tv_usec +ℤ pos million }
    else ret

unfoldable pub time_interval : Timeval → Timeval → Timeval
unfolding borrow
time_interval tv2 tv1 =
    let ret =
      borrow (record { tv_sec = tv2.tv_sec -ℤ tv1.tv_sec; tv_usec = tv2.tv_usec -ℤ tv1.tv_usec }) in
    if ltb_ℤ ret.tv_sec (pos 0) then delay_zero else ret

-- tv2 >= tv1
unfoldable pub time_overthan : Timeval → Timeval → Bool
time_overthan tv2 tv1 =
    ltb_ℤ tv1.tv_sec tv2.tv_sec
    || (eqb_ℤ tv2.tv_sec tv1.tv_sec && not (ltb_ℤ tv2.tv_usec tv1.tv_usec))

-- The sum that `delAlarmEventNode` leaves in the next node.
unfoldable pub add_remain : Timeval → Timeval → Timeval
add_remain next entry =
    let sec = wrap_int (next.tv_sec +ℤ entry.tv_sec) in
    let usec = next.tv_usec +ℤ entry.tv_usec in
    if ltb_ℤ usec (pos million)
    then record { tv_sec = sec; tv_usec = usec }
    else record { tv_sec = wrap_int (sec +ℤ pos 1); tv_usec = usec -ℤ pos million }

-- `n` microseconds.
unfoldable pub of_micros : ℕ → Timeval
of_micros n = record { tv_sec = pos (n / million); tv_usec = pos (n % million) }

-- The difference stops at 0.
pub time_interval-micros : (a b : ℕ) → time_interval (of_micros a) (of_micros b) ≡ of_micros (a - b)
unfolding of_micros time_interval ◌+ℤ◌ ◌-ℤ◌
time_interval-micros a b = ground arith

pub time_overthan-micros : (a b : ℕ) → time_overthan (of_micros a) (of_micros b) ≡ leb b a
unfolding of_micros time_overthan
time_overthan-micros a b = ground arith

-- `n` microseconds, as far as the seconds have room in 32 bits.
unfoldable pub wrapped : ℕ → Timeval
wrapped n = record { tv_sec = to_int (n / million % 2 ^ 32); tv_usec = pos (n % million) }

pub wrapped_fits : (n : ℕ) → n < 2 ^ 31 * million → wrapped n ≡ of_micros n
unfolding wrapped of_micros to_int
wrapped_fits n h = ground arith

wrap_int-pos : (n : ℕ) → wrap_int (pos n) ≡ to_int (n % 2 ^ 32)
unfolding wrap_int
wrap_int-pos n = ap to_int (omega arith)

wrap_int-next : (n : ℕ) → wrap_int (to_int (n % 2 ^ 32) +ℤ pos 1) ≡ to_int ((n + 1) % 2 ^ 32)
unfolding wrap_int to_int ◌+ℤ◌
wrap_int-next n = ground arith

pos_sum : (a b : ℕ) → pos a +ℤ pos b ≡ pos (a + b)
unfolding ◌+ℤ◌
pos_sum a b = ground arith

pub add_remain-micros : (a b : ℕ) → add_remain (of_micros a) (of_micros b) ≡ wrapped (a + b)
unfolding of_micros add_remain wrapped
add_remain-micros a b =
    let sec = pos_sum (a / million) (b / million) ∙ refl in
    let usec = pos_sum (a % million) (b % million) in
    elim (Bool-cases (ltb_ℤ (pos (a % million + b % million)) (pos million))) [
      | inl low ↦
          let sum : a / million + b / million ≡ (a + b) / million = ground arith in
          let rest : a % million + b % million ≡ (a + b) % million = ground arith in
          rw (sec, usec, wrap_int-pos (a / million + b / million)) (rw low (rw (sum, rest) refl))
      | inr high ↦
          let sum : a / million + b / million + 1 ≡ (a + b) / million = ground arith in
          let rest : pos (a % million + b % million) -ℤ pos million ≡ pos ((a + b) % million) =
            unfold ◌-ℤ◌ in ground arith in
          rw (sec, usec, wrap_int-pos (a / million + b / million))
            (rw (high, wrap_int-next (a / million + b / million), sum, rest) refl)
    ]
