-- ===== src/EpCore/Waiting.antt =====
-- libckits/epCore.c: how long `epAction` waits.
use mcuproxy.Prelude.{ℕ, ◌+◌, ◌*◌, ◌/◌, ◌%◌, ◌^◌, ◌<◌, ◌≡◌, refl, ap, ◌∙◌, some, arith}
use mcuproxy.Prelude.Int.{pos, negsuc, ◌+ℤ◌, ◌*ℤ◌}
use mcuproxy.Prelude.Int32.{to_int, wrap_int, wrap_int_fits}
use mcuproxy.TimedEventQ.{div_1000}
use mcuproxy.TimeList.Time.{million, of_micros}
use mcuproxy.TimeList.Schedule.{micros, sooner}
use mcuproxy.TimeList.Calls.{IsTimed, agenda, elapsed, first_due, time_to_next_alarm_event-agenda}
use mcuproxy.TimeList.{TimeListType, infinity, time_to_next_alarm_event}
use mcuproxy.EpCore.Loop.{time_out}

millis_sum : (m : ℕ) → m / million * 1000 + m % million / 1000 ≡ m / 1000
millis_sum m = omega arith

whole : (a b : ℕ) → pos a *ℤ pos 1000 +ℤ pos b ≡ pos (a * 1000 + b)
unfolding ◌+ℤ◌ ◌*ℤ◌
whole a b = ground arith

time_out-micros : (m : ℕ) → m < 2 ^ 31 * 1000 → time_out (of_micros m) ≡ pos (m / 1000)
unfolding time_out of_micros div_1000
time_out-micros m small =
    let sum = millis_sum m in
    let small' : m / 1000 < 2 ^ 31 = omega arith in
    ap wrap_int (whole (m / million) (m % million / 1000) ∙ ap pos sum)
    ∙ wrap_int_fits (pos (m / 1000)) small' (omega arith)

time_out-infinity : time_out infinity ≡ negsuc 0
unfolding time_out div_1000 ◌+ℤ◌ ◌*ℤ◌ wrap_int to_int
time_out-infinity = refl

infinity-micros : of_micros (micros infinity) ≡ infinity
unfolding of_micros micros
infinity-micros = refl

-- In a loop with a valid queue, the time that `epAction` gives to `epoll_wait` is the whole
-- milliseconds up to the first event, if they are fewer than `2 ^ 31`. It is -1, so that the wait
-- has no limit, if the queue is empty and its head holds the time that `initTimeList` gave it.
pub time_out-first_due :
    (t : ℕ) {lst : TimeListType} (timed : IsTimed lst)
    → let tv = (time_to_next_alarm_event (of_micros t) (some lst)).0 in
      let due = first_due (micros lst.event_head) (sooner (elapsed t lst) (agenda lst)) in
      (due < 2 ^ 31 * 1000 → time_out tv ≡ pos (due / 1000))
      × (due ≡ micros infinity → time_out tv ≡ negsuc 0)
time_out-first_due t {lst} timed =
    let (tv, run, normal, same) = time_to_next_alarm_event-agenda t timed in
    let due = first_due (micros lst.event_head) (sooner (elapsed t lst) (agenda lst)) in
    let given : tv ≡ of_micros due = normal ∙ ap of_micros same in
    (
      λ small. rw (run, given) (time_out-micros due small),
      λ fresh. rw (run, given, fresh) (ap time_out infinity-micros ∙ time_out-infinity),
    )
