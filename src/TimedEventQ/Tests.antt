-- ===== src/TimedEventQ/Tests.antt =====
-- libnet/absTimerList.cpp: a queue of three units, and the theorems at it.
use mcuproxy.Prelude.{ℕ, ◌≡◌, refl, List, [], ◌∷◌, map, some}
use mcuproxy.Prelude.Int.{pos, ◌+ℤ◌, ◌-ℤ◌}
use mcuproxy.Prelude.Int32.{wrap_int, to_int}
use mathlib.Core.List.{Memᴰ}
use mcuproxy.TimeList.Time.{Timeval, of_micros, time_overthan, time_interval}
use mcuproxy.TimedEventQ.Sorted.{Sorted}
use mcuproxy.TimedEventQ.Fired.{Fired}
use mcuproxy.TimedEventQ.Calls.{
  Call, add_later, add_period, add_abs, del, handle, act, run, IsNext, run-IsFirst,
}
use mcuproxy.TimedEventQ.Liveness.{add_later_event-fires}
use mcuproxy.TimedEventQ.{
  timed_callback, timed_recycle, period_semaphore, EventUnit, TimedEventQ, called, posted, carry,
  time_plus, new_timed_event_q, insert_unit, add_event_internal, is_in, write_token, give_token,
  add_later_event, add_period_event, add_abs_timed_event, abstime_to_next_event, split_due, rearm,
  handle_units, handle_alarm_event, find_unit, erase_unit, del_timed_event,
}

code : Unit {0}
unfolding act run carry time_plus new_timed_event_q insert_unit add_event_internal is_in write_token
    give_token add_later_event add_period_event add_abs_timed_event abstime_to_next_event split_due
    rearm handle_units handle_alarm_event find_unit erase_unit del_timed_event time_overthan
    time_interval of_micros wrap_int to_int ◌+ℤ◌ ◌-ℤ◌
code = tt

abbrev tv : ℕ → Timeval
tv n = record { tv_sec = pos n; tv_usec = pos 0 }

-- Memory as `new` gives it.
abbrev memory : ℕ → EventUnit
memory a = record {
  address = a;
  tv_absolute = tv 0;
  type = timed_callback;
  handler = 0;
  id_token = 0;
  period = 0;
}

abbrev quiet : ℕ → TimedEventQ → TimedEventQ
quiet handler q = q

abbrev calls : List Call
calls =
    add_later (some (memory 100)) (tv 10) 3000 timed_callback 7
    ∷ add_period (some (memory 200)) (tv 10) 1000 period_semaphore 8
    ∷ add_abs (some (memory 300)) (tv 12) timed_recycle 9
    ∷ handle quiet (λ n. tv 11)
    ∷ del (λ u. u) 3
    ∷ []

run-IsFirst_example :
    (q : TimedEventQ) × (run (some (new_timed_event_q (tv 10))) calls ≡ some q)
    × Sorted q.units
    × IsNext q.units (abstime_to_next_event q)
run-IsFirst_example = run-IsFirst (tv 10) calls (tt, (tt, (tt, ((λ handler q s. s), (tt, tt)))))

-- A callback due at 11 s, a semaphore posted every second, and a callback due at 15 s.
abbrev three : TimedEventQ
three = record {
  list_token = 4;
  tv_last_sync = tv 10;
  units =
      record (memory 100) { tv_absolute = tv 11; handler = 7; id_token = 1 }
      ∷ record (memory 200) {
        tv_absolute = tv 12;
        type = period_semaphore;
        handler = 8;
        id_token = 2;
        period = 1000;
      }
      ∷ record (memory 300) { tv_absolute = tv 15; handler = 9; id_token = 3 }
      ∷ [];
}

three-Sorted : Sorted three.units
unfolding time_overthan
three-Sorted = ((refl, (refl, tt)), ((refl, tt), (tt, tt)))

-- The semaphore is posted, and its unit waits again in front of the callback due at 15 s.
three_handled :
    ((handle_alarm_event quiet (λ n. tv 13) three).0 ≡ called 7 ∷ posted 8 ∷ [])
    × (map (λ u. u.id_token) (handle_alarm_event quiet (λ n. tv 13) three).1.units ≡ 2 ∷ 3 ∷ [])
unfolding handle_alarm_event handle_units split_due rearm time_plus carry wrap_int to_int
    insert_unit add_event_internal time_overthan ◌+ℤ◌ ◌-ℤ◌
three_handled = (refl, refl)

abbrev spared : List Call
spared =
    add_later (some (memory 500)) (tv 16) 1000 timed_callback 21
    ∷ handle quiet (λ n. tv 17)
    ∷ del (λ u. u) 3
    ∷ []

add_later_event-fires_example :
    (q1 : TimedEventQ) × (q2 : TimedEventQ) × (add_later_event three
        (some (memory 400))
        (tv 14)
        5000
        timed_callback
        20
      ≡ some (pos three.list_token, q1))
    × (run (some q1) spared ≡ some q2)
    × Memᴰ (called 20) (handle_alarm_event quiet (λ n. tv 19) q2).0
add_later_event-fires_example =
    add_later_event-fires three (memory 400) (tv 14) 5000 20 spared quiet (λ n. tv 19) three-Sorted
      (refl, (refl, (refl, tt))) refl (tt, ((λ handler q s. s), (tt, tt)))
      (
        refl,
        (
          (
            (unfold time_overthan time_plus carry wrap_int to_int ◌+ℤ◌ ◌-ℤ◌ in refl),
            λ handler q m. m,
          ),
          (refl, tt),
        ),
      )
      (unfold time_overthan time_plus carry wrap_int to_int ◌+ℤ◌ ◌-ℤ◌ in refl)
