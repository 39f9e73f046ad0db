-- ===== src/TimedEventQ.antt =====
-- libnet/absTimerList.cpp and libnet/include/absTimerList.h: a queue of timed events at absolute
-- times. `mList` holds the units themselves, each with its address. What `gettimeofday` gives is an
-- argument, and so are what `new` gives (`none` for NULL, else a unit with the memory as it was), the
-- memory that `delete` leaves, and what a callback does with the queue. The threads that share a queue
-- take its mutex; a call that takes it twice is two functions here.
pub mod Plus
pub mod Sorted
pub mod Fired
pub mod Calls
pub mod Waiting
pub mod Liveness
mod Tests
use mcuproxy.Prelude.{
  ℕ, zero, suc, ◌+◌, ◌*◌, ◌/◌, ◌%◌, ◌^◌, Bool, true, false, ◌||◌, not, List, [], ◌∷◌, Option, none,
  some, ltb, ◌==◌, if◌then◌else◌,
}
use mcuproxy.Prelude.Int.{ℤ, pos, negsuc, sub_ℕ, ◌+ℤ◌, ◌-ℤ◌, ◌*ℤ◌, ltb_ℤ}
use mcuproxy.Prelude.Int32.{wrap_int}
use mcuproxy.TimeList.Time.{Timeval, million, time_interval, time_overthan}
use mcuproxy.TimeList.{next_token}

pub data EventType : Type 0 where
  timed_callback timed_recycle period_condition period_semaphore : EventType

pub record EventUnit : Type 0 where
  pub address : ℕ
  pub tv_absolute : Timeval
  pub type : EventType
  pub handler : ℕ
  pub id_token : ℕ
  pub period : ℕ

pub record TimedEventQ : Type 0 where
  pub list_token : ℕ
  pub tv_last_sync : Timeval
  pub units : List EventUnit

abbrev pub max_period_delay : ℕ
max_period_delay = 2146483

abbrev pub tv_infinity : Timeval
tv_infinity = record { tv_sec = pos 0x7FFFFFFF; tv_usec = pos 999999 }

unfoldable pub new_timed_event_q : Timeval → TimedEventQ
new_timed_event_q now = record { list_token = 1; tv_last_sync = now; units = [] }

-- The loop of `time_plus`.
unfoldable pub carry : ℕ → Timeval → Timeval
carry zero tv = tv
carry (suc fuel) tv = elim (ltb_ℤ tv.tv_usec (pos million)) [
  | true ↦ tv
  | false ↦ carry fuel (record { tv_sec = tv.tv_sec +ℤ pos 1; tv_usec = tv.tv_usec -ℤ pos million })
]

-- The product and the sum are 32 bits wide, so that 2148 rounds of the loop are enough.
unfoldable pub time_plus : Timeval → ℕ → Timeval
time_plus tv mseconds =
    if ltb max_period_delay mseconds
    then tv
    else carry 2148
        (record tv { tv_usec = wrap_int (tv.tv_usec +ℤ pos (mseconds * 1000 % 2 ^ 32)) })

unfoldable pub div_1000 : ℤ → ℤ
div_1000 (pos n) = pos (n / 1000)
div_1000 (negsuc n) = sub_ℕ 0 (suc n / 1000)

unfoldable pub time_minus : Timeval → Timeval → ℤ
time_minus tv2 tv1 =
    let sec = wrap_int (tv2.tv_sec -ℤ tv1.tv_sec) in
    let usec = wrap_int (tv2.tv_usec -ℤ tv1.tv_usec) in wrap_int (sec *ℤ pos 1000 +ℤ div_1000 usec)

-- In front of the first unit that is later, or at the end.
unfoldable pub insert_unit : EventUnit → List EventUnit → List EventUnit
insert_unit unit [] = unit ∷ []
insert_unit unit (cur ∷ rest) =
    let behind = insert_unit unit rest in
    if time_overthan unit.tv_absolute cur.tv_absolute then cur ∷ behind else unit ∷ cur ∷ rest

unfoldable pub add_event_internal : TimedEventQ → EventUnit → TimedEventQ
add_event_internal q unit = record q { units = insert_unit unit q.units }

-- Whether a unit stands at the address.
unfoldable pub is_in : ℕ → List EventUnit → Bool
is_in address [] = false
is_in address (cur ∷ rest) = if cur.address == address then true else is_in address rest

unfoldable pub write_token : ℕ → ℕ → List EventUnit → List EventUnit
write_token address token [] = []
write_token address token (cur ∷ rest) =
    if cur.address == address
    then record cur { id_token = token } ∷ rest
    else cur ∷ write_token address token rest

-- The second part of `addLaterEvent` and `addPeriodEvent`, under a mutex of its own: `none` if the
-- unit is gone by then, so that the token would be written to memory that is not its own.
unfoldable pub give_token : ℕ → TimedEventQ → Option (ℤ × TimedEventQ)
give_token address q =
    if is_in address q.units
    then some (
      pos q.list_token,
      record q {
        units = write_token address q.list_token q.units;
        list_token = next_token q.list_token;
      },
    )
    else none

abbrev pub is_timed : EventType → Bool
is_timed timed_callback = true
is_timed timed_recycle = true
is_timed period_condition = false
is_timed period_semaphore = false

abbrev pub rejects : ℕ → ℕ → Bool
rejects handler mseconds = (handler == 0) || ltb max_period_delay mseconds

unfoldable pub add_later_event :
    TimedEventQ → Option EventUnit → Timeval → ℕ → EventType → ℕ → Option (ℤ × TimedEventQ)
add_later_event q none now mseconds type handler = some (negsuc 0, q)
add_later_event q (some new_entry) now mseconds type handler =
    let unit = record new_entry {
      type = type;
      handler = handler;
      tv_absolute = time_plus now mseconds;
    } in
    if rejects handler mseconds || not (is_timed type)
    then some (negsuc 0, q)
    else give_token unit.address (add_event_internal q unit)

unfoldable pub add_period_event :
    TimedEventQ → Option EventUnit → Timeval → ℕ → EventType → ℕ → Option (ℤ × TimedEventQ)
add_period_event q none now mseconds type handler = some (negsuc 0, q)
add_period_event q (some new_entry) now mseconds type handler =
    let unit = record new_entry {
      type = type;
      handler = handler;
      period = mseconds;
      tv_absolute = time_plus now mseconds;
    } in
    if rejects handler mseconds || is_timed type
    then some (negsuc 0, q)
    else give_token unit.address (add_event_internal q unit)

-- The token is given under the same mutex, and the type is not looked at.
unfoldable pub add_abs_timed_event :
    TimedEventQ → Option EventUnit → Timeval → EventType → ℕ → ℤ × TimedEventQ
add_abs_timed_event q none abs_time type handler = (negsuc 0, q)
add_abs_timed_event q (some new_entry) abs_time type handler =
    let unit = record new_entry {
      tv_absolute = abs_time;
      type = type;
      handler = handler;
      id_token = q.list_token;
    } in
    if handler == 0 then (negsuc 0, q) else (
      pos q.list_token,
      record q { units = insert_unit unit q.units; list_token = next_token q.list_token },
    )

unfoldable pub abstime_to_next_event : TimedEventQ → ℤ × Timeval
abstime_to_next_event q = elim q.units [
  | [] ↦ (negsuc 0, tv_infinity)
  | cur ∷ rest ↦ (pos 0, cur.tv_absolute)
]

unfoldable pub time_to_next_event : TimedEventQ → Timeval → ℤ × Timeval
time_to_next_event q now =
    let (ret, tv_ret) = abstime_to_next_event q in (ret, time_interval tv_ret now)

-- The units in front of the first that is later than `now`, and the others.
unfoldable pub split_due : Timeval → List EventUnit → List EventUnit × List EventUnit
split_due now [] = ([], [])
split_due now (cur ∷ rest) =
    let (due, later) = split_due now rest in
    if time_overthan now cur.tv_absolute then (cur ∷ due, later) else ([], cur ∷ rest)

-- What becomes of the handler of a unit whose time has come.
pub data Effect : Type 0 where
  called deleted signalled posted : ℕ → Effect

abbrev pub effect_of : EventType → ℕ → Effect
effect_of timed_callback handler = called handler
effect_of timed_recycle handler = deleted handler
effect_of period_condition handler = signalled handler
effect_of period_semaphore handler = posted handler

abbrev pub effect : EventUnit → Effect
effect entry = effect_of entry.type entry.handler

unfoldable pub rearm : Timeval → EventUnit → EventUnit
rearm now entry = record entry { tv_absolute = time_plus now entry.period }

abbrev pub pass_on :
    EventType → (ℕ → TimedEventQ → TimedEventQ) → Timeval → EventUnit → TimedEventQ → TimedEventQ
pass_on timed_callback on_timeout now entry q = on_timeout entry.handler q
pass_on timed_recycle on_timeout now entry q = q
pass_on period_condition on_timeout now entry q = add_event_internal q (rearm now entry)
pass_on period_semaphore on_timeout now entry q = add_event_internal q (rearm now entry)

-- The units taken out of the queue, one after the other. `clock n` is the time when the n-th of them
-- is handled.
unfoldable pub handle_units :
    (ℕ → TimedEventQ → TimedEventQ)
    → (ℕ → Timeval)
    → List EventUnit
    → TimedEventQ
    → List Effect × TimedEventQ
handle_units on_timeout clock [] q = ([], q)
handle_units on_timeout clock (entry ∷ rest) q =
    let (effects, q') =
      handle_units on_timeout (λ n. clock (suc n)) rest
        (pass_on entry.type on_timeout (clock 0) entry q) in
    (effect entry ∷ effects, q')

-- The first reading of the clock decides which units are due.
unfoldable pub handle_alarm_event :
    (ℕ → TimedEventQ → TimedEventQ) → (ℕ → Timeval) → TimedEventQ → List Effect × TimedEventQ
handle_alarm_event on_timeout clock q =
    let (due, later) = split_due (clock 0) q.units in
    handle_units on_timeout (λ n. clock (suc n)) due (record q { units = later })

unfoldable pub find_unit : ℕ → List EventUnit → Option EventUnit
find_unit token [] = none
find_unit token (cur ∷ rest) = if cur.id_token == token then some cur else find_unit token rest

unfoldable pub erase_unit : ℕ → List EventUnit → List EventUnit
erase_unit token [] = []
erase_unit token (cur ∷ rest) = if cur.id_token == token then rest else cur ∷ erase_unit token rest

-- The handler is read after the unit is deleted: `freed` is what `delete` leaves in the memory.
unfoldable pub del_timed_event : (EventUnit → EventUnit) → TimedEventQ → ℕ → ℕ × TimedEventQ
del_timed_event freed q token = elim (find_unit token q.units) [
  | none ↦ (0, q)
  | some cur ↦ ((freed cur).handler, record q { units = erase_unit token q.units })
]

unfoldable pub is_empty : TimedEventQ → Bool
is_empty q = elim q.units [ [] ↦ true | cur ∷ rest ↦ false ]

-- The token and the milliseconds of each unit, as printed.
unfoldable pub dump : Timeval → List EventUnit → List (ℕ × ℤ)
dump now [] = []
dump now (cur ∷ rest) = (cur.id_token, time_minus cur.tv_absolute now) ∷ dump now rest
