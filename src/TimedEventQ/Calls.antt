-- ===== src/TimedEventQ/Calls.antt =====
-- libnet/absTimerList.cpp: any sequence of calls on a queue.
use mcuproxy.Prelude.{
  ℕ, suc, ◌≡◌, ◌⊎◌, refl, sym, true, not, ◌||◌, List, [], ◌∷◌, All, arith, Option, none, some, ◌==◌,
  Bool-cases, Option-cases, inl, inr,
}
use mcuproxy.Prelude.Int.{ℤ, pos, negsuc}
use mathlib.Core.Path.{subst}
use mcuproxy.TimeList.Time.{Timeval, time_overthan}
use mcuproxy.TimeList.{next_token}
use mcuproxy.TimedEventQ.{
  EventType, EventUnit, TimedEventQ, new_timed_event_q, tv_infinity, add_event_internal,
  insert_unit, is_in, write_token, give_token, is_timed, rejects, time_plus, add_later_event,
  add_period_event, add_abs_timed_event, abstime_to_next_event, split_due, handle_alarm_event,
  find_unit, erase_unit, del_timed_event,
}
use mcuproxy.TimedEventQ.Sorted.{
  Sorted, AllFrom, Follows, split_due-IsSplit, append-Sorted, insert_unit-Sorted, erase_unit-Sorted,
}
use mcuproxy.TimedEventQ.Fired.{KeepsOrder, handle_units-Sorted}

-- A call with all that it is given: what `new` gives, the clock, the callbacks, and so on.
pub data Call : Type 0 where
  add_later add_period : Option EventUnit → Timeval → ℕ → EventType → ℕ → Call
  add_abs : Option EventUnit → Timeval → EventType → ℕ → Call
  del : (EventUnit → EventUnit) → ℕ → Call
  handle : (ℕ → TimedEventQ → TimedEventQ) → (ℕ → Timeval) → Call

abbrev pub queue_of : Option (ℤ × TimedEventQ) → Option TimedEventQ
queue_of none = none
queue_of (some (ret, q)) = some q

unfoldable pub act : TimedEventQ → Call → Option TimedEventQ
act q (add_later new_entry now mseconds type handler) =
    queue_of (add_later_event q new_entry now mseconds type handler)
act q (add_period new_entry now mseconds type handler) =
    queue_of (add_period_event q new_entry now mseconds type handler)
act q (add_abs new_entry abs_time type handler) =
    some (add_abs_timed_event q new_entry abs_time type handler).1
act q (del freed token) = some (del_timed_event freed q token).1
act q (handle on_timeout clock) = some (handle_alarm_event on_timeout clock q).1

unfoldable pub run : Option TimedEventQ → List Call → Option TimedEventQ
run none calls = none
run (some q) [] = some q
run (some q) (call ∷ calls) = run (act q call) calls

-- The callbacks of the call keep the order of the queue.
abbrev pub IsOrderly : Call → Type 0
IsOrderly (add_later new_entry now mseconds type handler) = Unit
IsOrderly (add_period new_entry now mseconds type handler) = Unit
IsOrderly (add_abs new_entry abs_time type handler) = Unit
IsOrderly (del freed token) = Unit
IsOrderly (handle on_timeout clock) = KeepsOrder on_timeout

insert_unit-is_in :
    (unit : EventUnit) (units : List EventUnit) → is_in unit.address (insert_unit unit units) ≡ true
unfolding is_in insert_unit
insert_unit-is_in unit [] = ground arith
insert_unit-is_in unit (cur ∷ rest) =
    elim (Bool-cases (time_overthan unit.tv_absolute cur.tv_absolute)) [
      | inl behind ↦ rw behind (ground (arith, insert_unit-is_in unit rest))
      | inr front ↦ rw front (ground arith)
    ]

write_token-AllFrom :
    (tv : Timeval) (address token : ℕ) (units : List EventUnit)
    → AllFrom tv units
    → AllFrom tv (write_token address token units)
unfolding write_token
write_token-AllFrom tv address token [] all = tt
write_token-AllFrom tv address token (cur ∷ rest) (first, all) =
    elim (Bool-cases (cur.address == address)) [
      | inl here ↦ rw here (first, all)
      | inr there ↦ rw there (first, write_token-AllFrom tv address token rest all)
    ]

write_token-Sorted :
    (address token : ℕ) (units : List EventUnit)
    → Sorted units
    → Sorted (write_token address token units)
unfolding write_token
write_token-Sorted address token [] s = tt
write_token-Sorted address token (cur ∷ rest) (all, s) =
    elim (Bool-cases (cur.address == address)) [
      | inl here ↦ rw here (all, s)
      | inr there ↦ rw there (
        write_token-AllFrom cur.tv_absolute address token rest all,
        write_token-Sorted address token rest s,
      )
    ]

-- The two parts of an addition, one after the other.
abbrev pub added : TimedEventQ → EventUnit → TimedEventQ
added q unit = record q {
  units = write_token unit.address q.list_token (insert_unit unit q.units);
  list_token = next_token q.list_token;
}

pub give_token-added :
    (q : TimedEventQ) (unit : EventUnit)
    → give_token unit.address (add_event_internal q unit) ≡ some (pos q.list_token, added q unit)
unfolding give_token add_event_internal
give_token-added q unit = rw (insert_unit-is_in unit q.units) refl

pub added-Sorted :
    (q : TimedEventQ) (unit : EventUnit) → Sorted q.units → Sorted (added q unit).units
added-Sorted q unit s =
    write_token-Sorted unit.address q.list_token (insert_unit unit q.units)
      (insert_unit-Sorted unit q.units s)

pub del_timed_event-Sorted :
    (freed : EventUnit → EventUnit) (q : TimedEventQ) (token : ℕ)
    → Sorted q.units
    → Sorted (del_timed_event freed q token).1.units
unfolding del_timed_event
del_timed_event-Sorted freed q token s = elim (Option-cases (find_unit token q.units)) [
  | inl nowhere ↦
      let e : del_timed_event freed q token ≡ (0, q) = rw (nowhere, del_timed_event) refl in
      subst (λ (r : ℕ × TimedEventQ). Sorted r.1.units) (sym e) s
  | inr (cur, found) ↦
      let e : del_timed_event freed q token
          ≡ ((freed cur).handler, record q { units = erase_unit token q.units }) =
        rw (found, del_timed_event) refl in
      subst (λ (r : ℕ × TimedEventQ). Sorted r.1.units) (sym e) (erase_unit-Sorted token q.units s)
]

-- What `addAbsTimedEvent` puts in.
abbrev pub at_time : TimedEventQ → EventUnit → Timeval → EventType → ℕ → EventUnit
at_time q new_entry abs_time type handler = record new_entry {
  tv_absolute = abs_time;
  type = type;
  handler = handler;
  id_token = q.list_token;
}

abbrev pub put_in : TimedEventQ → EventUnit → TimedEventQ
put_in q unit = record q { units = insert_unit unit q.units; list_token = next_token q.list_token }

pub handle_alarm_event-Sorted :
    (on_timeout : ℕ → TimedEventQ → TimedEventQ) (clock : ℕ → Timeval) (q : TimedEventQ)
    → KeepsOrder on_timeout
    → Sorted q.units
    → Sorted (handle_alarm_event on_timeout clock q).1.units
unfolding handle_alarm_event
handle_alarm_event-Sorted on_timeout clock q orderly s =
    let (due, rest) = split_due (clock 0) q.units in
    let split = split_due-IsSplit (clock 0) q.units s in
    let (s_due, s_rest) = append-Sorted due rest (subst Sorted (sym split.0) s) in
    handle_units-Sorted on_timeout (λ n. clock (suc n)) due (record q { units = rest }) orderly
      s_rest

-- A call succeeds, and leaves the queue in order.
abbrev pub Goes : Option TimedEventQ → Type 0
Goes r = (q' : TimedEventQ) × (r ≡ some q') × Sorted q'.units

pub act-Goes : (q : TimedEventQ) (call : Call) → IsOrderly call → Sorted q.units → Goes (act q call)
unfolding act add_later_event add_period_event add_abs_timed_event del_timed_event
    handle_alarm_event
act-Goes q (add_later none now mseconds type handler) orderly s = (q, refl, s)
act-Goes q (add_later (some new_entry) now mseconds type handler) orderly s =
    let unit = record new_entry {
      type = type;
      handler = handler;
      tv_absolute = time_plus now mseconds;
    } in
    elim (Bool-cases (rejects handler mseconds || not (is_timed type))) [
      | inl bad ↦ rw bad (q, refl, s)
      | inr good ↦ rw (good, give_token-added q unit) (added q unit, refl, added-Sorted q unit s)
    ]
act-Goes q (add_period none now mseconds type handler) orderly s = (q, refl, s)
act-Goes q (add_period (some new_entry) now mseconds type handler) orderly s =
    let unit = record new_entry {
      type = type;
      handler = handler;
      period = mseconds;
      tv_absolute = time_plus now mseconds;
    } in
    elim (Bool-cases (rejects handler mseconds || is_timed type)) [
      | inl bad ↦ rw bad (q, refl, s)
      | inr good ↦ rw (good, give_token-added q unit) (added q unit, refl, added-Sorted q unit s)
    ]
act-Goes q (add_abs none abs_time type handler) orderly s = (q, refl, s)
act-Goes q (add_abs (some new_entry) abs_time type handler) orderly s =
    elim (Bool-cases (handler == 0)) [
      | inl bad ↦ rw bad (q, refl, s)
      | inr good ↦
          let unit = at_time q new_entry abs_time type handler in
          rw good (put_in q unit, refl, insert_unit-Sorted unit q.units s)
    ]
act-Goes q (del freed token) orderly s =
    ((del_timed_event freed q token).1, refl, del_timed_event-Sorted freed q token s)
act-Goes q (handle on_timeout clock) orderly s = (
  (handle_alarm_event on_timeout clock q).1,
  refl,
  handle_alarm_event-Sorted on_timeout clock q orderly s,
)

pub run-Goes :
    (calls : List Call) (q : TimedEventQ)
    → All IsOrderly calls
    → Sorted q.units
    → Goes (run (some q) calls)
unfolding run
run-Goes [] q orderly s = (q, refl, s)
run-Goes (call ∷ calls) q (orderly, others) s =
    let (q', now, s') = act-Goes q call orderly s in
    let (q'', afterwards, s'') = run-Goes calls q' others s' in (q'', rw (now, run) afterwards, s'')

-- What `abstimeToNextEvent` tells of the units.
abbrev pub IsNext : List EventUnit → ℤ × Timeval → Type 0
IsNext units r =
    ((units ≡ []) × (r ≡ (negsuc 0, tv_infinity)))
    ⊎ ((tv : Timeval) × (r ≡ (pos 0, tv)) × AllFrom tv units)

Follows-self : (tv : Timeval) → Follows tv tv
unfolding time_overthan
Follows-self tv = ground arith

abstime_to_next_event-IsNext :
    (token : ℕ) (since : Timeval) (units : List EventUnit)
    → Sorted units
    → IsNext units
        (abstime_to_next_event (record { list_token = token; tv_last_sync = since; units = units }))
unfolding abstime_to_next_event
abstime_to_next_event-IsNext token since [] s = inl (refl, refl)
abstime_to_next_event-IsNext token since (cur ∷ rest) (all, s) =
    inr (cur.tv_absolute, refl, (Follows-self cur.tv_absolute, all))

-- From a new queue, no sequence of calls writes a token to a unit that is gone, if the callbacks keep
-- the order of the queue and nothing comes between the two parts of an addition. Afterwards the units
-- are in the order of their times; `abstimeToNextEvent` gives -1 and the infinite time if there are
-- none, and otherwise a time that no unit in the queue is before.
pub run-IsFirst :
    (now : Timeval) (calls : List Call)
    → All IsOrderly calls
    → (q : TimedEventQ) × (run (some (new_timed_event_q now)) calls ≡ some q)
      × Sorted q.units
      × IsNext q.units (abstime_to_next_event q)
run-IsFirst now calls orderly =
    let (q, e, s) =
      run-Goes calls (new_timed_event_q now) orderly (unfold new_timed_event_q in tt) in
    (q, e, s, abstime_to_next_event-IsNext q.list_token q.tv_last_sync q.units s)
