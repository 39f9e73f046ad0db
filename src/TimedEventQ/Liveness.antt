-- ===== src/TimedEventQ/Liveness.antt =====
-- libnet/absTimerList.cpp: what a caller of `addLaterEvent` gets.
use mcuproxy.Prelude.{
  ℕ, ◌≡◌, refl, sym, true, false, not, ◌||◌, List, [], ◌∷◌, All, Option, none, some, ◌==◌,
  Bool-cases, Option-cases, inl, inr,
}
use mcuproxy.Prelude.Int.{pos}
use mathlib.Core.Path.{subst}
use mathlib.Core.List.{Memᴰ}
use mcuproxy.TimeList.Time.{Timeval, time_overthan}
use mcuproxy.TimedEventQ.{
  timed_callback, EventUnit, TimedEventQ, called, insert_unit, is_timed, rejects, time_plus,
  add_later_event, add_period_event, add_abs_timed_event, handle_alarm_event, find_unit, erase_unit,
  del_timed_event,
}
use mcuproxy.TimedEventQ.Sorted.{Sorted, insert_unit-Sorted}
use mcuproxy.TimedEventQ.Calls.{
  at_time, put_in, del_timed_event-Sorted, handle_alarm_event-Sorted, Call, add_later, add_period,
  add_abs, del, handle, act, run, IsOrderly, added, added-Sorted, give_token-added,
}
use mcuproxy.TimedEventQ.Waiting.{
  IsFresh, KeepsUnits, insert_unit-keeps, write_token-keeps, erase_unit-keeps, added_units-own,
  handle_alarm_event-waits, handle_alarm_event-fires,
}

abbrev pub IsApart : EventUnit → Option EventUnit → Type 0
IsApart u none = Unit
IsApart u (some new_entry) = u.address == new_entry.address ≡ false

-- A call that leaves the unit in the queue: `new` gives other memory, it deletes another token, and
-- the clock has not come to the unit's time; callbacks keep the unit in the queue, and the queue in
-- order.
abbrev pub Spares : EventUnit → Call → Type 0
Spares u (add_later new_entry now mseconds type handler) = IsApart u new_entry
Spares u (add_period new_entry now mseconds type handler) = IsApart u new_entry
Spares u (add_abs new_entry abs_time type handler) = Unit
Spares u (del freed token) = u.id_token == token ≡ false
Spares u (handle on_timeout clock) =
    (time_overthan (clock 0) u.tv_absolute ≡ false) × KeepsUnits on_timeout u

added-keeps :
    (u : EventUnit) (q : TimedEventQ) (v : EventUnit)
    → u.address == v.address ≡ false
    → Memᴰ u q.units
    → Memᴰ u (added q v).units
added-keeps u q v apart m =
    write_token-keeps u v.address q.list_token (insert_unit v q.units) apart
      (insert_unit-keeps u v q.units m)

del_timed_event-keeps :
    (freed : EventUnit → EventUnit) (u : EventUnit) (q : TimedEventQ) (token : ℕ)
    → u.id_token == token ≡ false
    → Memᴰ u q.units
    → Memᴰ u (del_timed_event freed q token).1.units
unfolding del_timed_event
del_timed_event-keeps freed u q token other m = elim (Option-cases (find_unit token q.units)) [
  | inl nowhere ↦
      let e : del_timed_event freed q token ≡ (0, q) = rw (nowhere, del_timed_event) refl in
      subst (λ (r : ℕ × TimedEventQ). Memᴰ u r.1.units) (sym e) m
  | inr (cur, found) ↦
      let e : del_timed_event freed q token
          ≡ ((freed cur).handler, record q { units = erase_unit token q.units }) =
        rw (found, del_timed_event) refl in
      subst (λ (r : ℕ × TimedEventQ). Memᴰ u r.1.units) (sym e)
        (erase_unit-keeps u token q.units other m)
]

-- After a call that goes, the unit is still there.
abbrev pub Kept : EventUnit → Option TimedEventQ → Type 0
Kept u r = (q' : TimedEventQ) × (r ≡ some q') × Sorted q'.units × Memᴰ u q'.units

act-Kept :
    (u : EventUnit) (q : TimedEventQ) (call : Call)
    → IsOrderly call
    → Spares u call
    → Sorted q.units
    → Memᴰ u q.units
    → Kept u (act q call)
unfolding act add_later_event add_period_event add_abs_timed_event
act-Kept u q (add_later none now mseconds type handler) orderly spares s m = (q, refl, s, m)
act-Kept u q (add_later (some new_entry) now mseconds type handler) orderly spares s m =
    let unit = record new_entry {
      type = type;
      handler = handler;
      tv_absolute = time_plus now mseconds;
    } in
    elim (Bool-cases (rejects handler mseconds || not (is_timed type))) [
      | inl bad ↦ rw bad (q, refl, s, m)
      | inr good ↦
          rw (good, give_token-added q unit)
            (added q unit, refl, added-Sorted q unit s, added-keeps u q unit spares m)
    ]
act-Kept u q (add_period none now mseconds type handler) orderly spares s m = (q, refl, s, m)
act-Kept u q (add_period (some new_entry) now mseconds type handler) orderly spares s m =
    let unit = record new_entry {
      type = type;
      handler = handler;
      period = mseconds;
      tv_absolute = time_plus now mseconds;
    } in
    elim (Bool-cases (rejects handler mseconds || is_timed type)) [
      | inl bad ↦ rw bad (q, refl, s, m)
      | inr good ↦
          rw (good, give_token-added q unit)
            (added q unit, refl, added-Sorted q unit s, added-keeps u q unit spares m)
    ]
act-Kept u q (add_abs none abs_time type handler) orderly spares s m = (q, refl, s, m)
act-Kept u q (add_abs (some new_entry) abs_time type handler) orderly spares s m =
    elim (Bool-cases (handler == 0)) [
      | inl bad ↦ rw bad (q, refl, s, m)
      | inr good ↦
          let unit = at_time q new_entry abs_time type handler in
          rw good (
            put_in q unit,
            refl,
            insert_unit-Sorted unit q.units s,
            insert_unit-keeps u unit q.units m,
          )
    ]
act-Kept u q (del freed token) orderly spares s m = (
  (del_timed_event freed q token).1,
  refl,
  del_timed_event-Sorted freed q token s,
  del_timed_event-keeps freed u q token spares m,
)
act-Kept u q (handle on_timeout clock) orderly (early, keeps) s m = (
  (handle_alarm_event on_timeout clock q).1,
  refl,
  handle_alarm_event-Sorted on_timeout clock q orderly s,
  handle_alarm_event-waits on_timeout clock u q keeps s early m,
)

run-Kept :
    (u : EventUnit) (calls : List Call) (q : TimedEventQ)
    → All IsOrderly calls
    → All (Spares u) calls
    → Sorted q.units
    → Memᴰ u q.units
    → Kept u (run (some q) calls)
unfolding run
run-Kept u [] q orderly spares s m = (q, refl, s, m)
run-Kept u (call ∷ calls) q (orderly, others) (spared, spares) s m =
    let (q', now, s', m') = act-Kept u q call orderly spared s m in
    let (q'', afterwards, s'', m'') = run-Kept u calls q' others spares s' m' in
    (q'', rw (now, run) afterwards, s'', m'')

-- The unit that `addLaterEvent` puts in.
abbrev pub later_unit : TimedEventQ → EventUnit → Timeval → ℕ → ℕ → EventUnit
later_unit q new_entry now mseconds handler = record new_entry {
  type = timed_callback;
  handler = handler;
  tv_absolute = time_plus now mseconds;
  id_token = q.list_token;
}

-- On a queue in order, `addLaterEvent` of a callback that is not NULL, after at most MAX_PERIOD_DELAY
-- milliseconds, with memory from `new` that no unit of the queue has, returns the token of the queue.
-- Then any calls follow that spare the unit: they do not delete its token, `new` gives them other
-- memory, the clock of no handleAlarmEvent has come to its time, and callbacks keep the order and the
-- units of the queue. They succeed, and the first handleAlarmEvent with the clock at the unit's time,
-- or later, calls its handler.
pub add_later_event-fires :
    (q : TimedEventQ) (new_entry : EventUnit) (now : Timeval) (mseconds handler : ℕ)
    (calls : List Call) (on_timeout : ℕ → TimedEventQ → TimedEventQ) (clock : ℕ → Timeval)
    → Sorted q.units
    → IsFresh new_entry.address q.units
    → rejects handler mseconds ≡ false
    → All IsOrderly calls
    → All (Spares (later_unit q new_entry now mseconds handler)) calls
    → time_overthan (clock 0) (time_plus now mseconds) ≡ true
    → (q1 : TimedEventQ) × (q2 : TimedEventQ) × (add_later_event q
          (some new_entry)
          now
          mseconds
          timed_callback
          handler
        ≡ some (pos q.list_token, q1))
      × (run (some q1) calls ≡ some q2)
      × Memᴰ (called handler) (handle_alarm_event on_timeout clock q2).0
unfolding add_later_event
add_later_event-fires q new_entry now mseconds handler calls on_timeout clock s fresh good orderly
      spares ready =
    let unit : EventUnit = record new_entry {
      type = timed_callback;
      handler = handler;
      tv_absolute = time_plus now mseconds;
    } in
    let u = later_unit q new_entry now mseconds handler in
    let (q2, ran, s2, m2) =
      run-Kept u calls (added q unit) orderly spares (added-Sorted q unit s)
        (added_units-own unit q.list_token q.units fresh) in
    (
      added q unit,
      q2,
      rw (good, give_token-added q unit) refl,
      ran,
      handle_alarm_event-fires on_timeout clock u q2 s2 ready m2,
    )
