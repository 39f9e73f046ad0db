-- ===== src/TimedEventQ/Fired.antt =====
-- libnet/absTimerList.cpp: which units `handleAlarmEvent` fires, and what is left in the queue.
use mcuproxy.Prelude.{ℕ, suc, ◌+◌, ◌≡◌, refl, ap, Bool, List, [], ◌∷◌, ◌++◌, map}
use mcuproxy.TimeList.Time.{Timeval}
use mcuproxy.TimedEventQ.{
  EventType, timed_callback, timed_recycle, period_condition, period_semaphore, EventUnit,
  TimedEventQ, Effect, effect, rearm, pass_on, add_event_internal, handle_units,
}
use mcuproxy.TimedEventQ.Sorted.{Sorted, IsSplit, insert_unit-Sorted, bag}

-- A periodic unit is in the queue again, at its next time.
abbrev pub again : EventType → Timeval → EventUnit → List EventUnit
again timed_callback now entry = []
again timed_recycle now entry = []
again period_condition now entry = rearm now entry ∷ []
again period_semaphore now entry = rearm now entry ∷ []

abbrev pub all_again : (ℕ → Timeval) → List EventUnit → List EventUnit
all_again clock [] = []
all_again clock (entry ∷ rest) =
    again entry.type (clock 0) entry ++ all_again (λ n. clock (suc n)) rest

-- A callback that does nothing to the queue.
abbrev pub IsQuiet : (ℕ → TimedEventQ → TimedEventQ) → Type 0
IsQuiet on_timeout = (handler : ℕ) (q : TimedEventQ) → on_timeout handler q ≡ q

-- A callback that keeps the order of the queue.
abbrev pub KeepsOrder : (ℕ → TimedEventQ → TimedEventQ) → Type 0
KeepsOrder on_timeout =
    (handler : ℕ) (q : TimedEventQ) → Sorted q.units → Sorted (on_timeout handler q).units

pass_on-Sorted :
    (type : EventType) (on_timeout : ℕ → TimedEventQ → TimedEventQ) (now : Timeval)
    (entry : EventUnit) (q : TimedEventQ)
    → KeepsOrder on_timeout
    → Sorted q.units
    → Sorted (pass_on type on_timeout now entry q).units
unfolding add_event_internal
pass_on-Sorted timed_callback on_timeout now entry q keeps s = keeps entry.handler q s
pass_on-Sorted timed_recycle on_timeout now entry q keeps s = s
pass_on-Sorted period_condition on_timeout now entry q keeps s =
    insert_unit-Sorted (rearm now entry) q.units s
pass_on-Sorted period_semaphore on_timeout now entry q keeps s =
    insert_unit-Sorted (rearm now entry) q.units s

pub handle_units-Sorted :
    (on_timeout : ℕ → TimedEventQ → TimedEventQ) (clock : ℕ → Timeval) (units : List EventUnit)
    (q : TimedEventQ)
    → KeepsOrder on_timeout
    → Sorted q.units
    → Sorted (handle_units on_timeout clock units q).1.units
unfolding handle_units
handle_units-Sorted on_timeout clock [] q keeps s = s
handle_units-Sorted on_timeout clock (entry ∷ rest) q keeps s =
    handle_units-Sorted on_timeout (λ n. clock (suc n)) rest
      (pass_on entry.type on_timeout (clock 0) entry q) keeps
      (pass_on-Sorted entry.type on_timeout (clock 0) entry q keeps s)

pub handle_units-effects :
    (on_timeout : ℕ → TimedEventQ → TimedEventQ) (clock : ℕ → Timeval) (units : List EventUnit)
    (q : TimedEventQ)
    → (handle_units on_timeout clock units q).0 ≡ map effect units
unfolding handle_units
handle_units-effects on_timeout clock [] q = refl
handle_units-effects on_timeout clock (entry ∷ rest) q =
    ap (λ es. effect entry ∷ es)
      (handle_units-effects on_timeout (λ n. clock (suc n)) rest
        (pass_on entry.type on_timeout (clock 0) entry q))

-- `due` and `later` are the queue; those due are fired in their order, and the queue holds the
-- later ones and the periodic ones again.
abbrev pub Fired :
    (ℕ → Timeval)
    → TimedEventQ
    → List EventUnit × List EventUnit
    → List Effect × TimedEventQ
    → Type 0
Fired clock q (due, later) (effects, q') =
    IsSplit (clock 0) q.units (due, later)
    × (effects ≡ map effect due)
    × ((p : EventUnit → Bool)
        → bag p q'.units ≡ bag p later + bag p (all_again (λ n. clock (suc n)) due))
    × Sorted q'.units
