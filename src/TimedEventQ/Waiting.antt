-- ===== src/TimedEventQ/Waiting.antt =====
-- libnet/absTimerList.cpp: a unit stays in the queue until its time, and is fired then.
use mcuproxy.Prelude.{
  ℕ, suc, ◌≡◌, ◌⊎◌, refl, ap, sym, true, false, List, [], ◌∷◌, map, All, arith, ◌==◌, Bool-cases,
  inl, inr,
}
use mathlib.Core.Path.{subst}
use mathlib.Core.List.{Memᴰ}
use mathlib.Core.List.Memᴰ
use mcuproxy.TimeList.Time.{Timeval, time_overthan}
use mcuproxy.TimedEventQ.{
  EventType, timed_callback, timed_recycle, period_condition, period_semaphore, EventUnit,
  TimedEventQ, effect, pass_on, rearm, add_event_internal, insert_unit, write_token, split_due,
  handle_units, handle_alarm_event, erase_unit,
}
use mcuproxy.TimedEventQ.Sorted.{Sorted, split_due-IsSplit}
use mcuproxy.TimedEventQ.Fired.{handle_units-effects}

Memᴰ-map :
    (u : EventUnit) (units : List EventUnit) → Memᴰ u units → Memᴰ (effect u) (map effect units)
Memᴰ-map u [] m = absurd (Memᴰ.not-nil m)
Memᴰ-map u (v ∷ units) m = elim (Memᴰ.cases_cons m) [
  | inl here ↦ Memᴰ.head (ap effect here)
  | inr there ↦ Memᴰ.tail (Memᴰ-map u units there)
]

-- What holds of all units holds of one of them.
all_of :
    (P : EventUnit → Type 0) (u : EventUnit) (units : List EventUnit)
    → All P units
    → Memᴰ u units
    → P u
all_of P u [] all m = absurd (Memᴰ.not-nil m)
all_of P u (v ∷ units) (first, all) m = elim (Memᴰ.cases_cons m) [
  | inl here ↦ subst P (sym here) first
  | inr there ↦ all_of P u units all there
]

insert_unit-own : (u : EventUnit) (units : List EventUnit) → Memᴰ u (insert_unit u units)
unfolding insert_unit
insert_unit-own u [] = Memᴰ.head refl
insert_unit-own u (cur ∷ rest) = elim (Bool-cases (time_overthan u.tv_absolute cur.tv_absolute)) [
  | inl behind ↦ rw behind (Memᴰ.tail (insert_unit-own u rest))
  | inr front ↦ rw front (Memᴰ.head refl)
]

pub insert_unit-keeps :
    (u v : EventUnit) (units : List EventUnit) → Memᴰ u units → Memᴰ u (insert_unit v units)
unfolding insert_unit
insert_unit-keeps u v [] m = absurd (Memᴰ.not-nil m)
insert_unit-keeps u v (cur ∷ rest) m =
    elim (Bool-cases (time_overthan v.tv_absolute cur.tv_absolute)) [
      | inl behind ↦ rw behind (elim (Memᴰ.cases_cons m) [
        | inl here ↦ Memᴰ.head here
        | inr there ↦ Memᴰ.tail (insert_unit-keeps u v rest there)
      ])
      | inr front ↦ rw front (Memᴰ.tail m)
    ]

pub write_token-keeps :
    (u : EventUnit) (address token : ℕ) (units : List EventUnit)
    → u.address == address ≡ false
    → Memᴰ u units
    → Memᴰ u (write_token address token units)
unfolding write_token
write_token-keeps u address token [] h m = absurd (Memᴰ.not-nil m)
write_token-keeps u address token (cur ∷ rest) h m = elim (Bool-cases (cur.address == address)) [
  | inl found ↦ rw found (elim (Memᴰ.cases_cons m) [
    | inl here ↦ absurd (let e : u.address ≡ cur.address = ap (λ v. v.address) here in ground arith)
    | inr there ↦ Memᴰ.tail there
  ])
  | inr other ↦ rw other (elim (Memᴰ.cases_cons m) [
    | inl here ↦ Memᴰ.head here
    | inr there ↦ Memᴰ.tail (write_token-keeps u address token rest h there)
  ])
]

pub erase_unit-keeps :
    (u : EventUnit) (token : ℕ) (units : List EventUnit)
    → u.id_token == token ≡ false
    → Memᴰ u units
    → Memᴰ u (erase_unit token units)
unfolding erase_unit
erase_unit-keeps u token [] h m = absurd (Memᴰ.not-nil m)
erase_unit-keeps u token (cur ∷ rest) h m = elim (Bool-cases (cur.id_token == token)) [
  | inl found ↦ rw found (elim (Memᴰ.cases_cons m) [
    | inl here ↦
        absurd (let e : u.id_token ≡ cur.id_token = ap (λ v. v.id_token) here in ground arith)
    | inr there ↦ there
  ])
  | inr other ↦ rw other (elim (Memᴰ.cases_cons m) [
    | inl here ↦ Memᴰ.head here
    | inr there ↦ Memᴰ.tail (erase_unit-keeps u token rest h there)
  ])
]

-- No unit of the list stands at the address of a new one.
abbrev pub IsFresh : ℕ → List EventUnit → Type 0
IsFresh address units = All (λ (v : EventUnit). v.address == address ≡ false) units

pub added_units-own :
    (u : EventUnit) (token : ℕ) (units : List EventUnit)
    → IsFresh u.address units
    → Memᴰ (record u { id_token = token }) (write_token u.address token (insert_unit u units))
unfolding write_token insert_unit
added_units-own u token [] fresh =
    let self : u.address == u.address ≡ true = ground arith in rw self (Memᴰ.head refl)
added_units-own u token (cur ∷ rest) (apart, fresh) =
    elim (Bool-cases (time_overthan u.tv_absolute cur.tv_absolute)) [
      | inl behind ↦ rw (behind, apart) (Memᴰ.tail (added_units-own u token rest fresh))
      | inr front ↦
          let self : u.address == u.address ≡ true = ground arith in
          rw (front, self) (Memᴰ.head refl)
    ]

-- A callback that takes no unit out of the queue.
abbrev pub KeepsUnits : (ℕ → TimedEventQ → TimedEventQ) → EventUnit → Type 0
KeepsUnits on_timeout u =
    (handler : ℕ) (q : TimedEventQ) → Memᴰ u q.units → Memᴰ u (on_timeout handler q).units

pass_on-keeps :
    (type : EventType) (on_timeout : ℕ → TimedEventQ → TimedEventQ) (now : Timeval)
    (entry u : EventUnit) (q : TimedEventQ)
    → KeepsUnits on_timeout u
    → Memᴰ u q.units
    → Memᴰ u (pass_on type on_timeout now entry q).units
unfolding add_event_internal
pass_on-keeps timed_callback on_timeout now entry u q keeps m = keeps entry.handler q m
pass_on-keeps timed_recycle on_timeout now entry u q keeps m = m
pass_on-keeps period_condition on_timeout now entry u q keeps m =
    insert_unit-keeps u (rearm now entry) q.units m
pass_on-keeps period_semaphore on_timeout now entry u q keeps m =
    insert_unit-keeps u (rearm now entry) q.units m

handle_units-keeps :
    (on_timeout : ℕ → TimedEventQ → TimedEventQ) (clock : ℕ → Timeval) (units : List EventUnit)
    (u : EventUnit) (q : TimedEventQ)
    → KeepsUnits on_timeout u
    → Memᴰ u q.units
    → Memᴰ u (handle_units on_timeout clock units q).1.units
unfolding handle_units
handle_units-keeps on_timeout clock [] u q keeps m = m
handle_units-keeps on_timeout clock (entry ∷ rest) u q keeps m =
    handle_units-keeps on_timeout (λ n. clock (suc n)) rest u
      (pass_on entry.type on_timeout (clock 0) entry q) keeps
      (pass_on-keeps entry.type on_timeout (clock 0) entry u q keeps m)

-- A unit on its side of the split.
split_side :
    (now : Timeval) (u : EventUnit) (units : List EventUnit)
    → Sorted units
    → Memᴰ u units
    → ((time_overthan now u.tv_absolute ≡ true) × Memᴰ u (split_due now units).0)
      ⊎ ((time_overthan now u.tv_absolute ≡ false) × Memᴰ u (split_due now units).1)
split_side now u units s m =
    let (due, rest) = split_due now units in
    let (whole, all_due, none_due) = split_due-IsSplit now units s in
    elim (Memᴰ.append_cases due (subst (λ us. Memᴰ u us) (sym whole) m)) [
      | inl here ↦
          inl (all_of (λ v. time_overthan now v.tv_absolute ≡ true) u due all_due here, here)
      | inr there ↦
          inr (all_of (λ v. time_overthan now v.tv_absolute ≡ false) u rest none_due there, there)
    ]

pub handle_alarm_event-waits :
    (on_timeout : ℕ → TimedEventQ → TimedEventQ) (clock : ℕ → Timeval) (u : EventUnit)
    (q : TimedEventQ)
    → KeepsUnits on_timeout u
    → Sorted q.units
    → time_overthan (clock 0) u.tv_absolute ≡ false
    → Memᴰ u q.units
    → Memᴰ u (handle_alarm_event on_timeout clock q).1.units
unfolding handle_alarm_event
handle_alarm_event-waits on_timeout clock u q keeps s early m =
    elim (split_side (clock 0) u q.units s m) [
      | inl (due, here) ↦ absurd (let e = due in cc)
      | inr (not_yet, there) ↦
          handle_units-keeps on_timeout (λ n. clock (suc n)) (split_due (clock 0) q.units).0 u
            (record q { units = (split_due (clock 0) q.units).1 }) keeps there
    ]

pub handle_alarm_event-fires :
    (on_timeout : ℕ → TimedEventQ → TimedEventQ) (clock : ℕ → Timeval) (u : EventUnit)
    (q : TimedEventQ)
    → Sorted q.units
    → time_overthan (clock 0) u.tv_absolute ≡ true
    → Memᴰ u q.units
    → Memᴰ (effect u) (handle_alarm_event on_timeout clock q).0
unfolding handle_alarm_event
handle_alarm_event-fires on_timeout clock u q s ready m =
    elim (split_side (clock 0) u q.units s m) [
      | inl (due, here) ↦
          subst (λ es. Memᴰ (effect u) es)
            (sym (
              handle_units-effects on_timeout (λ n. clock (suc n)) (split_due (clock 0) q.units).0
                (record q { units = (split_due (clock 0) q.units).1 })))
            (Memᴰ-map u (split_due (clock 0) q.units).0 here)
      | inr (not_yet, there) ↦ absurd (let e = not_yet in cc)
    ]
