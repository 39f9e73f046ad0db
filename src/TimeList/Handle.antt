-- ===== src/TimeList/Handle.antt =====
-- libckits/timeList.c: `handleAlarmEvent`, and the time that a deleted last event leaves behind.
use mcuproxy.Prelude.{
  ℕ, ◌*◌, ◌/◌, ◌%◌, ◌^◌, ◌+◌, ◌-◌, ◌<◌, ◌≤◌, ◌≡◌, refl, ap, ◌∙◌, true, false, List, [], ◌∷◌, Option,
  none, some, inl, inr, Bool-cases, arith, ltb, ◌==◌, if◌then◌else◌, All,
}
use mcuproxy.Prelude.Int.{pos, negsuc}
use mcuproxy.Prelude.Int32.{to_int}
use mcuproxy.TimeList.Time.{
  Timeval, million, wrapped, of_micros, time_interval, time_overthan, add_remain,
}
use mcuproxy.TimeList.Schedule.{micros, IsNormal, Agenda, schedule, sooner, schedule-sooner}
use mcuproxy.TimeList.Unlink.{add_remain-wrapped}
use mcuproxy.TimeList.Calls.{
  IsTimed, agenda, elapsed, synchronize-agenda, first_due, first_remain-due,
}
use mcuproxy.TimeList.{
  AlarmEventNode, TimeListType, infinity, synchronize, first_remain, is_due, is_zero, Handled,
  handled, with_callback, run_first, sync_events, del_alarm_event_node, time_to_next_alarm_event,
  unlink_event, hand_over, query_alarm_event_node, handle_alarm_event,
}

-- The first entry of an agenda, if less than half a millisecond is left, and what is left then:
-- the others are sooner by what was left of it.
abbrev pub due_now : Agenda → Option ℕ
due_now [] = none
due_now ((token, due) ∷ a) = if ltb due 500 then some token else none

abbrev pub after_first : Agenda → Agenda
after_first [] = []
after_first ((token, due) ∷ a) = if ltb due 500 then sooner due a else (token, due) ∷ a

abbrev pub HasCallbacks : List AlarmEventNode → Type 0
HasCallbacks es = All (λ (e : AlarmEventNode). 0 < e.cb_timeout) es

abbrev pub token_of : Option AlarmEventNode → Option ℕ
token_of none = none
token_of (some e) = some e.id_token

is_due_normal : {tv : Timeval} → IsNormal tv → is_due tv ≡ ltb (micros tv) 500
is_due_normal {tv} n = ap is_due n ∙ (unfold of_micros in ground arith)

is_zero_normal : {tv : Timeval} → IsNormal tv → is_zero tv ≡ (micros tv == 0)
is_zero_normal {tv} n = ap is_zero n ∙ (unfold of_micros in ground arith)

abbrev pub Ran : TimeListType → Agenda → Handled → Type 0
Ran lst a h =
    (fired : Option AlarmEventNode) × (lst' : TimeListType) × (h ≡ handled fired (some lst'))
    × IsTimed lst'
    × (agenda lst' ≡ after_first a)
    × (HasCallbacks lst.events → token_of fired ≡ due_now a)

infinity_late : (m : ℕ) → micros infinity ≤ m → ltb m 500 ≡ false
unfolding micros
infinity_late m h = ground arith

-- The list is `lst` with its events written out, so that they can be matched.
run_events-Ran :
    (es : List AlarmEventNode) (lst : TimeListType)
    → IsTimed (record lst { events = es })
    → Ran (record lst { events = es }) (schedule 0 es) (run_first (record lst { events = es }))
unfolding run_first schedule
run_events-Ran [] lst timed = (
  none,
  record lst { events = [] },
  rw (is_due_normal timed.head, infinity_late _ timed.late),
  timed,
  refl,
  λ _. refl,
)
run_events-Ran (cur ∷ rest) lst timed =
    let d = micros cur.tv_remain in
    let order = is_due_normal timed.events.0 in
    elim (Bool-cases (ltb d 500)) [
      | inl soon ↦
          let origin : 0 + d - (0 + d) ≡ 0 = omega arith in
          let due : ltb (0 + d) 500 ≡ true = ground arith in
          (
            with_callback cur,
            record lst { events = rest },
            rw (order, soon),
            record {
              events = timed.events.1;
              head = timed.head;
              late = timed.late;
              clock = timed.clock;
            },
            rw due (rw origin at (schedule-sooner rest (0 + d) (0 + d) (omega arith))),
            λ calls. rw due (ground (arith, calls.0)),
          )
      | inr later ↦
          let due : ltb (0 + d) 500 ≡ false = ground arith in
          (
            none,
            record lst { events = cur ∷ rest },
            rw (order, later),
            timed,
            rw due,
            λ calls. rw due,
          )
    ]

run_first-Ran : {lst : TimeListType} → IsTimed lst → Ran lst (agenda lst) (run_first lst)
run_first-Ran {lst} timed = run_events-Ran lst.events lst timed

sync_events-HasCallbacks :
    (es : List AlarmEventNode) (since : Timeval)
    → HasCallbacks es
    → HasCallbacks (sync_events since es)
unfolding sync_events
sync_events-HasCallbacks [] since h = tt
sync_events-HasCallbacks (cur ∷ rest) since h =
    elim (Bool-cases (time_overthan since cur.tv_remain)) [
      | inl past ↦
          rw past (h.0, sync_events-HasCallbacks rest (time_interval since cur.tv_remain) h.1)
      | inr ahead ↦ rw ahead h
    ]

-- What the head of a new list holds, and a time in range, are too much for it.
overflow :
    (d : ℕ)
    → 0 < d
    → d < 2 ^ 31 * million
    → wrapped (micros infinity + d) ≡ record {
      tv_sec = negsuc (2 ^ 31 - 1 - (d - 1) / million);
      tv_usec = pos ((d - 1) % million);
    }
unfolding wrapped micros to_int
overflow d ahead room = ground arith

module _ (t : ℕ) {lst : TimeListType} (timed : IsTimed lst) where
  -- What the list stands for when `handleAlarmEvent` looks at the first event: it synchronises
  -- unless that event is due already.
  abbrev pub looked_at : Agenda
  looked_at =
      if first_due (micros lst.event_head) (agenda lst) == 0
      then agenda lst
      else sooner (elapsed t lst) (agenda lst)

  -- On a valid list `handleAlarmEvent` unlinks the first event if less than half a millisecond is
  -- left of it, and runs its callback; the others are then due sooner by that much. Otherwise
  -- nothing runs and nothing is unlinked.
  pub handle_alarm_event-Ran : Ran lst looked_at (handle_alarm_event (of_micros t) (some lst))
  unfolding handle_alarm_event first_remain
  handle_alarm_event-Ran =
      let (normal, due) = first_remain-due lst.event_head lst.events timed.events timed.head in
      let zero_test = is_zero_normal normal ∙ ap (λ d. d == 0) due in
      elim (Bool-cases (first_due (micros lst.event_head) (agenda lst) == 0)) [
        | inl now ↦ rw (zero_test, now) (run_first-Ran timed)
        | inr later ↦
            let (timed', same) = synchronize-agenda t timed in
            let (fired, lst', run, t', left, got) = run_first-Ran timed' in
            rw (zero_test, later)
              (
                fired,
                lst',
                run,
                t',
                left ∙ ap after_first same,
                λ calls.
                    got (unfold synchronize in sync_events-HasCallbacks lst.events _ calls)
                    ∙ ap due_now same,
              )
      ]

  -- On a valid list whose head is as `initTimeList` left it, after the deletion of its only event,
  -- less than 2 ^ 31 seconds ahead of it, the list is empty and `timeToNextAlarmEvent` is negative:
  -- 2 ^ 31 seconds before 0, and then what was left of the event less a microsecond.
  pub del_last-remain :
      (e : AlarmEventNode) (t' : ℕ)
      → (synchronize (of_micros t) lst).events ≡ e ∷ []
      → lst.event_head ≡ infinity
      → 0 < micros e.tv_remain
      → micros e.tv_remain < 2 ^ 31 * million
      → (lst' : TimeListType) × (del_alarm_event_node (of_micros t) (some lst) e.id_token
          ≡ (some e, some lst'))
        × (lst'.events ≡ [])
        × ((time_to_next_alarm_event (of_micros t') (some lst')).0 ≡ record {
          tv_sec = negsuc (2 ^ 31 - 1 - (micros e.tv_remain - 1) / million);
          tv_usec = pos ((micros e.tv_remain - 1) % million);
        })
  unfolding del_alarm_event_node
  del_last-remain e t' last new ahead room =
      let now = synchronize (of_micros t) lst in
      let normal : IsNormal e.tv_remain = (rw last at (synchronize-agenda t timed).0.events).0 in
      let found : query_alarm_event_node e.id_token now.events ≡ some e =
        ap (query_alarm_event_node e.id_token) last
        ∙ (unfold query_alarm_event_node in ground arith) in
      let unlinked : unlink_event e.id_token now.event_head now.events
          ≡ ([], add_remain lst.event_head e.tv_remain) =
        ap (unlink_event e.id_token now.event_head) last
        ∙ (unfold unlink_event hand_over synchronize in ground arith) in
      (
        record now { events = []; event_head = add_remain lst.event_head e.tv_remain },
        rw (found, unlinked, del_alarm_event_node),
        refl,
        (unfold time_to_next_alarm_event synchronize first_remain sync_events in
            add_remain-wrapped timed.head normal
            ∙ ap (λ head. wrapped (micros head + micros e.tv_remain)) new
            ∙ overflow (micros e.tv_remain) ahead room),
      )
