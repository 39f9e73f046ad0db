-- ===== src/EpCore/Fired.antt =====
-- libckits/epCore.c: the node of the event that `handleAlarmEvent` runs leaves the queue.
use mcuproxy.Prelude.{
  ℕ, ◌≡◌, refl, sym, ap, List, [], ◌∷◌, Option, none, some, arith, Bool-cases, ◌⊎◌, inl, inr, true,
}
use mcuproxy.TimeList.Time.{Timeval, time_interval}
use mcuproxy.TimeList.{
  AlarmEventNode, TimeListType, Handled, corrupted, handled, is_zero, is_due, first_remain,
  with_callback, run_first, handle_alarm_event, synchronize, sync_events,
}
use mcuproxy.EpCore.Nodes.{
  addresses, AreOurs, IsWith, IsWith-front, sync_events-addresses, sync_events-AreOurs,
}
use mcuproxy.EpCore.Asked.{queue_events}
use mcuproxy.EpCore.{ep_time_out_handler}

abbrev fired_of : Handled → Option AlarmEventNode
fired_of corrupted = none
fired_of (handled fired queue) = fired

abbrev events_of : Handled → List AlarmEventNode
events_of corrupted = []
events_of (handled fired queue) = queue_events queue

-- What the queue with these nodes loses: an event of epCore.c, or nothing.
abbrev pub Lost : List ℕ → Option AlarmEventNode → List AlarmEventNode → Type 0
Lost before none after = AreOurs after × (addresses after ≡ before)
Lost before (some e) after =
    AreOurs after × IsWith e.address (addresses after) before × (e.cb_timeout ≡ ep_time_out_handler)

ours_called :
    (cur : AlarmEventNode) → cur.cb_timeout ≡ ep_time_out_handler → with_callback cur ≡ some cur
ours_called cur ours = ground (arith, ours)

run_first-Lost :
    (es : List AlarmEventNode) (lst : TimeListType)
    → AreOurs es
    → let h = run_first (record lst { events = es }) in
      Lost (addresses es) (fired_of h) (events_of h)
unfolding run_first addresses
run_first-Lost [] lst ours = elim (Bool-cases (is_due lst.event_head)) [
  | inl due ↦ rw due (tt, refl)
  | inr later ↦ rw later (tt, refl)
]
run_first-Lost (cur ∷ rest) lst ours = elim (Bool-cases (is_due cur.tv_remain)) [
  | inl due ↦
      rw (due, ours_called cur ours.0) (ours.1, IsWith-front cur.address (addresses rest), ours.0)
  | inr later ↦ rw later (ours, refl)
]

-- An empty queue whose head is due is corrupted: then nothing is known.
pub handle_alarm_event-Lost :
    (now : Timeval) (lst lst' : TimeListType) (fired : Option AlarmEventNode)
    → AreOurs lst.events
    → handle_alarm_event now (some lst) ≡ handled fired (some lst')
    → Lost (addresses lst.events) fired lst'.events
unfolding handle_alarm_event synchronize
handle_alarm_event-Lost now lst lst' fired ours run =
    elim (Bool-cases (is_zero (first_remain lst))) [
      | inl zero ↦
          let run' = rw (zero, handle_alarm_event) at run in
          let it : fired_of (run_first lst) ≡ fired = ap fired_of run' in
          let events : events_of (run_first lst) ≡ lst'.events = ap events_of run' in
          rw (sym it, sym events) (run_first-Lost lst.events lst ours)
      | inr later ↦
          let run' = rw (later, handle_alarm_event) at run in
          let since = time_interval now lst.tv_last_sync in
          let it : fired_of (run_first (synchronize now lst)) ≡ fired = ap fired_of run' in
          let events : events_of (run_first (synchronize now lst)) ≡ lst'.events =
            ap events_of run' in
          let ours' = sync_events-AreOurs since lst.events ours in
          rw (sym it, sym events)
            (rw (sync_events-addresses since lst.events) at
              (run_first-Lost (sync_events since lst.events) (synchronize now lst) ours'))
    ]

-- What is known before: nothing waits and the head is due, or the call returns.
abbrev pub Handles : TimeListType → Handled → Type 0
Handles lst h =
    ((h ≡ corrupted) × (lst.events ≡ []) × (is_due lst.event_head ≡ true))
    ⊎ ((fired : Option AlarmEventNode) × (lst' : TimeListType) × (h ≡ handled fired (some lst')))

run_events-Handles :
    (es : List AlarmEventNode) (lst : TimeListType)
    → Handles (record lst { events = es }) (run_first (record lst { events = es }))
unfolding run_first
run_events-Handles [] lst = elim (Bool-cases (is_due lst.event_head)) [
  | inl due ↦ inl (rw due refl, refl, due)
  | inr later ↦ inr (none, record lst { events = [] }, rw later refl)
]
run_events-Handles (cur ∷ rest) lst = elim (Bool-cases (is_due cur.tv_remain)) [
  | inl due ↦ inr (with_callback cur, record lst { events = rest }, rw due refl)
  | inr later ↦ inr (none, record lst { events = cur ∷ rest }, rw later refl)
]

sync_events-empty :
    (since : Timeval) (es : List AlarmEventNode) → sync_events since es ≡ [] → es ≡ []
unfolding sync_events
sync_events-empty since [] h = refl
sync_events-empty since (cur ∷ rest) h = absurd (ground (arith, h))

pub handle_alarm_event-Handles :
    (now : Timeval) (lst : TimeListType) → Handles lst (handle_alarm_event now (some lst))
unfolding handle_alarm_event synchronize
handle_alarm_event-Handles now lst = elim (Bool-cases (is_zero (first_remain lst))) [
  | inl zero ↦ rw (zero, handle_alarm_event) (run_events-Handles lst.events lst)
  | inr later ↦
      let since = time_interval now lst.tv_last_sync in
      elim (run_events-Handles (sync_events since lst.events) (synchronize now lst)) [
        | inl (run, empty, due) ↦
            inl (rw (later, handle_alarm_event) run, sync_events-empty since lst.events empty, due)
        | inr (fired, lst', run) ↦ inr (fired, lst', rw (later, handle_alarm_event) run)
      ]
]
