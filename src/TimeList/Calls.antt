-- ===== src/TimeList/Calls.antt =====
-- libckits/timeList.c: each call against the agenda that the list stands for.
use native.Mathlib.Nat.{zero-add}
use mcuproxy.Prelude.{
  ℕ, ◌*◌, ◌<◌, ◌+◌, ◌-◌, ◌%◌, ◌^◌, ◌≤◌, ◌≡◌, refl, sym, ap, ap₂, ◌∙◌, true, List, [], ◌∷◌, Option,
  none, some, inl, inr, Option-cases, arith,
}
use mcuproxy.Prelude.Int.{pos}
use mcuproxy.Prelude.Word.{bit_and_mask}
use mcuproxy.TimeList.Time.{
  Timeval, million, wrapped, time_interval, of_micros, time_interval-micros,
}
use mcuproxy.TimeList.Schedule.{
  micros, IsNormal, AreNormal, of_micros-IsNormal, Agenda, schedule, sooner, insert_due, remove_due,
  sync_events-sooner, add_event-schedule,
}
use mcuproxy.TimeList.Unlink.{
  span, normal-wrapped, unlink_event-Handed, query-eq-none, query-eq-some,
}
use mcuproxy.TimeList.{
  AlarmEventNode, TimeListType, infinity, init_time_list, synchronize, next_token,
  add_alarm_event_node, add_event, first_remain, time_to_next_alarm_event, query_alarm_event_node,
  unlink_event, del_alarm_event_node,
}

-- Every time is in range, and the head's is at least what `initTimeList` gives it.
pub record IsTimed (lst : TimeListType) : Type 0 where
  pub events : AreNormal lst.events
  pub head : IsNormal lst.event_head
  pub late : micros infinity ≤ micros lst.event_head
  pub clock : IsNormal lst.tv_last_sync

-- When each event is due, counted from the last synchronisation.
abbrev pub agenda : TimeListType → Agenda
agenda lst = schedule 0 lst.events

-- The microseconds since then, 0 if the clock was set back.
abbrev pub elapsed : ℕ → TimeListType → ℕ
elapsed t lst = t - micros lst.tv_last_sync

infinity-IsNormal : IsNormal infinity
unfolding micros of_micros
infinity-IsNormal = refl

-- `initTimeList` succeeds; the new list is valid and its agenda is empty.
pub init_time_list-IsTimed :
    (t : ℕ)
    → (lst : TimeListType) × (init_time_list (of_micros t) true ≡ (pos 0, some lst))
      × IsTimed lst
      × (agenda lst ≡ [])
unfolding init_time_list schedule
init_time_list-IsTimed t = (
  record { event_head = infinity; events = []; list_token = 1; tv_last_sync = of_micros t },
  refl,
  record {
    events = tt;
    head = infinity-IsNormal;
    late = omega arith;
    clock = (of_micros-IsNormal t refl).0;
  },
  refl,
)

-- When the first entry is due, `other` if there is none.
abbrev pub first_due : ℕ → Agenda → ℕ
first_due other [] = other
first_due other ((token, due) ∷ a) = due

pub first_remain-due :
    (head : Timeval) (es : List AlarmEventNode)
    → AreNormal es
    → IsNormal head
    → let tv : Timeval = elim es [ [] ↦ head | cur ∷ rest ↦ cur.tv_remain ] in
      IsNormal tv × (micros tv ≡ first_due (micros head) (schedule 0 es))
unfolding schedule
first_remain-due head [] h n = (n, refl)
first_remain-due head (cur ∷ rest) h n = (h.0, omega arith)

module _ (t : ℕ) {lst : TimeListType} (timed : IsTimed lst) where
  since : time_interval (of_micros t) lst.tv_last_sync ≡ of_micros (elapsed t lst)
  since =
      ap (time_interval (of_micros t)) timed.clock
      ∙ time_interval-micros t (micros lst.tv_last_sync)

  -- On a valid list `synchronize` makes every event sooner by the time that has passed, none
  -- before now, and the list stays valid.
  pub synchronize-agenda :
      IsTimed (synchronize (of_micros t) lst)
      × (agenda (synchronize (of_micros t) lst) ≡ sooner (elapsed t lst) (agenda lst))
  unfolding synchronize
  synchronize-agenda =
      let (normal, same) = sync_events-sooner lst.events (elapsed t lst) timed.events in
      rw since (
        record {
          events = normal;
          head = timed.head;
          late = timed.late;
          clock = (of_micros-IsNormal t refl).0;
        },
        same,
      )

  abbrev synced : TimeListType
  synced = synchronize (of_micros t) lst

  -- On a valid list `addAlarmEventNode` returns the list's token and takes the next one modulo
  -- `2 ^ 28`. After the synchronisation it puts an event whose time is in range behind all that are
  -- due no later than it; no other event moves, and the list stays valid.
  pub add_alarm_event_node-agenda :
      (e : AlarmEventNode) (m : ℕ)
      → e.tv_remain ≡ of_micros m
      → (lst' : TimeListType) × (add_alarm_event_node (of_micros t) (some lst) e
          ≡ (pos lst.list_token, some lst'))
        × IsTimed lst'
        × (agenda lst' ≡ insert_due lst.list_token m (sooner (elapsed t lst) (agenda lst)))
        × (lst'.list_token ≡ (lst.list_token + 1) % 2 ^ 28)
  unfolding add_alarm_event_node next_token synchronize
  add_alarm_event_node-agenda e m remain =
      let (timed', same) = synchronize-agenda in
      let (normal, added) =
        add_event-schedule synced.events 0 m (record e { id_token = lst.list_token }) timed'.events
          remain in
      (
        record synced {
          events = add_event (record e { id_token = lst.list_token }) synced.events;
          list_token = next_token lst.list_token;
        },
        refl,
        record { events = normal; head = timed.head; late = timed.late; clock = timed'.clock },
        added ∙ ap₂ (insert_due lst.list_token) (zero-add m) same,
        bit_and_mask 28 (lst.list_token + 1),
      )

  -- On a valid list `timeToNextAlarmEvent` synchronises and returns, in range, the time to the
  -- first event, or what the head of an empty list holds.
  pub time_to_next_alarm_event-agenda :
      (tv : Timeval) × (time_to_next_alarm_event (of_micros t) (some lst) ≡ (tv, some synced))
      × IsNormal tv
      × (micros tv ≡ first_due (micros lst.event_head) (sooner (elapsed t lst) (agenda lst)))
  unfolding time_to_next_alarm_event synchronize first_remain
  time_to_next_alarm_event-agenda =
      let (timed', same) = synchronize-agenda in
      let (normal, due) = first_remain-due lst.event_head synced.events timed'.events timed.head in
      (first_remain synced, refl, normal, due ∙ ap (first_due (micros lst.event_head)) same)

  -- On a valid list whose head has not overflowed, and whose events are all due within less than
  -- 2 ^ 31 seconds, `delAlarmEventNode` synchronises and takes the event of the token out of the
  -- agenda; no other event moves. The time up to the head does not change: what remained of the last
  -- event goes to the head, which holds as much of it as 32 bits of seconds do, and the list stays
  -- valid if that is nothing. Nothing else changes if no event has the token.
  pub del_alarm_event_node-agenda :
      (token : ℕ)
      → span synced.events < 2 ^ 31 * million
      → micros lst.event_head < 2 ^ 31 * million
      → (found : Option AlarmEventNode) × (lst' : TimeListType) × (del_alarm_event_node
            (of_micros t)
            (some lst)
            token
          ≡ (found, some lst'))
        × (agenda lst' ≡ remove_due token (sooner (elapsed t lst) (agenda lst)))
        × (gap : ℕ) × (span lst'.events + gap ≡ span synced.events + micros lst.event_head)
        × (lst'.event_head ≡ wrapped gap)
        × (gap ≡ micros lst.event_head → IsTimed lst')
        × ((e : AlarmEventNode) → found ≡ some e → e.id_token ≡ token)
        × (found ≡ none → lst' ≡ synced)
  unfolding del_alarm_event_node synchronize
  del_alarm_event_node-agenda token room fits =
      let (timed', same) = synchronize-agenda in
      let kept = normal-wrapped timed.head fits in
      elim (Option-cases (query_alarm_event_node token synced.events)) [
        | inl e ↦ (
          none,
          synced,
          rw (e, del_alarm_event_node),
          same ∙ sym (query-eq-none synced.events token 0 e ∙ same) ∙ ap (remove_due token) same,
          micros lst.event_head,
          refl,
          kept,
          λ _. timed',
          λ x h. cc,
          λ h. refl,
        )
        | inr (x, e) ↦
            let u =
              unlink_event-Handed synced.events token 0 lst.event_head timed'.events timed.head room
                fits in
            let r = unlink_event token synced.event_head synced.events in
            (
              some x,
              record synced { events = r.0; event_head = r.1 },
              rw (e, del_alarm_event_node),
              u.agenda ∙ ap (remove_due token) same,
              u.gap,
              u.conserved,
              u.head,
              λ all.
                  let head : r.1 ≡ lst.event_head = u.head ∙ ap wrapped all ∙ sym kept in
                  record {
                    events = u.normal;
                    head = rw head timed.head;
                    late = rw head timed.late;
                    clock = timed'.clock;
                  },
              λ y h. query-eq-some synced.events token (e ∙ h),
              λ h. cc,
            )
      ]
