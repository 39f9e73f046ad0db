-- ===== src/TimeList/Tests.antt =====
-- libckits/timeList.c: a queue of two timers, and the theorems at it. Times are in microseconds.
use mcuproxy.Prelude.{
  ◌-◌, ◌/◌, ◌%◌, ◌^◌, ℕ, ◌+◌, ◌*◌, ◌≡◌, refl, [], ◌∷◌, Option, none, some, arith,
}
use mcuproxy.Prelude.Int.{pos, negsuc, ◌+ℤ◌, ◌-ℤ◌}
use mcuproxy.Prelude.Int32.{to_int, wrap_int}
use mcuproxy.TimeList.Time.{
  delay_zero, time_interval, time_overthan, add_remain, wrapped, of_micros,
}
use mcuproxy.TimeList.Schedule.{micros, schedule, sooner, insert_due, remove_due}
use mcuproxy.TimeList.Unlink.{span}
use mcuproxy.TimeList.Calls.{
  IsTimed, agenda, elapsed, add_alarm_event_node-agenda, del_alarm_event_node-agenda,
}
use mcuproxy.TimeList.Handle.{Ran, looked_at, handle_alarm_event-Ran, del_last-remain}
use mcuproxy.TimeList.{
  AlarmEventNode, TimeListType, infinity, sync_events, synchronize, add_event, next_token,
  add_alarm_event_node, first_remain, time_to_next_alarm_event, handled, run_first,
  handle_alarm_event, query_alarm_event_node, hand_over, unlink_event, del_alarm_event_node,
  is_time_list_empty, dump_events, dump_time_list,
}

abbrev event : ℕ → ℕ → AlarmEventNode
event token remain = record {
  address = 64 * token;
  tv_remain = of_micros remain;
  cb_timeout = 1;
  cb_param = 0;
  reserved = 0;
  id_token = token;
}

-- Event 1 is due after 2 s, event 2 half a second later.
abbrev two : TimeListType
two = record {
  event_head = infinity;
  events = event 1 2000000 ∷ event 2 500000 ∷ [];
  list_token = 3;
  tv_last_sync = of_micros 10000000;
}

code : Unit {0}
unfolding of_micros micros schedule sooner insert_due remove_due span time_interval time_overthan
    add_remain to_int wrap_int ◌+ℤ◌ ◌-ℤ◌ sync_events synchronize add_event next_token
    add_alarm_event_node first_remain time_to_next_alarm_event run_first handle_alarm_event
    query_alarm_event_node hand_over unlink_event del_alarm_event_node is_time_list_empty
    dump_events dump_time_list
code = tt

two-IsTimed : IsTimed two
unfolding code
two-IsTimed = record { events = (refl, (refl, tt)); head = refl; late = omega arith; clock = refl }

-- One second later a timer of 1.2 s comes between the two.
dump_after_add :
    dump_time_list
      (of_micros 11000000)
      (add_alarm_event_node (of_micros 11000000) (some two) (event 0 1200000)).1
    ≡ (
      (1, of_micros 1000000) ∷ (3, of_micros 200000) ∷ (2, of_micros 300000) ∷ [],
      3,
      (add_alarm_event_node (of_micros 11000000) (some two) (event 0 1200000)).1,
    )
unfolding code
dump_after_add = refl

-- The clock has jumped: both are due, and only the first is run.
late_handle :
    handle_alarm_event (of_micros 99000000) (some two)
    ≡ handled (some (record (event 1 0) { address = 64; tv_remain = delay_zero })) (
        some (record two {
          events = record (event 2 0) { tv_remain = delay_zero } ∷ [];
          tv_last_sync = of_micros 99000000;
        }))
unfolding code
late_handle = refl

add_alarm_event_node-agenda_example :
    (lst' : TimeListType) × (add_alarm_event_node (of_micros 11000000) (some two) (event 0 1200000)
      ≡ (pos 3, some lst'))
    × IsTimed lst'
    × (agenda lst' ≡ insert_due 3 1200000 (sooner (elapsed 11000000 two) (agenda two)))
    × (lst'.list_token ≡ 4)
add_alarm_event_node-agenda_example =
    add_alarm_event_node-agenda 11000000 two-IsTimed (event 0 1200000) 1200000 refl

del_alarm_event_node-agenda_example :
    (found : Option AlarmEventNode) × (lst' : TimeListType) × (del_alarm_event_node
        (of_micros 11000000)
        (some two)
        1
      ≡ (found, some lst'))
    × (agenda lst' ≡ remove_due 1 (sooner (elapsed 11000000 two) (agenda two)))
    × (gap : ℕ) × (span lst'.events + gap
        ≡ span (synchronize (of_micros 11000000) two).events + micros infinity)
    × (lst'.event_head ≡ wrapped gap)
    × (gap ≡ micros infinity → IsTimed lst')
    × ((e : AlarmEventNode) → found ≡ some e → e.id_token ≡ 1)
    × (found ≡ none → lst' ≡ synchronize (of_micros 11000000) two)
del_alarm_event_node-agenda_example =
    del_alarm_event_node-agenda 11000000 two-IsTimed 1 (unfold code in omega arith)
      (unfold code in omega arith)

handle_alarm_event-Ran_example :
    Ran two (looked_at 12000000 two-IsTimed) (handle_alarm_event (of_micros 12000000) (some two))
handle_alarm_event-Ran_example = handle_alarm_event-Ran 12000000 two-IsTimed

-- A single timer of 7 s.
abbrev last : TimeListType
last = record two { events = event 9 7000000 ∷ [] }

last-IsTimed : IsTimed last
unfolding code
last-IsTimed = record { events = (refl, tt); head = refl; late = omega arith; clock = refl }

del_last-remain_example :
    (lst' : TimeListType) × (del_alarm_event_node (of_micros 11000000) (some last) 9
      ≡ (some (event 9 6000000), some lst'))
    × (lst'.events ≡ [])
    × ((time_to_next_alarm_event (of_micros 12000000) (some lst')).0 ≡ record {
      tv_sec = negsuc (2 ^ 31 - 1 - (micros (of_micros 6000000) - 1) / 1000000);
      tv_usec = pos ((micros (of_micros 6000000) - 1) % 1000000);
    })
del_last-remain_example =
    del_last-remain 11000000 last-IsTimed
      (record (event 9 0) { address = 576; tv_remain = of_micros 6000000 }) 12000000
      (unfold code in refl) refl (unfold code in omega arith) (unfold code in omega arith)
