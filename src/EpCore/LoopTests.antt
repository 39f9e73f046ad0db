-- ===== src/EpCore/LoopTests.antt =====
-- libckits/epCore.c: runs of the event loop, and the theorems about it at them.
use mcuproxy.Prelude.{
  ℕ, ◌*◌, ◌/◌, ◌^◌, ◌≤◌, ◌<◌, ◌≡◌, refl, true, false, List, [], ◌∷◌, Option, none, some, arith,
  length, ◌==◌, if◌then◌else◌,
}
use mcuproxy.Prelude.Int.{ℤ, pos, negsuc, ◌+ℤ◌, ◌-ℤ◌, ◌*ℤ◌}
use mcuproxy.Prelude.Int32.{wrap_int, to_int}
use mcuproxy.TimedEventQ.{div_1000}
use mcuproxy.SlotAlloc.{
  init_slot_allocator, real_slot_size, add_slots, slot_malloc, take_slot, slot_free,
}
use mcuproxy.TimeList.Time.{of_micros, time_interval, time_overthan, add_remain, borrow}
use mcuproxy.TimeList.Schedule.{micros, sooner}
use mcuproxy.TimeList.Calls.{agenda, elapsed, first_due, init_time_list-IsTimed}
use mcuproxy.TimeList.{
  TimeListType, infinity, init_time_list, time_to_next_alarm_event, handle_alarm_event, run_first,
  first_remain, synchronize, sync_events, add_alarm_event_node, add_event, next_token,
  del_alarm_event_node, query_alarm_event_node, unlink_event, hand_over,
}
use mcuproxy.EpCore.Loop.{
  EpVirtualTable, EpLoop, Outcome, reached, head_due, wild_transport, fault, close_live, serve,
  interrupted, failed, ready, Round, check_loop, passes, pass, after_wait, handle_alarms,
  after_handled, run_callback, ep_time_out_handler_call, dispatch_all, dispatch, call_handler,
  ep_close_transport, ep_action, time_out,
}
use mcuproxy.EpCore.Waiting.{time_out-first_due}
use mcuproxy.EpCore.Kept.{IsKept}
use mcuproxy.EpCore.Callbacks.{Act, call_later, cancel_call, store, perform}
use mcuproxy.EpCore.Stops.{IsLooping}
use mcuproxy.EpCore.Granted.{static_core-IsKept, ep_call_later-granted}
use mcuproxy.EpCore.{
  EpCore, node_limit, static_core, check_singleton, ep_call_later, ep_cancel_call,
  ep_factory_create_time_event, ep_factory_recyle_time_event, time_event_factory_singleton, enqueue,
  recycle_found,
}

abbrev queue : TimeListType
queue = (init_time_list-IsTimed 1000000).0

time_out-first_due_example :
    let tv = (time_to_next_alarm_event (of_micros 2000000) (some queue)).0 in
    let due = first_due (micros queue.event_head) (sooner (elapsed 2000000 queue) (agenda queue)) in
    (due < 2 ^ 31 * 1000 → time_out tv ≡ pos (due / 1000))
    × (due ≡ micros infinity → time_out tv ≡ negsuc 0)
time_out-first_due_example = time_out-first_due 2000000 (init_time_list-IsTimed 1000000).2

abbrev table : EpVirtualTable
table = record { handle_read = 7; handle_write = 0; handle_close = 8 }

-- Function 7 makes two calls and cancels one, function 8 stores a transport, function 9 frees one;
-- the others do nothing.
abbrev acts_of : ℕ → List Act
acts_of function =
    if function == 7
    then call_later 2000000 5000 7 1 ∷ call_later 2000000 9000 8 1 ∷ cancel_call 2000000 1 ∷ []
    else if function == 8
    then store 64 (some (record { descriptor = pos 12; vptr = some table })) ∷ []
    else if function == 9
    then store 32 none ∷ []
    else []

abbrev callback : ℕ → ℕ → EpLoop → Option EpLoop
callback function param loop = perform (acts_of function) loop

abbrev new_loop : EpLoop
new_loop = record {
  ep = check_singleton (of_micros 1000000) (static_core 4096);
  descriptor = pos 3;
  transports = λ a. some (record {
    descriptor = pos a;
    vptr = some (if a == 48 then record table { handle_read = 9 } else table);
  });
}

new_loop-IsLooping : IsLooping 4096 [] new_loop
new_loop-IsLooping = static_core-IsKept 4096 (omega arith) 1000000

-- A transport is read, then hung up; the wait is interrupted, and then fails.
abbrev rounds : List Round
rounds =
    record {
      asked = 1500000;
      woken = 2000000;
      wait = λ ms. ready (
          record { ptr = 16; hung_up = false; readable = true; writable = true }
          ∷ record { ptr = 32; hung_up = true; readable = true; writable = false }
          ∷ []);
    }
    ∷ record { asked = 2000000; woken = 2009000; wait = λ ms. interrupted }
    ∷ record { asked = 2010000; woken = 2010000; wait = λ ms. failed }
    ∷ []

ep_call_later-granted_example :
    (ret : ℤ) × (ep' : EpCore) × (ep_call_later (of_micros 2000000) new_loop.ep (of_micros 5000) 7 1
      ≡ some (ret, ep'))
    × IsKept 4096 [] ep'
    × (length new_loop-IsLooping.lst.events ≤ node_limit)
    × (length new_loop-IsLooping.lst.events < node_limit
        → ret ≡ pos new_loop-IsLooping.lst.list_token)
    × (length new_loop-IsLooping.lst.events ≡ node_limit → ret ≡ negsuc 0)
ep_call_later-granted_example =
    ep_call_later-granted 4096 (omega arith) new_loop.ep 2000000 5000 7 1 new_loop-IsLooping
      (omega arith)

abbrev descriptor_at : EpLoop → ℕ → ℤ
descriptor_at loop transport = elim (loop.transports transport) [
  | none ↦ pos 0
  | some it ↦ it.descriptor
]

abbrev outcome : Outcome (Option ℤ × EpLoop) → Option ℤ × ℤ × ℤ
outcome (reached (ret, after)) = (ret, descriptor_at after 32, descriptor_at after 64)
outcome (head_due loop) = (none, pos 0, pos 0)
outcome (wild_transport transport loop) = (none, pos transport, pos 1)
outcome fault = (none, pos 0, pos 2)

code : Unit {0}
unfolding ep_action check_loop passes pass after_wait handle_alarms after_handled run_callback
    ep_time_out_handler_call dispatch_all dispatch call_handler ep_close_transport close_live serve
    perform check_singleton ep_call_later ep_cancel_call ep_factory_create_time_event
    ep_factory_recyle_time_event time_event_factory_singleton enqueue recycle_found init_time_list
    time_to_next_alarm_event handle_alarm_event run_first first_remain synchronize sync_events
    add_alarm_event_node add_event next_token del_alarm_event_node query_alarm_event_node
    unlink_event hand_over of_micros time_interval time_overthan add_remain init_slot_allocator
    real_slot_size add_slots slot_malloc take_slot slot_free time_out div_1000 wrap_int to_int
    borrow ◌+ℤ◌ ◌-ℤ◌ ◌*ℤ◌
code = tt

-- The second transport is closed, and its handler has stored a descriptor; the loop has returned.
closed_and_stored :
    outcome (ep_action callback (of_micros 1000000) (pos 3) rounds new_loop)
    ≡ (some (pos 0), negsuc 0, pos 12)
unfolding code
closed_and_stored = refl

-- The handler of the first event frees the transport of the second.
freed_in_between :
    outcome (
      ep_action callback
        (of_micros 1000000)
        (pos 3)
        (record {
          asked = 1500000;
          woken = 2000000;
          wait = λ ms. ready (
              record { ptr = 48; hung_up = false; readable = true; writable = false }
              ∷ record { ptr = 32; hung_up = false; readable = true; writable = false }
              ∷ []);
        }
          ∷ [])
        new_loop)
    ≡ (none, pos 32, pos 1)
unfolding code
freed_in_between = refl
