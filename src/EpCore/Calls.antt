-- ===== src/EpCore/Calls.antt =====
-- libckits/epCore.c: what a call made later and its cancellation do to the timers and the nodes.
use mcuproxy.Prelude.{
  ℕ, ◌<◌, ◌≡◌, refl, ◌⊎◌, inl, inr, true, false, Option, some, arith, ◌==◌, Bool-cases,
}
use mcuproxy.Prelude.Int.{pos, negsuc}
use mcuproxy.TimeList.Time.{of_micros}
use mcuproxy.TimeList.Schedule.{sooner, insert_due}
use mcuproxy.TimeList.Calls.{IsTimed, agenda, elapsed, add_alarm_event_node-agenda}
use mcuproxy.TimeList.{TimeListType}
use mcuproxy.SlotAlloc.{SlotAlloc, slot_malloc}
use mcuproxy.EpCore.{
  EpCore, event_size, check_singleton, time_event_factory_singleton, ep_factory_create_time_event,
  new_alarm_node, enqueue, ep_call_later,
}

-- Both parts are initialised, with this queue and this allocator.
abbrev pub running : TimeListType → Option SlotAlloc → EpCore
running lst al = record {
  singleton_flag = true;
  wait_queue = some lst;
  time_event_factory_flag = true;
  time_event_alloc = al;
}

-- In a running loop with a valid queue `epCallLater`, with a handler and a time in range, returns -1
-- if the allocator gives NULL and leaves the queue as it was. If the allocator gives a node it
-- returns the queue's token, and the call is due after that time, behind all that are due no later;
-- no other call moves.
pub ep_call_later-agenda :
    (t : ℕ) {lst : TimeListType} (al : Option SlotAlloc) (m handler param : ℕ)
    → IsTimed lst
    → 0 < handler
    → (al' : Option SlotAlloc) × (al' ≡ (slot_malloc al event_size).1)
      × (((slot_malloc al event_size).0 ≡ 0)
            × (ep_call_later (of_micros t) (running lst al) (of_micros m) handler param
                ≡ some (negsuc 0, running lst al'))
          ⊎ (lst' : TimeListType) × (0 < (slot_malloc al event_size).0)
            × (ep_call_later (of_micros t) (running lst al) (of_micros m) handler param
                ≡ some (pos lst.list_token, running lst' al'))
            × IsTimed lst'
            × (agenda lst' ≡ insert_due lst.list_token m (sooner (elapsed t lst) (agenda lst))))
unfolding ep_call_later check_singleton ep_factory_create_time_event time_event_factory_singleton
    enqueue
ep_call_later-agenda t {lst} al m handler param timed given =
    let called : handler == 0 ≡ false = ground arith in
    let mem = (slot_malloc al event_size).0 in
    (
      (slot_malloc al event_size).1,
      refl,
      elim (Bool-cases (mem == 0)) [
        | inl out ↦ inl (ground arith, rw (called, out) refl)
        | inr got ↦
            let (lst', run, timed', same, token) =
              add_alarm_event_node-agenda t timed (new_alarm_node mem (of_micros m) handler param) m
                refl in
            inr (lst', ground arith, rw (called, got, run) refl, timed', same)
      ],
    )
