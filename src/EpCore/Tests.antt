-- ===== src/EpCore/Tests.antt =====
-- libckits/epCore.c: one call made later in a new loop, and the theorems at it.
use mcuproxy.Prelude.{◌<◌, ◌≡◌, refl, ◌⊎◌, [], ◌∷◌, Option, some, arith}
use mcuproxy.Prelude.Int.{pos, negsuc}
use mcuproxy.TimeList.Time.{of_micros}
use mcuproxy.TimeList.Schedule.{micros, sooner, insert_due}
use mcuproxy.TimeList.Calls.{IsTimed, agenda, elapsed}
use mcuproxy.TimeList.{TimeListType, infinity}
use mcuproxy.SlotAlloc.{SlotAlloc, slot_malloc}
use mcuproxy.EpCore.Calls.{running, ep_call_later-agenda}
use mcuproxy.EpCore.{event_size, ep_call_later}

abbrev nodes : Option SlotAlloc
nodes = some (record { slot_size = 32; free_slots = 4128 ∷ []; chunk_mem = 4096; chunk_size = 64 })

-- A call is due after 5 s.
abbrev queue : TimeListType
queue = record {
  event_head = infinity;
  events =
      record {
        address = 4096;
        tv_remain = of_micros 5000000;
        cb_timeout = 1;
        cb_param = 0;
        reserved = 77;
        id_token = 1;
      }
      ∷ [];
  list_token = 2;
  tv_last_sync = of_micros 1000000;
}

queue-IsTimed : IsTimed queue
unfolding of_micros micros
queue-IsTimed = record { events = (refl, tt); head = refl; late = omega arith; clock = refl }

ep_call_later-agenda_example :
    (al : Option SlotAlloc) × (al ≡ (slot_malloc nodes event_size).1)
    × (((slot_malloc nodes event_size).0 ≡ 0)
          × (ep_call_later (of_micros 2000000) (running queue nodes) (of_micros 500000) 77 5
              ≡ some (negsuc 0, running queue al))
        ⊎ (lst : TimeListType) × (0 < (slot_malloc nodes event_size).0)
          × (ep_call_later (of_micros 2000000) (running queue nodes) (of_micros 500000) 77 5
              ≡ some (pos queue.list_token, running lst al))
          × IsTimed lst
          × (agenda lst
              ≡ insert_due queue.list_token 500000 (sooner (elapsed 2000000 queue) (agenda queue))))
ep_call_later-agenda_example =
    ep_call_later-agenda 2000000 nodes 500000 77 5 queue-IsTimed (omega arith)
