-- ===== src/EpCore.antt =====
-- libckits/epCore.c: the calls that are made later. The event nodes come from a slot allocator, and
-- wait in the timer list. A `wait_queue` of `none` was never initialised; to use it is a fault,
-- `none`. Loop adds the descriptor of epoll and the transports.
pub mod Calls
pub mod Loop
pub mod Waiting
pub mod Nodes
pub mod Kept
pub mod Asked
pub mod Fired
pub mod Stops
pub mod Callbacks
pub mod Dispatch
pub mod Action
pub mod Granted
mod LoopTests
mod Tests
use mcuproxy.Prelude.{ℕ, ◌*◌, Bool, true, false, [], Option, none, some, ◌==◌, if◌then◌else◌}
use mcuproxy.Prelude.Int.{ℤ, pos, negsuc}
use mcuproxy.TimeList.Time.{Timeval}
use mcuproxy.TimeList.{
  AlarmEventNode, TimeListType, init_time_list, add_alarm_event_node, del_alarm_event_node,
}
use mcuproxy.SlotAlloc.{SlotAlloc, init_slot_allocator, slot_malloc, slot_free}

pub record EpCore : Type 0 where
  pub singleton_flag : Bool
  pub wait_queue : Option TimeListType
  pub time_event_factory_flag : Bool
  pub time_event_alloc : Option SlotAlloc

-- `sizeof(alarmEventNode)`
abbrev pub event_size : ℕ
event_size = 32

-- `theEventNodes`, `2 * CONCRET_LIMIT` nodes.
abbrev pub node_limit : ℕ
node_limit = 40

-- The static values; `base` is the address of `theEventNodes`.
abbrev pub static_core : ℕ → EpCore
static_core base = record {
  singleton_flag = false;
  wait_queue = none;
  time_event_factory_flag = false;
  time_event_alloc = some (record {
    slot_size = event_size;
    free_slots = [];
    chunk_mem = base;
    chunk_size = node_limit * event_size;
  });
}

unfoldable pub check_singleton : Timeval → EpCore → EpCore
check_singleton now ep =
    if ep.singleton_flag
    then ep
    else record ep { singleton_flag = true; wait_queue = (init_time_list now true).1 }

unfoldable pub time_event_factory_singleton : EpCore → EpCore
time_event_factory_singleton ep = if ep.time_event_factory_flag then ep else record ep {
  time_event_factory_flag = true;
  time_event_alloc = (init_slot_allocator ep.time_event_alloc).1;
}

unfoldable pub ep_factory_create_time_event : EpCore → ℕ × EpCore
ep_factory_create_time_event ep =
    let ep' = time_event_factory_singleton ep in
    let (mem, al) = slot_malloc ep'.time_event_alloc event_size in
    (mem, record ep' { time_event_alloc = al })

unfoldable pub ep_factory_recyle_time_event : EpCore → ℕ → ℤ × EpCore
ep_factory_recyle_time_event ep this_event =
    let ep' = time_event_factory_singleton ep in
    if ep'.time_event_factory_flag
    then (pos 0, record ep' { time_event_alloc = slot_free ep'.time_event_alloc this_event })
    else (negsuc 0, ep')

-- The address of `epTimeOutHandler`, which is not 0.
abbrev pub ep_time_out_handler : ℕ
ep_time_out_handler = 1

-- The node at `mem` as `epCallLater` fills it in; its token is set when it is added.
abbrev pub new_alarm_node : ℕ → Timeval → ℕ → ℕ → AlarmEventNode
new_alarm_node mem remain handler param = record {
  address = mem;
  tv_remain = remain;
  cb_timeout = ep_time_out_handler;
  cb_param = param;
  reserved = handler;
  id_token = 0;
}

-- The node is added to the queue, if there is one.
unfoldable pub enqueue : Timeval → EpCore → AlarmEventNode → Option (ℤ × EpCore)
enqueue now ep new_node = elim ep.wait_queue [
  | none ↦ none
  | some lst ↦
      let (ret, queue) = add_alarm_event_node now (some lst) new_node in
      some (ret, record ep { wait_queue = queue })
]

unfoldable pub ep_call_later : Timeval → EpCore → Timeval → ℕ → ℕ → Option (ℤ × EpCore)
ep_call_later now ep remain handler param =
    let ep' = check_singleton now ep in
    if handler == 0
    then some (negsuc 0, ep')
    else let (mem, ep'') = ep_factory_create_time_event ep' in
      if mem == 0
      then some (negsuc 0, ep'')
      else enqueue now ep'' (new_alarm_node mem remain handler param)

-- What is done with the event that was deleted.
unfoldable pub recycle_found : EpCore → Option AlarmEventNode → ℤ × EpCore
recycle_found ep none = (negsuc 0, ep)
recycle_found ep (some the_event) = ep_factory_recyle_time_event ep the_event.address

unfoldable pub ep_cancel_call : Timeval → EpCore → ℕ → Option (ℤ × EpCore)
ep_cancel_call now ep token = elim ep.wait_queue [
  | none ↦ none
  | some lst ↦
      let (the_event, queue) = del_alarm_event_node now (some lst) token in
      some (recycle_found (record ep { wait_queue = queue }) the_event)
]
