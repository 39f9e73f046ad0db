-- ===== src/TimeList.antt =====
-- libckits/timeList.c: a queue of timers in which each event holds the time that remains after the
-- event before it. A list may be NULL (`none`); the time that `gettimeofday` gives is the argument
-- `now`. `THREAD_SAFE` is not defined, so no mutex is taken.
pub mod Time
pub mod Schedule
pub mod Unlink
pub mod Calls
pub mod Handle
mod Tests
use Prim.Native.Nat.{bit_and}
use mcuproxy.Prelude.{
  ℕ, ◌+◌, Bool, true, false, ◌||◌, ◌&&◌, not, List, [], ◌∷◌, Option, none, some, ◌==◌,
  if◌then◌else◌,
}
use mcuproxy.Prelude.Int.{ℤ, pos, negsuc, ltb_ℤ, eqb_ℤ}
use Time.{Timeval, million, delay_zero, time_interval, time_overthan, add_remain}

-- An event at its address; a callback is a function pointer, 0 for NULL.
pub record AlarmEventNode : Type 0 where
  pub address : ℕ
  pub tv_remain : Timeval
  pub cb_timeout : ℕ
  pub cb_param : ℕ
  pub reserved : ℕ
  pub id_token : ℕ

-- The links are the list `events`; of the node `eventHead` only `tvRemain` is ever used.
pub record TimeListType : Type 0 where
  pub event_head : Timeval
  pub events : List AlarmEventNode
  pub list_token : ℕ
  pub tv_last_sync : Timeval

abbrev pub infinity : Timeval
infinity = record { tv_sec = pos 0x7FFFFFFF; tv_usec = pos 999999 }

unfoldable pub init_time_list : Timeval → Bool → ℤ × Option TimeListType
init_time_list now lst =
    if lst
    then (
      pos 0,
      some (record { event_head = infinity; events = []; list_token = 1; tv_last_sync = now }),
    )
    else (negsuc 0, none)

-- The loop of `synchronize`.
unfoldable pub sync_events : Timeval → List AlarmEventNode → List AlarmEventNode
sync_events since [] = []
sync_events since (cur ∷ rest) =
    let due = sync_events (time_interval since cur.tv_remain) rest in
    if time_overthan since cur.tv_remain
    then record cur { tv_remain = delay_zero } ∷ due
    else record cur { tv_remain = time_interval cur.tv_remain since } ∷ rest

unfoldable pub synchronize : Timeval → TimeListType → TimeListType
synchronize now lst = record lst {
  tv_last_sync = now;
  events = sync_events (time_interval now lst.tv_last_sync) lst.events;
}

-- The loop of `addAlarmEventNode` and the link in front of the node where it stopped.
unfoldable pub add_event : AlarmEventNode → List AlarmEventNode → List AlarmEventNode
add_event new_entry [] = new_entry ∷ []
add_event new_entry (cur ∷ rest) =
    let later =
      add_event (record new_entry { tv_remain = time_interval new_entry.tv_remain cur.tv_remain })
        rest in
    if time_overthan new_entry.tv_remain cur.tv_remain
    then cur ∷ later
    else new_entry
      ∷ record cur { tv_remain = time_interval cur.tv_remain new_entry.tv_remain }
      ∷ rest

unfoldable pub next_token : ℕ → ℕ
next_token token = bit_and (token + 1) 0x0FFFFFFF

unfoldable pub add_alarm_event_node :
    Timeval → Option TimeListType → AlarmEventNode → ℤ × Option TimeListType
add_alarm_event_node now none new_entry = (negsuc 0, none)
add_alarm_event_node now (some lst) new_entry =
    let synced = synchronize now lst in
    (
      pos synced.list_token,
      some (record synced {
        events = add_event (record new_entry { id_token = synced.list_token }) synced.events;
        list_token = next_token synced.list_token;
      }),
    )

-- `cur->tvRemain` of the first node behind the head, which is the head itself in an empty list.
unfoldable pub first_remain : TimeListType → Timeval
first_remain lst = elim lst.events [ [] ↦ lst.event_head | cur ∷ rest ↦ cur.tv_remain ]

unfoldable pub time_to_next_alarm_event :
    Timeval → Option TimeListType → Timeval × Option TimeListType
time_to_next_alarm_event now none = (infinity, none)
time_to_next_alarm_event now (some lst) =
    let synced = synchronize now lst in (first_remain synced, some synced)

abbrev pub is_zero : Timeval → Bool
is_zero tv = eqb_ℤ tv.tv_sec (pos 0) && eqb_ℤ tv.tv_usec (pos 0)

-- The test under which the first event is unlinked and its callback run.
abbrev pub is_due : Timeval → Bool
is_due tv = eqb_ℤ tv.tv_sec (pos 0) && ltb_ℤ tv.tv_usec (pos 500)

-- The event whose callback is run as the last step, if any; `corrupted` if the head of the list
-- itself would be unlinked and run.
pub data Handled : Type 0 where
  corrupted : Handled
  handled : Option AlarmEventNode → Option TimeListType → Handled

abbrev pub with_callback : AlarmEventNode → Option AlarmEventNode
with_callback cur = if cur.cb_timeout == 0 then none else some cur

unfoldable pub run_first : TimeListType → Handled
run_first lst = elim lst.events [
  | [] ↦ if is_due lst.event_head then corrupted else handled none (some lst)
  | cur ∷ rest ↦
      if is_due cur.tv_remain
      then handled (with_callback cur) (some (record lst { events = rest }))
      else handled none (some lst)
]

unfoldable pub handle_alarm_event : Timeval → Option TimeListType → Handled
handle_alarm_event now none = handled none none
handle_alarm_event now (some lst) =
    run_first (if is_zero (first_remain lst) then lst else synchronize now lst)

unfoldable pub query_alarm_event_node : ℕ → List AlarmEventNode → Option AlarmEventNode
query_alarm_event_node token [] = none
query_alarm_event_node token (cur ∷ rest) =
    if token == cur.id_token then some cur else query_alarm_event_node token rest

-- What remains of `cur` goes to the node behind it, which is the head of the list behind the last
-- event.
unfoldable pub hand_over :
    AlarmEventNode → Timeval → List AlarmEventNode → List AlarmEventNode × Timeval
hand_over cur head [] = ([], add_remain head cur.tv_remain)
hand_over cur head (next ∷ more) =
    (record next { tv_remain = add_remain next.tv_remain cur.tv_remain } ∷ more, head)

-- Unlinks the first event with that token.
unfoldable pub unlink_event : ℕ → Timeval → List AlarmEventNode → List AlarmEventNode × Timeval
unlink_event token head [] = ([], head)
unlink_event token head (cur ∷ rest) =
    let (rest', head') = unlink_event token head rest in
    if token == cur.id_token then hand_over cur head rest else (cur ∷ rest', head')

-- An event that is found is linked, so the test for a NULL link never holds.
unfoldable pub del_alarm_event_node :
    Timeval → Option TimeListType → ℕ → Option AlarmEventNode × Option TimeListType
del_alarm_event_node now none token = (none, none)
del_alarm_event_node now (some lst) token =
    let synced = synchronize now lst in
    elim (query_alarm_event_node token synced.events) [
      | none ↦ (none, some synced)
      | some entry ↦
          let (events, head) = unlink_event token synced.event_head synced.events in
          (some entry, some (record synced { events = events; event_head = head }))
    ]

unfoldable pub is_time_list_empty : TimeListType → Bool
is_time_list_empty lst = elim lst.events [ [] ↦ true | cur ∷ rest ↦ false ]

-- Token and time of each event, as printed, and their number.
unfoldable pub dump_events : List AlarmEventNode → List (ℕ × Timeval) × ℕ
dump_events [] = ([], 0)
dump_events (cur ∷ rest) =
    let (lines, ret) = dump_events rest in ((cur.id_token, cur.tv_remain) ∷ lines, ret + 1)

unfoldable pub dump_time_list :
    Timeval → Option TimeListType → List (ℕ × Timeval) × ℕ × Option TimeListType
dump_time_list now none = ([], 0, none)
dump_time_list now (some lst) =
    let synced = synchronize now lst in
    let (lines, ret) = dump_events synced.events in (lines, ret, some synced)
