-- ===== src/EpCore/Loop.antt =====
-- libckits/epCore.c: the transports and the event loop, `epAction`. What is outside the file is an
-- argument: the clock, what the calls of epoll return, and what the function at an address makes of
-- the loop when it is called. The transports are memory, in which an address may hold none: NULL, or
-- a transport that was freed. A use of such an address, or of a NULL table, stops the model there.
use mcuproxy.Prelude.{
  ℕ, Bool, true, false, ◌||◌, List, [], ◌∷◌, Option, none, some, ◌==◌, if◌then◌else◌,
}
use mcuproxy.Prelude.Int.{ℤ, pos, negsuc, ◌+ℤ◌, ◌*ℤ◌, eqb_ℤ}
use mcuproxy.Prelude.Int32.{wrap_int}
use mcuproxy.TimedEventQ.{div_1000}
use mcuproxy.TimeList.Time.{Timeval, of_micros}
use mcuproxy.TimeList.{
  AlarmEventNode, Handled, corrupted, handled, time_to_next_alarm_event, handle_alarm_event,
}
use mcuproxy.EpCore.{EpCore, check_singleton, ep_factory_recyle_time_event, ep_time_out_handler}

-- A function is its address, 0 for NULL.
pub record EpVirtualTable : Type 0 where
  pub handle_read : ℕ
  pub handle_write : ℕ
  pub handle_close : ℕ

pub record EpTransport : Type 0 where
  pub descriptor : ℤ
  pub vptr : Option EpVirtualTable

-- The state of epCore.c with the descriptor of epoll, and the transports at their addresses.
pub record EpLoop : Type 0 where
  pub ep : EpCore
  pub descriptor : ℤ
  pub transports : ℕ → Option EpTransport

-- What a piece of the loop comes to: a state with a value, or where it stops: the head of an empty
-- queue would be unlinked, an address is used that holds no transport with a table, or a call of
-- the queue or of a callback fails.
pub data Outcome {ℓ} (A : Type ℓ) : Type ℓ where
  reached : A → Outcome A
  head_due : EpLoop → Outcome A
  wild_transport : ℕ → EpLoop → Outcome A
  fault : Outcome A

-- `abbrev`, so that `reached a >>= f` computes wherever it stands.
infixl 5 ◌>>=◌
abbrev pub ◌>>=◌ {ℓ κ} : {A : Type ℓ} {B : Type κ} → Outcome A → (A → Outcome B) → Outcome B
reached a >>= f = f a
head_due loop >>= f = head_due loop
wild_transport transport loop >>= f = wild_transport transport loop
fault >>= f = fault

abbrev pub returned : Option EpLoop → Outcome EpLoop
returned none = fault
returned (some loop) = reached loop

-- A read of the memory of a transport, and of its table.
abbrev pub or_wild : EpLoop → ℕ → Option EpTransport → Outcome EpTransport
or_wild loop transport none = wild_transport transport loop
or_wild loop transport (some it) = reached it

abbrev pub transport_at : EpLoop → ℕ → Outcome EpTransport
transport_at loop transport = or_wild loop transport (loop.transports transport)

abbrev pub table_of : EpLoop → ℕ → Option EpVirtualTable → Outcome EpVirtualTable
table_of loop transport none = wild_transport transport loop
table_of loop transport (some vptr) = reached vptr

-- An event that epoll reports: the transport and the bits EPOLLHUP|EPOLLERR, EPOLLIN and EPOLLOUT.
pub record EpollEvent : Type 0 where
  pub ptr : ℕ
  pub hung_up : Bool
  pub readable : Bool
  pub writable : Bool

-- What `epoll_wait` comes back with.
pub data Wait : Type 0 where
  interrupted failed : Wait
  ready : List EpollEvent → Wait

-- CHECK_SINGLETON with the descriptor; `epoll_fd` is what `epoll_create` returns.
unfoldable pub check_loop : Timeval → ℤ → EpLoop → EpLoop
check_loop now epoll_fd loop =
    if loop.ep.singleton_flag
    then loop
    else record loop { ep = check_singleton now loop.ep; descriptor = epoll_fd }

-- A store of a whole transport, or of none where one is freed.
abbrev pub set_transport : ℕ → Option EpTransport → EpLoop → EpLoop
set_transport transport it loop = record loop {
  transports = λ a. if a == transport then it else loop.transports a;
}

abbrev pub set_descriptor : ℕ → ℤ → EpTransport → EpLoop → EpLoop
set_descriptor transport fd it loop =
    set_transport transport (some (record it { descriptor = fd })) loop

abbrev pub is_null : Option EpVirtualTable → Bool
is_null none = true
is_null (some table) = false

-- The tests on the memory of the transport; `ctl` is what `epoll_ctl` returns.
abbrev add_transport : ℤ → EpLoop → EpTransport → ℤ × EpLoop
add_transport ctl loop it =
    if is_null it.vptr || eqb_ℤ it.descriptor (negsuc 0) || eqb_ℤ loop.descriptor (negsuc 0)
    then (negsuc 0, loop)
    else if eqb_ℤ ctl (negsuc 0)
    then (negsuc 0, loop)
    else (pos 0, loop)

unfoldable pub ep_add_transport : Timeval → ℤ → EpLoop → ℕ → ℤ → Outcome (ℤ × EpLoop)
ep_add_transport now epoll_fd loop transport ctl =
    let loop' = check_loop now epoll_fd loop in
    if transport == 0
    then reached (negsuc 0, loop')
    else do it ← transport_at loop' transport; reached (add_transport ctl loop' it)

-- The `int` of milliseconds that `epoll_wait` is given.
unfoldable pub time_out : Timeval → ℤ
time_out tv = wrap_int (tv.tv_sec *ℤ pos 1000 +ℤ div_1000 tv.tv_usec)

module _ (callback : ℕ → ℕ → EpLoop → Option EpLoop) where
  -- A handler of a transport is called if it is not NULL.
  unfoldable pub call_handler : ℕ → ℕ → EpLoop → Outcome EpLoop
  call_handler handler transport loop =
      if handler == 0 then reached loop else returned (callback handler transport loop)

  -- `descriptor` is closed and set to -1, and then the handler is called.
  unfoldable pub close_live : ℕ → EpTransport → EpLoop → Outcome (ℤ × EpLoop)
  close_live transport it loop =
      if eqb_ℤ it.descriptor (negsuc 0) then reached (pos 1, loop) else do
        let closed = set_descriptor transport (negsuc 0) it loop
        table ← table_of closed transport it.vptr
        after ← call_handler table.handle_close transport closed
        reached (pos 0, after)

  unfoldable pub ep_close_transport : Timeval → ℤ → EpLoop → ℕ → Outcome (ℤ × EpLoop)
  ep_close_transport now epoll_fd loop transport =
      let loop' = check_loop now epoll_fd loop in
      if transport == 0
      then reached (pos 1, loop')
      else do it ← transport_at loop' transport; close_live transport it loop'

  -- The event has been unlinked; its node goes back when the handler has returned.
  unfoldable pub ep_time_out_handler_call : AlarmEventNode → EpLoop → Outcome EpLoop
  ep_time_out_handler_call the_event loop = do
    after ← returned (callback the_event.reserved the_event.cb_param loop)
    reached (record after { ep = (ep_factory_recyle_time_event after.ep the_event.address).1 })

  -- The callback of an event; epCore.c adds none but `epTimeOutHandler`.
  unfoldable pub run_callback : Option AlarmEventNode → EpLoop → Outcome EpLoop
  run_callback none loop = reached loop
  run_callback (some the_event) loop =
      if the_event.cb_timeout == ep_time_out_handler
      then ep_time_out_handler_call the_event loop
      else fault

  unfoldable pub after_handled : Handled → EpLoop → Outcome EpLoop
  after_handled corrupted loop = head_due loop
  after_handled (handled fired queue) loop =
      run_callback fired (record loop { ep = record (loop.ep) { wait_queue = queue } })

  unfoldable pub handle_alarms : Timeval → EpLoop → Outcome EpLoop
  handle_alarms now loop = after_handled (handle_alarm_event now loop.ep.wait_queue) loop

  -- A handler of the table that the transport had when its event was looked at.
  unfoldable pub serve :
      Bool → (EpVirtualTable → ℕ) → Option EpVirtualTable → ℕ → EpLoop → Outcome EpLoop
  serve false handler vptr transport loop = reached loop
  serve true handler vptr transport loop = do
    table ← table_of loop transport vptr
    call_handler (handler table) transport loop

  -- The body of the loop over the events.
  unfoldable pub dispatch : Timeval → ℤ → EpollEvent → EpLoop → Outcome EpLoop
  dispatch now epoll_fd event loop = do
    it ← transport_at loop event.ptr
    if event.hung_up
        then (do (ret, after) ← ep_close_transport now epoll_fd loop event.ptr; reached after)
        else (do
          read ← serve event.readable (λ vptr. vptr.handle_read) it.vptr event.ptr loop
          serve event.writable (λ vptr. vptr.handle_write) it.vptr event.ptr read)

  unfoldable pub dispatch_all : Timeval → ℤ → List EpollEvent → EpLoop → Outcome EpLoop
  dispatch_all now epoll_fd [] loop = reached loop
  dispatch_all now epoll_fd (event ∷ events) loop = do
    after ← dispatch now epoll_fd event loop
    dispatch_all now epoll_fd events after

-- One pass through the loop of `epAction`: the clock, in microseconds, when it asks for the next
-- event and when it handles the alarms, and what `epoll_wait` makes of the time it is given.
pub record Round : Type 0 where
  pub asked : ℕ
  pub woken : ℕ
  pub wait : ℤ → Wait

module _ (callback : ℕ → ℕ → EpLoop → Option EpLoop) where
  -- Whether the loop goes on, and its state.
  unfoldable pub after_wait : Timeval → ℤ → Wait → EpLoop → Outcome (Bool × EpLoop)
  after_wait now epoll_fd interrupted loop = do
    after ← handle_alarms callback now loop
    reached (true, after)
  after_wait now epoll_fd failed loop = reached (false, loop)
  after_wait now epoll_fd (ready events) loop = do
    alarmed ← handle_alarms callback now loop
    after ← dispatch_all callback now epoll_fd events alarmed
    reached (true, after)

  unfoldable pub pass : ℤ → Round → EpLoop → Outcome (Bool × EpLoop)
  pass epoll_fd round loop =
      let (tv, queue) = time_to_next_alarm_event (of_micros round.asked) loop.ep.wait_queue in
      after_wait (of_micros round.woken) epoll_fd (round.wait (time_out tv))
        (record loop { ep = record (loop.ep) { wait_queue = queue } })

  -- As many passes as are given: `true` if the loop is still running then.
  unfoldable pub passes : ℤ → List Round → EpLoop → Outcome (Bool × EpLoop)
  passes epoll_fd [] loop = reached (true, loop)
  passes epoll_fd (round ∷ rounds) loop = do
    (going, after) ← pass epoll_fd round loop
    if going then passes epoll_fd rounds after else reached (false, after)

  -- What `epAction` returns, `none` while it is running.
  unfoldable pub ep_action : Timeval → ℤ → List Round → EpLoop → Outcome (Option ℤ × EpLoop)
  ep_action now epoll_fd rounds loop =
      let loop' = check_loop now epoll_fd loop in
      if eqb_ℤ loop'.descriptor (negsuc 0) then reached (some (negsuc 0), loop') else do
        (going, after) ← passes epoll_fd rounds loop'
        reached (if going then none else some (pos 0), after)
