-- ===== src/EpCore/Callbacks.antt =====
-- libckits/epCore.c: callbacks and alarms keep the nodes.
use mcuproxy.Prelude.{
  ℕ, ◌<◌, ◌≡◌, refl, List, [], ◌∷◌, Option, some, ◌==◌, ◌>>=◌, Bool-cases, Option-cases, inl, inr,
}
use mcuproxy.TimeList.Time.{of_micros}
use mcuproxy.TimeList.{AlarmEventNode}
use mcuproxy.EpCore.Kept.{recycle-IsKept}
use mcuproxy.EpCore.Asked.{ep_call_later-IsKept, ep_cancel_call-IsKept, Parted-IsKept, same-IsKept}
use mcuproxy.EpCore.Fired.{handle_alarm_event-Lost, handle_alarm_event-Handles}
use mcuproxy.EpCore.Stops.{IsLooping, Comes}
use mcuproxy.EpCore.Loop.{
  EpTransport, EpLoop, set_transport, call_handler, ep_time_out_handler_call, run_callback,
  after_handled, handle_alarms,
}
use mcuproxy.EpCore.{ep_call_later, ep_cancel_call}

-- What a callback does to the loop: a call made later, with its time in microseconds, its handler
-- and its parameter, a cancellation, each at a time of the clock, or a transport that it stores at an
-- address, `none` if it frees the one that is there.
pub data Act : Type 0 where
  call_later : ℕ → ℕ → ℕ → ℕ → Act
  cancel_call : ℕ → ℕ → Act
  store : ℕ → Option EpTransport → Act

unfoldable pub perform : List Act → EpLoop → Option EpLoop
perform [] loop = some loop
perform (call_later t m handler param ∷ acts) loop = do
  (ret, ep) ← ep_call_later (of_micros t) loop.ep (of_micros m) handler param
  perform acts (record loop { ep = ep })
perform (cancel_call t token ∷ acts) loop = do
  (ret, ep) ← ep_cancel_call (of_micros t) loop.ep token
  perform acts (record loop { ep = ep })
perform (store transport it ∷ acts) loop = perform acts (set_transport transport it loop)

-- A callback acts on the loop through these alone.
abbrev pub Acts : (ℕ → ℕ → EpLoop → Option EpLoop) → Type 0
Acts callback =
    (function param : ℕ) (loop : EpLoop)
    → (acts : List Act) × (callback function param loop ≡ perform acts loop)

abbrev pub Returns : ℕ → List ℕ → Option EpLoop → Type 0
Returns base held r = (after : EpLoop) × (r ≡ some after) × IsLooping base held after

module _ (base : ℕ) (some_base : 0 < base) where
  perform-IsLooping :
      (held : List ℕ) (acts : List Act) (loop : EpLoop)
      → IsLooping base held loop
      → Returns base held (perform acts loop)
  unfolding perform
  perform-IsLooping held [] loop h = (loop, refl, h)
  perform-IsLooping held (call_later t m handler param ∷ acts) loop h =
      let (ret, ep, run, kept) =
        ep_call_later-IsKept base some_base held t loop.ep m handler param h in
      let (after, ran, h') = perform-IsLooping held acts (record loop { ep = ep }) kept in
      (after, rw run ran, h')
  perform-IsLooping held (cancel_call t token ∷ acts) loop h =
      let (ret, ep, run, kept) = ep_cancel_call-IsKept base some_base held t loop.ep token h in
      let (after, ran, h') = perform-IsLooping held acts (record loop { ep = ep }) kept in
      (after, rw run ran, h')
  perform-IsLooping held (store transport it ∷ acts) loop h =
      perform-IsLooping held acts (set_transport transport it loop) h

  module _ (callback : ℕ → ℕ → EpLoop → Option EpLoop) (obeys : Acts callback) where
    callback-IsLooping :
        (held : List ℕ) (function param : ℕ) (loop : EpLoop)
        → IsLooping base held loop
        → Returns base held (callback function param loop)
    callback-IsLooping held function param loop h =
        let (acts, same) = obeys function param loop in rw same (perform-IsLooping held acts loop h)

    pub call_handler-IsLooping :
        (handler transport : ℕ) (loop : EpLoop)
        → IsLooping base [] loop
        → Comes base (IsLooping base []) (call_handler callback handler transport loop)
    unfolding call_handler
    call_handler-IsLooping handler transport loop h = elim (Bool-cases (handler == 0)) [
      | inl null ↦ rw null h
      | inr real ↦
          let (after, run, h') = callback-IsLooping [] handler transport loop h in rw (real, run) h'
    ]

    run_callback-IsLooping :
        (e : AlarmEventNode) (loop : EpLoop)
        → e.cb_timeout ≡ 1
        → IsLooping base (e.address ∷ []) loop
        → Comes base (IsLooping base []) (run_callback callback (some e) loop)
    unfolding run_callback ep_time_out_handler_call
    run_callback-IsLooping e loop ours h =
        let (after, run, h') = callback-IsLooping (e.address ∷ []) e.reserved e.cb_param loop h in
        let (ep, ran, kept) = recycle-IsKept base some_base e.address [] after.ep h' in
        rw (ours, run, ran) kept

    pub handle_alarms-IsLooping :
        (t : ℕ) (loop : EpLoop)
        → IsLooping base [] loop
        → Comes base (IsLooping base []) (handle_alarms callback (of_micros t) loop)
    unfolding handle_alarms after_handled
    handle_alarms-IsLooping t loop kept = elim (handle_alarm_event-Handles (of_micros t) kept.lst) [
      | inl (run, empty, due) ↦
          rw (kept.queue, run)
            (
              same-IsKept base some_base [] t loop.ep kept kept.lst kept.ours refl,
              (kept.lst, refl, empty, due),
            )
      | inr (fired, lst', run) ↦
          let lost = handle_alarm_event-Lost (of_micros t) kept.lst lst' fired kept.ours run in
          elim (Option-cases fired) [
            | inl quiet ↦
                let (ours', nodes) = rw quiet at lost in
                rw (kept.queue, run, quiet)
                  (unfold run_callback in
                    same-IsKept base some_base [] t loop.ep kept lst' ours' nodes)
            | inr (e, it) ↦
                let (ours', with, called) = rw it at lost in
                let left = Parted-IsKept base some_base [] t loop.ep kept e lst' (ours', with) in
                rw (kept.queue, run, it)
                  (run_callback-IsLooping e
                    (record loop { ep = record (loop.ep) { wait_queue = some lst' } }) called left)
          ]
    ]
