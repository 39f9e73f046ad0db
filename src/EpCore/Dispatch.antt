-- ===== src/EpCore/Dispatch.antt =====
-- libckits/epCore.c: the handlers of the transports keep the nodes, whatever they do.
use mcuproxy.Prelude.{
  ℕ, ◌<◌, ◌≡◌, refl, sym, ap, ◌∙◌, Bool, true, false, List, [], ◌∷◌, arith, Option, none, some,
  ◌==◌, Bool-cases, inl, inr,
}
use mcuproxy.Prelude.Int.{ℤ, pos, negsuc, eqb_ℤ}
use mcuproxy.TimeList.Time.{Timeval}
use mcuproxy.EpCore.Loop.{
  EpVirtualTable, EpTransport, EpLoop, EpollEvent, Outcome, reached, ◌>>=◌, or_wild, transport_at,
  table_of, check_loop, set_descriptor, call_handler, close_live, ep_close_transport, serve,
  dispatch, dispatch_all,
}
use mcuproxy.EpCore.Stops.{IsLooping, IsWild, Comes, Comes-weaken, Comes-next}
use mcuproxy.EpCore.Callbacks.{Acts, call_handler-IsLooping}

abbrev vptr_of : Option EpTransport → Option EpVirtualTable
vptr_of none = none
vptr_of (some it) = it.vptr

closed_null :
    (transport : ℕ) (it : EpTransport) (loop : EpLoop)
    → it.vptr ≡ none
    → IsWild transport (set_descriptor transport (negsuc 0) it loop)
closed_null transport it loop null it' there =
    let here : transport == transport ≡ true = ground arith in
    let e : some (record it { descriptor = negsuc 0 }) ≡ some it' = rw here at there in
    sym (ap vptr_of e) ∙ null

module _ (base : ℕ) (some_base : 0 < base) where
  module _ (callback : ℕ → ℕ → EpLoop → Option EpLoop) (obeys : Acts callback) where
    pub checked_loop :
        {held : List ℕ} (now : Timeval) (epoll_fd : ℤ) (loop : EpLoop)
        → IsLooping base held loop
        → check_loop now epoll_fd loop ≡ loop
    unfolding check_loop
    checked_loop now epoll_fd loop h = rw h.started refl

    abbrev Keeps {ℓ} : {A : Type ℓ} → Outcome (A × EpLoop) → Type 0
    Keeps r = Comes base (λ x. IsLooping base [] x.1) r

    abbrev KeepsLoop : Outcome EpLoop → Type 0
    KeepsLoop r = Comes base (IsLooping base []) r

    -- A transport's memory is read, and its table.
    or_wild-Comes :
        (loop : EpLoop) (transport : ℕ) (o : Option EpTransport)
        → loop.transports transport ≡ o
        → IsLooping base [] loop
        → Comes base (λ it. loop.transports transport ≡ some it) (or_wild loop transport o)
    or_wild-Comes loop transport none e h =
        (h, λ it there. absurd (let nothing : none ≡ some it = sym e ∙ there in cc))
    or_wild-Comes loop transport (some it) e h = e

    transport_at-Comes :
        (loop : EpLoop) (transport : ℕ)
        → IsLooping base [] loop
        → Comes base (λ it. loop.transports transport ≡ some it) (transport_at loop transport)
    transport_at-Comes loop transport h =
        or_wild-Comes loop transport (loop.transports transport) refl h

    table_of-Comes :
        (loop : EpLoop) (transport : ℕ) (vptr : Option EpVirtualTable)
        → IsLooping base [] loop
        → (vptr ≡ none → IsWild transport loop)
        → Comes base (λ table. Unit {0}) (table_of loop transport vptr)
    table_of-Comes loop transport none h wild = (h, wild refl)
    table_of-Comes loop transport (some table) h wild = tt

    close_live-IsLooping :
        (loop : EpLoop) (transport : ℕ) (it : EpTransport)
        → IsLooping base [] loop
        → Keeps (close_live callback transport it loop)
    unfolding close_live
    close_live-IsLooping loop transport it h = elim (Bool-cases (eqb_ℤ it.descriptor (negsuc 0))) [
      | inl gone ↦ rw gone h
      | inr live ↦
          let closed = set_descriptor transport (negsuc 0) it loop in
          rw live (
            Comes-next base (λ table. Unit {0}) (λ x. IsLooping base [] x.1)
              (table_of closed transport it.vptr)
              (λ table. do
                after ← call_handler callback table.handle_close transport closed
                reached (pos 0, after))
              (table_of-Comes closed transport it.vptr h (closed_null transport it loop))
              (λ table _.
                Comes-next base (IsLooping base []) (λ x. IsLooping base [] x.1)
                  (call_handler callback table.handle_close transport closed)
                  (λ after. reached (pos 0, after))
                  (call_handler-IsLooping base some_base callback obeys table.handle_close transport
                    closed h)
                  (λ after h'. h')))
    ]

    close_transport-IsLooping :
        (now : Timeval) (epoll_fd : ℤ) (loop : EpLoop) (transport : ℕ)
        → IsLooping base [] loop
        → Keeps (ep_close_transport callback now epoll_fd loop transport)
    unfolding ep_close_transport
    close_transport-IsLooping now epoll_fd loop transport h =
        let same = checked_loop now epoll_fd loop h in
        elim (Bool-cases (transport == 0)) [
          | inl null ↦ rw (same, null) h
          | inr real ↦
              rw (same, real)
                (Comes-next base _ (λ x. IsLooping base [] x.1) (transport_at loop transport)
                  (λ it. close_live callback transport it loop)
                  (transport_at-Comes loop transport h)
                  (λ it there. close_live-IsLooping loop transport it h))
        ]

    -- The table that was read before may only be stale if it was there.
    abbrev Served : Option EpVirtualTable → ℕ → EpLoop → Type 0
    Served vptr transport loop = IsLooping base [] loop × (vptr ≡ none → IsWild transport loop)

    serve-IsLooping :
        (given : Bool) (handler : EpVirtualTable → ℕ) (vptr : Option EpVirtualTable) (transport : ℕ)
        (loop : EpLoop)
        → Served vptr transport loop
        → Comes base (Served vptr transport) (serve callback given handler vptr transport loop)
    unfolding serve
    serve-IsLooping false handler vptr transport loop h = h
    serve-IsLooping true handler none transport loop (h, wild) = (h, wild refl)
    serve-IsLooping true handler (some table) transport loop (h, wild) =
        Comes-weaken base (IsLooping base []) (Served (some table) transport)
          (call_handler callback (handler table) transport loop)
          (call_handler-IsLooping base some_base callback obeys (handler table) transport loop h)
          (λ after h'. (h', λ e. absurd (cc)))

    serve_both :
        (event : EpollEvent) (it : EpTransport) (loop : EpLoop)
        → IsLooping base [] loop
        → loop.transports event.ptr ≡ some it
        → KeepsLoop (
            serve callback event.readable (λ vptr. vptr.handle_read) it.vptr event.ptr loop
            >>= (λ read.
                serve callback event.writable (λ vptr. vptr.handle_write) it.vptr event.ptr read))
    serve_both event it loop h there =
        let wild : it.vptr ≡ none → IsWild event.ptr loop =
          λ null it' there'. ap vptr_of (sym there' ∙ there) ∙ null in
        Comes-next base (Served it.vptr event.ptr) (IsLooping base [])
          (serve callback event.readable (λ vptr. vptr.handle_read) it.vptr event.ptr loop)
          (λ read. serve callback event.writable (λ vptr. vptr.handle_write) it.vptr event.ptr read)
          (serve-IsLooping event.readable _ it.vptr event.ptr loop (h, wild))
          (λ read h'.
            Comes-weaken base (Served it.vptr event.ptr) (IsLooping base [])
              (serve callback event.writable (λ vptr. vptr.handle_write) it.vptr event.ptr read)
              (serve-IsLooping event.writable _ it.vptr event.ptr read h') (λ after h''. h''.0))

    dispatch-IsLooping :
        (now : Timeval) (epoll_fd : ℤ) (event : EpollEvent) (loop : EpLoop)
        → IsLooping base [] loop
        → KeepsLoop (dispatch callback now epoll_fd event loop)
    unfolding dispatch
    dispatch-IsLooping now epoll_fd event loop h =
        Comes-next base (λ it. loop.transports event.ptr ≡ some it) (IsLooping base [])
          (transport_at loop event.ptr) _ (transport_at-Comes loop event.ptr h)
          (λ it there. elim (Bool-cases event.hung_up) [
            | inl up ↦ rw up (
                Comes-next base (λ x. IsLooping base [] x.1) (IsLooping base [])
                  (ep_close_transport callback now epoll_fd loop event.ptr) (λ x. reached x.1)
                  (close_transport-IsLooping now epoll_fd loop event.ptr h) (λ x h'. h'))
            | inr well ↦ rw well (serve_both event it loop h there)
          ])

    pub dispatch_all-IsLooping :
        (now : Timeval) (epoll_fd : ℤ) (events : List EpollEvent) (loop : EpLoop)
        → IsLooping base [] loop
        → KeepsLoop (dispatch_all callback now epoll_fd events loop)
    unfolding dispatch_all
    dispatch_all-IsLooping now epoll_fd [] loop h = h
    dispatch_all-IsLooping now epoll_fd (event ∷ events) loop h =
        Comes-next base (IsLooping base []) (IsLooping base [])
          (dispatch callback now epoll_fd event loop)
          (λ after. dispatch_all callback now epoll_fd events after)
          (dispatch-IsLooping now epoll_fd event loop h)
          (λ next h'. dispatch_all-IsLooping now epoll_fd events next h')
