-- ===== src/EpCore/Asked.antt =====
-- libckits/epCore.c: the calls made later and their cancellation keep the nodes.
use mcuproxy.Prelude.{
  ℕ, ◌<◌, ◌≡◌, refl, sym, ap, ◌∙◌, inl, inr, true, false, List, [], ◌∷◌, ◌++◌, Option, none, some,
  arith, ◌==◌, Bool-cases, Option-cases,
}
use mcuproxy.Prelude.Int.{ℤ, pos, negsuc}
use mcuproxy.TimeList.Time.{Timeval, of_micros, time_interval}
use mcuproxy.TimeList.{
  AlarmEventNode, TimeListType, add_alarm_event_node, del_alarm_event_node, synchronize,
  query_alarm_event_node, sync_events, add_event, unlink_event,
}
use mcuproxy.SlotAlloc.{slot_malloc}
use mcuproxy.EpCore.Nodes.{
  addresses, AreOurs, IsWith, sync_events-addresses, sync_events-AreOurs, add_event-addresses,
  add_event-AreOurs, unlink_event-addresses, unlink_event-AreOurs,
}
use mcuproxy.EpCore.Calls.{running}
use mcuproxy.EpCore.Kept.{
  IsKept, IsKept-ready, slot_malloc-Shares, recycle-IsKept, unqueue, requeue,
}
use mcuproxy.EpCore.{
  EpCore, event_size, check_singleton, time_event_factory_singleton, ep_factory_create_time_event,
  new_alarm_node, enqueue, ep_call_later, recycle_found, ep_cancel_call,
}

pub checked : (now : Timeval) (ep : EpCore) → ep.singleton_flag ≡ true → check_singleton now ep ≡ ep
unfolding check_singleton
checked now ep started = rw started refl

-- The allocator does not depend on the queue.
same_pool :
    (ep : EpCore) (queue : Option TimeListType)
    → (time_event_factory_singleton (record ep { wait_queue = queue })).time_event_alloc
      ≡ (time_event_factory_singleton ep).time_event_alloc
unfolding time_event_factory_singleton
same_pool ep queue = elim (Bool-cases ep.time_event_factory_flag) [
  | inl set ↦ rw set refl
  | inr unset ↦ rw unset refl
]

abbrev pub queue_events : Option TimeListType → List AlarmEventNode
queue_events none = []
queue_events (some lst) = lst.events

-- Both calls return on any queue.
pub add_alarm_event_node_returns :
    (now : Timeval) (lst : TimeListType) (e : AlarmEventNode)
    → (lst' : TimeListType) × (add_alarm_event_node now (some lst) e
        ≡ (pos lst.list_token, some lst'))
unfolding add_alarm_event_node synchronize
add_alarm_event_node_returns now lst e = (_, refl)

del_alarm_event_node_returns :
    (now : Timeval) (lst : TimeListType) (token : ℕ)
    → (found : Option AlarmEventNode) × (lst' : TimeListType) × (del_alarm_event_node now
          (some lst)
          token
        ≡ (found, some lst'))
unfolding del_alarm_event_node
del_alarm_event_node_returns now lst token =
    elim (Option-cases (query_alarm_event_node token (synchronize now lst).events)) [
      | inl gone ↦ (none, synchronize now lst, rw (gone, del_alarm_event_node) refl)
      | inr (e, there) ↦
          let synced = synchronize now lst in
          let r = unlink_event token synced.event_head synced.events in
          (
            some e,
            record synced { events = r.0; event_head = r.1 },
            rw (there, del_alarm_event_node) refl,
          )
    ]

module _ (t : ℕ) (lst : TimeListType) (ours : AreOurs lst.events) where
  abbrev since : Timeval
  since = time_interval (of_micros t) lst.tv_last_sync

  -- What `addAlarmEventNode` does to the nodes of the queue.
  added :
      (e : AlarmEventNode) (ret : ℤ) (lst' : TimeListType)
      → add_alarm_event_node (of_micros t) (some lst) e ≡ (ret, some lst')
      → e.cb_timeout ≡ 1
      → IsWith e.address (addresses lst.events) (addresses lst'.events) × AreOurs lst'.events
  unfolding add_alarm_event_node synchronize
  added e ret lst' run ours' =
      let events : add_event (record e { id_token = lst.list_token }) (sync_events since lst.events)
          ≡ lst'.events =
        ap (λ r. queue_events r.1) run in
      let e' : AlarmEventNode = record e { id_token = lst.list_token } in
      let es = sync_events since lst.events in
      let same = sync_events-addresses since lst.events in
      (
        rw (sym events) (rw same at (add_event-addresses e' es)),
        rw (sym events) (add_event-AreOurs e' es ours' (sync_events-AreOurs since lst.events ours)),
      )

  -- What the queue loses: a node, or nothing.
  abbrev pub Parted : Option AlarmEventNode → List AlarmEventNode → Type 0
  Parted none after = AreOurs after × (addresses after ≡ addresses lst.events)
  Parted (some e) after = AreOurs after × IsWith e.address (addresses after) (addresses lst.events)

  deleted :
      (token : ℕ) (found : Option AlarmEventNode) (lst' : TimeListType)
      → del_alarm_event_node (of_micros t) (some lst) token ≡ (found, some lst')
      → Parted found lst'.events
  unfolding del_alarm_event_node synchronize
  deleted token found lst' run =
      let es = sync_events since lst.events in
      let same = sync_events-addresses since lst.events in
      let ours' = sync_events-AreOurs since lst.events ours in
      elim (Option-cases (query_alarm_event_node token es)) [
        | inl gone ↦
            let run' = rw (gone, del_alarm_event_node) at run in
            let nothing : none ≡ found = ap (λ r. r.0) run' in
            let events : es ≡ lst'.events = ap (λ r. queue_events r.1) run' in
            rw (sym nothing, sym events) (ours', same)
        | inr (e, there) ↦
            let run' = rw (there, del_alarm_event_node) at run in
            let it : some e ≡ found = ap (λ r. r.0) run' in
            let events : (unlink_event token lst.event_head es).0 ≡ lst'.events =
              ap (λ r. queue_events r.1) run' in
            rw (sym it, sym events)
              (
                unlink_event-AreOurs token lst.event_head es ours',
                rw same at (unlink_event-addresses token lst.event_head es e there),
              )
      ]

module _ (base : ℕ) (some_base : 0 < base) (held : List ℕ) (t : ℕ) where
  -- `epCallLater` with a time in range returns, and keeps the nodes.
  pub ep_call_later-IsKept :
      (ep : EpCore) (m handler param : ℕ)
      → IsKept base held ep
      → (ret : ℤ) × (ep' : EpCore) × (ep_call_later (of_micros t) ep (of_micros m) handler param
          ≡ some (ret, ep'))
        × IsKept base held ep'
  unfolding ep_call_later ep_factory_create_time_event enqueue
  ep_call_later-IsKept ep m handler param kept = elim (Bool-cases (handler == 0)) [
    | inl null ↦ (negsuc 0, ep, rw (checked (of_micros t) ep kept.started, null) refl, kept)
    | inr real ↦
        let lst = kept.lst in
        let (al, got, cases) =
          slot_malloc-Shares base some_base kept.al (held ++ addresses lst.events) kept.shared in
        let mem = (slot_malloc (some kept.al) event_size).0 in
        elim cases [
          | inl (out, s) ↦ (
            negsuc 0,
            running lst (some al),
            rw (checked (of_micros t) ep kept.started, real, IsKept-ready kept, got, out) refl,
            record {
              lst = lst;
              al = al;
              started = refl;
              queue = refl;
              pool = unfold time_event_factory_singleton in refl;
              ours = kept.ours;
              shared = s;
            },
          )
          | inr (some_mem, s) ↦
              let e = new_alarm_node mem (of_micros m) handler param in
              let (lst', run) = add_alarm_event_node_returns (of_micros t) lst e in
              let (with, ours') = added t kept.lst kept.ours e (pos lst.list_token) lst' run refl in
              let granted : mem == 0 ≡ false = ground arith in
              (
                pos lst.list_token,
                running lst' (some al),
                rw
                    (
                      checked (of_micros t) ep kept.started,
                      real,
                      IsKept-ready kept,
                      got,
                      granted,
                      run,
                    )
                    refl,
                record {
                  lst = lst';
                  al = al;
                  started = refl;
                  queue = refl;
                  pool = unfold time_event_factory_singleton in refl;
                  ours = ours';
                  shared =
                      requeue base some_base al mem held (addresses lst.events)
                        (addresses lst'.events) with s;
                },
              )
        ]
  ]

  -- The queue after a node may have left it.
  pub Parted-IsKept :
      (ep : EpCore) (kept : IsKept base held ep) (e : AlarmEventNode) (lst' : TimeListType)
      → Parted t kept.lst kept.ours (some e) lst'.events
      → IsKept base (e.address ∷ held) (record ep { wait_queue = some lst' })
  Parted-IsKept ep kept e lst' (ours', with) = record {
    lst = lst';
    al = kept.al;
    started = kept.started;
    queue = refl;
    pool = same_pool ep (some lst') ∙ kept.pool;
    ours = ours';
    shared =
        unqueue base some_base kept.al e.address held (addresses kept.lst.events)
          (addresses lst'.events) with kept.shared;
  }

  pub same-IsKept :
      (ep : EpCore) (kept : IsKept base held ep) (lst' : TimeListType)
      → AreOurs lst'.events
      → addresses lst'.events ≡ addresses kept.lst.events
      → IsKept base held (record ep { wait_queue = some lst' })
  same-IsKept ep kept lst' ours' same = record {
    lst = lst';
    al = kept.al;
    started = kept.started;
    queue = refl;
    pool = same_pool ep (some lst') ∙ kept.pool;
    ours = ours';
    shared = rw same kept.shared;
  }

  -- `epCancelCall` returns, and keeps the nodes.
  pub ep_cancel_call-IsKept :
      (ep : EpCore) (token : ℕ)
      → IsKept base held ep
      → (ret : ℤ) × (ep' : EpCore) × (ep_cancel_call (of_micros t) ep token ≡ some (ret, ep'))
        × IsKept base held ep'
  unfolding ep_cancel_call recycle_found
  ep_cancel_call-IsKept ep token kept =
      let (found, lst', run) = del_alarm_event_node_returns (of_micros t) kept.lst token in
      let parted = deleted t kept.lst kept.ours token found lst' run in
      elim (Option-cases found) [
        | inl gone ↦
            let (ours', kept_nodes) = rw gone at parted in
            (
              negsuc 0,
              record ep { wait_queue = some lst' },
              rw (kept.queue, run, gone) refl,
              same-IsKept ep kept lst' ours' kept_nodes,
            )
        | inr (e, there) ↦
            let left = Parted-IsKept ep kept e lst' (rw there at parted) in
            let (ep', ran, kept') =
              recycle-IsKept base some_base e.address held (record ep { wait_queue = some lst' })
                left in
            (pos 0, ep', rw (kept.queue, run, there, ran) refl, kept')
      ]
