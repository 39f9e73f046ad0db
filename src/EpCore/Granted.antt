-- ===== src/EpCore/Granted.antt =====
-- libckits/epCore.c: the static state, and when a call made later is refused.
use mcuproxy.Prelude.{
  ℕ, ◌≤◌, ◌<◌, suc, ◌*◌, ◌≡◌, refl, sym, ap, ◌∙◌, true, false, List, [], ◌∷◌, Option, none, some,
  arith, length, ◌==◌, if◌then◌else◌, Bool-cases, inl, inr,
}
use mcuproxy.Prelude.Int.{ℤ, pos, negsuc}
use mcuproxy.SlotAlloc.Grid.{times, add_slots-grid, length-grid}
use mcuproxy.SlotAlloc.{SlotAlloc, real_slot_size, add_slots, init_slot_allocator, slot_malloc}
use mcuproxy.SlotAlloc.Shared.{served}
use mcuproxy.TimeList.Time.{of_micros}
use mcuproxy.TimeList.Calls.{init_time_list-IsTimed}
use mcuproxy.TimeList.{AlarmEventNode, TimeListType, infinity, init_time_list}
use mcuproxy.EpCore.Nodes.{addresses}
use mcuproxy.EpCore.Calls.{running}
use mcuproxy.EpCore.Kept.{IsKept, IsKept-ready, slot_malloc-Shares}
use mcuproxy.EpCore.Asked.{checked, add_alarm_event_node_returns, ep_call_later-IsKept}
use mcuproxy.EpCore.{
  EpCore, event_size, node_limit, static_core, check_singleton, time_event_factory_singleton,
  ep_factory_create_time_event, new_alarm_node, enqueue, ep_call_later,
}

abbrev or_list : TimeListType → Option TimeListType → TimeListType
or_list lst none = lst
or_list lst (some lst') = lst'

abbrev ret_of : Option (ℤ × EpCore) → ℤ
ret_of none = pos 0
ret_of (some (ret, ep)) = ret

module _ (base : ℕ) (some_base : 0 < base) where
  abbrev static_pool : SlotAlloc
  static_pool = record {
    slot_size = event_size;
    free_slots = add_slots base event_size node_limit [];
    chunk_mem = base;
    chunk_size = node_limit * event_size;
  }

  static_pool-run :
      (lst : Option TimeListType)
      → (time_event_factory_singleton
          (record (static_core base) { singleton_flag = true; wait_queue = lst })).time_event_alloc
        ≡ some static_pool
  unfolding time_event_factory_singleton init_slot_allocator real_slot_size
  static_pool-run lst = let real : base == 0 ≡ false = ground arith in rw real refl

  -- CHECK_SINGLETON makes the static state one where all nodes are free and none waits.
  pub static_core-IsKept :
      (t : ℕ) → IsKept base [] (check_singleton (of_micros t) (static_core base))
  unfolding check_singleton init_time_list addresses times
  static_core-IsKept t =
      let (given, run, timed, empty) = init_time_list-IsTimed t in
      let lst : TimeListType = record {
        event_head = infinity;
        events = [];
        list_token = 1;
        tv_last_sync = of_micros t;
      } in
      let it : given ≡ lst = sym (ap (λ r. or_list lst r.1) run) in
      let same = add_slots-grid base event_size node_limit [] in
      record {
        lst = lst;
        al = static_pool;
        started = refl;
        queue = refl;
        pool = static_pool-run (init_time_list (of_micros t) true).1;
        ours = tt;
        shared = record {
          slot = refl;
          chunk = (refl, refl);
          all = λ a. omega (arith, ap (times a) same);
          count = omega (arith, ap length same, length-grid base event_size node_limit);
        };
      }

  length-addresses : (es : List AlarmEventNode) → length (addresses es) ≡ length es
  unfolding addresses
  length-addresses [] = refl
  length-addresses (e ∷ es) = ap suc (length-addresses es)

  -- The answer to a call depends on the allocator alone.
  answer :
      (ep : EpCore) (t m handler param : ℕ) (kept : IsKept base [] ep)
      → 0 < handler
      → (ep' : EpCore) × (ep_call_later (of_micros t) ep (of_micros m) handler param
          ≡ some (
            if (slot_malloc (some kept.al) event_size).0 == 0
                then negsuc 0
                else pos kept.lst.list_token,
            ep',
          ))
  unfolding ep_call_later ep_factory_create_time_event enqueue
  answer ep t m handler param kept some_handler =
      let real : handler == 0 ≡ false = ground arith in
      let mem = (slot_malloc (some kept.al) event_size).0 in
      let al = (slot_malloc (some kept.al) event_size).1 in
      elim (Bool-cases (mem == 0)) [
        | inl out ↦ (
          running kept.lst al,
          rw (checked (of_micros t) ep kept.started, real, IsKept-ready kept, out) refl,
        )
        | inr got ↦
            let (lst', run) =
              add_alarm_event_node_returns (of_micros t) kept.lst
                (new_alarm_node mem (of_micros m) handler param) in
            (
              running lst' al,
              rw (checked (of_micros t) ep kept.started, real, IsKept-ready kept, got, run) refl,
            )
      ]

  -- In a running state where no call is being handled, `epCallLater` with a handler and a time in
  -- range returns the token of the queue if fewer than 40 calls wait, and -1 if 40 wait: no node is
  -- ever lost. The nodes are kept.
  pub ep_call_later-granted :
      (ep : EpCore) (t m handler param : ℕ) (kept : IsKept base [] ep)
      → 0 < handler
      → (ret : ℤ) × (ep' : EpCore) × (ep_call_later (of_micros t) ep (of_micros m) handler param
          ≡ some (ret, ep'))
        × IsKept base [] ep'
        × (length kept.lst.events ≤ node_limit)
        × (length kept.lst.events < node_limit → ret ≡ pos kept.lst.list_token)
        × (length kept.lst.events ≡ node_limit → ret ≡ negsuc 0)
  ep_call_later-granted ep t m handler param kept some_handler =
      let (ret, ep', run, kept') =
        ep_call_later-IsKept base some_base [] t ep m handler param kept in
      let (ep'', run') = answer ep t m handler param kept some_handler in
      let mem = (slot_malloc (some kept.al) event_size).0 in
      let same : ret ≡ (if mem == 0 then negsuc 0 else pos kept.lst.list_token) =
        ap ret_of (sym run ∙ run') in
      let long = length-addresses kept.lst.events in
      let (al, got, cases) =
        slot_malloc-Shares base some_base kept.al (addresses kept.lst.events) kept.shared in
      (
        ret,
        ep',
        run,
        kept',
        omega (arith, long, kept.shared.count),
        λ few.
            let got =
              served base event_size node_limit 1280 (omega arith) some_base (omega arith)
                (omega arith) event_size kept.shared (omega arith) (omega arith)
                (omega (arith, long, few)) in
            same ∙ ground arith,
        λ all. elim cases [
          | inl (out, s) ↦ same ∙ ground (arith, out)
          | inr (real, s) ↦ absurd (omega (arith, s.count, long, all))
        ],
      )
