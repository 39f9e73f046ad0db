-- ===== src/EpCore/Kept.antt =====
-- libckits/epCore.c: the event nodes are shared between the allocator, the queue, and the calls that
-- are running.
use mcuproxy.Prelude.{
  ℕ, ◌<◌, ◌≡◌, refl, ◌⊎◌, inl, inr, true, List, ◌∷◌, ◌++◌, Option, none, some, arith, length,
  length-append, ltb, ◌==◌, if◌then◌else◌, Bool-cases,
}
use mcuproxy.Prelude.Int.{pos}
use mcuproxy.SlotAlloc.Grid.{times, times-append}
use mcuproxy.SlotAlloc.Held.{without}
use mcuproxy.SlotAlloc.Shared.{Client, IsShared, keep, give, act, act-IsShared, request, release}
use mcuproxy.SlotAlloc.{SlotAlloc, init_slot_allocator, slot_malloc, slot_free}
use mcuproxy.TimeList.{TimeListType}
use mcuproxy.EpCore.Nodes.{addresses, AreOurs, IsWith}
use mcuproxy.EpCore.Calls.{running}
use mcuproxy.EpCore.{
  EpCore, event_size, node_limit, time_event_factory_singleton, ep_factory_recyle_time_event,
}

abbrev node_bytes : ℕ
node_bytes = 1280

-- Free nodes, those of the queue and those in `held` are the nodes from `base` on, each once.
pub record IsKept (base : ℕ) (held : List ℕ) (ep : EpCore) : Type 0 where
  pub lst : TimeListType
  pub al : SlotAlloc
  pub started : ep.singleton_flag ≡ true
  pub queue : ep.wait_queue ≡ some lst
  pub pool : (time_event_factory_singleton ep).time_event_alloc ≡ some al
  pub ours : AreOurs lst.events
  pub shared : IsShared base event_size node_limit node_bytes (al, held ++ addresses lst.events)

ready :
    (ep : EpCore) (lst : TimeListType) (al : SlotAlloc)
    → ep.singleton_flag ≡ true
    → ep.wait_queue ≡ some lst
    → (time_event_factory_singleton ep).time_event_alloc ≡ some al
    → time_event_factory_singleton ep ≡ running lst (some al)
unfolding time_event_factory_singleton
ready ep lst al started queue pool = elim (Bool-cases ep.time_event_factory_flag) [
  | inl set ↦
      let alloc : ep.time_event_alloc ≡ some al = rw set at pool in
      rw set (cc (started, queue, set, alloc))
  | inr unset ↦
      let alloc : (init_slot_allocator ep.time_event_alloc).1 ≡ some al = rw unset at pool in
      rw unset (cc (started, queue, alloc))
]

-- With the factory initialised.
pub IsKept-ready :
    {base : ℕ} {held : List ℕ} {ep : EpCore} (kept : IsKept base held ep)
    → time_event_factory_singleton ep ≡ running kept.lst (some kept.al)
IsKept-ready {base} {held} {ep} kept = ready ep kept.lst kept.al kept.started kept.queue kept.pool

-- What `keep` made of the answer to a request.
kept_answer :
    (live : List ℕ) (r : ℕ × Option SlotAlloc) (c : Client)
    → keep live r ≡ some c
    → (al : SlotAlloc) × (r.1 ≡ some al) × (c ≡ (al, if r.0 == 0 then live else r.0 ∷ live))
unfolding keep
kept_answer live (mem, none) c e = absurd (cc)
kept_answer live (mem, some al) c e = (al, refl, ground (arith, e))

given_answer :
    (live : List ℕ) (r : Option SlotAlloc) (c : Client)
    → give live r ≡ some c
    → (al : SlotAlloc) × (r ≡ some al) × (c ≡ (al, live))
unfolding give
given_answer live none c e = absurd (cc)
given_answer live (some al) c e = (al, refl, ground (arith, e))

module _ (base : ℕ) (some_base : 0 < base) where
  abbrev pub Shares : SlotAlloc → List ℕ → Type 0
  Shares al live = IsShared base event_size node_limit node_bytes (al, live)

  -- Only how often a node is live matters.
  pub Shares-same :
      (al : SlotAlloc) (live live' : List ℕ)
      → ((a : ℕ) → times a live' ≡ times a live)
      → length live' ≡ length live
      → Shares al live
      → Shares al live'
  Shares-same al live live' same long s = record {
    slot = s.slot;
    chunk = s.chunk;
    all = λ a. omega (arith, s.all a, same a);
    count = omega (arith, s.count, long);
  }

  abbrev Answered : List ℕ → ℕ × Option SlotAlloc → Type 0
  Answered live (mem, r) =
      (al : SlotAlloc) × (r ≡ some al)
      × ((mem ≡ 0) × Shares al live ⊎ (0 < mem) × Shares al (mem ∷ live))

  pub slot_malloc-Shares :
      (al : SlotAlloc) (live : List ℕ)
      → Shares al live
      → Answered live (slot_malloc (some al) event_size)
  unfolding act
  slot_malloc-Shares al live s =
      let (c, run, s') =
        act-IsShared base event_size node_limit node_bytes (omega arith) some_base (omega arith)
          (omega arith) al live (request event_size) s in
      let r = slot_malloc (some al) event_size in
      let (al', got, same) = kept_answer live r c run in
      (
        al',
        got,
        elim (Bool-cases (r.0 == 0)) [
          | inl out ↦ inl (ground arith, rw (same, out) at s')
          | inr real ↦ inr (ground arith, rw (same, real) at s')
        ],
      )

  pub slot_free-Shares :
      (al : SlotAlloc) (x : ℕ) (live : List ℕ)
      → Shares al (x ∷ live)
      → (al' : SlotAlloc) × (slot_free (some al) x ≡ some al') × Shares al' live
  unfolding act without
  slot_free-Shares al x live s =
      let (c, run, s') =
        act-IsShared base event_size node_limit node_bytes (omega arith) some_base (omega arith)
          (omega arith) al (x ∷ live) (release 0) s in
      let first : ltb 0 (length (x ∷ live)) ≡ true = ground arith in
      let (al', got, same) = given_answer live (slot_free (some al) x) c (rw first at run) in
      (al', got, rw same at s')

  -- A node that leaves the queue is held.
  pub unqueue :
      (al : SlotAlloc) (x : ℕ) (held before after : List ℕ)
      → IsWith x after before
      → Shares al (held ++ before)
      → Shares al (x ∷ held ++ after)
  unfolding times
  unqueue al x held before after w =
      Shares-same al (held ++ before) (x ∷ held ++ after)
        (λ a. omega (arith, w.all a, times-append a held before, times-append a held after))
        (omega (arith, w.one_more, length-append held before, length-append held after))

  -- A node that is held goes to the queue.
  pub requeue :
      (al : SlotAlloc) (x : ℕ) (held before after : List ℕ)
      → IsWith x before after
      → Shares al (x ∷ held ++ before)
      → Shares al (held ++ after)
  unfolding times
  requeue al x held before after w =
      Shares-same al (x ∷ held ++ before) (held ++ after)
        (λ a. omega (arith, w.all a, times-append a held before, times-append a held after))
        (omega (arith, w.one_more, length-append held before, length-append held after))

  -- The node of a call that has run goes back to the allocator.
  pub recycle-IsKept :
      (x : ℕ) (held : List ℕ) (ep : EpCore)
      → IsKept base (x ∷ held) ep
      → (ep' : EpCore) × (ep_factory_recyle_time_event ep x ≡ (pos 0, ep')) × IsKept base held ep'
  unfolding ep_factory_recyle_time_event
  recycle-IsKept x held ep kept =
      let (al, run, s) =
        slot_free-Shares kept.al x (held ++ addresses kept.lst.events) kept.shared in
      (
        running kept.lst (some al),
        rw (IsKept-ready kept, run) refl,
        record {
          lst = kept.lst;
          al = al;
          started = refl;
          queue = refl;
          pool = unfold time_event_factory_singleton in refl;
          ours = kept.ours;
          shared = s;
        },
      )
