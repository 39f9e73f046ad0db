-- ===== src/SlotAlloc/Shared.antt =====
-- libckits/myAlloc.c: the slots of a chunk are shared between the free list and a client.
use mcuproxy.Prelude.{
  ℕ, ◌+◌, ◌*◌, ◌≤◌, ◌<◌, ◌≡◌, refl, ap, sym, inl, inr, false, ◌||◌, List, [], ◌∷◌, ◌++◌, Option,
  none, some, arith, length, ltb, leb, ◌==◌, if◌then◌else◌, Bool-cases, length-append, get_or,
}
use mcuproxy.SlotAlloc.Held.{
  without, times-at, times-twice, times-without, times-single, length-without,
}
use mcuproxy.SlotAlloc.Grid.{
  times, times-append, grid, AreApart, grid-from, grid-once, grid-AreApart,
}
use mcuproxy.SlotAlloc.{SlotAlloc, is_invalid, take_slot, slot_malloc, slot_free}

-- A request for so many bytes, or the return of the slot at a place of the list of live slots.
pub data Act : Type 0 where
  request release : ℕ → Act

abbrev pub Client : Type 0
Client = SlotAlloc × List ℕ

-- The client keeps a list of the slots it holds.
unfoldable pub keep : List ℕ → ℕ × Option SlotAlloc → Option Client
keep live (mem, none) = none
keep live (mem, some al) = some (al, if mem == 0 then live else mem ∷ live)

unfoldable pub give : List ℕ → Option SlotAlloc → Option Client
give live none = none
give live (some al) = some (al, live)

unfoldable pub act : Client → Act → Option Client
act (al, live) (request size) = keep live (slot_malloc (some al) size)
act (al, live) (release i) =
    if ltb i (length live)
    then give (without live i) (slot_free (some al) (get_or live i 0))
    else some (al, live)

unfoldable pub run : Option Client → List Act → Option Client
run none acts = none
run (some c) [] = some c
run (some c) (a ∷ acts) = run (act c a) acts

-- The free and the live slots are the `n` slots of `size` bytes from `base` on, each once.
pub record IsShared (base size n bytes : ℕ) (c : Client) : Type 0 where
  pub slot : c.0.slot_size ≡ size
  pub chunk : (c.0.chunk_mem ≡ base) × (c.0.chunk_size ≡ bytes)
  pub all : (a : ℕ) → times a c.0.free_slots + times a c.1 ≡ times a (grid base size n)
  pub count : length c.0.free_slots + length c.1 ≡ n

module _ (base size n bytes : ℕ) (some_size : 0 < size) (some_base : 0 < base)
    (fits : size * n ≤ bytes) (some_bytes : 0 < bytes) where
  pub live-within :
      {c : Client} (i : ℕ)
      → IsShared base size n bytes c
      → i < length c.1
      → (base ≤ get_or c.1 i 0) × (get_or c.1 i 0 + size ≤ base + bytes)
  live-within {c} i shared h =
      let a = get_or c.1 i 0 in
      let here = times-at c.1 i _ refl h in
      let (low, high) = grid-from base size n a (omega (arith, here, shared.all a)) in
      (low, omega arith)

  pub live-AreApart :
      {c : Client} (i j : ℕ)
      → IsShared base size n bytes c
      → i < j
      → j < length c.1
      → AreApart size (get_or c.1 i 0) (get_or c.1 j 0)
  live-AreApart {c} i j shared lt h =
      let a = get_or c.1 i 0 in
      let b = get_or c.1 j 0 in
      let one = grid-once base size n a some_size in
      elim (grid-AreApart base size n a b
        (omega (arith, times-at c.1 i _ refl (omega arith), shared.all a))
        (omega (arith, times-at c.1 j _ refl h, shared.all b))) [
          | inl same ↦
              absurd (omega (arith, times-twice c.1 i j a lt h refl (sym same), shared.all a))
          | inr apart ↦ apart
        ]

  granted :
      (slots live : List ℕ) (al : SlotAlloc)
      → al.free_slots ≡ slots
      → IsShared base size n bytes (al, live)
      → (c' : Client) × (keep live (let (mem, al') = take_slot al slots in (mem, some al'))
          ≡ some c')
        × IsShared base size n bytes c'
  unfolding keep take_slot times
  granted [] live al e shared = ((al, live), refl, shared)
  granted (slot ∷ slots) live al e shared =
      let split : (a : ℕ) → times a al.free_slots ≡ (if slot == a then 1 else 0) + times a slots =
        λ a. ap (times a) e in
      let here : 0 < times slot (grid base size n) = ground (arith, shared.all slot, split slot) in
      let (low, high) = grid-from base size n slot here in
      let real : slot == 0 ≡ false = ground arith in
      (
        (record al { free_slots = slots }, slot ∷ live),
        rw real,
        record {
          slot = shared.slot;
          chunk = shared.chunk;
          all = λ a. omega (arith, shared.all a, split a);
          count = omega (arith, shared.count, ap length e);
        },
      )

  valid :
      {al : SlotAlloc} {live : List ℕ}
      → IsShared base size n bytes (al, live)
      → is_invalid al ≡ false
  valid {al} shared = ground (arith, shared.slot, shared.chunk)

  taken :
      (slots live : List ℕ) (al : SlotAlloc)
      → al.free_slots ≡ slots
      → IsShared base size n bytes (al, live)
      → length live < n
      → 0 < (take_slot al slots).0
  unfolding take_slot times
  taken [] live al e shared some_free = absurd (omega (arith, shared.count, ap length e))
  taken (slot ∷ slots) live al e shared some_free =
      let split : times slot al.free_slots ≡ times slot (slot ∷ slots) = ap (times slot) e in
      let here : 0 < times slot (grid base size n) = ground (arith, shared.all slot, split) in
      let (low, high) = grid-from base size n slot here in omega arith

  -- A request of a fitting size is granted while a slot is free.
  pub served :
      {c : Client} (wanted : ℕ)
      → IsShared base size n bytes c
      → 0 < wanted
      → wanted ≤ size
      → length c.1 < n
      → 0 < (slot_malloc (some c.0) wanted).0
  unfolding slot_malloc
  served {c} wanted shared some_bytes' small some_free =
      let good : (wanted == 0) || ltb c.0.slot_size wanted ≡ false = ground (arith, shared.slot) in
      rw (valid shared, good) (taken c.0.free_slots c.1 c.0 refl shared some_free)

  pub act-IsShared :
      (al : SlotAlloc) (live : List ℕ) (a : Act)
      → IsShared base size n bytes (al, live)
      → (c' : Client) × (act (al, live) a ≡ some c') × IsShared base size n bytes c'
  unfolding act
  act-IsShared al live (request wanted) shared =
      elim (Bool-cases ((wanted == 0) || ltb al.slot_size wanted)) [
        | inl bad ↦ ((al, live), (unfold slot_malloc keep in rw (valid shared, bad)), shared)
        | inr good ↦
            let (c', run, shared') = granted al.free_slots live al refl shared in
            (c', (unfold slot_malloc in rw (valid shared, good) run), shared')
      ]
  act-IsShared al live (release i) shared = elim (Bool-cases (ltb i (length live))) [
    | inl held ↦
        let mem = get_or live i 0 in
        let (low, high) = live-within i shared (ground arith) in
        let real : mem == 0 ≡ false = ground arith in
        let inside : leb (al.chunk_mem + al.chunk_size) mem || ltb mem al.chunk_mem ≡ false =
          ground (arith, shared.chunk) in
        (
          (record al { free_slots = al.free_slots ++ mem ∷ [] }, without live i),
          (unfold slot_free give in rw (held, valid shared, real, inside)),
          record {
            slot = shared.slot;
            chunk = shared.chunk;
            all = λ a. omega (
              arith,
              shared.all a,
              times-append a al.free_slots (mem ∷ []),
              times-single mem a,
              times-without live i a (ground arith),
            );
            count = omega (
              arith,
              shared.count,
              length-append al.free_slots (mem ∷ []),
              length-without live i (ground arith),
            );
          },
        )
    | inr other ↦ ((al, live), rw other, shared)
  ]
