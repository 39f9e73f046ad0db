-- ===== src/SlotAlloc/Client.antt =====
-- libckits/myAlloc.c: what a client of the slot allocator can rely on.
use native.Mathlib.Nat.{mul-div-le}
use mcuproxy.Prelude.{
  ℕ, ◌+◌, ◌*◌, ◌/◌, ◌≤◌, ◌<◌, ◌≡◌, refl, ap, false, List, [], ◌∷◌, some, arith, length, get_or,
}
use mcuproxy.Prelude.Int.{pos}
use mcuproxy.SlotAlloc.Grid.{times, add_slots-grid, length-grid, AreApart}
use mcuproxy.SlotAlloc.{
  SlotAlloc, is_invalid, real_slot_size, add_slots, init_slot_allocator, slot_malloc,
}
use mcuproxy.SlotAlloc.Shared.{
  Act, Client, run, IsShared, live-within, live-AreApart, served, act-IsShared,
}

module _ (base size n bytes : ℕ) (some_size : 0 < size) (some_base : 0 < base)
    (fits : size * n ≤ bytes) (some_bytes : 0 < bytes) where
  run-IsShared :
      (acts : List Act) (c : Client)
      → IsShared base size n bytes c
      → (c' : Client) × (run (some c) acts ≡ some c') × IsShared base size n bytes c'
  unfolding run
  run-IsShared [] c shared = (c, refl, shared)
  run-IsShared (a ∷ acts) (al, live) shared =
      let (c', now, shared') =
        act-IsShared base size n bytes some_size some_base fits some_bytes al live a shared in
      let (c'', later, shared'') = run-IsShared acts c' shared' in
      (c'', rw (now, run) later, shared'')

-- What a client with slots of `size` bytes relies on: no two slots that it holds overlap, and each
-- lies in the chunk; free and held together are `n`, and while fewer are held a request that fits
-- into a slot gets one.
pub record IsServed (base size n bytes : ℕ) (c : Client) : Type 0 where
  pub apart : (i j : ℕ) → i < j → j < length c.1 → AreApart size (get_or c.1 i 0) (get_or c.1 j 0)
  pub within :
      (i : ℕ) → i < length c.1 → (base ≤ get_or c.1 i 0) × (get_or c.1 i 0 + size ≤ base + bytes)
  pub count : length c.0.free_slots + length c.1 ≡ n
  pub served :
      (wanted : ℕ)
      → 0 < wanted
      → wanted ≤ size
      → length c.1 < n
      → 0 < (slot_malloc (some c.0) wanted).0

real_slot_size-eight : (size : ℕ) → 8 ≤ real_slot_size size
unfolding real_slot_size
real_slot_size-eight size = ground arith

-- From parameters that are not 0, `init_slot_allocator` succeeds. After any sequence of requests
-- and returns of held slots, no two slots that the client holds overlap, each lies in the chunk,
-- the free and the held slots together are as many as fit, and while fewer are held a request of
-- at least one byte and at most a slot is granted.
pub run-IsServed :
    (al : SlotAlloc) (acts : List Act)
    → is_invalid al ≡ false
    → (al' : SlotAlloc) × (c : Client) × (init_slot_allocator (some al) ≡ (pos 0, some al'))
      × (run (some (al', [])) acts ≡ some c)
      × IsServed al.chunk_mem
          (real_slot_size al.slot_size)
          (al.chunk_size / real_slot_size al.slot_size)
          al.chunk_size
          c
unfolding init_slot_allocator times
run-IsServed al acts good =
    let size = real_slot_size al.slot_size in
    let n = al.chunk_size / size in
    let eight = real_slot_size-eight al.slot_size in
    let al' = record al { slot_size = size; free_slots = add_slots al.chunk_mem size n [] } in
    let same = add_slots-grid al.chunk_mem size n [] in
    let shared : IsShared al.chunk_mem size n al.chunk_size (al', []) = record {
      slot = refl;
      chunk = (refl, refl);
      all = λ a. omega (arith, ap (times a) same);
      count = omega (arith, ap length same, length-grid al.chunk_mem size n);
    } in
    let fits = mul-div-le al.chunk_size size in
    let (c, ran, shared') =
      run-IsShared al.chunk_mem size n al.chunk_size (omega arith) (ground (arith, good)) fits
        (ground (arith, good)) acts (al', []) shared in
    (
      al',
      c,
      rw good,
      ran,
      record {
        apart = λ i j.
            live-AreApart al.chunk_mem size n al.chunk_size (omega arith) (ground (arith, good))
              fits (ground (arith, good)) i j shared';
        within = λ i.
            live-within al.chunk_mem size n al.chunk_size (omega arith) (ground (arith, good)) fits
              (ground (arith, good)) i shared';
        count = shared'.count;
        served = λ wanted.
            served al.chunk_mem size n al.chunk_size (omega arith) (ground (arith, good)) fits
              (ground (arith, good)) wanted shared';
      },
    )
