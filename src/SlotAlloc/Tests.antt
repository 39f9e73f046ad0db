-- ===== src/SlotAlloc/Tests.antt =====
-- libckits/myAlloc.c: slots of 16 bytes in a chunk of 50 bytes, and the theorem at it.
use mcuproxy.Prelude.{◌/◌, ◌≡◌, refl, List, [], ◌∷◌, some}
use mcuproxy.Prelude.Int.{pos}
use mcuproxy.SlotAlloc.Client.{IsServed, run-IsServed}
use mcuproxy.SlotAlloc.Shared.{Act, request, release, Client, keep, give, act, run}
use mcuproxy.SlotAlloc.Held.{without}
use mcuproxy.SlotAlloc.{
  SlotAlloc, real_slot_size, add_slots, init_slot_allocator, take_slot, slot_malloc, slot_free,
}

code : Unit {0}
unfolding real_slot_size add_slots init_slot_allocator take_slot slot_malloc slot_free without keep
    give act run
code = tt

abbrev chunk : SlotAlloc
chunk = record { slot_size = 12; free_slots = []; chunk_mem = 4096; chunk_size = 50 }

abbrev three : SlotAlloc
three = record {
  slot_size = 16;
  free_slots = 4096 ∷ 4112 ∷ 4128 ∷ [];
  chunk_mem = 4096;
  chunk_size = 50;
}

abbrev acts : List Act
acts = request 10 ∷ request 16 ∷ release 1 ∷ request 17 ∷ request 1 ∷ []

init_three : init_slot_allocator (some chunk) ≡ (pos 0, some three)
unfolding code
init_three = refl

five_acts :
    run (some (three, [])) acts ≡ some (record three { free_slots = 4096 ∷ [] }, 4128 ∷ 4112 ∷ [])
unfolding code
five_acts = refl

run-IsServed_example :
    (al : SlotAlloc) × (c : Client) × (init_slot_allocator (some chunk) ≡ (pos 0, some al))
    × (run (some (al, [])) acts ≡ some c)
    × IsServed 4096 (real_slot_size 12) (50 / real_slot_size 12) 50 c
run-IsServed_example = run-IsServed chunk acts refl
