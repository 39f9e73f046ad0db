-- ===== src/EpCore/Stops.antt =====
-- libckits/epCore.c: what a piece of the event loop comes to, and where it stops.
use mcuproxy.Prelude.{ℕ, ◌≡◌, true, List, [], none, some}
use mcuproxy.TimeList.{TimeListType, is_due}
use mcuproxy.EpCore.Kept.{IsKept}
use mcuproxy.EpCore.Loop.{
  EpTransport, EpLoop, Outcome, reached, head_due, wild_transport, fault, ◌>>=◌,
}

-- The nodes are kept, `held` apart.
abbrev pub IsLooping : ℕ → List ℕ → EpLoop → Type 0
IsLooping base held loop = IsKept base held loop.ep

-- The address holds no transport with a table.
abbrev pub IsWild : ℕ → EpLoop → Type 0
IsWild transport loop = (it : EpTransport) → loop.transports transport ≡ some it → it.vptr ≡ none

-- A piece of the loop comes to a state that has the property, or stops with the nodes kept: the
-- queue is empty and its head due, or the address is wild.
abbrev pub Comes {ℓ} : {A : Type ℓ} → ℕ → (A → Type 0) → Outcome A → Type 0
Comes base P (reached a) = P a
Comes base P (head_due loop) =
    IsLooping base [] loop
    × ((lst : TimeListType) × (loop.ep.wait_queue ≡ some lst)
        × (lst.events ≡ [])
        × (is_due lst.event_head ≡ true))
Comes base P (wild_transport transport loop) = IsLooping base [] loop × IsWild transport loop
Comes base P fault = ⊥

pub Comes-weaken {ℓ} :
    {A : Type ℓ} (base : ℕ) (P Q : A → Type 0) (m : Outcome A)
    → Comes base P m
    → ((a : A) → P a → Q a)
    → Comes base Q m
Comes-weaken base P Q (reached a) h weaken = weaken a h
Comes-weaken base P Q (head_due loop) h weaken = h
Comes-weaken base P Q (wild_transport transport loop) h weaken = h
Comes-weaken base P Q fault h weaken = h

-- One piece after the other.
pub Comes-next {ℓ κ} :
    {A : Type ℓ} {B : Type κ} (base : ℕ) (P : A → Type 0) (Q : B → Type 0) (m : Outcome A)
    (f : A → Outcome B)
    → Comes base P m
    → ((a : A) → P a → Comes base Q (f a))
    → Comes base Q (m >>= f)
Comes-next base P Q (reached a) f h next = next a h
Comes-next base P Q (head_due loop) f h next = h
Comes-next base P Q (wild_transport transport loop) f h next = h
Comes-next base P Q fault f h next = absurd h
