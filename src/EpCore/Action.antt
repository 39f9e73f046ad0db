-- ===== src/EpCore/Action.antt =====
-- libckits/epCore.c: the event loop keeps the nodes, whatever the callbacks do.
use mcuproxy.Prelude.{ℕ, ◌<◌, [], Option}
use mcuproxy.EpCore.Loop.{EpLoop, Outcome}
use mcuproxy.EpCore.Stops.{IsLooping, Comes}
use mcuproxy.EpCore.Callbacks.{Acts}

module _ (base : ℕ) (some_base : 0 < base) where
  module _ (callback : ℕ → ℕ → EpLoop → Option EpLoop) (obeys : Acts callback) where
    abbrev Keeps {ℓ} : {A : Type ℓ} → Outcome (A × EpLoop) → Type 0
    Keeps r = Comes base (λ x. IsLooping base [] x.1) r
