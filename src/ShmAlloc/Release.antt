-- ===== src/ShmAlloc/Release.antt =====
-- libckits/shmAlloc.c: `shm_free` of a block with owners.
use mcuproxy.Prelude.{ℕ, ◌+◌, ◌^◌, ◌<◌, ◌≡◌, true, false, List, ◌∷◌, arith}
use mcuproxy.PoolAlloc.Cover.{covers, has, covers-unlink}
use mcuproxy.PoolAlloc.{unlink}
use mcuproxy.PoolAlloc.Tiles.{Tiles}
use mcuproxy.ShmAlloc.Tiles.{not_held}
use mcuproxy.ShmAlloc.{ShmAlloc, head_size}

module _ (mem bytes : ℕ) (small : head_size + bytes < 2 ^ 31) (some_bytes : 0 < bytes) where
  pub once :
      (sizes : ℕ → ℕ) (nodes held : List ℕ) (a : ℕ)
      → Tiles head_size bytes sizes nodes held
      → has a held ≡ true
      → has a (unlink a held) ≡ false
  once sizes nodes held a tiles linked =
      not_held head_size bytes small sizes (a ∷ nodes) (unlink a held) a
        (λ x. unfold covers in omega (arith, tiles x, covers-unlink sizes a x held linked))
        (unfold has in ground arith)
