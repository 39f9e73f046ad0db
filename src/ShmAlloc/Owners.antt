-- ===== src/ShmAlloc/Owners.antt =====
-- libckits/shmAlloc.c: as many owners of a block as its header counts.
use mcuproxy.Prelude.{
  ℕ, ◌+◌, ◌-◌, ◌^◌, ◌<◌, ◌≡◌, ◌⊎◌, refl, sym, ◌∙◌, true, false, ◌||◌, List, ◌∷◌, arith, ◌==◌,
  if◌then◌else◌, Bool-cases, inl, inr, ltb, leb, some,
}
use mcuproxy.Prelude.Int.{pos, negsuc}
use mathlib.Core.Path.{subst}
use mcuproxy.PoolAlloc.Cover.{has}
use mcuproxy.PoolAlloc.{put_size}
use mcuproxy.PoolAlloc.Tiles.{Tiles, block-within}
use mcuproxy.ShmAlloc.Tiles.{masked, not_held}
use mcuproxy.ShmAlloc.Spare.{spare, IsTiled}
use mcuproxy.ShmAlloc.{
  ShmAlloc, head_size, real_size, references, is_invalid, is_foreign, shm_add_reference,
}
use mcuproxy.ShmAlloc.Counts.{
  count, recount_masked, apart_keys, put_self, put_other, bounded, one_more, most_references,
}

-- The chunk is tiled; a held block has one owner more than its header counts references, and no
-- other block has any.
pub record IsOwned (mem bytes : ℕ) (al : ShmAlloc) (held owners : List ℕ) : Type 0 where
  pub tiled : IsTiled mem bytes al held
  pub counted : (a : ℕ) → count a owners ≡ (if has a held then 1 + references (al.size_at a) else 0)
  pub behind : (a : ℕ) → has a held ≡ true → a + 4 < head_size + bytes

module _ (mem bytes : ℕ) (small : head_size + bytes < 2 ^ 31) (some_bytes : 0 < bytes) where
  pub valid : {al : ShmAlloc} {held : List ℕ} → IsTiled mem bytes al held → is_invalid al ≡ false
  valid {al} tiled = ground (arith, tiled.chunk)

  pub within :
      (al : ShmAlloc) (held owners : List ℕ) (a : ℕ)
      → IsOwned mem bytes al held owners
      → has a held ≡ true
      → is_foreign al (mem + a + 4) ≡ false
  within al held owners a owned linked =
      let sizes = masked al.size_at in
      let nodes = spare al.candidate al.free_parts in
      let swapped : Tiles head_size bytes sizes held nodes =
        λ x. omega (arith, owned.tiled.parts.tiles x) in
      let (low, high) = block-within head_size bytes small sizes held nodes a swapped linked in
      let (at, chunk, magic) = owned.tiled.chunk in
      let header : mem + a + 4 - 4 - al.address ≡ a = omega (arith, at) in
      let size : ltb al.chunk_size (real_size (al.size_at (mem + a + 4 - 4 - al.address))) ≡ false =
        rw header (unfold masked in ground (arith, chunk, high)) in
      ground (arith, size, chunk, at, owned.behind a linked)

  -- A count in the header of a held block is no other block's matter.
  pub recount-IsTiled :
      (al : ShmAlloc) (held : List ℕ) (a v : ℕ)
      → IsTiled mem bytes al held
      → has a held ≡ true
      → real_size v ≡ real_size (al.size_at a)
      → IsTiled mem bytes (record al { size_at = put_size al.size_at a v }) held
  recount-IsTiled al held a v tiled linked h =
      let nodes = spare al.candidate al.free_parts in
      record {
        chunk = tiled.chunk;
        sorted = tiled.sorted;
        parts = record {
          tiles =
              subst (λ f. Tiles head_size bytes f nodes held)
                (sym (recount_masked al.size_at a v h)) tiled.parts.tiles;
          single = λ b free.
              let apart =
                not_held head_size bytes small (masked al.size_at) nodes held b tiled.parts.tiles
                  free in
              rw (put_other al.size_at a v b (apart_keys b a held apart linked))
                (tiled.parts.single b free);
        };
      }

  -- Another count in the header of a held block, and as many owners.
  pub recount-IsOwned :
      (al : ShmAlloc) (held owners owners' : List ℕ) (a v : ℕ)
      → IsOwned mem bytes al held owners
      → has a held ≡ true
      → real_size v ≡ real_size (al.size_at a)
      → count a owners' ≡ 1 + references v
      → ((c : ℕ) → a == c ≡ false → count c owners' ≡ count c owners)
      → IsOwned mem bytes (record al { size_at = put_size al.size_at a v }) held owners'
  recount-IsOwned al held owners owners' a v owned linked size mine others = record {
    tiled = recount-IsTiled al held a v owned.tiled linked size;
    behind = owned.behind;
    counted = λ c. elim (Bool-cases (a == c)) [
      | inl here ↦
          let e : a ≡ c = ground arith in
          subst
            (λ b.
              count b owners'
              ≡ (if has b held then 1 + references (put_size al.size_at a v b) else 0))
            e (rw (linked, put_self al.size_at a v) mine)
      | inr there ↦ rw (put_other al.size_at a v c there) (others c there ∙ owned.counted c)
    ];
  }

  pub owners_of :
      (al : ShmAlloc) (held owners : List ℕ) (a : ℕ)
      → IsOwned mem bytes al held owners
      → has a held ≡ true
      → count a owners ≡ 1 + references (al.size_at a)
  owners_of al held owners a owned linked = ground (arith, owned.counted a, linked)

  -- On a tiled chunk whose held blocks have as many owners as their headers count,
  -- `shm_add_reference` to a held block changes nothing and fails if the block has four owners; with
  -- fewer, it succeeds and the block has one owner more.
  pub shm_add_reference-IsOwned :
      (al : ShmAlloc) (held owners : List ℕ) (a : ℕ)
      → IsOwned mem bytes al held owners
      → has a held ≡ true
      → let r = shm_add_reference (some al) (mem + a + 4) in
        ((count a owners ≡ 4) × (r ≡ (negsuc 0, some al)))
        ⊎ ((count a owners < 4)
            × ((al' : ShmAlloc) × (r ≡ (pos 0, some al'))
                × IsOwned mem bytes al' held (a ∷ owners)))
  unfolding shm_add_reference
  shm_add_reference-IsOwned al held owners a owned linked =
      let go : is_invalid al || is_foreign al (mem + a + 4) ≡ false =
        rw (within al held owners a owned linked) (ground (arith, valid owned.tiled)) in
      let header : mem + a + 4 - 4 - al.address ≡ a = omega (arith, owned.tiled.chunk.0) in
      let n = owners_of al held owners a owned linked in
      elim (Bool-cases (leb (real_size (al.size_at a) + 3) (al.size_at a))) [
        | inl full ↦
            inl (omega (arith, n, most_references (al.size_at a) full), rw (go, header, full) refl)
        | inr room ↦
            let (size, refs) = one_more (al.size_at a) room in
            inr (
              omega (arith, n, refs, bounded (al.size_at a + 1)),
              (
                record al { size_at = put_size al.size_at a (al.size_at a + 1) },
                rw (go, header, room) refl,
                recount-IsOwned al held owners (a ∷ owners) a (al.size_at a + 1) owned linked size
                    (unfold count in ground (arith, n, refs))
                    (λ c h. unfold count in ground (arith, h)),
              ),
            )
      ]
