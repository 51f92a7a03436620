-- ===== src/LocalIds/Tests.antt =====
-- Runs of the allocator.
use p2engine.LocalIds.{alloc_id, create_allocator, new_allocator}
use p2engine.LocalIds.Lists.{apart, distinct}
use p2engine.LocalIds.Runs.{allocs, live_ids-distinct, releases, run_ids}
use p2engine.LocalIds.Valid.{Fresh, alloc_id-Fresh}
use p2engine.Prelude.{[], arith, refl, true, ◌∷◌, ◌≡◌}

live_ids-distinct_example :
    (let after =
        run_ids 256
          (allocs ∷ allocs ∷ releases 1 ∷ allocs ∷ allocs ∷ [])
          []
          (record (create_allocator true 0) { reserved = 2 ∷ []; tail_id = 0 }) in
      (distinct after.0 ≡ true) × (apart after.1.reserved after.0 ≡ true))
live_ids-distinct_example =
    live_ids-distinct 256 3 0 0 true (2 ∷ []) (allocs ∷ allocs ∷ releases 1 ∷ allocs ∷ allocs ∷ [])
      refl (omega arith)

alloc_id-Fresh_example :
    Fresh 3 [] (create_allocator true 0) (alloc_id 256 (create_allocator true 0))
unfolding create_allocator new_allocator
alloc_id-Fresh_example =
    alloc_id-Fresh 256 3 [] (create_allocator true 0)
      (record {
        avail_below = refl;
        live_below = refl;
        live_apart = refl;
        avail_distinct = refl;
        live_distinct = refl;
        unreserved = refl;
        reserved_below = refl;
      })
      (omega arith)
