-- ===== src/LocalIds/Runs.antt =====
-- Ids handed out and released in any order, of p2engine/local_id_allocator.hpp.
use p2engine.LocalIds.{
  IdAllocator, alloc_id, create_allocator, insert_avail, mem, new_allocator, release_id, reset_ids,
}
use p2engine.LocalIds.Lists.{
  all_below, all_below-append, all_below-without, apart, apart-append-without, apart-without,
  distinct, distinct-append, distinct-without, without,
}
use p2engine.LocalIds.Valid.{IsValid, alloc_id-Fresh}
use p2engine.Prelude.{
  Bool, List, [], arith, false, if◌then◌else◌, length, ltb, ltb→lt, max, not, refl, true, ℕ, ◌++◌,
  ◌+◌, ◌<◌, ◌||◌, ◌∷◌, ◌≡◌,
}
use p2engine.Trdp.Machine.Silent.{calls}

IsValid-if :
    (c : ℕ) (live : List ℕ) (b : Bool) (x y : IdAllocator)
    → (b ≡ true → IsValid c live x)
    → (b ≡ false → IsValid c live y)
    → IsValid c live (if b then x else y)
IsValid-if c live true x y f g = f refl
IsValid-if c live false x y f g = g refl

IsValid-avail :
    (c : ℕ) (live : List ℕ) (a : IdAllocator) (b : Bool) (xs ys : List ℕ)
    → (b ≡ true → IsValid c live (record a { avail = xs }))
    → (b ≡ false → IsValid c live (record a { avail = ys }))
    → IsValid c live (record a { avail = if b then xs else ys })
IsValid-avail c live a true xs ys f g = f refl
IsValid-avail c live a false xs ys f g = g refl

-- An id that comes back.
pub release_id-IsValid :
    (c id : ℕ) (live : List ℕ) (a : IdAllocator)
    → IsValid c live a
    → IsValid c (without id live) (release_id id a)
unfolding release_id insert_avail
release_id-IsValid c id live a v =
    let gone : IsValid c (without id live) a = record {
      avail_below = v.avail_below;
      live_below = all_below-without a.tail_id id live v.live_below;
      live_apart = apart-without id a.avail live v.live_apart;
      avail_distinct = v.avail_distinct;
      live_distinct = distinct-without id live v.live_distinct;
      unreserved = apart-without id a.reserved live v.unreserved;
      reserved_below = v.reserved_below;
    } in
    IsValid-if c (without id live) (not a.reuse_id || mem id a.reserved) _ _ (λ e. gone)
      (λ e.
        IsValid-if c (without id live) (ltb id a.tail_id) _ _
          (λ known.
            IsValid-avail c (without id live) a (mem id a.avail) a.avail (a.avail ++ id ∷ [])
              (λ there. gone)
              (λ new. record {
                avail_below =
                    all_below-append a.tail_id id a.avail v.avail_below (ltb→lt id a.tail_id known);
                live_below = gone.live_below;
                live_apart = apart-append-without id a.avail live v.live_apart;
                avail_distinct = distinct-append id a.avail v.avail_distinct new;
                live_distinct = gone.live_distinct;
                unreserved = gone.unreserved;
                reserved_below = gone.reserved_below;
              }))
          (λ other. gone))

-- Calls of the allocator.
pub data IdCall : Type 0 where
  allocs resets : IdCall
  releases : ℕ → IdCall

-- The live ids and the allocator after the calls.
abbrev pub run_ids : ℕ → List IdCall → List ℕ → IdAllocator → List ℕ × IdAllocator
run_ids m [] live a = (live, a)
run_ids m (allocs ∷ calls) live a = let r = alloc_id m a in run_ids m calls (r.0 ∷ live) r.1
run_ids m (resets ∷ calls) live a = run_ids m calls [] (reset_ids a)
run_ids m (releases id ∷ calls) live a = run_ids m calls (without id live) (release_id id a)

reset_ids-IsValid :
    (c : ℕ) (live : List ℕ) (a : IdAllocator) → IsValid c live a → IsValid c [] (reset_ids a)
unfolding reset_ids
reset_ids-IsValid c live a v = record {
  avail_below = refl;
  live_below = refl;
  live_apart = refl;
  avail_distinct = refl;
  live_distinct = refl;
  unreserved = refl;
  reserved_below = v.reserved_below;
}

tail-release_id : (id : ℕ) (a : IdAllocator) → (release_id id a).tail_id ≡ a.tail_id
unfolding release_id
tail-release_id id a = ground arith

pub run_ids-IsValid :
    (m c : ℕ) (calls : List IdCall) (live : List ℕ) (a : IdAllocator)
    → IsValid c live a
    → max a.tail_id c + length calls < m
    → IsValid c (run_ids m calls live a).0 (run_ids m calls live a).1
run_ids-IsValid m c [] live a v small = v
run_ids-IsValid m c (allocs ∷ calls) live a v small =
    let r = alloc_id m a in
    let fresh = alloc_id-Fresh m c live a v (omega arith) in
    run_ids-IsValid m c calls (r.0 ∷ live) r.1 fresh.2 (omega (arith, fresh.3))
run_ids-IsValid m c (resets ∷ calls) live a v small =
    run_ids-IsValid m c calls [] (reset_ids a) (reset_ids-IsValid c live a v)
      (unfold reset_ids in omega arith)
run_ids-IsValid m c (releases id ∷ calls) live a v small =
    run_ids-IsValid m c calls (without id live) (release_id id a) (release_id-IsValid c id live a v)
      (omega (arith, tail-release_id id a))

-- Ids of a new allocator, with any ids below c reserved and any start, allocated, released (an id that
-- is not live, too) and reset in any order: the ids that are live, which a reset forgets, are distinct
-- and none of them is reserved. Ids are below m, and m is large enough for the calls.
pub live_ids-distinct :
    (m c start mark : ℕ) (reuse : Bool) (rs : List ℕ) (calls : List IdCall)
    → all_below c rs ≡ true
    → max start c + length calls < m
    → (let after =
          run_ids m calls []
            (record (create_allocator reuse mark) { reserved = rs; tail_id = start }) in
        (distinct after.0 ≡ true) × (apart after.1.reserved after.0 ≡ true))
unfolding create_allocator new_allocator
live_ids-distinct m c start mark reuse rs calls below small =
    let a : IdAllocator = record (create_allocator reuse mark) { reserved = rs; tail_id = start } in
    let v =
      run_ids-IsValid m c calls [] a
        (record {
          avail_below = refl;
          live_below = refl;
          live_apart = refl;
          avail_distinct = refl;
          live_distinct = refl;
          unreserved = refl;
          reserved_below = below;
        })
        small in
    (v.live_distinct, v.unreserved)
