-- ===== src/LocalIds/Valid.antt =====
-- What keeps the ids of p2engine/local_id_allocator.hpp apart, and that every operation preserves it.
use native.Mathlib.Nat.{mod-eq_of_lt}
use p2engine.LocalIds.{IdAllocator, alloc_id, mem, next_free, reuse_front, take_reused, take_tail}
use p2engine.LocalIds.Lists.{above_not_mem, all_below, all_below_mono, apart, distinct, mem_below}
use p2engine.LocalIds.Reuse.{Reused, Reused-reuse_front}
use p2engine.Prelude.{
  Bool, Bool-cases, List, Option, ap₂, arith, false, if◌then◌else◌, inl, inr, ltb, max, none, not,
  refl, some, suc, true, zero, ℕ, ◌%◌, ◌&&◌, ◌+◌, ◌-◌, ◌<◌, ◌∷◌, ◌≡◌, ◌≤◌,
}

-- `live` are the ids that were handed out and not released. Live and available ids are below the tail
-- and have none in common; live ids are distinct and not reserved; reserved ids are below c.
pub record IsValid (c : ℕ) (live : List ℕ) (a : IdAllocator) : Type 0 where
  pub avail_below : all_below a.tail_id a.avail ≡ true
  pub live_below : all_below a.tail_id live ≡ true
  pub live_apart : apart a.avail live ≡ true
  pub avail_distinct : distinct a.avail ≡ true
  pub live_distinct : distinct live ≡ true
  pub unreserved : apart a.reserved live ≡ true
  pub reserved_below : all_below c a.reserved ≡ true

-- A search that starts below c, or where it ends at once, ends at a free id at most c.
pub next_free_lem :
    (m c fuel t : ℕ) (reserved : List ℕ)
    → all_below c reserved ≡ true
    → max t c - t < fuel
    → max t c < m
    → (mem (next_free m reserved fuel t) reserved ≡ false)
      × (t ≤ next_free m reserved fuel t)
      × (next_free m reserved fuel t ≤ max t c)
unfolding next_free
next_free_lem m c zero t reserved h enough small = absurd (omega arith)
next_free_lem m c (suc fuel) t reserved h enough small = elim (Bool-cases (mem t reserved)) [
  | inr free ↦ rw (free, next_free) (free, omega arith, omega arith)
  | inl taken ↦
      let below = mem_below c t reserved h taken in
      let step : (t + 1) % m ≡ t + 1 = mod-eq_of_lt (omega arith) in
      let next = next_free_lem m c fuel (t + 1) reserved h (omega arith) (omega arith) in
      rw (taken, step, next_free) (next.0, omega (arith, next.1), omega (arith, next.2))
]

lt→ltb : (a b : ℕ) → a < b → ltb a b ≡ true
lt→ltb a b h = ground arith

-- An id that was handed out is new, and what keeps the ids apart goes on.
abbrev pub Fresh : ℕ → List ℕ → IdAllocator → ℕ × IdAllocator → Type 0
Fresh c live a (id, a') =
    (mem id live ≡ false)
    × (mem id a.reserved ≡ false)
    × (IsValid c (id ∷ live) a')
    × (max a'.tail_id c ≤ max a.tail_id c + 1)

and_not : (b c : Bool) → b ≡ false → c ≡ true → (not b && c) ≡ true
and_not b c h k = ground arith

take_tail-Fresh :
    (m c : ℕ) (live : List ℕ) (a : IdAllocator)
    → IsValid c live a
    → max a.tail_id c + 1 < m
    → Fresh c live a (take_tail m a)
unfolding take_tail
take_tail-Fresh m c live a v small =
    let t = a.tail_id in
    let r = next_free m a.reserved m t in
    let free = next_free_lem m c m t a.reserved v.reserved_below (omega arith) (omega arith) in
    let step : (r + 1) % m ≡ r + 1 = mod-eq_of_lt (omega (arith, free.2)) in
    let new = above_not_mem t r live v.live_below free.1 in
    let up : t ≤ (r + 1) % m = omega (arith, step, free.1) in
    (
      new,
      free.0,
      record {
        avail_below = all_below_mono t ((r + 1) % m) a.avail v.avail_below up;
        live_below =
            ap₂ (λ x y. x && y) (lt→ltb r ((r + 1) % m) (omega (arith, step)))
              (all_below_mono t ((r + 1) % m) live v.live_below up);
        live_apart = and_not _ _ (above_not_mem t r a.avail v.avail_below free.1) v.live_apart;
        avail_distinct = v.avail_distinct;
        live_distinct = and_not _ _ new v.live_distinct;
        unreserved = and_not _ _ free.0 v.unreserved;
        reserved_below = v.reserved_below;
      },
      omega (arith, step, free.2),
    )

take_reused-Fresh :
    (m c : ℕ) (live : List ℕ) (a : IdAllocator) (found : Option ℕ) (rest : List ℕ)
    → IsValid c live a
    → Reused a.tail_id live a.reserved (found, rest)
    → max a.tail_id c + 1 < m
    → Fresh c live a (take_reused m a (found, rest))
unfolding take_reused
take_reused-Fresh m c live a none rest v (below, diff, other, good) small =
    take_tail-Fresh m c live (record a { avail = rest })
      (record {
        avail_below = below;
        live_below = v.live_below;
        live_apart = other;
        avail_distinct = diff;
        live_distinct = v.live_distinct;
        unreserved = v.unreserved;
        reserved_below = v.reserved_below;
      })
      small
take_reused-Fresh m c live a (some id) rest v (below, diff, other, good) small =
    let g = good id refl in
    (
      g.1,
      g.3,
      record {
        avail_below = below;
        live_below = ap₂ (λ x y. x && y) (lt→ltb id a.tail_id g.0) v.live_below;
        live_apart = and_not _ _ g.2 other;
        avail_distinct = diff;
        live_distinct = and_not _ _ g.1 v.live_distinct;
        unreserved = and_not _ _ g.3 v.unreserved;
        reserved_below = v.reserved_below;
      },
      omega arith,
    )

Fresh-if :
    (c : ℕ) (live : List ℕ) (a : IdAllocator) (b : Bool) (x y : ℕ × IdAllocator)
    → Fresh c live a x
    → Fresh c live a y
    → Fresh c live a (if b then x else y)
Fresh-if c live a true x y f g = f
Fresh-if c live a false x y f g = g

-- `alloc_id` of a valid allocator, whose ids are not used up: the id is not reserved and not handed
-- out already, and the allocator is valid with it.
pub alloc_id-Fresh :
    (m c : ℕ) (live : List ℕ) (a : IdAllocator)
    → IsValid c live a
    → max a.tail_id c + 1 < m
    → Fresh c live a (alloc_id m a)
unfolding alloc_id
alloc_id-Fresh m c live a v small =
    let found = reuse_front a.low_water_mark a.reserved a.avail in
    Fresh-if c live a a.reuse_id _ _
      (take_reused-Fresh m c live a found.0 found.1 v
        (Reused-reuse_front a.low_water_mark a.tail_id live a.reserved a.avail v.avail_below
          v.avail_distinct v.live_apart)
        small)
      (take_tail-Fresh m c live a v small)
