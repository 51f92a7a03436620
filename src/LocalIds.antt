-- ===== src/LocalIds.antt =====
-- The allocator of local ids of p2engine/local_id_allocator.hpp, for an unsigned type of ids.
pub mod Lists
pub mod Reuse
pub mod Valid
pub mod Runs
pub mod Tests
use p2engine.Prelude.{
  Bool, List, Option, [], false, if◌then◌else◌, length, ltb, none, not, some, suc, zero, ℕ, ◌%◌,
  ◌++◌, ◌+◌, ◌==◌, ◌||◌, ◌∷◌,
}

abbrev pub mem : ℕ → List ℕ → Bool
mem x [] = false
mem x (y ∷ ys) = x == y || mem x ys

-- `avail_id_set_` in the order of its sequenced index, which `get<1>` is; `low_water_mark` is its
-- value as a size.
pub record IdAllocator : Type 0 where
  pub avail : List ℕ
  pub reserved : List ℕ
  pub tail_id : ℕ
  pub reuse_id : Bool
  pub low_water_mark : ℕ

-- The constructor, and `create`, which does not pass the low water mark on.
unfoldable pub new_allocator : Bool → ℕ → IdAllocator
new_allocator reuse mark = record {
  avail = [];
  reserved = [];
  tail_id = 0;
  reuse_id = reuse;
  low_water_mark = mark;
}

unfoldable pub create_allocator : Bool → ℕ → IdAllocator
create_allocator reuse mark = new_allocator reuse 0

unfoldable pub set_start_id : ℕ → IdAllocator → IdAllocator
set_start_id id a = record a { tail_id = id }

unfoldable pub add_reserved_id : ℕ → IdAllocator → IdAllocator
add_reserved_id id a = record a {
  reserved = if mem id a.reserved then a.reserved else id ∷ a.reserved;
}

-- The first loop of `alloc_id`: ids are taken off the front while there are more than the mark, until
-- one is not reserved.
unfoldable pub reuse_front : ℕ → List ℕ → List ℕ → Option ℕ × List ℕ
reuse_front mark reserved [] = (none, [])
reuse_front mark reserved (x ∷ xs) =
    let next = reuse_front mark reserved xs in
    if ltb mark (length (x ∷ xs))
    then if mem x reserved then next else (some x, xs)
    else (none, x ∷ xs)

-- The second loop: the first id from the tail on that is not reserved. Ids are below m, and go on
-- with 0.
unfoldable pub next_free : ℕ → List ℕ → ℕ → ℕ → ℕ
next_free m reserved zero t = t
next_free m reserved (suc fuel) t =
    let next = next_free m reserved fuel ((t + 1) % m) in if mem t reserved then next else t

unfoldable pub take_tail : ℕ → IdAllocator → ℕ × IdAllocator
take_tail m a =
    let id = next_free m a.reserved m a.tail_id in (id, record a { tail_id = (id + 1) % m })

unfoldable pub take_reused : ℕ → IdAllocator → Option ℕ × List ℕ → ℕ × IdAllocator
take_reused m a (none, rest) = take_tail m (record a { avail = rest })
take_reused m a (some id, rest) = (id, record a { avail = rest })

-- `alloc_id`.
unfoldable pub alloc_id : ℕ → IdAllocator → ℕ × IdAllocator
alloc_id m a =
    if a.reuse_id
    then take_reused m a (reuse_front a.low_water_mark a.reserved a.avail)
    else take_tail m a

-- The insertion into the unique index: an id that is there stays where it is.
unfoldable pub insert_avail : ℕ → List ℕ → List ℕ
insert_avail id ids = if mem id ids then ids else ids ++ id ∷ []

-- `release_id`.
unfoldable pub release_id : ℕ → IdAllocator → IdAllocator
release_id id a =
    if not a.reuse_id || mem id a.reserved
    then a
    else if ltb id a.tail_id
    then record a { avail = insert_avail id a.avail }
    else a

-- `reset`, which keeps the reserved ids.
unfoldable pub reset_ids : IdAllocator → IdAllocator
reset_ids a = record a { tail_id = 0; avail = [] }
