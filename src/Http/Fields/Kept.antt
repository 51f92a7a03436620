-- ===== src/Http/Fields/Kept.antt =====
-- The order of the map of p2engine/http/header.hpp is kept by what changes it.
use p2engine.Http.Fields.{Entry, erase_field, insert_field, set_field, stricmp_less}
use p2engine.Http.Fields.Names.{stricmp_less_trans}
use p2engine.Http.Fields.Order.{all_after, ascending}
use p2engine.Prelude.{List, [], arith, refl, true, ℕ, ◌∷◌, ◌≡◌}

all_after_trans :
    (j k : List ℕ) (m : List Entry)
    → stricmp_less j k ≡ true
    → all_after k m ≡ true
    → all_after j m ≡ true
all_after_trans j k [] h i = refl
all_after_trans j k ((a, w) ∷ m) h i =
    ground (arith, all_after_trans j k m, stricmp_less_trans j k a)

all_after-set_field :
    (j k v : List ℕ) (m : List Entry)
    → stricmp_less j k ≡ true
    → all_after j m ≡ true
    → all_after j (set_field k v m) ≡ true
unfolding set_field
all_after-set_field j k v [] h i = ground arith
all_after-set_field j k v ((a, w) ∷ m) h i = ground (arith, all_after-set_field j k v m)

all_after-insert_field :
    (j k v : List ℕ) (m : List Entry)
    → stricmp_less j k ≡ true
    → all_after j m ≡ true
    → all_after j (insert_field k v m) ≡ true
unfolding insert_field
all_after-insert_field j k v [] h i = ground arith
all_after-insert_field j k v ((a, w) ∷ m) h i = ground (arith, all_after-insert_field j k v m)

all_after-erase_field :
    (j k : List ℕ) (m : List Entry) → all_after j m ≡ true → all_after j (erase_field k m) ≡ true
unfolding erase_field
all_after-erase_field j k [] i = refl
all_after-erase_field j k ((a, w) ∷ m) i = ground (arith, all_after-erase_field j k m)

pub ascending-set_field :
    (k v : List ℕ) (m : List Entry) → ascending m ≡ true → ascending (set_field k v m) ≡ true
unfolding set_field
ascending-set_field k v [] h = refl
ascending-set_field k v ((a, w) ∷ m) h =
    ground (arith, ascending-set_field k v m, all_after-set_field a k v m, all_after_trans k a m)

pub ascending-insert_field :
    (k v : List ℕ) (m : List Entry) → ascending m ≡ true → ascending (insert_field k v m) ≡ true
unfolding insert_field
ascending-insert_field k v [] h = refl
ascending-insert_field k v ((a, w) ∷ m) h =
    ground
      (arith, ascending-insert_field k v m, all_after-insert_field a k v m, all_after_trans k a m)

pub ascending-erase_field :
    (k : List ℕ) (m : List Entry) → ascending m ≡ true → ascending (erase_field k m) ≡ true
unfolding erase_field
ascending-erase_field k [] h = refl
ascending-erase_field k ((a, w) ∷ m) h =
    ground (arith, ascending-erase_field k m, all_after-erase_field a k m)
