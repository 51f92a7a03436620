-- ===== src/Http/Fields/Lookup.antt =====
-- What is found in the map of p2engine/http/header.hpp after a change.
use p2engine.Http.Fields.{
  Entry, erase_field, find_field, get_field, insert_field, set_field, stricmp_less,
}
use p2engine.Http.Fields.Kept.{ascending-erase_field, ascending-insert_field, ascending-set_field}
use p2engine.Http.Fields.Names.{
  less_same_name, same_name, same_name_iff, same_name_less, same_name_refl, stricmp_less_trans,
}
use p2engine.Http.Fields.Order.{all_after, ascending, stricmp_less_asym}
use p2engine.Prelude.{
  List, [], arith, false, if_true, if◌then◌else◌, none, refl, some, true, ℕ, ◌∙◌, ◌∷◌, ◌≡◌,
}

find-set :
    (j k v : List ℕ) (m : List Entry)
    → find_field j (set_field k v m) ≡ (if (same_name j k) then some v else find_field j m)
unfolding find_field set_field
find-set j k v [] = ground (arith, same_name_iff j k)
find-set j k v ((a, w) ∷ m) = ground (
  arith,
  find-set j k v m,
  same_name_iff j k,
  same_name_iff k a,
  same_name_iff j a,
  stricmp_less_trans j k a,
  stricmp_less_trans j a k,
  same_name_less j a k,
  same_name_less k a j,
  less_same_name k a j,
)

pub find-set_field : (k v : List ℕ) (m : List Entry) → find_field k (set_field k v m) ≡ some v
find-set_field k v m = find-set k k v m ∙ if_true _ _ _ (same_name_refl k)

find-insert :
    (j k v : List ℕ) (m : List Entry)
    → find_field j (insert_field k v m)
      ≡ (if (same_name j k) then some (get_field k v m) else find_field j m)
unfolding find_field insert_field get_field
find-insert j k v [] = ground (arith, same_name_iff j k)
find-insert j k v ((a, w) ∷ m) = ground (
  arith,
  find-insert j k v m,
  same_name_iff j k,
  same_name_iff k a,
  same_name_iff j a,
  stricmp_less_trans j k a,
  stricmp_less_trans j a k,
  same_name_less j a k,
  same_name_less k a j,
  less_same_name k a j,
)

not_found :
    (j a : List ℕ) (m : List Entry)
    → all_after a m ≡ true
    → stricmp_less a j ≡ false
    → find_field j m ≡ none
unfolding find_field
not_found j a [] h i = refl
not_found j a ((b, w) ∷ m) h i =
    ground (arith, same_name_iff j a, same_name_less j a b, stricmp_less_trans j a b)

find-erase :
    (j k : List ℕ) (m : List Entry)
    → ascending m ≡ true
    → find_field j (erase_field k m) ≡ (if (same_name j k) then none else find_field j m)
unfolding find_field erase_field
find-erase j k [] h = ground (arith, same_name_iff j k)
find-erase j k ((a, w) ∷ m) h = ground (
  arith,
  find-erase j k m,
  not_found j a m,
  stricmp_less_asym j a,
  same_name_iff j k,
  same_name_iff k a,
  same_name_iff j a,
  stricmp_less_trans j k a,
  stricmp_less_trans j a k,
  same_name_less j a k,
  same_name_less j k a,
  same_name_less k a j,
  less_same_name k a j,
)

-- The map of fields as a map from names, as C strings and without regard to case, to values. A list in strict order of
-- its names stays so when a field is set, inserted or erased. Then a name is found with the value set,
-- if it is the name that was set; with the value it had, or else the one inserted, if it is the name
-- that was inserted; not at all, if it is the name that was erased; and any other name as before.
pub fields_refine :
    (j k v : List ℕ) (m : List Entry)
    → ascending m ≡ true
    → (ascending (set_field k v m) ≡ true)
      × (ascending (insert_field k v m) ≡ true)
      × (ascending (erase_field k m) ≡ true)
      × (find_field j (set_field k v m) ≡ (if (same_name j k) then some v else find_field j m))
      × (find_field j (insert_field k v m)
          ≡ (if (same_name j k) then some (get_field k v m) else find_field j m))
      × (find_field j (erase_field k m) ≡ (if (same_name j k) then none else find_field j m))
fields_refine j k v m h = (
  ascending-set_field k v m h,
  ascending-insert_field k v m h,
  ascending-erase_field k m h,
  find-set j k v m,
  find-insert j k v m,
  find-erase j k m h,
)
