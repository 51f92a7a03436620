-- ===== src/Http/Fields.antt =====
-- The map of p2engine/http/header.hpp from field names to values, ordered without regard to case.
pub mod Order
pub mod Names
pub mod Kept
pub mod Lookup
use p2engine.Http.Text.{lower}
use p2engine.Prelude.{
  Bool, List, Option, [], false, if◌then◌else◌, ltb, none, not, some, true, ℕ, ◌==◌, ◌∷◌,
}

abbrev pub Entry : Type 0
Entry = List ℕ × List ℕ

-- `strcasecmp(s1.c_str(), s2.c_str()) < 0`; a zero byte ends a C string.
unfoldable pub stricmp_less : List ℕ → List ℕ → Bool
stricmp_less s [] = false
stricmp_less [] (d ∷ t) = not (d == 0)
stricmp_less (c ∷ s) (d ∷ t) =
    let rest = stricmp_less s t in
    if d == 0
    then false
    else if c == 0
    then true
    else if ltb (lower c) (lower d)
    then true
    else if ltb (lower d) (lower c)
    then false
    else rest

-- `insert`: a name that is there keeps its value.
unfoldable pub insert_field : List ℕ → List ℕ → List Entry → List Entry
insert_field k v [] = (k, v) ∷ []
insert_field k v ((k', v') ∷ m) =
    let rest = insert_field k v m in
    if stricmp_less k k'
    then (k, v) ∷ (k', v') ∷ m
    else if stricmp_less k' k
    then (k', v') ∷ rest
    else (k', v') ∷ m

-- `set`: a name that is there keeps its spelling, and gets the value.
unfoldable pub set_field : List ℕ → List ℕ → List Entry → List Entry
set_field k v [] = (k, v) ∷ []
set_field k v ((k', v') ∷ m) =
    let rest = set_field k v m in
    if stricmp_less k k'
    then (k, v) ∷ (k', v') ∷ m
    else if stricmp_less k' k
    then (k', v') ∷ rest
    else (k', v) ∷ m

-- `find`, behind `get` and `has`.
unfoldable pub find_field : List ℕ → List Entry → Option (List ℕ)
find_field k [] = none
find_field k ((k', v') ∷ m) =
    let rest = find_field k m in
    if stricmp_less k k' then none else if stricmp_less k' k then rest else some v'

-- `erase`.
unfoldable pub erase_field : List ℕ → List Entry → List Entry
erase_field k [] = []
erase_field k ((k', v') ∷ m) =
    let rest = erase_field k m in
    if stricmp_less k k' then (k', v') ∷ m else if stricmp_less k' k then (k', v') ∷ rest else m

-- `get` with a value for a name that is missing, and `has`.
unfoldable pub get_field : List ℕ → List ℕ → List Entry → List ℕ
get_field k missing m = elim (find_field k m) [ none ↦ missing | some v ↦ v ]

unfoldable pub has_field : List ℕ → List Entry → Bool
has_field k m = elim (find_field k m) [ none ↦ false | some v ↦ true ]
