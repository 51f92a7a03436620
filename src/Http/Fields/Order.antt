-- ===== src/Http/Fields/Order.antt =====
-- The order of field names, and insertion in order.
use p2engine.Http.Fields.{Entry, insert_field, stricmp_less}
use p2engine.Http.Text.{both_true}
use p2engine.Prelude.{
  Bool, List, [], ap, arith, false, if_false, if_true, refl, true, ℕ, ◌&&◌, ◌++◌, ◌∙◌, ◌∷◌, ◌≡◌,
}

-- Names that the order puts one before the other are not in the other order too.
pub stricmp_less_asym : (s t : List ℕ) → stricmp_less s t ≡ true → stricmp_less t s ≡ false
unfolding stricmp_less
stricmp_less_asym s [] h = absurd (ground arith)
stricmp_less_asym [] (d ∷ t) h = refl
stricmp_less_asym (c ∷ s) (d ∷ t) h = ground (arith, stricmp_less_asym s t)

-- All the names of a list come after a name.
abbrev pub all_after : List ℕ → List Entry → Bool
all_after k [] = true
all_after k ((k', v') ∷ m) = stricmp_less k k' && all_after k m

-- A map's list: the names in strict order.
abbrev pub ascending : List Entry → Bool
ascending [] = true
ascending ((k, v) ∷ m) = all_after k m && ascending m

after_middle :
    (a : List ℕ) (m rest : List Entry) (k v : List ℕ)
    → all_after a (m ++ (k, v) ∷ rest) ≡ true
    → stricmp_less a k ≡ true
after_middle a [] rest k v h = (both_true _ _ h).0
after_middle a ((k', v') ∷ m) rest k v h = after_middle a m rest k v (both_true _ _ h).1

-- The next name in order goes to the end.
pub insert_next :
    (m rest : List Entry) (k v : List ℕ)
    → ascending (m ++ (k, v) ∷ rest) ≡ true
    → insert_field k v m ≡ m ++ (k, v) ∷ []
unfolding insert_field
insert_next [] rest k v h = refl
insert_next ((a, w) ∷ m) rest k v h =
    let b = both_true (all_after a (m ++ (k, v) ∷ rest)) (ascending (m ++ (k, v) ∷ rest)) h in
    let less = after_middle a m rest k v b.0 in
    if_false _ _ _ (stricmp_less_asym a k less)
    ∙ if_true _ _ _ less
    ∙ ap (λ (es : List Entry). (a, w) ∷ es) (insert_next m rest k v b.1)
