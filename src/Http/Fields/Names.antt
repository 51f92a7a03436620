-- ===== src/Http/Fields/Names.antt =====
-- When two field names are the same: as C strings, without regard to case.
use p2engine.Http.Fields.{stricmp_less}
use p2engine.Http.Text.{lower}
use p2engine.Prelude.{
  Bool, List, [], arith, false, if◌then◌else◌, not, refl, true, ℕ, ◌&&◌, ◌==◌, ◌∷◌, ◌≡◌,
}

-- Names that are equal without regard to case; a zero byte ends a name.
unfoldable pub same_name : List ℕ → List ℕ → Bool
same_name [] [] = true
same_name [] (d ∷ t) = d == 0
same_name (c ∷ s) [] = c == 0
same_name (c ∷ s) (d ∷ t) =
    let rest = same_name s t in
    if c == 0 then d == 0 else if d == 0 then false else lower c == lower d && rest

-- Of two names, one comes first or they are the same.
pub same_name_iff :
    (s t : List ℕ) → same_name s t ≡ (not (stricmp_less s t) && not (stricmp_less t s))
unfolding same_name stricmp_less
same_name_iff [] [] = ground arith
same_name_iff [] (d ∷ t) = ground arith
same_name_iff (c ∷ s) [] = ground arith
same_name_iff (c ∷ s) (d ∷ t) = ground (arith, same_name_iff s t)

pub same_name_refl : (s : List ℕ) → same_name s s ≡ true
unfolding same_name
same_name_refl [] = refl
same_name_refl (c ∷ s) = ground (arith, same_name_refl s)

pub stricmp_less_trans :
    (s t u : List ℕ) → stricmp_less s t ≡ true → stricmp_less t u ≡ true → stricmp_less s u ≡ true
unfolding stricmp_less
stricmp_less_trans s [] u h k = absurd (ground arith)
stricmp_less_trans s (d ∷ t) [] h k = absurd (ground arith)
stricmp_less_trans [] (d ∷ t) (e ∷ u) h k = ground arith
stricmp_less_trans (c ∷ s) (d ∷ t) (e ∷ u) h k = ground (arith, stricmp_less_trans s t u)

pub same_name_less : (s t u : List ℕ) → same_name s t ≡ true → stricmp_less s u ≡ stricmp_less t u
unfolding same_name stricmp_less
same_name_less s t [] h = refl
same_name_less [] [] (e ∷ u) h = refl
same_name_less [] (d ∷ t) (e ∷ u) h = ground arith
same_name_less (c ∷ s) [] (e ∷ u) h = ground arith
same_name_less (c ∷ s) (d ∷ t) (e ∷ u) h = ground (arith, same_name_less s t u)

pub less_same_name : (s t u : List ℕ) → same_name s t ≡ true → stricmp_less u s ≡ stricmp_less u t
unfolding same_name stricmp_less
less_same_name [] [] u h = refl
less_same_name [] (d ∷ t) [] h = ground arith
less_same_name [] (d ∷ t) (e ∷ u) h = ground arith
less_same_name (c ∷ s) [] [] h = ground arith
less_same_name (c ∷ s) [] (e ∷ u) h = ground arith
less_same_name (c ∷ s) (d ∷ t) [] h = ground arith
less_same_name (c ∷ s) (d ∷ t) (e ∷ u) h = ground (arith, less_same_name s t u)
