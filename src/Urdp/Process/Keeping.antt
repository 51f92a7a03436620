-- ===== src/Urdp/Process/Keeping.antt =====
-- Duplicates of semireliable packets, by try_keep of p2engine/keeper.hpp.
use p2engine.Prelude.{
  Bool-cases, List, [], arith, false, inl, inr, leb, refl, true, ℕ, ◌+◌, ◌∷◌, ◌≡◌,
}
use p2engine.Urdp.Process.{drop_expired, is_kept, try_keep}

is_kept-drop_expired :
    (id now : ℕ) (l : List (ℕ × ℕ)) → is_kept id l ≡ false → is_kept id (drop_expired now l) ≡ false
is_kept-drop_expired id now [] h = refl
is_kept-drop_expired id now ((k, t) ∷ r) h = ground (arith, is_kept-drop_expired id now r)

-- Once an id was kept for a period, keeping it again succeeds exactly from the end of the period
-- on, whatever else is kept.
pub try_keep_again :
    (id period now again later : ℕ) (l : List (ℕ × ℕ))
    → (try_keep id period now l).1 ≡ true
    → (try_keep id again later (try_keep id period now l).0).1 ≡ leb (now + period) later
unfolding try_keep
try_keep_again id period now again later l h = elim (Bool-cases (is_kept id (drop_expired now l))) [
  | inl e ↦ absurd (ground (arith, e))
  | inr e ↦ ground (arith, is_kept-drop_expired id later (drop_expired now l) e)
]
