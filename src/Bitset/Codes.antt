-- ===== src/Bitset/Codes.antt =====
-- Codes of p2engine/compressed_bitset.hpp, written and read.
use p2engine.Bitset.{copies, count_run, get_bits, set_bits, shifted}
use p2engine.Prelude.{
  Bool, List, [], ap, arith, drop, false, length, refl, suc, true, zero, ℕ, ◌++◌, ◌/◌, ◌<◌, ◌∷◌,
  ◌≡◌, ◌≤◌,
}

pub shifted_positive : (n : ℕ) → 0 < shifted n
shifted_positive zero = omega arith
shifted_positive (suc n) = omega (arith, shifted_positive n)

pub get-set_bits :
    (n x : ℕ) (rest : List Bool) → x < shifted n → get_bits n (set_bits n x ++ rest) ≡ x
unfolding get_bits set_bits
get-set_bits zero x rest h = omega arith
get-set_bits (suc n) x rest h = ground (arith, get-set_bits n (x / 2) rest (omega arith))

pub length-set_bits : (n x : ℕ) → length (set_bits n x) ≡ n
unfolding set_bits
length-set_bits zero x = refl
length-set_bits (suc n) x = omega (arith, length-set_bits n (x / 2))

pub drop-set_bits : (n x : ℕ) (rest : List Bool) → drop n (set_bits n x ++ rest) ≡ rest
unfolding set_bits
drop-set_bits zero x rest = refl
drop-set_bits (suc n) x rest = drop-set_bits n (x / 2) rest

-- A run is as long as it was counted.
pub count_run_lem :
    (m : ℕ) (v : Bool) (bs : List Bool)
    → (copies v (count_run m v bs) ++ drop (count_run m v bs) bs ≡ bs)
      × (count_run m v bs ≤ m)
      × (count_run m v bs ≤ length bs)
unfolding count_run
count_run_lem zero v bs = (refl, omega arith, omega arith)
count_run_lem (suc m) v [] = (refl, omega arith, omega arith)
count_run_lem (suc m) true (true ∷ bs) =
    let (e, most, short) = count_run_lem m true bs in
    (ap (◌∷◌ true) e, omega (arith, most), omega (arith, short))
count_run_lem (suc m) true (false ∷ bs) = (refl, omega arith, omega arith)
count_run_lem (suc m) false (true ∷ bs) = (refl, omega arith, omega arith)
count_run_lem (suc m) false (false ∷ bs) =
    let (e, most, short) = count_run_lem m false bs in
    (ap (◌∷◌ false) e, omega (arith, most), omega (arith, short))
