-- ===== src/LocalIds/Lists.antt =====
-- Lists of ids: bounds, and lists without a common id.
use p2engine.LocalIds.{mem}
use p2engine.Prelude.{
  Bool, List, [], arith, false, if◌then◌else◌, ltb, not, refl, true, ℕ, ◌&&◌, ◌++◌, ◌<◌, ◌==◌, ◌||◌,
  ◌∷◌, ◌≡◌, ◌≤◌,
}

abbrev pub all_below : ℕ → List ℕ → Bool
all_below t [] = true
all_below t (x ∷ xs) = ltb x t && all_below t xs

-- No id of the second list is in the first.
abbrev pub apart : List ℕ → List ℕ → Bool
apart ys [] = true
apart ys (x ∷ xs) = not (mem x ys) && apart ys xs

abbrev pub distinct : List ℕ → Bool
distinct [] = true
distinct (x ∷ xs) = not (mem x xs) && distinct xs

abbrev pub without : ℕ → List ℕ → List ℕ
without x [] = []
without x (y ∷ ys) = if x == y then without x ys else y ∷ without x ys

pub above_not_mem : (t r : ℕ) (xs : List ℕ) → all_below t xs ≡ true → t ≤ r → mem r xs ≡ false
above_not_mem t r [] h le = refl
above_not_mem t r (x ∷ xs) h le = ground (arith, above_not_mem t r xs)

pub all_below_mono : (t u : ℕ) (xs : List ℕ) → all_below t xs ≡ true → t ≤ u → all_below u xs ≡ true
all_below_mono t u [] h le = refl
all_below_mono t u (x ∷ xs) h le = ground (arith, all_below_mono t u xs)

pub apart-tail :
    (y : ℕ) (ys xs : List ℕ) → apart (y ∷ ys) xs ≡ true → (mem y xs ≡ false) × (apart ys xs ≡ true)
apart-tail y ys [] h = (refl, refl)
apart-tail y ys (x ∷ xs) h = ground (arith, apart-tail y ys xs)

pub all_below-append :
    (t x : ℕ) (xs : List ℕ) → all_below t xs ≡ true → x < t → all_below t (xs ++ x ∷ []) ≡ true
all_below-append t x [] h lt_ = ground arith
all_below-append t x (y ∷ xs) h lt_ = ground (arith, all_below-append t x xs)

mem-append : (y x : ℕ) (xs : List ℕ) → mem y (xs ++ x ∷ []) ≡ (mem y xs || y == x)
mem-append y x [] = ground arith
mem-append y x (z ∷ xs) = ground (arith, mem-append y x xs)

pub distinct-append :
    (x : ℕ) (xs : List ℕ) → distinct xs ≡ true → mem x xs ≡ false → distinct (xs ++ x ∷ []) ≡ true
distinct-append x [] h k = refl
distinct-append x (y ∷ xs) h k = ground (arith, distinct-append x xs, mem-append y x xs)

pub apart-without : (y : ℕ) (ys xs : List ℕ) → apart ys xs ≡ true → apart ys (without y xs) ≡ true
apart-without y ys [] h = refl
apart-without y ys (x ∷ xs) h = ground (arith, apart-without y ys xs)

pub apart-append-without :
    (y : ℕ) (ys xs : List ℕ) → apart ys xs ≡ true → apart (ys ++ y ∷ []) (without y xs) ≡ true
apart-append-without y ys [] h = refl
apart-append-without y ys (x ∷ xs) h =
    ground (arith, apart-append-without y ys xs, mem-append x y ys)

pub all_below-without :
    (t y : ℕ) (xs : List ℕ) → all_below t xs ≡ true → all_below t (without y xs) ≡ true
all_below-without t y [] h = refl
all_below-without t y (x ∷ xs) h = ground (arith, all_below-without t y xs)

mem-without : (x y : ℕ) (xs : List ℕ) → mem x xs ≡ false → mem x (without y xs) ≡ false
mem-without x y [] h = refl
mem-without x y (z ∷ xs) h = ground (arith, mem-without x y xs)

pub distinct-without : (y : ℕ) (xs : List ℕ) → distinct xs ≡ true → distinct (without y xs) ≡ true
distinct-without y [] h = refl
distinct-without y (x ∷ xs) h = ground (arith, distinct-without y xs, mem-without x y xs)

pub mem_below : (c t : ℕ) (xs : List ℕ) → all_below c xs ≡ true → mem t xs ≡ true → t < c
mem_below c t [] h k = absurd (ground arith)
mem_below c t (x ∷ xs) h k = ground (arith, mem_below c t xs)
