-- ===== src/Wrap.antt =====
-- p2engine/wrappable_integer.hpp: comparison and subtraction of integers that wrap around.
-- A value of a type of w bits is its bit pattern, a number below the modulus m = 2 ^ w; a signed
-- result is given by its pattern too, or as the integer that the pattern stands for.
pub mod Laws
pub mod Tests
use p2engine.Prelude.{Bool, if◌then◌else◌, ltb, negsuc, not, pos, ℕ, ℤ, ◌%◌, ◌&&◌, ◌+◌, ◌-◌, ◌==◌}

-- The pattern of `(unsigned_type)a - (unsigned_type)b`.
unfoldable pub wrap_sub : ℕ → ℕ → ℕ → ℕ
wrap_sub m a b = (a + m - b) % m

-- The pattern of `-dist`.
unfoldable pub wrap_neg : ℕ → ℕ → ℕ
wrap_neg m d = (m - d) % m

-- The integer that a pattern stands for.
unfoldable pub signed : ℕ → ℕ → ℤ
signed m d = if ltb (d + d) m then pos d else negsuc (m - d - 1)

-- `wrappable_minus`, and `wrappable_sub`, which has the same body.
unfoldable pub wrappable_minus : ℕ → ℕ → ℕ → ℤ
unfolding wrap_sub signed
wrappable_minus m a b = signed m (wrap_sub m a b)

unfoldable pub wrappable_less : ℕ → ℕ → ℕ → Bool
unfolding wrap_sub wrap_neg
wrappable_less m a b = let dist = wrap_sub m a b in ltb (wrap_neg m dist) dist

unfoldable pub wrappable_greater : ℕ → ℕ → ℕ → Bool
unfolding wrappable_less
wrappable_greater m a b = wrappable_less m b a

unfoldable pub wrappable_less_equal : ℕ → ℕ → ℕ → Bool
unfolding wrappable_less
wrappable_less_equal m a b = not (wrappable_less m b a)

unfoldable pub wrappable_greater_equal : ℕ → ℕ → ℕ → Bool
unfolding wrappable_less
wrappable_greater_equal m a b = not (wrappable_less m a b)

-- The form of `wrappable_less_equal` with three arguments.
unfoldable pub wrappable_less_equal3 : ℕ → ℕ → ℕ → ℕ → Bool
unfolding wrappable_less_equal
wrappable_less_equal3 m a b c = wrappable_less_equal m a b && wrappable_less_equal m b c

-- `wrappable_cmp`: -1, 0 or 1.
unfoldable pub wrappable_cmp : ℕ → ℕ → ℕ → ℤ
unfolding wrap_sub wrap_neg
wrappable_cmp m a b =
    let dist_down = wrap_sub m a b in
    let dist_up = wrap_neg m dist_down in
    if ltb dist_up dist_down then negsuc 0 else if dist_up == dist_down then pos 0 else pos 1
