-- ===== src/Wrap/Laws.antt =====
-- What the wrapping comparisons mean, for every even modulus.
use native.Mathlib.Nat.{mod-eq_of_lt, mod-eq-sub-mod}
use p2engine.Prelude.{
  Bool-cases, arith, if◌then◌else◌, inl, inr, leb, leb→le, ltb, negsuc, pos, true, ℕ, ◌%◌, ◌+◌, ◌-◌,
  ◌<◌, ◌==◌, ◌↔◌, ◌∙◌, ◌≡◌,
}
use p2engine.Wrap.{wrap_neg, wrap_sub, wrappable_cmp, wrappable_less}

-- A remainder that one subtraction makes.
pub mod_once : (m x : ℕ) → x < m + m → x % m ≡ (if leb m x then x - m else x)
mod_once m x h = elim (Bool-cases (leb m x)) [
  | inl e ↦ rw e (
      mod-eq-sub-mod {n = x} {m = m} (leb→le m x e)
      ∙ mod-eq_of_lt {n = x - m} {m = m} (ground arith))
  | inr e ↦ rw e (mod-eq_of_lt {n = x} {m = m} (ground arith))
]

-- The pattern of a difference, without the remainder.
pub wrap_sub_cases :
    (m a b : ℕ) → a < m → b < m → wrap_sub m a b ≡ (if leb b a then a - b else a + m - b)
unfolding wrap_sub
wrap_sub_cases m a b ha hb = ground (arith, mod_once m (a + m - b))

-- The pattern of a negation, without the remainder.
pub wrap_neg_cases : (m d : ℕ) → d < m → wrap_neg m d ≡ (if d == 0 then 0 else m - d)
unfolding wrap_neg
wrap_neg_cases m d h = ground (arith, mod_once m (m - d))

pub wrap_sub-lt : (m a b : ℕ) → 0 < m → wrap_sub m a b < m
unfolding wrap_sub
wrap_sub-lt m a b h = omega arith

-- `a` comes before `b` exactly if `b` is ahead of `a` by less than half the range.
pub wrappable_less_iff :
    (h a b : ℕ)
    → a < h + h
    → b < h + h
    → (wrappable_less (h + h) a b ≡ true)
      ↔ ((0 < wrap_sub (h + h) b a) × (wrap_sub (h + h) b a < h))
unfolding wrappable_less
wrappable_less_iff h a b ha hb = ground (
  arith,
  wrap_sub_cases (h + h) a b ha hb,
  wrap_sub_cases (h + h) b a hb ha,
  wrap_neg_cases (h + h) (wrap_sub (h + h) a b),
)

-- Values of one window shorter than half the range are ordered by their offsets in it, across the
-- wrap too.
pub wrappable_less_window :
    (h s i j : ℕ)
    → s < h + h
    → i < h
    → j < h
    → wrappable_less (h + h) ((s + i) % (h + h)) ((s + j) % (h + h)) ≡ ltb i j
unfolding wrappable_less
wrappable_less_window h s i j hs hi hj = ground (
  arith,
  mod_once (h + h) (s + i),
  mod_once (h + h) (s + j),
  wrap_sub_cases (h + h) ((s + i) % (h + h)) ((s + j) % (h + h)),
  wrap_neg_cases (h + h) (wrap_sub (h + h) ((s + i) % (h + h)) ((s + j) % (h + h))),
)

-- `wrappable_cmp` is -1, 1 or 0 exactly if its first argument comes before, comes after, or
-- neither.
pub wrappable_cmp-less :
    (h a b : ℕ)
    → a < h + h
    → b < h + h
    → wrappable_cmp (h + h) a b ≡ (
        if wrappable_less (h + h) a b
        then negsuc 0
        else if wrappable_less (h + h) b a
        then pos 1
        else pos 0)
unfolding wrappable_cmp wrappable_less
wrappable_cmp-less h a b ha hb = ground (
  arith,
  wrap_sub_cases (h + h) a b ha hb,
  wrap_sub_cases (h + h) b a hb ha,
  wrap_neg_cases (h + h) (wrap_sub (h + h) a b),
  wrap_neg_cases (h + h) (wrap_sub (h + h) b a),
)
