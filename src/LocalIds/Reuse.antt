-- ===== src/LocalIds/Reuse.antt =====
-- The first loop of `alloc_id` of p2engine/local_id_allocator.hpp.
use p2engine.Http.Text.{both_true, negated}
use p2engine.LocalIds.{mem, reuse_front}
use p2engine.LocalIds.Lists.{all_below, apart, apart-tail, distinct}
use p2engine.Prelude.{
  Bool, List, Option, [], ap, arith, false, if◌then◌else◌, length, ltb, ltb→lt, none, not, refl,
  some, subst, true, ℕ, ◌<◌, ◌∷◌, ◌≡◌,
}

-- What the first loop leaves: fewer ids, of the same kind, and one that is none of the others.
abbrev pub Reused : ℕ → List ℕ → List ℕ → Option ℕ × List ℕ → Type 0
Reused t live reserved (found, rest) =
    (all_below t rest ≡ true)
    × (distinct rest ≡ true)
    × (apart rest live ≡ true)
    × ((id : ℕ)
        → found ≡ some id
        → (id < t) × (mem id live ≡ false) × (mem id rest ≡ false) × (mem id reserved ≡ false))

Reused-if :
    (t : ℕ) (live reserved : List ℕ) (b : Bool) (x y : Option ℕ × List ℕ)
    → (b ≡ true → Reused t live reserved x)
    → (b ≡ false → Reused t live reserved y)
    → Reused t live reserved (if b then x else y)
Reused-if t live reserved true x y f g = f refl
Reused-if t live reserved false x y f g = g refl

some_inj : (x id : ℕ) → some x ≡ some id → x ≡ id
some_inj x id e = ap (λ (o : Option ℕ). elim o [ none ↦ 0 | some k ↦ k ]) e

none_not_some : (id : ℕ) → ¬ (none ≡ some id)
none_not_some id e = ground arith

pub Reused-reuse_front :
    (mark t : ℕ) (live reserved ids : List ℕ)
    → all_below t ids ≡ true
    → distinct ids ≡ true
    → apart ids live ≡ true
    → Reused t live reserved (reuse_front mark reserved ids)
unfolding reuse_front
Reused-reuse_front mark t live reserved [] below diff other =
    (refl, refl, other, λ id e. absurd (none_not_some id e))
Reused-reuse_front mark t live reserved (x ∷ xs) below diff other =
    let b = both_true (ltb x t) (all_below t xs) below in
    let d = both_true (not (mem x xs)) (distinct xs) diff in
    let o = apart-tail x xs live other in
    Reused-if t live reserved (ltb mark (length (x ∷ xs))) _ _
      (λ many.
        Reused-if t live reserved (mem x reserved) _ _
          (λ kept. Reused-reuse_front mark t live reserved xs b.1 d.1 o.1)
          (λ free. (
            b.1,
            d.1,
            o.1,
            λ id e.
                subst
                  (λ k.
                    (k < t) × (mem k live ≡ false) × (mem k xs ≡ false) × (mem k reserved ≡ false))
                  (some_inj x id e) (ltb→lt x t b.0, o.0, negated _ d.0, free),
          )))
      (λ few. (below, diff, other, λ id e. absurd (none_not_some id e)))
