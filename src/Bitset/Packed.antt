-- ===== src/Bitset/Packed.antt =====
-- The codes that the loop of _commpless_to_buf writes, and that the loop of decompress reads
-- (p2engine/compressed_bitset.hpp).
use p2engine.Bitset.{
  code_of, compress_loop, copies, count_run, decompress_loop, make_room, set_bits, shifted,
}
use p2engine.Bitset.Codes.{count_run_lem, drop-set_bits, get-set_bits, shifted_positive}
use p2engine.Prelude.{
  Bool, List, Option, [], ap, arith, drop, false, if◌then◌else◌, leb, length, length-drop, min,
  none, refl, some, subst, suc, sym, true, zero, ℕ, ◌++◌, ◌+◌, ◌-◌, ◌<◌, ◌∙◌, ◌∷◌, ◌≡◌, ◌≤◌,
}

-- The codes of a bitset behind each other.
unfoldable pub packed : ℕ → ℕ → List Bool → List Bool
packed n zero bs = []
packed n (suc fuel) [] = []
packed n (suc fuel) (v ∷ bs) =
    let j = count_run (shifted n - 1) v bs in
    set_bits (suc n) (code_of n v j) ++ packed n fuel (drop j bs)

unfoldable pub PackedAs : List Bool → Option (ℕ × List Bool) → Type 0
PackedAs codes none = Unit
PackedAs codes (some r) = r.1 ≡ codes

append_empty : (xs : List Bool) → xs ++ [] ≡ xs
append_empty [] = refl
append_empty (x ∷ xs) = ap (◌∷◌ x) (append_empty xs)

append_twice : (xs ys zs : List Bool) → (xs ++ ys) ++ zs ≡ xs ++ (ys ++ zs)
append_twice [] ys zs = refl
append_twice (x ∷ xs) ys zs = ap (◌∷◌ x) (append_twice xs ys zs)

pub compress_loop-packed :
    (n limit fuel : ℕ) (bs : List Bool) (bytes : ℕ) (codes : List Bool)
    → PackedAs (codes ++ packed n fuel bs) (compress_loop n limit fuel bs bytes codes)
unfolding compress_loop packed PackedAs
compress_loop-packed n limit zero bs bytes codes = sym (append_empty codes)
compress_loop-packed n limit (suc fuel) [] bytes codes = sym (append_empty codes)
compress_loop-packed n limit (suc fuel) (v ∷ bs) bytes codes =
    let j = count_run (shifted n - 1) v bs in
    let need = length codes + suc n in
    let c = set_bits (suc n) (code_of n v j) in
    elim (make_room limit need need bytes)
      as (λ r.
        PackedAs (codes ++ (c ++ packed n fuel (drop j bs))) (elim r [
          | none ↦ none
          | some b ↦ compress_loop n limit fuel (drop j bs) b (codes ++ c)
        ])) [
          | none ↦ tt
          | some b ↦
              subst (λ all. PackedAs all (compress_loop n limit fuel (drop j bs) b (codes ++ c)))
                (append_twice codes c (packed n fuel (drop j bs)))
                (compress_loop-packed n limit fuel (drop j bs) b (codes ++ c))
        ]

min_of : (m n : ℕ) → m ≤ n → min m n ≡ m
min_of m n h = omega arith

-- A code read back: which bit, and how many more.
code_bit : (n : ℕ) (v : Bool) (j : ℕ) → j < shifted n → leb (shifted n) (code_of n v j) ≡ v
unfolding code_of
code_bit n true j h = ground arith
code_bit n false j h = ground arith

code_count :
    (n : ℕ) (v : Bool) (j : ℕ) → (if v then code_of n v j - shifted n else code_of n v j) ≡ j
unfolding code_of
code_count n true j = omega arith
code_count n false j = omega arith

code_small : (n : ℕ) (v : Bool) (j : ℕ) → j < shifted n → code_of n v j < shifted (suc n)
unfolding code_of
code_small n true j h = omega arith
code_small n false j h = omega arith

round :
    (n f left : ℕ) (v : Bool) (j : ℕ) (rest : List Bool)
    → j < shifted n
    → j ≤ left
    → decompress_loop n (suc f) (suc left) (set_bits (suc n) (code_of n v j) ++ rest)
      ≡ v ∷ (copies v j ++ decompress_loop n f (left - j) rest)
unfolding decompress_loop
round n f left v j rest h h' = rw (
  get-set_bits (suc n) (code_of n v j) rest (code_small n v j h),
  drop-set_bits (suc n) (code_of n v j) rest,
  code_bit n v j h,
  code_count n v j,
  min_of j left h',
)

pub decompress_loop-packed :
    (n fuel f : ℕ) (bs : List Bool)
    → length bs ≤ fuel
    → length bs ≤ f
    → decompress_loop n f (length bs) (packed n fuel bs) ≡ bs
unfolding decompress_loop packed
decompress_loop-packed n fuel zero [] h h' = refl
decompress_loop-packed n fuel (suc f) [] h h' = refl
decompress_loop-packed n zero f (v ∷ bs) h h' = absurd (omega arith)
decompress_loop-packed n fuel zero (v ∷ bs) h h' = absurd (omega arith)
decompress_loop-packed n (suc fuel) (suc f) (v ∷ bs) h h' =
    let j = count_run (shifted n - 1) v bs in
    let (e, most, short) = count_run_lem (shifted n - 1) v bs in
    let below : count_run (shifted n - 1) v bs < shifted n =
      omega (arith, most, shifted_positive n) in
    round n f (length bs) v j (packed n fuel (drop j bs)) below short
    ∙ ap (λ k. v ∷ (copies v j ++ decompress_loop n f k (packed n fuel (drop j bs))))
        (sym (length-drop j bs))
    ∙ ap (λ xs. v ∷ (copies v j ++ xs))
        (decompress_loop-packed n fuel f (drop j bs) (omega (arith, length-drop j bs))
          (omega (arith, length-drop j bs)))
    ∙ ap (◌∷◌ v) e
