-- ===== src/Bitset/RoundTrip.antt =====
-- Compressing a bitset and decompressing it again (p2engine/compressed_bitset.hpp).
use native.Mathlib.Nat.{mod-eq_of_lt}
use p2engine.Bitset.{
  CompressedBuf, best_width, commpless_to_buf, compress_loop, compress_to_buf, decompress,
  decompress_loop, too_short,
}
use p2engine.Bitset.Packed.{PackedAs, compress_loop-packed, decompress_loop-packed, packed}
use p2engine.Prelude.{
  Bool, List, Option, [], ap, arith, false, if◌then◌else◌, length, ltb, none, some, subst, suc,
  true, ℕ, ◌%◌, ◌+◌, ◌-◌, ◌/◌, ◌<◌, ◌∷◌, ◌≡◌,
}
use p2engine.Urdp.Types.{u16_mod}

suc_minus : (n : ℕ) → suc n - 1 ≡ n
suc_minus n = omega arith

restored :
    (n : ℕ) (bs codes : List Bool)
    → codes ≡ packed n (length bs) bs
    → length bs < u16_mod
    → decompress_loop (suc n - 1) (length bs % u16_mod) (length bs % u16_mod) codes ≡ bs
restored n bs codes k h = rw (
  mod-eq_of_lt h,
  suc_minus n,
  k,
  decompress_loop-packed n (length bs) (length bs) bs (omega arith) (omega arith),
)

-- What a buffer is decompressed to, for the bitset it was made of.
Restores : List Bool → Option CompressedBuf → Type 0
Restores bs none = Unit
Restores bs (some t) = decompress t ≡ (if too_short t then [] else bs)

commpless_to_buf-Restores :
    (n limit : ℕ) (bs : List Bool) → length bs < u16_mod → Restores bs (commpless_to_buf n limit bs)
unfolding commpless_to_buf decompress Restores PackedAs
commpless_to_buf-Restores n limit bs h =
    elim (compress_loop n limit (length bs) bs 0 [])
        as (λ r.
          PackedAs (packed n (length bs) bs) r
          → Restores bs (elim r [
            | none ↦ none
            | some (bytes, codes) ↦ some (record {
              bitset_size = length bs % u16_mod;
              bits = suc n;
              codes = codes;
              buf_len = 3 + bytes;
            })
          ])) [
            | none ↦ λ k. tt
            | some (bytes, codes) ↦ λ k.
                ap
                  (λ xs.
                    if (too_short (record {
                      bitset_size = length bs % u16_mod;
                      bits = suc n;
                      codes = codes;
                      buf_len = 3 + bytes;
                    }))
                    then []
                    else xs)
                  (restored n bs codes k h)
          ]
      (compress_loop-packed n limit (length bs) bs 0 [])

chosen :
    (bs : List Bool) (c d : Bool) (x y z : Option CompressedBuf)
    → Restores bs x
    → Restores bs y
    → Restores bs z
    → Restores bs (if c then x else if d then y else z)
chosen bs true d x y z h i j = h
chosen bs false true x y z h i j = i
chosen bs false false x y z h i j = j

best_width-Restores :
    (limit : ℕ) (bs : List Bool) (ns : List ℕ) (best : Option CompressedBuf)
    → length bs < u16_mod
    → Restores bs best
    → Restores bs (best_width limit bs ns best)
unfolding best_width Restores
best_width-Restores limit bs [] best h k = k
best_width-Restores limit bs (n ∷ ns) none h k =
    elim (commpless_to_buf n limit bs)
        as (λ r.
          Restores bs r
          → Restores bs (elim r [
            | none ↦ best_width limit bs ns none
            | some t ↦ best_width limit bs ns (some t)
          ])) [
            | none ↦ λ made. best_width-Restores limit bs ns none h tt
            | some t ↦ λ made. best_width-Restores limit bs ns (some t) h made
          ]
      (commpless_to_buf-Restores n limit bs h)
best_width-Restores limit bs (n ∷ ns) (some b) h k =
    elim (commpless_to_buf n limit bs)
        as (λ r.
          Restores bs r
          → Restores bs (elim r [
            | none ↦ best_width limit bs ns (some b)
            | some t ↦
                if ltb b.buf_len t.buf_len
                then some b
                else if ltb t.buf_len b.buf_len
                then best_width limit bs ns (some t)
                else best_width limit bs ns (some b)
          ])) [
            | none ↦ λ made. best_width-Restores limit bs ns (some b) h k
            | some t ↦ λ made.
                chosen bs (ltb b.buf_len t.buf_len) (ltb t.buf_len b.buf_len) (some b)
                  (best_width limit bs ns (some t)) (best_width limit bs ns (some b)) k
                  (best_width-Restores limit bs ns (some t) h made)
                  (best_width-Restores limit bs ns (some b) h k)
          ]
      (commpless_to_buf-Restores n limit bs h)

-- What compress_to_buf makes of a bitset of fewer than 65,536 bits, decompress turns into the bitset
-- again, or into the empty one where it takes the buffer to be too short.
pub compress_to_buf-decompress :
    (bs : List Bool) (t : CompressedBuf)
    → length bs < u16_mod
    → compress_to_buf bs ≡ some t
    → decompress t ≡ (if too_short t then [] else bs)
unfolding compress_to_buf Restores
compress_to_buf-decompress bs t h e =
    subst (λ r. Restores bs r) e
      (best_width-Restores ((length bs + 7) / 8) bs (7 ∷ 6 ∷ 5 ∷ 4 ∷ 3 ∷ 2 ∷ 1 ∷ []) none h tt)
