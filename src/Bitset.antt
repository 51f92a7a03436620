-- ===== src/Bitset.antt =====
-- The compressed bitset of p2engine/compressed_bitset.hpp. A run of equal bits becomes a code of w
-- bits: the bit in the highest place, and how many more follow. The codes stand behind each other in
-- the buffer, whose bits are a list here, eight to a byte, the lowest first.
pub mod Codes
pub mod Packed
pub mod RoundTrip
pub mod Tests
use p2engine.Prelude.{
  Bool, List, Option, [], drop, false, if◌then◌else◌, leb, length, ltb, min, none, not, some, suc,
  true, zero, ℕ, ◌%◌, ◌*◌, ◌++◌, ◌+◌, ◌-◌, ◌/◌, ◌==◌, ◌∷◌,
}
use p2engine.Urdp.Types.{u16_mod}

-- `1 << n`.
abbrev pub shifted : ℕ → ℕ
shifted zero = 1
shifted (suc n) = shifted n + shifted n

-- The buffer: the size of the bitset, in two bytes, the width of a code, the codes, and its length.
pub record CompressedBuf : Type 0 where
  pub bitset_size : ℕ
  pub bits : ℕ
  pub codes : List Bool
  pub buf_len : ℕ

abbrev pub same_bit : Bool → Bool → Bool
same_bit true b = b
same_bit false b = not b

-- The inner loop of `_commpless_to_buf`: how many bits, at most m, go on with v.
unfoldable pub count_run : ℕ → Bool → List Bool → ℕ
count_run zero v bs = 0
count_run (suc m) v [] = 0
count_run (suc m) v (b ∷ bs) =
    let further = count_run m v bs in if same_bit v b then suc further else 0

-- The code of a run, of width n + 1.
unfoldable pub code_of : ℕ → Bool → ℕ → ℕ
code_of n v j = (if v then shifted n else 0) + j

-- `_set_bits` behind what is there, and `_get_bits`.
unfoldable pub set_bits : ℕ → ℕ → List Bool
set_bits zero x = []
set_bits (suc n) x = (x % 2 == 1) ∷ set_bits n (x / 2)

unfoldable pub get_bits : ℕ → List Bool → ℕ
get_bits zero bs = 0
get_bits (suc n) [] = 0
get_bits (suc n) (b ∷ bs) = (if b then 1 else 0) + 2 * get_bits n bs

-- The loop that makes room: bytes are added until there are enough, and it fails once the buffer, with
-- the three bytes in front, has `limit` bytes.
unfoldable pub make_room : ℕ → ℕ → ℕ → ℕ → Option ℕ
make_room limit zero need bytes = some bytes
make_room limit (suc fuel) need bytes =
    let further = make_room limit fuel need (bytes + 1) in
    if ltb (bytes * 8) need then if leb limit (bytes + 1 + 3) then none else further else some bytes

-- The outer loop of `_commpless_to_buf`, for codes of width n + 1; the bitset is used up in as many
-- rounds as it has bits, or fewer.
unfoldable pub compress_loop : ℕ → ℕ → ℕ → List Bool → ℕ → List Bool → Option (ℕ × List Bool)
compress_loop n limit zero bs bytes codes = some (bytes, codes)
compress_loop n limit (suc fuel) [] bytes codes = some (bytes, codes)
compress_loop n limit (suc fuel) (v ∷ bs) bytes codes =
    let j = count_run (shifted n - 1) v bs in
    let need = length codes + suc n in
    elim (make_room limit need need bytes) [
      | none ↦ none
      | some bytes' ↦
          compress_loop n limit fuel (drop j bs) bytes' (codes ++ set_bits (suc n) (code_of n v j))
    ]

-- `_commpless_to_buf`, for codes of width n + 1.
unfoldable pub commpless_to_buf : ℕ → ℕ → List Bool → Option CompressedBuf
commpless_to_buf n limit bs = elim (compress_loop n limit (length bs) bs 0 []) [
  | none ↦ none
  | some (bytes, codes) ↦ some (record {
    bitset_size = length bs % u16_mod;
    bits = suc n;
    codes = codes;
    buf_len = 3 + bytes;
  })
]

-- The loop of `compress_to_buf` over the widths, with the best buffer so far.
unfoldable pub best_width : ℕ → List Bool → List ℕ → Option CompressedBuf → Option CompressedBuf
best_width limit bs [] best = best
best_width limit bs (n ∷ ns) best = elim (commpless_to_buf n limit bs) [
  | none ↦ best_width limit bs ns best
  | some t ↦ elim best [
    | none ↦ best_width limit bs ns (some t)
    | some b ↦
        let with_new = best_width limit bs ns (some t) in
        let with_old = best_width limit bs ns (some b) in
        if ltb b.buf_len t.buf_len
        then some b
        else if ltb t.buf_len b.buf_len
        then with_new
        else with_old
  ]
]

-- `compress_to_buf`: the widths 8 to 2.
unfoldable pub compress_to_buf : List Bool → Option CompressedBuf
compress_to_buf bs = best_width ((length bs + 7) / 8) bs (7 ∷ 6 ∷ 5 ∷ 4 ∷ 3 ∷ 2 ∷ 1 ∷ []) none

abbrev pub copies : Bool → ℕ → List Bool
copies v zero = []
copies v (suc n) = v ∷ copies v n

-- The loop of `decompress`, for codes of width n + 1, with the bits that are still to be set; each
-- round sets one or more.
unfoldable pub decompress_loop : ℕ → ℕ → ℕ → List Bool → List Bool
decompress_loop n zero left codes = []
decompress_loop n (suc fuel) zero codes = []
decompress_loop n (suc fuel) (suc left) codes =
    let num = get_bits (suc n) codes in
    let v = leb (shifted n) num in
    let further = min (if v then num - shifted n else num) left in
    v ∷ (copies v further ++ decompress_loop n fuel (left - further) (drop (suc n) codes))

-- Whether `decompress` takes a buffer to be too short; one of fewer than three bytes always is.
unfoldable pub too_short : CompressedBuf → Bool
too_short buf = ltb buf.buf_len ((buf.bitset_size / buf.bits + 7) / 8 + 3)

-- `decompress`, of a buffer that `compress_to_buf` made.
unfoldable pub decompress : CompressedBuf → List Bool
decompress buf =
    if too_short buf
    then []
    else decompress_loop (buf.bits - 1) buf.bitset_size buf.bitset_size buf.codes
