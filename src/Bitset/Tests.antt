-- ===== src/Bitset/Tests.antt =====
-- Runs of the compressed bitset of p2engine/compressed_bitset.hpp.
use p2engine.Bitset.{
  CompressedBuf, best_width, code_of, commpless_to_buf, compress_loop, compress_to_buf, copies,
  count_run, decompress, decompress_loop, get_bits, make_room, set_bits, too_short,
}
use p2engine.Bitset.RoundTrip.{compress_to_buf-decompress}
use p2engine.Prelude.{
  Bool, List, Option, [], arith, false, if◌then◌else◌, none, refl, some, true, ℕ, ◌∷◌, ◌≡◌,
}

abbrev forty_ones : List Bool
forty_ones = copies true 40

abbrev forty_buf : CompressedBuf
forty_buf = record {
  bitset_size = 40;
  bits = 8;
  codes = true ∷ true ∷ true ∷ false ∷ false ∷ true ∷ false ∷ true ∷ [];
  buf_len = 4;
}

forty_compressed : compress_to_buf forty_ones ≡ some forty_buf
unfolding compress_to_buf best_width commpless_to_buf compress_loop count_run make_room code_of
    set_bits
forty_compressed = refl

forty_decompressed : decompress forty_buf ≡ forty_ones
unfolding decompress too_short decompress_loop get_bits
forty_decompressed = refl

abbrev len_and_bits : Option CompressedBuf → ℕ × List Bool
len_and_bits none = (0, [])
len_and_bits (some t) = (t.buf_len, decompress t)

-- Two hundred ones are compressed to five bytes, which decompress takes to be too short.
two_hundred_ones_lost : len_and_bits (compress_to_buf (copies true 200)) ≡ (5, [])
unfolding compress_to_buf best_width commpless_to_buf compress_loop count_run make_room code_of
    set_bits decompress too_short
two_hundred_ones_lost = refl

compress_to_buf-decompress_example :
    decompress forty_buf ≡ (if (too_short forty_buf) then [] else forty_ones)
compress_to_buf-decompress_example =
    compress_to_buf-decompress forty_ones forty_buf (omega arith) forty_compressed
