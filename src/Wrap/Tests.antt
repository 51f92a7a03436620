-- ===== src/Wrap/Tests.antt =====
-- Comparisons of two 32-bit numbers on both sides of the wrap.
use p2engine.Prelude.{arith, if◌then◌else◌, ltb, negsuc, pos, true, ◌%◌, ◌+◌, ◌<◌, ◌↔◌, ◌≡◌}
use p2engine.Wrap.{wrap_sub, wrappable_cmp, wrappable_less}
use p2engine.Wrap.Laws.{wrappable_cmp-less, wrappable_less_iff, wrappable_less_window}

wrappable_less_iff_example : (wrappable_less (2147483648 + 2147483648) 4294967290 5 ≡ true) ↔ (
    (0 < wrap_sub (2147483648 + 2147483648) 5 4294967290)
    × (wrap_sub (2147483648 + 2147483648) 5 4294967290 < 2147483648))
wrappable_less_iff_example = wrappable_less_iff 2147483648 4294967290 5 (omega arith) (omega arith)

wrappable_less_window_example :
    wrappable_less
      (2147483648 + 2147483648)
      ((4294967290 + 3) % (2147483648 + 2147483648))
      ((4294967290 + 9) % (2147483648 + 2147483648))
    ≡ ltb 3 9
wrappable_less_window_example =
    wrappable_less_window 2147483648 4294967290 3 9 (omega arith) (omega arith) (omega arith)

wrappable_cmp-less_example : wrappable_cmp (2147483648 + 2147483648) 5 4294967290 ≡ (
    if wrappable_less (2147483648 + 2147483648) 5 4294967290
    then negsuc 0
    else if wrappable_less (2147483648 + 2147483648) 4294967290 5
    then pos 1
    else pos 0)
wrappable_cmp-less_example = wrappable_cmp-less 2147483648 5 4294967290 (omega arith) (omega arith)
