-- ===== src/Http/Text.antt =====
-- Characters as the parsers of src/http test them. A character is a byte below 256.
use p2engine.Prelude.{
  Bool, List, [], arith, false, if◌then◌else◌, leb, not, true, ℕ, ◌&&◌, ◌+◌, ◌==◌, ◌||◌, ◌∷◌, ◌≡◌,
}

-- A space or a tab.
abbrev pub is_blank : ℕ → Bool
is_blank c = c == 32 || c == 9

-- A carriage return or a line feed.
abbrev pub is_newline : ℕ → Bool
is_newline c = c == 13 || c == 10

-- `isupper` and `tolower`, in the C locale.
abbrev pub is_upper : ℕ → Bool
is_upper c = leb 65 c && leb c 90

abbrev pub lower : ℕ → ℕ
lower c = if is_upper c then c + 32 else c

abbrev pub all : (ℕ → Bool) → List ℕ → Bool
all test [] = true
all test (c ∷ cs) = test c && all test cs

pub both_true : (a b : Bool) → (a && b) ≡ true → (a ≡ true) × (b ≡ true)
both_true a b h = ground arith

pub negated : (b : Bool) → not b ≡ true → b ≡ false
negated b h = ground arith
