-- ===== src/Urdp/Reassembly/Reading.antt =====
-- The reading loop of `__recv` in src/rdp/urdp_flow.cpp, and the bytes that are stored.
use p2engine.Prelude.{
  Bool-cases, List, [], ap, arith, drop, false, inl, inr, leb, leb→le, length, refl, some, suc, sym,
  take, zero, ℕ, ◌++◌, ◌-◌, ◌<◌, ◌==◌, ◌∙◌, ◌∷◌, ◌≡◌, ◌≤◌,
}
use p2engine.Urdp.Flow.{RSegment}
use p2engine.Urdp.Format.{be16}
use p2engine.Urdp.Reassembly.{message_len, read_segments}

abbrev pub stored : List RSegment → List ℕ
stored [] = []
stored (s ∷ r) = s.buf ++ stored r

-- No segment is empty.
abbrev pub AllFilled : List RSegment → Type 0
AllFilled [] = Unit {0}
AllFilled (s ∷ r) = (0 < length s.buf) × AllFilled r

pub take-append_long :
    (n : ℕ) (xs ys : List ℕ) → length xs ≤ n → take n (xs ++ ys) ≡ xs ++ take (n - length xs) ys
take-append_long n [] ys h = ap (λ k. take k ys) (omega arith)
take-append_long zero (x ∷ xs) ys h = absurd (omega arith)
take-append_long (suc n) (x ∷ xs) ys h =
    ap (◌∷◌ x) (take-append_long n xs ys (omega arith) ∙ ap (λ k. xs ++ take k ys) (omega arith))

pub drop-append_long :
    (n : ℕ) (xs ys : List ℕ) → length xs ≤ n → drop n (xs ++ ys) ≡ drop (n - length xs) ys
drop-append_long n [] ys h = ap (λ k. drop k ys) (omega arith)
drop-append_long zero (x ∷ xs) ys h = absurd (omega arith)
drop-append_long (suc n) (x ∷ xs) ys h =
    drop-append_long n xs ys (omega arith) ∙ ap (λ k. drop k ys) (omega arith)

pub take-append_short : (n : ℕ) (xs ys : List ℕ) → n ≤ length xs → take n (xs ++ ys) ≡ take n xs
take-append_short zero xs ys h = refl
take-append_short (suc n) [] ys h = absurd (omega arith)
take-append_short (suc n) (x ∷ xs) ys h = ap (◌∷◌ x) (take-append_short n xs ys (omega arith))

pub drop-append_short :
    (n : ℕ) (xs ys : List ℕ) → n ≤ length xs → drop n (xs ++ ys) ≡ drop n xs ++ ys
drop-append_short zero xs ys h = refl
drop-append_short (suc n) [] ys h = absurd (omega arith)
drop-append_short (suc n) (x ∷ xs) ys h = drop-append_short n xs ys (omega arith)

-- The loop of `__recv` takes the first bytes of what is stored, and leaves the others, in order.
pub read_segments_lem :
    (n : ℕ) (l : List RSegment)
    → ((read_segments n l).0 ≡ take n (stored l))
      × (stored (read_segments n l).1 ≡ drop n (stored l))
unfolding read_segments
read_segments_lem zero [] = (refl, refl)
read_segments_lem (suc n) [] = (refl, refl)
read_segments_lem zero (s ∷ r) = (refl, refl)
read_segments_lem (suc n) (s ∷ r) =
    let (taken, left) = read_segments_lem (suc n - length s.buf) r in
    let some_left : (suc n == 0) ≡ false = ground arith in
    elim (Bool-cases (leb (length s.buf) (suc n))) [
      | inl e ↦
          let whole = leb→le (length s.buf) (suc n) e in
          rw (some_left, e)
            (
              ap (◌++◌ s.buf) taken ∙ sym (take-append_long (suc n) s.buf (stored r) whole),
              left ∙ sym (drop-append_long (suc n) s.buf (stored r) whole),
            )
      | inr e ↦
          let part : suc n ≤ length s.buf = ground (arith, e) in
          rw (some_left, e)
            (
              sym (take-append_short (suc n) s.buf (stored r) part),
              sym (drop-append_short (suc n) s.buf (stored r) part),
            )
    ]

-- The length field is found, also where a segment ends inside it.
pub message_len-stored :
    (l : List RSegment) (a b : ℕ) (rest : List ℕ)
    → AllFilled l
    → stored l ≡ a ∷ b ∷ rest
    → message_len l ≡ some (be16 a b)
unfolding message_len
message_len-stored [] a b rest h e = cc
message_len-stored (s ∷ r) a b rest h e = first s.buf s.seq r h e
  where
    second :
        (x : ℕ) (q : ℕ) (buf : List ℕ) (seq : ℕ) (r : List RSegment)
        → 0 < length buf
        → (x ∷ buf ++ stored r) ≡ a ∷ b ∷ rest
        → message_len (record { buf = x ∷ []; seq = q } ∷ record { buf = buf; seq = seq } ∷ r)
          ≡ some (be16 a b)
    second x q [] seq r k d = absurd (omega arith)
    second x q (y ∷ u) seq r k d = cc

    first :
        (buf : List ℕ) (seq : ℕ) (r : List RSegment)
        → AllFilled (record { buf = buf; seq = seq } ∷ r)
        → buf ++ stored r ≡ a ∷ b ∷ rest
        → message_len (record { buf = buf; seq = seq } ∷ r) ≡ some (be16 a b)
    first [] seq r k d = absurd (omega arith)
    first (x ∷ []) seq [] k d = cc
    first (x ∷ []) seq (t ∷ r) k d = second x seq t.buf t.seq r k.1.0 d
    first (x ∷ y ∷ u) seq r k d = cc
