-- ===== src/Http/Header/Steps.antt =====
-- Runs of the loop of `parse` in src/http/header.cpp over a stretch of characters, without a return.
use p2engine.Http.Header.{HttpHeader, char_in, go_on, parse_from}
use p2engine.Prelude.{
  List, [], ap, append_assoc, arith, length, length-append, ℕ, ◌++◌, ◌+◌, ◌∙◌, ◌∷◌, ◌≡◌,
}

-- The loop comes from one state to another over these characters, wherever they stand.
abbrev pub Goes : List ℕ → HttpHeader → HttpHeader → Type 0
Goes a h h' =
    (n : ℕ) (rest : List ℕ) → parse_from n (a ++ rest) h ≡ parse_from (n + length a) rest h'

pub Goes-nil : (h : HttpHeader) → Goes [] h h
Goes-nil h n rest = ap (λ k. parse_from k rest h) (omega arith)

pub Goes-cons :
    (c : ℕ) (a : List ℕ) (h h' h'' : HttpHeader)
    → char_in h.parse_state c h ≡ go_on h'
    → Goes a h' h''
    → Goes (c ∷ a) h h''
unfolding parse_from
Goes-cons c a h h' h'' e g n rest =
    rw (e, parse_from) (g (n + 1) rest ∙ ap (λ k. parse_from k rest h'') (omega arith))

pub Goes-trans :
    (a b : List ℕ) (h h' h'' : HttpHeader) → Goes a h h' → Goes b h' h'' → Goes (a ++ b) h h''
Goes-trans a b h h' h'' g k n rest =
    ap (λ l. parse_from n l h) (append_assoc a b rest)
    ∙ g n (b ++ rest)
    ∙ k (n + length a) rest
    ∙ ap (λ m. parse_from m rest h'') (omega (arith, length-append a b))
