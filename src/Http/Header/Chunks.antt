-- ===== src/Http/Header/Chunks.antt =====
-- `parse` of src/http/header.cpp on a header that comes in pieces.
use p2engine.Http.Header.{
  CharStep, HttpHeader, ParseState, char_in, firstline_1, firstline_2, firstline_3, go_on, key_char,
  key_newline, max_name_length, parse_from, parse_header, parser_key, parser_value, refuse,
  stop_after, stop_here, value_char,
}
use p2engine.Http.Text.{is_blank, is_newline}
use p2engine.Prelude.{
  Bool, Bool-cases, List, [], ap, ap₂, arith, false, inl, inr, length, ltb, neg_part, negsuc, not,
  pos, pos_part, refl, suc, sym, true, zero, ℕ, ℤ, ◌&&◌, ◌++◌, ◌+◌, ◌<◌, ◌==◌, ◌∙◌, ◌∷◌, ◌≡◌, ◌⊎◌,
}

-- What a later call returns, counted from the start of an earlier piece of k characters.
abbrev pub shift_result : ℕ → ℤ × HttpHeader → ℤ × HttpHeader
shift_result k (pos zero, h) = (pos zero, h)
shift_result k (pos (suc n), h) = (pos (k + suc n), h)
shift_result k (negsuc n, h) = (negsuc n, h)

-- What a character's step comes to, n characters into a call, with the rest of the call.
abbrev pub after_step : ℕ → List ℕ → CharStep → ℤ × HttpHeader
after_step n cs (go_on h) = parse_from (n + 1) cs h
after_step n cs (stop_here h) = (pos n, h)
after_step n cs (stop_after h) = (pos (n + 1), h)
after_step n cs (refuse h) = (negsuc 0, h)

-- Whether a step leaves the character.
abbrev leaves : CharStep → Bool
leaves (stop_here h) = true
leaves _ = false

pub parse_from_lem :
    (n c : ℕ) (cs : List ℕ) (h : HttpHeader)
    → parse_from n (c ∷ cs) h ≡ after_step n cs (char_in h.parse_state c h)
unfolding parse_from
parse_from_lem n c cs h =
    elim (char_in h.parse_state c h)
      as (λ s.
        (elim s [
          | go_on h' ↦ parse_from (n + 1) cs h'
          | stop_here h' ↦ (pos n, h')
          | stop_after h' ↦ (pos (n + 1), h')
          | refuse h' ↦ (negsuc 0, h')
        ])
        ≡ after_step n cs s) [
          | go_on g ↦ refl
          | stop_here g ↦ refl
          | stop_after g ↦ refl
          | refuse g ↦ refl
        ]

-- A character that belongs to a field's name or value.
abbrev pub field_char : ParseState → ℕ → Bool
field_char parser_key c = not (c == 58)
field_char parser_value c = true
field_char _ c = false

abbrev pub ends_at : ParseState → ℕ → HttpHeader → Bool
ends_at s c h =
    h.cr_lf_num == 3
    && not (is_blank c)
    && not (is_newline c)
    && ltb (length h.key) max_name_length
    && field_char s c

-- Whether a call ends before its first character: it starts behind three line ends in a row, with a
-- character of a field's name or value.
abbrev pub ends_at_once : List ℕ → HttpHeader → Bool
ends_at_once [] h = false
ends_at_once (c ∷ cs) h = ends_at h.parse_state c h

leaves-char_in : (s : ParseState) (c : ℕ) (h : HttpHeader) → leaves (char_in s c h) ≡ ends_at s c h
unfolding char_in key_char key_newline value_char
leaves-char_in firstline_1 c h = ground arith
leaves-char_in firstline_2 c h = ground arith
leaves-char_in firstline_3 c h = ground arith
leaves-char_in parser_key c h = ground arith
leaves-char_in parser_value c h = ground arith

char_in-stop_here :
    (s : ParseState) (c : ℕ) (h : HttpHeader) → ends_at s c h ≡ true → char_in s c h ≡ stop_here h
unfolding char_in key_char key_newline value_char
char_in-stop_here firstline_1 c h e = ground arith
char_in-stop_here firstline_2 c h e = ground arith
char_in-stop_here firstline_3 c h e = ground arith
char_in-stop_here parser_key c h e = ground arith
char_in-stop_here parser_value c h e = ground arith

shift-pos : (k n : ℕ) (h : HttpHeader) → 0 < n → shift_result k (pos n, h) ≡ (pos (k + n), h)
shift-pos k zero h some_bytes = absurd (omega arith)
shift-pos k (suc n) h some_bytes = refl

-- A step counted from an earlier start, if that holds for what follows it.
shift_step :
    (k n : ℕ) (cs : List ℕ) (s : CharStep)
    → ((0 < n) ⊎ (leaves s ≡ false))
    → ((h : HttpHeader) → parse_from (k + n + 1) cs h ≡ shift_result k (parse_from (n + 1) cs h))
    → after_step (k + n) cs s ≡ shift_result k (after_step n cs s)
shift_step k n cs (go_on h) where_ next = next h
shift_step k n cs (stop_here h) (inl some_bytes) next = sym (shift-pos k n h some_bytes)
shift_step k n cs (stop_here h) (inr e) next = absurd (ground arith)
shift_step k n cs (stop_after h) where_ next =
    ap (λ m. let r : ℤ × HttpHeader = (pos m, h) in r) (omega arith)
    ∙ sym (shift-pos k (n + 1) h (omega arith))
shift_step k n cs (refuse h) where_ next = refl

left_alone :
    (n c : ℕ) (h : HttpHeader)
    → ((0 < n) ⊎ (ends_at h.parse_state c h ≡ false))
    → (0 < n) ⊎ (leaves (char_in h.parse_state c h) ≡ false)
left_alone n c h (inl some_bytes) = inl some_bytes
left_alone n c h (inr on_) = inr (leaves-char_in h.parse_state c h ∙ on_)

parse_shifted :
    (k n : ℕ) (cs : List ℕ) (h : HttpHeader)
    → ((0 < n) ⊎ (ends_at_once cs h ≡ false))
    → parse_from (k + n) cs h ≡ shift_result k (parse_from n cs h)
unfolding parse_from
parse_shifted k n [] h where_ = refl
parse_shifted k n (c ∷ cs) h where_ =
    let s = char_in h.parse_state c h in
    parse_from_lem (k + n) c cs h
    ∙ shift_step k n cs s (left_alone n c h where_) (λ g.
      ap (λ m. parse_from m cs g) (omega arith) ∙ parse_shifted k (n + 1) cs g (inl (omega arith)))
    ∙ ap (shift_result k) (sym (parse_from_lem n c cs h))

-- A step of a call that took all its characters, with more characters behind them.
more_step :
    (n : ℕ) (a b : List ℕ) (s : CharStep) (h' : HttpHeader)
    → ((0 < n) ⊎ (leaves s ≡ false))
    → after_step n a s ≡ (pos 0, h')
    → ((g : HttpHeader)
        → parse_from (n + 1) a g ≡ (pos 0, h')
        → parse_from (n + 1) (a ++ b) g ≡ parse_from (n + 1 + length a) b h')
    → after_step n (a ++ b) s ≡ parse_from (n + suc (length a)) b h'
more_step n a b (go_on h) h' where_ e next = next h e ∙ ap (λ m. parse_from m b h') (omega arith)
more_step n a b (stop_here h) h' (inl some_bytes) e next =
    absurd (omega (arith, ap (λ (r : ℤ × HttpHeader). pos_part r.0) e))
more_step n a b (stop_here h) h' (inr k) e next = absurd (ground arith)
more_step n a b (stop_after h) h' where_ e next =
    absurd (omega (arith, ap (λ (r : ℤ × HttpHeader). pos_part r.0) e))
more_step n a b (refuse h) h' where_ e next =
    absurd (omega (arith, ap (λ (r : ℤ × HttpHeader). neg_part r.0) e))

parse_more :
    (n : ℕ) (a b : List ℕ) (h h' : HttpHeader)
    → ((0 < n) ⊎ (ends_at_once a h ≡ false))
    → parse_from n a h ≡ (pos 0, h')
    → parse_from n (a ++ b) h ≡ parse_from (n + length a) b h'
unfolding parse_from
parse_more n [] b h h' where_ e =
    ap₂ (λ m g. parse_from m b g) (omega arith) (ap (λ (r : ℤ × HttpHeader). r.1) e)
parse_more n (c ∷ a) b h h' where_ e =
    parse_from_lem n c (a ++ b) h
    ∙ more_step n a b (char_in h.parse_state c h) h' (left_alone n c h where_)
        (sym (parse_from_lem n c a h) ∙ e)
        (λ g k. parse_more (n + 1) a b g h' (inl (omega arith)) k)

ends-parse_from :
    (n : ℕ) (cs : List ℕ) (h : HttpHeader)
    → ends_at_once cs h ≡ true
    → parse_from n cs h ≡ (pos n, h)
ends-parse_from n [] h e = absurd (ground arith)
ends-parse_from n (c ∷ cs) h e =
    parse_from_lem n c cs h ∙ ap (after_step n cs) (char_in-stop_here h.parse_state c h e)

-- A header in two pieces, of which `parse` takes the first and asks for more, and that call does not
-- end before its first character. Either the call on the second piece returns what one call on both
-- would, counted from the start of the second piece, and leaves the same state; or it ends before its
-- first character, which it does only behind three line ends and with a character of a field's name or
-- value: then one call on both returns the length of the first piece, the call on the second returns 0
-- again, and both leave the state that the first left.
pub parse_chunks :
    (a b : List ℕ) (h h' : HttpHeader)
    → ends_at_once a h ≡ false
    → parse_header a h ≡ (pos 0, h')
    → ((ends_at_once b h' ≡ false)
        × (parse_header (a ++ b) h ≡ shift_result (length a) (parse_header b h')))
      ⊎ ((ends_at_once b h' ≡ true)
          × (parse_header (a ++ b) h ≡ (pos (length a), h'))
          × (parse_header b h' ≡ (pos 0, h')))
unfolding parse_header
parse_chunks a b h h' on_ e =
    let both : parse_from 0 (a ++ b) h ≡ parse_from (length a) b h' =
      parse_more 0 a b h h' (inr on_) e ∙ ap (λ m. parse_from m b h') (omega arith) in
    elim (Bool-cases (ends_at_once b h')) [
      | inl ends ↦
          inr (ends, both ∙ ends-parse_from (length a) b h' ends, ends-parse_from 0 b h' ends)
      | inr goes ↦ inl (
        goes,
        both
            ∙ ap (λ m. parse_from m b h') (omega arith)
            ∙ parse_shifted (length a) 0 b h' (inr goes),
      )
    ]
