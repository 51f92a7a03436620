-- ===== src/Http/Header/Clean.antt =====
-- What `parse` of src/http/header.cpp lets into the map of fields.
use p2engine.Http.Header.{
  CharStep, HttpHeader, ParseState, char_in, firstline_1, firstline_2, firstline_3, go_on,
  max_name_length, parse_from, parse_header, parser_key, parser_value, refuse, stop_after,
  stop_here, value_char, value_newline,
}
use p2engine.Http.Header.Chunks.{after_step, parse_from_lem}
use p2engine.Http.Header.CleanNames.{
  IsClean, IsClean-if, IsClean-key_char, clean_entry, clean_fields-insert, held, text_add,
}
use p2engine.Http.Header.Lines.{and_false, is_value_char, ok_value}
use p2engine.Http.Text.{both_true, is_blank, is_newline, negated}
use p2engine.Prelude.{
  Bool, List, [], ap, ap₂, arith, false, if◌then◌else◌, inl, inr, is_empty, leb, length, ltb, not,
  refl, subst, sym, true, ℕ, ℤ, ◌&&◌, ◌+◌, ◌==◌, ◌∙◌, ◌∷◌, ◌≡◌, ◌≤◌, ◌⊎◌,
}
use p2engine.Urdp.Init.{blank}

-- A value in progress that is not empty is one.
le→leb : (a b : ℕ) → a ≤ b → leb a b ≡ true
le→leb a b h = ground arith

text_of : (w : List ℕ) → ((w ≡ []) ⊎ (ok_value w ≡ true)) → is_empty w ≡ false → ok_value w ≡ true
text_of w (inl e) some_text = absurd (ground arith)
text_of w (inr t) some_text = t

entry_of :
    (h : HttpHeader)
    → not (is_empty h.key) ≡ true
    → is_empty h.value ≡ false
    → IsClean h
    → clean_entry h.key h.value ≡ true
entry_of h some_name some_text v =
    ap₂ (λ x y. x && y) some_name
      (ap₂ (λ x y. x && y) (le→leb (length h.key) 64 v.short)
        (ap₂ (λ x y. x && y) v.name (text_of h.value v.text some_text)))

IsClean-side :
    (b : Bool) (x y : HttpHeader)
    → (b ≡ true → IsClean x)
    → (b ≡ false → IsClean y)
    → IsClean (if b then x else y)
IsClean-side true x y f g = f refl
IsClean-side false x y f g = g refl

IsClean-value_newline : (h : HttpHeader) → IsClean h → IsClean (value_newline h)
unfolding value_newline
IsClean-value_newline h v =
    IsClean-side (not (is_empty h.key) && not (is_empty h.value)) _ _
      (λ e.
        let b = both_true (not (is_empty h.key)) (not (is_empty h.value)) e in
        record {
          kept =
              clean_fields-insert h.key h.value h.fields (entry_of h b.0 (negated _ b.1) v) v.kept;
          name = refl;
          short = omega arith;
          text = inl refl;
        })
      (λ e. record { kept = v.kept; name = v.name; short = v.short; text = v.text })

value_char_of : (c : ℕ) → is_blank c ≡ true → is_value_char c ≡ true
value_char_of c blank = ground arith

IsClean-value_char : (c : ℕ) (h : HttpHeader) → IsClean h → IsClean (held (value_char c h))
unfolding value_char
IsClean-value_char c h v =
    IsClean-if (is_blank c) _ _
      (λ blank.
        IsClean-if (is_empty h.value) (go_on h) _ (λ e. v)
          (λ e. record {
            kept = v.kept;
            name = v.name;
            short = v.short;
            text = inr (
                text_add h.value c v.text (value_char_of c blank)
                  (ap (λ t. is_blank c && t) e ∙ and_false (is_blank c)));
          }))
      (λ solid.
        IsClean-if (not (is_newline c) && ltb (length h.key) max_name_length) _ _
          (λ inside.
            IsClean-if (h.cr_lf_num == 3) (stop_here h) _ (λ e. v)
              (λ e. record {
                kept = v.kept;
                name = v.name;
                short = v.short;
                text = inr (
                    text_add h.value c v.text (both_true _ _ inside).0
                      (ap (λ t. t && is_empty h.value) solid));
              }))
          (λ outside.
            IsClean-if (is_newline c) (go_on (value_newline h)) (refuse h)
              (λ e. IsClean-value_newline h v) (λ e. v)))

IsClean-char_in :
    (s : ParseState) (c : ℕ) (h : HttpHeader) → IsClean h → IsClean (held (char_in s c h))
unfolding char_in
IsClean-char_in firstline_1 c h v = v
IsClean-char_in firstline_2 c h v = v
IsClean-char_in firstline_3 c h v = v
IsClean-char_in parser_key c h v = IsClean-key_char c h v
IsClean-char_in parser_value c h v = IsClean-value_char c h v

IsClean-after_step :
    (n : ℕ) (cs : List ℕ) (s : CharStep)
    → IsClean (held s)
    → ((g : HttpHeader) → IsClean g → IsClean (parse_from (n + 1) cs g).1)
    → IsClean (after_step n cs s).1
IsClean-after_step n cs (go_on h) v next = next h v
IsClean-after_step n cs (stop_here h) v next = v
IsClean-after_step n cs (stop_after h) v next = v
IsClean-after_step n cs (refuse h) v next = v

IsClean-parse_from :
    (n : ℕ) (bytes : List ℕ) (h : HttpHeader) → IsClean h → IsClean (parse_from n bytes h).1
unfolding parse_from
IsClean-parse_from n [] h v = v
IsClean-parse_from n (c ∷ cs) h v =
    let s = char_in h.parse_state c h in
    subst (λ (r : ℤ × HttpHeader). IsClean r.1) (sym (parse_from_lem n c cs h))
      (IsClean-after_step n cs s (IsClean-char_in h.parse_state c h v)
        (λ g k. IsClean-parse_from (n + 1) cs g k))

-- Whatever bytes `parse` is given, in whatever pieces and with whatever result, the fields that it has
-- stored cannot break the lines of a header, if that held before.
pub parse-IsClean : (bytes : List ℕ) (h : HttpHeader) → IsClean h → IsClean (parse_header bytes h).1
unfolding parse_header
parse-IsClean bytes h v = IsClean-parse_from 0 bytes h v
