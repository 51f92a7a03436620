-- ===== src/Http/Header/CleanNames.antt =====
-- Headers of src/http/header.cpp whose fields are clean, and the characters of names.
use p2engine.Http.Fields.{Entry, insert_field, stricmp_less}
use p2engine.Http.Header.{
  CharStep, HttpHeader, go_on, key_char, key_newline, max_name_length, refuse, stop_after,
  stop_here,
}
use p2engine.Http.Header.Lines.{is_key_char, is_value_char, ok_value}
use p2engine.Http.Text.{all, both_true, is_blank, is_newline}
use p2engine.Prelude.{
  Bool, List, [], ap, ap₂, arith, false, if◌then◌else◌, inl, inr, is_empty, leb, length,
  length-append, ltb, ltb→lt, not, refl, true, ℕ, ◌&&◌, ◌++◌, ◌+◌, ◌==◌, ◌∷◌, ◌≡◌, ◌≤◌, ◌⊎◌,
}

-- A field that cannot break the lines of a header: a name of 1 to 64 characters, none of them a blank,
-- a colon or a line end, and a value that does not begin with a blank and has no line end.
abbrev pub clean_entry : List ℕ → List ℕ → Bool
clean_entry k w = not (is_empty k) && (leb (length k) 64 && (all is_key_char k && ok_value w))

abbrev pub clean_fields : List Entry → Bool
clean_fields [] = true
clean_fields ((k, w) ∷ es) = clean_entry k w && clean_fields es

-- Clean fields, and a name and a value in progress that can become one.
pub record IsClean (h : HttpHeader) : Type 0 where
  pub kept : clean_fields h.fields ≡ true
  pub name : all is_key_char h.key ≡ true
  pub short : length h.key ≤ 64
  pub text : (h.value ≡ []) ⊎ (ok_value h.value ≡ true)

-- The header that a step leaves.
abbrev pub held : CharStep → HttpHeader
held (go_on h) = h
held (stop_here h) = h
held (stop_after h) = h
held (refuse h) = h

pub IsClean-if :
    (b : Bool) (x y : CharStep)
    → (b ≡ true → IsClean (held x))
    → (b ≡ false → IsClean (held y))
    → IsClean (held (if b then x else y))
IsClean-if true x y f g = f refl
IsClean-if false x y f g = g refl

pub all_add :
    (test : ℕ → Bool) (a : List ℕ) (c : ℕ)
    → all test a ≡ true
    → test c ≡ true
    → all test (a ++ c ∷ []) ≡ true
all_add test [] c h k = ap (λ b. b && true) k
all_add test (d ∷ a) c h k =
    let b = both_true (test d) (all test a) h in ap₂ (λ x y. x && y) b.0 (all_add test a c b.1 k)

pub text_add :
    (w : List ℕ) (c : ℕ)
    → ((w ≡ []) ⊎ (ok_value w ≡ true))
    → is_value_char c ≡ true
    → (is_blank c && is_empty w) ≡ false
    → ok_value (w ++ c ∷ []) ≡ true
text_add [] c t ok solid = ground arith
text_add (d ∷ w) c (inl e) ok solid = absurd (ground arith)
text_add (d ∷ w) c (inr t) ok solid =
    let b = both_true (not (is_blank d)) (all is_value_char (d ∷ w)) t in
    ap₂ (λ x y. x && y) b.0 (all_add is_value_char (d ∷ w) c b.1 ok)

pub clean_if :
    (b : Bool) (x y : List Entry)
    → clean_fields x ≡ true
    → clean_fields y ≡ true
    → clean_fields (if b then x else y) ≡ true
clean_if true x y f g = f
clean_if false x y f g = g

pub clean_fields-insert :
    (k w : List ℕ) (m : List Entry)
    → clean_entry k w ≡ true
    → clean_fields m ≡ true
    → clean_fields (insert_field k w m) ≡ true
unfolding insert_field
clean_fields-insert k w [] new old = ap (λ b. b && true) new
clean_fields-insert k w ((k', w') ∷ m) new old =
    let b = both_true (clean_entry k' w') (clean_fields m) old in
    let rest = clean_fields-insert k w m new b.1 in
    clean_if (stricmp_less k k') _ _ (ap₂ (λ x y. x && y) new old)
      (clean_if (stricmp_less k' k) _ _ (ap₂ (λ x y. x && y) b.0 rest) old)

-- A character that belongs to a name.
pub key_char_of :
    (c : ℕ) (short : Bool)
    → is_blank c ≡ false
    → is_newline c ≡ false
    → (not (c == 58) && short) ≡ true
    → is_key_char c ≡ true
key_char_of c short solid inside ok = ground arith

pub IsClean-key_char : (c : ℕ) (h : HttpHeader) → IsClean h → IsClean (held (key_char c h))
unfolding key_char key_newline
IsClean-key_char c h v =
    IsClean-if (is_blank c) _ _
      (λ blank. IsClean-if (is_empty h.key) (go_on h) (refuse h) (λ e. v) (λ e. v))
      (λ solid.
        IsClean-if (is_newline c) _ _
          (λ newline.
            IsClean-if (h.cr_lf_num + 1 == 4) _ _
              (λ e. record { kept = v.kept; name = v.name; short = v.short; text = v.text })
              (λ e. record { kept = v.kept; name = refl; short = omega arith; text = v.text }))
          (λ inside.
            IsClean-if (not (c == 58) && ltb (length h.key) max_name_length) _ _
              (λ ok.
                IsClean-if (h.cr_lf_num == 3) (stop_here h) _ (λ e. v)
                  (λ e. record {
                    kept = v.kept;
                    name = all_add is_key_char h.key c v.name (key_char_of c _ solid inside ok);
                    short = omega (
                      arith,
                      length-append h.key (c ∷ []),
                      ltb→lt (length h.key) 64 (both_true _ _ ok).1,
                    );
                    text = v.text;
                  }))
              (λ full.
                IsClean-if (c == 58) _ _
                  (λ colon.
                    IsClean-if (h.cr_lf_num == 3) (refuse h) _ (λ e. v)
                      (λ e. record {
                        kept = v.kept;
                        name = v.name;
                        short = v.short;
                        text = v.text;
                      }))
                  (λ e. record { kept = v.kept; name = v.name; short = v.short; text = v.text }))))
