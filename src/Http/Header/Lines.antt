-- ===== src/Http/Header/Lines.antt =====
-- A line that `serialize` of src/http/header.cpp writes for a field, read by `parse`.
use p2engine.Http.Fields.{Entry, insert_field}
use p2engine.Http.Header.{
  HttpHeader, char_in, go_on, key_char, key_newline, parser_key, parser_value, value_char,
  value_newline,
}
use p2engine.Http.Header.Steps.{Goes, Goes-cons, Goes-nil, Goes-trans}
use p2engine.Http.Text.{all, both_true, is_blank, is_newline, negated}
use p2engine.Prelude.{
  Bool, List, [], ap, append-nil, append_assoc, ap₂, arith, false, if_true, is_empty, length,
  length-append, ltb, ltb→lt, not, refl, subst, suc, sym, true, ℕ, ◌&&◌, ◌++◌, ◌+◌, ◌<◌, ◌==◌, ◌∙◌,
  ◌∷◌, ◌≡◌, ◌≤◌,
}

abbrev pub is_key_char : ℕ → Bool
is_key_char c = not (is_blank c) && (not (is_newline c) && not (c == 58))

abbrev pub is_value_char : ℕ → Bool
is_value_char c = not (is_newline c)

abbrev pub starts_solid : List ℕ → Bool
starts_solid [] = false
starts_solid (c ∷ cs) = not (is_blank c)

-- A name and a value that can stand in a header as they are.
abbrev pub ok_key : List ℕ → Bool
ok_key k = not (is_empty k) && (ltb (length k) 64 && all is_key_char k)

abbrev pub ok_value : List ℕ → Bool
ok_value w = starts_solid w && all is_value_char w

abbrev pub ok_fields : List Entry → Bool
ok_fields [] = true
ok_fields ((k, w) ∷ es) = ok_key k && (ok_value w && ok_fields es)

-- In a name, with n line ends behind it.
abbrev pub in_key : List Entry → List ℕ → List ℕ → ℕ → HttpHeader
in_key fs v p n = record {
  fields = fs;
  version = v;
  parse_state = parser_key;
  key = p;
  value = [];
  cr_lf_num = n;
}

abbrev in_value : List Entry → List ℕ → List ℕ → List ℕ → HttpHeader
in_value fs v k w = record {
  fields = fs;
  version = v;
  parse_state = parser_value;
  key = k;
  value = w;
  cr_lf_num = 0;
}

key_char_lem :
    (c : ℕ) (fs : List Entry) (v p : List ℕ) (n : ℕ)
    → is_key_char c ≡ true
    → length p < 64
    → (n == 3) ≡ false
    → char_in parser_key c (in_key fs v p n) ≡ go_on (in_key fs v (p ++ c ∷ []) 0)
unfolding char_in key_char
key_char_lem c fs v p n ok short few = ground arith

value_char_lem :
    (c : ℕ) (fs : List Entry) (v k w : List ℕ)
    → is_value_char c ≡ true
    → (is_blank c && is_empty w) ≡ false
    → length k < 64
    → char_in parser_value c (in_value fs v k w) ≡ go_on (in_value fs v k (w ++ c ∷ []))
unfolding char_in value_char
value_char_lem c fs v k w ok solid short = ground arith

pub and_false : (b : Bool) → (b && false) ≡ false
and_false true = refl
and_false false = refl

pub append_not_empty : (w : List ℕ) (c : ℕ) → is_empty (w ++ c ∷ []) ≡ false
append_not_empty [] c = refl
append_not_empty (d ∷ w) c = refl

pub Goes-to : (a : List ℕ) (h h' h'' : HttpHeader) → Goes a h h' → h' ≡ h'' → Goes a h h''
Goes-to a h h' h'' g e = subst (Goes a h) e g

Goes-key :
    (a : List ℕ) (fs : List Entry) (v p : List ℕ)
    → all is_key_char a ≡ true
    → length p + length a ≤ 64
    → Goes a (in_key fs v p 0) (in_key fs v (p ++ a) 0)
Goes-key [] fs v p ok short =
    Goes-to [] (in_key fs v p 0) _ _ (Goes-nil (in_key fs v p 0))
      (ap (λ q. in_key fs v q 0) (sym (append-nil p)))
Goes-key (c ∷ a) fs v p ok short =
    let b = both_true (is_key_char c) (all is_key_char a) ok in
    Goes-to (c ∷ a) (in_key fs v p 0) _ _
      (Goes-cons c a (in_key fs v p 0) (in_key fs v (p ++ c ∷ []) 0) _
        (key_char_lem c fs v p 0 b.0 (omega arith) refl)
        (Goes-key a fs v (p ++ c ∷ []) b.1 (omega (arith, length-append p (c ∷ [])))))
      (ap (λ q. in_key fs v q 0) (append_assoc p (c ∷ []) a))

Goes-value :
    (a : List ℕ) (fs : List Entry) (v k w : List ℕ)
    → all is_value_char a ≡ true
    → is_empty w ≡ false
    → length k < 64
    → Goes a (in_value fs v k w) (in_value fs v k (w ++ a))
Goes-value [] fs v k w ok some_bytes short =
    Goes-to [] (in_value fs v k w) _ _ (Goes-nil (in_value fs v k w))
      (ap (in_value fs v k) (sym (append-nil w)))
Goes-value (c ∷ a) fs v k w ok some_bytes short =
    let b = both_true (is_value_char c) (all is_value_char a) ok in
    Goes-to (c ∷ a) (in_value fs v k w) _ _
      (Goes-cons c a (in_value fs v k w) (in_value fs v k (w ++ c ∷ [])) _
        (value_char_lem c fs v k w b.0 (ap (λ e. is_blank c && e) some_bytes ∙ and_false _) short)
        (Goes-value a fs v k (w ++ c ∷ []) b.1 (append_not_empty w c) short))
      (ap (in_value fs v k) (append_assoc w (c ∷ []) a))

-- A whole name, after any number of line ends but three.
Goes-name :
    (k : List ℕ) (fs : List Entry) (v : List ℕ) (n : ℕ)
    → ok_key k ≡ true
    → (n == 3) ≡ false
    → Goes k (in_key fs v [] n) (in_key fs v k 0)
Goes-name [] fs v n ok few = absurd (ground arith)
Goes-name (c ∷ k) fs v n ok few =
    let b = both_true (ltb (length (c ∷ k)) 64) (all is_key_char (c ∷ k)) ok in
    let cs = both_true (is_key_char c) (all is_key_char k) b.1 in
    Goes-cons c k (in_key fs v [] n) (in_key fs v (c ∷ []) 0) (in_key fs v (c ∷ k) 0)
      (key_char_lem c fs v [] n cs.0 (omega arith) few)
      (Goes-key k fs v (c ∷ []) cs.1 (omega (arith, ltb→lt (suc (length k)) 64 b.0)))

-- A whole value.
Goes-text :
    (w : List ℕ) (fs : List Entry) (v k : List ℕ)
    → ok_value w ≡ true
    → length k < 64
    → Goes w (in_value fs v k []) (in_value fs v k w)
Goes-text [] fs v k ok short = absurd (ground arith)
Goes-text (c ∷ w) fs v k ok short =
    let b = both_true (not (is_blank c)) (all is_value_char (c ∷ w)) ok in
    let cs = both_true (is_value_char c) (all is_value_char w) b.1 in
    Goes-cons c w (in_value fs v k []) (in_value fs v k (c ∷ [])) (in_value fs v k (c ∷ w))
      (value_char_lem c fs v k [] cs.0 (ap (λ t. t && true) (negated _ b.0)) short)
      (Goes-value w fs v k (c ∷ []) cs.1 refl short)

-- The separators of a line.
Goes-separator :
    (fs : List Entry) (v k : List ℕ) → Goes (58 ∷ 32 ∷ []) (in_key fs v k 0) (in_value fs v k [])
unfolding char_in key_char value_char
Goes-separator fs v k =
    Goes-cons 58 (32 ∷ []) (in_key fs v k 0) (in_value fs v k []) (in_value fs v k []) refl (
      Goes-cons 32 [] (in_value fs v k []) (in_value fs v k []) (in_value fs v k []) refl
        (Goes-nil (in_value fs v k [])))

value_newline_lem :
    (fs : List Entry) (v k w : List ℕ)
    → is_empty k ≡ false
    → is_empty w ≡ false
    → value_newline (in_value fs v k w) ≡ in_key (insert_field k w fs) v [] 1
unfolding value_newline
value_newline_lem fs v k w some_key some_value =
    if_true _ _ _ (ap₂ (λ a b. not a && not b) some_key some_value)

Goes-line_end :
    (fs : List Entry) (v k w : List ℕ)
    → is_empty k ≡ false
    → is_empty w ≡ false
    → Goes (13 ∷ 10 ∷ []) (in_value fs v k w) (in_key (insert_field k w fs) v [] 2)
unfolding char_in key_char value_char key_newline
Goes-line_end fs v k w some_key some_value =
    let g = in_key (insert_field k w fs) v [] in
    Goes-cons 13 (10 ∷ []) (in_value fs v k w) (g 1) (g 2)
      (ap go_on (value_newline_lem fs v k w some_key some_value))
      (Goes-cons 10 [] (g 1) (g 2) (g 2) refl (Goes-nil (g 2)))

solid_not_empty : (w : List ℕ) → ok_value w ≡ true → is_empty w ≡ false
solid_not_empty [] ok = absurd (ground arith)
solid_not_empty (c ∷ w) ok = refl

-- The line of a field.
abbrev pub line : List ℕ → List ℕ → List ℕ
line k w = k ++ ((58 ∷ 32 ∷ []) ++ (w ++ (13 ∷ 10 ∷ [])))

pub Goes-line :
    (k w : List ℕ) (fs : List Entry) (v : List ℕ) (n : ℕ)
    → ok_key k ≡ true
    → ok_value w ≡ true
    → (n == 3) ≡ false
    → Goes (line k w) (in_key fs v [] n) (in_key (insert_field k w fs) v [] 2)
Goes-line k w fs v n ok ok' few =
    let b = both_true (not (is_empty k)) (ltb (length k) 64 && all is_key_char k) ok in
    let short = ltb→lt (length k) 64 (both_true (ltb (length k) 64) (all is_key_char k) b.1).0 in
    let h = in_key fs v [] n in
    let tail = w ++ 13 ∷ 10 ∷ [] in
    let done = in_key (insert_field k w fs) v [] 2 in
    Goes-trans k ((58 ∷ 32 ∷ []) ++ (w ++ (13 ∷ 10 ∷ []))) h (in_key fs v k 0) done
      (Goes-name k fs v n ok few)
      (Goes-trans (58 ∷ 32 ∷ []) tail (in_key fs v k 0) (in_value fs v k []) done
        (Goes-separator fs v k)
        (Goes-trans w (13 ∷ 10 ∷ []) (in_value fs v k []) (in_value fs v k w) done
          (Goes-text w fs v k ok' short)
          (Goes-line_end fs v k w (negated _ b.0) (solid_not_empty w ok'))))
