-- ===== src/Http/Header/RoundTrip.antt =====
-- A header that `serialize` of src/http/header.cpp writes, read back by `parse`.
use p2engine.Http.Fields.{Entry}
use p2engine.Http.Fields.Order.{ascending, insert_next}
use p2engine.Http.Header.{
  HttpHeader, char_in, key_char, key_newline, parse_from, print_field, print_fields,
}
use p2engine.Http.Header.Lines.{Goes-line, Goes-to, in_key, line, ok_fields, ok_key, ok_value}
use p2engine.Http.Header.Steps.{Goes, Goes-nil, Goes-trans}
use p2engine.Http.Text.{both_true}
use p2engine.Prelude.{
  List, [], ap, append-nil, append_assoc, arith, length, length-append, pos, refl, sym, true, ℕ, ℤ,
  ◌&&◌, ◌++◌, ◌+◌, ◌∙◌, ◌∷◌, ◌≡◌,
}

-- The lines of all fields.
abbrev pub lines : List Entry → List ℕ
lines [] = []
lines ((k, w) ∷ es) = line k w ++ lines es

print_field_lem : (k w rest : List ℕ) → print_field (k, w) rest ≡ line k w ++ rest
unfolding print_field
print_field_lem k w rest = sym (
    append_assoc k ((58 ∷ 32 ∷ []) ++ w ++ 13 ∷ 10 ∷ []) rest
    ∙ ap (λ l. k ++ 58 ∷ 32 ∷ l) (append_assoc w (13 ∷ 10 ∷ []) rest))

pub print_fields_lem : (es : List Entry) (rest : List ℕ) → print_fields es rest ≡ lines es ++ rest
unfolding print_fields
print_fields_lem [] rest = refl
print_fields_lem ((k, w) ∷ es) rest =
    print_field_lem k w (print_fields es rest)
    ∙ ap (λ l. line k w ++ l) (print_fields_lem es rest)
    ∙ sym (append_assoc (line k w) (lines es) rest)

pub Goes-lines :
    (es fs : List Entry) (v : List ℕ)
    → ascending (fs ++ es) ≡ true
    → ok_fields es ≡ true
    → Goes (lines es) (in_key fs v [] 2) (in_key (fs ++ es) v [] 2)
Goes-lines [] fs v order ok =
    Goes-to [] (in_key fs v [] 2) _ _ (Goes-nil (in_key fs v [] 2))
      (ap (λ m. in_key m v [] 2) (sym (append-nil fs)))
Goes-lines ((k, w) ∷ es) fs v order ok =
    let b = both_true (ok_key k) (ok_value w && ok_fields es) ok in
    let c = both_true (ok_value w) (ok_fields es) b.1 in
    let assoc : (fs ++ (k, w) ∷ []) ++ es ≡ fs ++ (k, w) ∷ es = append_assoc fs ((k, w) ∷ []) es in
    Goes-to (line k w ++ lines es) (in_key fs v [] 2) _ _
      (Goes-trans (line k w) (lines es) (in_key fs v [] 2) (in_key (fs ++ (k, w) ∷ []) v [] 2) _
        (Goes-to (line k w) (in_key fs v [] 2) _ _ (Goes-line k w fs v 2 b.0 c.0 refl)
          (ap (λ m. in_key m v [] 2) (insert_next fs es k w order)))
        (Goes-lines es (fs ++ (k, w) ∷ []) v (ap ascending assoc ∙ order) c.1))
      (ap (λ m. in_key m v [] 2) assoc)

-- The empty line that ends a header.
parse_end :
    (m : ℕ) (fs : List Entry) (v body : List ℕ)
    → parse_from m (13 ∷ 10 ∷ body) (in_key fs v [] 2) ≡ (pos (m + 1 + 1), in_key fs v [] 4)
unfolding parse_from char_in key_char key_newline
parse_end m fs v body = refl

length_of_header :
    (es : List Entry) (n : ℕ)
    → n + length (lines es) + 1 + 1 ≡ n + length (print_fields es (13 ∷ 10 ∷ []))
length_of_header es n =
    omega (
      arith,
      length-append (lines es) (13 ∷ 10 ∷ []),
      ap length (print_fields_lem es (13 ∷ 10 ∷ [])),
    )

-- The lines that `serialize` writes for a map of fields, and the empty line, read by `parse` after a
-- first line that ended in CR LF: it returns the length of the header, does not look at the body
-- behind it, and has read exactly these fields. Names are not empty, shorter than 64 and without
-- blanks, colons and line ends; values are not empty, do not begin with a blank and have no line ends.
pub parse-print_fields :
    (n : ℕ) (es : List Entry) (v body : List ℕ)
    → ascending es ≡ true
    → ok_fields es ≡ true
    → parse_from n (print_fields es (13 ∷ 10 ∷ body)) (in_key [] v [] 2)
      ≡ (pos (n + length (print_fields es (13 ∷ 10 ∷ []))), in_key es v [] 4)
unfolding parse_from char_in key_char key_newline
parse-print_fields n es v body order ok =
    ap (λ l. parse_from n l (in_key [] v [] 2)) (print_fields_lem es (13 ∷ 10 ∷ body))
    ∙ Goes-lines es [] v order ok n (13 ∷ 10 ∷ body)
    ∙ ap (λ m. let r : ℤ × HttpHeader = (pos m, in_key es v [] 4) in r) (length_of_header es n)
