-- ===== src/Http/Request/FirstLine.antt =====
-- The first line of a request, read by `parse` of src/http/request.cpp.
use p2engine.Http.Header.{ParseState, firstline_1, firstline_2, firstline_3}
use p2engine.Http.Request.{
  Request, line_char, line_on, method_char, more_version, parse_request_from, uri_char,
  version_char,
}
use p2engine.Http.Text.{all, both_true, is_blank, is_newline, is_upper}
use p2engine.Prelude.{
  Bool, List, [], ap, append-nil, append_assoc, arith, false, is_empty, length, length-append, not,
  subst, sym, true, ℕ, ◌&&◌, ◌++◌, ◌+◌, ◌<◌, ◌∙◌, ◌∷◌, ◌≡◌, ◌≤◌,
}

-- The loop comes from one state to another over these characters.
abbrev pub Moves : List ℕ → Request → Request → Type 0
Moves a r r' =
    (n : ℕ) (rest : List ℕ)
    → parse_request_from n (a ++ rest) r ≡ parse_request_from (n + length a) rest r'

Moves-nil : (r : Request) → Moves [] r r
Moves-nil r n rest = ap (λ k. parse_request_from k rest r) (omega arith)

Moves-cons :
    (c : ℕ) (a : List ℕ) (r r' r'' : Request)
    → line_char r.head.parse_state c r ≡ line_on r'
    → Moves a r' r''
    → Moves (c ∷ a) r r''
unfolding parse_request_from
Moves-cons c a r r' r'' e g n rest =
    rw (e, parse_request_from)
      (g (n + 1) rest ∙ ap (λ k. parse_request_from k rest r'') (omega arith))

pub Moves-trans :
    (a b : List ℕ) (r r' r'' : Request) → Moves a r r' → Moves b r' r'' → Moves (a ++ b) r r''
Moves-trans a b r r' r'' g k n rest =
    ap (λ l. parse_request_from n l r) (append_assoc a b rest)
    ∙ g n (b ++ rest)
    ∙ k (n + length a) rest
    ∙ ap (λ m. parse_request_from m rest r'') (omega (arith, length-append a b))

Moves-to : (a : List ℕ) (r r' r'' : Request) → Moves a r r' → r' ≡ r'' → Moves a r r''
Moves-to a r r' r'' g e = subst (Moves a r) e g

-- The states of a request whose first line is being read.
abbrev pub reading : ParseState → List ℕ → List ℕ → List ℕ → Request
reading s m u v = record {
  head = record { fields = []; version = v; parse_state = s; key = []; value = []; cr_lf_num = 0 };
  method = m;
  uri = u;
}

abbrev pub is_uri_char : ℕ → Bool
is_uri_char c = not (is_blank c)

abbrev pub is_version_char : ℕ → Bool
is_version_char c = not (is_blank c) && not (is_newline c)

method_char_lem :
    (c : ℕ) (m : List ℕ)
    → is_upper c ≡ true
    → line_char firstline_1 c (reading firstline_1 m [] [])
      ≡ line_on (reading firstline_1 (m ++ c ∷ []) [] [])
unfolding line_char method_char
method_char_lem c m up = ground arith

method_end :
    (m : List ℕ)
    → is_empty m ≡ false
    → length m ≤ 32
    → line_char firstline_1 32 (reading firstline_1 m [] []) ≡ line_on (reading firstline_2 m [] [])
unfolding line_char method_char
method_end m some_bytes short = ground arith

uri_char_lem :
    (c : ℕ) (m u : List ℕ)
    → is_uri_char c ≡ true
    → line_char firstline_2 c (reading firstline_2 m u [])
      ≡ line_on (reading firstline_2 m (u ++ c ∷ []) [])
unfolding line_char uri_char
uri_char_lem c m u ok = ground arith

uri_end :
    (m u : List ℕ)
    → is_empty u ≡ false
    → line_char firstline_2 32 (reading firstline_2 m u []) ≡ line_on (reading firstline_3 m u [])
unfolding line_char uri_char
uri_end m u some_bytes = ground arith

version_char_lem :
    (c : ℕ) (m u v : List ℕ)
    → is_version_char c ≡ true
    → is_empty u ≡ false
    → length v < 8
    → line_char firstline_3 c (reading firstline_3 m u v)
      ≡ line_on (reading firstline_3 m u (v ++ c ∷ []))
unfolding line_char version_char more_version
version_char_lem c m u v ok some_bytes short = ground (arith, length-append v (c ∷ []))

pub Moves-method :
    (a m : List ℕ)
    → all is_upper a ≡ true
    → Moves a (reading firstline_1 m [] []) (reading firstline_1 (m ++ a) [] [])
Moves-method [] m ok =
    Moves-to [] (reading firstline_1 m [] []) _ _ (Moves-nil (reading firstline_1 m [] []))
      (ap (λ q. reading firstline_1 q [] []) (sym (append-nil m)))
Moves-method (c ∷ a) m ok =
    let b = both_true (is_upper c) (all is_upper a) ok in
    Moves-to (c ∷ a) (reading firstline_1 m [] []) _ _
      (Moves-cons c a (reading firstline_1 m [] []) (reading firstline_1 (m ++ c ∷ []) [] []) _
        (method_char_lem c m b.0) (Moves-method a (m ++ c ∷ []) b.1))
      (ap (λ q. reading firstline_1 q [] []) (append_assoc m (c ∷ []) a))

pub Moves-uri :
    (a m u : List ℕ)
    → all is_uri_char a ≡ true
    → Moves a (reading firstline_2 m u []) (reading firstline_2 m (u ++ a) [])
Moves-uri [] m u ok =
    Moves-to [] (reading firstline_2 m u []) _ _ (Moves-nil (reading firstline_2 m u []))
      (ap (λ q. reading firstline_2 m q []) (sym (append-nil u)))
Moves-uri (c ∷ a) m u ok =
    let b = both_true (is_uri_char c) (all is_uri_char a) ok in
    Moves-to (c ∷ a) (reading firstline_2 m u []) _ _
      (Moves-cons c a (reading firstline_2 m u []) (reading firstline_2 m (u ++ c ∷ []) []) _
        (uri_char_lem c m u b.0) (Moves-uri a m (u ++ c ∷ []) b.1))
      (ap (λ q. reading firstline_2 m q []) (append_assoc u (c ∷ []) a))

pub Moves-version :
    (a m u v : List ℕ)
    → all is_version_char a ≡ true
    → is_empty u ≡ false
    → length v + length a ≤ 8
    → Moves a (reading firstline_3 m u v) (reading firstline_3 m u (v ++ a))
Moves-version [] m u v ok some_bytes short =
    Moves-to [] (reading firstline_3 m u v) _ _ (Moves-nil (reading firstline_3 m u v))
      (ap (reading firstline_3 m u) (sym (append-nil v)))
Moves-version (c ∷ a) m u v ok some_bytes short =
    let b = both_true (is_version_char c) (all is_version_char a) ok in
    Moves-to (c ∷ a) (reading firstline_3 m u v) _ _
      (Moves-cons c a (reading firstline_3 m u v) (reading firstline_3 m u (v ++ c ∷ [])) _
        (version_char_lem c m u v b.0 some_bytes (omega arith))
        (Moves-version a m u (v ++ c ∷ []) b.1 some_bytes
          (omega (arith, length-append v (c ∷ [])))))
      (ap (reading firstline_3 m u) (append_assoc v (c ∷ []) a))

-- The blanks between the parts.
pub Moves-blanks :
    (m u : List ℕ)
    → is_empty m ≡ false
    → is_empty u ≡ false
    → length m ≤ 32
    → Moves (32 ∷ []) (reading firstline_1 m [] []) (reading firstline_2 m [] [])
      × Moves (32 ∷ []) (reading firstline_2 m u []) (reading firstline_3 m u [])
Moves-blanks m u some_method some_uri short = (
  Moves-cons 32 [] (reading firstline_1 m [] []) (reading firstline_2 m [] [])
      (reading firstline_2 m [] []) (method_end m some_method short)
      (Moves-nil (reading firstline_2 m [] [])),
  Moves-cons 32 [] (reading firstline_2 m u []) (reading firstline_3 m u [])
      (reading firstline_3 m u []) (uri_end m u some_uri) (Moves-nil (reading firstline_3 m u [])),
)
