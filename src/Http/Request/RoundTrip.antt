-- ===== src/Http/Request/RoundTrip.antt =====
-- A request that `serialize` of src/http/request.cpp writes, read back by `parse`.
use p2engine.Http.Fields.{Entry}
use p2engine.Http.Fields.Order.{ascending}
use p2engine.Http.Header.{
  HttpHeader, char_in, clear_header, firstline_1, firstline_3, key_char, key_newline, parse_from,
  parse_header, parser_key, print_fields,
}
use p2engine.Http.Header.Lines.{in_key, ok_fields}
use p2engine.Http.Header.RoundTrip.{parse-print_fields}
use p2engine.Http.Request.{
  Request, clear_request, line_char, line_over, parse_request, parse_request_from, parse_rest,
  print_request, version_char,
}
use p2engine.Http.Request.FirstLine.{
  Moves-blanks, Moves-method, Moves-uri, Moves-version, is_uri_char, is_version_char, reading,
}
use p2engine.Http.Text.{all, both_true, is_upper, negated}
use p2engine.Prelude.{
  Bool, List, [], ap, arith, false, if_false, if◌then◌else◌, is_empty, leb, leb_ℤ, leb→le, length,
  length-append, not, pos, pos_part, refl, true, ℕ, ℤ, ◌&&◌, ◌++◌, ◌+◌, ◌<◌, ◌∙◌, ◌∷◌, ◌≡◌,
}

-- What `serialize` can write so that it can be read: an upper case method of at most 32 letters, a
-- uri without blanks, a version of at most 8 characters without blanks and line ends, and fields.
abbrev pub ok_method : List ℕ → Bool
ok_method m = not (is_empty m) && (leb (length m) 32 && all is_upper m)

abbrev pub ok_uri : List ℕ → Bool
ok_uri u = not (is_empty u) && all is_uri_char u

abbrev pub ok_version : List ℕ → Bool
ok_version v = leb (length v) 8 && all is_version_char v

version_end :
    (m u v : List ℕ)
    → is_empty u ≡ false
    → line_char firstline_3 13 (reading firstline_3 m u v) ≡ line_over (reading parser_key m u v)
unfolding line_char version_char
version_end m u v some_uri = ground arith

line_is_over :
    (n c : ℕ) (cs : List ℕ) (r r' : Request)
    → line_char r.head.parse_state c r ≡ line_over r'
    → parse_request_from n (c ∷ cs) r ≡ parse_rest n (c ∷ cs) r'
unfolding parse_request_from
line_is_over n c cs r r' e = rw (e, parse_request_from) refl

abbrev parse_result : ℕ → Request → ℤ × HttpHeader → ℤ × Request
parse_result n r p =
    (if leb_ℤ p.0 (pos 0) then p.0 else pos (n + pos_part p.0), record r { head = p.1 })

parse_rest_lem :
    (n k : ℕ) (bytes : List ℕ) (r : Request) (h : HttpHeader)
    → parse_header bytes r.head ≡ (pos k, h)
    → 0 < k
    → parse_rest n bytes r ≡ (pos (n + k), record r { head = h })
unfolding parse_rest
parse_rest_lem n k bytes r h e some_bytes =
    ap (parse_result n r) e
    ∙ ap (λ (x : ℤ). let q : ℤ × Request = (x, record r { head = h }) in q)
        (if_false (leb_ℤ (pos k) (pos 0)) (pos k) (pos (n + k)) (ground arith))

-- The line end behind the first line belongs to the header.
pub header_lem :
    (es : List Entry) (v body : List ℕ)
    → ascending es ≡ true
    → ok_fields es ≡ true
    → parse_header (13 ∷ 10 ∷ print_fields es (13 ∷ 10 ∷ body)) (in_key [] v [] 0)
      ≡ (pos (2 + length (print_fields es (13 ∷ 10 ∷ []))), in_key es v [] 4)
unfolding parse_header parse_from char_in key_char key_newline
header_lem es v body order ok = parse-print_fields 2 es v body order ok

parse_first_line :
    (m u v tail : List ℕ)
    → ok_method m ≡ true
    → ok_uri u ≡ true
    → ok_version v ≡ true
    → parse_request_from 0
        (m ++ (32 ∷ (u ++ (32 ∷ (v ++ (13 ∷ tail))))))
        (reading firstline_1 [] [] [])
      ≡ parse_rest (length m + 1 + length u + 1 + length v) (13 ∷ tail) (reading parser_key m u v)
parse_first_line m u v tail okm oku okv =
    let a = both_true (not (is_empty m)) (leb (length m) 32 && all is_upper m) okm in
    let b = both_true (leb (length m) 32) (all is_upper m) a.1 in
    let c = both_true (not (is_empty u)) (all is_uri_char u) oku in
    let d = both_true (leb (length v) 8) (all is_version_char v) okv in
    let blanks = Moves-blanks m u (negated _ a.0) (negated _ c.0) (leb→le (length m) 32 b.0) in
    let rest = v ++ (13 ∷ tail) in
    Moves-method m [] b.1 0 (32 ∷ (u ++ (32 ∷ rest)))
    ∙ blanks.0 (0 + length m) (u ++ (32 ∷ rest))
    ∙ Moves-uri u m [] c.1 (0 + length m + 1) (32 ∷ rest)
    ∙ blanks.1 (0 + length m + 1 + length u) rest
    ∙ Moves-version v m u [] d.1 (negated _ c.0) (omega (arith, leb→le (length v) 8 d.0))
        (0 + length m + 1 + length u + 1) (13 ∷ tail)
    ∙ line_is_over (0 + length m + 1 + length u + 1 + length v) 13 tail (reading firstline_3 m u v)
        (reading parser_key m u v) (version_end m u v (negated _ c.0))
    ∙ ap (λ n. parse_rest n (13 ∷ tail) (reading parser_key m u v)) (omega arith)

pub length_printed :
    (m u v fs : List ℕ)
    → length m + 1 + length u + 1 + length v + (2 + length fs)
      ≡ length (m ++ (32 ∷ (u ++ (32 ∷ (v ++ (13 ∷ 10 ∷ fs))))))
length_printed m u v fs = omega (
  arith,
  length-append m (32 ∷ (u ++ (32 ∷ (v ++ (13 ∷ 10 ∷ fs))))),
  length-append u (32 ∷ (v ++ (13 ∷ 10 ∷ fs))),
  length-append v (13 ∷ 10 ∷ fs),
)

-- A request, written with any body behind it and read by a request that was cleared: `parse` returns
-- the length of what `serialize` wrote, without the body, and has read the same method, uri, version
-- and fields. The method is upper case, not empty and at most 32 long; the uri is not empty and
-- without blanks; the version is at most 8 long, without blanks and line ends; the fields are as in
-- a header that can be read back.
pub parse-print_request :
    (r s : Request) (body : List ℕ)
    → ok_method r.method ≡ true
    → ok_uri r.uri ≡ true
    → ok_version r.head.version ≡ true
    → ascending r.head.fields ≡ true
    → ok_fields r.head.fields ≡ true
    → parse_request (print_request r body) (clear_request s) ≡ (
      pos (length (print_request r [])),
      record r { head = in_key r.head.fields r.head.version [] 4 },
    )
unfolding parse_request print_request clear_request clear_header
parse-print_request r s body okm oku okv order ok =
    let m = r.method in
    let u = r.uri in
    let v = r.head.version in
    let es = r.head.fields in
    parse_first_line m u v (10 ∷ print_fields es (13 ∷ 10 ∷ body)) okm oku okv
    ∙ parse_rest_lem (length m + 1 + length u + 1 + length v)
        (2 + length (print_fields es (13 ∷ 10 ∷ []))) (13 ∷ 10 ∷ print_fields es (13 ∷ 10 ∷ body))
        (reading parser_key m u v) (in_key es v [] 4) (header_lem es v body order ok) (omega arith)
    ∙ ap (λ n. let q : ℤ × Request = (pos n, record r { head = in_key es v [] 4 }) in q)
        (length_printed m u v (print_fields es (13 ∷ 10 ∷ [])))
