-- ===== src/Http/Response/RoundTrip.antt =====
-- A response that `serialize` of src/http/response.cpp writes, read back by `parse`.
use p2engine.Http.Fields.Order.{ascending}
use p2engine.Http.Header.{
  HttpHeader, clear_header, firstline_1, firstline_3, parse_header, parser_key, print_fields,
}
use p2engine.Http.Header.Lines.{in_key, ok_fields}
use p2engine.Http.Reasons.{reason_for_status, reason_in, reasons}
use p2engine.Http.Request.FirstLine.{is_version_char}
use p2engine.Http.Request.RoundTrip.{header_lem, length_printed}
use p2engine.Http.Response.{
  Response, clear_response, digits, parse_fields, parse_response, parse_response_from,
  print_response, reason_char, status_line_char, status_over,
}
use p2engine.Http.Response.FirstLine.{
  Passes-blanks, Passes-digits, Passes-text, Passes-version, answer, ok_reason,
}
use p2engine.Http.Text.{all, both_true}
use p2engine.Prelude.{
  Bool, List, [], ap, arith, false, if_false, if◌then◌else◌, leb_ℤ, length, pos, pos_part, refl,
  suc, true, ℕ, ℤ, ◌&&◌, ◌++◌, ◌+◌, ◌<◌, ◌==◌, ◌∙◌, ◌∷◌, ◌≡◌,
}

-- The texts of the table are reasons that can be read back.
abbrev ok_reasons : List (ℕ × List ℕ) → Bool
ok_reasons [] = true
ok_reasons ((n, text) ∷ rest) = ok_reason text && ok_reasons rest

reason_if :
    (b : Bool) (x y : List ℕ)
    → ok_reason x ≡ true
    → ok_reason y ≡ true
    → ok_reason (if b then x else y) ≡ true
reason_if true x y h k = h
reason_if false x y h k = k

ok_reason_in :
    (table : List (ℕ × List ℕ)) (s : ℕ)
    → ok_reasons table ≡ true
    → ok_reason (reason_in table s) ≡ true
ok_reason_in [] s h = refl
ok_reason_in ((n, text) ∷ rest) s h =
    let b = both_true (ok_reason text) (ok_reasons rest) h in
    reason_if (s == n) text (reason_in rest s) b.0 (ok_reason_in rest s b.1)

ok_reason_for_status : (s : ℕ) → ok_reason (reason_for_status s) ≡ true
unfolding reason_for_status
ok_reason_for_status s = ok_reason_in reasons s refl

reason_end :
    (p : ℕ) (v t : List ℕ)
    → status_line_char firstline_3 13 (answer firstline_3 v p p t)
      ≡ status_over (answer parser_key v p p t)
unfolding status_line_char reason_char
reason_end p v t = refl

status_is_over :
    (n c : ℕ) (cs : List ℕ) (r r' : Response)
    → status_line_char r.head.parse_state c r ≡ status_over r'
    → parse_response_from n (c ∷ cs) r ≡ parse_fields n (c ∷ cs) r'
unfolding parse_response_from
status_is_over n c cs r r' e = rw (e, parse_response_from) refl

abbrev fields_result : ℕ → Response → ℤ × HttpHeader → ℤ × Response
fields_result n r p =
    (if leb_ℤ p.0 (pos 0) then p.0 else pos (n + pos_part p.0), record r { head = p.1 })

parse_fields_lem :
    (n k : ℕ) (bytes : List ℕ) (r : Response) (h : HttpHeader)
    → parse_header bytes r.head ≡ (pos k, h)
    → 0 < k
    → parse_fields n bytes r ≡ (pos (n + k), record r { head = h })
unfolding parse_fields
parse_fields_lem n k bytes r h e some_bytes =
    ap (fields_result n r) e
    ∙ ap (λ (x : ℤ). let q : ℤ × Response = (x, record r { head = h }) in q)
        (if_false (leb_ℤ (pos k) (pos 0)) (pos k) (pos (n + k)) (ground arith))

parse_status_line :
    (p : ℕ) (v t tail : List ℕ)
    → all is_version_char v ≡ true
    → length v ≡ 8
    → 0 < p
    → ok_reason t ≡ true
    → parse_response_from 0
        (v ++ (32 ∷ (digits (suc p) p ++ (32 ∷ (t ++ (13 ∷ tail))))))
        (answer firstline_1 [] 0 0 [])
      ≡ parse_fields
          (length v + 1 + length (digits (suc p) p) + 1 + length t)
          (13 ∷ tail)
          (answer parser_key v p p t)
parse_status_line p v t tail okv full some_status okt =
    let d = digits (suc p) p in
    let blanks = Passes-blanks p v full some_status in
    let rest = t ++ (13 ∷ tail) in
    Passes-version v [] okv (omega (arith, full)) 0 (32 ∷ (d ++ (32 ∷ rest)))
    ∙ blanks.0 (0 + length v) (d ++ (32 ∷ rest))
    ∙ Passes-digits (suc p) p v (omega arith) (0 + length v + 1) (32 ∷ rest)
    ∙ blanks.1 (0 + length v + 1 + length d) rest
    ∙ Passes-text t p v okt (0 + length v + 1 + length d + 1) (13 ∷ tail)
    ∙ status_is_over (0 + length v + 1 + length d + 1 + length t) 13 tail
        (answer firstline_3 v p p t) (answer parser_key v p p t) (reason_end p v t)
    ∙ ap (λ n. parse_fields n (13 ∷ tail) (answer parser_key v p p t)) (omega arith)

-- A response, written with any body behind it and read by a response that was cleared: `parse`
-- returns the length of what `serialize` wrote, without the body, and has read the same version, status
-- and fields, and the reason that the status has. The version is 8 long, without blanks and line ends;
-- the status is not 0; the fields are as in a header that can be read back.
pub parse-print_response :
    (r s : Response) (body : List ℕ)
    → all is_version_char r.head.version ≡ true
    → length r.head.version ≡ 8
    → 0 < r.status
    → ascending r.head.fields ≡ true
    → ok_fields r.head.fields ≡ true
    → parse_response (print_response r body) (clear_response s) ≡ (
      pos (length (print_response r [])),
      record {
        head = in_key r.head.fields r.head.version [] 4;
        status_for_parser = r.status;
        status = r.status;
        reason = reason_for_status r.status;
      },
    )
unfolding parse_response print_response clear_response clear_header
parse-print_response r s body okv full some_status order ok =
    let p = r.status in
    let v = r.head.version in
    let t = reason_for_status p in
    let es = r.head.fields in
    let d = digits (suc p) p in
    let done : Response = record (answer parser_key v p p t) { head = in_key es v [] 4 } in
    parse_status_line p v t (10 ∷ print_fields es (13 ∷ 10 ∷ body)) okv full some_status
      (ok_reason_for_status p)
    ∙ parse_fields_lem (length v + 1 + length d + 1 + length t)
        (2 + length (print_fields es (13 ∷ 10 ∷ []))) (13 ∷ 10 ∷ print_fields es (13 ∷ 10 ∷ body))
        (answer parser_key v p p t) (in_key es v [] 4) (header_lem es v body order ok) (omega arith)
    ∙ ap (λ n. let q : ℤ × Response = (pos n, done) in q)
        (length_printed v d t (print_fields es (13 ∷ 10 ∷ [])))
