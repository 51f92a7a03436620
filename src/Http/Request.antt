-- ===== src/Http/Request.antt =====
-- Requests of src/http/request.cpp: the first line, `parse`, `serialize`, and the host field.
pub mod FirstLine
pub mod RoundTrip
use p2engine.Http.Header.{
  HttpHeader, ParseState, clear_header, firstline_1, firstline_2, firstline_3, parse_header,
  parser_key, print_fields,
}
use p2engine.Http.Text.{is_blank, is_newline, is_upper}
use p2engine.Prelude.{
  List, [], if◌then◌else◌, is_empty, leb_ℤ, length, ltb, negsuc, not, pos, pos_part, ℕ, ℤ, ◌++◌,
  ◌+◌, ◌∷◌,
}

abbrev pub max_method_length : ℕ
max_method_length = 32

abbrev pub max_version_length : ℕ
max_version_length = 8

pub record Request : Type 0 where
  pub head : HttpHeader
  pub method : List ℕ
  pub uri : List ℕ

-- What a character of the first line does: the loop goes on, or the character is read again by the
-- header's parser, or `parse` returns -1.
pub data LineStep : Type 0 where
  line_on line_over line_bad : Request → LineStep

-- `clear`.
unfoldable pub clear_request : Request → Request
clear_request r = record { head = clear_header r.head; method = []; uri = [] }

abbrev pub in_state : ParseState → Request → Request
in_state s r = record r { head = record (r.head) { parse_state = s } }

unfoldable pub method_char : ℕ → Request → LineStep
method_char c r =
    if is_blank c
    then if is_empty r.method
      then line_on r
      else if ltb max_method_length (length r.method)
      then line_bad r
      else line_on (in_state firstline_2 r)
    else if not (is_upper c)
    then line_bad r
    else line_on (record r { method = r.method ++ c ∷ [] })

unfoldable pub uri_char : ℕ → Request → LineStep
uri_char c r =
    if is_blank c
    then if is_empty r.uri then line_on r else line_on (in_state firstline_3 r)
    else line_on (record r { uri = r.uri ++ c ∷ [] })

-- A character of the version is added, unless it is too long then.
unfoldable pub more_version : Request → LineStep
more_version r = if ltb max_version_length (length r.head.version) then line_bad r else line_on r

unfoldable pub version_char : ℕ → Request → LineStep
version_char c r =
    if is_empty r.uri
    then line_bad r
    else if is_blank c
    then if is_empty r.head.version then line_on r else line_on (in_state parser_key r)
    else if is_newline c
    then line_over (in_state parser_key r)
    else more_version (record r { head = record (r.head) { version = r.head.version ++ c ∷ [] } })

unfoldable pub line_char : ParseState → ℕ → Request → LineStep
line_char firstline_1 c r = method_char c r
line_char firstline_2 c r = uri_char c r
line_char firstline_3 c r = version_char c r
line_char _ c r = line_over r

-- The rest belongs to the header's parser; n characters are behind it.
unfoldable pub parse_rest : ℕ → List ℕ → Request → ℤ × Request
parse_rest n bytes r =
    let parsed = parse_header bytes r.head in
    let result = record r { head = parsed.1 } in
    (if leb_ℤ parsed.0 (pos 0) then parsed.0 else pos (n + pos_part parsed.0), result)

-- The loop of `parse`.
unfoldable pub parse_request_from : ℕ → List ℕ → Request → ℤ × Request
parse_request_from n [] r = (pos 0, r)
parse_request_from n (c ∷ cs) r = elim (line_char r.head.parse_state c r) [
  | line_on r' ↦ parse_request_from (n + 1) cs r'
  | line_over r' ↦ parse_rest n (c ∷ cs) r'
  | line_bad r' ↦ (negsuc 0, r')
]

unfoldable pub parse_request : List ℕ → Request → ℤ × Request
parse_request bytes r = parse_request_from 0 bytes r

-- `serialize`, before what follows.
unfoldable pub print_request : Request → List ℕ → List ℕ
print_request r rest =
    r.method
    ++ (32
        ∷ (r.uri
            ++ (32 ∷ (r.head.version ++ (13 ∷ 10 ∷ print_fields r.head.fields (13 ∷ 10 ∷ rest))))))
