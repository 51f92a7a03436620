-- ===== src/Http/Response.antt =====
-- Responses of src/http/response.cpp: the first line, `parse` and `serialize`. The status is a number;
-- the code keeps it in an `int`, which a status of ten digits or more would overflow.
pub mod FirstLine
pub mod RoundTrip
use p2engine.Http.Header.{
  HttpHeader, ParseState, clear_header, firstline_1, firstline_2, firstline_3, parse_header,
  parser_key, print_fields,
}
use p2engine.Http.Reasons.{reason_for_status}
use p2engine.Http.Text.{is_blank, is_newline}
use p2engine.Prelude.{
  List, [], if◌then◌else◌, is_empty, leb, leb_ℤ, length, ltb, negsuc, not, pos, pos_part, suc, zero,
  ℕ, ℤ, ◌%◌, ◌&&◌, ◌*◌, ◌++◌, ◌+◌, ◌-◌, ◌/◌, ◌==◌, ◌∷◌,
}

abbrev pub version_length : ℕ
version_length = 8

abbrev pub max_value_length : ℕ
max_value_length = 4096

pub record Response : Type 0 where
  pub head : HttpHeader
  pub status_for_parser : ℕ
  pub status : ℕ
  pub reason : List ℕ

pub data StatusStep : Type 0 where
  status_on status_over status_bad : Response → StatusStep

-- `clear`.
unfoldable pub clear_response : Response → Response
clear_response r = record {
  head = clear_header r.head;
  status_for_parser = 0;
  status = 0;
  reason = [];
}

abbrev pub moved_to : ParseState → Response → Response
moved_to s r = record r { head = record (r.head) { parse_state = s } }

unfoldable pub more_text : Response → StatusStep
more_text r = if ltb version_length (length r.head.version) then status_bad r else status_on r

unfoldable pub http_version_char : ℕ → Response → StatusStep
http_version_char c r =
    if is_blank c
    then if is_empty r.head.version
      then status_on r
      else if not (length r.head.version == version_length)
      then status_bad r
      else status_on (record (moved_to firstline_2 r) { status_for_parser = 0 })
    else if is_newline c
    then status_bad r
    else more_text (record r { head = record (r.head) { version = r.head.version ++ (c ∷ []) } })

unfoldable pub status_char : ℕ → Response → StatusStep
status_char c r =
    if is_blank c
    then if r.status_for_parser == 0
      then status_on r
      else status_on (record (moved_to firstline_3 r) { status = r.status_for_parser })
    else if is_newline c
    then status_over (record (moved_to parser_key r) { status = r.status_for_parser })
    else if not (leb 48 c && leb c 57)
    then status_bad r
    else status_on (record r { status_for_parser = r.status_for_parser * 10 + (c - 48) })

unfoldable pub more_reason : Response → StatusStep
more_reason r = if ltb max_value_length (length r.reason) then status_bad r else status_on r

unfoldable pub reason_char : ℕ → Response → StatusStep
reason_char c r =
    if is_blank c
    then if is_empty r.reason
      then status_on r
      else status_on (record r { reason = r.reason ++ (c ∷ []) })
    else if is_newline c
    then status_over (moved_to parser_key r)
    else more_reason (record r { reason = r.reason ++ (c ∷ []) })

unfoldable pub status_line_char : ParseState → ℕ → Response → StatusStep
status_line_char firstline_1 c r = http_version_char c r
status_line_char firstline_2 c r = status_char c r
status_line_char firstline_3 c r = reason_char c r
status_line_char _ c r = status_over r

-- The rest belongs to the header's parser; n characters are behind it.
unfoldable pub parse_fields : ℕ → List ℕ → Response → ℤ × Response
parse_fields n bytes r =
    let parsed = parse_header bytes r.head in
    let result = record r { head = parsed.1 } in
    (if leb_ℤ parsed.0 (pos 0) then parsed.0 else pos (n + pos_part parsed.0), result)

-- The loop of `parse`.
unfoldable pub parse_response_from : ℕ → List ℕ → Response → ℤ × Response
parse_response_from n [] r = (pos 0, r)
parse_response_from n (c ∷ cs) r = elim (status_line_char r.head.parse_state c r) [
  | status_on r' ↦ parse_response_from (n + 1) cs r'
  | status_over r' ↦ parse_fields n (c ∷ cs) r'
  | status_bad r' ↦ (negsuc 0, r')
]

unfoldable pub parse_response : List ℕ → Response → ℤ × Response
parse_response bytes r = parse_response_from 0 bytes r

-- The decimal digits of a number, as the stream writes them; a number has at most as many digits as
-- its successor says.
unfoldable pub digits : ℕ → ℕ → List ℕ
digits zero n = []
digits (suc fuel) n =
    let rest = digits fuel (n / 10) in
    if ltb n 10 then (48 + n) ∷ [] else rest ++ ((48 + n % 10) ∷ [])

-- `serialize`, before what follows.
unfoldable pub print_response : Response → List ℕ → List ℕ
print_response r rest =
    r.head.version
    ++ (32
        ∷ (digits (suc r.status) r.status
            ++ (32
                ∷ (reason_for_status r.status
                    ++ (13 ∷ 10 ∷ print_fields r.head.fields (13 ∷ 10 ∷ rest))))))
