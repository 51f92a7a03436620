-- ===== src/Http/Tests.antt =====
-- Runs of the parsers at concrete values.
use p2engine.Http.Credentials.{get_credentials, set_credentials}
use p2engine.Http.Credentials.RoundTrip.{get-set_credentials}
use p2engine.Http.Fields.{
  Entry, erase_field, find_field, get_field, insert_field, set_field, stricmp_less,
}
use p2engine.Http.Fields.Lookup.{fields_refine}
use p2engine.Http.Fields.Names.{same_name}
use p2engine.Http.Fields.Order.{ascending}
use p2engine.Http.Header.{
  char_in, key_char, key_newline, parse_from, parse_header, print_field, print_fields,
}
use p2engine.Http.Header.Chunks.{ends_at_once, parse_chunks, shift_result}
use p2engine.Http.Header.Clean.{parse-IsClean}
use p2engine.Http.Header.CleanNames.{IsClean}
use p2engine.Http.Header.Lines.{in_key}
use p2engine.Http.Reasons.{reason_for_status}
use p2engine.Http.Request.{Request, clear_request, parse_request, print_request}
use p2engine.Http.Request.RoundTrip.{parse-print_request}
use p2engine.Http.Response.{Response, clear_response, parse_response, print_response}
use p2engine.Http.Response.RoundTrip.{parse-print_response}
use p2engine.Prelude.{
  List, [], arith, false, inl, length, none, pos, refl, some, true, ℕ, ◌++◌, ◌∷◌, ◌≡◌, ◌⊎◌,
}

-- "GET /a HTTP/1.1" with "Host: b" and "Via: c d".
abbrev sample_fields : List Entry
sample_fields = (72 ∷ 111 ∷ 115 ∷ 116 ∷ [], 98 ∷ []) ∷ (86 ∷ 105 ∷ 97 ∷ [], 99 ∷ 32 ∷ 100 ∷ []) ∷ []

abbrev http_version : List ℕ
http_version = 72 ∷ 84 ∷ 84 ∷ 80 ∷ 47 ∷ 49 ∷ 46 ∷ 49 ∷ []

abbrev sample : Request
sample = record {
  head = in_key sample_fields http_version [] 0;
  method = 71 ∷ 69 ∷ 84 ∷ [];
  uri = 47 ∷ 97 ∷ [];
}

parse-print_request_example :
    parse_request (print_request sample (1 ∷ 2 ∷ [])) (clear_request sample)
    ≡ (pos 38, record sample { head = in_key sample_fields http_version [] 4 })
unfolding print_request print_fields print_field stricmp_less
parse-print_request_example =
    parse-print_request sample sample (1 ∷ 2 ∷ []) refl refl refl refl refl

-- The end of a header, cut before its last line feed.
parse_chunks_example :
    ((ends_at_once (10 ∷ []) (in_key [] [] [] 3) ≡ false)
      × (parse_header ((13 ∷ 10 ∷ 13 ∷ []) ++ (10 ∷ [])) (in_key [] [] [] 0)
          ≡ shift_result 3 (parse_header (10 ∷ []) (in_key [] [] [] 3))))
    ⊎ ((ends_at_once (10 ∷ []) (in_key [] [] [] 3) ≡ true)
        × (parse_header ((13 ∷ 10 ∷ 13 ∷ []) ++ (10 ∷ [])) (in_key [] [] [] 0)
            ≡ (pos 3, in_key [] [] [] 3))
        × (parse_header (10 ∷ []) (in_key [] [] [] 3) ≡ (pos 0, in_key [] [] [] 3)))
unfolding parse_header parse_from char_in key_char key_newline
parse_chunks_example =
    parse_chunks (13 ∷ 10 ∷ 13 ∷ []) (10 ∷ []) (in_key [] [] [] 0) (in_key [] [] [] 3) refl refl

-- A body that starts with a letter, behind an end of the header that lacks its last line feed: one call
-- on both says that the header is complete, two calls do not.
body_cut_off :
    (parse_header ((13 ∷ 10 ∷ 13 ∷ []) ++ (97 ∷ [])) (in_key [] [] [] 0)
      ≡ (pos 3, in_key [] [] [] 3))
    × (parse_header (97 ∷ []) (in_key [] [] [] 3) ≡ (pos 0, in_key [] [] [] 3))
unfolding parse_header parse_from char_in key_char key_newline
body_cut_off = (refl, refl)

parse-IsClean_example :
    IsClean (parse_header (86 ∷ 58 ∷ 13 ∷ 10 ∷ 58 ∷ 99 ∷ 10 ∷ []) (in_key [] [] [] 2)).1
parse-IsClean_example =
    parse-IsClean (86 ∷ 58 ∷ 13 ∷ 10 ∷ 58 ∷ 99 ∷ 10 ∷ []) (in_key [] [] [] 2)
      (record { kept = refl; name = refl; short = omega arith; text = inl refl })

-- The answer 404 with the same fields.
abbrev not_found : Response
not_found = record {
  head = in_key sample_fields http_version [] 0;
  status_for_parser = 0;
  status = 404;
  reason = [];
}

parse-print_response_example :
    parse_response (print_response not_found (5 ∷ [])) (clear_response not_found) ≡ (
      pos (length (print_response not_found [])),
      record {
        head = in_key sample_fields http_version [] 4;
        status_for_parser = 404;
        status = 404;
        reason = 78 ∷ 111 ∷ 116 ∷ 32 ∷ 70 ∷ 111 ∷ 117 ∷ 110 ∷ 100 ∷ [];
      },
    )
unfolding stricmp_less reason_for_status
parse-print_response_example =
    parse-print_response not_found not_found (5 ∷ []) refl refl (omega arith) refl refl

get-set_credentials_example :
    get_credentials (set_credentials (66 ∷ 97 ∷ []) (120 ∷ 32 ∷ []) sample_fields)
    ≡ (66 ∷ 97 ∷ [], 120 ∷ 32 ∷ [])
get-set_credentials_example =
    get-set_credentials (66 ∷ 97 ∷ []) (120 ∷ 32 ∷ []) sample_fields refl refl refl

-- "VIA" looked up when "via" changes, among the fields "Host" and "Via".
abbrev upper_via : List ℕ
upper_via = 86 ∷ 73 ∷ 65 ∷ []

abbrev lower_via : List ℕ
lower_via = 118 ∷ 105 ∷ 97 ∷ []

fields_refine_example :
    (ascending (set_field lower_via (120 ∷ []) sample_fields) ≡ true)
    × (ascending (insert_field lower_via (120 ∷ []) sample_fields) ≡ true)
    × (ascending (erase_field lower_via sample_fields) ≡ true)
    × (find_field upper_via (set_field lower_via (120 ∷ []) sample_fields) ≡ some (120 ∷ []))
    × (find_field upper_via (insert_field lower_via (120 ∷ []) sample_fields)
        ≡ some (get_field lower_via (120 ∷ []) sample_fields))
    × (find_field upper_via (erase_field lower_via sample_fields) ≡ none)
unfolding same_name stricmp_less
fields_refine_example = fields_refine upper_via lower_via (120 ∷ []) sample_fields refl
