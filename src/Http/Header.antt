-- ===== src/Http/Header.antt =====
-- The header of src/http/header.cpp: `parse` and `serialize`, and the fields with a meaning.
pub mod Steps
pub mod Lines
pub mod RoundTrip
pub mod Chunks
pub mod CleanNames
pub mod Clean
use p2engine.Http.Fields.{Entry, insert_field}
use p2engine.Http.Text.{is_blank, is_newline}
use p2engine.Prelude.{
  List, [], if◌then◌else◌, is_empty, length, ltb, negsuc, not, pos, ℕ, ℤ, ◌&&◌, ◌++◌, ◌+◌, ◌==◌,
  ◌∷◌,
}

pub data ParseState : Type 0 where
  firstline_1 firstline_2 firstline_3 parser_key parser_value : ParseState

abbrev pub max_name_length : ℕ
max_name_length = 64

-- `cr_lf_num` is `m_iCRorLFcontinueNum`, the line ends in a row.
pub record HttpHeader : Type 0 where
  pub fields : List Entry
  pub version : List ℕ
  pub parse_state : ParseState
  pub key : List ℕ
  pub value : List ℕ
  pub cr_lf_num : ℕ

-- What a character does: the loop goes on, it returns with the character left or taken, or it
-- returns -1.
pub data CharStep : Type 0 where
  go_on stop_here stop_after refuse : HttpHeader → CharStep

-- `clear`.
unfoldable pub clear_header : HttpHeader → HttpHeader
clear_header h = record {
  fields = [];
  version = [];
  parse_state = firstline_1;
  key = [];
  value = [];
  cr_lf_num = 0;
}

unfoldable pub key_newline : HttpHeader → CharStep
key_newline h =
    let n = h.cr_lf_num + 1 in
    if n == 4
    then stop_after (record h { cr_lf_num = n })
    else go_on (record h { cr_lf_num = n; key = [] })

-- A character in a field's name.
unfoldable pub key_char : ℕ → HttpHeader → CharStep
key_char c h =
    if is_blank c
    then if is_empty h.key then go_on h else refuse h
    else if is_newline c
    then key_newline h
    else if not (c == 58) && ltb (length h.key) max_name_length
    then if h.cr_lf_num == 3
      then stop_here h
      else go_on (record h { cr_lf_num = 0; key = h.key ++ c ∷ [] })
    else if c == 58
    then if h.cr_lf_num == 3
      then refuse h
      else go_on (record h { cr_lf_num = 0; parse_state = parser_value })
    else refuse (record h { cr_lf_num = 0 })

-- A field ends.
unfoldable pub value_newline : HttpHeader → HttpHeader
value_newline h =
    if not (is_empty h.key) && not (is_empty h.value)
    then record h {
      cr_lf_num = h.cr_lf_num + 1;
      parse_state = parser_key;
      fields = insert_field h.key h.value h.fields;
      key = [];
      value = [];
    }
    else record h { cr_lf_num = h.cr_lf_num + 1; parse_state = parser_key }

-- A character in a field's value.
unfoldable pub value_char : ℕ → HttpHeader → CharStep
value_char c h =
    if is_blank c
    then if is_empty h.value then go_on h else go_on (record h { value = h.value ++ c ∷ [] })
    else if not (is_newline c) && ltb (length h.key) max_name_length
    then if h.cr_lf_num == 3
      then stop_here h
      else go_on (record h { cr_lf_num = 0; value = h.value ++ c ∷ [] })
    else if is_newline c
    then go_on (value_newline h)
    else refuse h

unfoldable pub char_in : ParseState → ℕ → HttpHeader → CharStep
char_in parser_key c h = key_char c h
char_in parser_value c h = value_char c h
char_in _ c h = refuse h

-- The loop of `parse`, with the number of characters behind it.
unfoldable pub parse_from : ℕ → List ℕ → HttpHeader → ℤ × HttpHeader
parse_from n [] h = (pos 0, h)
parse_from n (c ∷ cs) h = elim (char_in h.parse_state c h) [
  | go_on h' ↦ parse_from (n + 1) cs h'
  | stop_here h' ↦ (pos n, h')
  | stop_after h' ↦ (pos (n + 1), h')
  | refuse h' ↦ (negsuc 0, h')
]

-- `parse`: the length of the header once it is complete, 0 if more is to come, -1 for an error.
unfoldable pub parse_header : List ℕ → HttpHeader → ℤ × HttpHeader
parse_header bytes h = parse_from 0 bytes h

-- A field as `serialize` writes it, before what follows.
unfoldable pub print_field : Entry → List ℕ → List ℕ
print_field (k, v) rest = k ++ (58 ∷ 32 ∷ (v ++ (13 ∷ 10 ∷ rest)))

-- `serialize`.
unfoldable pub print_fields : List Entry → List ℕ → List ℕ
print_fields [] rest = rest
print_fields (e ∷ es) rest = print_field e (print_fields es rest)
