-- ===== src/Http/Credentials.antt =====
-- `set_credentials` and `get_credentials` of src/http/request.cpp.
pub mod RoundTrip
use p2engine.Http.Fields.{Entry, get_field, set_field}
use p2engine.Prelude.{Bool, List, [], if◌then◌else◌, is_empty, leb, ℕ, ◌&&◌, ◌++◌, ◌==◌, ◌||◌, ◌∷◌}

-- `isspace`, in the C locale.
abbrev pub is_space : ℕ → Bool
is_space c = (leb 9 c && leb c 13) || c == 32

-- "Authorization".
abbrev pub authorization : List ℕ
authorization = 65 ∷ 117 ∷ 116 ∷ 104 ∷ 111 ∷ 114 ∷ 105 ∷ 122 ∷ 97 ∷ 116 ∷ 105 ∷ 111 ∷ 110 ∷ []

-- The loops of `get_credentials`: spaces are skipped, and a word is cut off.
unfoldable pub skip_spaces : List ℕ → List ℕ
skip_spaces [] = []
skip_spaces (c ∷ cs) = if is_space c then skip_spaces cs else c ∷ cs

unfoldable pub cut_word : List ℕ → List ℕ × List ℕ
cut_word [] = ([], [])
cut_word (c ∷ cs) =
    let rest = cut_word cs in if is_space c then ([], c ∷ cs) else (c ∷ rest.0, rest.1)

unfoldable pub split_credentials : List ℕ → List ℕ × List ℕ
split_credentials auth = let cut = cut_word (skip_spaces auth) in (cut.0, skip_spaces cut.1)

-- `get_credentials`, to the scheme and the rest.
unfoldable pub get_credentials : List Entry → List ℕ × List ℕ
get_credentials m =
    let auth = get_field authorization [] m in
    if is_empty auth then ([], []) else split_credentials auth

-- `set_credentials`.
unfoldable pub set_credentials : List ℕ → List ℕ → List Entry → List Entry
set_credentials scheme info m = set_field authorization (scheme ++ (32 ∷ info)) m
