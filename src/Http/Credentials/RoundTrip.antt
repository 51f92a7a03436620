-- ===== src/Http/Credentials/RoundTrip.antt =====
-- Credentials of src/http/request.cpp that are set and got again.
use p2engine.Http.Credentials.{
  authorization, cut_word, get_credentials, is_space, set_credentials, skip_spaces,
  split_credentials,
}
use p2engine.Http.Fields.{Entry, get_field}
use p2engine.Http.Fields.Lookup.{find-set_field}
use p2engine.Http.Text.{all, both_true, negated}
use p2engine.Prelude.{
  Bool, List, Option, [], ap, arith, false, if_false, if◌then◌else◌, is_empty, none, not, refl,
  some, true, ℕ, ◌++◌, ◌∙◌, ◌∷◌, ◌≡◌,
}

abbrev pub no_space : ℕ → Bool
no_space c = not (is_space c)

-- Text that does not begin with a space.
abbrev pub starts_word : List ℕ → Bool
starts_word [] = true
starts_word (c ∷ cs) = no_space c

skip_lem : (cs : List ℕ) → starts_word cs ≡ true → skip_spaces cs ≡ cs
unfolding skip_spaces
skip_lem [] h = refl
skip_lem (c ∷ cs) h = if_false _ _ _ (negated _ h)

cut_lem :
    (word rest : List ℕ)
    → all no_space word ≡ true
    → cut_word (word ++ (32 ∷ rest)) ≡ (word, 32 ∷ rest)
unfolding cut_word
cut_lem [] rest h = refl
cut_lem (c ∷ word) rest h =
    let b = both_true (no_space c) (all no_space word) h in
    if_false _ _ _ (negated _ b.0)
    ∙ ap (λ (p : List ℕ × List ℕ). let q : List ℕ × List ℕ = (c ∷ p.0, p.1) in q)
        (cut_lem word rest b.1)

split_lem :
    (scheme info : List ℕ)
    → not (is_empty scheme) ≡ true
    → all no_space scheme ≡ true
    → starts_word info ≡ true
    → split_credentials (scheme ++ (32 ∷ info)) ≡ (scheme, info)
unfolding split_credentials skip_spaces
split_lem [] info some_scheme h k = absurd (ground arith)
split_lem (c ∷ scheme) info some_scheme h k =
    ap (λ l. let cut = cut_word l in let q : List ℕ × List ℕ = (cut.0, skip_spaces cut.1) in q)
      (skip_lem (c ∷ (scheme ++ (32 ∷ info))) (both_true (no_space c) (all no_space scheme) h).0)
    ∙ ap (λ (p : List ℕ × List ℕ). let q : List ℕ × List ℕ = (p.0, skip_spaces p.1) in q)
        (cut_lem (c ∷ scheme) info h)
    ∙ ap (λ l. let q : List ℕ × List ℕ = (c ∷ scheme, l) in q) (skip_lem info k)

not_empty_auth : (scheme info : List ℕ) → is_empty (scheme ++ (32 ∷ info)) ≡ false
not_empty_auth [] info = refl
not_empty_auth (c ∷ scheme) info = refl

-- Credentials that are set, over whatever fields, are got as they were: the scheme is not empty and
-- has no spaces, and the rest does not begin with one.
pub get-set_credentials :
    (scheme info : List ℕ) (m : List Entry)
    → not (is_empty scheme) ≡ true
    → all no_space scheme ≡ true
    → starts_word info ≡ true
    → get_credentials (set_credentials scheme info m) ≡ (scheme, info)
unfolding get_credentials set_credentials get_field
get-set_credentials scheme info m some_scheme h k =
    let auth = scheme ++ (32 ∷ info) in
    ap
      (λ (o : Option (List ℕ)).
        let got : List ℕ = elim o [ none ↦ [] | some v ↦ v ] in
        let none_got : List ℕ × List ℕ = ([], []) in
        if is_empty got then none_got else split_credentials got)
      (find-set_field authorization auth m)
    ∙ if_false (is_empty auth) ([], []) (split_credentials auth) (not_empty_auth scheme info)
    ∙ split_lem scheme info some_scheme h k
