-- ===== src/Http/Response/FirstLine.antt =====
-- The first line of a response, read by `parse` of src/http/response.cpp.
use p2engine.Http.Header.{ParseState, firstline_1, firstline_2, firstline_3}
use p2engine.Http.Header.Lines.{and_false, append_not_empty, is_value_char, starts_solid}
use p2engine.Http.Request.FirstLine.{is_version_char}
use p2engine.Http.Response.{
  Response, digits, http_version_char, more_reason, more_text, parse_response_from, reason_char,
  status_char, status_line_char, status_on,
}
use p2engine.Http.Text.{all, both_true, is_blank, negated}
use p2engine.Prelude.{
  Bool, Bool-cases, List, [], ap, append-nil, append_assoc, arith, false, if_false, if_true, inl,
  inr, is_empty, leb, leb→le, length, length-append, ltb, ltb→lt, not, refl, subst, suc, sym, true,
  zero, ℕ, ◌%◌, ◌&&◌, ◌*◌, ◌++◌, ◌+◌, ◌/◌, ◌<◌, ◌||◌, ◌∙◌, ◌∷◌, ◌≡◌, ◌≤◌,
}

-- The loop comes from one state to another over these characters.
abbrev pub Passes : List ℕ → Response → Response → Type 0
Passes a r r' =
    (n : ℕ) (rest : List ℕ)
    → parse_response_from n (a ++ rest) r ≡ parse_response_from (n + length a) rest r'

Passes-nil : (r : Response) → Passes [] r r
Passes-nil r n rest = ap (λ k. parse_response_from k rest r) (omega arith)

pub Passes-cons :
    (c : ℕ) (a : List ℕ) (r r' r'' : Response)
    → status_line_char r.head.parse_state c r ≡ status_on r'
    → Passes a r' r''
    → Passes (c ∷ a) r r''
unfolding parse_response_from
Passes-cons c a r r' r'' e g n rest =
    rw (e, parse_response_from)
      (g (n + 1) rest ∙ ap (λ k. parse_response_from k rest r'') (omega arith))

pub Passes-one :
    (c : ℕ) (r r' : Response)
    → status_line_char r.head.parse_state c r ≡ status_on r'
    → Passes (c ∷ []) r r'
Passes-one c r r' e = Passes-cons c [] r r' r' e (Passes-nil r')

Passes-trans :
    (a b : List ℕ) (r r' r'' : Response) → Passes a r r' → Passes b r' r'' → Passes (a ++ b) r r''
Passes-trans a b r r' r'' g k n rest =
    ap (λ l. parse_response_from n l r) (append_assoc a b rest)
    ∙ g n (b ++ rest)
    ∙ k (n + length a) rest
    ∙ ap (λ m. parse_response_from m rest r'') (omega (arith, length-append a b))

Passes-to : (a : List ℕ) (r r' r'' : Response) → Passes a r r' → r' ≡ r'' → Passes a r r''
Passes-to a r r' r'' g e = subst (Passes a r) e g

-- The states of a response whose first line is being read.
abbrev pub answer : ParseState → List ℕ → ℕ → ℕ → List ℕ → Response
answer s v p n t = record {
  head = record { fields = []; version = v; parse_state = s; key = []; value = []; cr_lf_num = 0 };
  status_for_parser = p;
  status = n;
  reason = t;
}

http_version_char_lem :
    (c : ℕ) (v : List ℕ)
    → is_version_char c ≡ true
    → length v < 8
    → status_line_char firstline_1 c (answer firstline_1 v 0 0 [])
      ≡ status_on (answer firstline_1 (v ++ (c ∷ [])) 0 0 [])
unfolding status_line_char http_version_char more_text
http_version_char_lem c v ok short = ground (arith, length-append v (c ∷ []))

pub Passes-version :
    (a v : List ℕ)
    → all is_version_char a ≡ true
    → length v + length a ≤ 8
    → Passes a (answer firstline_1 v 0 0 []) (answer firstline_1 (v ++ a) 0 0 [])
Passes-version [] v ok short =
    Passes-to [] (answer firstline_1 v 0 0 []) _ _ (Passes-nil (answer firstline_1 v 0 0 []))
      (ap (λ q. answer firstline_1 q 0 0 []) (sym (append-nil v)))
Passes-version (c ∷ a) v ok short =
    let b = both_true (is_version_char c) (all is_version_char a) ok in
    Passes-to (c ∷ a) (answer firstline_1 v 0 0 []) _ _
      (Passes-cons c a (answer firstline_1 v 0 0 []) (answer firstline_1 (v ++ (c ∷ [])) 0 0 []) _
        (http_version_char_lem c v b.0 (omega arith))
        (Passes-version a (v ++ (c ∷ [])) b.1 (omega (arith, length-append v (c ∷ [])))))
      (ap (λ q. answer firstline_1 q 0 0 []) (append_assoc v (c ∷ []) a))

version_done :
    (v : List ℕ)
    → length v ≡ 8
    → status_line_char firstline_1 32 (answer firstline_1 v 0 0 [])
      ≡ status_on (answer firstline_2 v 0 0 [])
unfolding status_line_char http_version_char
version_done [] full = absurd (omega arith)
version_done (c ∷ v) full = ground arith

digit_lem :
    (d p : ℕ) (v : List ℕ)
    → d < 10
    → status_line_char firstline_2 (48 + d) (answer firstline_2 v p 0 [])
      ≡ status_on (answer firstline_2 v (p * 10 + d) 0 [])
unfolding status_line_char status_char
digit_lem d p v small = ground arith

status_done :
    (p : ℕ) (v : List ℕ)
    → 0 < p
    → status_line_char firstline_2 32 (answer firstline_2 v p 0 [])
      ≡ status_on (answer firstline_3 v p p [])
unfolding status_line_char status_char
status_done p v some_status = ground arith

below_fuel : (n fuel : ℕ) → ltb n 10 ≡ false → n < suc fuel → n / 10 < fuel
below_fuel n fuel large enough = ground arith

pub Passes-digits :
    (fuel n : ℕ) (v : List ℕ)
    → n < fuel
    → Passes (digits fuel n) (answer firstline_2 v 0 0 []) (answer firstline_2 v n 0 [])
unfolding digits
Passes-digits zero n v enough = absurd (omega arith)
Passes-digits (suc fuel) n v enough = elim (Bool-cases (ltb n 10)) [
  | inl small ↦
      subst (λ a. Passes a (answer firstline_2 v 0 0 []) (answer firstline_2 v n 0 []))
        (sym (if_true (ltb n 10) ((48 + n) ∷ []) _ small))
        (Passes-to ((48 + n) ∷ []) (answer firstline_2 v 0 0 []) _ _
          (Passes-one (48 + n) (answer firstline_2 v 0 0 []) _
            (digit_lem n 0 v (ltb→lt n 10 small)))
          (ap (λ p. answer firstline_2 v p 0 []) (omega arith)))
  | inr large ↦
      let init = digits fuel (n / 10) in
      let last = 48 + n % 10 in
      subst (λ a. Passes a (answer firstline_2 v 0 0 []) (answer firstline_2 v n 0 []))
        (sym (if_false (ltb n 10) ((48 + n) ∷ []) (init ++ (last ∷ [])) large))
        (Passes-to (init ++ (last ∷ [])) (answer firstline_2 v 0 0 []) _ _
          (Passes-trans init (last ∷ []) (answer firstline_2 v 0 0 [])
            (answer firstline_2 v (n / 10) 0 []) _
            (Passes-digits fuel (n / 10) v (below_fuel n fuel large enough))
            (Passes-one last (answer firstline_2 v (n / 10) 0 []) _
              (digit_lem (n % 10) (n / 10) v (omega arith))))
          (ap (λ p. answer firstline_2 v p 0 []) (omega arith)))
]

reason_char_lem :
    (c p : ℕ) (v t : List ℕ)
    → is_value_char c ≡ true
    → (is_blank c && is_empty t) ≡ false
    → length t < 4096
    → status_line_char firstline_3 c (answer firstline_3 v p p t)
      ≡ status_on (answer firstline_3 v p p (t ++ (c ∷ [])))
unfolding status_line_char reason_char more_reason
reason_char_lem c p v t ok solid short = ground (arith, length-append t (c ∷ []))

pub Passes-reason :
    (a : List ℕ) (p : ℕ) (v t : List ℕ)
    → all is_value_char a ≡ true
    → is_empty t ≡ false
    → length t + length a ≤ 4096
    → Passes a (answer firstline_3 v p p t) (answer firstline_3 v p p (t ++ a))
Passes-reason [] p v t ok some_text short =
    Passes-to [] (answer firstline_3 v p p t) _ _ (Passes-nil (answer firstline_3 v p p t))
      (ap (answer firstline_3 v p p) (sym (append-nil t)))
Passes-reason (c ∷ a) p v t ok some_text short =
    let b = both_true (is_value_char c) (all is_value_char a) ok in
    Passes-to (c ∷ a) (answer firstline_3 v p p t) _ _
      (Passes-cons c a (answer firstline_3 v p p t) (answer firstline_3 v p p (t ++ (c ∷ []))) _
        (reason_char_lem c p v t b.0 (ap (λ e. is_blank c && e) some_text ∙ and_false (is_blank c))
          (omega arith))
        (Passes-reason a p v (t ++ (c ∷ [])) b.1 (append_not_empty t c)
          (omega (arith, length-append t (c ∷ [])))))
      (ap (answer firstline_3 v p p) (append_assoc t (c ∷ []) a))

-- A reason as `reason_for_status` gives it.
abbrev pub ok_reason : List ℕ → Bool
ok_reason t = (is_empty t || starts_solid t) && (all is_value_char t && leb (length t) 4096)

-- A whole reason.
pub Passes-text :
    (a : List ℕ) (p : ℕ) (v : List ℕ)
    → ok_reason a ≡ true
    → Passes a (answer firstline_3 v p p []) (answer firstline_3 v p p a)
Passes-text [] p v ok = Passes-nil (answer firstline_3 v p p [])
Passes-text (c ∷ a) p v ok =
    let b =
      both_true (not (is_blank c)) (all is_value_char (c ∷ a) && leb (length (c ∷ a)) 4096) ok in
    let d = both_true (all is_value_char (c ∷ a)) (leb (length (c ∷ a)) 4096) b.1 in
    let e = both_true (is_value_char c) (all is_value_char a) d.0 in
    Passes-cons c a (answer firstline_3 v p p []) (answer firstline_3 v p p (c ∷ [])) _
      (reason_char_lem c p v [] e.0 (ap (λ t. t && true) (negated _ b.0)) (omega arith))
      (Passes-reason a p v (c ∷ []) e.1 refl (omega (arith, leb→le (suc (length a)) 4096 d.1)))

-- The blanks between the parts.
pub Passes-blanks :
    (p : ℕ) (v : List ℕ)
    → length v ≡ 8
    → 0 < p
    → Passes (32 ∷ []) (answer firstline_1 v 0 0 []) (answer firstline_2 v 0 0 [])
      × Passes (32 ∷ []) (answer firstline_2 v p 0 []) (answer firstline_3 v p p [])
Passes-blanks p v full some_status = (
  Passes-one 32 (answer firstline_1 v 0 0 []) (answer firstline_2 v 0 0 []) (version_done v full),
  Passes-one 32 (answer firstline_2 v p 0 []) (answer firstline_3 v p p [])
      (status_done p v some_status),
)
