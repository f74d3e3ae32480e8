-- ===== src/Core/Identity/Normal.antt =====
-- What `normalize_token` answers.
use peerline.Base.{
  ℕ, ◌≡◌, refl, subst, ◌∙◌, ap, Bool, true, false, List, [], ◌∷◌, ok, arith, All, all, all→All,
  All-map,
}
use mathlib.Core.List.{reverse, reverse_aux, reverse-reverse}
use peerline.Base.Text.{
  Text, is_lower, is_upper, is_digit, is_whitespace, to_lower, lowercase, skip_while, trim_matches,
  trim,
}
use peerline.Core.Identity.{is_token_char, check_token, normalize_token}

token_char-lower : (c : ℕ) → is_token_char c ≡ true → to_lower c ≡ c
unfolding is_token_char is_lower is_digit to_lower is_upper
token_char-lower c h = ground arith

token_char-visible : (c : ℕ) → is_token_char c ≡ true → is_whitespace c ≡ false
unfolding is_token_char is_lower is_digit is_whitespace
token_char-visible c h = ground arith

lowercase_same : (s : Text) → All (λ c. to_lower c ≡ c) s → lowercase s ≡ s
unfolding lowercase
lowercase_same [] h = refl
lowercase_same (c ∷ s) h = cc (h.0, lowercase_same s h.1)

All-reverse_aux {ℓ κ} :
    {A : Type ℓ} (P : A → Type κ) (xs ys : List A) → All P xs → All P ys → All P (reverse_aux xs ys)
All-reverse_aux P [] ys h k = k
All-reverse_aux P (x ∷ xs) ys h k = All-reverse_aux P xs (x ∷ ys) h.1 (h.0, k)

skip_none : (p : ℕ → Bool) (s : Text) → All (λ c. p c ≡ false) s → skip_while p s ≡ s
unfolding skip_while
skip_none p [] h = refl
skip_none p (c ∷ s) h = rw (h.0, skip_while) refl

trim_none : (p : ℕ → Bool) (s : Text) → All (λ c. p c ≡ false) s → trim_matches p s ≡ s
unfolding trim_matches
trim_none p s h =
    rw (skip_none p s h, skip_none p (reverse s) (All-reverse_aux (λ c. p c ≡ false) s [] h tt))
      (reverse-reverse s)

-- An accepted text passed the last test, and is the text that was tested.
check_token-ok :
    (s : Text) (n : ℕ) {t : Text} → check_token s n ≡ ok t → (s ≡ t) × (all is_token_char s ≡ true)
unfolding check_token
check_token-ok s n h = ground arith

stable : (t : Text) → All (λ c. is_token_char c ≡ true) t → lowercase (trim t) ≡ t
unfolding trim
stable t h =
    rw (trim_none is_whitespace t (All-map token_char-visible t h))
      (lowercase_same t (All-map token_char-lower t h))

-- A text that `normalize_token` answers is answered unchanged when it is given again.
pub normalize_token-normalize_token :
    (value : Text) (max_len : ℕ) {t : Text}
    → normalize_token value max_len ≡ ok t
    → normalize_token t max_len ≡ ok t
unfolding normalize_token
normalize_token-normalize_token value max_len {t = t} h =
    let tested = check_token-ok (lowercase (trim value)) max_len h in
    let chars = subst (λ x. all is_token_char x ≡ true) tested.0 tested.1 in
    ap (λ x. check_token x max_len) (stable t (all→All is_token_char t chars))
    ∙ subst (λ x. check_token x max_len ≡ ok t) tested.0 h
