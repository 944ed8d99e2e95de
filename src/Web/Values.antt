-- ===== src/Web/Values.antt =====
-- The text of a session cookie and its parts (sidecar/web/security.py).
use fuko_pr.Prelude.{
  ℕ, String, ◌<+>◌, ◌≡◌, refl, ap, ◌∙◌, Bool, true, false, ◌&&◌, ◌||◌, [], ◌∷◌, arith, inl, inr,
  ltb, leb, ◌==◌, ==_iff, nat_eq, text_eq, Bool-cases, text_length, split_on, split_on-append,
  split_on-free_of, all_chars, all_chars-append, all_chars_mono, free_of, free_of-all_chars,
  is_digit, is_number, cons_full,
}
use text.Mathlib.TextLemmas.{nil-append, cons-append, append_assoc}
use fuko_pr.Web.Session.{is_ascii}

abbrev pub is_hex : ℕ → Bool
is_hex c = is_digit c || (leb 97 c && leb c 102)

-- `hexdigest` of SHA-256: 64 hexadecimal digits.
abbrev pub IsHexdigest : (String → String → String) → Type 0
IsHexdigest hexdigest =
    (key payload : String)
    → (all_chars is_hex (hexdigest key payload) ≡ true) × (text_length (hexdigest key payload) ≡ 64)

-- A session value as `issue` writes it.
abbrev pub session_value : String → String → String
session_value expires signature = "v1." <+> (expires <+> ("." <+> signature))

dot_front : (s : String) → "." <+> s ≡ String.◌∷◌ "." s
dot_front s = cons-append "." "" s ∙ ap (λ t. String.◌∷◌ "." t) (nil-append s)

version_front : (s : String) → "v1." <+> s ≡ "v1" <+> String.◌∷◌ "." s
version_front s = append_assoc "v1" "." s ∙ ap (λ t. "v1" <+> t) (dot_front s)

pub session_value-join :
    (expires signature : String)
    → session_value expires signature
      ≡ "v1" <+> String.◌∷◌ "." (expires <+> String.◌∷◌ "." signature)
session_value-join expires signature =
    version_front _ ∙ ap (λ t. "v1" <+> String.◌∷◌ "." (expires <+> t)) (dot_front signature)

hex_ascii : (n : ℕ) → is_hex n ≡ true → ltb n 128 ≡ true
hex_ascii n h = ground (arith, h)

hex_no_dot : (n : ℕ) → is_hex n ≡ true → (n == 46) ≡ false
hex_no_dot n h = ground (arith, h)

digit_hex : (n : ℕ) → is_digit n ≡ true → is_hex n ≡ true
digit_hex n h = ground (arith, h)

pub number_hex : (s : String) → is_number s ≡ true → all_chars is_hex s ≡ true
number_hex s h = all_chars_mono is_digit is_hex s digit_hex (ground (arith, h))

module _ (expires signature : String) (digits : all_chars is_hex expires ≡ true)
    (hex : all_chars is_hex signature ≡ true) where
  pub split_on-session_value :
      split_on 46 (session_value expires signature) ≡ "v1" ∷ expires ∷ signature ∷ []
  unfolding free_of
  split_on-session_value =
      ap (split_on 46) (session_value-join expires signature)
      ∙ split_on-append "." "v1" _ refl
      ∙ ap (λ ps. "v1" ∷ ps)
          (split_on-append "." expires signature
              (free_of-all_chars is_hex (λ c. c == 46) expires hex_no_dot digits)
            ∙ ap (λ ps. expires ∷ ps)
                (split_on-free_of 46 signature
                  (free_of-all_chars is_hex (λ c. c == 46) signature hex_no_dot hex)))

  pub session_value-is_ascii : is_ascii (session_value expires signature) ≡ true
  unfolding all_chars
  session_value-is_ascii =
      let ascii = λ (t : String) (h : all_chars is_hex t ≡ true).
        all_chars_mono is_hex (λ c. ltb c 128) t hex_ascii h in
      let parts = all_chars-append (λ c. ltb c 128) in
      rw
        (
          parts "v1." (expires <+> ("." <+> signature)),
          parts expires ("." <+> signature),
          parts "." signature,
          ascii expires digits,
          ascii signature hex,
        )
        refl

pub hex_full : (s : String) → text_length s ≡ 64 → (s == "") ≡ false
hex_full s h = elim (Bool-cases (s == "")) [
  | inl empty ↦ absurd (omega (arith, h, ap text_length ((==_iff s "").0 empty)))
  | inr full ↦ full
]

pub session_value_full :
    (expires signature : String) → (session_value expires signature == "") ≡ false
session_value_full expires signature =
    ap (λ t. t == "") (cons-append "v" "1." (expires <+> ("." <+> signature))) ∙ cons_full "v" _
