-- ===== src/Capture/Secrets.antt =====
-- The rules that the credentials of a run give (`Scrubber.for_secrets` of
-- sidecar/reviewer/transcript.py), and what they leave of the feed.
use fuko_pr.Prelude.{
  or_left, or_right, ℕ, String, ◌<+>◌, ◌≡◌, ◌≢◌, refl, sym, ap, ◌∙◌, Bool, true, false, ◌&&◌, some,
  List, [], ◌∷◌, arith, ltb, leb, ◌==◌, ==_iff, ==_refl, nat_eq, text_eq, pair_eq, get, set_default,
  any, any-append, any-sort, elem, All, All-append, All-sort, if◌then◌else◌, Bool-cases,
  Option-cases, inl, inr,
}
use text.Mathlib.TextLemmas.{append-eq-nil_iff, cons≢nil}
use Prim.Native.Char.{Char, code}
use fuko_pr.Capture.Scrub.{
  scrub, redaction, unicode_escape, short_escape, plain_char, json_char, json_body, needles_from,
  longer_first, for_secrets,
}
use fuko_pr.Capture.Cells.{erase, marked, redact, scrub-erase}
use fuko_pr.Capture.Clean.{is_left, IsRule, redact-clean}

append-full : (s t : String) → s ≢ "" → s <+> t ≢ ""
append-full s t h e = h (append-eq-nil_iff.0 e).0

escape-full : (n : ℕ) → unicode_escape n ≢ ""
escape-full n = append-full "\\u" _ (λ e. cons≢nil e)

plain_char-full : (c : Char) → plain_char c ≢ ""
unfolding plain_char
plain_char-full c = elim (Bool-cases (leb 32 (code c) && leb (code c) 126)) [
  | inl printable ↦ rw printable (λ e. cons≢nil e)
  | inr other ↦ elim (Bool-cases (ltb (code c) 65536)) [
    | inl short ↦ rw (other, short) (escape-full (code c))
    | inr long ↦ rw (other, long) (append-full _ _ (escape-full _))
  ]
]

json_char-full : (c : Char) → json_char c ≢ ""
unfolding json_char
json_char-full c = elim (Option-cases (short_escape (code c))) [
  | inl none_short ↦ rw (json_char, none_short) (plain_char-full c)
  | inr (s, short) ↦ rw (json_char, short) (append-full "\\" s (λ e. cons≢nil e))
]

json_body-full : (s : String) → s ≢ "" → json_body s ≢ ""
unfolding json_body
json_body-full String.[] h = absurd (h refl)
json_body-full (String.◌∷◌ c s) h = append-full (json_char c) (json_body s) (json_char-full c)

redaction-full : (name : String) → redaction name ≢ ""
unfolding redaction
redaction-full name = append-full "[REDACTED:" _ (λ e. cons≢nil e)

-- There is a rule for the text.
abbrev pub has_rule : String → List (String × String) → Bool
has_rule s rules = any (λ r. r.0 == s) rules

get-has_rule :
    (rules : List (String × String)) (k m : String) → get rules k ≡ some m → has_rule k rules ≡ true
unfolding get
get-has_rule [] k m h = cc
get-has_rule ((j, w) ∷ rules) k m h = ground (arith, h, get-has_rule rules k m)

set_default-here :
    (rules : List (String × String)) (k m : String) → has_rule k (set_default rules k m) ≡ true
unfolding set_default
set_default-here rules k m = elim (Option-cases (get rules k)) [
  | inl absent ↦
      rw (absent, set_default)
        (any-append (λ r. r.0 == k) rules ((k, m) ∷ [])
          ∙ or_right (has_rule k rules) _ (or_left (k == k) false (==_refl k)))
  | inr (w, present) ↦ rw (present, set_default) (get-has_rule rules k w present)
]

set_default-keeps :
    (rules : List (String × String)) (s k m : String)
    → has_rule s rules ≡ true
    → has_rule s (set_default rules k m) ≡ true
unfolding set_default
set_default-keeps rules s k m h = elim (Option-cases (get rules k)) [
  | inl absent ↦
      rw (absent, set_default) (any-append (λ r. r.0 == s) rules ((k, m) ∷ []) ∙ ground (arith, h))
  | inr (w, present) ↦ rw (present, set_default) h
]

set_default-IsRule :
    (rules : List (String × String)) (k m : String)
    → All IsRule rules
    → k ≢ ""
    → m ≢ ""
    → All IsRule (set_default rules k m)
unfolding set_default
set_default-IsRule rules k m h p q = elim (Option-cases (get rules k)) [
  | inl absent ↦ rw (absent, set_default) (All-append IsRule rules ((k, m) ∷ []) h ((p, q), tt))
  | inr (w, present) ↦ rw (present, set_default) h
]

-- What the dict holds after one credential.
abbrev add_secret : List (String × String) → String → String → List (String × String)
add_secret needles name value =
    set_default (set_default needles value (redaction name)) (json_body value) (redaction name)

needles_from-keeps :
    (s : String) (needles secrets : List (String × String))
    → has_rule s needles ≡ true
    → has_rule s (needles_from needles secrets) ≡ true
unfolding needles_from
needles_from-keeps s needles [] h = h
needles_from-keeps s needles ((name, value) ∷ secrets) h = elim (Bool-cases (value == "")) [
  | inl empty ↦ rw empty (needles_from-keeps s needles secrets h)
  | inr full ↦ rw full (
      needles_from-keeps s (add_secret needles name value) secrets (
        set_default-keeps (set_default needles value (redaction name)) s (json_body value)
          (redaction name) (set_default-keeps needles s value (redaction name) h)))
]

needles_from-IsRule :
    (needles secrets : List (String × String))
    → All IsRule needles
    → All IsRule (needles_from needles secrets)
unfolding needles_from
needles_from-IsRule needles [] h = h
needles_from-IsRule needles ((name, value) ∷ secrets) h = elim (Bool-cases (value == "")) [
  | inl empty ↦ rw empty (needles_from-IsRule needles secrets h)
  | inr full ↦
      let filled : value ≢ "" = λ e. cc (sym full ∙ (==_iff value "").1 e) in
      rw full (
        needles_from-IsRule (add_secret needles name value) secrets (
          set_default-IsRule (set_default needles value (redaction name)) (json_body value)
            (redaction name)
            (set_default-IsRule needles value (redaction name) h filled (redaction-full name))
            (json_body-full value filled) (redaction-full name)))
]

filled_eq : (s : String) → s ≢ "" → (s == "") ≡ false
filled_eq s h = elim (Bool-cases (s == "")) [
  | inl empty ↦ absurd (h ((==_iff s "").0 empty))
  | inr full ↦ full
]

add_secret-has_rule :
    (needles secrets : List (String × String)) (name value : String)
    → value ≢ ""
    → (has_rule value (needles_from needles ((name, value) ∷ secrets)) ≡ true)
      × (has_rule (json_body value) (needles_from needles ((name, value) ∷ secrets)) ≡ true)
unfolding needles_from
add_secret-has_rule needles secrets name value h =
    let marker = redaction name in
    let once = set_default needles value marker in
    rw (filled_eq value h) (
      needles_from-keeps value (add_secret needles name value) secrets (
          set_default-keeps once value (json_body value) marker
            (set_default-here needles value marker)),
      needles_from-keeps (json_body value) (add_secret needles name value) secrets
          (set_default-here once (json_body value) marker),
    )

-- A credential that is not empty has both its rules.
needles_from-has_rule :
    (needles secrets : List (String × String)) (name value : String)
    → value ≢ ""
    → elem (name, value) secrets ≡ true
    → (has_rule value (needles_from needles secrets) ≡ true)
      × (has_rule (json_body value) (needles_from needles secrets) ≡ true)
unfolding needles_from
needles_from-has_rule needles [] name value h e = cc
needles_from-has_rule needles ((n, v) ∷ secrets) name value h e =
    elim (Bool-cases ((n == name) && (v == value))) [
      | inl same ↦
          let alike : v ≡ value = (==_iff v value).0 (ground (arith, same)) in
          let (first, second) =
            add_secret-has_rule needles secrets n v (λ empty. h (sym alike ∙ empty)) in
          (
            ap (λ t. has_rule t (needles_from needles ((n, v) ∷ secrets))) (sym alike) ∙ first,
            ap (λ t. has_rule (json_body t) (needles_from needles ((n, v) ∷ secrets))) (sym alike)
                ∙ second,
          )
      | inr other ↦
          needles_from-has_rule (if v == "" then needles else add_secret needles n v) secrets name
            value h (rw other at e)
    ]

for_secrets-IsRule : (secrets : List (String × String)) → All IsRule (for_secrets secrets)
unfolding for_secrets
for_secrets-IsRule secrets =
    All-sort longer_first IsRule (needles_from [] secrets) (needles_from-IsRule [] secrets tt)

-- Whatever the credentials of a run and the line, a scrubbed line is made of characters of the line
-- and of markers, and neither a credential that is not empty nor its JSON spelling stands anywhere
-- in the characters of the line: every occurrence is gone, whole or in part, whichever rules come
-- first, contain one another, or match a marker.
pub scrub-clean :
    (secrets : List (String × String)) (line name value : String)
    → value ≢ ""
    → elem (name, value) secrets ≡ true
    → (scrub (for_secrets secrets) line ≡ erase (redact (for_secrets secrets) (marked true line)))
      × (is_left value (redact (for_secrets secrets) (marked true line)) ≡ false)
      × (is_left (json_body value) (redact (for_secrets secrets) (marked true line)) ≡ false)
unfolding for_secrets
scrub-clean secrets line name value h e =
    let rules = for_secrets secrets in
    let (plain, spelled) = needles_from-has_rule [] secrets name value h e in
    let has = λ (s : String). any-sort longer_first (λ r. r.0 == s) (needles_from [] secrets) in
    (
      scrub-erase rules line,
      redact-clean value rules (marked true line) h (for_secrets-IsRule secrets)
          (has value ∙ plain),
      redact-clean (json_body value) rules (marked true line) (json_body-full value h)
          (for_secrets-IsRule secrets) (has (json_body value) ∙ spelled),
    )
