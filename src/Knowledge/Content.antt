-- ===== src/Knowledge/Content.antt =====
-- The content of the chunks of sidecar/chunking.py: what is in a text beside its whitespace.
use mathlib.Core.Option
use fuko_pr.Prelude.{
  take-drop, ℕ, zero, suc, ◌+◌, ◌≤◌, ◌<◌, String, ◌<+>◌, ◌≡◌, refl, ◌∙◌, sym, ap, true, some, List,
  [], ◌∷◌, ◌++◌, arith, ltb, leb, ◌==◌, ==_iff, text_eq, nat_eq, is_space, take_text, drop_text,
  text_length, if◌then◌else◌, Bool-cases, Option-cases, inl, inr, put_front,
}
use Prim.Native.Char.{Char, code}
use text.Mathlib.TextLemmas.{
  nil-append, cons-append, append-nil, append_assoc, length-cons, append-eq-nil_iff,
}
use fuko_pr.Knowledge.Chunks.{
  after_newline, cut, join_paragraph, fill, or_front, split_blank, split_paragraphs,
}

-- A text without its whitespace.
unfoldable pub squeeze : String → String
unfolding is_space
squeeze String.[] = ""
squeeze (String.◌∷◌ c s) =
    let rest = squeeze s in if is_space (code c) then rest else String.◌∷◌ c rest

-- The same of texts one after another.
unfoldable pub content : List String → String
unfolding squeeze
content [] = ""
content (s ∷ ss) = squeeze s <+> content ss

pub squeeze-append : (a b : String) → squeeze (a <+> b) ≡ squeeze a <+> squeeze b
unfolding squeeze
squeeze-append String.[] b = rw (nil-append b, nil-append (squeeze b)) refl
squeeze-append (String.◌∷◌ c a) b = elim (Bool-cases (is_space (code c))) [
  | inl blank ↦ rw (cons-append c a b, blank) (squeeze-append a b)
  | inr mark ↦
      rw (cons-append c a b, mark)
        (ap (λ t. String.◌∷◌ c t) (squeeze-append a b)
          ∙ sym (cons-append c (squeeze a) (squeeze b)))
]

pub content-append : (xs ys : List String) → content (xs ++ ys) ≡ content xs <+> content ys
unfolding content
content-append [] ys = sym (nil-append (content ys))
content-append (x ∷ xs) ys =
    ap (λ t. squeeze x <+> t) (content-append xs ys)
    ∙ sym (append_assoc (squeeze x) (content xs) (content ys))

cut-content :
    (fuel max_len : ℕ) (cur : String)
    → content (cut fuel max_len cur).out <+> squeeze (cut fuel max_len cur).cur ≡ squeeze cur
unfolding cut content
cut-content zero max_len cur = nil-append (squeeze cur)
cut-content (suc fuel) max_len cur = elim (Bool-cases (ltb max_len (text_length cur))) [
  | inl long ↦ rw long (
      append_assoc (squeeze (take_text max_len cur)) _ _
      ∙ ap (λ t. squeeze (take_text max_len cur) <+> t)
          (cut-content fuel max_len (drop_text max_len cur))
      ∙ sym (squeeze-append (take_text max_len cur) (drop_text max_len cur))
      ∙ ap squeeze (take-drop max_len cur))
  | inr short ↦ rw short (nil-append (squeeze cur))
]

join-content :
    (max_len : ℕ) (cur para : String)
    → content (join_paragraph max_len cur para).out
        <+> squeeze (join_paragraph max_len cur para).cur
      ≡ squeeze cur <+> squeeze para
unfolding join_paragraph content squeeze
join-content max_len cur para = elim (Bool-cases (cur == "")) [
  | inl empty ↦ rw empty (ap (λ t. squeeze t <+> squeeze para) (sym ((==_iff cur "").0 empty)))
  | inr full ↦ elim (Bool-cases (leb (text_length cur + text_length para + 2) max_len)) [
    | inl fits ↦
        rw (full, fits)
          (nil-append (squeeze (cur <+> ("\n\n" <+> para)))
            ∙ squeeze-append cur ("\n\n" <+> para)
            ∙ ap (λ t. squeeze cur <+> t) (squeeze-append "\n\n" para ∙ nil-append (squeeze para)))
    | inr apart ↦ rw (full, apart) (ap (λ t. t <+> squeeze para) (append-nil (squeeze cur)))
  ]
]

fill-content :
    (max_len : ℕ) (cur : String) (paras : List String)
    → content (fill max_len cur paras) ≡ squeeze cur <+> content paras
unfolding fill content squeeze
fill-content max_len cur [] = elim (Bool-cases (cur == "")) [
  | inl empty ↦
      rw empty (sym (nil-append "") ∙ ap (λ t. squeeze t <+> "") (sym ((==_iff cur "").0 empty)))
  | inr full ↦ rw full refl
]
fill-content max_len cur (para ∷ paras) =
    let joined = join_paragraph max_len cur para in
    let pieces = cut (suc (text_length joined.cur)) max_len joined.cur in
    content-append joined.out (pieces.out ++ fill max_len pieces.cur paras)
    ∙ ap (λ t. content joined.out <+> t)
        (content-append pieces.out (fill max_len pieces.cur paras)
          ∙ ap (λ t. content pieces.out <+> t) (fill-content max_len pieces.cur paras)
          ∙ sym (append_assoc (content pieces.out) (squeeze pieces.cur) (content paras))
          ∙ ap (λ t. t <+> content paras)
              (cut-content (suc (text_length joined.cur)) max_len joined.cur))
    ∙ sym (append_assoc (content joined.out) (squeeze joined.cur) (content paras))
    ∙ ap (λ t. t <+> content paras) (join-content max_len cur para)
    ∙ append_assoc (squeeze cur) (squeeze para) (content paras)

-- What the end of a separator leaves has the same content, and is shorter.
after_newline-squeeze :
    (s r : String)
    → after_newline s ≡ some r
    → (squeeze s ≡ squeeze r) × (text_length r < text_length s)
unfolding after_newline squeeze
after_newline-squeeze String.[] r h = cc
after_newline-squeeze (String.◌∷◌ c s) r h = elim (Bool-cases (is_space (code c))) [
  | inl blank ↦ elim (Option-cases (after_newline s)) [
    | inl last ↦ elim (Bool-cases (code c == 10)) [
      | inl newline ↦
          let same : s ≡ r = Option.some-injective _ _ (rw (blank, last, newline) at h) in
          rw blank (ap squeeze same, omega (arith, length-cons c s, ap text_length same))
      | inr other ↦ cc (rw (blank, last, other) at h)
    ]
    | inr (q, more) ↦
        let same : q ≡ r = Option.some-injective _ _ (rw (blank, more) at h) in
        let ih = after_newline-squeeze s q more in
        rw blank (ih.0 ∙ ap squeeze same, omega (arith, length-cons c s, ih.1, ap text_length same))
  ]
  | inr mark ↦ cc (rw mark at h)
]

pub put_front-content :
    (c : Char) (ps : List String)
    → content (put_front c ps) ≡ squeeze (String.◌∷◌ c "") <+> content ps
unfolding content squeeze
put_front-content c [] = refl
put_front-content c (p ∷ ps) = elim (Bool-cases (is_space (code c))) [
  | inl blank ↦ rw blank (sym (nil-append (squeeze p <+> content ps)))
  | inr mark ↦ rw mark (
      cons-append c (squeeze p) (content ps)
      ∙ sym (
          cons-append c "" (squeeze p <+> content ps)
          ∙ ap (λ t. String.◌∷◌ c t) (nil-append (squeeze p <+> content ps))))
]

pub squeeze-cons :
    (c : Char) (s : String) → squeeze (String.◌∷◌ c s) ≡ squeeze (String.◌∷◌ c "") <+> squeeze s
unfolding squeeze
squeeze-cons c s = elim (Bool-cases (is_space (code c))) [
  | inl blank ↦ rw blank (sym (nil-append (squeeze s)))
  | inr mark ↦
      rw mark
        (sym (cons-append c "" (squeeze s) ∙ ap (λ t. String.◌∷◌ c t) (nil-append (squeeze s))))
]

newline_is_space : (c : Char) → code c == 10 ≡ true → is_space (code c) ≡ true
unfolding is_space
newline_is_space c h = ap is_space ((==_iff (code c) 10).0 h)

split_blank-content :
    (fuel : ℕ) (s : String) → text_length s < fuel → content (split_blank fuel s) ≡ squeeze s
unfolding split_blank content
split_blank-content zero s h = absurd (omega (arith, h))
split_blank-content (suc fuel) String.[] h = append-nil (squeeze "")
split_blank-content (suc fuel) (String.◌∷◌ c s) h =
    let onward : content (put_front c (split_blank fuel s)) ≡ squeeze (String.◌∷◌ c s) =
      put_front-content c (split_blank fuel s)
      ∙ ap (λ t. squeeze (String.◌∷◌ c "") <+> t)
          (split_blank-content fuel s (omega (arith, h, length-cons c s)))
      ∙ sym (squeeze-cons c s) in
    elim (Bool-cases (code c == 10)) [
      | inl newline ↦ elim (Option-cases (after_newline s)) [
        | inl last ↦ rw (split_blank, newline, last) onward
        | inr (r, found) ↦
            let skipped = after_newline-squeeze s r found in
            let blank : is_space (code c) ≡ true = newline_is_space c newline in
            rw (split_blank, newline, found, blank)
              (nil-append (content (split_blank fuel r))
                ∙ split_blank-content fuel r (omega (arith, h, skipped.1, length-cons c s))
                ∙ sym skipped.0)
      ]
      | inr other ↦ rw (split_blank, other) onward
    ]

pub front-content :
    (max_len : ℕ) (body : String) (out : List String)
    → content out ≡ squeeze body
    → content (or_front max_len body out) ≡ squeeze body
unfolding content squeeze
front-content max_len body [] h =
    append-nil (squeeze (take_text max_len body)) ∙ (append-eq-nil_iff.0 parts).0 ∙ h
  where
    parts : squeeze (take_text max_len body) <+> squeeze (drop_text max_len body) ≡ ""
    parts =
        sym (squeeze-append (take_text max_len body) (drop_text max_len body))
        ∙ ap squeeze (take-drop max_len body)
        ∙ sym h
front-content max_len body (s ∷ out) h = h

-- With a positive limit nothing of a text is lost or moved but whitespace: the chunks one after
-- another, without their whitespace, are the text without its whitespace.
pub split_paragraphs-content :
    (body : String) (max_len : ℕ)
    → 1 ≤ max_len
    → content (split_paragraphs body max_len) ≡ squeeze body
unfolding split_paragraphs content squeeze
split_paragraphs-content body max_len some_room =
    let paras = split_blank (suc (text_length body)) body in
    front-content max_len body (fill max_len "" paras) (
      fill-content max_len "" paras
      ∙ nil-append (content paras)
      ∙ split_blank-content (suc (text_length body)) body (omega arith))
