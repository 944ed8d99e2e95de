-- ===== src/Knowledge/MarkdownContent.antt =====
-- The content and the length of the chunks of a markdown document, sidecar/chunking.py.
use fuko_pr.Prelude.{
  ℕ, ◌≤◌, String, ◌<+>◌, ◌≡◌, refl, ◌∙◌, sym, ap, true, ◌&&◌, List, [], ◌∷◌, ◌++◌, map, arith, ◌==◌,
  ==_iff, text_eq, nat_eq, is_space, lstrip, rstrip, strip, starts_with, Bool-cases, Option-cases,
  inl, inr, is_break, splitlines, join_lines,
}
use Prim.Native.Char.{code}
use text.Mathlib.TextLemmas.{nil-append, append-nil, append_assoc}
use fuko_pr.Knowledge.Chunks.{split_paragraphs}
use fuko_pr.Knowledge.Content.{
  squeeze, content, squeeze-append, content-append, put_front-content, squeeze-cons, front-content,
  split_paragraphs-content,
}
use fuko_pr.Knowledge.Markdown.{heading_of, flush, walk, or_body, chunk_markdown}

is_break-space : (c : ℕ) → is_break c ≡ true → is_space c ≡ true
unfolding is_break is_space
is_break-space c h = ground (arith, h)

lstrip-squeeze : (s : String) → squeeze (lstrip s) ≡ squeeze s
unfolding lstrip squeeze
lstrip-squeeze String.[] = refl
lstrip-squeeze (String.◌∷◌ c s) = elim (Bool-cases (is_space (code c))) [
  | inl blank ↦ rw blank (lstrip-squeeze s)
  | inr mark ↦ rw mark (rw mark refl)
]

rstrip-squeeze : (s : String) → squeeze (rstrip s) ≡ squeeze s
unfolding rstrip squeeze
rstrip-squeeze String.[] = refl
rstrip-squeeze (String.◌∷◌ c s) = elim (Bool-cases (is_space (code c))) [
  | inl blank ↦ elim (Bool-cases (rstrip s == "")) [
    | inl empty ↦
        rw (blank, empty) (sym (ap squeeze ((==_iff (rstrip s) "").0 empty)) ∙ rstrip-squeeze s)
    | inr full ↦ rw (blank, full) (rw blank (rstrip-squeeze s))
  ]
  | inr mark ↦ rw mark (rw mark (ap (λ t. String.◌∷◌ c t) (rstrip-squeeze s)))
]

strip-squeeze : (s : String) → squeeze (strip s) ≡ squeeze s
unfolding strip
strip-squeeze s = rstrip-squeeze (lstrip s) ∙ lstrip-squeeze s

splitlines-content : (s : String) → content (splitlines s) ≡ squeeze s
unfolding splitlines content squeeze
splitlines-content String.[] = refl
splitlines-content (String.◌∷◌ c s) = elim (Bool-cases (is_break (code c))) [
  | inl ends ↦ elim (Bool-cases ((code c == 13) && starts_with "\n" s)) [
    | inl pair ↦ rw (ends, pair, is_break-space (code c) ends) (splitlines-content s)
    | inr single ↦
        rw (ends, single, is_break-space (code c) ends)
          (nil-append (content (splitlines s)) ∙ splitlines-content s)
  ]
  | inr stays ↦ rw stays (
      put_front-content c (splitlines s)
      ∙ ap (λ t. squeeze (String.◌∷◌ c "") <+> t) (splitlines-content s)
      ∙ sym (squeeze-cons c s))
]

join_lines-squeeze : (lines : List String) → squeeze (join_lines lines) ≡ content lines
unfolding join_lines content squeeze
join_lines-squeeze [] = refl
join_lines-squeeze (line ∷ []) = sym (append-nil (squeeze line))
join_lines-squeeze (line ∷ next ∷ lines) =
    squeeze-append line ("\n" <+> join_lines (next ∷ lines))
    ∙ ap (λ t. squeeze line <+> t)
        (squeeze-append "\n" (join_lines (next ∷ lines))
          ∙ nil-append _
          ∙ join_lines-squeeze (next ∷ lines))

-- The texts of chunks, without their headings.
unfoldable pub texts : List (String × String) → List String
texts [] = []
texts (chunk ∷ chunks) = chunk.0 ∷ texts chunks

pub texts-append : (xs ys : List (String × String)) → texts (xs ++ ys) ≡ texts xs ++ texts ys
unfolding texts
texts-append [] ys = refl
texts-append (x ∷ xs) ys = ap (λ t. x.0 ∷ t) (texts-append xs ys)

pub texts-map :
    (heading : String) (ps : List String) → texts (map (λ part. (part, heading)) ps) ≡ ps
unfolding texts
texts-map heading [] = refl
texts-map heading (p ∷ ps) = ap (λ t. p ∷ t) (texts-map heading ps)

module _ (max_len : ℕ) (some_room : 1 ≤ max_len) where
  flush-content :
      (heading : String) (buf : List String)
      → content (texts (flush max_len heading buf)) ≡ content buf
  unfolding flush content squeeze texts
  flush-content heading buf =
      let body = strip (join_lines buf) in
      let kept : squeeze body ≡ content buf =
        strip-squeeze (join_lines buf) ∙ join_lines-squeeze buf in
      elim (Bool-cases (body == "")) [
        | inl empty ↦ rw empty (sym (ap squeeze ((==_iff body "").0 empty)) ∙ kept)
        | inr full ↦ rw full (
            ap content (texts-map heading (split_paragraphs body max_len))
            ∙ split_paragraphs-content body max_len some_room
            ∙ kept)
      ]

  walk-content :
      (heading : String) (buf lines : List String)
      → content (texts (walk max_len heading buf lines)) ≡ content buf <+> content lines
  unfolding walk content
  walk-content heading buf [] = flush-content heading buf ∙ sym (append-nil (content buf))
  walk-content heading buf (line ∷ lines) = elim (Option-cases (heading_of line)) [
    | inl plain ↦
        rw (walk, plain)
          (walk-content heading (buf ++ line ∷ []) lines
            ∙ ap (λ t. t <+> content lines) (content-append buf (line ∷ []))
            ∙ append_assoc (content buf) (squeeze line <+> "") (content lines)
            ∙ ap (λ t. content buf <+> (t <+> content lines)) (append-nil (squeeze line)))
    | inr (title, found) ↦
        rw (walk, found)
          (ap content
              (texts-append (flush max_len heading buf) (walk max_len title (line ∷ []) lines))
            ∙ content-append (texts (flush max_len heading buf)) _
            ∙ ap (λ t. t <+> content (texts (walk max_len title (line ∷ []) lines)))
                (flush-content heading buf)
            ∙ ap (λ t. content buf <+> t)
                (walk-content title (line ∷ []) lines
                  ∙ ap (λ t. t <+> content lines) (append-nil (squeeze line))))
  ]

  -- With a positive limit nothing of a document is lost or moved but whitespace: the texts of the
  -- chunks one after another, without their whitespace, are the document without its whitespace.
  pub chunk_markdown-content :
      (text : String) → content (texts (chunk_markdown text max_len)) ≡ squeeze text
  unfolding chunk_markdown content squeeze texts
  chunk_markdown-content text =
      whole (walk max_len "" [] (splitlines text))
        (walk-content "" [] (splitlines text) ∙ nil-append _ ∙ splitlines-content text)
    where
      whole :
          (chunks : List (String × String))
          → content (texts chunks) ≡ squeeze text
          → content (texts (or_body max_len (strip text) chunks)) ≡ squeeze text
      whole [] h = elim (Bool-cases (strip text == "")) [
        | inl empty ↦ rw empty h
        | inr full ↦ rw full (
            front-content max_len (strip text) [] (h ∙ sym (strip-squeeze text))
            ∙ strip-squeeze text)
      ]
      whole (chunk ∷ chunks) h = h
