-- ===== src/Knowledge/MarkdownBounds.antt =====
-- The length of the chunks of a markdown document, sidecar/chunking.py.
use fuko_pr.Prelude.{
  length-take_text, ℕ, ◌≤◌, String, List, [], ◌∷◌, ◌++◌, arith, All, All-append, ◌==◌, text_eq,
  strip, text_length, Bool-cases, Option-cases, inl, inr, join_lines, splitlines,
}
use fuko_pr.Knowledge.Chunks.{split_paragraphs}
use fuko_pr.Knowledge.ChunkBounds.{split_paragraphs-AllShort}
use fuko_pr.Knowledge.Markdown.{heading_of, flush, walk, or_body, chunk_markdown}
use fuko_pr.Knowledge.MarkdownContent.{texts, texts-append, texts-map}

module _ (max_len : ℕ) (some_room : 1 ≤ max_len) where
  abbrev IsShort : String → Type 0
  IsShort s = text_length s ≤ max_len

  flush-AllShort :
      (heading : String) (buf : List String) → All IsShort (texts (flush max_len heading buf))
  unfolding flush texts
  flush-AllShort heading buf =
      let body = strip (join_lines buf) in
      elim (Bool-cases (body == "")) [
        | inl empty ↦ rw empty tt
        | inr full ↦
            rw (full, texts-map heading (split_paragraphs body max_len))
              (split_paragraphs-AllShort max_len some_room body)
      ]

  walk-AllShort :
      (heading : String) (buf lines : List String)
      → All IsShort (texts (walk max_len heading buf lines))
  unfolding walk
  walk-AllShort heading buf [] = flush-AllShort heading buf
  walk-AllShort heading buf (line ∷ lines) = elim (Option-cases (heading_of line)) [
    | inl plain ↦ rw (walk, plain) (walk-AllShort heading (buf ++ line ∷ []) lines)
    | inr (title, found) ↦
        rw
          (
            walk,
            found,
            texts-append (flush max_len heading buf) (walk max_len title (line ∷ []) lines),
          )
          (All-append IsShort (texts (flush max_len heading buf)) _ (flush-AllShort heading buf)
            (walk-AllShort title (line ∷ []) lines))
  ]

  -- With a positive limit no chunk of a document is longer than the limit, whatever its lines and
  -- headings are.
  pub chunk_markdown-AllShort :
      (text : String) → All (λ s. text_length s ≤ max_len) (texts (chunk_markdown text max_len))
  unfolding chunk_markdown texts
  chunk_markdown-AllShort text =
      whole (walk max_len "" [] (splitlines text)) (walk-AllShort "" [] (splitlines text))
    where
      whole :
          (chunks : List (String × String))
          → All IsShort (texts chunks)
          → All IsShort (texts (or_body max_len (strip text) chunks))
      whole [] h = elim (Bool-cases (strip text == "")) [
        | inl empty ↦ rw empty tt
        | inr full ↦ rw full (omega (arith, length-take_text max_len (strip text)), tt)
      ]
      whole (chunk ∷ chunks) h = h
