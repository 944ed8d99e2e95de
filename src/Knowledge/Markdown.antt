-- ===== src/Knowledge/Markdown.antt =====
-- sidecar/chunking.py, `chunk_markdown`: a markdown document in chunks that carry their heading.
use fuko_pr.Prelude.{
  join_lines, splitlines, ℕ, suc, String, ◌&&◌, Option, none, some, List, [], ◌∷◌, ◌++◌, map, ltb,
  leb, ◌==◌, nat_eq, text_eq, is_space, strip, take_text, if◌then◌else◌,
}
use Prim.Native.Char.{code}
use fuko_pr.Knowledge.Chunks.{split_paragraphs}

-- What is left of the pattern after so many of its hashes: more of them up to six, and a space.
unfoldable pub after_hashes : ℕ → String → Option String
unfolding is_space
after_hashes n String.[] = none
after_hashes n (String.◌∷◌ c s) =
    let more = after_hashes (suc n) s in
    if (code c == 35) && ltb n 6
    then more
    else (if is_space (code c) && leb 1 n then some s else none)

-- `_HEADING.match(line)`, and `m.group(2).strip()` of a match.
unfoldable pub heading_of : String → Option String
unfolding after_hashes strip
heading_of line = elim (after_hashes 0 line) [ none ↦ none | some rest ↦ some (strip rest) ]

-- The chunks that `flush` appends.
unfoldable pub flush : ℕ → String → List String → List (String × String)
unfolding join_lines strip split_paragraphs
flush max_len heading buf =
    let body = strip (join_lines buf) in
    if body == "" then [] else map (λ part. (part, heading)) (split_paragraphs body max_len)

-- The loop over the lines, with the last `flush`.
unfoldable pub walk : ℕ → String → List String → List String → List (String × String)
unfolding flush heading_of
walk max_len heading buf [] = flush max_len heading buf
walk max_len heading buf (line ∷ lines) = elim (heading_of line) [
  | none ↦ walk max_len heading (buf ++ line ∷ []) lines
  | some title ↦ flush max_len heading buf ++ walk max_len title (line ∷ []) lines
]

abbrev pub or_body : ℕ → String → List (String × String) → List (String × String)
or_body max_len body [] = if body == "" then [] else (take_text max_len body, "") ∷ []
or_body max_len body (chunk ∷ chunks) = chunk ∷ chunks

-- `chunk_markdown`
unfoldable pub chunk_markdown : String → ℕ → List (String × String)
unfolding walk splitlines
chunk_markdown text max_len = or_body max_len (strip text) (walk max_len "" [] (splitlines text))
