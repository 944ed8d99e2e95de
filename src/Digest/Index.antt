-- ===== src/Digest/Index.antt =====
-- sidecar/digest.py, the text of an index and the learning that holds it: `blob_hash`, `topic_for`,
-- `topic_path`, `_header`, `_entry`, `_fit`, `render`, `build_item`. The SHA-256 hex digest, the size
-- of a text in UTF-8 and `ast.parse` are parameters.
use fuko_pr.Prelude.{
  ℕ, ◌+◌, ◌-◌, ◌*◌, ◌/◌, ◌%◌, String, ◌<+>◌, Bool, not, ◌&&◌, ◌||◌, Option, none, some, List, [],
  ◌∷◌, ◌++◌, map, length, ltb, leb, ◌==◌, nat_eq, text_eq, if◌then◌else◌, decimal, starts_with,
  drop_text, take_text, text_length, splitlines, join_lines, sort,
}
use Prim.Native.Char.{code}
use fuko_pr.Digest.Scan.{Symbol, span, sort_by_start, Nodes, scan}

abbrev pub tail_reserve : ℕ
tail_reserve = 200

abbrev pub no_declarations : String
no_declarations = "(no declarations recognised in this file)"

abbrev pub topic_prefix : String
topic_prefix = "file-index:"

-- `topic_for`
abbrev pub topic_for : String → String → String
topic_for path digest_hash = topic_prefix <+> (path <+> ("@" <+> digest_hash))

-- What stands before the last `@`, as `s.rpartition("@")` has it: nothing where there is none.
unfoldable pub before_last_at : String → Option String
before_last_at String.[] = none
before_last_at (String.◌∷◌ c s) = elim (before_last_at s) [
  | some before ↦ some (String.◌∷◌ c before)
  | none ↦ if code c == 64 then some "" else none
]

-- `topic_path`
unfoldable pub topic_path : Option String → Option String
unfolding before_last_at starts_with drop_text
topic_path none = none
topic_path (some topic) =
    if (topic == "") || not (starts_with topic_prefix topic)
    then none
    else elim (before_last_at (drop_text (text_length topic_prefix) topic)) [
      | none ↦ none
      | some path ↦ if path == "" then none else some path
    ]

-- `_entry`
unfoldable pub entry : Symbol → String
entry s =
    "L"
    <+> (decimal s.start
        <+> ("-L" <+> (decimal s.end <+> ("  " <+> (s.kind <+> (" " <+> s.name))))))

-- `key=lambda s: (-s.span, s.start)`
unfoldable pub wider : Symbol → Symbol → Bool
wider a b = ltb (span b) (span a) || ((span a == span b) && leb a.start b.start)

-- The loop of `_fit`: what fits into the characters that are left.
unfoldable pub fit_from : ℕ → ℕ → List Symbol → List Symbol
unfolding entry
fit_from budget used [] = []
fit_from budget used (s ∷ ss) =
    let cost = text_length (entry s) + 1 in
    let skipped = fit_from budget used ss in
    let taken = fit_from budget (used + cost) ss in
    if ltb budget (used + cost) then skipped else s ∷ taken

-- `_fit`
unfoldable pub fit : List Symbol → ℕ → List Symbol × ℕ
unfolding fit_from wider sort sort_by_start
fit symbols budget =
    let fitting = sort_by_start (fit_from budget 0 (sort wider symbols)) in
    (fitting, length symbols - length fitting)

-- `f"{size / 1024:.1f}"`: tenths, rounded half to even.
unfoldable pub kilobytes : ℕ → String
kilobytes size =
    let tenths = 10 * size / 1024 in
    let left = 10 * size % 1024 in
    let up = ltb 512 left || ((left == 512) && (tenths % 2 == 1)) in
    let rounded = if up then tenths + 1 else tenths in
    decimal (rounded / 10) <+> ("." <+> decimal (rounded % 10))

abbrev pub omitted : String
omitted =
    " further declaration(s) omitted to fit -- this index is INCOMPLETE; read the file for anything not listed above)"

abbrev pub note : ℕ → String
note dropped = "(" <+> (decimal dropped <+> omitted)

-- `glob.escape`
unfoldable pub glob_escape : String → String
glob_escape String.[] = ""
glob_escape (String.◌∷◌ c s) =
    let rest = glob_escape s in
    if (code c == 42) || ((code c == 63) || (code c == 91))
    then "[" <+> (String.◌∷◌ c "" <+> ("]" <+> rest))
    else String.◌∷◌ c rest

pub record IngestItem : Type 0 where
  pub text : String
  pub source : String
  pub file_globs : List String
  pub topic : String

module _ (sha256 : String → String) (encoded_size : String → ℕ) where
  -- `blob_hash`
  abbrev pub blob_hash : String → String
  blob_hash text = take_text 12 (sha256 text)

  -- `_header`
  unfoldable pub header : String → String → String → List String
  unfolding splitlines kilobytes take_text
  header path text scanner =
      ("Structural index of " <+> path)
      ∷ ("blob sha256:"
          <+> (blob_hash text
              <+> (" | "
                  <+> (kilobytes (encoded_size text)
                      <+> (" KB | "
                          <+> (decimal (length (splitlines text))
                              <+> (" lines | scanner: " <+> scanner)))))))
      ∷ "This index lists only WHERE declarations are, so a targeted read can replace a whole-file read. It is not a review, states nothing about whether any of this code is correct, and the absence of an entry is not evidence that something is absent."
      ∷ ""
      ∷ []

  -- `_render_scanned`: none where it raises ValueError.
  unfoldable pub render_scanned : String → String → List Symbol → String → ℕ → Option String
  unfolding header join_lines fit entry
  render_scanned path text symbols scanner max_chars =
      let head = header path text scanner in
      let head_text = join_lines head in
      let budget = max_chars - text_length head_text - tail_reserve in
      let (fitting, dropped) = fit symbols budget in
      if ltb max_chars (text_length head_text + 1 + tail_reserve)
      then none
      else if length symbols == 0
      then some (join_lines (head ++ no_declarations ∷ []))
      else some (
          join_lines
            (head ++ (map entry fitting ++ (if dropped == 0 then [] else note dropped ∷ []))))

  module _ (parse : String → Option Nodes) where
    -- `render`
    unfoldable pub render : String → String → ℕ → Option String
    unfolding scan render_scanned
    render path text max_chars =
        let (symbols, scanner) = scan parse path text in
        render_scanned path text symbols scanner max_chars

    -- `build_item`: `none` for the ValueError, `some none` where there is nothing to store.
    unfoldable pub build_item : String → String → ℕ → Option (Option IngestItem)
    unfolding scan render_scanned glob_escape
    build_item path text max_chars =
        let (symbols, scanner) = scan parse path text in
        if length symbols == 0
        then some none
        else elim (render_scanned path text symbols scanner max_chars) [
          | none ↦ none
          | some body ↦ some (
              some record {
                text = body;
                source = "digest";
                file_globs = glob_escape path ∷ [];
                topic = topic_for path (blob_hash text);
              })
        ]
