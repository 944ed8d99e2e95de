-- ===== src/Digest/Scan.antt =====
-- sidecar/digest.py, the declarations of a file: `_DECL_RE`, `_scan_python`, `_scan_declarations` and
-- `scan`. `ast.parse` is a parameter, which answers with the nodes of the module.
use fuko_pr.Prelude.{
  ℕ, zero, suc, ◌+◌, ◌-◌, max, String, Bool, true, false, ◌&&◌, ◌||◌, Option, none, some, List, [],
  ◌∷◌, ◌++◌, length, ltb, leb, ◌==◌, nat_eq, text_eq, if◌then◌else◌, starts_with, drop_text,
  text_length, splitlines, sort,
}
use Prim.Native.Char.{code}

pub record Symbol : Type 0 where
  pub kind : String
  pub name : String
  pub start : ℕ
  pub end : ℕ

-- `Symbol.span`: a range that ends before it begins counts as one line.
abbrev pub span : Symbol → ℕ
span s = max 1 (s.end + 1 - s.start)

abbrev pub by_start : Symbol → Symbol → Bool
by_start a b = leb a.start b.start

-- `symbols.sort(key=lambda s: s.start)`
unfoldable pub sort_by_start : List Symbol → List Symbol
unfolding sort
sort_by_start = sort by_start

-- The children of a node of `ast`, and what `_scan_python` reads of one: a class or a function, its
-- name, its first line, the last one where it has it.
mutual
  pub data Node : Type 0 where
    class_def : String → ℕ → Option ℕ → Nodes → Node
    function_def : String → ℕ → Option ℕ → Nodes → Node
    other : Nodes → Node

  pub data Nodes : Type 0 where
    nil : Nodes
    cons : Node → Nodes → Nodes

-- `getattr(child, "end_lineno", None) or child.lineno`
abbrev end_or : Option ℕ → ℕ → ℕ
end_or none line = line
end_or (some end) line = if end == 0 then line else end

-- `visit`: the declarations of a node and, at the module itself, those right inside them.
unfoldable pub visit : Bool → Nodes → List Symbol
visit outer nil = []
visit outer (cons (other inner) nodes) = visit outer nodes
visit outer (cons (class_def name line end inner) nodes) =
    let below = visit false inner in
    let rest = visit outer nodes in
    record { kind = "class"; name = name; start = line; end = end_or end line }
    ∷ ((if outer then below else []) ++ rest)
visit outer (cons (function_def name line end inner) nodes) =
    let below = visit false inner in
    let rest = visit outer nodes in
    record { kind = "def"; name = name; start = line; end = end_or end line }
    ∷ ((if outer then below else []) ++ rest)

abbrev pub modifiers : List String
modifiers =
    "pub" ∷ "public" ∷ "private" ∷ "protected" ∷ "internal" ∷ "export" ∷ "default" ∷ "open"
    ∷ "final" ∷ "abstract" ∷ "async" ∷ "unsafe" ∷ "extern" ∷ "inline" ∷ "virtual" ∷ "override"
    ∷ "sealed" ∷ "partial" ∷ "declare" ∷ []

abbrev pub keywords : List String
keywords =
    "fn" ∷ "func" ∷ "function" ∷ "def" ∷ "class" ∷ "struct" ∷ "enum" ∷ "trait" ∷ "impl"
    ∷ "interface" ∷ "type" ∷ "mod" ∷ "module" ∷ "namespace" ∷ "package" ∷ "record" ∷ "union"
    ∷ "protocol" ∷ "extension" ∷ "const" ∷ "static" ∷ []

abbrev max_decl_indent : ℕ
max_decl_indent = 4

-- `[ \t]`
abbrev pub is_blank : ℕ → Bool
is_blank c = (c == 32) || (c == 9)

-- `[A-Za-z_]`
abbrev is_letter : ℕ → Bool
is_letter c = (leb 65 c && leb c 90) || (leb 97 c && leb c 122) || (c == 95)

-- The characters at the front that pass a test, and what is left after them.
unfoldable pub front_of : (ℕ → Bool) → String → String × String
front_of p String.[] = ("", "")
front_of p (String.◌∷◌ c s) =
    let rest = front_of p s in
    if p (code c) then (String.◌∷◌ c rest.0, rest.1) else ("", String.◌∷◌ c s)

-- `[ \t]+`: what follows it.
unfoldable pub after_blanks : String → Option String
unfolding front_of
after_blanks s =
    let (blanks, rest) = front_of is_blank s in if text_length blanks == 0 then none else some rest

-- `\([^)\n]*\)` after its opening parenthesis, in a line: what follows it.
unfoldable pub after_parenthesis : String → Option String
after_parenthesis String.[] = none
after_parenthesis (String.◌∷◌ c s) =
    let rest = after_parenthesis s in
    if code c == 10 then none else if code c == 41 then some s else rest

-- What follows a modifier: `\b(?:\([^)\n]*\))?[ \t]+`. A blank or a parenthesis ends the word.
unfoldable pub after_modifier : String → Option String
unfolding after_blanks after_parenthesis
after_modifier String.[] = none
after_modifier (String.◌∷◌ c s) =
    if code c == 40
    then (elim (after_parenthesis s) [ none ↦ none | some rest ↦ after_blanks rest ])
    else after_blanks (String.◌∷◌ c s)

-- The word of a list that stands at the front with the right end, and what follows the end. Of two
-- words of which one begins the other, only one has a blank or a parenthesis after it.
unfoldable pub word_of : (String → Option String) → List String → String → Option (String × String)
unfolding starts_with drop_text
word_of ending [] s = none
word_of ending (w ∷ ws) s =
    let later = word_of ending ws s in
    if starts_with w s
    then (elim (ending (drop_text (text_length w) s)) [ none ↦ later | some rest ↦ some (w, rest) ])
    else later

-- What follows such words, as many as there are; each is longer than nothing.
unfoldable pub after_words : (String → Option String) → List String → ℕ → String → String
unfolding word_of
after_words ending ws zero s = s
after_words ending ws (suc fuel) s = elim (word_of ending ws s) [
  | none ↦ s
  | some found ↦ after_words ending ws fuel found.1
]

-- What follows the modifiers.
unfoldable pub after_modifiers : String → String
unfolding after_words after_modifier
after_modifiers s = after_words after_modifier modifiers (text_length s) s

-- `(?P<name>[A-Za-z_][A-Za-z0-9_]*)`
unfoldable pub name_at : String → Option String
unfolding front_of
name_at String.[] = none
name_at (String.◌∷◌ c s) =
    let name = (front_of (λ d. is_letter d || (leb 48 d && leb d 57)) (String.◌∷◌ c s)).0 in
    if is_letter (code c) then some name else none

-- `_indent_width`
unfoldable pub indent_width : String → ℕ
indent_width String.[] = 0
indent_width (String.◌∷◌ c s) = let rest = indent_width s in (if code c == 9 then 4 else 1) + rest

pub record Hit : Type 0 where
  pub line : ℕ
  pub width : ℕ
  pub kind : String
  pub name : String

-- `_DECL_RE` after the indentation: the kind and the name.
unfoldable pub declaration_at : String → Option (String × String)
unfolding after_modifiers word_of after_blanks name_at
declaration_at s = elim (word_of after_blanks keywords (after_modifiers s)) [
  | none ↦ none
  | some found ↦ elim (name_at found.1) [ none ↦ none | some name ↦ some (found.0, name) ]
]

-- `_DECL_RE.match(line)`, at a line that is not indented too far
unfoldable pub hit_at : ℕ → String → Option Hit
unfolding front_of declaration_at indent_width
hit_at n line =
    let width = indent_width (front_of is_blank line).0 in
    elim (declaration_at (front_of is_blank line).1) [
      | none ↦ none
      | some found ↦
          if ltb max_decl_indent width
          then none
          else some record { line = n; width = width; kind = found.0; name = found.1 }
    ]

-- `enumerate(text.splitlines(), start=1)`
unfoldable pub hits_from : ℕ → List String → List Hit
unfolding hit_at
hits_from n [] = []
hits_from n (line ∷ lines) =
    let rest = hits_from (suc n) lines in
    elim (hit_at n line) [ none ↦ rest | some hit ↦ hit ∷ rest ]

-- The line before the next declaration that is not nested in this one, or the last line.
unfoldable pub end_of : Hit → ℕ → List Hit → ℕ
end_of hit total [] = total
end_of hit total (later ∷ hits) =
    let further = end_of hit total hits in
    if leb later.width hit.width then max hit.line (later.line - 1) else further

unfoldable pub symbols_of : ℕ → List Hit → List Symbol
unfolding end_of
symbols_of total [] = []
symbols_of total (hit ∷ hits) =
    record { kind = hit.kind; name = hit.name; start = hit.line; end = end_of hit total hits }
    ∷ symbols_of total hits

-- `_scan_declarations`
unfoldable pub scan_declarations : String → List Symbol
unfolding symbols_of hits_from splitlines
scan_declarations text = symbols_of (length (splitlines text)) (hits_from 1 (splitlines text))

-- `path.endswith((".py", ".pyi"))`
unfoldable pub is_python : String → Bool
is_python String.[] = false
is_python (String.◌∷◌ c s) =
    let rest = is_python s in (String.◌∷◌ c s == ".py") || ((String.◌∷◌ c s == ".pyi") || rest)

module _ (parse : String → Option Nodes) where
  -- `_scan_python`
  unfoldable pub scan_python : String → Option (List Symbol)
  unfolding visit sort_by_start
  scan_python text = elim (parse text) [
    | none ↦ none
    | some nodes ↦ some (sort_by_start (visit true nodes))
  ]

  -- `scan`
  unfoldable pub scan : String → String → List Symbol × String
  unfolding scan_python scan_declarations is_python
  scan path text =
      let declared : List Symbol × String = (scan_declarations text, "declarations") in
      if is_python path
      then (elim (scan_python text) [ none ↦ declared | some parsed ↦ (parsed, "ast") ])
      else declared
