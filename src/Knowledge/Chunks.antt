-- ===== src/Knowledge/Chunks.antt =====
-- sidecar/chunking.py, `_split_paragraphs`: a text in chunks of whole paragraphs, as far as they
-- are short enough.
use fuko_pr.Prelude.{
  put_front, ℕ, zero, suc, ◌+◌, String, ◌<+>◌, Option, none, some, List, [], ◌∷◌, ◌++◌, ltb, leb,
  ◌==◌, nat_eq, text_eq, is_space, take_text, drop_text, text_length, if◌then◌else◌,
}
use Prim.Native.Char.{code}

-- What follows the last newline of the whitespace at the front, if it has a newline: the end of
-- the greedy `\s*\n`.
unfoldable pub after_newline : String → Option String
unfolding is_space
after_newline String.[] = none
after_newline (String.◌∷◌ c s) =
    let here = if code c == 10 then some s else none in
    let further : Option String = elim (after_newline s) [ none ↦ here | some r ↦ some r ] in
    if is_space (code c) then further else none

-- `re.split(r"\n\s*\n", body)`; each turn goes past a character, so `len(body) + 1` are enough.
unfoldable pub split_blank : ℕ → String → List String
unfolding after_newline
split_blank zero s = s ∷ []
split_blank (suc fuel) String.[] = "" ∷ []
split_blank (suc fuel) (String.◌∷◌ c s) = elim (if code c == 10 then after_newline s else none) [
  | none ↦ put_front c (split_blank fuel s)
  | some r ↦ "" ∷ split_blank fuel r
]

-- The chunks that a turn emits, and what it keeps as `cur`.
pub record Turn : Type 0 where
  pub out : List String
  pub cur : String

-- `while len(cur) > max_len`
unfoldable pub cut : ℕ → ℕ → String → Turn
unfolding take_text drop_text
cut zero max_len cur = record { out = []; cur = cur }
cut (suc fuel) max_len cur =
    let rest = cut fuel max_len (drop_text max_len cur) in
    if ltb max_len (text_length cur)
    then record rest { out = take_text max_len cur ∷ rest.out }
    else record { out = []; cur = cur }

-- The paragraph joins `cur`, or starts a new one.
unfoldable pub join_paragraph : ℕ → String → String → Turn
join_paragraph max_len cur para =
    if cur == ""
    then record { out = []; cur = para }
    else (if leb (text_length cur + text_length para + 2) max_len
        then record { out = []; cur = cur <+> ("\n\n" <+> para) }
        else record { out = cur ∷ []; cur = para })

-- The loop over the paragraphs; what is cut from a text gets shorter, so its length and one more
-- turn are enough.
unfoldable pub fill : ℕ → String → List String → List String
unfolding cut join_paragraph
fill max_len cur [] = if cur == "" then [] else cur ∷ []
fill max_len cur (para ∷ paras) =
    let joined = join_paragraph max_len cur para in
    let pieces = cut (suc (text_length joined.cur)) max_len joined.cur in
    joined.out ++ (pieces.out ++ fill max_len pieces.cur paras)

abbrev pub or_front : ℕ → String → List String → List String
or_front max_len body [] = take_text max_len body ∷ []
or_front max_len body (s ∷ out) = s ∷ out

-- `_split_paragraphs`
unfoldable pub split_paragraphs : String → ℕ → List String
unfolding fill split_blank
split_paragraphs body max_len =
    or_front max_len body (fill max_len "" (split_blank (suc (text_length body)) body))
