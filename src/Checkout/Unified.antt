-- ===== src/Checkout/Unified.antt =====
-- A unified diff as git writes it: what `parse_diff` of sidecar/reviewer/checkout.py is given.
use fuko_pr.Prelude.{
  begins_with_digit, free_of, ℕ, ◌+◌, String, ◌<+>◌, Bool, true, false, not, ◌&&◌, Option, List, [],
  ◌∷◌, ◌++◌, ◌≡◌, ◌≤◌, map, ◌==◌, nat_eq, All, decimal, is_space, rstrip, all_chars, text_eq,
  starts_with, text_length,
}
use Prim.Native.Char.{code}

-- A line of a hunk. Some tools strip the blank of an empty context line: `stripped`.
pub data Line : Type 0 where
  context added removed : String → Line
  stripped no_newline : Line

unfoldable pub text_of : Line → String
text_of (context s) = String.◌∷◌ " " s
text_of (added s) = String.◌∷◌ "+" s
text_of (removed s) = String.◌∷◌ "-" s
text_of stripped = ""
text_of no_newline = "\\ No newline at end of file"

-- A hunk: the range of the old side, the first line of the new side, and the rest of the header.
pub record Hunk : Type 0 where
  pub old : String
  pub first : ℕ
  pub trailer : String
  pub body : List Line

unfoldable pub header_of : Hunk → String
header_of h =
    "@@ " <+> (("-" <+> (h.old <+> " ")) <+> String.◌∷◌ "+" (decimal h.first <+> h.trailer))

unfoldable pub hunk_lines : List Hunk → List String
unfolding header_of text_of
hunk_lines [] = []
hunk_lines (h ∷ hs) = header_of h ∷ (map text_of h.body ++ hunk_lines hs)

-- The new side of a file: none, as of a renamed or binary file, `/dev/null`, a path with the blanks
-- after it (git writes a tab after a path that holds a blank), or a path in quotes (git writes one
-- that holds a quote, a backslash, a control character or, by default, a byte above 127 so).
pub data Target : Type 0 where
  absent deleted : Target
  file : String → String → Target
  quoted : String → Target

unfoldable pub target_lines : Target → List String
target_lines absent = []
target_lines deleted = "+++ /dev/null" ∷ []
target_lines (file path blanks) = ("+++ b/" <+> (path <+> blanks)) ∷ []
target_lines (quoted rest) = ("+++ \"b/" <+> rest) ∷ []

pub record FileDiff : Type 0 where
  pub names : String
  pub extended : List String
  pub target : Target
  pub hunks : List Hunk

unfoldable pub lines_of : List FileDiff → List String
unfolding target_lines hunk_lines
lines_of [] = []
lines_of (f ∷ fs) =
    ("diff --git " <+> f.names)
    ∷ (f.extended ++ (target_lines f.target ++ (hunk_lines f.hunks ++ lines_of fs)))

unfoldable pub unlines : List String → String
unlines [] = ""
unlines (s ∷ ss) = s <+> String.◌∷◌ "\n" (unlines ss)

-- The numbers that the lines of the new side have, in a hunk whose new side begins at `n`.
unfoldable pub line_numbers : ℕ → List Line → List ℕ
line_numbers n [] = []
line_numbers n (context s ∷ ls) = n ∷ line_numbers (n + 1) ls
line_numbers n (added s ∷ ls) = n ∷ line_numbers (n + 1) ls
line_numbers n (removed s ∷ ls) = line_numbers n ls
line_numbers n (stripped ∷ ls) = n ∷ line_numbers (n + 1) ls
line_numbers n (no_newline ∷ ls) = line_numbers n ls

unfoldable pub hunk_positions : String → List Hunk → List (String × ℕ)
unfolding line_numbers
hunk_positions path [] = []
hunk_positions path (h ∷ hs) =
    map (λ n. (path, n)) (line_numbers h.first h.body) ++ hunk_positions path hs

unfoldable pub target_positions : Target → List Hunk → List (String × ℕ)
unfolding hunk_positions
target_positions absent hs = []
target_positions deleted hs = []
target_positions (file path blanks) hs = hunk_positions path hs
target_positions (quoted rest) hs = []

-- The lines of the new sides that have a path out of quotes, with their paths.
unfoldable pub positions_of : List FileDiff → List (String × ℕ)
unfolding target_positions
positions_of [] = []
positions_of (f ∷ fs) = target_positions f.target f.hunks ++ positions_of fs

unfoldable pub target_paths : Target → List String
target_paths absent = []
target_paths deleted = []
target_paths (file path blanks) = path ∷ []
target_paths (quoted rest) = []

unfoldable pub paths_of : List FileDiff → List String
unfolding target_paths
paths_of [] = []
paths_of (f ∷ fs) = target_paths f.target ++ paths_of fs

abbrev pub is_plus : ℕ → Bool
is_plus c = c == 43

module _ (digit_value : ℕ → Option ℕ) where
  pub record IsHunk (h : Hunk) : Type 0 where
    pub old_range : free_of is_plus h.old ≡ true
    pub number_ends : begins_with_digit digit_value h.trailer ≡ false
    pub number_short : text_length (decimal h.first) ≤ 4300

  -- A line between `diff --git` and the hunks.
  abbrev pub is_plain : String → Bool
  is_plain line =
      not (starts_with "diff --git " line)
      && (not (starts_with "+++ b/" line) && not (starts_with "@@" line))

  -- A path with neither white space nor nothing at its ends.
  abbrev pub is_trimmed : String → Bool
  is_trimmed String.[] = false
  is_trimmed (String.◌∷◌ c s) =
      not (is_space (code c)) && (rstrip (String.◌∷◌ c s) == String.◌∷◌ c s)

  abbrev pub IsTarget : Target → Type 0
  IsTarget absent = Unit
  IsTarget deleted = Unit
  IsTarget (file path blanks) = (is_trimmed path ≡ true) × (all_chars is_space blanks ≡ true)
  IsTarget (quoted rest) = Unit

  pub record IsFileDiff (f : FileDiff) : Type 0 where
    pub plain : All (λ line. is_plain line ≡ true) f.extended
    pub trimmed : IsTarget f.target
    pub each_hunk : All IsHunk f.hunks
