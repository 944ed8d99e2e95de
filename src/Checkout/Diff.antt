-- ===== src/Checkout/Diff.antt =====
-- sidecar/reviewer/checkout.py, `parse_diff`: the files of a unified diff, and the lines of their new
-- sides where a comment may stand. `digit_value` is the table of decimal digits of the Unicode
-- standard, by code point: what `\d` matches and `int` reads.
use fuko_pr.Prelude.{
  count_digits, read_digits, ℕ, ◌+◌, String, Bool, true, false, not, ◌&&◌, ◌||◌, Option, none, some,
  List, [], ◌∷◌, ◌++◌, ltb, Eq, ◌==◌, nat_eq, text_eq, pair_eq, elem, strip, starts_with, drop_text,
  splitlines, if◌then◌else◌,
}
use Prim.Native.Char.{code}

-- `s.add(x)`
unfoldable pub add {ℓ} : {A : Type ℓ} ⦃eq : Eq A⦄ → A → List A → List A
add x xs = if elem x xs then xs else xs ++ x ∷ []

module _ (digit_value : ℕ → Option ℕ) where
  -- `int(match.group(1))`; CPython refuses more than 4300 digits with a ValueError.
  unfoldable pub int_of_digits : String → Option ℕ
  unfolding count_digits read_digits
  int_of_digits s =
      if ltb 4300 (count_digits digit_value s) then none else some (read_digits digit_value 0 s)

  -- The digits that the pattern's `.*?\+(\d+)` finds: those after the first `+` that has any.
  unfoldable pub after_plus : String → Option String
  unfolding count_digits
  after_plus String.[] = none
  after_plus (String.◌∷◌ c s) =
      let further = after_plus s in
      if (code c == 43) && ltb 0 (count_digits digit_value s) then some s else further

  -- `_HUNK_NEW_START_RE.match(line)`
  unfoldable pub hunk_digits : String → Option String
  unfolding after_plus starts_with drop_text
  hunk_digits line = if starts_with "@@ " line then after_plus (drop_text 3 line) else none

  -- The variables of the loop.
  pub record Scan : Type 0 where
    pub files : List String
    pub positions : List (String × ℕ)
    pub path : Option String
    pub new_line : ℕ
    pub in_hunk : Bool

  -- What a line that begins with `@@` does.
  unfoldable pub enter_hunk : Scan → String → Option Scan
  unfolding hunk_digits int_of_digits
  enter_hunk st line = elim (hunk_digits line) [
    | none ↦ some st
    | some digits ↦ elim (int_of_digits digits) [
      | none ↦ none
      | some n ↦ some (record st { new_line = n; in_hunk = true })
    ]
  ]

  -- A line of a hunk, of a file that has a path.
  unfoldable pub hunk_line : Scan → String → String → Scan
  unfolding starts_with add
  hunk_line st path line =
      if starts_with "\\" line
      then st
      else (if (line == "") || (starts_with "+" line || starts_with " " line)
          then record st {
            positions = add (path, st.new_line) st.positions;
            new_line = st.new_line + 1;
          }
          else st)

  -- One turn of the loop; `none` is the ValueError.
  unfoldable pub scan_line : Scan → String → Option Scan
  unfolding starts_with drop_text strip add enter_hunk hunk_line
  scan_line st line =
      let path = strip (drop_text 6 line) in
      if starts_with "diff --git " line
      then some (record st { path = none; in_hunk = false })
      else (if not st.in_hunk && starts_with "+++ b/" line
          then some (record st { path = some path; files = add path st.files })
          else (if starts_with "@@" line
              then enter_hunk st line
              else (if not st.in_hunk
                  then some st
                  else elim st.path [ none ↦ some st | some p ↦ some (hunk_line st p line) ])))

  unfoldable pub scan_lines : Scan → List String → Option Scan
  unfolding scan_line
  scan_lines st [] = some st
  scan_lines st (line ∷ lines) = elim (scan_line st line) [
    | none ↦ none
    | some st' ↦ scan_lines st' lines
  ]

  abbrev pub start : Scan
  start = record { files = []; positions = []; path = none; new_line = 0; in_hunk = false }

  abbrev pub found : Option Scan → Option (List String × List (String × ℕ))
  found none = none
  found (some st) = some (st.files, st.positions)

  -- `parse_diff`
  unfoldable pub parse_diff : String → Option (List String × List (String × ℕ))
  unfolding scan_lines
  parse_diff diff = found (scan_lines start (splitlines diff))

  -- `parse_diff_positions`
  unfoldable pub parse_diff_positions : String → Option (List (String × ℕ))
  unfolding parse_diff
  parse_diff_positions diff = elim (parse_diff diff) [
    | none ↦ none
    | some (files, positions) ↦ some positions
  ]
