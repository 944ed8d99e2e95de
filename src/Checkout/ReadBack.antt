-- ===== src/Checkout/ReadBack.antt =====
-- What `parse_diff` of sidecar/reviewer/checkout.py reads in a unified diff is what git wrote in it.
use fuko_pr.Prelude.{
  ℕ, ◌+◌, ◌<◌, String, ◌<+>◌, ◌≡◌, refl, sym, ap, ◌∙◌, Bool, true, false, Option, none, some, List,
  [], ◌∷◌, ◌++◌, map, arith, nat_eq, text_eq, pair_eq, splitlines, is_break, put_front, free_of,
  All,
}
use mathlib.Core.List.{append_assoc}
use text.Mathlib.TextLemmas.{cons-append, nil-append}
use Prim.Native.Char.{code}
use fuko_pr.Checkout.Diff.{add, Scan, scan_line, scan_lines, start, found, parse_diff}
use fuko_pr.Checkout.Unified.{
  text_of, Hunk, header_of, hunk_lines, Target, absent, deleted, file, quoted, target_lines,
  FileDiff, lines_of, unlines, line_numbers, hunk_positions, target_positions, positions_of,
  target_paths, paths_of, IsHunk, IsTarget, IsFileDiff,
}
use fuko_pr.Checkout.Targets.{scan-target_file, scan-target_quoted}
use fuko_pr.Checkout.Hunks.{
  add_all, add_all-append, at, inside, end_number, scan-body, scan-body_unnamed, scan_lines-step,
  scan-header, scan-names, scan-extended,
}

module _ (digit_value : ℕ → Option ℕ)
    (ascii : (d : ℕ) → d < 10 → digit_value (48 + d) ≡ some d) where
  -- Some lines end with these files and positions, whatever else the state holds.
  abbrev Ends : Scan digit_value → List String → List String → List (String × ℕ) → Type 0
  Ends st lines files positions =
      (st' : Scan digit_value) × (scan_lines digit_value st lines ≡ some st')
      × (st'.files ≡ files)
      × (st'.positions ≡ positions)

  scan-hunks :
      (files : List String) (positions : List (String × ℕ)) (path : String) (n : ℕ) (b : Bool)
      (hs : List Hunk) (rest : List String)
      → All (IsHunk digit_value) hs
      → (m : ℕ) × (c : Bool) × (scan_lines digit_value
            (at digit_value files positions (some path) n b)
            (hunk_lines hs ++ rest)
          ≡ scan_lines digit_value
              (at digit_value files (add_all (hunk_positions path hs) positions) (some path) m c)
              rest)
  unfolding hunk_lines hunk_positions add_all
  scan-hunks files positions path n b [] rest k = (n, b, refl)
  scan-hunks files positions path n b (h ∷ hs) rest k =
      let body = line_numbers h.first h.body in
      let here = map (λ m. (path, m)) body in
      let st = at digit_value files positions (some path) n b in
      let (m, c, more) =
        scan-hunks files (add_all here positions) path (end_number h.first h.body) true hs rest
          k.1 in
      (
        m,
        c,
        scan_lines-step digit_value ascii st
              (inside digit_value files positions (some path) h.first) (header_of h) _
              (scan-header digit_value ascii st h k.0)
            ∙ ap (scan_lines digit_value (inside digit_value files positions (some path) h.first))
                (append_assoc (map text_of h.body) (hunk_lines hs) rest)
            ∙ scan-body digit_value ascii files positions path h.first h.body
                (hunk_lines hs ++ rest)
            ∙ more
            ∙ ap (λ ps. scan_lines digit_value (at digit_value files ps (some path) m c) rest)
                (sym (add_all-append here (hunk_positions path hs) positions)),
      )

  scan-hunks_unnamed :
      (files : List String) (positions : List (String × ℕ)) (n : ℕ) (b : Bool) (hs : List Hunk)
      (rest : List String)
      → All (IsHunk digit_value) hs
      → (m : ℕ) × (c : Bool) × (scan_lines digit_value
            (at digit_value files positions none n b)
            (hunk_lines hs ++ rest)
          ≡ scan_lines digit_value (at digit_value files positions none m c) rest)
  unfolding hunk_lines
  scan-hunks_unnamed files positions n b [] rest k = (n, b, refl)
  scan-hunks_unnamed files positions n b (h ∷ hs) rest k =
      let st = at digit_value files positions none n b in
      let (m, c, more) = scan-hunks_unnamed files positions h.first true hs rest k.1 in
      (
        m,
        c,
        scan_lines-step digit_value ascii st (inside digit_value files positions none h.first)
              (header_of h) _ (scan-header digit_value ascii st h k.0)
            ∙ ap (scan_lines digit_value (inside digit_value files positions none h.first))
                (append_assoc (map text_of h.body) (hunk_lines hs) rest)
            ∙ scan-body_unnamed digit_value ascii files positions h.first h.body
                (hunk_lines hs ++ rest)
            ∙ more,
      )

  scan-target :
      (files : List String) (positions : List (String × ℕ)) (n : ℕ) (t : Target) (hs : List Hunk)
      (rest : List String)
      → IsTarget digit_value t
      → All (IsHunk digit_value) hs
      → (path : Option String) × (m : ℕ) × (c : Bool) × (scan_lines digit_value
            (at digit_value files positions none n false)
            (target_lines t ++ (hunk_lines hs ++ rest))
          ≡ scan_lines digit_value
              (at digit_value
                (add_all (target_paths t) files)
                (add_all (target_positions t hs) positions)
                path
                m
                c)
              rest)
  unfolding target_lines target_paths target_positions add_all scan_line
  scan-target files positions n absent hs rest h k =
      let (m, c, more) = scan-hunks_unnamed files positions n false hs rest k in (none, m, c, more)
  scan-target files positions n deleted hs rest h k =
      let (m, c, more) = scan-hunks_unnamed files positions n false hs rest k in
      (
        none,
        m,
        c,
        scan_lines-step digit_value ascii (at digit_value files positions none n false)
              (at digit_value files positions none n false) "+++ /dev/null" _ refl
            ∙ more,
      )
  scan-target files positions n (file path blanks) hs rest h k =
      let (m, c, more) = scan-hunks (add path files) positions path n false hs rest k in
      (
        some path,
        m,
        c,
        scan_lines-step digit_value ascii (at digit_value files positions none n false)
              (at digit_value (add path files) positions (some path) n false)
              ("+++ b/" <+> (path <+> blanks)) _
              (scan-target_file digit_value (at digit_value files positions none n false) path
                blanks refl h.0 h.1)
            ∙ more,
      )
  scan-target files positions n (quoted text) hs rest h k =
      let (m, c, more) = scan-hunks_unnamed files positions n false hs rest k in
      (
        none,
        m,
        c,
        scan_lines-step digit_value ascii (at digit_value files positions none n false)
              (at digit_value files positions none n false) ("+++ \"b/" <+> text) _
              (scan-target_quoted digit_value (at digit_value files positions none n false) text
                refl)
            ∙ more,
      )

  scan-files :
      (files : List String) (positions : List (String × ℕ)) (path : Option String) (n : ℕ)
      (b : Bool) (fs : List FileDiff)
      → All (IsFileDiff digit_value) fs
      → Ends
          (at digit_value files positions path n b)
          (lines_of fs)
          (add_all (paths_of fs) files)
          (add_all (positions_of fs) positions)
  unfolding lines_of paths_of positions_of scan_lines add_all
  scan-files files positions path n b [] k =
      (at digit_value files positions path n b, refl, refl, refl)
  scan-files files positions path n b (f ∷ fs) k =
      let st = at digit_value files positions path n b in
      let fresh = at digit_value files positions none n false in
      let behind = target_lines f.target ++ (hunk_lines f.hunks ++ lines_of fs) in
      let (path', m, c, read) =
        scan-target files positions n f.target f.hunks (lines_of fs) k.0.trimmed k.0.each_hunk in
      let (st', more, same_files, same_positions) =
        scan-files (add_all (target_paths f.target) files)
          (add_all (target_positions f.target f.hunks) positions) path' m c fs k.1 in
      (
        st',
        scan_lines-step digit_value ascii st fresh ("diff --git " <+> f.names)
              (f.extended ++ behind) (scan-names digit_value ascii st f.names)
            ∙ scan-extended digit_value ascii fresh f.extended behind refl k.0.plain
            ∙ read
            ∙ more,
        same_files ∙ sym (add_all-append (target_paths f.target) (paths_of fs) files),
        same_positions
            ∙ sym (add_all-append (target_positions f.target f.hunks) (positions_of fs) positions),
      )

  splitlines-line :
      (s t : String)
      → free_of is_break s ≡ true
      → splitlines (s <+> String.◌∷◌ "\n" t) ≡ s ∷ splitlines t
  unfolding splitlines free_of
  splitlines-line String.[] t h = ap splitlines (nil-append (String.◌∷◌ "\n" t))
  splitlines-line (String.◌∷◌ c s) t h =
      let stays : is_break (code c) ≡ false = ground (arith, h) in
      rw (cons-append c s (String.◌∷◌ "\n" t), stays)
        (ap (put_front c) (splitlines-line s t (ground (arith, h))))

  splitlines-unlines :
      (lines : List String)
      → All (λ s. free_of is_break s ≡ true) lines
      → splitlines (unlines lines) ≡ lines
  unfolding unlines splitlines
  splitlines-unlines [] h = refl
  splitlines-unlines (s ∷ lines) h =
      splitlines-line s (unlines lines) h.0 ∙ ap (λ t. s ∷ t) (splitlines-unlines lines h.1)

  -- A unified diff is read back, whatever the lines of its hunks are, also those that look like
  -- headers: the files are the paths of the new sides, without the blanks that stand after them, and
  -- the positions are the lines of these new sides, each with its number. A file whose path stands in
  -- quotes is left out with its lines, as are one that is gone and one without a line for its new side.
  -- The conditions: no line holds a line boundary of its own; a path out of quotes has no white space
  -- at its ends; the lines between `diff --git` and the new side do not begin as a header; and in the
  -- header of a hunk the range of the old side has no plus, and the number of the new side has at most
  -- 4300 digits and ends where the digits do. The table of digits gives 0 to 9 their values.
  pub parse_diff-unlines :
      (fs : List FileDiff)
      → All (IsFileDiff digit_value) fs
      → All (λ s. free_of is_break s ≡ true) (lines_of fs)
      → parse_diff digit_value (unlines (lines_of fs))
        ≡ some (add_all (paths_of fs) [], add_all (positions_of fs) [])
  unfolding parse_diff
  parse_diff-unlines fs k whole =
      let (st, read, same_files, same_positions) = scan-files [] [] none 0 false fs k in
      ap (λ lines. found digit_value (scan_lines digit_value (start digit_value) lines))
        (splitlines-unlines (lines_of fs) whole)
      ∙ ap (found digit_value) read
      ∙ λ i. some (same_files i, same_positions i)
