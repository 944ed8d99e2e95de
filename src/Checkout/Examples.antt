-- ===== src/Checkout/Examples.antt =====
-- The results of Checkout at a diff of two files, and a diff that is read wrong.
use fuko_pr.Prelude.{
  splitlines, text_eq, nat_eq, pair_eq, decimal, strip, rstrip, is_space, all_chars, starts_with, ℕ,
  ◌+◌, ◌-◌, ◌≤◌, ◌<◌, ◌<+>◌, ◌≡◌, ◌⊎◌, refl, true, ◌&&◌, Option, none, some, List, [], ◌∷◌, arith,
  leb, free_of, is_break, All, text_length, take_text, if◌then◌else◌,
}
use fuko_pr.Checkout.Diff.{parse_diff}
use fuko_pr.Checkout.Unified.{
  context, added, removed, stripped, no_newline, deleted, file, quoted, FileDiff, IsFileDiff,
  lines_of, unlines, paths_of, positions_of,
}
use fuko_pr.Checkout.Hunks.{add_all}
use fuko_pr.Checkout.ReadBack.{parse_diff-unlines}
use fuko_pr.Checkout.Context.{cut_diff}
use fuko_pr.Checkout.Truncation.{Cut, cut_diff-Cut}

-- The table of digits, on ASCII.
abbrev ascii_digit : ℕ → Option ℕ
ascii_digit c = if leb 48 c && leb c 57 then some (c - 48) else none

ascii_digit-digit : (d : ℕ) → d < 10 → ascii_digit (48 + d) ≡ some d
ascii_digit-digit d h = ground (arith, h)

-- A path with a blank, which git ends with a tab, an added line that looks like the header of another
-- file, a file that is gone, and one whose path is in quotes.
abbrev some_files : List FileDiff
some_files =
    record {
      names = "a/on e.py b/on e.py";
      extended = "index 1..2 100644" ∷ "--- a/on e.py\t" ∷ [];
      target = file "on e.py" "\t";
      hunks =
          record {
            old = "7,2";
            first = 7;
            trailer = ",3 @@ def f():";
            body = context "x" ∷ removed "y" ∷ added "++ b/other.py" ∷ stripped ∷ [];
          }
          ∷ [];
    }
    ∷ record {
      names = "a/two.py b/two.py";
      extended = "--- a/two.py" ∷ [];
      target = deleted;
      hunks =
          record { old = "1"; first = 0; trailer = ",0 @@"; body = removed "z" ∷ no_newline ∷ [] }
          ∷ [];
    }
    ∷ record {
      names = "\"a/caf\\303\\251.py\" \"b/caf\\303\\251.py\"";
      extended = [];
      target = quoted "caf\\303\\251.py\"";
      hunks = record { old = "1"; first = 1; trailer = " @@"; body = added "w" ∷ [] } ∷ [];
    }
    ∷ []

some_files-IsFileDiff : All (IsFileDiff ascii_digit) some_files
unfolding decimal rstrip is_space all_chars starts_with free_of
some_files-IsFileDiff = (
  record {
    plain = (refl, (refl, tt));
    trimmed = (refl, refl);
    each_hunk = (record { old_range = refl; number_ends = refl; number_short = omega arith }, tt);
  },
  (
    record {
      plain = (refl, tt);
      trimmed = tt;
      each_hunk = (record { old_range = refl; number_ends = refl; number_short = omega arith }, tt);
    },
    (
      record {
        plain = tt;
        trimmed = tt;
        each_hunk =
            (record { old_range = refl; number_ends = refl; number_short = omega arith }, tt);
      },
      tt,
    ),
  ),
)

some_files-whole : All (λ s. free_of is_break s ≡ true) (lines_of some_files)
unfolding lines_of free_of is_break decimal
some_files-whole = (
  refl,
  (
    refl,
    (
      refl,
      (
        refl,
        (
          refl,
          (
            refl,
            (
              refl,
              (
                refl,
                (
                  refl,
                  (
                    refl,
                    (refl, (refl, (refl, (refl, (refl, (refl, (refl, (refl, (refl, tt))))))))),
                  ),
                ),
              ),
            ),
          ),
        ),
      ),
    ),
  ),
)

some_files_read :
    parse_diff ascii_digit (unlines (lines_of some_files))
    ≡ some ("on e.py" ∷ [], ("on e.py", 7) ∷ ("on e.py", 8) ∷ ("on e.py", 9) ∷ [])
unfolding parse_diff unlines lines_of splitlines decimal strip
some_files_read = refl

parse_diff-unlines_example :
    parse_diff ascii_digit (unlines (lines_of some_files))
    ≡ some (add_all (paths_of some_files) [], add_all (positions_of some_files) [])
parse_diff-unlines_example =
    parse_diff-unlines ascii_digit ascii_digit-digit some_files some_files-IsFileDiff
      some_files-whole

-- A form feed in an added line is a line boundary for `splitlines`: what follows it is read as a line
-- of the diff, here as the header of a file that the pull request does not change.
form_feed :
    parse_diff ascii_digit (
      "diff --git a/x b/x\n+++ b/x\n@@ -1 +1 @@\n"
      <+> "+\u{c}diff --git a/y b/y\u{c}+++ b/y\u{c}@@ +9 @@\u{c}+z\n")
    ≡ some ("x" ∷ "y" ∷ [], ("x", 1) ∷ ("y", 9) ∷ [])
unfolding parse_diff splitlines
form_feed = refl

-- Three files in a budget for two.
three_files :
    cut_diff "diff --git a\n+a\ndiff --git b\n+b\ndiff --git c\n+c\n" 44
    ≡ "diff --git a\n+a\ndiff --git b\n+b"
unfolding cut_diff
three_files = refl

cut_diff-Cut_example :
    ((text_length "+a\n+b\n" ≤ 4) × (cut_diff "+a\n+b\n" 4 ≡ "+a\n+b\n"))
    ⊎ ((4 < text_length "+a\n+b\n")
        × ((n : ℕ) × Cut "+a\n+b\n" 4 n
            × (cut_diff "+a\n+b\n" 4 ≡ take_text n "+a\n+b\n")
            × (text_length (cut_diff "+a\n+b\n" 4) ≡ n)
            × (n ≤ 4)))
cut_diff-Cut_example = cut_diff-Cut "+a\n+b\n" 4
