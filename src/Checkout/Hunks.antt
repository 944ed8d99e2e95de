-- ===== src/Checkout/Hunks.antt =====
-- `parse_diff` of sidecar/reviewer/checkout.py on the pieces of a unified diff: the lines of a hunk,
-- its header, and the lines before the hunks of a file.
use fuko_pr.Prelude.{
  cons_full, ℕ, ◌+◌, ◌<◌, String, ◌<+>◌, ◌≡◌, refl, ap, ◌∙◌, Bool, true, false, Option, none, some,
  List, [], ◌∷◌, ◌++◌, map, arith, Eq, nat_eq, text_eq, pair_eq, starts_with, starts_with-append,
  All, Bool-cases, inl, inr,
}
use text.Mathlib.TextLemmas.{cons-append}
use fuko_pr.Checkout.Diff.{
  add, Scan, enter_hunk, scan_line, scan_lines, found, hunk_digits, int_of_digits,
}
use fuko_pr.Checkout.Unified.{
  Line, context, added, removed, stripped, no_newline, text_of, Hunk, header_of, line_numbers,
  IsHunk, is_plain,
}
use fuko_pr.Checkout.Numbers.{hunk_number}

-- The set that a loop of `add` makes: `xs` and then `ys`.
unfoldable pub add_all {ℓ} : {A : Type ℓ} ⦃eq : Eq A⦄ → List A → List A → List A
add_all [] xs = xs
add_all (y ∷ ys) xs = add_all ys (add y xs)

pub add_all-append {ℓ} :
    {A : Type ℓ} ⦃eq : Eq A⦄ (ys zs xs : List A)
    → add_all (ys ++ zs) xs ≡ add_all zs (add_all ys xs)
unfolding add_all
add_all-append [] zs xs = refl
add_all-append (y ∷ ys) zs xs = add_all-append ys zs (add y xs)

-- The state before a line, and the state inside a hunk, of a file with a path or of none.
module _ (digit_value : ℕ → Option ℕ) where
  abbrev pub at : List String → List (String × ℕ) → Option String → ℕ → Bool → Scan digit_value
  at files positions path n b = record {
    files = files;
    positions = positions;
    path = path;
    new_line = n;
    in_hunk = b;
  }

  abbrev pub inside : List String → List (String × ℕ) → Option String → ℕ → Scan digit_value
  inside files positions path n = at files positions path n true

-- The number after the last line of a hunk.
abbrev pub end_number : ℕ → List Line → ℕ
end_number n [] = n
end_number n (context s ∷ ls) = end_number (n + 1) ls
end_number n (added s ∷ ls) = end_number (n + 1) ls
end_number n (removed s ∷ ls) = end_number n ls
end_number n (stripped ∷ ls) = end_number (n + 1) ls
end_number n (no_newline ∷ ls) = end_number n ls

module _ (digit_value : ℕ → Option ℕ)
    (ascii : (d : ℕ) → d < 10 → digit_value (48 + d) ≡ some d) where
  pub scan-body :
      (files : List String) (positions : List (String × ℕ)) (path : String) (n : ℕ) (ls : List Line)
      (rest : List String)
      → scan_lines digit_value
          (inside digit_value files positions (some path) n)
          (map text_of ls ++ rest)
        ≡ scan_lines digit_value
            (inside digit_value files
              (add_all (map (λ k. (path, k)) (line_numbers n ls)) positions)
              (some path)
              (end_number n ls))
            rest
  unfolding scan_lines text_of line_numbers add_all
  scan-body files positions path n [] rest = refl
  scan-body files positions path n (context s ∷ ls) rest =
      rw (cons_full " " s) (scan-body files (add (path, n) positions) path (n + 1) ls rest)
  scan-body files positions path n (added s ∷ ls) rest =
      rw (cons_full "+" s) (scan-body files (add (path, n) positions) path (n + 1) ls rest)
  scan-body files positions path n (removed s ∷ ls) rest =
      rw (cons_full "-" s) (scan-body files positions path n ls rest)
  scan-body files positions path n (stripped ∷ ls) rest =
      scan-body files (add (path, n) positions) path (n + 1) ls rest
  scan-body files positions path n (no_newline ∷ ls) rest = scan-body files positions path n ls rest

  pub scan-body_unnamed :
      (files : List String) (positions : List (String × ℕ)) (n : ℕ) (ls : List Line)
      (rest : List String)
      → scan_lines digit_value (inside digit_value files positions none n) (map text_of ls ++ rest)
        ≡ scan_lines digit_value (inside digit_value files positions none n) rest
  unfolding scan_lines text_of
  scan-body_unnamed files positions n [] rest = refl
  scan-body_unnamed files positions n (context s ∷ ls) rest =
      scan-body_unnamed files positions n ls rest
  scan-body_unnamed files positions n (added s ∷ ls) rest =
      scan-body_unnamed files positions n ls rest
  scan-body_unnamed files positions n (removed s ∷ ls) rest =
      scan-body_unnamed files positions n ls rest
  scan-body_unnamed files positions n (stripped ∷ ls) rest =
      scan-body_unnamed files positions n ls rest
  scan-body_unnamed files positions n (no_newline ∷ ls) rest =
      scan-body_unnamed files positions n ls rest

  pub scan_lines-step :
      (st st' : Scan digit_value) (line : String) (rest : List String)
      → scan_line digit_value st line ≡ some st'
      → scan_lines digit_value st (line ∷ rest) ≡ scan_lines digit_value st' rest
  unfolding scan_lines
  scan_lines-step st st' line rest h = rw (h, scan_lines) refl

  scan_line-at :
      (st : Scan digit_value) (line : String)
      → starts_with "diff --git " line ≡ false
      → starts_with "+++ b/" line ≡ false
      → starts_with "@@" line ≡ true
      → scan_line digit_value st line ≡ enter_hunk digit_value st line
  unfolding scan_line
  scan_line-at st line h k e = elim (Bool-cases (st.in_hunk)) [
    | inl within ↦ rw (h, within, e) refl
    | inr outside ↦ rw (h, outside, k, e) refl
  ]

  enter_hunk-number :
      (st : Scan digit_value) (line digits : String) (n : ℕ)
      → hunk_digits digit_value line ≡ some digits
      → int_of_digits digit_value digits ≡ some n
      → enter_hunk digit_value st line ≡ some (record st { new_line = n; in_hunk = true })
  unfolding enter_hunk
  enter_hunk-number st line digits n h k = rw (enter_hunk, h, k) refl

  pub scan-header :
      (st : Scan digit_value) (h : Hunk)
      → IsHunk digit_value h
      → scan_line digit_value st (header_of h)
        ≡ some (record st { new_line = h.first; in_hunk = true })
  unfolding starts_with header_of
  scan-header st h k =
      let (digits, found, value) = hunk_number digit_value ascii h k in
      let first_chars : header_of h ≡ String.◌∷◌ "@" (String.◌∷◌ "@" (" " <+> _)) =
        cons-append "@" "@ " _ ∙ ap (λ t. String.◌∷◌ "@" t) (cons-append "@" " " _) in
      let begins = λ (p : String). ap (starts_with p) first_chars in
      scan_line-at st (header_of h) (begins "diff --git ") (begins "+++ b/") (begins "@@")
      ∙ enter_hunk-number st (header_of h) digits h.first found value

  pub scan-names :
      (st : Scan digit_value) (names : String)
      → scan_line digit_value st ("diff --git " <+> names)
        ≡ some (record st { path = none; in_hunk = false })
  unfolding scan_line
  scan-names st names = rw (starts_with-append "diff --git " names) refl

  pub scan-extended :
      (st : Scan digit_value) (lines rest : List String)
      → st.in_hunk ≡ false
      → All (λ line. is_plain digit_value line ≡ true) lines
      → scan_lines digit_value st (lines ++ rest) ≡ scan_lines digit_value st rest
  unfolding scan_lines scan_line
  scan-extended st [] rest h k = refl
  scan-extended st (line ∷ lines) rest h k =
      scan_lines-step st st line (lines ++ rest) (plain_line k.0)
      ∙ scan-extended st lines rest h k.1
    where
      plain_line : is_plain digit_value line ≡ true → scan_line digit_value st line ≡ some st
      plain_line plain =
          let no_names : starts_with "diff --git " line ≡ false = ground (arith, plain) in
          let no_target : starts_with "+++ b/" line ≡ false = ground (arith, plain) in
          let no_header : starts_with "@@" line ≡ false = ground (arith, plain) in
          rw (no_names, h, no_target, no_header) refl
