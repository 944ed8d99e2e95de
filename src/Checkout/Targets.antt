-- ===== src/Checkout/Targets.antt =====
-- The line that names the new side of a file, in `parse_diff` of sidecar/reviewer/checkout.py.
use fuko_pr.Prelude.{
  ℕ, String, ◌<+>◌, ◌≡◌, refl, ap, sym, ◌∙◌, true, false, Option, some, arith, ==_iff, text_eq,
  nat_eq, is_space, strip, lstrip, rstrip, starts_with, drop_text, starts_with-append,
  drop_text-append, all_chars,
}
use Prim.Native.Char.{code}
use text.Mathlib.TextLemmas.{cons-append, nil-append}
use fuko_pr.Checkout.Diff.{add, Scan, scan_line}
use fuko_pr.Checkout.Unified.{is_trimmed}

rstrip-blank : (s : String) → all_chars is_space s ≡ true → rstrip s ≡ ""
unfolding rstrip all_chars
rstrip-blank String.[] h = refl
rstrip-blank (String.◌∷◌ c s) h =
    let space : is_space (code c) ≡ true = ground (arith, h) in
    let ih = rstrip-blank s (ground (arith, h)) in rw (space, ih) refl

rstrip-append :
    (s blanks : String) → all_chars is_space blanks ≡ true → rstrip (s <+> blanks) ≡ rstrip s
unfolding rstrip
rstrip-append String.[] blanks h = ap rstrip (nil-append blanks) ∙ rstrip-blank blanks h
rstrip-append (String.◌∷◌ c s) blanks h =
    let ih = rstrip-append s blanks h in ap rstrip (cons-append c s blanks) ∙ rw (ih, rstrip) refl

module _ (digit_value : ℕ → Option ℕ) where
  -- Blanks after a path go.
  strip-trimmed :
      (path blanks : String)
      → is_trimmed digit_value path ≡ true
      → all_chars is_space blanks ≡ true
      → strip (path <+> blanks) ≡ path
  unfolding strip lstrip
  strip-trimmed String.[] blanks h k = cc
  strip-trimmed (String.◌∷◌ c s) blanks h k =
      let solid : is_space (code c) ≡ false = ground (arith, h) in
      let whole : rstrip (String.◌∷◌ c s) ≡ String.◌∷◌ c s =
        (==_iff (rstrip (String.◌∷◌ c s)) (String.◌∷◌ c s)).0 (ground (arith, h)) in
      let kept : lstrip (String.◌∷◌ c s <+> blanks) ≡ String.◌∷◌ c s <+> blanks =
        ap lstrip (cons-append c s blanks) ∙ rw (solid, lstrip) (sym (cons-append c s blanks)) in
      ap rstrip kept ∙ rstrip-append (String.◌∷◌ c s) blanks k ∙ whole

  pub scan-target_file :
      (st : Scan digit_value) (path blanks : String)
      → st.in_hunk ≡ false
      → is_trimmed digit_value path ≡ true
      → all_chars is_space blanks ≡ true
      → scan_line digit_value st ("+++ b/" <+> (path <+> blanks))
        ≡ some (record st { path = some path; files = add path st.files })
  unfolding scan_line starts_with
  scan-target_file st path blanks h k l =
      let line = path <+> blanks in
      let other : starts_with "diff --git " ("+++ b/" <+> line) ≡ false =
        ap (starts_with "diff --git ") (cons-append "+" "++ b/" line) in
      let same : strip (drop_text 6 ("+++ b/" <+> line)) ≡ path =
        ap strip (drop_text-append "+++ b/" line) ∙ strip-trimmed path blanks k l in
      rw (other, h, starts_with-append "+++ b/" line, same) refl

  -- A path in quotes is passed over.
  pub scan-target_quoted :
      (st : Scan digit_value) (rest : String)
      → st.in_hunk ≡ false
      → scan_line digit_value st ("+++ \"b/" <+> rest) ≡ some st
  unfolding scan_line starts_with
  scan-target_quoted st rest h =
      let line = "+++ \"b/" <+> rest in
      let first_chars : line
          ≡ String.◌∷◌ "+"
              (String.◌∷◌ "+" (String.◌∷◌ "+" (String.◌∷◌ " " (String.◌∷◌ "\"" ("b/" <+> rest))))) =
        cons-append "+" "++ \"b/" rest
        ∙ ap (λ t. String.◌∷◌ "+" t)
            (cons-append "+" "+ \"b/" rest
              ∙ ap (λ t. String.◌∷◌ "+" t)
                  (cons-append "+" " \"b/" rest
                    ∙ ap (λ t. String.◌∷◌ "+" t)
                        (cons-append " " "\"b/" rest
                          ∙ ap (λ t. String.◌∷◌ " " t) (cons-append "\"" "b/" rest)))) in
      let begins = λ (p : String). ap (starts_with p) first_chars in
      let other : starts_with "diff --git " line ≡ false = begins "diff --git " in
      let no_path : starts_with "+++ b/" line ≡ false = begins "+++ b/" in
      let no_header : starts_with "@@" line ≡ false = begins "@@" in
      rw (other, h, no_path, no_header) refl
