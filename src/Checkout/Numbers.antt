-- ===== src/Checkout/Numbers.antt =====
-- The number of a hunk's header is read back as it was written (sidecar/reviewer/checkout.py).
use fuko_pr.Prelude.{
  count_digits, read_digits, read-decimal_digits, read_end, decimal_digits-trailer, count-decimal,
  free_of, free_of-append, starts_with-append, drop_text-append, ℕ, suc, ◌+◌, ◌≤◌, ◌<◌, String,
  ◌<+>◌, ◌≡◌, refl, ap, ◌∙◌, true, false, Option, some, arith, ltb, ◌==◌, nat_eq, decimal,
}
use Prim.Native.Char.{code}
use text.Mathlib.TextLemmas.{nil-append, cons-append}
use fuko_pr.Checkout.Diff.{int_of_digits, after_plus, hunk_digits}
use fuko_pr.Checkout.Unified.{is_plus, Hunk, header_of, IsHunk}

module _ (digit_value : ℕ → Option ℕ)
    (ascii : (d : ℕ) → d < 10 → digit_value (48 + d) ≡ some d) where
  skip-free_of :
      (p s : String)
      → free_of is_plus p ≡ true
      → after_plus digit_value (p <+> s) ≡ after_plus digit_value s
  unfolding free_of after_plus
  skip-free_of String.[] s h = ap (after_plus digit_value) (nil-append s)
  skip-free_of (String.◌∷◌ c p) s h =
      let other : code c == 43 ≡ false = ground (arith, h) in
      rw (cons-append c p s, other) (skip-free_of p s (ground (arith, h)))

  after_plus_here :
      (s : String)
      → 1 ≤ count_digits digit_value s
      → after_plus digit_value (String.◌∷◌ "+" s) ≡ some s
  unfolding after_plus
  after_plus_here s h = ground (arith, h)

  pub hunk_number :
      (h : Hunk)
      → IsHunk digit_value h
      → (digits : String) × (hunk_digits digit_value (header_of h) ≡ some digits)
        × (int_of_digits digit_value digits ≡ some h.first)
  unfolding hunk_digits int_of_digits header_of free_of
  hunk_number h k =
      let digits = decimal h.first <+> h.trailer in
      let before = "-" <+> (h.old <+> " ") in
      let counted = count-decimal digit_value ascii h.first h.trailer k.number_ends in
      let within : ltb 4300 (count_digits digit_value digits) ≡ false =
        ground (arith, counted.0, k.number_short) in
      let read : read_digits digit_value 0 digits ≡ h.first =
        ap (read_digits digit_value 0) (decimal_digits-trailer digit_value ascii h.first h.trailer)
        ∙ read-decimal_digits digit_value ascii (suc h.first) h.first h.trailer (omega arith)
        ∙ read_end digit_value ascii h.first h.trailer k.number_ends in
      let no_plus : free_of is_plus before ≡ true =
        free_of-append is_plus "-" (h.old <+> " ") refl
          (free_of-append is_plus h.old " " k.old_range refl) in
      (
        digits,
        rw (starts_with-append "@@ " (before <+> String.◌∷◌ "+" digits)) (
            ap (after_plus digit_value) (drop_text-append "@@ " (before <+> String.◌∷◌ "+" digits))
            ∙ skip-free_of before (String.◌∷◌ "+" digits) no_plus
            ∙ after_plus_here digits counted.1),
        rw within (ap (λ n. some n) read),
      )
