-- ===== src/Prelude/Prefixes.antt =====
-- A text in front of another.
use Prim.Native.Char.{Char, code}
use Prim.Native.String.{String}
use text.Mathlib.TextLemmas.{nil-append, cons-append, length-cons, cons≢nil}
use mathlib.Core.Path.{◌≡◌, refl, sym, ap, ◌∙◌}
use text.Mathlib.TextEquality.{Char-path}
use mathlib.Core.Bool.{Bool, true, false, not, ◌&&◌}
use native.Mathlib.Omega.{arith}
use Prim.Native.Nat.{ℕ}
use fuko_pr.Prelude.Tests.{◌==◌, ==_refl, ==_iff, nat_eq, text_eq, Bool-cases}
use mathlib.Core.Logic.{inl, inr}
use fuko_pr.Prelude.Text.{◌<+>◌, starts_with, drop_text, text_length}

pub starts_with-append : (p s : String) → starts_with p (p <+> s) ≡ true
unfolding starts_with
starts_with-append String.[] s = refl
starts_with-append (String.◌∷◌ c p) s =
    rw (cons-append c p s, ==_refl (code c)) (starts_with-append p s)

pub drop_text-append : (p s : String) → drop_text (text_length p) (p <+> s) ≡ s
unfolding drop_text
drop_text-append String.[] s = nil-append s
drop_text-append (String.◌∷◌ c p) s = rw (length-cons c p, cons-append c p s) (drop_text-append p s)

pub cons_full : (c : Char) (s : String) → (String.◌∷◌ c s == "") ≡ false
cons_full c s = elim (Bool-cases (String.◌∷◌ c s == "")) [
  | inl empty ↦ absurd (cons≢nil ((==_iff (String.◌∷◌ c s) "").0 empty))
  | inr full ↦ full
]

-- No character of the text passes the test.
unfoldable pub free_of : (ℕ → Bool) → String → Bool
free_of p String.[] = true
free_of p (String.◌∷◌ c s) = not (p (code c)) && free_of p s

pub free_of-append :
    (p : ℕ → Bool) (s t : String)
    → free_of p s ≡ true
    → free_of p t ≡ true
    → free_of p (s <+> t) ≡ true
unfolding free_of
free_of-append p String.[] t h k = ap (free_of p) (nil-append t) ∙ k
free_of-append p (String.◌∷◌ c s) t h k =
    rw (cons-append c s t) (ground (arith, h, free_of-append p s t))

-- Every character of the text passes the test.
unfoldable pub all_chars : (ℕ → Bool) → String → Bool
all_chars p String.[] = true
all_chars p (String.◌∷◌ c s) = p (code c) && all_chars p s

pub all_chars-append :
    (p : ℕ → Bool) (s t : String) → all_chars p (s <+> t) ≡ (all_chars p s && all_chars p t)
unfolding all_chars
all_chars-append p String.[] t = ap (all_chars p) (nil-append t)
all_chars-append p (String.◌∷◌ c s) t =
    rw (cons-append c s t) (ground (arith, all_chars-append p s t))

pub all_chars_mono :
    (p q : ℕ → Bool) (s : String)
    → ((n : ℕ) → p n ≡ true → q n ≡ true)
    → all_chars p s ≡ true
    → all_chars q s ≡ true
unfolding all_chars
all_chars_mono p q String.[] h k = refl
all_chars_mono p q (String.◌∷◌ c s) h k =
    let first = h (code c) in let rest = all_chars_mono p q s h in ground (arith, k, first, rest)

pub free_of-all_chars :
    (p q : ℕ → Bool) (s : String)
    → ((n : ℕ) → p n ≡ true → q n ≡ false)
    → all_chars p s ≡ true
    → free_of q s ≡ true
unfolding all_chars free_of
free_of-all_chars p q String.[] h k = refl
free_of-all_chars p q (String.◌∷◌ c s) h k =
    let first = h (code c) in let rest = free_of-all_chars p q s h in ground (arith, k, first, rest)

pub starts_with-front : (p s : String) → starts_with p s ≡ true → (rest : String) × (s ≡ p <+> rest)
unfolding starts_with
starts_with-front String.[] s h = (s, sym (nil-append s))
starts_with-front (String.◌∷◌ c p) String.[] h = cc
starts_with-front (String.◌∷◌ c p) (String.◌∷◌ d s) h =
    let (rest, e) = starts_with-front p s (ground (arith, h)) in
    let same : c ≡ d = Char-path c d ((==_iff (code c) (code d)).0 (ground (arith, h))) in
    (
      rest,
      ap (λ x. String.◌∷◌ x s) (sym same) ∙ ap (λ t. String.◌∷◌ c t) e ∙ sym (cons-append c p rest),
    )
