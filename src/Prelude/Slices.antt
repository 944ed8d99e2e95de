-- ===== src/Prelude/Slices.antt =====
-- `s[:n]` and `s[n:]`: their lengths, and that they make up the text.
use Prim.Native.Nat.{ℕ, zero, suc, ◌-◌, min}
use Prim.Native.String.{String}
use text.Mathlib.TextLemmas.{nil-append, cons-append, length-cons, length-nil}
use mathlib.Core.Path.{◌≡◌, ap, ◌∙◌}
use native.Mathlib.Omega.{arith}
use fuko_pr.Prelude.Text.{◌<+>◌, take_text, drop_text, text_length}

pub length-take_text : (n : ℕ) (s : String) → text_length (take_text n s) ≡ min n (text_length s)
unfolding take_text
length-take_text zero s = omega (arith, length-nil)
length-take_text (suc n) String.[] = omega (arith, length-nil)
length-take_text (suc n) (String.◌∷◌ c s) =
    omega (arith, length-cons c (take_text n s), length-cons c s, length-take_text n s)

pub length-drop_text : (n : ℕ) (s : String) → text_length (drop_text n s) ≡ text_length s - n
unfolding drop_text
length-drop_text zero s = omega arith
length-drop_text (suc n) String.[] = omega (arith, length-nil)
length-drop_text (suc n) (String.◌∷◌ c s) = omega (arith, length-cons c s, length-drop_text n s)

pub take-drop : (n : ℕ) (s : String) → take_text n s <+> drop_text n s ≡ s
unfolding take_text drop_text
take-drop zero s = nil-append s
take-drop (suc n) String.[] = nil-append ""
take-drop (suc n) (String.◌∷◌ c s) =
    cons-append c (take_text n s) (drop_text n s) ∙ ap (λ t. String.◌∷◌ c t) (take-drop n s)
