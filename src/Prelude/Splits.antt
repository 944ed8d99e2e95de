-- ===== src/Prelude/Splits.antt =====
-- A text split at a mark, and joined again.
use Prim.Native.Nat.{ℕ}
use Prim.Native.Char.{Char, code}
use Prim.Native.String.{String}
use text.Mathlib.TextLemmas.{nil-append, cons-append}
use text.Mathlib.TextEquality.{Char-path}
use mathlib.Core.Path.{◌≡◌, refl, sym, ap, ◌∙◌}
use mathlib.Core.Logic.{inl, inr}
use mathlib.Core.Bool.{true, false}
use mathlib.Core.List.{List, [], ◌∷◌}
use native.Mathlib.Omega.{arith}
use fuko_pr.Prelude.Tests.{◌==◌, ==_refl, ==_iff, nat_eq, Bool-cases}
use fuko_pr.Prelude.Text.{◌<+>◌}
use fuko_pr.Prelude.Lines.{put_front, split_on}
use fuko_pr.Prelude.Prefixes.{free_of}

-- `mark.join(parts)`
unfoldable pub join_on : Char → List String → String
join_on m [] = ""
join_on m (p ∷ []) = p
join_on m (p ∷ q ∷ ps) = p <+> String.◌∷◌ m (join_on m (q ∷ ps))

join_on-put_front :
    (m c : Char) (ps : List String) → join_on m (put_front c ps) ≡ String.◌∷◌ c (join_on m ps)
unfolding join_on
join_on-put_front m c [] = refl
join_on-put_front m c (p ∷ []) = refl
join_on-put_front m c (p ∷ q ∷ ps) = cons-append c p _

split_on-full :
    (sep : ℕ) (s : String) → (p : String) × (ps : List String) × (split_on sep s ≡ p ∷ ps)
unfolding split_on
split_on-full sep String.[] = ("", [], refl)
split_on-full sep (String.◌∷◌ c s) =
    let (p, ps, e) = split_on-full sep s in
    elim (Bool-cases (code c == sep)) [
      | inl here ↦ ("", p ∷ ps, rw (here, e) refl)
      | inr other ↦ (String.◌∷◌ c p, ps, rw (other, e) refl)
    ]

pub join_on-split_on : (m : Char) (s : String) → join_on m (split_on (code m) s) ≡ s
unfolding split_on join_on
join_on-split_on m String.[] = refl
join_on-split_on m (String.◌∷◌ c s) =
    let ih = join_on-split_on m s in
    elim (Bool-cases (code c == code m)) [
      | inl here ↦
          let (p, ps, e) = split_on-full (code m) s in
          let same : c ≡ m = Char-path c m ((==_iff (code c) (code m)).0 here) in
          rw (here, e)
            (nil-append _
              ∙ ap (λ t. String.◌∷◌ m t) (ap (join_on m) (sym e) ∙ ih)
              ∙ ap (λ d. String.◌∷◌ d s) (sym same))
      | inr other ↦
          rw other (join_on-put_front m c (split_on (code m) s) ∙ ap (λ t. String.◌∷◌ c t) ih)
    ]

pub split_on-free_of :
    (sep : ℕ) (s : String) → free_of (λ c. c == sep) s ≡ true → split_on sep s ≡ s ∷ []
unfolding split_on free_of
split_on-free_of sep String.[] h = refl
split_on-free_of sep (String.◌∷◌ c s) h =
    let other : code c == sep ≡ false = ground (arith, h) in
    let ih = split_on-free_of sep s (ground (arith, h)) in rw (other, ih) refl

pub split_on-append :
    (m : Char) (p s : String)
    → free_of (λ c. c == code m) p ≡ true
    → split_on (code m) (p <+> String.◌∷◌ m s) ≡ p ∷ split_on (code m) s
unfolding split_on free_of
split_on-append m String.[] s h = rw (nil-append (String.◌∷◌ m s), ==_refl (code m)) refl
split_on-append m (String.◌∷◌ c p) s h =
    let other : code c == code m ≡ false = ground (arith, h) in
    let ih = split_on-append m p s (ground (arith, h)) in
    rw (cons-append c p (String.◌∷◌ m s), other, ih) refl
