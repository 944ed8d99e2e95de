-- ===== src/Capture/Cells.antt =====
-- The lines that sidecar/reviewer/transcript.py scrubs, with a note of what stood in the feed and what
-- was put in: the characters of a scrubbed line, each kept or inserted.
use fuko_pr.Prelude.{
  ℕ, zero, suc, ◌-◌, String, ◌<+>◌, ◌≡◌, refl, sym, ap, ◌∙◌, Bool, true, false, List, [], ◌∷◌, ◌++◌,
  nat_eq, starts_with, text_length, if◌then◌else◌, Bool-cases, inl, inr,
}
use text.Mathlib.TextLemmas.{nil-append, cons-append}
use Prim.Native.Char.{Char}
use fuko_pr.Capture.Scrub.{occurs, replace_from, replace_known, scrub}

pub record Cell : Type 0 where
  pub is_kept : Bool
  pub char : Char

unfoldable pub erase : List Cell → String
erase [] = ""
erase (x ∷ xs) = String.◌∷◌ x.char (erase xs)

-- A text whose characters are all kept, or all inserted.
unfoldable pub marked : Bool → String → List Cell
marked b String.[] = []
marked b (String.◌∷◌ c s) = record { is_kept = b; char = c } ∷ marked b s

unfoldable pub redact_from : String → String → ℕ → List Cell → List Cell
unfolding starts_with erase marked
redact_from needle marker skip [] = []
redact_from needle marker (suc skip) (x ∷ xs) = redact_from needle marker skip xs
redact_from needle marker zero (x ∷ xs) =
    let hit = marked false marker ++ redact_from needle marker (text_length needle - 1) xs in
    let miss = x ∷ redact_from needle marker zero xs in
    if starts_with needle (erase (x ∷ xs)) then hit else miss

unfoldable pub redact_known : String × String → List Cell → List Cell
unfolding occurs redact_from
redact_known (needle, marker) xs =
    if occurs needle (erase xs) then redact_from needle marker 0 xs else xs

unfoldable pub redact : List (String × String) → List Cell → List Cell
unfolding redact_known
redact [] xs = xs
redact (r ∷ replacements) xs = redact replacements (redact_known r xs)

erase-marked : (b : Bool) (s : String) (xs : List Cell) → erase (marked b s ++ xs) ≡ s <+> erase xs
unfolding erase marked
erase-marked b String.[] xs = sym (nil-append (erase xs))
erase-marked b (String.◌∷◌ c s) xs =
    ap (λ t. String.◌∷◌ c t) (erase-marked b s xs) ∙ sym (cons-append c s (erase xs))

erase-marked_self : (b : Bool) (s : String) → erase (marked b s) ≡ s
unfolding erase marked
erase-marked_self b String.[] = refl
erase-marked_self b (String.◌∷◌ c s) = ap (λ t. String.◌∷◌ c t) (erase-marked_self b s)

erase-redact_from :
    (needle marker : String) (skip : ℕ) (xs : List Cell)
    → erase (redact_from needle marker skip xs) ≡ replace_from needle marker skip (erase xs)
unfolding erase redact_from replace_from
erase-redact_from needle marker zero [] = refl
erase-redact_from needle marker (suc skip) [] = refl
erase-redact_from needle marker (suc skip) (x ∷ xs) = erase-redact_from needle marker skip xs
erase-redact_from needle marker zero (x ∷ xs) =
    elim (Bool-cases (starts_with needle (String.◌∷◌ x.char (erase xs)))) [
      | inl hit ↦ rw hit (
          erase-marked false marker (redact_from needle marker (text_length needle - 1) xs)
          ∙ ap (λ t. marker <+> t) (erase-redact_from needle marker (text_length needle - 1) xs))
      | inr miss ↦ rw miss (ap (λ t. String.◌∷◌ x.char t) (erase-redact_from needle marker zero xs))
    ]

erase-redact_known :
    (r : String × String) (xs : List Cell) → erase (redact_known r xs) ≡ replace_known r (erase xs)
unfolding redact_known replace_known
erase-redact_known (needle, marker) xs = elim (Bool-cases (occurs needle (erase xs))) [
  | inl found ↦ rw found (erase-redact_from needle marker 0 xs)
  | inr absent ↦ rw absent refl
]

erase-redact :
    (replacements : List (String × String)) (xs : List Cell)
    → erase (redact replacements xs) ≡ scrub replacements (erase xs)
unfolding redact scrub
erase-redact [] xs = refl
erase-redact (r ∷ replacements) xs =
    erase-redact replacements (redact_known r xs)
    ∙ ap (scrub replacements) (erase-redact_known r xs)

-- The cells of a scrubbed line are those of its characters.
pub scrub-erase :
    (replacements : List (String × String)) (text : String)
    → scrub replacements text ≡ erase (redact replacements (marked true text))
scrub-erase replacements text = sym (
    erase-redact replacements (marked true text)
    ∙ ap (scrub replacements) (erase-marked_self true text))
