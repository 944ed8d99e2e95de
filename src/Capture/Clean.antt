-- ===== src/Capture/Clean.antt =====
-- No credential value is left of the feed in a scrubbed line (sidecar/reviewer/transcript.py).
use fuko_pr.Prelude.{
  ℕ, zero, suc, ◌-◌, String, ◌≡◌, ◌≢◌, refl, sym, ap, ◌∙◌, Bool, true, false, ◌&&◌, ◌||◌, List, [],
  ◌∷◌, ◌++◌, arith, ◌==◌, ==_iff, nat_eq, text_eq, starts_with, text_length, Bool-cases, inl, inr,
  any, All,
}
use Prim.Native.Char.{Char, code}
use fuko_pr.Capture.Scrub.{occurs}
use fuko_pr.Capture.Cells.{Cell, erase, marked, redact_from, redact_known, redact}

-- The text stands at the front, all of it kept.
unfoldable pub kept_front : String → List Cell → Bool
kept_front String.[] xs = true
kept_front (String.◌∷◌ c s) [] = false
kept_front (String.◌∷◌ c s) (x ∷ xs) = x.is_kept && ((code c == code x.char) && kept_front s xs)

-- The text stands somewhere, all of it kept.
unfoldable pub is_left : String → List Cell → Bool
unfolding kept_front
is_left s [] = false
is_left s (x ∷ xs) = kept_front s (x ∷ xs) || is_left s xs

front-erase :
    (s : String) (xs : List Cell) → kept_front s xs ≡ true → starts_with s (erase xs) ≡ true
unfolding kept_front starts_with erase
front-erase String.[] xs h = refl
front-erase (String.◌∷◌ c s) [] h = cc
front-erase (String.◌∷◌ c s) (x ∷ xs) h = ground (arith, h, front-erase s xs)

-- What is kept at the front of the result was kept there before.
front-redact_from :
    (needle : String) (d : Char) (m s : String) (xs : List Cell)
    → kept_front s (redact_from needle (String.◌∷◌ d m) 0 xs) ≡ true
    → kept_front s xs ≡ true
unfolding kept_front redact_from marked
front-redact_from needle d m String.[] xs h = refl
front-redact_from needle d m (String.◌∷◌ c s) [] h = h
front-redact_from needle d m (String.◌∷◌ c s) (x ∷ xs) h =
    elim (Bool-cases (starts_with needle (erase (x ∷ xs)))) [
      | inl hit ↦ cc (rw hit at h)
      | inr miss ↦
          let still = rw miss at h in ground (arith, still, front-redact_from needle d m s xs)
    ]

-- Cells that are put in hold no text that is kept.
left-marked :
    (c : Char) (s m : String) (xs : List Cell)
    → is_left (String.◌∷◌ c s) (marked false m ++ xs) ≡ is_left (String.◌∷◌ c s) xs
unfolding is_left marked
left-marked c s String.[] xs = refl
left-marked c s (String.◌∷◌ d m) xs = left-marked c s m xs

-- A pass over one needle leaves none of it.
left-redact_from :
    (c d : Char) (s m : String) (skip : ℕ) (xs : List Cell)
    → is_left (String.◌∷◌ c s) (redact_from (String.◌∷◌ c s) (String.◌∷◌ d m) skip xs) ≡ false
unfolding is_left redact_from starts_with erase
left-redact_from c d s m zero [] = refl
left-redact_from c d s m (suc skip) [] = refl
left-redact_from c d s m (suc skip) (x ∷ xs) = left-redact_from c d s m skip xs
left-redact_from c d s m zero (x ∷ xs) =
    let needle = String.◌∷◌ c s in
    elim (Bool-cases (starts_with needle (erase (x ∷ xs)))) [
      | inl hit ↦ rw hit (
          left-marked c s (String.◌∷◌ d m) _ ∙ left-redact_from c d s m (text_length needle - 1) xs)
      | inr miss ↦ rw miss (
          ground (
            arith,
            miss,
            front-redact_from needle d m s xs,
            front-erase s xs,
            left-redact_from c d s m zero xs,
          ))
    ]

-- A pass over a needle leaves no more of another text than there was.
left-redact_other :
    (c d : Char) (s needle m : String) (skip : ℕ) (xs : List Cell)
    → is_left (String.◌∷◌ c s) xs ≡ false
    → is_left (String.◌∷◌ c s) (redact_from needle (String.◌∷◌ d m) skip xs) ≡ false
unfolding is_left redact_from
left-redact_other c d s needle m zero [] h = refl
left-redact_other c d s needle m (suc skip) [] h = refl
left-redact_other c d s needle m (suc skip) (x ∷ xs) h =
    left-redact_other c d s needle m skip xs (ground (arith, h))
left-redact_other c d s needle m zero (x ∷ xs) h =
    elim (Bool-cases (starts_with needle (erase (x ∷ xs)))) [
      | inl hit ↦ rw hit (
          left-marked c s (String.◌∷◌ d m) _
          ∙ left-redact_other c d s needle m (text_length needle - 1) xs (ground (arith, h)))
      | inr miss ↦ rw miss (
          ground
            (arith, h, front-redact_from needle d m s xs, left-redact_other c d s needle m zero xs))
    ]

occurs-left :
    (c : Char) (s : String) (xs : List Cell)
    → occurs (String.◌∷◌ c s) (erase xs) ≡ false
    → is_left (String.◌∷◌ c s) xs ≡ false
unfolding is_left occurs erase
occurs-left c s [] h = refl
occurs-left c s (x ∷ xs) h =
    ground (arith, h, front-erase (String.◌∷◌ c s) (x ∷ xs), occurs-left c s xs)

-- A replacement of the scrubber: a needle and a marker, neither of them empty.
abbrev pub IsRule : String × String → Type 0
IsRule r = (r.0 ≢ "") × (r.1 ≢ "")

left-redact_known :
    (needle marker : String) (xs : List Cell)
    → needle ≢ ""
    → marker ≢ ""
    → is_left needle (redact_known (needle, marker) xs) ≡ false
unfolding redact_known
left-redact_known String.[] marker xs h k = absurd (h refl)
left-redact_known (String.◌∷◌ c s) String.[] xs h k = absurd (k refl)
left-redact_known (String.◌∷◌ c s) (String.◌∷◌ d m) xs h k =
    elim (Bool-cases (occurs (String.◌∷◌ c s) (erase xs))) [
      | inl found ↦ rw found (left-redact_from c d s m 0 xs)
      | inr absent ↦ rw absent (occurs-left c s xs absent)
    ]

left-redact_known_other :
    (text needle marker : String) (xs : List Cell)
    → text ≢ ""
    → marker ≢ ""
    → is_left text xs ≡ false
    → is_left text (redact_known (needle, marker) xs) ≡ false
unfolding redact_known
left-redact_known_other String.[] needle marker xs h k e = absurd (h refl)
left-redact_known_other (String.◌∷◌ c s) needle String.[] xs h k e = absurd (k refl)
left-redact_known_other (String.◌∷◌ c s) needle (String.◌∷◌ d m) xs h k e =
    elim (Bool-cases (occurs needle (erase xs))) [
      | inl found ↦ rw found (left-redact_other c d s needle m 0 xs e)
      | inr absent ↦ rw absent e
    ]

left-redact :
    (text : String) (rules : List (String × String)) (xs : List Cell)
    → text ≢ ""
    → All IsRule rules
    → is_left text xs ≡ false
    → is_left text (redact rules xs) ≡ false
unfolding redact
left-redact text [] xs h k e = e
left-redact text ((needle, marker) ∷ rules) xs h k e =
    left-redact text rules (redact_known (needle, marker) xs) h k.1
      (left-redact_known_other text needle marker xs h k.0.1 e)

-- Nothing of a needle is left by a scrubber that has a rule for it.
pub redact-clean :
    (text : String) (rules : List (String × String)) (xs : List Cell)
    → text ≢ ""
    → All IsRule rules
    → any (λ r. r.0 == text) rules ≡ true
    → is_left text (redact rules xs) ≡ false
unfolding redact
redact-clean text [] xs h k e = cc
redact-clean text ((needle, marker) ∷ rules) xs h k e = elim (Bool-cases (needle == text)) [
  | inl same ↦
      let here : is_left text (redact_known (needle, marker) xs) ≡ false =
        ap (λ t. is_left t (redact_known (needle, marker) xs)) (sym ((==_iff needle text).0 same))
        ∙ left-redact_known needle marker xs k.0.0 k.0.1 in
      left-redact text rules (redact_known (needle, marker) xs) h k.1 here
  | inr other ↦
      redact-clean text rules (redact_known (needle, marker) xs) h k.1 (ground (arith, e, other))
]
