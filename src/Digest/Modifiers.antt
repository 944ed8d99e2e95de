-- ===== src/Digest/Modifiers.antt =====
-- The fuel of `after_modifiers` is enough: no modifier is left (`_DECL_RE` of sidecar/digest.py).
use fuko_pr.Prelude.{
  ℕ, zero, suc, ◌+◌, ◌≤◌, ◌<◌, String, ◌≡◌, refl, subst, Bool, Option, none, some, List, [], ◌∷◌,
  arith, inl, inr, if-both, Bool-cases, Option-cases, ◌==◌, nat_eq, starts_with, drop_text,
  length-drop_text, text_length,
}
use Prim.Native.Char.{code}
use text.Mathlib.TextLemmas.{length-cons, length-nil}
use fuko_pr.Digest.Scan.{
  is_blank, front_of, after_blanks, after_parenthesis, after_modifier, modifiers, word_of,
  after_words, after_modifiers,
}

front_of-length :
    (p : ℕ → Bool) (s : String)
    → text_length (front_of p s).0 + text_length (front_of p s).1 ≡ text_length s
unfolding front_of
front_of-length p String.[] = refl
front_of-length p (String.◌∷◌ c s) =
    let ih = front_of-length p s in
    elim (Bool-cases (p (code c))) [
      | inl one ↦ rw one (omega (arith, ih, length-cons c s, length-cons c (front_of p s).0))
      | inr left ↦ rw left (omega (arith, length-nil))
    ]

-- What is found, if anything is, measures less.
abbrev Below : {A : Type 0} → (A → ℕ) → ℕ → Option A → Type 0
Below size n none = Unit
Below size n (some a) = size a < n

Below-weaker :
    {A : Type 0} (size : A → ℕ) (m n : ℕ) (o : Option A) → m ≤ n → Below size m o → Below size n o
Below-weaker size m n none le h = tt
Below-weaker size m n (some a) le h = omega (arith, le, h)

after_blanks-Below : (s : String) → Below text_length (text_length s) (after_blanks s)
unfolding after_blanks
after_blanks-Below s =
    let whole = front_of-length is_blank s in
    if-both (Below text_length (text_length s)) (text_length (front_of is_blank s).0 == 0) none
      (some (front_of is_blank s).1) (λ empty. tt) (λ full. ground (arith, whole, full))

after_parenthesis-Below : (s : String) → Below text_length (text_length s) (after_parenthesis s)
unfolding after_parenthesis
after_parenthesis-Below String.[] = tt
after_parenthesis-Below (String.◌∷◌ c s) =
    let longer = length-cons c s in
    let rest =
      Below-weaker text_length (text_length s) (text_length (String.◌∷◌ c s)) (after_parenthesis s)
        (omega (arith, longer)) (after_parenthesis-Below s) in
    let below = Below text_length (text_length (String.◌∷◌ c s)) in
    if-both below (code c == 10) none _ (λ ends. tt)
      (λ goes.
        if-both below (code c == 41) (some s) (after_parenthesis s)
          (λ closes. omega (arith, longer)) (λ within. rest))

after_modifier-Below : (s : String) → Below text_length (text_length s) (after_modifier s)
unfolding after_modifier
after_modifier-Below String.[] = tt
after_modifier-Below (String.◌∷◌ c s) =
    let longer = length-cons c s in
    let within = after_parenthesis-Below s in
    let below = Below text_length (text_length (String.◌∷◌ c s)) in
    if-both below (code c == 40) _ (after_blanks (String.◌∷◌ c s))
      (λ opens. elim (Option-cases (after_parenthesis s)) [
        | inl unclosed ↦ rw unclosed tt
        | inr (rest, closed) ↦
            let shorter = rw closed at within in
            rw closed (
              Below-weaker text_length (text_length rest) _ (after_blanks rest)
                (omega (arith, longer, shorter)) (after_blanks-Below rest))
      ])
      (λ plain. after_blanks-Below (String.◌∷◌ c s))

word_of-Below :
    (ending : String → Option String)
    → ((s : String) → Below text_length (text_length s) (ending s))
    → (ws : List String) (s : String)
    → Below (λ found. text_length found.1) (text_length s) (word_of ending ws s)
unfolding word_of
word_of-Below ending h [] s = tt
word_of-Below ending h (w ∷ ws) s =
    let later = word_of-Below ending h ws s in
    let after = drop_text (text_length w) s in
    let ends = h after in
    if-both (Below (λ found. text_length found.1) (text_length s)) (starts_with w s) _
      (word_of ending ws s)
      (λ here. elim (Option-cases (ending after)) [
        | inl unended ↦ rw unended later
        | inr (rest, ended) ↦
            let shorter = rw ended at ends in
            rw ended (omega (arith, shorter, length-drop_text (text_length w) s))
      ])
      (λ elsewhere. later)

word_of-empty :
    (ending : String → Option String)
    → ((s : String) → Below text_length (text_length s) (ending s))
    → (ws : List String) (s : String) → text_length s ≤ 0
    → word_of ending ws s ≡ none
word_of-empty ending h ws s empty =
    let below = word_of-Below ending h ws s in
    elim (Option-cases (word_of ending ws s)) [
      | inl absent ↦ absent
      | inr (found, present) ↦
          let shorter = subst (Below (λ f. text_length f.1) (text_length s)) present below in
          absurd (omega (arith, empty, shorter))
    ]

after_words_end :
    (ending : String → Option String)
    → ((s : String) → Below text_length (text_length s) (ending s))
    → (ws : List String) (fuel : ℕ) (s : String) → text_length s ≤ fuel
    → word_of ending ws (after_words ending ws fuel s) ≡ none
unfolding after_words
after_words_end ending h ws zero s short = word_of-empty ending h ws s short
after_words_end ending h ws (suc fuel) s short =
    let below = word_of-Below ending h ws s in
    elim (Option-cases (word_of ending ws s)) [
      | inl absent ↦ rw (absent, after_words) absent
      | inr (found, present) ↦
          let shorter = subst (Below (λ f. text_length f.1) (text_length s)) present below in
          rw (present, after_words)
            (after_words_end ending h ws fuel found.1 (omega (arith, short, shorter)))
    ]

-- No modifier stands in front of what follows the modifiers.
pub word_of-after_modifiers :
    (s : String) → word_of after_modifier modifiers (after_modifiers s) ≡ none
unfolding after_modifiers
word_of-after_modifiers s =
    after_words_end after_modifier after_modifier-Below modifiers (text_length s) s (omega arith)
