-- ===== src/Checkout/Truncation.antt =====
-- Where `fetch_pr_context` of sidecar/reviewer/checkout.py cuts a diff that is over its budget.
use fuko_pr.Prelude.{
  length-take_text, ℕ, zero, suc, ◌+◌, ◌-◌, ◌≤◌, ◌<◌, String, ◌≡◌, ◌⊎◌, refl, sym, ◌∙◌, true, ◌&&◌,
  Option, none, some, arith, ltb, leb, starts_with, take_text, drop_text, text_length, Bool-cases,
  Option-cases, inl, inr,
}
use text.Mathlib.TextLemmas.{length-cons, length-nil}
use mathlib.Core.Option
use fuko_pr.Checkout.Context.{rfind, or_else, cut_at, cut_diff}

-- The text has `sub` at the position.
abbrev pub Stands : String → String → ℕ → Type 0
Stands sub s i = starts_with sub (drop_text i s) ≡ true

rfind_sound :
    (sub s : String) (end i : ℕ)
    → 1 ≤ text_length sub
    → rfind sub s end ≡ some i
    → Stands sub s i × (i + text_length sub ≤ end)
unfolding rfind drop_text
rfind_sound sub String.[] end i h e = cc
rfind_sound sub (String.◌∷◌ c s) end i h e = elim (Option-cases (rfind sub s (end - 1))) [
  | inl none_later ↦
      elim (Bool-cases (starts_with sub (String.◌∷◌ c s) && leb (text_length sub) end)) [
        | inl here ↦
            let same : ◌≡◌ {A = ℕ} 0 i = Option.some-injective _ _ (rw (none_later, here) at e) in
            rw (← same) (ground (arith, here), ground (arith, here))
        | inr absent ↦ cc (rw (none_later, absent) at e)
      ]
  | inr (j, later) ↦
      let same : suc j ≡ i = Option.some-injective _ _ (rw later at e) in
      let ih = rfind_sound sub s (end - 1) j h later in rw (← same) (ih.0, omega (arith, ih.1, h))
]

nothing-Stands : (sub : String) (j : ℕ) → 1 ≤ text_length sub → ¬ Stands sub "" j
unfolding starts_with drop_text
nothing-Stands String.[] j h e = omega (arith, h, length-nil)
nothing-Stands (String.◌∷◌ c sub) zero h e = cc
nothing-Stands (String.◌∷◌ c sub) (suc j) h e = cc

rfind-last :
    (sub s : String) (end j : ℕ)
    → Stands sub s j
    → j + text_length sub ≤ end
    → 1 ≤ text_length sub
    → (i : ℕ) × (rfind sub s end ≡ some i) × (j ≤ i)
unfolding rfind drop_text
rfind-last sub String.[] end j h k e = absurd (nothing-Stands sub j e h)
rfind-last sub (String.◌∷◌ c s) end zero h k e = elim (Option-cases (rfind sub s (end - 1))) [
  | inl none_later ↦ (0, rw none_later (ground (arith, h, k)), omega arith)
  | inr (i, later) ↦ (suc i, rw later refl, omega arith)
]
rfind-last sub (String.◌∷◌ c s) end (suc j) h k e =
    let (i, later, le) = rfind-last sub s (end - 1) j h (omega (arith, k)) e in
    (suc i, rw later refl, omega (arith, le))

Stands-lt : (sub s : String) (i : ℕ) → 1 ≤ text_length sub → Stands sub s i → i < text_length s
unfolding drop_text
Stands-lt sub String.[] i h e = absurd (nothing-Stands sub i h e)
Stands-lt sub (String.◌∷◌ c s) zero h e = omega (arith, length-cons c s)
Stands-lt sub (String.◌∷◌ c s) (suc i) h e = omega (arith, length-cons c s, Stands-lt sub s i h e)

-- The last place of `sub` that ends within the budget, if there is one above 0.
abbrev pub IsLast : String → String → ℕ → ℕ → Type 0
IsLast sub s budget n =
    Stands sub s n
    × (n + text_length sub ≤ budget)
    × ((j : ℕ) → Stands sub s j → j + text_length sub ≤ budget → j ≤ n)

abbrev pub NoneAbove : String → String → ℕ → Type 0
NoneAbove sub s budget = (j : ℕ) → Stands sub s j → j + text_length sub ≤ budget → j ≡ 0

-- What is found is the last place.
rfind-IsLast :
    (sub s : String) (budget i j : ℕ)
    → 1 ≤ text_length sub
    → rfind sub s budget ≡ some i
    → Stands sub s j
    → j + text_length sub ≤ budget
    → j ≤ i
rfind-IsLast sub s budget i j h e at k =
    let (i', found, le) = rfind-last sub s budget j at k h in
    let same : i' ≡ i = Option.some-injective _ _ (sym found ∙ e) in omega (arith, same, le)

or_else-cases :
    (sub s : String) (budget n : ℕ)
    → 1 ≤ text_length sub
    → (found : Option ℕ) → rfind sub s budget ≡ found
    → ((1 ≤ or_else found n) × IsLast sub s budget (or_else found n))
      ⊎ (NoneAbove sub s budget × (or_else found n ≡ n))
or_else-cases sub s budget n h none e =
    inr
      (λ j at k. let (i, found, le) = rfind-last sub s budget j at k h in cc (sym found ∙ e), refl)
or_else-cases sub s budget n h (some zero) e =
    inr (λ j at k. omega (arith, rfind-IsLast sub s budget 0 j h e at k), refl)
or_else-cases sub s budget n h (some (suc i)) e =
    let (at, within) = rfind_sound sub s budget (suc i) h e in
    inl (omega arith, (at, within, λ j. rfind-IsLast sub s budget (suc i) j h e))

-- Where a diff is cut.
pub data Cut (diff : String) (budget : ℕ) (n : ℕ) : Type 0 where
  at_file : 1 ≤ n → IsLast "\ndiff --git " diff budget n → Cut diff budget n
  at_line :
      NoneAbove "\ndiff --git " diff budget → 1 ≤ n → IsLast "\n" diff budget n → Cut diff budget n
  at_budget :
      NoneAbove "\ndiff --git " diff budget
      → NoneAbove "\n" diff budget
      → n ≡ budget
      → Cut diff budget n

cut_at-Cut : (diff : String) (budget : ℕ) → Cut diff budget (cut_at diff budget)
unfolding cut_at
cut_at-Cut diff budget =
    let by_line = or_else (rfind "\n" diff budget) budget in
    elim (or_else-cases "\ndiff --git " diff budget by_line (omega arith) _ refl) [
      | inl (above, last) ↦ Cut.at_file above last
      | inr (no_file, next) ↦
          rw next (elim (or_else-cases "\n" diff budget budget (omega arith) _ refl) [
            | inl (above, last) ↦ Cut.at_line no_file above last
            | inr (no_line, next') ↦ Cut.at_budget no_file no_line next'
          ])
    ]

Cut-le : (diff : String) (budget n : ℕ) → Cut diff budget n → n ≤ budget
Cut-le diff budget n (at_file above last) = omega (arith, last.1)
Cut-le diff budget n (at_line no_file above last) = omega (arith, last.1)
Cut-le diff budget n (at_budget no_file no_line same) = omega (arith, same)

-- What a review is given of a diff: the whole of it, if it is within the budget, else its first
-- characters, as many as the budget allows at most: those before the last file that begins within
-- it, else before the last line end within it, else all that the budget allows.
pub cut_diff-Cut :
    (diff : String) (budget : ℕ)
    → ((text_length diff ≤ budget) × (cut_diff diff budget ≡ diff))
      ⊎ ((budget < text_length diff)
          × ((n : ℕ) × Cut diff budget n
              × (cut_diff diff budget ≡ take_text n diff)
              × (text_length (cut_diff diff budget) ≡ n)
              × (n ≤ budget)))
unfolding cut_diff
cut_diff-Cut diff budget = elim (Bool-cases (ltb budget (text_length diff))) [
  | inl over ↦
      let n = cut_at diff budget in
      let cut = cut_at-Cut diff budget in
      let longer : budget < text_length diff = ground (arith, over) in
      inr (
        longer,
        (
          n,
          cut,
          rw over refl,
          rw over (omega (arith, longer, length-take_text n diff, Cut-le diff budget n cut)),
          Cut-le diff budget n cut,
        ),
      )
  | inr within ↦ inl (ground (arith, within), rw within refl)
]
