-- ===== src/Capture/Partial.antt =====
-- What is scrubbed off the end of a line that was cut (`Scrubber.scrub_partial` of
-- sidecar/reviewer/transcript.py).
use fuko_pr.Prelude.{
  ℕ, zero, suc, ◌-◌, ◌≤◌, ◌<◌, min, String, ◌<+>◌, ◌≡◌, ◌⊎◌, refl, sym, subst, ap, ◌∙◌, true, false,
  ◌&&◌, List, [], ◌∷◌, arith, ==_iff, leb, ◌==◌, nat_eq, text_eq, All, take_text, text_length,
  Bool-cases, inl, inr,
}
use fuko_pr.Capture.Scrub.{
  scrub, strip_replacement, ends_with, matched_size, better, best_match, scrub_partial,
}

-- The text ends with the first characters of the needle, so many of them, but not all.
abbrev pub EndsIn : String → String → ℕ → Type 0
EndsIn scanned needle size =
    (4 ≤ size)
    × (size < text_length needle)
    × (size ≤ text_length scanned)
    × (ends_with scanned (take_text size needle) ≡ true)

module _ (scanned needle : String) (best : ℕ) where
  -- A size that is found: none, or one that matches and is above the best before it.
  abbrev pub IsFound : ℕ → ℕ → Type 0
  IsFound size found =
      (found ≡ 0)
      ⊎ ((best < found)
          × (4 ≤ found)
          × (found ≤ size)
          × (ends_with scanned (take_text found needle) ≡ true))

  matched_size-IsFound : (size : ℕ) → IsFound size (matched_size scanned needle best size)
  unfolding matched_size
  matched_size-IsFound zero = inl refl
  matched_size-IsFound (suc size) = elim (Bool-cases (leb (suc size) best)) [
    | inl low ↦ rw low (inl refl)
    | inr high ↦
        let above : best < suc size = ground (arith, high) in
        elim (Bool-cases (leb 4 (suc size) && ends_with scanned (take_text (suc size) needle))) [
          | inl here ↦
              rw (high, here) (inr (above, ground (arith, here), omega arith, ground (arith, here)))
          | inr further ↦
              rw (high, further)
                (elim (matched_size-IsFound size) [
                  | inl none_found ↦ inl none_found
                  | inr (p, q, r, e) ↦ inr (p, q, omega (arith, r), e)
                ])
        ]
  ]

  -- No larger size matches.
  matched_size-last :
      (size k : ℕ)
      → k ≤ size
      → 4 ≤ k
      → best < k
      → ends_with scanned (take_text k needle) ≡ true
      → k ≤ matched_size scanned needle best size
  unfolding matched_size
  matched_size-last zero k h p q e = omega (arith, h, p)
  matched_size-last (suc size) k h p q e =
      let high : leb (suc size) best ≡ false = ground (arith, h, q) in
      elim (Bool-cases (leb 4 (suc size) && ends_with scanned (take_text (suc size) needle))) [
        | inl here ↦ rw (high, here) h
        | inr further ↦ elim (Bool-cases (k == suc size)) [
          | inl same ↦
              let same_size : k ≡ suc size = (==_iff k (suc size)).0 same in
              let here : ends_with scanned (take_text (suc size) needle) ≡ true =
                ap (λ t. ends_with scanned (take_text t needle)) (sym same_size) ∙ e in
              absurd (ground (arith, further, here, same_size, p))
          | inr other ↦
              rw (high, further) (matched_size-last size k (ground (arith, h, other)) p q e)
        ]
      ]

module _ (scanned : String) where
  -- The size and the marker come from one of the rules.
  abbrev pub IsFrom : List (String × String) → ℕ → String → Type 0
  IsFrom [] n marker = ⊥
  IsFrom (r ∷ rules) n marker = ((r.1 ≡ marker) × EndsIn scanned r.0 n) ⊎ IsFrom rules n marker

  -- No rule has a longer match.
  abbrev pub IsLongest : List (String × String) → ℕ → Type 0
  IsLongest rules n = All (λ r. (k : ℕ) → EndsIn scanned r.0 k → k ≤ n) rules

  -- A turn of the loop: no match of the rule is longer, and the best is the one before or its own.
  abbrev IsBetter : ℕ × String → String × String → ℕ × String → Type 0
  IsBetter before r after =
      (before.0 ≤ after.0)
      × ((k : ℕ) → EndsIn scanned r.0 k → k ≤ after.0)
      × ((after ≡ before) ⊎ ((r.1 ≡ after.1) × EndsIn scanned r.0 after.0))

  better-IsBetter :
      (best : ℕ × String) (r : String × String) → IsBetter best r (better scanned best r)
  unfolding better
  better-IsBetter best r =
      let limit = min (text_length scanned) (text_length r.0 - 1) in
      let size = matched_size scanned r.0 best.0 limit in
      let last = λ (k : ℕ) (p : best.0 < k) (m : EndsIn scanned r.0 k).
        matched_size-last scanned r.0 best.0 limit k (omega (arith, m.1, m.2)) m.0 p m.3 in
      elim (Bool-cases (size == 0)) [
        | inl none_found ↦
            let zero_size : size ≡ 0 = ground (arith, none_found) in
            rw none_found (omega arith, λ k m. grind (arith, last k, m.0), inl refl)
        | inr some_found ↦ rw some_found (elim (matched_size-IsFound scanned r.0 best.0 limit) [
          | inl zero_size ↦ absurd (ground (arith, some_found, zero_size))
          | inr (above, enough, within, ends) ↦ (
            omega (arith, above),
            λ k m. grind (arith, last k, above),
            inr (refl, (enough, omega (arith, within, enough), omega (arith, within), ends)),
          )
        ])
      ]

  -- What the loop over the rules makes of the best match before it.
  abbrev IsBest : List (String × String) → ℕ × String → ℕ × String → Type 0
  IsBest rules before after =
      (before.0 ≤ after.0)
      × IsLongest rules after.0
      × ((after ≡ before) ⊎ IsFrom rules after.0 after.1)

  best_match-IsBest :
      (rules : List (String × String)) (best : ℕ × String)
      → IsBest rules best (best_match scanned best rules)
  unfolding best_match
  best_match-IsBest [] best = (omega arith, tt, inl refl)
  best_match-IsBest (r ∷ rules) best =
      let next = better scanned best r in
      let (above, last, turn) = better-IsBetter best r in
      let (above', longest, source) = best_match-IsBest rules next in
      (
        omega (arith, above, above'),
        (λ k m. omega (arith, last k m, above'), longest),
        elim source [
          | inr later ↦ inr (inr later)
          | inl same ↦ elim turn [
            | inl kept ↦ inl (same ∙ kept)
            | inr (marker, ends) ↦ inr (
                inl (
                  marker ∙ ap (λ p. p.1) (sym same),
                  subst (λ n. EndsIn scanned r.0 n) (ap (λ p. p.0) (sym same)) ends,
                ))
          ]
        ],
      )

-- What a scrubber does with a line that may have been cut, once it is scrubbed and without the
-- replacement characters at its end: if the line ends with the first four or more characters of a
-- registered value, but not all of it, then the longest such end, whichever value it is of, gives
-- way to the marker of that value; else the scrubbed line is left as it is.
pub scrub_partial-IsLongest :
    (rules : List (String × String)) (line : String)
    → ((scrub_partial rules line ≡ scrub rules line)
        × IsLongest (strip_replacement (scrub rules line)) rules 0)
      ⊎ ((n : ℕ) × (marker : String) × IsFrom (strip_replacement (scrub rules line)) rules n marker
          × IsLongest (strip_replacement (scrub rules line)) rules n
          × (scrub_partial rules line
              ≡ take_text
                  (text_length (strip_replacement (scrub rules line)) - n)
                  (strip_replacement (scrub rules line))
                <+> marker))
unfolding scrub_partial
scrub_partial-IsLongest rules line =
    let scanned = strip_replacement (scrub rules line) in
    let best = best_match scanned (0, "") rules in
    let (above, longest, source) = best_match-IsBest scanned rules (0, "") in
    elim (Bool-cases (best.0 == 0)) [
      | inl none_found ↦
          let zero_size : best.0 ≡ 0 = ground (arith, none_found) in
          inl (rw none_found refl, subst (IsLongest scanned rules) zero_size longest)
      | inr some_found ↦ elim source [
        | inl start ↦ absurd (ground (arith, some_found, ap (λ p. p.0) start))
        | inr from_rule ↦ inr (best.0, best.1, from_rule, longest, rw some_found refl)
      ]
    ]
