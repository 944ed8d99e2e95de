-- ===== src/Digest/Fitting.antt =====
-- What `_fit` of sidecar/digest.py keeps, and that an index is no longer than its cap.
use fuko_pr.Prelude.{
  ℕ, ◌+◌, ◌≤◌, ◌<◌, ◌≡◌, refl, ◌⊎◌, inl, inr, Bool, true, List, [], ◌∷◌, length, arith, ltb,
  Bool-cases, countb, sum_by, sum_by-sort, countb-sort, length-sort, is_sorted, is_sorted-sort,
  sort, text_length,
}
use fuko_pr.Digest.Scan.{Symbol, by_start, sort_by_start}
use fuko_pr.Digest.Index.{entry, wider, fit_from, fit}

-- The characters of an entry and of the line break before it.
abbrev pub cost : Symbol → ℕ
cost s = text_length (entry s) + 1

fit_from-within :
    (budget used : ℕ) (ss : List Symbol)
    → used ≤ budget
    → used + sum_by cost (fit_from budget used ss) ≤ budget
unfolding fit_from
fit_from-within budget used [] h = omega (arith, h)
fit_from-within budget used (s ∷ ss) h = elim (Bool-cases (ltb budget (used + cost s))) [
  | inl over ↦ rw over (fit_from-within budget used ss h)
  | inr fits ↦
      let ih = fit_from-within budget (used + cost s) ss (ground (arith, fits)) in
      rw fits (omega (arith, ih))
]

fit_from-counts :
    (p : Symbol → Bool) (budget used : ℕ) (ss : List Symbol)
    → countb p (fit_from budget used ss) ≤ countb p ss
unfolding fit_from
fit_from-counts p budget used [] = omega arith
fit_from-counts p budget used (s ∷ ss) = elim (Bool-cases (ltb budget (used + cost s))) [
  | inl over ↦ rw over (omega (arith, fit_from-counts p budget used ss))
  | inr fits ↦ rw fits (omega (arith, fit_from-counts p budget (used + cost s) ss))
]

-- No declaration that passes the test is left out, or one that passes it does not fit beside those
-- that are kept.
abbrev pub IsFull : (Symbol → Bool) → ℕ → List Symbol → List Symbol → Type 0
IsFull p budget kept symbols =
    (countb p kept ≡ countb p symbols)
    ⊎ ((s : Symbol) × (p s ≡ true) × (budget < sum_by cost kept + cost s))

fit_from-IsFull :
    (p : Symbol → Bool) (budget used : ℕ) (ss : List Symbol)
    → used ≤ budget
    → (countb p (fit_from budget used ss) ≡ countb p ss)
      ⊎ ((s : Symbol) × (p s ≡ true)
          × (budget < used + sum_by cost (fit_from budget used ss) + cost s))
unfolding fit_from
fit_from-IsFull p budget used [] h = inl refl
fit_from-IsFull p budget used (s ∷ ss) h = elim (Bool-cases (ltb budget (used + cost s))) [
  | inl over ↦ elim (fit_from-IsFull p budget used ss h) [
    | inl all ↦ elim (Bool-cases (p s)) [
      | inl one ↦ rw over (inr (s, one, ground (arith, over)))
      | inr none_here ↦ rw (over, none_here) (inl (omega (arith, all)))
    ]
    | inr left ↦ rw over (inr left)
  ]
  | inr fits ↦ elim (fit_from-IsFull p budget (used + cost s) ss (ground (arith, fits))) [
    | inl all ↦ rw fits (inl (omega (arith, all)))
    | inr (t, one, left) ↦ rw fits (inr (t, one, omega (arith, left)))
  ]
]

length-fit_from :
    (budget used : ℕ) (ss : List Symbol) → length (fit_from budget used ss) ≤ length ss
unfolding fit_from
length-fit_from budget used [] = omega arith
length-fit_from budget used (s ∷ ss) = elim (Bool-cases (ltb budget (used + cost s))) [
  | inl over ↦ rw over (omega (arith, length-fit_from budget used ss))
  | inr fits ↦ rw fits (omega (arith, length-fit_from budget (used + cost s) ss))
]

-- What is kept is in the order of the file, its entries fit the budget, what is kept and what is
-- counted as dropped are together all the declarations, and for every test the declarations that pass
-- it are not more often there than before, and as often unless one of them does not fit beside those
-- that are kept.
pub fit-IsFull :
    (p : Symbol → Bool) (symbols : List Symbol) (budget : ℕ)
    → (is_sorted by_start (fit symbols budget).0 ≡ true)
      × (sum_by cost (fit symbols budget).0 ≤ budget)
      × (length (fit symbols budget).0 + (fit symbols budget).1 ≡ length symbols)
      × (countb p (fit symbols budget).0 ≤ countb p symbols)
      × IsFull p budget (fit symbols budget).0 symbols
unfolding fit sort_by_start
fit-IsFull p symbols budget =
    let widest = sort wider symbols in
    let kept = fit_from budget 0 widest in
    let sum = sum_by-sort by_start cost kept in
    let counts = countb-sort by_start p kept in
    let counts' = countb-sort wider p symbols in
    (
      is_sorted-sort by_start (λ a b. ground arith) kept,
      omega (arith, sum, fit_from-within budget 0 widest (omega arith)),
      omega (
        arith,
        length-sort by_start kept,
        length-sort wider symbols,
        length-fit_from budget 0 widest,
      ),
      omega (arith, counts, counts', fit_from-counts p budget 0 widest),
      elim (fit_from-IsFull p budget 0 widest (omega arith)) [
        | inl all ↦ inl (omega (arith, all, counts, counts'))
        | inr (s, one, left) ↦ inr (s, one, omega (arith, left, sum))
      ],
    )
