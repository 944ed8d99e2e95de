-- ===== src/Digest/Spans.antt =====
-- The line ranges that `_scan_declarations` of sidecar/digest.py gives to declarations.
use fuko_pr.Prelude.{
  ℕ, suc, ◌+◌, ◌-◌, ◌≤◌, ◌<◌, String, ◌≡◌, refl, sym, subst, ◌⊎◌, inl, inr, some, List, [], ◌∷◌,
  length, arith, leb, if-both, Bool-cases, Option-cases, All, All-map,
}
use fuko_pr.Digest.Scan.{
  declaration_at, front_of, is_blank, Symbol, Hit, hit_at, hits_from, end_of, symbols_of,
}

-- Each line of the list is after the ones before it, and none is after the last line.
abbrev pub Increasing : ℕ → ℕ → List Hit → Type 0
Increasing n total [] = Unit
Increasing n total (h ∷ hits) = (n ≤ h.line) × (h.line ≤ total) × Increasing (suc h.line) total hits

hit_at-line : (n : ℕ) (s : String) (h : Hit) → hit_at n s ≡ some h → h.line ≡ n
unfolding hit_at
hit_at-line n s h e = elim (Option-cases (declaration_at (front_of is_blank s).1)) [
  | inl absent ↦ absurd (ground (arith, rw (absent, hit_at) at e))
  | inr (found, present) ↦ let k = rw (present, hit_at) at e in ground (arith, k)
]

Increasing-weaker :
    (m n total : ℕ) (hits : List Hit) → m ≤ n → Increasing n total hits → Increasing m total hits
Increasing-weaker m n total [] le k = tt
Increasing-weaker m n total (h ∷ hits) le k = (omega (arith, le, k.0), k.1, k.2)

pub hits_from-Increasing :
    (n total : ℕ) (lines : List String)
    → n + length lines ≤ suc total
    → Increasing n total (hits_from n lines)
unfolding hits_from
hits_from-Increasing n total [] h = tt
hits_from-Increasing n total (line ∷ lines) h =
    let rest = hits_from-Increasing (suc n) total lines (omega (arith, h)) in
    elim (Option-cases (hit_at n line)) [
      | inl none_here ↦
          let e : hits_from n (line ∷ lines) ≡ hits_from (suc n) lines =
            rw (none_here, hits_from) refl in
          subst (Increasing n total) (sym e)
            (Increasing-weaker n (suc n) total (hits_from (suc n) lines) (omega arith) rest)
      | inr (hit, one) ↦
          let here = hit_at-line n line hit one in
          let e : hits_from n (line ∷ lines) ≡ hit ∷ hits_from (suc n) lines =
            rw (one, hits_from) refl in
          subst (Increasing n total) (sym e) (
            omega (arith, here),
            omega (arith, here, h),
            Increasing-weaker (suc hit.line) (suc n) total (hits_from (suc n) lines)
                (omega (arith, here)) rest,
          )
    ]

-- A range ends after it begins, before the last line, and not before a line that all the later
-- declarations are after.
end_of-within :
    (hit : Hit) (n total : ℕ) (hits : List Hit)
    → hit.line ≤ n
    → n ≤ total
    → Increasing (suc n) total hits
    → (n ≤ end_of hit total hits) × (end_of hit total hits ≤ total)
unfolding end_of
end_of-within hit n total [] before le k = (le, omega arith)
end_of-within hit n total (later ∷ hits) before le k =
    let (lower, upper) =
      end_of-within hit n total hits before le
        (Increasing-weaker (suc n) (suc later.line) total hits (omega (arith, k.0)) k.2) in
    let after = k.0 in
    let within = k.1 in
    if-both (λ e. (n ≤ e) × (e ≤ total)) (leb later.width hit.width) _ _
      (λ here. (omega (arith, before, after), omega (arith, before, le, within)))
      (λ nested. (lower, upper))

-- A declaration nested deeper ends no later.
end_of-deeper :
    (outer inner : Hit) (total : ℕ) (hits : List Hit)
    → outer.line ≤ inner.line
    → inner.line ≤ total
    → outer.width < inner.width
    → Increasing (suc inner.line) total hits
    → end_of inner total hits ≤ end_of outer total hits
unfolding end_of
end_of-deeper outer inner total [] before le deeper k = omega arith
end_of-deeper outer inner total (later ∷ hits) before le deeper k =
    let rest =
      Increasing-weaker (suc inner.line) (suc later.line) total hits (omega (arith, k.0)) k.2 in
    let ih = end_of-deeper outer inner total hits before le deeper rest in
    let (lower, upper) =
      end_of-within outer later.line total hits (omega (arith, before, k.0)) k.1 k.2 in
    let after = k.0 in ground (arith, ih, lower, after, before, deeper)

-- A declaration, and one that stands after it: apart from it, or within it.
abbrev pub Apart : Symbol → Symbol → Type 0
Apart s t = (s.start < t.start) × ((s.end < t.start) ⊎ (t.end ≤ s.end))

abbrev pub IsNested : List Symbol → Type 0
IsNested [] = Unit
IsNested (s ∷ symbols) = All (Apart s) symbols × IsNested symbols

-- What a declaration that ends at `e` has after it.
abbrev After : Hit → ℕ → Symbol → Type 0
After hit e t = (hit.line < t.start) × ((e < t.start) ⊎ (t.end ≤ e))

starts_from :
    (n total : ℕ) (hits : List Hit)
    → Increasing n total hits
    → All (λ t. n ≤ t.start) (symbols_of total hits)
unfolding symbols_of
starts_from n total [] k = tt
starts_from n total (h ∷ hits) k = (
  k.0,
  starts_from n total hits (Increasing-weaker n (suc h.line) total hits (omega (arith, k.0)) k.2),
)

symbols_of-After :
    (hit : Hit) (total : ℕ) (hits : List Hit)
    → hit.line ≤ total
    → Increasing (suc hit.line) total hits
    → All (After hit (end_of hit total hits)) (symbols_of total hits)
unfolding symbols_of end_of
symbols_of-After hit total [] le k = tt
symbols_of-After hit total (later ∷ hits) le k =
    let rest =
      Increasing-weaker (suc hit.line) (suc later.line) total hits (omega (arith, k.0)) k.2 in
    let further = symbols_of-After hit total hits le rest in
    let starts = starts_from (suc later.line) total hits k.2 in
    let All_after = λ (e : ℕ). All (After hit e) (symbols_of total (later ∷ hits)) in
    elim (Bool-cases (leb later.width hit.width)) [
      | inl ends ↦
          let before : hit.line < later.line = omega (arith, k.0) in
          let e : end_of hit total (later ∷ hits) ≡ later.line - 1 =
            rw (ends, end_of) (omega (arith, before)) in
          subst All_after (sym e) (
            (before, inl (omega (arith, before))),
            All-map _ _
                (λ t after. (omega (arith, before, after), inl (omega (arith, before, after))))
                (symbols_of total hits) starts,
          )
      | inr deeper ↦
          let e : end_of hit total (later ∷ hits) ≡ end_of hit total hits =
            rw (deeper, end_of) refl in
          let narrower : hit.width < later.width = ground (arith, deeper) in
          subst All_after (sym e) (
            (
              omega (arith, k.0),
              inr (end_of-deeper hit later total hits (omega (arith, k.0)) k.1 narrower k.2),
            ),
            further,
          )
    ]

pub symbols_of-IsNested :
    (n total : ℕ) (hits : List Hit) → Increasing n total hits → IsNested (symbols_of total hits)
unfolding symbols_of
symbols_of-IsNested n total [] k = tt
symbols_of-IsNested n total (h ∷ hits) k =
    (symbols_of-After h total hits k.1 k.2, symbols_of-IsNested (suc h.line) total hits k.2)

pub symbols_of-within :
    (n total : ℕ) (hits : List Hit)
    → 1 ≤ n
    → Increasing n total hits
    → All (λ s. (1 ≤ s.start) × (s.start ≤ s.end) × (s.end ≤ total)) (symbols_of total hits)
unfolding symbols_of
symbols_of-within n total [] one k = tt
symbols_of-within n total (h ∷ hits) one k =
    let (lower, upper) = end_of-within h h.line total hits (omega arith) k.1 k.2 in
    (
      (omega (arith, one, k.0), lower, upper),
      symbols_of-within (suc h.line) total hits (omega arith) k.2,
    )
