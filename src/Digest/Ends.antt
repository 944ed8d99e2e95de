-- ===== src/Digest/Ends.antt =====
-- Where the range of a declaration ends (`_scan_declarations` of sidecar/digest.py).
use fuko_pr.Prelude.{
  ℕ, suc, ◌≤◌, ◌<◌, ◌≡◌, refl, ap, subst, sym, ◌⊎◌, inl, inr, List, [], ◌∷◌, ◌++◌, arith, leb,
  Bool-cases, All,
}
use fuko_pr.Digest.Scan.{Symbol, Hit, end_of, symbols_of}
use fuko_pr.Digest.Spans.{Increasing}

-- A declaration ends at the line before the first later one that is indented no more than it is, or,
-- if there is none, at the last line.
abbrev pub IsEnd : ℕ → Hit → List Hit → ℕ → Type 0
IsEnd total hit later e =
    (All (λ (h : Hit). hit.width < h.width) later × (e ≡ total))
    ⊎ ((nested : List Hit) × (next : Hit) × (rest : List Hit) × (later ≡ nested ++ next ∷ rest)
        × All (λ (h : Hit). hit.width < h.width) nested
        × (next.width ≤ hit.width)
        × (suc e ≡ next.line))

-- Each declaration has the kind, the name and the line of its match, and ends where it should.
abbrev pub IsRanges : ℕ → List Hit → List Symbol → Type 0
IsRanges total [] [] = Unit
IsRanges total [] (s ∷ symbols) = ⊥
IsRanges total (h ∷ hits) [] = ⊥
IsRanges total (h ∷ hits) (s ∷ symbols) =
    (s.kind ≡ h.kind)
    × (s.name ≡ h.name)
    × (s.start ≡ h.line)
    × IsEnd total h hits s.end
    × IsRanges total hits symbols

end_of-IsEnd :
    (hit : Hit) (n total : ℕ) (hits : List Hit)
    → hit.line < n
    → Increasing n total hits
    → IsEnd total hit hits (end_of hit total hits)
unfolding end_of
end_of-IsEnd hit n total [] before k = inl (tt, refl)
end_of-IsEnd hit n total (later ∷ hits) before k = elim (Bool-cases (leb later.width hit.width)) [
  | inl ends ↦
      let line : hit.line < later.line = omega (arith, before, k.0) in
      inr ([], later, hits, refl, tt, ground (arith, ends), rw ends (omega (arith, line)))
  | inr deeper ↦
      let narrower : hit.width < later.width = ground (arith, deeper) in
      let e : end_of hit total (later ∷ hits) ≡ end_of hit total hits = rw (deeper, end_of) refl in
      subst (IsEnd total hit (later ∷ hits)) (sym e) (
        further narrower
          (end_of-IsEnd hit (suc later.line) total hits (omega (arith, before, k.0)) k.2))
]
  where
    further :
        {e : ℕ}
        → hit.width < later.width
        → IsEnd total hit hits e
        → IsEnd total hit (later ∷ hits) e
    further narrower (inl (deep, last)) = inl ((narrower, deep), last)
    further narrower (inr (nested, next, rest, split, deep, ends, line)) =
        inr (later ∷ nested, next, rest, ap (λ hs. later ∷ hs) split, (narrower, deep), ends, line)

pub symbols_of-IsRanges :
    (n total : ℕ) (hits : List Hit)
    → Increasing n total hits
    → IsRanges total hits (symbols_of total hits)
unfolding symbols_of
symbols_of-IsRanges n total [] k = tt
symbols_of-IsRanges n total (h ∷ hits) k = (
  refl,
  refl,
  refl,
  end_of-IsEnd h (suc h.line) total hits (omega arith) k.2,
  symbols_of-IsRanges (suc h.line) total hits k.2,
)
