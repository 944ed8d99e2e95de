-- ===== src/Digest/Bounds.antt =====
-- An index is no longer than its cap (`render` of sidecar/digest.py).
use fuko_pr.Prelude.{
  ℕ, ◌+◌, ◌-◌, ◌≤◌, ◌<◌, String, ◌<+>◌, ◌≡◌, refl, ◌⊎◌, inl, inr, true, Option, none, some, List,
  [], ◌∷◌, ◌++◌, map, length, arith, ltb, ◌==◌, nat_eq, if◌then◌else◌, if-both, Bool-cases, sum_by,
  text_length, text_length-append, join_lines, pow10, decimal, length-decimal,
}
use fuko_pr.Digest.Scan.{Symbol, Nodes, scan}
use fuko_pr.Digest.Index.{
  entry, fit, note, tail_reserve, no_declarations, omitted, header, render_scanned, render,
}
use fuko_pr.Digest.Fitting.{cost, fit-IsFull}

abbrev line_cost : String → ℕ
line_cost line = text_length line + 1

length-join_lines :
    (line : String) (lines more : List String)
    → text_length (join_lines ((line ∷ lines) ++ more))
      ≡ text_length (join_lines (line ∷ lines)) + sum_by line_cost more
unfolding join_lines
length-join_lines line [] [] = omega arith
length-join_lines line [] (m ∷ more) = omega (
  arith,
  text_length-append line ("\n" <+> join_lines (m ∷ more)),
  text_length-append "\n" (join_lines (m ∷ more)),
  length-join_lines m [] more,
)
length-join_lines line (next ∷ lines) more = omega (
  arith,
  length-join_lines next lines more,
  text_length-append line ("\n" <+> join_lines ((next ∷ lines) ++ more)),
  text_length-append "\n" (join_lines ((next ∷ lines) ++ more)),
  text_length-append line ("\n" <+> join_lines (next ∷ lines)),
  text_length-append "\n" (join_lines (next ∷ lines)),
)

sum_by-append :
    (xs ys : List String) → sum_by line_cost (xs ++ ys) ≡ sum_by line_cost xs + sum_by line_cost ys
sum_by-append [] ys = omega arith
sum_by-append (x ∷ xs) ys = omega (arith, sum_by-append xs ys)

sum_by-entries :
    (symbols : List Symbol) → sum_by line_cost (map entry symbols) ≡ sum_by cost symbols
sum_by-entries [] = refl
sum_by-entries (s ∷ symbols) = omega (arith, sum_by-entries symbols)

-- The note with its line break, however many declarations are dropped.
line_cost-note : (dropped : ℕ) → dropped < pow10 60 → line_cost (note dropped) ≤ tail_reserve
line_cost-note dropped h = omega (
  arith,
  text_length-append "(" (decimal dropped <+> omitted),
  text_length-append (decimal dropped) omitted,
  length-decimal dropped 59 h,
)

abbrev lines_of : List Symbol → ℕ → List String
lines_of kept dropped = map entry kept ++ (if dropped == 0 then [] else note dropped ∷ [])

lines_of-within :
    (kept : List Symbol) (dropped : ℕ)
    → dropped < pow10 60
    → sum_by line_cost (lines_of kept dropped) ≤ sum_by cost kept + tail_reserve
lines_of-within kept dropped few =
    let tail : List String = if dropped == 0 then [] else note dropped ∷ [] in
    let short : sum_by line_cost tail ≤ tail_reserve =
      if-both (λ ls. sum_by line_cost ls ≤ tail_reserve) (dropped == 0) [] (note dropped ∷ [])
        (λ all. omega arith) (λ left. omega (arith, line_cost-note dropped few)) in
    omega (arith, short, sum_by-append (map entry kept) tail, sum_by-entries kept)

module _ (sha256 : String → String) (encoded_size : String → ℕ) where
  abbrev pub head_of : String → String → String → String
  head_of path text scanner = join_lines (header sha256 encoded_size path text scanner)

  header-join :
      (path text scanner : String) (more : List String)
      → text_length (join_lines (header sha256 encoded_size path text scanner ++ more))
        ≡ text_length (head_of path text scanner) + sum_by line_cost more
  unfolding header
  header-join path text scanner more = length-join_lines _ _ more

  -- What `_render_scanned` answers, and the length of it.
  abbrev pub IsCapped : String → String → String → ℕ → Option String → Type 0
  IsCapped path text scanner max_chars answer =
      ((max_chars < text_length (head_of path text scanner) + 201) × (answer ≡ none))
      ⊎ ((body : String) × (text_length (head_of path text scanner) + 201 ≤ max_chars)
          × (answer ≡ some body)
          × (text_length body ≤ max_chars))

  render_scanned-IsCapped :
      (path text : String) (symbols : List Symbol) (scanner : String) (max_chars : ℕ)
      → length symbols < pow10 60
      → IsCapped path text scanner max_chars
          (render_scanned sha256 encoded_size path text symbols scanner max_chars)
  unfolding render_scanned
  render_scanned-IsCapped path text symbols scanner max_chars few =
      let head = header sha256 encoded_size path text scanner in
      let size = text_length (head_of path text scanner) in
      let budget = max_chars - size - tail_reserve in
      let kept = (fit symbols budget).0 in
      let dropped = (fit symbols budget).1 in
      let (ordered, within, counted, fewer, full) = fit-IsFull (λ s. true) symbols budget in
      elim (Bool-cases (ltb max_chars (size + 1 + tail_reserve))) [
        | inl small ↦ inl (ground (arith, small), rw (small, render_scanned) refl)
        | inr large ↦
            let room : size + 201 ≤ max_chars = ground (arith, large) in
            elim (Bool-cases (length symbols == 0)) [
              | inl empty ↦ inr (
                join_lines (head ++ no_declarations ∷ []),
                room,
                rw (large, empty, render_scanned) refl,
                omega (arith, room, header-join path text scanner (no_declarations ∷ [])),
              )
              | inr several ↦ inr (
                join_lines (head ++ lines_of kept dropped),
                room,
                rw (large, several, render_scanned) refl,
                omega (
                  arith,
                  room,
                  header-join path text scanner (lines_of kept dropped),
                  lines_of-within kept dropped (omega (arith, counted, few)),
                  within,
                ),
              )
            ]
      ]

  -- With fewer declarations than 10 ** 60, an index is made exactly when the cap leaves room for the
  -- header, a line break and 200 characters, and it is no longer than the cap.
  pub render-IsCapped :
      (parse : String → Option Nodes) (path text : String) (max_chars : ℕ)
      → length (scan parse path text).0 < pow10 60
      → IsCapped path text
          (scan parse path text).1
          max_chars
          (render sha256 encoded_size parse path text max_chars)
  unfolding render
  render-IsCapped parse path text max_chars few =
      render_scanned-IsCapped path text (scan parse path text).0 (scan parse path text).1 max_chars
        few
