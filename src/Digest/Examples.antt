-- ===== src/Digest/Examples.antt =====
-- The results of Digest at a short file.
use fuko_pr.Prelude.{
  ◌+◌, ◌≤◌, String, ◌≡◌, refl, true, Option, none, List, [], ◌∷◌, length, arith, splitlines, All,
  is_sorted, sum_by, countb, ◌==◌, text_eq, decimal, free_of, some,
}
use text.Mathlib.TextLemmas.{cons≢nil}
use fuko_pr.Digest.Scan.{Symbol, Nodes, by_start, hits_from, scan, scan_declarations}
use fuko_pr.Digest.Index.{fit, render, topic_for, topic_path}
use fuko_pr.Digest.Spans.{IsNested}
use fuko_pr.Digest.Ends.{IsRanges}
use fuko_pr.Digest.Ranges.{scan_declarations-IsRanges}
use fuko_pr.Digest.Fitting.{cost, IsFull, fit-IsFull}
use fuko_pr.Digest.Bounds.{IsCapped, render-IsCapped}
use fuko_pr.Digest.Topics.{is_at, topic_path-topic_for}

abbrev source : String
source = "pub(crate) struct A {\n  x\n}\nimpl A {\n    pub fn b() {}\n}\nfn c() {}\n"

abbrev symbols : List Symbol
symbols =
    record { kind = "struct"; name = "A"; start = 1; end = 3 }
    ∷ record { kind = "impl"; name = "A"; start = 4; end = 6 }
    ∷ record { kind = "fn"; name = "b"; start = 5; end = 6 }
    ∷ record { kind = "fn"; name = "c"; start = 7; end = 7 }
    ∷ []

source-scanned : scan_declarations source ≡ symbols
unfolding scan_declarations
source-scanned = refl

-- A form feed ends a line here, where an editor sees none: the function is on line 2 of the file.
form_feed :
    scan_declarations "/* \u{c} */\nfn c() {}\n"
    ≡ record { kind = "fn"; name = "c"; start = 3; end = 3 } ∷ []
unfolding scan_declarations
form_feed = refl

abbrev kept : List Symbol
kept =
    record { kind = "struct"; name = "A"; start = 1; end = 3 }
    ∷ record { kind = "impl"; name = "A"; start = 4; end = 6 }
    ∷ []

-- The narrowest declarations go first.
narrow_dropped : fit symbols 40 ≡ (kept, 2)
unfolding fit decimal
narrow_dropped = refl

scan_declarations-IsRanges_example :
    IsRanges
      (length (splitlines source))
      (hits_from 1 (splitlines source))
      (scan_declarations source)
    × All
        (λ s. (1 ≤ s.start) × (s.start ≤ s.end) × (s.end ≤ length (splitlines source)))
        (scan_declarations source)
    × IsNested (scan_declarations source)
scan_declarations-IsRanges_example = scan_declarations-IsRanges source

fit-IsFull_example :
    (is_sorted by_start (fit symbols 40).0 ≡ true)
    × (sum_by cost (fit symbols 40).0 ≤ 40)
    × (length (fit symbols 40).0 + (fit symbols 40).1 ≡ length symbols)
    × (countb (λ s. s.kind == "fn") (fit symbols 40).0 ≤ countb (λ s. s.kind == "fn") symbols)
    × IsFull (λ s. s.kind == "fn") 40 (fit symbols 40).0 symbols
fit-IsFull_example = fit-IsFull (λ s. s.kind == "fn") symbols 40

-- A file that is not Python.
abbrev unparsed : String → Option Nodes
unparsed text = none

render-IsCapped_example :
    IsCapped
      (λ text. "0123456789abcdef")
      (λ text. 68)
      "a.rs"
      source
      (scan unparsed "a.rs" source).1
      700
      (render (λ text. "0123456789abcdef") (λ text. 68) unparsed "a.rs" source 700)
unfolding scan scan_declarations
render-IsCapped_example =
    render-IsCapped (λ text. "0123456789abcdef") (λ text. 68) unparsed "a.rs" source 700
      (omega arith)

a_hash : free_of is_at "1f" ≡ true
unfolding free_of
a_hash = refl

topic_path-topic_for_example : topic_path (some (topic_for "a@b.py" "1f")) ≡ some "a@b.py"
topic_path-topic_for_example = topic_path-topic_for "a@b.py" "1f" cons≢nil a_hash
