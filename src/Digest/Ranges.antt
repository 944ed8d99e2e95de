-- ===== src/Digest/Ranges.antt =====
-- The line ranges of the declarations of a file (`_scan_declarations` of sidecar/digest.py).
use fuko_pr.Prelude.{◌≤◌, String, length, arith, splitlines, All}
use fuko_pr.Digest.Scan.{hits_from, scan_declarations}
use fuko_pr.Digest.Spans.{IsNested, hits_from-Increasing, symbols_of-within, symbols_of-IsNested}
use fuko_pr.Digest.Ends.{IsRanges, symbols_of-IsRanges}

-- Every hit among the lines of a text (`hits_from`, where lines are what `str.splitlines` makes of it)
-- is a declaration with the kind and the name of the hit, in order. Its range begins at the line of
-- the hit and ends before that of the next hit that is indented no more than it is, or at the last
-- line of the text where there is none.
-- So every range is of lines of the file, and of two of them the later one begins after the earlier
-- one begins, and either after it ends or within it to its end at most.
pub scan_declarations-IsRanges :
    (text : String)
    → IsRanges (length (splitlines text)) (hits_from 1 (splitlines text)) (scan_declarations text)
      × All
          (λ s. (1 ≤ s.start) × (s.start ≤ s.end) × (s.end ≤ length (splitlines text)))
          (scan_declarations text)
      × IsNested (scan_declarations text)
unfolding scan_declarations
scan_declarations-IsRanges text =
    let total = length (splitlines text) in
    let increasing = hits_from-Increasing 1 total (splitlines text) (omega arith) in
    (
      symbols_of-IsRanges 1 total (hits_from 1 (splitlines text)) increasing,
      symbols_of-within 1 total (hits_from 1 (splitlines text)) (omega arith) increasing,
      symbols_of-IsNested 1 total (hits_from 1 (splitlines text)) increasing,
    )
