-- ===== src/Ledger/Window.antt =====
-- What the reads of sidecar/review_state.py return: the window of `open_findings`, and the number
-- that `next_round` gives.
use fuko_pr.Prelude.{
  ℕ, suc, ◌≢◌, ◌+◌, ◌≤◌, ◌<◌, min, ◌≡◌, refl, ◌∙◌, ap, Bool, true, List, [], ◌∷◌, arith, leb,
  length, take, filterb, countb, any, All, All-map, All-take, All-sort, All-of_map, All-any,
  All-both, map, length-take, length-filterb, All-filterb, filterb-passes, sort, is_sorted,
  is_sorted-sort, is_sorted-take, length-sort, ◌==◌, ==_refl, ◌&&◌, ◌||◌, nat_eq,
}
use fuko_pr.Ledger.Rows.{Lane, same_lane, FindingRow, CoverageRow, Db, Env, uuid, max_open_findings}
use fuko_pr.Ledger.Claims.{finding_id_eq}
use fuko_pr.Ledger.Actions.{best_effort, reads}
use fuko_pr.Ledger.Reads.{
  StoredFinding, OpenLedger, is_offered, oldest_first, stored_finding, clamp_limit, read_open,
  open_findings, max_finding_round, max_coverage_round, last_round, next_round,
}

-- One call of the store that a connection serves.
pub record Serves (env : Env) (db : Db) : Type 0 where
  pub enabled : env.enabled ≡ true
  pub up : env.up db.calls ≡ true

length-map : {A B : Type 0} → (f : A → B) (xs : List A) → length (map f xs) ≡ length xs
length-map f [] = refl
length-map f (x ∷ xs) = ap suc (length-map f xs)

oldest_first-total : (a b : FindingRow) → (oldest_first a b || oldest_first b a) ≡ true
unfolding oldest_first
oldest_first-total a b = ground arith

-- The rounds of the rows that a read returns do not fall.
abbrev pub earlier : StoredFinding → StoredFinding → Bool
earlier a b = leb a.prior.round b.prior.round

oldest_first-earlier :
    (a b : FindingRow)
    → oldest_first a b ≡ true
    → earlier (stored_finding a) (stored_finding b) ≡ true
unfolding oldest_first stored_finding
oldest_first-earlier a b h = ground arith

is_sorted-map :
    (rows : List FindingRow)
    → is_sorted oldest_first rows ≡ true
    → is_sorted earlier (map stored_finding rows) ≡ true
is_sorted-map [] h = refl
is_sorted-map (a ∷ []) h = refl
is_sorted-map (a ∷ b ∷ rows) h = ground (arith, oldest_first-earlier a b, is_sorted-map (b ∷ rows))

-- What a read of the open ledger promises of the rows of the table: it counts the whole window,
-- cuts only at its limit, names open rows of the lane inside the retention alone, and orders them.
pub record IsWindow (now : ℕ) (lane : Lane) (limit : ℕ) (rows : List FindingRow) (read : OpenLedger)
    : Type 0 where
  pub counted : length read.rows + read.truncated ≡ countb (is_offered now lane) rows
  pub bounded : length read.rows ≤ max_open_findings
  pub cut : read.truncated ≢ 0 → length read.rows ≡ clamp_limit limit max_open_findings
  pub named :
      All
        (λ (s : StoredFinding). any (λ r. is_offered now lane r && (s.id == uuid r.id)) rows ≡ true)
        read.rows
  pub ordered : is_sorted earlier read.rows ≡ true

-- A row of the window is named by what the read makes of it.
window-named :
    (now : ℕ) (lane : Lane) (rows : List FindingRow)
    → All
        (λ (q : FindingRow).
          any (λ r. is_offered now lane r && ((stored_finding q).id == uuid r.id)) rows ≡ true)
        (filterb (is_offered now lane) rows)
unfolding stored_finding
window-named now lane rows =
    All-map _ _ (λ q h. h.1 _ (rw h.0 (==_refl (uuid q.id)))) _
      (All-both _ _ _ (filterb-passes (is_offered now lane) rows)
        (All-filterb _ (is_offered now lane) rows (All-any rows)))

read_open-IsWindow :
    (now : ℕ) (lane : Lane) (limit : ℕ) (rows : List FindingRow)
    → IsWindow now lane limit rows (read_open now lane limit rows)
unfolding read_open
read_open-IsWindow now lane limit rows =
    let window = filterb (is_offered now lane) rows in
    let ordered = sort oldest_first window in
    let n = clamp_limit limit max_open_findings in
    let kept : length (take n ordered) ≡ min n (length window) =
      length-take n ordered ∙ ap (min n) (length-sort oldest_first window) in
    let size = length-map stored_finding (take n ordered) ∙ kept in
    record {
      counted = omega (arith, kept, size, length-filterb (is_offered now lane) rows);
      bounded = omega (arith, size);
      cut = λ h. omega (arith, kept, size, h);
      named =
          All-of_map _ stored_finding (take n ordered)
            (All-take _ n ordered (All-sort oldest_first _ window (window-named now lane rows)));
      ordered = is_sorted-map (take n ordered) (
          is_sorted-take oldest_first n ordered
            (is_sorted-sort oldest_first oldest_first-total window));
    }

module _ (env : Env) (lane : Lane) where
  -- A served `open_findings` counts every row of its window as returned or as truncated, returns
  -- at most 200, truncates only once its limit is reached, names nothing but open rows of the lane
  -- inside the retention, and orders them by round.
  pub open_findings-IsWindow :
      (limit : ℕ) (db : Db)
      → Serves env db
      → IsWindow (env.clock db.calls) lane limit db.findings (open_findings env lane limit db).0
  unfolding open_findings best_effort reads
  open_findings-IsWindow limit db s =
      rw (s.enabled, s.up) (read_open-IsWindow (env.clock db.calls) lane limit db.findings)

  finding_round-below :
      (rows : List FindingRow)
      → All
          (λ (r : FindingRow). same_lane r.lane lane ≡ true → r.round ≤ max_finding_round lane rows)
          rows
  unfolding max_finding_round
  finding_round-below [] = tt
  finding_round-below (r ∷ rs) =
      (λ h. ground arith, All-map _ _ (λ q k h. omega (arith, k h)) rs (finding_round-below rs))

  coverage_round-below :
      (rows : List CoverageRow)
      → All
          (λ (r : CoverageRow).
            same_lane r.lane lane ≡ true → r.round ≤ max_coverage_round lane rows)
          rows
  unfolding max_coverage_round
  coverage_round-below [] = tt
  coverage_round-below (r ∷ rs) =
      (λ h. ground arith, All-map _ _ (λ q k h. omega (arith, k h)) rs (coverage_round-below rs))

  -- A served `next_round` gives a number above the round of every row of the lane, in both tables:
  -- no round writes under the number of an earlier one.
  pub next_round-above :
      (db : Db)
      → Serves env db
      → All
          (λ (r : FindingRow). same_lane r.lane lane ≡ true → r.round < (next_round env lane db).0)
          db.findings
        × All
            (λ (r : CoverageRow).
              same_lane r.lane lane ≡ true → r.round < (next_round env lane db).0)
            db.coverage
  unfolding next_round last_round best_effort reads
  next_round-above db s =
      rw (s.enabled, s.up)
        (
          All-map _ _ (λ q k h. omega (arith, k h)) _ (finding_round-below db.findings),
          All-map _ _ (λ q k h. omega (arith, k h)) _ (coverage_round-below db.coverage),
        )
