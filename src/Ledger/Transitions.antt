-- ===== src/Ledger/Transitions.antt =====
-- The state machine of a finding, call by call (sidecar/review_state.py, `transition` and
-- `reopen`).
use fuko_pr.Prelude.{
  ℕ, ◌+◌, String, ◌≡◌, refl, Bool, true, false, some, List, [], ◌∷◌, arith, ltb, any, countb, ◌==◌,
  nat_eq, ◌&&◌,
}
use fuko_pr.Ledger.Rows.{
  Lane, same_lane, lane_eq, Status, opened, is_open, is_reopenable, parse_status, FindingRow, Db,
  Env, uuid,
}
use fuko_pr.Ledger.Table.{Pairs, Pairs-update}
use fuko_pr.Ledger.Actions.{best_effort}
use fuko_pr.Ledger.Writes.{
  may_transition, set_status, move_row, transition_row, transition, may_reopen, set_reopened,
  raise_row, reopen,
}
use fuko_pr.Ledger.Window.{Serves}

-- The rows of the lane with an id.
abbrev pub is_row : Lane → ℕ → FindingRow → Bool
is_row lane n r = (r.id == n) && same_lane r.lane lane

moved-answer :
    (lane : Lane) (n : ℕ) (rows : List FindingRow)
    → ltb 0 (countb (may_transition lane n) rows)
      ≡ any (λ r. is_row lane n r && is_open r.status) rows
unfolding may_transition
moved-answer lane n [] = refl
moved-answer lane n (r ∷ rs) = ground (arith, moved-answer lane n rs)

raised-answer :
    (lane : Lane) (n : ℕ) (rows : List FindingRow)
    → ltb 0 (countb (may_reopen lane n) rows)
      ≡ any (λ r. is_row lane n r && is_reopenable r.status) rows
unfolding may_reopen
raised-answer lane n [] = refl
raised-answer lane n (r ∷ rs) = ground (arith, raised-answer lane n rs)

-- What a transition does to a row: an open row of the lane with the id gets the status and the
-- count of its reopenings stays, and any other row is the same.
pub record IsMoved (lane : Lane) (n : ℕ) (status : Status) (a b : FindingRow) : Type 0 where
  pub moved : is_row lane n a ≡ true → is_open a.status ≡ true → b.status ≡ status
  pub closed : is_open a.status ≡ false → b ≡ a
  pub elsewhere : is_row lane n a ≡ false → b ≡ a
  pub reopened : b.reopened ≡ a.reopened

-- What a reopening does to a row: a fixed or rejected row of the lane with the id is open and
-- counted once more, and any other row is the same, a stale one included.
pub record IsRaised (lane : Lane) (n : ℕ) (a b : FindingRow) : Type 0 where
  pub raised :
      is_row lane n a ≡ true
      → is_reopenable a.status ≡ true
      → (b.status ≡ opened) × (b.reopened ≡ a.reopened + 1)
  pub not_reopenable : is_reopenable a.status ≡ false → b ≡ a
  pub elsewhere : is_row lane n a ≡ false → b ≡ a

IsMoved-hit :
    (lane : Lane) (n now : ℕ) (status : Status) (reason : String) (r : FindingRow)
    → may_transition lane n r ≡ true
    → IsMoved lane n status r (set_status status reason now r)
unfolding may_transition set_status
IsMoved-hit lane n now status reason r h = record {
  moved = λ e k. refl;
  closed = λ e. absurd (ground arith);
  elsewhere = λ e. absurd (ground arith);
  reopened = refl;
}

IsMoved-miss :
    (lane : Lane) (n : ℕ) (status : Status) (r : FindingRow)
    → may_transition lane n r ≡ false
    → IsMoved lane n status r r
unfolding may_transition
IsMoved-miss lane n status r h = record {
  moved = λ e k. absurd (ground arith);
  closed = λ e. refl;
  elsewhere = λ e. refl;
  reopened = refl;
}

IsRaised-hit :
    (lane : Lane) (n now : ℕ) (reason : String) (r : FindingRow)
    → may_reopen lane n r ≡ true
    → IsRaised lane n r (set_reopened reason now r)
unfolding may_reopen set_reopened
IsRaised-hit lane n now reason r h = record {
  raised = λ e k. (refl, refl);
  not_reopenable = λ e. absurd (ground arith);
  elsewhere = λ e. absurd (ground arith);
}

IsRaised-miss :
    (lane : Lane) (n : ℕ) (r : FindingRow) → may_reopen lane n r ≡ false → IsRaised lane n r r
unfolding may_reopen
IsRaised-miss lane n r h = record {
  raised = λ e k. absurd (ground arith);
  not_reopenable = λ e. refl;
  elsewhere = λ e. refl;
}

-- A served `transition` to a known status answers whether the lane had an open row with the id,
-- and moves that row only: closed rows, other ids, other lanes and the coverage stay as they are.
pub transition-IsMoved :
    (env : Env) (lane : Lane) (n : ℕ) (text reason : String) (status : Status) (db : Db)
    → Serves env db
    → parse_status text ≡ some status
    → let after = transition env lane (uuid n) text reason db in
      (after.0 ≡ any (λ r. is_row lane n r && is_open r.status) db.findings)
      × Pairs (IsMoved lane n status) db.findings after.1.findings
      × (after.1.coverage ≡ db.coverage)
unfolding transition transition_row best_effort move_row
transition-IsMoved env lane n text reason status db s known =
    rw (known, transition_row, s.enabled, s.up)
      (
        moved-answer lane n db.findings,
        Pairs-update _ (may_transition lane n) _
            (IsMoved-hit lane n (env.clock db.calls) status reason) (IsMoved-miss lane n status)
            db.findings,
        refl,
      )

-- A served `reopen` answers whether the lane had a fixed or rejected row with the id, and raises
-- that row only: open and stale rows, other ids, other lanes and the coverage stay as they are.
pub reopen-IsRaised :
    (env : Env) (lane : Lane) (n : ℕ) (reason : String) (db : Db)
    → Serves env db
    → let after = reopen env lane (uuid n) reason db in
      (after.0 ≡ any (λ r. is_row lane n r && is_reopenable r.status) db.findings)
      × Pairs (IsRaised lane n) db.findings after.1.findings
      × (after.1.coverage ≡ db.coverage)
unfolding reopen best_effort raise_row
reopen-IsRaised env lane n reason db s =
    rw (s.enabled, s.up)
      (
        raised-answer lane n db.findings,
        Pairs-update _ (may_reopen lane n) _ (IsRaised-hit lane n (env.clock db.calls) reason)
            (IsRaised-miss lane n) db.findings,
        refl,
      )
