-- ===== src/Ledger/Examples.antt =====
-- The results of the ledgers at a lane with an open, a fixed and a rejected finding.
use fuko_pr.Prelude.{◌&&◌, any, text_eq, ◌≡◌, refl, [], ◌∷◌, All}
use fuko_pr.Ledger.Rows.{fixed, is_open, is_reopenable, uuid}
use fuko_pr.Ledger.Writes.{transition, reopen}
use fuko_pr.Ledger.Reads.{open_findings}
use fuko_pr.Ledger.Coverage.{paths, expire_coverage}
use fuko_pr.Ledger.Carry.{carry_in}
use fuko_pr.Ledger.Claims.{claim_anchor}
use fuko_pr.Ledger.Settle.{settle}
use fuko_pr.Ledger.Lanes.{SameLedger, round-SameLedger}
use fuko_pr.Ledger.History.{Extends, round-Extends}
use fuko_pr.Ledger.OpenRows.{HasOpen, OpenRow}
use fuko_pr.Ledger.NoLoss.{anchor_of}
use fuko_pr.Ledger.Round.{round-HasOpen}
use fuko_pr.Ledger.Closing.{settle-OpenRow}
use fuko_pr.Ledger.Window.{IsWindow, open_findings-IsWindow}
use fuko_pr.Ledger.Expiry.{IsExpired, expire_coverage-IsExpired}
use fuko_pr.Ledger.Table.{Pairs}
use fuko_pr.Ledger.Transitions.{is_row, IsMoved, IsRaised, transition-IsMoved, reopen-IsRaised}
use fuko_pr.Ledger.Modes.{round-Off}
use fuko_pr.Ledger.Prior.{accepted_status}
use fuko_pr.Ledger.Accepted.{IsAccepted, accepted_status-IsAccepted}
use fuko_pr.Ledger.Shown.{IsShown, carry_in-IsShown}
use fuko_pr.Ledger.Retiring.{carry_in-OpenRow}
use fuko_pr.Ledger.Facts.{
  a_tree-FileStays, lanes-Apart, an_env-IsServed, an_env-Distinct, a_db-IdsOk, a_round-Fits,
  a_db-OpenRow, still_here-Spares, known,
}
use fuko_pr.Ledger.Fixtures.{
  a_tree, a_lane, a_neighbour, an_env, no_fold, a_db, a_carry, a_round, a_carried, still_here,
  served, off_round, off_carry, covered_db,
}

round-HasOpen_example :
    All
      (λ f.
        HasOpen no_fold a_lane
          (anchor_of no_fold a_lane f)
          (settle no_fold an_env a_lane
            (carry_in an_env a_lane a_carry a_db).0
            a_round
            (carry_in an_env a_lane a_carry a_db).1).1)
      a_round.findings
round-HasOpen_example =
    round-HasOpen no_fold a_lane an_env a_carry a_round a_db an_env-IsServed an_env-Distinct
      a_db-IdsOk refl a_round-Fits

settle-OpenRow_example :
    OpenRow no_fold a_lane 1
      (claim_anchor no_fold "a.py" "race")
      (settle no_fold an_env a_lane a_carried still_here a_db).1
settle-OpenRow_example =
    settle-OpenRow no_fold a_lane an_env 1 (claim_anchor no_fold "a.py" "race") a_carried still_here
      a_db a_db-OpenRow still_here-Spares

round-SameLedger_example :
    SameLedger a_neighbour a_db (carry_in an_env a_lane a_carry a_db).1
    × SameLedger a_neighbour a_db (settle no_fold an_env a_lane a_carried a_round a_db).1
round-SameLedger_example =
    round-SameLedger no_fold an_env a_lane a_neighbour a_carry a_carried a_round a_db lanes-Apart

round-Extends_example :
    Extends a_db.findings (carry_in an_env a_lane a_carry a_db).1.findings
    × Extends a_db.findings (settle no_fold an_env a_lane a_carried a_round a_db).1.findings
round-Extends_example = round-Extends no_fold an_env a_lane a_carry a_carried a_round a_db

open_findings-IsWindow_example :
    IsWindow 1000 a_lane 1 a_db.findings (open_findings an_env a_lane 1 a_db).0
open_findings-IsWindow_example = open_findings-IsWindow an_env a_lane 1 a_db served

expire_coverage-IsExpired_example :
    IsExpired a_lane
      ("a.py" ∷ [])
      (an_env.clock covered_db.calls)
      (expire_coverage an_env a_lane (paths ("a.py" ∷ [])) covered_db).0
      covered_db
      (expire_coverage an_env a_lane (paths ("a.py" ∷ [])) covered_db).1
expire_coverage-IsExpired_example =
    expire_coverage-IsExpired a_lane an_env ("a.py" ∷ []) covered_db
      (record { enabled = refl; up = refl })

transition-IsMoved_example :
    ((transition an_env a_lane (uuid 1) "fixed" "done" a_db).0
      ≡ any (λ r. is_row a_lane 1 r && is_open r.status) a_db.findings)
    × Pairs
        (IsMoved a_lane 1 fixed)
        a_db.findings
        (transition an_env a_lane (uuid 1) "fixed" "done" a_db).1.findings
    × ((transition an_env a_lane (uuid 1) "fixed" "done" a_db).1.coverage ≡ a_db.coverage)
transition-IsMoved_example =
    transition-IsMoved an_env a_lane 1 "fixed" "done" fixed a_db served known

reopen-IsRaised_example :
    ((reopen an_env a_lane (uuid 0) "again" a_db).0
      ≡ any (λ r. is_row a_lane 0 r && is_reopenable r.status) a_db.findings)
    × Pairs
        (IsRaised a_lane 0)
        a_db.findings
        (reopen an_env a_lane (uuid 0) "again" a_db).1.findings
    × ((reopen an_env a_lane (uuid 0) "again" a_db).1.coverage ≡ a_db.coverage)
reopen-IsRaised_example = reopen-IsRaised an_env a_lane 0 "again" a_db served

round-Off_example :
    let before = carry_in an_env a_lane off_carry a_db in
    let after = settle no_fold an_env a_lane a_carried off_round a_db in
    (before.0.rows ≡ [])
    × (before.0.truncated ≡ 0)
    × (before.1.findings ≡ a_db.findings)
    × (after.1.findings ≡ a_db.findings)
    × (after.0 ≡ record {
      closed = 0;
      reasserted = 0;
      recorded = 0;
      deduped = [];
      reopened = [];
      coverage = after.0.coverage;
    })
round-Off_example = round-Off an_env a_lane no_fold off_carry a_carried off_round a_db refl refl

carry_in-IsShown_example : IsShown a_tree (carry_in an_env a_lane a_carry a_db).0.state
carry_in-IsShown_example = carry_in-IsShown an_env a_lane a_carry a_db

carry_in-OpenRow_example :
    OpenRow no_fold a_lane 1
      (claim_anchor no_fold "a.py" "race")
      (carry_in an_env a_lane a_carry a_db).1
carry_in-OpenRow_example =
    carry_in-OpenRow no_fold a_lane an_env 1 (claim_anchor no_fold "a.py" "race") a_carry a_db
      a_tree-FileStays a_db-OpenRow

accepted_status-IsAccepted_example :
    IsAccepted a_carried.state.ids still_here.prior_status
      (accepted_status a_carried.state still_here.prior_status)
accepted_status-IsAccepted_example =
    accepted_status-IsAccepted a_carried.state still_here.prior_status
