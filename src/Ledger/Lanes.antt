-- ===== src/Ledger/Lanes.antt =====
-- The lanes of the ledgers (sidecar/review_state.py, sidecar/reviewer/ledger.py): what a round of
-- one (repo, pr, seat) leaves of the rows of another.
use fuko_pr.Prelude.{
  ℕ, suc, String, ◌≡◌, ◌≢◌, refl, ◌∙◌, sym, true, false, Option, none, some, List, [], ◌∷◌, arith,
  filterb, filterb-append, text_eq, Bool-cases, inl, inr,
}
use mathlib.Core.List.{append-nil}
use fuko_pr.Ledger.Rows.{Lane, same_lane, same_lane_iff, lane_eq, FindingRow, CoverageRow, Db, Env}
use fuko_pr.Ledger.Table.{filterb-update_where}
use fuko_pr.Ledger.Writes.{
  Finding, Region, finding_rows, insert_findings, may_transition, set_status, move_row, may_reopen,
  set_reopened, raise_row, may_touch, set_touched, refresh_rows,
}
use fuko_pr.Ledger.Coverage.{coverage_rows, insert_coverage, may_expire, set_expired, expire_rows}
use fuko_pr.Ledger.Carry.{CarryArgs, CarriedState, carry_in}
use fuko_pr.Ledger.Settle.{SettleArgs, settle}
use fuko_pr.Ledger.Steps.{Steps}
use fuko_pr.Ledger.Rounds.{Moves-carry_in, Moves-settle}

-- The rows of one lane.
abbrev pub findings_of : Lane → List FindingRow → List FindingRow
findings_of lane = filterb (λ r. same_lane r.lane lane)

abbrev pub coverage_of : Lane → List CoverageRow → List CoverageRow
coverage_of lane = filterb (λ r. same_lane r.lane lane)

-- Two databases show a lane the same rows, in the same order.
pub record SameLedger (lane : Lane) (a b : Db) : Type 0 where
  pub findings : findings_of lane b.findings ≡ findings_of lane a.findings
  pub coverage : coverage_of lane b.coverage ≡ coverage_of lane a.coverage

elsewhere :
    {lane other : Lane}
    → lane ≢ other
    → (x : Lane) → same_lane x lane ≡ true
    → same_lane x other ≡ false
elsewhere {lane} {other} apart x h = elim (Bool-cases (same_lane x other)) [
  | inl e ↦ absurd (apart (sym ((same_lane_iff x lane).0 h) ∙ (same_lane_iff x other).0 e))
  | inr e ↦ e
]

same_lane_self : (x : Lane) → same_lane x x ≡ true
same_lane_self x = (same_lane_iff x x).1 refl

module _ (env : Env) (lane other : Lane) (apart : lane ≢ other) where
  finding_rows-elsewhere :
      (n now round : ℕ) (head_sha : String) (fs : List Finding)
      → findings_of other (finding_rows env n now lane round head_sha fs) ≡ []
  unfolding finding_rows
  finding_rows-elsewhere n now round head_sha [] = refl
  finding_rows-elsewhere n now round head_sha (f ∷ fs) =
      rw (elsewhere apart lane (same_lane_self lane))
        (finding_rows-elsewhere (suc n) now round head_sha fs)

  coverage_rows-elsewhere :
      (n now round : ℕ) (head_sha : String) (rs : List Region)
      → coverage_of other (coverage_rows env n now lane round head_sha rs) ≡ []
  unfolding coverage_rows
  coverage_rows-elsewhere n now round head_sha [] = refl
  coverage_rows-elsewhere n now round head_sha (r ∷ rs) =
      rw (elsewhere apart lane (same_lane_self lane))
        (coverage_rows-elsewhere (suc n) now round head_sha rs)

  may_transition-elsewhere :
      (n : ℕ) (r : FindingRow) → may_transition lane n r ≡ true → same_lane r.lane other ≡ false
  unfolding may_transition
  may_transition-elsewhere n r h = elsewhere apart r.lane (ground arith)

  may_reopen-elsewhere :
      (n : ℕ) (r : FindingRow) → may_reopen lane n r ≡ true → same_lane r.lane other ≡ false
  unfolding may_reopen
  may_reopen-elsewhere n r h = elsewhere apart r.lane (ground arith)

  may_touch-elsewhere :
      (ids : List ℕ) (r : FindingRow) → may_touch lane ids r ≡ true → same_lane r.lane other ≡ false
  unfolding may_touch
  may_touch-elsewhere ids r h = elsewhere apart r.lane (ground arith)

  may_expire-elsewhere :
      (files : Option (List String)) (r : CoverageRow)
      → may_expire lane files r ≡ true
      → same_lane r.lane other ≡ false
  unfolding may_expire
  may_expire-elsewhere none r h = elsewhere apart r.lane (ground arith)
  may_expire-elsewhere (some files) r h = elsewhere apart r.lane (ground arith)

  -- Every transaction on a lane leaves the other lanes as they are.
  SameLedger-Steps : Steps env lane (SameLedger other)
  unfolding insert_findings move_row raise_row refresh_rows insert_coverage expire_rows set_status
      set_reopened set_touched set_expired
  SameLedger-Steps = record {
    stay = λ a. record { findings = refl; coverage = refl };
    join = λ a b c p q. record {
      findings = q.findings ∙ p.findings;
      coverage = q.coverage ∙ p.coverage;
    };
    count = λ a n. record { findings = refl; coverage = refl };
    inserts = λ a now round head_sha fs. record {
      findings =
          rw (filterb-append, finding_rows-elsewhere a.minted now round head_sha fs) (append-nil _);
      coverage = refl;
    };
    moves = λ a n now status reason. record {
      findings =
          filterb-update_where _ (may_transition lane n) _ (may_transition-elsewhere n)
            (may_transition-elsewhere n) a.findings;
      coverage = refl;
    };
    raises = λ a n now reason. record {
      findings =
          filterb-update_where _ (may_reopen lane n) _ (may_reopen-elsewhere n)
            (may_reopen-elsewhere n) a.findings;
      coverage = refl;
    };
    touches = λ a ids now. record {
      findings =
          filterb-update_where _ (may_touch lane ids) _ (may_touch-elsewhere ids)
            (may_touch-elsewhere ids) a.findings;
      coverage = refl;
    };
    covers = λ a now round head_sha rs. record {
      findings = refl;
      coverage =
          rw (filterb-append, coverage_rows-elsewhere a.minted now round head_sha rs)
            (append-nil _);
    };
    expires = λ a files now. record {
      findings = refl;
      coverage =
          filterb-update_where _ (may_expire lane files) _ (may_expire-elsewhere files)
            (may_expire-elsewhere files) a.coverage;
    };
  }

-- A round on one lane, from the carry to the settlement, leaves the findings and the coverage rows
-- of every other lane exactly as they were, whatever the environment does: no seat closes, reopens,
-- refreshes or expires a row of another seat, pull request or repository.
pub round-SameLedger :
    (casefold : String → String) (env : Env) (lane other : Lane) (carry : CarryArgs)
    (carried : CarriedState) (args : SettleArgs) (db : Db)
    → lane ≢ other
    → SameLedger other db (carry_in env lane carry db).1
      × SameLedger other db (settle casefold env lane carried args db).1
round-SameLedger casefold env lane other carry carried args db apart =
    let s = SameLedger-Steps env lane other apart in
    ((Moves-carry_in s carry).at db, (Moves-settle s casefold carried args).at db)
