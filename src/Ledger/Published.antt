-- ===== src/Ledger/Published.antt =====
-- The end of a round (sidecar/reviewer/ledger.py, `settle`): where the published claims stand.
use fuko_pr.Prelude.{
  ℕ, String, arith, ◌≡◌, refl, inl, inr, Bool, true, false, List, [], ◌∷◌, All, All-map, get,
  text_eq, pair_eq,
}
use fuko_pr.Ledger.Rows.{Lane, Db, Env}
use fuko_pr.Ledger.Actions.{◌>>=◌, pure, best_effort}
use fuko_pr.Ledger.Coverage.{insert_coverage, record_coverage}
use fuko_pr.Ledger.Writes.{Finding, Region, record_findings, touch_findings}
use fuko_pr.Ledger.Prior.{PriorId, accepted_status}
use fuko_pr.Ledger.Carry.{CarriedState, keyed}
use fuko_pr.Ledger.Claims.{Anchor}
use fuko_pr.Ledger.Settle.{
  Verdicts, no_verdicts, Matching, SettleArgs, candidates_for, apply_verdicts, still_open_from,
  match_findings, values, settle_findings, settle_claims, settle_coverage, settle,
}
use fuko_pr.Ledger.Rounds.{apply_verdicts-Moves}
use fuko_pr.Ledger.Ids.{UniqueIds, Distinct, IdsOk, IdsOk-Steps}
use fuko_pr.Ledger.OpenRows.{HasOpen, touch_findings-HasOpen, record_findings-HasOpen}
use fuko_pr.Ledger.NoLoss.{Fits, anchor_of, Matched, Held, match_findings-Held}
use fuko_pr.Ledger.Verdicts.{
  RowsApart, AllStillOpen, apply_verdicts-StillOpen, still_open_from-NamesOpen,
}
use fuko_pr.Ledger.Settled.{IsServed, candidates_for-Closed, candidates_for-findings, record_fresh}

module _ (casefold : String → String) (lane : Lane) (env : Env) where
  -- The variables of the matching loop at its start.
  Matched-start :
      (carried : CarriedState) (settled : List PriorId) (fs : List Finding) (db : Db) (m : Matching)
      → UniqueIds db.findings
      → AllStillOpen casefold lane carried.rows db settled carried.state.ids
      → m.still_open ≡ still_open_from casefold carried.rows settled [] carried.state.ids
      → m.candidates ≡ (candidates_for casefold env lane fs db).0
      → m.fresh ≡ []
      → Matched casefold lane (candidates_for casefold env lane fs db).1 m
  unfolding get
  Matched-start carried settled fs db m unique h open_ closed_ fresh_ = record {
    is_open = λ a id e. rw (candidates_for-findings casefold lane env fs db) (
        still_open_from-NamesOpen casefold lane carried.rows db settled carried.state.ids []
          (λ b x q. cc) h a id (rw open_ at e));
    is_closed = λ a r e. candidates_for-Closed casefold lane env fs db unique a r (rw closed_ at e);
    entries = rw fresh_ tt;
  }

  -- What the matching pass holds has an open row once its writes are done.
  written :
      (round : ℕ) (head_sha : String) (m : Matching) (db : Db) (a : Anchor)
      → IsServed env
      → Matched casefold lane db m
      → Held casefold lane db m a
      → HasOpen casefold lane a
          (record_findings env lane round head_sha
            (values m.fresh)
            (touch_findings env lane m.touch db).1).1
  written round head_sha m db a s h (inl o) =
      (record_findings-HasOpen casefold lane env a round head_sha (values m.fresh)).at _
        ((touch_findings-HasOpen casefold lane env a m.touch).at db o)
  written round head_sha m db a s h (inr i) =
      record_fresh casefold lane env round head_sha m.fresh a _ s h.entries i

  settle_findings-HasOpen :
      (carried : CarriedState) (args : SettleArgs) (v : Verdicts) (db : Db)
      → IsServed env
      → UniqueIds db.findings
      → All Fits args.findings
      → AllStillOpen casefold lane carried.rows db v.settled carried.state.ids
      → All
          (λ f.
            HasOpen casefold lane
              (anchor_of casefold lane f)
              (settle_findings casefold env lane carried args v db).1)
          args.findings
  unfolding settle_findings pure ◌>>=◌
  settle_findings-HasOpen carried args v db s unique fits h =
      let c = candidates_for casefold env lane args.findings db in
      let start : Matching = record {
        still_open = still_open_from casefold carried.rows v.settled [] carried.state.ids;
        fresh = [];
        candidates = c.0;
        touch = v.touch;
        deduped = [];
        reopened = [];
      } in
      let (matched, held, holds) =
        match_findings-Held casefold lane env carried.round start args.findings c.1 fits
          (Matched-start carried v.settled args.findings db start unique h refl refl refl) in
      let m = match_findings casefold env lane carried.round start args.findings c.1 in
      All-map _ _ (λ f k. written carried.round args.head_sha m.0 m.1 _ s matched k) args.findings
        holds

  record_coverage-findings :
      (round : ℕ) (head_sha : String) (rs : List Region) (db : Db)
      → (record_coverage env lane round head_sha rs db).1.findings ≡ db.findings
  unfolding record_coverage insert_coverage best_effort pure
  record_coverage-findings round head_sha [] db = refl
  record_coverage-findings round head_sha (r ∷ rs) db = ground arith

  pub settle_coverage-findings :
      (carried : CarriedState) (args : SettleArgs) (on : Bool) (db : Db)
      → (settle_coverage env lane carried args on db).1.findings ≡ db.findings
  unfolding settle_coverage pure
  settle_coverage-findings carried args false db = refl
  settle_coverage-findings carried args true db =
      record_coverage-findings carried.round args.head_sha (keyed args.examined) db

  -- What a carried state says of the database: each of its findings has its own row, open on its
  -- claim.
  pub record IsCarried (carried : CarriedState) (db : Db) : Type 0 where
    pub apart : RowsApart carried.rows
    pub open_rows : AllStillOpen casefold lane carried.rows db [] carried.state.ids

  settle_claims-HasOpen :
      (carried : CarriedState) (args : SettleArgs) (db : Db)
      → IsServed env
      → Distinct env
      → IdsOk env db
      → All Fits args.findings
      → IsCarried carried db
      → All
          (λ f.
            HasOpen casefold lane
              (anchor_of casefold lane f)
              (settle_claims casefold env lane carried args true db).1)
          args.findings
  unfolding settle_claims ◌>>=◌
  settle_claims-HasOpen carried args db s distinct ok fits c =
      let es = accepted_status carried.state args.prior_status in
      let v = apply_verdicts env lane carried.rows no_verdicts es db in
      let kept =
        (apply_verdicts-Moves (IdsOk-Steps env distinct lane) carried.rows no_verdicts es).at db
          ok in
      settle_findings-HasOpen carried args v.0 v.1 s kept.unique fits (
        apply_verdicts-StillOpen casefold lane carried.rows env c.apart no_verdicts es
          carried.state.ids db c.open_rows)

  -- With every call of the store served and the findings ledger on, each claim that the round
  -- published has an open row of its lane after `settle`. The ids of the store are unique, the
  -- carried state describes the database, and the store keeps the file and the title of each finding
  -- whole.
  pub settle-HasOpen :
      (carried : CarriedState) (args : SettleArgs) (db : Db)
      → IsServed env
      → Distinct env
      → IdsOk env db
      → args.findings_ledger ≡ true
      → All Fits args.findings
      → IsCarried carried db
      → All
          (λ f.
            HasOpen casefold lane
              (anchor_of casefold lane f)
              (settle casefold env lane carried args db).1)
          args.findings
  unfolding settle pure ◌>>=◌
  settle-HasOpen carried args db s distinct ok on fits c =
      rw (on, settle_coverage-findings carried args args.coverage_ledger _)
        (settle_claims-HasOpen carried args db s distinct ok fits c)
