-- ===== src/Ledger/Modes.antt =====
-- What switched-off ledgers and an unreadable checkout do (sidecar/reviewer/ledger.py,
-- `findings_ledger`, `_tree_root`).
use fuko_pr.Prelude.{ℕ, arith, String, ◌≡◌, refl, ◌∙◌, Bool, true, false, none, []}
use fuko_pr.Ledger.Rows.{Lane, Db, Env, max_open_findings}
use fuko_pr.Ledger.Actions.{◌>>=◌, pure, best_effort, reads}
use fuko_pr.Ledger.Reads.{open_findings}
use fuko_pr.Ledger.Coverage.{expire_coverage}
use fuko_pr.Ledger.Prior.{render_prior_state}
use fuko_pr.Ledger.Tree.{Tree, tree_root}
use fuko_pr.Ledger.Carry.{
  CarriedState, retire_missing, load_findings, expiry_targets, zip_ids, CarryArgs, carry_in,
}
use fuko_pr.Ledger.Settle.{SettleArgs, settle_claims, settle}
use fuko_pr.Ledger.Published.{settle_coverage-findings}
use fuko_pr.Ledger.Carried.{expire_coverage-findings, next_round-findings, load_coverage-findings}

module _ (env : Env) (lane : Lane) where
  -- With the findings ledger off, a round carries no finding, its verdicts and its findings change
  -- no row of review_findings, and the settlement counts nothing but coverage.
  pub round-Off :
      (casefold : String → String) (carry : CarryArgs) (carried : CarriedState) (args : SettleArgs)
      (db : Db)
      → carry.findings_ledger ≡ false
      → args.findings_ledger ≡ false
      → let before = carry_in env lane carry db in
        let after = settle casefold env lane carried args db in
        (before.0.rows ≡ [])
        × (before.0.truncated ≡ 0)
        × (before.1.findings ≡ db.findings)
        × (after.1.findings ≡ db.findings)
        × (after.0 ≡ record {
          closed = 0;
          reasserted = 0;
          recorded = 0;
          deduped = [];
          reopened = [];
          coverage = after.0.coverage;
        })
  unfolding carry_in load_findings settle settle_claims pure ◌>>=◌ render_prior_state zip_ids
  round-Off casefold carry carried args db off off' =
      let expired = expire_coverage env lane (expiry_targets carry.touched_files) db in
      rw (off, off', load_findings, settle_claims)
        (
          refl,
          refl,
          next_round-findings lane env _
              ∙ load_coverage-findings lane env carry.tree carry.coverage_ledger expired.1
              ∙ expire_coverage-findings lane env (expiry_targets carry.touched_files) db,
          settle_coverage-findings casefold lane env carried args args.coverage_ledger db,
          refl,
        )

  pub open_findings-findings :
      (limit : ℕ) (db : Db) → (open_findings env lane limit db).1.findings ≡ db.findings
  unfolding open_findings best_effort reads
  open_findings-findings limit db = ground arith

  load_findings-unjudged :
      (tree : Tree) (reason : String) (on : Bool) (db : Db)
      → tree_root tree ≡ none
      → (load_findings env lane tree reason on db).1.findings ≡ db.findings
  unfolding load_findings retire_missing pure ◌>>=◌
  load_findings-unjudged tree reason false db h = refl
  load_findings-unjudged tree reason true db h =
      rw (h, retire_missing) (open_findings-findings max_open_findings db)

  -- When the checkout cannot be judged, because it is not a directory or its path does not resolve,
  -- `carry_in` closes nothing: every row of review_findings is the same after it.
  pub carry_in-Unjudged :
      (args : CarryArgs) (db : Db)
      → tree_root args.tree ≡ none
      → (carry_in env lane args db).1.findings ≡ db.findings
  unfolding carry_in pure ◌>>=◌
  carry_in-Unjudged args db h =
      next_round-findings lane env _
      ∙ load_coverage-findings lane env args.tree args.coverage_ledger _
      ∙ load_findings-unjudged args.tree args.head_sha args.findings_ledger _ h
      ∙ expire_coverage-findings lane env (expiry_targets args.touched_files) db
