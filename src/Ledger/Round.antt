-- ===== src/Ledger/Round.antt =====
-- A whole round (sidecar/reviewer/ledger.py): `carry_in`, and `settle` on what it returned.
use fuko_pr.Prelude.{
  ℕ, suc, String, ◌≡◌, ◌≢◌, sym, ◌∙◌, ap, subst, ◌<◌, ==_refl, true, false, some, List, [], ◌∷◌,
  arith, map, All, All-map, All-both, get, ◌==◌, ==_iff, text_eq, pair_eq, Bool-cases, inl, inr,
}
use fuko_pr.Ledger.Rows.{Lane, Db, Env, FindingId}
use fuko_pr.Ledger.Actions.{◌>>=◌, pure}
use fuko_pr.Ledger.Reads.{PriorFinding, StoredFinding, next_round}
use fuko_pr.Ledger.Coverage.{expire_coverage}
use fuko_pr.Ledger.Prior.{PriorId, prior_id_eq, minted, mint_ids, render_prior_state}
use fuko_pr.Ledger.Carry.{
  CarryArgs, zip_ids, load_findings, load_coverage, expiry_targets, carry_in,
}
use fuko_pr.Ledger.Settle.{SettleArgs, settle}
use fuko_pr.Ledger.Ids.{UniqueIds, Distinct, IdsOk, round-IdsOk}
use fuko_pr.Ledger.OpenRows.{HasOpen}
use fuko_pr.Ledger.NoLoss.{Fits, anchor_of}
use fuko_pr.Ledger.Verdicts.{RowsApart, AllStillOpen}
use fuko_pr.Ledger.Settled.{IsServed}
use fuko_pr.Ledger.Published.{IsCarried, settle-HasOpen}
use fuko_pr.Ledger.CarriedRows.{UniqueStored, StoredOpen}
use fuko_pr.Ledger.Carried.{
  expire_coverage-findings, next_round-findings, load_coverage-findings, Live-same,
  load_findings-Live,
}

-- The ids of a section and the rows behind them.
abbrev priors : List StoredFinding → List PriorFinding
priors = map (λ (r : StoredFinding). r.prior)

zip_ids-avoids :
    (ids : List (PriorId × PriorFinding)) (rows : List StoredFinding) (x : FindingId)
    → All (λ (q : StoredFinding). q.id ≢ x) rows
    → (i : PriorId) → get (zip_ids ids rows) i ≢ some x
unfolding zip_ids get
zip_ids-avoids [] rows x h i e = cc
zip_ids-avoids (j ∷ ids) [] x h i e = cc
zip_ids-avoids ((j, f) ∷ ids) (r ∷ rs) x h i e = elim (Bool-cases (j == i)) [
  | inl same ↦ h.0 (cc (rw same at e))
  | inr differ ↦ zip_ids-avoids ids rs x h.1 i (rw differ at e)
]

zip_ids-RowsApart :
    (ids : List (PriorId × PriorFinding)) (rows : List StoredFinding)
    → UniqueStored rows
    → RowsApart (zip_ids ids rows)
unfolding zip_ids get
zip_ids-RowsApart [] rows u i j x p q = cc
zip_ids-RowsApart (k ∷ ids) [] u i j x p q = cc
zip_ids-RowsApart ((k, f) ∷ ids) (r ∷ rs) u i j x p q = elim (Bool-cases (k == i)) [
  | inl ki ↦ elim (Bool-cases (k == j)) [
    | inl kj ↦ sym ((==_iff k i).0 ki) ∙ (==_iff k j).0 kj
    | inr kj ↦
        let e : r.id ≡ x = cc (rw ki at p) in
        absurd (zip_ids-avoids ids rs r.id u.0 j ((rw kj at q) ∙ ap some (sym e)))
  ]
  | inr ki ↦ elim (Bool-cases (k == j)) [
    | inl kj ↦
        let e : r.id ≡ x = cc (rw kj at q) in
        absurd (zip_ids-avoids ids rs r.id u.0 i ((rw ki at p) ∙ ap some (sym e)))
    | inr kj ↦ zip_ids-RowsApart ids rs u.1 i j x (rw ki at p) (rw kj at q)
  ]
]

mint_ids-above :
    (n m : ℕ) (fs : List PriorFinding)
    → n < m
    → All (λ (e : PriorId × PriorFinding). (minted n == e.0) ≡ false) (mint_ids m fs)
unfolding mint_ids
mint_ids-above n m [] h = tt
mint_ids-above n m (f ∷ fs) h = (ground arith, mint_ids-above n (suc m) fs (omega arith))

module _ (casefold : String → String) (lane : Lane) (env : Env) where
  mint_ids-StillOpen :
      (n : ℕ) (rows : List StoredFinding) (db : Db)
      → All (StoredOpen casefold lane db) rows
      → AllStillOpen casefold lane
          (zip_ids (mint_ids n (priors rows)) rows)
          db
          []
          (mint_ids n (priors rows))
  unfolding mint_ids zip_ids get
  mint_ids-StillOpen n [] db h = tt
  mint_ids-StillOpen n (r ∷ rs) db h = (
    λ id e out.
        let same : r.id ≡ id = cc (rw (==_refl (minted n)) at e) in
        (h.0.0, sym same ∙ h.0.1, h.0.2),
    All-map _ _ (λ e k id g out. k.1 id (rw k.0 at g) out) _
        (All-both _ _ _ (mint_ids-above n (suc n) (priors rs) (omega arith))
          (mint_ids-StillOpen (suc n) rs db h.1)),
  )

  -- What `carry_in` returns describes the database that it leaves: each carried finding has a row
  -- of its own in the lane, open on its claim, whatever calls fail.
  pub carry_in-IsCarried :
      (args : CarryArgs) (db : Db)
      → UniqueIds db.findings
      → let after = carry_in env lane args db in IsCarried casefold lane env after.0 after.1
  unfolding carry_in render_prior_state pure ◌>>=◌
  carry_in-IsCarried args db u =
      let expired = expire_coverage env lane (expiry_targets args.touched_files) db in
      let u' : UniqueIds expired.1.findings =
        subst UniqueIds
          (sym (expire_coverage-findings lane env (expiry_targets args.touched_files) db)) u in
      let loaded = load_findings env lane args.tree args.head_sha args.findings_ledger expired.1 in
      let covered = load_coverage env lane args.tree args.coverage_ledger loaded.1 in
      let live =
        load_findings-Live casefold lane env args.tree args.head_sha args.findings_ledger expired.1
          u' in
      let same : (next_round env lane covered.1).1.findings ≡ loaded.1.findings =
        next_round-findings lane env covered.1
        ∙ load_coverage-findings lane env args.tree args.coverage_ledger loaded.1 in
      let live' =
        Live-same casefold lane env loaded.1 (next_round env lane covered.1).1 loaded.0.live same
          live in
      record {
        apart = zip_ids-RowsApart (mint_ids 1 (priors loaded.0.live)) loaded.0.live live'.unique;
        open_rows =
            mint_ids-StillOpen 1 loaded.0.live (next_round env lane covered.1).1 live'.open_rows;
      }

  -- A whole round with every call of the store served and the findings ledger on: after `carry_in`
  -- and `settle`, each claim that the round published has an open row of its lane, whatever the
  -- checkout, the verdicts and the earlier rows are. The ids of the store are unique, and the store
  -- keeps the file and the title of each finding whole.
  pub round-HasOpen :
      (carry : CarryArgs) (args : SettleArgs) (db : Db)
      → IsServed env
      → Distinct env
      → IdsOk env db
      → args.findings_ledger ≡ true
      → All Fits args.findings
      → let carried = carry_in env lane carry db in
        All
          (λ f.
            HasOpen casefold lane
              (anchor_of casefold lane f)
              (settle casefold env lane carried.0 args carried.1).1)
          args.findings
  round-HasOpen carry args db s distinct ok on fits =
      let carried = carry_in env lane carry db in
      settle-HasOpen casefold lane env carried.0 args carried.1 s distinct
        ((round-IdsOk env distinct lane casefold carry carried.0 args db ok).0) on fits
        (carry_in-IsCarried carry db ok.unique)
