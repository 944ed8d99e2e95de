-- ===== src/Ledger/Rounds.antt =====
-- `carry_in` and `settle` as sequences of transactions: a relation that every transaction keeps is
-- kept by both.
use fuko_pr.Prelude.{
  ℕ, String, Bool, true, false, Option, none, some, List, [], ◌∷◌, get, is_some, text_eq, pair_eq,
}
use fuko_pr.Ledger.Rows.{Lane, Db, Env, FindingId}
use fuko_pr.Ledger.Actions.{pure}
use fuko_pr.Ledger.Writes.{Finding}
use fuko_pr.Ledger.Reads.{StoredFinding, SettledFinding}
use fuko_pr.Ledger.Coverage.{PriorCoverage}
use fuko_pr.Ledger.Prior.{PriorId, prior_id_eq, Verdict}
use fuko_pr.Ledger.Tree.{Tree, is_gone, tree_root}
use fuko_pr.Ledger.Carry.{
  CarryArgs, CarriedState, retire_rows, retire_missing, gone_files, drop_gone, check_tree,
  carried_coverage, load_findings, load_coverage, carry_in,
}
use fuko_pr.Ledger.Claims.{Anchor, claim_anchor, reopen_candidates}
use fuko_pr.Ledger.Settle.{
  Verdicts, Matching, SettleArgs, apply_to_row, apply_verdict, apply_verdicts, raise_claim,
  match_claim, match_finding, match_findings, candidates_for, settle_findings, settle_claims,
  settle_coverage, settle,
}
use fuko_pr.Ledger.Steps.{
  Steps, Moves, Moves-pure, Moves-bind, Moves-if, Moves-record_findings, Moves-transition,
  Moves-reopen, Moves-touch_findings, Moves-record_coverage, Moves-expire_coverage,
  Moves-open_findings, Moves-settled_findings, Moves-live_coverage, Moves-next_round,
}

module _ {ℓ} {env : Env} {lane : Lane} {P : Db → Db → Type ℓ} (s : Steps env lane P) where
  retire_rows-Moves :
      (tree : Tree) (root head_sha : String) (rows : List StoredFinding)
      → Moves P (retire_rows env lane tree root head_sha rows)
  unfolding retire_rows
  retire_rows-Moves tree root head_sha [] = Moves-pure s []
  retire_rows-Moves tree root head_sha (r ∷ rs) =
      let ih = retire_rows-Moves tree root head_sha rs in
      Moves-if s (is_gone tree root r.prior.file) _ _
        (Moves-bind s _ _ (Moves-transition s r.id "stale" _) (λ _. ih))
        (Moves-bind s _ _ ih (λ live. Moves-pure s _))

  retire_missing-Moves :
      (tree : Tree) (head_sha : String) (rows : List StoredFinding)
      → Moves P (retire_missing env lane tree head_sha rows)
  unfolding retire_missing
  retire_missing-Moves tree head_sha rows =
      elim (tree_root tree)
        as (λ o. Moves P (elim o [
          | none ↦ pure rows
          | some root ↦ retire_rows env lane tree root head_sha rows
        ])) [ none ↦ Moves-pure s rows | some root ↦ retire_rows-Moves tree root head_sha rows ]

  drop_gone-Moves :
      (kept : List PriorCoverage) (hollow : ℕ) (gone : List String)
      → Moves P (drop_gone env lane kept hollow gone)
  unfolding drop_gone
  drop_gone-Moves kept hollow [] = Moves-pure s _
  drop_gone-Moves kept hollow (g ∷ gs) =
      Moves-bind s _ _ (Moves-expire_coverage s _) (λ n. Moves-pure s _)

  check_tree-Moves :
      (tree : Tree) (kept : List PriorCoverage) (hollow : ℕ)
      → Moves P (check_tree env lane tree kept hollow)
  unfolding check_tree
  check_tree-Moves tree kept hollow =
      elim (tree_root tree)
        as (λ o. Moves P (elim o [
          | none ↦ pure (record { kept = kept; hollow = hollow; retired = 0 })
          | some root ↦ drop_gone env lane kept hollow (gone_files tree root kept)
        ])) [ none ↦ Moves-pure s _ | some root ↦ drop_gone-Moves kept hollow _ ]

  load_findings-Moves :
      (tree : Tree) (head_sha : String) (on : Bool)
      → Moves P (load_findings env lane tree head_sha on)
  unfolding load_findings
  load_findings-Moves tree head_sha false = Moves-pure s _
  load_findings-Moves tree head_sha true =
      Moves-bind s _ _ (Moves-open_findings s _)
        (λ o. Moves-bind s _ _ (retire_missing-Moves tree head_sha _) (λ l. Moves-pure s _))

  load_coverage-Moves : (tree : Tree) (on : Bool) → Moves P (load_coverage env lane tree on)
  unfolding load_coverage carried_coverage
  load_coverage-Moves tree false = Moves-pure s _
  load_coverage-Moves tree true =
      Moves-bind s _ _ (Moves-live_coverage s _) (λ rows. check_tree-Moves tree _ _)

  pub Moves-carry_in : (args : CarryArgs) → Moves P (carry_in env lane args)
  unfolding carry_in
  Moves-carry_in args = Moves-bind s _ _ (Moves-expire_coverage s _) (λ e.
      Moves-bind s _ _ (load_findings-Moves args.tree args.head_sha args.findings_ledger) (λ l.
        Moves-bind s _ _ (load_coverage-Moves args.tree args.coverage_ledger)
          (λ c. Moves-bind s _ _ (Moves-next_round s) (λ r. Moves-pure s _))))

  apply_to_row-Moves :
      (v : Verdicts) (e : Verdict) (id : FindingId) → Moves P (apply_to_row env lane v e id)
  unfolding apply_to_row
  apply_to_row-Moves v e id =
      Moves-if s _ _ _ (Moves-bind s _ _ (Moves-transition s id e.status _) (λ b. Moves-pure s _))
        (Moves-pure s _)

  apply_verdict-Moves :
      (rows : List (PriorId × FindingId)) (v : Verdicts) (e : Verdict)
      → Moves P (apply_verdict env lane rows v e)
  unfolding apply_verdict
  apply_verdict-Moves rows v e =
      elim (get rows e.id)
        as (λ o.
          Moves P (elim o [ none ↦ pure v | some row_id ↦ apply_to_row env lane v e row_id ])) [
            | none ↦ Moves-pure s _
            | some row_id ↦ apply_to_row-Moves v e row_id
          ]

  pub apply_verdicts-Moves :
      (rows : List (PriorId × FindingId)) (v : Verdicts) (es : List Verdict)
      → Moves P (apply_verdicts env lane rows v es)
  unfolding apply_verdicts
  apply_verdicts-Moves rows v [] = Moves-pure s v
  apply_verdicts-Moves rows v (e ∷ es) =
      Moves-bind s _ _ (apply_verdict-Moves rows v e) (λ v'. apply_verdicts-Moves rows v' es)

  raise_claim-Moves :
      (round : ℕ) (m : Matching) (anchor : Anchor) (f : Finding) (row : Option SettledFinding)
      → Moves P (raise_claim env lane round m anchor f row)
  unfolding raise_claim
  raise_claim-Moves round m anchor f none = Moves-pure s _
  raise_claim-Moves round m anchor f (some row) =
      Moves-bind s _ _ (Moves-reopen s row.id _) (λ b. Moves-pure s _)

  match_claim-Moves :
      (round : ℕ) (m : Matching) (anchor : Anchor) (f : Finding) (row : Option FindingId)
      → Moves P (match_claim env lane round m anchor f row)
  unfolding match_claim
  match_claim-Moves round m anchor f (some row_id) = Moves-pure s _
  match_claim-Moves round m anchor f none =
      Moves-if s (is_some (get m.fresh anchor)) _ _ (Moves-pure s _)
        (raise_claim-Moves round m anchor f (get m.candidates anchor))

  module _ (casefold : String → String) where
    match_finding-Moves :
        (round : ℕ) (m : Matching) (f : Finding)
        → Moves P (match_finding casefold env lane round m f)
    unfolding match_finding
    match_finding-Moves round m f =
        let anchor = claim_anchor casefold f.file f.title in
        match_claim-Moves round m anchor f (get m.still_open anchor)

    match_findings-Moves :
        (round : ℕ) (m : Matching) (fs : List Finding)
        → Moves P (match_findings casefold env lane round m fs)
    unfolding match_findings
    match_findings-Moves round m [] = Moves-pure s m
    match_findings-Moves round m (f ∷ fs) =
        Moves-bind s _ _ (match_finding-Moves round m f) (λ m'. match_findings-Moves round m' fs)

    pub candidates_for-Moves : (fs : List Finding) → Moves P (candidates_for casefold env lane fs)
    unfolding candidates_for reopen_candidates
    candidates_for-Moves [] = Moves-pure s []
    candidates_for-Moves (f ∷ fs) =
        Moves-bind s _ _ (Moves-settled_findings s _) (λ rows. Moves-pure s _)

    settle_findings-Moves :
        (carried : CarriedState) (args : SettleArgs) (v : Verdicts)
        → Moves P (settle_findings casefold env lane carried args v)
    unfolding settle_findings
    settle_findings-Moves carried args v =
        Moves-bind s _ _ (candidates_for-Moves args.findings) (λ c.
          Moves-bind s _ _ (match_findings-Moves carried.round _ args.findings) (λ m.
            Moves-bind s _ _ (Moves-touch_findings s m.touch) (λ _.
              Moves-bind s _ _ (Moves-record_findings s carried.round args.head_sha _)
                (λ n. Moves-pure s _))))

    settle_claims-Moves :
        (carried : CarriedState) (args : SettleArgs) (on : Bool)
        → Moves P (settle_claims casefold env lane carried args on)
    unfolding settle_claims
    settle_claims-Moves carried args false = Moves-pure s _
    settle_claims-Moves carried args true =
        Moves-bind s _ _ (apply_verdicts-Moves carried.rows _ _)
          (λ v. settle_findings-Moves carried args v)

    pub settle_coverage-Moves :
        (carried : CarriedState) (args : SettleArgs) (on : Bool)
        → Moves P (settle_coverage env lane carried args on)
    unfolding settle_coverage
    settle_coverage-Moves carried args false = Moves-pure s _
    settle_coverage-Moves carried args true = Moves-record_coverage s carried.round args.head_sha _

    pub Moves-settle :
        (carried : CarriedState) (args : SettleArgs)
        → Moves P (settle casefold env lane carried args)
    unfolding settle
    Moves-settle carried args =
        Moves-bind s _ _ (settle_claims-Moves carried args args.findings_ledger) (λ t.
          Moves-bind s _ _ (settle_coverage-Moves carried args args.coverage_ledger)
            (λ c. Moves-pure s _))
