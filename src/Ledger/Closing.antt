-- ===== src/Ledger/Closing.antt =====
-- What may close a finding (sidecar/reviewer/ledger.py, `settle`): an accepted verdict on it, and
-- nothing else.
use fuko_pr.Prelude.{
  ℕ, ◌⊎◌, ◌==◌, ==_iff, ◌&&◌, has_text, String, ◌≡◌, ◌≢◌, ◌∙◌, sym, ap, Bool, true, false, Option,
  none, some, List, [], ◌∷◌, arith, All, get, text_eq, pair_eq, nat_eq, Option-cases, Bool-cases,
  inl, inr, or_left, any-append,
}
use fuko_pr.Ledger.Rows.{Lane, FindingRow, Db, Env, FindingId, uuid, malformed}
use fuko_pr.Ledger.Table.{any-update_where}
use fuko_pr.Ledger.Actions.{◌>>=◌, pure}
use fuko_pr.Ledger.Writes.{
  Finding, insert_findings, record_findings, may_reopen, set_reopened, raise_row, reopen, may_touch,
  set_touched, refresh_rows, uuids, touch_rows, touch_findings,
}
use fuko_pr.Ledger.Reads.{SettledFinding}
use fuko_pr.Ledger.Prior.{PriorId, prior_id_eq, Verdict, accepted_status}
use fuko_pr.Ledger.Carry.{CarriedState}
use fuko_pr.Ledger.Claims.{Anchor}
use fuko_pr.Ledger.Settle.{
  Verdicts, no_verdicts, Matching, SettleArgs, closes, apply_to_row, apply_verdict, apply_verdicts,
  raise_claim, match_claim, match_finding, match_findings, values, settle_findings, settle_claims,
  settle,
}
use fuko_pr.Ledger.Keeps.{Keeps, Keeps-pure, Keeps-bind, Keeps-if, Keeps-best_effort}
use fuko_pr.Ledger.OpenRows.{is_open_row, OpenRow, transition-OpenRow}
use fuko_pr.Ledger.Settled.{candidates_for-findings}
use fuko_pr.Ledger.Published.{settle_coverage-findings}

module _ (casefold : String → String) (lane : Lane) (env : Env) (n : ℕ) (anchor : Anchor) where
  abbrev IsOpen : Db → Type 0
  IsOpen = OpenRow casefold lane n anchor

  reopen-keeps :
      (m now : ℕ) (reason : String) (r : FindingRow)
      → may_reopen lane m r ≡ true
      → is_open_row casefold lane n anchor r ≡ true
      → is_open_row casefold lane n anchor (set_reopened reason now r) ≡ true
  unfolding may_reopen is_open_row set_reopened
  reopen-keeps m now reason r h k = ground arith

  reopen-IsOpen : (id : FindingId) (reason : String) → Keeps IsOpen (reopen env lane id reason)
  unfolding reopen raise_row
  reopen-IsOpen (malformed t) reason = Keeps-pure false
  reopen-IsOpen (uuid m) reason =
      Keeps-best_effort env false (raise_row lane m reason) (λ db k h. h)
        λ now. record {
          at = λ db h.
              any-update_where (is_open_row casefold lane n anchor) (may_reopen lane m) _
                (reopen-keeps m now reason) db.findings h;
        }

  touch-keeps :
      (ids : List ℕ) (now : ℕ) (r : FindingRow)
      → may_touch lane ids r ≡ true
      → is_open_row casefold lane n anchor r ≡ true
      → is_open_row casefold lane n anchor (set_touched now r) ≡ true
  unfolding is_open_row set_touched
  touch-keeps ids now r h k = k

  touch_rows-IsOpen : (ids : List ℕ) → Keeps IsOpen (touch_rows env lane ids)
  unfolding touch_rows refresh_rows
  touch_rows-IsOpen [] = Keeps-pure 0
  touch_rows-IsOpen (m ∷ ms) =
      Keeps-best_effort env 0 (refresh_rows lane (m ∷ ms)) (λ db k h. h)
        λ now. record {
          at = λ db h.
              any-update_where (is_open_row casefold lane n anchor) (may_touch lane (m ∷ ms)) _
                (touch-keeps (m ∷ ms) now) db.findings h;
        }

  record-IsOpen :
      (round : ℕ) (head_sha : String) (fs : List Finding)
      → Keeps IsOpen (record_findings env lane round head_sha fs)
  unfolding record_findings insert_findings
  record-IsOpen round head_sha [] = Keeps-pure 0
  record-IsOpen round head_sha (f ∷ fs) =
      Keeps-best_effort env 0 (insert_findings env lane round head_sha (f ∷ fs)) (λ db k h. h)
        λ now. record { at = λ db h. rw any-append (or_left _ _ h) }

  raise_claim-IsOpen :
      (round : ℕ) (m : Matching) (a : Anchor) (f : Finding) (row : Option SettledFinding)
      → Keeps IsOpen (raise_claim env lane round m a f row)
  unfolding raise_claim
  raise_claim-IsOpen round m a f none = Keeps-pure _
  raise_claim-IsOpen round m a f (some row) =
      Keeps-bind _ _ (reopen-IsOpen row.id _) (λ b. Keeps-pure _)

  match_claim-IsOpen :
      (round : ℕ) (m : Matching) (a : Anchor) (f : Finding) (row : Option FindingId)
      → Keeps IsOpen (match_claim env lane round m a f row)
  unfolding match_claim
  match_claim-IsOpen round m a f (some id) = Keeps-pure _
  match_claim-IsOpen round m a f none =
      Keeps-if _ _ _ (Keeps-pure _) (raise_claim-IsOpen round m a f (get m.candidates a))

  match_findings-IsOpen :
      (round : ℕ) (m : Matching) (fs : List Finding)
      → Keeps IsOpen (match_findings casefold env lane round m fs)
  unfolding match_findings match_finding
  match_findings-IsOpen round m [] = Keeps-pure m
  match_findings-IsOpen round m (f ∷ fs) =
      Keeps-bind _ _ (match_claim-IsOpen round m _ f _) (λ m'. match_findings-IsOpen round m' fs)

  settle_findings-IsOpen :
      (carried : CarriedState) (args : SettleArgs) (v : Verdicts)
      → Keeps IsOpen (settle_findings casefold env lane carried args v)
  unfolding settle_findings touch_findings
  settle_findings-IsOpen carried args v =
      Keeps-bind _ _
        (record { at = λ db h. rw (candidates_for-findings casefold lane env args.findings db) h })
        (λ c. Keeps-bind _ _ (match_findings-IsOpen carried.round _ args.findings) (λ m.
          Keeps-bind _ _ (touch_rows-IsOpen (uuids m.touch)) (λ _.
            Keeps-bind _ _ (record-IsOpen carried.round args.head_sha (values m.fresh))
              (λ k. Keeps-pure _))))

  -- What the contract of the verdicts calls a closing one.
  abbrev pub IsClosing : Verdict → Type 0
  IsClosing e = (e.status ≡ "fixed") ⊎ ((e.status ≡ "rejected") × (has_text e.reason ≡ true))

  closes-IsClosing : (e : Verdict) → closes e ≡ true → IsClosing e
  unfolding closes
  closes-IsClosing e h = elim (Bool-cases (e.status == "fixed")) [
    | inl fixed_ ↦ inl ((==_iff e.status "fixed").0 fixed_)
    | inr other_ ↦
        let k : ((e.status == "rejected") && has_text e.reason) ≡ true = ground arith in
        inr ((==_iff e.status "rejected").0 (ground arith), ground arith)
  ]

  -- No verdict of the list closes the row.
  abbrev pub Spares : List (PriorId × FindingId) → List Verdict → Type 0
  Spares rows = All (λ (e : Verdict). IsClosing e → get rows e.id ≢ some (uuid n))

  apply_to_row-IsOpen :
      (v : Verdicts) (e : Verdict) (id : FindingId)
      → (closes e ≡ true → uuid n ≢ id)
      → Keeps IsOpen (apply_to_row env lane v e id)
  unfolding apply_to_row
  apply_to_row-IsOpen v e id spared = elim (Bool-cases (closes e)) [
    | inl closing ↦ rw closing (
        Keeps-bind _ _
          (transition-OpenRow casefold lane env n anchor id e.status _ (spared closing))
          (λ b. Keeps-pure _))
    | inr open_ ↦ rw open_ (Keeps-pure _)
  ]

  apply_verdict-IsOpen :
      (rows : List (PriorId × FindingId)) (v : Verdicts) (e : Verdict)
      → (IsClosing e → get rows e.id ≢ some (uuid n))
      → Keeps IsOpen (apply_verdict env lane rows v e)
  unfolding apply_verdict
  apply_verdict-IsOpen rows v e spared = elim (Option-cases (get rows e.id)) [
    | inl none_ ↦ rw (none_, apply_verdict) (Keeps-pure v)
    | inr (id, some_) ↦
        rw (some_, apply_verdict)
          (apply_to_row-IsOpen v e id
            (λ c p. spared (closes-IsClosing e c) (some_ ∙ ap some (sym p))))
  ]

  apply_verdicts-IsOpen :
      (rows : List (PriorId × FindingId)) (v : Verdicts) (es : List Verdict)
      → Spares rows es
      → Keeps IsOpen (apply_verdicts env lane rows v es)
  unfolding apply_verdicts
  apply_verdicts-IsOpen rows v [] h = Keeps-pure v
  apply_verdicts-IsOpen rows v (e ∷ es) h =
      Keeps-bind _ _ (apply_verdict-IsOpen rows v e h.0)
        (λ v'. apply_verdicts-IsOpen rows v' es h.1)

  settle_claims-IsOpen :
      (carried : CarriedState) (args : SettleArgs) (on : Bool)
      → Spares carried.rows (accepted_status carried.state args.prior_status)
      → Keeps IsOpen (settle_claims casefold env lane carried args on)
  unfolding settle_claims
  settle_claims-IsOpen carried args false h = Keeps-pure _
  settle_claims-IsOpen carried args true h =
      Keeps-bind _ _ (apply_verdicts-IsOpen carried.rows no_verdicts _ h)
        (λ v. settle_findings-IsOpen carried args v)

  -- A row that is open before `settle` is open on the same claim after it, unless an accepted
  -- verdict on that row closes it: `fixed`, or `rejected` with a reason. Whatever the round
  -- published and whatever calls fail, nothing else closes a finding.
  pub settle-OpenRow :
      (carried : CarriedState) (args : SettleArgs) (db : Db)
      → OpenRow casefold lane n anchor db
      → Spares carried.rows (accepted_status carried.state args.prior_status)
      → OpenRow casefold lane n anchor (settle casefold env lane carried args db).1
  unfolding settle pure ◌>>=◌
  settle-OpenRow carried args db h spares =
      rw (settle_coverage-findings casefold lane env carried args args.coverage_ledger _)
        ((settle_claims-IsOpen carried args args.findings_ledger spares).at db h)
