-- ===== src/Ledger/OpenRows.antt =====
-- Which claims have an open row (sidecar/review_state.py), and what each write does to them.
use fuko_pr.Prelude.{
  ℕ, String, ◌≡◌, ◌≢◌, refl, ◌∙◌, sym, inl, inr, Bool, true, false, ◌&&◌, Option, none, some, List,
  [], ◌∷◌, ◌++◌, arith, ltb, any, countb, All, any-append, ◌==◌, ==_iff, nat_eq, text_eq, pair_eq,
  Bool-cases,
}
use fuko_pr.Ledger.Rows.{
  Lane, same_lane, lane_eq, Status, is_open, FindingRow, Db, Env, FindingId, uuid, malformed,
  parse_status,
}
use fuko_pr.Ledger.Table.{update_where, any-update_where, All-update_where}
use fuko_pr.Ledger.Actions.{best_effort}
use fuko_pr.Ledger.Writes.{
  Finding, insert_findings, record_findings, may_transition, set_status, move_row, transition_row,
  transition, may_reopen, set_reopened, raise_row, reopen, may_touch, set_touched, refresh_rows,
  uuids, touch_rows, touch_findings,
}
use fuko_pr.Ledger.Claims.{Anchor, claim_anchor}
use fuko_pr.Ledger.Keeps.{Keeps, Keeps-pure, Keeps-best_effort}

module _ (casefold : String → String) (lane : Lane) where
  abbrev pub claim_of : FindingRow → Anchor
  claim_of r = claim_anchor casefold r.file r.title

  -- An open row of the lane on a claim.
  unfoldable pub is_open_claim : Anchor → FindingRow → Bool
  is_open_claim anchor r = same_lane r.lane lane && (is_open r.status && (claim_of r == anchor))

  -- The same, of the row with an id.
  unfoldable pub is_open_row : ℕ → Anchor → FindingRow → Bool
  unfolding is_open_claim
  is_open_row n anchor r = (r.id == n) && is_open_claim anchor r

  abbrev pub HasOpen : Anchor → Db → Type 0
  HasOpen anchor db = any (is_open_claim anchor) db.findings ≡ true

  abbrev pub OpenRow : ℕ → Anchor → Db → Type 0
  OpenRow n anchor db = any (is_open_row n anchor) db.findings ≡ true

  -- Every row with the id is on the claim.
  abbrev pub IdClaims : ℕ → Anchor → Db → Type 0
  IdClaims n anchor db = All (λ (r : FindingRow). r.id ≡ n → claim_of r ≡ anchor) db.findings

  any_open_row :
      (n : ℕ) (anchor : Anchor) (rows : List FindingRow)
      → any (is_open_row n anchor) rows ≡ true
      → any (is_open_claim anchor) rows ≡ true
  unfolding is_open_row
  any_open_row n anchor [] h = h
  any_open_row n anchor (r ∷ rs) h = ground (arith, any_open_row n anchor rs)

  pub OpenRow-HasOpen :
      (n : ℕ) (anchor : Anchor) (db : Db) → OpenRow n anchor db → HasOpen anchor db
  OpenRow-HasOpen n anchor db h = any_open_row n anchor db.findings h

  -- A transition of one row leaves the others open.
  move-other :
      (n m now : ℕ) (anchor : Anchor) (status : Status) (reason : String) (r : FindingRow)
      → n ≢ m
      → may_transition lane m r ≡ true
      → is_open_row n anchor r ≡ true
      → is_open_row n anchor (set_status status reason now r) ≡ true
  unfolding may_transition is_open_row
  move-other n m now anchor status reason r apart h k =
      absurd (apart (sym ((==_iff r.id n).0 (ground arith)) ∙ (==_iff r.id m).0 (ground arith)))

  transition_row-OpenRow :
      (env : Env) (n : ℕ) (anchor : Anchor) (status : Option Status) (id : FindingId)
      (reason : String)
      → uuid n ≢ id
      → Keeps (OpenRow n anchor) (transition_row env lane status id reason)
  unfolding transition_row move_row
  transition_row-OpenRow env n anchor none id reason apart = Keeps-pure false
  transition_row-OpenRow env n anchor (some status) (malformed t) reason apart = Keeps-pure false
  transition_row-OpenRow env n anchor (some status) (uuid m) reason apart =
      Keeps-best_effort env false (move_row lane m status reason) (λ db k h. h)
        λ now. record {
          at = λ db h.
              any-update_where (is_open_row n anchor) (may_transition lane m) _
                (λ r. move-other n m now anchor status reason r (λ e. apart (λ i. uuid (e i))))
                db.findings h;
        }

  pub transition-OpenRow :
      (env : Env) (n : ℕ) (anchor : Anchor) (id : FindingId) (status reason : String)
      → uuid n ≢ id
      → Keeps (OpenRow n anchor) (transition env lane id status reason)
  unfolding transition
  transition-OpenRow env n anchor id status reason apart =
      transition_row-OpenRow env n anchor (parse_status status) id reason apart

  raise-open :
      (anchor : Anchor) (n now : ℕ) (reason : String) (r : FindingRow)
      → may_reopen lane n r ≡ true
      → is_open_claim anchor r ≡ true
      → is_open_claim anchor (set_reopened reason now r) ≡ true
  unfolding may_reopen is_open_claim set_reopened
  raise-open anchor n now reason r h k = ground arith

  pub reopen-HasOpen :
      (env : Env) (anchor : Anchor) (id : FindingId) (reason : String)
      → Keeps (HasOpen anchor) (reopen env lane id reason)
  unfolding reopen raise_row
  reopen-HasOpen env anchor (malformed t) reason = Keeps-pure false
  reopen-HasOpen env anchor (uuid n) reason =
      Keeps-best_effort env false (raise_row lane n reason) (λ db k h. h)
        λ now. record {
          at = λ db h.
              any-update_where (is_open_claim anchor) (may_reopen lane n) _
                (raise-open anchor n now reason) db.findings h;
        }

  pub reopen-IdClaims :
      (env : Env) (n : ℕ) (anchor : Anchor) (id : FindingId) (reason : String)
      → Keeps (IdClaims n anchor) (reopen env lane id reason)
  unfolding reopen raise_row set_reopened
  reopen-IdClaims env n anchor (malformed t) reason = Keeps-pure false
  reopen-IdClaims env n anchor (uuid m) reason =
      Keeps-best_effort env false (raise_row lane m reason) (λ db k h. h)
        λ now. record {
          at = λ db h.
              All-update_where (λ (r : FindingRow). r.id ≡ n → claim_of r ≡ anchor)
                (may_reopen lane m) _ (λ r e k. k) db.findings h;
        }

  may_reopen-id : (n : ℕ) (r : FindingRow) → may_reopen lane n r ≡ true → r.id ≡ n
  unfolding may_reopen
  may_reopen-id n r h = ground arith

  raised-claim :
      (n now : ℕ) (anchor : Anchor) (reason : String) (r : FindingRow)
      → may_reopen lane n r ≡ true
      → claim_of r ≡ anchor
      → is_open_claim anchor (set_reopened reason now r) ≡ true
  unfolding may_reopen is_open_claim set_reopened
  raised-claim n now anchor reason r h k =
      let same : same_lane r.lane lane ≡ true = ground arith in
      let eq : (claim_of r == anchor) ≡ true = (==_iff (claim_of r) anchor).1 k in rw (same, eq)

  -- A row that a reopening matched is open afterwards, on the claim of its id.
  raised_row :
      (n now : ℕ) (anchor : Anchor) (reason : String) (rows : List FindingRow)
      → All (λ (r : FindingRow). r.id ≡ n → claim_of r ≡ anchor) rows
      → ltb 0 (countb (may_reopen lane n) rows) ≡ true
      → any (is_open_claim anchor) (update_where (may_reopen lane n) (set_reopened reason now) rows)
        ≡ true
  unfolding update_where
  raised_row n now anchor reason [] claims h = cc
  raised_row n now anchor reason (r ∷ rs) claims h = elim (Bool-cases (may_reopen lane n r)) [
    | inl e ↦ rw (e, raised-claim n now anchor reason r e (claims.0 (may_reopen-id n r e))) refl
    | inr e ↦ ground (arith, raised_row n now anchor reason rs claims.1)
  ]

  pub reopen-raises :
      (env : Env) (n : ℕ) (anchor : Anchor) (reason : String) (db : Db)
      → IdClaims n anchor db
      → (reopen env lane (uuid n) reason db).0 ≡ true
      → HasOpen anchor (reopen env lane (uuid n) reason db).1
  unfolding reopen best_effort raise_row
  reopen-raises env n anchor reason db claims h =
      ground (arith, raised_row n (env.clock db.calls) anchor reason db.findings claims)

  touch-open :
      (anchor : Anchor) (ids : List ℕ) (now : ℕ) (r : FindingRow)
      → may_touch lane ids r ≡ true
      → is_open_claim anchor r ≡ true
      → is_open_claim anchor (set_touched now r) ≡ true
  unfolding is_open_claim set_touched
  touch-open anchor ids now r h k = k

  touch_rows-HasOpen :
      (env : Env) (anchor : Anchor) (ids : List ℕ)
      → Keeps (HasOpen anchor) (touch_rows env lane ids)
  unfolding touch_rows refresh_rows
  touch_rows-HasOpen env anchor [] = Keeps-pure 0
  touch_rows-HasOpen env anchor (n ∷ ns) =
      Keeps-best_effort env 0 (refresh_rows lane (n ∷ ns)) (λ db k h. h)
        λ now. record {
          at = λ db h.
              any-update_where (is_open_claim anchor) (may_touch lane (n ∷ ns)) _
                (touch-open anchor (n ∷ ns) now) db.findings h;
        }

  pub touch_findings-HasOpen :
      (env : Env) (anchor : Anchor) (ids : List FindingId)
      → Keeps (HasOpen anchor) (touch_findings env lane ids)
  unfolding touch_findings
  touch_findings-HasOpen env anchor ids = touch_rows-HasOpen env anchor (uuids ids)

  any-append_left :
      (p : FindingRow → Bool) (xs ys : List FindingRow) → any p xs ≡ true → any p (xs ++ ys) ≡ true
  any-append_left p xs ys h = rw (any-append p xs ys, h)

  pub record_findings-HasOpen :
      (env : Env) (anchor : Anchor) (round : ℕ) (head_sha : String) (fs : List Finding)
      → Keeps (HasOpen anchor) (record_findings env lane round head_sha fs)
  unfolding record_findings insert_findings
  record_findings-HasOpen env anchor round head_sha [] = Keeps-pure 0
  record_findings-HasOpen env anchor round head_sha (f ∷ fs) =
      Keeps-best_effort env 0 (insert_findings env lane round head_sha (f ∷ fs)) (λ db k h. h)
        λ now. record { at = λ db h. any-append_left (is_open_claim anchor) db.findings _ h }
