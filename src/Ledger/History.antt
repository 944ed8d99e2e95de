-- ===== src/Ledger/History.antt =====
-- The rows of review_findings over time (sidecar/review_state.py): which columns a call may change,
-- and how.
use fuko_pr.Prelude.{
  ℕ, ◌+◌, ◌≤◌, ◌<◌, String, ◌≡◌, ◌≢◌, refl, ◌∙◌, Bool, true, false, List, [], ◌∷◌, ◌++◌, arith,
  if◌then◌else◌,
}
use fuko_pr.Ledger.Rows.{Lane, Status, opened, fixed, rejected, stale, FindingRow, Db, Env}
use fuko_pr.Ledger.Table.{update_where}
use fuko_pr.Ledger.Writes.{
  insert_findings, may_transition, set_status, move_row, may_reopen, set_reopened, raise_row,
  set_touched, refresh_rows,
}
use fuko_pr.Ledger.Coverage.{insert_coverage, expire_rows}
use fuko_pr.Ledger.Carry.{CarryArgs, CarriedState, carry_in}
use fuko_pr.Ledger.Settle.{SettleArgs, settle}
use fuko_pr.Ledger.Steps.{Steps}
use fuko_pr.Ledger.Rounds.{Moves-carry_in, Moves-settle}

-- The later state `b` of a row `a`: what a round published stays as it was published, a stale row
-- stays stale, and a closed row is open again only with a higher count of reopenings.
pub record Later (a b : FindingRow) : Type 0 where
  pub id : b.id ≡ a.id
  pub lane : b.lane ≡ a.lane
  pub round : b.round ≡ a.round
  pub head_sha : b.head_sha ≡ a.head_sha
  pub file : b.file ≡ a.file
  pub line : b.line ≡ a.line
  pub severity : b.severity ≡ a.severity
  pub category : b.category ≡ a.category
  pub title : b.title ≡ a.title
  pub body : b.body ≡ a.body
  pub evidence : b.evidence ≡ a.evidence
  pub created_at : b.created_at ≡ a.created_at
  pub reopened : a.reopened ≤ b.reopened
  pub stays_stale : a.status ≡ stale → b.status ≡ stale
  pub counted : a.status ≢ opened → b.status ≡ opened → a.reopened < b.reopened

-- Each row of the first list stands at its place in the second, in a later state; new rows follow.
abbrev pub Extends : List FindingRow → List FindingRow → Type 0
Extends [] ys = Unit
Extends (a ∷ xs) [] = ⊥
Extends (a ∷ xs) (b ∷ ys) = Later a b × Extends xs ys

-- The columns that a call may set are the status with its reason, the update and the count.
Later-set :
    (a : FindingRow) (status : Status) (reason : String) (now reopened : ℕ)
    → a.reopened ≤ reopened
    → (a.status ≡ stale → status ≡ stale)
    → (a.status ≢ opened → status ≡ opened → a.reopened < reopened)
    → Later a (record a {
      status = status;
      status_reason = reason;
      updated_at = now;
      reopened = reopened;
    })
Later-set a status reason now reopened h k l = record {
  id = refl;
  lane = refl;
  round = refl;
  head_sha = refl;
  file = refl;
  line = refl;
  severity = refl;
  category = refl;
  title = refl;
  body = refl;
  evidence = refl;
  created_at = refl;
  reopened = h;
  stays_stale = k;
  counted = l;
}

Later-refl : (a : FindingRow) → Later a a
Later-refl a =
    Later-set a a.status a.status_reason a.updated_at a.reopened (omega arith) (λ e. e)
      (λ n e. absurd (n e))

counted_trans :
    (a b c : FindingRow)
    → Later a b
    → Later b c
    → a.status ≢ opened
    → c.status ≡ opened
    → a.reopened < c.reopened
counted_trans a b c p q n e = by_status b.status refl
  where
    by_status : (s : Status) → b.status ≡ s → a.reopened < c.reopened
    by_status opened h = omega (arith, p.counted n h, q.reopened)
    by_status fixed h = omega (arith, q.counted (λ k. cc) e, p.reopened)
    by_status rejected h = omega (arith, q.counted (λ k. cc) e, p.reopened)
    by_status stale h = omega (arith, q.counted (λ k. cc) e, p.reopened)

Later-trans : (a b c : FindingRow) → Later a b → Later b c → Later a c
Later-trans a b c p q = record {
  id = q.id ∙ p.id;
  lane = q.lane ∙ p.lane;
  round = q.round ∙ p.round;
  head_sha = q.head_sha ∙ p.head_sha;
  file = q.file ∙ p.file;
  line = q.line ∙ p.line;
  severity = q.severity ∙ p.severity;
  category = q.category ∙ p.category;
  title = q.title ∙ p.title;
  body = q.body ∙ p.body;
  evidence = q.evidence ∙ p.evidence;
  created_at = q.created_at ∙ p.created_at;
  reopened = omega (arith, p.reopened, q.reopened);
  stays_stale = λ e. q.stays_stale (p.stays_stale e);
  counted = counted_trans a b c p q;
}

Extends-refl : (xs : List FindingRow) → Extends xs xs
Extends-refl [] = tt
Extends-refl (a ∷ xs) = (Later-refl a, Extends-refl xs)

Extends-trans : (xs ys zs : List FindingRow) → Extends xs ys → Extends ys zs → Extends xs zs
Extends-trans [] ys zs p q = tt
Extends-trans (a ∷ xs) [] zs p q = absurd p
Extends-trans (a ∷ xs) (b ∷ ys) [] p q = absurd q
Extends-trans (a ∷ xs) (b ∷ ys) (c ∷ zs) p q =
    (Later-trans a b c p.0 q.0, Extends-trans xs ys zs p.1 q.1)

Extends-append : (xs ys : List FindingRow) → Extends xs (xs ++ ys)
Extends-append [] ys = tt
Extends-append (a ∷ xs) ys = (Later-refl a, Extends-append xs ys)

Extends-update :
    (test : FindingRow → Bool) (set : FindingRow → FindingRow)
    → ((r : FindingRow) → test r ≡ true → Later r (set r))
    → (xs : List FindingRow) → Extends xs (update_where test set xs)
unfolding update_where
Extends-update test set h [] = tt
Extends-update test set h (a ∷ xs) = (changed (test a) refl, Extends-update test set h xs)
  where
    changed : (b : Bool) → test a ≡ b → Later a (if b then set a else a)
    changed true e = h a e
    changed false e = Later-refl a

moved-Later :
    (lane : Lane) (n now : ℕ) (status : Status) (reason : String) (r : FindingRow)
    → may_transition lane n r ≡ true
    → Later r (set_status status reason now r)
unfolding may_transition set_status
moved-Later lane n now status reason r h =
    Later-set r status _ now r.reopened (omega arith) (λ e. absurd (ground arith))
      (λ k e. absurd (ground arith))

raised-Later :
    (lane : Lane) (n now : ℕ) (reason : String) (r : FindingRow)
    → may_reopen lane n r ≡ true
    → Later r (set_reopened reason now r)
unfolding may_reopen set_reopened
raised-Later lane n now reason r h =
    Later-set r opened _ now (r.reopened + 1) (omega arith) (λ e. absurd (ground arith))
      (λ k e. omega arith)

touched-Later : (now : ℕ) (r : FindingRow) → Later r (set_touched now r)
unfolding set_touched
touched-Later now r =
    Later-set r r.status r.status_reason now r.reopened (omega arith) (λ e. e) (λ k e. absurd (k e))

abbrev Grows : Db → Db → Type 0
Grows a b = Extends a.findings b.findings

Grows-Steps : (env : Env) (lane : Lane) → Steps env lane Grows
unfolding insert_findings move_row raise_row refresh_rows insert_coverage expire_rows
Grows-Steps env lane = record {
  stay = λ a. Extends-refl a.findings;
  join = λ a b c p q. Extends-trans a.findings b.findings c.findings p q;
  count = λ a n. Extends-refl a.findings;
  inserts = λ a now round head_sha fs. Extends-append a.findings _;
  moves =
      λ a n now status reason. Extends-update _ _ (moved-Later lane n now status reason) a.findings;
  raises = λ a n now reason. Extends-update _ _ (raised-Later lane n now reason) a.findings;
  touches = λ a ids now. Extends-update _ _ (λ r h. touched-Later now r) a.findings;
  covers = λ a now round head_sha rs. Extends-refl a.findings;
  expires = λ a files now. Extends-refl a.findings;
}

-- Neither `carry_in` nor `settle` ever deletes a row of review_findings or changes what was
-- published in it: after the call every earlier row stands at its place with the same claim, a
-- row that was stale is stale, and a row that was closed and is open has a higher count of
-- reopenings.
pub round-Extends :
    (casefold : String → String) (env : Env) (lane : Lane) (carry : CarryArgs)
    (carried : CarriedState) (args : SettleArgs) (db : Db)
    → Extends db.findings (carry_in env lane carry db).1.findings
      × Extends db.findings (settle casefold env lane carried args db).1.findings
round-Extends casefold env lane carry carried args db =
    let s = Grows-Steps env lane in
    ((Moves-carry_in s carry).at db, (Moves-settle s casefold carried args).at db)
