-- ===== src/Ledger/Ids.antt =====
-- The ids of review_findings (migrations/009: `id UUID PRIMARY KEY DEFAULT gen_random_uuid()`).
use fuko_pr.Prelude.{
  ℕ, suc, ◌+◌, ◌<◌, ◌≤◌, String, ◌≡◌, ◌≢◌, refl, ◌∙◌, sym, Bool, true, false, List, [], ◌∷◌, ◌++◌,
  arith, length, All, All-map, All-append, All-both, if◌then◌else◌,
}
use fuko_pr.Ledger.Rows.{Lane, FindingRow, Db, Env}
use fuko_pr.Ledger.Table.{update_where, All-update_where}
use fuko_pr.Ledger.Writes.{
  Finding, finding_row, finding_rows, insert_findings, may_transition, set_status, move_row,
  may_reopen, set_reopened, raise_row, may_touch, set_touched, refresh_rows,
}
use fuko_pr.Ledger.Coverage.{insert_coverage, expire_rows}
use fuko_pr.Ledger.Carry.{CarryArgs, CarriedState, carry_in}
use fuko_pr.Ledger.Settle.{SettleArgs, settle}
use fuko_pr.Ledger.Steps.{Steps}
use fuko_pr.Ledger.Rounds.{Moves-carry_in, Moves-settle}

-- No id stands on two rows.
abbrev pub UniqueIds : List FindingRow → Type 0
UniqueIds [] = Unit
UniqueIds (r ∷ rs) = All (λ (q : FindingRow). q.id ≢ r.id) rs × UniqueIds rs

-- A row with the id of a row of the table is that row.
pub UniqueIds-All :
    (rows : List FindingRow)
    → UniqueIds rows
    → All (λ (r : FindingRow). All (λ (q : FindingRow). q.id ≡ r.id → q ≡ r) rows) rows
UniqueIds-All [] u = tt
UniqueIds-All (r ∷ rs) u = (
  (λ e. refl, All-map _ _ (λ q n e. absurd (n e)) rs u.0),
  All-map _ _ (λ q h. (λ e. absurd (h.0 (sym e)), h.1)) rs
      (All-both (λ (q : FindingRow). q.id ≢ r.id) _ rs u.0 (UniqueIds-All rs u.1)),
)

UniqueIds-update :
    (test : FindingRow → Bool) (set : FindingRow → FindingRow)
    → ((r : FindingRow) → (set r).id ≡ r.id)
    → (rows : List FindingRow) → UniqueIds rows
    → UniqueIds (update_where test set rows)
unfolding update_where
UniqueIds-update test set same [] u = tt
UniqueIds-update test set same (r ∷ rs) u = (
  All-map _ _ (λ q n e. n (e ∙ id_of (test r))) _
      (All-update_where (λ (q : FindingRow). q.id ≢ r.id) test set (λ q e n k. n (sym (same q) ∙ k))
        rs u.0),
  UniqueIds-update test set same rs u.1,
)
  where
    id_of : (b : Bool) → (if b then set r else r).id ≡ r.id
    id_of true = same r
    id_of false = refl

UniqueIds-append :
    (xs ys : List FindingRow)
    → UniqueIds xs
    → UniqueIds ys
    → All (λ (y : FindingRow). All (λ (x : FindingRow). y.id ≢ x.id) xs) ys
    → UniqueIds (xs ++ ys)
UniqueIds-append [] ys u v apart = v
UniqueIds-append (x ∷ xs) ys u v apart = (
  All-append _ xs ys u.0 (All-map _ _ (λ y h. h.0) ys apart),
  UniqueIds-append xs ys u.1 v (All-map _ _ (λ y h. h.1) ys apart),
)

-- `gen_random_uuid` never gives an id twice.
abbrev pub Distinct : Env → Type 0
Distinct env = (n m : ℕ) → env.uuid n ≡ env.uuid m → n ≡ m

-- Every id of the table was drawn, and none stands twice.
pub record IdsOk (env : Env) (db : Db) : Type 0 where
  pub drawn : All (λ (r : FindingRow). (k : ℕ) × (k < db.minted) × (r.id ≡ env.uuid k)) db.findings
  pub unique : UniqueIds db.findings

module _ (env : Env) (distinct : Distinct env) (lane : Lane) where
  -- The rows of one INSERT have the next ids.
  finding_rows-drawn :
      (n now round : ℕ) (head_sha : String) (fs : List Finding)
      → All
          (λ (r : FindingRow). (k : ℕ) × (n ≤ k) × (k < n + length fs) × (r.id ≡ env.uuid k))
          (finding_rows env n now lane round head_sha fs)
  unfolding finding_rows finding_row
  finding_rows-drawn n now round head_sha [] = tt
  finding_rows-drawn n now round head_sha (f ∷ fs) = (
    (n, omega arith, omega arith, refl),
    All-map _ _ (λ r h. (h.0, omega arith, omega arith, h.3)) _
        (finding_rows-drawn (suc n) now round head_sha fs),
  )

  finding_rows-UniqueIds :
      (n now round : ℕ) (head_sha : String) (fs : List Finding)
      → UniqueIds (finding_rows env n now lane round head_sha fs)
  unfolding finding_rows finding_row
  finding_rows-UniqueIds n now round head_sha [] = tt
  finding_rows-UniqueIds n now round head_sha (f ∷ fs) = (
    All-map _ _ (λ r h e. absurd (omega (arith, distinct h.0 n (sym h.3 ∙ e)))) _
        (finding_rows-drawn (suc n) now round head_sha fs),
    finding_rows-UniqueIds (suc n) now round head_sha fs,
  )

  insert-IdsOk :
      (a : Db) (now round : ℕ) (head_sha : String) (fs : List Finding)
      → IdsOk env a
      → IdsOk env (insert_findings env lane round head_sha fs now a).1
  unfolding insert_findings
  insert-IdsOk a now round head_sha fs h =
      let new = finding_rows-drawn a.minted now round head_sha fs in
      record {
        drawn =
            All-append _ a.findings _
              (All-map _ _ (λ r k. (k.0, omega (arith, k.1), k.2)) a.findings h.drawn)
              (All-map _ _ (λ r k. (k.0, k.2, k.3)) _ new);
        unique =
            UniqueIds-append a.findings _ h.unique
              (finding_rows-UniqueIds a.minted now round head_sha fs)
              (All-map _ _
                (λ y k.
                  All-map _ _
                    (λ x d e.
                      absurd (omega (arith, k.1, d.1, distinct k.0 d.0 (sym k.3 ∙ e ∙ d.2))))
                    a.findings h.drawn)
                _ new);
      }

  update-IdsOk :
      (a : Db) (test : FindingRow → Bool) (set : FindingRow → FindingRow)
      → ((r : FindingRow) → (set r).id ≡ r.id)
      → IdsOk env a
      → IdsOk env (record a { findings = update_where test set a.findings })
  update-IdsOk a test set same h = record {
    drawn = All-update_where _ test set (λ r e k. (k.0, k.1, same r ∙ k.2)) a.findings h.drawn;
    unique = UniqueIds-update test set same a.findings h.unique;
  }

  pub IdsOk-Steps : Steps env lane (λ a b. IdsOk env a → IdsOk env b)
  unfolding move_row raise_row refresh_rows insert_coverage expire_rows set_status set_reopened
      set_touched
  IdsOk-Steps = record {
    stay = λ a h. h;
    join = λ a b c p q h. q (p h);
    count = λ a n h. record { drawn = h.drawn; unique = h.unique };
    inserts = insert-IdsOk;
    moves = λ a n now status reason.
        update-IdsOk a (may_transition lane n) (set_status status reason now) (λ r. refl);
    raises =
        λ a n now reason. update-IdsOk a (may_reopen lane n) (set_reopened reason now) (λ r. refl);
    touches = λ a ids now. update-IdsOk a (may_touch lane ids) (set_touched now) (λ r. refl);
    covers = λ a now round head_sha rs h. record {
      drawn = All-map _ _ (λ r k. (k.0, omega (arith, k.1), k.2)) a.findings h.drawn;
      unique = h.unique;
    };
    expires = λ a files now h. record { drawn = h.drawn; unique = h.unique };
  }

  -- If no id is drawn twice, no two rows of review_findings ever have one id: `carry_in` and
  -- `settle` keep it, whatever they are given and whatever calls fail.
  pub round-IdsOk :
      (casefold : String → String) (carry : CarryArgs) (carried : CarriedState) (args : SettleArgs)
      (db : Db)
      → IdsOk env db
      → IdsOk env (carry_in env lane carry db).1
        × IdsOk env (settle casefold env lane carried args db).1
  round-IdsOk casefold carry carried args db h = (
    (Moves-carry_in IdsOk-Steps carry).at db h,
    (Moves-settle IdsOk-Steps casefold carried args).at db h,
  )
