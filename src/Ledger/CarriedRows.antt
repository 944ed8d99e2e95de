-- ===== src/Ledger/CarriedRows.antt =====
-- The carried findings of a round (sidecar/reviewer/ledger.py, `carry_in`): each has its own row,
-- open on its claim.
use fuko_pr.Prelude.{
  ℕ, zero, suc, String, ◌≡◌, ◌≢◌, refl, sym, Bool, true, false, List, [], ◌∷◌, arith, map, take,
  filterb, sort, insert_sorted, All, All-map, All-filterb, All-sort, All-take, All-of_map, All-both,
  All-insert_sorted, filterb-passes, All-any, ==_refl, nat_eq, text_eq, pair_eq, if◌then◌else◌,
}
use fuko_pr.Ledger.Rows.{Lane, lane_eq, FindingRow, Db, Env, uuid}
use fuko_pr.Ledger.Actions.{reads, best_effort}
use fuko_pr.Ledger.Reads.{
  StoredFinding, OpenLedger, is_offered, stored_finding, read_open, open_findings,
}
use fuko_pr.Ledger.Claims.{claim_anchor}
use fuko_pr.Ledger.Ids.{UniqueIds}
use fuko_pr.Ledger.OpenRows.{is_open_row, OpenRow}

-- No id stands on two rows that a read returned.
abbrev pub UniqueStored : List StoredFinding → Type 0
UniqueStored [] = Unit
UniqueStored (r ∷ rs) = All (λ (q : StoredFinding). q.id ≢ r.id) rs × UniqueStored rs

UniqueIds-filterb :
    (p : FindingRow → Bool) (rows : List FindingRow) → UniqueIds rows → UniqueIds (filterb p rows)
UniqueIds-filterb p [] u = tt
UniqueIds-filterb p (r ∷ rs) u = branch (p r) (UniqueIds-filterb p rs u.1)
  where
    branch :
        (b : Bool)
        → UniqueIds (filterb p rs)
        → UniqueIds (if b then r ∷ filterb p rs else filterb p rs)
    branch true rest = (All-filterb _ p rs u.0, rest)
    branch false rest = rest

UniqueIds-take : (n : ℕ) (rows : List FindingRow) → UniqueIds rows → UniqueIds (take n rows)
UniqueIds-take zero rows u = tt
UniqueIds-take (suc n) [] u = tt
UniqueIds-take (suc n) (r ∷ rs) u = (All-take _ n rs u.0, UniqueIds-take n rs u.1)

UniqueIds-insert_sorted :
    (le : FindingRow → FindingRow → Bool) (x : FindingRow) (rows : List FindingRow)
    → All (λ (q : FindingRow). q.id ≢ x.id) rows
    → UniqueIds rows
    → UniqueIds (insert_sorted le x rows)
unfolding insert_sorted
UniqueIds-insert_sorted le x [] h u = (tt, tt)
UniqueIds-insert_sorted le x (r ∷ rs) h u =
    branch (le x r) (UniqueIds-insert_sorted le x rs h.1 u.1)
  where
    branch :
        (b : Bool)
        → UniqueIds (insert_sorted le x rs)
        → UniqueIds (if b then x ∷ r ∷ rs else r ∷ insert_sorted le x rs)
    branch true rest = (h, u)
    branch false rest =
        (All-insert_sorted le (λ (q : FindingRow). q.id ≢ r.id) x rs (λ e. h.0 (sym e)) u.0, rest)

UniqueIds-sort :
    (le : FindingRow → FindingRow → Bool) (rows : List FindingRow)
    → UniqueIds rows
    → UniqueIds (sort le rows)
unfolding sort
UniqueIds-sort le [] u = tt
UniqueIds-sort le (r ∷ rs) u =
    UniqueIds-insert_sorted le r (sort le rs) (All-sort le (λ (q : FindingRow). q.id ≢ r.id) rs u.0)
      (UniqueIds-sort le rs u.1)

UniqueStored-map :
    (rows : List FindingRow) → UniqueIds rows → UniqueStored (map stored_finding rows)
unfolding stored_finding
UniqueStored-map [] u = tt
UniqueStored-map (r ∷ rs) u =
    (All-of_map _ stored_finding rs (All-map _ _ (λ q n e. n (cc)) rs u.0), UniqueStored-map rs u.1)

module _ (casefold : String → String) (lane : Lane) where
  -- A row that a read returned is open in the database, on its claim.
  abbrev pub StoredOpen : Db → StoredFinding → Type 0
  StoredOpen db r =
      (n : ℕ) × (r.id ≡ uuid n)
      × OpenRow casefold lane n (claim_anchor casefold r.prior.file r.prior.title) db

  offered-open :
      (now : ℕ) (r : FindingRow)
      → is_offered now lane r ≡ true
      → is_open_row casefold lane r.id (claim_anchor casefold r.file r.title) r ≡ true
  unfolding is_offered is_open_row
  offered-open now r h =
      ground (arith, ==_refl r.id, ==_refl (claim_anchor casefold r.file r.title))

  read_open-StoredOpen :
      (now limit : ℕ) (db : Db) → All (StoredOpen db) (read_open now lane limit db.findings).rows
  unfolding read_open stored_finding
  read_open-StoredOpen now limit db = All-of_map (StoredOpen db) stored_finding _ (
      All-take _ _ _ (
        All-sort _ _ _ (
          All-map _ _
            (λ r h. (r.id, refl, h.1 (is_open_row casefold lane r.id _) (offered-open now r h.0)))
            (filterb (is_offered now lane) db.findings)
            (All-both _ _ _ (filterb-passes (is_offered now lane) db.findings)
              (All-filterb _ _ db.findings (All-any db.findings))))))

  read_open-UniqueStored :
      (now limit : ℕ) (rows : List FindingRow)
      → UniqueIds rows
      → UniqueStored (read_open now lane limit rows).rows
  unfolding read_open
  read_open-UniqueStored now limit rows u =
      UniqueStored-map _
        (UniqueIds-take _ _ (UniqueIds-sort _ _ (UniqueIds-filterb (is_offered now lane) rows u)))

  -- The carried rows: distinct, each open on its claim.
  pub record Live (db : Db) (rows : List StoredFinding) : Type 0 where
    pub unique : UniqueStored rows
    pub open_rows : All (StoredOpen db) rows

  pub open_findings-Live :
      (env : Env) (limit : ℕ) (db : Db)
      → UniqueIds db.findings
      → let after = open_findings env lane limit db in Live after.1 after.0.rows
  unfolding open_findings best_effort reads
  open_findings-Live env limit db u = served env.enabled (env.up db.calls)
    where
      counted : Db
      counted = record db { calls = suc db.calls }

      nothing : OpenLedger
      nothing = record { rows = []; truncated = 0 }

      read : OpenLedger
      read = read_open (env.clock db.calls) lane limit db.findings

      served :
          (e u : Bool)
          → let after : OpenLedger × Db =
              if e then (if u then (read, counted) else (nothing, counted)) else (nothing, db) in
            Live after.1 after.0.rows
      served true true = record {
        unique = read_open-UniqueStored (env.clock db.calls) limit db.findings u;
        open_rows = read_open-StoredOpen (env.clock db.calls) limit db;
      }
      served true false = record { unique = tt; open_rows = tt }
      served false b = record { unique = tt; open_rows = tt }
