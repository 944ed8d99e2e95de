-- ===== src/Ledger/Settled.antt =====
-- The two ends of the matching pass of `settle` (sidecar/reviewer/ledger.py): the closed rows that
-- it may re-raise, and the findings that it records.
use fuko_pr.Prelude.{
  ℕ, suc, String, ◌≡◌, refl, ap, sym, ◌∙◌, inl, inr, Bool, true, false, List, [], ◌∷◌, arith, All,
  All-map, All-filterb, All-sort, All-take, All-of_map, any, any-append, get, set_default, is_some,
  Entries, set_default-Entries, ◌==◌, ==_iff, text_eq, pair_eq, if◌then◌else◌, Bool-cases, or_left,
  or_right,
}
use mathlib.Core.Path.{ap₂}
use fuko_pr.Ledger.Rows.{
  Lane, same_lane, same_lane_iff, lane_eq, Db, Env, uuid, max_settled_findings, clip,
}
use fuko_pr.Ledger.Actions.{◌>>=◌, pure, reads, best_effort}
use fuko_pr.Ledger.Writes.{Finding, finding_row, finding_rows, insert_findings, record_findings}
use fuko_pr.Ledger.Reads.{SettledFinding, settled_finding, read_settled, settled_findings}
use fuko_pr.Ledger.Claims.{Anchor, claim_anchor, candidates_from, reopen_candidates}
use fuko_pr.Ledger.Settle.{candidates_for, values}
use fuko_pr.Ledger.Ids.{UniqueIds, UniqueIds-All}
use fuko_pr.Ledger.OpenRows.{claim_of, is_open_claim, HasOpen, IdClaims}
use fuko_pr.Ledger.NoLoss.{FreshEntry}

-- A store is configured and every connection is served.
pub record IsServed (env : Env) : Type 0 where
  pub enabled : env.enabled ≡ true
  pub up : (n : ℕ) → env.up n ≡ true

module _ (casefold : String → String) (lane : Lane) where
  -- A closed row as the settled read returns it, whose id names its claim.
  abbrev Names : Db → SettledFinding → Type 0
  Names db r =
      (n : ℕ) × (r.id ≡ uuid n) × IdClaims casefold lane n (claim_anchor casefold r.file r.title) db

  read_settled-Names :
      (now limit : ℕ) (db : Db)
      → UniqueIds db.findings
      → All (Names db) (read_settled now lane limit db.findings)
  unfolding read_settled settled_finding
  read_settled-Names now limit db unique = All-of_map (Names db) settled_finding _ (
      All-take _ _ _ (
        All-sort _ _ _ (
          All-filterb _ _ db.findings (
            All-map _ _
              (λ r same. (
                r.id,
                refl,
                All-map _ _ (λ q k e. ap (claim_of casefold lane) (k e)) db.findings same,
              ))
              db.findings (UniqueIds-All db.findings unique)))))

  -- A closed row in the table of a claim: the row of its id is on the claim.
  abbrev pub Closed : Db → Anchor → SettledFinding → Type 0
  Closed db a r = (n : ℕ) × (r.id ≡ uuid n) × IdClaims casefold lane n a db

  candidates_from-Closed :
      (db : Db) (rows : List SettledFinding) (out : List (Anchor × SettledFinding))
      → All (Names db) rows
      → Entries (Closed db) out
      → Entries (Closed db) (candidates_from casefold out rows)
  unfolding candidates_from
  candidates_from-Closed db [] out h known = known
  candidates_from-Closed db (r ∷ rs) out h known =
      let a = claim_anchor casefold r.file r.title in
      candidates_from-Closed db rs (set_default out a r) h.1
        (set_default-Entries (Closed db) out a r h.0 known)

  settled_findings-Names :
      (env : Env) (limit : ℕ) (db : Db)
      → UniqueIds db.findings
      → let after = settled_findings env lane limit db in All (Names after.1) after.0
  unfolding settled_findings best_effort reads
  settled_findings-Names env limit db unique = served env.enabled (env.up db.calls)
    where
      counted : Db
      counted = record db { calls = suc db.calls }

      read : List SettledFinding
      read = read_settled (env.clock db.calls) lane limit db.findings

      served :
          (e u : Bool)
          → let after : List SettledFinding × Db =
              if e then (if u then (read, counted) else ([], counted)) else ([], db) in
            All (Names after.1) after.0
      served true true = read_settled-Names (env.clock db.calls) limit db unique
      served true false = tt
      served false u = tt

  pub candidates_for-Closed :
      (env : Env) (fs : List Finding) (db : Db)
      → UniqueIds db.findings
      → let after = candidates_for casefold env lane fs db in Entries (Closed after.1) after.0
  unfolding candidates_for reopen_candidates pure ◌>>=◌ get
  candidates_for-Closed env [] db unique a r e = cc
  candidates_for-Closed env (f ∷ fs) db unique a r e =
      let after = settled_findings env lane max_settled_findings db in
      candidates_from-Closed after.1 after.0 []
        (settled_findings-Names env max_settled_findings db unique) (λ a r e. cc) a r e

  -- What is recorded is open, on the claim of its finding.
  finding_row-open :
      (env : Env) (n now round : ℕ) (head_sha : String) (f : Finding) (a b : Anchor)
      → FreshEntry casefold lane (b, f)
      → b ≡ a
      → is_open_claim casefold lane a (finding_row env n now lane round head_sha f) ≡ true
  unfolding finding_row is_open_claim
  finding_row-open env n now round head_sha f a b h p =
      let same : same_lane lane lane ≡ true = (same_lane_iff lane lane).1 refl in
      let claim : claim_anchor casefold (clip f.file) (clip f.title) ≡ a =
        ap₂ (claim_anchor casefold) h.1.0 h.1.1 ∙ sym h.0 ∙ p in
      rw (same, (==_iff _ _).1 claim)

  finding_rows-HasOpen :
      (env : Env) (n now round : ℕ) (head_sha : String) (fresh : List (Anchor × Finding))
      (a : Anchor)
      → All (FreshEntry casefold lane) fresh
      → is_some (get fresh a) ≡ true
      → any
          (is_open_claim casefold lane a)
          (finding_rows env n now lane round head_sha (values fresh))
        ≡ true
  unfolding finding_rows get
  finding_rows-HasOpen env n now round head_sha [] a h e = cc
  finding_rows-HasOpen env n now round head_sha ((b, f) ∷ fresh) a h e =
      elim (Bool-cases (b == a)) [
        | inl same ↦
            or_left _ _ (finding_row-open env n now round head_sha f a b h.0 ((==_iff b a).0 same))
        | inr differ ↦
            or_right _ _
              (finding_rows-HasOpen env (suc n) now round head_sha fresh a h.1 (rw differ at e))
      ]

  -- With every connection served, a fresh claim has an open row once it is recorded.
  pub record_fresh :
      (env : Env) (round : ℕ) (head_sha : String) (fresh : List (Anchor × Finding)) (a : Anchor)
      (db : Db)
      → IsServed env
      → All (FreshEntry casefold lane) fresh
      → is_some (get fresh a) ≡ true
      → HasOpen casefold lane a (record_findings env lane round head_sha (values fresh) db).1
  unfolding record_findings insert_findings best_effort get
  record_fresh env round head_sha [] a db s h e = cc
  record_fresh env round head_sha (x ∷ fresh) a db s h e =
      rw (s.enabled, s.up db.calls, any-append)
        (or_right _ _ (
          finding_rows-HasOpen env db.minted (env.clock db.calls) round head_sha (x ∷ fresh) a h e))

  -- The read of the closed rows changes no row.
  settled_findings-findings :
      (env : Env) (limit : ℕ) (db : Db)
      → (settled_findings env lane limit db).1.findings ≡ db.findings
  unfolding settled_findings best_effort reads
  settled_findings-findings env limit db = ground arith

  pub candidates_for-findings :
      (env : Env) (fs : List Finding) (db : Db)
      → (candidates_for casefold env lane fs db).1.findings ≡ db.findings
  unfolding candidates_for reopen_candidates pure ◌>>=◌
  candidates_for-findings env [] db = refl
  candidates_for-findings env (f ∷ fs) db = settled_findings-findings env max_settled_findings db
