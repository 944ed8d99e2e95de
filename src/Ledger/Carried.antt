-- ===== src/Ledger/Carried.antt =====
-- What `carry_in` (sidecar/reviewer/ledger.py) keeps of the open ledger, and what it leaves alone.
use fuko_pr.Prelude.{
  ℕ, String, ◌≡◌, ◌≢◌, refl, sym, ◌∙◌, Bool, true, false, List, [], ◌∷◌, arith, All, All-map,
  All-both, text_eq, pair_eq, Bool-cases, Option-cases, inl, inr,
}
use fuko_pr.Ledger.Rows.{Lane, Db, Env, max_open_findings, max_live_coverage}
use fuko_pr.Ledger.Actions.{◌>>=◌, pure, reads, best_effort}
use fuko_pr.Ledger.Writes.{transition}
use fuko_pr.Ledger.Reads.{StoredFinding, open_findings, next_round}
use fuko_pr.Ledger.Coverage.{
  PriorCoverage, Files, every_file, bare_text, paths, live_coverage, expire_rows, expire_coverage,
}
use fuko_pr.Ledger.Prior.{prior_id_eq}
use fuko_pr.Ledger.Tree.{Tree, is_gone, tree_root}
use fuko_pr.Ledger.Carry.{
  retire_rows, retire_missing, drop_gone, check_tree, carried_coverage, load_findings,
  load_coverage,
}
use fuko_pr.Ledger.Ids.{UniqueIds}
use fuko_pr.Ledger.OpenRows.{transition-OpenRow}
use fuko_pr.Ledger.CarriedRows.{StoredOpen, Live, open_findings-Live}

module _ (casefold : String → String) (lane : Lane) (env : Env) (tree : Tree)
    (root head_sha : String) where
  -- Retiring a row leaves open every row with another id.
  transition-StoredOpen :
      (db : Db) (r : StoredFinding) (status reason : String) (q : StoredFinding)
      → q.id ≢ r.id
      → StoredOpen casefold lane db q
      → StoredOpen casefold lane (transition env lane r.id status reason db).1 q
  transition-StoredOpen db r status reason q apart h = (
    h.0,
    h.1,
    (transition-OpenRow casefold lane env h.0 _ r.id status reason (λ e. apart (h.1 ∙ e))).at db
        h.2,
  )

  -- What is retired beside a row with another id leaves it open.
  retire_rows-StoredOpen :
      (rows : List StoredFinding) (q : StoredFinding) (db : Db)
      → All (λ (r : StoredFinding). q.id ≢ r.id) rows
      → StoredOpen casefold lane db q
      → StoredOpen casefold lane (retire_rows env lane tree root head_sha rows db).1 q
  unfolding retire_rows pure ◌>>=◌
  retire_rows-StoredOpen [] q db apart h = h
  retire_rows-StoredOpen (r ∷ rs) q db apart h =
      elim (Bool-cases (is_gone tree root r.prior.file)) [
        | inl gone ↦ rw gone (
            retire_rows-StoredOpen rs q (transition env lane r.id "stale" _ db).1 apart.1
              (transition-StoredOpen db r "stale" _ q apart.0 h))
        | inr here ↦ rw here (retire_rows-StoredOpen rs q db apart.1 h)
      ]

  -- A property of ids that holds of all rows holds of those that are kept.
  retire_rows-All :
      (P : StoredFinding → Type 0) (rows : List StoredFinding) (db : Db)
      → All P rows
      → All P (retire_rows env lane tree root head_sha rows db).0
  unfolding retire_rows pure ◌>>=◌
  retire_rows-All P [] db h = tt
  retire_rows-All P (r ∷ rs) db h = elim (Bool-cases (is_gone tree root r.prior.file)) [
    | inl gone ↦ rw gone (retire_rows-All P rs (transition env lane r.id "stale" _ db).1 h.1)
    | inr here ↦ rw here (h.0, retire_rows-All P rs db h.1)
  ]

  retire_rows-Live :
      (rows : List StoredFinding) (db : Db)
      → Live casefold lane db rows
      → let after = retire_rows env lane tree root head_sha rows db in
        Live casefold lane after.1 after.0
  unfolding retire_rows pure ◌>>=◌
  retire_rows-Live [] db h = h
  retire_rows-Live (r ∷ rs) db h = elim (Bool-cases (is_gone tree root r.prior.file)) [
    | inl gone ↦ rw gone (
        retire_rows-Live rs (transition env lane r.id "stale" _ db).1 (record {
          unique = h.unique.1;
          open_rows =
              All-map _ _ (λ q k. transition-StoredOpen db r "stale" _ q k.0 k.1) rs
                (All-both _ _ rs h.unique.0 h.open_rows.1);
        }))
    | inr here ↦
        let ih =
          retire_rows-Live rs db (record { unique = h.unique.1; open_rows = h.open_rows.1 }) in
        rw here (record {
          unique =
              (retire_rows-All (λ (q : StoredFinding). q.id ≢ r.id) rs db h.unique.0, ih.unique);
          open_rows = (
            retire_rows-StoredOpen rs r db (All-map _ _ (λ q n e. n (sym e)) rs h.unique.0)
                h.open_rows.0,
            ih.open_rows,
          );
        })
  ]

-- Reads and expiries change no finding.
module _ (lane : Lane) (env : Env) where
  pub expire_coverage-findings :
      (files : Files) (db : Db) → (expire_coverage env lane files db).1.findings ≡ db.findings
  unfolding expire_coverage expire_rows best_effort pure
  expire_coverage-findings every_file db = ground arith
  expire_coverage-findings (bare_text s) db = refl
  expire_coverage-findings (paths []) db = refl
  expire_coverage-findings (paths (f ∷ fs)) db = ground arith

  live_coverage-findings :
      (limit : ℕ) (db : Db) → (live_coverage env lane limit db).1.findings ≡ db.findings
  unfolding live_coverage best_effort reads
  live_coverage-findings limit db = ground arith

  pub next_round-findings : (db : Db) → (next_round env lane db).1.findings ≡ db.findings
  unfolding next_round best_effort reads
  next_round-findings db = ground arith

  drop_gone-findings :
      (kept : List PriorCoverage) (hollow : ℕ) (gone : List String) (db : Db)
      → (drop_gone env lane kept hollow gone db).1.findings ≡ db.findings
  unfolding drop_gone pure ◌>>=◌
  drop_gone-findings kept hollow [] db = refl
  drop_gone-findings kept hollow (g ∷ gs) db = expire_coverage-findings (paths (g ∷ gs)) db

  check_tree-findings :
      (tree : Tree) (kept : List PriorCoverage) (hollow : ℕ) (db : Db)
      → (check_tree env lane tree kept hollow db).1.findings ≡ db.findings
  unfolding check_tree pure
  check_tree-findings tree kept hollow db = elim (Option-cases (tree_root tree)) [
    | inl none_ ↦ rw (none_, check_tree)
    | inr (root, some_) ↦ rw (some_, check_tree) (drop_gone-findings kept hollow _ db)
  ]

  pub load_coverage-findings :
      (tree : Tree) (on : Bool) (db : Db)
      → (load_coverage env lane tree on db).1.findings ≡ db.findings
  unfolding load_coverage carried_coverage pure ◌>>=◌
  load_coverage-findings tree false db = refl
  load_coverage-findings tree true db =
      check_tree-findings tree _ _ (live_coverage env lane max_live_coverage db).1
      ∙ live_coverage-findings max_live_coverage db

module _ (casefold : String → String) (lane : Lane) (env : Env) where
  pub Live-same :
      (a b : Db) (rows : List StoredFinding)
      → b.findings ≡ a.findings
      → Live casefold lane a rows
      → Live casefold lane b rows
  Live-same a b rows e h = record {
    unique = h.unique;
    open_rows = All-map _ _ (λ q k. (k.0, k.1, rw e k.2)) rows h.open_rows;
  }

  retire_missing-Live :
      (tree : Tree) (head_sha : String) (rows : List StoredFinding) (db : Db)
      → Live casefold lane db rows
      → let after = retire_missing env lane tree head_sha rows db in
        Live casefold lane after.1 after.0
  unfolding retire_missing pure
  retire_missing-Live tree head_sha rows db h = elim (Option-cases (tree_root tree)) [
    | inl none_ ↦ rw (none_, retire_missing) h
    | inr (root, some_) ↦
        rw (some_, retire_missing) (retire_rows-Live casefold lane env tree root head_sha rows db h)
  ]

  pub load_findings-Live :
      (tree : Tree) (head_sha : String) (on : Bool) (db : Db)
      → UniqueIds db.findings
      → let after = load_findings env lane tree head_sha on db in
        Live casefold lane after.1 after.0.live
  unfolding load_findings pure ◌>>=◌
  load_findings-Live tree head_sha false db u = record { unique = tt; open_rows = tt }
  load_findings-Live tree head_sha true db u =
      let after = open_findings env lane max_open_findings db in
      retire_missing-Live tree head_sha after.0.rows after.1
        (open_findings-Live casefold lane env max_open_findings db u)
