-- ===== src/Ledger/Retiring.antt =====
-- What may retire a finding before a round (sidecar/reviewer/ledger.py, `_retire_missing`).
use fuko_pr.Prelude.{
  ℕ, String, ◌≡◌, ◌∙◌, sym, ap, subst, Bool, true, false, some, List, [], ◌∷◌, arith, any, All,
  All-map, All-filterb, All-take, All-sort, All-of_map, Bool-cases, Option-cases, inl, inr,
}
use fuko_pr.Ledger.Rows.{Lane, FindingRow, Db, Env, uuid, max_open_findings}
use fuko_pr.Ledger.Actions.{◌>>=◌, pure, best_effort, reads}
use fuko_pr.Ledger.Reads.{
  StoredFinding, is_offered, oldest_first, stored_finding, clamp_limit, read_open, open_findings,
  next_round,
}
use fuko_pr.Ledger.Coverage.{expire_coverage}
use fuko_pr.Ledger.Tree.{Tree, tree_root, is_gone}
use fuko_pr.Ledger.Carry.{
  retire_rows, retire_missing, load_findings, load_coverage, expiry_targets, CarryArgs, carry_in,
}
use fuko_pr.Ledger.Claims.{Anchor}
use fuko_pr.Ledger.Keeps.{Keeps, Keeps-pure, Keeps-bind}
use fuko_pr.Ledger.OpenRows.{OpenRow, is_open_row, transition-OpenRow}
use fuko_pr.Ledger.Carried.{expire_coverage-findings, next_round-findings, load_coverage-findings}
use fuko_pr.Ledger.Modes.{open_findings-findings}

uuid_injective : {a b : ℕ} → uuid a ≡ uuid b → a ≡ b
uuid_injective e = cc

module _ (casefold : String → String) (lane : Lane) (env : Env) (n : ℕ) (anchor : Anchor)
    (tree : Tree) where
  abbrev IsOpen : Db → Type 0
  IsOpen = OpenRow casefold lane n anchor

  -- The file of the finding is not gone from a checkout that can be judged.
  abbrev pub FileStays : List FindingRow → Type 0
  FileStays rows =
      (root : String)
      → tree_root tree ≡ some root
      → All (λ (r : FindingRow). r.id ≡ n → is_gone tree root r.file ≡ false) rows

  abbrev Spared : String → StoredFinding → Type 0
  Spared root s = s.id ≡ uuid n → is_gone tree root s.prior.file ≡ false

  retire_rows-IsOpen :
      (root head_sha : String) (stored : List StoredFinding)
      → All (Spared root) stored
      → Keeps IsOpen (retire_rows env lane tree root head_sha stored)
  unfolding retire_rows
  retire_rows-IsOpen root head_sha [] h = Keeps-pure _
  retire_rows-IsOpen root head_sha (s ∷ stored) h =
      elim (Bool-cases (is_gone tree root s.prior.file)) [
        | inl gone ↦ rw gone (
            Keeps-bind _ _
              (transition-OpenRow casefold lane env n anchor s.id "stale" _
                (λ e. absurd (ground (arith, h.0 (sym e), gone))))
              (λ b. retire_rows-IsOpen root head_sha stored h.1))
        | inr here ↦
            rw here
              (Keeps-bind _ _ (retire_rows-IsOpen root head_sha stored h.1) (λ live. Keeps-pure _))
      ]

  read_open-Spared :
      (root : String) (now limit : ℕ) (rows : List FindingRow)
      → All (λ (r : FindingRow). r.id ≡ n → is_gone tree root r.file ≡ false) rows
      → All (Spared root) (read_open now lane limit rows).rows
  unfolding read_open stored_finding
  read_open-Spared root now limit rows h = All-of_map (Spared root) stored_finding _ (
      All-take _ (clamp_limit limit max_open_findings) _ (
        All-sort oldest_first _ _ (
          All-filterb _ (is_offered now lane) rows
            (All-map _ _ (λ r k e. k (uuid_injective e)) rows h))))

  open_findings-Spared :
      (root : String) (limit : ℕ) (db : Db)
      → All (λ (r : FindingRow). r.id ≡ n → is_gone tree root r.file ≡ false) db.findings
      → All (Spared root) (open_findings env lane limit db).0.rows
  unfolding open_findings best_effort reads
  open_findings-Spared root limit db h = elim (Bool-cases env.enabled) [
    | inl on ↦ elim (Bool-cases (env.up db.calls)) [
      | inl up ↦ rw (on, up) (read_open-Spared root (env.clock db.calls) limit db.findings h)
      | inr down ↦ rw (on, down) tt
    ]
    | inr off ↦ rw off tt
  ]

  IsOpen-same : (a b : Db) → b.findings ≡ a.findings → IsOpen a → IsOpen b
  IsOpen-same a b e h = ap (any (is_open_row casefold lane n anchor)) e ∙ h

  load_findings-IsOpen :
      (head_sha : String) (on : Bool) (db : Db)
      → FileStays db.findings
      → IsOpen db
      → IsOpen (load_findings env lane tree head_sha on db).1
  unfolding load_findings retire_missing pure ◌>>=◌
  load_findings-IsOpen head_sha false db stays h = h
  load_findings-IsOpen head_sha true db stays h =
      let opened = open_findings env lane max_open_findings db in
      let k : IsOpen opened.1 =
        IsOpen-same db opened.1 (open_findings-findings env lane max_open_findings db) h in
      elim (Option-cases (tree_root tree)) [
        | inl none_ ↦ rw (none_, retire_missing) k
        | inr (root, some_) ↦
            rw (some_, retire_missing)
              ((retire_rows-IsOpen root head_sha opened.0.rows
                  (open_findings-Spared root max_open_findings db (stays root some_))).at
                opened.1 k)
      ]

-- `carry_in` leaves a row open on its claim, unless the file of the row is gone from a checkout
-- that can be judged: no read, no expiry, no failed call and no other file closes a finding before
-- its round.
pub carry_in-OpenRow :
    (casefold : String → String) (lane : Lane) (env : Env) (n : ℕ) (anchor : Anchor)
    (args : CarryArgs) (db : Db)
    → FileStays casefold lane env n anchor args.tree db.findings
    → OpenRow casefold lane n anchor db
    → OpenRow casefold lane n anchor (carry_in env lane args db).1
unfolding carry_in pure ◌>>=◌
carry_in-OpenRow casefold lane env n anchor args db stays h =
    let expired = expire_coverage env lane (expiry_targets args.touched_files) db in
    let same = expire_coverage-findings lane env (expiry_targets args.touched_files) db in
    let loaded = load_findings env lane args.tree args.head_sha args.findings_ledger expired.1 in
    let covered = load_coverage env lane args.tree args.coverage_ledger loaded.1 in
    let k =
      load_findings-IsOpen casefold lane env n anchor args.tree args.head_sha args.findings_ledger
        expired.1 (subst (FileStays casefold lane env n anchor args.tree) (sym same) stays)
        (IsOpen-same casefold lane env n anchor args.tree db expired.1 same h) in
    IsOpen-same casefold lane env n anchor args.tree loaded.1 (next_round env lane covered.1).1
      (next_round-findings lane env covered.1
        ∙ load_coverage-findings lane env args.tree args.coverage_ledger loaded.1)
      k
