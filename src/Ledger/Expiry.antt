-- ===== src/Ledger/Expiry.antt =====
-- What `expire_coverage` (sidecar/review_state.py) leaves of review_coverage.
use fuko_pr.Prelude.{
  ℕ, suc, String, ◌≡◌, refl, sym, ◌⊎◌, inl, inr, Bool, true, false, some, List, [], ◌∷◌, arith,
  countb, All, All-map, All-of, map, elem, text_eq, ◌&&◌, if◌then◌else◌,
}
use fuko_pr.Ledger.Rows.{Lane, same_lane, CoverageRow, Db, Env, clip}
use fuko_pr.Ledger.Table.{update_where, Pairs, Pairs-update, Pairs-same}
use fuko_pr.Ledger.Actions.{best_effort, pure}
use fuko_pr.Ledger.Coverage.{is_live, may_expire, set_expired, expire_rows, paths, expire_coverage}
use fuko_pr.Ledger.Window.{Serves}

-- After an update that makes its test fail, no row passes the test.
update_where-none :
    (test : CoverageRow → Bool) (set : CoverageRow → CoverageRow)
    → ((r : CoverageRow) → test (set r) ≡ false)
    → (rows : List CoverageRow) → All (λ r. test r ≡ false) (update_where test set rows)
unfolding update_where
update_where-none test set h [] = tt
update_where-none test set h (r ∷ rs) = (changed (test r) refl, update_where-none test set h rs)
  where
    changed : (b : Bool) → test r ≡ b → test (if b then set r else r) ≡ false
    changed true e = h r
    changed false e = e

-- The rows of a lane on the files of a list, as the store spells them.
abbrev pub is_listed : Lane → List String → CoverageRow → Bool
is_listed lane files r = same_lane r.lane lane && elem r.file (map clip files)

set_expired-dead :
    (lane : Lane) (files : List String) (now : ℕ) (r : CoverageRow)
    → may_expire lane (some files) (set_expired now r) ≡ false
unfolding may_expire set_expired
set_expired-dead lane files now r = ground arith

-- What the call may do to a row: a live row on a listed file gets the time of the call as its expiry,
-- and no other field of it changes; any other row stays as it is.
abbrev pub IsRowExpired : Lane → List String → ℕ → CoverageRow → CoverageRow → Type 0
IsRowExpired lane files now r r' =
    ((is_live r && is_listed lane files r ≡ true) × (r' ≡ record r { expired_at = some now }))
    ⊎ ((is_live r && is_listed lane files r ≡ false) × (r' ≡ r))

IsRowExpired-hit :
    (lane : Lane) (files : List String) (now : ℕ) (r : CoverageRow)
    → may_expire lane (some files) r ≡ true
    → IsRowExpired lane files now r (set_expired now r)
unfolding may_expire set_expired
IsRowExpired-hit lane files now r h = inl (ground (arith, h), refl)

IsRowExpired-miss :
    (lane : Lane) (files : List String) (now : ℕ) (r : CoverageRow)
    → may_expire lane (some files) r ≡ false
    → IsRowExpired lane files now r r
unfolding may_expire
IsRowExpired-miss lane files now r h = inr (ground (arith, h), refl)

listed-dead :
    (lane : Lane) (files : List String) (r : CoverageRow)
    → may_expire lane (some files) r ≡ false
    → is_listed lane files r ≡ true
    → is_live r ≡ false
unfolding may_expire
listed-dead lane files r h k = ground arith

module _ (lane : Lane) where
  -- What expiring a list of files at a time promises: no listed row is live, the count is the number
  -- of the rows that it expired, each row is expired or left alone, and so are the findings.
  pub record IsExpired (files : List String) (now count : ℕ) (a b : Db) : Type 0 where
    pub dead :
        All (λ (r : CoverageRow). is_listed lane files r ≡ true → is_live r ≡ false) b.coverage
    pub counted : count ≡ countb (λ r. is_live r && is_listed lane files r) a.coverage
    pub rows : Pairs (IsRowExpired lane files now) a.coverage b.coverage
    pub findings : b.findings ≡ a.findings

  countb-listed :
      (files : List String) (rows : List CoverageRow)
      → countb (may_expire lane (some files)) rows
        ≡ countb (λ r. is_live r && is_listed lane files r) rows
  unfolding may_expire
  countb-listed files [] = refl
  countb-listed files (r ∷ rs) = ground (arith, countb-listed files rs)

  expire_rows-IsExpired :
      (files : List String) (now calls : ℕ) (db : Db)
      → let after = expire_rows lane (some files) now (record db { calls = calls }) in
        IsExpired files now after.0 db after.1
  unfolding expire_rows
  expire_rows-IsExpired files now calls db = record {
    dead = All-map _ _ (listed-dead lane files) _ (
        update_where-none (may_expire lane (some files)) (set_expired now)
          (set_expired-dead lane files now) db.coverage);
    counted = countb-listed files db.coverage;
    rows =
        Pairs-update _ (may_expire lane (some files)) (set_expired now)
          (IsRowExpired-hit lane files now) (IsRowExpired-miss lane files now) db.coverage;
    findings = refl;
  }

  countb-none : (rows : List CoverageRow) → countb (λ r. is_live r && is_listed lane [] r) rows ≡ 0
  countb-none [] = refl
  countb-none (r ∷ rs) = ground (arith, countb-none rs)

  -- A served `expire_coverage` on a list of files leaves no live row of the lane on a listed file,
  -- counts the rows that were, and sets their expiry to the time of the call. No other field of them
  -- changes, and every other row, one on a listed file that was expired before included, and every
  -- finding stays as it is, whatever the texts of the list are.
  pub expire_coverage-IsExpired :
      (env : Env) (files : List String) (db : Db)
      → Serves env db
      → let after = expire_coverage env lane (paths files) db in
        IsExpired files (env.clock db.calls) after.0 db after.1
  unfolding expire_coverage best_effort pure
  expire_coverage-IsExpired env [] db s = record {
    dead = All-of _ (λ r h. ground arith) db.coverage;
    counted = sym (countb-none db.coverage);
    rows = Pairs-same _ (λ r. inr (ground arith, refl)) db.coverage;
    findings = refl;
  }
  expire_coverage-IsExpired env (f ∷ fs) db s =
      rw (s.enabled, s.up) (expire_rows-IsExpired (f ∷ fs) (env.clock db.calls) (suc db.calls) db)
