-- ===== src/Ledger/Steps.antt =====
-- What every call does to the database is a sequence of a few transactions. A relation that each of
-- these transactions keeps is kept by `carry_in` and by `settle`, whatever the environment does.
use fuko_pr.Prelude.{
  ℕ, suc, String, Bool, true, false, Option, none, some, List, [], ◌∷◌, if◌then◌else◌,
}
use fuko_pr.Ledger.Rows.{Lane, Status, Db, Env, FindingId, uuid, malformed, parse_status}
use fuko_pr.Ledger.Actions.{Action, ◌>>=◌, pure, reads, best_effort}
use fuko_pr.Ledger.Writes.{
  Finding, Region, insert_findings, record_findings, move_row, transition_row, transition,
  raise_row, reopen, refresh_rows, uuids, touch_rows, touch_findings,
}
use fuko_pr.Ledger.Reads.{open_findings, next_round, settled_findings}
use fuko_pr.Ledger.Coverage.{
  insert_coverage, record_coverage, live_coverage, Files, every_file, bare_text, paths, expire_rows,
  expire_coverage,
}

-- A relation between the databases before and after, kept by each transaction on a lane.
pub record Steps {ℓ} (env : Env) (lane : Lane) (P : Db → Db → Type ℓ) : Type ℓ where
  pub stay : (a : Db) → P a a
  pub join : (a b c : Db) → P a b → P b c → P a c
  pub count : (a : Db) (n : ℕ) → P a (record a { calls = n })
  pub inserts :
      (a : Db) (now round : ℕ) (head_sha : String) (fs : List Finding)
      → P a (insert_findings env lane round head_sha fs now a).1
  pub moves :
      (a : Db) (n now : ℕ) (status : Status) (reason : String)
      → P a (move_row lane n status reason now a).1
  pub raises : (a : Db) (n now : ℕ) (reason : String) → P a (raise_row lane n reason now a).1
  pub touches : (a : Db) (ids : List ℕ) (now : ℕ) → P a (refresh_rows lane ids now a).1
  pub covers :
      (a : Db) (now round : ℕ) (head_sha : String) (rs : List Region)
      → P a (insert_coverage env lane round head_sha rs now a).1
  pub expires :
      (a : Db) (files : Option (List String)) (now : ℕ) → P a (expire_rows lane files now a).1

-- An action takes any database to one that is related to it.
pub record Moves {ℓ} {A : Type 0} (P : Db → Db → Type ℓ) (m : Action A) : Type ℓ where
  pub at : (db : Db) → P db (m db).1

module _ {ℓ} {env : Env} {lane : Lane} {P : Db → Db → Type ℓ} (s : Steps env lane P) where
  pub Moves-pure : {A : Type 0} (a : A) → Moves P (pure a)
  unfolding pure
  Moves-pure a = record { at = λ db. s.stay db }

  pub Moves-bind :
      {A B : Type 0} (m : Action A) (f : A → Action B)
      → Moves P m
      → ((a : A) → Moves P (f a))
      → Moves P (m >>= f)
  unfolding ◌>>=◌
  Moves-bind m f h k = record {
    at = λ db. s.join db (m db).1 (f (m db).0 (m db).1).1 (h.at db) ((k (m db).0).at (m db).1);
  }

  pub Moves-best_effort :
      {A : Type 0} (default : A) (body : ℕ → Action A)
      → ((now : ℕ) → Moves P (body now))
      → Moves P (best_effort env default body)
  unfolding best_effort
  Moves-best_effort {A} default body h = record { at = λ db. go db env.enabled (env.up db.calls) }
    where
      go :
          (db : Db) (e u : Bool)
          → P db
              (if e
                then (if u
                    then body (env.clock db.calls) (record db { calls = suc db.calls })
                    else (default, record db { calls = suc db.calls }))
                else (default, db)).1
      go db true true =
          s.join db (record db { calls = suc db.calls })
            (body (env.clock db.calls) (record db { calls = suc db.calls })).1
            (s.count db (suc db.calls))
            ((h (env.clock db.calls)).at (record db { calls = suc db.calls }))
      go db true false = s.count db (suc db.calls)
      go db false u = s.stay db

  pub Moves-if :
      {A : Type 0} (b : Bool) (m n : Action A)
      → Moves P m
      → Moves P n
      → Moves P (if b then m else n)
  Moves-if true m n h k = h
  Moves-if false m n h k = k

  pub Moves-reads : {A : Type 0} (f : Db → A) → Moves P (reads f)
  unfolding reads
  Moves-reads f = record { at = λ db. s.stay db }

  pub Moves-record_findings :
      (round : ℕ) (head_sha : String) (fs : List Finding)
      → Moves P (record_findings env lane round head_sha fs)
  unfolding record_findings
  Moves-record_findings round head_sha [] = Moves-pure 0
  Moves-record_findings round head_sha (f ∷ fs) =
      Moves-best_effort 0 (insert_findings env lane round head_sha (f ∷ fs))
        λ now. record { at = λ db. s.inserts db now round head_sha (f ∷ fs) }

  transition_row-Moves :
      (status : Option Status) (id : FindingId) (reason : String)
      → Moves P (transition_row env lane status id reason)
  unfolding transition_row
  transition_row-Moves none id reason = Moves-pure false
  transition_row-Moves (some status) (malformed t) reason = Moves-pure false
  transition_row-Moves (some status) (uuid n) reason =
      Moves-best_effort false (move_row lane n status reason)
        λ now. record { at = λ db. s.moves db n now status reason }

  pub Moves-transition :
      (id : FindingId) (status reason : String) → Moves P (transition env lane id status reason)
  unfolding transition
  Moves-transition id status reason = transition_row-Moves (parse_status status) id reason

  pub Moves-reopen : (id : FindingId) (reason : String) → Moves P (reopen env lane id reason)
  unfolding reopen
  Moves-reopen (malformed t) reason = Moves-pure false
  Moves-reopen (uuid n) reason =
      Moves-best_effort false (raise_row lane n reason)
        λ now. record { at = λ db. s.raises db n now reason }

  touch_rows-Moves : (ids : List ℕ) → Moves P (touch_rows env lane ids)
  unfolding touch_rows
  touch_rows-Moves [] = Moves-pure 0
  touch_rows-Moves (n ∷ ns) =
      Moves-best_effort 0 (refresh_rows lane (n ∷ ns))
        λ now. record { at = λ db. s.touches db (n ∷ ns) now }

  pub Moves-touch_findings : (ids : List FindingId) → Moves P (touch_findings env lane ids)
  unfolding touch_findings
  Moves-touch_findings ids = touch_rows-Moves (uuids ids)

  pub Moves-record_coverage :
      (round : ℕ) (head_sha : String) (rs : List Region)
      → Moves P (record_coverage env lane round head_sha rs)
  unfolding record_coverage
  Moves-record_coverage round head_sha [] = Moves-pure 0
  Moves-record_coverage round head_sha (r ∷ rs) =
      Moves-best_effort 0 (insert_coverage env lane round head_sha (r ∷ rs))
        λ now. record { at = λ db. s.covers db now round head_sha (r ∷ rs) }

  expire_rows-Moves :
      (files : Option (List String)) → Moves P (best_effort env 0 (expire_rows lane files))
  expire_rows-Moves files =
      Moves-best_effort 0 (expire_rows lane files)
        λ now. record { at = λ db. s.expires db files now }

  pub Moves-expire_coverage : (files : Files) → Moves P (expire_coverage env lane files)
  unfolding expire_coverage
  Moves-expire_coverage every_file = expire_rows-Moves none
  Moves-expire_coverage (bare_text t) = Moves-pure 0
  Moves-expire_coverage (paths []) = Moves-pure 0
  Moves-expire_coverage (paths (f ∷ fs)) = expire_rows-Moves (some (f ∷ fs))

  pub Moves-open_findings : (limit : ℕ) → Moves P (open_findings env lane limit)
  unfolding open_findings
  Moves-open_findings limit = Moves-best_effort _ _ λ now. Moves-reads _

  pub Moves-settled_findings : (limit : ℕ) → Moves P (settled_findings env lane limit)
  unfolding settled_findings
  Moves-settled_findings limit = Moves-best_effort _ _ λ now. Moves-reads _

  pub Moves-live_coverage : (limit : ℕ) → Moves P (live_coverage env lane limit)
  unfolding live_coverage
  Moves-live_coverage limit = Moves-best_effort _ _ λ now. Moves-reads _

  pub Moves-next_round : Moves P (next_round env lane)
  unfolding next_round
  Moves-next_round = Moves-best_effort _ _ λ now. Moves-reads _
