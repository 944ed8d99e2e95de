-- ===== src/Ledger/Keeps.antt =====
-- Invariants of actions on the database of the ledgers.
use fuko_pr.Prelude.{ℕ, suc, Bool, true, false, if◌then◌else◌}
use fuko_pr.Ledger.Rows.{Db, Env}
use fuko_pr.Ledger.Actions.{Action, ◌>>=◌, pure, best_effort}

-- `m` keeps `P`.
pub record Keeps {A : Type 0} (P : Db → Type 0) (m : Action A) : Type 0 where
  pub at : (db : Db) → P db → P (m db).1

-- `P` does not read the count of connections.
abbrev pub IgnoresCalls : (Db → Type 0) → Type 0
IgnoresCalls P = (db : Db) (n : ℕ) → P db → P (record db { calls = n })

module _ {P : Db → Type 0} where
  pub Keeps-pure : {A : Type 0} (a : A) → Keeps P (pure a)
  unfolding pure
  Keeps-pure a = record { at = λ db h. h }

  pub Keeps-best_effort :
      {A : Type 0} (env : Env) (default : A) (body : ℕ → Action A)
      → IgnoresCalls P
      → ((now : ℕ) → Keeps P (body now))
      → Keeps P (best_effort env default body)
  unfolding best_effort
  Keeps-best_effort {A} env default body ignores h = record {
    at = λ db p. go db p env.enabled (env.up db.calls);
  }
    where
      go :
          (db : Db)
          → P db
          → (e u : Bool)
          → P
              (if e
                then (if u
                    then body (env.clock db.calls) (record db { calls = suc db.calls })
                    else (default, record db { calls = suc db.calls }))
                else (default, db)).1
      go db p true true =
          (h (env.clock db.calls)).at (record db { calls = suc db.calls })
            (ignores db (suc db.calls) p)
      go db p true false = ignores db (suc db.calls) p
      go db p false u = p

  pub Keeps-bind :
      {A B : Type 0} (m : Action A) (f : A → Action B)
      → Keeps P m
      → ((a : A) → Keeps P (f a))
      → Keeps P (m >>= f)
  unfolding ◌>>=◌
  Keeps-bind m f h k = record { at = λ db p. (k (m db).0).at (m db).1 (h.at db p) }

  pub Keeps-if :
      {A : Type 0} (b : Bool) (m n : Action A)
      → Keeps P m
      → Keeps P n
      → Keeps P (if b then m else n)
  Keeps-if true m n h k = h
  Keeps-if false m n h k = k
