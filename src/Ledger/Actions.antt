-- ===== src/Ledger/Actions.antt =====
-- Actions on the database of the ledgers, and the guard `_best_effort` round each of them.
use fuko_pr.Prelude.{ℕ, suc, nat_eq, text_eq, if◌then◌else◌}
use fuko_pr.Ledger.Rows.{lane_eq, Db, Env}

-- An action on the database.
abbrev pub Action : Type 0 → Type 0
Action A = Db → A × Db

infixl 5 ◌>>=◌ ◌>>◌
unfoldable pub ◌>>=◌ : {A B : Type 0} → Action A → (A → Action B) → Action B
◌>>=◌ m f db = let (a, db') = m db in f a db'

abbrev pub ◌>>◌ : {A B : Type 0} → Action A → Action B → Action B
m >> k = m >>= λ _. k

unfoldable pub pure : {A : Type 0} → A → Action A
pure a db = (a, db)

-- A SELECT: it changes nothing.
unfoldable pub reads : {A : Type 0} → (Db → A) → Action A
reads f db = (f db, db)

-- `_best_effort(default)` round `with db_best_effort() as conn: body`: no store configured
-- and a connection that is not served both return the neutral value and change no row. A body
-- runs at one instant, in one transaction.
unfoldable pub best_effort : {A : Type 0} → Env → A → (ℕ → Action A) → Action A
best_effort env default body db =
    let counted = record db { calls = suc db.calls } in
    let served = body (env.clock db.calls) counted in
    if env.enabled then (if env.up db.calls then served else (default, counted)) else (default, db)
