-- ===== src/Ledger/Verdicts.antt =====
-- The verdict pass of `settle` (sidecar/reviewer/ledger.py): the carried rows that it leaves open.
use fuko_pr.Prelude.{
  ℕ, String, ◌≡◌, ◌≢◌, refl, ◌∙◌, sym, false, Option, none, some, List, [], ◌∷◌, arith, All,
  All-map, elem, get, get-put, ◌==◌, ==_iff, ==_refl, text_eq, pair_eq, Bool-cases, Option-cases,
  inl, inr,
}
use fuko_pr.Ledger.Rows.{Lane, Db, Env, FindingId, uuid}
use fuko_pr.Ledger.Actions.{◌>>=◌, pure}
use fuko_pr.Ledger.Writes.{transition}
use fuko_pr.Ledger.Reads.{PriorFinding}
use fuko_pr.Ledger.Prior.{PriorId, prior_id_eq, Verdict}
use fuko_pr.Ledger.Claims.{Anchor, claim_anchor}
use fuko_pr.Ledger.Settle.{
  Verdicts, closes, apply_to_row, apply_verdict, apply_verdicts, note_open, still_open_from,
}
use fuko_pr.Ledger.OpenRows.{HasOpen, OpenRow, OpenRow-HasOpen, transition-OpenRow}

-- Two ids of one section never stand for one row.
abbrev pub RowsApart : List (PriorId × FindingId) → Type 0
RowsApart rows =
    (i j : PriorId) (id : FindingId) → get rows i ≡ some id → get rows j ≡ some id → i ≡ j

module _ (casefold : String → String) (lane : Lane) (rows : List (PriorId × FindingId)) where
  -- The row of a carried finding, unless a verdict settled it, is open on the finding's claim.
  abbrev pub StillOpen : Db → List PriorId → PriorId × PriorFinding → Type 0
  StillOpen db settled e =
      (id : FindingId)
      → get rows e.0 ≡ some id
      → elem e.0 settled ≡ false
      → (n : ℕ) × (id ≡ uuid n)
        × OpenRow casefold lane n (claim_anchor casefold e.1.file e.1.title) db

  abbrev pub AllStillOpen : Db → List PriorId → List (PriorId × PriorFinding) → Type 0
  AllStillOpen db settled ids = All (StillOpen db settled) ids

  module _ (env : Env) (apart : RowsApart rows) where
    -- Closing one row leaves the rows of the other ids open.
    closed-StillOpen :
        (db : Db) (settled : List PriorId) (i : PriorId) (id : FindingId) (status reason : String)
        → get rows i ≡ some id
        → (e : PriorId × PriorFinding) → StillOpen db settled e
        → StillOpen (transition env lane id status reason db).1 (i ∷ settled) e
    closed-StillOpen db settled i id status reason here e h id' at_e out =
        let (n, is, open_row) = h id' at_e (ground arith) in
        let differ : (i == e.0) ≡ false = ground arith in
        let other : uuid n ≢ id = λ p.
          cc (differ, ==_refl e.0, apart i e.0 id' (here ∙ (λ k. some (sym (is ∙ p) k))) at_e) in
        (n, is, (transition-OpenRow casefold lane env n _ id status reason other).at db open_row)

    apply_to_row-StillOpen :
        (v : Verdicts) (e : Verdict) (id : FindingId) (ids : List (PriorId × PriorFinding))
        (db : Db)
        → get rows e.id ≡ some id
        → AllStillOpen db v.settled ids
        → let after = apply_to_row env lane v e id db in AllStillOpen after.1 after.0.settled ids
    unfolding apply_to_row pure ◌>>=◌
    apply_to_row-StillOpen v e id ids db here h = elim (Bool-cases (closes e)) [
      | inl yes_ ↦
          rw yes_ (All-map _ _ (closed-StillOpen db v.settled e.id id e.status _ here) ids h)
      | inr no_ ↦ rw no_ h
    ]

    apply_verdict-StillOpen :
        (v : Verdicts) (e : Verdict) (ids : List (PriorId × PriorFinding)) (db : Db)
        → AllStillOpen db v.settled ids
        → let after = apply_verdict env lane rows v e db in AllStillOpen after.1 after.0.settled ids
    unfolding apply_verdict pure
    apply_verdict-StillOpen v e ids db h = elim (Option-cases (get rows e.id)) [
      | inl none_ ↦ rw (none_, apply_verdict) h
      | inr (id, here) ↦ rw (here, apply_verdict) (apply_to_row-StillOpen v e id ids db here h)
    ]

    -- After all verdicts, the rows of the ids that none of them settled are open.
    pub apply_verdicts-StillOpen :
        (v : Verdicts) (es : List Verdict) (ids : List (PriorId × PriorFinding)) (db : Db)
        → AllStillOpen db v.settled ids
        → let after = apply_verdicts env lane rows v es db in
          AllStillOpen after.1 after.0.settled ids
    unfolding apply_verdicts pure ◌>>=◌
    apply_verdicts-StillOpen v [] ids db h = h
    apply_verdicts-StillOpen v (e ∷ es) ids db h =
        let next = apply_verdict env lane rows v e db in
        apply_verdicts-StillOpen next.0 es ids next.1 (apply_verdict-StillOpen v e ids db h)

  -- A table of claims names only claims with an open row.
  abbrev pub NamesOpen : Db → List (Anchor × FindingId) → Type 0
  NamesOpen db out =
      (a : Anchor) (id : FindingId) → get out a ≡ some id → HasOpen casefold lane a db

  note_open-NamesOpen :
      (db : Db) (settled : List PriorId) (out : List (Anchor × FindingId)) (i : PriorId)
      (prior : PriorFinding) (row : Option FindingId)
      → get rows i ≡ row
      → NamesOpen db out
      → StillOpen db settled (i, prior)
      → NamesOpen db (note_open casefold settled out i prior row)
  unfolding note_open
  note_open-NamesOpen db settled out i prior none e known h a id g = known a id g
  note_open-NamesOpen db settled out i prior (some row_id) e known h a id g =
      elim (Bool-cases (elem i settled)) [
        | inl done ↦ known a id (rw done at g)
        | inr out_ ↦
            let anchor = claim_anchor casefold prior.file prior.title in
            let (n, is, open_row) = h row_id e out_ in
            elim (Bool-cases (anchor == a)) [
              | inl same ↦
                  rw (← (==_iff anchor a).0 same)
                    (OpenRow-HasOpen casefold lane n anchor db open_row)
              | inr differ ↦ known a id (rw (get-put out anchor a row_id, differ) at (rw out_ at g))
            ]
      ]

  pub still_open_from-NamesOpen :
      (db : Db) (settled : List PriorId) (ids : List (PriorId × PriorFinding))
      (out : List (Anchor × FindingId))
      → NamesOpen db out
      → AllStillOpen db settled ids
      → NamesOpen db (still_open_from casefold rows settled out ids)
  unfolding still_open_from
  still_open_from-NamesOpen db settled [] out known h = known
  still_open_from-NamesOpen db settled ((i, prior) ∷ ids) out known h =
      still_open_from-NamesOpen db settled ids (note_open casefold settled out i prior (get rows i))
        (note_open-NamesOpen db settled out i prior (get rows i) refl known h.0) h.1
