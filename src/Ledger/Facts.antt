-- ===== src/Ledger/Facts.antt =====
-- What holds of the lane and the round of the examples.
use fuko_pr.Prelude.{
  if◌then◌else◌, Bool, sym, ◌∙◌, ◌⊎◌, inl, inr, has_text, ==_iff, Bool-cases, arith, ap, String,
  take_text, strip, get, ◌==◌, text_eq, ◌≡◌, ◌≢◌, refl, true, false, none, some, All,
}
use fuko_pr.Ledger.Rows.{FindingId, Lane, fixed, parse_status, uuid, clip}
use fuko_pr.Ledger.Prior.{PriorId, prior_id_eq, minted, accept_from, accepted_status}
use fuko_pr.Ledger.Tree.{is_gone, tree_root}
use fuko_pr.Ledger.Claims.{claim_anchor}
use fuko_pr.Ledger.Ids.{Distinct, IdsOk}
use fuko_pr.Ledger.OpenRows.{OpenRow, is_open_row, is_open_claim}
use fuko_pr.Ledger.NoLoss.{Fits}
use fuko_pr.Ledger.Settled.{IsServed}
use fuko_pr.Ledger.Published.{IsCarried}
use fuko_pr.Ledger.Retiring.{FileStays}
use fuko_pr.Ledger.Closing.{Spares}
use fuko_pr.Ledger.Fixtures.{
  a_lane, a_neighbour, an_env, no_fold, a_db, a_carry, a_round, a_carried, still_here, reject,
  bare_carry,
}

pub lanes-Apart : a_lane ≢ a_neighbour
lanes-Apart e = let k : false ≡ true = ap (λ (l : Lane). l.seat == "basil") e in ground arith

pub an_env-IsServed : IsServed an_env
an_env-IsServed = record { enabled = refl; up = λ n. refl }

pub an_env-Distinct : Distinct an_env
an_env-Distinct n m e = e

pub a_db-IdsOk : IdsOk an_env a_db
a_db-IdsOk = record {
  drawn = ((0, ground arith, refl), ((1, ground arith, refl), ((2, ground arith, refl), tt)));
  unique = ((λ e. ground arith, (λ e. ground arith, tt)), ((λ e. ground arith, tt), (tt, tt)));
}

pub a_round-Fits : All Fits a_round.findings
unfolding clip take_text
a_round-Fits = ((refl, refl), ((refl, refl), ((refl, refl), tt)))

pub a_db-OpenRow : OpenRow no_fold a_lane 1 (claim_anchor no_fold "a.py" "race") a_db
unfolding is_open_row is_open_claim claim_anchor strip
a_db-OpenRow = refl

pub not_fixed : reject ≢ "fixed"
not_fixed e = let k : false ≡ true = ap (λ (t : String). t == "fixed") e in ground arith

pub blank : has_text " " ≡ false
unfolding strip
blank = refl

pub still_here-Spares :
    Spares no_fold a_lane an_env 1
      (claim_anchor no_fold "a.py" "race")
      a_carried.rows
      (accepted_status a_carried.state still_here.prior_status)
unfolding accepted_status accept_from get
still_here-Spares = (spared, tt)
  where
    spared :
        (reject ≡ "fixed") ⊎ ((reject ≡ "rejected") × (has_text " " ≡ true))
        → some (uuid 1) ≢ some (uuid 1)
    spared (inl e) = absurd (not_fixed e)
    spared (inr (e, k)) = absurd (ground (arith, blank))

one_row : (i : PriorId) (id : FindingId) → get a_carried.rows i ≡ some id → i ≡ minted 1
unfolding get
one_row i id p = elim (Bool-cases (minted 1 == i)) [
  | inl here ↦ sym ((==_iff (minted 1) i).0 here)
  | inr away ↦ let k : none ≡ some id = rw away at p in absurd (ground (arith, k))
]

pub a_carried-IsCarried : IsCarried no_fold a_lane an_env a_carried a_db
unfolding get is_open_row is_open_claim claim_anchor strip
a_carried-IsCarried = record {
  apart = λ i j id p q. one_row i id p ∙ sym (one_row j id q);
  open_rows = (λ id e out. (1, cc, refl), tt);
}

pub bare_carry-root : tree_root bare_carry.tree ≡ none
unfolding tree_root
bare_carry-root = refl

pub known : parse_status "fixed" ≡ some fixed
unfolding parse_status
known = refl

either_way : (b : Bool) → (if b then false else false) ≡ false
either_way true = refl
either_way false = refl

pub a_tree-FileStays :
    FileStays no_fold a_lane an_env 1
      (claim_anchor no_fold "a.py" "race")
      a_carry.tree
      a_db.findings
unfolding is_gone
a_tree-FileStays root e = (λ k. either_way _, (λ k. either_way _, (λ k. either_way _, tt)))
