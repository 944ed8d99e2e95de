-- ===== src/Ledger/Shown.antt =====
-- Which coverage a round is shown (sidecar/reviewer/ledger.py, `_carried_coverage`, and
-- `render_prior_state` of sidecar/reviewer/prompt.py).
use fuko_pr.Prelude.{
  ℕ, ◌≤◌, String, ◌≡◌, refl, ◌∙◌, ap, Bool, true, false, not, ◌||◌, ◌&&◌, some, List, [], ◌∷◌,
  arith, length, filterb, any, any-sort, map, elem, elem-dedup, dedup, subst, length-take, All,
  All-map, All-both, All-any, All-filterb, All-take, All-sort, is_sorted, is_sorted-take,
  is_sorted-sort, ◌≢◌, filterb-passes, sort, ◌==◌, ==_refl, text_eq, Bool-cases, Option-cases, inl,
  inr,
}
use fuko_pr.Ledger.Rows.{Lane, Db, Env}
use fuko_pr.Ledger.Actions.{◌>>=◌, pure}
use fuko_pr.Ledger.Coverage.{PriorCoverage}
use fuko_pr.Ledger.Reads.{PriorFinding}
use fuko_pr.Ledger.Prior.{PriorState, later_round, max_prior_coverage, render_prior_state}
use fuko_pr.Ledger.Tree.{Tree, tree_root, is_gone}
use fuko_pr.Ledger.Carry.{
  is_retraceable, text_le, sorted_set, gone_files, drop_gone, check_tree, carried_coverage,
  load_coverage, CarryArgs, carry_in,
}

-- A coverage entry that a round may be shown: everything needed to retrace it is there, and its
-- file is not gone from a checkout that can be judged.
pub record IsStanding (tree : Tree) (c : PriorCoverage) : Type 0 where
  pub retraceable : is_retraceable c ≡ true
  pub present : (root : String) → tree_root tree ≡ some root → is_gone tree root c.file ≡ false

elem-sorted_set : (f : String) (files : List String) → elem f (sorted_set files) ≡ elem f files
elem-sorted_set f files = any-sort text_le (λ x. x == f) (dedup files) ∙ elem-dedup f files

any-map :
    (p : String → Bool) (cs : List PriorCoverage)
    → any p (map (λ (c : PriorCoverage). c.file) cs) ≡ any (λ (c : PriorCoverage). p c.file) cs
any-map p [] = refl
any-map p (c ∷ cs) = ap (λ b. p c.file || b) (any-map p cs)

any-filterb :
    (p q : PriorCoverage → Bool) (cs : List PriorCoverage)
    → any q (filterb p cs) ≡ any (λ c. p c && q c) cs
any-filterb p q [] = refl
any-filterb p q (c ∷ cs) = ground (arith, any-filterb p q cs)

-- An entry that is gone has its file in the list of the gone files.
gone_files-elem :
    (tree : Tree) (root : String) (kept : List PriorCoverage)
    → All
        (λ (c : PriorCoverage).
          is_gone tree root c.file ≡ true → elem c.file (gone_files tree root kept) ≡ true)
        kept
unfolding gone_files
gone_files-elem tree root kept =
    All-map (λ (c : PriorCoverage). (q : PriorCoverage → Bool) → q c ≡ true → any q kept ≡ true) _
      (λ c here gone.
        elem-sorted_set c.file _
        ∙ any-map (λ x. x == c.file)
            (filterb (λ (d : PriorCoverage). is_gone tree root d.file) kept)
        ∙ any-filterb (λ (d : PriorCoverage). is_gone tree root d.file)
            (λ (d : PriorCoverage). d.file == c.file) kept
        ∙ here (λ (d : PriorCoverage). is_gone tree root d.file && (d.file == c.file))
            (rw gone (==_refl c.file)))
      kept (All-any kept)

same_root :
    (tree : Tree) (root : String) (b : Bool) (f : String → Bool)
    → tree_root tree ≡ some root
    → f root ≡ b
    → (r : String) → tree_root tree ≡ some r
    → f r ≡ b
same_root tree root b f e h r k = let same : root ≡ r = cc in subst (λ x. f x ≡ b) same h

standing :
    (tree : Tree) (root : String) (gone : List String) (c : PriorCoverage)
    → tree_root tree ≡ some root
    → is_retraceable c ≡ true
    → (is_gone tree root c.file ≡ true → elem c.file gone ≡ true)
    → elem c.file gone ≡ false
    → IsStanding tree c
standing tree root gone c e r k l = record {
  retraceable = r;
  present =
      same_root tree root false (λ x. is_gone tree x c.file) e
        (elim (Bool-cases (is_gone tree root c.file)) [
          | inl away ↦ absurd (ground (arith, k away, l))
          | inr here ↦ here
        ]);
}

module _ (env : Env) (lane : Lane) (tree : Tree) where
  drop_gone-IsStanding :
      (root : String) (kept : List PriorCoverage) (hollow : ℕ) (gone : List String) (db : Db)
      → tree_root tree ≡ some root
      → All
          (λ (c : PriorCoverage).
            (is_retraceable c ≡ true) × (is_gone tree root c.file ≡ true → elem c.file gone ≡ true))
          kept
      → All (IsStanding tree) (drop_gone env lane kept hollow gone db).0.kept
  unfolding drop_gone pure ◌>>=◌
  drop_gone-IsStanding root kept hollow [] db e h =
      All-map _ (IsStanding tree) (λ c k. standing tree root [] c e k.0 k.1 refl) kept h
  drop_gone-IsStanding root kept hollow (g ∷ gs) db e h =
      All-map _ (IsStanding tree)
        (λ c k. standing tree root (g ∷ gs) c e k.0.0 k.0.1 (ground (arith, k.1))) _
        (All-both _ (λ (c : PriorCoverage). not (elem c.file (g ∷ gs)) ≡ true) _
          (All-filterb _ (λ (c : PriorCoverage). not (elem c.file (g ∷ gs))) kept h)
          (filterb-passes (λ (c : PriorCoverage). not (elem c.file (g ∷ gs))) kept))

  check_tree-IsStanding :
      (kept : List PriorCoverage) (hollow : ℕ) (db : Db)
      → All (λ c. is_retraceable c ≡ true) kept
      → All (IsStanding tree) (check_tree env lane tree kept hollow db).0.kept
  unfolding check_tree pure
  check_tree-IsStanding kept hollow db h = elim (Option-cases (tree_root tree)) [
    | inl none_ ↦
        rw (none_, check_tree)
          (All-map _ (IsStanding tree) (λ c r. record { retraceable = r; present = λ root e. cc })
            kept h)
    | inr (root, some_) ↦
        rw (some_, check_tree)
          (drop_gone-IsStanding root kept hollow _ db some_
            (All-both _ _ kept h (gone_files-elem tree root kept)))
  ]

  load_coverage-IsStanding :
      (on : Bool) (db : Db) → All (IsStanding tree) (load_coverage env lane tree on db).0.kept
  unfolding load_coverage carried_coverage pure ◌>>=◌
  load_coverage-IsStanding false db = tt
  load_coverage-IsStanding true db = check_tree-IsStanding _ _ _ (filterb-passes is_retraceable _)

-- What the coverage section of a round holds: entries that stand, 40 at most, in falling order of
-- their rounds, and cut only at 40.
pub record IsShown (tree : Tree) (state : PriorState) : Type 0 where
  pub stands : All (IsStanding tree) state.shown
  pub bounded : length state.shown ≤ max_prior_coverage
  pub newest_first : is_sorted later_round state.shown ≡ true
  pub cut : state.dropped ≢ 0 → length state.shown ≡ max_prior_coverage

later_round-total : (a b : PriorCoverage) → (later_round a b || later_round b a) ≡ true
later_round-total a b = ground arith

render_prior_state-IsShown :
    (tree : Tree) (findings : List PriorFinding) (coverage : List PriorCoverage)
    → All (IsStanding tree) coverage
    → IsShown tree (render_prior_state findings coverage)
unfolding render_prior_state
render_prior_state-IsShown tree findings coverage h =
    let ordered = sort later_round coverage in
    let size = length-take max_prior_coverage ordered in
    record {
      stands = All-take _ max_prior_coverage ordered (All-sort later_round _ coverage h);
      bounded = omega (arith, size);
      newest_first =
          is_sorted-take later_round max_prior_coverage ordered
            (is_sorted-sort later_round later_round-total coverage);
      cut = λ n. omega (arith, size, n);
    }

-- Whatever the ledger and the checkout hold, and whatever calls fail, the coverage that `carry_in`
-- shows a round can be retraced, is of no file that is gone from a checkout that can be judged, is
-- 40 entries at most, newest round first, and is cut only once there are 40.
pub carry_in-IsShown :
    (env : Env) (lane : Lane) (args : CarryArgs) (db : Db)
    → IsShown args.tree (carry_in env lane args db).0.state
unfolding carry_in pure ◌>>=◌
carry_in-IsShown env lane args db =
    render_prior_state-IsShown args.tree _ _
      (load_coverage-IsStanding env lane args.tree args.coverage_ledger _)
