-- ===== src/Fleet/Promotions.antt =====
-- What an escalation may add to a round (sidecar/runner.py, `plan_escalation`).
use fuko_pr.Prelude.{
  ℕ, ◌+◌, ◌*◌, ◌≤◌, max, String, ◌≡◌, ◌≢◌, refl, ◌∙◌, sym, Bool, true, false, not, ◌&&◌, Option,
  none, some, List, [], ◌∷◌, ◌++◌, arith, length, map, All, All-append, All-map, subst, nat_eq,
  text_eq,
}
use fuko_pr.Fleet.Models.{active, ReviewModel, ReviewConfig}
use fuko_pr.Fleet.Escalation.{
  backend_of, has_identity, sequential_cost, over_budget, Refusal, promoted_entry, or_backends,
  joins_other, refusal, Plan, plan_step, plan_from, plan_escalation,
}
use fuko_pr.Fleet.Accounted.{Accounts, plan_from-Accounts}
use fuko_pr.Fleet.Backends.{joins_own}

module _ (getenv : String → String) (existing : List ReviewModel) (review : ReviewConfig)
    (concurrent : Bool) where
  abbrev tools : ℕ
  tools = max (length review.tools) 1

  -- What holds of the entries promoted so far.
  pub record MayJoin (promote : List ReviewModel) : Type 0 where
    pub gating : All (λ (m : ReviewModel). (m.role ≡ active) × (m.promoted ≡ true)) promote
    pub own_identity : concurrent ≡ true → All (λ m. has_identity getenv m ≡ true) promote
    pub within :
        promote ≢ []
        → (minutes : ℕ) → review.job_budget_minutes ≡ some minutes
        → sequential_cost review tools (existing ++ promote) ≤ 60 * minutes
    pub one_backend :
        promote ≢ []
        → (b : String) × All (λ m. backend_of review m ≡ b) existing
          × All (λ m. backend_of review m ≡ b) promote

  MayJoin-none : MayJoin []
  MayJoin-none = record {
    gating = tt;
    own_identity = λ c. tt;
    within = λ n. absurd (n refl);
    one_backend = λ n. absurd (n refl);
  }

  cost-append :
      (n : ℕ) (xs ys : List ReviewModel)
      → sequential_cost review n (xs ++ ys)
        ≡ sequential_cost review n xs + sequential_cost review n ys
  unfolding sequential_cost
  cost-append n [] ys = omega arith
  cost-append n (x ∷ xs) ys = omega (arith, cost-append n xs ys)

  -- What the three tests let through.
  refusal-none :
      (promote : List ReviewModel) (entry : ReviewModel)
      → refusal getenv existing review concurrent promote entry ≡ none
      → (concurrent && not (has_identity getenv entry) ≡ false)
        × (joins_other
              (or_backends (map (backend_of review) existing) (map (backend_of review) promote))
              (backend_of review entry)
            ≡ false)
        × (over_budget
              (sequential_cost review tools (existing ++ (promote ++ entry ∷ [])))
              review.job_budget_minutes
            ≡ false)
  unfolding refusal
  refusal-none promote entry h = ground (arith, h)

  promoted-backend : (m : ReviewModel) → backend_of review (promoted_entry m) ≡ backend_of review m
  unfolding backend_of promoted_entry
  promoted-backend m = refl

  All-backend_of :
      (b : String) (ms : List ReviewModel)
      → All (λ x. x ≡ b) (map (backend_of review) ms)
      → All (λ m. backend_of review m ≡ b) ms
  All-backend_of b [] h = tt
  All-backend_of b (m ∷ ms) h = (h.0, All-backend_of b ms h.1)

  -- The backend of a promoted entry is that of the whole round.
  round-backend :
      (existing' promote : List ReviewModel) (entry : ReviewModel)
      → (promote ≢ []
          → (b : String) × All (λ m. backend_of review m ≡ b) existing'
            × All (λ m. backend_of review m ≡ b) promote)
      → joins_other
          (or_backends (map (backend_of review) existing') (map (backend_of review) promote))
          (backend_of review entry)
        ≡ false
      → All (λ m. backend_of review m ≡ backend_of review entry) existing'
        × All (λ m. backend_of review m ≡ backend_of review entry) promote
  round-backend [] [] entry same h = (tt, tt)
  round-backend [] (p ∷ ps) entry same h = (
    tt,
    All-backend_of (backend_of review entry) (p ∷ ps)
        (joins_own (map (backend_of review) (p ∷ ps)) _ h),
  )
  round-backend (e ∷ es) [] entry same h = (
    All-backend_of (backend_of review entry) (e ∷ es)
        (joins_own (map (backend_of review) (e ∷ es)) _ h),
    tt,
  )
  round-backend (e ∷ es) (p ∷ ps) entry same h =
      let own =
        All-backend_of (backend_of review entry) (e ∷ es)
          (joins_own (map (backend_of review) (e ∷ es)) _ h) in
      let round = same (λ e. cc) in
      let b : round.0 ≡ backend_of review entry = sym round.1.0 ∙ own.0 in
      (own, All-map _ _ (λ m k. k ∙ b) (p ∷ ps) round.2)

  promoted-identity :
      (m : ReviewModel) → has_identity getenv (promoted_entry m) ≡ has_identity getenv m
  unfolding has_identity promoted_entry
  promoted-identity m = refl

  identity_of : {b : Bool} → concurrent ≡ true → (concurrent && not b) ≡ false → b ≡ true
  identity_of {b} c h = ground (arith, c, h)

  promoted-cost :
      (n : ℕ) (promote : List ReviewModel) (entry : ReviewModel)
      → sequential_cost review n (existing ++ (promote ++ promoted_entry entry ∷ []))
        ≡ sequential_cost review n (existing ++ (promote ++ entry ∷ []))
  unfolding sequential_cost promoted_entry
  promoted-cost n promote entry = omega (
    arith,
    cost-append n existing (promote ++ promoted_entry entry ∷ []),
    cost-append n promote (promoted_entry entry ∷ []),
    cost-append n existing (promote ++ entry ∷ []),
    cost-append n promote (entry ∷ []),
  )

  within_budget : (cost minutes : ℕ) → over_budget cost (some minutes) ≡ false → cost ≤ 60 * minutes
  within_budget cost minutes h = ground arith

  MayJoin-step :
      (promote : List ReviewModel) (entry : ReviewModel)
      → MayJoin promote
      → refusal getenv existing review concurrent promote entry ≡ none
      → MayJoin (promote ++ promoted_entry entry ∷ [])
  unfolding promoted_entry
  MayJoin-step promote entry m h =
      let t = refusal-none promote entry h in
      let cost = sequential_cost review tools (existing ++ (promote ++ entry ∷ [])) in
      let same = round-backend existing promote entry m.one_backend t.1 in
      record {
        gating = All-append _ promote _ m.gating ((refl, refl), tt);
        own_identity = λ c.
            All-append _ promote _ (m.own_identity c)
              ((promoted-identity entry ∙ identity_of c t.0), tt);
        within = λ n minutes e. omega (
          arith,
          promoted-cost tools promote entry,
          within_budget cost minutes (subst (λ o. over_budget cost o ≡ false) e t.2),
        );
        one_backend = λ n. (
          backend_of review entry,
          same.0,
          All-append _ promote _ same.1 (promoted-backend entry, tt),
        );
      }

  plan_from-MayJoin :
      (plan : Plan) (backups : List ReviewModel)
      → MayJoin plan.promote
      → MayJoin (plan_from getenv existing review concurrent plan backups).promote
  unfolding plan_from
  plan_from-MayJoin plan [] m = m
  plan_from-MayJoin plan (entry ∷ backups) m =
      plan_from-MayJoin
        (plan_step plan entry (refusal getenv existing review concurrent plan.promote entry))
        backups (decided (refusal getenv existing review concurrent plan.promote entry) refl)
    where
      decided :
          (why : Option Refusal)
          → refusal getenv existing review concurrent plan.promote entry ≡ why
          → MayJoin (plan_step plan entry why).promote
      decided none e = MayJoin-step plan.promote entry m e
      decided (some why) e = m

-- An escalation promotes only what may join the round, and accounts for every backup, in order: it is
-- promoted, as a copy of it that is active and marked, when none of the three tests is against it
-- beside the entries promoted before it; else the reasons name it with the first test that is. In a
-- concurrent round each promoted entry has its own token; with the fleet they fit the job budget, run
-- one after another; and they share one backend with each other and with the whole fleet.
pub plan_escalation-MayJoin :
    (getenv : String → String) (existing backups : List ReviewModel) (review : ReviewConfig)
    (concurrent : Bool)
    → let plan = plan_escalation getenv existing backups review concurrent in
      MayJoin getenv existing review concurrent plan.promote
      × Accounts getenv existing review concurrent [] backups plan.promote plan.reasons
unfolding plan_escalation
plan_escalation-MayJoin getenv existing backups review concurrent =
    let (promote, reasons, p, r, accounts) =
      plan_from-Accounts getenv existing review concurrent (record { promote = []; reasons = [] })
        backups in
    (
      plan_from-MayJoin getenv existing review concurrent _ backups
          (MayJoin-none getenv existing review concurrent),
      rw (p, r) accounts,
    )
