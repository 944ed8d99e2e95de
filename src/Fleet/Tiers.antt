-- ===== src/Fleet/Tiers.antt =====
-- The tiers of a pool (sidecar/pool.py): the order that the docstring of `order_pool` promises.
use fuko_pr.Prelude.{
  ℕ, String, ◌≡◌, refl, ◌∙◌, ap, Bool, true, false, not, ◌&&◌, Option, List, [], ◌∷◌, ◌++◌, arith,
  All, All-append, All-map, filterb, filterb-passes, insert_sorted, sort, if◌then◌else◌,
}
use fuko_pr.Fleet.Models.{ReviewModel}
use fuko_pr.Fleet.Pool.{fits, is_cooled, rank, rank_le, order_pool}

module _ {ℓ} {A : Type ℓ} (le : A → A → Bool) where
  -- An element goes past what is below it,
  insert_past :
      (x : A) (ys zs : List A)
      → All (λ y. le x y ≡ false) ys
      → insert_sorted le x (ys ++ zs) ≡ ys ++ insert_sorted le x zs
  unfolding insert_sorted
  insert_past x [] zs h = refl
  insert_past x (y ∷ ys) zs h = rw h.0 (ap (λ t. y ∷ t) (insert_past x ys zs h.1))

  -- and stops before what is not.
  insert_front :
      (x : A) (zs : List A) → All (λ z. le x z ≡ true) zs → insert_sorted le x zs ≡ x ∷ zs
  unfolding insert_sorted
  insert_front x [] h = refl
  insert_front x (z ∷ zs) h = rw h.0

module _ (cooled : List String) (required : Option ℕ) where
  -- The entries of one tier: whether they fit, and whether they are in cooldown.
  unfoldable pub in_tier : Bool → Bool → ReviewModel → Bool
  in_tier fit cold m =
      (if fit then fits required m else not (fits required m))
      && (if cold then is_cooled cooled m else not (is_cooled cooled m))

  abbrev pub tier : Bool → Bool → List ReviewModel → List ReviewModel
  tier fit cold = filterb (in_tier fit cold)

  abbrev pub tiers : List ReviewModel → List ReviewModel
  tiers pool =
      tier true false pool
      ++ (tier true true pool ++ (tier false false pool ++ tier false true pool))

  abbrev before : ReviewModel → ReviewModel → Bool
  before a b = rank_le (rank cooled required a) (rank cooled required b)

  abbrev tier_rank : Bool → Bool → ℕ × ℕ
  tier_rank fit cold = (if fit then 0 else 1, if cold then 1 else 0)

  rank-in_tier :
      (fit cold : Bool) (m : ReviewModel)
      → in_tier fit cold m ≡ true
      → rank cooled required m ≡ tier_rank fit cold
  unfolding in_tier rank
  rank-in_tier true true m h = ground arith
  rank-in_tier true false m h = ground arith
  rank-in_tier false true m h = ground arith
  rank-in_tier false false m h = ground arith

  module _ (fit cold : Bool) (x : ReviewModel) (here : in_tier fit cold x ≡ true) where
    -- An entry of one tier stands to the entries of another as the tiers do.
    before-tier :
        (fit' cold' : Bool) (pool : List ReviewModel)
        → All
            (λ z. before x z ≡ rank_le (tier_rank fit cold) (tier_rank fit' cold'))
            (tier fit' cold' pool)
    before-tier fit' cold' pool =
        All-map (λ z. in_tier fit' cold' z ≡ true)
          (λ z. before x z ≡ rank_le (tier_rank fit cold) (tier_rank fit' cold'))
          (λ z k. rw (rank-in_tier fit cold x here, rank-in_tier fit' cold' z k) refl)
          (tier fit' cold' pool) (filterb-passes (in_tier fit' cold') pool)

  abbrev last_tiers : List ReviewModel → List ReviewModel
  last_tiers pool = tier false false pool ++ tier false true pool

  abbrev later_tiers : List ReviewModel → List ReviewModel
  later_tiers pool = tier true true pool ++ last_tiers pool

  All-last_tiers :
      (P : ReviewModel → Type 0) (pool : List ReviewModel)
      → All P (tier false false pool)
      → All P (tier false true pool)
      → All P (last_tiers pool)
  All-last_tiers P pool h k = All-append P (tier false false pool) (tier false true pool) h k

  All-later_tiers :
      (P : ReviewModel → Type 0) (pool : List ReviewModel)
      → All P (tier true true pool)
      → All P (last_tiers pool)
      → All P (later_tiers pool)
  All-later_tiers P pool h k = All-append P (tier true true pool) (last_tiers pool) h k

  -- A further entry goes to the front of its tier.
  insert_tiers :
      (fit cold : Bool) (x : ReviewModel) (pool : List ReviewModel)
      → fits required x ≡ fit
      → is_cooled cooled x ≡ cold
      → insert_sorted before x (tiers pool) ≡ tiers (x ∷ pool)
  unfolding in_tier
  insert_tiers true false x pool f c =
      let b = before-tier true false x (ground arith) in
      rw (f, c)
        (insert_front before x (tiers pool) (
          All-append _ (tier true false pool) (later_tiers pool) (b true false pool) (
            All-later_tiers _ pool (b true true pool)
              (All-last_tiers _ pool (b false false pool) (b false true pool)))))
  insert_tiers true true x pool f c =
      let b = before-tier true true x (ground arith) in
      rw (f, c)
        (insert_past before x (tier true false pool) (later_tiers pool) (b true false pool)
          ∙ ap (λ t. tier true false pool ++ t)
              (insert_front before x (later_tiers pool) (
                All-later_tiers _ pool (b true true pool)
                  (All-last_tiers _ pool (b false false pool) (b false true pool)))))
  insert_tiers false false x pool f c =
      let b = before-tier false false x (ground arith) in
      rw (f, c)
        (insert_past before x (tier true false pool) (later_tiers pool) (b true false pool)
          ∙ ap (λ t. tier true false pool ++ t)
              (insert_past before x (tier true true pool) (last_tiers pool) (b true true pool)
                ∙ ap (λ t. tier true true pool ++ t)
                    (insert_front before x (last_tiers pool)
                      (All-last_tiers _ pool (b false false pool) (b false true pool)))))
  insert_tiers false true x pool f c =
      let b = before-tier false true x (ground arith) in
      rw (f, c)
        (insert_past before x (tier true false pool) (later_tiers pool) (b true false pool)
          ∙ ap (λ t. tier true false pool ++ t)
              (insert_past before x (tier true true pool) (last_tiers pool) (b true true pool)
                ∙ ap (λ t. tier true true pool ++ t)
                    (insert_past before x (tier false false pool) (tier false true pool)
                        (b false false pool)
                      ∙ ap (λ t. tier false false pool ++ t)
                          (insert_front before x (tier false true pool) (b false true pool)))))

  -- The order of a failover is, whatever the pool, first the entries that fit and are available,
  -- then those that fit and are in cooldown, then those too small and available, then those too
  -- small and in cooldown, with the order of the configuration kept inside each tier.
  pub order_pool-tiers : (pool : List ReviewModel) → order_pool pool cooled required ≡ tiers pool
  unfolding order_pool sort
  order_pool-tiers [] = refl
  order_pool-tiers (x ∷ pool) =
      ap (insert_sorted before x) (order_pool-tiers pool)
      ∙ insert_tiers (fits required x) (is_cooled cooled x) x pool refl refl
