-- ===== src/Fleet/Pool.antt =====
-- sidecar/pool.py, `order_pool`: in which order a failover tries the entries of a pool.
use fuko_pr.Prelude.{
  ℕ, String, Bool, true, ◌||◌, ◌&&◌, Option, none, some, List, leb, ltb, elem, sort, ◌==◌, text_eq,
  nat_eq, if◌then◌else◌,
}
use fuko_pr.Fleet.Models.{ReviewModel}

-- Whether a window holds the job; both are optional, and an absent one fits.
unfoldable pub window_fits : Option ℕ → Option ℕ → Bool
window_fits none window = true
window_fits (some required) none = true
window_fits (some required) (some window) = leb required window

unfoldable pub fits : Option ℕ → ReviewModel → Bool
unfolding window_fits
fits required m = window_fits required m.config.max_context

abbrev pub is_cooled : List String → ReviewModel → Bool
is_cooled cooled m = elem m.config.provider cooled

-- `rank`
unfoldable pub rank : List String → Option ℕ → ReviewModel → ℕ × ℕ
unfolding fits
rank cooled required m = (if fits required m then 0 else 1, if is_cooled cooled m then 1 else 0)

-- A tuple is not above another.
abbrev pub rank_le : ℕ × ℕ → ℕ × ℕ → Bool
rank_le p q = ltb p.0 q.0 || ((p.0 == q.0) && leb p.1 q.1)

-- `sorted(pool, key=rank)`, which keeps equal ranks in order.
unfoldable pub order_pool : List ReviewModel → List String → Option ℕ → List ReviewModel
unfolding rank
order_pool pool cooled required =
    sort (λ a b. rank_le (rank cooled required a) (rank cooled required b)) pool
